-- ===== src/App/Dependencies.antt =====
-- `Dependencies` of labctl-go/internal/app/app.go, and what stands behind the commands. `S` is the
-- state of a worker session. An error is its text.
use paraflow.Prelude.{ℕ, Option, none, some, List}
use paraflow.Prelude.Text.{Bytes}
use paraflow.Prelude.Outcome.{Outcome}
use paraflow.BuildInfo.{Info}
use paraflow.Doctor.{Tool, ToolResult, EnvironmentReport}
use paraflow.Doctor.Assess.{Host}
use paraflow.Protocol.Message.{ResultV1, ProtocolError}
use paraflow.Protocol.Response.{Codec}
use paraflow.App.Options.{CaptureOptions}
use paraflow.Benchmark.Receipts.{VerifyOptions, EvidenceVerification}

-- What `runBenchmark` prints of a capture.
pub record BenchmarkLine : Type 0 where
  pub scenario_name : Bytes
  pub samples : ℕ
  pub generation_median : ℕ
  pub pipeline_median : ℕ
  pub engine_total_median : ℕ

pub record CaptureSummary : Type 0 where
  pub suite_name : Bytes
  pub experiments : List BenchmarkLine

-- What `runProfile` prints of a report.
pub record ProfileLine : Type 0 where
  pub scenario_name : Bytes
  pub record_count : ℕ
  pub fused_median : ℕ
  pub dominant_stage : Bytes
  pub dominant_pipeline_stage : Bytes
  pub ratio_milli : ℕ

pub record ProfileReport : Type 0 where
  pub suite_name : Bytes
  pub experiments : List ProfileLine

abbrev pub Probe : Type 0
Probe = Tool → ToolResult

abbrev pub ReadFile : Type 0
ReadFile = Bytes → Outcome Bytes Bytes

-- The options of a benchmark or of a profile with what the dispatch puts into them.
pub record Job : Type 0 where
  pub options : CaptureOptions
  pub build : Info
  pub probe : Option Probe
  pub read_file : Option ReadFile

pub record Dependencies (S : Type 0) : Type 0 where
  pub build : Info
  pub probe : Option Probe
  pub read_file : Option ReadFile
  pub start_worker : Option (Bytes → Outcome Bytes S)
  pub run_benchmark : Option (Job → Outcome Bytes CaptureSummary)
  pub run_profile : Option (Job → Outcome Bytes ProfileReport)
  pub verify_evidence :
      Option (VerifyOptions → Option ReadFile → Outcome Bytes EvidenceVerification)

-- `WorkerSession`.
pub record WorkerSession (S : Type 0) : Type 0 where
  pub execute : Bytes → S → S × Outcome Bytes ResultV1
  pub shutdown : S → S × Outcome Bytes Unit
  pub close : S → S

-- What takes the place of a missing dependency, and the rest that the commands call: `%q`, `%.17g` of
-- the bits of a double, the JSON encoder, the error of a writer that fails, and the host.
pub record World (S : Type 0) : Type 0 where
  pub quote : Bytes → Bytes
  pub print_double : ℕ → Bytes
  pub report_json : EnvironmentReport → Outcome Bytes Bytes
  pub receipt_json : EvidenceVerification → Outcome Bytes Bytes
  pub write_reason : Bytes
  pub host : Host
  pub codec : Codec
  pub protocol_text : ProtocolError → Bytes
  pub session : WorkerSession S
  pub command_probe : Probe
  pub read_file : ReadFile
  pub start_worker : Bytes → Outcome Bytes S
  pub execute_benchmark : Job → Outcome Bytes CaptureSummary
  pub execute_profile : Job → Outcome Bytes ProfileReport
  pub verify_evidence : VerifyOptions → Option ReadFile → Outcome Bytes EvidenceVerification

-- `if f == nil`.
abbrev pub or_default {ℓ} : {A : Type ℓ} → Option A → A → A
or_default none default = default
or_default (some f) default = f
