-- ===== src/Benchmark/ProfileEvidence/Execute.antt =====
-- `ExecuteProfile` of labctl-go/internal/benchmark/profile_execute.go. Its options have the fields of those
-- of `Execute`, and `validateProfileOptions` the body of `validateOptions`.
use paraflow.Prelude.{ℕ, ◌+◌, Bool, not, ◌&&◌, Option, List, [], ◌∷◌, ltb}
use paraflow.Prelude.Text.{Bytes, codes, bytes_eq}
use paraflow.Prelude.Outcome.{Outcome, ok, ◌>>=◌, ◌>>◌, refuse, map_err}
use paraflow.Protocol.Message.{WorkloadProjection}
use paraflow.BuildInfo.{Info}
use paraflow.Doctor.{Tool, ToolResult}
use paraflow.Doctor.Assess.{Host, check}
use paraflow.Benchmark.Types.{Request, EngineResult}
use paraflow.Benchmark.Stats.{summarize}
use paraflow.Benchmark.Engine.{EngineError}
use paraflow.Benchmark.Profile.{ProfileEngineResult}
use paraflow.Benchmark.Profile.Analyze.{summarize_profile, analyze_scenario}
use paraflow.Benchmark.Suite.{Scenario, Suite}
use paraflow.Benchmark.Evidence.{
  EvidenceError, cancelled, no_root, engine_unreadable, not_ready, engine_changed, clock_backwards,
  persist_failed, engine_failed, bad_samples, bad_profile, wrong_distribution, builds_differ, Files,
  or_else, suite_identity, engine_artifact, validate_source_alignment, scenario_request, same_build,
}
use paraflow.Benchmark.Evidence.Execute.{
  Options, Stat, validate_options, require_absent, read_suite, read_workload,
}
use paraflow.Benchmark.ProfileEvidence.{
  ProfileExperiment, ScalarProfileReport, profile_report_schema, profile_workload_identity,
  profile_request, baseline_id, profile_id,
}

-- As `Run`, with two runners.
pub record ProfileRun : Type 0 where
  pub context_done : ℕ → Bool
  pub output : Option Stat
  pub started_at : ℕ
  pub completed_at : ℕ
  pub engine_before : Option Bytes
  pub engine_after : Option Bytes
  pub quote : Bytes → Bytes
  pub host : Host
  pub probe : Tool → ToolResult
  pub baseline_runner : ℕ → Request → WorkloadProjection → Outcome EngineError (EngineResult × ℕ)
  pub profile_runner :
      ℕ → Request → WorkloadProjection → Outcome EngineError (ProfileEngineResult × ℕ)
  pub persist : ScalarProfileReport → Bool

-- The end of a turn, behind the two runs: the statistics and the experiment.
unfoldable pub analyzed :
    Files
    → Scenario
    → Bytes
    → WorkloadProjection
    → EngineResult × ℕ
    → ProfileEngineResult × ℕ
    → Outcome EvidenceError ProfileExperiment
analyzed files scenario workload projection baseline profile = do
  baseline_summary ← map_err bad_samples (summarize baseline.0.samples)
  profile_summary ← map_err bad_profile (summarize_profile profile.0.samples)
  analysis ← map_err bad_profile (
      analyze_scenario files.codec projection baseline.0 baseline_summary profile.0 profile_summary)
  ok (record {
    scenario_name = scenario.name;
    workload = profile_workload_identity files scenario workload projection;
    baseline = record {
      orchestration_total_ns = baseline.1;
      engine_result = baseline.0;
      summary = baseline_summary;
    };
    stage_profile = record {
      orchestration_total_ns = profile.1;
      engine_result = profile.0;
      summary = profile_summary;
    };
    analysis = analysis;
  })

-- One turn of the loop over the scenarios.
unfoldable pub profile_scenario :
    Files → ProfileRun → Bytes → Info → ℕ → Scenario → Outcome EvidenceError ProfileExperiment
unfolding analyzed
profile_scenario files run root controller index scenario = do
  refuse (run.context_done (index + 1)) cancelled
  read ← read_workload files root scenario
  refuse
      (not (bytes_eq read.1.distribution (codes "uniform"))
        && not (bytes_eq read.1.distribution (codes "hotspot")))
      wrong_distribution
  baseline ←
      map_err engine_failed
        (run.baseline_runner index (scenario_request scenario (baseline_id index) read.0) read.1)
  validate_source_alignment baseline.0.engine_build controller
  profile ←
      map_err engine_failed
        (run.profile_runner index (profile_request scenario (profile_id index) read.0) read.1)
  validate_source_alignment profile.0.engine_build controller
  refuse (not (same_build profile.0.engine_build baseline.0.engine_build)) builds_differ
  analyzed files scenario read.0 read.1 baseline profile

unfoldable pub profile_scenarios :
    Files
    → ProfileRun
    → Bytes
    → Info
    → ℕ
    → List Scenario
    → Outcome EvidenceError (List ProfileExperiment)
unfolding profile_scenario
profile_scenarios files run root controller index [] = ok []
profile_scenarios files run root controller index (scenario ∷ scenarios) = do
  experiment ← profile_scenario files run root controller index scenario
  experiments ← profile_scenarios files run root controller (index + 1) scenarios
  ok (experiment ∷ experiments)

-- The report of a run.
unfoldable pub reported :
    Files
    → Options
    → ProfileRun
    → Bytes
    → Bytes
    → Suite
    → Bytes
    → List ProfileExperiment
    → ScalarProfileReport
reported files options run root suite_bytes suite engine_hash experiments = record {
  schema_version = profile_report_schema;
  started_at = run.started_at;
  completed_at = run.completed_at;
  suite = suite_identity files root options.suite_path suite_bytes suite;
  controller = options.build;
  environment = check run.quote run.host run.probe options.build;
  engine_artifact = engine_artifact files root options.engine_path engine_hash;
  experiments = experiments;
}

-- What `ExecuteProfile` does behind the loop.
unfoldable pub profile_closing :
    Files
    → Options
    → ProfileRun
    → Bytes
    → Bytes
    → Suite
    → Bytes
    → List ProfileExperiment
    → Outcome EvidenceError ScalarProfileReport
unfolding reported
profile_closing files options run root suite_bytes suite engine_hash experiments = do
  final_hash ← or_else run.engine_after engine_unreadable
  refuse (not (bytes_eq final_hash engine_hash)) engine_changed
  let report = reported files options run root suite_bytes suite engine_hash experiments
  refuse (ltb run.completed_at run.started_at) clock_backwards
  refuse (not (run.persist report)) persist_failed
  ok report

-- `ExecuteProfile`.
unfoldable pub execute_profile :
    Files → Options → ProfileRun → Outcome EvidenceError ScalarProfileReport
unfolding profile_scenarios profile_closing
execute_profile files options run = do
  validate_options options
  refuse (run.context_done 0) cancelled
  require_absent run.output
  read ← read_suite files options.suite_path
  root ← or_else (files.absolute options.repository_root) no_root
  engine_hash ← or_else run.engine_before engine_unreadable
  let environment = check run.quote run.host run.probe options.build
  refuse (not environment.ready) not_ready
  experiments ← profile_scenarios files run root options.build 0 read.1.scenarios
  profile_closing files options run root read.0 read.1 engine_hash experiments
