-- ===== src/Benchmark/Evidence.antt =====
-- The records of a capture of labctl-go/internal/benchmark/types.go, and what execute.go and verify.go
-- share: the paths of a repository, the identities of its files and the requests of a scenario.
-- `Files` stands for the files, SHA-256, the JSON codec and Go's `filepath`, on a host with `/`
-- between components. An instant is its nanoseconds since the zero `time.Time`.
pub mod Execute
pub mod Verify
pub mod Alike
pub mod Read
pub mod Sound
pub mod Vouched
pub mod Executed
pub mod Turn
pub mod Accepted
mod Examples
pub mod Fixture
use paraflow.Prelude.{
  ℕ, ◌+◌, Bool, true, false, not, ◌&&◌, ◌||◌, Option, none, some, List, ◌++◌, ◌==◌, if◌then◌else◌,
}
use paraflow.Prelude.Text.{Bytes, codes, bytes_eq}
use paraflow.Prelude.Strings.{has_prefix}
use paraflow.Prelude.Outcome.{Outcome, ok, err, ◌>>=◌, ◌>>◌, refuse}
use paraflow.Protocol.Hex.{format_hex}
use paraflow.Protocol.Message.{WorkloadProjection, ProtocolError}
use paraflow.Protocol.Response.{Codec}
use paraflow.BuildInfo.{Info}
use paraflow.Doctor.{EnvironmentReport}
use paraflow.Benchmark.Types.{Request, EngineBuild, EngineResult, Statistics, Summary, Nanoseconds}
use paraflow.Benchmark.Stats.{StatsError}
use paraflow.Benchmark.Engine.{EngineError}
use paraflow.Benchmark.Profile.Analyze.{AnalysisError}
use paraflow.Benchmark.Suite.{Scenario, Suite, SuiteError, clean}

pub record Artifact : Type 0 where
  pub path : Bytes
  pub sha256 : Bytes

pub record SuiteIdentity : Type 0 where
  pub path : Bytes
  pub sha256 : Bytes
  pub schema_version : Bytes
  pub name : Bytes

pub record WorkloadIdentity : Type 0 where
  pub path : Bytes
  pub sha256 : Bytes
  pub schema_version : Bytes
  pub name : Bytes
  pub record_count : ℕ
  pub category_count : ℕ

pub record Experiment : Type 0 where
  pub scenario_name : Bytes
  pub workload : WorkloadIdentity
  pub orchestration_total_ns : Nanoseconds
  pub engine_result : EngineResult
  pub summary : Summary

pub record Capture : Type 0 where
  pub schema_version : Bytes
  pub started_at : ℕ
  pub completed_at : ℕ
  pub suite : SuiteIdentity
  pub controller : Info
  pub environment : EnvironmentReport
  pub engine_artifact : Artifact
  pub experiments : List Experiment

pub data EvidenceError : Type 0 where
  missing_option incomplete_controller cancelled output_exists output_unknown : EvidenceError
  suite_unreadable suite_undecodable no_root engine_unreadable not_ready : EvidenceError
  path_unresolved path_escapes workload_unreadable unsupported_workload : EvidenceError
  commit_mismatch state_mismatch engine_changed clock_backwards persist_failed : EvidenceError
  wrong_capture_schema zero_timestamp completed_early wrong_environment : EvidenceError
  other_source wrong_milestone environment_not_ready zero_environment : EvidenceError
  incomplete_environment bad_suite_path bad_suite_digest incomplete_engine : EvidenceError
  digest_mismatch suite_fields experiment_count wrong_scenario wrong_workload : EvidenceError
  duplicate_experiment version_mismatch build_changed small_orchestration : EvidenceError
  wrong_summary wrong_distribution builds_differ wrong_analysis : EvidenceError
  evidence_unreadable evidence_undecodable unsupported_evidence : EvidenceError
  bad_engine_digest engine_mismatch : EvidenceError
  invalid_suite : SuiteError → EvidenceError
  bad_workload : ProtocolError → EvidenceError
  engine_failed : EngineError → EvidenceError
  bad_samples : StatsError → EvidenceError
  bad_profile : AnalysisError → EvidenceError

abbrev pub capture_schema : Bytes
capture_schema = codes "paraflow.benchmark-capture/v1"

abbrev pub request_schema : Bytes
request_schema = codes "paraflow.benchmark-request/v1"

abbrev pub workload_schema : Bytes
workload_schema = codes "paraflow.workload/v1"

pub record Files : Type 0 where
  pub codec : Codec
  pub decode_suite : Bytes → Option Suite
  pub read_file : Bytes → Option Bytes
  pub hash_bytes : Bytes → Bytes
  pub absolute : Bytes → Option Bytes
  pub join : Bytes → Bytes → Bytes
  pub relative : Bytes → Bytes → Option Bytes
  pub eval_symlinks : Bytes → Option Bytes
  pub is_zero_time : Bytes → Bool

abbrev pub or_else : {A : Type 0} → Option A → EvidenceError → Outcome EvidenceError A
or_else none why = err why
or_else (some a) why = ok a

unfoldable pub outside : Bytes → Bool
outside relative = bytes_eq relative (codes "..") || has_prefix relative (codes "../")

-- `resolveRepositoryPath`.
unfoldable pub resolve_repository_path : Files → Bytes → Bytes → Outcome EvidenceError Bytes
unfolding outside
resolve_repository_path files root repository_path = do
  absolute ← or_else (files.absolute (files.join root repository_path)) path_unresolved
  relative ← or_else (files.relative root absolute) path_unresolved
  refuse (outside relative) path_escapes
  ok absolute

-- `resolveVerifiedRepositoryFile`.
unfoldable pub resolve_verified_repository_file :
    Files → Bytes → Bytes → Outcome EvidenceError Bytes
unfolding resolve_repository_path outside
resolve_verified_repository_file files root repository_path = do
  candidate ← resolve_repository_path files root repository_path
  resolved_root ← or_else (files.eval_symlinks root) path_unresolved
  resolved_candidate ← or_else (files.eval_symlinks candidate) path_unresolved
  relative ← or_else (files.relative resolved_root resolved_candidate) path_unresolved
  refuse (outside relative) path_escapes
  ok resolved_candidate

-- `identityPath`.
unfoldable pub identity_path : Files → Bytes → Bytes → Bytes
unfolding outside clean
identity_path files root value = elim (files.absolute value) [
  | none ↦ clean value
  | some absolute ↦ elim (files.relative root absolute) [
    | none ↦ clean absolute
    | some relative ↦ if outside relative then clean absolute else clean relative
  ]
]

-- `validateSourceAlignment`.
unfoldable pub validate_source_alignment : EngineBuild → Info → Outcome EvidenceError Unit
validate_source_alignment engine controller = do
  refuse (not (bytes_eq engine.source_commit controller.full_commit)) commit_mismatch
  refuse (not (bytes_eq engine.source_state controller.source_state)) state_mismatch

-- The identities of the suite's and of the engine's file.
abbrev pub suite_identity : Files → Bytes → Bytes → Bytes → Suite → SuiteIdentity
suite_identity files root suite_path suite_bytes suite = record {
  path = identity_path files root suite_path;
  sha256 = files.hash_bytes suite_bytes;
  schema_version = suite.schema_version;
  name = suite.name;
}

abbrev pub engine_artifact : Files → Bytes → Bytes → Bytes → Artifact
engine_artifact files root engine_path engine_hash = record {
  path = identity_path files root engine_path;
  sha256 = engine_hash;
}

-- The `WorkloadIdentity` that both files build.
abbrev pub workload_identity : Files → Scenario → Bytes → WorkloadProjection → WorkloadIdentity
workload_identity files scenario workload projection = record {
  path = scenario.workload;
  sha256 = files.hash_bytes workload;
  schema_version = projection.schema_version;
  name = projection.name;
  record_count = projection.record_count;
  category_count = projection.category_count;
}

-- The `Request` that both files build.
abbrev pub scenario_request : Scenario → Bytes → Bytes → Request
scenario_request scenario experiment_id workload = record {
  schema_version = request_schema;
  experiment_id = experiment_id;
  scenario_name = scenario.name;
  execution = scenario.execution;
  sampling = scenario.sampling;
  workload = workload;
}

-- `fmt.Sprintf("day05:%016x", index+1)`.
unfoldable pub experiment_id : ℕ → Bytes
experiment_id index = codes "day05:" ++ format_hex 16 (index + 1)

-- `==` on the structs.
unfoldable pub same_info : Info → Info → Bool
same_info a b =
    bytes_eq a.version b.version
    && (bytes_eq a.full_commit b.full_commit && bytes_eq a.source_state b.source_state)

unfoldable pub same_build : EngineBuild → EngineBuild → Bool
same_build a b =
    bytes_eq a.version b.version
    && (bytes_eq a.profile b.profile
        && (bytes_eq a.target b.target
            && (bytes_eq a.rustc b.rustc
                && (bytes_eq a.source_commit b.source_commit
                    && bytes_eq a.source_state b.source_state))))

unfoldable pub same_workload : WorkloadIdentity → WorkloadIdentity → Bool
same_workload a b =
    bytes_eq a.path b.path
    && (bytes_eq a.sha256 b.sha256
        && (bytes_eq a.schema_version b.schema_version
            && (bytes_eq a.name b.name
                && ((a.record_count == b.record_count) && (a.category_count == b.category_count)))))

unfoldable pub same_statistics : Statistics → Statistics → Bool
same_statistics a b =
    (a.count == b.count)
    && ((a.minimum_ns == b.minimum_ns)
        && ((a.median_ns == b.median_ns)
            && ((a.median_absolute_deviation_ns == b.median_absolute_deviation_ns)
                && (a.maximum_ns == b.maximum_ns))))

unfoldable pub same_summary : Summary → Summary → Bool
unfolding same_statistics
same_summary a b =
    same_statistics a.generation b.generation
    && (same_statistics a.pipeline b.pipeline && same_statistics a.engine_total b.engine_total)
