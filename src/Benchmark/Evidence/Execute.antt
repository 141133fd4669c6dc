-- ===== src/Benchmark/Evidence/Execute.antt =====
-- `Execute` of labctl-go/internal/benchmark/execute.go. `Run` stands for what happens during one run: the
-- context, the clock, the host that the doctor reads, the runner, and the engine's file before and after.
use paraflow.Prelude.{ℕ, ◌+◌, Bool, not, ◌||◌, Option, none, some, List, [], ◌∷◌, ltb}
use paraflow.Prelude.Text.{Bytes, bytes_eq}
use paraflow.Prelude.Utf8.{is_blank}
use paraflow.Prelude.Outcome.{Outcome, ok, err, ◌>>=◌, ◌>>◌, refuse, map_err}
use paraflow.Protocol.Message.{WorkloadProjection}
use paraflow.Protocol.Response.{project_workload}
use paraflow.BuildInfo.{Info}
use paraflow.Doctor.{Tool, ToolResult}
use paraflow.Doctor.Assess.{Host, check}
use paraflow.Benchmark.Types.{Request, EngineResult}
use paraflow.Benchmark.Stats.{summarize}
use paraflow.Benchmark.Engine.{EngineError, valid_source_state}
use paraflow.Benchmark.Suite.{Scenario, Suite, validate_suite}
use paraflow.Benchmark.Evidence.{
  Experiment, Capture, EvidenceError, missing_option, incomplete_controller, cancelled,
  output_exists, output_unknown, suite_unreadable, suite_undecodable, no_root, engine_unreadable,
  not_ready, workload_unreadable, unsupported_workload, engine_changed, clock_backwards,
  persist_failed, invalid_suite, bad_workload, engine_failed, bad_samples, capture_schema,
  workload_schema, Files, or_else, resolve_repository_path, suite_identity, engine_artifact,
  validate_source_alignment, workload_identity, scenario_request, experiment_id,
}

pub record Options : Type 0 where
  pub engine_path : Bytes
  pub suite_path : Bytes
  pub output_path : Bytes
  pub repository_root : Bytes
  pub build : Info

-- What `os.Stat` says of the output path.
pub data Stat : Type 0 where
  present absent unknown : Stat

-- `context_done 0` is the context before the run, `context_done (suc i)` before scenario i. `output` is
-- `none` where the options bring a `Persist` of their own. A runner's first argument is the index.
pub record Run : Type 0 where
  pub context_done : ℕ → Bool
  pub output : Option Stat
  pub started_at : ℕ
  pub completed_at : ℕ
  pub engine_before : Option Bytes
  pub engine_after : Option Bytes
  pub quote : Bytes → Bytes
  pub host : Host
  pub probe : Tool → ToolResult
  pub runner : ℕ → Request → WorkloadProjection → Outcome EngineError (EngineResult × ℕ)
  pub persist : Capture → Bool

unfoldable pub validate_options : Options → Outcome EvidenceError Unit
validate_options options = do
  refuse (is_blank options.engine_path) missing_option
  refuse (is_blank options.suite_path) missing_option
  refuse (is_blank options.output_path) missing_option
  refuse (is_blank options.repository_root) missing_option
  refuse
      (is_blank options.build.version
        || (is_blank options.build.full_commit
            || not (valid_source_state options.build.source_state)))
      incomplete_controller

-- `requireAbsent`, where `PersistCapture` will write.
unfoldable pub require_absent : Option Stat → Outcome EvidenceError Unit
require_absent none = ok tt
require_absent (some absent) = ok tt
require_absent (some present) = err output_exists
require_absent (some unknown) = err output_unknown

unfoldable pub read_suite : Files → Bytes → Outcome EvidenceError (Bytes × Suite)
read_suite files path = do
  suite_bytes ← or_else (files.read_file path) suite_unreadable
  suite ← or_else (files.decode_suite suite_bytes) suite_undecodable
  map_err invalid_suite (validate_suite suite)
  ok (suite_bytes, suite)

unfoldable pub read_workload :
    Files → Bytes → Scenario → Outcome EvidenceError (Bytes × WorkloadProjection)
read_workload files root scenario = do
  path ← resolve_repository_path files root scenario.workload
  workload ← or_else (files.read_file path) workload_unreadable
  projection ← map_err bad_workload (project_workload files.codec workload)
  refuse (not (bytes_eq projection.schema_version workload_schema)) unsupported_workload
  ok (workload, projection)

-- One turn of the loop over the scenarios.
unfoldable pub run_scenario :
    Files → Run → Bytes → Info → ℕ → Scenario → Outcome EvidenceError Experiment
unfolding read_workload
run_scenario files run root controller index scenario = do
  refuse (run.context_done (index + 1)) cancelled
  read ← read_workload files root scenario
  ran ←
      map_err engine_failed
        (run.runner index (scenario_request scenario (experiment_id index) read.0) read.1)
  validate_source_alignment ran.0.engine_build controller
  summary ← map_err bad_samples (summarize ran.0.samples)
  ok (record {
    scenario_name = scenario.name;
    workload = workload_identity files scenario read.0 read.1;
    orchestration_total_ns = ran.1;
    engine_result = ran.0;
    summary = summary;
  })

unfoldable pub scenario_loop :
    Files → Run → Bytes → Info → ℕ → List Scenario → Outcome EvidenceError (List Experiment)
unfolding run_scenario
scenario_loop files run root controller index [] = ok []
scenario_loop files run root controller index (scenario ∷ scenarios) = do
  experiment ← run_scenario files run root controller index scenario
  experiments ← scenario_loop files run root controller (index + 1) scenarios
  ok (experiment ∷ experiments)

-- The capture of a run.
unfoldable pub captured :
    Files → Options → Run → Bytes → Bytes → Suite → Bytes → List Experiment → Capture
captured files options run root suite_bytes suite engine_hash experiments = record {
  schema_version = capture_schema;
  started_at = run.started_at;
  completed_at = run.completed_at;
  suite = suite_identity files root options.suite_path suite_bytes suite;
  controller = options.build;
  environment = check run.quote run.host run.probe options.build;
  engine_artifact = engine_artifact files root options.engine_path engine_hash;
  experiments = experiments;
}

-- What `Execute` does behind the loop.
unfoldable pub closing :
    Files
    → Options
    → Run
    → Bytes
    → Bytes
    → Suite
    → Bytes
    → List Experiment
    → Outcome EvidenceError Capture
unfolding captured
closing files options run root suite_bytes suite engine_hash experiments = do
  final_hash ← or_else run.engine_after engine_unreadable
  refuse (not (bytes_eq final_hash engine_hash)) engine_changed
  let capture = captured files options run root suite_bytes suite engine_hash experiments
  refuse (ltb run.completed_at run.started_at) clock_backwards
  refuse (not (run.persist capture)) persist_failed
  ok capture

-- `Execute`.
unfoldable pub execute_suite : Files → Options → Run → Outcome EvidenceError Capture
unfolding scenario_loop closing read_suite require_absent validate_options
execute_suite files options run = do
  validate_options options
  refuse (run.context_done 0) cancelled
  require_absent run.output
  read ← read_suite files options.suite_path
  root ← or_else (files.absolute options.repository_root) no_root
  engine_hash ← or_else run.engine_before engine_unreadable
  let environment = check run.quote run.host run.probe options.build
  refuse (not environment.ready) not_ready
  experiments ← scenario_loop files run root options.build 0 read.1.scenarios
  closing files options run root read.0 read.1 engine_hash experiments
