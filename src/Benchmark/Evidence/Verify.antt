-- ===== src/Benchmark/Evidence/Verify.antt =====
-- `verifyCapture` of labctl-go/internal/benchmark/verify.go and what it calls.
use paraflow.Prelude.{
  ℕ, ◌+◌, not, ◌&&◌, ◌||◌, Option, none, some, List, [], ◌∷◌, ltb, ◌==◌, if◌then◌else◌, length,
}
use paraflow.Prelude.Text.{Bytes, codes, bytes_eq}
use paraflow.Prelude.Utf8.{is_blank}
use paraflow.Prelude.Outcome.{Outcome, ok, err, panic, ◌>>=◌, ◌>>◌, refuse, map_err}
use paraflow.Protocol.Hex.{valid_sha256}
use paraflow.Protocol.Message.{WorkloadProjection}
use paraflow.Protocol.Response.{project_workload}
use paraflow.BuildInfo.{Info}
use paraflow.Doctor.{EnvironmentReport}
use paraflow.Benchmark.Types.{EngineBuild}
use paraflow.Benchmark.Stats.{summarize}
use paraflow.Benchmark.Engine.{valid_source_state, validate_engine_result}
use paraflow.Benchmark.Suite.{Scenario, Suite, valid_repository_json_path, validate_suite, member}
use paraflow.Benchmark.Evidence.{
  Artifact, SuiteIdentity, Experiment, Capture, EvidenceError, incomplete_controller,
  suite_unreadable, suite_undecodable, workload_unreadable, unsupported_workload,
  wrong_capture_schema, zero_timestamp, completed_early, wrong_environment, other_source,
  wrong_milestone, environment_not_ready, zero_environment, incomplete_environment, bad_suite_path,
  bad_suite_digest, incomplete_engine, digest_mismatch, suite_fields, experiment_count,
  wrong_scenario, wrong_workload, duplicate_experiment, version_mismatch, build_changed,
  small_orchestration, wrong_summary, invalid_suite, bad_workload, engine_failed, bad_samples,
  capture_schema, workload_schema, Files, or_else, resolve_verified_repository_file,
  validate_source_alignment, workload_identity, scenario_request, same_info, same_build,
  same_workload, same_summary,
}

-- The fields of `EvidenceVerification` that `verifyCapture` sets.
pub record Receipt : Type 0 where
  pub suite_name : Bytes
  pub experiment_count : ℕ
  pub retained_sample_count : ℕ
  pub repository_identities_verified : ℕ

unfoldable pub check_environment : Files → Info → EnvironmentReport → Outcome EvidenceError Unit
check_environment files controller environment = do
  refuse (not (bytes_eq environment.schema_version (codes "paraflow.environment/v3")))
      wrong_environment
  refuse (not (same_info environment.source controller)) other_source
  refuse
      (not (bytes_eq environment.milestone (codes "day-05"))
        && (not (bytes_eq environment.milestone (codes "day-06"))
            && not (bytes_eq environment.milestone (codes "day-07"))))
      wrong_milestone
  refuse (not environment.ready) environment_not_ready
  refuse (files.is_zero_time environment.captured_at) zero_environment
  refuse
      (is_blank environment.os
        || (is_blank environment.architecture
            || (is_blank environment.go_version
                || (ltb environment.logical_cpus 1
                    || (ltb environment.go_max_procs 1 || (length environment.tools == 0))))))
      incomplete_environment

-- `verifyCommonEvidence`.
unfoldable pub verify_common_evidence :
    Files → ℕ → ℕ → SuiteIdentity → Info → EnvironmentReport → Artifact → Outcome EvidenceError Unit
unfolding check_environment
verify_common_evidence files started_at completed_at suite controller environment engine = do
  refuse ((started_at == 0) || (completed_at == 0)) zero_timestamp
  refuse (ltb completed_at started_at) completed_early
  refuse
      (is_blank controller.version
        || (is_blank controller.full_commit || not (valid_source_state controller.source_state)))
      incomplete_controller
  check_environment files controller environment
  refuse (not (valid_repository_json_path suite.path)) bad_suite_path
  refuse (not (valid_sha256 suite.sha256)) bad_suite_digest
  refuse (is_blank engine.path || not (valid_sha256 engine.sha256)) incomplete_engine

-- `readVerifiedSuite`.
unfoldable pub read_verified_suite : Files → Bytes → SuiteIdentity → Outcome EvidenceError Suite
read_verified_suite files root identity = do
  path ← resolve_verified_repository_file files root identity.path
  suite_bytes ← or_else (files.read_file path) suite_unreadable
  refuse (not (bytes_eq (files.hash_bytes suite_bytes) identity.sha256)) digest_mismatch
  suite ← or_else (files.decode_suite suite_bytes) suite_undecodable
  map_err invalid_suite (validate_suite suite)
  refuse
      (not (bytes_eq suite.schema_version identity.schema_version)
        || not (bytes_eq suite.name identity.name))
      suite_fields
  ok suite

-- `readVerifiedWorkload`.
unfoldable pub read_verified_workload :
    Files → Bytes → Bytes → Outcome EvidenceError (Bytes × WorkloadProjection)
read_verified_workload files root repository_path = do
  path ← resolve_verified_repository_file files root repository_path
  workload ← or_else (files.read_file path) workload_unreadable
  projection ← map_err bad_workload (project_workload files.codec workload)
  refuse (not (bytes_eq projection.schema_version workload_schema)) unsupported_workload
  ok (workload, projection)

-- `verifyEngineIdentity`.
unfoldable pub verify_engine_identity : EngineBuild → Info → Outcome EvidenceError Unit
verify_engine_identity engine controller = do
  validate_source_alignment engine controller
  refuse (not (bytes_eq engine.version controller.version)) version_mismatch

-- `requireStableEngineBuild`: the build that is expected from here on.
unfoldable pub require_stable_engine_build :
    Option EngineBuild → EngineBuild → Outcome EvidenceError EngineBuild
require_stable_engine_build none actual = ok actual
require_stable_engine_build (some expected) actual =
    if not (same_build expected actual) then err build_changed else ok expected

-- One turn of the loop over the experiments: the build and the number of samples.
unfoldable pub verify_experiment :
    Files
    → Bytes
    → Info
    → List Bytes
    → Option EngineBuild
    → Scenario
    → Experiment
    → Outcome EvidenceError (EngineBuild × ℕ)
unfolding read_verified_workload verify_engine_identity require_stable_engine_build
verify_experiment files root controller ids build scenario experiment = do
  refuse (not (bytes_eq experiment.scenario_name scenario.name)) wrong_scenario
  read ← read_verified_workload files root scenario.workload
  refuse (not (same_workload experiment.workload (workload_identity files scenario read.0 read.1)))
      wrong_workload
  let result = experiment.engine_result
  refuse (member result.experiment_id ids) duplicate_experiment
  map_err engine_failed (
      validate_engine_result files.codec result
        (scenario_request scenario result.experiment_id read.0) read.1)
  verify_engine_identity result.engine_build controller
  stable ← require_stable_engine_build build result.engine_build
  refuse (ltb experiment.orchestration_total_ns result.timing.experiment_total_ns)
      small_orchestration
  summary ← map_err bad_samples (summarize result.samples)
  refuse (not (same_summary experiment.summary summary)) wrong_summary
  ok (stable, length result.samples)

-- The loop; the number of retained samples. Behind the last scenario an index panics.
unfoldable pub verify_experiments :
    Files
    → Bytes
    → Info
    → List Bytes
    → Option EngineBuild
    → List Scenario
    → List Experiment
    → Outcome EvidenceError ℕ
unfolding verify_experiment
verify_experiments files root controller ids build scenarios [] = ok 0
verify_experiments files root controller ids build [] (experiment ∷ experiments) = panic
verify_experiments files root controller ids build (scenario ∷ scenarios)
      (experiment ∷ experiments) =
    do
      verified ← verify_experiment files root controller ids build scenario experiment
      retained ←
          verify_experiments files root controller (experiment.engine_result.experiment_id ∷ ids)
            (some verified.0) scenarios experiments
      ok (verified.1 + retained)

-- `verifyCapture`.
unfoldable pub verify_capture : Files → Bytes → Capture → Outcome EvidenceError Receipt
unfolding verify_experiments verify_common_evidence read_verified_suite
verify_capture files root capture = do
  refuse (not (bytes_eq capture.schema_version capture_schema)) wrong_capture_schema
  verify_common_evidence files capture.started_at capture.completed_at capture.suite
      capture.controller capture.environment capture.engine_artifact
  suite ← read_verified_suite files root capture.suite
  refuse (not (length capture.experiments == length suite.scenarios)) experiment_count
  retained ←
      verify_experiments files root capture.controller [] none suite.scenarios capture.experiments
  ok (record {
    suite_name = suite.name;
    experiment_count = length capture.experiments;
    retained_sample_count = retained;
    repository_identities_verified = 1 + length capture.experiments;
  })
