-- ===== src/Benchmark/ProfileEvidence/Verify.antt =====
-- `verifyProfileReport`, `VerifyEvidence` and `evidenceEngineSHA` of
-- labctl-go/internal/benchmark/verify.go. `Evidence` stands for the decoders of the evidence and the hash
-- of the engine's file.
use paraflow.Prelude.{ℕ, ◌+◌, not, Option, none, some, List, [], ◌∷◌, ltb, ◌==◌, length}
use paraflow.Prelude.Text.{Bytes, bytes_eq}
use paraflow.Prelude.Outcome.{Outcome, ok, panic, ◌>>=◌, ◌>>◌, refuse, map_err}
use paraflow.Protocol.Message.{WorkloadProjection}
use paraflow.BuildInfo.{Info}
use paraflow.Benchmark.Types.{EngineBuild}
use paraflow.Benchmark.Stats.{summarize}
use paraflow.Benchmark.Engine.{validate_engine_result}
use paraflow.Benchmark.Profile.{validate_profile_engine_result}
use paraflow.Benchmark.Profile.Analyze.{summarize_profile, analyze_scenario}
use paraflow.Benchmark.Suite.{Scenario, member}
use paraflow.Benchmark.Evidence.{
  EvidenceError, wrong_capture_schema, experiment_count, wrong_scenario, wrong_workload,
  duplicate_experiment, builds_differ, small_orchestration, wrong_summary, wrong_analysis,
  engine_failed, bad_samples, bad_profile, Files, scenario_request, same_build, same_summary,
}
use paraflow.Benchmark.Evidence.Verify.{
  Receipt, verify_common_evidence, read_verified_suite, read_verified_workload,
  verify_engine_identity, require_stable_engine_build,
}
use paraflow.Benchmark.ProfileEvidence.{
  ProfileExperiment, ScalarProfileReport, profile_report_schema, profile_workload_identity,
  profile_request, same_profile_workload, same_profile_summary, same_analysis,
}

-- The end of a turn: the statistics and the analysis are derived again.
unfoldable pub verify_analysis :
    Files → WorkloadProjection → ProfileExperiment → Outcome EvidenceError Unit
verify_analysis files projection experiment = do
  let baseline = experiment.baseline.engine_result
  let profile = experiment.stage_profile.engine_result
  baseline_summary ← map_err bad_samples (summarize baseline.samples)
  refuse (not (same_summary experiment.baseline.summary baseline_summary)) wrong_summary
  profile_summary ← map_err bad_profile (summarize_profile profile.samples)
  refuse (not (same_profile_summary experiment.stage_profile.summary profile_summary)) wrong_summary
  analysis ←
      map_err bad_profile
        (analyze_scenario files.codec projection baseline baseline_summary profile profile_summary)
  refuse (not (same_analysis experiment.analysis analysis)) wrong_analysis

-- One turn of the loop over the experiments: the build and the number of samples.
unfoldable pub verify_profile_experiment :
    Files
    → Bytes
    → Info
    → List Bytes
    → Option EngineBuild
    → Scenario
    → ProfileExperiment
    → Outcome EvidenceError (EngineBuild × ℕ)
unfolding verify_analysis
verify_profile_experiment files root controller ids build scenario experiment = do
  refuse (not (bytes_eq experiment.scenario_name scenario.name)) wrong_scenario
  read ← read_verified_workload files root scenario.workload
  refuse
      (not (
        same_profile_workload experiment.workload
          (profile_workload_identity files scenario read.0 read.1)))
      wrong_workload
  let baseline = experiment.baseline.engine_result
  let profile = experiment.stage_profile.engine_result
  refuse (member baseline.experiment_id ids) duplicate_experiment
  refuse (member profile.experiment_id (baseline.experiment_id ∷ ids)) duplicate_experiment
  map_err engine_failed (
      validate_engine_result files.codec baseline
        (scenario_request scenario baseline.experiment_id read.0) read.1)
  map_err engine_failed (
      validate_profile_engine_result files.codec profile
        (profile_request scenario profile.experiment_id read.0) read.1)
  refuse (not (same_build baseline.engine_build profile.engine_build)) builds_differ
  verify_engine_identity baseline.engine_build controller
  stable ← require_stable_engine_build build baseline.engine_build
  refuse (ltb experiment.baseline.orchestration_total_ns baseline.timing.experiment_total_ns)
      small_orchestration
  refuse (ltb experiment.stage_profile.orchestration_total_ns profile.timing.experiment_total_ns)
      small_orchestration
  verify_analysis files read.1 experiment
  ok (stable, length baseline.samples + length profile.samples)

-- The loop; the number of retained samples. Behind the last scenario an index panics.
unfoldable pub verify_profiles :
    Files
    → Bytes
    → Info
    → List Bytes
    → Option EngineBuild
    → List Scenario
    → List ProfileExperiment
    → Outcome EvidenceError ℕ
unfolding verify_profile_experiment
verify_profiles files root controller ids build scenarios [] = ok 0
verify_profiles files root controller ids build [] (experiment ∷ experiments) = panic
verify_profiles files root controller ids build (scenario ∷ scenarios) (experiment ∷ experiments) =
    do
      verified ← verify_profile_experiment files root controller ids build scenario experiment
      retained ←
          verify_profiles files root controller
            (experiment.stage_profile.engine_result.experiment_id
              ∷ experiment.baseline.engine_result.experiment_id ∷ ids)
            (some verified.0) scenarios experiments
      ok (verified.1 + retained)

-- `verifyProfileReport`.
unfoldable pub verify_profile_report :
    Files → Bytes → ScalarProfileReport → Outcome EvidenceError Receipt
unfolding verify_profiles
verify_profile_report files root report = do
  refuse (not (bytes_eq report.schema_version profile_report_schema)) wrong_capture_schema
  verify_common_evidence files report.started_at report.completed_at report.suite report.controller
      report.environment report.engine_artifact
  suite ← read_verified_suite files root report.suite
  refuse (not (length report.experiments == length suite.scenarios)) experiment_count
  retained ← verify_profiles files root report.controller [] none suite.scenarios report.experiments
  ok (record {
    suite_name = suite.name;
    experiment_count = length report.experiments;
    retained_sample_count = retained;
    repository_identities_verified = 1 + length report.experiments;
  })
