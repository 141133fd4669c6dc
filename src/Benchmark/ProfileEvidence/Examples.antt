-- ===== src/Benchmark/ProfileEvidence/Examples.antt =====
-- A profile report that is executed and verified, at concrete inputs.
use mathlib.Core.Option.{some-injective}
use paraflow.Prelude.{ℕ, ◌≡◌, refl, subst, false, true, some, [], ◌∷◌, All, arith}
use paraflow.Prelude.Text.{Bytes, codes, bytes_eq}
use paraflow.Prelude.Utf8.{rune_count, is_blank, valid_string, trimmed_runes, is_space}
use paraflow.Prelude.Strings.{has_prefix}
use paraflow.Prelude.Sorting.{sort}
use paraflow.Prelude.Outcome.{ok}
use paraflow.Protocol.Hex.{
  valid_sha256, format_hex, hex_digit, unmarshal_hex, is_hex_digit, parse_uint, digit_value,
}
use paraflow.Protocol.Message.{valid_workload_name}
use paraflow.Protocol.Result.{
  histogram_loop, validate_fields, require_fields, validate_result, is_nan, is_negative_infinity,
}
use paraflow.Protocol.Response.{decode_result, project_workload}
use paraflow.Benchmark.Types.{Statistics}
use paraflow.Benchmark.Arith.{add_uint64, sum_uint64, div64, scaled_ratio, ratio_basis_points}
use paraflow.Benchmark.Apportion.{apportion_basis_points}
use paraflow.Benchmark.Payload.{one_shot_response_payload, new_capped_buffer, write_all}
use paraflow.Benchmark.Stats.{summarize, summarize_values, integer_median}
use paraflow.Benchmark.Engine.{
  EngineWorld, pos, check_correctness, check_build, valid_source_state, raw_present, sample_loop,
  validate_engine_result, run_one_shot_engine, run_engine,
}
use paraflow.Benchmark.Engine.Run.{run_engine-IsChecked}
use paraflow.Benchmark.Profile.{
  ProfileSummary, ScenarioProfileAnalysis, profile_loop, validate_profile_engine_result,
}
use paraflow.Benchmark.Profile.Run.{run_profile_engine, run_profile_engine-IsChecked}
use paraflow.Benchmark.Profile.Analyze.{
  summarize_profile, pipeline_sums, decoded_results_equal, dominant, dominant_index, dominant_loop,
  stage_shares, analyze_scenario,
}
use paraflow.Benchmark.Fixture.{build, engine_result, profile_engine_result}
use paraflow.Benchmark.Evidence.{
  resolve_repository_path, outside, validate_source_alignment, same_build,
}
use paraflow.Benchmark.Evidence.Execute.{
  absent, validate_options, require_absent, read_suite, read_workload,
}
use paraflow.Benchmark.Evidence.Fixture.{
  suite, files, digest, options, host, probe, engine_world, source, summary, experiment,
}
use paraflow.Benchmark.Evidence.Fixture.Facts.{
  files-IsPlain, suite-IsPlaced, host-IsHost, valid_digest, engine_named, host_ready,
  suite_accepted,
}
use paraflow.Benchmark.ProfileEvidence.{
  ProfileExperiment, ScalarProfileReport, baseline_id, profile_id,
}
use paraflow.Benchmark.ProfileEvidence.Execute.{
  ProfileRun, analyzed, profile_scenario, profile_scenarios, reported, profile_closing,
  execute_profile,
}
use paraflow.Benchmark.ProfileEvidence.Verify.{verify_profile_report}
use paraflow.Benchmark.ProfileEvidence.Sound.{HasTimings}
use paraflow.Benchmark.ProfileEvidence.Vouched.{
  IsVouchedReport, verify_profile_report-IsVouchedReport,
}
use paraflow.Benchmark.ProfileEvidence.Accepted.{
  report_receipt, verify_profile_report-execute_profile,
}

abbrev baseline_world : EngineWorld
baseline_world = record engine_world {
  decode_engine_result = λ raw.
      some (record engine_result { experiment_id = codes "day06:baseline:0000000000000001" });
}

abbrev run : ProfileRun
run = record {
  context_done = λ index. false;
  output = some absent;
  started_at = 5;
  completed_at = 9;
  engine_before = some digest;
  engine_after = some digest;
  quote = λ text. text;
  host = host;
  probe = probe;
  baseline_runner = λ index. run_engine baseline_world (codes "/r/engine");
  profile_runner = λ index.
      run_profile_engine (record engine_world { elapsed = pos 40 })
        (λ raw.
          some (record profile_engine_result {
            experiment_id = codes "day06:profile:0000000000000001";
          }))
        (codes "/r/engine");
  persist = λ report. true;
}

-- Least, median, deviation and greatest of two values.
abbrev pair : ℕ → ℕ → ℕ → ℕ → Statistics
pair least median deviation greatest = record {
  count = 2;
  minimum_ns = least;
  median_ns = median;
  median_absolute_deviation_ns = deviation;
  maximum_ns = greatest;
}

abbrev profile_summary : ProfileSummary
profile_summary = record {
  generation = pair 1 1 0 1;
  normalize = pair 1 1 0 2;
  score = pair 1 2 1 3;
  filter = pair 1 2 1 4;
  aggregate = pair 1 3 2 5;
  stage_sum = pair 5 10 5 15;
  pipeline_stages = pair 4 9 5 14;
  profile_total = pair 5 10 5 16;
}

abbrev analysis : ScenarioProfileAnalysis
analysis = record {
  accepted_count = 3;
  selectivity_bps = 7500;
  stage_median_sum_ns = 9;
  stage_pipeline_median_sum_ns = 8;
  stage_share_bps = record {
    generation = 1111;
    normalize = 1111;
    score = 2222;
    filter = 2222;
    aggregate = 3334;
  };
  dominant_stage = codes "aggregate";
  dominant_pipeline_stage = codes "aggregate";
  fused_per_record_milli = 1250;
  stage_pass_per_record_milli = 2000;
  stage_pass_to_fused_ratio_milli = 1600;
  fused_deviation_bps = 0;
  profile_total_deviation_bps = 5000;
}

abbrev profiled : ProfileExperiment
profiled = record {
  scenario_name = codes "s";
  workload = record {
    path = codes "in/w.json";
    sha256 = digest;
    schema_version = experiment.workload.schema_version;
    name = codes "w";
    record_count = 4;
    category_count = 2;
    distribution = codes "uniform";
  };
  baseline = record {
    orchestration_total_ns = 25;
    engine_result = record engine_result {
      experiment_id = codes "day06:baseline:0000000000000001";
    };
    summary = summary;
  };
  stage_profile = record {
    orchestration_total_ns = 40;
    engine_result = record profile_engine_result {
      experiment_id = codes "day06:profile:0000000000000001";
    };
    summary = profile_summary;
  };
  analysis = analysis;
}

abbrev report : ScalarProfileReport
report = reported files options run (codes "/r") (codes "suite") suite digest (profiled ∷ [])

experiments : profile_scenarios files run (codes "/r") source 0 suite.scenarios ≡ ok (profiled ∷ [])
unfolding profile_scenarios profile_scenario analyzed read_workload resolve_repository_path outside
    has_prefix bytes_eq project_workload baseline_id profile_id format_hex hex_digit run_engine
    run_profile_engine run_one_shot_engine one_shot_response_payload new_capped_buffer write_all
    validate_engine_result validate_profile_engine_result check_correctness check_build
    valid_source_state raw_present sample_loop profile_loop add_uint64 sum_uint64 div64 scaled_ratio
    ratio_basis_points apportion_basis_points trimmed_runes is_space decode_result validate_result
    require_fields validate_fields histogram_loop is_nan is_negative_infinity unmarshal_hex
    valid_workload_name valid_string rune_count is_blank is_hex_digit parse_uint digit_value
    validate_source_alignment summarize summarize_values integer_median sort same_build
    summarize_profile pipeline_sums decoded_results_equal dominant dominant_index dominant_loop
    stage_shares analyze_scenario
experiments = refl

builds : All (λ e. e.baseline.engine_result.engine_build ≡ build) report.experiments
unfolding reported
builds = (refl, tt)

engine_digest : (hash : Bytes) → run.engine_before ≡ some hash → valid_sha256 hash ≡ true
engine_digest hash e = subst (λ h. valid_sha256 h ≡ true) (some-injective _ _ e) valid_digest

executed : execute_profile files options run ≡ ok report
unfolding execute_profile validate_options require_absent read_suite profile_closing bytes_eq
    is_blank is_space valid_source_state
executed = rw (suite_accepted, host_ready, experiments) refl

verify_profile_report-execute_profile_example :
    verify_profile_report files (codes "/r") report ≡ ok (report_receipt report)
verify_profile_report-execute_profile_example =
    verify_profile_report-execute_profile files options run (codes "/r") build report refl
      files-IsPlain suite-IsPlaced host-IsHost
      (λ index. run_engine-IsChecked baseline_world (codes "/r/engine"))
      (λ index. run_profile_engine-IsChecked _ _ (codes "/r/engine")) (λ content. valid_digest)
      engine_digest engine_named (omega arith) refl builds executed

timings : All HasTimings report.experiments
unfolding reported
timings = (
  (
    ((omega arith, omega arith, omega arith), ((omega arith, omega arith, omega arith), tt)),
    (
      (omega arith, (omega arith, (omega arith, (omega arith, (omega arith, tt))))),
      ((omega arith, (omega arith, (omega arith, (omega arith, (omega arith, tt))))), tt),
    ),
    (omega arith, (omega arith, (omega arith, (omega arith, (omega arith, tt))))),
  ),
  tt,
)

accepted : verify_profile_report files (codes "/r") report ≡ ok (report_receipt report)
accepted =
    verify_profile_report-execute_profile files options run (codes "/r") build report refl
      files-IsPlain suite-IsPlaced host-IsHost
      (λ index. run_engine-IsChecked baseline_world (codes "/r/engine"))
      (λ index. run_profile_engine-IsChecked _ _ (codes "/r/engine")) (λ content. valid_digest)
      engine_digest engine_named (omega arith) refl builds executed

verify_profile_report-IsVouchedReport_example :
    IsVouchedReport files (codes "/r") report × (report_receipt report ≡ report_receipt report)
verify_profile_report-IsVouchedReport_example =
    verify_profile_report-IsVouchedReport files (codes "/r") report (report_receipt report) timings
      accepted
