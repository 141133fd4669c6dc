-- ===== src/Benchmark/Runs.antt =====
-- Runs of the engine and of the stage profile at concrete inputs.
use paraflow.Prelude.{◌≡◌, refl, ◌≤◌, some, All, arith}
use paraflow.Prelude.Text.{Bytes, codes, bytes_eq}
use paraflow.Prelude.Utf8.{valid_string, rune_count, is_blank, trimmed_runes, is_space}
use paraflow.Prelude.Outcome.{ok}
use paraflow.Prelude.Words.{IsU64}
use paraflow.Protocol.Hex.{unmarshal_hex, is_hex_digit, parse_uint, digit_value}
use paraflow.Protocol.Message.{valid_workload_name}
use paraflow.Protocol.Result.{
  histogram_loop, validate_fields, require_fields, validate_result, is_nan, is_negative_infinity,
}
use paraflow.Protocol.Response.{decode_result}
use paraflow.Protocol.Fixture.{sample_workload, sample_codec}
use paraflow.Benchmark.Arith.{add_uint64, sum_uint64, div64, scaled_ratio, ratio_basis_points}
use paraflow.Benchmark.Apportion.{apportion_basis_points}
use paraflow.Benchmark.Payload.{one_shot_response_payload, new_capped_buffer, write_all}
use paraflow.Benchmark.Engine.{
  check_correctness, check_build, valid_source_state, raw_present, sample_loop,
  validate_engine_result, run_one_shot_engine, run_engine,
}
use paraflow.Benchmark.Engine.Samples.{HasU64}
use paraflow.Benchmark.Engine.Sound.{IsValidated}
use paraflow.Benchmark.Engine.Run.{Exchanged, run_engine-IsValidated}
use paraflow.Benchmark.Profile.{
  ScenarioProfileAnalysis, stages, profile_loop, validate_profile_engine_result,
}
use paraflow.Benchmark.Profile.Sound.{IsProfiled, validate_profile_engine_result-IsProfiled}
use paraflow.Benchmark.Profile.Analyze.{
  stage_medians, decoded_results_equal, dominant, dominant_index, dominant_loop, stage_shares,
  analyze_scenario,
}
use paraflow.Benchmark.Profile.Analyze.Exact.{Reports, analyze_scenario-Reports}
use paraflow.Benchmark.Fixture.{
  request, two_samples, engine_result, world, two_profile_samples, baseline_summary,
  profile_summary, profile_engine_result,
}

two_samples-HasU64 : All HasU64 two_samples
two_samples-HasU64 =
    ((omega arith, omega arith, omega arith), ((omega arith, omega arith, omega arith), tt))

validated_engine : validate_engine_result sample_codec engine_result request sample_workload ≡ ok tt
unfolding validate_engine_result check_correctness check_build valid_source_state raw_present
    sample_loop add_uint64 trimmed_runes is_space decode_result validate_result require_fields
    validate_fields histogram_loop is_nan is_negative_infinity unmarshal_hex bytes_eq
    valid_workload_name valid_string rune_count is_blank is_hex_digit parse_uint digit_value
validated_engine = refl

ran : run_engine world (codes "engine") request sample_workload ≡ ok (engine_result, 25)
unfolding run_engine run_one_shot_engine one_shot_response_payload new_capped_buffer write_all
    validate_engine_result check_correctness check_build valid_source_state raw_present sample_loop
    add_uint64 trimmed_runes is_space decode_result validate_result require_fields validate_fields
    histogram_loop is_nan is_negative_infinity unmarshal_hex bytes_eq valid_workload_name
    valid_string rune_count is_blank is_hex_digit parse_uint digit_value
ran = refl

run_engine-IsValidated_example :
    ((response : Bytes) × Exchanged world (world.marshal_request request) response
      × (world.decode_engine_result response ≡ some engine_result))
    × IsValidated sample_codec request sample_workload engine_result
    × (20 ≤ 25)
run_engine-IsValidated_example =
    run_engine-IsValidated world (codes "engine") request sample_workload engine_result 25
      two_samples-HasU64 (omega arith) ran

two_profile_samples-IsU64 : All (λ s. All IsU64 (stages s)) two_profile_samples
two_profile_samples-IsU64 = (
  (omega arith, (omega arith, (omega arith, (omega arith, (omega arith, tt))))),
  ((omega arith, (omega arith, (omega arith, (omega arith, (omega arith, tt))))), tt),
)

looped : profile_loop 0 0 two_profile_samples ≡ ok 21
unfolding profile_loop add_uint64 sum_uint64
looped = refl

medians-IsU64 : All IsU64 (stage_medians profile_summary)
medians-IsU64 = (omega arith, (omega arith, (omega arith, (omega arith, (omega arith, tt)))))

abbrev analysis : ScenarioProfileAnalysis
analysis = record {
  accepted_count = 3;
  selectivity_bps = 7500;
  stage_median_sum_ns = 10;
  stage_pipeline_median_sum_ns = 9;
  stage_share_bps = record {
    generation = 1000;
    normalize = 2000;
    score = 3000;
    filter = 3000;
    aggregate = 1000;
  };
  dominant_stage = codes "score";
  dominant_pipeline_stage = codes "score";
  fused_per_record_milli = 1250;
  stage_pass_per_record_milli = 2250;
  stage_pass_to_fused_ratio_milli = 1800;
  fused_deviation_bps = 0;
  profile_total_deviation_bps = 0;
}

analyzed :
    analyze_scenario sample_codec sample_workload engine_result baseline_summary
      profile_engine_result profile_summary
    ≡ ok analysis
unfolding analyze_scenario dominant_loop decoded_results_equal dominant dominant_index stage_shares
    apportion_basis_points div64 scaled_ratio ratio_basis_points add_uint64 sum_uint64 decode_result
    validate_result require_fields validate_fields histogram_loop is_nan is_negative_infinity
    unmarshal_hex bytes_eq valid_workload_name valid_string rune_count is_blank is_hex_digit
    parse_uint digit_value
analyzed = refl

analyze_scenario-Reports_example :
    Reports sample_codec engine_result sample_workload baseline_summary profile_summary analysis
analyze_scenario-Reports_example =
    analyze_scenario-Reports sample_codec sample_workload engine_result baseline_summary
      profile_engine_result profile_summary analysis medians-IsU64 analyzed

validated_profile :
    validate_profile_engine_result sample_codec profile_engine_result request sample_workload
    ≡ ok tt
unfolding validate_profile_engine_result check_correctness check_build valid_source_state
    raw_present profile_loop add_uint64 sum_uint64 trimmed_runes is_space decode_result
    validate_result require_fields validate_fields histogram_loop is_nan is_negative_infinity
    unmarshal_hex bytes_eq valid_workload_name valid_string rune_count is_blank is_hex_digit
    parse_uint digit_value
validated_profile = refl

validate_profile_engine_result-IsProfiled_example :
    IsProfiled sample_codec request sample_workload profile_engine_result
validate_profile_engine_result-IsProfiled_example =
    validate_profile_engine_result-IsProfiled sample_codec profile_engine_result request
      sample_workload two_profile_samples-IsU64 (omega arith) validated_profile
