-- ===== src/Benchmark/Profile/Analyze.antt =====
-- `SummarizeProfile`, `AnalyzeScenario`, `decodedResultsEqual` and `dominant` of
-- labctl-go/internal/benchmark/profile_stats.go.
pub mod Dominant
pub mod Built
pub mod Exact
use paraflow.Prelude.{
  ℕ, zero, suc, ◌+◌, Bool, true, false, not, ◌&&◌, ◌||◌, Option, List, [], ◌∷◌, map, ltb, ◌==◌,
  if◌then◌else◌, length, get_elem?,
}
use paraflow.Prelude.Text.{Bytes, codes}
use paraflow.Prelude.Words.{u32, max_u32}
use paraflow.Prelude.Outcome.{Outcome, ok, err, panic, ◌>>=◌, ◌>>◌, refuse, or_panic, map_err}
use paraflow.Protocol.Message.{WorkloadProjection, ResultV1, ProtocolError}
use paraflow.Protocol.Response.{Codec, decode_result}
use paraflow.Benchmark.Types.{Summary, EngineResult, Statistics}
use paraflow.Benchmark.Stats.{StatsError, summarize_values}
use paraflow.Benchmark.Arith.{ArithError, sum_uint64, scaled_ratio, ratio_basis_points}
use paraflow.Benchmark.Apportion.{apportion_basis_points}
use paraflow.Benchmark.Profile.{
  ProfileSample, ProfileEngineResult, ProfileSummary, StageShares, ScenarioProfileAnalysis,
}

pub data AnalysisError : Type 0 where
  no_samples empty_workload different_results zero_fused_median : AnalysisError
  zero_profile_median selectivity_exceeds_u32 : AnalysisError
  baseline_result profile_result : ProtocolError → AnalysisError
  arithmetic : ArithError → AnalysisError
  statistics : StatsError → AnalysisError

abbrev pub pipeline_of : ProfileSample → List ℕ
pipeline_of s = s.normalize_ns ∷ s.score_ns ∷ s.filter_ns ∷ s.aggregate_ns ∷ []

-- The loop of `SummarizeProfile`: the checked pipeline sum of each sample.
unfoldable pub pipeline_sums : List ProfileSample → Outcome AnalysisError (List ℕ)
pipeline_sums [] = ok []
pipeline_sums (sample ∷ samples) = do
  pipeline ← map_err arithmetic (sum_uint64 (pipeline_of sample))
  rest ← pipeline_sums samples
  ok (pipeline ∷ rest)

unfoldable pub summarize_profile : List ProfileSample → Outcome AnalysisError ProfileSummary
summarize_profile samples = do
  refuse (length samples == 0) no_samples
  sums ← pipeline_sums samples
  generation ← map_err statistics (summarize_values (map (λ s. s.generation_ns) samples))
  normalize ← map_err statistics (summarize_values (map (λ s. s.normalize_ns) samples))
  score ← map_err statistics (summarize_values (map (λ s. s.score_ns) samples))
  filter ← map_err statistics (summarize_values (map (λ s. s.filter_ns) samples))
  aggregate ← map_err statistics (summarize_values (map (λ s. s.aggregate_ns) samples))
  stage_sum ← map_err statistics (summarize_values (map (λ s. s.stage_sum_ns) samples))
  pipeline_stages ← map_err statistics (summarize_values sums)
  profile_total ← map_err statistics (summarize_values (map (λ s. s.profile_total_ns) samples))
  ok (record {
    generation = generation;
    normalize = normalize;
    score = score;
    filter = filter;
    aggregate = aggregate;
    stage_sum = stage_sum;
    pipeline_stages = pipeline_stages;
    profile_total = profile_total;
  })

-- The loop over two histograms of one length.
pub same_entries : List ℕ → List ℕ → Bool
same_entries [] ys = true
same_entries (x ∷ xs) [] = false
same_entries (x ∷ xs) (y ∷ ys) = if not (x == y) then false else same_entries xs ys

unfoldable pub decoded_results_equal : ResultV1 → ResultV1 → Bool
unfolding same_entries
decoded_results_equal left right =
    if not (left.accepted_count == right.accepted_count)
      || (not (left.score_sum == right.score_sum)
          || (not (left.accepted_id_sum == right.accepted_id_sum)
              || (not (left.accepted_id_xor == right.accepted_id_xor)
                  || not (length left.category_histogram == length right.category_histogram))))
    then false
    else same_entries left.category_histogram right.category_histogram

-- The loop of `dominant`; `best` is `values[index]`.
unfoldable pub dominant_loop : ℕ → ℕ → ℕ → List ℕ → ℕ
dominant_loop best index candidate [] = index
dominant_loop best index candidate (v ∷ vs) =
    dominant_loop (if ltb best v then v else best) (if ltb best v then candidate else index)
      (candidate + 1) vs

unfoldable pub dominant_index : List ℕ → ℕ
dominant_index [] = 0
dominant_index (v ∷ vs) = dominant_loop v 0 1 vs

unfoldable pub dominant : {E : Type 0} → List Bytes → List ℕ → Outcome E Bytes
dominant names values = or_panic (get_elem? names (dominant_index values))

abbrev pub pipeline_names : List Bytes
pipeline_names = codes "normalize" ∷ codes "score" ∷ codes "filter" ∷ codes "aggregate" ∷ []

abbrev pub stage_names : List Bytes
stage_names = codes "generation" ∷ pipeline_names

abbrev pub pipeline_medians : ProfileSummary → List ℕ
pipeline_medians s =
    s.normalize.median_ns ∷ s.score.median_ns ∷ s.filter.median_ns ∷ s.aggregate.median_ns ∷ []

abbrev pub stage_medians : ProfileSummary → List ℕ
stage_medians s = s.generation.median_ns ∷ pipeline_medians s

-- `shares[0]` to `shares[4]`.
unfoldable pub stage_shares : List ℕ → Outcome AnalysisError StageShares
stage_shares shares = do
  generation ← or_panic (get_elem? shares 0)
  normalize ← or_panic (get_elem? shares 1)
  score ← or_panic (get_elem? shares 2)
  filter ← or_panic (get_elem? shares 3)
  aggregate ← or_panic (get_elem? shares 4)
  ok (record {
    generation = generation;
    normalize = normalize;
    score = score;
    filter = filter;
    aggregate = aggregate;
  })

unfoldable pub analyze_scenario :
    Codec
    → WorkloadProjection
    → EngineResult
    → Summary
    → ProfileEngineResult
    → ProfileSummary
    → Outcome AnalysisError ScenarioProfileAnalysis
analyze_scenario codec workload baseline baseline_summary profile profile_summary = do
  refuse (workload.record_count == 0) empty_workload
  left ← map_err baseline_result (decode_result codec baseline.result workload)
  right ← map_err profile_result (decode_result codec profile.result workload)
  refuse (not (decoded_results_equal left right)) different_results
  stage_sum ← map_err arithmetic (sum_uint64 (stage_medians profile_summary))
  pipeline_sum ← map_err arithmetic (sum_uint64 (pipeline_medians profile_summary))
  shares ← map_err arithmetic (apportion_basis_points (stage_medians profile_summary))
  let fused = baseline_summary.pipeline.median_ns
  refuse (fused == 0) zero_fused_median
  fused_per_record ← map_err arithmetic (scaled_ratio fused workload.record_count 1000)
  pass_per_record ← map_err arithmetic (scaled_ratio pipeline_sum workload.record_count 1000)
  observer_ratio ← map_err arithmetic (scaled_ratio pipeline_sum fused 1000)
  fused_mad ←
      map_err arithmetic
        (ratio_basis_points baseline_summary.pipeline.median_absolute_deviation_ns fused)
  let total = profile_summary.profile_total.median_ns
  refuse (total == 0) zero_profile_median
  profile_mad ←
      map_err arithmetic
        (ratio_basis_points profile_summary.profile_total.median_absolute_deviation_ns total)
  selectivity ← map_err arithmetic (scaled_ratio left.accepted_count workload.record_count 10000)
  refuse (ltb max_u32 selectivity) selectivity_exceeds_u32
  by_stage ← stage_shares shares
  stage ← dominant stage_names (stage_medians profile_summary)
  pipeline_stage ← dominant pipeline_names (pipeline_medians profile_summary)
  ok (record {
    accepted_count = left.accepted_count;
    selectivity_bps = u32 selectivity;
    stage_median_sum_ns = stage_sum;
    stage_pipeline_median_sum_ns = pipeline_sum;
    stage_share_bps = by_stage;
    dominant_stage = stage;
    dominant_pipeline_stage = pipeline_stage;
    fused_per_record_milli = fused_per_record;
    stage_pass_per_record_milli = pass_per_record;
    stage_pass_to_fused_ratio_milli = observer_ratio;
    fused_deviation_bps = fused_mad;
    profile_total_deviation_bps = profile_mad;
  })
