-- ===== src/Benchmark/ProfileEvidence/Alike.antt =====
-- The comparisons of profile structs in labctl-go/internal/benchmark/verify.go.
use paraflow.Prelude.{◌≡◌, true, arith}
use paraflow.Prelude.Text.{bytes_eq_refl}
use paraflow.Benchmark.Profile.{ProfileSummary, StageShares, ScenarioProfileAnalysis}
use paraflow.Benchmark.Evidence.Alike.{
  same_bytes, same_number, number_refl, same_statistics_refl, same_statistics-eq,
}
use paraflow.Benchmark.ProfileEvidence.{
  ProfileWorkloadIdentity, same_profile_workload, same_profile_summary, same_shares, same_analysis,
}

pub same_profile_workload_refl : (a : ProfileWorkloadIdentity) → same_profile_workload a a ≡ true
unfolding same_profile_workload
same_profile_workload_refl a = rw (
  bytes_eq_refl a.path,
  bytes_eq_refl a.sha256,
  bytes_eq_refl a.schema_version,
  bytes_eq_refl a.name,
  number_refl a.record_count,
  number_refl a.category_count,
  bytes_eq_refl a.distribution,
)

pub same_profile_workload-eq :
    (a b : ProfileWorkloadIdentity) → same_profile_workload a b ≡ true → a ≡ b
unfolding same_profile_workload
same_profile_workload-eq a b h =
    let p = same_bytes a.path b.path (ground arith) in
    let s = same_bytes a.sha256 b.sha256 (ground arith) in
    let v = same_bytes a.schema_version b.schema_version (ground arith) in
    let n = same_bytes a.name b.name (ground arith) in
    let r = same_number a.record_count b.record_count (ground arith) in
    let c = same_number a.category_count b.category_count (ground arith) in
    let d = same_bytes a.distribution b.distribution (ground arith) in
    λ i. record {
      path = p i;
      sha256 = s i;
      schema_version = v i;
      name = n i;
      record_count = r i;
      category_count = c i;
      distribution = d i;
    }

pub same_profile_summary_refl : (a : ProfileSummary) → same_profile_summary a a ≡ true
unfolding same_profile_summary
same_profile_summary_refl a = rw (
  same_statistics_refl a.generation,
  same_statistics_refl a.normalize,
  same_statistics_refl a.score,
  same_statistics_refl a.filter,
  same_statistics_refl a.aggregate,
  same_statistics_refl a.stage_sum,
  same_statistics_refl a.pipeline_stages,
  same_statistics_refl a.profile_total,
)

pub same_profile_summary-eq : (a b : ProfileSummary) → same_profile_summary a b ≡ true → a ≡ b
unfolding same_profile_summary
same_profile_summary-eq a b h =
    let g = same_statistics-eq a.generation b.generation (ground arith) in
    let n = same_statistics-eq a.normalize b.normalize (ground arith) in
    let s = same_statistics-eq a.score b.score (ground arith) in
    let f = same_statistics-eq a.filter b.filter (ground arith) in
    let r = same_statistics-eq a.aggregate b.aggregate (ground arith) in
    let m = same_statistics-eq a.stage_sum b.stage_sum (ground arith) in
    let p = same_statistics-eq a.pipeline_stages b.pipeline_stages (ground arith) in
    let t = same_statistics-eq a.profile_total b.profile_total (ground arith) in
    λ i. record {
      generation = g i;
      normalize = n i;
      score = s i;
      filter = f i;
      aggregate = r i;
      stage_sum = m i;
      pipeline_stages = p i;
      profile_total = t i;
    }

same_shares_refl : (a : StageShares) → same_shares a a ≡ true
unfolding same_shares
same_shares_refl a = rw (
  number_refl a.generation,
  number_refl a.normalize,
  number_refl a.score,
  number_refl a.filter,
  number_refl a.aggregate,
)

same_shares-eq : (a b : StageShares) → same_shares a b ≡ true → a ≡ b
unfolding same_shares
same_shares-eq a b h =
    let g = same_number a.generation b.generation (ground arith) in
    let n = same_number a.normalize b.normalize (ground arith) in
    let s = same_number a.score b.score (ground arith) in
    let f = same_number a.filter b.filter (ground arith) in
    let r = same_number a.aggregate b.aggregate (ground arith) in
    λ i. record { generation = g i; normalize = n i; score = s i; filter = f i; aggregate = r i }

pub same_analysis_refl : (a : ScenarioProfileAnalysis) → same_analysis a a ≡ true
unfolding same_analysis
same_analysis_refl a = rw (
  number_refl a.accepted_count,
  number_refl a.selectivity_bps,
  number_refl a.stage_median_sum_ns,
  number_refl a.stage_pipeline_median_sum_ns,
  same_shares_refl a.stage_share_bps,
  bytes_eq_refl a.dominant_stage,
  bytes_eq_refl a.dominant_pipeline_stage,
  number_refl a.fused_per_record_milli,
  number_refl a.stage_pass_per_record_milli,
  number_refl a.stage_pass_to_fused_ratio_milli,
  number_refl a.fused_deviation_bps,
  number_refl a.profile_total_deviation_bps,
)

pub same_analysis-eq : (a b : ScenarioProfileAnalysis) → same_analysis a b ≡ true → a ≡ b
unfolding same_analysis
same_analysis-eq a b h =
    let c = same_number a.accepted_count b.accepted_count (ground arith) in
    let s = same_number a.selectivity_bps b.selectivity_bps (ground arith) in
    let m = same_number a.stage_median_sum_ns b.stage_median_sum_ns (ground arith) in
    let p =
      same_number a.stage_pipeline_median_sum_ns b.stage_pipeline_median_sum_ns (ground arith) in
    let h1 = same_shares-eq a.stage_share_bps b.stage_share_bps (ground arith) in
    let d = same_bytes a.dominant_stage b.dominant_stage (ground arith) in
    let q = same_bytes a.dominant_pipeline_stage b.dominant_pipeline_stage (ground arith) in
    let f = same_number a.fused_per_record_milli b.fused_per_record_milli (ground arith) in
    let g =
      same_number a.stage_pass_per_record_milli b.stage_pass_per_record_milli (ground arith) in
    let o =
      same_number a.stage_pass_to_fused_ratio_milli b.stage_pass_to_fused_ratio_milli
        (ground arith) in
    let u = same_number a.fused_deviation_bps b.fused_deviation_bps (ground arith) in
    let t =
      same_number a.profile_total_deviation_bps b.profile_total_deviation_bps (ground arith) in
    λ i. record {
      accepted_count = c i;
      selectivity_bps = s i;
      stage_median_sum_ns = m i;
      stage_pipeline_median_sum_ns = p i;
      stage_share_bps = h1 i;
      dominant_stage = d i;
      dominant_pipeline_stage = q i;
      fused_per_record_milli = f i;
      stage_pass_per_record_milli = g i;
      stage_pass_to_fused_ratio_milli = o i;
      fused_deviation_bps = u i;
      profile_total_deviation_bps = t i;
    }
