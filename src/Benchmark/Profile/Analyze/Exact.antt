-- ===== src/Benchmark/Profile/Analyze/Exact.antt =====
-- `AnalyzeScenario` of profile_stats.go: what an analysis reports of its inputs.
use paraflow.Prelude.{
  ℕ, ◌*◌, ◌/◌, ◌≤◌, ◌≡◌, ◌≢◌, refl, sym, ap, subst, ◌∙◌, inl, inr, some, List, [], ◌∷◌, arith, ltb,
  Bool-cases, length, get_elem?, All, sum,
}
use paraflow.Prelude.Text.{Bytes}
use paraflow.Prelude.Words.{u32, max_u32, u64_mod, IsU64}
use paraflow.Prelude.Outcome.{ok, err, bind-ok, refuse-ok, ok-injective}
use paraflow.Protocol.Message.{WorkloadProjection, ResultV1}
use paraflow.Protocol.Response.{Codec, decode_result}
use paraflow.Benchmark.Types.{Summary, EngineResult}
use paraflow.Benchmark.Arith.{
  addition_overflow, exceeds_u32, sum_uint64, scaled_ratio, ratio_basis_points,
}
use paraflow.Benchmark.Arith.Exact.{sum_uint64-exact, ratio_spec, scaled_ratio-exact}
use paraflow.Benchmark.Apportion.{apportion_basis_points}
use paraflow.Benchmark.Apportion.Loop.{floors, floor_le}
use paraflow.Benchmark.Apportion.Bump.{Near, Near-length}
use paraflow.Benchmark.Apportion.Exact.{apportion_exact}
use paraflow.Benchmark.Engine.Sound.{decode_result-IsConsistent}
use paraflow.Benchmark.Profile.{
  ProfileEngineResult, ProfileSummary, StageShares, ScenarioProfileAnalysis,
}
use paraflow.Benchmark.Profile.Analyze.{
  AnalysisError, stage_medians, pipeline_medians, stage_shares, dominant, dominant_index,
  stage_names, pipeline_names, analyze_scenario,
}
use paraflow.Benchmark.Profile.Analyze.Built.{analyze-Built}
use paraflow.Benchmark.Profile.Analyze.Dominant.{IsFirstMaximum, dominant_index-IsFirstMaximum}

sum-ok : (vs : List ℕ) (t : ℕ) → All IsU64 vs → sum_uint64 vs ≡ ok t → t ≡ sum vs
sum-ok vs t h e = elim (Bool-cases (ltb (sum vs) u64_mod)) [
  | inl small ↦
      let exact : sum_uint64 vs ≡ ok (sum vs) = rw (sum_uint64-exact vs h, small) in ground arith
  | inr big ↦
      let over : sum_uint64 vs ≡ err addition_overflow = rw (sum_uint64-exact vs h, big) in
      absurd (ground arith)
]

-- What `scaledRatio` returns.
ratio-ok : (n d s q : ℕ) → scaled_ratio n d s ≡ ok q → (d ≢ 0) × (q ≡ n * s / d)
ratio-ok n d s q e =
    let spec : ratio_spec n d s ≡ ok q = sym (scaled_ratio-exact n d s) ∙ e in
    (ground arith, ground arith)

-- What `ratioBasisPoints` returns.
basis_points-ok : (n d q : ℕ) → ratio_basis_points n d ≡ ok q → (q ≡ n * 10000 / d) × (q ≤ max_u32)
unfolding ratio_basis_points
basis_points-ok n d q e = bind-ok (scaled_ratio n d 10000) _ e (λ ratio given e1.
    refuse-ok (ltb max_u32 ratio) exceeds_u32 _ e1 (λ fits e2.
      let whole : u32 ratio ≡ ratio = ground arith in
      let same : ratio ≡ q = sym whole ∙ ok-injective _ _ e2 in
      (sym same ∙ (ratio-ok _ _ _ _ given).1, subst (λ x. x ≤ max_u32) same (ground arith))))

abbrev pub list_of : StageShares → List ℕ
list_of s = s.generation ∷ s.normalize ∷ s.score ∷ s.filter ∷ s.aggregate ∷ []

shares-ok :
    (q shares : List ℕ) (r : StageShares)
    → length q ≡ 5
    → Near q shares
    → stage_shares shares ≡ ok r
    → list_of r ≡ shares
unfolding stage_shares
shares-ok q (v ∷ w ∷ x ∷ y ∷ z ∷ []) r l near h = ground arith
shares-ok q [] r l near h = absurd (omega (arith, Near-length q _ near))
shares-ok q (v ∷ []) r l near h = absurd (omega (arith, Near-length q _ near))
shares-ok q (v ∷ w ∷ []) r l near h = absurd (omega (arith, Near-length q _ near))
shares-ok q (v ∷ w ∷ x ∷ []) r l near h = absurd (omega (arith, Near-length q _ near))
shares-ok q (v ∷ w ∷ x ∷ y ∷ []) r l near h = absurd (omega (arith, Near-length q _ near))
shares-ok q (v ∷ w ∷ x ∷ y ∷ z ∷ u ∷ us) r l near h = absurd (omega (arith, Near-length q _ near))

shares-exact :
    (vs shares : List ℕ)
    → All IsU64 vs
    → apportion_basis_points vs ≡ ok shares
    → Near (floors (sum vs) vs) shares × (sum shares ≡ 10000)
shares-exact vs shares h e = elim (apportion_exact vs h) [
  | inl (_, over) ↦ absurd (cc)
  | inr (inl (_, zero_sum)) ↦ absurd (cc)
  | inr (inr (s, given, near, total)) ↦
      let same : s ≡ shares = cc in
      (subst (Near (floors (sum vs) vs)) same near, ap sum (sym same) ∙ total)
]

dominant-ok :
    (names : List Bytes) (v : ℕ) (vs : List ℕ) (name : Bytes)
    → dominant {E = AnalysisError} names (v ∷ vs) ≡ ok name
    → (i : ℕ) × (get_elem? names i ≡ some name) × IsFirstMaximum (v ∷ vs) i
unfolding dominant
dominant-ok names v vs name e =
    (dominant_index (v ∷ vs), ground arith, dominant_index-IsFirstMaximum v vs)

-- What an analysis says of its inputs.
pub record Reports (codec : Codec) (engine : EngineResult) (workload : WorkloadProjection)
    (baseline : Summary) (profile : ProfileSummary) (a : ScenarioProfileAnalysis) : Type 0 where
  pub stage_sum : a.stage_median_sum_ns ≡ sum (stage_medians profile)
  pub pipeline_sum : a.stage_pipeline_median_sum_ns ≡ sum (pipeline_medians profile)
  pub shares_total : sum (list_of a.stage_share_bps) ≡ 10000
  pub shares_near :
      Near
        (floors (sum (stage_medians profile)) (stage_medians profile))
        (list_of a.stage_share_bps)
  pub fused_cost :
      a.fused_per_record_milli ≡ baseline.pipeline.median_ns * 1000 / workload.record_count
  pub pass_cost :
      a.stage_pass_per_record_milli ≡ a.stage_pipeline_median_sum_ns * 1000 / workload.record_count
  pub fused_deviation :
      a.fused_deviation_bps
      ≡ baseline.pipeline.median_absolute_deviation_ns * 10000 / baseline.pipeline.median_ns
  pub fused_deviation_bound : a.fused_deviation_bps ≤ max_u32
  pub profile_deviation :
      a.profile_total_deviation_bps
      ≡ profile.profile_total.median_absolute_deviation_ns * 10000 / profile.profile_total.median_ns
  pub profile_deviation_bound : a.profile_total_deviation_bps ≤ max_u32
  pub observer_ratio :
      a.stage_pass_to_fused_ratio_milli
      ≡ a.stage_pipeline_median_sum_ns * 1000 / baseline.pipeline.median_ns
  pub result : ResultV1
  pub decoded : decode_result codec engine.result workload ≡ ok result
  pub counted : a.accepted_count ≡ result.accepted_count
  pub accepted : a.accepted_count ≤ workload.record_count
  pub selectivity : a.selectivity_bps ≡ a.accepted_count * 10000 / workload.record_count
  pub selectivity_bound : a.selectivity_bps ≤ 10000
  pub stage :
      (i : ℕ) × (get_elem? stage_names i ≡ some a.dominant_stage)
      × IsFirstMaximum (stage_medians profile) i
  pub pipeline_stage :
      (i : ℕ) × (get_elem? pipeline_names i ≡ some a.dominant_pipeline_stage)
      × IsFirstMaximum (pipeline_medians profile) i

share_bound : (n d : ℕ) → d ≢ 0 → n ≤ d → n * 10000 / d ≤ 10000
share_bound n d z h = floor_le d n z h

-- An analysis that `AnalyzeScenario` returns reports, for u64 stage medians: their exact sums; shares of
-- exactly 10,000 basis points in total, each the floor of its exact share or one more; the floors of the
-- exact costs per record (fused and stage pass), of the observer ratio and of the two relative
-- deviations, which are u32 values; the accepted count of the baseline's result; a selectivity that is the floor of its exact value and never above
-- 10,000 basis points; and as dominant stages the first of the greatest medians.
pub analyze_scenario-Reports :
    (codec : Codec) (w : WorkloadProjection) (engine : EngineResult) (b : Summary)
    (pe : ProfileEngineResult) (p : ProfileSummary) (a : ScenarioProfileAnalysis)
    → All IsU64 (stage_medians p)
    → analyze_scenario codec w engine b pe p ≡ ok a
    → Reports codec engine w b p a
analyze_scenario-Reports codec w engine b pe p a h e =
    let built = analyze-Built codec w engine b pe p a e in
    let consistent = decode_result-IsConsistent codec engine.result w built.left built.decoded in
    let bound : a.accepted_count ≤ w.record_count =
      omega (arith, built.count, consistent.accepted_bound) in
    let (nonzero, selected) =
      ratio-ok built.left.accepted_count w.record_count 10000 _ built.selected in
    let selectivity : a.selectivity_bps ≡ a.accepted_count * 10000 / w.record_count =
      selected ∙ ap (λ n. n * 10000 / w.record_count) (sym built.count) in
    let (near, total) = shares-exact (stage_medians p) built.shares h built.apportioned in
    let exact = floors (sum (stage_medians p)) (stage_medians p) in
    let same = shares-ok exact built.shares a.stage_share_bps refl near built.by_stage in
    record {
      stage_sum = sum-ok (stage_medians p) _ h built.stages;
      pipeline_sum = sum-ok (pipeline_medians p) _ h.1 built.pipeline;
      shares_total = ap sum same ∙ total;
      shares_near = subst (Near exact) (sym same) near;
      fused_cost = (ratio-ok _ _ _ _ built.cost).1;
      pass_cost = (ratio-ok _ _ _ _ built.pass_cost).1;
      fused_deviation = (basis_points-ok _ _ _ built.fused_deviation).0;
      fused_deviation_bound = (basis_points-ok _ _ _ built.fused_deviation).1;
      profile_deviation = (basis_points-ok _ _ _ built.profile_deviation).0;
      profile_deviation_bound = (basis_points-ok _ _ _ built.profile_deviation).1;
      observer_ratio = (ratio-ok _ _ _ _ built.ratio).1;
      result = built.left;
      decoded = built.decoded;
      counted = built.count;
      accepted = bound;
      selectivity = selectivity;
      selectivity_bound = subst (λ n. n ≤ 10000) (sym selectivity) (share_bound _ _ nonzero bound);
      stage = dominant-ok _ _ _ _ built.named;
      pipeline_stage = dominant-ok _ _ _ _ built.pipeline_named;
    }
