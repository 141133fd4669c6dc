-- ===== src/Benchmark/Profile/Analyze/Built.antt =====
-- `AnalyzeScenario` of profile_stats.go: the values that an analysis was built from.
use paraflow.Prelude.{ℕ, ◌≡◌, refl, sym, ap, subst, ◌∙◌, not, List, arith, ltb, ◌==◌}
use paraflow.Prelude.Words.{u32, max_u32}
use paraflow.Prelude.Outcome.{ok, map_err, map_err-eq-ok, bind-ok, refuse-ok, ok-injective}
use paraflow.Protocol.Message.{WorkloadProjection, ResultV1}
use paraflow.Protocol.Response.{Codec, decode_result}
use paraflow.Benchmark.Types.{Summary, EngineResult}
use paraflow.Benchmark.Arith.{sum_uint64, scaled_ratio, ratio_basis_points}
use paraflow.Benchmark.Apportion.{apportion_basis_points}
use paraflow.Benchmark.Profile.{ProfileEngineResult, ProfileSummary, ScenarioProfileAnalysis}
use paraflow.Benchmark.Profile.Analyze.{
  AnalysisError, baseline_result, profile_result, arithmetic, empty_workload, decoded_results_equal,
  different_results, zero_fused_median, zero_profile_median, selectivity_exceeds_u32, stage_medians,
  pipeline_medians, stage_shares, dominant, stage_names, pipeline_names, analyze_scenario,
}

-- The values that an accepted analysis was built from.
pub record Built (codec : Codec) (workload : WorkloadProjection) (engine : EngineResult)
    (baseline : Summary) (profile : ProfileSummary) (a : ScenarioProfileAnalysis) : Type 0 where
  pub left : ResultV1
  pub decoded : decode_result codec engine.result workload ≡ ok left
  pub count : a.accepted_count ≡ left.accepted_count
  pub shares : List ℕ
  pub apportioned : apportion_basis_points (stage_medians profile) ≡ ok shares
  pub by_stage : stage_shares shares ≡ ok a.stage_share_bps
  pub stages : sum_uint64 (stage_medians profile) ≡ ok a.stage_median_sum_ns
  pub pipeline : sum_uint64 (pipeline_medians profile) ≡ ok a.stage_pipeline_median_sum_ns
  pub cost :
      scaled_ratio baseline.pipeline.median_ns workload.record_count 1000
      ≡ ok a.fused_per_record_milli
  pub ratio :
      scaled_ratio a.stage_pipeline_median_sum_ns baseline.pipeline.median_ns 1000
      ≡ ok a.stage_pass_to_fused_ratio_milli
  pub pass_cost :
      scaled_ratio a.stage_pipeline_median_sum_ns workload.record_count 1000
      ≡ ok a.stage_pass_per_record_milli
  pub fused_deviation :
      ratio_basis_points baseline.pipeline.median_absolute_deviation_ns baseline.pipeline.median_ns
      ≡ ok a.fused_deviation_bps
  pub profile_deviation :
      ratio_basis_points profile.profile_total.median_absolute_deviation_ns
        profile.profile_total.median_ns
      ≡ ok a.profile_total_deviation_bps
  pub selected : scaled_ratio left.accepted_count workload.record_count 10000 ≡ ok a.selectivity_bps
  pub named : dominant {E = AnalysisError} stage_names (stage_medians profile) ≡ ok a.dominant_stage
  pub pipeline_named :
      dominant {E = AnalysisError} pipeline_names (pipeline_medians profile)
      ≡ ok a.dominant_pipeline_stage

pub analyze-Built :
    (codec : Codec) (w : WorkloadProjection) (engine : EngineResult) (b : Summary)
    (pe : ProfileEngineResult) (p : ProfileSummary) (a : ScenarioProfileAnalysis)
    → analyze_scenario codec w engine b pe p ≡ ok a
    → Built codec w engine b p a
unfolding analyze_scenario
analyze-Built codec w engine b pe p a e =
    refuse-ok (w.record_count == 0) empty_workload _ e (λ c0 e1.
      bind-ok (map_err baseline_result (decode_result codec engine.result w)) _ e1 (λ left d e2.
        bind-ok (map_err profile_result (decode_result codec pe.result w)) _ e2 (λ right d2 e3.
          refuse-ok (not (decoded_results_equal left right)) different_results _ e3 (λ c3 e4.
            bind-ok (map_err arithmetic (sum_uint64 (stage_medians p))) _ e4 (λ t et e5.
              bind-ok (map_err arithmetic (sum_uint64 (pipeline_medians p))) _ e5 (λ u eu e6.
                bind-ok (map_err arithmetic (apportion_basis_points (stage_medians p))) _ e6
                  (λ s es e7. refuse-ok (b.pipeline.median_ns == 0) zero_fused_median _ e7 (λ c7 e8.
                    bind-ok
                      (map_err arithmetic (scaled_ratio b.pipeline.median_ns w.record_count 1000)) _
                      e8
                      (λ f ef e9.
                        bind-ok (map_err arithmetic (scaled_ratio u w.record_count 1000)) _ e9
                          (λ g eg e10.
                            bind-ok (map_err arithmetic (scaled_ratio u b.pipeline.median_ns 1000))
                              _ e10
                              (λ o eo e11.
                                bind-ok
                                  (map_err arithmetic (
                                    ratio_basis_points b.pipeline.median_absolute_deviation_ns
                                      b.pipeline.median_ns))
                                  _ e11
                                  (λ m em e12.
                                    refuse-ok (p.profile_total.median_ns == 0) zero_profile_median _
                                      e12
                                      (λ c12 e13.
                                        bind-ok
                                          (map_err arithmetic (
                                            ratio_basis_points
                                              p.profile_total.median_absolute_deviation_ns
                                              p.profile_total.median_ns))
                                          _ e13
                                          (λ n en e14.
                                            bind-ok
                                              (map_err arithmetic (
                                                scaled_ratio left.accepted_count w.record_count
                                                  10000))
                                              _ e14
                                              (λ v ev e15.
                                                refuse-ok (ltb max_u32 v) selectivity_exceeds_u32 _
                                                  e15
                                                  (λ c15 e16.
                                                    bind-ok (stage_shares s) _ e16 (λ x ex e17.
                                                      bind-ok
                                                        (dominant stage_names (stage_medians p)) _
                                                        e17
                                                        (λ y ey e18.
                                                          bind-ok
                                                            (dominant pipeline_names
                                                            (pipeline_medians p))
                                                            _ e18
                                                            (λ z ez e19.
                                                            let whole : u32 v ≡ v = ground arith in
                                                            subst (Built codec w engine b p)
                                                            (ok-injective _ a e19)
                                                            record {
                                                            left = left;
                                                            decoded = map_err-eq-ok _ _ d;
                                                            count = refl;
                                                            shares = s;
                                                            apportioned = map_err-eq-ok _ _ es;
                                                            by_stage = ex;
                                                            stages = map_err-eq-ok _ _ et;
                                                            pipeline = map_err-eq-ok _ _ eu;
                                                            cost = map_err-eq-ok _ _ ef;
                                                            ratio = map_err-eq-ok _ _ eo;
                                                            pass_cost = map_err-eq-ok _ _ eg;
                                                            fused_deviation = map_err-eq-ok _ _ em;
                                                            profile_deviation =
                                                            map_err-eq-ok _ _ en;
                                                            selected =
                                                            map_err-eq-ok _ _ ev
                                                            ∙ ap ok (sym whole);
                                                            named = ey;
                                                            pipeline_named = ez;
                                                            })))))))))))))))))))
