-- ===== src/Benchmark/ProfileEvidence/Sound.antt =====
-- What `verifyProfileReport` of labctl-go/internal/benchmark/verify.go vouches for, experiment by experiment.
use paraflow.Prelude.{ℕ, ◌≤◌, ◌≡◌, sym, ap, ◌∙◌, not, List, [], ◌∷◌, arith, All}
use paraflow.Prelude.Text.{Bytes}
use paraflow.Prelude.Outcome.{ok, bind-ok, refuse-ok, map_err, map_err-eq-ok}
use paraflow.Prelude.Words.{IsU64}
use paraflow.Protocol.Message.{WorkloadProjection}
use paraflow.BuildInfo.{Info}
use paraflow.Benchmark.Types.{EngineBuild}
use paraflow.Benchmark.Stats.{summarize}
use paraflow.Benchmark.Engine.Samples.{HasU64}
use paraflow.Benchmark.Engine.Sound.{IsValidated}
use paraflow.Benchmark.Profile.{stages}
use paraflow.Benchmark.Profile.Sound.{IsProfiled}
use paraflow.Benchmark.Profile.Analyze.{stage_medians, summarize_profile, analyze_scenario}
use paraflow.Benchmark.Profile.Analyze.Exact.{Reports}
use paraflow.Benchmark.Suite.{Scenario}
use paraflow.Benchmark.Evidence.{
  Files, resolve_verified_repository_file, scenario_request, same_summary,
}
use paraflow.Benchmark.Evidence.Alike.{same_summary-eq}
use paraflow.Benchmark.Evidence.Read.{IsRead, not-false}
use paraflow.Benchmark.Evidence.Sound.{IsBuiltBy}
use paraflow.Benchmark.ProfileEvidence.{
  ProfileExperiment, profile_workload_identity, profile_request, same_profile_summary,
}
use paraflow.Benchmark.ProfileEvidence.Alike.{same_profile_summary-eq, same_analysis-eq}
use paraflow.Benchmark.ProfileEvidence.Verify.{verify_analysis}
use paraflow.Benchmark.ProfileEvidence.Ran.{Analyzed}

-- The timings of an experiment hold u64 values.
abbrev pub HasTimings : ProfileExperiment → Type 0
HasTimings e =
    All HasU64 e.baseline.engine_result.samples
    × All (λ s. All IsU64 (stages s)) e.stage_profile.engine_result.samples
    × All IsU64 (stage_medians e.stage_profile.summary)

-- An experiment and its scenario: the workload's file in the repository is the recorded one, both
-- results answer the scenario's requests from one build, the summaries are those of the samples, and the
-- analysis reports them exactly.
pub record VerifiedProfile (files : Files) (root : Bytes) (controller : Info) (index : ℕ)
    (scenario : Scenario) (e : ProfileExperiment) : Type 0 where
  pub named : e.scenario_name ≡ scenario.name
  pub got : Bytes × WorkloadProjection
  pub source : IsRead files (resolve_verified_repository_file files root scenario.workload) got
  pub identified : e.workload ≡ profile_workload_identity files scenario got.0 got.1
  pub baseline :
      IsValidated files.codec
        (scenario_request scenario e.baseline.engine_result.experiment_id got.0)
        got.1
        e.baseline.engine_result
  pub profile :
      IsProfiled files.codec
        (profile_request scenario e.stage_profile.engine_result.experiment_id got.0)
        got.1
        e.stage_profile.engine_result
  pub builds : e.baseline.engine_result.engine_build ≡ e.stage_profile.engine_result.engine_build
  pub built : IsBuiltBy controller e.baseline.engine_result.engine_build
  pub baseline_total :
      e.baseline.engine_result.timing.experiment_total_ns ≤ e.baseline.orchestration_total_ns
  pub profile_total :
      e.stage_profile.engine_result.timing.experiment_total_ns
      ≤ e.stage_profile.orchestration_total_ns
  pub derived : Analyzed files got.1 e
  pub reports :
      Reports files.codec e.baseline.engine_result got.1 e.baseline.summary e.stage_profile.summary
        e.analysis

abbrev pub profile_ids : List ProfileExperiment → List Bytes
profile_ids [] = []
profile_ids (e ∷ es) =
    e.baseline.engine_result.experiment_id
    ∷ e.stage_profile.engine_result.experiment_id
    ∷ profile_ids es

abbrev pub profile_builds : List ProfileExperiment → List EngineBuild
profile_builds [] = []
profile_builds (e ∷ es) = e.baseline.engine_result.engine_build ∷ profile_builds es

-- A stored analysis that is accepted is the one derived again.
pub analysis-Analyzed :
    (files : Files) (w : WorkloadProjection) (e : ProfileExperiment)
    → verify_analysis files w e ≡ ok tt
    → Analyzed files w e
unfolding verify_analysis
analysis-Analyzed files w e h =
    bind-ok (map_err _ (summarize e.baseline.engine_result.samples)) _ h (λ b eb h1.
      refuse-ok (not (same_summary e.baseline.summary b)) _ _ h1 (λ sb h2.
        bind-ok (map_err _ (summarize_profile e.stage_profile.engine_result.samples)) _ h2
          (λ p ep h3.
            refuse-ok (not (same_profile_summary e.stage_profile.summary p)) _ _ h3 (λ sp h4.
              bind-ok
                (map_err _ (
                  analyze_scenario files.codec w e.baseline.engine_result b
                    e.stage_profile.engine_result p))
                _ h4
                (λ a ea h5.
                  let qb = same_summary-eq e.baseline.summary b (not-false _ sb) in
                  let qp = same_profile_summary-eq e.stage_profile.summary p (not-false _ sp) in
                  let qa : e.analysis ≡ a = same_analysis-eq e.analysis a (ground (arith, h5)) in
                  record {
                    baseline = map_err-eq-ok _ _ eb ∙ ap ok (sym qb);
                    profile = map_err-eq-ok _ _ ep ∙ ap ok (sym qp);
                    analysis =
                        (λ i.
                          analyze_scenario files.codec w e.baseline.engine_result (qb i)
                            e.stage_profile.engine_result (qp i))
                        ∙ (map_err-eq-ok _ _ ea ∙ ap ok (sym qa));
                  })))))
