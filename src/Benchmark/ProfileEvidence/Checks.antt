-- ===== src/Benchmark/ProfileEvidence/Checks.antt =====
-- The loop of `verifyProfileReport` of labctl-go/internal/benchmark/verify.go, where it succeeds.
use paraflow.Prelude.{
  ℕ, ◌+◌, ◌≤◌, ◌≡◌, ap, ◌∙◌, false, not, Option, some, List, [], ◌∷◌, ltb, arith, length, All, Each,
  each_nil, each_cons,
}
use paraflow.Prelude.Text.{Bytes, bytes_eq, bytes_eq_iff}
use paraflow.Prelude.Outcome.{
  ok, ◌>>=◌, ◌>>◌, refuse, bind-ok, refuse-ok, ok-injective, map_err, map_err-eq-ok,
}
use paraflow.Protocol.Message.{WorkloadProjection}
use paraflow.BuildInfo.{Info}
use paraflow.Benchmark.Types.{EngineBuild}
use paraflow.Benchmark.Engine.{validate_engine_result}
use paraflow.Benchmark.Engine.Sound.{validate_engine_result-IsValidated}
use paraflow.Benchmark.Profile.{validate_profile_engine_result}
use paraflow.Benchmark.Profile.Sound.{validate_profile_engine_result-IsProfiled}
use paraflow.Benchmark.Profile.Analyze.Exact.{analyze_scenario-Reports}
use paraflow.Benchmark.Suite.{Scenario, member}
use paraflow.Benchmark.Suite.Valid.{IsScenario}
use paraflow.Benchmark.Evidence.{Files, small_orchestration, scenario_request, same_build}
use paraflow.Benchmark.Evidence.Alike.{same_build-eq}
use paraflow.Benchmark.Evidence.Verify.{
  read_verified_workload, verify_engine_identity, require_stable_engine_build,
}
use paraflow.Benchmark.Evidence.Read.{not-false, ladder-IsRead}
use paraflow.Benchmark.Evidence.Sound.{
  Unrepeated, Stable, verify_engine_identity-IsBuiltBy, not_above, Stable-cons,
}
use paraflow.Benchmark.ProfileEvidence.{
  ProfileExperiment, profile_workload_identity, profile_request, same_profile_workload,
}
use paraflow.Benchmark.ProfileEvidence.Alike.{same_profile_workload-eq}
use paraflow.Benchmark.ProfileEvidence.Verify.{
  verify_analysis, verify_profile_experiment, verify_profiles,
}
use paraflow.Benchmark.ProfileEvidence.Ran.{Analyzed}
use paraflow.Benchmark.ProfileEvidence.Turn.{report_samples}
use paraflow.Benchmark.ProfileEvidence.Sound.{
  HasTimings, VerifiedProfile, profile_ids, profile_builds, analysis-Analyzed,
}

-- The end of a turn.
profile_rest :
    (files : Files) (w : WorkloadProjection) (build : Option EngineBuild) (e : ProfileExperiment)
    (verified : EngineBuild × ℕ)
    → (do
      stable ← require_stable_engine_build build e.baseline.engine_result.engine_build
      refuse
          (ltb e.baseline.orchestration_total_ns
            e.baseline.engine_result.timing.experiment_total_ns)
          small_orchestration
      refuse
          (ltb e.stage_profile.orchestration_total_ns
            e.stage_profile.engine_result.timing.experiment_total_ns)
          small_orchestration
      verify_analysis files w e
      ok (
        stable,
        length e.baseline.engine_result.samples + length e.stage_profile.engine_result.samples,
      ))
      ≡ ok verified
    → (e.baseline.engine_result.timing.experiment_total_ns ≤ e.baseline.orchestration_total_ns)
      × (e.stage_profile.engine_result.timing.experiment_total_ns
          ≤ e.stage_profile.orchestration_total_ns)
      × Analyzed files w e
      × (require_stable_engine_build build e.baseline.engine_result.engine_build ≡ ok verified.0)
      × (length e.baseline.engine_result.samples + length e.stage_profile.engine_result.samples
          ≡ verified.1)
profile_rest files w build e verified h =
    bind-ok (require_stable_engine_build build _) _ h (λ stable stays h1.
      refuse-ok _ _ _ h1 (λ total h2. refuse-ok _ _ _ h2 (λ total' h3.
        bind-ok (verify_analysis files w e) _ h3 (λ _ derived last.
          let made = ok-injective (stable, _) verified last in
          (
            not_above _ _ total,
            not_above _ _ total',
            analysis-Analyzed files w e derived,
            stays ∙ ap (λ v. ok v.0) made,
            ap (λ v. v.1) made,
          )))))

module _ (files : Files) (root : Bytes) (controller : Info) where
  verify_profile_experiment-Verified :
      (index : ℕ) (ids : List Bytes) (build : Option EngineBuild) (scenario : Scenario)
      (e : ProfileExperiment) (verified : EngineBuild × ℕ)
      → IsScenario scenario
      → HasTimings e
      → verify_profile_experiment files root controller ids build scenario e ≡ ok verified
      → VerifiedProfile files root controller index scenario e
        × (member e.baseline.engine_result.experiment_id ids ≡ false)
        × (member e.stage_profile.engine_result.experiment_id
              (e.baseline.engine_result.experiment_id ∷ ids)
            ≡ false)
        × (require_stable_engine_build build e.baseline.engine_result.engine_build ≡ ok verified.0)
        × (length e.baseline.engine_result.samples + length e.stage_profile.engine_result.samples
            ≡ verified.1)
  unfolding verify_profile_experiment read_verified_workload
  verify_profile_experiment-Verified index ids build scenario e verified valid (u, u', m) h =
      let baseline = e.baseline.engine_result in
      let profile = e.stage_profile.engine_result in
      refuse-ok (not (bytes_eq e.scenario_name scenario.name)) _ _ h (λ named h1.
        bind-ok (read_verified_workload files root scenario.workload) _ h1 (λ got source h2.
          let identity = profile_workload_identity files scenario got.0 got.1 in
          let request = scenario_request scenario baseline.experiment_id got.0 in
          let request' = profile_request scenario profile.experiment_id got.0 in
          refuse-ok (not (same_profile_workload e.workload identity)) _ _ h2 (λ identified h3.
            refuse-ok (member baseline.experiment_id ids) _ _ h3 (λ fresh h4.
              refuse-ok (member profile.experiment_id (baseline.experiment_id ∷ ids)) _ _ h4
                (λ fresh' h5.
                  bind-ok (map_err _ (validate_engine_result files.codec baseline request got.1)) _
                    h5
                    (λ _ checked h6.
                      bind-ok
                        (map_err _
                          (validate_profile_engine_result files.codec profile request' got.1))
                        _ h6
                        (λ _ checked' h7.
                          refuse-ok (not (same_build baseline.engine_build profile.engine_build)) _
                            _ h7
                            (λ builds h8.
                              bind-ok (verify_engine_identity baseline.engine_build controller) _ h8
                                (λ _ built h9.
                                  let (total, total', derived, stays, counted) =
                                    profile_rest files got.1 build e verified h9 in
                                  (
                                    record {
                                      named = (bytes_eq_iff _ _).0 (not-false _ named);
                                      got = got;
                                      source = ladder-IsRead files _ got source;
                                      identified =
                                          same_profile_workload-eq _ _ (not-false _ identified);
                                      baseline =
                                          validate_engine_result-IsValidated files.codec baseline
                                            request got.1 u (omega (arith, valid.samples))
                                            (map_err-eq-ok _ _ checked);
                                      profile =
                                          validate_profile_engine_result-IsProfiled files.codec
                                            profile request' got.1 u' (omega (arith, valid.samples))
                                            (map_err-eq-ok _ _ checked');
                                      builds = same_build-eq _ _ (not-false _ builds);
                                      built = verify_engine_identity-IsBuiltBy _ controller built;
                                      baseline_total = total;
                                      profile_total = total';
                                      derived = derived;
                                      reports =
                                          analyze_scenario-Reports files.codec got.1 baseline
                                            e.baseline.summary profile e.stage_profile.summary
                                            e.analysis m derived.analysis;
                                    },
                                    fresh,
                                    fresh',
                                    stays,
                                    counted,
                                  ))))))))))

  pub verify_profiles-Verified :
      (index : ℕ) (ids : List Bytes) (build : Option EngineBuild) (scenarios : List Scenario)
      (experiments : List ProfileExperiment) (retained : ℕ)
      → All IsScenario scenarios
      → All HasTimings experiments
      → length experiments ≡ length scenarios
      → verify_profiles files root controller ids build scenarios experiments ≡ ok retained
      → Each (VerifiedProfile files root controller) index scenarios experiments
        × Unrepeated ids (profile_ids experiments)
        × Stable build (profile_builds experiments)
        × (report_samples experiments ≡ retained)
  unfolding verify_profiles
  verify_profiles-Verified index ids build [] [] retained v u n h =
      (each_nil, tt, tt, ok-injective _ _ h)
  verify_profiles-Verified index ids build [] (e ∷ es) retained v u n h = absurd (omega arith)
  verify_profiles-Verified index ids build (s ∷ ss) [] retained v u n h = absurd (omega arith)
  verify_profiles-Verified index ids build (s ∷ ss) (e ∷ es) retained (v, vs) (u, us) n h =
      bind-ok (verify_profile_experiment files root controller ids build s e) _ h
        (λ verified turn h1.
          let ids' =
            e.stage_profile.engine_result.experiment_id ∷ e.baseline.engine_result.experiment_id
            ∷ ids in
          bind-ok (verify_profiles files root controller ids' (some verified.0) ss es) _ h1
            (λ later more last.
              let (here, fresh, fresh', stays, counted) =
                verify_profile_experiment-Verified index ids build s e verified v u turn in
              let (there, unrepeated, stable, total) =
                verify_profiles-Verified (index + 1) ids' (some verified.0) ss es later vs us
                  (omega arith) more in
              let sum : verified.1 + later ≡ retained = ok-injective _ _ last in
              (
                each_cons here there,
                (fresh, (fresh', unrepeated)),
                Stable-cons build e.baseline.engine_result.engine_build (profile_builds es)
                    verified.0 stays stable,
                omega arith,
              )))
