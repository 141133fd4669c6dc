-- ===== src/Benchmark/ProfileEvidence/Ran.antt =====
-- One scenario's turn in `ExecuteProfile` of labctl-go/internal/benchmark/profile_execute.go.
use paraflow.Prelude.{
  ℕ, ◌+◌, ◌≡◌, refl, ap, subst, ◌∙◌, true, not, ◌&&◌, List, [], ◌∷◌, Each, each_nil, each_cons,
}
use paraflow.Prelude.Text.{Bytes, codes, bytes_eq}
use paraflow.Prelude.Outcome.{ok, bind-ok, refuse-ok, ok-injective, map_err, map_err-eq-ok}
use paraflow.Protocol.Message.{WorkloadProjection}
use paraflow.BuildInfo.{Info}
use paraflow.Benchmark.Types.{EngineResult}
use paraflow.Benchmark.Stats.{summarize}
use paraflow.Benchmark.Profile.{ProfileEngineResult}
use paraflow.Benchmark.Profile.Analyze.{summarize_profile, analyze_scenario}
use paraflow.Benchmark.Suite.{Scenario}
use paraflow.Benchmark.Evidence.{
  Files, resolve_repository_path, validate_source_alignment, scenario_request, same_build,
}
use paraflow.Benchmark.Evidence.Execute.{read_workload}
use paraflow.Benchmark.Evidence.Read.{IsRead, not-false, ladder-IsRead}
use paraflow.Benchmark.ProfileEvidence.{
  ProfileExperiment, profile_workload_identity, profile_request, baseline_id, profile_id,
}
use paraflow.Benchmark.ProfileEvidence.Execute.{
  ProfileRun, analyzed, profile_scenario, profile_scenarios,
}

-- The statistics and the analysis of an experiment are those of its two runs.
pub record Analyzed (files : Files) (projection : WorkloadProjection) (e : ProfileExperiment)
    : Type 0 where
  pub baseline : summarize e.baseline.engine_result.samples ≡ ok e.baseline.summary
  pub profile : summarize_profile e.stage_profile.engine_result.samples ≡ ok e.stage_profile.summary
  pub analysis :
      analyze_scenario files.codec projection e.baseline.engine_result e.baseline.summary
        e.stage_profile.engine_result e.stage_profile.summary
      ≡ ok e.analysis

-- One scenario's experiment: the workload that was read, the two results and what was derived.
pub record RanProfile (files : Files) (run : ProfileRun) (root : Bytes) (controller : Info)
    (index : ℕ) (scenario : Scenario) (e : ProfileExperiment) : Type 0 where
  pub got : Bytes × WorkloadProjection
  pub source : IsRead files (resolve_repository_path files root scenario.workload) got
  pub baseline_ran :
      run.baseline_runner index (scenario_request scenario (baseline_id index) got.0) got.1
      ≡ ok (e.baseline.engine_result, e.baseline.orchestration_total_ns)
  pub aligned : validate_source_alignment e.baseline.engine_result.engine_build controller ≡ ok tt
  pub profile_ran :
      run.profile_runner index (profile_request scenario (profile_id index) got.0) got.1
      ≡ ok (e.stage_profile.engine_result, e.stage_profile.orchestration_total_ns)
  pub builds :
      same_build e.stage_profile.engine_result.engine_build e.baseline.engine_result.engine_build
      ≡ true
  pub derived : Analyzed files got.1 e
  pub named : e.scenario_name ≡ scenario.name
  pub identified : e.workload ≡ profile_workload_identity files scenario got.0 got.1

-- The end of a turn.
analyzed-Analyzed :
    (files : Files) (scenario : Scenario) (workload : Bytes) (projection : WorkloadProjection)
    (baseline : EngineResult × ℕ) (profile : ProfileEngineResult × ℕ) (e : ProfileExperiment)
    → analyzed files scenario workload projection baseline profile ≡ ok e
    → Analyzed files projection e
      × (e.scenario_name ≡ scenario.name)
      × (e.workload ≡ profile_workload_identity files scenario workload projection)
      × (baseline ≡ (e.baseline.engine_result, e.baseline.orchestration_total_ns))
      × (profile ≡ (e.stage_profile.engine_result, e.stage_profile.orchestration_total_ns))
unfolding analyzed
analyzed-Analyzed files scenario workload projection baseline profile e h =
    bind-ok (map_err _ (summarize baseline.0.samples)) _ h (λ b eb h1.
      bind-ok (map_err _ (summarize_profile profile.0.samples)) _ h1 (λ p ep h2.
        bind-ok (map_err _ (analyze_scenario files.codec projection baseline.0 b profile.0 p)) _ h2
          (λ a ea last.
            subst
              (λ e.
                Analyzed files projection e
                × (e.scenario_name ≡ scenario.name)
                × (e.workload ≡ profile_workload_identity files scenario workload projection)
                × (baseline ≡ (e.baseline.engine_result, e.baseline.orchestration_total_ns))
                × (profile
                    ≡ (e.stage_profile.engine_result, e.stage_profile.orchestration_total_ns)))
              (ok-injective _ _ last)
              (
                record {
                  baseline = map_err-eq-ok _ _ eb;
                  profile = map_err-eq-ok _ _ ep;
                  analysis = map_err-eq-ok _ _ ea;
                },
                refl,
                refl,
                refl,
                refl,
              ))))

module _ (files : Files) (run : ProfileRun) (root : Bytes) (controller : Info) where
  profile_scenario-RanProfile :
      (index : ℕ) (scenario : Scenario) (e : ProfileExperiment)
      → profile_scenario files run root controller index scenario ≡ ok e
      → RanProfile files run root controller index scenario e
  unfolding profile_scenario read_workload
  profile_scenario-RanProfile index scenario e h =
      refuse-ok (run.context_done (index + 1)) _ _ h (λ _ h1.
        bind-ok (read_workload files root scenario) _ h1 (λ got source h2.
          refuse-ok
            (not (bytes_eq got.1.distribution (codes "uniform"))
              && not (bytes_eq got.1.distribution (codes "hotspot")))
            _ _ h2
            (λ _ h3.
              bind-ok (map_err _ (run.baseline_runner index _ got.1)) _ h3 (λ baseline ran h4.
                bind-ok (validate_source_alignment baseline.0.engine_build controller) _ h4
                  (λ _ aligned h5.
                    bind-ok (map_err _ (run.profile_runner index _ got.1)) _ h5 (λ profile ran' h6.
                      bind-ok (validate_source_alignment profile.0.engine_build controller) _ h6
                        (λ _ _ h7.
                          refuse-ok
                            (not (same_build profile.0.engine_build baseline.0.engine_build)) _ _ h7
                            (λ builds h8.
                              let (derived, named, identified, b, p) =
                                analyzed-Analyzed files scenario got.0 got.1 baseline profile e
                                  h8 in
                              record {
                                got = got;
                                source = ladder-IsRead files _ got source;
                                baseline_ran = map_err-eq-ok _ _ ran ∙ ap ok b;
                                aligned =
                                    subst
                                      (λ x.
                                        validate_source_alignment x.0.engine_build controller
                                        ≡ ok tt)
                                      b aligned;
                                profile_ran = map_err-eq-ok _ _ ran' ∙ ap ok p;
                                builds =
                                    subst
                                      (λ x.
                                        same_build x.0.engine_build
                                          e.baseline.engine_result.engine_build
                                        ≡ true)
                                      p
                                      (subst
                                        (λ x.
                                          same_build profile.0.engine_build x.0.engine_build ≡ true)
                                        b (not-false _ builds));
                                derived = derived;
                                named = named;
                                identified = identified;
                              }))))))))

  pub profile_scenarios-Each :
      (index : ℕ) (scenarios : List Scenario) (experiments : List ProfileExperiment)
      → profile_scenarios files run root controller index scenarios ≡ ok experiments
      → Each (RanProfile files run root controller) index scenarios experiments
  unfolding profile_scenarios
  profile_scenarios-Each index [] experiments h =
      subst (Each (RanProfile files run root controller) index []) (ok-injective _ _ h) each_nil
  profile_scenarios-Each index (scenario ∷ scenarios) experiments h =
      bind-ok (profile_scenario files run root controller index scenario) _ h (λ experiment ran h1.
        bind-ok (profile_scenarios files run root controller (index + 1) scenarios) _ h1
          (λ rest more same.
            subst (Each (RanProfile files run root controller) index (scenario ∷ scenarios))
              (ok-injective _ _ same)
              (each_cons (profile_scenario-RanProfile index scenario experiment ran)
                (profile_scenarios-Each (index + 1) scenarios rest more))))
