-- ===== src/Benchmark/Evidence/Sound.antt =====
-- What `verifyCapture` of labctl-go/internal/benchmark/verify.go vouches for.
use paraflow.Prelude.{
  ℕ, ◌+◌, ◌≤◌, ◌≡◌, sym, ap, subst, ◌∙◌, Bool, true, false, not, Option, none, some, List, [], ◌∷◌,
  ltb, arith, length, All, Bool-cases, inl, inr, if◌then◌else◌, Each, each_nil, each_cons,
}
use paraflow.Prelude.Text.{Bytes, bytes_eq, bytes_eq_iff}
use paraflow.Prelude.Outcome.{
  Outcome, ok, err, ◌>>=◌, ◌>>◌, refuse, bind-ok, refuse-ok, ok-injective, map_err, map_err-eq-ok,
}
use paraflow.Protocol.Message.{WorkloadProjection}
use paraflow.BuildInfo.{Info}
use paraflow.Benchmark.Types.{EngineBuild}
use paraflow.Benchmark.Stats.{summarize}
use paraflow.Benchmark.Engine.{validate_engine_result}
use paraflow.Benchmark.Engine.Samples.{HasU64}
use paraflow.Benchmark.Engine.Sound.{IsValidated, validate_engine_result-IsValidated}
use paraflow.Benchmark.Suite.{Scenario, member}
use paraflow.Benchmark.Suite.Valid.{IsScenario}
use paraflow.Benchmark.Evidence.{
  EvidenceError, build_changed, small_orchestration, bad_samples, wrong_summary, Experiment, Files,
  resolve_verified_repository_file, validate_source_alignment, workload_identity, scenario_request,
  same_build, same_workload, same_summary,
}
use paraflow.Benchmark.Evidence.Alike.{same_build-eq, same_workload-eq, same_summary-eq}
use paraflow.Benchmark.Evidence.Verify.{
  read_verified_workload, verify_engine_identity, require_stable_engine_build, verify_experiment,
  verify_experiments,
}
use paraflow.Benchmark.Evidence.Turn.{retained_samples}
use paraflow.Benchmark.Evidence.Read.{IsRead, not-false, ladder-IsRead}

-- The engine's build is the controller's.
pub record IsBuiltBy (controller : Info) (build : EngineBuild) : Type 0 where
  pub version : build.version ≡ controller.version
  pub commit : build.source_commit ≡ controller.full_commit
  pub state : build.source_state ≡ controller.source_state

-- An experiment and its scenario: the workload's file in the repository is the recorded one, the
-- result answers the scenario's request, and the summary is that of the retained samples.
pub record Verified (files : Files) (root : Bytes) (controller : Info) (index : ℕ)
    (scenario : Scenario) (experiment : Experiment) : Type 0 where
  pub named : experiment.scenario_name ≡ scenario.name
  pub got : Bytes × WorkloadProjection
  pub source : IsRead files (resolve_verified_repository_file files root scenario.workload) got
  pub identified : experiment.workload ≡ workload_identity files scenario got.0 got.1
  pub answers :
      IsValidated files.codec
        (scenario_request scenario experiment.engine_result.experiment_id got.0)
        got.1
        experiment.engine_result
  pub built : IsBuiltBy controller experiment.engine_result.engine_build
  pub total :
      experiment.engine_result.timing.experiment_total_ns ≤ experiment.orchestration_total_ns
  pub summarized : summarize experiment.engine_result.samples ≡ ok experiment.summary

-- No text of the second list is in the first list or stands before itself in the second.
abbrev pub Unrepeated : List Bytes → List Bytes → Type 0
Unrepeated ids [] = Unit
Unrepeated ids (x ∷ xs) = (member x ids ≡ false) × Unrepeated (x ∷ ids) xs

-- All builds are the expected one, which is the first where none is expected.
abbrev pub Stable : Option EngineBuild → List EngineBuild → Type 0
Stable expected [] = Unit
Stable none (b ∷ bs) = Stable (some b) bs
Stable (some build) (b ∷ bs) = (build ≡ b) × Stable (some build) bs

abbrev pub ids_of : List Experiment → List Bytes
ids_of [] = []
ids_of (e ∷ es) = e.engine_result.experiment_id ∷ ids_of es

abbrev pub builds_of : List Experiment → List EngineBuild
builds_of [] = []
builds_of (e ∷ es) = e.engine_result.engine_build ∷ builds_of es

pub verify_engine_identity-IsBuiltBy :
    (build : EngineBuild) (controller : Info)
    → verify_engine_identity build controller ≡ ok tt
    → IsBuiltBy controller build
unfolding verify_engine_identity validate_source_alignment
verify_engine_identity-IsBuiltBy build controller h = record {
  version = (bytes_eq_iff build.version controller.version).0 (ground arith);
  commit = (bytes_eq_iff build.source_commit controller.full_commit).0 (ground arith);
  state = (bytes_eq_iff build.source_state controller.source_state).0 (ground arith);
}

pub not_above : (a b : ℕ) → ltb b a ≡ false → a ≤ b
not_above a b h = ground arith

kept :
    (expected build : EngineBuild) (same : Bool)
    → same ≡ true
    → ◌≡◌ {A = Outcome EvidenceError EngineBuild}
        (if not same then err build_changed else ok expected)
        (ok build)
    → expected ≡ build
kept expected build true e h = ok-injective _ _ h
kept expected build false e h = absurd (cc)

-- The end of a turn.
rest :
    (build : Option EngineBuild) (experiment : Experiment) (verified : EngineBuild × ℕ)
    → (do
      stable ← require_stable_engine_build build experiment.engine_result.engine_build
      refuse
          (ltb experiment.orchestration_total_ns
            experiment.engine_result.timing.experiment_total_ns)
          small_orchestration
      summary ← map_err bad_samples (summarize experiment.engine_result.samples)
      refuse (not (same_summary experiment.summary summary)) wrong_summary
      ok (stable, length experiment.engine_result.samples))
      ≡ ok verified
    → (experiment.engine_result.timing.experiment_total_ns ≤ experiment.orchestration_total_ns)
      × (summarize experiment.engine_result.samples ≡ ok experiment.summary)
      × (require_stable_engine_build build experiment.engine_result.engine_build ≡ ok verified.0)
      × (length experiment.engine_result.samples ≡ verified.1)
rest build experiment verified h =
    bind-ok (require_stable_engine_build build _) _ h (λ stable stays h1.
      refuse-ok _ _ _ h1 (λ total h2.
        bind-ok (map_err _ (summarize experiment.engine_result.samples)) _ h2
          (λ summary summarized h3. refuse-ok _ _ _ h3 (λ same last.
            let made =
              ok-injective (stable, length experiment.engine_result.samples) verified last in
            (
              not_above _ _ total,
              map_err-eq-ok _ _ summarized ∙ ap ok (sym (same_summary-eq _ _ (not-false _ same))),
              stays ∙ ap (λ v. ok v.0) made,
              ap (λ v. v.1) made,
            )))))

pub Stable-cons :
    (expected : Option EngineBuild) (b : EngineBuild) (bs : List EngineBuild) (build : EngineBuild)
    → require_stable_engine_build expected b ≡ ok build
    → Stable (some build) bs
    → Stable expected (b ∷ bs)
unfolding require_stable_engine_build
Stable-cons none b bs build h stable =
    subst (λ x. Stable (some x) bs) (sym (ok-injective _ _ h)) stable
Stable-cons (some expected) b bs build h stable = elim (Bool-cases (same_build expected b)) [
  | inl same ↦ (
    same_build-eq expected b same,
    subst (λ x. Stable (some x) bs) (sym (kept expected build _ same h)) stable,
  )
  | inr changed ↦ absurd (ground arith)
]

module _ (files : Files) (root : Bytes) (controller : Info) where
  verify_experiment-Verified :
      (index : ℕ) (ids : List Bytes) (build : Option EngineBuild) (scenario : Scenario)
      (experiment : Experiment) (verified : EngineBuild × ℕ)
      → IsScenario scenario
      → All HasU64 experiment.engine_result.samples
      → verify_experiment files root controller ids build scenario experiment ≡ ok verified
      → Verified files root controller index scenario experiment
        × (member experiment.engine_result.experiment_id ids ≡ false)
        × (require_stable_engine_build build experiment.engine_result.engine_build ≡ ok verified.0)
        × (length experiment.engine_result.samples ≡ verified.1)
  unfolding verify_experiment read_verified_workload
  verify_experiment-Verified index ids build scenario experiment verified valid u64 h =
      let result = experiment.engine_result in
      refuse-ok (not (bytes_eq experiment.scenario_name scenario.name)) _ _ h (λ named h1.
        bind-ok (read_verified_workload files root scenario.workload) _ h1 (λ got source h2.
          let identity = workload_identity files scenario got.0 got.1 in
          let request = scenario_request scenario result.experiment_id got.0 in
          refuse-ok (not (same_workload experiment.workload identity)) _ _ h2 (λ identified h3.
            refuse-ok (member result.experiment_id ids) _ _ h3 (λ fresh h4.
              bind-ok (map_err _ (validate_engine_result files.codec result request got.1)) _ h4
                (λ _ checked h5.
                  bind-ok (verify_engine_identity result.engine_build controller) _ h5
                    (λ _ built h6.
                      let (total, summarized, stays, counted) = rest build experiment verified h6 in
                      (
                        record {
                          named = (bytes_eq_iff _ _).0 (not-false _ named);
                          got = got;
                          source = ladder-IsRead files _ got source;
                          identified = same_workload-eq _ _ (not-false _ identified);
                          answers =
                              validate_engine_result-IsValidated files.codec result request got.1
                                u64 (omega (arith, valid.samples)) (map_err-eq-ok _ _ checked);
                          built = verify_engine_identity-IsBuiltBy _ controller built;
                          total = total;
                          summarized = summarized;
                        },
                        fresh,
                        stays,
                        counted,
                      )))))))

  pub verify_experiments-Verified :
      (index : ℕ) (ids : List Bytes) (build : Option EngineBuild) (scenarios : List Scenario)
      (experiments : List Experiment) (retained : ℕ)
      → All IsScenario scenarios
      → All (λ e. All HasU64 e.engine_result.samples) experiments
      → length experiments ≡ length scenarios
      → verify_experiments files root controller ids build scenarios experiments ≡ ok retained
      → Each (Verified files root controller) index scenarios experiments
        × Unrepeated ids (ids_of experiments)
        × Stable build (builds_of experiments)
        × (retained_samples experiments ≡ retained)
  unfolding verify_experiments
  verify_experiments-Verified index ids build [] [] retained v u n h =
      (each_nil, tt, tt, ok-injective _ _ h)
  verify_experiments-Verified index ids build [] (e ∷ es) retained v u n h = absurd (omega arith)
  verify_experiments-Verified index ids build (s ∷ ss) [] retained v u n h = absurd (omega arith)
  verify_experiments-Verified index ids build (s ∷ ss) (e ∷ es) retained (v, vs) (u, us) n h =
      bind-ok (verify_experiment files root controller ids build s e) _ h (λ verified turn h1.
        bind-ok
          (verify_experiments files root controller (e.engine_result.experiment_id ∷ ids)
            (some verified.0) ss es)
          _ h1
          (λ later more last.
            let (here, fresh, stays, counted) =
              verify_experiment-Verified index ids build s e verified v u turn in
            let (there, unrepeated, stable, total) =
              verify_experiments-Verified (index + 1) (e.engine_result.experiment_id ∷ ids)
                (some verified.0) ss es later vs us (omega arith) more in
            let sum : verified.1 + later ≡ retained = ok-injective _ _ last in
            (
              each_cons here there,
              (fresh, unrepeated),
              Stable-cons build e.engine_result.engine_build (builds_of es) verified.0 stays stable,
              omega arith,
            )))
