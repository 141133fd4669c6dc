-- ===== src/Benchmark/Evidence/Turn.antt =====
-- A turn of the loop of `verifyCapture` of labctl-go/internal/benchmark/verify.go, over an experiment that
-- `Execute` made.
use paraflow.Prelude.{
  ℕ, ◌+◌, ◌≤◌, ◌<◌, ◌≡◌, refl, sym, ap, subst, ◌∙◌, inl, inr, true, false, Option, some, List, [],
  ◌∷◌, ltb, arith, length, drop, All, Bool-cases, Each, each_nil, each_cons,
}
use paraflow.Prelude.Text.{Bytes, bytes_eq, bytes_eq_iff}
use paraflow.Prelude.Outcome.{Outcome, ok}
use paraflow.Protocol.Hex.{format_request_id}
use paraflow.Protocol.Hex.RoundTrip.{request_ids_distinct}
use paraflow.Protocol.Message.{WorkloadProjection}
use paraflow.Protocol.Response.{Codec}
use paraflow.BuildInfo.{Info}
use paraflow.Benchmark.Types.{Request, EngineBuild, EngineResult}
use paraflow.Benchmark.Engine.{EngineError, validate_engine_result}
use paraflow.Benchmark.Engine.Sound.{validate-Passed}
use paraflow.Benchmark.Suite.{Scenario, member}
use paraflow.Benchmark.Evidence.{
  Experiment, Files, resolve_repository_path, resolve_verified_repository_file, workload_identity,
  scenario_request, experiment_id, same_workload,
}
use paraflow.Benchmark.Evidence.Alike.{same_build_refl, same_workload_refl, same_summary_refl}
use paraflow.Benchmark.Evidence.Execute.{Run}
use paraflow.Benchmark.Evidence.Verify.{
  read_verified_workload, verify_engine_identity, require_stable_engine_build, verify_experiment,
  verify_experiments,
}
use paraflow.Benchmark.Evidence.Read.{IsRead}
use paraflow.Benchmark.Evidence.Executed.{Ran}

-- A file of the repository that can be read stands inside it and reads the same once its links are
-- followed.
abbrev pub IsPlain : Files → Bytes → Type 0
IsPlain files root =
    (repository_path path content : Bytes)
    → resolve_repository_path files root repository_path ≡ ok path
    → files.read_file path ≡ some content
    → (resolved : Bytes) × (resolve_verified_repository_file files root repository_path
        ≡ ok resolved)
      × (files.read_file resolved ≡ some content)

-- What `RunEngine` promises of a result that it returns.
abbrev pub IsChecked :
    Codec → (ℕ → Request → WorkloadProjection → Outcome EngineError (EngineResult × ℕ)) → Type 0
IsChecked codec runner =
    (index : ℕ) (request : Request) (w : WorkloadProjection) (result : EngineResult) (o : ℕ)
    → runner index request w ≡ ok (result, o)
    → (validate_engine_result codec result request w ≡ ok tt)
      × (result.timing.experiment_total_ns ≤ o)

pub read_again :
    (files : Files) (root repository_path : Bytes) (got : Bytes × WorkloadProjection)
    → IsPlain files root
    → IsRead files (resolve_repository_path files root repository_path) got
    → read_verified_workload files root repository_path ≡ ok got
unfolding read_verified_workload
read_again files root repository_path got plain r =
    let (resolved, e, content) = plain repository_path r.path got.0 r.resolves r.read in
    rw (e, content, r.projected, r.supported)

experiment_id-injective : (i j : ℕ) → i < 64 → j < 64 → experiment_id i ≡ experiment_id j → i ≡ j
unfolding experiment_id format_request_id
experiment_id-injective i j bi bj e =
    let (_, injective) = request_ids_distinct (i + 1) (j + 1) (omega arith) (omega arith) in
    let same : i + 1 ≡ j + 1 = injective (ap (drop 6) e) in omega arith

-- The ids of the experiments before this one.
abbrev Before : ℕ → List Bytes → Type 0
Before index = All (λ id. (j : ℕ) × (j < index) × (id ≡ experiment_id j))

Before-later : (index : ℕ) (ids : List Bytes) → Before index ids → Before (index + 1) ids
Before-later index [] h = tt
Before-later index (id ∷ ids) ((j, below, e), h) = ((j, omega arith, e), Before-later index ids h)

fresh_id :
    (index : ℕ) (ids : List Bytes)
    → index < 64
    → Before index ids
    → member (experiment_id index) ids ≡ false
unfolding member
fresh_id index [] b h = refl
fresh_id index (id ∷ ids) b ((j, below, e), h) =
    elim (Bool-cases (bytes_eq (experiment_id index) id)) [
      | inr apart ↦ rw (apart, fresh_id index ids b h)
      | inl same ↦
          let i : index ≡ j =
            experiment_id-injective index j b (omega arith)
              ((bytes_eq_iff (experiment_id index) id).0 same ∙ e) in
          absurd (omega arith)
    ]

-- The number of samples that a capture retains.
abbrev pub retained_samples : List Experiment → ℕ
retained_samples [] = 0
retained_samples (e ∷ es) = length e.engine_result.samples + retained_samples es

pub not_below : (a b : ℕ) → a ≤ b → ltb b a ≡ false
not_below a b h = ground arith

module _ (files : Files) (run : Run) (root : Bytes) (controller : Info) (build : EngineBuild)
    (plain : IsPlain files root) (checked : IsChecked files.codec run.runner)
    (version : build.version ≡ controller.version) where
  verify_experiment-Ran :
      (index : ℕ) (ids : List Bytes) (stable : Option EngineBuild) (scenario : Scenario)
      (experiment : Experiment)
      → Ran files run root controller index scenario experiment
      → index < 64
      → Before index ids
      → require_stable_engine_build stable build ≡ ok build
      → experiment.engine_result.engine_build ≡ build
      → (verify_experiment files root controller ids stable scenario experiment
          ≡ ok (build, length experiment.engine_result.samples))
        × (experiment.engine_result.experiment_id ≡ experiment_id index)
  unfolding verify_experiment verify_engine_identity
  verify_experiment-Ran index ids stable scenario experiment r b before stays same =
      let (valid, total) = checked index _ _ _ _ r.ran in
      let id : experiment.engine_result.experiment_id ≡ experiment_id index =
        (bytes_eq_iff _ _).0 (validate-Passed _ _ _ _ valid).experiment in
      let named : bytes_eq experiment.scenario_name scenario.name ≡ true =
        (bytes_eq_iff _ _).1 r.named in
      let identified : same_workload experiment.workload
            (workload_identity files scenario r.got.0 r.got.1)
          ≡ true =
        subst (λ w. same_workload w (workload_identity files scenario r.got.0 r.got.1) ≡ true)
          (sym r.identified) (same_workload_refl _) in
      let fresh : member experiment.engine_result.experiment_id ids ≡ false =
        subst (λ x. member x ids ≡ false) (sym id) (fresh_id index ids b before) in
      let valid' : validate_engine_result files.codec experiment.engine_result
            (scenario_request scenario experiment.engine_result.experiment_id r.got.0) r.got.1
          ≡ ok tt =
        subst
          (λ x.
            validate_engine_result files.codec experiment.engine_result
              (scenario_request scenario x r.got.0) r.got.1
            ≡ ok tt)
          (sym id) valid in
      let right : bytes_eq experiment.engine_result.engine_build.version controller.version ≡ true =
        (bytes_eq_iff _ _).1 (ap (λ x. x.version) same ∙ version) in
      let stays' : require_stable_engine_build stable experiment.engine_result.engine_build
          ≡ ok build =
        subst (λ x. require_stable_engine_build stable x ≡ ok build) (sym same) stays in
      (
        rw (
          named,
          read_again files root scenario.workload r.got plain r.source,
          identified,
          fresh,
          valid',
          r.aligned,
          right,
          stays',
          not_below experiment.engine_result.timing.experiment_total_ns
              experiment.orchestration_total_ns total,
          r.summarized,
          same_summary_refl experiment.summary,
        ),
        id,
      )

  pub verify_experiments-Each :
      (index : ℕ) (ids : List Bytes) (stable : Option EngineBuild) (scenarios : List Scenario)
      (experiments : List Experiment)
      → Each (Ran files run root controller) index scenarios experiments
      → index + length scenarios ≤ 64
      → Before index ids
      → require_stable_engine_build stable build ≡ ok build
      → All (λ e. e.engine_result.engine_build ≡ build) experiments
      → verify_experiments files root controller ids stable scenarios experiments
        ≡ ok (retained_samples experiments)
  unfolding verify_experiments require_stable_engine_build
  verify_experiments-Each index ids stable scenarios [] each_nil b before stays same = refl
  verify_experiments-Each index ids stable [] (e ∷ es) r b before stays same = elim r [ ]
  verify_experiments-Each index ids stable (s ∷ ss) (e ∷ es) (each_cons r rs) b before stays
        (same, more) =
      let (accepted, id) =
        verify_experiment-Ran index ids stable s e r (omega arith) before stays same in
      let rest =
        verify_experiments-Each (index + 1) (e.engine_result.experiment_id ∷ ids) (some build) ss es
          rs (omega arith) ((index, omega arith, id), Before-later index ids before)
          (rw (same_build_refl build)) more in
      rw (accepted, rest)
