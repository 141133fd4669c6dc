-- ===== src/Benchmark/Suite/Valid.antt =====
-- What `Suite.Validate` of labctl-go/internal/benchmark/types.go accepts.
use paraflow.Prelude.{
  ◌≤◌, ◌<◌, ◌≡◌, ◌≢◌, ◌↔◌, ◌⊎◌, inl, inr, refl, true, false, not, ◌&&◌, ◌||◌, List, [], ◌∷◌, ltb,
  arith, length, All, Bool-cases,
}
use paraflow.Prelude.Text.{Bytes, codes, bytes_eq, bytes_eq_iff, is_empty}
use paraflow.Prelude.Utf8.{rune_count, is_blank}
use paraflow.Prelude.Outcome.{ok, bind-ok, refuse-ok}
use paraflow.Benchmark.Suite.{
  Scenario, Suite, suite_schema, valid_name, validate_scenario, validate_scenarios, validate_suite,
  member, duplicate_name,
}
use paraflow.Benchmark.Suite.Paths.{IsRepositoryPath, valid_repository_json_path_iff}

-- 1 to 120 characters that are not all space.
pub record IsName (value : Bytes) : Type 0 where
  pub some_text : 0 < rune_count value
  pub short : rune_count value ≤ 120
  pub visible : is_blank value ≡ false

pub record IsScenario (scenario : Scenario) : Type 0 where
  pub named : IsName scenario.name
  pub workload : IsRepositoryPath scenario.workload
  pub scalar : scenario.execution.backend ≡ codes "scalar"
  pub warmups : scenario.sampling.warmup_iterations ≤ 1000
  pub sampled : 0 < scenario.sampling.sample_iterations
  pub samples : scenario.sampling.sample_iterations ≤ 10000

abbrev pub Distinct : List Scenario → Type 0
Distinct [] = Unit
Distinct (s ∷ ss) = All (λ t. t.name ≢ s.name) ss × Distinct ss

pub record IsSuite (suite : Suite) : Type 0 where
  pub schema : suite.schema_version ≡ suite_schema
  pub named : IsName suite.name
  pub described :
      (suite.description ≡ [])
      ⊎ ((rune_count suite.description ≤ 500) × (is_blank suite.description ≡ false))
  pub some_scenario : 0 < length suite.scenarios
  pub few_scenarios : length suite.scenarios ≤ 64
  pub scenarios : All IsScenario suite.scenarios
  pub distinct : Distinct suite.scenarios

valid_name_iff : (value : Bytes) → (valid_name value ≡ true) ↔ IsName value
unfolding valid_name
valid_name_iff value = (
  λ h. record { some_text = ground arith; short = ground arith; visible = ground arith },
  λ p. ground (arith, p.some_text, p.short, p.visible),
)

validate_scenario→ : (s : Scenario) → validate_scenario s ≡ ok tt → IsScenario s
unfolding validate_scenario
validate_scenario→ s h = record {
  named = (valid_name_iff s.name).0 (ground arith);
  workload = (valid_repository_json_path_iff s.workload).0 (ground arith);
  scalar = (bytes_eq_iff s.execution.backend (codes "scalar")).0 (ground arith);
  warmups = ground arith;
  sampled = ground arith;
  samples = ground arith;
}

validate_scenario← : (s : Scenario) → IsScenario s → validate_scenario s ≡ ok tt
unfolding validate_scenario
validate_scenario← s p =
    let named = (valid_name_iff s.name).1 p.named in
    let placed = (valid_repository_json_path_iff s.workload).1 p.workload in
    let scalar = (bytes_eq_iff s.execution.backend (codes "scalar")).1 p.scalar in
    ground (arith, named, placed, scalar, p.warmups, p.sampled, p.samples)

abbrev Fresh : List Bytes → List Scenario → Type 0
Fresh seen = All (λ s. member s.name seen ≡ false)

distinct_bytes : (a b : Bytes) → (bytes_eq a b ≡ false) ↔ (a ≢ b)
distinct_bytes a b = (
  λ h e. ground (arith, h, (bytes_eq_iff a b).1 e),
  λ ne. elim (Bool-cases (bytes_eq a b)) [
    | inl e ↦ absurd (ne ((bytes_eq_iff a b).0 e))
    | inr e ↦ e
  ],
)

fresh→ :
    (name : Bytes) (seen : List Bytes) (ss : List Scenario)
    → Fresh (name ∷ seen) ss
    → All (λ t. t.name ≢ name) ss × Fresh seen ss
unfolding member
fresh→ name seen [] h = (tt, tt)
fresh→ name seen (t ∷ ss) (h, hs) =
    let (apart, fresh) = fresh→ name seen ss hs in
    (((distinct_bytes t.name name).0 (ground arith), apart), (ground arith, fresh))

fresh← :
    (name : Bytes) (seen : List Bytes) (ss : List Scenario)
    → All (λ t. t.name ≢ name) ss
    → Fresh seen ss
    → Fresh (name ∷ seen) ss
unfolding member
fresh← name seen [] a f = tt
fresh← name seen (t ∷ ss) (ne, a) (f, fs) =
    (rw ((distinct_bytes t.name name).1 ne, f), fresh← name seen ss a fs)

Fresh-empty : (ss : List Scenario) → Fresh [] ss
unfolding member
Fresh-empty [] = tt
Fresh-empty (s ∷ ss) = (refl, Fresh-empty ss)

scenarios→ :
    (seen : List Bytes) (ss : List Scenario)
    → validate_scenarios seen ss ≡ ok tt
    → All IsScenario ss × Distinct ss × Fresh seen ss
unfolding validate_scenarios
scenarios→ seen [] h = (tt, tt, tt)
scenarios→ seen (s ∷ ss) h = bind-ok (validate_scenario s) _ h (λ u e h'.
    refuse-ok (member s.name seen) duplicate_name _ h' (λ fresh h''.
      let (valid, distinct, later) = scenarios→ (s.name ∷ seen) ss h'' in
      let (apart, rest) = fresh→ s.name seen ss later in
      ((validate_scenario→ s e, valid), (apart, distinct), (fresh, rest))))

scenarios← :
    (seen : List Bytes) (ss : List Scenario)
    → All IsScenario ss
    → Distinct ss
    → Fresh seen ss
    → validate_scenarios seen ss ≡ ok tt
unfolding validate_scenarios
scenarios← seen [] v d f = refl
scenarios← seen (s ∷ ss) (v, vs) (a, d) (f, fs) =
    rw (validate_scenario← s v, f) (scenarios← (s.name ∷ seen) ss vs d (fresh← s.name seen ss a fs))

described→ :
    (text : Bytes)
    → not (is_empty text) && (ltb 500 (rune_count text) || is_blank text) ≡ false
    → (text ≡ []) ⊎ ((rune_count text ≤ 500) × (is_blank text ≡ false))
described→ [] h = inl refl
described→ (c ∷ s) h = inr (ground arith, ground arith)

described← :
    (text : Bytes)
    → (text ≡ []) ⊎ ((rune_count text ≤ 500) × (is_blank text ≡ false))
    → not (is_empty text) && (ltb 500 (rune_count text) || is_blank text) ≡ false
described← text (inl e) = rw e
described← [] (inr e) = refl
described← (c ∷ s) (inr (short, visible)) = ground arith

suite→ : (suite : Suite) → validate_suite suite ≡ ok tt → IsSuite suite
unfolding validate_suite
suite→ suite h =
    let (valid, distinct, _) = scenarios→ [] suite.scenarios (ground arith) in
    record {
      schema = (bytes_eq_iff suite.schema_version suite_schema).0 (ground arith);
      named = (valid_name_iff suite.name).0 (ground arith);
      described = described→ suite.description (ground arith);
      some_scenario = ground arith;
      few_scenarios = ground arith;
      scenarios = valid;
      distinct = distinct;
    }

suite← : (suite : Suite) → IsSuite suite → validate_suite suite ≡ ok tt
unfolding validate_suite
suite← suite p =
    let schema = (bytes_eq_iff suite.schema_version suite_schema).1 p.schema in
    let named = (valid_name_iff suite.name).1 p.named in
    let described = described← suite.description p.described in
    let valid =
      scenarios← [] suite.scenarios p.scenarios p.distinct (Fresh-empty suite.scenarios) in
    ground (arith, schema, named, described, p.some_scenario, p.few_scenarios, valid)

-- `Suite.Validate` accepts exactly the suites of this schema whose name and scenario names are visible
-- texts of 1 to 120 characters, whose description is absent or a visible text of at most 500 characters,
-- and that have 1 to 64 scenarios with distinct names, each with a repository path of a JSON file, the
-- scalar backend, at most 1000 warmups and 1 to 10000 samples.
pub validate_suite_iff : (suite : Suite) → (validate_suite suite ≡ ok tt) ↔ IsSuite suite
validate_suite_iff suite = (suite→ suite, suite← suite)
