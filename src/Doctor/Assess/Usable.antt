-- ===== src/Doctor/Assess/Usable.antt =====
-- `assess`: when a tool is usable.
use paraflow.Prelude.{
  ℕ, ◌≡◌, ◌↔◌, ◌⊎◌, inl, inr, refl, true, false, Bool-cases, [], ◌∷◌, ltb, Option-cases, arith,
}
use paraflow.Prelude.Text.{Bytes, is_empty}
use paraflow.Prelude.Utf8.{is_blank}
use paraflow.Prelude.Strings.{contains, digits_value, atoi, max_int}
use paraflow.Prelude.Outcome.{Outcome, ok, err, Meets, meets, declines, Meets->>=}
use paraflow.Doctor.{Tool, ToolResult}
use paraflow.Doctor.Version.{
  NumericVersion, find_match, component, parse_numeric_version, less_than,
}
use paraflow.Doctor.Version.Order.{Reaches, less_than-Reaches}
use paraflow.Doctor.Assess.{version_problem, found_problem, assess}

is_empty→ : (s : Bytes) → is_empty s ≡ true → s ≡ []
is_empty→ [] h = refl
is_empty→ (c ∷ s) h = cc

pub is_empty_cases : (s : Bytes) → (s ≡ []) ⊎ ((c : ℕ) × (t : Bytes) × (s ≡ c ∷ t))
is_empty_cases [] = inl refl
is_empty_cases (c ∷ s) = inr (c, s, refl)

module _ (quote : Bytes → Bytes) where
  -- The version is as new as the minimum, where there is one.
  abbrev pub MeetsMinimum : Bytes → Bytes → Type 0
  MeetsMinimum minimum version =
      (minimum ≡ [])
      ⊎ ((actual : NumericVersion) × (least : NumericVersion) × (parse_numeric_version quote version
            ≡ ok actual)
          × (parse_numeric_version quote minimum ≡ ok least)
          × Reaches actual least)

  pub record IsUsable (tool : Tool) (result : ToolResult) : Type 0 where
    pub on_path : result.found ≡ true
    pub unproblematic : result.problem ≡ []
    pub reported : is_blank result.version ≡ false
    pub named :
        (tool.version_contains ≡ []) ⊎ (contains result.version tool.version_contains ≡ true)
    pub recent : MeetsMinimum tool.minimum result.version

  component-Meets : (s : Bytes) → Meets {0, 0} (λ (n : ℕ). Unit) (component quote s)
  unfolding component atoi
  component-Meets [] = meets tt
  component-Meets (c ∷ s) = elim (Bool-cases (ltb max_int (digits_value 0 (c ∷ s)))) [
    | inl e ↦ rw (component, e) declines
    | inr e ↦ rw (component, e) (meets tt)
  ]

  parse_numeric_version-Meets :
      (s : Bytes) → Meets {0, 0} (λ (v : NumericVersion). Unit) (parse_numeric_version quote s)
  unfolding parse_numeric_version
  parse_numeric_version-Meets s = elim (Option-cases (find_match s)) [
    | inl e ↦ rw (parse_numeric_version, e) declines
    | inr (m, e) ↦
        rw (parse_numeric_version, e)
          (Meets->>= (component-Meets m.first) (λ _ _.
            Meets->>= (component-Meets m.second)
              (λ _ _. Meets->>= (component-Meets m.third) (λ _ _. meets tt))))
  ]

  Outcome-cases :
      {A : Type 0} {r : Outcome Bytes A}
      → Meets {0, 0} (λ (a : A). Unit) r
      → ((a : A) × (r ≡ ok a)) ⊎ ((e : Bytes) × (r ≡ err e))
  Outcome-cases (meets {a} _) = inl (a, refl)
  Outcome-cases (declines {e}) = inr (e, refl)

  version_problem→ :
      (minimum version : Bytes)
      → version_problem quote minimum version ≡ []
      → MeetsMinimum minimum version
  unfolding version_problem
  version_problem→ [] version h = inl refl
  version_problem→ (c ∷ s) version h = elim (Outcome-cases (parse_numeric_version-Meets version)) [
    | inr (why, e) ↦ absurd (cc)
    | inl (actual, e) ↦ elim (Outcome-cases (parse_numeric_version-Meets (c ∷ s))) [
      | inr (why, f) ↦ absurd (cc)
      | inl (least, f) ↦ elim (Bool-cases (less_than actual least)) [
        | inl g ↦ absurd (cc)
        | inr g ↦ inr (actual, least, e, f, (less_than-Reaches actual least).0 g)
      ]
    ]
  ]

  version_problem← :
      (minimum version : Bytes)
      → MeetsMinimum minimum version
      → version_problem quote minimum version ≡ []
  unfolding version_problem
  version_problem← minimum version (inl e) = rw e refl
  version_problem← minimum version (inr (actual, least, e, f, h)) =
      let g = (less_than-Reaches actual least).1 h in ground (arith, e, f, g)

  -- The texts of the problems are not empty.
  found_problem→ :
      (tool : Tool) (version : Bytes)
      → found_problem quote tool version ≡ []
      → (is_blank version ≡ false)
        × ((tool.version_contains ≡ []) ⊎ (contains version tool.version_contains ≡ true))
        × (version_problem quote tool.minimum version ≡ [])
  unfolding found_problem
  found_problem→ tool version h = elim (Bool-cases (is_blank version)) [
    | inl e ↦ absurd (cc)
    | inr e ↦ elim (Bool-cases (is_empty tool.version_contains)) [
      | inl f ↦ (e, inl (is_empty→ tool.version_contains f), cc)
      | inr f ↦ elim (Bool-cases (contains version tool.version_contains)) [
        | inl g ↦ (e, inr g, cc)
        | inr g ↦ absurd (cc)
      ]
    ]
  ]

  found_problem← :
      (tool : Tool) (version : Bytes)
      → is_blank version ≡ false
      → (tool.version_contains ≡ []) ⊎ (contains version tool.version_contains ≡ true)
      → version_problem quote tool.minimum version ≡ []
      → found_problem quote tool version ≡ []
  unfolding found_problem
  found_problem← tool version e (inl f) h = rw (e, f, h) refl
  found_problem← tool version e (inr f) h = ground (arith, e, f, h)

  assess→ :
      (tool : Tool) (result : ToolResult)
      → (assess quote tool result).usable ≡ true
      → IsUsable tool result
  unfolding assess
  assess→ tool result h = elim (Bool-cases result.found) [
    | inr e ↦ absurd (cc)
    | inl e ↦ elim (is_empty_cases result.problem) [
      | inr (c, t, f) ↦ absurd (cc)
      | inl f ↦ elim (is_empty_cases (found_problem quote tool result.version)) [
        | inr (c, t, g) ↦ absurd (cc)
        | inl g ↦
            let (reported, named, least) = found_problem→ tool result.version g in
            record {
              on_path = e;
              unproblematic = f;
              reported = reported;
              named = named;
              recent = version_problem→ tool.minimum result.version least;
            }
      ]
    ]
  ]

  assess← :
      (tool : Tool) (result : ToolResult)
      → IsUsable tool result
      → (assess quote tool result).usable ≡ true
  unfolding assess
  assess← tool result u =
      rw
        (
          u.on_path,
          u.unproblematic,
          found_problem← tool result.version u.reported u.named
              (version_problem← tool.minimum result.version u.recent),
        )
        refl

  pub assess-again :
      (tool : Tool) (result : ToolResult)
      → assess quote tool (assess quote tool result) ≡ assess quote tool result
  unfolding assess
  assess-again tool result = elim (Bool-cases result.found) [
    | inr e ↦ rw e
    | inl e ↦ elim (is_empty_cases result.problem) [
      | inr (c, t, f) ↦ rw (e, f)
      | inl f ↦ elim (is_empty_cases (found_problem quote tool result.version)) [
        | inr (c, t, g) ↦ rw (e, f, g)
        | inl g ↦ rw (e, f, g, g)
      ]
    ]
  ]

  -- `assess` finds a tool usable exactly where the tool is on the path, the probe had no problem, the
  -- version is not blank, contains the text that the tool asks for and is not below the minimum
  -- version, both numbers being readable. Assessing a result again changes nothing.
  pub assess_usable :
      (tool : Tool) (result : ToolResult)
      → (assess quote tool (assess quote tool result) ≡ assess quote tool result)
        × (((assess quote tool result).usable ≡ true) ↔ IsUsable tool result)
  assess_usable tool result = (assess-again tool result, (assess→ tool result, assess← tool result))
