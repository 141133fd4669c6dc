-- ===== src/App/VerifyOptions/Sound.antt =====
-- The options that `parseVerifyOptions` returns.
use paraflow.Benchmark.Receipts.{VerifyOptions}
use paraflow.Prelude.{
  ℕ, ◌==◌, ◌≡◌, ◌↔◌, ◌⊎◌, inl, inr, refl, ◌∙◌, Bool, true, false, not, ◌||◌, List, [], ◌∷◌, arith,
}
use paraflow.Prelude.Text.{Bytes, codes, is_empty, bytes_eq}
use paraflow.Prelude.Strings.{has_prefix}
use paraflow.Prelude.Outcome.{Outcome, ok, refuse, Meets, meets, declines, Meets->>=, Meets-ok}
use paraflow.App.Options.{member}
use paraflow.App.VerifyOptions.{
  ArgumentKind, json_flag, root_flag, engine_flag, plain, kind_of, take_path, verify_loop,
  parse_verify_options,
}

-- Not empty, and no flag.
abbrev pub IsValue : Bytes → Type 0
IsValue s = (is_empty s || has_prefix s (codes "--")) ≡ false

-- Paths that no flag can be taken for; an engine may be missing.
pub record IsSound (options : VerifyOptions) : Type 0 where
  pub evidence : has_prefix options.evidence_path (codes "-") ≡ false
  pub root : IsValue options.repository_root
  pub engine : (options.engine_path ≡ []) ⊎ IsValue options.engine_path

refuse-Meets : {E : Type 0} (b : Bool) (e : E) → Meets {0, 0} (λ (u : Unit). b ≡ false) (refuse b e)
refuse-Meets true e = declines
refuse-Meets false e = meets refl

abbrev SoundResult : VerifyOptions × Bool → Type 0
SoundResult p = IsSound p.0

kind-Meets :
    {A : Type 0} {P : A → Type 0} (k : ArgumentKind) {x y z w : Outcome Bytes A}
    → Meets P x
    → Meets P y
    → Meets P z
    → Meets P w
    → Meets P (elim k [ json_flag ↦ x | root_flag ↦ y | engine_flag ↦ z | plain ↦ w ])
kind-Meets json_flag a b c d = a
kind-Meets root_flag a b c d = b
kind-Meets engine_flag a b c d = c
kind-Meets plain a b c d = d

undashed : (c : ℕ) (s : Bytes) → has_prefix (c ∷ s) (codes "-") ≡ false → (c == b'-') ≡ false
unfolding has_prefix
undashed c s h = ground arith

plain_path : (s : Bytes) → has_prefix s (codes "-") ≡ false → kind_of s ≡ plain
unfolding kind_of bytes_eq
plain_path [] h = refl
plain_path (c ∷ s) h = rw (undashed c s h)

module _ (quote : Bytes → Bytes) where
  take_path-IsSound :
      (argument : Bytes) (options : VerifyOptions)
      → IsSound options
      → Meets IsSound (take_path quote argument options)
  take_path-IsSound argument options h =
      Meets->>= (refuse-Meets (has_prefix argument (codes "-")) _) (λ _ dashed.
        Meets->>= (refuse-Meets (not (is_empty options.evidence_path)) _)
          (λ _ _. meets (record { evidence = dashed; root = h.root; engine = h.engine })))

  verify_loop-IsSound :
      (options : VerifyOptions) (seen : List Bytes) (json : Bool) (args : List Bytes)
      → IsSound options
      → Meets SoundResult (verify_loop quote options seen json args)
  unfolding verify_loop
  verify_loop-IsSound options seen json [] h = meets h
  verify_loop-IsSound options seen json (argument ∷ []) h =
      kind-Meets (kind_of argument)
        (Meets->>= (refuse-Meets (member argument seen) _) (λ _ _. meets h))
        (Meets->>= (refuse-Meets (member argument seen) _) (λ _ _. declines))
        (Meets->>= (refuse-Meets (member argument seen) _) (λ _ _. declines))
        (Meets->>= (take_path-IsSound argument options h) (λ _ k. meets k))
  verify_loop-IsSound options seen json (argument ∷ value ∷ rest) h =
      kind-Meets (kind_of argument)
        (Meets->>= (refuse-Meets (member argument seen) _)
          (λ _ _. verify_loop-IsSound options (argument ∷ seen) true (value ∷ rest) h))
        (Meets->>= (refuse-Meets (member argument seen) _) (λ _ _.
          Meets->>= (refuse-Meets (is_empty value || has_prefix value (codes "--")) _) (λ _ fine.
            verify_loop-IsSound (record options { repository_root = value }) (argument ∷ seen) json
              rest (record { evidence = h.evidence; root = fine; engine = h.engine }))))
        (Meets->>= (refuse-Meets (member argument seen) _) (λ _ _.
          Meets->>= (refuse-Meets (is_empty value || has_prefix value (codes "--")) _) (λ _ fine.
            verify_loop-IsSound (record options { engine_path = value }) (argument ∷ seen) json rest
              (record { evidence = h.evidence; root = h.root; engine = inr fine }))))
        (Meets->>= (take_path-IsSound argument options h)
          (λ options' k. verify_loop-IsSound options' seen json (value ∷ rest) k))

  abbrev Returned : VerifyOptions × Bool → Type 0
  Returned p = IsSound p.0 × (is_empty p.0.evidence_path ≡ false)

  parse_verify_options-Meets :
      (args : List Bytes) → Meets Returned (parse_verify_options quote args)
  unfolding parse_verify_options
  parse_verify_options-Meets args =
      Meets->>=
        (verify_loop-IsSound _ [] false args
          (record { evidence = refl; root = refl; engine = inl refl }))
        (λ p h. Meets->>= (refuse-Meets (is_empty p.0.evidence_path) _) (λ _ full. meets (h, full)))

  printed_flag : Bool → List Bytes → List Bytes
  printed_flag true rest = codes "--json" ∷ rest
  printed_flag false rest = rest

  printed_engine : Bytes → List Bytes → List Bytes
  printed_engine [] rest = rest
  printed_engine (c ∷ s) rest = codes "--engine" ∷ (c ∷ s) ∷ rest

  -- A command line with these options.
  pub command_line : VerifyOptions → Bool → List Bytes
  unfolding printed_flag printed_engine
  command_line options json = printed_flag json (
      codes "--repository-root"
      ∷ options.repository_root
      ∷ printed_engine options.engine_path (options.evidence_path ∷ []))

  module _ (o : VerifyOptions) (seen : List Bytes) (json : Bool) where
    loop_path :
        (path : Bytes)
        → o.evidence_path ≡ []
        → has_prefix path (codes "-") ≡ false
        → verify_loop quote o seen json (path ∷ []) ≡ ok (record o { evidence_path = path }, json)
    unfolding verify_loop
    loop_path path e d = rw (verify_loop, plain_path path d, d, e)

    loop_json :
        (value : Bytes) (rest : List Bytes)
        → member (codes "--json") seen ≡ false
        → verify_loop quote o seen json (codes "--json" ∷ value ∷ rest)
          ≡ verify_loop quote o (codes "--json" ∷ seen) true (value ∷ rest)
    unfolding verify_loop kind_of bytes_eq
    loop_json value rest fresh = rw fresh

    loop_root :
        (value : Bytes) (rest : List Bytes)
        → member (codes "--repository-root") seen ≡ false
        → IsValue value
        → verify_loop quote o seen json (codes "--repository-root" ∷ value ∷ rest)
          ≡ verify_loop quote
              (record o { repository_root = value })
              (codes "--repository-root" ∷ seen)
              json
              rest
    unfolding verify_loop kind_of bytes_eq
    loop_root value rest fresh fine = rw (fresh, fine)

    loop_engine :
        (value : Bytes) (rest : List Bytes)
        → member (codes "--engine") seen ≡ false
        → IsValue value
        → verify_loop quote o seen json (codes "--engine" ∷ value ∷ rest)
          ≡ verify_loop quote (record o { engine_path = value }) (codes "--engine" ∷ seen) json rest
    unfolding verify_loop kind_of bytes_eq
    loop_engine value rest fresh fine = rw (fresh, fine)

  loop_printed :
      (seen : List Bytes) (json : Bool) (root engine path : Bytes)
      → member (codes "--repository-root") seen ≡ false
      → member (codes "--engine") (codes "--repository-root" ∷ seen) ≡ false
      → IsValue root
      → (engine ≡ []) ⊎ IsValue engine
      → has_prefix path (codes "-") ≡ false
      → verify_loop quote
          (record { evidence_path = []; repository_root = codes "."; engine_path = [] })
          seen
          json
          (codes "--repository-root" ∷ root ∷ printed_engine engine (path ∷ []))
        ≡ ok (record { evidence_path = path; repository_root = root; engine_path = engine }, json)
  unfolding printed_engine
  loop_printed seen json root [] path a b r v d =
      loop_root _ seen json root _ a r ∙ loop_path _ _ json path refl d
  loop_printed seen json root (c ∷ s) path a b r (inl e) d = absurd (cc)
  loop_printed seen json root (c ∷ s) path a b r (inr v) d =
      loop_root _ seen json root _ a r
      ∙ loop_engine _ _ json (c ∷ s) _ b v
      ∙ loop_path _ _ json path refl d

  loop_command_line :
      (options : VerifyOptions) (json : Bool)
      → IsSound options
      → verify_loop quote
          (record { evidence_path = []; repository_root = codes "."; engine_path = [] })
          []
          false
          (command_line options json)
        ≡ ok (options, json)
  unfolding command_line printed_flag member bytes_eq
  loop_command_line options true h =
      loop_json _ [] false _ _ refl
      ∙ loop_printed (codes "--json" ∷ []) true options.repository_root options.engine_path
          options.evidence_path refl refl h.root h.engine h.evidence
  loop_command_line options false h =
      loop_printed [] false options.repository_root options.engine_path options.evidence_path refl
        refl h.root h.engine h.evidence

  printed :
      (options : VerifyOptions) (json : Bool)
      → IsSound options
      → is_empty options.evidence_path ≡ false
      → parse_verify_options quote (command_line options json) ≡ ok (options, json)
  unfolding parse_verify_options
  printed options json h full = rw (loop_command_line options json h, full)

  -- `parseVerifyOptions` returns some options, with `--json` or without, for some command line exactly
  -- where they name an evidence path that is not empty and starts with no dash, a root that is not
  -- empty, and a root and an engine that do not start with `--`.
  pub parse_verify_options-IsSound :
      (options : VerifyOptions) (json : Bool)
      → ((args : List Bytes) × (parse_verify_options quote args ≡ ok (options, json)))
        ↔ (IsSound options × (is_empty options.evidence_path ≡ false))
  parse_verify_options-IsSound options json = (
    λ (args, e). Meets-ok (parse_verify_options-Meets args) e,
    λ (h, full). (command_line options json, printed options json h full),
  )
