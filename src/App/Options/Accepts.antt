-- ===== src/App/Options/Accepts.antt =====
-- The command lines that `parseBenchmarkOptions` and `parseProfileOptions` accept.
use paraflow.Prelude.{
  ℕ, suc, ◌≡◌, ◌≢◌, ◌⊎◌, ◌↔◌, inl, inr, refl, sym, ap, subst, ◌∙◌, Bool, false, not, ◌||◌, none,
  some, List, [], ◌∷◌, if◌then◌else◌, length, ◌%◌, ◌==◌, Bool-cases, arith,
}
use paraflow.Prelude.Text.{Bytes, codes, is_empty, bytes_eq, bytes_eq_iff}
use paraflow.Prelude.Outcome.{ok, ok-injective, bind-ok, refuse-ok}
use paraflow.App.Options.{
  CaptureOptions, default_options, member, set_flag, Wording, flag_loop, parse_options,
  parse_benchmark_options, parse_profile_options, benchmark_wording, profile_wording,
}

-- The last value that the arguments give a flag.
pub value_of : Bytes → Bytes → List Bytes → Bytes
value_of flag value [] = value
value_of flag value (other ∷ []) = value
value_of flag value (other ∷ given ∷ rest) =
    value_of flag (if bytes_eq other flag then given else value) rest

abbrev pub IsKnown : Bytes → Type 0
IsKnown flag =
    (flag ≡ codes "--engine")
    ⊎ ((flag ≡ codes "--suite") ⊎ ((flag ≡ codes "--output") ⊎ (flag ≡ codes "--repository-root")))

-- Known flags with values that are not empty, none of them in a list and none twice.
pub data IsFlags : List Bytes → List Bytes → Type 0 where
  no_flag : {seen : List Bytes} → IsFlags seen []
  one_flag :
      {flag value : Bytes} {seen rest : List Bytes}
      → member flag seen ≡ false
      → value ≢ []
      → IsKnown flag
      → IsFlags (flag ∷ seen) rest
      → IsFlags seen (flag ∷ value ∷ rest)

-- The options with the values of the arguments in them.
pub valued : CaptureOptions → List Bytes → CaptureOptions
unfolding value_of
valued options args = record {
  engine_path = value_of (codes "--engine") options.engine_path args;
  suite_path = value_of (codes "--suite") options.suite_path args;
  output_path = value_of (codes "--output") options.output_path args;
  repository_root = value_of (codes "--repository-root") options.repository_root args;
}

-- One flag set.
set_one : Bytes → Bytes → CaptureOptions → CaptureOptions
set_one flag value options = valued options (flag ∷ value ∷ [])

set_flag-known :
    (flag value : Bytes) (options : CaptureOptions)
    → IsKnown flag
    → set_flag flag value options ≡ some (valued options (flag ∷ value ∷ []))
unfolding set_flag valued bytes_eq value_of
set_flag-known flag value options (inl e) = rw e
set_flag-known flag value options (inr (inl e)) = rw e
set_flag-known flag value options (inr (inr (inl e))) = rw e
set_flag-known flag value options (inr (inr (inr e))) = rw e

set_flag-unknown :
    (flag value : Bytes) (options : CaptureOptions)
    → IsKnown flag ⊎ (set_flag flag value options ≡ none)
unfolding set_flag
set_flag-unknown flag value options = elim (Bool-cases (bytes_eq flag (codes "--engine"))) [
  | inl e ↦ inl (inl ((bytes_eq_iff flag (codes "--engine")).0 e))
  | inr e ↦ elim (Bool-cases (bytes_eq flag (codes "--suite"))) [
    | inl f ↦ inl (inr (inl ((bytes_eq_iff flag (codes "--suite")).0 f)))
    | inr f ↦ elim (Bool-cases (bytes_eq flag (codes "--output"))) [
      | inl g ↦ inl (inr (inr (inl ((bytes_eq_iff flag (codes "--output")).0 g))))
      | inr g ↦ elim (Bool-cases (bytes_eq flag (codes "--repository-root"))) [
        | inl h ↦ inl (inr (inr (inr ((bytes_eq_iff flag (codes "--repository-root")).0 h))))
        | inr h ↦ inr (rw (e, f, g, h))
      ]
    ]
  ]
]

full-is_empty : (s : Bytes) → s ≢ [] → is_empty s ≡ false
full-is_empty [] h = absurd (h refl)
full-is_empty (c ∷ s) h = refl

is_empty-full : (s : Bytes) → is_empty s ≡ false → s ≢ []
is_empty-full [] h = cc
is_empty-full (c ∷ s) h = λ e. cc

paired : {seen args : List Bytes} → IsFlags seen args → length args % 2 ≡ 0
paired no_flag = refl
paired (one_flag fresh full known later) = let e = paired later in omega arith

-- The arguments and the options that the parser returns.
abbrev pub Accepted : List Bytes → CaptureOptions → Type 0
Accepted args options =
    IsFlags [] args
    × (options ≡ valued default_options args)
    × (options.engine_path ≢ [])
    × (options.suite_path ≢ [])
    × (options.output_path ≢ [])

abbrev miscounted : List Bytes → Bool
miscounted args = length args == 0 || not (length args % 2 == 0)

even-counted : (args : List Bytes) → miscounted args ≡ false → length args % 2 ≡ 0
even-counted args h = even (length args) h
  where
    even : (n : ℕ) → (n == 0 || not (n % 2 == 0)) ≡ false → n % 2 ≡ 0
    even n h = ground arith

counted-paired :
    (args : List Bytes)
    → length args % 2 ≡ 0
    → (valued default_options args).engine_path ≢ []
    → miscounted args ≡ false
unfolding valued value_of
counted-paired [] even h = absurd (h refl)
counted-paired (flag ∷ rest) even h = counted (length rest) even
  where
    counted : (n : ℕ) → suc n % 2 ≡ 0 → (suc n == 0 || not (suc n % 2 == 0)) ≡ false
    counted n h = ground arith

abbrev lacking : CaptureOptions → Bool
lacking options =
    is_empty options.engine_path || (is_empty options.suite_path || is_empty options.output_path)

lacking→ :
    (o : CaptureOptions)
    → lacking o ≡ false
    → (o.engine_path ≢ []) × (o.suite_path ≢ []) × (o.output_path ≢ [])
lacking→ o h = (
  is_empty-full o.engine_path (ground arith),
  is_empty-full o.suite_path (ground arith),
  is_empty-full o.output_path (ground arith),
)

lacking← :
    (o : CaptureOptions)
    → o.engine_path ≢ []
    → o.suite_path ≢ []
    → o.output_path ≢ []
    → lacking o ≡ false
lacking← o e s t =
    rw (full-is_empty o.engine_path e, full-is_empty o.suite_path s, full-is_empty o.output_path t)

module _ (quote : Bytes → Bytes) (wording : Wording) where
  flag_loop-step :
      (options : CaptureOptions) (seen : List Bytes) (flag value : Bytes) (rest : List Bytes)
      → member flag seen ≡ false
      → is_empty value ≡ false
      → IsKnown flag
      → flag_loop quote wording options seen (flag ∷ value ∷ rest)
        ≡ flag_loop quote wording (valued options (flag ∷ value ∷ [])) (flag ∷ seen) rest
  unfolding flag_loop
  flag_loop-step options seen flag value rest fresh full known =
      rw (fresh, full, set_flag-known flag value options known)

  flag_loop-accepts :
      (options : CaptureOptions) (seen : List Bytes) {args : List Bytes}
      → IsFlags seen args
      → flag_loop quote wording options seen args ≡ ok (valued options args)
  unfolding flag_loop valued value_of
  flag_loop-accepts options seen no_flag = refl
  flag_loop-accepts options seen
        (one_flag {flag = flag} {value = value} {rest = rest} fresh full known later) =
      flag_loop-step options seen flag value rest fresh (full-is_empty value full) known
      ∙ (flag_loop-accepts (valued options (flag ∷ value ∷ [])) (flag ∷ seen) later)

  flag_loop-IsFlags :
      (options : CaptureOptions) (seen args : List Bytes) {final : CaptureOptions}
      → length args % 2 ≡ 0
      → flag_loop quote wording options seen args ≡ ok final
      → IsFlags seen args
  unfolding flag_loop
  flag_loop-IsFlags options seen [] even h = no_flag
  flag_loop-IsFlags options seen (flag ∷ []) even h = absurd (omega arith)
  flag_loop-IsFlags options seen (flag ∷ value ∷ rest) even h =
      elim (Bool-cases (member flag seen)) [
        | inl e ↦ absurd (cc)
        | inr e ↦ elim (Bool-cases (is_empty value)) [
          | inl f ↦ absurd (cc)
          | inr f ↦ elim (set_flag-unknown flag value options) [
            | inr g ↦ absurd (cc)
            | inl known ↦ one_flag e (is_empty-full value f) known (
                flag_loop-IsFlags (valued options (flag ∷ value ∷ [])) (flag ∷ seen) rest
                  (omega arith) (sym (flag_loop-step options seen flag value rest e f known) ∙ h))
          ]
        ]
      ]

  parse_options→ :
      (args : List Bytes) (options : CaptureOptions)
      → parse_options quote wording args ≡ ok options
      → Accepted args options
  unfolding parse_options
  parse_options→ args options h = refuse-ok (miscounted args) wording.usage _ h (λ counted h.
      bind-ok (flag_loop quote wording default_options [] args) _ h (λ final e h.
        refuse-ok (lacking final) wording.short_usage (ok final) h (λ full h.
          let flags = flag_loop-IsFlags default_options [] args (even-counted args counted) e in
          let same = ok-injective final options h in
          let (engine, suite, output) = lacking→ final full in
          (
            flags,
            sym same ∙ ok-injective final _ (sym e ∙ flag_loop-accepts default_options [] flags),
            subst (λ o. o.engine_path ≢ []) same engine,
            subst (λ o. o.suite_path ≢ []) same suite,
            subst (λ o. o.output_path ≢ []) same output,
          ))))

  parse_options-accepts :
      (args : List Bytes)
      → IsFlags [] args
      → miscounted args ≡ false
      → lacking (valued default_options args) ≡ false
      → parse_options quote wording args ≡ ok (valued default_options args)
  unfolding parse_options
  parse_options-accepts args flags counted full =
      rw (counted, flag_loop-accepts default_options [] flags, full)

  parse_options← :
      (args : List Bytes) (options : CaptureOptions)
      → Accepted args options
      → parse_options quote wording args ≡ ok options
  parse_options← args options (flags, e, engine, suite, output) =
      parse_options-accepts args flags
        (counted-paired args (paired flags) (subst (λ o. o.engine_path ≢ []) e engine))
        (lacking← (valued default_options args) (subst (λ o. o.engine_path ≢ []) e engine)
          (subst (λ o. o.suite_path ≢ []) e suite) (subst (λ o. o.output_path ≢ []) e output))
      ∙ ap ok (sym e)

-- `parseBenchmarkOptions` and `parseProfileOptions` accept exactly the command lines whose flags are
-- known, none of them given twice, each with a value that is not empty, and that name an engine, a
-- suite and an output. They return the values given and the repository root `.` where none is given.
pub parse_options_iff :
    (quote : Bytes → Bytes) (args : List Bytes) (options : CaptureOptions)
    → ((parse_benchmark_options quote args ≡ ok options) ↔ Accepted args options)
      × ((parse_profile_options quote args ≡ ok options) ↔ Accepted args options)
unfolding parse_benchmark_options parse_profile_options
parse_options_iff quote args options = (
  (
    parse_options→ quote benchmark_wording args options,
    parse_options← quote benchmark_wording args options,
  ),
  (
    parse_options→ quote profile_wording args options,
    parse_options← quote profile_wording args options,
  ),
)
