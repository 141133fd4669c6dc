-- ===== src/Benchmark/Arith/Exact.antt =====
-- The checked arithmetic against plain arithmetic on numbers.
use paraflow.Prelude.{
  ℕ, ◌+◌, ◌*◌, ◌/◌, ◌%◌, ◌≤◌, ◌<◌, ◌≡◌, ◌≢◌, inl, inr, ◌||◌, List, [], ◌∷◌, arith, leb, ltb, ◌==◌,
  Bool-cases, if◌then◌else◌, All, sum,
}
use paraflow.Prelude.Words.{IsU64, u64_mod}
use paraflow.Prelude.Outcome.{Outcome, ok, err}
use paraflow.Benchmark.Arith.{
  ArithError, addition_overflow, zero_denominator, exceeds_u64, exceeds_portable, max_portable,
  add_uint64, sum_from, sum_uint64, div64, scaled_ratio,
}

sum_from-eq :
    (total : ℕ) (vs : List ℕ)
    → IsU64 total
    → All IsU64 vs
    → sum_from total vs
      ≡ (if ltb (total + sum vs) u64_mod then ok (total + sum vs) else err addition_overflow)
unfolding sum_from add_uint64
sum_from-eq total [] b h = ground arith
sum_from-eq total (v ∷ vs) b h = ground (arith, sum_from-eq (total + v) vs)

-- `sumUint64` of u64 values is their exact sum where that is below 2^64, and an error otherwise: it
-- never wraps.
pub sum_uint64-exact :
    (vs : List ℕ)
    → All IsU64 vs
    → sum_uint64 vs ≡ (if ltb (sum vs) u64_mod then ok (sum vs) else err addition_overflow)
unfolding sum_uint64
sum_uint64-exact vs h = ground (arith, sum_from-eq 0 vs)

recombine : (x : ℕ) → x / u64_mod * u64_mod + x % u64_mod ≡ x
recombine x = omega arith

-- The double-word quotient is the plain one, and the panic of `bits.Div64` is not reached.
pub div64_exact :
    {E : Type 0} (x y : ℕ)
    → y ≢ 0
    → x / u64_mod < y
    → div64 {E = E} (x / u64_mod) (x % u64_mod) y ≡ ok (x / y, x % y)
unfolding div64
div64_exact x y n h = rw (recombine x) (elim (Bool-cases (y == 0 || leb y (x / u64_mod))) [
  | inl e ↦ absurd (ground arith)
  | inr e ↦ rw e
])

-- `scaledRatio` by cases that do not mention the double word.
abbrev pub ratio_spec : ℕ → ℕ → ℕ → Outcome ArithError ℕ
ratio_spec n d s =
    if d == 0
    then err zero_denominator
    else if leb u64_mod (n * s / d)
    then err exceeds_u64
    else if ltb max_portable (n * s / d)
    then err exceeds_portable
    else ok (n * s / d)

high_iff : (x d : ℕ) → d ≢ 0 → leb d (x / u64_mod) ≡ leb u64_mod (x / d)
high_iff x d n = elim (Bool-cases (leb d (x / u64_mod))) [
  | inl e ↦ ground (arith, big (ground arith))
  | inr e ↦ ground (arith, small (ground arith))
]
  where
    big : d * u64_mod ≤ x → u64_mod ≤ x / d
    big h = grind arith

    small : x < d * u64_mod → x / d < u64_mod
    small h = grind arith

-- `scaledRatio` returns the exact floor of numerator * scale / denominator, or the error of the bound
-- that it exceeds, and never panics.
pub scaled_ratio-exact : (n d s : ℕ) → scaled_ratio n d s ≡ ratio_spec n d s
unfolding scaled_ratio
scaled_ratio-exact n d s = elim (Bool-cases (d == 0)) [
  | inl e ↦ rw e
  | inr e ↦ elim (Bool-cases (leb d (n * s / u64_mod))) [
    | inl h ↦ rw (e, h) (rw (← high_iff (n * s) d (ground arith)) (rw h))
    | inr h ↦
        rw (e, h)
          (rw (← high_iff (n * s) d (ground arith))
            (rw (h, div64_exact (n * s) d (ground arith) (ground arith)) (ground arith)))
  ]
]
