-- ===== src/Benchmark/Apportion/Loop.antt =====
-- The first loop of `apportionBasisPoints`, against the floors of the exact shares.
use paraflow.Prelude.{
  ℕ, suc, ◌+◌, ◌*◌, ◌/◌, ◌%◌, ◌≤◌, ◌<◌, ◌≡◌, ap, ◌≢◌, false, List, [], ◌∷◌, map, arith, ltb, length,
  All, sum,
}
use paraflow.Prelude.Words.{u64_mod, u32, add32}
use paraflow.Prelude.Outcome.{ok}
use paraflow.Benchmark.Arith.Exact.{div64_exact}
use paraflow.Benchmark.Apportion.{Remainder, quota_loop, whole}

abbrev pub floors : ℕ → List ℕ → List ℕ
floors t = map (λ v. v * whole / t)

abbrev pub residuals : ℕ → ℕ → List ℕ → List Remainder
residuals t i [] = []
residuals t i (v ∷ vs) = record { index = i; value = v * whole % t } ∷ residuals t (suc i) vs

high_lt : (t v : ℕ) → t ≢ 0 → v ≤ t → v * whole / u64_mod < t
high_lt t v n h = omega arith

pub floor_le : (t v : ℕ) → t ≢ 0 → v ≤ t → v * whole / t ≤ whole
floor_le t v n h = grind arith

pub quota_loop-closed :
    (t i a : ℕ) (vs : List ℕ)
    → t ≢ 0
    → All (λ v. v ≤ t) vs
    → a + sum (floors t vs) ≤ whole
    → quota_loop t i a vs
      ≡ ok (record {
        shares = floors t vs;
        remainders = residuals t i vs;
        assigned = a + sum (floors t vs);
      })
unfolding quota_loop
quota_loop-closed t i a [] n h b = ground arith
quota_loop-closed t i a (v ∷ vs) n h b =
    let le : v * whole / t ≤ whole = floor_le t v n h.0 in
    let same : u32 (v * whole / t) ≡ v * whole / t = omega arith in
    let added : add32 a (v * whole / t) ≡ a + v * whole / t = omega arith in
    let fits : ltb whole (v * whole / t) ≡ false = ground arith in
    let assoc : a + v * whole / t + sum (floors t vs) ≡ a + (v * whole / t + sum (floors t vs)) =
      omega arith in
    rw (div64_exact (v * whole) t n (high_lt t v n h.0), fits, same, added)
      (rw (quota_loop-closed t (suc i) (a + v * whole / t) vs n h.1 (omega arith), assoc))

-- The exact sum of floors and residuals.
pub conservation :
    (t : ℕ) (vs : List ℕ)
    → t * sum (floors t vs) + sum (map (λ v. v * whole % t) vs) ≡ whole * sum vs
conservation t [] = omega arith
conservation t (v ∷ vs) = grind (arith, conservation t vs)

residual_bound :
    (t : ℕ) (vs : List ℕ) → t ≢ 0 → sum (map (λ v. v * whole % t) vs) + length vs ≤ length vs * t
residual_bound t [] n = omega arith
residual_bound t (v ∷ vs) n = grind (arith, residual_bound t vs n)

cancel : (t a b : ℕ) → t ≢ 0 → t * a ≤ t * b → a ≤ b
cancel t a b n h = grind arith

-- Between 0 and one point for each value is left over.
pub floors_bounds :
    (t : ℕ) (vs : List ℕ)
    → t ≢ 0
    → sum vs ≡ t
    → (sum (floors t vs) ≤ whole) × (whole ≤ sum (floors t vs) + length vs)
floors_bounds t vs n e = (low, high)
  where
    low : sum (floors t vs) ≤ whole
    low = grind (arith, conservation t vs)

    high : whole ≤ sum (floors t vs) + length vs
    high =
        cancel t whole (sum (floors t vs) + length vs) n
          (omega (arith, conservation t vs, residual_bound t vs n, ap (λ (x : ℕ). whole * x) e))
