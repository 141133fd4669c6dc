-- ===== src/Benchmark/Apportion/Exact.antt =====
-- `apportionBasisPoints` in full.
use paraflow.Prelude.{
  ℕ, ◌+◌, ◌-◌, ◌*◌, ◌/◌, ◌≤◌, ◌<◌, ◌≡◌, refl, ◌≢◌, false, List, [], ◌∷◌, arith, ltb, ◌==◌,
  Bool-cases, length, length-map, All, sum, ◌⊎◌, inl, inr,
}
use paraflow.Prelude.Words.{IsU64, u64_mod, sub32}
use paraflow.Prelude.Outcome.{ok, err}
use paraflow.Benchmark.Arith.{addition_overflow, zero_total}
use paraflow.Benchmark.Arith.Exact.{sum_uint64-exact}
use paraflow.Benchmark.Apportion.{sort_descending, bump_loop, apportion_basis_points, whole}
use paraflow.Benchmark.Apportion.Loop.{
  floors, residuals, floor_le, quota_loop-closed, floors_bounds,
}
use paraflow.Benchmark.Apportion.Bump.{
  Near, Near-self, Fresh, bump_loop-Near, sort_descending-All, sort_descending-Distinct,
  length-sort_descending, residuals-Distinct, residuals-below, length-residuals,
}

All-imp {κ μ} :
    {A : Type 0} (P : A → Type κ) (Q : A → Type μ) (xs : List A)
    → ((x : A) → P x → Q x)
    → All P xs
    → All Q xs
All-imp P Q [] f h = tt
All-imp P Q (x ∷ xs) f h = (f x h.0, All-imp P Q xs f h.1)

le-sum : (vs : List ℕ) (n : ℕ) → sum vs ≤ n → All (λ v. v ≤ n) vs
le-sum [] n h = tt
le-sum (v ∷ vs) n h = (omega arith, le-sum vs n (omega arith))

floors_small :
    (t : ℕ) (vs : List ℕ) → t ≢ 0 → All (λ v. v ≤ t) vs → All (λ x. x ≤ whole) (floors t vs)
floors_small t [] n h = tt
floors_small t (v ∷ vs) n h = (floor_le t v n h.0, floors_small t vs n h.1)

-- The last loop after the first.
finish :
    (t : ℕ) (vs : List ℕ)
    → t ≢ 0
    → sum vs ≡ t
    → (r : List ℕ) × (bump_loop
          (whole - sum (floors t vs))
          (sort_descending (residuals t 0 vs))
          (floors t vs)
        ≡ ok r)
      × Near (floors t vs) r
      × (sum r ≡ whole)
finish t vs n e =
    let bounds = floors_bounds t vs n e in
    let rs = residuals t 0 vs in
    let qs = floors t vs in
    let len : length (sort_descending rs) ≡ length vs =
      omega (arith, length-sort_descending rs, length-residuals t 0 vs) in
    let small = floors_small t vs n (le-sum vs t (omega arith)) in
    let below =
      residuals-below t 0 (length qs) vs
        (omega (arith, length-map (λ (v : ℕ). v * whole / t) vs)) in
    let fresh : Fresh qs qs (sort_descending rs) =
      All-imp (λ r. r.index < length qs) _ (sort_descending rs) (λ r h. (refl, h))
        (sort_descending-All (λ r. r.index < length qs) rs below) in
    let (r, er, near, total) =
      bump_loop-Near (whole - sum qs) (sort_descending rs) qs qs small (omega arith)
        (sort_descending-Distinct rs (residuals-Distinct t 0 vs)) fresh (Near-self qs) in
    (r, er, near, omega arith)

-- On u64 values whose sum is positive and below 2^64, `apportionBasisPoints` returns shares that add
-- up to exactly 10,000, one for each value, each of them the floor of its exact share or one more; a
-- sum that overflows and a sum of zero are its only errors, and it never panics.
pub apportion_exact :
    (vs : List ℕ)
    → All IsU64 vs
    → (u64_mod ≤ sum vs) × (apportion_basis_points vs ≡ err addition_overflow)
      ⊎ ((sum vs ≡ 0) × (apportion_basis_points vs ≡ err zero_total)
          ⊎ ((shares : List ℕ) × (apportion_basis_points vs ≡ ok shares)
              × Near (floors (sum vs) vs) shares
              × (sum shares ≡ 10000)))
unfolding apportion_basis_points
apportion_exact vs h = elim (Bool-cases (ltb (sum vs) u64_mod)) [
  | inr big ↦ inl (ground arith, rw (sum_uint64-exact vs h, big))
  | inl fits ↦ elim (Bool-cases (sum vs == 0)) [
    | inl z ↦ inr (inl (ground arith, rw (sum_uint64-exact vs h, fits) (ground arith)))
    | inr nz ↦
        let t = sum vs in
        let n : t ≢ 0 = ground arith in
        let bounds = floors_bounds t vs n refl in
        let (r, er, near, total) = finish t vs n refl in
        let left : sub32 whole (0 + sum (floors t vs)) ≡ whole - sum (floors t vs) = omega arith in
        let enough : ltb (length (sort_descending (residuals t 0 vs))) (whole - sum (floors t vs))
            ≡ false =
          ground (arith, length-sort_descending (residuals t 0 vs), length-residuals t 0 vs) in
        inr (
          inr (
            r,
            rw
                (
                  sum_uint64-exact vs h,
                  fits,
                  nz,
                  quota_loop-closed t 0 0 vs n (le-sum vs t (omega arith)) (omega arith),
                  left,
                  enough,
                )
                er,
            near,
            total,
          ))
  ]
]
