-- ===== src/Benchmark/Profile/Analyze/Dominant.antt =====
-- `dominant` of profile_stats.go: which index it selects.
use paraflow.Prelude.{
  ℕ, suc, ◌+◌, ◌≤◌, ◌<◌, ◌≡◌, refl, ◌⊎◌, inl, inr, some, List, [], ◌∷◌, arith, ltb, Bool-cases,
  get_elem?, take, All,
}
use paraflow.Benchmark.Profile.Analyze.{dominant_loop, dominant_index}

-- The index of the first of the greatest values.
abbrev pub IsFirstMaximum : List ℕ → ℕ → Type 0
IsFirstMaximum vs i =
    (m : ℕ) × (get_elem? vs i ≡ some m) × All (λ v. v ≤ m) vs × All (λ v. v < m) (take i vs)

-- The loop stays, or moves to the first greatest of the rest.
LoopResult : ℕ → ℕ → ℕ → List ℕ → ℕ → Type 0
LoopResult best index candidate vs j =
    ((j ≡ index) × All (λ v. v ≤ best) vs)
    ⊎ ((k : ℕ) × (m : ℕ) × (j ≡ candidate + k)
        × (best < m)
        × (get_elem? vs k ≡ some m)
        × All (λ v. v ≤ m) vs
        × All (λ v. v < m) (take k vs))

dominant_loop-LoopResult :
    (best index candidate : ℕ) (vs : List ℕ)
    → LoopResult best index candidate vs (dominant_loop best index candidate vs)
unfolding dominant_loop LoopResult
dominant_loop-LoopResult best index candidate [] = inl (refl, tt)
dominant_loop-LoopResult best index candidate (v ∷ vs) = elim (Bool-cases (ltb best v)) [
  | inl e ↦ rw e (elim (dominant_loop-LoopResult v candidate (candidate + 1) vs) [
    | inl (j, low) ↦ inr (0, v, omega arith, ground arith, refl, (ground arith, low), tt)
    | inr (k, m, j, more, at, low, before) ↦
        inr (suc k, m, omega arith, ground arith, at, (ground arith, low), (more, before))
  ])
  | inr e ↦ rw e (elim (dominant_loop-LoopResult best index (candidate + 1) vs) [
    | inl (j, low) ↦ inl (j, (ground arith, low))
    | inr (k, m, j, more, at, low, before) ↦
        inr (suc k, m, omega arith, more, at, (ground arith, low), (ground arith, before))
  ])
]

-- `dominant` selects the first of the greatest values, if there is one.
pub dominant_index-IsFirstMaximum :
    (v : ℕ) (vs : List ℕ) → IsFirstMaximum (v ∷ vs) (dominant_index (v ∷ vs))
unfolding dominant_index LoopResult
dominant_index-IsFirstMaximum v vs = elim (dominant_loop-LoopResult v 0 1 vs) [
  | inl (j, low) ↦ rw j (v, refl, (omega arith, low), tt)
  | inr (k, m, j, more, at, low, before) ↦
      let e : 1 + k ≡ suc k = omega arith in rw (j, e) (m, at, (omega arith, low), (more, before))
]
