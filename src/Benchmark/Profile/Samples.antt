-- ===== src/Benchmark/Profile/Samples.antt =====
-- The sample loop of `validateProfileEngineResult`.
use paraflow.Prelude.{
  ℕ, ◌+◌, ◌≤◌, ◌<◌, ◌≡◌, List, [], ◌∷◌, map, ltb, length, All, sum, arith, Bool-cases, inl, inr,
}
use paraflow.Prelude.Outcome.{ok, err}
use paraflow.Prelude.Words.{u32_mod, u64_mod, IsU64}
use paraflow.Benchmark.Arith.{add_uint64, sum_uint64, addition_overflow}
use paraflow.Benchmark.Arith.Exact.{sum_uint64-exact}
use paraflow.Benchmark.Profile.{ProfileSample, stages, profile_loop}

-- The samples are numbered from `i` on, the stage sum of each is the exact sum of its five stages, and
-- the total is not below it.
abbrev pub StagesAddUp : ℕ → List ProfileSample → Type 0
StagesAddUp i [] = Unit
StagesAddUp i (s ∷ ss) =
    (s.ordinal ≡ i)
    × (s.stage_sum_ns ≡ sum (stages s))
    × (s.stage_sum_ns ≤ s.profile_total_ns)
    × StagesAddUp (i + 1) ss

abbrev pub profile_retained : List ProfileSample → ℕ
profile_retained ss = sum (map (λ s. s.profile_total_ns) ss)

Step : ℕ → ℕ → ProfileSample → Type 0
Step i t s =
    (s.ordinal ≡ i)
    × (s.stage_sum_ns ≡ sum (stages s))
    × (s.stage_sum_ns ≤ s.profile_total_ns)
    × (t + s.profile_total_ns < u64_mod)

profile_loop-Step :
    (i t : ℕ) (s : ProfileSample) (ss : List ProfileSample) {r : ℕ}
    → All IsU64 (stages s)
    → IsU64 t
    → i < u32_mod
    → profile_loop i t (s ∷ ss) ≡ ok r
    → Step i t s × (profile_loop (i + 1) (t + s.profile_total_ns) ss ≡ ok r)
unfolding profile_loop add_uint64 Step
profile_loop-Step i t s ss h ht hi e = elim (Bool-cases (ltb (sum (stages s)) u64_mod)) [
  | inr big ↦
      let over : sum_uint64 (stages s) ≡ err addition_overflow =
        rw (sum_uint64-exact (stages s) h, big) in
      absurd (ground arith)
  | inl small ↦
      let exact : sum_uint64 (stages s) ≡ ok (sum (stages s)) =
        rw (sum_uint64-exact (stages s) h, small) in
      (ground arith, ground arith)
]

-- On samples that the loop of `validateProfileEngineResult` accepts, each stage sum is the exact sum of
-- the five stages with no wrap and within the total, the ordinals count up, and the sum of the totals is
-- below 2^64 and is the loop's result: for u64 stages and fewer than 2^32 samples.
pub profile_loop-StagesAddUp :
    (i t : ℕ) (ss : List ProfileSample) (r : ℕ)
    → All (λ s. All IsU64 (stages s)) ss
    → i + length ss ≤ u32_mod
    → IsU64 t
    → profile_loop i t ss ≡ ok r
    → StagesAddUp i ss × (t + profile_retained ss ≡ r) × IsU64 r
unfolding profile_loop Step
profile_loop-StagesAddUp i t [] r h n ht e = (tt, ground arith, ground arith)
profile_loop-StagesAddUp i t (s ∷ ss) r h n ht e =
    let ((o, exact, within, b), e1) = profile_loop-Step i t s ss h.0 ht (omega arith) e in
    let (rest, total, small) =
      profile_loop-StagesAddUp (i + 1) (t + s.profile_total_ns) ss r h.1 (omega arith) b e1 in
    ((o, exact, within, rest), omega arith, small)
