-- ===== src/Benchmark/Apportion.antt =====
-- `apportionBasisPoints` of labctl-go/internal/benchmark/profile_stats.go: shares of 10,000 basis
-- points by largest remainder. `sort.SliceStable` is a stable insertion sort, greatest value first.
pub mod Loop
pub mod Bump
pub mod Exact
use paraflow.Prelude.{
  ℕ, zero, suc, ◌+◌, Bool, Option, none, some, List, [], ◌∷◌, ltb, leb, ◌==◌, if◌then◌else◌, length,
}
use paraflow.Prelude.Words.{u32, add32, sub32}
use paraflow.Prelude.Outcome.{Outcome, ok, err, panic, ◌>>=◌, ◌>>◌, refuse, or_panic}
use paraflow.Benchmark.Arith.{
  ArithError, zero_total, share_exceeds, bad_remainder, mul64, div64, sum_uint64,
}

abbrev pub whole : ℕ
whole = 10000

pub record Remainder : Type 0 where
  pub index : ℕ
  pub value : ℕ

pub record Quotas : Type 0 where
  pub shares : List ℕ
  pub remainders : List Remainder
  pub assigned : ℕ

-- The first loop: the floor of each share, what is left of it, and the points given out so far.
pub quota_loop : ℕ → ℕ → ℕ → List ℕ → Outcome ArithError Quotas
quota_loop total index assigned [] =
    ok (record { shares = []; remainders = []; assigned = assigned })
quota_loop total index assigned (value ∷ values) = do
  let (high, low) = mul64 value whole
  (quotient, residual) ← div64 high low total
  refuse (ltb whole quotient) share_exceeds
  rest ← quota_loop total (suc index) (add32 assigned (u32 quotient)) values
  ok (record {
    shares = u32 quotient ∷ rest.shares;
    remainders = record { index = index; value = residual } ∷ rest.remainders;
    assigned = rest.assigned;
  })

pub insert : Remainder → List Remainder → List Remainder
insert r [] = r ∷ []
insert r (x ∷ xs) = if leb x.value r.value then r ∷ x ∷ xs else x ∷ insert r xs

pub sort_descending : List Remainder → List Remainder
unfolding insert
sort_descending [] = []
sort_descending (r ∷ rs) = insert r (sort_descending rs)

-- `shares[i]++`; `none` is an index out of range.
pub bump : List ℕ → ℕ → Option (List ℕ)
bump [] i = none
bump (x ∷ xs) zero = some (add32 x 1 ∷ xs)
bump (x ∷ xs) (suc i) = elim (bump xs i) [ none ↦ none | some ys ↦ some (x ∷ ys) ]

-- The last loop, over the first `remaining` remainders.
pub bump_loop : ℕ → List Remainder → List ℕ → Outcome ArithError (List ℕ)
unfolding bump
bump_loop zero rs shares = ok shares
bump_loop (suc remaining) [] shares = panic
bump_loop (suc remaining) (r ∷ rs) shares = do
  shares' ← or_panic (bump shares r.index)
  bump_loop remaining rs shares'

unfoldable pub apportion_basis_points : List ℕ → Outcome ArithError (List ℕ)
unfolding quota_loop sort_descending bump_loop
apportion_basis_points values = do
  total ← sum_uint64 values
  refuse (total == 0) zero_total
  quotas ← quota_loop total 0 0 values
  let remainders = sort_descending quotas.remainders
  let remaining = sub32 whole quotas.assigned
  refuse (ltb (length remainders) remaining) bad_remainder
  bump_loop remaining remainders quotas.shares
