-- ===== src/Benchmark/Arith.antt =====
-- The checked u64 arithmetic of labctl-go/internal/benchmark: `addUint64` of engine.go, `sumUint64`,
-- `scaledRatio` and `ratioBasisPoints` of profile_stats.go, with `bits.Mul64` and `bits.Div64`, which
-- panics on a zero divisor and on a quotient that does not fit.
pub mod Exact
use paraflow.Prelude.{
  ℕ, ◌+◌, ◌-◌, ◌*◌, ◌/◌, ◌%◌, Bool, true, false, ◌||◌, List, [], ◌∷◌, ltb, leb, ◌==◌, if◌then◌else◌,
}
use paraflow.Prelude.Words.{max_u64, max_u32, u64_mod, u32, add64}
use paraflow.Prelude.Outcome.{Outcome, ok, err, panic, ◌>>=◌, ◌>>◌, refuse}

pub data ArithError : Type 0 where
  addition_overflow zero_denominator exceeds_u64 exceeds_portable exceeds_u32 : ArithError
  zero_total share_exceeds bad_remainder : ArithError

abbrev pub max_portable : ℕ
max_portable = 9007199254740991

-- The sum, and whether it overflowed.
unfoldable pub add_uint64 : ℕ → ℕ → ℕ × Bool
add_uint64 left right = if ltb (max_u64 - left) right then (0, true) else (add64 left right, false)

-- The loop of `sumUint64`.
sum_from : ℕ → List ℕ → Outcome ArithError ℕ
sum_from total [] = ok total
sum_from total (value ∷ values) = do
  let added = add_uint64 total value
  refuse added.1 addition_overflow
  sum_from added.0 values

unfoldable pub sum_uint64 : List ℕ → Outcome ArithError ℕ
unfolding sum_from
sum_uint64 values = sum_from 0 values

-- The high and the low word of the product.
abbrev pub mul64 : ℕ → ℕ → ℕ × ℕ
mul64 x y = (x * y / u64_mod, x * y % u64_mod)

-- The quotient and the remainder of the double word `hi:lo`.
unfoldable pub div64 : {E : Type 0} → ℕ → ℕ → ℕ → Outcome E (ℕ × ℕ)
div64 hi lo y =
    if y == 0 || leb y hi then panic else ok ((hi * u64_mod + lo) / y, (hi * u64_mod + lo) % y)

unfoldable pub scaled_ratio : ℕ → ℕ → ℕ → Outcome ArithError ℕ
scaled_ratio numerator denominator scale = do
  refuse (denominator == 0) zero_denominator
  let (high, low) = mul64 numerator scale
  refuse (leb denominator high) exceeds_u64
  (quotient, _) ← div64 high low denominator
  refuse (ltb max_portable quotient) exceeds_portable
  ok quotient

unfoldable pub ratio_basis_points : ℕ → ℕ → Outcome ArithError ℕ
ratio_basis_points numerator denominator = do
  ratio ← scaled_ratio numerator denominator 10000
  refuse (ltb max_u32 ratio) exceeds_u32
  ok (u32 ratio)
