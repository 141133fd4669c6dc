-- ===== src/Prelude/Strings/Decimal.antt =====
-- The decimal digits of a number, printed and read.
use Prim.Native.Nat.{ℕ, zero, suc, ◌+◌, ◌-◌, ◌*◌, ◌/◌, ◌%◌, ◌≤◌, ◌<◌}
use mathlib.Core.Path.{◌≡◌, refl}
use mathlib.Core.Logic.{inl, inr}
use mathlib.Core.Bool.{true, false}
use mathlib.Core.Option.{some}
use mathlib.Core.List.{[], ◌∷◌, ◌++◌}
use native.Mathlib.Omega.{arith}
use paraflow.Prelude.Tests.{ltb, Bool-cases}
use paraflow.Prelude.Text.{Bytes}
use paraflow.Prelude.Strings.{is_digit, decimal_fuel, decimal, digits_value, atoi, max_int}

-- Digits, and at least one of them.
pub data Numeral : Bytes → Type 0 where
  one : {c : ℕ} → is_digit c ≡ true → Numeral (c ∷ [])
  more : {c : ℕ} {s : Bytes} → is_digit c ≡ true → Numeral s → Numeral (c ∷ s)

snoc-Numeral : {s : Bytes} (c : ℕ) → Numeral s → is_digit c ≡ true → Numeral (s ++ c ∷ [])
snoc-Numeral c (one h) k = more h (one k)
snoc-Numeral c (more h n) k = more h (snoc-Numeral c n k)

digit-IsDigit : (n : ℕ) → n < 10 → is_digit (b'0' + n) ≡ true
digit-IsDigit n h = ground arith

decimal_fuel-Numeral : (f n : ℕ) → n < f → Numeral (decimal_fuel f n)
unfolding decimal_fuel
decimal_fuel-Numeral zero n h = absurd (omega arith)
decimal_fuel-Numeral (suc f) n h = elim (Bool-cases (ltb n 10)) [
  | inl e ↦ rw e (one (digit-IsDigit n (ground arith)))
  | inr e ↦ rw e (
      snoc-Numeral _ (decimal_fuel-Numeral f (n / 10) (ground arith))
        (digit-IsDigit (n % 10) (omega arith)))
]

pub decimal-Numeral : (n : ℕ) → Numeral (decimal n)
unfolding decimal
decimal-Numeral n = decimal_fuel-Numeral (suc n) n (omega arith)

digits_value-snoc :
    (acc : ℕ) (s : Bytes) (c : ℕ)
    → digits_value acc (s ++ c ∷ []) ≡ digits_value acc s * 10 + (c - b'0')
unfolding digits_value
digits_value-snoc acc [] c = refl
digits_value-snoc acc (d ∷ s) c = digits_value-snoc (acc * 10 + (d - b'0')) s c

digits_value-decimal_fuel : (f n : ℕ) → n < f → digits_value 0 (decimal_fuel f n) ≡ n
unfolding decimal_fuel digits_value
digits_value-decimal_fuel zero n h = absurd (omega arith)
digits_value-decimal_fuel (suc f) n h = elim (Bool-cases (ltb n 10)) [
  | inl e ↦ rw e (omega arith)
  | inr e ↦
      rw
        (
          e,
          digits_value-snoc 0 (decimal_fuel f (n / 10)) (b'0' + n % 10),
          digits_value-decimal_fuel f (n / 10) (ground arith),
        )
        (omega arith)
]

pub digits_value-decimal : (n : ℕ) → digits_value 0 (decimal n) ≡ n
unfolding decimal
digits_value-decimal n = digits_value-decimal_fuel (suc n) n (omega arith)

pub atoi-decimal : (n : ℕ) → n ≤ max_int → atoi (decimal n) ≡ some n
unfolding atoi
atoi-decimal n h = rw (digits_value-decimal n, within n h) refl
  where
    within : (n : ℕ) → n ≤ max_int → ltb max_int n ≡ false
    within n h = ground arith
