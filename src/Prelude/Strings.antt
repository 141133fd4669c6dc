-- ===== src/Prelude/Strings.antt =====
-- What the program uses of Go's `strings`, `strconv.Atoi` and the verbs `%d`, `%-7s` and `%t`.
pub mod Decimal
use Prim.Native.Nat.{ℕ, zero, suc, ◌+◌, ◌-◌, ◌*◌, ◌/◌, ◌%◌}
use mathlib.Core.Bool.{Bool, true, false, ◌&&◌, ◌||◌}
use mathlib.Core.Option.{Option, none, some}
use mathlib.Core.List.{List, [], ◌∷◌, ◌++◌, map, reverse, flatten}
use paraflow.Prelude.Tests.{leb, ltb, ◌==◌, if◌then◌else◌}
use paraflow.Prelude.Lists.{length, take, drop}
use paraflow.Prelude.Text.{Bytes, codes}
use paraflow.Prelude.Utf8.{Rune, decode, is_space, rune_count}

-- The runes of a text with their bytes.
chop : List Rune → Bytes → List (Rune × Bytes)
chop [] s = []
chop (r ∷ rs) s = (r, take r.width s) ∷ chop rs (drop r.width s)

skip_blank : List (Rune × Bytes) → List (Rune × Bytes)
unfolding is_space
skip_blank [] = []
skip_blank (p ∷ ps) = let rest = skip_blank ps in if is_space p.0.value then rest else p ∷ ps

-- `strings.TrimSpace`.
unfoldable pub trim_space : Bytes → Bytes
unfolding chop skip_blank decode
trim_space s =
    flatten (map (λ p. p.1) (reverse (skip_blank (reverse (skip_blank (chop (decode s) s))))))

-- `strings.HasPrefix`.
unfoldable pub has_prefix : Bytes → Bytes → Bool
has_prefix s [] = true
has_prefix [] (y ∷ ys) = false
has_prefix (x ∷ xs) (y ∷ ys) = if x == y then has_prefix xs ys else false

-- `strings.Contains`.
unfoldable pub contains : Bytes → Bytes → Bool
unfolding has_prefix
contains [] needle = has_prefix [] needle
contains (x ∷ xs) needle = has_prefix (x ∷ xs) needle || contains xs needle

-- The text up to the first `sep` and behind it, as of `strings.Cut`.
unfoldable pub cut : ℕ → Bytes → Option (Bytes × Bytes)
cut sep [] = none
cut sep (x ∷ xs) =
    if x == sep
    then some ([], xs)
    else elim (cut sep xs) [ none ↦ none | some (before, after) ↦ some (x ∷ before, after) ]

abbrev pub onto_head : ℕ → List Bytes → List Bytes
onto_head x [] = (x ∷ []) ∷ []
onto_head x (line ∷ lines) = (x ∷ line) ∷ lines

-- `strings.Split` at a character: one text more than there are separators.
unfoldable pub split : ℕ → Bytes → List Bytes
split sep [] = [] ∷ []
split sep (x ∷ xs) = let rest = split sep xs in if x == sep then [] ∷ rest else onto_head x rest

abbrev pub is_digit : ℕ → Bool
is_digit c = leb b'0' c && leb c b'9'

pub decimal_fuel : ℕ → ℕ → Bytes
decimal_fuel zero n = []
decimal_fuel (suc f) n =
    let front = decimal_fuel f (n / 10) in
    if ltb n 10 then (b'0' + n) ∷ [] else front ++ (b'0' + n % 10) ∷ []

-- `%d` of a number that is not negative.
unfoldable pub decimal : ℕ → Bytes
unfolding decimal_fuel
decimal n = decimal_fuel (suc n) n

pub digits_value : ℕ → Bytes → ℕ
digits_value acc [] = acc
digits_value acc (c ∷ s) = digits_value (acc * 10 + (c - b'0')) s

abbrev pub max_int : ℕ
max_int = 9223372036854775807

-- `strconv.Atoi` of a text of digits: `none` is its range error.
unfoldable pub atoi : Bytes → Option ℕ
unfolding digits_value
atoi s = if ltb max_int (digits_value 0 s) then none else some (digits_value 0 s)

spaces : ℕ → Bytes
spaces zero = []
spaces (suc n) = b' ' ∷ spaces n

-- `%-ws`.
unfoldable pub pad_right : ℕ → Bytes → Bytes
unfolding spaces
pad_right w s = s ++ spaces (w - rune_count s)

abbrev pub bool_text : Bool → Bytes
bool_text true = codes "true"
bool_text false = codes "false"
