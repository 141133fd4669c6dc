-- ===== src/Prelude/Utf8.antt =====
-- What the program uses of Go's `unicode/utf8`, `unicode.IsSpace` and `strings.TrimSpace`.
-- A byte that starts no well-formed sequence decodes to U+FFFD and is one byte wide, as in Go.
use Prim.Native.Nat.{ℕ, zero, suc, ◌+◌, ◌-◌, ◌*◌}
use mathlib.Core.Bool.{Bool, true, false, ◌&&◌, ◌||◌}
use mathlib.Core.List.{List, [], ◌∷◌, map, reverse}
use paraflow.Prelude.Tests.{leb, ltb, ◌==◌, if◌then◌else◌}
use paraflow.Prelude.Lists.{length, drop, all}
use paraflow.Prelude.Text.{Bytes}

pub record Rune : Type 0 where
  pub value : ℕ
  pub width : ℕ
  pub valid : Bool

between : ℕ → ℕ → ℕ → Bool
between lo hi c = leb lo c && leb c hi

bad_rune : Rune
bad_rune = record { value = 0xfffd; width = 1; valid = false }

good_rune : ℕ → ℕ → Rune
good_rune v w = record { value = v; width = w; valid = true }

-- The least and the greatest second byte behind a first byte of a three- or four-byte sequence.
second_low : ℕ → ℕ
second_low c = if c == 0xe0 then 0xa0 else if c == 0xf0 then 0x90 else 0x80

second_high : ℕ → ℕ
second_high c = if c == 0xed then 0x9f else if c == 0xf4 then 0x8f else 0xbf

decode_two : ℕ → Bytes → Rune
unfolding between bad_rune good_rune
decode_two a [] = bad_rune
decode_two a (b ∷ s) =
    if between 0x80 0xbf b then good_rune ((a - 0xc0) * 64 + (b - 0x80)) 2 else bad_rune

decode_three : ℕ → Bytes → Rune
unfolding between bad_rune good_rune second_low second_high
decode_three a [] = bad_rune
decode_three a (b ∷ []) = bad_rune
decode_three a (b ∷ c ∷ s) =
    if between (second_low a) (second_high a) b && between 0x80 0xbf c
    then good_rune (((a - 0xe0) * 64 + (b - 0x80)) * 64 + (c - 0x80)) 3
    else bad_rune

decode_four : ℕ → Bytes → Rune
unfolding between bad_rune good_rune second_low second_high
decode_four a [] = bad_rune
decode_four a (b ∷ []) = bad_rune
decode_four a (b ∷ c ∷ []) = bad_rune
decode_four a (b ∷ c ∷ d ∷ s) =
    if between (second_low a) (second_high a) b && (between 0x80 0xbf c && between 0x80 0xbf d)
    then good_rune ((((a - 0xf0) * 64 + (b - 0x80)) * 64 + (c - 0x80)) * 64 + (d - 0x80)) 4
    else bad_rune

-- `utf8.DecodeRuneInString` at the first byte and what follows it.
decode_rune : ℕ → Bytes → Rune
unfolding decode_two decode_three decode_four
decode_rune a s =
    if ltb a 0x80
    then good_rune a 1
    else if between 0xc2 0xdf a
    then decode_two a s
    else if between 0xe0 0xef a
    then decode_three a s
    else if between 0xf0 0xf4 a
    then decode_four a s
    else bad_rune

-- Every rune takes a byte, so the length of the text is enough fuel.
decode_fuel : ℕ → Bytes → List Rune
unfolding decode_rune
decode_fuel zero s = []
decode_fuel (suc f) [] = []
decode_fuel (suc f) (a ∷ s) = let r = decode_rune a s in r ∷ decode_fuel f (drop (r.width - 1) s)

unfoldable pub decode : Bytes → List Rune
unfolding decode_fuel
decode s = decode_fuel (length s) s

unfoldable pub valid_string : Bytes → Bool
unfolding decode
valid_string s = all (λ r. r.valid) (decode s)

unfoldable pub rune_count : Bytes → ℕ
unfolding decode
rune_count s = length (decode s)

unfoldable pub is_space : ℕ → Bool
unfolding between
is_space c =
    between 9 13 c
    || (c == 0x20
        || (c == 0x85
            || (c == 0xa0
                || (c == 0x1680
                    || (between 0x2000 0x200a c
                        || (c == 0x2028
                            || (c == 0x2029 || (c == 0x202f || (c == 0x205f || c == 0x3000)))))))))

-- `strings.TrimSpace(s) == ""`.
unfoldable pub is_blank : Bytes → Bool
unfolding decode is_space
is_blank s = all (λ r. is_space r.value) (decode s)

skip_spaces : List ℕ → List ℕ
unfolding is_space
skip_spaces [] = []
skip_spaces (c ∷ s) = let rest = skip_spaces s in if is_space c then rest else c ∷ s

-- The runes of `strings.TrimSpace(s)`.
unfoldable pub trimmed_runes : Bytes → List ℕ
unfolding decode skip_spaces
trimmed_runes s = reverse (skip_spaces (reverse (skip_spaces (map (λ r. r.value) (decode s)))))
