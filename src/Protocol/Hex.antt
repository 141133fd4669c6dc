-- ===== src/Protocol/Hex.antt =====
-- Fixed-width hexadecimal numbers: `hexUint64.UnmarshalJSON`, `FormatRequestID`, `validateRequestID`
-- of labctl-go/internal/protocol/protocol.go; `Nanoseconds.MarshalJSON`, `parseCanonicalHex` of
-- labctl-go/internal/benchmark/types.go; `validSHA256` of verify.go. The JSON quotes are left off.
-- A digit loop ranges over runes in Go; no byte of a longer sequence passes its test.
pub mod RoundTrip
use paraflow.Prelude.{
  ℕ, zero, suc, ◌+◌, ◌-◌, ◌*◌, ◌/◌, ◌%◌, Bool, true, false, not, ◌&&◌, ◌||◌, Option, none, some,
  List, [], ◌∷◌, ◌++◌, ltb, leb, ◌==◌, if◌then◌else◌, length, all, drop,
}
use paraflow.Prelude.Text.{Bytes, codes}
use paraflow.Prelude.Words.{max_u64}
use paraflow.Prelude.Outcome.{Outcome, ok, err, ◌>>=◌, ◌>>◌, refuse}

pub data HexError : Type 0 where
  not_canonical parse_failed : HexError

unfoldable pub is_hex_digit : ℕ → Bool
is_hex_digit c = (leb b'0' c && leb c b'9') || (leb b'a' c && leb c b'f')

-- The digit that `%x` prints.
unfoldable pub hex_digit : ℕ → ℕ
hex_digit n = if ltb n 10 then b'0' + n else b'a' + (n - 10)

-- `%0kx` of a number below 16 ^ k.
unfoldable pub format_hex : ℕ → ℕ → Bytes
unfolding hex_digit
format_hex zero n = []
format_hex (suc k) n = format_hex k (n / 16) ++ hex_digit (n % 16) ∷ []

-- `FormatRequestID`.
unfoldable pub format_request_id : ℕ → Bytes
unfolding format_hex
format_request_id sequence = format_hex 16 sequence

-- `Nanoseconds.MarshalJSON`, between its quotes.
unfoldable pub marshal_nanoseconds : ℕ → Bytes
unfolding format_hex
marshal_nanoseconds value = b'0' ∷ b'x' ∷ format_hex 16 value

-- The value of a digit for `strconv.ParseUint`, which reads capitals too.
unfoldable pub digit_value : ℕ → Option ℕ
digit_value c =
    if leb b'0' c && leb c b'9'
    then some (c - b'0')
    else if leb b'a' c && leb c b'f'
    then some (c - b'a' + 10)
    else if leb b'A' c && leb c b'F'
    then some (c - b'A' + 10)
    else none

-- `strconv.ParseUint(s, 16, 64)` behind its test for the empty text: `none` is a syntax or range error.
parse_digits : Bytes → ℕ → Option ℕ
unfolding digit_value
parse_digits [] n = some n
parse_digits (c ∷ s) n = elim (digit_value c) [
  | none ↦ none
  | some d ↦
      let rest = parse_digits s (n * 16 + d) in if ltb max_u64 (n * 16 + d) then none else rest
]

unfoldable pub parse_uint : Bytes → Option ℕ
unfolding parse_digits
parse_uint [] = none
parse_uint (c ∷ s) = parse_digits (c ∷ s) 0

-- `strings.HasPrefix(s, "0x")`, which for a text of 18 bytes is also `s[:2] == "0x"`.
abbrev pub has_hex_prefix : Bytes → Bool
has_hex_prefix [] = false
has_hex_prefix (a ∷ []) = false
has_hex_prefix (a ∷ b ∷ s) = a == b'0' && b == b'x'

abbrev or_failed : Option ℕ → Outcome HexError ℕ
or_failed none = err parse_failed
or_failed (some n) = ok n

-- `hexUint64.UnmarshalJSON` on the decoded string.
unfoldable pub unmarshal_hex : Bytes → Outcome HexError ℕ
unfolding parse_uint
unmarshal_hex encoded = do
  refuse (not (length encoded == 18) || not (has_hex_prefix encoded)) not_canonical
  refuse (not (all is_hex_digit (drop 2 encoded))) not_canonical
  or_failed (parse_uint (drop 2 encoded))

-- `parseCanonicalHex`.
unfoldable pub parse_canonical_hex : Bytes → Outcome HexError ℕ
unfolding parse_uint
parse_canonical_hex encoded = do
  refuse (not (length encoded == 18) || not (has_hex_prefix encoded)) not_canonical
  refuse (not (all is_hex_digit (drop 2 encoded))) not_canonical
  or_failed (parse_uint (drop 2 encoded))

-- `validateRequestID`.
unfoldable pub valid_request_id : Bytes → Bool
valid_request_id request_id = length request_id == 16 && all is_hex_digit request_id

-- `validSHA256`.
unfoldable pub valid_sha256 : Bytes → Bool
valid_sha256 value = length value == 64 && all is_hex_digit value
