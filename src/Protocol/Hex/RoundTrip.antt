-- ===== src/Protocol/Hex/RoundTrip.antt =====
-- `MarshalJSON`, `parseCanonicalHex`, `UnmarshalJSON` and `FormatRequestID` against one another.
use paraflow.Prelude.{
  ℕ, zero, suc, ◌↔◌, ◌+◌, ◌*◌, ◌/◌, ◌%◌, ◌^◌, ◌<◌, ◌≡◌, refl, sym, ap, ◌∙◌, Bool, true, ◌&&◌, none,
  some, List, [], ◌∷◌, ◌++◌, arith, ltb, if◌then◌else◌, length, length-append, length-drop, subst,
  all, drop, Option-cases, inl, inr,
}
use mathlib.Core.List.{append-nil, append_assoc}
use mathlib.Core.Option.{some-injective}
use native.Mathlib.Nat.{pow-suc}
use paraflow.Prelude.Text.{Bytes}
use paraflow.Prelude.Words.{max_u64, IsU64}
use paraflow.Prelude.Outcome.{ok}
use paraflow.Protocol.Hex.{
  is_hex_digit, hex_digit, format_hex, format_request_id, marshal_nanoseconds, digit_value,
  has_hex_prefix, parse_digits, parse_uint, unmarshal_hex, parse_canonical_hex, valid_request_id,
}

length-format_hex : (k n : ℕ) → length (format_hex k n) ≡ k
unfolding format_hex
length-format_hex zero n = refl
length-format_hex (suc k) n = omega (
  arith,
  length-format_hex k (n / 16),
  length-append (format_hex k (n / 16)) (hex_digit (n % 16) ∷ []),
)

all-append : (p : ℕ → Bool) (xs ys : List ℕ) → all p (xs ++ ys) ≡ (all p xs && all p ys)
all-append p [] ys = refl
all-append p (x ∷ xs) ys = ground (arith, all-append p xs ys)

is_hex_digit-hex_digit : (n : ℕ) → n < 16 → is_hex_digit (hex_digit n) ≡ true
unfolding is_hex_digit hex_digit
is_hex_digit-hex_digit n h = ground arith

digit_value-hex_digit : (n : ℕ) → n < 16 → digit_value (hex_digit n) ≡ some n
unfolding digit_value hex_digit
digit_value-hex_digit n h = ground arith

all-format_hex : (k n : ℕ) → all is_hex_digit (format_hex k n) ≡ true
unfolding format_hex
all-format_hex zero n = refl
all-format_hex (suc k) n = rw (
  all-append is_hex_digit (format_hex k (n / 16)) (hex_digit (n % 16) ∷ []),
  all-format_hex k (n / 16),
  is_hex_digit-hex_digit (n % 16) (omega arith),
)

-- A digit that the controller accepts is the one it prints for its value.
hex_digit-digit_value :
    (c d : ℕ) → is_hex_digit c ≡ true → digit_value c ≡ some d → (d < 16) × (c ≡ hex_digit d)
unfolding is_hex_digit digit_value hex_digit
hex_digit-digit_value c d h e = ground arith

digit_value-some : (c : ℕ) → is_hex_digit c ≡ true → (d : ℕ) × (digit_value c ≡ some d)
digit_value-some c h = elim (Option-cases (digit_value c)) [
  | inl e ↦ absurd (missing e)
  | inr d ↦ d
]
  where
    missing : digit_value c ≡ none → ⊥
    missing e = unfold is_hex_digit digit_value in ground arith

parse_step :
    (c d : ℕ) (s : Bytes) (n : ℕ)
    → digit_value c ≡ some d
    → parse_digits (c ∷ s) n
      ≡ (if ltb max_u64 (n * 16 + d) then none else parse_digits s (n * 16 + d))
unfolding parse_digits
parse_step c d s n e = rw (e, parse_digits)

parse_bad : (c : ℕ) (s : Bytes) (n : ℕ) → digit_value c ≡ none → parse_digits (c ∷ s) n ≡ none
unfolding parse_digits
parse_bad c s n e = rw (e, parse_digits)

-- Parsing reads a prefix, then the last digit.
parse_digits-snoc :
    (s : Bytes) (c n m r : ℕ)
    → parse_digits s n ≡ some m
    → parse_digits (c ∷ []) m ≡ some r
    → parse_digits (s ++ c ∷ []) n ≡ some r
parse_digits-snoc [] c n m r e f =
    let same : n ≡ m = unfold parse_digits in ground arith in rw same f
parse_digits-snoc (d ∷ s) c n m r e f = elim (Option-cases (digit_value d)) [
  | inl bad ↦ cc (parse_bad d s n bad)
  | inr (v, good) ↦ rw (parse_step d v (s ++ c ∷ []) n good) (
      ground (
        arith,
        parse_step d v s n good,
        λ (p : parse_digits s (n * 16 + v) ≡ some m). parse_digits-snoc s c (n * 16 + v) m r p f,
      ))
]

-- A print of a number below 2^64 reads back.
parse_digits-format : (k n : ℕ) → n < 16 ^ k → IsU64 n → parse_digits (format_hex k n) 0 ≡ some n
unfolding parse_digits format_hex
parse_digits-format zero n h b = ground arith
parse_digits-format (suc k) n h b =
    let p : 16 ^ suc k ≡ 16 ^ k * 16 = pow-suc 16 k in
    let ih = parse_digits-format k (n / 16) (omega arith) (omega arith) in
    parse_digits-snoc (format_hex k (n / 16)) (hex_digit (n % 16)) 0 (n / 16) n ih (
      rw
        (parse_step (hex_digit (n % 16)) (n % 16) [] (n / 16)
          (digit_value-hex_digit (n % 16) (omega arith)))
        (ground arith))

parse_digits-bound : (s : Bytes) (n r : ℕ) → IsU64 n → parse_digits s n ≡ some r → IsU64 r
unfolding parse_digits
parse_digits-bound [] n r b e = ground arith
parse_digits-bound (c ∷ s) n r b e = elim (Option-cases (digit_value c)) [
  | inl bad ↦ cc (parse_bad c s n bad)
  | inr (d, good) ↦ ground (arith, parse_step c d s n good, parse_digits-bound s (n * 16 + d) r)
]

-- What was read prints as it was written, behind the print of what had been read before.
format-parse_digits :
    (s : Bytes) (k m r : ℕ)
    → all is_hex_digit s ≡ true
    → parse_digits s m ≡ some r
    → format_hex (k + length s) r ≡ format_hex k m ++ s
unfolding parse_digits format_hex
format-parse_digits [] k m r h e =
    let same : m ≡ r = ground arith in
    let none_left : k + 0 ≡ k = omega arith in rw (none_left, append-nil, same)
format-parse_digits (c ∷ s) k m r h e =
    let hc : is_hex_digit c ≡ true = ground arith in
    let hs : all is_hex_digit s ≡ true = ground arith in
    let (d, ed) = digit_value-some c hc in
    let (small, same) = hex_digit-digit_value c d hc ed in
    let e' : parse_digits s (m * 16 + d) ≡ some r = ground (arith, parse_step c d s m ed) in
    let high : (m * 16 + d) / 16 ≡ m = omega arith in
    let low : (m * 16 + d) % 16 ≡ d = omega arith in
    let index : k + suc (length s) ≡ suc k + length s = omega arith in
    rw (index, format-parse_digits s (suc k) (m * 16 + d) r hs e', high, low, ← same, append_assoc)

prefixed : (s : Bytes) → has_hex_prefix s ≡ true → s ≡ b'0' ∷ b'x' ∷ drop 2 s
prefixed [] h = cc
prefixed (a ∷ []) h = cc
prefixed (a ∷ b ∷ s) h = ground arith

length-drop_two : (s : Bytes) → length s ≡ 18 → length (drop 2 s) ≡ 16
length-drop_two s h = omega (arith, length-drop {0} 2 s)

parse_uint-digits : (s : Bytes) → length s ≡ 16 → parse_uint s ≡ parse_digits s 0
unfolding parse_uint
parse_uint-digits [] h = absurd (omega arith)
parse_uint-digits (c ∷ s) h = refl

marshal-parse :
    (s : Bytes) (n : ℕ)
    → length s ≡ 16
    → all is_hex_digit s ≡ true
    → parse_uint s ≡ some n
    → IsU64 n × (format_hex 16 n ≡ s)
unfolding format_hex
marshal-parse s n l h e =
    let e' : parse_digits s 0 ≡ some n = sym (parse_uint-digits s l) ∙ e in
    let all_digits : 0 + length s ≡ 16 = omega arith in
    (
      parse_digits-bound s 0 n (omega arith) e',
      subst (λ k. format_hex k n ≡ s) all_digits (format-parse_digits s 0 0 n h e'),
    )

parse-eq-ok :
    (s : Bytes) (n : ℕ)
    → parse_canonical_hex s ≡ ok n
    → (has_hex_prefix s ≡ true)
      × (length s ≡ 18)
      × (all is_hex_digit (drop 2 s) ≡ true)
      × (parse_uint (drop 2 s) ≡ some n)
unfolding parse_canonical_hex
parse-eq-ok s n e = ground arith

parse-marshal : (n : ℕ) → IsU64 n → parse_canonical_hex (marshal_nanoseconds n) ≡ ok n
unfolding parse_canonical_hex marshal_nanoseconds
parse-marshal n b =
    let l : length (format_hex 16 n) ≡ 16 = length-format_hex 16 n in
    let e = parse_uint-digits (format_hex 16 n) l ∙ parse_digits-format 16 n (omega arith) b in
    rw (l, all-format_hex 16 n, e)

-- The strict decoder of u64 texts accepts exactly the printed form: a text parses to `n` if and only
-- if `n` is below 2^64 and the text is what `MarshalJSON` writes for `n`. The decoder of the worker
-- protocol accepts the same texts, with the same values.
pub parse-marshal_iff :
    (s : Bytes) (n : ℕ)
    → ((parse_canonical_hex s ≡ ok n) ↔ (IsU64 n × (s ≡ marshal_nanoseconds n)))
      × (unmarshal_hex s ≡ parse_canonical_hex s)
unfolding unmarshal_hex parse_canonical_hex
parse-marshal_iff s n = ((sound, complete), refl)
  where
    sound : parse_canonical_hex s ≡ ok n → IsU64 n × (s ≡ marshal_nanoseconds n)
    sound e =
        let (p, l, h, d) = parse-eq-ok s n e in
        let (b, print) = marshal-parse (drop 2 s) n (length-drop_two s l) h d in
        (b, unfold marshal_nanoseconds in rw print (prefixed s p))

    complete : IsU64 n × (s ≡ marshal_nanoseconds n) → parse_canonical_hex s ≡ ok n
    complete (b, e) = rw e (parse-marshal n b)

-- Every request id of a session passes the id check, and different sequence numbers below 2^64 have
-- different ids.
pub request_ids_distinct :
    (m n : ℕ)
    → IsU64 m
    → IsU64 n
    → (valid_request_id (format_request_id m) ≡ true)
      × (format_request_id m ≡ format_request_id n → m ≡ n)
unfolding valid_request_id format_request_id
request_ids_distinct m n bm bn = (rw (length-format_hex 16 m, all-format_hex 16 m), injective)
  where
    injective : format_hex 16 m ≡ format_hex 16 n → m ≡ n
    injective e = some-injective _ _ (
        sym (parse_digits-format 16 m (omega arith) bm)
        ∙ ap (λ s. parse_digits s 0) e
        ∙ parse_digits-format 16 n (omega arith) bn)
