-- ===== src/JsonCheck.antt =====
-- labctl-go/internal/jsoncheck/jsoncheck.go: the scan for duplicate keys and strict decoding.
-- A `json.Decoder` is the tokens that it will return and what stands behind them: the end of the
-- input, or text that is no JSON, where `More` still looks at one character. Commas and colons are no
-- tokens. `panic` is the scan out of fuel.
pub mod Tree
pub mod Scan
pub mod Accepts
mod Examples
use paraflow.Prelude.{
  ℕ, zero, suc, ◌+◌, ◌*◌, Bool, true, false, not, ◌||◌, Option, none, some, List, [], ◌∷◌, length,
  if◌then◌else◌,
}
use paraflow.Prelude.Text.{Bytes, bytes_eq}
use paraflow.Prelude.Utf8.{valid_string}
use paraflow.Prelude.Outcome.{Outcome, ok, err, panic, ◌>>=◌, ◌>>◌, refuse}

pub data Token : Type 0 where
  open_object close_object open_array close_array : Token
  text : Bytes → Token
  scalar : Token

-- `broken` says whether its first character is a closing bracket.
pub data Ending : Type 0 where
  end_of_input : Ending
  broken : Bool → Ending

pub data JsonError : Type 0 where
  bad_utf8 unexpected_end syntax_error key_not_string duplicate_key : JsonError
  unclosed_object unclosed_array unexpected_delimiter trailing_value trailing_data : JsonError
  bad_value : JsonError

-- `keys[key]`.
pub seen : Bytes → List Bytes → Bool
seen key [] = false
seen key (k ∷ keys) = bytes_eq key k || seen key keys

module _ (ending : Ending) where
  -- `decoder.Token()`.
  abbrev pub next_token : List Token → Outcome JsonError (Token × List Token)
  next_token (t ∷ ts) = ok (t, ts)
  next_token [] = elim ending [
    | end_of_input ↦ err unexpected_end
    | broken closing ↦ err syntax_error
  ]

  -- `decoder.More()`.
  abbrev pub has_more : List Token → Bool
  has_more (close_object ∷ ts) = false
  has_more (close_array ∷ ts) = false
  has_more (t ∷ ts) = true
  has_more [] = elim ending [ end_of_input ↦ false | broken closing ↦ not closing ]

  -- The key of a member.
  abbrev pub next_key : List Bytes → List Token → Outcome JsonError (Bytes × List Token)
  next_key keys ts = do
    (token, rest) ← next_token ts
    elim token [
      | text key ↦ if seen key keys then err duplicate_key else ok (key, rest)
      | _ ↦ err key_not_string
    ]

  abbrev pub close_object_with : List Token → Outcome JsonError (List Token)
  close_object_with ts = do
    (token, rest) ← next_token ts
    elim token [ close_object ↦ ok rest | _ ↦ err unclosed_object ]

  abbrev pub close_array_with : List Token → Outcome JsonError (List Token)
  close_array_with ts = do
    (token, rest) ← next_token ts
    elim token [ close_array ↦ ok rest | _ ↦ err unclosed_array ]

  -- `scanJSONValue` and its two loops; the result is the tokens left.
  unfoldable mutual
    pub scan_value : ℕ → List Token → Outcome JsonError (List Token)
    scan_value zero ts = panic
    scan_value (suc f) ts = do
      (token, rest) ← next_token ts
      elim token [
        | open_object ↦ scan_members f [] rest
        | open_array ↦ scan_elements f rest
        | close_object ↦ err unexpected_delimiter
        | close_array ↦ err unexpected_delimiter
        | text t ↦ ok rest
        | scalar ↦ ok rest
      ]

    pub scan_members : ℕ → List Bytes → List Token → Outcome JsonError (List Token)
    scan_members zero keys ts = panic
    scan_members (suc f) keys ts = elim (has_more ts) [
      | false ↦ close_object_with ts
      | true ↦ do
        (key, rest) ← next_key keys ts
        rest' ← scan_value f rest
        scan_members f (key ∷ keys) rest'
    ]

    pub scan_elements : ℕ → List Token → Outcome JsonError (List Token)
    scan_elements zero ts = panic
    scan_elements (suc f) ts = elim (has_more ts) [
      | false ↦ close_array_with ts
      | true ↦ do rest ← scan_value f ts; scan_elements f rest
    ]

  -- The test for trailing data.
  abbrev pub check_end : List Token → Outcome JsonError Unit
  check_end (t ∷ ts) = err trailing_value
  check_end [] = elim ending [ end_of_input ↦ ok tt | broken closing ↦ err trailing_data ]

  -- `rejectDuplicateObjectKeys`.
  unfoldable pub reject_duplicate_object_keys : List Token → Outcome JsonError Unit
  reject_duplicate_object_keys ts = do rest ← scan_value (2 * length ts + 1) ts; check_end rest

-- What the second `Decode` of a decoder finds.
pub data Trailing : Type 0 where
  nothing_left another_value malformed : Trailing

-- encoding/json at one type: the value and what stands behind it, or `none` for an error. The flag is
-- `DisallowUnknownFields`.
abbrev pub ValueDecoder : Type 0 → Type 0
ValueDecoder A = Bool → Bytes → Option (A × Trailing)

abbrev pub decoded_value : {A : Type 0} → Option (A × Trailing) → Outcome JsonError A
decoded_value none = err bad_value
decoded_value (some (value, nothing_left)) = ok value
decoded_value (some (value, another_value)) = err trailing_value
decoded_value (some (value, malformed)) = err trailing_data

-- `Decode`; `lex` has the tokens of a text.
unfoldable pub decode :
    {A : Type 0}
    → (Bytes → List Token × Ending)
    → ValueDecoder A
    → Bytes
    → Bool
    → Outcome JsonError A
decode lex value_of source strict = do
  refuse (not (valid_string source)) bad_utf8
  reject_duplicate_object_keys (lex source).1 (lex source).0
  decoded_value (value_of strict source)
