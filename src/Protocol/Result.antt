-- ===== src/Protocol/Result.antt =====
-- `validateResult` of labctl-go/internal/protocol/protocol.go. `math.Float64frombits` is the identity
-- here, since a binary64 number is its bits; `math.IsNaN` and `math.IsInf` read the exponent and the
-- mantissa.
pub mod Sound
use paraflow.Prelude.{
  ℕ, ◌+◌, ◌-◌, ◌*◌, ◌/◌, ◌%◌, Bool, true, false, not, ◌&&◌, ◌||◌, Option, none, some, List, [], ◌∷◌,
  ltb, leb, ◌==◌, if◌then◌else◌, length,
}
use paraflow.Prelude.Text.{Bytes, codes, bytes_eq}
use paraflow.Prelude.Words.{add64, sub64}
use paraflow.Prelude.Outcome.{Outcome, ok, err, panic, ◌>>=◌, ◌>>◌, refuse, map_err}
use paraflow.Protocol.Hex.{HexError, unmarshal_hex}
use paraflow.Protocol.Message.{
  WorkloadProjection, ResultV1, WireFloat64, WireResult, ProtocolError, wrong_schema,
  bad_projection, missing_fields, bad_encoding, bad_score_bits, score_nan, score_negative_infinity,
  count_exceeds_records, histogram_length, histogram_exceeds_records, histogram_mismatch,
  result_schema, max_safe_json_integer, max_category_count, valid_workload_name,
}

-- The exponent is all ones and the mantissa is not zero.
unfoldable pub is_nan : ℕ → Bool
is_nan bits = bits / 4503599627370496 % 2048 == 2047 && not (bits % 4503599627370496 == 0)

unfoldable pub is_negative_infinity : ℕ → Bool
is_negative_infinity bits = bits == 18442240474082181120

-- `parseFixedHexBits`: a text that is not valid UTF-8 is refused on either side of its requoting.
abbrev parse_fixed_hex_bits : Bytes → Outcome ProtocolError ℕ
parse_fixed_hex_bits encoded = map_err (λ e. bad_score_bits) (unmarshal_hex encoded)

-- The loop over the histogram, from the total so far.
unfoldable pub histogram_loop : ℕ → ℕ → List ℕ → Outcome ProtocolError ℕ
histogram_loop record_count total [] = ok total
histogram_loop record_count total (count ∷ counts) = do
  refuse (ltb (sub64 record_count total) count) histogram_exceeds_records
  histogram_loop record_count (add64 total count) counts

-- `validateResult` behind the tests for absent fields.
unfoldable pub validate_fields :
    ℕ → WireFloat64 → List ℕ → ℕ → ℕ → WorkloadProjection → Outcome ProtocolError ResultV1
unfolding histogram_loop
validate_fields accepted score histogram id_sum id_xor workload = do
  refuse (not (bytes_eq score.encoding (codes "ieee754-binary64"))) bad_encoding
  bits ← parse_fixed_hex_bits score.bits
  refuse (is_nan bits) score_nan
  refuse (is_negative_infinity bits) score_negative_infinity
  refuse (ltb workload.record_count accepted) count_exceeds_records
  refuse (not (length histogram == workload.category_count)) histogram_length
  total ← histogram_loop workload.record_count 0 histogram
  refuse (not (total == accepted)) histogram_mismatch
  ok (record {
    accepted_count = accepted;
    score_sum = bits;
    category_histogram = histogram;
    accepted_id_sum = id_sum;
    accepted_id_xor = id_xor;
  })

abbrev projection_fails : WorkloadProjection → Bool
projection_fails workload =
    not (valid_workload_name workload.name)
    || (ltb max_safe_json_integer workload.record_count
        || (workload.category_count == 0 || ltb max_category_count workload.category_count))

unfoldable pub require_fields :
    Option ℕ
    → Option WireFloat64
    → Option (List ℕ)
    → Option ℕ
    → Option ℕ
    → WorkloadProjection
    → Outcome ProtocolError ResultV1
require_fields (some a) (some s) (some h) (some i) (some x) workload =
    validate_fields a s h i x workload
require_fields _ _ _ _ _ workload = err missing_fields

unfoldable pub validate_result : WireResult → WorkloadProjection → Outcome ProtocolError ResultV1
unfolding require_fields
validate_result wire workload = do
  refuse (projection_fails workload) bad_projection
  refuse (not (bytes_eq wire.schema_version result_schema)) wrong_schema
  require_fields wire.accepted_count wire.score_sum wire.category_histogram wire.accepted_id_sum
      wire.accepted_id_xor workload
