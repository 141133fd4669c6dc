-- ===== src/Protocol/Examples.antt =====
-- The protocol at concrete inputs.
use paraflow.Prelude.{ℕ, ◌≡◌, refl, ◌≤◌, ◌↔◌, arith, true, some}
use paraflow.Prelude.Outcome.{ok}
use paraflow.Prelude.Words.{IsU64}
use paraflow.Prelude.Text.{codes, bytes_eq}
use paraflow.Prelude.Utf8.{valid_string, rune_count, is_blank}
use paraflow.Protocol.Hex.{
  marshal_nanoseconds, parse_canonical_hex, unmarshal_hex, valid_request_id, format_request_id,
  is_hex_digit, parse_uint, digit_value,
}
use paraflow.Protocol.Hex.RoundTrip.{parse-marshal_iff, request_ids_distinct}
use paraflow.Protocol.Message.{
  ResponseEnvelope, completed, max_frame_bytes, job_result_schema, valid_workload_name,
}
use paraflow.Protocol.Result.{
  histogram_loop, validate_fields, require_fields, validate_result, is_nan, is_negative_infinity,
}
use paraflow.Protocol.Result.Sound.{validate_result-IsConsistent, IsConsistent, IsDecoded}
use paraflow.Protocol.Response.{decode_response, dispatch, decode_completed, decode_result}
use paraflow.Protocol.Response.Sound.{decode_response-Answers, Answers}
use paraflow.Protocol.Fixture.{sample_workload, sample_wire, sample_result, sample_codec, first_id}

validated : validate_result sample_wire sample_workload ≡ ok sample_result
unfolding validate_result require_fields validate_fields histogram_loop is_nan is_negative_infinity
    unmarshal_hex bytes_eq valid_workload_name valid_string rune_count is_blank is_hex_digit
    parse_uint digit_value
validated = refl

validate_result-IsConsistent_example :
    IsConsistent sample_workload sample_result × IsDecoded sample_wire sample_result
validate_result-IsConsistent_example =
    validate_result-IsConsistent sample_wire sample_workload sample_result validated

decoded :
    decode_response sample_codec (codes "done") first_id (some sample_workload)
    ≡ ok (completed sample_result)
unfolding decode_response dispatch decode_completed decode_result validate_result require_fields
    validate_fields histogram_loop is_nan is_negative_infinity unmarshal_hex bytes_eq
    valid_workload_name valid_string rune_count is_blank is_hex_digit parse_uint digit_value
decoded = refl

decode_response-Answers_example :
    (env : ResponseEnvelope) × (sample_codec.decode_envelope (codes "done") ≡ some env)
    × (4 ≤ max_frame_bytes)
    × (env.schema_version ≡ job_result_schema)
    × (env.request_id ≡ first_id)
    × Answers env (some sample_workload) (completed sample_result)
decode_response-Answers_example =
    decode_response-Answers sample_codec (codes "done") first_id (some sample_workload)
      (completed sample_result) decoded

parse-marshal_iff_example :
    ((parse_canonical_hex (codes "0x00000000000000ff") ≡ ok 255)
      ↔ (IsU64 255 × (codes "0x00000000000000ff" ≡ marshal_nanoseconds 255)))
    × (unmarshal_hex (codes "0x00000000000000ff")
        ≡ parse_canonical_hex (codes "0x00000000000000ff"))
parse-marshal_iff_example = parse-marshal_iff (codes "0x00000000000000ff") 255

request_ids_distinct_example :
    (valid_request_id (format_request_id 1) ≡ true)
    × (format_request_id 1 ≡ format_request_id 2 → ◌≡◌ {A = ℕ} 1 2)
request_ids_distinct_example = request_ids_distinct 1 2 (omega arith) (omega arith)
