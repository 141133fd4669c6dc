-- ===== src/Protocol/Strict/Examples.antt =====
-- Strict decoding of a concrete response, over a decoder that knows its texts.
use paraflow.Prelude.{◌≡◌, refl, true, none, some, [], ◌∷◌, if◌then◌else◌, Option}
use paraflow.Prelude.Text.{Bytes, codes, bytes_eq}
use paraflow.Prelude.Utf8.{valid_string, rune_count, is_blank}
use paraflow.Prelude.Outcome.{ok}
use paraflow.JsonCheck.{
  scalar, end_of_input, nothing_left, Trailing, decode, reject_duplicate_object_keys, scan_value,
  scan_members, scan_elements,
}
use paraflow.Protocol.Hex.{unmarshal_hex, is_hex_digit, parse_uint, digit_value}
use paraflow.Protocol.Message.{ResponseEnvelope, completed, valid_workload_name, backend_scalar}
use paraflow.Protocol.Result.{
  histogram_loop, validate_fields, require_fields, validate_result, is_nan, is_negative_infinity,
}
use paraflow.Protocol.Response.{decode_response, dispatch, decode_completed, decode_result}
use paraflow.Protocol.Response.Sound.{Answers}
use paraflow.Protocol.Fixture.{
  sample_workload, sample_wire, sample_result, completed_envelope, first_id,
}
use paraflow.Protocol.Strict.{JsonLibrary, IsStrict, strict_codec, decode_response-IsStrict}

abbrev when : {A : Type 0} → Bytes → A → Bytes → Option (A × Trailing)
when text value raw = if bytes_eq raw text then some (value, nothing_left) else none

abbrev library : JsonLibrary
library = record {
  lex = λ raw. (scalar ∷ [], end_of_input);
  envelope = λ strict raw. when (codes "done") completed_envelope raw;
  execution = λ strict raw. some (backend_scalar, nothing_left);
  wire_result = λ strict raw. when (codes "r") sample_wire raw;
  wire_error = λ strict raw. none;
  issues = λ strict raw. none;
  workload = λ strict raw. none;
  marshal_execute = λ request. some (codes "run");
  marshal_shutdown = λ request. some (codes "stop");
}

decoded :
    decode_response (strict_codec library) (codes "done") first_id (some sample_workload)
    ≡ ok (completed sample_result)
unfolding strict_codec decode reject_duplicate_object_keys scan_value scan_members scan_elements
    decode_response dispatch decode_completed decode_result validate_result require_fields
    validate_fields histogram_loop is_nan is_negative_infinity unmarshal_hex bytes_eq
    valid_workload_name valid_string rune_count is_blank is_hex_digit parse_uint digit_value
decoded = refl

decode_response-IsStrict_example :
    (env : ResponseEnvelope) × IsStrict library.lex library.envelope (codes "done") true env
    × (env.request_id ≡ first_id)
    × Answers env (some sample_workload) (completed sample_result)
decode_response-IsStrict_example =
    decode_response-IsStrict library (codes "done") first_id (some sample_workload)
      (completed sample_result) decoded
