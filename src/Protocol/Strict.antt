-- ===== src/Protocol/Strict.antt =====
-- The codec of the protocol over `jsoncheck.Decode`: each message is decoded strictly, and the workload
-- of a request with unknown fields allowed.
mod Examples
use paraflow.Prelude.{◌≡◌, Bool, true, false, not, Option, none, some, List, arith}
use paraflow.Prelude.Text.{Bytes}
use paraflow.Prelude.Utf8.{valid_string}
use paraflow.Prelude.Outcome.{Outcome, ok, err, panic, bind-ok, refuse-ok}
use paraflow.JsonCheck.{
  Token, Ending, JsonError, bad_utf8, ValueDecoder, decoded_value, decode, Trailing, nothing_left,
  reject_duplicate_object_keys, another_value, malformed,
}
use paraflow.JsonCheck.Accepts.{OneValue, reject_duplicate_object_keys_iff}
use paraflow.Protocol.Message.{
  WorkloadProjection, Response, ResponseEnvelope, WireResult, WireRemoteError, WireRemoteIssue,
}
use paraflow.Protocol.Response.{
  Codec, WireWorkload, ExecuteRequest, ShutdownRequest, decode_response,
}
use paraflow.Protocol.Response.Sound.{decode_response-Answers, Answers}

-- encoding/json at the types of the protocol.
pub record JsonLibrary : Type 0 where
  pub lex : Bytes → List Token × Ending
  pub envelope : ValueDecoder ResponseEnvelope
  pub execution : ValueDecoder Bytes
  pub wire_result : ValueDecoder WireResult
  pub wire_error : ValueDecoder WireRemoteError
  pub issues : ValueDecoder (List WireRemoteIssue)
  pub workload : ValueDecoder WireWorkload
  pub marshal_execute : ExecuteRequest → Option Bytes
  pub marshal_shutdown : ShutdownRequest → Option Bytes

abbrev pub to_option : {A : Type 0} → Outcome JsonError A → Option A
to_option (ok a) = some a
to_option (err e) = none
to_option panic = none

unfoldable pub strict_codec : JsonLibrary → Codec
strict_codec library = record {
  decode_envelope = λ raw. to_option (decode library.lex library.envelope raw true);
  decode_execution = λ raw. to_option (decode library.lex library.execution raw true);
  decode_wire_result = λ raw. to_option (decode library.lex library.wire_result raw true);
  decode_remote_error = λ raw. to_option (decode library.lex library.wire_error raw true);
  decode_issues = λ raw. to_option (decode library.lex library.issues raw true);
  decode_workload = λ raw. to_option (decode library.lex library.workload raw false);
  marshal_execute = library.marshal_execute;
  marshal_shutdown = library.marshal_shutdown;
}

-- What strict decoding leaves of a text that it accepts.
abbrev pub IsStrict :
    {A : Type 0} → (Bytes → List Token × Ending) → ValueDecoder A → Bytes → Bool → A → Type 0
IsStrict lex value_of source strict value =
    (valid_string source ≡ true)
    × OneValue (lex source).1 (lex source).0
    × (value_of strict source ≡ some (value, nothing_left))

decoded_value-ok :
    {A : Type 0} (m : Option (A × Trailing)) (value : A)
    → decoded_value m ≡ ok value
    → m ≡ some (value, nothing_left)
decoded_value-ok none value e = cc
decoded_value-ok (some (v, nothing_left)) value e = cc
decoded_value-ok (some (v, another_value)) value e = cc
decoded_value-ok (some (v, malformed)) value e = cc

to_option-some :
    {A : Type 0} (m : Outcome JsonError A) (value : A) → to_option m ≡ some value → m ≡ ok value
to_option-some (ok a) value e = cc
to_option-some (err x) value e = cc
to_option-some panic value e = cc

pub decode-IsStrict :
    {A : Type 0} (lex : Bytes → List Token × Ending) (value_of : ValueDecoder A) (source : Bytes)
    (strict : Bool) (value : A)
    → to_option (decode lex value_of source strict) ≡ some value
    → IsStrict lex value_of source strict value
unfolding decode
decode-IsStrict lex value_of source strict value h =
    refuse-ok (not (valid_string source)) bad_utf8 _ (to_option-some _ value h) (λ valid e₁.
      bind-ok (reject_duplicate_object_keys (lex source).1 (lex source).0) _ e₁ (λ u accepted e₂. (
        ground arith,
        (reject_duplicate_object_keys_iff (lex source).1 (lex source).0).1.0 accepted,
        decoded_value-ok (value_of strict source) value e₂,
      )))

-- Over strict decoding, a response that `DecodeResponse` accepts is valid UTF-8 and one JSON value with
-- nothing behind it in which no object repeats a key; it decodes with no unknown field to the envelope
-- that answers the request.
pub decode_response-IsStrict :
    (library : JsonLibrary) (frame id : Bytes) (expected : Option WorkloadProjection) (r : Response)
    → decode_response (strict_codec library) frame id expected ≡ ok r
    → (env : ResponseEnvelope) × IsStrict library.lex library.envelope frame true env
      × (env.request_id ≡ id)
      × Answers env expected r
unfolding strict_codec
decode_response-IsStrict library frame id expected r h =
    let (env, given, _, _, same_id, answers) =
      decode_response-Answers (strict_codec library) frame id expected r h in
    (env, decode-IsStrict library.lex library.envelope frame true env given, same_id, answers)
