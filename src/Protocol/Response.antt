-- ===== src/Protocol/Response.antt =====
-- Requests and responses of labctl-go/internal/protocol/protocol.go. `Codec` stands for the JSON
-- codec at the wire types: `jsoncheck.Decode` with unknown fields refused (`decode_workload` allows
-- them), `none` for its error, and `json.Marshal`.
pub mod Sound
use paraflow.Prelude.{
  ℕ, zero, suc, ◌+◌, Bool, true, false, not, ◌&&◌, ◌||◌, Option, none, some, List, [], ◌∷◌, ◌++◌,
  ltb, leb, ◌==◌, if◌then◌else◌, length,
}
use paraflow.Prelude.Text.{Bytes, codes, bytes_eq}
use paraflow.Prelude.Utf8.{trimmed_runes}
use paraflow.Prelude.Outcome.{Outcome, ok, err, panic, ◌>>=◌, ◌>>◌, refuse}
use paraflow.Protocol.Hex.{valid_request_id}
use paraflow.Protocol.Message.{
  WorkloadProjection, ResultV1, RemoteIssue, RemoteError, Response, completed, remote_error,
  shutdown_ack, ResponseEnvelope, WireResult, WireRemoteError, WireRemoteIssue, ProtocolError,
  bad_request_id, frame_too_large, decode_failed, wrong_schema, request_id_mismatch, unknown_kind,
  wrong_for_shutdown, wrong_for_execute, missing_workload_name, workload_name_mismatch,
  missing_execution, missing_result, unexpected_error, backend_mismatch, variant_fields,
  missing_error, unknown_code, bad_message, null_issues, empty_issues, bad_issue_code,
  bad_issue_message, missing_issue_path, missing_schema_version, missing_name, missing_dataset,
  missing_record_count, missing_category_count, max_frame_bytes, job_schema, job_result_schema,
  backend_scalar, present, valid_message, valid_issue_code,
}
use paraflow.Protocol.Result.{validate_result}

pub record WireDistribution : Type 0 where
  pub kind : Option Bytes

pub record WireDataset : Type 0 where
  pub record_count : Option ℕ
  pub category_count : Option ℕ
  pub distribution : Option WireDistribution

pub record WireWorkload : Type 0 where
  pub schema_version : Option Bytes
  pub name : Option Bytes
  pub dataset : Option WireDataset

pub record ExecuteRequest : Type 0 where
  pub schema_version : Bytes
  pub request_id : Bytes
  pub kind : Bytes
  pub backend : Bytes
  pub workload : Bytes

pub record ShutdownRequest : Type 0 where
  pub schema_version : Bytes
  pub request_id : Bytes
  pub kind : Bytes

pub record Codec : Type 0 where
  pub decode_envelope : Bytes → Option ResponseEnvelope
  pub decode_execution : Bytes → Option Bytes
  pub decode_wire_result : Bytes → Option WireResult
  pub decode_remote_error : Bytes → Option WireRemoteError
  pub decode_issues : Bytes → Option (List WireRemoteIssue)
  pub decode_workload : Bytes → Option WireWorkload
  pub marshal_execute : ExecuteRequest → Option Bytes
  pub marshal_shutdown : ShutdownRequest → Option Bytes

abbrev pub or_error : {A : Type 0} → Option A → ProtocolError → Outcome ProtocolError A
or_error none e = err e
or_error (some a) e = ok a

-- `Kind` of a response, or a text that is none.
pub data Kind : Type 0 where
  completed_kind error_kind shutdown_ack_kind other_kind : Kind

abbrev pub response_kind : Bytes → Kind
response_kind k =
    if bytes_eq k (codes "completed")
    then completed_kind
    else if bytes_eq k (codes "error")
    then error_kind
    else if bytes_eq k (codes "shutdown_ack")
    then shutdown_ack_kind
    else other_kind

abbrev is_some : {A : Type 0} → Option A → Bool
is_some none = false
is_some (some a) = true

abbrev pub known_code : Bytes → Bool
known_code code =
    bytes_eq code (codes "invalid_workload")
    || (bytes_eq code (codes "unsupported_backend") || bytes_eq code (codes "execution_failed"))

-- `bytes.Equal(bytes.TrimSpace(raw), []byte("null"))`.
abbrev is_null : Bytes → Bool
is_null raw = bytes_eq (trimmed_runes raw) (codes "null")

-- The loop over the issues of a remote error.
pub issue_loop : List WireRemoteIssue → Outcome ProtocolError (List RemoteIssue)
issue_loop [] = ok []
issue_loop (issue ∷ issues) = do
  refuse (not (valid_issue_code issue.code)) bad_issue_code
  refuse (not (valid_message issue.message)) bad_issue_message
  path ← or_error issue.path missing_issue_path
  rest ← issue_loop issues
  ok (record { code = issue.code; path = path; message = issue.message } ∷ rest)

module _ (codec : Codec) where
  -- `ProjectWorkload`.
  unfoldable pub project_workload : Bytes → Outcome ProtocolError WorkloadProjection
  project_workload raw = do
    value ← or_error (codec.decode_workload raw) decode_failed
    schema_version ← or_error value.schema_version missing_schema_version
    name ← or_error value.name missing_name
    dataset ← or_error value.dataset missing_dataset
    record_count ← or_error dataset.record_count missing_record_count
    category_count ← or_error dataset.category_count missing_category_count
    ok (record {
      schema_version = schema_version;
      name = name;
      record_count = record_count;
      category_count = category_count;
      distribution = elim dataset.distribution [
        | none ↦ []
        | some d ↦ elim d.kind [ none ↦ [] | some kind ↦ kind ]
      ];
    })

  -- `marshalFrame` on a marshalled request.
  pub marshal_frame : Option Bytes → Outcome ProtocolError Bytes
  marshal_frame marshalled = do
    payload ← or_error marshalled decode_failed
    refuse (ltb max_frame_bytes (length payload)) frame_too_large
    ok (payload ++ b'\n' ∷ [])

  -- `EncodeExecuteFrame`.
  unfoldable pub encode_execute_frame :
      Bytes → Bytes → Outcome ProtocolError (Bytes × WorkloadProjection)
  unfolding marshal_frame
  encode_execute_frame request_id workload = do
    refuse (not (valid_request_id request_id)) bad_request_id
    projection ← project_workload workload
    frame ← marshal_frame (
        codec.marshal_execute (record {
          schema_version = job_schema;
          request_id = request_id;
          kind = codes "execute";
          backend = backend_scalar;
          workload = workload;
        }))
    ok (frame, projection)

  -- `EncodeShutdownFrame`.
  unfoldable pub encode_shutdown_frame : Bytes → Outcome ProtocolError Bytes
  unfolding marshal_frame
  encode_shutdown_frame request_id = do
    refuse (not (valid_request_id request_id)) bad_request_id
    marshal_frame (
        codec.marshal_shutdown (record {
          schema_version = job_schema;
          request_id = request_id;
          kind = codes "shutdown";
        }))

  -- `DecodeResult`.
  unfoldable pub decode_result : Bytes → WorkloadProjection → Outcome ProtocolError ResultV1
  decode_result raw workload = do
    wire ← or_error (codec.decode_wire_result raw) decode_failed
    validate_result wire workload

  -- `decodeCompleted`; `none` is the `nil` of a shutdown request.
  unfoldable pub decode_completed :
      ResponseEnvelope → Option WorkloadProjection → Outcome ProtocolError Response
  decode_completed envelope none = err wrong_for_shutdown
  decode_completed envelope (some expected) = do
    name ← or_error envelope.workload_name missing_workload_name
    refuse (not (bytes_eq name expected.name)) workload_name_mismatch
    refuse (not (present envelope.execution)) missing_execution
    refuse (not (present envelope.result)) missing_result
    refuse (present envelope.error) unexpected_error
    backend ← or_error (codec.decode_execution envelope.execution) decode_failed
    refuse (not (bytes_eq backend backend_scalar)) backend_mismatch
    result ← decode_result envelope.result expected
    ok (completed result)

  -- The issues of a remote error, if the field is present.
  pub decode_issue_list : Bytes → Outcome ProtocolError (List RemoteIssue)
  unfolding issue_loop
  decode_issue_list raw = if not (present raw) then ok [] else do
    refuse (is_null raw) null_issues
    issues ← or_error (codec.decode_issues raw) decode_failed
    refuse (length issues == 0) empty_issues
    issue_loop issues

  -- `decodeRemoteError`.
  pub decode_remote : ResponseEnvelope → Outcome ProtocolError Response
  decode_remote envelope = do
    refuse
        (is_some envelope.workload_name || (present envelope.execution || present envelope.result))
        variant_fields
    refuse (not (present envelope.error)) missing_error
    wire ← or_error (codec.decode_remote_error envelope.error) decode_failed
    refuse (not (known_code wire.code)) unknown_code
    refuse (not (valid_message wire.message)) bad_message
    issues ← decode_issue_list wire.issues
    ok (remote_error (record { code = wire.code; message = wire.message; issues = issues }))

  -- `decodeShutdownAck`.
  pub decode_shutdown_ack :
      ResponseEnvelope → Option WorkloadProjection → Outcome ProtocolError Response
  decode_shutdown_ack envelope (some expected) = err wrong_for_execute
  decode_shutdown_ack envelope none = do
    refuse
        (is_some envelope.workload_name
          || (present envelope.execution || (present envelope.result || present envelope.error)))
        variant_fields
    ok shutdown_ack

  -- The `switch` of `DecodeResponse`.
  unfoldable pub dispatch :
      Kind → ResponseEnvelope → Option WorkloadProjection → Outcome ProtocolError Response
  dispatch completed_kind envelope expected = decode_completed envelope expected
  dispatch error_kind envelope none = err wrong_for_shutdown
  dispatch error_kind envelope (some expected) = decode_remote envelope
  dispatch shutdown_ack_kind envelope expected = decode_shutdown_ack envelope expected
  dispatch other_kind envelope expected = err unknown_kind

  -- `DecodeResponse`.
  unfoldable pub decode_response :
      Bytes → Bytes → Option WorkloadProjection → Outcome ProtocolError Response
  decode_response frame expected_id expected = do
    refuse (ltb max_frame_bytes (length frame)) frame_too_large
    envelope ← or_error (codec.decode_envelope frame) decode_failed
    refuse (not (bytes_eq envelope.schema_version job_result_schema)) wrong_schema
    refuse (not (bytes_eq envelope.request_id expected_id)) request_id_mismatch
    dispatch (response_kind envelope.kind) envelope expected
