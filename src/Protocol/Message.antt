-- ===== src/Protocol/Message.antt =====
-- The texts, the wire records and the errors of labctl-go/internal/protocol/protocol.go.
-- A pointer is an `Option`, a `json.RawMessage` its bytes, empty if the field was absent.
use paraflow.Prelude.{
  ℕ, Bool, false, not, ◌&&◌, ◌||◌, Option, List, [], ◌∷◌, ltb, leb, ◌==◌, length, all,
}
use paraflow.Prelude.Text.{Bytes, codes}
use paraflow.Prelude.Utf8.{valid_string, rune_count, is_blank}

abbrev pub max_frame_bytes : ℕ
max_frame_bytes = 4194304

abbrev pub job_schema : Bytes
job_schema = codes "paraflow.job/v1"

abbrev pub job_result_schema : Bytes
job_result_schema = codes "paraflow.job-result/v1"

abbrev pub result_schema : Bytes
result_schema = codes "paraflow.result/v1"

abbrev pub backend_scalar : Bytes
backend_scalar = codes "scalar"

abbrev pub max_safe_json_integer : ℕ
max_safe_json_integer = 9007199254740991

abbrev pub max_category_count : ℕ
max_category_count = 65536

pub record WorkloadProjection : Type 0 where
  pub schema_version : Bytes
  pub name : Bytes
  pub record_count : ℕ
  pub category_count : ℕ
  pub distribution : Bytes

-- A binary64 number is its bits.
pub record ResultV1 : Type 0 where
  pub accepted_count : ℕ
  pub score_sum : ℕ
  pub category_histogram : List ℕ
  pub accepted_id_sum : ℕ
  pub accepted_id_xor : ℕ

pub record RemoteIssue : Type 0 where
  pub code : Bytes
  pub path : Bytes
  pub message : Bytes

pub record RemoteError : Type 0 where
  pub code : Bytes
  pub message : Bytes
  pub issues : List RemoteIssue

pub data Response : Type 0 where
  completed : ResultV1 → Response
  remote_error : RemoteError → Response
  shutdown_ack : Response

pub record ResponseEnvelope : Type 0 where
  pub schema_version : Bytes
  pub request_id : Bytes
  pub kind : Bytes
  pub workload_name : Option Bytes
  pub execution : Bytes
  pub result : Bytes
  pub error : Bytes

pub record WireFloat64 : Type 0 where
  pub encoding : Bytes
  pub bits : Bytes

pub record WireResult : Type 0 where
  pub schema_version : Bytes
  pub accepted_count : Option ℕ
  pub score_sum : Option WireFloat64
  pub category_histogram : Option (List ℕ)
  pub accepted_id_sum : Option ℕ
  pub accepted_id_xor : Option ℕ

pub record WireRemoteError : Type 0 where
  pub code : Bytes
  pub message : Bytes
  pub issues : Bytes

pub record WireRemoteIssue : Type 0 where
  pub code : Bytes
  pub path : Option Bytes
  pub message : Bytes

pub data ProtocolError : Type 0 where
  bad_request_id frame_too_large decode_failed wrong_schema request_id_mismatch : ProtocolError
  unknown_kind wrong_for_shutdown wrong_for_execute : ProtocolError
  missing_workload_name workload_name_mismatch missing_execution missing_result : ProtocolError
  unexpected_error backend_mismatch variant_fields missing_error unknown_code : ProtocolError
  bad_message null_issues empty_issues bad_issue_code bad_issue_message : ProtocolError
  missing_issue_path bad_projection missing_fields bad_encoding bad_score_bits : ProtocolError
  score_nan score_negative_infinity count_exceeds_records : ProtocolError
  histogram_length histogram_exceeds_records histogram_mismatch : ProtocolError
  missing_schema_version missing_name missing_dataset missing_record_count : ProtocolError
  missing_category_count : ProtocolError

-- `present`.
abbrev pub present : Bytes → Bool
present raw = not (length raw == 0)

unfoldable pub valid_workload_name : Bytes → Bool
valid_workload_name name =
    valid_string name
    && (not (rune_count name == 0 || ltb 120 (rune_count name)) && not (is_blank name))

unfoldable pub valid_message : Bytes → Bool
valid_message message =
    valid_string message && (leb 1 (rune_count message) && leb (rune_count message) 1024)

abbrev is_lower : ℕ → Bool
is_lower c = leb b'a' c && leb c b'z'

abbrev is_code_character : ℕ → Bool
is_code_character c = is_lower c || ((leb b'0' c && leb c b'9') || c == b'_')

unfoldable pub valid_issue_code : Bytes → Bool
valid_issue_code [] = false
valid_issue_code (c ∷ s) = not (ltb 64 (length (c ∷ s))) && (is_lower c && all is_code_character s)
