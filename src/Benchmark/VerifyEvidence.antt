-- ===== src/Benchmark/VerifyEvidence.antt =====
-- `VerifyEvidence` and `evidenceEngineSHA` of labctl-go/internal/benchmark/verify.go. `EvidenceWorld` stands
-- for the decoders of the evidence, each at its type, and for the hash of the engine's file. The decoder
-- of the schema gives the empty text where the field is missing, that of the engine likewise.
pub mod Sound
mod Examples
use paraflow.Prelude.{Bool, true, false, not, Option, none, some, [], ◌∷◌, if◌then◌else◌}
use paraflow.Prelude.Text.{Bytes, codes, bytes_eq, is_empty}
use paraflow.Prelude.Utf8.{is_blank}
use paraflow.Prelude.Outcome.{Outcome, ok, err, ◌>>=◌, ◌>>◌, refuse}
use paraflow.Protocol.Hex.{valid_sha256}
use paraflow.Benchmark.Receipts.{VerifyOptions, EvidenceVerification}
use paraflow.Benchmark.Evidence.{
  Capture, EvidenceError, missing_option, no_root, engine_unreadable, evidence_unreadable,
  evidence_undecodable, unsupported_evidence, bad_engine_digest, engine_mismatch, capture_schema,
  Files, or_else, identity_path,
}
use paraflow.Benchmark.Evidence.Verify.{Receipt, verify_capture}
use paraflow.Benchmark.ProfileEvidence.{ScalarProfileReport, profile_report_schema}
use paraflow.Benchmark.ProfileEvidence.Verify.{verify_profile_report}

pub record EvidenceWorld : Type 0 where
  pub files : Files
  pub decode_schema : Bytes → Option Bytes
  pub decode_capture : Bytes → Option Capture
  pub decode_report : Bytes → Option ScalarProfileReport
  pub decode_engine_sha : Bytes → Option Bytes
  pub hash_file : Bytes → Option Bytes

abbrev pub verification_schema : Bytes
verification_schema = codes "paraflow.evidence-verification/v1"

-- The `switch` on the schema of the evidence.
unfoldable pub verify_by_schema :
    EvidenceWorld → Bytes → Bytes → Bytes → Outcome EvidenceError Receipt
verify_by_schema world root evidence schema =
    if bytes_eq schema capture_schema
    then (do
      capture ← or_else (world.decode_capture evidence) evidence_undecodable
      verify_capture world.files root capture)
    else if bytes_eq schema profile_report_schema
    then (do
      report ← or_else (world.decode_report evidence) evidence_undecodable
      verify_profile_report world.files root report)
    else err unsupported_evidence

-- `evidenceEngineSHA`.
unfoldable pub evidence_engine_sha : EvidenceWorld → Bytes → Outcome EvidenceError Bytes
evidence_engine_sha world evidence = do
  sha ← or_else (world.decode_engine_sha evidence) evidence_undecodable
  refuse (not (valid_sha256 sha)) bad_engine_digest
  ok sha

-- The comparison with the engine's file: whether there was one.
unfoldable pub verify_engine : EvidenceWorld → Bytes → Bytes → Outcome EvidenceError Bool
unfolding evidence_engine_sha
verify_engine world [] evidence = ok false
verify_engine world (c ∷ path) evidence = do
  actual ← or_else (world.hash_file (c ∷ path)) engine_unreadable
  expected ← evidence_engine_sha world evidence
  refuse (not (bytes_eq actual expected)) engine_mismatch
  ok true

-- `VerifyEvidence`.
unfoldable pub verify_evidence :
    EvidenceWorld → VerifyOptions → Outcome EvidenceError EvidenceVerification
unfolding verify_by_schema verify_engine
verify_evidence world options = do
  refuse (is_blank options.evidence_path) missing_option
  refuse (is_blank options.repository_root) missing_option
  root ← or_else (world.files.absolute options.repository_root) no_root
  evidence ← or_else (world.files.read_file options.evidence_path) evidence_unreadable
  schema ← or_else (world.decode_schema evidence) evidence_undecodable
  receipt ← verify_by_schema world root evidence schema
  verified ← verify_engine world options.engine_path evidence
  ok (record {
    schema_version = verification_schema;
    status = codes "passed";
    evidence_path = identity_path world.files root options.evidence_path;
    evidence_sha256 = world.files.hash_bytes evidence;
    evidence_schema = schema;
    suite_name = receipt.suite_name;
    experiment_count = receipt.experiment_count;
    retained_sample_count = receipt.retained_sample_count;
    repository_identities_verified = receipt.repository_identities_verified;
    engine_artifact_verified = verified;
  })
