-- ===== src/Benchmark/Receipts.antt =====
-- The options and the receipt of a verification, of labctl-go/internal/benchmark/verify.go. The file reader
-- of the options is passed beside them.
use paraflow.Prelude.{ℕ, Bool}
use paraflow.Prelude.Text.{Bytes}

pub record VerifyOptions : Type 0 where
  pub evidence_path : Bytes
  pub repository_root : Bytes
  pub engine_path : Bytes

pub record EvidenceVerification : Type 0 where
  pub schema_version : Bytes
  pub status : Bytes
  pub evidence_path : Bytes
  pub evidence_sha256 : Bytes
  pub evidence_schema : Bytes
  pub suite_name : Bytes
  pub experiment_count : ℕ
  pub retained_sample_count : ℕ
  pub repository_identities_verified : ℕ
  pub engine_artifact_verified : Bool
