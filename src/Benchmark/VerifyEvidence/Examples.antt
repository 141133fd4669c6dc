-- ===== src/Benchmark/VerifyEvidence/Examples.antt =====
-- The verification of a capture and of its engine, at concrete inputs.
use mathlib.Core.Option.{some-injective}
use paraflow.Prelude.{◌≡◌, refl, subst, true, false, none, some, All}
use paraflow.Prelude.Text.{Bytes, codes, bytes_eq}
use paraflow.Prelude.Utf8.{is_blank, is_space}
use paraflow.Prelude.Outcome.{ok}
use paraflow.Protocol.Hex.{valid_sha256, is_hex_digit}
use paraflow.Benchmark.Engine.Samples.{HasU64}
use paraflow.Benchmark.Receipts.{VerifyOptions, EvidenceVerification}
use paraflow.Benchmark.Evidence.{Capture, capture_schema, identity_path}
use paraflow.Benchmark.Evidence.Execute.{captured}
use paraflow.Benchmark.Evidence.Fixture.{files, digest}
use paraflow.Benchmark.Evidence.Fixture.Facts.{capture, timings, accepted}
use paraflow.Benchmark.Evidence.Accepted.{receipt}
use paraflow.Benchmark.ProfileEvidence.{ScalarProfileReport}
use paraflow.Benchmark.ProfileEvidence.Sound.{HasTimings}
use paraflow.Benchmark.VerifyEvidence.{
  EvidenceWorld, verification_schema, verify_by_schema, evidence_engine_sha, verify_engine,
  verify_evidence,
}
use paraflow.Benchmark.VerifyEvidence.Sound.{IsGenuine, verify_evidence-IsGenuine}

abbrev world : EvidenceWorld
world = record {
  files = files;
  decode_schema = λ raw. some capture_schema;
  decode_capture = λ raw. some capture;
  decode_report = λ raw. none;
  decode_engine_sha = λ raw. some digest;
  hash_file = λ path. some digest;
}

abbrev request : VerifyOptions
request = record {
  evidence_path = codes "/r/e.json";
  repository_root = codes "/r";
  engine_path = codes "/r/engine";
}

abbrev passed : EvidenceVerification
passed = record {
  schema_version = verification_schema;
  status = codes "passed";
  evidence_path = identity_path files (codes "/r") (codes "/r/e.json");
  evidence_sha256 = digest;
  evidence_schema = capture_schema;
  suite_name = codes "n";
  experiment_count = 1;
  retained_sample_count = 2;
  repository_identities_verified = 2;
  engine_artifact_verified = true;
}

captures :
    (raw : Bytes) (c : Capture)
    → world.decode_capture raw ≡ some c
    → All (λ e. All HasU64 e.engine_result.samples) c.experiments
captures raw c e =
    subst (λ c. All (λ e. All HasU64 e.engine_result.samples) c.experiments) (some-injective _ _ e)
      timings

reports :
    (raw : Bytes) (r : ScalarProfileReport)
    → world.decode_report raw ≡ some r
    → All HasTimings r.experiments
reports raw r e = absurd (cc)

by_schema :
    verify_by_schema world (codes "/r") (codes "capture") capture_schema ≡ ok (receipt capture)
unfolding verify_by_schema bytes_eq
by_schema = accepted

engine_checked : verify_engine world (codes "/r/engine") (codes "capture") ≡ ok true
unfolding verify_engine evidence_engine_sha bytes_eq valid_sha256 is_hex_digit
engine_checked = refl

evidence_read : files.read_file (codes "/r/e.json") ≡ some (codes "capture")
unfolding bytes_eq
evidence_read = refl

named : (is_blank (codes "/r/e.json") ≡ false) × (is_blank (codes "/r") ≡ false)
unfolding is_blank is_space
named = (refl, refl)

verified : verify_evidence world request ≡ ok passed
unfolding verify_evidence captured
verified = rw (named.0, named.1, evidence_read, by_schema, engine_checked) refl

verify_evidence-IsGenuine_example : IsGenuine world request passed
verify_evidence-IsGenuine_example =
    verify_evidence-IsGenuine world captures reports request passed verified
