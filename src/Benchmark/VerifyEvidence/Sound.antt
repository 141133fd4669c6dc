-- ===== src/Benchmark/VerifyEvidence/Sound.antt =====
-- What a receipt of `VerifyEvidence` of labctl-go/internal/benchmark/verify.go vouches for.
use paraflow.Prelude.{
  ◌≡◌, ◌⊎◌, refl, sym, ap, subst, ◌∙◌, inl, inr, Bool, true, false, not, some, [], ◌∷◌, All,
  Bool-cases, if◌then◌else◌,
}
use paraflow.Prelude.Text.{Bytes, codes, bytes_eq, bytes_eq_iff}
use paraflow.Prelude.Utf8.{is_blank}
use paraflow.Prelude.Outcome.{Outcome, ok, err, bind-ok, refuse-ok, ok-injective}
use paraflow.Protocol.Hex.{valid_sha256}
use paraflow.Benchmark.Engine.Samples.{HasU64}
use paraflow.Benchmark.Receipts.{VerifyOptions, EvidenceVerification}
use paraflow.Benchmark.Evidence.{
  Capture, EvidenceError, capture_schema, or_else, evidence_unreadable, evidence_undecodable,
  no_root, engine_unreadable,
}
use paraflow.Benchmark.Evidence.Verify.{Receipt}
use paraflow.Benchmark.Evidence.Read.{or_else-ok, not-false}
use paraflow.Benchmark.Evidence.Accepted.{receipt}
use paraflow.Benchmark.Evidence.Vouched.{IsVouched, verify_capture-IsVouched}
use paraflow.Benchmark.ProfileEvidence.{ScalarProfileReport, profile_report_schema}
use paraflow.Benchmark.ProfileEvidence.Accepted.{report_receipt}
use paraflow.Benchmark.ProfileEvidence.Sound.{HasTimings}
use paraflow.Benchmark.ProfileEvidence.Vouched.{
  IsVouchedReport, verify_profile_report-IsVouchedReport,
}
use paraflow.Benchmark.VerifyEvidence.{
  EvidenceWorld, verify_by_schema, evidence_engine_sha, verify_engine, verify_evidence,
}

-- The evidence is a capture or a report that the receipt counts.
abbrev pub IsEvidence : EvidenceWorld → Bytes → Bytes → Bytes → Receipt → Type 0
IsEvidence world root evidence schema r =
    ((capture : Capture) × (schema ≡ capture_schema)
      × (world.decode_capture evidence ≡ some capture)
      × IsVouched world.files root capture
      × (r ≡ receipt capture))
    ⊎ ((report : ScalarProfileReport) × (schema ≡ profile_report_schema)
        × (world.decode_report evidence ≡ some report)
        × IsVouchedReport world.files root report
        × (r ≡ report_receipt report))

-- No engine was named, or the evidence has the digest of the named file.
abbrev pub IsEngine : EvidenceWorld → Bytes → Bytes → Bool → Type 0
IsEngine world engine_path evidence verified =
    (engine_path ≡ []) × (verified ≡ false)
    ⊎ ((sha : Bytes) × (world.hash_file engine_path ≡ some sha)
        × (world.decode_engine_sha evidence ≡ some sha)
        × (valid_sha256 sha ≡ true)
        × (verified ≡ true))

pub record IsGenuine (world : EvidenceWorld) (options : VerifyOptions) (v : EvidenceVerification)
    : Type 0 where
  pub root : Bytes
  pub evidence : Bytes
  pub place : world.files.absolute options.repository_root ≡ some root
  pub read : world.files.read_file options.evidence_path ≡ some evidence
  pub schema : world.decode_schema evidence ≡ some v.evidence_schema
  pub passed : v.status ≡ codes "passed"
  pub digest : v.evidence_sha256 ≡ world.files.hash_bytes evidence
  pub content : IsEvidence world root evidence v.evidence_schema (record {
    suite_name = v.suite_name;
    experiment_count = v.experiment_count;
    retained_sample_count = v.retained_sample_count;
    repository_identities_verified = v.repository_identities_verified;
  })
  pub engine : IsEngine world options.engine_path evidence v.engine_artifact_verified

branch_true :
    (b : Bool) (x y : Outcome EvidenceError Receipt) {r : Receipt}
    → b ≡ true
    → (if b then x else y) ≡ ok r
    → x ≡ ok r
branch_true true x y e h = h
branch_true false x y e h = absurd (cc)

branch_false :
    (b : Bool) (x y : Outcome EvidenceError Receipt) {r : Receipt}
    → b ≡ false
    → (if b then x else y) ≡ ok r
    → y ≡ ok r
branch_false false x y e h = h
branch_false true x y e h = absurd (cc)

refused :
    {why : EvidenceError} {r : Receipt}
    → ◌≡◌ {A = Outcome EvidenceError Receipt} (err why) (ok r)
    → ⊥
refused h = absurd (cc)

module _ (world : EvidenceWorld)
    (captures : (raw : Bytes) (capture : Capture)
      → world.decode_capture raw ≡ some capture
      → All (λ e. All HasU64 e.engine_result.samples) capture.experiments)
    (reports : (raw : Bytes) (report : ScalarProfileReport)
      → world.decode_report raw ≡ some report
      → All HasTimings report.experiments) where
  verify_by_schema-IsEvidence :
      (root evidence schema : Bytes) (r : Receipt)
      → verify_by_schema world root evidence schema ≡ ok r
      → IsEvidence world root evidence schema r
  unfolding verify_by_schema
  verify_by_schema-IsEvidence root evidence schema r h =
      elim (Bool-cases (bytes_eq schema capture_schema)) [
        | inl is ↦
            bind-ok (or_else (world.decode_capture evidence) evidence_undecodable) _
              (branch_true _ _ _ is h)
              (λ capture decoded accepted.
                let e = or_else-ok _ _ decoded in
                let (vouched, same) =
                  verify_capture-IsVouched world.files root capture r (captures evidence capture e)
                    accepted in
                inl (capture, (bytes_eq_iff _ _).0 is, e, vouched, same))
        | inr not_capture ↦ elim (Bool-cases (bytes_eq schema profile_report_schema)) [
          | inl is ↦
              bind-ok (or_else (world.decode_report evidence) evidence_undecodable) _
                (branch_true _ _ _ is (branch_false _ _ _ not_capture h))
                (λ report decoded accepted.
                  let e = or_else-ok _ _ decoded in
                  let (vouched, same) =
                    verify_profile_report-IsVouchedReport world.files root report r
                      (reports evidence report e) accepted in
                  inr (report, (bytes_eq_iff _ _).0 is, e, vouched, same))
          | inr other ↦
              absurd (refused (branch_false _ _ _ other (branch_false _ _ _ not_capture h)))
        ]
      ]

  verify_engine-IsEngine :
      (engine_path evidence : Bytes) (verified : Bool)
      → verify_engine world engine_path evidence ≡ ok verified
      → IsEngine world engine_path evidence verified
  unfolding verify_engine evidence_engine_sha
  verify_engine-IsEngine [] evidence verified h = inl (refl, sym (ok-injective _ _ h))
  verify_engine-IsEngine (c ∷ path) evidence verified h =
      bind-ok (or_else (world.hash_file (c ∷ path)) engine_unreadable) _ h (λ actual hashed h1.
        bind-ok (evidence_engine_sha world evidence) _ h1 (λ expected found h2.
          refuse-ok (not (bytes_eq actual expected)) _ _ h2 (λ same last.
            bind-ok (or_else (world.decode_engine_sha evidence) evidence_undecodable) _ found
              (λ sha decoded h3. refuse-ok (not (valid_sha256 sha)) _ _ h3 (λ valid last'.
                let q = ok-injective _ _ last' in
                let p = (bytes_eq_iff actual expected).0 (not-false _ same) in
                inr (
                  sha,
                  or_else-ok _ _ hashed ∙ ap some (p ∙ sym q),
                  or_else-ok _ _ decoded,
                  not-false _ valid,
                  sym (ok-injective _ _ last),
                ))))))

  -- A receipt of `VerifyEvidence` says that it passed for the bytes that stand at the evidence path, with
  -- their digest: they decode to a capture or a profile report in which all that `verifyCapture` or
  -- `verifyProfileReport` vouches for holds and whose experiments, samples and files the receipt counts;
  -- and where an engine is named its file has the recorded digest, which is well formed. The decoded
  -- timings are u64 values.
  pub verify_evidence-IsGenuine :
      (options : VerifyOptions) (v : EvidenceVerification)
      → verify_evidence world options ≡ ok v
      → IsGenuine world options v
  unfolding verify_evidence
  verify_evidence-IsGenuine options v h = refuse-ok (is_blank options.evidence_path) _ _ h (λ _ h1.
      refuse-ok (is_blank options.repository_root) _ _ h1 (λ _ h2.
        bind-ok (or_else (world.files.absolute options.repository_root) no_root) _ h2
          (λ root place h3.
            bind-ok (or_else (world.files.read_file options.evidence_path) evidence_unreadable) _ h3
              (λ evidence read h4.
                bind-ok (or_else (world.decode_schema evidence) evidence_undecodable) _ h4
                  (λ schema decoded h5.
                    bind-ok (verify_by_schema world root evidence schema) _ h5 (λ r accepted h6.
                      bind-ok (verify_engine world options.engine_path evidence) _ h6
                        (λ verified engine last.
                          subst (IsGenuine world options) (ok-injective _ _ last) (record {
                            root = root;
                            evidence = evidence;
                            place = or_else-ok _ _ place;
                            read = or_else-ok _ _ read;
                            schema = or_else-ok _ _ decoded;
                            passed = refl;
                            digest = refl;
                            content = verify_by_schema-IsEvidence root evidence schema r accepted;
                            engine =
                                verify_engine-IsEngine options.engine_path evidence verified engine;
                          }))))))))
