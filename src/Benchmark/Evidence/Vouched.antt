-- ===== src/Benchmark/Evidence/Vouched.antt =====
-- A capture that `verifyCapture` of labctl-go/internal/benchmark/verify.go accepts.
use paraflow.Prelude.{
  ℕ, ◌+◌, ◌≤◌, ◌<◌, ◌≡◌, sym, subst, ◌∙◌, true, not, ◌||◌, none, some, [], ◌==◌, ==_iff, arith,
  length, All, Each,
}
use paraflow.Prelude.Text.{Bytes, bytes_eq, bytes_eq_iff}
use paraflow.Prelude.Outcome.{ok, bind-ok, refuse-ok, ok-injective, map_err, map_err-eq-ok}
use paraflow.Benchmark.Engine.Samples.{HasU64}
use paraflow.Benchmark.Suite.{Suite, validate_suite}
use paraflow.Benchmark.Suite.Valid.{IsSuite, validate_suite_iff}
use paraflow.Doctor.{EnvironmentReport}
use paraflow.BuildInfo.{Info}
use paraflow.Benchmark.Evidence.{
  Artifact, Capture, SuiteIdentity, Files, or_else, resolve_verified_repository_file,
  capture_schema, suite_unreadable, suite_undecodable, invalid_suite,
}
use paraflow.Benchmark.Evidence.Alike.{same_info-eq}
use paraflow.Benchmark.Evidence.Verify.{
  Receipt, verify_common_evidence, read_verified_suite, verify_experiments, verify_capture,
  check_environment,
}
use paraflow.Benchmark.Evidence.Read.{or_else-ok, not-false}
use paraflow.Benchmark.Evidence.Accepted.{receipt}
use paraflow.Benchmark.Evidence.Sound.{
  Verified, Unrepeated, Stable, ids_of, builds_of, verify_experiments-Verified,
}

-- The suite's file in the repository is the recorded one, and it is a valid suite of the recorded name.
pub record IsSuiteOf (files : Files) (root : Bytes) (identity : SuiteIdentity) (suite : Suite)
    : Type 0 where
  pub path : Bytes
  pub content : Bytes
  pub resolves : resolve_verified_repository_file files root identity.path ≡ ok path
  pub read : files.read_file path ≡ some content
  pub digest : files.hash_bytes content ≡ identity.sha256
  pub decoded : files.decode_suite content ≡ some suite
  pub valid : IsSuite suite
  pub name : suite.name ≡ identity.name

-- What an accepted capture records: a suite of the repository with one verified experiment for each of
-- its scenarios, in order, under ids that do not repeat and from one engine build; a ready host, whose
-- source is the controller's; and a time of completion that is not before the start.
pub record IsVouched (files : Files) (root : Bytes) (capture : Capture) : Type 0 where
  pub suite : Suite
  pub identity : IsSuiteOf files root capture.suite suite
  pub experiments :
      Each (Verified files root capture.controller) 0 suite.scenarios capture.experiments
  pub unrepeated : Unrepeated [] (ids_of capture.experiments)
  pub stable : Stable none (builds_of capture.experiments)
  pub started : 0 < capture.started_at
  pub ordered : capture.started_at ≤ capture.completed_at
  pub source : capture.environment.source ≡ capture.controller
  pub ready : capture.environment.ready ≡ true

pub read_verified_suite-IsSuiteOf :
    (files : Files) (root : Bytes) (identity : SuiteIdentity) (suite : Suite)
    → read_verified_suite files root identity ≡ ok suite
    → IsSuiteOf files root identity suite
unfolding read_verified_suite
read_verified_suite-IsSuiteOf files root identity suite h =
    bind-ok (resolve_verified_repository_file files root identity.path) _ h (λ path resolves h1.
      bind-ok (or_else (files.read_file path) suite_unreadable) _ h1 (λ content read h2.
        refuse-ok (not (bytes_eq (files.hash_bytes content) identity.sha256)) _ _ h2 (λ digest h3.
          bind-ok (or_else (files.decode_suite content) suite_undecodable) _ h3 (λ decoded e h4.
            bind-ok (map_err invalid_suite (validate_suite decoded)) _ h4 (λ _ valid h5.
              refuse-ok
                (not (bytes_eq decoded.schema_version identity.schema_version)
                  || not (bytes_eq decoded.name identity.name))
                _ _ h5
                (λ names last.
                  subst (IsSuiteOf files root identity) (ok-injective _ _ last) (record {
                    path = path;
                    content = content;
                    resolves = resolves;
                    read = or_else-ok _ _ read;
                    digest = (bytes_eq_iff _ _).0 (not-false _ digest);
                    decoded = or_else-ok _ _ e;
                    valid = (validate_suite_iff decoded).0 (map_err-eq-ok _ _ valid);
                    name = (bytes_eq_iff decoded.name identity.name).0 (ground (arith, names));
                  })))))))

pub common_facts :
    (files : Files) (started_at completed_at : ℕ) (suite : SuiteIdentity) (controller : Info)
    (environment : EnvironmentReport) (engine : Artifact)
    → verify_common_evidence files started_at completed_at suite controller environment engine
      ≡ ok tt
    → (0 < started_at)
      × (started_at ≤ completed_at)
      × (environment.source ≡ controller)
      × (environment.ready ≡ true)
unfolding verify_common_evidence check_environment
common_facts files started_at completed_at suite controller environment engine h = (
  ground arith,
  ground arith,
  same_info-eq environment.source controller (ground arith),
  ground arith,
)

-- A capture that `verifyCapture` accepts records a valid suite, whose file in the repository has the
-- recorded digest, and for each scenario an experiment whose workload identity is recomputed from the
-- repository, whose engine result answers the scenario's request, whose statistics are those of its
-- samples, and whose total is within the orchestration time; the ids are distinct, the build is one
-- and the controller's, and the receipt counts what there is. The timings are u64 values.
pub verify_capture-IsVouched :
    (files : Files) (root : Bytes) (capture : Capture) (r : Receipt)
    → All (λ e. All HasU64 e.engine_result.samples) capture.experiments
    → verify_capture files root capture ≡ ok r
    → IsVouched files root capture × (r ≡ receipt capture)
unfolding verify_capture
verify_capture-IsVouched files root capture r u64 h =
    refuse-ok (not (bytes_eq capture.schema_version capture_schema)) _ _ h (λ _ h1.
      bind-ok
        (verify_common_evidence files capture.started_at capture.completed_at capture.suite
          capture.controller capture.environment capture.engine_artifact)
        _ h1
        (λ _ common h2.
          bind-ok (read_verified_suite files root capture.suite) _ h2 (λ suite read h3.
            refuse-ok (not (length capture.experiments == length suite.scenarios)) _ _ h3
              (λ counted h4.
                bind-ok
                  (verify_experiments files root capture.controller [] none suite.scenarios
                    capture.experiments)
                  _ h4
                  (λ retained loop last.
                    let (started, ordered, source, ready) =
                      common_facts files capture.started_at capture.completed_at capture.suite
                        capture.controller capture.environment capture.engine_artifact common in
                    let identity =
                      read_verified_suite-IsSuiteOf files root capture.suite suite read in
                    let (experiments, unrepeated, stable, total) =
                      verify_experiments-Verified files root capture.controller 0 [] none
                        suite.scenarios capture.experiments retained identity.valid.scenarios u64
                        ((==_iff _ _).0 (not-false _ counted)) loop in
                    (
                      record {
                        suite = suite;
                        identity = identity;
                        experiments = experiments;
                        unrepeated = unrepeated;
                        stable = stable;
                        started = started;
                        ordered = ordered;
                        source = source;
                        ready = ready;
                      },
                      sym (ok-injective _ _ last) ∙ λ i. record {
                        suite_name = identity.name i;
                        experiment_count = length capture.experiments;
                        retained_sample_count = sym total i;
                        repository_identities_verified = 1 + length capture.experiments;
                      },
                    ))))))
