-- ===== src/Benchmark/ProfileEvidence/Vouched.antt =====
-- A report that `verifyProfileReport` of labctl-go/internal/benchmark/verify.go accepts.
use paraflow.Prelude.{
  ◌+◌, ◌≤◌, ◌<◌, ◌≡◌, sym, ◌∙◌, true, not, none, [], ◌==◌, ==_iff, length, All, Each,
}
use paraflow.Prelude.Text.{Bytes, bytes_eq}
use paraflow.Prelude.Outcome.{ok, bind-ok, refuse-ok, ok-injective}
use paraflow.Benchmark.Suite.{Suite}
use paraflow.Benchmark.Evidence.{Files}
use paraflow.Benchmark.Evidence.Verify.{Receipt, verify_common_evidence, read_verified_suite}
use paraflow.Benchmark.Evidence.Read.{not-false}
use paraflow.Benchmark.Evidence.Sound.{Unrepeated, Stable}
use paraflow.Benchmark.Evidence.Vouched.{IsSuiteOf, read_verified_suite-IsSuiteOf, common_facts}
use paraflow.Benchmark.ProfileEvidence.{ScalarProfileReport, profile_report_schema}
use paraflow.Benchmark.ProfileEvidence.Verify.{verify_profiles, verify_profile_report}
use paraflow.Benchmark.ProfileEvidence.Accepted.{report_receipt}
use paraflow.Benchmark.ProfileEvidence.Checks.{verify_profiles-Verified}
use paraflow.Benchmark.ProfileEvidence.Sound.{
  HasTimings, VerifiedProfile, profile_ids, profile_builds,
}

-- What an accepted report records: a suite of the repository with one verified experiment for each of
-- its scenarios, in order, under ids that do not repeat and from one engine build; a ready host, whose
-- source is the controller's; and a time of completion that is not before the start.
pub record IsVouchedReport (files : Files) (root : Bytes) (report : ScalarProfileReport)
    : Type 0 where
  pub suite : Suite
  pub identity : IsSuiteOf files root report.suite suite
  pub experiments :
      Each (VerifiedProfile files root report.controller) 0 suite.scenarios report.experiments
  pub unrepeated : Unrepeated [] (profile_ids report.experiments)
  pub stable : Stable none (profile_builds report.experiments)
  pub started : 0 < report.started_at
  pub ordered : report.started_at ≤ report.completed_at
  pub source : report.environment.source ≡ report.controller
  pub ready : report.environment.ready ≡ true

-- A report that `verifyProfileReport` accepts records a valid suite, whose file in the repository has the
-- recorded digest, and for each scenario an experiment whose workload identity is recomputed from the
-- repository, whose two results answer the scenario's requests, whose statistics are those of its samples,
-- whose analysis reports these statistics exactly, and whose totals are within the orchestration times; the
-- ids are distinct, the build is one and the controller's, and the receipt counts what there is. The
-- timings are u64 values.
pub verify_profile_report-IsVouchedReport :
    (files : Files) (root : Bytes) (report : ScalarProfileReport) (r : Receipt)
    → All HasTimings report.experiments
    → verify_profile_report files root report ≡ ok r
    → IsVouchedReport files root report × (r ≡ report_receipt report)
unfolding verify_profile_report
verify_profile_report-IsVouchedReport files root report r u64 h =
    refuse-ok (not (bytes_eq report.schema_version profile_report_schema)) _ _ h (λ _ h1.
      bind-ok
        (verify_common_evidence files report.started_at report.completed_at report.suite
          report.controller report.environment report.engine_artifact)
        _ h1
        (λ _ common h2. bind-ok (read_verified_suite files root report.suite) _ h2 (λ suite read h3.
          refuse-ok (not (length report.experiments == length suite.scenarios)) _ _ h3
            (λ counted h4.
              bind-ok
                (verify_profiles files root report.controller [] none suite.scenarios
                  report.experiments)
                _ h4
                (λ retained loop last.
                  let (started, ordered, source, ready) =
                    common_facts files report.started_at report.completed_at report.suite
                      report.controller report.environment report.engine_artifact common in
                  let identity = read_verified_suite-IsSuiteOf files root report.suite suite read in
                  let (experiments, unrepeated, stable, total) =
                    verify_profiles-Verified files root report.controller 0 [] none suite.scenarios
                      report.experiments retained identity.valid.scenarios u64
                      ((==_iff _ _).0 (not-false _ counted)) loop in
                  (
                    record {
                      suite = suite;
                      identity = identity;
                      experiments = experiments;
                      unrepeated = unrepeated;
                      stable = stable;
                      started = started;
                      ordered = ordered;
                      source = source;
                      ready = ready;
                    },
                    sym (ok-injective _ _ last) ∙ λ i. record {
                      suite_name = identity.name i;
                      experiment_count = length report.experiments;
                      retained_sample_count = sym total i;
                      repository_identities_verified = 1 + length report.experiments;
                    },
                  ))))))
