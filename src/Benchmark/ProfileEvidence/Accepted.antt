-- ===== src/Benchmark/ProfileEvidence/Accepted.antt =====
-- A report that `ExecuteProfile` returned, in the eyes of `verifyProfileReport` of
-- labctl-go/internal/benchmark/verify.go.
use paraflow.Prelude.{
  ◌+◌, ◌<◌, ◌≡◌, refl, sym, subst, true, false, none, some, [], ◌==◌, ==_iff, arith, length, All,
  Each-length,
}
use paraflow.Prelude.Text.{Bytes, bytes_eq}
use paraflow.Prelude.Utf8.{is_blank}
use paraflow.Prelude.Outcome.{ok}
use paraflow.Protocol.Hex.{valid_sha256}
use paraflow.Benchmark.Types.{EngineBuild}
use paraflow.Benchmark.Suite.Valid.{validate_suite_iff}
use paraflow.Benchmark.Evidence.{Files, identity_path}
use paraflow.Benchmark.Evidence.Execute.{Options}
use paraflow.Benchmark.Evidence.Verify.{Receipt, require_stable_engine_build}
use paraflow.Benchmark.Evidence.Turn.{IsPlain, IsChecked}
use paraflow.Benchmark.Evidence.Accepted.{IsHost, IsPlaced, common_again, read_suite_again}
use paraflow.Benchmark.ProfileEvidence.{ScalarProfileReport}
use paraflow.Benchmark.ProfileEvidence.Execute.{ProfileRun, reported, execute_profile}
use paraflow.Benchmark.ProfileEvidence.Verify.{verify_profile_report}
use paraflow.Benchmark.ProfileEvidence.Executed.{execute_profile-ExecutedProfile}
use paraflow.Benchmark.ProfileEvidence.Turn.{IsProfileChecked, report_samples, verify_profiles-Each}

-- The receipt of a report that `verifyProfileReport` accepts.
abbrev pub report_receipt : ScalarProfileReport → Receipt
report_receipt report = record {
  suite_name = report.suite.name;
  experiment_count = length report.experiments;
  retained_sample_count = report_samples report.experiments;
  repository_identities_verified = 1 + length report.experiments;
}

-- `verifyProfileReport` accepts every report that `ExecuteProfile` returns, derives its summaries
-- and analyses again, and counts its experiments and samples. The conditions: verification runs at
-- the absolute form of the options' repository root; SHA-256 digests are 64 lowercase hexadecimal
-- digits; the repository's readable files read the same through their links, which stay inside; the
-- suite stands in the repository under the recorded path, a valid one that leads to the same
-- content; the host's identity is complete, the clock not zero and the engine's recorded path not
-- blank; the runners keep the promises of `RunEngine` and `RunProfileEngine`; and all baselines
-- come from one engine build, of the controller's version.
pub verify_profile_report-execute_profile :
    (files : Files) (options : Options) (run : ProfileRun) (root : Bytes) (build : EngineBuild)
    (report : ScalarProfileReport)
    → files.absolute options.repository_root ≡ some root
    → IsPlain files root
    → IsPlaced files root options.suite_path
    → IsHost files run.host
    → IsChecked files.codec run.baseline_runner
    → IsProfileChecked files.codec run.profile_runner
    → ((content : Bytes) → valid_sha256 (files.hash_bytes content) ≡ true)
    → ((hash : Bytes) → run.engine_before ≡ some hash → valid_sha256 hash ≡ true)
    → is_blank (identity_path files root options.engine_path) ≡ false
    → 0 < run.started_at
    → build.version ≡ options.build.version
    → All (λ e. e.baseline.engine_result.engine_build ≡ build) report.experiments
    → execute_profile files options run ≡ ok report
    → verify_profile_report files root report ≡ ok (report_receipt report)
unfolding verify_profile_report bytes_eq reported require_stable_engine_build
verify_profile_report-execute_profile files options run root build report at plain placed host
      checked profile_checked digests engine path started version builds h =
    let x = execute_profile-ExecutedProfile files options run root report at h in
    let made =
      reported files options run root x.suite_bytes x.suite x.engine_hash report.experiments in
    let few = ((validate_suite_iff x.suite).0 x.valid).few_scenarios in
    let counted : (length report.experiments == length x.suite.scenarios) ≡ true =
      (==_iff _ _).1 (Each-length x.experiments) in
    let loop =
      verify_profiles-Each files run root options.build build plain checked profile_checked version
        0 [] none x.suite.scenarios report.experiments x.experiments (omega arith) tt refl builds in
    let accepted : verify_profile_report files root made ≡ ok (report_receipt made) = rw (
      common_again files root options.suite_path x.suite_bytes options.engine_path x.engine_hash
          x.suite options.build run.quote run.host run.probe run.started_at run.completed_at host
          placed digests path (engine x.engine_hash x.engine) started x.ordered x.controller
          x.ready,
      read_suite_again files root options.suite_path x.suite_bytes x.suite plain placed x.read
          x.decoded x.valid,
      counted,
      loop,
    ) in
    subst (λ r. verify_profile_report files root r ≡ ok (report_receipt r)) (sym x.whole) accepted
