-- ===== src/Benchmark/Evidence/Accepted.antt =====
-- A capture that `Execute` returned, in the eyes of `verifyCapture` of
-- labctl-go/internal/benchmark/verify.go.
use paraflow.Prelude.{
  ℕ, not, ◌||◌, ltb, ◌+◌, ◌≤◌, ◌<◌, ◌≡◌, refl, sym, subst, ◌∙◌, true, false, none, some, [], ◌==◌,
  ==_iff, arith, length, All, Each-length,
}
use paraflow.Prelude.Text.{Bytes, bytes_eq, bytes_eq_refl}
use paraflow.Prelude.Utf8.{is_blank}
use paraflow.Prelude.Outcome.{ok}
use paraflow.Protocol.Hex.{valid_sha256}
use paraflow.BuildInfo.{Info}
use paraflow.Doctor.Assess.{Host, check}
use paraflow.Doctor.Assess.Ready.{length-check}
use paraflow.Benchmark.Types.{EngineBuild}
use paraflow.Benchmark.Suite.{valid_repository_json_path}
use paraflow.Doctor.{Tool, ToolResult}
use paraflow.Benchmark.Engine.{valid_source_state}
use paraflow.Benchmark.Suite.{Suite, validate_suite}
use paraflow.Benchmark.Suite.Valid.{validate_suite_iff}
use paraflow.Benchmark.Evidence.{
  suite_identity, engine_artifact, Capture, Files, resolve_repository_path, identity_path,
}
use paraflow.Benchmark.Evidence.Alike.{same_info_refl}
use paraflow.Benchmark.Evidence.Execute.{Options, Run, execute_suite, captured}
use paraflow.Benchmark.Evidence.Verify.{
  Receipt, check_environment, verify_common_evidence, read_verified_suite, verify_capture,
}
use paraflow.Benchmark.Evidence.Executed.{execute_suite-Executed}
use paraflow.Benchmark.Evidence.Turn.{
  IsPlain, IsChecked, retained_samples, not_below, verify_experiments-Each,
}

-- The doctor's time and the host's identity are there.
pub record IsHost (files : Files) (host : Host) : Type 0 where
  pub time : files.is_zero_time host.captured_at ≡ false
  pub os : is_blank host.os ≡ false
  pub architecture : is_blank host.architecture ≡ false
  pub go_version : is_blank host.go_version ≡ false
  pub cpus : 1 ≤ host.logical_cpus
  pub procs : 1 ≤ host.go_max_procs

check_environment-check :
    (files : Files) (quote : Bytes → Bytes) (host : Host) (probe : Tool → ToolResult)
    (source : Info)
    → IsHost files host
    → (check quote host probe source).ready ≡ true
    → check_environment files source (check quote host probe source) ≡ ok tt
unfolding check_environment check bytes_eq
check_environment-check files quote host probe source h ready = rw (
  same_info_refl source,
  ready,
  h.time,
  h.os,
  h.architecture,
  h.go_version,
  not_below 1 host.logical_cpus h.cpus,
  not_below 1 host.go_max_procs h.procs,
  length-check quote host probe source,
)

-- The suite's file stands in the repository, under the path that the capture records.
pub record IsPlaced (files : Files) (root suite_path : Bytes) : Type 0 where
  pub valid : valid_repository_json_path (identity_path files root suite_path) ≡ true
  pub path : Bytes
  pub resolves : resolve_repository_path files root (identity_path files root suite_path) ≡ ok path
  pub same : files.read_file path ≡ files.read_file suite_path

pub read_suite_again :
    (files : Files) (root suite_path suite_bytes : Bytes) (suite : Suite)
    → IsPlain files root
    → IsPlaced files root suite_path
    → files.read_file suite_path ≡ some suite_bytes
    → files.decode_suite suite_bytes ≡ some suite
    → validate_suite suite ≡ ok tt
    → read_verified_suite files root (suite_identity files root suite_path suite_bytes suite)
      ≡ ok suite
unfolding read_verified_suite
read_suite_again files root suite_path suite_bytes suite plain placed read decoded valid =
    let (resolved, e, content) =
      plain _ placed.path suite_bytes placed.resolves (placed.same ∙ read) in
    rw (
      e,
      content,
      bytes_eq_refl (files.hash_bytes suite_bytes),
      decoded,
      valid,
      bytes_eq_refl suite.schema_version,
      bytes_eq_refl suite.name,
    )

pub common_again :
    (files : Files) (root suite_path suite_bytes engine_path engine_hash : Bytes) (suite : Suite)
    (controller : Info) (quote : Bytes → Bytes) (host : Host) (probe : Tool → ToolResult)
    (started_at completed_at : ℕ)
    → IsHost files host
    → IsPlaced files root suite_path
    → ((content : Bytes) → valid_sha256 (files.hash_bytes content) ≡ true)
    → is_blank (identity_path files root engine_path) ≡ false
    → valid_sha256 engine_hash ≡ true
    → 0 < started_at
    → ltb completed_at started_at ≡ false
    → is_blank controller.version
        || (is_blank controller.full_commit || not (valid_source_state controller.source_state))
      ≡ false
    → (check quote host probe controller).ready ≡ true
    → verify_common_evidence files started_at completed_at
        (suite_identity files root suite_path suite_bytes suite)
        controller
        (check quote host probe controller)
        (engine_artifact files root engine_path engine_hash)
      ≡ ok tt
unfolding verify_common_evidence
common_again files root suite_path suite_bytes engine_path engine_hash suite controller quote host
      probe started_at completed_at identified placed digests engine digest started ordered complete
      ready =
    let begun : (started_at == 0) ≡ false = ground arith in
    let ended : (completed_at == 0) ≡ false = ground (arith, ordered) in
    rw (
      begun,
      ended,
      ordered,
      complete,
      check_environment-check files quote host probe controller identified ready,
      placed.valid,
      digests suite_bytes,
      engine,
      digest,
    )

-- The receipt of a capture that `verifyCapture` accepts.
abbrev pub receipt : Capture → Receipt
receipt capture = record {
  suite_name = capture.suite.name;
  experiment_count = length capture.experiments;
  retained_sample_count = retained_samples capture.experiments;
  repository_identities_verified = 1 + length capture.experiments;
}

-- `verifyCapture` accepts every capture that `Execute` returns, and counts its experiments and
-- samples. The conditions: verification runs at the absolute form of the options' repository root;
-- SHA-256 digests are 64 lowercase hexadecimal digits; the repository's readable files read the
-- same through their links, which stay inside; the suite stands in the repository under the
-- recorded path, a valid one that leads to the same content; the host's identity is complete, the
-- clock not zero and the engine's recorded path not blank; the runner keeps the promise of
-- `RunEngine`; and all results come from one engine build, of the controller's version.
pub verify_capture-execute_suite :
    (files : Files) (options : Options) (run : Run) (root : Bytes) (build : EngineBuild)
    (capture : Capture)
    → files.absolute options.repository_root ≡ some root
    → IsPlain files root
    → IsPlaced files root options.suite_path
    → IsHost files run.host
    → IsChecked files.codec run.runner
    → ((content : Bytes) → valid_sha256 (files.hash_bytes content) ≡ true)
    → ((hash : Bytes) → run.engine_before ≡ some hash → valid_sha256 hash ≡ true)
    → is_blank (identity_path files root options.engine_path) ≡ false
    → 0 < run.started_at
    → build.version ≡ options.build.version
    → All (λ e. e.engine_result.engine_build ≡ build) capture.experiments
    → execute_suite files options run ≡ ok capture
    → verify_capture files root capture ≡ ok (receipt capture)
unfolding verify_capture bytes_eq captured
verify_capture-execute_suite files options run root build capture at plain placed host checked
      digests engine path started version builds h =
    let x = execute_suite-Executed files options run root capture at h in
    let made =
      captured files options run root x.suite_bytes x.suite x.engine_hash capture.experiments in
    let few = ((validate_suite_iff x.suite).0 x.valid).few_scenarios in
    let counted : (length capture.experiments == length x.suite.scenarios) ≡ true =
      (==_iff _ _).1 (Each-length x.experiments) in
    let loop =
      verify_experiments-Each files run root options.build build plain checked version 0 [] none
        x.suite.scenarios capture.experiments x.experiments (omega arith) tt refl builds in
    let accepted : verify_capture files root made ≡ ok (receipt made) = rw (
      common_again files root options.suite_path x.suite_bytes options.engine_path x.engine_hash
          x.suite options.build run.quote run.host run.probe run.started_at run.completed_at host
          placed digests path (engine x.engine_hash x.engine) started x.ordered x.controller
          x.ready,
      read_suite_again files root options.suite_path x.suite_bytes x.suite plain placed x.read
          x.decoded x.valid,
      counted,
      loop,
    ) in
    subst (λ c. verify_capture files root c ≡ ok (receipt c)) (sym x.whole) accepted
