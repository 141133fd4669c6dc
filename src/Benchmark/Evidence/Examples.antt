-- ===== src/Benchmark/Evidence/Examples.antt =====
-- Suites, and a capture that is executed and verified, at concrete inputs.
use paraflow.Prelude.{◌≡◌, ◌↔◌, refl, arith, true}
use paraflow.Prelude.Text.{codes}
use paraflow.Prelude.Outcome.{ok}
use paraflow.Benchmark.Suite.{validate_suite, valid_repository_json_path}
use paraflow.Benchmark.Suite.Paths.{IsRepositoryPath, valid_repository_json_path_iff}
use paraflow.Benchmark.Suite.Valid.{IsSuite, validate_suite_iff}
use paraflow.Benchmark.Evidence.Fixture.{suite, files, options, run, engine_world}
use paraflow.Benchmark.Engine.Run.{run_engine-IsChecked}
use paraflow.Benchmark.Fixture.{build}
use paraflow.Benchmark.Evidence.Verify.{verify_capture}
use paraflow.Benchmark.Evidence.Accepted.{receipt, verify_capture-execute_suite}
use paraflow.Benchmark.Evidence.Vouched.{IsVouched, verify_capture-IsVouched}
use paraflow.Benchmark.Evidence.Fixture.Facts.{
  capture, timings, accepted, builds, executed, engine_digest, files-IsPlain, suite-IsPlaced,
  host-IsHost, valid_digest, engine_named,
}

valid_repository_json_path_iff_example :
    (valid_repository_json_path (codes "in/w.json") ≡ true) ↔ IsRepositoryPath (codes "in/w.json")
valid_repository_json_path_iff_example = valid_repository_json_path_iff (codes "in/w.json")

validate_suite_iff_example : (validate_suite suite ≡ ok tt) ↔ IsSuite suite
validate_suite_iff_example = validate_suite_iff suite

verify_capture-execute_suite_example :
    verify_capture files (codes "/r") capture ≡ ok (receipt capture)
verify_capture-execute_suite_example =
    verify_capture-execute_suite files options run (codes "/r") build capture refl files-IsPlain
      suite-IsPlaced host-IsHost (λ index. run_engine-IsChecked engine_world (codes "/r/engine"))
      (λ content. valid_digest) engine_digest engine_named (omega arith) refl builds executed

verify_capture-IsVouched_example :
    IsVouched files (codes "/r") capture × (receipt capture ≡ receipt capture)
verify_capture-IsVouched_example =
    verify_capture-IsVouched files (codes "/r") capture (receipt capture) timings accepted
