-- ===== src/Benchmark/Evidence/Fixture/Facts.antt =====
-- What holds of the test data of captures.
use paraflow.Prelude.{◌≡◌, refl, subst, ◌++◌, arith, true, false, drop, some, [], ◌∷◌, All}
use paraflow.Prelude.Text.{codes, bytes_eq, Bytes}
use paraflow.Prelude.Utf8.{rune_count, is_blank, is_space, valid_string, trimmed_runes}
use paraflow.Prelude.Strings.{has_prefix, split, contains, atoi}
use paraflow.Prelude.Outcome.{ok, refuse-ok, ok-injective}
use paraflow.Doctor.Tools.{tools}
use paraflow.Doctor.Version.{
  digits, match_numbers, match_here, find_match, less_than, parse_numeric_version, component,
}
use paraflow.Doctor.Assess.{check, check_loop, assess, found_problem, version_problem}
use paraflow.Benchmark.Suite.{
  validate_suite, valid_repository_json_path, clean, clean_components, extension, from_last_dot,
  last_component, proper_components, validate_scenario, validate_scenarios, valid_name, member,
  join,
}
use paraflow.Benchmark.Evidence.{
  outside, resolve_repository_path, resolve_verified_repository_file, identity_path, Capture,
  experiment_id, validate_source_alignment,
}
use paraflow.Benchmark.Evidence.Turn.{IsPlain}
use paraflow.Benchmark.Evidence.Fixture.{
  suite, files, digest, options, run, host, experiment, engine_world, source,
}
use paraflow.Protocol.Hex.{
  valid_sha256, is_hex_digit, format_hex, hex_digit, unmarshal_hex, parse_uint, digit_value,
}
use paraflow.Benchmark.Evidence.Accepted.{IsPlaced, IsHost, receipt, verify_capture-execute_suite}
use paraflow.Prelude.Sorting.{sort}
use mathlib.Core.Option.{some-injective}
use paraflow.Protocol.Message.{valid_workload_name}
use paraflow.Protocol.Result.{
  histogram_loop, validate_fields, require_fields, validate_result, is_nan, is_negative_infinity,
}
use paraflow.Protocol.Response.{decode_result, project_workload}
use paraflow.Benchmark.Arith.{add_uint64}
use paraflow.Benchmark.Payload.{one_shot_response_payload, new_capped_buffer, write_all}
use paraflow.Benchmark.Stats.{summarize, summarize_values, integer_median}
use paraflow.Benchmark.Engine.{
  check_correctness, check_build, valid_source_state, raw_present, sample_loop,
  validate_engine_result, run_one_shot_engine, run_engine,
}
use paraflow.Benchmark.Engine.Samples.{HasU64}
use paraflow.Benchmark.Engine.Run.{run_engine-IsChecked}
use paraflow.Benchmark.Fixture.{build}
use paraflow.Benchmark.Evidence.Execute.{
  validate_options, require_absent, read_suite, read_workload, run_scenario, scenario_loop,
  captured, closing, execute_suite,
}
use paraflow.Benchmark.Evidence.Verify.{verify_capture}

pub files-IsPlain : IsPlain files (codes "/r")
unfolding resolve_repository_path resolve_verified_repository_file
files-IsPlain repository_path path content h read =
    refuse-ok (outside (drop 3 (codes "/r/" ++ repository_path))) _ _ h (λ inside last.
      let same = ok-injective _ _ last in
      (path, rw (h, subst (λ p. outside (drop 3 p) ≡ false) same inside) refl, read))

pub suite-IsPlaced : IsPlaced files (codes "/r") (codes "/r/suite.json")
unfolding resolve_repository_path identity_path outside has_prefix valid_repository_json_path clean
    clean_components extension from_last_dot last_component proper_components split contains join
    bytes_eq rune_count
suite-IsPlaced = record { valid = refl; path = codes "/r/suite.json"; resolves = refl; same = refl }

pub host-IsHost : IsHost files host
unfolding is_blank is_space
host-IsHost = record {
  time = refl;
  os = refl;
  architecture = refl;
  go_version = refl;
  cpus = omega arith;
  procs = omega arith;
}

pub valid_digest : valid_sha256 digest ≡ true
unfolding valid_sha256 is_hex_digit
valid_digest = refl

pub engine_named : is_blank (identity_path files (codes "/r") (codes "/r/engine")) ≡ false
unfolding identity_path outside has_prefix clean clean_components join split bytes_eq is_blank
    is_space
engine_named = refl

pub host_ready : (check run.quote run.host run.probe options.build).ready ≡ true
unfolding check check_loop assess found_problem version_problem tools digits match_numbers
    match_here find_match less_than parse_numeric_version component is_blank is_space contains
    has_prefix atoi
host_ready = refl

pub suite_accepted : validate_suite suite ≡ ok tt
unfolding validate_suite validate_scenarios validate_scenario valid_name valid_repository_json_path
    clean clean_components extension from_last_dot last_component proper_components split contains
    join bytes_eq rune_count is_blank is_space member has_prefix
suite_accepted = refl

pub engine_digest : (hash : Bytes) → run.engine_before ≡ some hash → valid_sha256 hash ≡ true
engine_digest hash e = subst (λ h. valid_sha256 h ≡ true) (some-injective _ _ e) valid_digest

abbrev pub capture : Capture
capture = captured files options run (codes "/r") (codes "suite") suite digest (experiment ∷ [])

pub builds : All (λ e. e.engine_result.engine_build ≡ build) capture.experiments
unfolding captured
builds = (refl, tt)

pub timings : All (λ e. All HasU64 e.engine_result.samples) capture.experiments
unfolding captured
timings =
    (((omega arith, omega arith, omega arith), ((omega arith, omega arith, omega arith), tt)), tt)

experiments : scenario_loop files run (codes "/r") source 0 suite.scenarios ≡ ok (experiment ∷ [])
unfolding scenario_loop run_scenario read_workload resolve_repository_path outside has_prefix
    bytes_eq project_workload experiment_id format_hex hex_digit run_engine run_one_shot_engine
    one_shot_response_payload new_capped_buffer write_all validate_engine_result check_correctness
    check_build valid_source_state raw_present sample_loop add_uint64 trimmed_runes is_space
    decode_result validate_result require_fields validate_fields histogram_loop is_nan
    is_negative_infinity unmarshal_hex valid_workload_name valid_string rune_count is_blank
    is_hex_digit parse_uint digit_value validate_source_alignment summarize summarize_values
    integer_median sort
experiments = refl

pub executed : execute_suite files options run ≡ ok capture
unfolding execute_suite validate_options require_absent read_suite closing bytes_eq is_blank
    is_space valid_source_state
executed = rw (suite_accepted, host_ready, experiments) refl

pub accepted : verify_capture files (codes "/r") capture ≡ ok (receipt capture)
accepted =
    verify_capture-execute_suite files options run (codes "/r") build capture refl files-IsPlain
      suite-IsPlaced host-IsHost (λ index. run_engine-IsChecked engine_world (codes "/r/engine"))
      (λ content. valid_digest) engine_digest engine_named (omega arith) refl builds executed
