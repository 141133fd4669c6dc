-- ===== src/Benchmark/Engine.antt =====
-- The one-shot engine of labctl-go/internal/benchmark/engine.go: `RunEngine`, `runOneShotEngine` and
-- `validateEngineResult`. `EngineWorld` stands for the JSON codec at the wire types and for the process:
-- its writes to stdout, whether it failed, and the time it took.
pub mod Samples
pub mod Sound
pub mod Run
use paraflow.Prelude.{
  ℕ, ◌+◌, Bool, true, false, not, ◌&&◌, ◌||◌, Option, none, some, List, [], ◌∷◌, ltb, ◌==◌,
  if◌then◌else◌, length,
}
use paraflow.Prelude.Text.{Bytes, codes, bytes_eq}
use paraflow.Prelude.Utf8.{is_blank, trimmed_runes}
use paraflow.Prelude.Outcome.{Outcome, ok, err, panic, ◌>>=◌, ◌>>◌, refuse, map_err}
use paraflow.Prelude.Words.{u32}
use paraflow.Protocol.Message.{WorkloadProjection, ResultV1, ProtocolError, max_frame_bytes}
use paraflow.Protocol.Response.{Codec, decode_result}
use paraflow.Benchmark.Types.{
  Execution, Sampling, Request, Sample, Correctness, EngineBuild, EngineResult,
}
use paraflow.Benchmark.Arith.{add_uint64}
use paraflow.Benchmark.Payload.{
  PayloadError, one_shot_response_payload, CappedBuffer, new_capped_buffer, write_all,
}

pub data EngineError : Type 0 where
  cancelled empty_path empty_subcommand encode_failed request_too_large run_failed : EngineError
  output_overflow empty_response decode_failed orchestration_too_small : EngineError
  wrong_schema experiment_mismatch scenario_mismatch workload_mismatch : EngineError
  execution_mismatch sampling_mismatch wrong_clock wrong_unit process_start : EngineError
  wrong_topology wrong_observer not_passed wrong_oracle wrong_comparison : EngineError
  no_version not_release no_target no_rustc no_commit bad_source_state : EngineError
  sample_count missing_result : EngineError
  wrong_ordinal timing_overflow total_too_small wrong_stage_sum retained_overflow : EngineError
  experiment_too_small : EngineError
  bad_payload : PayloadError → EngineError
  bad_result : ProtocolError → EngineError

-- A `time.Duration`.
pub data ℤ : Type 0 where
  pos negsuc : ℕ → ℤ

abbrev pub duration_nanoseconds : ℤ → ℕ
duration_nanoseconds (pos n) = n
duration_nanoseconds (negsuc n) = 0

unfoldable pub valid_source_state : Bytes → Bool
valid_source_state value =
    bytes_eq value (codes "clean")
    || (bytes_eq value (codes "dirty") || bytes_eq value (codes "unknown"))

unfoldable pub raw_present : Bytes → Bool
raw_present raw =
    not (length (trimmed_runes raw) == 0) && not (bytes_eq (trimmed_runes raw) (codes "null"))

abbrev pub same_sampling : Sampling → Sampling → Bool
same_sampling a b =
    (a.warmup_iterations == b.warmup_iterations) && (a.sample_iterations == b.sample_iterations)

-- The cases of the `switch` on the correctness and on the build.
unfoldable pub check_correctness : Correctness → Outcome EngineError Unit
check_correctness c = do
  refuse (not (bytes_eq c.status (codes "passed"))) not_passed
  refuse (not (bytes_eq c.oracle (codes "rust-scalar-v1"))) wrong_oracle
  refuse (not (bytes_eq c.comparison (codes "exact"))) wrong_comparison

unfoldable pub check_build : EngineBuild → Outcome EngineError Unit
check_build build = do
  refuse (is_blank build.version) no_version
  refuse (not (bytes_eq build.profile (codes "release"))) not_release
  refuse (is_blank build.target) no_target
  refuse (is_blank build.rustc) no_rustc
  refuse (is_blank build.source_commit) no_commit
  refuse (not (valid_source_state build.source_state)) bad_source_state

-- The loop over the retained samples: the sum of the engine totals.
unfoldable pub sample_loop : ℕ → ℕ → List Sample → Outcome EngineError ℕ
sample_loop index retained [] = ok retained
sample_loop index retained (sample ∷ samples) = do
  refuse (not (sample.ordinal == u32 index)) wrong_ordinal
  let boundary = add_uint64 sample.generation_ns sample.pipeline_ns
  refuse boundary.1 timing_overflow
  refuse (ltb sample.engine_total_ns boundary.0) total_too_small
  let total = add_uint64 retained sample.engine_total_ns
  refuse total.1 retained_overflow
  sample_loop (index + 1) total.0 samples

-- `validateEngineResult`.
unfoldable pub validate_engine_result :
    Codec → EngineResult → Request → WorkloadProjection → Outcome EngineError Unit
validate_engine_result codec result request workload = do
  refuse (not (bytes_eq result.schema_version (codes "paraflow.benchmark-engine-result/v1")))
      wrong_schema
  refuse (not (bytes_eq result.experiment_id request.experiment_id)) experiment_mismatch
  refuse (not (bytes_eq result.scenario_name request.scenario_name)) scenario_mismatch
  refuse (not (bytes_eq result.workload_name workload.name)) workload_mismatch
  refuse (not (bytes_eq result.execution.backend request.execution.backend)) execution_mismatch
  refuse (not (same_sampling result.sampling request.sampling)) sampling_mismatch
  refuse (not (bytes_eq result.timing.clock (codes "std::time::Instant"))) wrong_clock
  refuse (not (bytes_eq result.timing.unit (codes "nanoseconds"))) wrong_unit
  refuse result.timing.process_start_in_samples process_start
  check_correctness result.correctness
  check_build result.engine_build
  refuse (not (length result.samples == request.sampling.sample_iterations)) sample_count
  refuse (not (raw_present result.result)) missing_result
  retained ← sample_loop 0 0 result.samples
  refuse (ltb result.timing.experiment_total_ns retained) experiment_too_small
  _ ← map_err bad_result (decode_result codec result.result workload)
  ok tt

-- How a process ended, and its writes to stdout.
pub record Finished : Type 0 where
  pub failed : Bool
  pub cancelled_meanwhile : Bool
  pub stdout : List Bytes

pub record EngineWorld : Type 0 where
  pub codec : Codec
  pub marshal_request : Request → Option Bytes
  pub decode_engine_result : Bytes → Option EngineResult
  pub process : Bytes → Finished
  pub cancelled_before : Bool
  pub elapsed : ℤ

-- `runOneShotEngine` once the request is marshalled.
unfoldable pub run_one_shot_engine :
    EngineWorld → Bytes → Bytes → Option Bytes → Outcome EngineError Bytes
run_one_shot_engine world engine_path subcommand marshalled = do
  refuse world.cancelled_before cancelled
  refuse (is_blank engine_path) empty_path
  refuse (is_blank subcommand) empty_subcommand
  payload ← (elim marshalled [ none ↦ err encode_failed | some bytes ↦ ok bytes ])
  refuse (ltb max_frame_bytes (length payload)) request_too_large
  let finished = world.process payload
  refuse (finished.failed && finished.cancelled_meanwhile) cancelled
  refuse finished.failed run_failed
  let stdout = write_all (new_capped_buffer (max_frame_bytes + 3)) finished.stdout
  refuse stdout.overflowed output_overflow
  response ← map_err bad_payload (one_shot_response_payload stdout.contents)
  refuse (is_blank response) empty_response
  ok response

-- `RunEngine`.
unfoldable pub run_engine :
    EngineWorld → Bytes → Request → WorkloadProjection → Outcome EngineError (EngineResult × ℕ)
run_engine world engine_path request workload = do
  response ←
      run_one_shot_engine world engine_path (codes "benchmark") (world.marshal_request request)
  result ← (elim (world.decode_engine_result response) [
    | none ↦ err decode_failed
    | some value ↦ ok value
  ])
  validate_engine_result world.codec result request workload
  let orchestration = duration_nanoseconds world.elapsed
  refuse (ltb orchestration result.timing.experiment_total_ns) orchestration_too_small
  ok (result, orchestration)
