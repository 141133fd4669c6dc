-- ===== src/Benchmark/Profile.antt =====
-- The stage profile of labctl-go/internal/benchmark: profile_types.go, and `validateProfileEngineResult`
-- of profile_engine.go. A profile request has the fields of a benchmark request.
pub mod Samples
pub mod Sound
pub mod Analyze
pub mod Run
use paraflow.Prelude.{
  ℕ, ◌+◌, Bool, true, false, not, ◌&&◌, ◌||◌, List, [], ◌∷◌, ltb, ◌==◌, if◌then◌else◌, length,
}
use paraflow.Prelude.Text.{Bytes, codes, bytes_eq}
use paraflow.Prelude.Outcome.{Outcome, ok, err, panic, ◌>>=◌, ◌>>◌, refuse, map_err}
use paraflow.Prelude.Words.{u32}
use paraflow.Protocol.Message.{WorkloadProjection}
use paraflow.Protocol.Response.{Codec, decode_result}
use paraflow.Benchmark.Types.{
  Nanoseconds, Execution, Sampling, Request, Correctness, EngineBuild, Statistics,
}
use paraflow.Benchmark.Arith.{ArithError, add_uint64, sum_uint64}
use paraflow.Benchmark.Engine.{
  EngineError, wrong_schema, experiment_mismatch, scenario_mismatch, workload_mismatch,
  execution_mismatch, sampling_mismatch, wrong_clock, wrong_unit, process_start, wrong_topology,
  wrong_observer, sample_count, missing_result, wrong_ordinal, timing_overflow, total_too_small,
  wrong_stage_sum, retained_overflow, experiment_too_small, bad_result, same_sampling,
  check_correctness, check_build, raw_present,
}

pub record ProfileSample : Type 0 where
  pub ordinal : ℕ
  pub generation_ns : Nanoseconds
  pub normalize_ns : Nanoseconds
  pub score_ns : Nanoseconds
  pub filter_ns : Nanoseconds
  pub aggregate_ns : Nanoseconds
  pub stage_sum_ns : Nanoseconds
  pub profile_total_ns : Nanoseconds

pub record ProfileTiming : Type 0 where
  pub clock : Bytes
  pub unit : Bytes
  pub process_start_in_samples : Bool
  pub topology : Bytes
  pub observer : Bytes
  pub experiment_total_ns : Nanoseconds

pub record ProfileEngineResult : Type 0 where
  pub schema_version : Bytes
  pub experiment_id : Bytes
  pub scenario_name : Bytes
  pub workload_name : Bytes
  pub execution : Execution
  pub sampling : Sampling
  pub timing : ProfileTiming
  pub correctness : Correctness
  pub engine_build : EngineBuild
  pub samples : List ProfileSample
  pub result : Bytes

pub record ProfileSummary : Type 0 where
  pub generation : Statistics
  pub normalize : Statistics
  pub score : Statistics
  pub filter : Statistics
  pub aggregate : Statistics
  pub stage_sum : Statistics
  pub pipeline_stages : Statistics
  pub profile_total : Statistics

pub record StageShares : Type 0 where
  pub generation : ℕ
  pub normalize : ℕ
  pub score : ℕ
  pub filter : ℕ
  pub aggregate : ℕ

pub record ScenarioProfileAnalysis : Type 0 where
  pub accepted_count : ℕ
  pub selectivity_bps : ℕ
  pub stage_median_sum_ns : Nanoseconds
  pub stage_pipeline_median_sum_ns : Nanoseconds
  pub stage_share_bps : StageShares
  pub dominant_stage : Bytes
  pub dominant_pipeline_stage : Bytes
  pub fused_per_record_milli : ℕ
  pub stage_pass_per_record_milli : ℕ
  pub stage_pass_to_fused_ratio_milli : ℕ
  pub fused_deviation_bps : ℕ
  pub profile_total_deviation_bps : ℕ

abbrev pub stages : ProfileSample → List ℕ
stages s = s.generation_ns ∷ s.normalize_ns ∷ s.score_ns ∷ s.filter_ns ∷ s.aggregate_ns ∷ []

abbrev to_overflow : ArithError → EngineError
to_overflow e = timing_overflow

-- The loop over the retained samples: the sum of the profile totals.
unfoldable pub profile_loop : ℕ → ℕ → List ProfileSample → Outcome EngineError ℕ
profile_loop index retained [] = ok retained
profile_loop index retained (sample ∷ samples) = do
  refuse (not (sample.ordinal == u32 index)) wrong_ordinal
  expected ← map_err to_overflow (sum_uint64 (stages sample))
  refuse (not (sample.stage_sum_ns == expected)) wrong_stage_sum
  refuse (ltb sample.profile_total_ns expected) total_too_small
  let total = add_uint64 retained sample.profile_total_ns
  refuse total.1 retained_overflow
  profile_loop (index + 1) total.0 samples

-- `validateProfileEngineResult`.
unfoldable pub validate_profile_engine_result :
    Codec → ProfileEngineResult → Request → WorkloadProjection → Outcome EngineError Unit
validate_profile_engine_result codec result request workload = do
  refuse (not (bytes_eq result.schema_version (codes "paraflow.profile-engine-result/v1")))
      wrong_schema
  refuse (not (bytes_eq result.experiment_id request.experiment_id)) experiment_mismatch
  refuse (not (bytes_eq result.scenario_name request.scenario_name)) scenario_mismatch
  refuse (not (bytes_eq result.workload_name workload.name)) workload_mismatch
  refuse (not (bytes_eq result.execution.backend request.execution.backend)) execution_mismatch
  refuse (not (same_sampling result.sampling request.sampling)) sampling_mismatch
  refuse (not (bytes_eq result.timing.clock (codes "std::time::Instant"))) wrong_clock
  refuse (not (bytes_eq result.timing.unit (codes "nanoseconds"))) wrong_unit
  refuse result.timing.process_start_in_samples process_start
  refuse (not (bytes_eq result.timing.topology (codes "materialized-stage-passes-v1")))
      wrong_topology
  refuse (not (bytes_eq result.timing.observer (codes "boundary-timers-v1"))) wrong_observer
  check_correctness result.correctness
  check_build result.engine_build
  refuse (not (length result.samples == request.sampling.sample_iterations)) sample_count
  refuse (not (raw_present result.result)) missing_result
  retained ← profile_loop 0 0 result.samples
  refuse (ltb result.timing.experiment_total_ns retained) experiment_too_small
  _ ← map_err bad_result (decode_result codec result.result workload)
  ok tt
