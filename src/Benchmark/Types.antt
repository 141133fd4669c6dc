-- ===== src/Benchmark/Types.antt =====
-- labctl-go/internal/benchmark/types.go: the records of a Day 5 capture.
-- A string is its bytes, a `Nanoseconds` its number, a `json.RawMessage` its bytes.
use paraflow.Prelude.{ℕ, Bool, List}
use paraflow.Prelude.Text.{Bytes}

abbrev pub Nanoseconds : Type 0
Nanoseconds = ℕ

pub record Execution : Type 0 where
  pub backend : Bytes

pub record Sampling : Type 0 where
  pub warmup_iterations : ℕ
  pub sample_iterations : ℕ

-- `Request` and `ProfileRequest` have the same fields.
pub record Request : Type 0 where
  pub schema_version : Bytes
  pub experiment_id : Bytes
  pub scenario_name : Bytes
  pub execution : Execution
  pub sampling : Sampling
  pub workload : Bytes

pub record Sample : Type 0 where
  pub ordinal : ℕ
  pub generation_ns : Nanoseconds
  pub pipeline_ns : Nanoseconds
  pub engine_total_ns : Nanoseconds

pub record Timing : Type 0 where
  pub clock : Bytes
  pub unit : Bytes
  pub process_start_in_samples : Bool
  pub experiment_total_ns : Nanoseconds

pub record Correctness : Type 0 where
  pub status : Bytes
  pub oracle : Bytes
  pub comparison : Bytes

pub record EngineBuild : Type 0 where
  pub version : Bytes
  pub profile : Bytes
  pub target : Bytes
  pub rustc : Bytes
  pub source_commit : Bytes
  pub source_state : Bytes

pub record EngineResult : Type 0 where
  pub schema_version : Bytes
  pub experiment_id : Bytes
  pub scenario_name : Bytes
  pub workload_name : Bytes
  pub execution : Execution
  pub sampling : Sampling
  pub timing : Timing
  pub correctness : Correctness
  pub engine_build : EngineBuild
  pub samples : List Sample
  pub result : Bytes

pub record Statistics : Type 0 where
  pub count : ℕ
  pub minimum_ns : Nanoseconds
  pub median_ns : Nanoseconds
  pub median_absolute_deviation_ns : Nanoseconds
  pub maximum_ns : Nanoseconds

pub record Summary : Type 0 where
  pub generation : Statistics
  pub pipeline : Statistics
  pub engine_total : Statistics
