-- ===== src/Benchmark/Fixture.antt =====
-- Test data of the benchmark: one run of the engine and one stage profile of the same workload.
use paraflow.Prelude.{ℕ, false, none, some, List, [], ◌∷◌, if◌then◌else◌}
use paraflow.Prelude.Text.{codes, bytes_eq}
use paraflow.Protocol.Fixture.{sample_codec}
use paraflow.Benchmark.Types.{Request, Sample, EngineResult, EngineBuild, Statistics, Summary}
use paraflow.Benchmark.Engine.{EngineWorld, pos}
use paraflow.Benchmark.Profile.{ProfileSample, ProfileEngineResult, ProfileSummary}

abbrev pub request : Request
request = record {
  schema_version = codes "paraflow.benchmark-request/v1";
  experiment_id = codes "x";
  scenario_name = codes "s";
  execution = record { backend = codes "scalar" };
  sampling = record { warmup_iterations = 0; sample_iterations = 2 };
  workload = codes "{}";
}

abbrev pub build : EngineBuild
build = record {
  version = codes "1";
  profile = codes "release";
  target = codes "t";
  rustc = codes "r";
  source_commit = codes "c";
  source_state = codes "clean";
}

abbrev pub two_samples : List Sample
two_samples =
    record { ordinal = 0; generation_ns = 4; pipeline_ns = 5; engine_total_ns = 10 }
    ∷ record { ordinal = 1; generation_ns = 3; pipeline_ns = 6; engine_total_ns = 9 }
    ∷ []

abbrev pub engine_result : EngineResult
engine_result = record {
  schema_version = codes "paraflow.benchmark-engine-result/v1";
  experiment_id = codes "x";
  scenario_name = codes "s";
  workload_name = codes "w";
  execution = record { backend = codes "scalar" };
  sampling = record { warmup_iterations = 0; sample_iterations = 2 };
  timing = record {
    clock = codes "std::time::Instant";
    unit = codes "nanoseconds";
    process_start_in_samples = false;
    experiment_total_ns = 20;
  };
  correctness = record {
    status = codes "passed";
    oracle = codes "rust-scalar-v1";
    comparison = codes "exact";
  };
  engine_build = build;
  samples = two_samples;
  result = codes "r";
}

abbrev pub world : EngineWorld
world = record {
  codec = sample_codec;
  marshal_request = λ r. some (codes "run");
  decode_engine_result = λ raw. if bytes_eq raw (codes "out") then some engine_result else none;
  process = λ payload. record {
    failed = false;
    cancelled_meanwhile = false;
    stdout = codes "ou" ∷ codes "t\n" ∷ [];
  };
  cancelled_before = false;
  elapsed = pos 25;
}

abbrev pub two_profile_samples : List ProfileSample
two_profile_samples =
    record {
      ordinal = 0;
      generation_ns = 1;
      normalize_ns = 2;
      score_ns = 3;
      filter_ns = 4;
      aggregate_ns = 5;
      stage_sum_ns = 15;
      profile_total_ns = 16;
    }
    ∷ record {
      ordinal = 1;
      generation_ns = 1;
      normalize_ns = 1;
      score_ns = 1;
      filter_ns = 1;
      aggregate_ns = 1;
      stage_sum_ns = 5;
      profile_total_ns = 5;
    }
    ∷ []

abbrev pub stats_of : ℕ → Statistics
stats_of n = record {
  count = 2;
  minimum_ns = n;
  median_ns = n;
  median_absolute_deviation_ns = 0;
  maximum_ns = n;
}

abbrev pub baseline_summary : Summary
baseline_summary = record {
  generation = stats_of 3;
  pipeline = stats_of 5;
  engine_total = stats_of 9;
}

abbrev pub profile_summary : ProfileSummary
profile_summary = record {
  generation = stats_of 1;
  normalize = stats_of 2;
  score = stats_of 3;
  filter = stats_of 3;
  aggregate = stats_of 1;
  stage_sum = stats_of 10;
  pipeline_stages = stats_of 9;
  profile_total = stats_of 11;
}

abbrev pub profile_engine_result : ProfileEngineResult
profile_engine_result = record {
  schema_version = codes "paraflow.profile-engine-result/v1";
  experiment_id = codes "x";
  scenario_name = codes "s";
  workload_name = codes "w";
  execution = record { backend = codes "scalar" };
  sampling = record { warmup_iterations = 0; sample_iterations = 2 };
  timing = record {
    clock = codes "std::time::Instant";
    unit = codes "nanoseconds";
    process_start_in_samples = false;
    topology = codes "materialized-stage-passes-v1";
    observer = codes "boundary-timers-v1";
    experiment_total_ns = 30;
  };
  correctness = record {
    status = codes "passed";
    oracle = codes "rust-scalar-v1";
    comparison = codes "exact";
  };
  engine_build = build;
  samples = two_profile_samples;
  result = codes "r";
}
