-- ===== src/Benchmark/Evidence/Fixture.antt =====
-- Test data of captures: a repository with a suite and a workload, and a run of its one scenario.
pub mod Facts
use paraflow.Prelude.{false, true, none, some, [], ◌∷◌, ◌++◌, drop, length, ◌+◌, if◌then◌else◌}
use paraflow.Prelude.Text.{Bytes, codes, bytes_eq, is_empty}
use paraflow.Protocol.Response.{Codec}
use paraflow.Protocol.Fixture.{sample_codec}
use paraflow.BuildInfo.{Info}
use paraflow.Doctor.{Tool, ToolResult}
use paraflow.Doctor.Assess.{Host}
use paraflow.Benchmark.Types.{EngineResult, Summary}
use paraflow.Benchmark.Engine.{EngineWorld, run_engine}
use paraflow.Benchmark.Suite.{Scenario, Suite, suite_schema}
use paraflow.Benchmark.Fixture.{engine_result, world}
use paraflow.Benchmark.Evidence.{Experiment, Files, workload_schema}
use paraflow.Benchmark.Evidence.Execute.{Options, Run, absent}

abbrev pub scenario : Scenario
scenario = record {
  name = codes "s";
  workload = codes "in/w.json";
  execution = record { backend = codes "scalar" };
  sampling = record { warmup_iterations = 0; sample_iterations = 2 };
}

abbrev pub suite : Suite
suite = record {
  schema_version = suite_schema;
  name = codes "n";
  description = [];
  scenarios = scenario ∷ [];
}

abbrev pub digest : Bytes
digest = codes "0123456789abcdef0123456789abcdef0123456789abcdef0123456789abcdef"

abbrev pub codec : Codec
codec = record sample_codec {
  decode_workload = λ raw. some (record {
    schema_version = some workload_schema;
    name = some (codes "w");
    dataset = some (record {
      record_count = some 4;
      category_count = some 2;
      distribution = some (record { kind = some (codes "uniform") });
    });
  });
}

abbrev pub files : Files
files = record {
  codec = codec;
  decode_suite = λ raw. if bytes_eq raw (codes "suite") then some suite else none;
  read_file = λ path.
      if bytes_eq path (codes "/r/suite.json")
      then some (codes "suite")
      else if bytes_eq path (codes "/r/in/w.json")
      then some (codes "{}")
      else if bytes_eq path (codes "/r/e.json")
      then some (codes "capture")
      else none;
  hash_bytes = λ content. digest;
  absolute = λ path. some path;
  join = λ root path. root ++ b'/' ∷ path;
  relative = λ root path. some (drop (length root + 1) path);
  eval_symlinks = λ path. some path;
  is_zero_time = is_empty;
}

abbrev pub source : Info
source = record { version = codes "1"; full_commit = codes "c"; source_state = codes "clean" }

abbrev pub options : Options
options = record {
  engine_path = codes "/r/engine";
  suite_path = codes "/r/suite.json";
  output_path = codes "out.json";
  repository_root = codes "/r";
  build = source;
}

abbrev pub answer : EngineResult
answer = record engine_result { experiment_id = codes "day05:0000000000000001" }

abbrev pub engine_world : EngineWorld
engine_world = record world {
  codec = codec;
  decode_engine_result = λ raw. if bytes_eq raw (codes "out") then some answer else none;
}

abbrev pub host : Host
host = record {
  captured_at = codes "2026-01-01T00:00:00Z";
  os = codes "linux";
  kernel_version = codes "6.1";
  architecture = codes "amd64";
  cpu_model = codes "unknown";
  physical_cores = 4;
  logical_cpus = 8;
  go_max_procs = 8;
  go_version = codes "go1.26";
}

-- Every tool is there.
abbrev pub probe : Tool → ToolResult
probe tool = record {
  name = tool.name;
  required = tool.required;
  minimum_version = tool.minimum;
  introduced = tool.introduced;
  purpose = tool.purpose;
  found = true;
  usable = true;
  path = tool.command;
  version = codes "GNU Make 99.9.9";
  problem = [];
}

abbrev pub run : Run
run = record {
  context_done = λ index. false;
  output = some absent;
  started_at = 5;
  completed_at = 9;
  engine_before = some digest;
  engine_after = some digest;
  quote = λ text. text;
  host = host;
  probe = probe;
  runner = λ index. run_engine engine_world (codes "/r/engine");
  persist = λ capture. true;
}

abbrev pub summary : Summary
summary = record {
  generation = record {
    count = 2;
    minimum_ns = 3;
    median_ns = 3;
    median_absolute_deviation_ns = 0;
    maximum_ns = 4;
  };
  pipeline = record {
    count = 2;
    minimum_ns = 5;
    median_ns = 5;
    median_absolute_deviation_ns = 0;
    maximum_ns = 6;
  };
  engine_total = record {
    count = 2;
    minimum_ns = 9;
    median_ns = 9;
    median_absolute_deviation_ns = 0;
    maximum_ns = 10;
  };
}

abbrev pub experiment : Experiment
experiment = record {
  scenario_name = codes "s";
  workload = record {
    path = codes "in/w.json";
    sha256 = digest;
    schema_version = workload_schema;
    name = codes "w";
    record_count = 4;
    category_count = 2;
  };
  orchestration_total_ns = 25;
  engine_result = answer;
  summary = summary;
}
