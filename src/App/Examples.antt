-- ===== src/App/Examples.antt =====
-- The commands at concrete arguments, with the session of the worker behind `labctl run`.
use paraflow.Prelude.{
  some, ◌≡◌, ◌↔◌, ◌⊎◌, refl, true, false, not, ◌||◌, none, List, [], ◌∷◌, all, if◌then◌else◌,
}
use paraflow.Prelude.Text.{Bytes, codes, is_empty, bytes_eq}
use paraflow.Prelude.Outcome.{ok, err}
use paraflow.Prelude.Utf8.{valid_string, rune_count, is_blank}
use paraflow.Protocol.Fixture.{sample_codec, sample_result, sample_workload}
use paraflow.Protocol.Message.{ResultV1, WorkloadProjection, valid_workload_name}
use paraflow.Protocol.Response.{project_workload}
use paraflow.Protocol.Result.Sound.{IsConsistent}
use paraflow.App.Workload.Engine.{
  Script, worker_session, IsGone, engine_world, run_workload-IsConsistent,
}
use paraflow.App.Workload.Prints.{Completes, printed_exit, closed_session, run_workload_iff}
use paraflow.Doctor.Tools.{tools}
use paraflow.Doctor.Assess.{System, succeeded, command_probe}
use paraflow.Worker.Frame.{end_of_file}
use paraflow.Worker.Session.{Session, SessionError, Entry, Exchange, exits_clean, start}
use paraflow.App.{Writers}
use paraflow.App.Options.{CaptureOptions, parse_benchmark_options, parse_profile_options}
use paraflow.App.Options.Accepts.{Accepted, parse_options_iff}
use paraflow.Benchmark.Receipts.{VerifyOptions}
use paraflow.App.VerifyOptions.{parse_verify_options}
use paraflow.App.VerifyOptions.Sound.{IsSound, parse_verify_options-IsSound}
use paraflow.App.Dependencies.{Dependencies, WorkerSession, World, or_default}
use paraflow.App.Workload.{write_run_result, run_workload}
use paraflow.App.Workload.Closes.{IsClosed, Fails, Succeeds, run_workload-IsClosed}
use paraflow.App.Run.{run}
use paraflow.App.Run.Codes.{IsExit, run-IsExit}
use paraflow.App.Run.Ready.{run-doctor}

quoted : Bytes → Bytes
quoted s = s

abbrev arguments : List Bytes
arguments =
    codes "--suite"
    ∷ codes "s.json"
    ∷ codes "--engine"
    ∷ codes "e"
    ∷ codes "--output"
    ∷ codes "o"
    ∷ []

abbrev options : CaptureOptions
options = record {
  engine_path = codes "e";
  suite_path = codes "s.json";
  output_path = codes "o";
  repository_root = codes ".";
}

parse_options_iff_example :
    ((parse_benchmark_options quoted arguments ≡ ok options) ↔ Accepted arguments options)
    × ((parse_profile_options quoted arguments ≡ ok options) ↔ Accepted arguments options)
parse_options_iff_example = parse_options_iff quoted arguments options

abbrev evidence : VerifyOptions
evidence = record { evidence_path = codes "e.json"; repository_root = codes "."; engine_path = [] }

parse_verify_options-IsSound_example :
    ((args : List Bytes) × (parse_verify_options quoted args ≡ ok (evidence, true)))
    ↔ (IsSound evidence × (is_empty evidence.evidence_path ≡ false))
parse_verify_options-IsSound_example = parse_verify_options-IsSound quoted evidence true

-- Calls of a session that come through at once.
abbrev calm : Entry
calm = record { done_before = false; done_after = false; exited = false }

abbrev exchange : Bytes → Exchange
exchange arrived = record {
  closed_meanwhile = false;
  cancelled = false;
  written = true;
  arrived = arrived;
  ending = end_of_file;
}

error_text : SessionError → Bytes
error_text e = codes "session"

abbrev script : Script
script = record {
  execute_entry = calm;
  execute_exchange = exchange (codes "done\n");
  shutdown_entry = calm;
  shutdown_exchange = exchange (codes "bye\n");
  exit = exits_clean;
  error_text = error_text;
}

abbrev system : System
system = record {
  look_path = λ command. ok command;
  run_version = λ path args. (codes "version 2.0.1", succeeded);
  timeout = codes "5s";
}

abbrev world_over : {S : Type 0} → WorkerSession S → S → World S
world_over session started = record {
  quote = quoted;
  print_double = λ bits. codes "1";
  report_json = λ report. ok (codes "{}");
  receipt_json = λ receipt. ok (codes "{}");
  write_reason = codes "closed";
  host = record {
    captured_at = codes "2026-01-01T00:00:00Z";
    os = codes "linux";
    kernel_version = codes "6.1";
    architecture = codes "amd64";
    cpu_model = codes "unknown";
    physical_cores = 4;
    logical_cpus = 8;
    go_max_procs = 8;
    go_version = codes "go1.26";
  };
  codec = sample_codec;
  protocol_text = λ e. codes "protocol";
  session = session;
  command_probe = command_probe quoted system;
  read_file = λ path. ok (codes "{}");
  start_worker = λ path. ok started;
  execute_benchmark = λ job. err (codes "none");
  execute_profile = λ job. err (codes "none");
  verify_evidence = λ options read. err (codes "none");
}

abbrev world : World Session
world = world_over (worker_session sample_codec script) start

abbrev writers : Writers
writers = record { stdout_fails = false; stderr_fails = false; stdout_room = 0; stderr_room = 0 }

abbrev workload_arguments : List Bytes
workload_arguments = codes "--engine" ∷ codes "engine" ∷ codes "w.json" ∷ []

run_workload-IsClosed_example :
    IsClosed world writers (run_workload world writers none none workload_arguments).1
    × (Fails (run_workload world writers none none workload_arguments).0
        ⊎ ((engine : Bytes) × (workload : Bytes) × (workload_arguments
              ≡ codes "--engine" ∷ engine ∷ workload ∷ [])
            × Succeeds world writers
                (or_default none world.read_file)
                (or_default none world.start_worker)
                engine
                workload
                (run_workload world writers none none workload_arguments).0))
run_workload-IsClosed_example = run_workload-IsClosed world writers none none workload_arguments

run_workload-IsConsistent_example :
    IsGone (run_workload (engine_world world writers script) writers none none workload_arguments).1
    × (Fails
          (run_workload (engine_world world writers script) writers none none workload_arguments).0
        ⊎ ((projection : WorkloadProjection) × (result : ResultV1) × (source : Bytes)
            × (project_workload world.codec source ≡ ok projection)
            × IsConsistent projection result
            × ((run_workload
                  (engine_world world writers script)
                  writers
                  none
                  none
                  workload_arguments).0
                ≡ write_run_result world.quote world.print_double writers projection.name result)))
run_workload-IsConsistent_example =
    run_workload-IsConsistent world writers script none none workload_arguments

-- An engine that answers every request.
abbrev ready_session : WorkerSession Unit
ready_session = record {
  execute = λ workload s. (tt, ok sample_result);
  shutdown = λ s. (tt, ok tt);
  close = λ s. tt;
}

abbrev ready_world : World Unit
ready_world = world_over ready_session tt

projected : project_workload sample_codec (codes "{}") ≡ ok sample_workload
unfolding project_workload valid_workload_name valid_string rune_count is_blank bytes_eq
projected = refl

run_workload_iff_example :
    (((run_workload ready_world writers none none workload_arguments).0.code ≡ 0)
      ↔ Completes ready_world writers none none workload_arguments)
    × ((c : Completes ready_world writers none none workload_arguments)
        → ((run_workload ready_world writers none none workload_arguments).0
            ≡ printed_exit ready_world writers none none workload_arguments c)
          × ((run_workload ready_world writers none none workload_arguments).1
              ≡ some (closed_session ready_world writers none none workload_arguments c)))
run_workload_iff_example = run_workload_iff ready_world writers none none workload_arguments

-- Its condition holds here.
completes : Completes ready_world writers none none workload_arguments
completes = record {
  engine = codes "engine";
  workload = codes "w.json";
  arguments = refl;
  some_engine = λ e. cc;
  some_workload = λ e. cc;
  writable = refl;
  source = codes "{}";
  projection = sample_workload;
  session = tt;
  result = sample_result;
  read = refl;
  projected = projected;
  started = refl;
  executed = refl;
  finished = refl;
}

abbrev dependencies : Dependencies Session
dependencies = record {
  build = record {
    version = codes "dev";
    full_commit = codes "dev";
    source_state = codes "unknown";
  };
  probe = none;
  read_file = none;
  start_worker = none;
  run_benchmark = none;
  run_profile = none;
  verify_evidence = none;
}

run-IsExit_example :
    IsExit writers (run world writers dependencies (codes "run" ∷ workload_arguments)).0
run-IsExit_example = run-IsExit world writers dependencies (codes "run" ∷ workload_arguments)

run-doctor_example :
    (run world writers dependencies (codes "doctor" ∷ [])).0.code
    ≡ (if all (λ t. not t.required || (command_probe quoted system t).usable) tools then 0 else 1)
run-doctor_example = run-doctor world writers dependencies system refl refl
