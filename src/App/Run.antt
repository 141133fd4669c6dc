-- ===== src/App/Run.antt =====
-- `Run` of labctl-go/internal/app/app.go and `main` of labctl-go/cmd/labctl/main.go.
pub mod Codes
pub mod Ready
use paraflow.Prelude.{
  Bool, true, false, ◌||◌, Option, none, some, List, [], ◌∷◌, ◌++◌, if◌then◌else◌,
}
use paraflow.Prelude.Text.{Bytes, codes, bytes_eq, is_empty}
use paraflow.BuildInfo.{Info, resolve, info_text, source_unknown}
use paraflow.App.{Exit, Writers, write, usage_error, line_end}
use paraflow.App.Dependencies.{Dependencies, World}
use paraflow.App.Workload.{run_workload}
use paraflow.App.Reports.{run_doctor, run_verify, run_benchmark, run_profile}

pub data Command : Type 0 where
  help_command version_command doctor_command benchmark_command profile_command : Command
  verify_command run_command unknown_command : Command

-- The cases of the `switch`.
unfoldable pub command_of : Bytes → Command
command_of word =
    if bytes_eq word (codes "help")
      || (bytes_eq word (codes "--help") || bytes_eq word (codes "-h"))
    then help_command
    else if bytes_eq word (codes "version") || bytes_eq word (codes "--version")
    then version_command
    else if bytes_eq word (codes "doctor")
    then doctor_command
    else if bytes_eq word (codes "benchmark")
    then benchmark_command
    else if bytes_eq word (codes "profile")
    then profile_command
    else if bytes_eq word (codes "verify")
    then verify_command
    else if bytes_eq word (codes "run")
    then run_command
    else unknown_command

-- Lines without the last line's end.
pub lines : List Bytes → Bytes
lines [] = []
lines (s ∷ []) = s
lines (s ∷ t ∷ rest) = s ++ (line_end ++ lines (t ∷ rest))

pub help : Bytes
unfolding lines
help = lines (
    codes "ParaFlow experiment controller"
    ∷ []
    ∷ codes "Usage:"
    ∷ codes "  labctl run --engine <path> <workload.json>"
    ∷ codes
        "  labctl benchmark --engine <path> --suite <suite.json> --output <capture.json> [--repository-root <path>]"
    ∷ codes
        "  labctl profile --engine <path> --suite <suite.json> --output <report.json> [--repository-root <path>]"
    ∷ codes "  labctl verify [--json] [--repository-root <path>] [--engine <path>] <evidence.json>"
    ∷ codes "  labctl doctor [--json]"
    ∷ codes "  labctl version"
    ∷ codes "  labctl help"
    ∷ []
    ∷ codes "The run command verifies one workload through the versioned Rust worker."
    ∷ codes "The benchmark command captures the fused scalar baseline. The profile command"
    ∷ codes "pairs that unchanged baseline with diagnostic materialized stage passes and"
    ∷ codes "persists raw evidence plus integer-only analysis. The verify command replays"
    ∷ codes "all deterministic evidence checks without rerunning a benchmark."
    ∷ [])

abbrev pub none_left : List Bytes → Bool
none_left [] = true
none_left (a ∷ rest) = false

module _ {S : Type 0} (world : World S) (writers : Writers) where
  -- `Run`, with the worker session that is left where one was started.
  unfoldable pub run : Dependencies S → List Bytes → Exit × Option S
  unfolding command_of help
  run d [] = (write writers help, none)
  run d (word ∷ args) = elim (command_of word) [
    | help_command ↦ (
      if none_left args
          then write writers help
          else usage_error writers (codes "help accepts no arguments"),
      none,
    )
    | version_command ↦ (
      if none_left args
          then write writers (codes "labctl " ++ info_text d.build)
          else usage_error writers (codes "version accepts no arguments"),
      none,
    )
    | doctor_command ↦ (run_doctor world writers d args, none)
    | benchmark_command ↦ (run_benchmark world writers d args, none)
    | profile_command ↦ (run_profile world writers d args, none)
    | verify_command ↦ (run_verify world writers d args, none)
    | run_command ↦ run_workload world writers d.read_file d.start_worker args
    | unknown_command ↦ (usage_error writers (codes "unknown command " ++ world.quote word), none)
  ]

  -- `main`: `linked` is what the linker set, `entries` the build metadata of the binary.
  unfoldable pub main : Option (List (Bytes × Bytes)) → Info → List Bytes → Exit × Option S
  unfolding run
  main entries linked args =
      run
        (record {
          build = resolve entries linked;
          probe = some world.command_probe;
          read_file = none;
          start_worker = none;
          run_benchmark = none;
          run_profile = none;
          verify_evidence = none;
        })
        args
