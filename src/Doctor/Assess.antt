-- ===== src/Doctor/Assess.antt =====
-- `assess`, `commandProbe` and `Check` of labctl-go/internal/doctor/doctor.go. What the operating
-- system does is a parameter.
pub mod Usable
pub mod Ready
use paraflow.Prelude.{
  ℕ, Bool, true, false, not, ◌&&◌, ◌||◌, Option, none, some, List, [], ◌∷◌, ◌++◌, if◌then◌else◌,
}
use paraflow.Prelude.Text.{Bytes, codes, is_empty}
use paraflow.Prelude.Utf8.{is_blank}
use paraflow.Prelude.Strings.{contains}
use paraflow.Prelude.Outcome.{Outcome, ok, err, panic}
use paraflow.BuildInfo.{Info}
use paraflow.Doctor.{Tool, ToolResult, EnvironmentReport}
use paraflow.Doctor.Tools.{tools}
use paraflow.Doctor.Version.{
  NumericVersion, parse_numeric_version, less_than, version_text, version_line,
}

abbrev pub identified : Tool → ToolResult → ToolResult
identified tool result = record result {
  name = tool.name;
  required = tool.required;
  minimum_version = tool.minimum;
  introduced = tool.introduced;
  purpose = tool.purpose;
  usable = false;
}

abbrev pub blamed : ToolResult → Bytes → ToolResult
blamed result problem = record result { problem = problem }

abbrev pub concluded : ToolResult → Bytes → ToolResult
concluded result [] = record result { usable = true }
concluded result (c ∷ s) = blamed result (c ∷ s)

-- How a version command ended: the text of its error, where it failed.
pub data Ended : Type 0 where
  succeeded deadline_exceeded was_canceled : Ended
  failed_with : Bytes → Ended

-- `exec.LookPath`, its error or the path, and a run of the version command: its output and its end.
-- `timeout` is the time limit as `%s` prints it.
pub record System : Type 0 where
  pub look_path : Bytes → Outcome Bytes Bytes
  pub run_version : Bytes → List Bytes → Bytes × Ended
  pub timeout : Bytes

-- The result of the version command.
abbrev pub ended_result : Bytes → Bytes → Ended → ToolResult → ToolResult
ended_result timeout line succeeded r = record r { version = line }
ended_result timeout line deadline_exceeded r =
    blamed r (codes "version probe timed out after " ++ timeout)
ended_result timeout line was_canceled r = blamed r (codes "version probe canceled")
ended_result timeout line (failed_with why) r = blamed r (
    codes "version command failed: " ++ (why ++ (if is_empty line then [] else codes ": " ++ line)))

abbrev pub blank_result : Tool → ToolResult
blank_result tool = record {
  name = tool.name;
  required = tool.required;
  minimum_version = tool.minimum;
  introduced = tool.introduced;
  purpose = tool.purpose;
  found = false;
  usable = false;
  path = [];
  version = [];
  problem = [];
}

-- What `Check` reads off the host.
pub record Host : Type 0 where
  pub captured_at : Bytes
  pub os : Bytes
  pub kernel_version : Bytes
  pub architecture : Bytes
  pub cpu_model : Bytes
  pub physical_cores : ℕ
  pub logical_cpus : ℕ
  pub go_max_procs : ℕ
  pub go_version : Bytes

module _ (quote : Bytes → Bytes) where
  -- The tests of the minimum version; the empty text is no problem.
  unfoldable pub version_problem : Bytes → Bytes → Bytes
  version_problem minimum version =
      if is_empty minimum then [] else elim (parse_numeric_version quote version) [
        | panic ↦ []
        | err why ↦ codes "cannot parse tool version: " ++ why
        | ok actual ↦ elim (parse_numeric_version quote minimum) [
          | panic ↦ []
          | err why ↦ codes "invalid minimum version " ++ (quote minimum ++ (codes ": " ++ why))
          | ok least ↦
              if less_than actual least
              then codes "requires >= "
                ++ (version_text least ++ (codes "; found " ++ version_text actual))
              else []
        ]
      ]

  -- The problem that `assess` finds with a version that was read.
  unfoldable pub found_problem : Tool → Bytes → Bytes
  unfolding version_problem
  found_problem tool version =
      if is_blank version
      then codes "version command returned no output"
      else if not (is_empty tool.version_contains) && not (contains version tool.version_contains)
      then codes "version output must contain "
        ++ (quote tool.version_contains ++ (codes "; found " ++ quote version))
      else version_problem tool.minimum version

  -- `assess`.
  unfoldable pub assess : Tool → ToolResult → ToolResult
  assess tool result =
      if not result.found || not (is_empty result.problem)
      then identified tool result
      else concluded (identified tool result) (found_problem tool result.version)

  -- `commandProbe`.
  unfoldable pub command_probe : System → Tool → ToolResult
  command_probe system tool = elim (system.look_path tool.command) [
    | err why ↦ assess tool (blamed (blank_result tool) why)
    | panic ↦ blank_result tool
    | ok path ↦
        let (output, ended) = system.run_version path tool.version_args in
        assess tool (
          ended_result system.timeout (version_line output) ended
            (record (blank_result tool) { found = true; path = path }))
  ]

  -- The loop of `Check`: the results, and whether every required tool is usable.
  unfoldable pub check_loop : (Tool → ToolResult) → Bool → List Tool → List ToolResult × Bool
  check_loop probe ready [] = ([], ready)
  check_loop probe ready (tool ∷ rest) =
      let result = assess tool (probe tool) in
      let (results, all_ready) =
        check_loop probe (if tool.required && not result.usable then false else ready) rest in
      (result ∷ results, all_ready)

  -- `Check`.
  unfoldable pub check : Host → (Tool → ToolResult) → Info → EnvironmentReport
  unfolding check_loop
  check host probe source =
      let (results, ready) = check_loop probe true tools in
      record {
        schema_version = codes "paraflow.environment/v3";
        milestone = codes "day-07";
        captured_at = host.captured_at;
        os = host.os;
        kernel_version = host.kernel_version;
        architecture = host.architecture;
        cpu_model = host.cpu_model;
        physical_cores = host.physical_cores;
        logical_cpus = host.logical_cpus;
        go_max_procs = host.go_max_procs;
        go_version = host.go_version;
        source = source;
        ready = ready;
        tools = results;
      }
