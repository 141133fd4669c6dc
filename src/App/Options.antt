-- ===== src/App/Options.antt =====
-- `parseBenchmarkOptions` and `parseProfileOptions` of labctl-go/internal/app/app.go, which differ in
-- the words of their messages alone. The loop takes two arguments a turn; `seen` is a list.
pub mod Accepts
use paraflow.Prelude.{
  ℕ, suc, Bool, true, false, not, ◌||◌, Option, none, some, List, [], ◌∷◌, ◌++◌, if◌then◌else◌,
  length, ◌%◌, ◌==◌,
}
use paraflow.Prelude.Text.{Bytes, codes, is_empty, bytes_eq}
use paraflow.Prelude.Outcome.{Outcome, ok, err, ◌>>=◌, ◌>>◌, refuse}

-- What the command line sets of `benchmark.Options` and of `benchmark.ProfileOptions`.
pub record CaptureOptions : Type 0 where
  pub engine_path : Bytes
  pub suite_path : Bytes
  pub output_path : Bytes
  pub repository_root : Bytes

abbrev pub default_options : CaptureOptions
default_options = record {
  engine_path = [];
  suite_path = [];
  output_path = [];
  repository_root = codes ".";
}

unfoldable pub member : Bytes → List Bytes → Bool
member key [] = false
member key (other ∷ others) = bytes_eq key other || member key others

-- The `switch` on the flag; `none` is its default.
unfoldable pub set_flag : Bytes → Bytes → CaptureOptions → Option CaptureOptions
set_flag flag value options =
    if bytes_eq flag (codes "--engine")
    then some (record options { engine_path = value })
    else if bytes_eq flag (codes "--suite")
    then some (record options { suite_path = value })
    else if bytes_eq flag (codes "--output")
    then some (record options { output_path = value })
    else if bytes_eq flag (codes "--repository-root")
    then some (record options { repository_root = value })
    else none

-- `%s` of the command, of its flag, and what is wrong.
abbrev pub flag_message : Bytes → Bytes → Bytes → Bytes
flag_message command flag problem = command ++ (codes " flag " ++ (flag ++ (codes " " ++ problem)))

-- The words of a command.
pub record Wording : Type 0 where
  pub command : Bytes
  pub usage : Bytes
  pub short_usage : Bytes

abbrev pub benchmark_wording : Wording
benchmark_wording = record {
  command = codes "benchmark";
  usage =
      codes
        "benchmark requires --engine <path> --suite <suite.json> --output <capture.json> [--repository-root <path>]";
  short_usage =
      codes "benchmark requires --engine <path> --suite <suite.json> --output <capture.json>";
}

abbrev pub profile_wording : Wording
profile_wording = record {
  command = codes "profile";
  usage =
      codes
        "profile requires --engine <path> --suite <suite.json> --output <report.json> [--repository-root <path>]";
  short_usage =
      codes "profile requires --engine <path> --suite <suite.json> --output <report.json>";
}

module _ (quote : Bytes → Bytes) (wording : Wording) where
  -- The loop. An odd argument is never reached, since the number of arguments is even.
  unfoldable pub flag_loop : CaptureOptions → List Bytes → List Bytes → Outcome Bytes CaptureOptions
  unfolding member set_flag
  flag_loop options seen [] = ok options
  flag_loop options seen (flag ∷ []) = ok options
  flag_loop options seen (flag ∷ value ∷ rest) =
      if member flag seen
      then err (flag_message wording.command flag (codes "was provided more than once"))
      else if is_empty value
      then err (flag_message wording.command flag (codes "requires a non-empty value"))
      else elim (set_flag flag value options) [
        | none ↦ err (codes "unknown " ++ (wording.command ++ (codes " flag " ++ quote flag)))
        | some options' ↦ flag_loop options' (flag ∷ seen) rest
      ]

  unfoldable pub parse_options : List Bytes → Outcome Bytes CaptureOptions
  unfolding flag_loop
  parse_options args = do
    refuse (length args == 0 || not (length args % 2 == 0)) wording.usage
    options ← flag_loop default_options [] args
    refuse
        (is_empty options.engine_path
          || (is_empty options.suite_path || is_empty options.output_path))
        wording.short_usage
    ok options

-- `parseBenchmarkOptions`.
unfoldable pub parse_benchmark_options : (Bytes → Bytes) → List Bytes → Outcome Bytes CaptureOptions
unfolding parse_options
parse_benchmark_options quote args = parse_options quote benchmark_wording args

-- `parseProfileOptions`.
unfoldable pub parse_profile_options : (Bytes → Bytes) → List Bytes → Outcome Bytes CaptureOptions
unfolding parse_options
parse_profile_options quote args = parse_options quote profile_wording args
