-- ===== src/Benchmark/Suite.antt =====
-- `Suite.Validate`, `Scenario.Validate`, `validName` and `validRepositoryJSONPath` of
-- labctl-go/internal/benchmark/types.go. `clean` and `extension` are Go's `path.Clean` and `path.Ext`.
pub mod Paths
pub mod Valid
use paraflow.Prelude.{
  ℕ, Bool, true, false, not, ◌&&◌, ◌||◌, Option, none, some, List, [], ◌∷◌, ◌++◌, ltb, leb, ◌==◌,
  if◌then◌else◌, length,
}
use mathlib.Core.List.{reverse}
use paraflow.Prelude.Text.{Bytes, codes, is_empty, bytes_eq}
use paraflow.Prelude.Utf8.{rune_count, is_blank}
use paraflow.Prelude.Strings.{contains, has_prefix, split}
use paraflow.Prelude.Outcome.{Outcome, ok, err, ◌>>=◌, ◌>>◌, refuse}
use paraflow.Benchmark.Types.{Execution, Sampling}

pub record Scenario : Type 0 where
  pub name : Bytes
  pub workload : Bytes
  pub execution : Execution
  pub sampling : Sampling

pub record Suite : Type 0 where
  pub schema_version : Bytes
  pub name : Bytes
  pub description : Bytes
  pub scenarios : List Scenario

pub data SuiteError : Type 0 where
  unsupported_schema bad_suite_name bad_description bad_scenario_count : SuiteError
  bad_name bad_workload_path unsupported_backend too_many_warmups : SuiteError
  bad_sample_count duplicate_name : SuiteError

abbrev pub suite_schema : Bytes
suite_schema = codes "paraflow.benchmark-suite/v1"

unfoldable pub valid_name : Bytes → Bool
valid_name value = ltb 0 (rune_count value) && (leb (rune_count value) 120 && not (is_blank value))

-- `..` among the components of a path, whose last component stands first.
abbrev pub climb : Bool → List Bytes → List Bytes
climb true [] = []
climb false [] = codes ".." ∷ []
climb rooted (d ∷ ds) = if bytes_eq d (codes "..") then codes ".." ∷ d ∷ ds else ds

abbrev pub push : Bool → Bytes → List Bytes → List Bytes
push rooted c stack =
    if is_empty c || bytes_eq c (codes ".")
    then stack
    else if bytes_eq c (codes "..")
    then climb rooted stack
    else c ∷ stack

unfoldable pub clean_components : Bool → List Bytes → List Bytes → List Bytes
clean_components rooted stack [] = reverse stack
clean_components rooted stack (c ∷ cs) = clean_components rooted (push rooted c stack) cs

unfoldable pub join : List Bytes → Bytes
join [] = []
join (c ∷ []) = c
join (c ∷ d ∷ cs) = c ++ b'/' ∷ join (d ∷ cs)

unfoldable pub clean : Bytes → Bytes
unfolding join clean_components
clean value =
    let rooted = has_prefix value (codes "/") in
    let cleaned = join (clean_components rooted [] (split b'/' value)) in
    if rooted then b'/' ∷ cleaned else if is_empty cleaned then codes "." else cleaned

-- The text from the last dot on, and nothing without one.
unfoldable pub from_last_dot : Bytes → Bytes
from_last_dot [] = []
from_last_dot (c ∷ s) =
    let rest = from_last_dot s in if is_empty rest then (if c == b'.' then c ∷ s else []) else rest

unfoldable pub last_component : List Bytes → Bytes
last_component [] = []
last_component (c ∷ []) = c
last_component (c ∷ d ∷ cs) = last_component (d ∷ cs)

unfoldable pub extension : Bytes → Bytes
unfolding from_last_dot last_component
extension value = from_last_dot (last_component (split b'/' value))

-- The loop over the components.
unfoldable pub proper_components : List Bytes → Bool
proper_components [] = true
proper_components (c ∷ cs) =
    if bytes_eq c (codes "..") || (bytes_eq c (codes ".") || is_empty c)
    then false
    else proper_components cs

unfoldable pub valid_repository_json_path : Bytes → Bool
unfolding clean extension proper_components
valid_repository_json_path value =
    if is_empty value
      || (ltb 512 (rune_count value) || (contains value (92 ∷ []) || has_prefix value (codes "/")))
    then false
    else if not (bytes_eq (clean value) value) || not (bytes_eq (extension value) (codes ".json"))
    then false
    else proper_components (split b'/' value)

-- `Scenario.Validate`.
unfoldable pub validate_scenario : Scenario → Outcome SuiteError Unit
unfolding valid_name valid_repository_json_path
validate_scenario scenario = do
  refuse (not (valid_name scenario.name)) bad_name
  refuse (not (valid_repository_json_path scenario.workload)) bad_workload_path
  refuse (not (bytes_eq scenario.execution.backend (codes "scalar"))) unsupported_backend
  refuse (ltb 1000 scenario.sampling.warmup_iterations) too_many_warmups
  refuse
      ((scenario.sampling.sample_iterations == 0) || ltb 10000 scenario.sampling.sample_iterations)
      bad_sample_count

unfoldable pub member : Bytes → List Bytes → Bool
member key [] = false
member key (other ∷ others) = bytes_eq key other || member key others

-- The loop over the scenarios; `seen` has the names before.
unfoldable pub validate_scenarios : List Bytes → List Scenario → Outcome SuiteError Unit
unfolding validate_scenario member
validate_scenarios seen [] = ok tt
validate_scenarios seen (scenario ∷ scenarios) = do
  validate_scenario scenario
  refuse (member scenario.name seen) duplicate_name
  validate_scenarios (scenario.name ∷ seen) scenarios

-- `Suite.Validate`.
unfoldable pub validate_suite : Suite → Outcome SuiteError Unit
unfolding validate_scenarios valid_name
validate_suite suite = do
  refuse (not (bytes_eq suite.schema_version suite_schema)) unsupported_schema
  refuse (not (valid_name suite.name)) bad_suite_name
  refuse
      (not (is_empty suite.description)
        && (ltb 500 (rune_count suite.description) || is_blank suite.description))
      bad_description
  refuse ((length suite.scenarios == 0) || ltb 64 (length suite.scenarios)) bad_scenario_count
  validate_scenarios [] suite.scenarios
