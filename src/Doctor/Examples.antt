-- ===== src/Doctor/Examples.antt =====
-- The doctor at a concrete tool and on a concrete host.
use paraflow.Prelude.{ℕ, ◌≡◌, ◌↔◌, arith, ◌≤◌, true, false, not, ◌||◌, [], ◌∷◌, map, all}
use paraflow.Prelude.Text.{Bytes, codes}
use paraflow.Prelude.Strings.{max_int}
use paraflow.Prelude.Outcome.{ok}
use paraflow.BuildInfo.{Info, source_clean}
use paraflow.Doctor.{Tool, ToolResult}
use paraflow.Doctor.Tools.{tools}
use paraflow.Doctor.Version.{NumericVersion, version_text, parse_numeric_version}
use paraflow.Doctor.Version.RoundTrip.{parse_numeric_version-version_text}
use paraflow.Doctor.Assess.{System, succeeded, Host, assess, command_probe, check}
use paraflow.Doctor.Assess.Usable.{IsUsable, assess_usable}
use paraflow.Doctor.Assess.Ready.{check-ready}

quoted : Bytes → Bytes
quoted s = s

abbrev compiler : Tool
compiler = record {
  name = codes "go";
  command = codes "go";
  version_args = codes "version" ∷ [];
  required = true;
  minimum = codes "1.26";
  version_contains = [];
  introduced = codes "day-01";
  purpose = codes "controller";
}

abbrev probed : ToolResult
probed = record {
  name = codes "go";
  required = true;
  minimum_version = codes "1.26";
  introduced = codes "day-01";
  purpose = codes "controller";
  found = true;
  usable = false;
  path = codes "/usr/bin/go";
  version = codes "go version go1.26.1";
  problem = [];
}

assess_usable_example :
    (assess quoted compiler (assess quoted compiler probed) ≡ assess quoted compiler probed)
    × (((assess quoted compiler probed).usable ≡ true) ↔ IsUsable quoted compiler probed)
assess_usable_example = assess_usable quoted compiler probed

abbrev system : System
system = record {
  look_path = λ command. ok command;
  run_version = λ path args. (codes "version 2.0.1", succeeded);
  timeout = codes "5s";
}

abbrev host : Host
host = record {
  captured_at = codes "2026-01-01T00:00:00Z";
  os = codes "linux";
  kernel_version = codes "6.1";
  architecture = codes "amd64";
  cpu_model = codes "unknown";
  physical_cores = 4;
  logical_cpus = 8;
  go_max_procs = 8;
  go_version = codes "go1.26";
}

abbrev source : Info
source = record { version = codes "1"; full_commit = codes "0a"; source_state = source_clean }

check-ready_example :
    ((check quoted host (command_probe quoted system) source).tools
      ≡ map (command_probe quoted system) tools)
    × ((check quoted host (command_probe quoted system) source).ready
        ≡ all (λ t. not t.required || (command_probe quoted system t).usable) tools)
check-ready_example = check-ready quoted host system source

abbrev older : NumericVersion
older = record { major = 1; minor = 25; patch = 9 }

small : (n : ℕ) → n ≤ 30 → n ≤ max_int
small n h = omega arith

parse_numeric_version-version_text_example :
    parse_numeric_version quoted (version_text older) ≡ ok older
parse_numeric_version-version_text_example =
    parse_numeric_version-version_text quoted older (small 1 (omega arith)) (small 25 (omega arith))
      (small 9 (omega arith))
