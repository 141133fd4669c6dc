-- ===== src/Doctor/Tools.antt =====
-- The table of tools of labctl-go/internal/doctor/doctor.go.
use paraflow.Prelude.{true, false, List, [], ◌∷◌}
use paraflow.Prelude.Text.{codes}
use paraflow.Doctor.{Tool}

tool_git : Tool
tool_git = record {
  name = codes "git";
  command = codes "git";
  version_args = codes "--version" ∷ [];
  required = true;
  minimum = [];
  version_contains = [];
  introduced = codes "day-01";
  purpose = codes "source history and reproducibility identity";
}

tool_go : Tool
tool_go = record {
  name = codes "go";
  command = codes "go";
  version_args = codes "version" ∷ [];
  required = true;
  minimum = codes "1.24.0";
  version_contains = [];
  introduced = codes "day-01";
  purpose = codes "experiment control plane";
}

tool_rustc : Tool
tool_rustc = record {
  name = codes "rustc";
  command = codes "rustc";
  version_args = codes "--version" ∷ [];
  required = true;
  minimum = codes "1.97.1";
  version_contains = [];
  introduced = codes "day-01";
  purpose = codes "execution engine compiler";
}

tool_cargo : Tool
tool_cargo = record {
  name = codes "cargo";
  command = codes "cargo";
  version_args = codes "--version" ∷ [];
  required = true;
  minimum = codes "1.97.1";
  version_contains = [];
  introduced = codes "day-01";
  purpose = codes "Rust build and test orchestration";
}

tool_cc : Tool
tool_cc = record {
  name = codes "cc";
  command = codes "cc";
  version_args = codes "--version" ∷ [];
  required = true;
  minimum = [];
  version_contains = [];
  introduced = codes "day-01";
  purpose = codes "C toolchain required by Go race-detector tests";
}

tool_node : Tool
tool_node = record {
  name = codes "node";
  command = codes "node";
  version_args = codes "--version" ∷ [];
  required = true;
  minimum = codes "20.0.0";
  version_contains = [];
  introduced = codes "day-01";
  purpose = codes "Draft 2020-12 contract validation";
}

tool_npm : Tool
tool_npm = record {
  name = codes "npm";
  command = codes "npm";
  version_args = codes "--version" ∷ [];
  required = true;
  minimum = [];
  version_contains = [];
  introduced = codes "day-01";
  purpose = codes "reproducible schema-validator installation";
}

tool_rustfmt : Tool
tool_rustfmt = record {
  name = codes "rustfmt";
  command = codes "rustfmt";
  version_args = codes "--version" ∷ [];
  required = true;
  minimum = [];
  version_contains = [];
  introduced = codes "day-01";
  purpose = codes "Rust formatting gate";
}

tool_clippy : Tool
tool_clippy = record {
  name = codes "clippy";
  command = codes "cargo";
  version_args = codes "clippy" ∷ codes "--version" ∷ [];
  required = true;
  minimum = [];
  version_contains = [];
  introduced = codes "day-01";
  purpose = codes "Rust lint gate";
}

tool_bash : Tool
tool_bash = record {
  name = codes "bash";
  command = codes "bash";
  version_args = codes "--version" ∷ [];
  required = true;
  minimum = codes "4.0.0";
  version_contains = [];
  introduced = codes "day-01";
  purpose = codes "repository scripts and workload discovery";
}

tool_make : Tool
tool_make = record {
  name = codes "make";
  command = codes "make";
  version_args = codes "--version" ∷ [];
  required = true;
  minimum = [];
  version_contains = codes "GNU Make";
  introduced = codes "day-01";
  purpose = codes "repository quality-gate orchestration";
}

tool_cxx : Tool
tool_cxx = record {
  name = codes "c++";
  command = codes "c++";
  version_args = codes "--version" ∷ [];
  required = false;
  minimum = [];
  version_contains = [];
  introduced = codes "week-02";
  purpose = codes "native scalar, SIMD, and CUDA host kernels";
}

tool_ispc : Tool
tool_ispc = record {
  name = codes "ispc";
  command = codes "ispc";
  version_args = codes "--version" ∷ [];
  required = false;
  minimum = [];
  version_contains = [];
  introduced = codes "week-02";
  purpose = codes "SPMD-to-SIMD kernels";
}

tool_nvcc : Tool
tool_nvcc = record {
  name = codes "nvcc";
  command = codes "nvcc";
  version_args = codes "--version" ∷ [];
  required = false;
  minimum = [];
  version_contains = [];
  introduced = codes "week-09";
  purpose = codes "CUDA backend";
}

unfoldable pub tools : List Tool
unfolding tool_git tool_go tool_rustc tool_cargo tool_cc tool_node tool_npm tool_rustfmt tool_clippy
    tool_bash tool_make tool_cxx tool_ispc tool_nvcc
tools =
    tool_git ∷ tool_go ∷ tool_rustc ∷ tool_cargo ∷ tool_cc ∷ tool_node ∷ tool_npm ∷ tool_rustfmt
    ∷ tool_clippy ∷ tool_bash ∷ tool_make ∷ tool_cxx ∷ tool_ispc ∷ tool_nvcc ∷ []
