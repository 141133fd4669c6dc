-- ===== src/Doctor.antt =====
-- labctl-go/internal/doctor: which tools a host has, whether they are new enough, and the report.
-- `captured_at` is the time as `time.RFC3339` prints it.
pub mod Tools
pub mod Version
pub mod Assess
pub mod Platform
pub mod Report
mod Examples
use paraflow.Prelude.{ℕ, Bool, List}
use paraflow.Prelude.Text.{Bytes}
use paraflow.BuildInfo.{Info}

pub record Tool : Type 0 where
  pub name : Bytes
  pub command : Bytes
  pub version_args : List Bytes
  pub required : Bool
  pub minimum : Bytes
  pub version_contains : Bytes
  pub introduced : Bytes
  pub purpose : Bytes

pub record ToolResult : Type 0 where
  pub name : Bytes
  pub required : Bool
  pub minimum_version : Bytes
  pub introduced : Bytes
  pub purpose : Bytes
  pub found : Bool
  pub usable : Bool
  pub path : Bytes
  pub version : Bytes
  pub problem : Bytes

pub record EnvironmentReport : Type 0 where
  pub schema_version : Bytes
  pub milestone : Bytes
  pub captured_at : Bytes
  pub os : Bytes
  pub kernel_version : Bytes
  pub architecture : Bytes
  pub cpu_model : Bytes
  pub physical_cores : ℕ
  pub logical_cpus : ℕ
  pub go_max_procs : ℕ
  pub go_version : Bytes
  pub source : Info
  pub ready : Bool
  pub tools : List ToolResult
