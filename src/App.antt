-- ===== src/App.antt =====
-- labctl-go/internal/app/app.go: the exit codes and what the commands write.
-- A writer that fails may have written the first bytes of what it was handed.
pub mod Options
pub mod VerifyOptions
pub mod Dependencies
pub mod Workload
pub mod Reports
pub mod Run
mod Examples
use paraflow.Prelude.{ℕ, Bool, List, [], ◌∷◌, ◌++◌, if◌then◌else◌, take}
use paraflow.Prelude.Text.{Bytes, codes}

-- A command that ended: its exit code, and what it wrote.
pub record Exit : Type 0 where
  pub code : ℕ
  pub stdout : Bytes
  pub stderr : Bytes

-- Which of the two writers fail, and how many bytes each writes before it does.
pub record Writers : Type 0 where
  pub stdout_fails : Bool
  pub stderr_fails : Bool
  pub stdout_room : ℕ
  pub stderr_room : ℕ

abbrev pub line_end : Bytes
line_end = b'\n' ∷ []

-- `write`.
unfoldable pub write : Writers → Bytes → Exit
write writers message =
    let text = message ++ line_end in
    if writers.stdout_fails
    then record { code = 1; stdout = take writers.stdout_room text; stderr = [] }
    else record { code = 0; stdout = text; stderr = [] }

-- `usageError`.
unfoldable pub usage_error : Writers → Bytes → Exit
usage_error writers message =
    let text =
      codes "error: "
      ++ (message ++ (line_end ++ (codes "run 'labctl help' for usage" ++ line_end))) in
    if writers.stderr_fails
    then record { code = 1; stdout = []; stderr = take writers.stderr_room text }
    else record { code = 2; stdout = []; stderr = text }

-- `commandError`.
unfoldable pub command_error : Writers → Bytes → Exit
command_error writers message =
    let text = codes "error: " ++ (message ++ line_end) in
    if writers.stderr_fails
    then record { code = 1; stdout = []; stderr = take writers.stderr_room text }
    else record { code = 1; stdout = []; stderr = text }
