-- ===== src/Worker/Start.antt =====
-- `Start` of labctl-go/internal/worker/session.go with the files and the process that it holds. What the
-- operating system and the context do is an argument. Closing a file releases it whether or not an
-- error is reported. The copy of the diagnostics closes its end of the pipe once the process is gone.
pub mod Leaks
mod Examples
use paraflow.Worker.Session.{start as opened}
use paraflow.Prelude.{
  ◌≡◌, Bool, true, false, not, ◌&&◌, ◌||◌, Option, some, List, [], ◌∷◌, ◌++◌, if◌then◌else◌,
}
use paraflow.Prelude.Text.{Bytes, is_empty}
use paraflow.Prelude.Outcome.{Outcome, ok, err}
use paraflow.Worker.Session.{Session, SessionError, context_done, mark_poisoned, kill_and_reap}

pub data File : Type 0 where
  child_input parent_input parent_output child_output parent_diagnostics child_diagnostics : File

-- The ends of the three pipes that are open, and what became of the process.
pub record Held : Type 0 where
  pub child_input_open : Bool
  pub parent_input_open : Bool
  pub parent_output_open : Bool
  pub child_output_open : Bool
  pub parent_diagnostics_open : Bool
  pub child_diagnostics_open : Bool
  pub launched : Bool
  pub killed : Bool
  pub waited : Bool

abbrev pub nothing_held : Held
nothing_held = record {
  child_input_open = false;
  parent_input_open = false;
  parent_output_open = false;
  child_output_open = false;
  parent_diagnostics_open = false;
  child_diagnostics_open = false;
  launched = false;
  killed = false;
  waited = false;
}

pub record Launch : Type 0 where
  pub done_before : Bool
  pub input_pipe : Bool
  pub output_pipe : Bool
  pub diagnostics_pipe : Bool
  pub starts : Bool
  pub close_fails : File → Bool
  pub done_after : Bool

pub data StartError : Type 0 where
  start_cancelled empty_path no_input_pipe no_output_pipe no_diagnostics_pipe : StartError
  not_started handles_not_released : StartError

abbrev pub close_file : File → Held → Held
close_file child_input held = record held { child_input_open = false }
close_file parent_input held = record held { parent_input_open = false }
close_file parent_output held = record held { parent_output_open = false }
close_file child_output held = record held { child_output_open = false }
close_file parent_diagnostics held = record held { parent_diagnostics_open = false }
close_file child_diagnostics held = record held { child_diagnostics_open = false }

-- `closeFiles`: every file is closed, and the result says whether one of them failed.
unfoldable pub close_files : (File → Bool) → List File → Held → Held × Bool
close_files fails [] held = (held, false)
close_files fails (file ∷ files) held =
    let (rest, failed) = close_files fails files (close_file file held) in
    (rest, fails file || failed)

abbrev pub with_input : Held → Held
with_input held = record held { child_input_open = true; parent_input_open = true }

abbrev pub with_output : Held → Held
with_output held = record held { parent_output_open = true; child_output_open = true }

abbrev pub with_diagnostics : Held → Held
with_diagnostics held = record held {
  parent_diagnostics_open = true;
  child_diagnostics_open = true;
}

-- `killAndReap` on what is held: the pipes of the session are closed and the process is gone.
abbrev pub reap_held : Held → Held
reap_held held = record held {
  parent_input_open = false;
  killed = true;
  waited = true;
  parent_output_open = false;
  parent_diagnostics_open = false;
}

-- Behind `command.Start()`.
abbrev pub release_children : Launch → Held × Bool → Held × Outcome StartError Session
release_children launch (held, true) = (
  record (close_files launch.close_fails (parent_input ∷ parent_output ∷ parent_diagnostics ∷ [])
      (record held { killed = true })).0 { waited = true },
  err handles_not_released,
)
release_children launch (held, false) =
    if launch.done_after then (reap_held held, err start_cancelled) else (held, ok opened)

-- `Start`.
unfoldable pub start_session : Launch → Bytes → Held × Outcome StartError Session
unfolding close_files
start_session launch engine_path =
    if launch.done_before
    then (nothing_held, err start_cancelled)
    else if is_empty engine_path
    then (nothing_held, err empty_path)
    else if not launch.input_pipe
    then (nothing_held, err no_input_pipe)
    else if not launch.output_pipe
    then (
      (close_files launch.close_fails (child_input ∷ parent_input ∷ [])
          (with_input nothing_held)).0,
      err no_output_pipe,
    )
    else if not launch.diagnostics_pipe
    then (
      (close_files launch.close_fails
          (child_input ∷ parent_input ∷ parent_output ∷ child_output ∷ [])
          (with_output (with_input nothing_held))).0,
      err no_diagnostics_pipe,
    )
    else if not launch.starts
    then (
      (close_files launch.close_fails
          (child_input ∷ parent_input ∷ parent_output ∷ child_output ∷ parent_diagnostics
            ∷ child_diagnostics ∷ [])
          (with_diagnostics (with_output (with_input nothing_held)))).0,
      err not_started,
    )
    else release_children launch (
        close_files launch.close_fails (child_input ∷ child_output ∷ child_diagnostics ∷ [])
          (record (with_diagnostics (with_output (with_input nothing_held))) { launched = true }))
