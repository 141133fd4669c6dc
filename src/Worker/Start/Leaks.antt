-- ===== src/Worker/Start/Leaks.antt =====
-- `Start` of labctl-go/internal/worker/session.go: what it leaves open or running.
use paraflow.Prelude.{
  ◌≡◌, inl, inr, refl, Bool, true, false, not, Bool-cases, if◌then◌else◌, [], ◌∷◌,
}
use paraflow.Prelude.Text.{Bytes, is_empty}
use paraflow.Prelude.Outcome.{Outcome, ok, err}
use paraflow.Worker.Session.{Session, start}
use paraflow.Worker.Start.{
  Held, Launch, StartError, start_session, release_children, close_files, with_input, with_output,
  with_diagnostics, nothing_held, child_input, child_output, child_diagnostics,
}

-- No end of a pipe is open, and a process that was launched was killed and waited for.
pub record IsReleased (held : Held) : Type 0 where
  pub inputs : (held.child_input_open ≡ false) × (held.parent_input_open ≡ false)
  pub outputs : (held.child_output_open ≡ false) × (held.parent_output_open ≡ false)
  pub diagnostics : (held.child_diagnostics_open ≡ false) × (held.parent_diagnostics_open ≡ false)
  pub process : (held.killed ≡ held.launched) × (held.waited ≡ held.launched)

-- The process runs, with the parent's ends of its pipes open and no other.
pub record IsConnected (held : Held) : Type 0 where
  pub inputs : (held.child_input_open ≡ false) × (held.parent_input_open ≡ true)
  pub outputs : (held.child_output_open ≡ false) × (held.parent_output_open ≡ true)
  pub diagnostics : (held.child_diagnostics_open ≡ false) × (held.parent_diagnostics_open ≡ true)
  pub process : (held.launched ≡ true) × (held.killed ≡ false) × (held.waited ≡ false)

pub data IsTidy : Held × Outcome StartError Session → Type 0 where
  refused : {held : Held} {e : StartError} → IsReleased held → IsTidy (held, err e)
  running : {held : Held} → IsConnected held → IsTidy (held, ok start)

release_children-IsTidy :
    (launch : Launch) (b : Bool)
    → IsTidy (
        release_children launch (
          (close_files launch.close_fails
              (child_input ∷ child_output ∷ child_diagnostics ∷ [])
              (record (with_diagnostics (with_output (with_input nothing_held))) {
                launched = true;
              })).0,
          b,
        ))
unfolding close_files
release_children-IsTidy launch true = refused (record {
  inputs = (refl, refl);
  outputs = (refl, refl);
  diagnostics = (refl, refl);
  process = (refl, refl);
})
release_children-IsTidy launch false = elim (Bool-cases launch.done_after) [
  | inl e ↦ rw e (
      refused (record {
        inputs = (refl, refl);
        outputs = (refl, refl);
        diagnostics = (refl, refl);
        process = (refl, refl);
      }))
  | inr e ↦ rw e (
      running (record {
        inputs = (refl, refl);
        outputs = (refl, refl);
        diagnostics = (refl, refl);
        process = (refl, refl, refl);
      }))
]

if-IsTidy :
    (b : Bool) {x y : Held × Outcome StartError Session}
    → IsTidy x
    → IsTidy y
    → IsTidy (if b then x else y)
if-IsTidy true h k = h
if-IsTidy false h k = k

all-IsReleased : {held : Held} → held ≡ nothing_held → IsReleased held
all-IsReleased e = rw e (record {
  inputs = (refl, refl);
  outputs = (refl, refl);
  diagnostics = (refl, refl);
  process = (refl, refl);
})

-- `Start` leaks nothing, whichever of its steps fails: with an error, every pipe it opened is closed and
-- a process it launched was killed and waited for. Without one, the session is open with its first
-- request id, the process runs, and the parent's ends of the three pipes alone are open.
pub start_session-IsTidy :
    (launch : Launch) (engine_path : Bytes) → IsTidy (start_session launch engine_path)
unfolding start_session close_files
start_session-IsTidy launch engine_path =
    if-IsTidy launch.done_before (refused (all-IsReleased refl)) (
      if-IsTidy (is_empty engine_path) (refused (all-IsReleased refl)) (
        if-IsTidy (not launch.input_pipe) (refused (all-IsReleased refl)) (
          if-IsTidy (not launch.output_pipe) (refused (all-IsReleased refl)) (
            if-IsTidy (not launch.diagnostics_pipe) (refused (all-IsReleased refl)) (
              if-IsTidy (not launch.starts) (refused (all-IsReleased refl))
                (release_children-IsTidy launch _))))))
