-- ===== src/App/Workload/Engine.antt =====
-- `runWorkload` over the session of labctl-go/internal/worker/session.go, which `worker.Start` returns.
-- What the process does during each call is an argument.
use paraflow.Prelude.{◌≡◌, ◌⊎◌, inl, inr, refl, sym, subst, ◌∙◌, true, Option, none, some, List}
use paraflow.Prelude.Text.{Bytes}
use paraflow.Prelude.Outcome.{Outcome, ok, map_err, map_err-eq-ok, ok-injective}
use paraflow.Protocol.Message.{ResultV1, WorkloadProjection}
use paraflow.Protocol.Response.{Codec, project_workload}
use paraflow.Protocol.Result.Sound.{IsConsistent}
use paraflow.Worker.Session.{
  Session, SessionError, session_is_closed, Entry, Exchange, Exit, execute, shutdown, close,
}
use paraflow.Worker.Session.Answer.{execute-IsConsistent}
use paraflow.App.{Writers}
use paraflow.App.Dependencies.{WorkerSession, World, ReadFile}
use paraflow.App.Workload.{write_run_result, run_workload}
use paraflow.App.Workload.Closes.{Fails, IsClosed, run_workload-IsClosed}

-- What happens during `Execute` and during `Shutdown`.
pub record Script : Type 0 where
  pub execute_entry : Entry
  pub execute_exchange : Exchange
  pub shutdown_entry : Entry
  pub shutdown_exchange : Exchange
  pub exit : Exit
  pub error_text : SessionError → Bytes

abbrev pub with_text :
    {A : Type 0}
    → (SessionError → Bytes)
    → Session × Outcome SessionError A
    → Session × Outcome Bytes A
with_text error_text p = (p.0, map_err error_text p.1)

-- The session as a `WorkerSession`.
unfoldable pub worker_session : Codec → Script → WorkerSession Session
worker_session codec script = record {
  execute = λ workload s.
      with_text script.error_text
        (execute codec script.execute_entry script.execute_exchange workload s);
  shutdown = λ s.
      with_text script.error_text
        (shutdown codec script.shutdown_entry script.shutdown_exchange script.exit s);
  close = close;
}

-- A session whose process is gone.
abbrev pub IsGone : Option Session → Type 0
IsGone none = Unit
IsGone (some s) =
    (s.state ≡ session_is_closed)
    × (s.input_closed ≡ true)
    × (s.output_closed ≡ true)
    × (s.killed ≡ true)
    × (s.reaped ≡ true)

closed-IsGone : (s before : Session) → s ≡ close before → IsGone (some s)
unfolding close
closed-IsGone s before e = rw e (refl, refl, refl, refl, refl)

module _ (world : World Session) (writers : Writers) (script : Script) where
  abbrev pub engine_world : World Session
  engine_world = record world { session = worker_session world.codec script }

  left-IsGone : (s : Option Session) → IsClosed engine_world writers s → IsGone s
  unfolding worker_session
  left-IsGone none h = tt
  left-IsGone (some s) (before, e) = closed-IsGone s before e

  executed-IsConsistent :
      (source : Bytes) (projection : WorkloadProjection) (s : Session) (result : ResultV1)
      → project_workload world.codec source ≡ ok projection
      → ((worker_session world.codec script).execute source s).1 ≡ ok result
      → IsConsistent projection result
  unfolding worker_session
  executed-IsConsistent source projection s result e h =
      let (_, (p, projected, consistent)) =
        execute-IsConsistent world.codec script.execute_entry script.execute_exchange source s
          result (map_err-eq-ok script.error_text _ h) in
      subst (λ q. IsConsistent q result) (ok-injective p projection (sym projected ∙ e)) consistent

  -- `labctl run` over the worker's session leaves no process: the session at the end, where one was
  -- started, is closed, its pipes too, and its process was killed and reaped. The command fails with
  -- code 1 or 2, or it prints a result that is consistent with the projection of the workload it read.
  pub run_workload-IsConsistent :
      (read_file : Option ReadFile) (start_worker : Option (Bytes → Outcome Bytes Session))
      (args : List Bytes)
      → IsGone (run_workload engine_world writers read_file start_worker args).1
        × (Fails (run_workload engine_world writers read_file start_worker args).0
            ⊎ ((projection : WorkloadProjection) × (result : ResultV1) × (source : Bytes)
                × (project_workload world.codec source ≡ ok projection)
                × IsConsistent projection result
                × ((run_workload engine_world writers read_file start_worker args).0
                    ≡ write_run_result world.quote world.print_double writers projection.name
                        result)))
  run_workload-IsConsistent read_file start_worker args =
      let (closed, ended) =
        run_workload-IsClosed engine_world writers read_file start_worker args in
      (
        left-IsGone _ closed,
        elim ended [
          | inl h ↦ inl h
          | inr (engine, workload, _, h) ↦ inr (
            h.projection,
            h.result,
            h.source,
            h.projected,
            executed-IsConsistent h.source h.projection h.session h.result h.projected h.executed,
            h.printed,
          )
        ],
      )
