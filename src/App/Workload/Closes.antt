-- ===== src/App/Workload/Closes.antt =====
-- `runWorkload`: what becomes of the worker session, and when the command succeeds.
use paraflow.Prelude.{
  ◌≡◌, ◌⊎◌, inl, inr, refl, ap, ◌||◌, Option, none, some, List, [], ◌∷◌, Bool-cases,
}
use paraflow.Prelude.Text.{Bytes, codes, is_empty, bytes_eq, bytes_eq_iff}
use paraflow.Prelude.Outcome.{Outcome, ok, err, panic}
use paraflow.Protocol.Message.{ResultV1, WorkloadProjection, ProtocolError}
use paraflow.Protocol.Response.{project_workload}
use paraflow.App.{Exit, Writers, usage_error, command_error}
use paraflow.App.Dependencies.{World, ReadFile, or_default}
use paraflow.App.Workload.{
  write_run_result, blame, panicked, after_shutdown, after_execute, with_session, run_session,
  run_workload,
}

-- A command that failed.
abbrev pub Fails : Exit → Type 0
Fails exit = (exit.code ≡ 1) ⊎ (exit.code ≡ 2)

command_error-Fails : (writers : Writers) (message : Bytes) → Fails (command_error writers message)
unfolding command_error
command_error-Fails writers message = elim (Bool-cases writers.stderr_fails) [
  | inl e ↦ rw e (inl refl)
  | inr e ↦ rw e (inl refl)
]

pub usage_error-Fails : (writers : Writers) (message : Bytes) → Fails (usage_error writers message)
unfolding usage_error
usage_error-Fails writers message = elim (Bool-cases writers.stderr_fails) [
  | inl e ↦ rw e (inl refl)
  | inr e ↦ rw e (inr refl)
]

module _ {S : Type 0} (world : World S) (writers : Writers) where
  -- Every step of the command succeeded.
  pub record Succeeds (read_file : ReadFile) (start_worker : Bytes → Outcome Bytes S)
      (engine workload : Bytes) (exit : Exit) : Type 0 where
    pub source : Bytes
    pub projection : WorkloadProjection
    pub session : S
    pub result : ResultV1
    pub read : read_file workload ≡ ok source
    pub projected : project_workload world.codec source ≡ ok projection
    pub started : start_worker engine ≡ ok session
    pub executed : (world.session.execute source session).1 ≡ ok result
    pub finished : (world.session.shutdown (world.session.execute source session).0).1 ≡ ok tt
    pub printed :
        exit ≡ write_run_result world.quote world.print_double writers projection.name result

  -- The session at the end is one that `Close` returned.
  abbrev pub IsClosed : Option S → Type 0
  IsClosed none = Unit
  IsClosed (some s) = (before : S) × (s ≡ world.session.close before)

  after_shutdown-cases :
      (engine name : Bytes) (result : ResultV1) (p : S × Outcome Bytes Unit)
      → Fails (after_shutdown world writers engine name result p).1
        ⊎ ((p.1 ≡ ok tt)
            × ((after_shutdown world writers engine name result p).1
                ≡ write_run_result world.quote world.print_double writers name result))
  after_shutdown-cases engine name result (s, err why) = inl (command_error-Fails writers _)
  after_shutdown-cases engine name result (s, panic) = inl (inr refl)
  after_shutdown-cases engine name result (s, ok tt) = inr (refl, refl)

  after_execute-cases :
      (engine workload name : Bytes) (p : S × Outcome Bytes ResultV1)
      → Fails (after_execute world writers engine workload name p).1
        ⊎ ((result : ResultV1) × (p.1 ≡ ok result)
            × ((world.session.shutdown p.0).1 ≡ ok tt)
            × ((after_execute world writers engine workload name p).1
                ≡ write_run_result world.quote world.print_double writers name result))
  after_execute-cases engine workload name (s, err why) = inl (command_error-Fails writers _)
  after_execute-cases engine workload name (s, panic) = inl (inr refl)
  after_execute-cases engine workload name (s, ok result) =
      elim (after_shutdown-cases engine name result (world.session.shutdown s)) [
        | inl h ↦ inl h
        | inr (e, f) ↦ inr (result, refl, e, f)
      ]

  module _ (read_file : ReadFile) (start_worker : Bytes → Outcome Bytes S)
      (engine workload : Bytes) where
    abbrev Ended : Exit × Option S → Type 0
    Ended p = IsClosed p.1 × (Fails p.0 ⊎ Succeeds read_file start_worker engine workload p.0)

    started-Ended :
        (source : Bytes) (projection : WorkloadProjection)
        → read_file workload ≡ ok source
        → project_workload world.codec source ≡ ok projection
        → (r : Outcome Bytes S) → start_worker engine ≡ r
        → Ended (elim r [
          | err why ↦ (blame world writers (codes "start engine") engine why, none)
          | panic ↦ (panicked, none)
          | ok s ↦ with_session world writers engine workload source projection.name s
        ])
    started-Ended source projection e f (err why) g = (tt, inl (command_error-Fails writers _))
    started-Ended source projection e f panic g = (tt, inl (inr refl))
    started-Ended source projection e f (ok s) g = (
      (_, refl),
      elim (after_execute-cases engine workload projection.name (world.session.execute source s)) [
        | inl h ↦ inl h
        | inr (result, x, d, p) ↦ inr (record {
          source = source;
          projection = projection;
          session = s;
          result = result;
          read = e;
          projected = f;
          started = g;
          executed = x;
          finished = d;
          printed = p;
        })
      ],
    )

    projected-Ended :
        (source : Bytes)
        → read_file workload ≡ ok source
        → (r : Outcome ProtocolError WorkloadProjection) → project_workload world.codec source ≡ r
        → Ended (elim r [
          | err why ↦ (
            blame world writers (codes "inspect workload") workload (world.protocol_text why),
            none,
          )
          | panic ↦ (panicked, none)
          | ok projection ↦ elim (start_worker engine) [
            | err why ↦ (blame world writers (codes "start engine") engine why, none)
            | panic ↦ (panicked, none)
            | ok s ↦ with_session world writers engine workload source projection.name s
          ]
        ])
    projected-Ended source e (err why) f = (tt, inl (command_error-Fails writers _))
    projected-Ended source e panic f = (tt, inl (inr refl))
    projected-Ended source e (ok projection) f =
        started-Ended source projection e f (start_worker engine) refl

    run_session-Ended : Ended (run_session world writers read_file start_worker engine workload)
    unfolding run_session
    run_session-Ended = read_on (read_file workload) refl
      where
        read_on :
            (r : Outcome Bytes Bytes)
            → read_file workload ≡ r
            → Ended (elim r [
              | err why ↦ (blame world writers (codes "read workload") workload why, none)
              | panic ↦ (panicked, none)
              | ok source ↦ elim (project_workload world.codec source) [
                | err why ↦ (
                  blame world writers (codes "inspect workload") workload (world.protocol_text why),
                  none,
                )
                | panic ↦ (panicked, none)
                | ok projection ↦ elim (start_worker engine) [
                  | err why ↦ (blame world writers (codes "start engine") engine why, none)
                  | panic ↦ (panicked, none)
                  | ok s ↦ with_session world writers engine workload source projection.name s
                ]
              ]
            ])
        read_on (err why) e = (tt, inl (command_error-Fails writers _))
        read_on panic e = (tt, inl (inr refl))
        read_on (ok source) e = projected-Ended source e (project_workload world.codec source) refl

  -- `runWorkload` leaves no worker session that `Close` was not called on last, and it fails with code
  -- 1 or 2 unless its arguments are `--engine`, an engine and a workload, and the workload was read and
  -- projected, the engine started, executed it and shut down: then it prints the engine's result.
  pub run_workload-IsClosed :
      (read_file : Option ReadFile) (start_worker : Option (Bytes → Outcome Bytes S))
      (args : List Bytes)
      → IsClosed (run_workload world writers read_file start_worker args).1
        × (Fails (run_workload world writers read_file start_worker args).0
            ⊎ ((engine : Bytes) × (workload : Bytes) × (args
                  ≡ codes "--engine" ∷ engine ∷ workload ∷ [])
                × Succeeds
                    (or_default read_file world.read_file)
                    (or_default start_worker world.start_worker)
                    engine
                    workload
                    (run_workload world writers read_file start_worker args).0))
  unfolding run_workload
  run_workload-IsClosed read_file start_worker [] = (tt, inl (usage_error-Fails writers _))
  run_workload-IsClosed read_file start_worker (a ∷ []) = (tt, inl (usage_error-Fails writers _))
  run_workload-IsClosed read_file start_worker (a ∷ b ∷ []) =
      (tt, inl (usage_error-Fails writers _))
  run_workload-IsClosed read_file start_worker (a ∷ b ∷ c ∷ d ∷ rest) =
      (tt, inl (usage_error-Fails writers _))
  run_workload-IsClosed read_file start_worker (flag ∷ engine ∷ workload ∷ []) =
      elim (Bool-cases (bytes_eq flag (codes "--engine"))) [
        | inr e ↦ rw e (tt, inl (usage_error-Fails writers _))
        | inl e ↦ elim (Bool-cases (is_empty engine || is_empty workload)) [
          | inl f ↦ rw (e, f) (tt, inl (usage_error-Fails writers _))
          | inr f ↦
              rw (e, f)
                (let (closed, ended) =
                    run_session-Ended (or_default read_file world.read_file)
                      (or_default start_worker world.start_worker) engine workload in
                  (
                    closed,
                    elim ended [
                      | inl h ↦ inl h
                      | inr h ↦ inr (
                        engine,
                        workload,
                        ap (λ x. x ∷ engine ∷ workload ∷ [])
                            ((bytes_eq_iff flag (codes "--engine")).0 e),
                        h,
                      )
                    ],
                  ))
        ]
      ]
