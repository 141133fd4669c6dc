-- ===== src/App/Workload.antt =====
-- `runWorkload`, `writeRunResult` and `formatFloat` of labctl-go/internal/app/app.go. A double is its
-- 64 bits. With the exit comes the state of the worker session at the end, where one was started: the
-- deferred `Close` runs behind every return, a panic included, which ends the process with code 2.
pub mod Closes
pub mod Prints
pub mod Engine
use paraflow.Prelude.{
  ℕ, Bool, true, false, not, ◌||◌, Option, none, some, List, [], ◌∷◌, ◌++◌, if◌then◌else◌, ◌==◌,
  ◌%◌, ◌^◌, leb, ltb,
}
use paraflow.Prelude.Text.{Bytes, codes, is_empty, bytes_eq}
use paraflow.Prelude.Strings.{decimal}
use paraflow.Prelude.Outcome.{Outcome, ok, err, panic}
use paraflow.Protocol.Hex.{format_request_id}
use paraflow.Protocol.Message.{ResultV1, backend_scalar}
use paraflow.Protocol.Response.{project_workload}
use paraflow.App.{Exit, Writers, write, usage_error, command_error, line_end}
use paraflow.App.Dependencies.{WorkerSession, World, ReadFile, or_default}

-- `formatFloat`.
unfoldable pub format_float : (ℕ → Bytes) → ℕ → Bytes
format_float print_double bits =
    if bits == 9218868437227405312
    then codes "+Inf"
    else if bits == 18442240474082181120
    then codes "-Inf"
    else if ltb 9218868437227405312 (bits % 2 ^ 63)
    then codes "NaN"
    else print_double bits

-- The numbers behind the first, each behind a comma.
pub more_counts : List ℕ → Bytes
more_counts [] = codes "]"
more_counts (n ∷ ns) = b',' ∷ (decimal n ++ more_counts ns)

-- `json.Marshal` of a slice of counts.
pub marshal_counts : List ℕ → Bytes
unfolding more_counts
marshal_counts [] = codes "[]"
marshal_counts (n ∷ ns) = b'[' ∷ (decimal n ++ more_counts ns)

-- `writeRunResult`.
unfoldable pub write_run_result : (Bytes → Bytes) → (ℕ → Bytes) → Writers → Bytes → ResultV1 → Exit
unfolding format_float marshal_counts
write_run_result quote print_double writers workload_name result = write writers (
    codes "workload: "
    ++ (quote workload_name
        ++ (line_end
            ++ (codes "backend: "
                ++ (backend_scalar
                    ++ (line_end
                        ++ (codes "accepted_count: "
                            ++ (decimal result.accepted_count
                                ++ (line_end
                                    ++ (codes "score_sum: "
                                        ++ (format_float print_double result.score_sum
                                            ++ (line_end
                                                ++ (codes "score_sum_bits: 0x"
                                                    ++ (format_request_id result.score_sum
                                                        ++ (line_end
                                                            ++ (codes "category_histogram: "
                                                            ++ (marshal_counts
                                                            result.category_histogram
                                                            ++ (line_end
                                                            ++ (codes "accepted_id_sum: 0x"
                                                            ++ (format_request_id
                                                            result.accepted_id_sum
                                                            ++ (line_end
                                                            ++ (codes "accepted_id_xor: 0x"
                                                            ++ format_request_id
                                                            result.accepted_id_xor))))))))))))))))))))))

-- An uncaught panic.
abbrev pub panicked : Exit
panicked = record { code = 2; stdout = []; stderr = [] }

module _ {S : Type 0} (world : World S) (writers : Writers) where
  -- `fmt.Sprintf("… %q: %v", path, err)` under `commandError`.
  abbrev pub blame : Bytes → Bytes → Bytes → Exit
  blame what path why =
      command_error writers (what ++ (codes " " ++ (world.quote path ++ (codes ": " ++ why))))

  -- Behind a result of `Shutdown`, and behind one of `Execute`.
  abbrev pub after_shutdown : Bytes → Bytes → ResultV1 → S × Outcome Bytes Unit → S × Exit
  after_shutdown engine name result (s, err why) = (s, blame (codes "shut down engine") engine why)
  after_shutdown engine name result (s, panic) = (s, panicked)
  after_shutdown engine name result (s, ok done) =
      (s, write_run_result world.quote world.print_double writers name result)

  abbrev pub after_execute : Bytes → Bytes → Bytes → S × Outcome Bytes ResultV1 → S × Exit
  after_execute engine workload name (s, err why) =
      (s, blame (codes "execute workload") workload why)
  after_execute engine workload name (s, panic) = (s, panicked)
  after_execute engine workload name (s, ok result) =
      after_shutdown engine name result (world.session.shutdown s)

  -- The session that was started, with its deferred `Close`.
  abbrev pub with_session : Bytes → Bytes → Bytes → Bytes → S → Exit × Option S
  with_session engine workload source name s =
      let (s', exit) = after_execute engine workload name (world.session.execute source s) in
      (exit, some (world.session.close s'))

  -- `runWorkload` behind the tests of its arguments.
  unfoldable pub run_session :
      (read_file : ReadFile) (start_worker : Bytes → Outcome Bytes S) (engine workload : Bytes)
      → Exit × Option S
  run_session read_file start_worker engine workload = elim (read_file workload) [
    | err why ↦ (blame (codes "read workload") workload why, none)
    | panic ↦ (panicked, none)
    | ok source ↦ elim (project_workload world.codec source) [
      | err why ↦ (blame (codes "inspect workload") workload (world.protocol_text why), none)
      | panic ↦ (panicked, none)
      | ok projection ↦ elim (start_worker engine) [
        | err why ↦ (blame (codes "start engine") engine why, none)
        | panic ↦ (panicked, none)
        | ok s ↦ with_session engine workload source projection.name s
      ]
    ]
  ]

  -- `runWorkload`.
  unfoldable pub run_workload :
      Option ReadFile → Option (Bytes → Outcome Bytes S) → List Bytes → Exit × Option S
  unfolding run_session
  run_workload read_file start_worker (flag ∷ engine ∷ workload ∷ []) =
      if not (bytes_eq flag (codes "--engine"))
      then (usage_error writers (codes "run requires --engine <path> <workload.json>"), none)
      else if is_empty engine || is_empty workload
      then (usage_error writers (codes "run requires non-empty engine and workload paths"), none)
      else run_session (or_default read_file world.read_file)
          (or_default start_worker world.start_worker) engine workload
  run_workload read_file start_worker args =
      (usage_error writers (codes "run requires --engine <path> <workload.json>"), none)
