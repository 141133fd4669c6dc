-- ===== src/App/Workload/Prints.antt =====
-- `runWorkload`: when it succeeds, and what it prints then.
use paraflow.Prelude.{
  ℕ, ◌≡◌, ◌≢◌, ◌↔◌, ◌⊎◌, refl, sym, ap, ◌∙◌, inl, inr, false, ◌||◌, Option, some, List, [], ◌∷◌,
  ◌++◌, arith, Bool-cases, append_assoc,
}
use paraflow.Prelude.Text.{Bytes, codes, is_empty, bytes_eq}
use paraflow.Prelude.Strings.{decimal}
use paraflow.Prelude.Outcome.{Outcome, ok}
use paraflow.Protocol.Hex.{format_request_id}
use paraflow.Protocol.Message.{ResultV1, WorkloadProjection}
use paraflow.Protocol.Response.{project_workload}
use paraflow.App.{Exit, Writers, write, usage_error, line_end}
use paraflow.App.Dependencies.{World, ReadFile, or_default}
use paraflow.App.Workload.{
  format_float, marshal_counts, write_run_result, run_session, run_workload,
}
use paraflow.App.Workload.Closes.{usage_error-Fails, run_workload-IsClosed}

-- A text of lines, each a label and a value.
abbrev pub field_lines : List (Bytes × Bytes) → Bytes
field_lines [] = []
field_lines ((label, value) ∷ rest) =
    label ++ (codes ": " ++ (value ++ (line_end ++ field_lines rest)))

-- What is reported of a result: the sums as 16 hexadecimal digits.
abbrev pub result_fields : (Bytes → Bytes) → (ℕ → Bytes) → Bytes → ResultV1 → List (Bytes × Bytes)
result_fields quote print_double name result =
    (codes "workload", quote name)
    ∷ (codes "backend", codes "scalar")
    ∷ (codes "accepted_count", decimal result.accepted_count)
    ∷ (codes "score_sum", format_float print_double result.score_sum)
    ∷ (codes "score_sum_bits", codes "0x" ++ format_request_id result.score_sum)
    ∷ (codes "category_histogram", marshal_counts result.category_histogram)
    ∷ (codes "accepted_id_sum", codes "0x" ++ format_request_id result.accepted_id_sum)
    ∷ (codes "accepted_id_xor", codes "0x" ++ format_request_id result.accepted_id_xor)
    ∷ []

-- `writeRunResult` on an output that takes it.
write_run_result-fields :
    (quote : Bytes → Bytes) (print_double : ℕ → Bytes) (writers : Writers) (name : Bytes)
    (result : ResultV1)
    → writers.stdout_fails ≡ false
    → write_run_result quote print_double writers name result ≡ record {
      code = 0;
      stdout = field_lines (result_fields quote print_double name result);
      stderr = [];
    }
unfolding write_run_result write
write_run_result-fields quote print_double writers name result e = rw e (simp append_assoc)

-- An exit with code 0 is no failure.
succeeds-Fails : (code : ℕ) → code ≡ 0 → (code ≡ 1) ⊎ (code ≡ 2) → ⊥
succeeds-Fails code z (inl e) = omega (arith, z, e)
succeeds-Fails code z (inr e) = omega (arith, z, e)

writable-code :
    (quote : Bytes → Bytes) (print_double : ℕ → Bytes) (writers : Writers) (name : Bytes)
    (result : ResultV1)
    → (write_run_result quote print_double writers name result).code ≡ 0
    → writers.stdout_fails ≡ false
unfolding write_run_result write
writable-code quote print_double writers name result e = ground arith

is_empty_iff : (s : Bytes) → (is_empty s ≡ false) ↔ (s ≢ [])
is_empty_iff [] = (λ e. cc, λ h. absurd (h refl))
is_empty_iff (c ∷ s) = (λ e f. cc, λ h. refl)

module _ {S : Type 0} (world : World S) (writers : Writers) (read_file : Option ReadFile)
    (start_worker : Option (Bytes → Outcome Bytes S)) (args : List Bytes) where
  -- The arguments are well formed, every step succeeds and the standard output can be written.
  pub record Completes : Type 0 where
    pub engine : Bytes
    pub workload : Bytes
    pub arguments : args ≡ codes "--engine" ∷ engine ∷ workload ∷ []
    pub some_engine : engine ≢ []
    pub some_workload : workload ≢ []
    pub writable : writers.stdout_fails ≡ false
    pub source : Bytes
    pub projection : WorkloadProjection
    pub session : S
    pub result : ResultV1
    pub read : or_default read_file world.read_file workload ≡ ok source
    pub projected : project_workload world.codec source ≡ ok projection
    pub started : or_default start_worker world.start_worker engine ≡ ok session
    pub executed : (world.session.execute source session).1 ≡ ok result
    pub finished : (world.session.shutdown (world.session.execute source session).0).1 ≡ ok tt

  abbrev pub printed_exit : Completes → Exit
  printed_exit c = record {
    code = 0;
    stdout = field_lines (result_fields world.quote world.print_double c.projection.name c.result);
    stderr = [];
  }

  -- The session behind `Execute`, `Shutdown` and `Close`, in this order.
  abbrev pub closed_session : Completes → S
  closed_session c =
      world.session.close (world.session.shutdown (world.session.execute c.source c.session).0).0

module _ {S : Type 0} (world : World S) (writers : Writers) where
  run_session-prints :
      (read_file : ReadFile) (start_worker : Bytes → Outcome Bytes S) (engine workload : Bytes)
      (source : Bytes) (projection : WorkloadProjection) (s t u : S) (result : ResultV1)
      → read_file workload ≡ ok source
      → project_workload world.codec source ≡ ok projection
      → start_worker engine ≡ ok s
      → world.session.execute source s ≡ (t, ok result)
      → world.session.shutdown t ≡ (u, ok tt)
      → run_session world writers read_file start_worker engine workload ≡ (
        write_run_result world.quote world.print_double writers projection.name result,
        some (world.session.close u),
      )
  unfolding run_session
  run_session-prints read_file start_worker engine workload source projection s t u result a b c d
        e =
      rw (run_session, a, b, c, d, e)

  run_workload-prints :
      (read_file : Option ReadFile) (start_worker : Option (Bytes → Outcome Bytes S))
      (args : List Bytes) (c : Completes world writers read_file start_worker args)
      → run_workload world writers read_file start_worker args ≡ (
        printed_exit world writers read_file start_worker args c,
        some (closed_session world writers read_file start_worker args c),
      )
  unfolding run_workload bytes_eq
  run_workload-prints read_file start_worker args c =
      let ran = world.session.execute c.source c.session in
      let executed : ran ≡ (ran.0, ok c.result) = λ i. (ran.0, c.executed i) in
      let ended = world.session.shutdown ran.0 in
      let finished : ended ≡ (ended.0, ok tt) = λ i. (ended.0, c.finished i) in
      let run =
        run_session-prints (or_default read_file world.read_file)
          (or_default start_worker world.start_worker) c.engine c.workload c.source c.projection
          c.session ran.0 ended.0 c.result c.read c.projected c.started executed finished in
      let printed =
        write_run_result-fields world.quote world.print_double writers c.projection.name c.result
          c.writable in
      ap (run_workload world writers read_file start_worker) c.arguments
      ∙ rw ((is_empty_iff c.engine).1 c.some_engine, (is_empty_iff c.workload).1 c.some_workload)
          (run ∙ ap (λ x. (x, some (world.session.close ended.0))) printed)

  -- Code 0 leaves only command lines whose two paths are not empty.
  paths-given :
      (read_file : Option ReadFile) (start_worker : Option (Bytes → Outcome Bytes S))
      (engine workload : Bytes)
      → (run_workload world writers read_file start_worker
          (codes "--engine" ∷ engine ∷ workload ∷ [])).0.code
        ≡ 0
      → (is_empty engine || is_empty workload) ≡ false
  unfolding run_workload bytes_eq
  paths-given read_file start_worker engine workload z =
      elim (Bool-cases (is_empty engine || is_empty workload)) [
        | inr e ↦ e
        | inl e ↦
            let none_given : (run_workload world writers read_file start_worker
                  (codes "--engine" ∷ engine ∷ workload ∷ [])).0
                ≡ usage_error writers (codes "run requires non-empty engine and workload paths") =
              rw e refl in
            absurd (
              succeeds-Fails _ (ap (λ x. x.code) (sym none_given) ∙ z) (
                usage_error-Fails writers
                  (codes "run requires non-empty engine and workload paths")))
      ]

  -- `labctl run` exits with code 0 exactly where its arguments are `--engine` and two paths that are not
  -- empty, the workload can be read and projected, the engine starts, executes it and shuts down, and
  -- the standard output can be written. Then it has written the lines of the engine's result and nothing
  -- on the standard error, and the session was executed, shut down and closed, in this order.
  pub run_workload_iff :
      (read_file : Option ReadFile) (start_worker : Option (Bytes → Outcome Bytes S))
      (args : List Bytes)
      → (((run_workload world writers read_file start_worker args).0.code ≡ 0)
          ↔ Completes world writers read_file start_worker args)
        × ((c : Completes world writers read_file start_worker args)
            → ((run_workload world writers read_file start_worker args).0
                ≡ printed_exit world writers read_file start_worker args c)
              × ((run_workload world writers read_file start_worker args).1
                  ≡ some (closed_session world writers read_file start_worker args c)))
  run_workload_iff read_file start_worker args = (
    (
      λ z. elim (run_workload-IsClosed world writers read_file start_worker args).1 [
        | inl failed ↦ absurd (succeeds-Fails _ z failed)
        | inr (engine, workload, e, s) ↦
            let given = paths-given read_file start_worker engine workload (
              ap (λ x. (run_workload world writers read_file start_worker x).0.code) (sym e) ∙ z) in
            record {
              engine = engine;
              workload = workload;
              arguments = e;
              some_engine = (is_empty_iff engine).0 (ground arith);
              some_workload = (is_empty_iff workload).0 (ground arith);
              writable =
                  writable-code world.quote world.print_double writers s.projection.name s.result
                    (ap (λ x. x.code) (sym s.printed) ∙ z);
              source = s.source;
              projection = s.projection;
              session = s.session;
              result = s.result;
              read = s.read;
              projected = s.projected;
              started = s.started;
              executed = s.executed;
              finished = s.finished;
            }
      ],
      λ c. ap (λ x. x.0.code) (run_workload-prints read_file start_worker args c),
    ),
    λ c. (
      ap (λ x. x.0) (run_workload-prints read_file start_worker args c),
      ap (λ x. x.1) (run_workload-prints read_file start_worker args c),
    ),
  )
