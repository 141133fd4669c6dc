-- ===== src/Benchmark/Evidence/Executed.antt =====
-- What a run of `Execute` of labctl-go/internal/benchmark/execute.go that returned a capture has done.
use paraflow.Prelude.{
  ℕ, ◌+◌, ◌≡◌, refl, sym, ap, subst, ◌∙◌, true, false, not, ◌||◌, some, List, [], ◌∷◌, ltb, arith,
  Each, each_nil, each_cons,
}
use mathlib.Core.Option.{some-injective}
use paraflow.Prelude.Text.{Bytes, bytes_eq, bytes_eq_iff}
use paraflow.Prelude.Utf8.{is_blank}
use paraflow.Prelude.Outcome.{ok, ◌>>=◌, bind-ok, refuse-ok, ok-injective, map_err, map_err-eq-ok}
use paraflow.Protocol.Message.{WorkloadProjection}
use paraflow.BuildInfo.{Info}
use paraflow.Doctor.Assess.{check}
use paraflow.Benchmark.Stats.{summarize}
use paraflow.Benchmark.Engine.{valid_source_state}
use paraflow.Benchmark.Suite.{Scenario, Suite, validate_suite}
use paraflow.Benchmark.Evidence.{
  Experiment, Capture, suite_unreadable, suite_undecodable, invalid_suite, no_root,
  engine_unreadable, Files, or_else, resolve_repository_path, validate_source_alignment,
  workload_identity, scenario_request, experiment_id,
}
use paraflow.Benchmark.Evidence.Execute.{
  Options, Run, validate_options, require_absent, read_suite, read_workload, run_scenario,
  scenario_loop, captured, closing, execute_suite,
}
use paraflow.Benchmark.Evidence.Read.{or_else-ok, IsRead, not-false, ladder-IsRead}

-- One scenario's experiment: the workload that was read, the runner's result and its statistics.
pub record Ran (files : Files) (run : Run) (root : Bytes) (controller : Info) (index : ℕ)
    (scenario : Scenario) (experiment : Experiment) : Type 0 where
  pub got : Bytes × WorkloadProjection
  pub source : IsRead files (resolve_repository_path files root scenario.workload) got
  pub ran :
      run.runner index (scenario_request scenario (experiment_id index) got.0) got.1
      ≡ ok (experiment.engine_result, experiment.orchestration_total_ns)
  pub aligned : validate_source_alignment experiment.engine_result.engine_build controller ≡ ok tt
  pub summarized : summarize experiment.engine_result.samples ≡ ok experiment.summary
  pub named : experiment.scenario_name ≡ scenario.name
  pub identified : experiment.workload ≡ workload_identity files scenario got.0 got.1

-- The run that led to a capture.
pub record Executed (files : Files) (options : Options) (run : Run) (root : Bytes)
    (capture : Capture) : Type 0 where
  pub suite_bytes : Bytes
  pub suite : Suite
  pub engine_hash : Bytes
  pub controller :
      is_blank options.build.version
        || (is_blank options.build.full_commit
            || not (valid_source_state options.build.source_state))
      ≡ false
  pub read : files.read_file options.suite_path ≡ some suite_bytes
  pub decoded : files.decode_suite suite_bytes ≡ some suite
  pub valid : validate_suite suite ≡ ok tt
  pub engine : run.engine_before ≡ some engine_hash
  pub unchanged : run.engine_after ≡ some engine_hash
  pub ready : (check run.quote run.host run.probe options.build).ready ≡ true
  pub ordered : ltb run.completed_at run.started_at ≡ false
  pub persisted : run.persist capture ≡ true
  pub experiments : Each (Ran files run root options.build) 0 suite.scenarios capture.experiments
  pub whole :
      capture ≡ captured files options run root suite_bytes suite engine_hash capture.experiments

module _ (files : Files) (run : Run) (root : Bytes) (controller : Info) where
  run_scenario-Ran :
      (index : ℕ) (scenario : Scenario) (experiment : Experiment)
      → run_scenario files run root controller index scenario ≡ ok experiment
      → Ran files run root controller index scenario experiment
  unfolding run_scenario read_workload
  run_scenario-Ran index scenario experiment h =
      refuse-ok (run.context_done (index + 1)) _ _ h (λ _ h1.
        bind-ok (read_workload files root scenario) _ h1 (λ got source h2.
          bind-ok (map_err _ (run.runner index _ got.1)) _ h2 (λ ran returned h3.
            bind-ok (validate_source_alignment ran.0.engine_build controller) _ h3 (λ _ aligned h4.
              bind-ok (map_err _ (summarize ran.0.samples)) _ h4 (λ summary summarized same.
                subst (Ran files run root controller index scenario) (ok-injective _ _ same)
                  (record {
                    got = got;
                    source = ladder-IsRead files _ got source;
                    ran = map_err-eq-ok _ _ returned;
                    aligned = aligned;
                    summarized = map_err-eq-ok _ _ summarized;
                    named = refl;
                    identified = refl;
                  }))))))

  scenario_loop-Each :
      (index : ℕ) (scenarios : List Scenario) (experiments : List Experiment)
      → scenario_loop files run root controller index scenarios ≡ ok experiments
      → Each (Ran files run root controller) index scenarios experiments
  unfolding scenario_loop
  scenario_loop-Each index [] experiments h =
      subst (Each (Ran files run root controller) index []) (ok-injective _ _ h) each_nil
  scenario_loop-Each index (scenario ∷ scenarios) experiments h =
      bind-ok (run_scenario files run root controller index scenario) _ h (λ experiment ran h1.
        bind-ok (scenario_loop files run root controller (index + 1) scenarios) _ h1
          (λ rest more same.
            subst (Each (Ran files run root controller) index (scenario ∷ scenarios))
              (ok-injective _ _ same)
              (each_cons (run_scenario-Ran index scenario experiment ran)
                (scenario_loop-Each (index + 1) scenarios rest more))))

-- The last steps, behind the loop.
closing-ok :
    (files : Files) (options : Options) (run : Run) (root suite_bytes : Bytes) (suite : Suite)
    (engine_hash : Bytes) (experiments : List Experiment) (capture : Capture)
    → closing files options run root suite_bytes suite engine_hash experiments ≡ ok capture
    → let made = captured files options run root suite_bytes suite engine_hash experiments in
      (run.engine_after ≡ some engine_hash)
      × (ltb run.completed_at run.started_at ≡ false)
      × (run.persist made ≡ true)
      × (made ≡ capture)
unfolding closing
closing-ok files options run root suite_bytes suite engine_hash experiments capture h =
    bind-ok (or_else run.engine_after engine_unreadable) _ h (λ final e h1.
      refuse-ok (not (bytes_eq final engine_hash)) _ _ h1 (λ same h2.
        refuse-ok (ltb run.completed_at run.started_at) _ _ h2 (λ ordered h3.
          refuse-ok _ _ _ h3 (λ persisted last. (
            or_else-ok _ _ e ∙ ap some ((bytes_eq_iff final engine_hash).0 (not-false _ same)),
            ordered,
            not-false _ persisted,
            ok-injective _ _ last,
          )))))

pub complete :
    (options : Options)
    → validate_options options ≡ ok tt
    → is_blank options.build.version
        || (is_blank options.build.full_commit
            || not (valid_source_state options.build.source_state))
      ≡ false
unfolding validate_options
complete options h = ground arith

pub suite_read :
    (files : Files) (path : Bytes) (got : Bytes × Suite)
    → read_suite files path ≡ ok got
    → (files.read_file path ≡ some got.0)
      × (files.decode_suite got.0 ≡ some got.1)
      × (validate_suite got.1 ≡ ok tt)
unfolding read_suite
suite_read files path got h =
    bind-ok (or_else (files.read_file path) suite_unreadable) _ h (λ bytes read h1.
      bind-ok (or_else (files.decode_suite bytes) suite_undecodable) _ h1 (λ suite decoded h2.
        bind-ok (map_err invalid_suite (validate_suite suite)) _ h2 (λ _ valid same.
          subst
            (λ g.
              (files.read_file path ≡ some g.0)
              × (files.decode_suite g.0 ≡ some g.1)
              × (validate_suite g.1 ≡ ok tt))
            (ok-injective _ _ same)
            (or_else-ok _ _ read, or_else-ok _ _ decoded, map_err-eq-ok _ _ valid))))

sealed :
    (files : Files) (options : Options) (run : Run) (root : Bytes) (got : Bytes × Suite)
    (hash : Bytes) (capture : Capture)
    → validate_options options ≡ ok tt
    → read_suite files options.suite_path ≡ ok got
    → run.engine_before ≡ some hash
    → (check run.quote run.host run.probe options.build).ready ≡ true
    → (scenario_loop files run root options.build 0 got.1.scenarios >>= λ experiments.
        closing files options run root got.0 got.1 hash experiments)
      ≡ ok capture
    → Executed files options run root capture
unfolding captured
sealed files options run root got hash capture checked suite before ready h =
    let (read, decoded, valid) = suite_read files options.suite_path got suite in
    bind-ok (scenario_loop files run root options.build 0 got.1.scenarios) _ h
      (λ experiments ran h1.
        let (after, ordered, persisted, same) =
          closing-ok files options run root got.0 got.1 hash experiments capture h1 in
        subst (Executed files options run root) same (record {
          suite_bytes = got.0;
          suite = got.1;
          engine_hash = hash;
          controller = complete options checked;
          read = read;
          decoded = decoded;
          valid = valid;
          engine = before;
          unchanged = after;
          ready = ready;
          ordered = ordered;
          persisted = persisted;
          experiments = scenario_loop-Each files run root options.build 0 _ experiments ran;
          whole = refl;
        }))

pub execute_suite-Executed :
    (files : Files) (options : Options) (run : Run) (root : Bytes) (capture : Capture)
    → files.absolute options.repository_root ≡ some root
    → execute_suite files options run ≡ ok capture
    → Executed files options run root capture
unfolding execute_suite
execute_suite-Executed files options run root capture at h =
    bind-ok (validate_options options) _ h (λ _ checked h1.
      refuse-ok (run.context_done 0) _ _ h1 (λ _ h2.
        bind-ok (require_absent run.output) _ h2 (λ _ _ h3.
          bind-ok (read_suite files options.suite_path) _ h3 (λ got suite h4.
            bind-ok (or_else (files.absolute options.repository_root) no_root) _ h4
              (λ place found h5.
                bind-ok (or_else run.engine_before engine_unreadable) _ h5 (λ hash before h6.
                  refuse-ok _ _ _ h6 (λ ready h7.
                    subst (λ r. Executed files options run r capture)
                      (some-injective _ _ (sym (or_else-ok _ _ found) ∙ at))
                      (sealed files options run place got hash capture checked suite
                        (or_else-ok _ _ before) (not-false _ ready) h7))))))))
