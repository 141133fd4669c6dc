-- ===== src/Benchmark/ProfileEvidence/Executed.antt =====
-- What a run of `ExecuteProfile` of labctl-go/internal/benchmark/profile_execute.go that returned a report
-- has done.
use paraflow.Prelude.{◌≡◌, refl, sym, ap, subst, ◌∙◌, true, false, not, ◌||◌, some, List, ltb, Each}
use mathlib.Core.Option.{some-injective}
use paraflow.Prelude.Text.{Bytes, bytes_eq, bytes_eq_iff}
use paraflow.Prelude.Utf8.{is_blank}
use paraflow.Prelude.Outcome.{ok, ◌>>=◌, bind-ok, refuse-ok, ok-injective}
use paraflow.Doctor.Assess.{check}
use paraflow.Benchmark.Engine.{valid_source_state}
use paraflow.Benchmark.Suite.{Suite, validate_suite}
use paraflow.Benchmark.Evidence.{no_root, engine_unreadable, Files, or_else}
use paraflow.Benchmark.Evidence.Execute.{Options, validate_options, require_absent, read_suite}
use paraflow.Benchmark.Evidence.Read.{or_else-ok, not-false}
use paraflow.Benchmark.Evidence.Executed.{complete, suite_read}
use paraflow.Benchmark.ProfileEvidence.{ProfileExperiment, ScalarProfileReport}
use paraflow.Benchmark.ProfileEvidence.Execute.{
  ProfileRun, profile_scenarios, reported, profile_closing, execute_profile,
}
use paraflow.Benchmark.ProfileEvidence.Ran.{RanProfile, profile_scenarios-Each}

-- The run that led to a report.
pub record ExecutedProfile (files : Files) (options : Options) (run : ProfileRun) (root : Bytes)
    (report : ScalarProfileReport) : Type 0 where
  pub suite_bytes : Bytes
  pub suite : Suite
  pub engine_hash : Bytes
  pub controller :
      is_blank options.build.version
        || (is_blank options.build.full_commit
            || not (valid_source_state options.build.source_state))
      ≡ false
  pub read : files.read_file options.suite_path ≡ some suite_bytes
  pub decoded : files.decode_suite suite_bytes ≡ some suite
  pub valid : validate_suite suite ≡ ok tt
  pub engine : run.engine_before ≡ some engine_hash
  pub unchanged : run.engine_after ≡ some engine_hash
  pub ready : (check run.quote run.host run.probe options.build).ready ≡ true
  pub ordered : ltb run.completed_at run.started_at ≡ false
  pub persisted : run.persist report ≡ true
  pub experiments :
      Each (RanProfile files run root options.build) 0 suite.scenarios report.experiments
  pub whole :
      report ≡ reported files options run root suite_bytes suite engine_hash report.experiments

-- The last steps, behind the loop.
profile_closing-ok :
    (files : Files) (options : Options) (run : ProfileRun) (root suite_bytes : Bytes)
    (suite : Suite) (engine_hash : Bytes) (experiments : List ProfileExperiment)
    (report : ScalarProfileReport)
    → profile_closing files options run root suite_bytes suite engine_hash experiments ≡ ok report
    → let made = reported files options run root suite_bytes suite engine_hash experiments in
      (run.engine_after ≡ some engine_hash)
      × (ltb run.completed_at run.started_at ≡ false)
      × (run.persist made ≡ true)
      × (made ≡ report)
unfolding profile_closing
profile_closing-ok files options run root suite_bytes suite engine_hash experiments report h =
    bind-ok (or_else run.engine_after engine_unreadable) _ h (λ final e h1.
      refuse-ok (not (bytes_eq final engine_hash)) _ _ h1 (λ same h2.
        refuse-ok (ltb run.completed_at run.started_at) _ _ h2 (λ ordered h3.
          refuse-ok _ _ _ h3 (λ persisted last. (
            or_else-ok _ _ e ∙ ap some ((bytes_eq_iff final engine_hash).0 (not-false _ same)),
            ordered,
            not-false _ persisted,
            ok-injective _ _ last,
          )))))

profile_sealed :
    (files : Files) (options : Options) (run : ProfileRun) (root : Bytes) (got : Bytes × Suite)
    (hash : Bytes) (report : ScalarProfileReport)
    → validate_options options ≡ ok tt
    → read_suite files options.suite_path ≡ ok got
    → run.engine_before ≡ some hash
    → (check run.quote run.host run.probe options.build).ready ≡ true
    → (profile_scenarios files run root options.build 0 got.1.scenarios >>= λ experiments.
        profile_closing files options run root got.0 got.1 hash experiments)
      ≡ ok report
    → ExecutedProfile files options run root report
unfolding reported
profile_sealed files options run root got hash report checked suite before ready h =
    let (read, decoded, valid) = suite_read files options.suite_path got suite in
    bind-ok (profile_scenarios files run root options.build 0 got.1.scenarios) _ h
      (λ experiments ran h1.
        let (after, ordered, persisted, same) =
          profile_closing-ok files options run root got.0 got.1 hash experiments report h1 in
        subst (ExecutedProfile files options run root) same (record {
          suite_bytes = got.0;
          suite = got.1;
          engine_hash = hash;
          controller = complete options checked;
          read = read;
          decoded = decoded;
          valid = valid;
          engine = before;
          unchanged = after;
          ready = ready;
          ordered = ordered;
          persisted = persisted;
          experiments = profile_scenarios-Each files run root options.build 0 _ experiments ran;
          whole = refl;
        }))

pub execute_profile-ExecutedProfile :
    (files : Files) (options : Options) (run : ProfileRun) (root : Bytes)
    (report : ScalarProfileReport)
    → files.absolute options.repository_root ≡ some root
    → execute_profile files options run ≡ ok report
    → ExecutedProfile files options run root report
unfolding execute_profile
execute_profile-ExecutedProfile files options run root report at h =
    bind-ok (validate_options options) _ h (λ _ checked h1.
      refuse-ok (run.context_done 0) _ _ h1 (λ _ h2.
        bind-ok (require_absent run.output) _ h2 (λ _ _ h3.
          bind-ok (read_suite files options.suite_path) _ h3 (λ got suite h4.
            bind-ok (or_else (files.absolute options.repository_root) no_root) _ h4
              (λ place found h5.
                bind-ok (or_else run.engine_before engine_unreadable) _ h5 (λ hash before h6.
                  refuse-ok _ _ _ h6 (λ ready h7.
                    subst (λ r. ExecutedProfile files options run r report)
                      (some-injective _ _ (sym (or_else-ok _ _ found) ∙ at))
                      (profile_sealed files options run place got hash report checked suite
                        (or_else-ok _ _ before) (not-false _ ready) h7))))))))
