-- ===== src/App/Run/Codes.antt =====
-- The exit codes of the commands.
use paraflow.Prelude.{
  ◌≡◌, ◌⊎◌, inl, inr, refl, Bool, true, false, ◌||◌, Option, none, List, [], ◌∷◌, ◌++◌,
  if◌then◌else◌, Bool-cases,
}
use paraflow.Prelude.Text.{Bytes, codes, bytes_eq, is_empty}
use paraflow.Prelude.Outcome.{Outcome, ok, err, panic}
use paraflow.Protocol.Message.{ResultV1}
use paraflow.Protocol.Response.{project_workload}
use paraflow.Doctor.{EnvironmentReport}
use paraflow.Doctor.Report.{report_text}
use paraflow.Doctor.Assess.{check}
use paraflow.App.{Exit, Writers, write, usage_error, command_error}
use paraflow.App.Options.{parse_benchmark_options, parse_profile_options}
use paraflow.App.VerifyOptions.{parse_verify_options}
use paraflow.App.Dependencies.{Dependencies, World, ReadFile, or_default}
use paraflow.App.Workload.{
  write_run_result, after_shutdown, after_execute, run_session, run_workload, panicked,
}
use paraflow.App.Reports.{
  benchmark_text, profile_text, receipt_text, write_json, readiness, doctor_report, run_doctor,
  run_verify, run_benchmark, run_profile, job,
}
use paraflow.App.Run.{
  Command, help_command, version_command, doctor_command, benchmark_command, profile_command,
  verify_command, run_command, unknown_command, command_of, help, none_left, run,
}

-- Code 0 comes with a standard output that took its text and nothing on the standard error, code 2 with
-- nothing on the standard output, and code 1 with at most one of the two written unless the standard
-- output fails.
pub data IsExit (writers : Writers) (e : Exit) : Type 0 where
  succeeded : e.code ≡ 0 → writers.stdout_fails ≡ false → e.stderr ≡ [] → IsExit writers e
  failed :
      e.code ≡ 1
      → (writers.stdout_fails ≡ true) ⊎ ((e.stdout ≡ []) ⊎ (e.stderr ≡ []))
      → IsExit writers e
  misused : e.code ≡ 2 → e.stdout ≡ [] → IsExit writers e

write-IsExit : (writers : Writers) (message : Bytes) → IsExit writers (write writers message)
unfolding write
write-IsExit writers message = elim (Bool-cases writers.stdout_fails) [
  | inl e ↦ failed (rw e refl) (inl e)
  | inr e ↦ succeeded (rw e refl) e (rw e refl)
]

usage_error-IsExit :
    (writers : Writers) (message : Bytes) → IsExit writers (usage_error writers message)
unfolding usage_error
usage_error-IsExit writers message = elim (Bool-cases writers.stderr_fails) [
  | inl e ↦ rw e (failed refl (inr (inl refl)))
  | inr e ↦ rw e (misused refl refl)
]

command_error-IsExit :
    (writers : Writers) (message : Bytes) → IsExit writers (command_error writers message)
unfolding command_error
command_error-IsExit writers message = elim (Bool-cases writers.stderr_fails) [
  | inl e ↦ rw e (failed refl (inr (inl refl)))
  | inr e ↦ rw e (failed refl (inr (inl refl)))
]

panicked-IsExit : {writers : Writers} → IsExit writers panicked
panicked-IsExit = misused refl refl

if-IsExit :
    {writers : Writers} (b : Bool) {x y : Exit}
    → IsExit writers x
    → IsExit writers y
    → IsExit writers (if b then x else y)
if-IsExit true h k = h
if-IsExit false h k = k

outcome-IsExit :
    {writers : Writers} {E A : Type 0} (r : Outcome E A) {f : E → Exit} {g : A → Exit}
    → ((e : E) → IsExit writers (f e))
    → ((a : A) → IsExit writers (g a))
    → IsExit writers (elim r [ err e ↦ f e | panic ↦ panicked | ok a ↦ g a ])
outcome-IsExit (err e) h k = h e
outcome-IsExit panic h k = panicked-IsExit
outcome-IsExit (ok a) h k = k a

command_error-code :
    (writers : Writers) (message : Bytes) → (command_error writers message).code ≡ 1
unfolding command_error
command_error-code writers message = elim (Bool-cases writers.stderr_fails) [
  | inl e ↦ rw e refl
  | inr e ↦ rw e refl
]

write_json-IsExit :
    (writers : Writers) (what reason : Bytes) (r : Outcome Bytes Bytes)
    → IsExit writers (write_json writers what reason r)
unfolding command_error
write_json-IsExit writers what reason (err why) = command_error-IsExit writers _
write_json-IsExit writers what reason panic = panicked-IsExit
write_json-IsExit writers what reason (ok text) = elim (Bool-cases writers.stdout_fails) [
  | inl e ↦ failed (rw (e, command_error-code writers _) refl) (inl e)
  | inr e ↦ succeeded (rw e refl) e (rw e refl)
]

readiness-IsExit :
    {writers : Writers} (ready : Bool) (exit : Exit)
    → IsExit writers exit
    → IsExit writers (readiness ready exit)
readiness-IsExit true exit (succeeded e w f) = rw e (succeeded refl w f)
readiness-IsExit false exit (succeeded e w f) = rw e (failed refl (inr (inr f)))
readiness-IsExit ready exit (failed e f) = rw e (failed refl f)
readiness-IsExit ready exit (misused e f) = rw e (misused refl f)

module _ {S : Type 0} (world : World S) (writers : Writers) where
  doctor_report-IsExit :
      (json : Bool) (report : EnvironmentReport)
      → IsExit writers (doctor_report world writers json report)
  unfolding doctor_report
  doctor_report-IsExit json report = readiness-IsExit report.ready _ (
      if-IsExit json
        (write_json-IsExit writers (codes "write doctor report") world.write_reason
          (world.report_json report))
        (write-IsExit writers (report_text report)))

  run_doctor-IsExit :
      (d : Dependencies S) (args : List Bytes) → IsExit writers (run_doctor world writers d args)
  unfolding run_doctor
  run_doctor-IsExit d [] =
      doctor_report-IsExit false
        (check world.quote world.host (or_default d.probe world.command_probe) d.build)
  run_doctor-IsExit d (a ∷ []) =
      if-IsExit (bytes_eq a (codes "--json"))
        (doctor_report-IsExit true
          (check world.quote world.host (or_default d.probe world.command_probe) d.build))
        (usage_error-IsExit writers _)
  run_doctor-IsExit d (a ∷ b ∷ rest) = usage_error-IsExit writers _

  run_verify-IsExit :
      (d : Dependencies S) (args : List Bytes) → IsExit writers (run_verify world writers d args)
  unfolding run_verify
  run_verify-IsExit d args =
      outcome-IsExit (parse_verify_options world.quote args) (λ why. usage_error-IsExit writers why)
        (λ parsed.
          outcome-IsExit (or_default d.verify_evidence world.verify_evidence parsed.0 d.read_file)
            (λ why. command_error-IsExit writers (codes "verify evidence: " ++ why))
            (λ receipt.
              if-IsExit parsed.1
                (write_json-IsExit writers (codes "write verification receipt") world.write_reason
                  (world.receipt_json receipt))
                (write-IsExit writers (receipt_text world.quote receipt))))

  run_benchmark-IsExit :
      (d : Dependencies S) (args : List Bytes) → IsExit writers (run_benchmark world writers d args)
  unfolding run_benchmark
  run_benchmark-IsExit d args =
      outcome-IsExit (parse_benchmark_options world.quote args)
        (λ why. usage_error-IsExit writers why)
        (λ options.
          outcome-IsExit
            (or_default d.run_benchmark world.execute_benchmark (job world writers d options))
            (λ why. command_error-IsExit writers (codes "benchmark suite: " ++ why))
            (λ capture.
              write-IsExit writers (benchmark_text world.quote options.output_path capture)))

  run_profile-IsExit :
      (d : Dependencies S) (args : List Bytes) → IsExit writers (run_profile world writers d args)
  unfolding run_profile
  run_profile-IsExit d args =
      outcome-IsExit (parse_profile_options world.quote args)
        (λ why. usage_error-IsExit writers why)
        (λ options.
          outcome-IsExit
            (or_default d.run_profile world.execute_profile (job world writers d options))
            (λ why. command_error-IsExit writers (codes "profile suite: " ++ why))
            (λ report. write-IsExit writers (profile_text world.quote options.output_path report)))

  after_shutdown-IsExit :
      (engine name : Bytes) (result : ResultV1) (p : S × Outcome Bytes Unit)
      → IsExit writers (after_shutdown world writers engine name result p).1
  unfolding write_run_result
  after_shutdown-IsExit engine name result (s, err why) = command_error-IsExit writers _
  after_shutdown-IsExit engine name result (s, panic) = panicked-IsExit
  after_shutdown-IsExit engine name result (s, ok done) = write-IsExit writers _

  after_execute-IsExit :
      (engine workload name : Bytes) (p : S × Outcome Bytes ResultV1)
      → IsExit writers (after_execute world writers engine workload name p).1
  after_execute-IsExit engine workload name (s, err why) = command_error-IsExit writers _
  after_execute-IsExit engine workload name (s, panic) = panicked-IsExit
  after_execute-IsExit engine workload name (s, ok result) =
      after_shutdown-IsExit engine name result (world.session.shutdown s)

  data Leaves : Exit × Option S → Type 0 where
    leaves : {p : Exit × Option S} → IsExit writers p.0 → Leaves p

  Leaves-IsExit : {p : Exit × Option S} → Leaves p → IsExit writers p.0
  Leaves-IsExit (leaves h) = h

  session-Leaves :
      {E A : Type 0} (r : Outcome E A) {f : E → Exit} {g : A → Exit × Option S}
      → ((e : E) → IsExit writers (f e))
      → ((a : A) → Leaves (g a))
      → Leaves (elim r [ err e ↦ (f e, none) | panic ↦ (panicked, none) | ok a ↦ g a ])
  session-Leaves (err e) h k = leaves (h e)
  session-Leaves panic h k = leaves panicked-IsExit
  session-Leaves (ok a) h k = k a

  after-Leaves : (p : S × Exit) (s : Option S) → IsExit writers p.1 → Leaves (p.1, s)
  after-Leaves p s h = leaves h

  run_session-Leaves :
      (read_file : ReadFile) (start_worker : Bytes → Outcome Bytes S) (engine workload : Bytes)
      → Leaves (run_session world writers read_file start_worker engine workload)
  unfolding run_session
  run_session-Leaves read_file start_worker engine workload =
      session-Leaves (read_file workload) (λ why. command_error-IsExit writers _)
        (λ source.
          session-Leaves (project_workload world.codec source)
            (λ why. command_error-IsExit writers _)
            (λ projection.
              session-Leaves (start_worker engine) (λ why. command_error-IsExit writers _)
                (λ s.
                  after-Leaves
                    (after_execute world writers engine workload projection.name
                      (world.session.execute source s))
                    _
                    (after_execute-IsExit engine workload projection.name
                      (world.session.execute source s)))))

  run_workload-IsExit :
      (read_file : Option ReadFile) (start_worker : Option (Bytes → Outcome Bytes S))
      (args : List Bytes)
      → IsExit writers (run_workload world writers read_file start_worker args).0
  unfolding run_workload
  run_workload-IsExit read_file start_worker [] = usage_error-IsExit writers _
  run_workload-IsExit read_file start_worker (a ∷ []) = usage_error-IsExit writers _
  run_workload-IsExit read_file start_worker (a ∷ b ∷ []) = usage_error-IsExit writers _
  run_workload-IsExit read_file start_worker (a ∷ b ∷ c ∷ d ∷ rest) = usage_error-IsExit writers _
  run_workload-IsExit read_file start_worker (flag ∷ engine ∷ workload ∷ []) =
      elim (Bool-cases (bytes_eq flag (codes "--engine"))) [
        | inr e ↦ rw e (usage_error-IsExit writers _)
        | inl e ↦ elim (Bool-cases (is_empty engine || is_empty workload)) [
          | inl f ↦ rw (e, f) (usage_error-IsExit writers _)
          | inr f ↦
              rw (e, f)
                (Leaves-IsExit (
                  run_session-Leaves (or_default read_file world.read_file)
                    (or_default start_worker world.start_worker) engine workload))
        ]
      ]

  command-IsExit :
      (c : Command) (d : Dependencies S) (word : Bytes) (args : List Bytes)
      → command_of word ≡ c
      → IsExit writers (run world writers d (word ∷ args)).0
  unfolding run
  command-IsExit help_command d word args e =
      rw (run, e)
        (if-IsExit (none_left args) (write-IsExit writers _) (usage_error-IsExit writers _))
  command-IsExit version_command d word args e =
      rw (run, e)
        (if-IsExit (none_left args) (write-IsExit writers _) (usage_error-IsExit writers _))
  command-IsExit doctor_command d word args e = rw (run, e) (run_doctor-IsExit d args)
  command-IsExit benchmark_command d word args e = rw (run, e) (run_benchmark-IsExit d args)
  command-IsExit profile_command d word args e = rw (run, e) (run_profile-IsExit d args)
  command-IsExit verify_command d word args e = rw (run, e) (run_verify-IsExit d args)
  command-IsExit run_command d word args e =
      rw (run, e) (run_workload-IsExit d.read_file d.start_worker args)
  command-IsExit unknown_command d word args e = rw (run, e) (usage_error-IsExit writers _)

  -- Every run of the program ends with code 0, 1 or 2. Code 0 comes with a standard
  -- output that does not fail and leaves nothing on the standard error, code 2 leaves nothing on the
  -- standard output, and code 1 writes to one of them at most unless the standard output fails.
  pub run-IsExit :
      (d : Dependencies S) (args : List Bytes) → IsExit writers (run world writers d args).0
  unfolding run
  run-IsExit d [] = write-IsExit writers help
  run-IsExit d (word ∷ args) = command-IsExit (command_of word) d word args refl
