-- ===== src/App/Run/Ready.antt =====
-- The exit code of `labctl doctor`.
use paraflow.Prelude.{◌≡◌, false, not, ◌||◌, [], ◌∷◌, if◌then◌else◌, all}
use paraflow.Prelude.Text.{codes, bytes_eq}
use paraflow.Doctor.Tools.{tools}
use paraflow.Doctor.Assess.{System, command_probe}
use paraflow.Doctor.Assess.Ready.{check-ready}
use paraflow.App.{Writers, write}
use paraflow.App.Dependencies.{Dependencies, World, or_default}
use paraflow.App.Reports.{doctor_report, run_doctor}
use paraflow.App.Run.{command_of, run}

module _ {S : Type 0} (world : World S) (writers : Writers) where
  -- With the host's own probe and writers that do not fail, `labctl doctor` exits with code 0 where
  -- every required tool is usable and with code 1 otherwise.
  pub run-doctor :
      (d : Dependencies S) (system : System)
      → or_default d.probe world.command_probe ≡ command_probe world.quote system
      → writers.stdout_fails ≡ false
      → (run world writers d (codes "doctor" ∷ [])).0.code ≡ (
          if all (λ t. not t.required || (command_probe world.quote system t).usable) tools
          then 0
          else 1)
  unfolding run run_doctor doctor_report write command_of bytes_eq
  run-doctor d system e f = rw (e, f, (check-ready world.quote world.host system d.build).1)
