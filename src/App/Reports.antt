-- ===== src/App/Reports.antt =====
-- `runDoctor`, `runVerify`, `runBenchmark` and `runProfile` of labctl-go/internal/app/app.go.
use paraflow.Benchmark.Receipts.{EvidenceVerification}
use paraflow.Prelude.{suc, ℕ, Bool, true, false, List, [], ◌∷◌, ◌++◌, if◌then◌else◌, ◌==◌, take}
use paraflow.Prelude.Text.{Bytes, codes, bytes_eq}
use paraflow.Prelude.Strings.{decimal}
use paraflow.Prelude.Outcome.{Outcome, ok, err, panic}
use paraflow.Doctor.{EnvironmentReport}
use paraflow.Doctor.Assess.{check}
use paraflow.Doctor.Report.{joined, report_text}
use paraflow.App.{Exit, Writers, write, usage_error, command_error, line_end}
use paraflow.App.Options.{CaptureOptions, parse_benchmark_options, parse_profile_options}
use paraflow.App.VerifyOptions.{parse_verify_options}
use paraflow.App.Dependencies.{
  BenchmarkLine, CaptureSummary, ProfileLine, ProfileReport, Job, Dependencies, World, or_default,
}
use paraflow.App.Workload.{panicked}

-- The encoder on the standard output; `reason` is the error of the writer, which may come behind the
-- first bytes.
abbrev pub write_json : Writers → Bytes → Bytes → Outcome Bytes Bytes → Exit
write_json writers what reason (err why) = command_error writers (what ++ (codes ": " ++ why))
write_json writers what reason panic = panicked
write_json writers what reason (ok text) =
    if writers.stdout_fails
    then record (command_error writers (what ++ (codes ": " ++ reason))) {
      stdout = take writers.stdout_room (text ++ line_end);
    }
    else record { code = 0; stdout = text ++ line_end; stderr = [] }

-- The end of `runDoctor`.
abbrev pub readiness : Bool → Exit → Exit
readiness ready exit =
    if exit.code == 0 then record exit { code = if ready then 0 else 1 } else exit

-- The lines of the capture and of the report.
pub benchmark_line : BenchmarkLine → Bytes
benchmark_line line =
    codes "- "
    ++ (line.scenario_name
        ++ (codes ": samples="
            ++ (decimal line.samples
                ++ (codes " generation_median_ns="
                    ++ (decimal line.generation_median
                        ++ (codes " pipeline_median_ns="
                            ++ (decimal line.pipeline_median
                                ++ (codes " engine_total_median_ns="
                                    ++ (decimal line.engine_total_median ++ line_end)))))))))

pub benchmark_lines : List BenchmarkLine → Bytes
unfolding benchmark_line
benchmark_lines [] = []
benchmark_lines (line ∷ rest) = benchmark_line line ++ benchmark_lines rest

pub profile_line : ProfileLine → Bytes
profile_line line =
    codes "- "
    ++ (line.scenario_name
        ++ (codes ": records="
            ++ (decimal line.record_count
                ++ (codes " fused_pipeline_median_ns="
                    ++ (decimal line.fused_median
                        ++ (codes " dominant_stage="
                            ++ (line.dominant_stage
                                ++ (codes " dominant_pipeline_stage="
                                    ++ (line.dominant_pipeline_stage
                                        ++ (codes " stage_pass_to_fused_ratio_milli="
                                            ++ (decimal line.ratio_milli ++ line_end)))))))))))

pub profile_lines : List ProfileLine → Bytes
unfolding profile_line
profile_lines [] = []
profile_lines (line ∷ rest) = profile_line line ++ profile_lines rest

abbrev pub count_lines {ℓ} : {A : Type ℓ} → List A → ℕ
count_lines [] = 0
count_lines (line ∷ rest) = suc (count_lines rest)

-- The summary of the capture.
unfoldable pub benchmark_text : (Bytes → Bytes) → Bytes → CaptureSummary → Bytes
unfolding benchmark_lines joined
benchmark_text quote output_path capture = joined (
    codes "capture: "
    ∷ output_path
    ∷ line_end
    ∷ codes "suite: "
    ∷ quote capture.suite_name
    ∷ line_end
    ∷ codes "scenarios: "
    ∷ decimal (count_lines capture.experiments)
    ∷ line_end
    ∷ benchmark_lines capture.experiments
    ∷ codes "raw samples retained; no speedup claim is implied"
    ∷ [])

-- The summary of the report.
unfoldable pub profile_text : (Bytes → Bytes) → Bytes → ProfileReport → Bytes
unfolding profile_lines joined
profile_text quote output_path report = joined (
    codes "report: "
    ∷ output_path
    ∷ line_end
    ∷ codes "suite: "
    ∷ quote report.suite_name
    ∷ line_end
    ∷ codes "scenarios: "
    ∷ decimal (count_lines report.experiments)
    ∷ line_end
    ∷ profile_lines report.experiments
    ∷ codes "raw fused and stage-pass samples retained; observer ratio is not a speedup claim"
    ∷ [])

-- The text of the receipt.
unfoldable pub receipt_text : (Bytes → Bytes) → EvidenceVerification → Bytes
unfolding joined
receipt_text quote v = joined (
    codes "evidence: "
    ∷ v.evidence_path
    ∷ line_end
    ∷ codes "status: "
    ∷ v.status
    ∷ line_end
    ∷ codes "schema: "
    ∷ v.evidence_schema
    ∷ line_end
    ∷ codes "suite: "
    ∷ quote v.suite_name
    ∷ line_end
    ∷ codes "experiments: "
    ∷ decimal v.experiment_count
    ∷ line_end
    ∷ codes "retained_samples: "
    ∷ decimal v.retained_sample_count
    ∷ line_end
    ∷ codes "repository_identities: "
    ∷ decimal v.repository_identities_verified
    ∷ line_end
    ∷ codes "engine_artifact: "
    ∷ (if v.engine_artifact_verified
        then codes "SHA-256 verified"
        else codes "identity recorded; bytes not supplied")
    ∷ line_end
    ∷ codes "evidence_sha256: "
    ∷ v.evidence_sha256
    ∷ [])

module _ {S : Type 0} (world : World S) (writers : Writers) where
  -- `runDoctor` behind its arguments.
  unfoldable pub doctor_report : Bool → EnvironmentReport → Exit
  unfolding report_text
  doctor_report json report = readiness report.ready (
      if json
      then write_json writers (codes "write doctor report") world.write_reason
          (world.report_json report)
      else write writers (report_text report))

  -- `runDoctor`.
  unfoldable pub run_doctor : Dependencies S → List Bytes → Exit
  unfolding doctor_report
  run_doctor d args =
      let report = check world.quote world.host (or_default d.probe world.command_probe) d.build in
      elim args [
        | [] ↦ doctor_report false report
        | a ∷ rest ↦ elim rest [
          | [] ↦
              if bytes_eq a (codes "--json")
              then doctor_report true report
              else usage_error writers (codes "doctor accepts only the optional --json flag")
          | b ∷ more ↦ usage_error writers (codes "doctor accepts only the optional --json flag")
        ]
      ]

  -- `runVerify`.
  unfoldable pub run_verify : Dependencies S → List Bytes → Exit
  unfolding receipt_text
  run_verify d args = elim (parse_verify_options world.quote args) [
    | err why ↦ usage_error writers why
    | panic ↦ panicked
    | ok parsed ↦ elim (or_default d.verify_evidence world.verify_evidence parsed.0 d.read_file) [
      | err why ↦ command_error writers (codes "verify evidence: " ++ why)
      | panic ↦ panicked
      | ok receipt ↦
          if parsed.1
          then write_json writers (codes "write verification receipt") world.write_reason
              (world.receipt_json receipt)
          else write writers (receipt_text world.quote receipt)
    ]
  ]

  abbrev pub job : Dependencies S → CaptureOptions → Job
  job d options = record {
    options = options;
    build = d.build;
    probe = d.probe;
    read_file = d.read_file;
  }

  -- `runBenchmark`.
  unfoldable pub run_benchmark : Dependencies S → List Bytes → Exit
  unfolding benchmark_text
  run_benchmark d args = elim (parse_benchmark_options world.quote args) [
    | err why ↦ usage_error writers why
    | panic ↦ panicked
    | ok options ↦ elim (or_default d.run_benchmark world.execute_benchmark (job d options)) [
      | err why ↦ command_error writers (codes "benchmark suite: " ++ why)
      | panic ↦ panicked
      | ok capture ↦ write writers (benchmark_text world.quote options.output_path capture)
    ]
  ]

  -- `runProfile`.
  unfoldable pub run_profile : Dependencies S → List Bytes → Exit
  unfolding profile_text
  run_profile d args = elim (parse_profile_options world.quote args) [
    | err why ↦ usage_error writers why
    | panic ↦ panicked
    | ok options ↦ elim (or_default d.run_profile world.execute_profile (job d options)) [
      | err why ↦ command_error writers (codes "profile suite: " ++ why)
      | panic ↦ panicked
      | ok report ↦ write writers (profile_text world.quote options.output_path report)
    ]
  ]
