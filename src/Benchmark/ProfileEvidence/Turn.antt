-- ===== src/Benchmark/ProfileEvidence/Turn.antt =====
-- A turn of the loop of `verifyProfileReport` of labctl-go/internal/benchmark/verify.go, over an experiment
-- that `ExecuteProfile` made.
use paraflow.Prelude.{
  ℕ, ◌+◌, ◌≤◌, ◌<◌, ◌≡◌, refl, sym, ap, subst, ◌∙◌, inl, inr, true, false, Option, some, List, [],
  ◌∷◌, arith, length, All, Each, each_nil, each_cons,
}
use paraflow.Prelude.Text.{Bytes, bytes_eq, bytes_eq_iff}
use paraflow.Prelude.Outcome.{Outcome, ok}
use paraflow.Protocol.Message.{WorkloadProjection}
use paraflow.Protocol.Response.{Codec}
use paraflow.BuildInfo.{Info}
use paraflow.Benchmark.Types.{Request, EngineBuild}
use paraflow.Benchmark.Engine.{EngineError, validate_engine_result}
use paraflow.Benchmark.Engine.Sound.{validate-Passed}
use paraflow.Benchmark.Profile.{ProfileEngineResult, validate_profile_engine_result}
use paraflow.Benchmark.Profile.Sound.{validate_profile-PassedProfile}
use paraflow.Benchmark.Suite.{Scenario, member}
use paraflow.Benchmark.Evidence.{Files, scenario_request, same_build}
use paraflow.Benchmark.Evidence.Alike.{same_build_refl, same_build-eq, same_summary_refl}
use paraflow.Benchmark.Evidence.Verify.{verify_engine_identity, require_stable_engine_build}
use paraflow.Benchmark.Evidence.Turn.{IsPlain, IsChecked, read_again, not_below}
use paraflow.Benchmark.ProfileEvidence.{
  ProfileExperiment, profile_workload_identity, profile_request, baseline_id, profile_id,
  same_profile_workload,
}
use paraflow.Benchmark.ProfileEvidence.Alike.{
  same_profile_workload_refl, same_profile_summary_refl, same_analysis_refl,
}
use paraflow.Benchmark.ProfileEvidence.Execute.{ProfileRun}
use paraflow.Benchmark.ProfileEvidence.Verify.{
  verify_analysis, verify_profile_experiment, verify_profiles,
}
use paraflow.Benchmark.ProfileEvidence.Ran.{Analyzed, RanProfile}
use paraflow.Benchmark.ProfileEvidence.Ids.{
  baseline_id-ne-profile_id, Made, Made-later, member-apart, fresh_baseline, fresh_profile,
}

-- What `RunProfileEngine` promises of a result that it returns.
abbrev pub IsProfileChecked :
    Codec
    → (ℕ → Request → WorkloadProjection → Outcome EngineError (ProfileEngineResult × ℕ))
    → Type 0
IsProfileChecked codec runner =
    (index : ℕ) (request : Request) (w : WorkloadProjection) (result : ProfileEngineResult) (o : ℕ)
    → runner index request w ≡ ok (result, o)
    → (validate_profile_engine_result codec result request w ≡ ok tt)
      × (result.timing.experiment_total_ns ≤ o)

-- The number of samples that a report retains.
abbrev pub report_samples : List ProfileExperiment → ℕ
report_samples [] = 0
report_samples (e ∷ es) =
    length e.baseline.engine_result.samples
    + length e.stage_profile.engine_result.samples
    + report_samples es

verify_analysis-Analyzed :
    (files : Files) (w : WorkloadProjection) (e : ProfileExperiment)
    → Analyzed files w e
    → verify_analysis files w e ≡ ok tt
unfolding verify_analysis
verify_analysis-Analyzed files w e a = rw (
  a.baseline,
  same_summary_refl e.baseline.summary,
  a.profile,
  same_profile_summary_refl e.stage_profile.summary,
  a.analysis,
  same_analysis_refl e.analysis,
)

module _ (files : Files) (run : ProfileRun) (root : Bytes) (controller : Info) (build : EngineBuild)
    (plain : IsPlain files root) (checked : IsChecked files.codec run.baseline_runner)
    (profile_checked : IsProfileChecked files.codec run.profile_runner)
    (version : build.version ≡ controller.version) where
  verify_profile_experiment-Ran :
      (index : ℕ) (ids : List Bytes) (stable : Option EngineBuild) (scenario : Scenario)
      (e : ProfileExperiment)
      → RanProfile files run root controller index scenario e
      → index < 64
      → Made index ids
      → require_stable_engine_build stable build ≡ ok build
      → e.baseline.engine_result.engine_build ≡ build
      → (verify_profile_experiment files root controller ids stable scenario e
          ≡ ok (
            build,
            length e.baseline.engine_result.samples + length e.stage_profile.engine_result.samples,
          ))
        × (e.baseline.engine_result.experiment_id ≡ baseline_id index)
        × (e.stage_profile.engine_result.experiment_id ≡ profile_id index)
  unfolding verify_profile_experiment verify_engine_identity
  verify_profile_experiment-Ran index ids stable scenario e r b before stays same =
      let baseline = e.baseline.engine_result in
      let profile = e.stage_profile.engine_result in
      let (valid, total) = checked index _ _ _ _ r.baseline_ran in
      let (profile_valid, profile_total) = profile_checked index _ _ _ _ r.profile_ran in
      let id : baseline.experiment_id ≡ baseline_id index =
        (bytes_eq_iff _ _).0 (validate-Passed _ _ _ _ valid).experiment in
      let id' : profile.experiment_id ≡ profile_id index =
        (bytes_eq_iff _ _).0 (validate_profile-PassedProfile _ _ _ _ profile_valid).experiment in
      let named : bytes_eq e.scenario_name scenario.name ≡ true = (bytes_eq_iff _ _).1 r.named in
      let identity = profile_workload_identity files scenario r.got.0 r.got.1 in
      let identified : same_profile_workload e.workload identity ≡ true =
        subst (λ w. same_profile_workload w identity ≡ true) (sym r.identified)
          (same_profile_workload_refl _) in
      let fresh : member baseline.experiment_id ids ≡ false =
        subst (λ x. member x ids ≡ false) (sym id)
          (member-apart _ ids (fresh_baseline index ids b before)) in
      let apart : member (profile_id index) (baseline_id index ∷ ids) ≡ false =
        member-apart _ _
          (λ q. baseline_id-ne-profile_id index index (sym q), fresh_profile index ids b before) in
      let fresh' : member profile.experiment_id (baseline.experiment_id ∷ ids) ≡ false =
        subst (λ x. member x (baseline.experiment_id ∷ ids) ≡ false) (sym id')
          (subst (λ x. member (profile_id index) (x ∷ ids) ≡ false) (sym id) apart) in
      let valid' : validate_engine_result files.codec baseline
            (scenario_request scenario baseline.experiment_id r.got.0) r.got.1
          ≡ ok tt =
        subst
          (λ x.
            validate_engine_result files.codec baseline (scenario_request scenario x r.got.0)
              r.got.1
            ≡ ok tt)
          (sym id) valid in
      let profile_valid' : validate_profile_engine_result files.codec profile
            (profile_request scenario profile.experiment_id r.got.0) r.got.1
          ≡ ok tt =
        subst
          (λ x.
            validate_profile_engine_result files.codec profile (profile_request scenario x r.got.0)
              r.got.1
            ≡ ok tt)
          (sym id') profile_valid in
      let builds : same_build baseline.engine_build profile.engine_build ≡ true =
        subst (λ x. same_build baseline.engine_build x ≡ true)
          (sym (same_build-eq profile.engine_build baseline.engine_build r.builds))
          (same_build_refl baseline.engine_build) in
      let right : bytes_eq baseline.engine_build.version controller.version ≡ true =
        (bytes_eq_iff _ _).1 (ap (λ x. x.version) same ∙ version) in
      let stays' : require_stable_engine_build stable baseline.engine_build ≡ ok build =
        subst (λ x. require_stable_engine_build stable x ≡ ok build) (sym same) stays in
      (
        rw (
          named,
          read_again files root scenario.workload r.got plain r.source,
          identified,
          fresh,
          fresh',
          valid',
          profile_valid',
          builds,
          r.aligned,
          right,
          stays',
          not_below baseline.timing.experiment_total_ns e.baseline.orchestration_total_ns total,
          not_below profile.timing.experiment_total_ns e.stage_profile.orchestration_total_ns
              profile_total,
          verify_analysis-Analyzed files r.got.1 e r.derived,
        ),
        id,
        id',
      )

  pub verify_profiles-Each :
      (index : ℕ) (ids : List Bytes) (stable : Option EngineBuild) (scenarios : List Scenario)
      (experiments : List ProfileExperiment)
      → Each (RanProfile files run root controller) index scenarios experiments
      → index + length scenarios ≤ 64
      → Made index ids
      → require_stable_engine_build stable build ≡ ok build
      → All (λ e. e.baseline.engine_result.engine_build ≡ build) experiments
      → verify_profiles files root controller ids stable scenarios experiments
        ≡ ok (report_samples experiments)
  unfolding verify_profiles require_stable_engine_build
  verify_profiles-Each index ids stable scenarios [] each_nil b before stays same = refl
  verify_profiles-Each index ids stable [] (e ∷ es) r b before stays same = elim r [ ]
  verify_profiles-Each index ids stable (s ∷ ss) (e ∷ es) (each_cons r rs) b before stays
        (same, more) =
      let (accepted, id, id') =
        verify_profile_experiment-Ran index ids stable s e r (omega arith) before stays same in
      let rest =
        verify_profiles-Each (index + 1)
          (e.stage_profile.engine_result.experiment_id ∷ e.baseline.engine_result.experiment_id
            ∷ ids)
          (some build) ss es rs (omega arith)
          (
            (index, omega arith, inr id'),
            ((index, omega arith, inl id), Made-later index ids before),
          )
          (rw (same_build_refl build)) more in
      rw (accepted, rest)
