-- ===== src/Benchmark/Profile/Sound.antt =====
-- `validateProfileEngineResult` of profile_engine.go: what a result that it accepts satisfies.
use paraflow.Prelude.{ℕ, ◌≤◌, ◌<◌, ◌≡◌, inl, inr, true, arith, length, All}
use paraflow.Prelude.Text.{bytes_eq, bytes_eq_iff}
use paraflow.Prelude.Outcome.{ok, map_err, map_err-eq-ok}
use paraflow.Prelude.Words.{u32_mod, IsU64}
use paraflow.Protocol.Message.{WorkloadProjection, ResultV1}
use paraflow.Protocol.Response.{Codec, decode_result}
use paraflow.Protocol.Result.Sound.{IsConsistent}
use paraflow.Benchmark.Types.{Request}
use paraflow.Benchmark.Engine.{bad_result}
use paraflow.Benchmark.Engine.Sound.{outcome_cases, decode_result-IsConsistent}
use paraflow.Benchmark.Profile.{
  ProfileEngineResult, stages, profile_loop, validate_profile_engine_result,
}
use paraflow.Benchmark.Profile.Samples.{StagesAddUp, profile_retained, profile_loop-StagesAddUp}

-- The facts that the checks leave.
pub record PassedProfile (codec : Codec) (result : ProfileEngineResult) (request : Request)
    (w : WorkloadProjection) : Type 0 where
  pub experiment : bytes_eq result.experiment_id request.experiment_id ≡ true
  scenario : bytes_eq result.scenario_name request.scenario_name ≡ true
  workload : bytes_eq result.workload_name w.name ≡ true
  samples : length result.samples ≡ request.sampling.sample_iterations
  retained : ℕ
  loop : profile_loop 0 0 result.samples ≡ ok retained
  enough : retained ≤ result.timing.experiment_total_ns
  value : ResultV1
  decoded : decode_result codec result.result w ≡ ok value

pub validate_profile-PassedProfile :
    (codec : Codec) (result : ProfileEngineResult) (request : Request) (w : WorkloadProjection)
    → validate_profile_engine_result codec result request w ≡ ok tt
    → PassedProfile codec result request w
unfolding validate_profile_engine_result
validate_profile-PassedProfile codec result request w e =
    elim (outcome_cases (profile_loop 0 0 result.samples)) [
      | inr (inl (x, failed)) ↦ absurd (ground arith)
      | inr (inr failed) ↦ absurd (ground arith)
      | inl (total, es) ↦
          elim (outcome_cases (map_err bad_result (decode_result codec result.result w))) [
            | inr (inl (x, failed)) ↦ absurd (ground arith)
            | inr (inr failed) ↦ absurd (ground arith)
            | inl (v, ev) ↦ record {
              experiment = ground arith;
              scenario = ground arith;
              workload = ground arith;
              samples = ground arith;
              retained = total;
              loop = es;
              enough = ground arith;
              value = v;
              decoded = map_err-eq-ok _ _ ev;
            }
          ]
    ]

-- What the controller relies on in a profile result for this request and this workload.
pub record IsProfiled (codec : Codec) (request : Request) (w : WorkloadProjection)
    (result : ProfileEngineResult) : Type 0 where
  pub experiment : result.experiment_id ≡ request.experiment_id
  pub scenario : result.scenario_name ≡ request.scenario_name
  pub workload : result.workload_name ≡ w.name
  pub samples : length result.samples ≡ request.sampling.sample_iterations
  pub stages_add_up : StagesAddUp 0 result.samples
  pub within : profile_retained result.samples ≤ result.timing.experiment_total_ns
  pub value : ResultV1
  pub decoded : decode_result codec result.result w ≡ ok value
  pub consistent : IsConsistent w value

-- A profile result that `validateProfileEngineResult` accepts answers its request: it names the
-- experiment, the scenario and the workload that were asked for and holds as many samples as were asked
-- for, numbered in order; each stage sum is the exact sum of the five stages and within its sample's
-- total, the exact sum of the totals is within the experiment's total, and the workload result decodes
-- to one that is consistent with the workload. The stage timings are u64 values and the sample count is
-- a u32 value.
pub validate_profile_engine_result-IsProfiled :
    (codec : Codec) (result : ProfileEngineResult) (request : Request) (w : WorkloadProjection)
    → All (λ s. All IsU64 (stages s)) result.samples
    → request.sampling.sample_iterations < u32_mod
    → validate_profile_engine_result codec result request w ≡ ok tt
    → IsProfiled codec request w result
validate_profile_engine_result-IsProfiled codec result request w h n e =
    let p = validate_profile-PassedProfile codec result request w e in
    let (sums, total, _) =
      profile_loop-StagesAddUp 0 0 result.samples p.retained h (omega (arith, p.samples))
        (omega arith) p.loop in
    record {
      experiment = (bytes_eq_iff _ _).0 p.experiment;
      scenario = (bytes_eq_iff _ _).0 p.scenario;
      workload = (bytes_eq_iff _ _).0 p.workload;
      samples = p.samples;
      stages_add_up = sums;
      within = omega (arith, p.enough);
      value = p.value;
      decoded = p.decoded;
      consistent = decode_result-IsConsistent codec _ w p.value p.decoded;
    }
