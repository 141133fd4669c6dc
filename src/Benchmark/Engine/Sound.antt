-- ===== src/Benchmark/Engine/Sound.antt =====
-- `validateEngineResult` of engine.go: what a result that it accepts satisfies.
use paraflow.Prelude.{ℕ, ◌≤◌, ◌<◌, ◌≡◌, refl, ◌⊎◌, inl, inr, true, arith, length, All}
use paraflow.Prelude.Text.{Bytes, codes, bytes_eq, bytes_eq_iff}
use paraflow.Prelude.Outcome.{Outcome, ok, err, panic, map_err, >>=-eq-ok, map_err-eq-ok}
use paraflow.Prelude.Words.{u32_mod}
use paraflow.Protocol.Message.{WorkloadProjection, ResultV1}
use paraflow.Protocol.Response.{Codec, or_error, decode_result}
use paraflow.Protocol.Result.Sound.{IsConsistent, validate_result-IsConsistent}
use paraflow.Benchmark.Types.{Request, EngineResult}
use paraflow.Benchmark.Engine.{
  EngineError, bad_result, check_build, sample_loop, validate_engine_result,
}
use paraflow.Benchmark.Engine.Samples.{Conserved, retained_total, HasU64, sample_loop_iff}

-- The facts that the checks of `validateEngineResult` leave.
pub record Passed (codec : Codec) (result : EngineResult) (request : Request)
    (w : WorkloadProjection) : Type 0 where
  schema : bytes_eq result.schema_version (codes "paraflow.benchmark-engine-result/v1") ≡ true
  pub experiment : bytes_eq result.experiment_id request.experiment_id ≡ true
  scenario : bytes_eq result.scenario_name request.scenario_name ≡ true
  workload : bytes_eq result.workload_name w.name ≡ true
  release : check_build result.engine_build ≡ ok tt
  samples : length result.samples ≡ request.sampling.sample_iterations
  retained : ℕ
  loop : sample_loop 0 0 result.samples ≡ ok retained
  enough : retained ≤ result.timing.experiment_total_ns
  value : ResultV1
  decoded : decode_result codec result.result w ≡ ok value

pub outcome_cases :
    {A : Type 0} (m : Outcome EngineError A)
    → ((a : A) × (m ≡ ok a)) ⊎ (((e : EngineError) × (m ≡ err e)) ⊎ (m ≡ panic))
outcome_cases (ok a) = inl (a, refl)
outcome_cases (err e) = inr (inl (e, refl))
outcome_cases panic = inr (inr refl)

pub validate-Passed :
    (codec : Codec) (result : EngineResult) (request : Request) (w : WorkloadProjection)
    → validate_engine_result codec result request w ≡ ok tt
    → Passed codec result request w
unfolding validate_engine_result
validate-Passed codec result request w e = elim (outcome_cases (sample_loop 0 0 result.samples)) [
  | inr (inl (x, failed)) ↦ absurd (ground arith)
  | inr (inr failed) ↦ absurd (ground arith)
  | inl (total, es) ↦
      elim (outcome_cases (map_err bad_result (decode_result codec result.result w))) [
        | inr (inl (x, failed)) ↦ absurd (ground arith)
        | inr (inr failed) ↦ absurd (ground arith)
        | inl (v, ev) ↦ record {
          schema = ground arith;
          experiment = ground arith;
          scenario = ground arith;
          workload = ground arith;
          release = ground arith;
          samples = ground arith;
          retained = total;
          loop = es;
          enough = ground arith;
          value = v;
          decoded = map_err-eq-ok _ _ ev;
        }
      ]
]

pub decode_result-IsConsistent :
    (codec : Codec) (raw : Bytes) (w : WorkloadProjection) (v : ResultV1)
    → decode_result codec raw w ≡ ok v
    → IsConsistent w v
unfolding decode_result
decode_result-IsConsistent codec raw w v e =
    let (wire, _, e1) = >>=-eq-ok (or_error (codec.decode_wire_result raw) _) _ e in
    (validate_result-IsConsistent wire w v e1).0

-- What the controller relies on in an engine result for this request and this workload.
pub record IsValidated (codec : Codec) (request : Request) (w : WorkloadProjection)
    (result : EngineResult) : Type 0 where
  pub experiment : result.experiment_id ≡ request.experiment_id
  pub scenario : result.scenario_name ≡ request.scenario_name
  pub workload : result.workload_name ≡ w.name
  pub samples : length result.samples ≡ request.sampling.sample_iterations
  pub conserved : Conserved 0 result.samples
  pub within : retained_total result.samples ≤ result.timing.experiment_total_ns
  pub value : ResultV1
  pub decoded : decode_result codec result.result w ≡ ok value
  pub consistent : IsConsistent w value

-- An engine result that `validateEngineResult` accepts answers its request: it names the experiment, the
-- scenario and the workload that were asked for and holds as many samples as were asked for, numbered
-- in order; no sample's total is below its parts, the exact sum of the totals is within the experiment's
-- total, and its workload result decodes to one that is consistent with the workload. The timings are
-- u64 values and the sample count is a u32 value.
pub validate_engine_result-IsValidated :
    (codec : Codec) (result : EngineResult) (request : Request) (w : WorkloadProjection)
    → All HasU64 result.samples
    → request.sampling.sample_iterations < u32_mod
    → validate_engine_result codec result request w ≡ ok tt
    → IsValidated codec request w result
validate_engine_result-IsValidated codec result request w h n e =
    let p = validate-Passed codec result request w e in
    let (conserved, total, _) =
      (sample_loop_iff result.samples p.retained h (omega (arith, p.samples))).0 p.loop in
    record {
      experiment = (bytes_eq_iff _ _).0 p.experiment;
      scenario = (bytes_eq_iff _ _).0 p.scenario;
      workload = (bytes_eq_iff _ _).0 p.workload;
      samples = p.samples;
      conserved = conserved;
      within = omega (arith, p.enough);
      value = p.value;
      decoded = p.decoded;
      consistent = decode_result-IsConsistent codec _ w p.value p.decoded;
    }
