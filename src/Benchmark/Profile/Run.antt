-- ===== src/Benchmark/Profile/Run.antt =====
-- `RunProfileEngine` of labctl-go/internal/benchmark/profile_engine.go. Its request has the fields of a
-- benchmark request; the decoder of its result is an argument beside the engine's world.
use paraflow.Prelude.{ℕ, ◌≤◌, ◌≡◌, sym, ap, subst, ◌∙◌, Option, none, some, ltb, arith}
use paraflow.Prelude.Text.{Bytes, codes}
use paraflow.Prelude.Outcome.{Outcome, ok, err, ◌>>=◌, ◌>>◌, refuse, bind-ok}
use paraflow.Protocol.Message.{WorkloadProjection}
use paraflow.Benchmark.Types.{Request}
use paraflow.Benchmark.Engine.{
  EngineError, decode_failed, orchestration_too_small, EngineWorld, run_one_shot_engine,
  duration_nanoseconds,
}
use paraflow.Benchmark.Profile.{ProfileEngineResult, validate_profile_engine_result}

unfoldable pub run_profile_engine :
    EngineWorld
    → (Bytes → Option ProfileEngineResult)
    → Bytes
    → Request
    → WorkloadProjection
    → Outcome EngineError (ProfileEngineResult × ℕ)
run_profile_engine world decode_profile_result engine_path request workload = do
  response ← run_one_shot_engine world engine_path (codes "profile") (world.marshal_request request)
  result ← (elim (decode_profile_result response) [
    | none ↦ err decode_failed
    | some value ↦ ok value
  ])
  validate_profile_engine_result world.codec result request workload
  let orchestration = duration_nanoseconds world.elapsed
  refuse (ltb orchestration result.timing.experiment_total_ns) orchestration_too_small
  ok (result, orchestration)

-- The last check of `RunProfileEngine`.
finish :
    (r : ProfileEngineResult) (elapsed : ℕ) (result : ProfileEngineResult) (o : ℕ)
    → ◌>>◌ {B = ProfileEngineResult × ℕ}
        (refuse (ltb elapsed r.timing.experiment_total_ns) orchestration_too_small)
        (ok (r, elapsed))
      ≡ ok (result, o)
    → (r ≡ result) × (r.timing.experiment_total_ns ≤ o)
finish r elapsed result o e = (ground arith, ground arith)

-- A result that `RunProfileEngine` returns is valid, and its total is within the orchestration time.
pub run_profile_engine-IsChecked :
    (world : EngineWorld) (decode_profile_result : Bytes → Option ProfileEngineResult)
    (path : Bytes) (request : Request) (w : WorkloadProjection) (result : ProfileEngineResult)
    (orchestration : ℕ)
    → run_profile_engine world decode_profile_result path request w ≡ ok (result, orchestration)
    → (validate_profile_engine_result world.codec result request w ≡ ok tt)
      × (result.timing.experiment_total_ns ≤ orchestration)
unfolding run_profile_engine
run_profile_engine-IsChecked world decode_profile_result path request w result orchestration h =
    bind-ok (run_one_shot_engine world path (codes "profile") (world.marshal_request request)) _ h
      (λ response _ h1.
        bind-ok
          (elim (decode_profile_result response) [
            | none ↦ err decode_failed
            | some value ↦ ok value
          ])
          _ h1
          (λ r _ h2.
            bind-ok (validate_profile_engine_result world.codec r request w) _ h2 (λ _ valid h3.
              let (same, bound) =
                finish r (duration_nanoseconds world.elapsed) result orchestration h3 in
              (
                ap (λ x. validate_profile_engine_result world.codec x request w) (sym same) ∙ valid,
                subst (λ x. x.timing.experiment_total_ns ≤ orchestration) same bound,
              ))))
