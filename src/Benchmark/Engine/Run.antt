-- ===== src/Benchmark/Engine/Run.antt =====
-- `RunEngine` of engine.go: what a run of the one-shot engine returns.
use mathlib.Core.List.{flatten}
use paraflow.Prelude.{
  ℕ, zero, suc, ◌+◌, ◌≤◌, ◌<◌, ◌≡◌, refl, sym, ap, subst, ◌∙◌, inl, inr, Bool, true, false, ◌&&◌,
  Option, none, some, [], ◌∷◌, arith, ltb, Option-cases, length, take, All,
}
use paraflow.Prelude.Text.{Bytes, codes}
use paraflow.Prelude.Utf8.{is_blank}
use paraflow.Prelude.Outcome.{
  Outcome, ok, ◌>>=◌, ◌>>◌, refuse, map_err, >>=-eq-ok, map_err-eq-ok, err, bind-ok, refuse-ok,
  ok-injective,
}
use paraflow.Prelude.Words.{u32_mod}
use paraflow.Protocol.Message.{WorkloadProjection, max_frame_bytes}
use paraflow.Benchmark.Types.{Request, EngineResult}
use paraflow.Benchmark.Payload.{
  PayloadError, one_shot_response_payload, new_capped_buffer, write_all,
}
use paraflow.Benchmark.Payload.Exact.{Terminated, payload_iff}
use paraflow.Benchmark.Payload.Capped.{write_all-new_capped}
use paraflow.Benchmark.Engine.{
  cancelled, decode_failed, empty_path, empty_subcommand, request_too_large, run_failed,
  output_overflow, empty_response, bad_payload, orchestration_too_small, EngineWorld,
  validate_engine_result, run_one_shot_engine, run_engine, duration_nanoseconds,
}
use paraflow.Benchmark.Engine.Samples.{HasU64}
use paraflow.Benchmark.Engine.Sound.{IsValidated, validate_engine_result-IsValidated, outcome_cases}

take-all : (n : ℕ) (s : Bytes) → length s ≤ n → take n s ≡ s
take-all zero [] h = refl
take-all (suc n) [] h = refl
take-all zero (c ∷ s) h = absurd (omega arith)
take-all (suc n) (c ∷ s) h = ap (λ r. c ∷ r) (take-all n s (omega arith))

-- The request that was sent, and the process's whole output, ended by at most one line ending and not
-- blank.
abbrev pub Exchanged : EngineWorld → Option Bytes → Bytes → Type 0
Exchanged world marshalled response =
    (sent : Bytes) × (marshalled ≡ some sent)
    × (length sent ≤ max_frame_bytes)
    × ((world.process sent).failed ≡ false)
    × Terminated response (flatten (world.process sent).stdout)
    × (length response ≤ max_frame_bytes)
    × (is_blank response ≡ false)

-- The checks of the output.
payload_check :
    (m : Outcome PayloadError Bytes) {r : Bytes}
    → (do response ← map_err bad_payload m; refuse (is_blank response) empty_response; ok response)
      ≡ ok r
    → (m ≡ ok r) × (is_blank r ≡ false)
payload_check m e = bind-ok (map_err bad_payload m) _ e (λ x given e1.
    refuse-ok (is_blank x) empty_response _ e1 (λ visible e2.
      let same = ok-injective _ _ e2 in
      (map_err-eq-ok _ m given ∙ ap ok same, ap is_blank (sym same) ∙ visible)))

-- The checks around one run of the process.
ladder :
    (before no_path no_sub large gone failed over : Bool) (m : Outcome PayloadError Bytes)
    {r : Bytes}
    → (do
      refuse before cancelled
      refuse no_path empty_path
      refuse no_sub empty_subcommand
      refuse large request_too_large
      refuse gone cancelled
      refuse failed run_failed
      refuse over output_overflow
      response ← map_err bad_payload m
      refuse (is_blank response) empty_response
      ok response)
      ≡ ok r
    → (large ≡ false) × (failed ≡ false) × (over ≡ false) × (m ≡ ok r) × (is_blank r ≡ false)
ladder false false false false false false false m e =
    let (given, visible) = payload_check m e in (refl, refl, refl, given, visible)
ladder true no_path no_sub large gone failed over m e = cc
ladder false true no_sub large gone failed over m e = cc
ladder false false true large gone failed over m e = cc
ladder false false false true gone failed over m e = cc
ladder false false false false true failed over m e = cc
ladder false false false false false true over m e = cc
ladder false false false false false false true m e = cc

not_above : (limit n : ℕ) → ltb limit n ≡ false → n ≤ limit
not_above limit n h = ground arith

-- The last check of `RunEngine`.
finish :
    (r : EngineResult) (elapsed : ℕ) (result : EngineResult) (o : ℕ)
    → ◌>>◌ {B = EngineResult × ℕ}
        (refuse (ltb elapsed r.timing.experiment_total_ns) orchestration_too_small)
        (ok (r, elapsed))
      ≡ ok (result, o)
    → (r ≡ result) × (r.timing.experiment_total_ns ≤ o)
finish r elapsed result o e = (ground arith, ground arith)

run_one_shot_engine-Exchanged :
    (world : EngineWorld) (path sub : Bytes) (marshalled : Option Bytes) (response : Bytes)
    → run_one_shot_engine world path sub marshalled ≡ ok response
    → Exchanged world marshalled response
unfolding run_one_shot_engine
run_one_shot_engine-Exchanged world path sub none response e = absurd (ground arith)
run_one_shot_engine-Exchanged world path sub (some sent) response e =
    let finished = world.process sent in
    let stdout = write_all (new_capped_buffer (max_frame_bytes + 3)) finished.stdout in
    let (fits, succeeded, room, e1, visible) =
      ladder world.cancelled_before (is_blank path) (is_blank sub)
        (ltb max_frame_bytes (length sent)) (finished.failed && finished.cancelled_meanwhile)
        finished.failed stdout.overflowed (one_shot_response_payload stdout.contents) e in
    let chunks = (world.process sent).stdout in
    let (contents, over) = write_all-new_capped (max_frame_bytes + 3) chunks in
    let whole =
      contents
      ∙ take-all (max_frame_bytes + 3) (flatten chunks) (not_above _ _ (sym over ∙ room)) in
    let (terminated, bound, _, _) = (payload_iff stdout.contents response).0 e1 in
    (
      sent,
      refl,
      not_above _ _ fits,
      succeeded,
      subst (Terminated response) whole terminated,
      bound,
      visible,
    )

-- A result that `RunEngine` returns is what the codec decodes from the whole output of one process that
-- was sent the marshalled request and did not fail, each within the frame limit and the output ended by
-- at most one LF or CRLF and not blank; the result is valid for the request and the workload, and the reported
-- orchestration time is not below the experiment's total. The timings are u64 values and the sample
-- count is a u32 value.
pub run_engine-IsValidated :
    (world : EngineWorld) (path : Bytes) (request : Request) (w : WorkloadProjection)
    (result : EngineResult) (orchestration : ℕ)
    → All HasU64 result.samples
    → request.sampling.sample_iterations < u32_mod
    → run_engine world path request w ≡ ok (result, orchestration)
    → ((response : Bytes) × Exchanged world (world.marshal_request request) response
        × (world.decode_engine_result response ≡ some result))
      × IsValidated world.codec request w result
      × (result.timing.experiment_total_ns ≤ orchestration)
unfolding run_engine
run_engine-IsValidated world path request w result orchestration h n e =
    let (response, e0, e1) =
      >>=-eq-ok (run_one_shot_engine world path (codes "benchmark") (world.marshal_request request))
        _ e in
    elim (Option-cases (world.decode_engine_result response)) [
      | inl failed ↦ absurd (ground arith)
      | inr (r, decoded) ↦ elim (outcome_cases (validate_engine_result world.codec r request w)) [
        | inr (inl (x, failed)) ↦ absurd (ground arith)
        | inr (inr failed) ↦ absurd (ground arith)
        | inl (u, valid) ↦
            let (same, bound) =
              finish r (duration_nanoseconds world.elapsed) result orchestration (ground arith) in
            (
              (
                response,
                run_one_shot_engine-Exchanged world path _ _ response e0,
                decoded ∙ ap some same,
              ),
              validate_engine_result-IsValidated world.codec result request w h n
                  (ap (λ x. validate_engine_result world.codec x request w) (sym same) ∙ valid),
              subst (λ x. x.timing.experiment_total_ns ≤ orchestration) same bound,
            )
      ]
    ]

-- A result that `RunEngine` returns is valid, and its total is within the orchestration time.
pub run_engine-IsChecked :
    (world : EngineWorld) (path : Bytes) (request : Request) (w : WorkloadProjection)
    (result : EngineResult) (orchestration : ℕ)
    → run_engine world path request w ≡ ok (result, orchestration)
    → (validate_engine_result world.codec result request w ≡ ok tt)
      × (result.timing.experiment_total_ns ≤ orchestration)
unfolding run_engine
run_engine-IsChecked world path request w result orchestration h =
    bind-ok (run_one_shot_engine world path (codes "benchmark") (world.marshal_request request)) _ h
      (λ response _ h1.
        bind-ok
          (elim (world.decode_engine_result response) [
            | none ↦ err decode_failed
            | some value ↦ ok value
          ])
          _ h1
          (λ r _ h2. bind-ok (validate_engine_result world.codec r request w) _ h2 (λ _ valid h3.
            let (same, bound) =
              finish r (duration_nanoseconds world.elapsed) result orchestration h3 in
            (
              ap (λ x. validate_engine_result world.codec x request w) (sym same) ∙ valid,
              subst (λ x. x.timing.experiment_total_ns ≤ orchestration) same bound,
            ))))
