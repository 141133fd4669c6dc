-- ===== src/Protocol/Response/Sound.antt =====
-- `DecodeResponse` of protocol.go: what a response that it accepts satisfies.
use paraflow.Prelude.{
  ◌≤◌, ◌≡◌, refl, inl, inr, true, false, Option, none, some, List, [], ◌∷◌, arith, length, All,
  Option-cases,
}
use paraflow.Prelude.Text.{Bytes, bytes_eq_iff}
use paraflow.Prelude.Outcome.{ok}
use paraflow.Protocol.Message.{
  WorkloadProjection, ResultV1, RemoteIssue, Response, completed, remote_error, shutdown_ack,
  ResponseEnvelope, WireRemoteIssue, max_frame_bytes, job_result_schema, present, valid_message,
  valid_issue_code,
}
use paraflow.Protocol.Result.Sound.{IsConsistent, validate_result-IsConsistent}
use paraflow.Protocol.Response.{
  Codec, Kind, response_kind, completed_kind, error_kind, shutdown_ack_kind, other_kind, known_code,
  issue_loop, decode_result, decode_completed, decode_issue_list, decode_remote,
  decode_shutdown_ack, dispatch, decode_response,
}

abbrev pub IsValidIssue : RemoteIssue → Type 0
IsValidIssue i = (valid_issue_code i.code ≡ true) × (valid_message i.message ≡ true)

issue_loop-IsValidIssue :
    (ws : List WireRemoteIssue) (is : List RemoteIssue)
    → issue_loop ws ≡ ok is
    → All IsValidIssue is × (length is ≡ length ws)
unfolding issue_loop
issue_loop-IsValidIssue [] [] e = (tt, refl)
issue_loop-IsValidIssue [] (i ∷ is) e = cc
issue_loop-IsValidIssue (w ∷ ws) [] e = absurd (ground arith)
issue_loop-IsValidIssue (w ∷ ws) (i ∷ is) e = ground (arith, issue_loop-IsValidIssue ws is)

-- What a response is worth, given its envelope and the request that it answers: `none` is a shutdown
-- request.
abbrev pub Answers : ResponseEnvelope → Option WorkloadProjection → Response → Type 0
Answers env (some w) (completed r) = IsConsistent w r × (env.workload_name ≡ some w.name)
Answers env none (completed r) = ⊥
Answers env (some w) (remote_error e) =
    (known_code e.code ≡ true) × (valid_message e.message ≡ true) × All IsValidIssue e.issues
Answers env none (remote_error e) = ⊥
Answers env (some w) shutdown_ack = ⊥
Answers env none shutdown_ack =
    (env.workload_name ≡ none) × (env.execution ≡ []) × (env.result ≡ []) × (env.error ≡ [])

absent : (b : Bytes) → present b ≡ false → b ≡ []
absent [] h = refl
absent (x ∷ xs) h = absurd (ground arith)

module _ (codec : Codec) where
  decode_issue_list-All :
      (raw : Bytes) (is : List RemoteIssue)
      → decode_issue_list codec raw ≡ ok is
      → All IsValidIssue is
  unfolding decode_issue_list
  decode_issue_list-All raw [] e = tt
  decode_issue_list-All raw (i ∷ is) e = elim (Option-cases (codec.decode_issues raw)) [
    | inl bad ↦ absurd (ground arith)
    | inr (ws, good) ↦ ground (arith, issue_loop-IsValidIssue ws (i ∷ is))
  ]

  decode_result-IsConsistent :
      (raw : Bytes) (w : WorkloadProjection) (r : ResultV1)
      → decode_result codec raw w ≡ ok r
      → IsConsistent w r
  unfolding decode_result
  decode_result-IsConsistent raw w r e = elim (Option-cases (codec.decode_wire_result raw)) [
    | inl bad ↦ absurd (ground arith)
    | inr (wire, good) ↦ (validate_result-IsConsistent wire w r (ground arith)).0
  ]

  decode_remote-Answers :
      (env : ResponseEnvelope) (w : WorkloadProjection) (r : Response)
      → decode_remote codec env ≡ ok r
      → Answers env (some w) r
  unfolding decode_remote
  decode_remote-Answers env w (completed x) e = absurd (ground arith)
  decode_remote-Answers env w (remote_error x) e =
      elim (Option-cases (codec.decode_remote_error env.error)) [
        | inl missing ↦ absurd (ground arith)
        | inr (wire, given) ↦
            (ground arith, ground arith, decode_issue_list-All wire.issues x.issues (ground arith))
      ]
  decode_remote-Answers env w shutdown_ack e = absurd (ground arith)

  decode_completed-Answers :
      (env : ResponseEnvelope) (expected : Option WorkloadProjection) (r : Response)
      → decode_completed codec env expected ≡ ok r
      → Answers env expected r
  unfolding decode_completed
  decode_completed-Answers env none r e = absurd (ground arith)
  decode_completed-Answers env (some w) (completed x) e = elim (Option-cases env.workload_name) [
    | inl missing ↦ absurd (ground arith)
    | inr (name, given) ↦
        ground (arith, bytes_eq_iff name w.name, decode_result-IsConsistent env.result w x)
  ]
  decode_completed-Answers env (some w) (remote_error x) e = absurd (ground arith)
  decode_completed-Answers env (some w) shutdown_ack e = absurd (ground arith)

  decode_shutdown_ack-Answers :
      (env : ResponseEnvelope) (expected : Option WorkloadProjection) (r : Response)
      → decode_shutdown_ack codec env expected ≡ ok r
      → Answers env expected r
  unfolding decode_shutdown_ack
  decode_shutdown_ack-Answers env (some w) r e = absurd (ground arith)
  decode_shutdown_ack-Answers env none (completed x) e = absurd (ground arith)
  decode_shutdown_ack-Answers env none (remote_error x) e = absurd (ground arith)
  decode_shutdown_ack-Answers env none shutdown_ack e =
      ground (arith, absent env.execution, absent env.result, absent env.error)

  dispatch-Answers :
      (k : Kind) (env : ResponseEnvelope) (expected : Option WorkloadProjection) (r : Response)
      → dispatch codec k env expected ≡ ok r
      → Answers env expected r
  unfolding dispatch
  dispatch-Answers completed_kind env expected r e = decode_completed-Answers env expected r e
  dispatch-Answers error_kind env none r e = absurd (ground arith)
  dispatch-Answers error_kind env (some w) r e = decode_remote-Answers env w r e
  dispatch-Answers shutdown_ack_kind env expected r e = decode_shutdown_ack-Answers env expected r e
  dispatch-Answers other_kind env expected r e = absurd (ground arith)

-- A response that `DecodeResponse` accepts came in a frame within the limit and carries the schema and
-- the request id that were expected; a completed response answers an execute request for the workload
-- of that name, with a result consistent with it; an error response answers an execute request, with a
-- code of the closed set and valid texts in each issue; an acknowledgement answers a shutdown request
-- and has no field of the other variants.
pub decode_response-Answers :
    (codec : Codec) (frame id : Bytes) (expected : Option WorkloadProjection) (r : Response)
    → decode_response codec frame id expected ≡ ok r
    → (env : ResponseEnvelope) × (codec.decode_envelope frame ≡ some env)
      × (length frame ≤ max_frame_bytes)
      × (env.schema_version ≡ job_result_schema)
      × (env.request_id ≡ id)
      × Answers env expected r
unfolding decode_response
decode_response-Answers codec frame id expected r e =
    elim (Option-cases (codec.decode_envelope frame)) [
      | inl missing ↦ absurd (ground arith)
      | inr (env, given) ↦ (
        env,
        given,
        ground arith,
        (bytes_eq_iff _ _).0 (ground arith),
        (bytes_eq_iff _ _).0 (ground arith),
        dispatch-Answers codec (response_kind env.kind) env expected r (ground arith),
      )
    ]
