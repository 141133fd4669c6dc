-- ===== src/Worker/Session/Answer.antt =====
-- What a result of `Execute` says, and which failures end a session.
use paraflow.Prelude.{
  ◌≡◌, refl, sym, subst, ◌∙◌, ◌⊎◌, inl, inr, ◌≢◌, true, false, Option, some, ◌++◌, arith,
  if◌then◌else◌,
}
use paraflow.Prelude.Text.{Bytes}
use paraflow.Prelude.Outcome.{Outcome, ok, err, panic}
use paraflow.Protocol.Message.{
  WorkloadProjection, ResultV1, Response, ResponseEnvelope, completed, remote_error, shutdown_ack,
  ProtocolError, max_frame_bytes,
}
use paraflow.Protocol.Result.Sound.{IsConsistent}
use paraflow.Protocol.Response.{Codec, project_workload, encode_execute_frame, decode_response}
use paraflow.Protocol.Response.Sound.{Answers, decode_response-Answers}
use paraflow.Worker.Frame.{FrameError, read_frame}
use paraflow.Worker.Session.{
  Session, SessionError, session_is_open, unexpected_kind, Entry, Exchange, acquire, check_open,
  next_request_id, transact, send_execute, execute_held, execute, with_token, M, ◌>>=◌, proceed,
  lift, result_of, settle, read_buffer_bytes, close,
}

proceed-ok :
    {A B : Type 0} (f : A → M B) (r : Session × Outcome SessionError A) {b : B}
    → (proceed f r).1 ≡ ok b
    → (s : Session) × (a : A) × (r ≡ (s, ok a)) × ((f a s).1 ≡ ok b)
proceed-ok f (s, ok a) h = (s, a, refl, h)
proceed-ok f (s, err e) h = absurd (ground arith)
proceed-ok f (s, panic) h = absurd (ground arith)

proceed-err :
    {A B : Type 0} (f : A → M B) (r : Session × Outcome SessionError A) {e : SessionError}
    → (proceed f r).1 ≡ err e
    → (r.1 ≡ err e) ⊎ ((s : Session) × (a : A) × (r ≡ (s, ok a)) × ((f a s).1 ≡ err e))
proceed-err f (s, ok a) h = inr (s, a, refl, h)
proceed-err f (s, err e) h = inl (ground arith)
proceed-err f (s, panic) h = absurd (ground arith)

module _ (codec : Codec) where
  settle-decoded :
      (id : Bytes) (w : Option WorkloadProjection) (s t : Session) (r : Response)
      (f : Outcome FrameError (Bytes × Bytes))
      → settle codec id w f s ≡ (t, ok r)
      → (payload : Bytes) × (decode_response codec payload id w ≡ ok r)
  settle-decoded id w s t r (ok (payload, rest)) h = (payload, ground arith)
  settle-decoded id w s t r (err e) h = absurd (ground arith)
  settle-decoded id w s t r panic h = absurd (ground arith)

  -- An accepted response answers the request of that id.
  transact-Answers :
      (id : Bytes) (w : Option WorkloadProjection) (x : Exchange) (s t : Session) (r : Response)
      → transact codec id w x s ≡ (t, ok r)
      → (env : ResponseEnvelope) × (env.request_id ≡ id) × Answers env w r
  unfolding transact
  transact-Answers id w x s t r h =
      let s' : Session = if x.closed_meanwhile then close s else s in
      let read = read_frame read_buffer_bytes max_frame_bytes x.ending (s'.unread ++ x.arrived) in
      let settled : settle codec id w read s' ≡ (t, ok r) = ground arith in
      let (payload, e) = settle-decoded id w s' t r read settled in
      let (env, given, size, schema, same_id, a) = decode_response-Answers codec payload id w r e in
      (env, same_id, a)

  encode-projects :
      (id w frame : Bytes) (p : WorkloadProjection)
      → encode_execute_frame codec id w ≡ ok (frame, p)
      → project_workload codec w ≡ ok p
  unfolding encode_execute_frame
  encode-projects id w frame p h = ground arith

  lift-ok :
      {A : Type 0} (m : Outcome ProtocolError A) (s t : Session) (a : A)
      → lift m s ≡ (t, ok a)
      → m ≡ ok a
  lift-ok (ok b) s t a h = ground arith
  lift-ok (err e) s t a h = absurd (ground arith)
  lift-ok panic s t a h = absurd (ground arith)

  answered :
      (env : ResponseEnvelope) (p : WorkloadProjection) (s : Session) (resp : Response)
      (r : ResultV1)
      → (result_of codec resp s).1 ≡ ok r
      → Answers env (some p) resp
      → IsConsistent p r
  answered env p s (completed q) r h a =
      let same : q ≡ r = ground arith in subst (IsConsistent p) same a.0
  answered env p s (remote_error e) r h a = absurd (ground arith)
  answered env p s shutdown_ack r h a = absurd a

  sent_ok :
      (x : Exchange) (w id : Bytes) (s : Session) (r : ResultV1)
      → (send_execute codec x w id s).1 ≡ ok r
      → (p : WorkloadProjection) × (project_workload codec w ≡ ok p) × IsConsistent p r
  unfolding send_execute
  sent_ok x w id s r h =
      let (s1, (frame, p), e1, h1) =
        proceed-ok (λ q. transact codec id (some q.1) x >>= result_of codec)
          (lift (encode_execute_frame codec id w) s) h in
      let (s2, resp, e2, h2) = proceed-ok (result_of codec) (transact codec id (some p) x s1) h1 in
      let (env, same_id, a) = transact-Answers id (some p) x s1 s2 resp e2 in
      (
        p,
        encode-projects id w frame p (lift-ok (encode_execute_frame codec id w) s s1 (frame, p) e1),
        answered env p s2 resp r h2 a,
      )

  checked_open :
      (c : Entry) (s t : Session) (u : Unit {0})
      → check_open c s ≡ (t, ok u)
      → s.state ≡ session_is_open
  unfolding check_open
  checked_open c s t u h = ground arith

  acquired :
      (c : Entry) (s t : Session) (u : Unit {0}) → acquire c s ≡ (t, ok u) → t.state ≡ s.state
  unfolding acquire
  acquired c s t u h = ground arith

  -- A result that `Execute` returns came from an open session, for a workload that projects, and is
  -- consistent with that projection: whatever the engine process sent, nothing else is returned.
  pub execute-IsConsistent :
      (c : Entry) (x : Exchange) (w : Bytes) (s : Session) (r : ResultV1)
      → (execute codec c x w s).1 ≡ ok r
      → (s.state ≡ session_is_open)
        × ((p : WorkloadProjection) × (project_workload codec w ≡ ok p) × IsConsistent p r)
  unfolding execute execute_held
  execute-IsConsistent c x w s r h =
      let (s1, u1, e1, h1) =
        proceed-ok (λ u. with_token (execute_held codec c x w)) (acquire c s) h in
      let (s2, u2, e2, h2) =
        proceed-ok (λ u. next_request_id >>= send_execute codec x w) (check_open c s1) h1 in
      let (s3, id, e3, h3) = proceed-ok (send_execute codec x w) (next_request_id s2) h2 in
      (sym (acquired c s s1 u1 e1) ∙ checked_open c s1 s2 u2 e2, sent_ok x w id s3 r h3)

  transact_kind :
      (id : Bytes) (w : Option WorkloadProjection) (x : Exchange) (s : Session)
      → (transact codec id w x s).1 ≢ err unexpected_kind
  unfolding transact
  transact_kind id w x s h = ground arith

  -- A failed exchange ends the session: it is no longer open, and its process is killed and waited
  -- for, whether a write, a read, the frame or the response was at fault or the context was done. An
  -- exchange that succeeds leaves an open session open unless `Close` came between.
  pub transact_poisons :
      (id : Bytes) (w : Option WorkloadProjection) (x : Exchange) (s : Session)
      → ((e : SessionError)
          → (transact codec id w x s).1 ≡ err e
          → ((transact codec id w x s).0.state ≢ session_is_open)
            × ((transact codec id w x s).0.killed ≡ true)
            × ((transact codec id w x s).0.reaped ≡ true))
        × ((r : Response)
            → (transact codec id w x s).1 ≡ ok r
            → x.closed_meanwhile ≡ false
            → (transact codec id w x s).0.state ≡ s.state)
  unfolding transact
  transact_poisons id w x s = (λ e h. ground arith, λ r h k. ground arith)
