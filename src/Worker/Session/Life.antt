-- ===== src/Worker/Session/Life.antt =====
-- The life of a session: what holds between two calls, and what a poisoned or closed session does.
use paraflow.Prelude.{
  ◌≡◌, refl, ◌∙◌, ◌⊎◌, ◌≢◌, true, false, Option, none, some, List, [], ◌∷◌, arith,
}
use paraflow.Prelude.Text.{Bytes}
use paraflow.Prelude.Outcome.{Outcome, ok, err, panic}
use paraflow.Protocol.Message.{
  WorkloadProjection, Response, completed, remote_error, shutdown_ack, ProtocolError,
}
use paraflow.Protocol.Response.{Codec, encode_execute_frame, encode_shutdown_frame}
use paraflow.Worker.Session.{
  Session, SessionError, session_is_open, session_is_closed, session_is_poisoned, session_closed,
  session_poisoned, Entry, Exchange, Exit, Call, executes, shuts_down, closes, start, acquire,
  check_open, next_request_id, transact, send_execute, send_shutdown, with_token, execute_held,
  shutdown_held, step, run, release, M, proceed, ◌>>=◌, lift, result_of, acknowledged,
}

-- An open session has all its handles; a poisoned one has been waited for and knows its cause; a
-- closed one has closed its input. The flag for the token is apart, since a call holds the token.
pub record IsSound (s : Session) : Type 0 where
  pub open_intact :
      s.state ≡ session_is_open
      → (s.input_closed ≡ false)
        × (s.output_closed ≡ false)
        × (s.killed ≡ false)
        × (s.reaped ≡ false)
  pub poisoned_reaped :
      s.state ≡ session_is_poisoned
      → (s.output_closed ≡ true) × (s.reaped ≡ true) × (s.cause ≢ none)
  pub closed_input : s.state ≡ session_is_closed → s.input_closed ≡ true

-- What a dead session still changes: its handles, and a poisoned one may be closed.
abbrev pub Dead : Session → Session → Type 0
Dead s t = (t.state ≢ session_is_open) × (t.sequence ≡ s.sequence) × (t.unread ≡ s.unread)

abbrev Keeps : {A : Type 0} → M A → Type 0
Keeps m = (s : Session) → IsSound s → IsSound (m s).0

proceed-IsSound :
    {A B : Type 0} (f : A → M B)
    → ((a : A) → Keeps (f a))
    → (r : Session × Outcome SessionError A) → IsSound r.0
    → IsSound (proceed f r).0
proceed-IsSound f hf (s, ok a) h = hf a s h
proceed-IsSound f hf (s, err e) h = h
proceed-IsSound f hf (s, panic) h = h

bind-IsSound :
    {A B : Type 0} (m : M A) (f : A → M B) → Keeps m → ((a : A) → Keeps (f a)) → Keeps (m >>= f)
bind-IsSound m f hm hf s h = proceed-IsSound f hf (m s) (hm s h)

lift-IsSound : {A : Type 0} (r : Outcome ProtocolError A) → Keeps (lift r)
lift-IsSound (ok a) s h = h
lift-IsSound (err e) s h = h
lift-IsSound panic s h = h

check_open-IsSound : (c : Entry) → Keeps (check_open c)
unfolding check_open
check_open-IsSound c s h = ground arith

next_request_id-IsSound : Keeps next_request_id
unfolding next_request_id
next_request_id-IsSound s h = ground arith

acquire-IsSound : (c : Entry) → Keeps (acquire c)
unfolding acquire
acquire-IsSound c s h = ground arith

module _ (codec : Codec) where
  transact-IsSound :
      (id : Bytes) (w : Option WorkloadProjection) (x : Exchange) → Keeps (transact codec id w x)
  unfolding transact
  transact-IsSound id w x s h = ground arith

  result_of-IsSound : (r : Response) → Keeps (result_of codec r)
  result_of-IsSound (completed r) s h = h
  result_of-IsSound (remote_error r) s h = h
  result_of-IsSound shutdown_ack s h = ground arith

  acknowledged-IsSound : (e : Exit) (r : Response) → Keeps (acknowledged codec e r)
  acknowledged-IsSound e (completed r) s h = ground arith
  acknowledged-IsSound e (remote_error r) s h = ground arith
  acknowledged-IsSound e shutdown_ack s h = ground arith

  send_execute-IsSound : (x : Exchange) (w id : Bytes) → Keeps (send_execute codec x w id)
  unfolding send_execute
  send_execute-IsSound x w id =
      bind-IsSound (lift (encode_execute_frame codec id w))
        (λ p. transact codec id (some p.1) x >>= result_of codec)
        (lift-IsSound (encode_execute_frame codec id w))
        (λ p.
          bind-IsSound (transact codec id (some p.1) x) (result_of codec)
            (transact-IsSound id (some p.1) x) result_of-IsSound)

  send_shutdown-IsSound :
      (x : Exchange) (e : Exit) (id : Bytes) → Keeps (send_shutdown codec x e id)
  unfolding send_shutdown
  send_shutdown-IsSound x e id =
      bind-IsSound (lift (encode_shutdown_frame codec id))
        (λ p. transact codec id none x >>= acknowledged codec e)
        (lift-IsSound (encode_shutdown_frame codec id))
        (λ p.
          bind-IsSound (transact codec id none x) (acknowledged codec e)
            (transact-IsSound id none x) (acknowledged-IsSound e))

  -- Any request behind the check and the id.
  request-IsSound :
      {A : Type 0} (c : Entry) (f : Bytes → M A)
      → ((id : Bytes) → Keeps (f id))
      → Keeps (check_open c >>= (λ u. next_request_id >>= f))
  request-IsSound c f h =
      bind-IsSound (check_open c) (λ u. next_request_id >>= f) (check_open-IsSound c)
        (λ u. bind-IsSound next_request_id f next_request_id-IsSound h)

  release-IsSound : (s : Session) → IsSound s → IsSound (release s)
  release-IsSound s h = ground arith

  held-IsSound : {A : Type 0} (m : M A) → Keeps m → Keeps (with_token m)
  held-IsSound m h s k = release-IsSound (m s).0 (h s k)

  step-IsSound : (s : Session) (c : Call) → IsSound s → IsSound (step codec s c)
  unfolding step execute_held shutdown_held
  step-IsSound s (executes c x w) h =
      bind-IsSound (acquire c) (λ u. with_token (execute_held codec c x w)) (acquire-IsSound c)
        (λ u.
          held-IsSound (execute_held codec c x w)
            (request-IsSound c (send_execute codec x w) (send_execute-IsSound x w)))
        s h
  step-IsSound s (shuts_down c x e) h =
      bind-IsSound (acquire c) (λ u. with_token (shutdown_held codec c x e)) (acquire-IsSound c)
        (λ u.
          held-IsSound (shutdown_held codec c x e)
            (request-IsSound c (send_shutdown codec x e) (send_shutdown-IsSound x e)))
        s h
  step-IsSound s closes h = ground arith

  run-IsSound : (s : Session) (cs : List Call) → IsSound s → IsSound (run codec s cs)
  unfolding run
  run-IsSound s [] h = h
  run-IsSound s (c ∷ cs) h = run-IsSound (step codec s c) cs (step-IsSound s c h)

  step-token : (s : Session) (c : Call) → s.token ≡ true → (step codec s c).token ≡ true
  unfolding step acquire
  step-token s (executes c x w) h = ground arith
  step-token s (shuts_down c x e) h = ground arith
  step-token s closes h = h

  run-token : (s : Session) (cs : List Call) → s.token ≡ true → (run codec s cs).token ≡ true
  unfolding run
  run-token s [] h = h
  run-token s (c ∷ cs) h = run-token (step codec s c) cs (step-token s c h)

  start-IsSound : IsSound start
  unfolding start
  start-IsSound = ground arith

  -- After any calls on a started session, whatever the process did and whenever `Close` came between:
  -- an open session has its pipes and a process that was not killed, a poisoned one has a cause and a
  -- process that was waited for, a closed one has closed its input, and the request token is back.
  pub run-start-IsSound :
      (cs : List Call) → IsSound (run codec start cs) × ((run codec start cs).token ≡ true)
  run-start-IsSound cs =
      (run-IsSound start cs start-IsSound, run-token start cs (unfold start in refl))

  check_open-Dead :
      {A : Type 0} (c : Entry) (f : Bytes → M A) (s : Session)
      → s.state ≢ session_is_open
      → Dead s ((check_open c >>= (λ u. next_request_id >>= f)) s).0
        × (((check_open c >>= (λ u. next_request_id >>= f)) s).1 ≡ err session_closed
            ⊎ (((check_open c >>= (λ u. next_request_id >>= f)) s).1 ≡ err session_poisoned))
  unfolding check_open
  check_open-Dead c f s h = ground arith

  step-Dead : (s : Session) (c : Call) → s.state ≢ session_is_open → Dead s (step codec s c)
  unfolding step acquire execute_held shutdown_held
  step-Dead s (executes c x w) h =
      let held = record s { token = false } in
      let d = check_open-Dead c (send_execute codec x w) held h in ground arith
  step-Dead s (shuts_down c x e) h =
      let held = record s { token = false } in
      let d = check_open-Dead c (send_shutdown codec x e) held h in ground arith
  step-Dead s closes h = ground arith

  -- A closed or poisoned session stays dead whatever is called on it: it never opens again, issues no
  -- request id and reads nothing more from the process.
  pub run_dead :
      (s : Session) (cs : List Call)
      → s.state ≢ session_is_open
      → (run codec s cs).state ≢ session_is_open
        × ((run codec s cs).sequence ≡ s.sequence)
        × ((run codec s cs).unread ≡ s.unread)
  unfolding run
  run_dead s [] h = (h, refl, refl)
  run_dead s (c ∷ cs) h =
      let d = step-Dead s c h in
      let (closed, seq, unread) = run_dead (step codec s c) cs d.0 in
      (closed, seq ∙ d.1, unread ∙ d.2)
