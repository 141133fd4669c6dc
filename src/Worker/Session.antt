-- ===== src/Worker/Session.antt =====
-- `Session` of labctl-go/internal/worker/session.go: one engine process, one request in flight.
-- A call takes the session and returns it with its result. What the process and the other callers do
-- is an argument of the call: `Entry` up to the request, `Exchange` while it is in flight, where
-- `closed_meanwhile` is a concurrent `Close`, and `Exit` behind an acknowledged shutdown.
-- The process handles are the flags of what has been closed, killed and waited for.
pub mod Life
pub mod Answer
mod Examples
use paraflow.Prelude.{
  ℕ, suc, ◌+◌, ◌%◌, Bool, true, false, not, ◌&&◌, ◌||◌, Option, none, some, List, [], ◌∷◌, ◌++◌,
  ◌==◌, if◌then◌else◌,
}
use paraflow.Prelude.Text.{Bytes}
use paraflow.Prelude.Words.{add64}
use paraflow.Prelude.Outcome.{Outcome, ok, err, panic}
use paraflow.Protocol.Hex.{format_request_id}
use paraflow.Protocol.Message.{
  WorkloadProjection, ResultV1, RemoteError, Response, completed, remote_error, shutdown_ack,
  ProtocolError, max_frame_bytes,
}
use paraflow.Protocol.Response.{Codec, encode_execute_frame, encode_shutdown_frame, decode_response}
use paraflow.Worker.Frame.{FrameError, Ending, read_frame}

-- What an operation reports, and what a session is poisoned by.
pub data SessionError : Type 0 where
  context_done session_closed session_poisoned ids_exhausted : SessionError
  write_failed exited_before_request exited_with_error unexpected_kind : SessionError
  read_response_failed : FrameError → SessionError
  protocol_failed : ProtocolError → SessionError
  remote_failed : RemoteError → SessionError

pub data SessionState : Type 0 where
  session_is_open session_is_closed session_is_poisoned : SessionState

pub record Session : Type 0 where
  pub state : SessionState
  pub cause : Option SessionError
  pub sequence : ℕ
  pub token : Bool
  pub input_closed : Bool
  pub output_closed : Bool
  pub killed : Bool
  pub reaped : Bool
  pub unread : Bytes

pub record Entry : Type 0 where
  pub done_before : Bool
  pub done_after : Bool
  pub exited : Bool

pub record Exchange : Type 0 where
  pub closed_meanwhile : Bool
  pub cancelled : Bool
  pub written : Bool
  pub arrived : Bytes
  pub ending : Ending

pub data Exit : Type 0 where
  exits_clean exits_with_error exit_cancelled : Exit

-- `Start`, once the process runs.
unfoldable pub start : Session
start = record {
  state = session_is_open;
  cause = none;
  sequence = 1;
  token = true;
  input_closed = false;
  output_closed = false;
  killed = false;
  reaped = false;
  unread = [];
}

abbrev pub kill_and_reap : Session → Session
kill_and_reap s = record s {
  input_closed = true;
  killed = true;
  reaped = true;
  output_closed = true;
}

abbrev pub poison_state : SessionState → SessionError → Session → Session
poison_state session_is_open why s = record s { state = session_is_poisoned; cause = some why }
poison_state _ why s = s

abbrev pub mark_poisoned : SessionError → Session → Session
mark_poisoned why s = poison_state s.state why s

abbrev pub poison : SessionError → Session → Session
poison why s = kill_and_reap (mark_poisoned why s)

unfoldable pub close : Session → Session
close s = kill_and_reap (record s { state = session_is_closed })

abbrev pub release : Session → Session
release s = record s { token = true }

abbrev pub M : Type 0 → Type 0
M A = Session → Session × Outcome SessionError A

-- What a sequence of steps does behind its first step.
abbrev pub proceed :
    {A B : Type 0} → (A → M B) → Session × Outcome SessionError A → Session × Outcome SessionError B
proceed f (s, ok a) = f a s
proceed f (s, err e) = (s, err e)
proceed f (s, panic) = (s, panic)

infixl 5 ◌>>=◌
abbrev pub ◌>>=◌ : {A B : Type 0} → M A → (A → M B) → M B
◌>>=◌ m f s = proceed f (m s)

abbrev pub lift : {A : Type 0} → Outcome ProtocolError A → M A
lift (ok a) s = (s, ok a)
lift (err e) s = (s, err (protocol_failed e))
lift panic s = (s, panic)

-- `acquire`: with no token to take, the call waits until its context is done.
pub acquire : Entry → M Unit
acquire c s =
    if c.done_before
    then (s, err context_done)
    else if not s.token
    then (s, err context_done)
    else if c.done_after
    then (s, err context_done)
    else (record s { token = false }, ok tt)

-- `defer session.release()`.
abbrev pub with_token : {A : Type 0} → M A → M A
with_token m s = let (s', r) = m s in (release s', r)

abbrev pub check_state : SessionState → Bool → M Unit
check_state session_is_closed exited s = (s, err session_closed)
check_state session_is_poisoned exited s = (s, err session_poisoned)
check_state session_is_open exited s =
    if exited
    then (
      record s {
        state = session_is_poisoned;
        cause = some exited_before_request;
        output_closed = true;
        reaped = true;
      },
      err session_poisoned,
    )
    else (s, ok tt)

pub check_open : Entry → M Unit
check_open c s = check_state s.state c.exited s

pub next_request_id : M Bytes
next_request_id s =
    if s.sequence == 0
    then (s, err ids_exhausted)
    else (record s { sequence = add64 s.sequence 1 }, ok (format_request_id s.sequence))

abbrev pub read_buffer_bytes : ℕ
read_buffer_bytes = 65536

-- The operations that callers have.
pub data Call : Type 0 where
  executes : Entry → Exchange → Bytes → Call
  shuts_down : Entry → Exchange → Exit → Call
  closes : Call

module _ (codec : Codec) where
  -- The frame that was read, decoded.
  abbrev pub settle :
      Bytes → Option WorkloadProjection → Outcome FrameError (Bytes × Bytes) → M Response
  settle id expected (err e) s = (poison (read_response_failed e) s, err (read_response_failed e))
  settle id expected panic s = (s, panic)
  settle id expected (ok (payload, rest)) s = elim (decode_response codec payload id expected) [
    | ok r ↦ (record s { unread = rest }, ok r)
    | err e ↦ (poison (protocol_failed e) s, err (protocol_failed e))
    | panic ↦ (s, panic)
  ]

  pub transact : Bytes → Option WorkloadProjection → Exchange → M Response
  unfolding close
  transact id expected x s =
      let s' = if x.closed_meanwhile then close s else s in
      if x.cancelled
      then (kill_and_reap (mark_poisoned context_done s'), err context_done)
      else if not x.written
      then (poison write_failed s', err write_failed)
      else settle id expected
          (read_frame read_buffer_bytes max_frame_bytes x.ending (s'.unread ++ x.arrived)) s'

  abbrev pub result_of : Response → M ResultV1
  result_of (completed r) s = (s, ok r)
  result_of (remote_error e) s = (s, err (remote_failed e))
  result_of shutdown_ack s = (poison unexpected_kind s, err unexpected_kind)

  -- The request of `Execute` under its id.
  pub send_execute : Exchange → Bytes → Bytes → M ResultV1
  send_execute x workload id = do
    (frame, projection) ← lift (encode_execute_frame codec id workload)
    response ← transact id (some projection) x
    result_of response

  -- `Execute` with the token held.
  pub execute_held : Entry → Exchange → Bytes → M ResultV1
  execute_held c x workload = do _ ← check_open c; id ← next_request_id; send_execute x workload id

  unfoldable pub execute : Entry → Exchange → Bytes → M ResultV1
  execute c x workload = do _ ← acquire c; with_token (execute_held c x workload)

  -- The end of `Shutdown`, once the acknowledgement is in.
  abbrev pub await_exit : Exit → M Unit
  await_exit exits_clean s = (record s { reaped = true; output_closed = true }, ok tt)
  await_exit exits_with_error s =
      (record s { reaped = true; output_closed = true }, err exited_with_error)
  await_exit exit_cancelled s = (kill_and_reap s, err context_done)

  abbrev pub acknowledged : Exit → Response → M Unit
  acknowledged e shutdown_ack s =
      await_exit e (record s { state = session_is_closed; input_closed = true })
  acknowledged e (completed r) s = (poison unexpected_kind s, err unexpected_kind)
  acknowledged e (remote_error r) s = (poison unexpected_kind s, err unexpected_kind)

  -- The request of `Shutdown` under its id.
  pub send_shutdown : Exchange → Exit → Bytes → M Unit
  send_shutdown x e id = do
    frame ← lift (encode_shutdown_frame codec id)
    response ← transact id none x
    acknowledged e response

  -- `Shutdown` with the token held.
  pub shutdown_held : Entry → Exchange → Exit → M Unit
  shutdown_held c x e = do _ ← check_open c; id ← next_request_id; send_shutdown x e id

  unfoldable pub shutdown : Entry → Exchange → Exit → M Unit
  shutdown c x e = do _ ← acquire c; with_token (shutdown_held c x e)

  pub step : Session → Call → Session
  unfolding execute shutdown close
  step s (executes c x workload) = (execute c x workload s).0
  step s (shuts_down c x e) = (shutdown c x e s).0
  step s closes = close s

  pub run : Session → List Call → Session
  unfolding step
  run s [] = s
  run s (c ∷ cs) = run (step s c) cs
