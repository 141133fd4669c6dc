-- ===== src/Benchmark/Payload.antt =====
-- The one-shot process boundary of labctl-go/internal/benchmark/engine.go: `oneShotResponsePayload`,
-- `cappedBuffer`.
pub mod Exact
pub mod Capped
use paraflow.Prelude.{
  ℕ, ◌+◌, ◌-◌, Bool, true, false, not, ◌&&◌, ◌||◌, List, [], ◌∷◌, ◌++◌, min, ltb, leb, ◌==◌,
  if◌then◌else◌, length, take, drop, drop_last,
}
use paraflow.Prelude.Text.{Bytes, ends_with}
use paraflow.Prelude.Outcome.{Outcome, ok, err, panic, ◌>>=◌, ◌>>◌, refuse}
use paraflow.Protocol.Message.{max_frame_bytes}

pub data PayloadError : Type 0 where
  exceeds_limit bad_terminator : PayloadError

-- One line feed is dropped, and behind it one carriage return.
abbrev pub strip_terminator : Bytes → Bytes
strip_terminator raw =
    if ends_with b'\n' raw
    then if ends_with b'\r' (drop_last raw) then drop_last (drop_last raw) else drop_last raw
    else raw

unfoldable pub one_shot_response_payload : Bytes → Outcome PayloadError Bytes
one_shot_response_payload raw = do
  refuse (ltb (max_frame_bytes + 2) (length raw)) exceeds_limit
  let payload = strip_terminator raw
  refuse (ends_with b'\r' payload || ends_with b'\n' payload) bad_terminator
  refuse (ltb max_frame_bytes (length payload)) exceeds_limit
  ok payload

pub record CappedBuffer : Type 0 where
  pub contents : Bytes
  pub limit : ℕ
  pub overflowed : Bool

unfoldable pub new_capped_buffer : ℕ → CappedBuffer
new_capped_buffer limit = record { contents = []; limit = limit; overflowed = false }

-- The buffer, and the length that `Write` reports.
unfoldable pub write : CappedBuffer → Bytes → CappedBuffer × ℕ
write buffer chunk =
    let remaining = buffer.limit - length buffer.contents in
    let kept = if ltb 0 remaining then min remaining (length chunk) else 0 in
    let dropped = drop kept chunk in
    (
      record buffer {
        contents = buffer.contents ++ take kept chunk;
        overflowed = if not (length dropped == 0) then true else buffer.overflowed;
      },
      length chunk,
    )

-- The writes of a process's output.
unfoldable pub write_all : CappedBuffer → List Bytes → CappedBuffer
unfolding write
write_all buffer [] = buffer
write_all buffer (chunk ∷ chunks) = write_all (write buffer chunk).0 chunks
