-- ===== src/Worker/Frame.antt =====
-- `readFrame` of labctl-go/internal/worker/frame.go over a `bufio.Reader`: the bytes that the peer
-- will send before the stream ends, and how it ends. `ReadSlice` hands over at most a buffer of them.
-- `panic` is a loop out of fuel; each further round consumes a full buffer, so one round more than
-- there are bytes is enough.
pub mod Slices
pub mod Fragmentation
use paraflow.Prelude.{
  ℕ, zero, suc, ◌+◌, ◌-◌, Bool, true, false, not, ◌&&◌, ◌||◌, Option, none, some, List, [], ◌∷◌,
  ◌++◌, ltb, leb, ◌==◌, if◌then◌else◌, length, drop_last,
}
use paraflow.Prelude.Text.{Bytes, ends_with}
use paraflow.Prelude.Outcome.{Outcome, ok, err, panic}

pub data FrameError : Type 0 where
  frame_too_large truncated_frame end_of_stream read_failed : FrameError

-- How the stream ends: by `io.EOF` or by another error.
pub data Ending : Type 0 where
  end_of_file failure : Ending

-- A fragment with its newline, a full buffer, or all that was left.
pub data Status : Type 0 where
  found full ended : Status

pub record Slice : Type 0 where
  pub fragment : Bytes
  pub rest : Bytes
  pub status : Status

abbrev pub prepend : ℕ → Slice → Slice
prepend c s = record s { fragment = c ∷ s.fragment }

-- `ReadSlice('\n')` with that much room left in the buffer.
pub read_slice : ℕ → Bytes → Slice
read_slice zero pending = record { fragment = []; rest = pending; status = full }
read_slice (suc room) [] = record { fragment = []; rest = []; status = ended }
read_slice (suc room) (c ∷ pending) =
    let further = prepend c (read_slice room pending) in
    if c == b'\n' then record { fragment = c ∷ []; rest = pending; status = found } else further

-- `possibleCRLFTerminator`.
abbrev pub possible_crlf : ℕ → Bytes → Bytes → Bool
possible_crlf max payload fragment =
    length payload + length fragment == max + 1
    && (ends_with b'\r' fragment || (length fragment == 0 && ends_with b'\r' payload))

-- The end of a frame: one carriage return is dropped.
pub finish_frame : ℕ → Bytes → Bytes → Outcome FrameError (Bytes × Bytes)
finish_frame max payload rest =
    let stripped = if ends_with b'\r' payload then drop_last payload else payload in
    if ltb max (length stripped) then err frame_too_large else ok (stripped, rest)

pub finish_stream : Ending → Bytes → Outcome FrameError (Bytes × Bytes)
finish_stream end_of_file payload =
    if length payload == 0 then err end_of_stream else err truncated_frame
finish_stream failure payload = err read_failed

module _ (size max : ℕ) (ending : Ending) where
  pub read_loop : ℕ → Bytes → Bytes → Outcome FrameError (Bytes × Bytes)
  unfolding read_slice finish_frame finish_stream
  read_loop zero payload pending = panic
  read_loop (suc fuel) payload pending =
      let s = read_slice size pending in
      let has_newline = ends_with b'\n' s.fragment in
      let fragment = if has_newline then drop_last s.fragment else s.fragment in
      let next = payload ++ fragment in
      let again = read_loop fuel next s.rest in
      if ltb max (length payload + length fragment) && not (possible_crlf max payload fragment)
      then err frame_too_large
      else if has_newline
      then finish_frame max next s.rest
      else elim s.status [
        | full ↦ again
        | ended ↦ finish_stream ending next
        | found ↦ err truncated_frame
      ]

  -- A frame and the bytes behind it.
  unfoldable pub read_frame : Bytes → Outcome FrameError (Bytes × Bytes)
  unfolding read_loop
  read_frame pending = read_loop (length pending + 1) [] pending
