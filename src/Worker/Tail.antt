-- ===== src/Worker/Tail.antt =====
-- `boundedTail` of labctl-go/internal/worker/frame.go: the last bytes of the worker's stderr. Its lock
-- makes each write one step.
pub mod Suffix
use paraflow.Prelude.{ℕ, ◌+◌, ◌-◌, List, [], ◌∷◌, ◌++◌, ltb, leb, if◌then◌else◌, length, drop}
use paraflow.Prelude.Text.{Bytes}

pub record BoundedTail : Type 0 where
  pub bytes : Bytes
  pub capacity : ℕ

unfoldable pub new_bounded_tail : ℕ → BoundedTail
new_bounded_tail capacity = record { bytes = []; capacity = capacity }

-- The tail, and the length that `Write` reports.
unfoldable pub write : BoundedTail → Bytes → BoundedTail × ℕ
write tail chunk =
    if leb tail.capacity (length chunk)
    then (record tail { bytes = drop (length chunk - tail.capacity) chunk }, length chunk)
    else let overflow = length tail.bytes + length chunk - tail.capacity in
      let kept = if ltb 0 overflow then drop overflow tail.bytes else tail.bytes in
      (record tail { bytes = kept ++ chunk }, length chunk)

-- The writes of `io.Copy`.
pub write_all : BoundedTail → List Bytes → BoundedTail
unfolding write
write_all tail [] = tail
write_all tail (chunk ∷ chunks) = write_all (write tail chunk).0 chunks
