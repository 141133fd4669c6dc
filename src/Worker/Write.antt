-- ===== src/Worker/Write.antt =====
-- `writeAll` of labctl-go/internal/worker/session.go. The writer is a function of the number of the call
-- and of the data it is handed: how much it wrote, or an error. The result is what was written.
pub mod Whole
mod Examples
use paraflow.Prelude.{
  ℕ, zero, suc, Option, none, some, List, [], ◌∷◌, ◌++◌, ltb, if◌then◌else◌, length, take, drop,
}
use paraflow.Prelude.Text.{Bytes}
use paraflow.Prelude.Outcome.{Outcome, ok, err, panic}

pub data WriteError : Type 0 where
  writer_failed short_write : WriteError

abbrev pub Writer : Type 0
Writer = ℕ → Bytes → Option ℕ

-- `panic` is a count above the length of the data, and the loop out of fuel.
unfoldable pub write_loop : Writer → ℕ → ℕ → Bytes → Bytes → Outcome WriteError Bytes
write_loop writer fuel call sent [] = ok sent
write_loop writer zero call sent (c ∷ bytes) = panic
write_loop writer (suc fuel) call sent (c ∷ bytes) = elim (writer call (c ∷ bytes)) [
  | none ↦ err writer_failed
  | some zero ↦ err short_write
  | some (suc n) ↦
      if ltb (length (c ∷ bytes)) (suc n)
      then panic
      else write_loop writer fuel (suc call) (sent ++ take (suc n) (c ∷ bytes))
          (drop (suc n) (c ∷ bytes))
]

-- `writeAll`: a turn that goes on writes at least one byte.
unfoldable pub write_all : Writer → Bytes → Outcome WriteError Bytes
unfolding write_loop
write_all writer bytes = write_loop writer (length bytes) 0 [] bytes
