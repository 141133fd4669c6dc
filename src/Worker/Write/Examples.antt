-- ===== src/Worker/Write/Examples.antt =====
-- Writing to a concrete writer.
use mathlib.Core.Option.{some-injective}
use paraflow.Prelude.{ℕ, ◌≡◌, ◌⊎◌, ◌≤◌, arith, min, length, some}
use paraflow.Prelude.Text.{Bytes, codes}
use paraflow.Prelude.Outcome.{ok, err}
use paraflow.Worker.Write.{WriteError, Writer, write_all}
use paraflow.Worker.Write.Whole.{write_all-whole}

-- A writer that takes two bytes at a time.
abbrev slow_writer : Writer
slow_writer = λ call bytes. some (min 2 (length bytes))

slow_enough :
    (call : ℕ) (bytes : Bytes) (n : ℕ) → slow_writer call bytes ≡ some n → n ≤ length bytes
slow_enough call bytes n e = let same = some-injective _ _ e in omega arith

write_all-whole_example :
    ((e : WriteError) × (write_all slow_writer (codes "frame") ≡ err e))
    ⊎ (write_all slow_writer (codes "frame") ≡ ok (codes "frame"))
write_all-whole_example = write_all-whole slow_writer slow_enough (codes "frame")
