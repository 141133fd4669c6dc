-- ===== src/Worker/Write/Whole.antt =====
-- `writeAll` writes all of its data, or fails.
use paraflow.Prelude.{
  ℕ, zero, suc, ◌≤◌, ◌≡◌, sym, ◌∙◌, refl, inl, inr, false, some, [], ◌∷◌, ◌++◌, ltb, length, take,
  drop, arith, append_assoc, append-nil, ap, ◌⊎◌, length-drop, Option-cases,
}
use paraflow.Prelude.Text.{Bytes}
use paraflow.Prelude.Outcome.{Outcome, ok, err, Meets, meets, declines, Meets-weaken}
use paraflow.Worker.Write.{WriteError, Writer, write_loop, write_all}

take-drop : (n : ℕ) (s : Bytes) → take n s ++ drop n s ≡ s
take-drop zero s = refl
take-drop (suc n) [] = refl
take-drop (suc n) (c ∷ s) = ap (◌∷◌ c) (take-drop n s)

not_over : (m n : ℕ) → n ≤ m → ltb m n ≡ false
not_over m n h = ground arith

settled :
    {bytes : Bytes} {r : Outcome WriteError Bytes}
    → Meets (λ sent. sent ≡ bytes) r
    → ((e : WriteError) × (r ≡ err e)) ⊎ (r ≡ ok bytes)
settled (meets h) = inr (ap ok h)
settled (declines {e}) = inl (e, refl)

module _ (writer : Writer)
    (honest : (call : ℕ) (bytes : Bytes) (n : ℕ)
      → writer call bytes ≡ some n
      → n ≤ length bytes) where
  write_loop-Meets :
      (fuel call : ℕ) (sent bytes : Bytes)
      → length bytes ≤ fuel
      → Meets (λ r. r ≡ sent ++ bytes) (write_loop writer fuel call sent bytes)
  unfolding write_loop
  write_loop-Meets fuel call sent [] h = meets (sym (append-nil sent))
  write_loop-Meets zero call sent (c ∷ bytes) h = absurd (omega arith)
  write_loop-Meets (suc fuel) call sent (c ∷ bytes) h =
      elim (Option-cases (writer call (c ∷ bytes))) [
        | inl e ↦ rw (write_loop, e) declines
        | inr (zero, e) ↦ rw (write_loop, e) declines
        | inr (suc n, e) ↦
            rw
              (
                write_loop,
                e,
                not_over (length (c ∷ bytes)) (suc n) (honest call (c ∷ bytes) (suc n) e),
              )
              (Meets-weaken
                (write_loop-Meets fuel (suc call) (sent ++ take (suc n) (c ∷ bytes))
                  (drop (suc n) (c ∷ bytes)) (shorter n))
                (λ r same.
                  same
                  ∙ append_assoc sent (take (suc n) (c ∷ bytes)) (drop (suc n) (c ∷ bytes))
                  ∙ ap (◌++◌ sent) (take-drop (suc n) (c ∷ bytes))))
      ]
    where
      shorter : (n : ℕ) → length (drop (suc n) (c ∷ bytes)) ≤ fuel
      shorter n = let e = length-drop n bytes in omega arith

  -- `writeAll` over a writer that never reports more than it was handed ends: it returns an error, or it
  -- has written all the data, in order.
  pub write_all-whole :
      (bytes : Bytes)
      → ((e : WriteError) × (write_all writer bytes ≡ err e)) ⊎ (write_all writer bytes ≡ ok bytes)
  unfolding write_all
  write_all-whole bytes = settled (write_loop-Meets (length bytes) 0 [] bytes (omega arith))
