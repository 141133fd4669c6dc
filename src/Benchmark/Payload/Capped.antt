-- ===== src/Benchmark/Payload/Capped.antt =====
-- What the capped buffer of the one-shot engine's stdout holds.
use mathlib.Core.List.{flatten}
use paraflow.Prelude.{
  ℕ, zero, suc, ◌-◌, ◌≡◌, refl, sym, ap, subst, ◌∙◌, List, [], ◌∷◌, ◌++◌, append_assoc, append-nil,
  arith, min, ltb, if◌then◌else◌, length, take, length-append, length-drop, length-take,
}
use paraflow.Prelude.Text.{Bytes}
use paraflow.Benchmark.Payload.{CappedBuffer, new_capped_buffer, write, write_all}

take-nil : (n : ℕ) → take {A = ℕ} n [] ≡ []
take-nil zero = refl
take-nil (suc n) = refl

take-append : (n : ℕ) (s t : Bytes) → take n (s ++ t) ≡ take n s ++ take (n - length s) t
take-append n [] t = let e : n - 0 ≡ n = omega arith in rw (e, take-nil n)
take-append zero (c ∷ s) t = let e : 0 - suc (length s) ≡ 0 = omega arith in rw e
take-append (suc n) (c ∷ s) t =
    let e : suc n - suc (length s) ≡ n - length s = omega arith in
    rw e (ap (λ r. c ∷ r) (take-append n s t))

take-min : (n : ℕ) (s : Bytes) → take (min n (length s)) s ≡ take n s
take-min n [] = take-nil (min n 0) ∙ sym (take-nil n)
take-min zero (c ∷ s) = let e : min 0 (suc (length s)) ≡ 0 = omega arith in rw e
take-min (suc n) (c ∷ s) =
    let e : min (suc n) (suc (length s)) ≡ suc (min n (length s)) = omega arith in
    rw e (ap (λ r. c ∷ r) (take-min n s))

-- `kept` without its test.
kept-eq : (r l : ℕ) → (if ltb 0 r then min r l else 0) ≡ min r l
kept-eq r l = ground arith

-- The buffer holds what fits of all that was written, and knows whether that is all of it.
Holds : CappedBuffer → Bytes → Type 0
Holds b seen = (b.contents ≡ take b.limit seen) × (b.overflowed ≡ ltb b.limit (length seen))

write-limit : (b : CappedBuffer) (chunk : Bytes) → (write b chunk).0.limit ≡ b.limit
unfolding write
write-limit b chunk = ground arith

write-Holds :
    (b : CappedBuffer) (seen chunk : Bytes) → Holds b seen → Holds (write b chunk).0 (seen ++ chunk)
unfolding write Holds
write-Holds b seen chunk (h, o) =
    let l : length b.contents ≡ min b.limit (length seen) =
      ap length h ∙ length-take b.limit seen in
    let room : b.limit - length b.contents ≡ b.limit - length seen = omega arith in
    (
      rw (kept-eq (b.limit - length b.contents) (length chunk), take-min, room, h)
          (sym (take-append b.limit seen chunk)),
      rw (kept-eq (b.limit - length b.contents) (length chunk), length-drop, room, o, length-append)
          (ground arith),
    )

write_all-Holds :
    (b : CappedBuffer) (seen : Bytes) (chunks : List Bytes)
    → Holds b seen
    → (write_all b chunks).limit ≡ b.limit × Holds (write_all b chunks) (seen ++ flatten chunks)
unfolding write_all flatten
write_all-Holds b seen [] h = (refl, subst (Holds b) (sym (append-nil seen)) h)
write_all-Holds b seen (chunk ∷ chunks) h =
    let (l, rest) =
      write_all-Holds (write b chunk).0 (seen ++ chunk) chunks (write-Holds b seen chunk h) in
    (
      l ∙ write-limit b chunk,
      subst (Holds (write_all (write b chunk).0 chunks)) (append_assoc seen chunk (flatten chunks))
          rest,
    )

-- However a process cuts its output into writes, the capped buffer holds the output's first `limit`
-- bytes, and reports an overflow exactly where the output is longer than that.
pub write_all-new_capped :
    (limit : ℕ) (chunks : List Bytes)
    → let b = write_all (new_capped_buffer limit) chunks in
      (b.contents ≡ take limit (flatten chunks))
      × (b.overflowed ≡ ltb limit (length (flatten chunks)))
unfolding new_capped_buffer Holds
write_all-new_capped limit chunks =
    let (l, (contents, over)) =
      write_all-Holds (new_capped_buffer limit) [] chunks (sym (take-nil limit), ground arith) in
    (
      contents ∙ ap (λ n. take n (flatten chunks)) l,
      over ∙ ap (λ n. ltb n (length (flatten chunks))) l,
    )
