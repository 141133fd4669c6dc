-- ===== src/Worker/Tail/Suffix.antt =====
-- `boundedTail` of frame.go against the bytes that were written to it.
use mathlib.Core.List.{flatten}
use paraflow.Prelude.{
  ℕ, zero, suc, ◌+◌, ◌-◌, ◌≤◌, ◌<◌, ◌≡◌, refl, sym, ap, ◌∙◌, List, [], ◌∷◌, ◌++◌, append_assoc,
  append-nil, arith, ltb, leb, Bool-cases, inl, inr, if◌then◌else◌, length, drop, length-append,
  length-drop,
}
use paraflow.Prelude.Text.{Bytes}
use paraflow.Worker.Tail.{BoundedTail, new_bounded_tail, write, write_all}

-- The last `n` bytes.
abbrev pub suffix : ℕ → Bytes → Bytes
suffix n s = drop (length s - n) s

drop-append : (d : ℕ) (s t : Bytes) → d ≤ length s → drop d s ++ t ≡ drop d (s ++ t)
drop-append zero s t h = refl
drop-append (suc d) [] t h = absurd (omega arith)
drop-append (suc d) (c ∷ s) t h = drop-append d s t (omega arith)

drop_more : (d : ℕ) (s t : Bytes) → length s ≤ d → drop d (s ++ t) ≡ drop (d - length s) t
drop_more d [] t h = let e : d - 0 ≡ d = omega arith in rw e
drop_more zero (c ∷ s) t h = absurd (omega arith)
drop_more (suc d) (c ∷ s) t h =
    let e : suc d - suc (length s) ≡ d - length s = omega arith in
    rw e (drop_more d s t (omega arith))

drop-nil : (d : ℕ) → drop {A = ℕ} d [] ≡ []
drop-nil zero = refl
drop-nil (suc d) = refl

drop-drop : (d k : ℕ) (s : Bytes) → drop k (drop d s) ≡ drop (d + k) s
drop-drop zero k s = let e : 0 + k ≡ k = omega arith in rw e
drop-drop (suc d) k [] = drop-nil k ∙ sym (drop-nil (suc d + k))
drop-drop (suc d) k (c ∷ s) =
    let e : suc d + k ≡ suc (d + k) = omega arith in rw e (drop-drop d k s)

chunk_fills :
    (n : ℕ) (seen chunk : Bytes)
    → n ≤ length chunk
    → drop (length chunk - n) chunk ≡ suffix n (seen ++ chunk)
chunk_fills n seen chunk h =
    let e : length seen + length chunk - n - length seen ≡ length chunk - n = omega arith in
    rw length-append
      (sym (rw (drop_more (length seen + length chunk - n) seen chunk (omega arith), e)))

chunk_shifts :
    (n : ℕ) (seen chunk : Bytes)
    → length chunk < n
    → drop (length (suffix n seen) + length chunk - n) (suffix n seen) ++ chunk
      ≡ suffix n (seen ++ chunk)
chunk_shifts n seen chunk h =
    let l : length (suffix n seen) ≡ length seen - (length seen - n) =
      length-drop (length seen - n) seen in
    let o = length (suffix n seen) + length chunk - n in
    let e : length seen - n + o ≡ length seen + length chunk - n = omega arith in
    rw (drop-drop (length seen - n) o seen, e, length-append seen chunk)
      (drop-append (length seen + length chunk - n) seen chunk (omega arith))

-- `overflow` is 0 where there is room.
kept-eq : (o : ℕ) (s : Bytes) → (if ltb 0 o then drop o s else s) ≡ drop o s
kept-eq zero s = refl
kept-eq (suc o) s = ground arith

write-suffix :
    (tail : BoundedTail) (seen chunk : Bytes)
    → tail.bytes ≡ suffix tail.capacity seen
    → (write tail chunk).0.bytes ≡ suffix tail.capacity (seen ++ chunk)
unfolding write
write-suffix tail seen chunk h = elim (Bool-cases (leb tail.capacity (length chunk))) [
  | inl full ↦ rw full (chunk_fills tail.capacity seen chunk (ground arith))
  | inr room ↦
      rw (room, kept-eq (length tail.bytes + length chunk - tail.capacity) tail.bytes, h)
        (chunk_shifts tail.capacity seen chunk (ground arith))
]

write_capacity :
    (tail : BoundedTail) (chunk : Bytes) → (write tail chunk).0.capacity ≡ tail.capacity
unfolding write
write_capacity tail chunk = ground arith

write_all-suffix :
    (tail : BoundedTail) (seen : Bytes) (chunks : List Bytes)
    → tail.bytes ≡ suffix tail.capacity seen
    → (write_all tail chunks).bytes ≡ suffix tail.capacity (seen ++ flatten chunks)
unfolding write_all flatten
write_all-suffix tail seen [] h = rw append-nil h
write_all-suffix tail seen (chunk ∷ chunks) h =
    let same = write_capacity tail chunk in
    let now = write-suffix tail seen chunk h ∙ ap (λ n. suffix n (seen ++ chunk)) (sym same) in
    write_all-suffix (write tail chunk).0 (seen ++ chunk) chunks now
    ∙ ap (λ n. suffix n ((seen ++ chunk) ++ flatten chunks)) same
    ∙ ap (suffix tail.capacity) (append_assoc seen chunk (flatten chunks))

-- After any writes the tail holds the last bytes of all that was written, in order, as many as its
-- capacity allows.
pub write_all-new :
    (capacity : ℕ) (chunks : List Bytes)
    → let tail = write_all (new_bounded_tail capacity) chunks in
      (tail.bytes ≡ suffix capacity (flatten chunks)) × (length tail.bytes ≤ capacity)
unfolding new_bounded_tail
write_all-new capacity chunks =
    let exact =
      write_all-suffix (new_bounded_tail capacity) [] chunks (sym (drop-nil (0 - capacity))) in
    (
      exact,
      omega (
        arith,
        ap length exact,
        length-drop (length (flatten chunks) - capacity) (flatten chunks),
      ),
    )
