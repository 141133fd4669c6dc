-- ===== src/Worker/Frame/Fragmentation.antt =====
-- `readFrame` of frame.go against a description by whole lines.
use paraflow.Prelude.{
  ℕ, zero, suc, ◌+◌, ◌≤◌, ◌<◌, ◌≡◌, sym, ap, ◌∙◌, inl, inr, Bool, true, false, not, ◌&&◌, Option,
  none, some, [], ◌∷◌, ◌++◌, append_assoc, append-nil, arith, ltb, leb, ◌==◌, Bool-cases,
  Option-cases, if◌then◌else◌, length, length-append, drop_last,
}
use paraflow.Prelude.Text.{Bytes, ends_with, ends_with-snoc, drop_last-snoc, ends_with-append}
use paraflow.Prelude.Outcome.{Outcome, ok, err}
use paraflow.Worker.Frame.{
  FrameError, frame_too_large, Ending, possible_crlf, finish_frame, finish_stream, read_loop,
  read_frame,
}
use paraflow.Worker.Frame.Slices.{
  split_line, extend, extend-extend, extend-nil, split_line-Lacks, split_line-append,
  Lacks-ends_with, read_slice-Slices,
}

abbrev pub strip_return : Bytes → Bytes
strip_return s = if ends_with b'\r' s then drop_last s else s

abbrev pub overlong : ℕ → Bytes → Bool
overlong max s = ltb max (length s) && not (length s == max + 1 && ends_with b'\r' s)

-- A frame is the first line without one carriage return, if that is within the limit. A stream with
-- no newline left has no frame: it is too large, truncated, at its end or broken.
abbrev pub frame_spec :
    ℕ → Ending → Bytes → Option (Bytes × Bytes) → Outcome FrameError (Bytes × Bytes)
frame_spec max ending pending (some (line, rest)) =
    if leb (length (strip_return line)) max
    then ok (strip_return line, rest)
    else err frame_too_large
frame_spec max ending pending none =
    if overlong max pending then err frame_too_large else finish_stream ending pending

length-drop_last : (s : Bytes) → length s ≤ length (drop_last s) + 1
length-drop_last [] = omega arith
length-drop_last (x ∷ []) = omega arith
length-drop_last (x ∷ y ∷ s) = omega (arith, length-drop_last (y ∷ s))

drop_last-length : (s : Bytes) (c : ℕ) → ends_with c s ≡ true → length s ≡ length (drop_last s) + 1
drop_last-length [] c h = cc
drop_last-length (x ∷ []) c h = omega arith
drop_last-length (x ∷ y ∷ s) c h = omega (arith, drop_last-length (y ∷ s) c h)

-- The test of the loop, on the two parts, is `overlong` of the whole.
overlong-append :
    (max : ℕ) (p f : Bytes)
    → (ltb max (length p + length f) && not (possible_crlf max p f)) ≡ overlong max (p ++ f)
overlong-append max p f = rw (length-append p f, ends_with-append b'\r' p f)

-- Nothing behind an overlong text makes it fit.
overlong_grows : (max : ℕ) (s f : Bytes) → overlong max s ≡ true → overlong max (s ++ f) ≡ true
overlong_grows max s [] h = rw append-nil h
overlong_grows max s (c ∷ f) h = ground (arith, length-append s (c ∷ f))

overlong_line :
    (max : ℕ) (s : Bytes) → overlong max s ≡ true → leb (length (strip_return s)) max ≡ false
overlong_line max s h = ground (arith, length-drop_last s)

finish_frame-eq :
    (max : ℕ) (ending : Ending) (s rest : Bytes)
    → finish_frame max s rest ≡ frame_spec max ending s (some (s, rest))
unfolding finish_frame
finish_frame-eq max ending s rest = ground arith

overlong_spec :
    (max : ℕ) (ending : Ending) (s pending : Bytes)
    → overlong max s ≡ true
    → frame_spec max ending (s ++ pending) (extend s (split_line pending)) ≡ err frame_too_large
overlong_spec max ending s pending h = elim (Option-cases (split_line pending)) [
  | inl e ↦ rw (e, overlong_grows max s pending h)
  | inr ((line, rest), e) ↦ rw (e, overlong_line max (s ++ line) (overlong_grows max s line h))
]

line_case :
    (max : ℕ) (ending : Ending) (q s rest : Bytes)
    → (if overlong max s then err frame_too_large else finish_frame max s rest)
      ≡ frame_spec max ending q (some (s, rest))
line_case max ending q s rest = elim (Bool-cases (overlong max s)) [
  | inl t ↦ rw (t, overlong_line max s t)
  | inr t ↦ rw t (finish_frame-eq max ending s rest)
]

module _ (size max : ℕ) (ending : Ending) where
  read_loop-eq :
      (fuel : ℕ) (payload pending : Bytes)
      → 0 < size
      → length pending < fuel
      → read_loop size max ending fuel payload pending
        ≡ frame_spec max ending (payload ++ pending) (extend payload (split_line pending))
  unfolding read_loop
  read_loop-eq zero payload pending h k = absurd (omega arith)
  read_loop-eq (suc fuel) payload pending h k = elim (read_slice-Slices size pending) [
    | inl (line, rest, e, lacks, p) ↦
        rw
          (
            e,
            ends_with-snoc line b'\n',
            drop_last-snoc line b'\n',
            overlong-append max payload line,
            p,
            split_line-append line (b'\n' ∷ rest) lacks,
            append-nil line,
          )
          (line_case max ending (payload ++ (line ++ b'\n' ∷ rest)) (payload ++ line) rest)
    | inr (inl (f, rest, e, lacks, p, l)) ↦
        let shorter : length rest < fuel = omega (arith, ap length p, length-append f rest) in
        rw
          (
            e,
            e,
            Lacks-ends_with f lacks,
            overlong-append max payload f,
            p,
            split_line-append f rest lacks,
            extend-extend payload f (split_line rest),
            ← append_assoc payload f rest,
          )
          (elim (Bool-cases (overlong max (payload ++ f))) [
            | inl t ↦ rw t (sym (overlong_spec max ending (payload ++ f) rest t))
            | inr t ↦ rw t (read_loop-eq fuel (payload ++ f) rest h shorter)
          ])
    | inr (inr (e, lacks)) ↦ rw (
      e,
      e,
      Lacks-ends_with pending lacks,
      overlong-append max payload pending,
      split_line-Lacks pending lacks,
    )
  ]

-- Whatever the size of the read buffer, `readFrame` returns: the first line of the stream without one
-- trailing carriage return, with the bytes behind it left unread, if that line is within the limit; an
-- error for a longer line; and on a stream with no newline left, an error that says whether it is
-- too long, truncated, at its end or broken.
pub read_frame-eq :
    (size max : ℕ) (ending : Ending) (pending : Bytes)
    → 0 < size
    → read_frame size max ending pending ≡ frame_spec max ending pending (split_line pending)
unfolding read_frame
read_frame-eq size max ending pending h =
    read_loop-eq size max ending (length pending + 1) [] pending h (omega arith)
    ∙ ap (frame_spec max ending pending) (sym (extend-nil (split_line pending)))
