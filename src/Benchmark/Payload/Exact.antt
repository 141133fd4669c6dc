-- ===== src/Benchmark/Payload/Exact.antt =====
-- `oneShotResponsePayload` of engine.go: what it accepts.
use paraflow.Prelude.{
  ◌+◌, ◌≤◌, ◌≡◌, ap, subst, ◌∙◌, ◌↔◌, ◌⊎◌, inl, inr, false, [], ◌∷◌, ◌++◌, arith, Bool-cases,
  length, drop_last, length-append,
}
use paraflow.Prelude.Text.{Bytes, ends_with, ends_with-snoc, drop_last-snoc, snoc-drop_last}
use paraflow.Prelude.Outcome.{ok}
use paraflow.Protocol.Message.{max_frame_bytes}
use paraflow.Benchmark.Payload.{strip_terminator, one_shot_response_payload}

-- A payload with one optional terminator.
abbrev pub Terminated : Bytes → Bytes → Type 0
Terminated p raw = (raw ≡ p) ⊎ ((raw ≡ p ++ b'\n' ∷ []) ⊎ (raw ≡ (p ++ b'\r' ∷ []) ++ b'\n' ∷ []))

strip-Terminated : (raw : Bytes) → Terminated (strip_terminator raw) raw
strip-Terminated raw = elim (Bool-cases (ends_with b'\n' raw)) [
  | inr plain ↦ inl (rw plain)
  | inl line ↦ elim (Bool-cases (ends_with b'\r' (drop_last raw))) [
    | inr lf ↦ inr (inl (rw (line, lf) (snoc-drop_last raw b'\n' line)))
    | inl crlf ↦ inr (
        inr (
          rw (line, crlf)
            (snoc-drop_last raw b'\n' line
              ∙ ap (λ s. s ++ b'\n' ∷ []) (snoc-drop_last (drop_last raw) b'\r' crlf))))
  ]
]

Terminated-strip :
    (p raw : Bytes)
    → ends_with b'\r' p ≡ false
    → ends_with b'\n' p ≡ false
    → Terminated p raw
    → strip_terminator raw ≡ p
Terminated-strip p raw r n (inl e) = rw (e, n)
Terminated-strip p raw r n (inr (inl e)) = rw (e, ends_with-snoc p b'\n', drop_last-snoc p b'\n', r)
Terminated-strip p raw r n (inr (inr e)) = rw (
  e,
  ends_with-snoc (p ++ b'\r' ∷ []) b'\n',
  drop_last-snoc (p ++ b'\r' ∷ []) b'\n',
  ends_with-snoc p b'\r',
  drop_last-snoc p b'\r',
)

Terminated-length : (p raw : Bytes) → Terminated p raw → length raw ≤ length p + 2
Terminated-length p raw (inl e) = omega (arith, ap length e)
Terminated-length p raw (inr (inl e)) = omega (arith, ap length e, length-append p (b'\n' ∷ []))
Terminated-length p raw (inr (inr e)) =
    omega (
      arith,
      ap length e,
      length-append (p ++ b'\r' ∷ []) (b'\n' ∷ []),
      length-append p (b'\r' ∷ []),
    )

-- `oneShotResponsePayload` accepts exactly a payload within the limit that ends in no line ending,
-- followed by nothing, by one LF or by one CRLF, and returns that payload.
pub payload_iff :
    (raw p : Bytes)
    → (one_shot_response_payload raw ≡ ok p) ↔ (
        Terminated p raw
        × (length p ≤ max_frame_bytes)
        × (ends_with b'\r' p ≡ false)
        × (ends_with b'\n' p ≡ false))
unfolding one_shot_response_payload
payload_iff raw p = (sound, complete)
  where
    sound :
        one_shot_response_payload raw ≡ ok p
        → Terminated p raw
          × (length p ≤ max_frame_bytes)
          × (ends_with b'\r' p ≡ false)
          × (ends_with b'\n' p ≡ false)
    sound e =
        let same : strip_terminator raw ≡ p = ground arith in
        (
          subst (λ q. Terminated q raw) same (strip-Terminated raw),
          ground arith,
          ground arith,
          ground arith,
        )

    complete :
        Terminated p raw
          × (length p ≤ max_frame_bytes)
          × (ends_with b'\r' p ≡ false)
          × (ends_with b'\n' p ≡ false)
        → one_shot_response_payload raw ≡ ok p
    complete (t, l, r, n) =
        let same = Terminated-strip p raw r n t in
        let bound = Terminated-length p raw t in ground arith
