-- ===== src/Worker/Frame/Slices.antt =====
-- What `ReadSlice` hands over, against the first line of the pending bytes.
use paraflow.Prelude.{
  ℕ, zero, suc, ◌≡◌, refl, ap, ◌⊎◌, inl, inr, false, Option, none, some, [], ◌∷◌, ◌++◌,
  append_assoc, arith, ◌==◌, Bool-cases, if◌then◌else◌, length, All,
}
use paraflow.Prelude.Text.{Bytes, ends_with}
use paraflow.Worker.Frame.{found, full, ended, read_slice}

-- A line that begins with bytes already read.
abbrev pub extend : Bytes → Option (Bytes × Bytes) → Option (Bytes × Bytes)
extend f none = none
extend f (some (line, rest)) = some (f ++ line, rest)

-- The bytes before the first newline, and those behind it.
abbrev pub split_line : Bytes → Option (Bytes × Bytes)
split_line [] = none
split_line (c ∷ s) = if c == b'\n' then some ([], s) else extend (c ∷ []) (split_line s)

pub extend-extend :
    (f g : Bytes) (o : Option (Bytes × Bytes)) → extend f (extend g o) ≡ extend (f ++ g) o
extend-extend f g none = refl
extend-extend f g (some (line, rest)) = rw append_assoc

pub extend-nil : (o : Option (Bytes × Bytes)) → o ≡ extend [] o
extend-nil none = refl
extend-nil (some (line, rest)) = refl

abbrev pub Lacks : Bytes → Type 0
Lacks = All (λ c. (c == b'\n') ≡ false)

pub split_line-append : (f s : Bytes) → Lacks f → split_line (f ++ s) ≡ extend f (split_line s)
split_line-append [] s h = extend-nil (split_line s)
split_line-append (c ∷ f) s h =
    rw (h.0, split_line-append f s h.1) (extend-extend (c ∷ []) f (split_line s))

pub split_line-Lacks : (s : Bytes) → Lacks s → split_line s ≡ none
split_line-Lacks [] h = refl
split_line-Lacks (c ∷ s) h = rw (h.0, split_line-Lacks s h.1)

pub Lacks-ends_with : (f : Bytes) → Lacks f → ends_with b'\n' f ≡ false
Lacks-ends_with [] h = refl
Lacks-ends_with (x ∷ []) h = h.0
Lacks-ends_with (x ∷ y ∷ s) h = Lacks-ends_with (y ∷ s) h.1

-- A line with its newline; a full buffer without one; or everything, without one.
abbrev pub Slices : ℕ → Bytes → Type 0
Slices room pending =
    ((line : Bytes) × (rest : Bytes) × (read_slice room pending
        ≡ record { fragment = line ++ b'\n' ∷ []; rest = rest; status = found })
      × Lacks line
      × (pending ≡ line ++ b'\n' ∷ rest))
    ⊎ (((f : Bytes) × (rest : Bytes) × (read_slice room pending
            ≡ record { fragment = f; rest = rest; status = full })
          × Lacks f
          × (pending ≡ f ++ rest)
          × (length f ≡ room))
        ⊎ ((read_slice room pending ≡ record { fragment = pending; rest = []; status = ended })
            × Lacks pending))

pub read_slice-Slices : (room : ℕ) (pending : Bytes) → Slices room pending
unfolding read_slice
read_slice-Slices zero pending = inr (inl ([], pending, refl, tt, refl, refl))
read_slice-Slices (suc room) [] = inr (inr (refl, tt))
read_slice-Slices (suc room) (c ∷ s) = elim (Bool-cases (c == b'\n')) [
  | inl hit ↦ let same : c ≡ b'\n' = ground arith in rw same (inl ([], s, refl, tt, refl))
  | inr miss ↦ elim (read_slice-Slices room s) [
    | inl (line, rest, e, h, p) ↦ inl (c ∷ line, rest, rw (miss, e), (miss, h), ap (◌∷◌ c) p)
    | inr (inl (f, rest, e, h, p, l)) ↦
        inr (inl (c ∷ f, rest, rw (miss, e), (miss, h), ap (◌∷◌ c) p, ap suc l))
    | inr (inr (e, h)) ↦ inr (inr (rw (miss, e), (miss, h)))
  ]
]
