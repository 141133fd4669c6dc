-- ===== src/JsonCheck/Scan.antt =====
-- `rejectDuplicateObjectKeys` on any tokens: it ends, and what it accepts is one value.
use paraflow.Prelude.{
  ℕ, zero, suc, ◌*◌, ◌≤◌, ◌<◌, ◌≡◌, ◌≢◌, refl, ap, ◌∙◌, false, List, [], ◌∷◌, arith, length, All,
  Bool-cases, inl, inr,
}
use paraflow.Prelude.Text.{Bytes, bytes_eq_iff}
use paraflow.Prelude.Outcome.{
  Outcome, ◌>>=◌, Meets, meets, declines, Meets->>=, Meets-elim, Meets-weaken,
}
use paraflow.JsonCheck.{
  Token, open_object, close_object, open_array, close_array, text, scalar, Ending, end_of_input,
  broken, JsonError, seen, next_token, has_more, next_key, close_object_with, close_array_with,
  scan_value, scan_members, scan_elements,
}
use paraflow.JsonCheck.Tree.{
  Json, Items, Fields, atom, string, array, object, no_items, item, no_fields, field, emit,
  emit_items, emit_fields, Absent, Distinct, DistinctItems, DistinctFields,
}

pub seen-All : (k : Bytes) (keys : List Bytes) → seen k keys ≡ false → All (λ j. k ≢ j) keys
unfolding seen
seen-All k [] h = tt
seen-All k (j ∷ keys) h =
    ((λ e. let same = (bytes_eq_iff k j).1 e in ground arith), seen-All k keys (ground arith))

pub Absent-nil : (keys : List Bytes) → All (λ k. Absent k no_fields) keys
Absent-nil [] = tt
Absent-nil (k ∷ keys) = (tt, Absent-nil keys)

pub Absent-field :
    (k : Bytes) (v : Json) (fs : Fields) (keys : List Bytes)
    → All (λ j. k ≢ j) keys
    → All (λ j. Absent j fs) keys
    → All (λ j. Absent j (field k v fs)) keys
Absent-field k v fs [] h u = tt
Absent-field k v fs (j ∷ keys) h u = ((h.0, u.0), Absent-field k v fs keys h.1 u.1)

-- A value takes a token, and a list of values none or more.
mutual
  unfolding emit

  pub emit-longer : (v : Json) (rest : List Token) → length rest < length (emit v rest)
  emit-longer atom rest = omega arith
  emit-longer (string s) rest = omega arith
  emit-longer (array xs) rest = omega (arith, emit_items-longer xs (close_array ∷ rest))
  emit-longer (object fs) rest = omega (arith, emit_fields-longer fs (close_object ∷ rest))

  emit_items-longer : (xs : Items) (rest : List Token) → length rest ≤ length (emit_items xs rest)
  emit_items-longer no_items rest = omega arith
  emit_items-longer (item v xs) rest =
      omega (arith, emit_items-longer xs rest, emit-longer v (emit_items xs rest))

  emit_fields-longer :
      (fs : Fields) (rest : List Token) → length rest ≤ length (emit_fields fs rest)
  emit_fields-longer no_fields rest = omega arith
  emit_fields-longer (field k v fs) rest =
      omega (arith, emit_fields-longer fs rest, emit-longer v (emit_fields fs rest))

module _ (ending : Ending) where
  abbrev pub Value : List Token → List Token → Type 0
  Value ts rest = (v : Json) × Distinct v × (ts ≡ emit v rest)

  abbrev pub Elements : List Token → List Token → Type 0
  Elements ts rest = (xs : Items) × DistinctItems xs × (ts ≡ emit_items xs (close_array ∷ rest))

  abbrev pub Members : List Bytes → List Token → List Token → Type 0
  Members keys ts rest =
      (fs : Fields) × DistinctFields fs
      × All (λ k. Absent k fs) keys
      × (ts ≡ emit_fields fs (close_object ∷ rest))

  next_token-Meets : (ts : List Token) → Meets (λ (t, rest). ts ≡ t ∷ rest) (next_token ending ts)
  next_token-Meets (t ∷ ts) = meets refl
  next_token-Meets [] = elim ending as (λ e. Meets (λ (t, rest). [] ≡ t ∷ rest) (next_token e [])) [
    | end_of_input ↦ declines
    | broken closing ↦ declines
  ]

  -- Nothing is read off the end.
  no_token :
      {A : Type 0} {P : A → Type 0} (next : Token × List Token → Outcome JsonError A)
      → Meets P (next_token ending [] >>= next)
  no_token next = Meets->>= (next_token-Meets []) (λ (t, rest) e. cc)

  next_key-Meets :
      (keys : List Bytes) (ts : List Token)
      → Meets (λ (k, rest). (ts ≡ text k ∷ rest) × (seen k keys ≡ false)) (next_key ending keys ts)
  next_key-Meets keys (text k ∷ ts) = elim (Bool-cases (seen k keys)) [
    | inl old ↦ rw old declines
    | inr new ↦ rw new (meets (refl, new))
  ]
  next_key-Meets keys [] = no_token _
  next_key-Meets keys (open_object ∷ ts) = declines
  next_key-Meets keys (close_object ∷ ts) = declines
  next_key-Meets keys (open_array ∷ ts) = declines
  next_key-Meets keys (close_array ∷ ts) = declines
  next_key-Meets keys (scalar ∷ ts) = declines

  close_object_with-Meets :
      (ts : List Token) → Meets (λ rest. ts ≡ close_object ∷ rest) (close_object_with ending ts)
  close_object_with-Meets (close_object ∷ ts) = meets refl
  close_object_with-Meets [] = no_token _
  close_object_with-Meets (open_object ∷ ts) = declines
  close_object_with-Meets (close_array ∷ ts) = declines
  close_object_with-Meets (open_array ∷ ts) = declines
  close_object_with-Meets (text k ∷ ts) = declines
  close_object_with-Meets (scalar ∷ ts) = declines

  close_array_with-Meets :
      (ts : List Token) → Meets (λ rest. ts ≡ close_array ∷ rest) (close_array_with ending ts)
  close_array_with-Meets (close_array ∷ ts) = meets refl
  close_array_with-Meets [] = no_token _
  close_array_with-Meets (open_object ∷ ts) = declines
  close_array_with-Meets (close_object ∷ ts) = declines
  close_array_with-Meets (open_array ∷ ts) = declines
  close_array_with-Meets (text k ∷ ts) = declines
  close_array_with-Meets (scalar ∷ ts) = declines

  -- One induction on the fuel: what is left is shorter, so the next call has enough.
  mutual
    unfolding scan_value emit Distinct

    pub scan_value-Meets :
        (f : ℕ) (ts : List Token) → 2 * length ts < f → Meets (Value ts) (scan_value ending f ts)
    scan_value-Meets zero ts h = absurd (omega arith)
    scan_value-Meets (suc f) [] h = no_token _
    scan_value-Meets (suc f) (open_object ∷ ts) h =
        Meets-weaken (scan_members-Meets f [] ts (omega arith))
          (λ rest (fs, d, u, e). (object fs, d, ap (λ r. open_object ∷ r) e))
    scan_value-Meets (suc f) (open_array ∷ ts) h =
        Meets-weaken (scan_elements-Meets f ts (omega arith))
          (λ rest (xs, d, e). (array xs, d, ap (λ r. open_array ∷ r) e))
    scan_value-Meets (suc f) (text s ∷ ts) h = meets (string s, tt, refl)
    scan_value-Meets (suc f) (scalar ∷ ts) h = meets (atom, tt, refl)
    scan_value-Meets (suc f) (close_object ∷ ts) h = declines
    scan_value-Meets (suc f) (close_array ∷ ts) h = declines

    scan_members-Meets :
        (f : ℕ) (keys : List Bytes) (ts : List Token)
        → suc (2 * length ts) < f
        → Meets (Members keys ts) (scan_members ending f keys ts)
    scan_members-Meets zero keys ts h = absurd (omega arith)
    scan_members-Meets (suc f) keys ts h =
        Meets-elim (has_more ending ts)
          (λ done.
            Meets-weaken (close_object_with-Meets ts)
              (λ rest e. (no_fields, tt, Absent-nil keys, e)))
          (λ more. Meets->>= (next_key-Meets keys ts) (λ (k, ts₁) (e₁, new).
            Meets->>= (scan_value-Meets f ts₁ (omega (arith, ap length e₁))) (λ ts₂ (v, dv, e₂).
              Meets-weaken
                (scan_members-Meets f (k ∷ keys) ts₂
                  (omega (arith, ap length e₁, ap length e₂, emit-longer v ts₂)))
                (λ rest (fs, dfs, (absent, u), e₃). (
                  field k v fs,
                  (absent, dv, dfs),
                  Absent-field k v fs keys (seen-All k keys new) u,
                  e₁ ∙ ap (λ r. text k ∷ r) (e₂ ∙ ap (emit v) e₃),
                )))))

    scan_elements-Meets :
        (f : ℕ) (ts : List Token)
        → suc (2 * length ts) < f
        → Meets (Elements ts) (scan_elements ending f ts)
    scan_elements-Meets zero ts h = absurd (omega arith)
    scan_elements-Meets (suc f) ts h =
        Meets-elim (has_more ending ts)
          (λ done. Meets-weaken (close_array_with-Meets ts) (λ rest e. (no_items, tt, e)))
          (λ more. Meets->>= (scan_value-Meets f ts (omega arith)) (λ ts₁ (v, dv, e₁).
            Meets-weaken
              (scan_elements-Meets f ts₁ (omega (arith, ap length e₁, emit-longer v ts₁)))
              (λ rest (xs, dxs, e₂). (item v xs, (dv, dxs), e₁ ∙ ap (emit v) e₂))))
