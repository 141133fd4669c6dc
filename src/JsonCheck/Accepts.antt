-- ===== src/JsonCheck/Accepts.antt =====
-- `rejectDuplicateObjectKeys` on the tokens of a value, and which token streams it accepts.
use paraflow.Prelude.{
  ℕ, zero, suc, ◌+◌, ◌*◌, ◌≤◌, ◌<◌, ◌≡◌, ◌≢◌, ◌↔◌, refl, ap, ◌∙◌, Bool, true, false, not, ◌&&◌,
  List, [], ◌∷◌, arith, length, All, if◌then◌else◌, Bool-cases, inl, inr,
}
use paraflow.Prelude.Text.{Bytes, bytes_eq, bytes_eq_iff}
use paraflow.Prelude.Outcome.{
  Outcome, ok, err, panic, Meets-ok, Meets-panic, Meets, meets, declines, Meets->>=, Meets-weaken,
}
use paraflow.JsonCheck.{
  Token, close_object, close_array, text, Ending, end_of_input, broken, JsonError, duplicate_key,
  seen, has_more, scan_value, scan_members, scan_elements, check_end, reject_duplicate_object_keys,
}
use paraflow.JsonCheck.Tree.{
  Json, Items, Fields, atom, string, array, object, no_items, item, no_fields, field, emit,
  emit_items, emit_fields, Absent, Distinct, DistinctItems, DistinctFields,
}
use paraflow.JsonCheck.Scan.{scan_value-Meets, Absent-nil, Absent-field, seen-All}

-- The tests of the scan, as a function of the value: `from` has the keys that were seen.
mutual
  distinct : Json → Bool
  distinct atom = true
  distinct (string s) = true
  distinct (array xs) = distinct_items xs
  distinct (object fs) = distinct_fields [] fs

  distinct_items : Items → Bool
  distinct_items no_items = true
  distinct_items (item v xs) = distinct v && distinct_items xs

  distinct_fields : List Bytes → Fields → Bool
  distinct_fields keys no_fields = true
  distinct_fields keys (field k v fs) =
      not (seen k keys) && (distinct v && distinct_fields (k ∷ keys) fs)

-- The fuel that a value takes.
mutual
  size : Json → ℕ
  size atom = 1
  size (string s) = 1
  size (array xs) = suc (size_items xs)
  size (object fs) = suc (size_fields fs)

  size_items : Items → ℕ
  size_items no_items = 1
  size_items (item v xs) = suc (size v + size_items xs)

  size_fields : Fields → ℕ
  size_fields no_fields = 1
  size_fields (field k v fs) = suc (size v + size_fields fs)

mutual
  unfolding size emit

  size-le : (v : Json) (rest : List Token) → size v + 2 * length rest < 2 * length (emit v rest)
  size-le atom rest = omega arith
  size-le (string s) rest = omega arith
  size-le (array xs) rest = omega (arith, size_items-le xs (close_array ∷ rest))
  size-le (object fs) rest = omega (arith, size_fields-le fs (close_object ∷ rest))

  size_items-le :
      (xs : Items) (rest : List Token)
      → size_items xs + 2 * length rest ≤ 2 * length (emit_items xs rest) + 1
  size_items-le no_items rest = omega arith
  size_items-le (item v xs) rest =
      omega (arith, size_items-le xs rest, size-le v (emit_items xs rest))

  size_fields-le :
      (fs : Fields) (rest : List Token)
      → size_fields fs + 2 * length rest ≤ 2 * length (emit_fields fs rest) + 1
  size_fields-le no_fields rest = omega arith
  size_fields-le (field k v fs) rest =
      omega (arith, size_fields-le fs rest, size-le v (emit_fields fs rest))

module _ (ending : Ending) where
  has_more-emit : (v : Json) (rest : List Token) → has_more ending (emit v rest) ≡ true
  unfolding emit
  has_more-emit atom rest = refl
  has_more-emit (string s) rest = refl
  has_more-emit (array xs) rest = refl
  has_more-emit (object fs) rest = refl

  abbrev verdict : Bool → List Token → Outcome JsonError (List Token)
  verdict b rest = if b then ok rest else err duplicate_key

  elements_step :
      (b c : Bool) (f : ℕ) (ts ts' rest : List Token)
      → has_more ending ts ≡ true
      → scan_value ending f ts ≡ verdict b ts'
      → scan_elements ending f ts' ≡ verdict c rest
      → scan_elements ending (suc f) ts ≡ verdict (b && c) rest
  unfolding scan_value
  elements_step true c f ts ts' rest more here there = rw (more, scan_elements) (rw here there)
  elements_step false c f ts ts' rest more here there = rw (more, scan_elements) (rw here)

  members_step :
      (a b c : Bool) (key : Bytes) (f : ℕ) (keys : List Bytes) (ts ts' rest : List Token)
      → seen key keys ≡ a
      → scan_value ending f ts ≡ verdict b ts'
      → scan_members ending f (key ∷ keys) ts' ≡ verdict c rest
      → scan_members ending (suc f) keys (text key ∷ ts) ≡ verdict (not a && (b && c)) rest
  unfolding scan_value
  members_step true b c key f keys ts ts' rest old here there = rw old
  members_step false true c key f keys ts ts' rest old here there = rw old (rw here there)
  members_step false false c key f keys ts ts' rest old here there = rw old (rw here)

  mutual
    unfolding scan_value emit distinct size

    scan_value-emit :
        (v : Json) (f : ℕ) (rest : List Token)
        → size v ≤ f
        → scan_value ending f (emit v rest) ≡ verdict (distinct v) rest
    scan_value-emit atom zero rest h = absurd (omega arith)
    scan_value-emit atom (suc f) rest h = refl
    scan_value-emit (string s) zero rest h = absurd (omega arith)
    scan_value-emit (string s) (suc f) rest h = refl
    scan_value-emit (array xs) zero rest h = absurd (omega arith)
    scan_value-emit (array xs) (suc f) rest h = scan_elements-emit xs f rest (omega arith)
    scan_value-emit (object fs) zero rest h = absurd (omega arith)
    scan_value-emit (object fs) (suc f) rest h = scan_members-emit fs [] f rest (omega arith)

    scan_elements-emit :
        (xs : Items) (f : ℕ) (rest : List Token)
        → size_items xs ≤ f
        → scan_elements ending f (emit_items xs (close_array ∷ rest))
          ≡ verdict (distinct_items xs) rest
    scan_elements-emit no_items zero rest h = absurd (omega arith)
    scan_elements-emit no_items (suc f) rest h = refl
    scan_elements-emit (item v xs) zero rest h = absurd (omega arith)
    scan_elements-emit (item v xs) (suc f) rest h =
        let here = scan_value-emit v f (emit_items xs (close_array ∷ rest)) (omega arith) in
        let there = scan_elements-emit xs f rest (omega arith) in
        let more = has_more-emit v (emit_items xs (close_array ∷ rest)) in
        elements_step (distinct v) (distinct_items xs) f _ _ rest more here there

    scan_members-emit :
        (fs : Fields) (keys : List Bytes) (f : ℕ) (rest : List Token)
        → size_fields fs ≤ f
        → scan_members ending f keys (emit_fields fs (close_object ∷ rest))
          ≡ verdict (distinct_fields keys fs) rest
    scan_members-emit no_fields keys zero rest h = absurd (omega arith)
    scan_members-emit no_fields keys (suc f) rest h = refl
    scan_members-emit (field k v fs) keys zero rest h = absurd (omega arith)
    scan_members-emit (field k v fs) keys (suc f) rest h =
        let here = scan_value-emit v f (emit_fields fs (close_object ∷ rest)) (omega arith) in
        let there = scan_members-emit fs (k ∷ keys) f rest (omega arith) in
        members_step (seen k keys) (distinct v) (distinct_fields (k ∷ keys) fs) k f keys _ _ rest
          refl here there

not_seen : (k : Bytes) (keys : List Bytes) → All (λ j. k ≢ j) keys → seen k keys ≡ false
unfolding seen
not_seen k [] h = refl
not_seen k (j ∷ keys) h = elim (Bool-cases (bytes_eq k j)) [
  | inl e ↦ absurd (h.0 ((bytes_eq_iff k j).0 e))
  | inr e ↦ rw e (not_seen k keys h.1)
]

split_field :
    (k : Bytes) (v : Json) (fs : Fields) (keys : List Bytes)
    → All (λ j. Absent j (field k v fs)) keys
    → All (λ j. k ≢ j) keys × All (λ j. Absent j fs) keys
split_field k v fs [] h = (tt, tt)
split_field k v fs (j ∷ keys) h =
    let rest = split_field k v fs keys h.1 in ((h.0.0, rest.0), (h.0.1, rest.1))

-- The tests find every repeated key, and nothing else.
mutual
  unfolding distinct Distinct

  distinct-Distinct : (v : Json) → distinct v ≡ true → Distinct v
  distinct-Distinct atom h = tt
  distinct-Distinct (string s) h = tt
  distinct-Distinct (array xs) h = items-Distinct xs h
  distinct-Distinct (object fs) h = (fields-Distinct [] fs h).1

  items-Distinct : (xs : Items) → distinct_items xs ≡ true → DistinctItems xs
  items-Distinct no_items h = tt
  items-Distinct (item v xs) h =
      (distinct-Distinct v (ground arith), items-Distinct xs (ground arith))

  fields-Distinct :
      (keys : List Bytes) (fs : Fields)
      → distinct_fields keys fs ≡ true
      → All (λ j. Absent j fs) keys × DistinctFields fs
  fields-Distinct keys no_fields h = (Absent-nil keys, tt)
  fields-Distinct keys (field k v fs) h =
      let (absent, rest) = fields-Distinct (k ∷ keys) fs (ground arith) in
      (
        Absent-field k v fs keys (seen-All k keys (ground arith)) absent.1,
        (absent.0, distinct-Distinct v (ground arith), rest),
      )

mutual
  unfolding distinct Distinct

  Distinct-distinct : (v : Json) → Distinct v → distinct v ≡ true
  Distinct-distinct atom d = refl
  Distinct-distinct (string s) d = refl
  Distinct-distinct (array xs) d = Distinct-items xs d
  Distinct-distinct (object fs) d = Distinct-fields [] fs tt d

  Distinct-items : (xs : Items) → DistinctItems xs → distinct_items xs ≡ true
  Distinct-items no_items d = refl
  Distinct-items (item v xs) d = rw (Distinct-distinct v d.0, Distinct-items xs d.1)

  Distinct-fields :
      (keys : List Bytes) (fs : Fields)
      → All (λ j. Absent j fs) keys
      → DistinctFields fs
      → distinct_fields keys fs ≡ true
  Distinct-fields keys no_fields u d = refl
  Distinct-fields keys (field k v fs) u d =
      let (new, old) = split_field k v fs keys u in
      rw
        (not_seen k keys new, Distinct-distinct v d.1, Distinct-fields (k ∷ keys) fs (d.0, old) d.2)

check_end-Meets :
    (ending : Ending) (ts : List Token)
    → Meets (λ u. (ending ≡ end_of_input) × (ts ≡ [])) (check_end ending ts)
check_end-Meets end_of_input [] = meets (refl, refl)
check_end-Meets (broken closing) [] = declines
check_end-Meets ending (t ∷ ts) = declines

abbrev pub OneValue : Ending → List Token → Type 0
OneValue ending ts = (ending ≡ end_of_input) × (v : Json) × (ts ≡ emit v []) × Distinct v

reject-Meets :
    (ending : Ending) (ts : List Token)
    → Meets (λ u. OneValue ending ts) (reject_duplicate_object_keys ending ts)
unfolding reject_duplicate_object_keys
reject-Meets ending ts =
    Meets->>= (scan_value-Meets ending (2 * length ts + 1) ts (omega arith)) (λ rest (v, d, e).
      Meets-weaken (check_end-Meets ending rest)
        (λ u (ended, none_left). (ended, v, e ∙ ap (emit v) none_left, d)))

-- What the scan leaves of the tokens of one value.
reject-verdict :
    (v : Json)
    → reject_duplicate_object_keys end_of_input (emit v [])
      ≡ (if distinct v then ok tt else err duplicate_key)
unfolding reject_duplicate_object_keys
reject-verdict v =
    let scanned =
      scan_value-emit end_of_input v (2 * length (emit v []) + 1) []
        (omega (arith, size-le v [])) in
    rw scanned (ground arith)

-- `rejectDuplicateObjectKeys` ends on any tokens, and accepts exactly the tokens of one JSON value
-- with nothing behind it in which no object, at any depth, repeats a key.
pub reject_duplicate_object_keys_iff :
    (ending : Ending) (ts : List Token)
    → (reject_duplicate_object_keys ending ts ≢ panic)
      × ((reject_duplicate_object_keys ending ts ≡ ok tt) ↔ OneValue ending ts)
reject_duplicate_object_keys_iff ending ts = (
  Meets-panic (reject-Meets ending ts),
  (
    λ e. Meets-ok (reject-Meets ending ts) e,
    λ (ended, v, e, d). rw (ended, e) (reject-verdict v ∙ rw (Distinct-distinct v d)),
  ),
)

-- A repeated key is found: the tokens of a value in which some object repeats one are refused as such.
pub reject_duplicate_object_keys-duplicate :
    (v : Json)
    → ¬ Distinct v
    → reject_duplicate_object_keys end_of_input (emit v []) ≡ err duplicate_key
reject_duplicate_object_keys-duplicate v n = elim (Bool-cases (distinct v)) [
  | inl e ↦ absurd (n (distinct-Distinct v e))
  | inr e ↦ reject-verdict v ∙ rw e
]
