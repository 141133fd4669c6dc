-- ===== src/Prelude/Sorting.antt =====
-- `sort.Slice` on numbers, by insertion: the ascending arrangement of a list of numbers is unique,
-- so any sorting algorithm returns this list.
use mathlib.Core.Logic.{∥∥₁_elim}
use mathlib.Core.List.{Perm, Permᴰ}
use native.Mathlib.Nat.{ℕ_set}
use paraflow.Prelude.Lists.{length, get_elem?, All, count}
use mathlib.Core.Logic.{inl, inr}
use paraflow.Prelude.Tests.{leb, if◌then◌else◌, Bool-cases}
use Prim.Native.Nat.{ℕ, zero, suc, ◌+◌, ◌≤◌}
use mathlib.Core.Path.{◌≡◌, refl, ap, ap₂, ◌∙◌}
use mathlib.Core.Bool.{Bool, true}
use mathlib.Core.Option.{some}
use mathlib.Core.List.{List, [], ◌∷◌}
use native.Mathlib.Omega.{arith}

pub insert : ℕ → List ℕ → List ℕ
insert x [] = x ∷ []
insert x (y ∷ ys) = if leb x y then x ∷ y ∷ ys else y ∷ insert x ys

unfoldable pub sort : List ℕ → List ℕ
unfolding insert
sort [] = []
sort (x ∷ xs) = insert x (sort xs)

-- Each element is at most all that follow.
abbrev pub IsSorted : List ℕ → Type 0
IsSorted [] = Unit
IsSorted (x ∷ xs) = All (λ y. x ≤ y) xs × IsSorted xs

module _ {κ} (P : ℕ → Type κ) where
  insert-All : (x : ℕ) (xs : List ℕ) → P x → All P xs → All P (insert x xs)
  unfolding insert
  insert-All x [] px h = (px, tt)
  insert-All x (y ∷ ys) px h =
      let rest = insert-All x ys px h.1 in
      elim (Bool-cases (leb x y)) [ inl e ↦ rw e (px, h) | inr e ↦ rw e (h.0, rest) ]

  pub sort-All : (xs : List ℕ) → All P xs → All P (sort xs)
  unfolding sort
  sort-All [] h = tt
  sort-All (x ∷ xs) h = insert-All x (sort xs) h.0 (sort-All xs h.1)

module _ {κ} (P : ℕ → Type κ) where
  All-insert : (x : ℕ) (xs : List ℕ) → All P (insert x xs) → P x × All P xs
  unfolding insert
  All-insert x [] h = h
  All-insert x (y ∷ ys) h = elim (Bool-cases (leb x y)) [
    | inl e ↦ (rw e at h)
    | inr e ↦
        let k : P y × All P (insert x ys) = rw e at h in
        let r = All-insert x ys k.1 in (r.0, (k.0, r.1))
  ]

  pub All-sort : (xs : List ℕ) → All P (sort xs) → All P xs
  unfolding sort
  All-sort [] h = tt
  All-sort (x ∷ xs) h = let r = All-insert x (sort xs) h in (r.0, All-sort xs r.1)

All-le_trans : (x y : ℕ) (xs : List ℕ) → x ≤ y → All (λ z. y ≤ z) xs → All (λ z. x ≤ z) xs
All-le_trans x y [] h a = tt
All-le_trans x y (z ∷ zs) h a = (omega arith, All-le_trans x y zs h a.1)

insert-IsSorted : (x : ℕ) (xs : List ℕ) → IsSorted xs → IsSorted (insert x xs)
unfolding insert
insert-IsSorted x [] h = (tt, tt)
insert-IsSorted x (y ∷ ys) h =
    ground (arith, insert-IsSorted x ys h.1, All-le_trans x y ys, insert-All (λ z. y ≤ z) x ys)

pub sort-IsSorted : (xs : List ℕ) → IsSorted (sort xs)
unfolding sort
sort-IsSorted [] = tt
sort-IsSorted (x ∷ xs) = insert-IsSorted x (sort xs) (sort-IsSorted xs)

count-insert : (p : ℕ → Bool) (x : ℕ) (xs : List ℕ) → count p (insert x xs) ≡ count p (x ∷ xs)
unfolding insert
count-insert p x [] = refl
count-insert p x (y ∷ ys) = ground (arith, count-insert p x ys)

-- Sorting keeps how many elements pass a test.
pub count-sort : (p : ℕ → Bool) (xs : List ℕ) → count p (sort xs) ≡ count p xs
unfolding sort
count-sort p [] = refl
count-sort p (x ∷ xs) = ground (arith, count-insert p x (sort xs), count-sort p xs)

length-insert : (x : ℕ) (xs : List ℕ) → length (insert x xs) ≡ suc (length xs)
unfolding insert
length-insert x [] = refl
length-insert x (y ∷ ys) = ground (arith, length-insert x ys)

pub length-sort : (xs : List ℕ) → length (sort xs) ≡ length xs
unfolding sort
length-sort [] = refl
length-sort (x ∷ xs) = length-insert x (sort xs) ∙ ap suc (length-sort xs)

insert_comm : (x y : ℕ) (xs : List ℕ) → insert x (insert y xs) ≡ insert y (insert x xs)
unfolding insert
insert_comm x y [] = ground arith
insert_comm x y (z ∷ zs) = ground (arith, insert_comm x y zs)

Permᴰ-sort : {xs ys : List ℕ} → Permᴰ xs ys → sort xs ≡ sort ys
unfolding sort
Permᴰ-sort Permᴰ.nil = refl
Permᴰ-sort (Permᴰ.cons e p) = ap₂ insert e (Permᴰ-sort p)
Permᴰ-sort (Permᴰ.swap {a = a} {b = b} {l = l} p q) =
    insert_comm a b (sort l) ∙ ap₂ (λ x y. insert x (insert y (sort l))) q p
Permᴰ-sort (Permᴰ.trans p q) = Permᴰ-sort p ∙ Permᴰ-sort q

List-ℕ-set : IsSet (List ℕ)
List-ℕ-set = hlevel ℕ_set

-- The order of the input does not matter.
pub Perm-sort : {xs ys : List ℕ} → Perm xs ys → sort xs ≡ sort ys
Perm-sort p = ∥∥₁_elim p (List-ℕ-set _ _) Permᴰ-sort

-- In a sorted list an element has at least its index many elements below it, itself counted.
pub count-le-index :
    (xs : List ℕ) (i : ℕ) {v : ℕ}
    → IsSorted xs
    → get_elem? xs i ≡ some v
    → suc i ≤ count (λ x. leb x v) xs
count-le-index [] i s e = absurd (cc)
count-le-index (x ∷ xs) zero {v} s e = ground arith
count-le-index (x ∷ xs) (suc i) {v} s e =
    ground (arith, count-le-index xs i {v = v} s.1 e, head_le x xs i v s.0 e)
  where
    head_le :
        (a : ℕ) (ys : List ℕ) (j w : ℕ) → All (λ z. a ≤ z) ys → get_elem? ys j ≡ some w → a ≤ w
    head_le a [] j w h q = absurd (cc)
    head_le a (y ∷ ys) zero w h q = ground arith
    head_le a (y ∷ ys) (suc j) w h q = head_le a ys j w h.1 q

All-count : (v : ℕ) (xs : List ℕ) → All (λ z. v ≤ z) xs → count (λ x. leb v x) xs ≡ length xs
All-count v [] h = refl
All-count v (x ∷ xs) h = ground (arith, All-count v xs h.1)

-- And at least the rest of the list above it.
pub count-ge-index :
    (xs : List ℕ) (i : ℕ) {v : ℕ}
    → IsSorted xs
    → get_elem? xs i ≡ some v
    → length xs ≤ i + count (λ x. leb v x) xs
count-ge-index [] i s e = absurd (cc)
count-ge-index (x ∷ xs) zero {v} s e = ground (arith, All-count v xs)
count-ge-index (x ∷ xs) (suc i) {v} s e = ground (arith, count-ge-index xs i {v = v} s.1 e)

-- A wider test passes at least as often.
pub count_mono :
    (p q : ℕ → Bool) (xs : List ℕ) → ((x : ℕ) → p x ≡ true → q x ≡ true) → count p xs ≤ count q xs
count_mono p q [] h = omega arith
count_mono p q (x ∷ xs) h = ground (arith, h x, count_mono p q xs h)
