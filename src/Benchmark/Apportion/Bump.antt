-- ===== src/Benchmark/Apportion/Bump.antt =====
-- The last loop of `apportionBasisPoints`, over the first `remaining` remainders.
use paraflow.Prelude.{
  ℕ, zero, suc, ◌+◌, ◌≤◌, ◌<◌, ◌≡◌, refl, sym, ap, ◌∙◌, ◌≢◌, ◌⊎◌, inl, inr, some, List, [], ◌∷◌,
  arith, leb, Bool-cases, length, get_elem?, get_elem?-lt, All, All-get_elem?, sum,
}
use paraflow.Prelude.Outcome.{ok}
use paraflow.Benchmark.Apportion.{Remainder, insert, sort_descending, bump, bump_loop, whole}
use paraflow.Benchmark.Apportion.Loop.{residuals}

-- Each share is its floor or one more.
abbrev pub Near : List ℕ → List ℕ → Type 0
Near [] [] = Unit {0}
Near [] (y ∷ ys) = ⊥
Near (x ∷ xs) [] = ⊥
Near (x ∷ xs) (y ∷ ys) = ((y ≡ x) ⊎ (y ≡ x + 1)) × Near xs ys

pub Near-self : (q : List ℕ) → Near q q
Near-self [] = tt
Near-self (x ∷ xs) = (inl refl, Near-self xs)

pub Near-length : (q s : List ℕ) → Near q s → length s ≡ length q
Near-length [] [] h = refl
Near-length [] (y ∷ ys) h = absurd h
Near-length (x ∷ xs) [] h = absurd h
Near-length (x ∷ xs) (y ∷ ys) h = ap suc (Near-length xs ys h.1)

abbrev pub raised : List ℕ → ℕ → List ℕ
raised [] i = []
raised (x ∷ xs) zero = (x + 1) ∷ xs
raised (x ∷ xs) (suc i) = x ∷ raised xs i

bump-raised :
    (s : List ℕ) (i x : ℕ) → get_elem? s i ≡ some x → x ≤ whole → bump s i ≡ some (raised s i)
unfolding bump
bump-raised [] i x e h = cc
bump-raised (y ∷ ys) zero x e h = ground arith
bump-raised (y ∷ ys) (suc i) x e h = rw (bump-raised ys i x e h)

sum-raised : (s : List ℕ) (i : ℕ) → i < length s → sum (raised s i) ≡ sum s + 1
sum-raised [] i h = absurd (omega arith)
sum-raised (y ∷ ys) zero h = omega arith
sum-raised (y ∷ ys) (suc i) h = omega (arith, sum-raised ys i)

get_elem?-raised_ne : (s : List ℕ) (i j : ℕ) → i ≢ j → get_elem? (raised s i) j ≡ get_elem? s j
get_elem?-raised_ne [] i j h = refl
get_elem?-raised_ne (y ∷ ys) zero zero h = absurd (h refl)
get_elem?-raised_ne (y ∷ ys) zero (suc j) h = refl
get_elem?-raised_ne (y ∷ ys) (suc i) zero h = refl
get_elem?-raised_ne (y ∷ ys) (suc i) (suc j) h = get_elem?-raised_ne ys i j (λ e. h (ap suc e))

Near-raised :
    (q s : List ℕ) (i : ℕ)
    → Near q s
    → get_elem? s i ≡ get_elem? q i
    → i < length q
    → Near q (raised s i)
Near-raised [] s i n e h = absurd (omega arith)
Near-raised (x ∷ xs) [] i n e h = absurd n
Near-raised (x ∷ xs) (y ∷ ys) zero n e h = (inr (ground arith), n.1)
Near-raised (x ∷ xs) (y ∷ ys) (suc i) n e h = (n.0, Near-raised xs ys i n.1 e (omega arith))

abbrev pub Distinct : List Remainder → Type 0
Distinct [] = Unit {0}
Distinct (r ∷ rs) = All (λ x. x.index ≢ r.index) rs × Distinct rs

-- The shares of these remainders are in range and have not been raised.
abbrev pub Fresh : List ℕ → List ℕ → List Remainder → Type 0
Fresh q s = All (λ r. (get_elem? s r.index ≡ get_elem? q r.index) × (r.index < length q))

Fresh-raised :
    (q s : List ℕ) (i : ℕ) (rs : List Remainder)
    → All (λ x. x.index ≢ i) rs
    → Fresh q s rs
    → Fresh q (raised s i) rs
Fresh-raised q s i [] d f = tt
Fresh-raised q s i (r ∷ rs) d f = (
  (get_elem?-raised_ne s i r.index (λ e. d.0 (sym e)) ∙ f.0.0, f.0.1),
  Fresh-raised q s i rs d.1 f.1,
)

-- Raising `n` different shares that are at their floors adds `n` points, and does not panic.
pub bump_loop-Near :
    (n : ℕ) (rs : List Remainder) (q s : List ℕ)
    → All (λ x. x ≤ whole) q
    → n ≤ length rs
    → Distinct rs
    → Fresh q s rs
    → Near q s
    → (t : List ℕ) × (bump_loop n rs s ≡ ok t) × Near q t × (sum t ≡ sum s + n)
unfolding bump_loop
bump_loop-Near zero rs q s b h d f n = (s, refl, n, omega arith)
bump_loop-Near (suc k) [] q s b h d f n = absurd (omega arith)
bump_loop-Near (suc k) (r ∷ rs) q s b h d f n =
    let (x, ex) = get_elem?-lt q r.index f.0.1 in
    let small : x ≤ whole = All-get_elem? (λ z. z ≤ whole) q r.index {v = x} b ex in
    let (t, et, nt, st) =
      bump_loop-Near k rs q (raised s r.index) b (omega arith) d.1
        (Fresh-raised q s r.index rs d.0 f.1) (Near-raised q s r.index n f.0.0 f.0.1) in
    (
      t,
      rw (bump-raised s r.index x (f.0.0 ∙ ex) small) et,
      nt,
      omega (arith, Near-length q s n, f.0.1, sum-raised s r.index),
    )

module _ {κ} (P : Remainder → Type κ) where
  insert-All : (r : Remainder) (rs : List Remainder) → P r → All P rs → All P (insert r rs)
  unfolding insert
  insert-All r [] p h = (p, tt)
  insert-All r (x ∷ xs) p h =
      let rest = insert-All r xs p h.1 in
      elim (Bool-cases (leb x.value r.value)) [ inl e ↦ rw e (p, h) | inr e ↦ rw e (h.0, rest) ]

  pub sort_descending-All : (rs : List Remainder) → All P rs → All P (sort_descending rs)
  unfolding sort_descending
  sort_descending-All [] h = tt
  sort_descending-All (r ∷ rs) h =
      insert-All r (sort_descending rs) h.0 (sort_descending-All rs h.1)

insert-Distinct :
    (r : Remainder) (rs : List Remainder)
    → All (λ x. x.index ≢ r.index) rs
    → Distinct rs
    → Distinct (insert r rs)
unfolding insert
insert-Distinct r [] a d = (tt, tt)
insert-Distinct r (x ∷ xs) a d =
    let rest = insert-Distinct r xs a.1 d.1 in
    elim (Bool-cases (leb x.value r.value)) [
      | inl e ↦ rw e (a, d)
      | inr e ↦ rw e (insert-All (λ y. y.index ≢ x.index) r xs (λ p. a.0 (sym p)) d.0, rest)
    ]

pub sort_descending-Distinct : (rs : List Remainder) → Distinct rs → Distinct (sort_descending rs)
unfolding sort_descending
sort_descending-Distinct [] d = tt
sort_descending-Distinct (r ∷ rs) d =
    insert-Distinct r (sort_descending rs) (sort_descending-All (λ x. x.index ≢ r.index) rs d.0)
      (sort_descending-Distinct rs d.1)

length-insert : (r : Remainder) (rs : List Remainder) → length (insert r rs) ≡ suc (length rs)
unfolding insert
length-insert r [] = refl
length-insert r (x ∷ xs) = ground (arith, length-insert r xs)

pub length-sort_descending : (rs : List Remainder) → length (sort_descending rs) ≡ length rs
unfolding sort_descending
length-sort_descending [] = refl
length-sort_descending (r ∷ rs) =
    length-insert r (sort_descending rs) ∙ ap suc (length-sort_descending rs)

residuals-above : (t i j : ℕ) (vs : List ℕ) → i < j → All (λ r. r.index ≢ i) (residuals t j vs)
residuals-above t i j [] h = tt
residuals-above t i j (v ∷ vs) h = (omega arith, residuals-above t i (suc j) vs (omega arith))

pub residuals-Distinct : (t i : ℕ) (vs : List ℕ) → Distinct (residuals t i vs)
residuals-Distinct t i [] = tt
residuals-Distinct t i (v ∷ vs) =
    (residuals-above t i (suc i) vs (omega arith), residuals-Distinct t (suc i) vs)

pub residuals-below :
    (t i n : ℕ) (vs : List ℕ) → i + length vs ≤ n → All (λ r. r.index < n) (residuals t i vs)
residuals-below t i n [] h = tt
residuals-below t i n (v ∷ vs) h = (omega arith, residuals-below t (suc i) n vs (omega arith))

pub length-residuals : (t i : ℕ) (vs : List ℕ) → length (residuals t i vs) ≡ length vs
length-residuals t i [] = refl
length-residuals t i (v ∷ vs) = ap suc (length-residuals t (suc i) vs)
