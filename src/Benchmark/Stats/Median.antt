-- ===== src/Benchmark/Stats/Median.antt =====
-- What `integerMedian` returns on a sorted list of u64 values.
use paraflow.Prelude.{
  ℕ, zero, suc, ◌+◌, ◌*◌, ◌-◌, ◌/◌, ◌%◌, ◌≤◌, ◌≡◌, refl, ◌≢◌, inl, inr, true, some, List, [], ◌∷◌,
  arith, leb, ◌==◌, Bool-cases, length, get_elem?, All, count, get_elem?-lt, All-get_elem?,
}
use paraflow.Prelude.Words.{IsU64}
use paraflow.Prelude.Sorting.{IsSorted, count-le-index, count-ge-index, count_mono}
use paraflow.Benchmark.Stats.{midpoint, integer_median}

-- In a sorted list a later element is at least an earlier one.
pub sorted_index_le :
    (xs : List ℕ) (i j : ℕ) {v w : ℕ}
    → IsSorted xs
    → i ≤ j
    → get_elem? xs i ≡ some v
    → get_elem? xs j ≡ some w
    → v ≤ w
sorted_index_le [] i j s h e f = absurd (cc)
sorted_index_le (x ∷ xs) zero zero s h e f = ground arith
sorted_index_le (x ∷ xs) zero (suc j) {v} {w} s h e f =
    ground (arith, All-get_elem? (λ z. x ≤ z) xs j {v = w} s.0 f)
sorted_index_le (x ∷ xs) (suc i) zero s h e f = absurd (omega arith)
sorted_index_le (x ∷ xs) (suc i) (suc j) s h e f = sorted_index_le xs i j s.1 (omega arith) e f

-- The two middle elements, equal for an odd length, and the median as their floor midpoint.
pub record Middle (xs : List ℕ) (m : ℕ) : Type 0 where
  pub lower : ℕ
  pub upper : ℕ
  pub lower_at : get_elem? xs ((length xs - 1) / 2) ≡ some lower
  pub upper_at : get_elem? xs (length xs / 2) ≡ some upper
  pub ordered : lower ≤ upper
  pub exact : m ≡ (lower + upper) / 2

pub midpoint_lem : (l u : ℕ) → l ≤ u → IsU64 u → midpoint l u ≡ (l + u) / 2
midpoint_lem l u h b = omega arith

odd_Middle :
    (xs : List ℕ) (v : ℕ) → length xs % 2 ≡ 1 → get_elem? xs (length xs / 2) ≡ some v → Middle xs v
odd_Middle xs v o e =
    let same : (length xs - 1) / 2 ≡ length xs / 2 = omega arith in
    record {
      lower = v;
      upper = v;
      lower_at = rw same e;
      upper_at = e;
      ordered = omega arith;
      exact = omega arith;
    }

even_Middle :
    (xs : List ℕ) (l u : ℕ)
    → IsSorted xs
    → All IsU64 xs
    → xs ≢ []
    → length xs % 2 ≢ 1
    → get_elem? xs (length xs / 2 - 1) ≡ some l
    → get_elem? xs (length xs / 2) ≡ some u
    → Middle xs (midpoint l u)
even_Middle [] l u s b n o e f = absurd (n refl)
even_Middle (x ∷ xs) l u s b n o e f =
    let same : (length (x ∷ xs) - 1) / 2 ≡ length (x ∷ xs) / 2 - 1 = omega arith in
    let le : l ≤ u =
      sorted_index_le (x ∷ xs) (length (x ∷ xs) / 2 - 1) (length (x ∷ xs) / 2) s (omega arith) e
        f in
    record {
      lower = l;
      upper = u;
      lower_at = rw same e;
      upper_at = f;
      ordered = le;
      exact = midpoint_lem l u le (All-get_elem? IsU64 (x ∷ xs) (length (x ∷ xs) / 2) b f);
    }

-- On a non-empty sorted list of u64 values `integerMedian` returns, with no index out of range and no
-- addition that wraps, the floor of the mean of the two middle elements, which are one element for an
-- odd length.
pub integer_median-Middle :
    (xs : List ℕ)
    → IsSorted xs
    → All IsU64 xs
    → xs ≢ []
    → (m : ℕ) × (integer_median xs ≡ some m) × Middle xs m
unfolding integer_median
integer_median-Middle [] s b n = absurd (n refl)
integer_median-Middle (x ∷ xs) s b n =
    let (u, eu) = get_elem?-lt (x ∷ xs) (length (x ∷ xs) / 2) (omega arith) in
    let (l, el) = get_elem?-lt (x ∷ xs) (length (x ∷ xs) / 2 - 1) (omega arith) in
    elim (Bool-cases (length (x ∷ xs) % 2 == 1)) [
      | inl o ↦ (u, rw o eu, odd_Middle (x ∷ xs) u (ground arith) eu)
      | inr o ↦ (midpoint l u, rw (o, el, eu), even_Middle (x ∷ xs) l u s b n (ground arith) el eu)
    ]

-- At least half of the values are at most the median, and at least half are at least it.
pub Middle-halves :
    (xs : List ℕ) (m : ℕ)
    → IsSorted xs
    → Middle xs m
    → (length xs ≤ 2 * count (λ x. leb x m) xs) × (length xs ≤ 2 * count (λ x. leb m x) xs)
Middle-halves [] m s d = (omega arith, omega arith)
Middle-halves (x ∷ xs) m s d =
    let below = count-le-index (x ∷ xs) ((length (x ∷ xs) - 1) / 2) s d.lower_at in
    let above = count-ge-index (x ∷ xs) (length (x ∷ xs) / 2) s d.upper_at in
    let wider = count_mono (λ x. leb x d.lower) (λ x. leb x m) (x ∷ xs) (λ z h. le_up z h) in
    let wider' = count_mono (λ x. leb d.upper x) (λ x. leb m x) (x ∷ xs) (λ z h. ge_down z h) in
    (omega arith, omega arith)
  where
    le_up : (z : ℕ) → leb z d.lower ≡ true → leb z m ≡ true
    le_up z h = ground (arith, d.ordered, d.exact)

    ge_down : (z : ℕ) → leb d.upper z ≡ true → leb m z ≡ true
    ge_down z h = ground (arith, d.ordered, d.exact)
