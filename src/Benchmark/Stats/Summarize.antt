-- ===== src/Benchmark/Stats/Summarize.antt =====
-- What `summarizeValues` and `Summarize` return.
use paraflow.Prelude.{
  ℕ, zero, suc, ◌*◌, ◌-◌, ◌≤◌, ◌<◌, ◌≡◌, refl, subst, ◌⊎◌, inl, inr, ◌≢◌, Bool, some, List, [], ◌∷◌,
  map, arith, leb, ◌==◌, length, length-map, get_elem?, All, count, get_elem?-lt,
}
use paraflow.Prelude.Words.{IsU64}
use paraflow.Prelude.Sorting.{
  sort, IsSorted, sort-IsSorted, sort-All, All-sort, count-sort, length-sort,
}
use paraflow.Prelude.Outcome.{ok, err}
use paraflow.Benchmark.Types.{Sample, Statistics, Summary}
use paraflow.Benchmark.Stats.{empty_samples, deviation, summarize_values, summarize}
use paraflow.Benchmark.Stats.Median.{integer_median-Middle, Middle-halves, sorted_index_le}

-- At least half of the values pass each of the two tests.
abbrev pub Halves : (ℕ → Bool) → (ℕ → Bool) → List ℕ → Type 0
Halves below above xs = (length xs ≤ 2 * count below xs) × (length xs ≤ 2 * count above xs)

-- A description of the statistics of `xs` that does not sort: the least and the greatest value, a
-- median of the values, and a median of their distances from it.
pub record Describes (xs : List ℕ) (s : Statistics) : Type 0 where
  pub counted : s.count ≡ length xs
  pub least : All (λ x. s.minimum_ns ≤ x) xs
  pub least_occurs : 0 < count (λ x. x == s.minimum_ns) xs
  pub greatest : All (λ x. x ≤ s.maximum_ns) xs
  pub greatest_occurs : 0 < count (λ x. x == s.maximum_ns) xs
  pub median : Halves (λ x. leb x s.median_ns) (λ x. leb s.median_ns x) xs
  pub spread :
      Halves
        (λ x. leb (deviation s.median_ns x) s.median_absolute_deviation_ns)
        (λ x. leb s.median_absolute_deviation_ns (deviation s.median_ns x))
        xs

count-map : (p : ℕ → Bool) (f : ℕ → ℕ) (xs : List ℕ) → count p (map f xs) ≡ count (λ x. p (f x)) xs
count-map p f [] = refl
count-map p f (x ∷ xs) = ground (arith, count-map p f xs)

count-index : (xs : List ℕ) (i : ℕ) {v : ℕ} → get_elem? xs i ≡ some v → 0 < count (λ x. x == v) xs
count-index [] i e = absurd (cc)
count-index (x ∷ xs) zero e = ground arith
count-index (x ∷ xs) (suc i) {v} e = ground (arith, count-index xs i {v = v} e)

below_last :
    (xs : List ℕ) (n : ℕ) {w : ℕ}
    → IsSorted xs
    → length xs ≡ suc n
    → get_elem? xs n ≡ some w
    → All (λ x. x ≤ w) xs
below_last [] n s h e = tt
below_last (x ∷ []) n s h e = (sorted_index_le (x ∷ []) 0 n s (omega arith) refl e, tt)
below_last (x ∷ y ∷ ys) zero s h e = absurd (omega arith)
below_last (x ∷ y ∷ ys) (suc n) s h e = (
  sorted_index_le (x ∷ y ∷ ys) 0 (suc n) s (omega arith) refl e,
  below_last (y ∷ ys) n s.1 (omega arith) e,
)

deviations_IsU64 : (m : ℕ) (xs : List ℕ) → All IsU64 (map (deviation m) xs)
deviations_IsU64 m [] = tt
deviations_IsU64 m (x ∷ xs) = (ground arith, deviations_IsU64 m xs)

Halves-sort : (p q : ℕ → Bool) (xs : List ℕ) → Halves p q (sort xs) → Halves p q xs
Halves-sort p q xs h = omega (arith, count-sort p xs, count-sort q xs, length-sort xs)

Halves-map :
    (p q : ℕ → Bool) (f : ℕ → ℕ) (xs : List ℕ)
    → Halves p q (map f xs)
    → Halves (λ x. p (f x)) (λ x. q (f x)) xs
Halves-map p q f xs h = omega (arith, count-map p f xs, count-map q f xs, length-map f xs)

least_first : (xs : List ℕ) {v : ℕ} → IsSorted xs → get_elem? xs 0 ≡ some v → All (λ x. v ≤ x) xs
least_first [] s e = tt
least_first (x ∷ xs) {v} s e =
    let same : x ≡ v = ground arith in
    subst (λ t. All (λ y. t ≤ y) (x ∷ xs)) same (omega arith, s.0)

ne-nil : (xs : List ℕ) → 0 < length xs → xs ≢ []
ne-nil [] h e = absurd (omega arith)
ne-nil (x ∷ xs) h e = cc

pos-length : (xs : List ℕ) → xs ≢ [] → 0 < length xs
pos-length [] n = absurd (n refl)
pos-length (x ∷ xs) n = omega arith

-- For a non-empty list of u64 values `summarizeValues` returns, and its statistics describe the
-- values: their number, the least and the greatest of them, a median, and a median of the distances
-- from that median.
pub summarize_values-Describes :
    (xs : List ℕ)
    → xs ≢ []
    → All IsU64 xs
    → (s : Statistics) × (summarize_values xs ≡ ok s) × Describes xs s
unfolding summarize_values
summarize_values-Describes xs n b =
    let pos = pos-length xs n in
    let ys = sort xs in
    let len : length ys ≡ length xs = length-sort xs in
    let srt : IsSorted ys = sort-IsSorted xs in
    let (m, em, dm) =
      integer_median-Middle ys srt (sort-All IsU64 xs b) (ne-nil ys (omega arith)) in
    let ds = map (deviation m) ys in
    let len' : length (sort ds) ≡ length ds = length-sort ds in
    let len'' : length ds ≡ length ys = length-map (deviation m) ys in
    let (d, ed, dd) =
      integer_median-Middle (sort ds) (sort-IsSorted ds) (sort-All IsU64 ds (deviations_IsU64 m ys))
        (ne-nil (sort ds) (omega arith)) in
    let (lo, elo) = get_elem?-lt ys 0 (omega arith) in
    let (hi, ehi) = get_elem?-lt ys (length ys - 1) (omega arith) in
    (
      record {
        count = length ys;
        minimum_ns = lo;
        median_ns = m;
        median_absolute_deviation_ns = d;
        maximum_ns = hi;
      },
      rw (em, elo, ed, ehi),
      record {
        counted = len;
        least = All-sort (λ x. lo ≤ x) xs (least_first ys srt elo);
        least_occurs = omega (arith, count-sort (λ x. x == lo) xs, count-index ys 0 elo);
        greatest = All-sort (λ x. x ≤ hi) xs (below_last ys (length ys - 1) srt (omega arith) ehi);
        greatest_occurs =
            omega (arith, count-sort (λ x. x == hi) xs, count-index ys (length ys - 1) ehi);
        median = Halves-sort _ _ xs (Middle-halves ys m srt dm);
        spread = Halves-sort _ _ xs (
            Halves-map _ _ (deviation m) ys
              (Halves-sort _ _ ds (Middle-halves (sort ds) d (sort-IsSorted ds) dd)));
      },
    )

abbrev pub generations : List Sample → List ℕ
generations = map (λ x. x.generation_ns)

abbrev pub pipelines : List Sample → List ℕ
pipelines = map (λ x. x.pipeline_ns)

abbrev pub totals : List Sample → List ℕ
totals = map (λ x. x.engine_total_ns)

-- `Summarize` refuses the empty sample set and nothing else: on u64 timings it never panics, and each
-- of its three statistics describes the values of its boundary.
pub summarize-Describes :
    (ss : List Sample)
    → All IsU64 (generations ss)
    → All IsU64 (pipelines ss)
    → All IsU64 (totals ss)
    → (ss ≡ []) × (summarize ss ≡ err empty_samples)
      ⊎ ((r : Summary) × (summarize ss ≡ ok r)
          × Describes (generations ss) r.generation
          × Describes (pipelines ss) r.pipeline
          × Describes (totals ss) r.engine_total)
unfolding summarize
summarize-Describes [] g p t = inl (refl, refl)
summarize-Describes (s ∷ ss) g p t =
    let (a, ea, da) = summarize_values-Describes (generations (s ∷ ss)) (λ e. cc) g in
    let (b, eb, db) = summarize_values-Describes (pipelines (s ∷ ss)) (λ e. cc) p in
    let (c, ec, dc) = summarize_values-Describes (totals (s ∷ ss)) (λ e. cc) t in
    inr (record { generation = a; pipeline = b; engine_total = c }, rw (ea, eb, ec), da, db, dc)
