-- ===== src/Benchmark/Stats.antt =====
-- labctl-go/internal/benchmark/stats.go. `panic` is an index out of range, which Go raises on an
-- empty slice.
pub mod Median
pub mod Summarize
use paraflow.Prelude.{
  ℕ, ◌+◌, ◌-◌, ◌/◌, ◌%◌, ◌≡◌, Bool, Option, none, some, List, [], ◌∷◌, map, leb, ◌==◌,
  if◌then◌else◌, length, get_elem?,
}
use paraflow.Prelude.Words.{add64, sub64}
use paraflow.Prelude.Sorting.{sort}
use paraflow.Prelude.Outcome.{Outcome, ok, err, panic, ◌>>=◌, or_panic}
use paraflow.Benchmark.Types.{Sample, Statistics, Summary}

pub data StatsError : Type 0 where
  empty_samples : StatsError

abbrev pub midpoint : ℕ → ℕ → ℕ
midpoint lower upper = add64 lower (sub64 upper lower / 2)

unfoldable pub integer_median : List ℕ → Option ℕ
integer_median sorted =
    let middle = length sorted / 2 in
    if length sorted % 2 == 1
    then get_elem? sorted middle
    else elim (get_elem? sorted (middle - 1)) [
      | none ↦ none
      | some lower ↦ elim (get_elem? sorted middle) [
        | none ↦ none
        | some upper ↦ some (midpoint lower upper)
      ]
    ]

abbrev pub deviation : ℕ → ℕ → ℕ
deviation median value = if leb median value then sub64 value median else sub64 median value

-- `summarizeValues` once its copy of the values is sorted.
pub summarize_sorted : List ℕ → Outcome StatsError Statistics
unfolding integer_median
summarize_sorted sorted = do
  median ← or_panic (integer_median sorted)
  let deviations = sort (map (deviation median) sorted)
  minimum ← or_panic (get_elem? sorted 0)
  mad ← or_panic (integer_median deviations)
  maximum ← or_panic (get_elem? sorted (length sorted - 1))
  ok (record {
    count = length sorted;
    minimum_ns = minimum;
    median_ns = median;
    median_absolute_deviation_ns = mad;
    maximum_ns = maximum;
  })

unfoldable pub summarize_values : List ℕ → Outcome StatsError Statistics
unfolding summarize_sorted
summarize_values values = summarize_sorted (sort values)

unfoldable pub summarize : List Sample → Outcome StatsError Summary
summarize [] = err empty_samples
summarize (s ∷ ss) = do
  generation ← summarize_values (map (λ x. x.generation_ns) (s ∷ ss))
  pipeline ← summarize_values (map (λ x. x.pipeline_ns) (s ∷ ss))
  engine_total ← summarize_values (map (λ x. x.engine_total_ns) (s ∷ ss))
  ok (record { generation = generation; pipeline = pipeline; engine_total = engine_total })
