-- ===== src/Benchmark/Engine/Samples.antt =====
-- The sample loop of `validateEngineResult`.
use paraflow.Prelude.{
  ℕ, ◌+◌, ◌≤◌, ◌<◌, ◌≡◌, ap, ◌∙◌, ◌↔◌, List, [], ◌∷◌, map, length, All, sum, arith,
}
use paraflow.Prelude.Outcome.{ok}
use paraflow.Prelude.Words.{u32_mod, u64_mod, IsU64}
use paraflow.Benchmark.Types.{Sample}
use paraflow.Benchmark.Arith.{add_uint64}
use paraflow.Benchmark.Engine.{sample_loop}

-- The samples are numbered from `i` on, and no total is below the parts it contains.
abbrev pub Conserved : ℕ → List Sample → Type 0
Conserved i [] = Unit
Conserved i (s ∷ ss) =
    (s.ordinal ≡ i) × (s.generation_ns + s.pipeline_ns ≤ s.engine_total_ns) × Conserved (i + 1) ss

abbrev pub retained_total : List Sample → ℕ
retained_total ss = sum (map (λ s. s.engine_total_ns) ss)

-- The fields of a sample hold u64 values.
abbrev pub HasU64 : Sample → Type 0
HasU64 s = IsU64 s.generation_ns × IsU64 s.pipeline_ns × IsU64 s.engine_total_ns

-- One sample's checks.
Step : ℕ → ℕ → Sample → Type 0
Step i t s =
    (s.ordinal ≡ i)
    × (s.generation_ns + s.pipeline_ns ≤ s.engine_total_ns)
    × (t + s.engine_total_ns < u64_mod)

sample_loop-Step :
    (i t : ℕ) (s : Sample) (ss : List Sample) {r : ℕ}
    → HasU64 s
    → IsU64 t
    → i < u32_mod
    → sample_loop i t (s ∷ ss) ≡ ok r
    → Step i t s × (sample_loop (i + 1) (t + s.engine_total_ns) ss ≡ ok r)
unfolding sample_loop add_uint64 Step
sample_loop-Step i t s ss h ht hi e = (ground arith, ground arith)

Step-sample_loop :
    (i t : ℕ) (s : Sample) (ss : List Sample)
    → HasU64 s
    → i < u32_mod
    → Step i t s
    → sample_loop i t (s ∷ ss) ≡ sample_loop (i + 1) (t + s.engine_total_ns) ss
unfolding sample_loop add_uint64 Step
Step-sample_loop i t s ss h hi p = ground arith

sound :
    (i t : ℕ) (ss : List Sample) (r : ℕ)
    → All HasU64 ss
    → i + length ss ≤ u32_mod
    → IsU64 t
    → sample_loop i t ss ≡ ok r
    → Conserved i ss × (t + retained_total ss ≡ r) × IsU64 r
unfolding sample_loop Step
sound i t [] r h n ht e = (tt, ground arith, ground arith)
sound i t (s ∷ ss) r h n ht e =
    let ((o, c, b), e1) = sample_loop-Step i t s ss h.0 ht (omega arith) e in
    let (cs, total, small) = sound (i + 1) (t + s.engine_total_ns) ss r h.1 (omega arith) b e1 in
    ((o, c, cs), omega arith, small)

complete :
    (i t : ℕ) (ss : List Sample) (r : ℕ)
    → All HasU64 ss
    → i + length ss ≤ u32_mod
    → Conserved i ss
    → t + retained_total ss ≡ r
    → IsU64 r
    → sample_loop i t ss ≡ ok r
unfolding sample_loop Step
complete i t [] r h n c total small = ap ok (omega arith)
complete i t (s ∷ ss) r h n (o, c, cs) total small =
    let b : t + s.engine_total_ns < u64_mod = omega arith in
    Step-sample_loop i t s ss h.0 (omega arith) (o, c, b)
    ∙ complete (i + 1) (t + s.engine_total_ns) ss r h.1 (omega arith) cs (omega arith) small

-- The sample loop of `validateEngineResult` succeeds exactly on samples that are numbered in order, with
-- no engine total below its two parts and with a sum of the totals below 2^64, and returns that sum: for
-- u64 fields and fewer than 2^32 samples.
pub sample_loop_iff :
    (ss : List Sample) (r : ℕ)
    → All HasU64 ss
    → length ss < u32_mod
    → (sample_loop 0 0 ss ≡ ok r) ↔ (Conserved 0 ss × (retained_total ss ≡ r) × IsU64 r)
sample_loop_iff ss r h n = (
  λ e.
      let (c, total, small) = sound 0 0 ss r h (omega arith) (omega arith) e in
      (c, omega arith, small),
  λ c. complete 0 0 ss r h (omega arith) c.0 (omega (arith, c.1)) c.2,
)
