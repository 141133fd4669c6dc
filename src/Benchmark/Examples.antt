-- ===== src/Benchmark/Examples.antt =====
-- Statistics, arithmetic and the process boundary at concrete inputs.
use paraflow.Prelude.{
  ℕ, ◌≡◌, ◌≤◌, ◌↔◌, ◌⊎◌, false, List, [], ◌∷◌, sum, All, arith, take, ltb, length,
}
use mathlib.Core.List.{flatten}
use paraflow.Prelude.Text.{Bytes, codes, ends_with}
use paraflow.Prelude.Outcome.{ok, err}
use paraflow.Prelude.Words.{IsU64, u64_mod}
use paraflow.Benchmark.Types.{Summary}
use paraflow.Benchmark.Stats.{summarize, empty_samples}
use paraflow.Benchmark.Stats.Summarize.{
  Describes, summarize-Describes, generations, pipelines, totals,
}
use paraflow.Benchmark.Arith.{addition_overflow, zero_total, scaled_ratio}
use paraflow.Benchmark.Arith.Exact.{ratio_spec, scaled_ratio-exact}
use paraflow.Benchmark.Apportion.{apportion_basis_points}
use paraflow.Benchmark.Apportion.Loop.{floors}
use paraflow.Benchmark.Apportion.Bump.{Near}
use paraflow.Benchmark.Apportion.Exact.{apportion_exact}
use paraflow.Benchmark.Payload.{one_shot_response_payload, new_capped_buffer, write_all}
use paraflow.Benchmark.Payload.Capped.{write_all-new_capped}
use paraflow.Benchmark.Payload.Exact.{Terminated, payload_iff}
use paraflow.Protocol.Message.{max_frame_bytes}
use paraflow.Benchmark.Fixture.{two_samples}

abbrev values : List ℕ
values = 5 ∷ 1 ∷ 4 ∷ []

values-IsU64 : All IsU64 values
values-IsU64 = (omega arith, (omega arith, (omega arith, tt)))

summarize-Describes_example :
    (two_samples ≡ []) × (summarize two_samples ≡ err empty_samples)
    ⊎ ((r : Summary) × (summarize two_samples ≡ ok r)
        × Describes (generations two_samples) r.generation
        × Describes (pipelines two_samples) r.pipeline
        × Describes (totals two_samples) r.engine_total)
summarize-Describes_example =
    summarize-Describes two_samples (omega arith, (omega arith, tt))
      (omega arith, (omega arith, tt)) (omega arith, (omega arith, tt))

scaled_ratio-exact_example : scaled_ratio 7 2 1000 ≡ ratio_spec 7 2 1000
scaled_ratio-exact_example = scaled_ratio-exact 7 2 1000

apportion_exact_example :
    (u64_mod ≤ sum values) × (apportion_basis_points values ≡ err addition_overflow)
    ⊎ ((sum values ≡ 0) × (apportion_basis_points values ≡ err zero_total)
        ⊎ ((shares : List ℕ) × (apportion_basis_points values ≡ ok shares)
            × Near (floors (sum values) values) shares
            × (sum shares ≡ 10000)))
apportion_exact_example = apportion_exact values values-IsU64

payload_iff_example : (one_shot_response_payload (codes "out\r\n") ≡ ok (codes "out")) ↔ (
    Terminated (codes "out") (codes "out\r\n")
    × (3 ≤ max_frame_bytes)
    × (ends_with b'\r' (codes "out") ≡ false)
    × (ends_with b'\n' (codes "out") ≡ false))
payload_iff_example = payload_iff (codes "out\r\n") (codes "out")

abbrev writes : List Bytes
writes = codes "abc" ∷ codes "def" ∷ []

write_all-new_capped_example :
    ((write_all (new_capped_buffer 4) writes).contents ≡ take 4 (flatten writes))
    × ((write_all (new_capped_buffer 4) writes).overflowed ≡ ltb 4 (length (flatten writes)))
write_all-new_capped_example = write_all-new_capped 4 writes
