-- ===== src/Benchmark/Evidence/Alike.antt =====
-- The comparisons of structs in labctl-go/internal/benchmark/verify.go.
use paraflow.Prelude.{ℕ, ◌≡◌, ◌==◌, ==_iff, true, arith}
use paraflow.Prelude.Text.{Bytes, bytes_eq, bytes_eq_iff, bytes_eq_refl}
use paraflow.BuildInfo.{Info}
use paraflow.Benchmark.Types.{EngineBuild, Statistics, Summary}
use paraflow.Benchmark.Evidence.{
  WorkloadIdentity, same_info, same_build, same_workload, same_statistics, same_summary,
}

pub same_bytes : (a b : Bytes) → bytes_eq a b ≡ true → a ≡ b
same_bytes a b = (bytes_eq_iff a b).0

pub same_info_refl : (a : Info) → same_info a a ≡ true
unfolding same_info
same_info_refl a =
    rw (bytes_eq_refl a.version, bytes_eq_refl a.full_commit, bytes_eq_refl a.source_state)

pub same_info-eq : (a b : Info) → same_info a b ≡ true → a ≡ b
unfolding same_info
same_info-eq a b h =
    let v = same_bytes a.version b.version (ground arith) in
    let c = same_bytes a.full_commit b.full_commit (ground arith) in
    let s = same_bytes a.source_state b.source_state (ground arith) in
    λ i. record { version = v i; full_commit = c i; source_state = s i }

pub same_build_refl : (a : EngineBuild) → same_build a a ≡ true
unfolding same_build
same_build_refl a = rw (
  bytes_eq_refl a.version,
  bytes_eq_refl a.profile,
  bytes_eq_refl a.target,
  bytes_eq_refl a.rustc,
  bytes_eq_refl a.source_commit,
  bytes_eq_refl a.source_state,
)

pub same_build-eq : (a b : EngineBuild) → same_build a b ≡ true → a ≡ b
unfolding same_build
same_build-eq a b h =
    let v = same_bytes a.version b.version (ground arith) in
    let p = same_bytes a.profile b.profile (ground arith) in
    let t = same_bytes a.target b.target (ground arith) in
    let r = same_bytes a.rustc b.rustc (ground arith) in
    let c = same_bytes a.source_commit b.source_commit (ground arith) in
    let s = same_bytes a.source_state b.source_state (ground arith) in
    λ i. record {
      version = v i;
      profile = p i;
      target = t i;
      rustc = r i;
      source_commit = c i;
      source_state = s i;
    }

pub same_number : (a b : ℕ) → (a == b) ≡ true → a ≡ b
same_number a b = (==_iff a b).0

pub number_refl : (a : ℕ) → (a == a) ≡ true
number_refl a = ground arith

pub same_workload_refl : (a : WorkloadIdentity) → same_workload a a ≡ true
unfolding same_workload
same_workload_refl a = rw (
  bytes_eq_refl a.path,
  bytes_eq_refl a.sha256,
  bytes_eq_refl a.schema_version,
  bytes_eq_refl a.name,
  number_refl a.record_count,
  number_refl a.category_count,
)

pub same_workload-eq : (a b : WorkloadIdentity) → same_workload a b ≡ true → a ≡ b
unfolding same_workload
same_workload-eq a b h =
    let p = same_bytes a.path b.path (ground arith) in
    let s = same_bytes a.sha256 b.sha256 (ground arith) in
    let v = same_bytes a.schema_version b.schema_version (ground arith) in
    let n = same_bytes a.name b.name (ground arith) in
    let r = same_number a.record_count b.record_count (ground arith) in
    let c = same_number a.category_count b.category_count (ground arith) in
    λ i. record {
      path = p i;
      sha256 = s i;
      schema_version = v i;
      name = n i;
      record_count = r i;
      category_count = c i;
    }

pub same_statistics_refl : (a : Statistics) → same_statistics a a ≡ true
unfolding same_statistics
same_statistics_refl a = rw (
  number_refl a.count,
  number_refl a.minimum_ns,
  number_refl a.median_ns,
  number_refl a.median_absolute_deviation_ns,
  number_refl a.maximum_ns,
)

pub same_statistics-eq : (a b : Statistics) → same_statistics a b ≡ true → a ≡ b
unfolding same_statistics
same_statistics-eq a b h =
    let c = same_number a.count b.count (ground arith) in
    let l = same_number a.minimum_ns b.minimum_ns (ground arith) in
    let m = same_number a.median_ns b.median_ns (ground arith) in
    let d =
      same_number a.median_absolute_deviation_ns b.median_absolute_deviation_ns (ground arith) in
    let g = same_number a.maximum_ns b.maximum_ns (ground arith) in
    λ i. record {
      count = c i;
      minimum_ns = l i;
      median_ns = m i;
      median_absolute_deviation_ns = d i;
      maximum_ns = g i;
    }

pub same_summary_refl : (a : Summary) → same_summary a a ≡ true
unfolding same_summary
same_summary_refl a = rw (
  same_statistics_refl a.generation,
  same_statistics_refl a.pipeline,
  same_statistics_refl a.engine_total,
)

pub same_summary-eq : (a b : Summary) → same_summary a b ≡ true → a ≡ b
unfolding same_summary
same_summary-eq a b h =
    let g = same_statistics-eq a.generation b.generation (ground arith) in
    let p = same_statistics-eq a.pipeline b.pipeline (ground arith) in
    let t = same_statistics-eq a.engine_total b.engine_total (ground arith) in
    λ i. record { generation = g i; pipeline = p i; engine_total = t i }
