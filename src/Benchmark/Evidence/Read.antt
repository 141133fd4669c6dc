-- ===== src/Benchmark/Evidence/Read.antt =====
-- How labctl-go/internal/benchmark/execute.go and verify.go read a workload.
use paraflow.Prelude.{◌≡◌, subst, Bool, true, false, not, Option, none, some, arith}
use paraflow.Prelude.Text.{Bytes, bytes_eq}
use paraflow.Prelude.Outcome.{
  Outcome, ok, ◌>>=◌, ◌>>◌, refuse, bind-ok, refuse-ok, ok-injective, map_err, map_err-eq-ok,
}
use paraflow.Protocol.Message.{WorkloadProjection}
use paraflow.Protocol.Response.{project_workload}
use paraflow.Benchmark.Evidence.{
  EvidenceError, unsupported_workload, workload_schema, workload_unreadable, bad_workload, Files,
  or_else,
}

pub or_else-ok :
    {A : Type 0} (o : Option A) (why : EvidenceError) {a : A} → or_else o why ≡ ok a → o ≡ some a
or_else-ok none why e = absurd (cc)
or_else-ok (some a) why e = cc

-- A workload file that was read behind its path's resolution, and its projection.
pub record IsRead (files : Files) (resolved : Outcome EvidenceError Bytes)
    (got : Bytes × WorkloadProjection) : Type 0 where
  pub path : Bytes
  pub resolves : resolved ≡ ok path
  pub read : files.read_file path ≡ some got.0
  pub projected : project_workload files.codec got.0 ≡ ok got.1
  pub supported : bytes_eq got.1.schema_version workload_schema ≡ true

pub not-false : (b : Bool) → not b ≡ false → b ≡ true
not-false b h = ground arith

-- The ladder behind the resolution of a workload's path, which `Execute` and `verifyCapture` share.
pub ladder-IsRead :
    (files : Files) (resolved : Outcome EvidenceError Bytes) (got : Bytes × WorkloadProjection)
    → (do
      path ← resolved
      workload ← or_else (files.read_file path) workload_unreadable
      projection ← map_err bad_workload (project_workload files.codec workload)
      refuse (not (bytes_eq projection.schema_version workload_schema)) unsupported_workload
      ok (workload, projection))
      ≡ ok got
    → IsRead files resolved got
ladder-IsRead files resolved got h = bind-ok resolved _ h (λ path e h1.
    bind-ok (or_else (files.read_file path) _) _ h1 (λ workload read h2.
      bind-ok (map_err _ (project_workload files.codec workload)) _ h2 (λ projection projected h3.
        refuse-ok _ _ _ h3 (λ supported same.
          subst (IsRead files resolved) (ok-injective _ _ same) (record {
            path = path;
            resolves = e;
            read = or_else-ok _ _ read;
            projected = map_err-eq-ok _ _ projected;
            supported = not-false _ supported;
          })))))
