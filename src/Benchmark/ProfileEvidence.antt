-- ===== src/Benchmark/ProfileEvidence.antt =====
-- The records of a profile report of labctl-go/internal/benchmark/profile_types.go, and what
-- profile_execute.go and verify.go share.
pub mod Execute
pub mod Verify
pub mod Alike
pub mod Ran
pub mod Executed
pub mod Ids
pub mod Turn
pub mod Accepted
pub mod Sound
pub mod Checks
pub mod Vouched
mod Examples
use paraflow.Prelude.{ℕ, Bool, ◌&&◌, List, ◌++◌, ◌+◌, ◌==◌}
use paraflow.Prelude.Text.{Bytes, codes, bytes_eq}
use paraflow.Protocol.Hex.{format_hex}
use paraflow.Protocol.Message.{WorkloadProjection}
use paraflow.BuildInfo.{Info}
use paraflow.Doctor.{EnvironmentReport}
use paraflow.Benchmark.Types.{Nanoseconds, EngineResult, Request, Summary}
use paraflow.Benchmark.Profile.{
  ProfileEngineResult, ProfileSummary, StageShares, ScenarioProfileAnalysis,
}
use paraflow.Benchmark.Suite.{Scenario}
use paraflow.Benchmark.Evidence.{Artifact, SuiteIdentity, Files, same_statistics}

pub record ProfileWorkloadIdentity : Type 0 where
  pub path : Bytes
  pub sha256 : Bytes
  pub schema_version : Bytes
  pub name : Bytes
  pub record_count : ℕ
  pub category_count : ℕ
  pub distribution : Bytes

pub record BaselineEvidence : Type 0 where
  pub orchestration_total_ns : Nanoseconds
  pub engine_result : EngineResult
  pub summary : Summary

pub record StageProfileEvidence : Type 0 where
  pub orchestration_total_ns : Nanoseconds
  pub engine_result : ProfileEngineResult
  pub summary : ProfileSummary

pub record ProfileExperiment : Type 0 where
  pub scenario_name : Bytes
  pub workload : ProfileWorkloadIdentity
  pub baseline : BaselineEvidence
  pub stage_profile : StageProfileEvidence
  pub analysis : ScenarioProfileAnalysis

pub record ScalarProfileReport : Type 0 where
  pub schema_version : Bytes
  pub started_at : ℕ
  pub completed_at : ℕ
  pub suite : SuiteIdentity
  pub controller : Info
  pub environment : EnvironmentReport
  pub engine_artifact : Artifact
  pub experiments : List ProfileExperiment

abbrev pub profile_report_schema : Bytes
profile_report_schema = codes "paraflow.scalar-profile-report/v1"

abbrev pub profile_request_schema : Bytes
profile_request_schema = codes "paraflow.profile-request/v1"

-- The `ProfileWorkloadIdentity` that both files build.
abbrev pub profile_workload_identity :
    Files → Scenario → Bytes → WorkloadProjection → ProfileWorkloadIdentity
profile_workload_identity files scenario workload projection = record {
  path = scenario.workload;
  sha256 = files.hash_bytes workload;
  schema_version = projection.schema_version;
  name = projection.name;
  record_count = projection.record_count;
  category_count = projection.category_count;
  distribution = projection.distribution;
}

-- The `ProfileRequest` that both files build.
abbrev pub profile_request : Scenario → Bytes → Bytes → Request
profile_request scenario experiment_id workload = record {
  schema_version = profile_request_schema;
  experiment_id = experiment_id;
  scenario_name = scenario.name;
  execution = scenario.execution;
  sampling = scenario.sampling;
  workload = workload;
}

-- `fmt.Sprintf("day06:baseline:%016x", index+1)` and `fmt.Sprintf("day06:profile:%016x", index+1)`.
unfoldable pub baseline_id : ℕ → Bytes
baseline_id index = codes "day06:baseline:" ++ format_hex 16 (index + 1)

unfoldable pub profile_id : ℕ → Bytes
profile_id index = codes "day06:profile:" ++ format_hex 16 (index + 1)

-- `==` on the structs.
unfoldable pub same_profile_workload : ProfileWorkloadIdentity → ProfileWorkloadIdentity → Bool
same_profile_workload a b =
    bytes_eq a.path b.path
    && (bytes_eq a.sha256 b.sha256
        && (bytes_eq a.schema_version b.schema_version
            && (bytes_eq a.name b.name
                && ((a.record_count == b.record_count)
                    && ((a.category_count == b.category_count)
                        && bytes_eq a.distribution b.distribution)))))

unfoldable pub same_profile_summary : ProfileSummary → ProfileSummary → Bool
same_profile_summary a b =
    same_statistics a.generation b.generation
    && (same_statistics a.normalize b.normalize
        && (same_statistics a.score b.score
            && (same_statistics a.filter b.filter
                && (same_statistics a.aggregate b.aggregate
                    && (same_statistics a.stage_sum b.stage_sum
                        && (same_statistics a.pipeline_stages b.pipeline_stages
                            && same_statistics a.profile_total b.profile_total))))))

unfoldable pub same_shares : StageShares → StageShares → Bool
same_shares a b =
    (a.generation == b.generation)
    && ((a.normalize == b.normalize)
        && ((a.score == b.score) && ((a.filter == b.filter) && (a.aggregate == b.aggregate))))

unfoldable pub same_analysis : ScenarioProfileAnalysis → ScenarioProfileAnalysis → Bool
unfolding same_shares
same_analysis a b =
    (a.accepted_count == b.accepted_count)
    && ((a.selectivity_bps == b.selectivity_bps)
        && ((a.stage_median_sum_ns == b.stage_median_sum_ns)
            && ((a.stage_pipeline_median_sum_ns == b.stage_pipeline_median_sum_ns)
                && (same_shares a.stage_share_bps b.stage_share_bps
                    && (bytes_eq a.dominant_stage b.dominant_stage
                        && (bytes_eq a.dominant_pipeline_stage b.dominant_pipeline_stage
                            && ((a.fused_per_record_milli == b.fused_per_record_milli)
                                && ((a.stage_pass_per_record_milli == b.stage_pass_per_record_milli)
                                    && ((a.stage_pass_to_fused_ratio_milli
                                          == b.stage_pass_to_fused_ratio_milli)
                                        && ((a.fused_deviation_bps == b.fused_deviation_bps)
                                            && (a.profile_total_deviation_bps
                                                == b.profile_total_deviation_bps)))))))))))
