-- ===== src/Protocol/Fixture.antt =====
-- Test data of the protocol: a codec that knows one text per message.
use paraflow.Prelude.{none, some, [], ◌∷◌, if◌then◌else◌}
use paraflow.Prelude.Text.{Bytes, codes, bytes_eq}
use paraflow.Protocol.Message.{
  WorkloadProjection, ResultV1, ResponseEnvelope, WireResult, result_schema, job_result_schema,
  backend_scalar,
}
use paraflow.Protocol.Response.{Codec}

abbrev pub sample_workload : WorkloadProjection
sample_workload = record {
  schema_version = codes "w";
  name = codes "w";
  record_count = 4;
  category_count = 2;
  distribution = [];
}

abbrev pub sample_wire : WireResult
sample_wire = record {
  schema_version = result_schema;
  accepted_count = some 3;
  score_sum =
      some (record { encoding = codes "ieee754-binary64"; bits = codes "0x3ff0000000000000" });
  category_histogram = some (1 ∷ 2 ∷ []);
  accepted_id_sum = some 7;
  accepted_id_xor = some 5;
}

abbrev pub sample_result : ResultV1
sample_result = record {
  accepted_count = 3;
  score_sum = 4607182418800017408;
  category_histogram = 1 ∷ 2 ∷ [];
  accepted_id_sum = 7;
  accepted_id_xor = 5;
}

abbrev pub first_id : Bytes
first_id = codes "0000000000000001"

abbrev pub completed_envelope : ResponseEnvelope
completed_envelope = record {
  schema_version = job_result_schema;
  request_id = first_id;
  kind = codes "completed";
  workload_name = some (codes "w");
  execution = codes "e";
  result = codes "r";
  error = [];
}

abbrev pub sample_codec : Codec
sample_codec = record {
  decode_envelope =
      λ frame. if bytes_eq frame (codes "done") then some completed_envelope else none;
  decode_execution = λ raw. some backend_scalar;
  decode_wire_result = λ raw. if bytes_eq raw (codes "r") then some sample_wire else none;
  decode_remote_error = λ raw. none;
  decode_issues = λ raw. none;
  decode_workload = λ raw. some (record {
    schema_version = some (codes "w");
    name = some (codes "w");
    dataset = some (record { record_count = some 4; category_count = some 2; distribution = none });
  });
  marshal_execute = λ request. some (codes "run");
  marshal_shutdown = λ request. some (codes "stop");
}
