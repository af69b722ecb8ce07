-- ===== src/Operations/Samples.antt =====
-- An operation as it is queued, and requests for its lease (internal/operations/types.go and
-- internal/operations/lease.go), for the tests.
use agentsmith_fs_control_pl.Clock.{Time}
use agentsmith_fs_control_pl.Operations.Lease.{LeaseRequest, no_policy, no_recovery}
use agentsmith_fs_control_pl.Operations.Record.{Boundary, OperationRecord, repo_create}
use agentsmith_fs_control_pl.Operations.State.{queued}
use agentsmith_fs_control_pl.Operations.Value.{nil, no_members}
use agentsmith_fs_control_pl.Prelude.{String, [], none, pos, ℕ}
use agentsmith_fs_control_pl.Text.{bytes}

abbrev pub boundary : Boundary
boundary = record {
  id = bytes "op_01";
  type = repo_create;
  phase = bytes "validate_repo_create";
  idempotency_scope = bytes "svc:ns_01:repo_create:k";
  idempotency_key = bytes "k";
  request_hash = bytes "sha256:00";
  correlation_id = bytes "corr";
  caller_service = bytes "svc";
  authorized_actor = record { type = bytes "user"; id = bytes "u1" };
  resource = record { type = bytes "repo"; id = bytes "repo_01" };
  namespace_id = bytes "ns_01";
  repo_id = bytes "repo_01";
  template_id = [];
  export_id = [];
  mount_binding_id = [];
  session_fence_id = [];
  external_resource_ids = [];
  input_summary = no_members;
  jvs_json_output = nil;
  verification_result = nil;
  compensation_status = [];
  error = none;
  created_at = 5;
}

abbrev pub fresh : OperationRecord
fresh = record {
  boundary = boundary;
  state = queued;
  attempt = pos 0;
  lease_owner = [];
  lease_expires_at = none;
  started_at = none;
  finished_at = none;
}

abbrev pub ask : String → ℕ → Time → LeaseRequest
ask o d t = record {
  owner = bytes o;
  duration = pos d;
  now = t;
  recovery_mode = no_recovery;
  cancel_policy = no_policy;
}
