-- ===== src/Operations/Record.antt =====
-- internal/operations/types.go: the durable record of an operation. The fields that a lease or a
-- transition changes stand in `OperationRecord`; those that stay as the request made them stand in
-- `Boundary`, which `OperationRecord` opens. `Redaction` is not stored and is left out.
use agentsmith_fs_control_pl.Clock.{Time}
use agentsmith_fs_control_pl.Operations.State.{OperationState}
use agentsmith_fs_control_pl.Operations.Value.{Value, Members}
use agentsmith_fs_control_pl.Prelude.{Option, List, ℤ, Bool}
use agentsmith_fs_control_pl.Text.{Text}

-- `OperationType`: the constants of the package, and any other string.
pub data OperationType : Type 0 where
  volume_ensure namespace_upsert namespace_disable namespace_volume_binding_put : OperationType
  repo_create repo_archive repo_restore_archived repo_delete : OperationType
  repo_restore_tombstoned repo_purge save_point_create restore : OperationType
  template_create template_clone export_create export_revoke : OperationType
  export_session_reconcile mount_binding_create mount_binding_status_update : OperationType
  mount_binding_heartbeat mount_binding_release mount_binding_revoke : OperationType
  migration_cutover : OperationType
  other_type : Text → OperationType

pub record Actor : Type 0 where
  pub type : Text
  pub id : Text

pub record ResourceRef : Type 0 where
  pub type : Text
  pub id : Text

pub record OperationError : Type 0 where
  pub code : Text
  pub message : Text
  pub retryable : Bool
  pub correlation_id : Text
  pub operation_id : Text
  pub details : Members

pub record Boundary : Type 0 where
  pub id : Text
  pub type : OperationType
  pub phase : Text
  pub idempotency_scope : Text
  pub idempotency_key : Text
  pub request_hash : Text
  pub correlation_id : Text
  pub caller_service : Text
  pub authorized_actor : Actor
  pub resource : ResourceRef
  pub namespace_id : Text
  pub repo_id : Text
  pub template_id : Text
  pub export_id : Text
  pub mount_binding_id : Text
  pub session_fence_id : Text
  pub external_resource_ids : List (Text × Text)
  pub input_summary : Members
  pub jvs_json_output : Value
  pub verification_result : Value
  pub compensation_status : Text
  pub error : Option OperationError
  pub created_at : Time

pub record OperationRecord : Type 0 where
  pub boundary : Boundary
  pub open boundary use *
  pub state : OperationState
  pub attempt : ℤ
  pub lease_owner : Text
  pub lease_expires_at : Option Time
  pub started_at : Option Time
  pub finished_at : Option Time
