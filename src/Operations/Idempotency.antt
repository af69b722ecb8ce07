-- ===== src/Operations/Idempotency.antt =====
-- internal/operations/idempotency.go: the scopes of idempotency keys, the comparison with stored
-- operations, and the record that a request is queued as.
pub mod Scopes
pub mod Queued
mod Tests
use agentsmith_fs_control_pl.Clock.{Time, is_zero}
use agentsmith_fs_control_pl.Operations.Record.{
  OperationType, restore, repo_create, export_create, Actor, OperationRecord, ResourceRef,
  export_revoke, export_session_reconcile, migration_cutover, mount_binding_create,
  mount_binding_heartbeat, mount_binding_release, mount_binding_revoke, mount_binding_status_update,
  namespace_disable, namespace_upsert, namespace_volume_binding_put, other_type, repo_archive,
  repo_delete, repo_purge, repo_restore_archived, repo_restore_tombstoned, save_point_create,
  template_clone, template_create, volume_ensure,
}
use agentsmith_fs_control_pl.Operations.State.{queued}
use agentsmith_fs_control_pl.Operations.Value.{Members, nil, no_members}
use agentsmith_fs_control_pl.PathResolver.Id.{is_ascii_alnum}
use agentsmith_fs_control_pl.Prelude.{
  Bool, List, Option, Result, [], check, false, if◌then◌else◌, length, ltb, none, not, ok, pos,
  some, ℕ, ◌&&◌, ◌++◌, ◌==◌, ◌then_check◌, ◌then_return◌, ◌||◌, ◌∷◌,
}
use agentsmith_fs_control_pl.Text.{Text, bytes, every, is_empty, text_eq, trim_space}

-- The strings of the constants in internal/operations/types.go.
abbrev pub type_text : OperationType → Text
type_text volume_ensure = bytes "volume_ensure"
type_text namespace_upsert = bytes "namespace_upsert"
type_text namespace_disable = bytes "namespace_disable"
type_text namespace_volume_binding_put = bytes "namespace_volume_binding_put"
type_text repo_create = bytes "repo_create"
type_text repo_archive = bytes "repo_archive"
type_text repo_restore_archived = bytes "repo_restore_archived"
type_text repo_delete = bytes "repo_delete"
type_text repo_restore_tombstoned = bytes "repo_restore_tombstoned"
type_text repo_purge = bytes "repo_purge"
type_text save_point_create = bytes "save_point_create"
type_text restore = bytes "restore"
type_text template_create = bytes "template_create"
type_text template_clone = bytes "template_clone"
type_text export_create = bytes "export_create"
type_text export_revoke = bytes "export_revoke"
type_text export_session_reconcile = bytes "export_session_reconcile"
type_text mount_binding_create = bytes "mount_binding_create"
type_text mount_binding_status_update = bytes "mount_binding_status_update"
type_text mount_binding_heartbeat = bytes "mount_binding_heartbeat"
type_text mount_binding_release = bytes "mount_binding_release"
type_text mount_binding_revoke = bytes "mount_binding_revoke"
type_text migration_cutover = bytes "migration_cutover"
type_text (other_type s) = s

pub record IdempotencyScope : Type 0 where
  pub caller_service : Text
  pub namespace_id : Text
  pub operation_type : OperationType
  pub idempotency_key : Text

abbrev pub new_idempotency_scope : Text → Text → OperationType → Text → IdempotencyScope
new_idempotency_scope caller namespace type key = record {
  caller_service = caller;
  namespace_id = namespace;
  operation_type = type;
  idempotency_key = key;
}

unfoldable pub scope_string : IdempotencyScope → Text
scope_string s =
    s.caller_service
    ++ (b':'
        ∷ (s.namespace_id ++ (b':' ∷ (type_text s.operation_type ++ (b':' ∷ s.idempotency_key)))))

unfoldable pub scope_equal : IdempotencyScope → IdempotencyScope → Bool
scope_equal a b =
    text_eq a.caller_service b.caller_service
    && text_eq a.namespace_id b.namespace_id
    && text_eq (type_text a.operation_type) (type_text b.operation_type)
    && text_eq a.idempotency_key b.idempotency_key

abbrev pub is_opaque_byte : ℕ → Bool
is_opaque_byte b = is_ascii_alnum b || b == b'_' || b == b'-' || b == b'.' || b == b':'

abbrev pub opaque_bytes : Text → Bool
opaque_bytes [] = false
opaque_bytes (b ∷ s) = is_ascii_alnum b && every is_opaque_byte s

unfoldable pub safe_opaque_id : Text → Bool
safe_opaque_id s =
    if is_empty s || ltb 128 (length s) || not (text_eq (trim_space s) s)
    then false
    else opaque_bytes s

-- The result of `CompareIdempotency`: nothing stored, a stored operation that is reused, or
-- `ErrIdempotencyConflict`. The reused record is that before `Sanitized`, which redacts its texts.
pub data Resolution : Type 0 where
  unseen conflict : Resolution
  reused : OperationRecord → Resolution

unfoldable pub compare_idempotency : List OperationRecord → IdempotencyScope → Text → Resolution
compare_idempotency [] scope hash = unseen
compare_idempotency (r ∷ rs) scope hash =
    if not (text_eq r.idempotency_scope (scope_string scope))
    then compare_idempotency rs scope hash
    else if not (text_eq r.request_hash hash)
    then conflict
    else reused r

pub record QueuedOperationSpec : Type 0 where
  pub operation_id : Text
  pub scope : IdempotencyScope
  pub request_hash : Text
  pub phase : Text
  pub correlation_id : Text
  pub caller_service : Text
  pub authorized_actor : Actor
  pub resource : ResourceRef
  pub namespace_id : Text
  pub repo_id : Text
  pub template_id : Text
  pub export_id : Text
  pub mount_binding_id : Text
  pub session_fence_id : Text
  pub external_resource_ids : Option (List (Text × Text))
  pub input_summary : Option Members
  pub created_at : Time

-- The field that `ErrMissingOperationBoundary` names.
pub data MissingBoundary : Type 0 where
  missing_operation_id missing_scope missing_request_hash missing_phase : MissingBoundary
  missing_correlation_id missing_caller_service missing_authorized_actor : MissingBoundary
  missing_resource missing_created_at : MissingBoundary

abbrev pub clone_ids : Option (List (Text × Text)) → List (Text × Text)
clone_ids none = []
clone_ids (some ids) = ids

abbrev pub clone_summary : Option Members → Members
clone_summary none = no_members
clone_summary (some members) = members

abbrev pub queued_record : QueuedOperationSpec → OperationRecord
queued_record s = record {
  boundary = record {
    id = s.operation_id;
    type = s.scope.operation_type;
    phase = s.phase;
    idempotency_scope = scope_string s.scope;
    idempotency_key = s.scope.idempotency_key;
    request_hash = s.request_hash;
    correlation_id = s.correlation_id;
    caller_service = s.caller_service;
    authorized_actor = s.authorized_actor;
    resource = s.resource;
    namespace_id = s.namespace_id;
    repo_id = s.repo_id;
    template_id = s.template_id;
    export_id = s.export_id;
    mount_binding_id = s.mount_binding_id;
    session_fence_id = s.session_fence_id;
    external_resource_ids = clone_ids s.external_resource_ids;
    input_summary = clone_summary s.input_summary;
    jvs_json_output = nil;
    verification_result = nil;
    compensation_status = [];
    error = none;
    created_at = s.created_at;
  };
  state = queued;
  attempt = pos 0;
  lease_owner = [];
  lease_expires_at = none;
  started_at = none;
  finished_at = none;
}

unfoldable pub validate_spec : QueuedOperationSpec → Option MissingBoundary
validate_spec s =
    check (is_empty s.operation_id) missing_operation_id
    then_check check
        (is_empty s.scope.caller_service
          || is_empty (type_text s.scope.operation_type)
          || is_empty s.scope.idempotency_key)
        missing_scope
    then_check check (is_empty s.request_hash) missing_request_hash
    then_check check (is_empty s.phase) missing_phase
    then_check check (is_empty s.correlation_id) missing_correlation_id
    then_check check (is_empty s.caller_service) missing_caller_service
    then_check check (is_empty s.authorized_actor.type || is_empty s.authorized_actor.id)
        missing_authorized_actor
    then_check check (is_empty s.resource.type || is_empty s.resource.id) missing_resource
    then_check check (is_zero s.created_at) missing_created_at

unfoldable pub new_queued_operation_record :
    QueuedOperationSpec → Result MissingBoundary OperationRecord
new_queued_operation_record s = validate_spec s then_return ok (queued_record s)
