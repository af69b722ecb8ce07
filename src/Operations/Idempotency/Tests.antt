-- ===== src/Operations/Idempotency/Tests.antt =====
-- Idempotency at concrete requests.
use agentsmith_fs_control_pl.Operations.Idempotency.{
  conflict, IdempotencyScope, QueuedOperationSpec, compare_idempotency, missing_authorized_actor,
  new_idempotency_scope, new_queued_operation_record, queued_record, reused, safe_opaque_id,
  scope_equal, scope_string, validate_spec,
}
use agentsmith_fs_control_pl.Operations.Idempotency.Queued.{
  IsTaken, compare_idempotency-queued, new_queued_operation_record-IsTaken,
}
use agentsmith_fs_control_pl.Operations.Idempotency.Scopes.{scope_string_iff}
use agentsmith_fs_control_pl.Operations.Lease.{acquire_lease}
use agentsmith_fs_control_pl.Operations.Record.{repo_create}
use agentsmith_fs_control_pl.Operations.Samples.{ask}
use agentsmith_fs_control_pl.Prelude.{[], err, false, none, ok, refl, true, ◌↔◌, ◌∷◌, ◌≡◌, ◌⊎◌}
use agentsmith_fs_control_pl.Text.{bytes, every, text_eq, trim_space}

abbrev scope : IdempotencyScope
scope = new_idempotency_scope (bytes "svc") (bytes "ns_01") repo_create (bytes "k:1")

abbrev spec : QueuedOperationSpec
spec = record {
  operation_id = bytes "op_01";
  scope = scope;
  request_hash = bytes "sha256:00";
  phase = bytes "validate_repo_create";
  correlation_id = bytes "corr";
  caller_service = bytes "svc";
  authorized_actor = record { type = bytes "user"; id = bytes "u1" };
  resource = record { type = bytes "repo"; id = bytes "repo_01" };
  namespace_id = bytes "ns_01";
  repo_id = bytes "repo_01";
  template_id = [];
  export_id = [];
  mount_binding_id = [];
  session_fence_id = [];
  external_resource_ids = none;
  input_summary = none;
  created_at = 5;
}

written : scope_string scope ≡ bytes "svc:ns_01:repo_create:k:1"
unfolding scope_string
written = refl

-- A colon in a namespace or in a caller's name moves the parts.
abbrev left : IdempotencyScope
left = new_idempotency_scope (bytes "a:b") (bytes "c") repo_create (bytes "k")

abbrev right : IdempotencyScope
right = new_idempotency_scope (bytes "a") (bytes "b:c") repo_create (bytes "k")

same_string : scope_string left ≡ scope_string right
unfolding scope_string
same_string = refl

other_scope : scope_equal left right ≡ false
unfolding scope_equal text_eq
other_scope = refl

queued_spec : new_queued_operation_record spec ≡ ok (queued_record spec)
unfolding new_queued_operation_record validate_spec
queued_spec = refl

no_actor :
    new_queued_operation_record
      (record spec { authorized_actor = record { type = bytes "user"; id = [] } })
    ≡ err missing_authorized_actor
unfolding new_queued_operation_record validate_spec
no_actor = refl

opaque : safe_opaque_id (bytes "sp-1:a.b") ≡ true
unfolding safe_opaque_id trim_space text_eq every
opaque = refl

scope_string_iff_example :
    (scope_string scope ≡ scope_string scope) ↔ (scope_equal scope scope ≡ true)
unfolding every
scope_string_iff_example =
    scope_string_iff scope scope (record { caller = refl; namespace = refl; type = refl })
      (record { caller = refl; namespace = refl; type = refl })

compare_idempotency-queued_example :
    (compare_idempotency (queued_record spec ∷ []) scope (bytes "sha256:00")
      ≡ reused (queued_record spec))
    × ((bytes "sha256:01" ≡ bytes "sha256:00")
        ⊎ (compare_idempotency (queued_record spec ∷ []) scope (bytes "sha256:01") ≡ conflict))
    × ((scope_string left ≡ scope_string scope)
        ⊎ (compare_idempotency (queued_record spec ∷ []) left (bytes "sha256:01")
            ≡ compare_idempotency [] left (bytes "sha256:01")))
unfolding compare_idempotency
compare_idempotency-queued_example =
    compare_idempotency-queued [] spec (queued_record spec) left (bytes "sha256:01") queued_spec
      refl

new_queued_operation_record-IsTaken_example :
    IsTaken (acquire_lease (queued_record spec) (ask "w1" 10 100))
unfolding trim_space
new_queued_operation_record-IsTaken_example =
    new_queued_operation_record-IsTaken spec (queued_record spec) (ask "w1" 10 100) queued_spec
      (record {
        owner_set = refl;
        duration_positive = refl;
        now_set = refl;
        recovery_known = refl;
        policy_known = refl;
      })
