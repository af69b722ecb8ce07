-- ===== src/Inspection/Tests.antt =====
-- Plans for concrete records.
use agentsmith_fs_control_pl.Fences.{Fence, lifecycle, Status, validate_fence, validate_times}
use agentsmith_fs_control_pl.Inspection.{
  RecoveryAction, RecoveryContext, claimable, classify_audit_outbox_recovery, classify_delivery,
  classify_fence_recovery, classify_operation_recovery, classify_state, deliver,
  validate_audit_outbox_payload, validate_audit_outbox_record, validate_operation_lease_pair,
}
use agentsmith_fs_control_pl.Inspection.LeasePlan.{
  IsMatching, classify_operation_recovery-acquire_lease, planned_action,
}
use agentsmith_fs_control_pl.Operations.Lease.{LeaseRequest, acquire_lease, finalize_policy}
use agentsmith_fs_control_pl.Operations.Lease.Grant.{RequestIsValid}
use agentsmith_fs_control_pl.Operations.Samples.{ask, fresh}
use agentsmith_fs_control_pl.Outbox.{
  OutboxEvent, OutboxRecord, an_object, Decoded, new_outbox_record, pending_record,
  validate_outbox_payload_json, validate_outbox_record,
}
use agentsmith_fs_control_pl.Outbox.History.{Reached, created}
use agentsmith_fs_control_pl.PathResolver.Id.{
  validate_characters, validate_id, validate_prefixed, validate_suffix, validate_with,
}
use agentsmith_fs_control_pl.Prelude.{[], arith, false, none, pos, refl, some, ◌≡◌}
use agentsmith_fs_control_pl.Text.{Text, bytes, cut_prefix, every, text_eq, trim_space}

-- All that the planner computes with.
rules : Unit {0}
unfolding new_outbox_record validate_outbox_record validate_outbox_payload_json
    classify_audit_outbox_recovery classify_delivery validate_audit_outbox_record
    validate_audit_outbox_payload validate_fence validate_times validate_id validate_with
    validate_prefixed validate_suffix validate_characters cut_prefix every text_eq trim_space
    classify_operation_recovery classify_state classify_fence_recovery validate_operation_lease_pair
rules = tt

abbrev context : RecoveryContext
context = record { now = 100; explicit_recovery = false; stale_delivering_threshold = pos 9 }

abbrev request : LeaseRequest
request = record (ask "w1" 30 100) { cancel_policy = finalize_policy }

request_is_valid : RequestIsValid request
unfolding rules
request_is_valid = record {
  owner_set = refl;
  duration_positive = refl;
  now_set = refl;
  recovery_known = refl;
  policy_known = refl;
}

request_matches : IsMatching request context
request_matches = record {
  now = refl;
  explicit = (λ h. ground arith, λ h. ground arith);
  policy = refl;
}

fresh_claimable : (classify_operation_recovery fresh context).action ≡ claimable
unfolding rules
fresh_claimable = refl

classify_operation_recovery-acquire_lease_example :
    (acquire_lease fresh request).action
    ≡ planned_action (classify_operation_recovery fresh context).action
classify_operation_recovery-acquire_lease_example =
    classify_operation_recovery-acquire_lease fresh request context request_is_valid request_matches

abbrev fence : Fence
fence = record {
  id = bytes "f1";
  repo_id = bytes "repo_b2";
  kind = lifecycle;
  holder_operation_id = bytes "op_01";
  status = Status.active;
  expires_at = 90;
  released_at = none;
  recovery_operation_id = [];
  recovery_reason = [];
  recovery_started_at = none;
  recovered_at = none;
  created_at = 10;
  updated_at = 10;
}

fence_waits : (classify_fence_recovery fence).action ≡ RecoveryAction.wait
unfolding rules
fence_waits = refl

abbrev every_object : Text → Decoded
every_object p = an_object

abbrev unchanged : Text → Text
unchanged m = m

abbrev event : OutboxEvent
event = record { id = bytes "e1"; type = bytes "restore"; time = 5; encoded = some (bytes "{}") }

abbrev stored : OutboxRecord
stored = pending_record event (bytes "{}") 6

stored-Reached : Reached every_object unchanged 3 0 stored
unfolding rules
stored-Reached = created event 6 refl

stored_is_valid : validate_outbox_record every_object stored ≡ none
unfolding rules
stored_is_valid = refl

stored_delivers : (classify_audit_outbox_recovery every_object stored context).action ≡ deliver
unfolding rules
stored_delivers = refl
