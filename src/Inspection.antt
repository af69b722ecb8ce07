-- ===== src/Inspection.antt =====
-- internal/inspection/recovery_planner.go: what an operator is told to do about an operation, a
-- fence or an audit record. The reasons, texts in the source, are constructors.
pub mod LeasePlan
pub mod FencePlan
pub mod OutboxPlan
mod Tests
use agentsmith_fs_control_pl.Clock.{Duration, Time, add, after, is_zero}
use agentsmith_fs_control_pl.Fences.{
  Status, released, recovered, expired, recovery_required, Fence, FenceField, validate_fence,
  is_held,
}
use agentsmith_fs_control_pl.Operations.Lease.{is_live}
use agentsmith_fs_control_pl.Operations.Record.{OperationRecord}
use agentsmith_fs_control_pl.Operations.State.{
  OperationState, cancel_requested, is_terminal, operator_intervention_required, queued, running,
  valid,
}
use agentsmith_fs_control_pl.Outbox.{
  OutboxStatus, pending, retry_wait, delivering, delivered, failed, OutboxRecord, outbox_valid,
  Decoded, is_object,
}
use agentsmith_fs_control_pl.Prelude.{
  Bool, Option, bool_ne, check, if◌then◌else◌, is_some, leb_ℤ, ltb_ℤ, none, not, on_error, pos,
  some, ◌&&◌, ◌then_check◌, ◌||◌,
}
use agentsmith_fs_control_pl.Text.{Text, is_blank, is_empty}

pub data RecoveryAction : Type 0 where
  noop claimable retry wait reclaim recover deliver finalize_cancellation : RecoveryAction
  manual_intervention : RecoveryAction

pub data Reason : Type 0 where
  invalid_operation_attempt invalid_operation_lease_owner invalid_operation_lease_pair : Reason
  invalid_operation_state unsupported_operation_state : OperationState → Reason
  operation_terminal queued_operation_has_lease queued_operation_retry : Reason
  queued_operation_claimable missing_recovery_time running_operation_invalid_lease : Reason
  running_operation_live_lease running_operation_expired_lease : Reason
  operator_intervention_explicit_recovery operator_needed : Reason
  cancel_requested_live_lease cancel_is_requested : Reason
  invalid_fence : FenceField → Reason
  fence_not_held fence_released_or_recovered fence_active_held : Reason
  fence_held_recovery_required : Reason
  invalid_fence_status : Status → Reason
  missing_outbox_event_id missing_outbox_event_type missing_outbox_event_time : Reason
  missing_outbox_payload_json invalid_outbox_payload_json invalid_outbox_delivery_attempt : Reason
  invalid_outbox_status : OutboxStatus → Reason
  outbox_pending retry_wait_missing_next_retry_at outbox_retry_wait_future : Reason
  outbox_retry_wait_due delivering_missing_updated_at invalid_stale_delivering_threshold : Reason
  outbox_delivering_not_stale outbox_delivering_stale delivered_missing_delivered_at : Reason
  outbox_is_delivered outbox_failed : Reason

pub record RecoveryContext : Type 0 where
  pub now : Time
  pub explicit_recovery : Bool
  pub stale_delivering_threshold : Duration

pub record RecoveryPlan : Type 0 where
  pub action : RecoveryAction
  pub reason : Reason

abbrev pub plan : RecoveryAction → Reason → RecoveryPlan
plan a r = record { action = a; reason = r }

abbrev pub manual : Reason → RecoveryPlan
manual r = plan manual_intervention r

unfoldable pub validate_operation_lease_pair : OperationRecord → Option Reason
validate_operation_lease_pair r =
    let has_owner = not (is_blank r.lease_owner) in
    check (not (is_empty r.lease_owner) && not has_owner) invalid_operation_lease_owner
    then_check check (bool_ne has_owner (is_some r.lease_expires_at)) invalid_operation_lease_pair

-- The `switch` of `ClassifyOperationRecovery`, on the state of the record.
unfoldable pub classify_state : OperationState → OperationRecord → RecoveryContext → RecoveryPlan
classify_state queued r c =
    if is_some r.lease_expires_at || not (is_blank r.lease_owner)
    then manual queued_operation_has_lease
    else if ltb_ℤ (pos 0) r.attempt
    then plan retry queued_operation_retry
    else plan claimable queued_operation_claimable
classify_state running r c =
    if is_zero c.now
    then manual missing_recovery_time
    else if not (is_some r.lease_expires_at) || is_blank r.lease_owner
    then manual running_operation_invalid_lease
    else if is_live r.lease_expires_at c.now
    then plan wait running_operation_live_lease
    else plan reclaim running_operation_expired_lease
classify_state operator_intervention_required r c =
    if c.explicit_recovery
    then plan recover operator_intervention_explicit_recovery
    else manual operator_needed
classify_state cancel_requested r c =
    if is_some r.lease_expires_at && is_zero c.now
    then manual missing_recovery_time
    else if is_live r.lease_expires_at c.now
    then plan wait cancel_requested_live_lease
    else plan finalize_cancellation cancel_is_requested
classify_state s r c = manual (unsupported_operation_state s)

unfoldable pub classify_operation_recovery : OperationRecord → RecoveryContext → RecoveryPlan
classify_operation_recovery r c =
    if ltb_ℤ r.attempt (pos 0)
    then manual invalid_operation_attempt
    else on_error (validate_operation_lease_pair r) manual (
        if not (valid r.state)
        then manual (invalid_operation_state r.state)
        else if is_terminal r.state
        then plan noop operation_terminal
        else classify_state r.state r c)

abbrev pub classify_status : Status → RecoveryPlan
classify_status released = plan noop fence_released_or_recovered
classify_status recovered = plan noop fence_released_or_recovered
classify_status Status.active = plan wait fence_active_held
classify_status expired = plan recover fence_held_recovery_required
classify_status recovery_required = plan recover fence_held_recovery_required
classify_status s = manual (invalid_fence_status s)

unfoldable pub classify_fence_recovery : Fence → RecoveryPlan
classify_fence_recovery f = elim (validate_fence f) [
  | some e ↦ manual (invalid_fence e.field)
  | none ↦ if not (is_held f) then plan noop fence_not_held else classify_status f.status
]

unfoldable pub validate_audit_outbox_payload : (Text → Decoded) → Text → Option Reason
validate_audit_outbox_payload decode p =
    check (is_blank p) missing_outbox_payload_json
    then_check check (not (is_object (decode p))) invalid_outbox_payload_json

unfoldable pub validate_audit_outbox_record : (Text → Decoded) → OutboxRecord → Option Reason
validate_audit_outbox_record decode r =
    check (is_blank r.event_id) missing_outbox_event_id
    then_check check (is_blank r.event_type) missing_outbox_event_type
    then_check check (is_zero r.event_time) missing_outbox_event_time
    then_check validate_audit_outbox_payload decode r.payload_json
    then_check check (not (outbox_valid r.status)) (invalid_outbox_status r.status)
    then_check check (ltb_ℤ r.delivery_attempt (pos 0)) invalid_outbox_delivery_attempt

-- The `switch` of `ClassifyAuditOutboxRecovery`, on the status of the record.
unfoldable pub classify_delivery : OutboxStatus → OutboxRecord → RecoveryContext → RecoveryPlan
classify_delivery pending r c = plan deliver outbox_pending
classify_delivery retry_wait r c =
    if not (is_some r.next_retry_at)
    then manual retry_wait_missing_next_retry_at
    else if is_zero c.now
    then manual missing_recovery_time
    else if is_live r.next_retry_at c.now
    then plan wait outbox_retry_wait_future
    else plan deliver outbox_retry_wait_due
classify_delivery delivering r c =
    if is_zero r.updated_at
    then manual delivering_missing_updated_at
    else if is_zero c.now
    then manual missing_recovery_time
    else if leb_ℤ c.stale_delivering_threshold (pos 0)
    then manual invalid_stale_delivering_threshold
    else if after (add r.updated_at c.stale_delivering_threshold) c.now
    then plan wait outbox_delivering_not_stale
    else plan recover outbox_delivering_stale
classify_delivery delivered r c =
    if not (is_some r.delivered_at)
    then manual delivered_missing_delivered_at
    else plan noop outbox_is_delivered
classify_delivery failed r c = manual outbox_failed
classify_delivery s r c = manual (invalid_outbox_status s)

unfoldable pub classify_audit_outbox_recovery :
    (Text → Decoded) → OutboxRecord → RecoveryContext → RecoveryPlan
classify_audit_outbox_recovery decode r c =
    on_error (validate_audit_outbox_record decode r) manual (classify_delivery r.status r c)
