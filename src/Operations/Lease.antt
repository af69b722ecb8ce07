-- ===== src/Operations/Lease.antt =====
-- internal/operations/lease.go: who may work on an operation, and until when. An error keeps its
-- code, its field and which of the source's messages it carries; `leaseUnavailable` and its like
-- fix the sentinel that it wraps, so the code stands for that too.
pub mod Grant
pub mod Effect
pub mod Renewal
pub mod Exclusion
mod Tests
use agentsmith_fs_control_pl.Clock.{Duration, Time, add, after, before, is_zero}
use agentsmith_fs_control_pl.Operations.Record.{OperationRecord}
use agentsmith_fs_control_pl.Operations.State.{
  OperationState, TransitionError, cancel_requested, cancelled, cannot_renew, is_terminal,
  operator_intervention_required, queued, running, state_eq, valid, validate_transition,
}
use agentsmith_fs_control_pl.Prelude.{
  Bool, Option, Result, [], check, err, false, if◌then◌else◌, inc_int, is_some, leb_ℤ, ltb_ℤ, none,
  not, ok, on_error, pos, some, true, ◌&&◌, ◌then_check◌, bool_ne,
}
use agentsmith_fs_control_pl.Text.{Text, is_blank, is_empty, text_eq, trim_space}

pub data LeaseErrorCode : Type 0 where
  invalid_request invalid_record unavailable invalid_transition : LeaseErrorCode

pub data LeaseField : Type 0 where
  owner duration now recovery_mode cancel_policy attempt : LeaseField
  lease_owner lease_expires_at operation_state : LeaseField

pub data LeaseReason : Type 0 where
  missing_owner duration_not_positive now_not_set : LeaseReason
  unknown_recovery_mode unknown_cancel_policy : LeaseReason
  negative_attempt blank_owner half_lease running_without_lease queued_with_lease : LeaseReason
  no_expiry still_live cancel_still_live needs_recovery_action : LeaseReason
  other_owner lease_expired : LeaseReason
  bad_transition : Option TransitionError → LeaseReason

pub record LeaseError : Type 0 where
  pub code : LeaseErrorCode
  pub field : LeaseField
  pub reason : LeaseReason

pub data LeaseRecoveryMode : Type 0 where
  no_recovery explicit_recovery_action : LeaseRecoveryMode
  other_recovery : Text → LeaseRecoveryMode

abbrev pub recovery_valid : LeaseRecoveryMode → Bool
recovery_valid (other_recovery s) = false
recovery_valid _ = true

pub data LeaseCancelPolicy : Type 0 where
  no_policy finalize_policy : LeaseCancelPolicy
  other_policy : Text → LeaseCancelPolicy

abbrev pub policy_valid : LeaseCancelPolicy → Bool
policy_valid (other_policy s) = false
policy_valid _ = true

pub data LeaseAction : Type 0 where
  claim reclaim renew recover finalize_cancellation : LeaseAction

pub record LeaseRequest : Type 0 where
  pub owner : Text
  pub duration : Duration
  pub now : Time
  pub recovery_mode : LeaseRecoveryMode
  pub cancel_policy : LeaseCancelPolicy

-- `action` and `error` are `none` where the source leaves the zero value.
pub record LeaseDecision : Type 0 where
  pub allowed : Bool
  pub action : Option LeaseAction
  pub operation : OperationRecord
  pub error : Option LeaseError

abbrev lease_invalid : LeaseField → LeaseReason → LeaseError
lease_invalid f r = record { code = invalid_request; field = f; reason = r }

abbrev lease_invalid_record : LeaseField → LeaseReason → LeaseError
lease_invalid_record f r = record { code = invalid_record; field = f; reason = r }

abbrev lease_unavailable : LeaseField → LeaseReason → LeaseError
lease_unavailable f r = record { code = unavailable; field = f; reason = r }

abbrev lease_transition : Option TransitionError → LeaseError
lease_transition cause = record {
  code = invalid_transition;
  field = operation_state;
  reason = bad_transition cause;
}

abbrev pub deny_lease : OperationRecord → LeaseError → LeaseDecision
deny_lease r e = record { allowed = false; action = none; operation = r; error = some e }

unfoldable pub validate_lease_request : LeaseRequest → Result LeaseError Text
validate_lease_request q =
    if is_blank q.owner
    then err (lease_invalid owner missing_owner)
    else if leb_ℤ q.duration (pos 0)
    then err (lease_invalid duration duration_not_positive)
    else if is_zero q.now
    then err (lease_invalid now now_not_set)
    else ok (trim_space q.owner)

unfoldable pub validate_lease_request_policies : LeaseRequest → Option LeaseError
validate_lease_request_policies q =
    check (not (recovery_valid q.recovery_mode)) (lease_invalid recovery_mode unknown_recovery_mode)
    then_check check (not (policy_valid q.cancel_policy))
        (lease_invalid cancel_policy unknown_cancel_policy)

unfoldable pub validate_lease_pair : OperationRecord → Option LeaseError
validate_lease_pair r =
    let has_owner = not (is_blank r.lease_owner) in
    let has_expiry = is_some r.lease_expires_at in
    check (not (is_empty r.lease_owner) && not has_owner)
      (lease_invalid_record lease_owner blank_owner)
    then_check check (bool_ne has_owner has_expiry) (lease_invalid_record lease_owner half_lease)

unfoldable pub validate_lease_record : OperationRecord → Option LeaseError
validate_lease_record r =
    check (ltb_ℤ r.attempt (pos 0)) (lease_invalid_record attempt negative_attempt)
    then_check validate_lease_pair r
    then_check check (not (valid r.state)) (lease_transition (validate_transition r.state running))
    then_check check (state_eq r.state running && not (is_some r.lease_expires_at))
        (lease_invalid_record lease_expires_at running_without_lease)
    then_check check (state_eq r.state queued && is_some r.lease_expires_at)
        (lease_invalid_record lease_expires_at queued_with_lease)
    then_check check (is_terminal r.state) (lease_transition (validate_transition r.state running))

-- `if p == nil { p = &t }`
abbrev or_now : Option Time → Time → Option Time
or_now none t = some t
or_now (some u) t = some u

unfoldable pub apply_lease :
    OperationRecord → Text → Duration → Time → OperationState → LeaseAction → LeaseDecision
apply_lease r o d t s a =
    let cause = validate_transition r.state s in
    if is_some cause then deny_lease r (lease_transition cause) else record {
      allowed = true;
      action = some a;
      operation = record r {
        state = s;
        lease_owner = o;
        lease_expires_at = some (add t d);
        attempt = inc_int r.attempt;
        started_at = or_now r.started_at t;
      };
      error = none;
    }

unfoldable pub cancel_lease : OperationRecord → Time → LeaseDecision
cancel_lease r t =
    let cause = validate_transition r.state cancelled in
    if is_some cause then deny_lease r (lease_transition cause) else record {
      allowed = true;
      action = some finalize_cancellation;
      operation = record r {
        state = cancelled;
        lease_owner = [];
        lease_expires_at = none;
        finished_at = or_now r.finished_at t;
      };
      error = none;
    }

-- `r.LeaseExpiresAt != nil && r.LeaseExpiresAt.After(now)`
abbrev pub is_live : Option Time → Time → Bool
is_live none t = false
is_live (some e) t = after e t

-- The `switch` of `AcquireLease`, on the state of the record.
unfoldable pub acquire_in : OperationState → OperationRecord → Text → LeaseRequest → LeaseDecision
acquire_in queued r o q = apply_lease r o q.duration q.now running claim
acquire_in running r o q =
    if not (is_some r.lease_expires_at)
    then deny_lease r (lease_unavailable lease_expires_at no_expiry)
    else if is_live r.lease_expires_at q.now
    then deny_lease r (lease_unavailable lease_expires_at still_live)
    else apply_lease r o q.duration q.now running reclaim
acquire_in operator_intervention_required r o q = elim q.recovery_mode [
  | explicit_recovery_action ↦ apply_lease r o q.duration q.now running recover
  | _ ↦ deny_lease r (lease_unavailable operation_state needs_recovery_action)
]
acquire_in cancel_requested r o q = elim q.cancel_policy [
  | finalize_policy ↦
      if is_live r.lease_expires_at q.now
      then deny_lease r (lease_unavailable lease_expires_at cancel_still_live)
      else cancel_lease r q.now
  | _ ↦ deny_lease r (lease_transition (validate_transition r.state running))
]
acquire_in s r o q = deny_lease r (lease_transition (validate_transition r.state running))

unfoldable pub acquire_lease : OperationRecord → LeaseRequest → LeaseDecision
acquire_lease r q = elim (validate_lease_request q) [
  | err e ↦ deny_lease r e
  | ok o ↦
      on_error (validate_lease_request_policies q) (deny_lease r)
        (on_error (validate_lease_record r) (deny_lease r) (acquire_in r.state r o q))
]

-- The state that cannot renew: the error of the transition to running, or one that names it.
abbrev renew_cause : OperationState → Option TransitionError → Option TransitionError
renew_cause s none = some (cannot_renew s)
renew_cause s (some e) = some e

-- The expiry after a renewal: the new one, unless that is before the old one.
abbrev renewed : Time → Time → Time
renewed old new = if before new old then old else new

unfoldable pub renew_from : Option Time → OperationRecord → LeaseRequest → LeaseDecision
renew_from none r q = deny_lease r (lease_unavailable lease_expires_at no_expiry)
renew_from (some e) r q =
    if not (after e q.now)
    then deny_lease r (lease_unavailable lease_expires_at lease_expired)
    else record {
      allowed = true;
      action = some renew;
      operation = record r { lease_expires_at = some (renewed e (add q.now q.duration)) };
      error = none;
    }

unfoldable pub renew_lease : OperationRecord → LeaseRequest → LeaseDecision
renew_lease r q = elim (validate_lease_request q) [
  | err e ↦ deny_lease r e
  | ok o ↦ on_error (validate_lease_request_policies q) (deny_lease r) (
      on_error (validate_lease_record r) (deny_lease r) (
        if not (state_eq r.state running)
        then deny_lease r
            (lease_transition (renew_cause r.state (validate_transition r.state running)))
        else if not (text_eq r.lease_owner o)
        then deny_lease r (lease_unavailable lease_owner other_owner)
        else renew_from r.lease_expires_at r q))
]
