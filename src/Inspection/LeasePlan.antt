-- ===== src/Inspection/LeasePlan.antt =====
-- The plan for an operation and what a worker may do about it: ClassifyOperationRecovery of
-- internal/inspection/recovery_planner.go against AcquireLease of internal/operations/lease.go.
use agentsmith_fs_control_pl.Inspection.{
  RecoveryAction, RecoveryContext, claimable, classify_operation_recovery, classify_state, retry,
  validate_operation_lease_pair,
}
use agentsmith_fs_control_pl.Operations.Lease.{
  LeaseAction, LeaseError, LeaseRequest, acquire_in, apply_lease, cancel_lease, claim,
  explicit_recovery_action, finalize_policy, validate_lease_pair, validate_lease_record,
  acquire_lease,
}
use agentsmith_fs_control_pl.Operations.Lease.Grant.{
  RequestIsValid, IsPaired, RequestIsValid-request, acquire_lease-run, pair-IsPaired, record-valid,
}
use agentsmith_fs_control_pl.Operations.Record.{OperationRecord}
use agentsmith_fs_control_pl.Operations.State.{
  valid, OperationState, cancel_requested, operator_intervention_required, queued, running,
  validate_transition, is_terminal, state_eq,
}
use agentsmith_fs_control_pl.Prelude.{
  Option, arith, none, some, true, ◌↔◌, ◌≡◌, Option-cases, false, inl, inr, is_some, ltb_ℤ, not,
  pos, refl, ◌&&◌,
}
use agentsmith_fs_control_pl.Text.{Text, trim_space, trim_space-nil}

-- The lease action that a plan stands for.
abbrev pub planned_action : RecoveryAction → Option LeaseAction
planned_action claimable = some claim
planned_action retry = some claim
planned_action RecoveryAction.reclaim = some LeaseAction.reclaim
planned_action RecoveryAction.recover = some LeaseAction.recover
planned_action RecoveryAction.finalize_cancellation = some LeaseAction.finalize_cancellation
planned_action _ = none

-- The request asks for what the context of the plan allows: the same time, an explicit recovery
-- exactly if the context has one, and the end of cancelled operations.
pub record IsMatching (q : LeaseRequest) (c : RecoveryContext) : Type 0 where
  pub now : q.now ≡ c.now
  pub explicit : (q.recovery_mode ≡ explicit_recovery_action) ↔ (c.explicit_recovery ≡ true)
  pub policy : q.cancel_policy ≡ finalize_policy

record-checks :
    (r : OperationRecord) → validate_lease_pair r ≡ none → validate_operation_lease_pair r ≡ none
unfolding validate_lease_pair validate_operation_lease_pair
record-checks r h = ground arith

checks-record :
    (r : OperationRecord) → validate_operation_lease_pair r ≡ none → validate_lease_pair r ≡ none
unfolding validate_lease_pair validate_operation_lease_pair
checks-record r h = ground arith

-- What a record that `validateLeaseRecord` accepts is like, read by the planner.
record-facts :
    (r : OperationRecord)
    → validate_lease_record r ≡ none
    → (ltb_ℤ r.attempt (pos 0) ≡ false)
      × (valid r.state ≡ true)
      × (is_terminal r.state ≡ false)
      × (state_eq r.state queued && is_some r.lease_expires_at ≡ false)
      × (state_eq r.state running && not (is_some r.lease_expires_at) ≡ false)
unfolding validate_lease_record validate_transition
record-facts r h = (ground arith, ground arith, ground arith, ground arith, ground arith)

classify-run :
    (r : OperationRecord) (c : RecoveryContext)
    → validate_lease_record r ≡ none
    → classify_operation_recovery r c ≡ classify_state r.state r c
unfolding classify_operation_recovery
classify-run r c h =
    let (a, v, t, _, _) = record-facts r h in
    rw (a, record-checks r (record-valid r h).0) (rw (v, t) refl)

plan-in-state :
    (s : OperationState) (r : OperationRecord) (o : Text) (q : LeaseRequest) (c : RecoveryContext)
    → r.state ≡ s
    → RequestIsValid q
    → IsMatching q c
    → IsPaired r
    → (state_eq s queued && is_some r.lease_expires_at ≡ false)
    → (state_eq s running && not (is_some r.lease_expires_at) ≡ false)
    → (acquire_in s r o q).action ≡ planned_action (classify_state s r c).action
unfolding acquire_in apply_lease cancel_lease validate_transition classify_state
plan-in-state queued r o q c e v m p f g = ground (arith, trim_space-nil)
plan-in-state running r o q c e v m p f g = ground arith
plan-in-state operator_intervention_required r o q c e v m p f g = ground arith
plan-in-state cancel_requested r o q c e v m p f g = ground arith
plan-in-state _ r o q c e v m p f g = refl

plan-refused :
    (r : OperationRecord) (c : RecoveryContext) (x : LeaseError)
    → validate_lease_record r ≡ some x
    → planned_action (classify_operation_recovery r c).action ≡ none
unfolding validate_transition validate_lease_record classify_operation_recovery classify_state
plan-refused r c x h = ground (arith, checks-record r)

acquire_lease-denied :
    (r : OperationRecord) (q : LeaseRequest) {x : LeaseError}
    → validate_lease_record r ≡ some x
    → (acquire_lease r q).action ≡ none
unfolding acquire_lease
acquire_lease-denied r q h = ground arith

-- A plan tells what AcquireLease will do: for a valid request that matches its context, the action
-- of the lease is the one that the plan stands for, and there is none where the plan is to wait, to
-- leave the operation alone or to intervene by hand.
pub classify_operation_recovery-acquire_lease :
    (r : OperationRecord) (q : LeaseRequest) (c : RecoveryContext)
    → RequestIsValid q
    → IsMatching q c
    → (acquire_lease r q).action ≡ planned_action (classify_operation_recovery r c).action
classify_operation_recovery-acquire_lease r q c v m =
    let (o, p) = RequestIsValid-request q v in
    elim (Option-cases (validate_lease_record r)) [
      | inl n ↦
          let (_, _, _, f, g) = record-facts r n in
          rw (acquire_lease-run r q (trim_space q.owner) o p n, classify-run r c n)
            (plan-in-state r.state r (trim_space q.owner) q c refl v m
              (pair-IsPaired r (record-valid r n).0) f g)
      | inr (x, n) ↦ rw (acquire_lease-denied r q n, plan-refused r c x n) refl
    ]
