-- ===== src/Operations/Lease/Effect.antt =====
-- What a granted lease does to the record (internal/operations/lease.go).
use agentsmith_fs_control_pl.Clock.{Duration, Time, add, lt-add}
use agentsmith_fs_control_pl.Operations.Lease.{
  LeaseAction, LeaseDecision, apply_lease, claim, finalize_cancellation, reclaim, recover,
  LeaseRequest, acquire_in, cancel_lease, acquire_lease,
}
use agentsmith_fs_control_pl.Operations.Lease.Grant.{
  RequestIsValid, acquire_lease-inv, request-RequestIsValid,
}
use agentsmith_fs_control_pl.Operations.Record.{OperationRecord}
use agentsmith_fs_control_pl.Operations.State.{
  OperationState, cancel_requested, cancelled, operator_intervention_required, queued, running,
  validate_transition,
}
use agentsmith_fs_control_pl.Prelude.{
  [], false, inc_int, leb_ℤ, none, pos, some, true, ◌<◌, ◌≡◌, arith, refl, subst, sym, Option,
}
use agentsmith_fs_control_pl.Text.{Text, trim_space}

-- A time that is there stays; one that is not is now set.
abbrev pub SetOnce : Option Time → Time → Option Time → Type 0
SetOnce none t new = new ≡ some t
SetOnce (some old) t new = new ≡ some old

-- The record after a worker `o` has acquired the operation at `t` for `d`.
pub record IsHeld (r : OperationRecord) (o : Text) (t : Time) (d : Duration) (s : OperationRecord)
    : Type 0 where
  pub state : s.state ≡ running
  pub owned : s.lease_owner ≡ o
  pub expiry : s.lease_expires_at ≡ some (add t d)
  pub lasting : t < add t d
  pub counted : s.attempt ≡ inc_int r.attempt
  pub started : SetOnce r.started_at t s.started_at
  pub finish_kept : s.finished_at ≡ r.finished_at
  pub kept : s.boundary ≡ r.boundary

-- The operation has been cancelled and carries no lease.
pub record IsFinalized (r : OperationRecord) (t : Time) (s : OperationRecord) : Type 0 where
  pub state : s.state ≡ cancelled
  pub owned : s.lease_owner ≡ []
  pub expiry : s.lease_expires_at ≡ none
  pub counted : s.attempt ≡ r.attempt
  pub finished : SetOnce r.finished_at t s.finished_at
  pub start_kept : s.started_at ≡ r.started_at
  pub kept : s.boundary ≡ r.boundary

-- What an acquisition does in each state.
abbrev pub Outcome : OperationState → OperationRecord → Text → LeaseRequest → LeaseDecision → Type 0
Outcome queued r o q d = (d.action ≡ some claim) × IsHeld r o q.now q.duration d.operation
Outcome running r o q d = (d.action ≡ some reclaim) × IsHeld r o q.now q.duration d.operation
Outcome operator_intervention_required r o q d =
    (d.action ≡ some recover) × IsHeld r o q.now q.duration d.operation
Outcome cancel_requested r o q d =
    (d.action ≡ some finalize_cancellation) × IsFinalized r q.now d.operation
Outcome s r o q d = ⊥

apply_lease-IsHeld :
    (r : OperationRecord) (o : Text) (d : Duration) (t : Time) (a : LeaseAction)
    → validate_transition r.state running ≡ none
    → leb_ℤ d (pos 0) ≡ false
    → ((apply_lease r o d t running a).action ≡ some a)
      × IsHeld r o t d (apply_lease r o d t running a).operation
unfolding apply_lease
apply_lease-IsHeld r o d t a h p = ground (arith, lt-add t d)

acquire_in-Outcome :
    (s : OperationState) (r : OperationRecord) (o : Text) (q : LeaseRequest)
    → r.state ≡ s
    → leb_ℤ q.duration (pos 0) ≡ false
    → (acquire_in s r o q).allowed ≡ true
    → Outcome s r o q (acquire_in s r o q)
unfolding acquire_in cancel_lease validate_transition
acquire_in-Outcome queued r o q e p h =
    ground (arith, apply_lease-IsHeld r o q.duration q.now claim)
acquire_in-Outcome running r o q e p h =
    ground (arith, apply_lease-IsHeld r o q.duration q.now reclaim)
acquire_in-Outcome operator_intervention_required r o q e p h =
    ground (arith, apply_lease-IsHeld r o q.duration q.now recover)
acquire_in-Outcome cancel_requested r o q e p h = ground arith
acquire_in-Outcome _ r o q e p h = cc

-- A granted acquisition does what the state of the record asks for. A queued, running or parked
-- operation is running afterwards, owned by the trimmed owner of the request until the duration of
-- the request from its time, with one attempt more; it keeps its start time, or starts then. A
-- cancellation ends as cancelled, without a lease; it keeps its finish time, or finishes then.
-- Nothing else of the record changes.
pub acquire_lease-Outcome :
    (r : OperationRecord) (q : LeaseRequest)
    → (acquire_lease r q).allowed ≡ true
    → Outcome r.state r (trim_space q.owner) q (acquire_lease r q)
acquire_lease-Outcome r q h =
    let (request_ok, policies, v, run) = acquire_lease-inv r q h in
    let request : RequestIsValid q = (request-RequestIsValid q request_ok policies).0 in
    subst (Outcome r.state r (trim_space q.owner) q) (sym run) (
      acquire_in-Outcome r.state r (trim_space q.owner) q refl request.duration_positive
        (subst (λ d. d.allowed ≡ true) run h))
