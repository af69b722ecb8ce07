-- ===== src/Operations/Lease/Grant.antt =====
-- When `AcquireLease` and `RenewLease` grant a lease (internal/operations/lease.go), described
-- without the order of the checks.
use agentsmith_fs_control_pl.Clock.{Time, is_zero}
use agentsmith_fs_control_pl.Operations.Lease.{
  LeaseRequest, explicit_recovery_action, finalize_policy, is_live, policy_valid, recovery_valid,
  validate_lease_pair, validate_lease_request, validate_lease_request_policies, acquire_lease,
  validate_lease_record, acquire_in, LeaseDecision, LeaseError, deny_lease, apply_lease,
  cancel_lease,
}
use agentsmith_fs_control_pl.Operations.Record.{OperationRecord}
use agentsmith_fs_control_pl.Operations.State.{
  OperationState, cancel_requested, operator_intervention_required, queued, running,
  validate_transition,
}
use agentsmith_fs_control_pl.Prelude.{
  Option, [], arith, false, is_some, leb_ℤ, none, ok, pos, some, true, ◌≡◌, ◌≤◌, ◌⊎◌, refl, subst,
  ◌↔◌, Result, err, inl, on_error,
}
use agentsmith_fs_control_pl.Text.{Text, is_blank, trim_space, trim_space-nil}

-- What a request must bring, whatever the record.
pub record RequestIsValid (q : LeaseRequest) : Type 0 where
  pub owner_set : is_blank q.owner ≡ false
  pub duration_positive : leb_ℤ q.duration (pos 0) ≡ false
  pub now_set : is_zero q.now ≡ false
  pub recovery_known : recovery_valid q.recovery_mode ≡ true
  pub policy_known : policy_valid q.cancel_policy ≡ true

-- The owner and the expiry of a lease are both there, or both absent.
abbrev pub IsPaired : OperationRecord → Type 0
IsPaired r =
    ((r.lease_owner ≡ []) × (r.lease_expires_at ≡ none))
    ⊎ ((is_blank r.lease_owner ≡ false) × (is_some r.lease_expires_at ≡ true))

abbrev pub IsExpired : Option Time → Time → Type 0
IsExpired none t = ⊥
IsExpired (some e) t = e ≤ t

-- The states that a worker can take up, and what each asks of the record and of the request.
abbrev pub CanAcquire : OperationState → OperationRecord → LeaseRequest → Type 0
CanAcquire queued r q = r.lease_expires_at ≡ none
CanAcquire running r q = IsExpired r.lease_expires_at q.now
CanAcquire operator_intervention_required r q = q.recovery_mode ≡ explicit_recovery_action
CanAcquire cancel_requested r q =
    (q.cancel_policy ≡ finalize_policy) × (is_live r.lease_expires_at q.now ≡ false)
CanAcquire s r q = ⊥

pub record Acquirable (r : OperationRecord) (q : LeaseRequest) : Type 0 where
  pub request : RequestIsValid q
  pub attempt : leb_ℤ (pos 0) r.attempt ≡ true
  pub paired : IsPaired r
  pub state : CanAcquire r.state r q

pub request-RequestIsValid :
    (q : LeaseRequest) {o : Text}
    → validate_lease_request q ≡ ok o
    → validate_lease_request_policies q ≡ none
    → RequestIsValid q × (o ≡ trim_space q.owner)
unfolding validate_lease_request validate_lease_request_policies
request-RequestIsValid q h k = ground arith

pub pair-IsPaired : (r : OperationRecord) → validate_lease_pair r ≡ none → IsPaired r
unfolding validate_lease_pair
pair-IsPaired r h = ground (arith, trim_space-nil)

IsPaired-pair : (r : OperationRecord) → IsPaired r → validate_lease_pair r ≡ none
unfolding validate_lease_pair
IsPaired-pair r h = ground (arith, trim_space-nil)

-- What `validateLeaseRecord` accepts, beside the pair of owner and expiry.
pub record-valid :
    (r : OperationRecord)
    → validate_lease_record r ≡ none
    → (validate_lease_pair r ≡ none) × (leb_ℤ (pos 0) r.attempt ≡ true)
unfolding validate_lease_record validate_transition
record-valid r h = ground arith

pub acquire_lease-inv :
    (r : OperationRecord) (q : LeaseRequest)
    → (acquire_lease r q).allowed ≡ true
    → (validate_lease_request q ≡ ok (trim_space q.owner))
      × (validate_lease_request_policies q ≡ none)
      × (validate_lease_record r ≡ none)
      × (acquire_lease r q ≡ acquire_in r.state r (trim_space q.owner) q)
unfolding acquire_lease validate_lease_request
acquire_lease-inv r q h = ground arith

acquire_in_sound :
    (s : OperationState) (r : OperationRecord) (o : Text) (q : LeaseRequest)
    → r.state ≡ s
    → validate_lease_record r ≡ none
    → (acquire_in s r o q).allowed ≡ true
    → CanAcquire s r q
unfolding acquire_in apply_lease cancel_lease validate_transition validate_lease_record
acquire_in_sound queued r o q e v h = ground arith
acquire_in_sound running r o q e v h = ground arith
acquire_in_sound operator_intervention_required r o q e v h = ground arith
acquire_in_sound cancel_requested r o q e v h = ground arith
acquire_in_sound _ r o q e v h = cc

acquire_in_complete :
    (s : OperationState) (r : OperationRecord) (o : Text) (q : LeaseRequest)
    → r.state ≡ s
    → CanAcquire s r q
    → (acquire_in s r o q).allowed ≡ true
unfolding acquire_in apply_lease cancel_lease validate_transition
acquire_in_complete queued r o q e c = ground arith
acquire_in_complete running r o q e c = ground arith
acquire_in_complete operator_intervention_required r o q e c = ground arith
acquire_in_complete cancel_requested r o q e c = ground arith
acquire_in_complete _ r o q e c = absurd c

pub RequestIsValid-request :
    (q : LeaseRequest)
    → RequestIsValid q
    → (validate_lease_request q ≡ ok (trim_space q.owner))
      × (validate_lease_request_policies q ≡ none)
unfolding validate_lease_request validate_lease_request_policies
RequestIsValid-request q v = ground arith

Acquirable-record :
    (s : OperationState) (r : OperationRecord) (q : LeaseRequest)
    → r.state ≡ s
    → leb_ℤ (pos 0) r.attempt ≡ true
    → IsPaired r
    → CanAcquire s r q
    → validate_lease_record r ≡ none
unfolding validate_lease_record validate_transition
Acquirable-record queued r q e a p c = ground (arith, IsPaired-pair r)
Acquirable-record running r q e a p c = ground (arith, IsPaired-pair r)
Acquirable-record operator_intervention_required r q e a p c = ground (arith, IsPaired-pair r)
Acquirable-record cancel_requested r q e a p c = ground (arith, IsPaired-pair r)
Acquirable-record _ r q e a p c = absurd c

pub acquire_lease-run :
    (r : OperationRecord) (q : LeaseRequest) (o : Text)
    → validate_lease_request q ≡ ok o
    → validate_lease_request_policies q ≡ none
    → validate_lease_record r ≡ none
    → acquire_lease r q ≡ acquire_in r.state r o q
unfolding acquire_lease
acquire_lease-run r q o h p v = ground arith

-- `AcquireLease` grants a lease exactly when the request is complete and its policies are known,
-- the attempt count is not negative, owner and expiry are paired, and the state asks no more: a
-- queued operation carries no lease, a running one an expired lease, one that waits for an operator
-- is acquired by an explicit recovery action, and a cancellation is finalised by the policy that
-- says so once no lease is live.
pub acquire_lease-allowed_iff :
    (r : OperationRecord) (q : LeaseRequest) → ((acquire_lease r q).allowed ≡ true) ↔ Acquirable r q
acquire_lease-allowed_iff r q = (sound, complete)
  where
    sound : (acquire_lease r q).allowed ≡ true → Acquirable r q
    sound h =
        let (request_ok, policies, v, run) = acquire_lease-inv r q h in
        record {
          request = (request-RequestIsValid q request_ok policies).0;
          attempt = (record-valid r v).1;
          paired = pair-IsPaired r (record-valid r v).0;
          state =
              acquire_in_sound r.state r (trim_space q.owner) q refl v
                (subst (λ d. d.allowed ≡ true) run h);
        }

    complete : Acquirable r q → (acquire_lease r q).allowed ≡ true
    complete a =
        let (request_ok, policies) = RequestIsValid-request q a.request in
        let v = Acquirable-record r.state r q refl a.attempt a.paired a.state in
        rw (acquire_lease-run r q (trim_space q.owner) request_ok policies v)
          (acquire_in_complete r.state r (trim_space q.owner) q refl a.state)

-- The outcome of a decision: refused, with an error and the record untouched, or granted.
abbrev pub IsSettled : OperationRecord → LeaseDecision → Type 0
IsSettled r d =
    ((d.allowed ≡ false) × (d.operation ≡ r) × (d.action ≡ none) × (is_some d.error ≡ true))
    ⊎ ((d.allowed ≡ true) × (is_some d.action ≡ true) × (d.error ≡ none))

acquire_in-IsSettled :
    (s : OperationState) (r : OperationRecord) (o : Text) (q : LeaseRequest)
    → IsSettled r (acquire_in s r o q)
unfolding acquire_in apply_lease cancel_lease validate_transition
acquire_in-IsSettled queued r o q = ground arith
acquire_in-IsSettled running r o q = ground arith
acquire_in-IsSettled operator_intervention_required r o q = ground arith
acquire_in-IsSettled cancel_requested r o q = ground arith
acquire_in-IsSettled _ r o q = ground arith

-- `AcquireLease` either refuses, names an error and leaves the record as it was, or grants, names
-- an action and no error.
pub acquire_lease-IsSettled :
    (r : OperationRecord) (q : LeaseRequest) → IsSettled r (acquire_lease r q)
unfolding acquire_lease
acquire_lease-IsSettled r q = at (validate_lease_request q)
  where
    at :
        (v : Result LeaseError Text)
        → IsSettled r (elim v [
          | err e ↦ deny_lease r e
          | ok o ↦
              on_error
                (validate_lease_request_policies q)
                (deny_lease r)
                (on_error (validate_lease_record r) (deny_lease r) (acquire_in r.state r o q))
        ])
    at (err e) = inl (refl, refl, refl, refl)
    at (ok o) = ground (arith, acquire_in-IsSettled r.state r o q)
