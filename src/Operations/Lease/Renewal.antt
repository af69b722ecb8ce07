-- ===== src/Operations/Lease/Renewal.antt =====
-- `RenewLease` (internal/operations/lease.go): who may renew a lease, and for how long.
use agentsmith_fs_control_pl.Clock.{Duration, Time, add}
use agentsmith_fs_control_pl.Operations.Lease.{
  LeaseDecision, LeaseRequest, deny_lease, is_live, lease_owner, lease_transition,
  lease_unavailable, other_owner, renew_cause, renew_from, renew_lease, validate_lease_pair,
  validate_lease_record, validate_lease_request, validate_lease_request_policies,
}
use agentsmith_fs_control_pl.Operations.Lease.Grant.{
  RequestIsValid, RequestIsValid-request, record-valid, request-RequestIsValid,
}
use agentsmith_fs_control_pl.Operations.Record.{OperationRecord}
use agentsmith_fs_control_pl.Operations.State.{running, state_eq, validate_transition}
use agentsmith_fs_control_pl.Prelude.{
  Option, arith, if◌then◌else◌, leb_ℤ, none, not, ok, pos, some, subst, sym, true, ◌↔◌, ◌≡◌, ◌≤◌,
  ◌⊎◌,
}
use agentsmith_fs_control_pl.Text.{text_eq, text_eq_iff, trim_space, trim_space_idem}

pub record Renewable (r : OperationRecord) (q : LeaseRequest) : Type 0 where
  pub request : RequestIsValid q
  pub attempt : leb_ℤ (pos 0) r.attempt ≡ true
  pub running_state : r.state ≡ running
  pub owned : r.lease_owner ≡ trim_space q.owner
  pub live : is_live r.lease_expires_at q.now ≡ true

renew_checked : OperationRecord → LeaseRequest → LeaseDecision
renew_checked r q =
    if not (state_eq r.state running)
    then deny_lease r (lease_transition (renew_cause r.state (validate_transition r.state running)))
    else if not (text_eq r.lease_owner (trim_space q.owner))
    then deny_lease r (lease_unavailable lease_owner other_owner)
    else renew_from r.lease_expires_at r q

renew_lease-inv :
    (r : OperationRecord) (q : LeaseRequest)
    → (renew_lease r q).allowed ≡ true
    → (validate_lease_request q ≡ ok (trim_space q.owner))
      × (validate_lease_request_policies q ≡ none)
      × (validate_lease_record r ≡ none)
      × (renew_lease r q ≡ renew_checked r q)
unfolding renew_lease renew_checked validate_lease_request
renew_lease-inv r q h = ground arith

renew_lease-run :
    (r : OperationRecord) (q : LeaseRequest)
    → validate_lease_request q ≡ ok (trim_space q.owner)
    → validate_lease_request_policies q ≡ none
    → validate_lease_record r ≡ none
    → renew_lease r q ≡ renew_checked r q
unfolding renew_lease renew_checked
renew_lease-run r q h p v = ground arith

renew_checked_sound :
    (r : OperationRecord) (q : LeaseRequest)
    → (renew_checked r q).allowed ≡ true
    → (r.state ≡ running)
      × (r.lease_owner ≡ trim_space q.owner)
      × (is_live r.lease_expires_at q.now ≡ true)
unfolding renew_checked renew_from
renew_checked_sound r q h = ground (arith, text_eq_iff r.lease_owner (trim_space q.owner))

renew_checked_complete :
    (r : OperationRecord) (q : LeaseRequest)
    → r.state ≡ running
    → r.lease_owner ≡ trim_space q.owner
    → is_live r.lease_expires_at q.now ≡ true
    → (renew_checked r q).allowed ≡ true
unfolding renew_checked renew_from
renew_checked_complete r q s o l = ground (arith, text_eq_iff r.lease_owner (trim_space q.owner))

running-record :
    (r : OperationRecord) (q : LeaseRequest) → Renewable r q → validate_lease_record r ≡ none
unfolding validate_lease_record validate_lease_pair
running-record r q v = ground (arith, v.request, trim_space_idem q.owner)

-- `RenewLease` grants exactly a complete request of the trimmed owner of a running operation whose
-- lease is live and whose attempt count is not negative.
pub renew_lease-allowed_iff :
    (r : OperationRecord) (q : LeaseRequest) → ((renew_lease r q).allowed ≡ true) ↔ Renewable r q
renew_lease-allowed_iff r q = (sound, complete)
  where
    sound : (renew_lease r q).allowed ≡ true → Renewable r q
    sound h =
        let (request_ok, policies, v, run) = renew_lease-inv r q h in
        let (s, o, l) = renew_checked_sound r q (subst (λ d. d.allowed ≡ true) run h) in
        record {
          request = (request-RequestIsValid q request_ok policies).0;
          attempt = (record-valid r v).1;
          running_state = s;
          owned = o;
          live = l;
        }

    complete : Renewable r q → (renew_lease r q).allowed ≡ true
    complete a =
        let (request_ok, policies) = RequestIsValid-request q a.request in
        rw (renew_lease-run r q request_ok policies (running-record r q a))
          (renew_checked_complete r q a.running_state a.owned a.live)

-- The expiry after a renewal at `t` for `d`, of a lease that had the expiry `old`.
abbrev pub IsExtended : Option Time → Time → Duration → Option Time → Type 0
IsExtended (some e) t d (some f) = (e ≤ f) × (add t d ≤ f) × ((f ≡ e) ⊎ (f ≡ add t d))
IsExtended _ t d _ = ⊥

renew_checked-Extends :
    (r : OperationRecord) (q : LeaseRequest)
    → (renew_checked r q).allowed ≡ true
    → IsExtended r.lease_expires_at q.now q.duration (renew_checked r q).operation.lease_expires_at
      × ((renew_checked r q).operation
          ≡ record r { lease_expires_at = (renew_checked r q).operation.lease_expires_at })
unfolding renew_checked renew_from
renew_checked-Extends r q h = ground arith

-- A renewal never shortens a lease: the new expiry is the later one of the old expiry and the end
-- of the requested duration. No other field of the record changes.
pub renew_lease-Extends :
    (r : OperationRecord) (q : LeaseRequest)
    → (renew_lease r q).allowed ≡ true
    → IsExtended r.lease_expires_at q.now q.duration (renew_lease r q).operation.lease_expires_at
      × ((renew_lease r q).operation
          ≡ record r { lease_expires_at = (renew_lease r q).operation.lease_expires_at })
renew_lease-Extends r q h =
    let run = (renew_lease-inv r q h).3 in
    subst
      (λ d.
        IsExtended r.lease_expires_at q.now q.duration d.operation.lease_expires_at
        × (d.operation ≡ record r { lease_expires_at = d.operation.lease_expires_at }))
      (sym run) (renew_checked-Extends r q (subst (λ d. d.allowed ≡ true) run h))
