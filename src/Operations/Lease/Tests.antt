-- ===== src/Operations/Lease/Tests.antt =====
-- Leases on concrete operations (internal/operations/lease.go).
use mathlib.Core.List.{Memᴰ}
use agentsmith_fs_control_pl.Clock.{Time}
use agentsmith_fs_control_pl.Operations.Lease.{
  acquire_in, acquire_lease, apply_lease, renew_from, renew_lease, validate_lease_pair,
  validate_lease_record, validate_lease_request, validate_lease_request_policies,
}
use agentsmith_fs_control_pl.Operations.Lease.Effect.{Outcome, acquire_lease-Outcome}
use agentsmith_fs_control_pl.Operations.Lease.Exclusion.{
  Event, World, acquire, exclusive_leases, run, step, wait,
}
use agentsmith_fs_control_pl.Operations.Lease.Grant.{
  Acquirable, acquire_lease-allowed_iff, IsSettled, acquire_lease-IsSettled,
}
use agentsmith_fs_control_pl.Operations.Lease.Renewal.{Renewable, renew_lease-allowed_iff}
use agentsmith_fs_control_pl.Operations.Record.{OperationRecord}
use agentsmith_fs_control_pl.Operations.Samples.{ask, fresh}
use agentsmith_fs_control_pl.Operations.State.{queued, validate_transition}
use agentsmith_fs_control_pl.Prelude.{List, [], arith, refl, some, subst, sym, true, ◌↔◌, ◌∷◌, ◌≡◌}
use agentsmith_fs_control_pl.Text.{Text, bytes, text_eq, trim_space}

-- All that a decision computes with.
decisions : Unit {0}
unfolding acquire_lease acquire_in apply_lease renew_lease renew_from validate_lease_request
    validate_lease_request_policies validate_lease_record validate_lease_pair validate_transition
    trim_space text_eq
decisions = tt

abbrev held : OperationRecord
held = (acquire_lease fresh (ask " w1 " 30 100)).operation

acquire_trace : (held.lease_owner ≡ bytes "w1") × (held.lease_expires_at ≡ some 130)
unfolding decisions
acquire_trace = (refl, refl)

acquire_lease-allowed_iff_example :
    ((acquire_lease fresh (ask "w1" 30 100)).allowed ≡ true) ↔ Acquirable fresh (ask "w1" 30 100)
acquire_lease-allowed_iff_example = acquire_lease-allowed_iff fresh (ask "w1" 30 100)

acquire_lease-Outcome_example :
    Outcome queued fresh
      (trim_space (bytes "w1"))
      (ask "w1" 30 100)
      (acquire_lease fresh (ask "w1" 30 100))
unfolding decisions
acquire_lease-Outcome_example = acquire_lease-Outcome fresh (ask "w1" 30 100) refl

acquire_lease-IsSettled_example : IsSettled held (acquire_lease held (ask "w2" 30 100))
acquire_lease-IsSettled_example = acquire_lease-IsSettled held (ask "w2" 30 100)

renew_lease-allowed_iff_example :
    ((renew_lease held (ask "w1" 50 110)).allowed ≡ true) ↔ Renewable held (ask "w1" 50 110)
renew_lease-allowed_iff_example = renew_lease-allowed_iff held (ask "w1" 50 110)

abbrev start : World
start = record { operation = fresh; clock = 100; grants = [] }

abbrev race : List Event
race =
    acquire (ask "w1" 30 0)
    ∷ wait 10
    ∷ acquire (ask "w2" 30 0)
    ∷ Event.renew (ask "w1" 60 0)
    ∷ Event.renew (ask "w2" 60 0)
    ∷ wait 5
    ∷ []

abbrev first_lease : Text × Time
first_lease = (bytes "w1", 130)

abbrev second_lease : Text × Time
second_lease = (bytes "w1", 170)

race_grants : (run start race).grants ≡ second_lease ∷ first_lease ∷ []
unfolding run step decisions
race_grants = refl

race_clock : (run start race).clock ≡ 115
unfolding run step decisions
race_clock = refl

exclusive_leases_example : first_lease.0 ≡ second_lease.0
exclusive_leases_example =
    exclusive_leases start race first_lease second_lease refl
      (subst (Memᴰ first_lease) (sym race_grants) (Memᴰ.tail (Memᴰ.head refl)))
      (subst (Memᴰ second_lease) (sym race_grants) (Memᴰ.head refl)) (omega (arith, race_clock))
      (omega (arith, race_clock))
