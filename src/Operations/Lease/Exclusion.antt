-- ===== src/Operations/Lease/Exclusion.antt =====
-- Mutual exclusion by leases: any number of workers acquire and renew the lease of one operation,
-- in any order, while time passes. The record is the stored one, and each request is decided at the
-- time of one clock, as the transactions of the store do with the row locked.
use mathlib.Core.List.{Memᴰ}
use agentsmith_fs_control_pl.Clock.{Time, Duration}
use agentsmith_fs_control_pl.Operations.Lease.{
  LeaseDecision, LeaseRequest, acquire_lease, renew_lease,
}
use agentsmith_fs_control_pl.Operations.Lease.Effect.{Outcome, acquire_lease-Outcome}
use agentsmith_fs_control_pl.Operations.Lease.Grant.{
  CanAcquire, IsExpired, acquire_lease-allowed_iff,
}
use agentsmith_fs_control_pl.Operations.Lease.Renewal.{
  IsExtended, renew_lease-Extends, renew_lease-allowed_iff,
}
use agentsmith_fs_control_pl.Operations.Record.{OperationRecord}
use agentsmith_fs_control_pl.Operations.State.{
  running, OperationState, cancel_requested, operator_intervention_required, queued,
}
use agentsmith_fs_control_pl.Prelude.{
  All, List, Option, [], arith, if◌then◌else◌, none, some, subst, true, ℕ, ◌+◌, ◌<◌, ◌∷◌, ◌≡◌, ◌≤◌,
  Bool-cases, ap, inl, inr, is_some, refl, sym, ◌∙◌,
}
use agentsmith_fs_control_pl.Text.{Text, trim_space}

pub data Event : Type 0 where
  acquire renew : LeaseRequest → Event
  wait : ℕ → Event

-- `grants` holds, for every lease that was granted, its owner and its expiry as the worker saw it.
pub record World : Type 0 where
  pub operation : OperationRecord
  pub clock : Time
  pub grants : List (Text × Time)

abbrev granted : Option Time → Text → List (Text × Time) → List (Text × Time)
granted none o gs = gs
granted (some e) o gs = (o, e) ∷ gs

abbrev settle : World → LeaseDecision → World
settle w d =
    if d.allowed
    then record w {
      operation = d.operation;
      grants = granted d.operation.lease_expires_at d.operation.lease_owner w.grants;
    }
    else w

abbrev at_clock : World → LeaseRequest → LeaseRequest
at_clock w q = record q { now = w.clock }

unfoldable pub step : World → Event → World
step w (acquire q) = settle w (acquire_lease w.operation (at_clock w q))
step w (renew q) = settle w (renew_lease w.operation (at_clock w q))
step w (wait n) = record w { clock = w.clock + n }

unfoldable pub run : World → List Event → World
run w [] = w
run w (e ∷ es) = run (step w e) es

-- A grant that has not expired is of the owner in the record, which runs under a lease that lasts
-- at least as long.
abbrev Covers : OperationRecord → Time → Text × Time → Type 0
Covers r t g =
    t < g.1
    → (r.state ≡ running)
      × (r.lease_owner ≡ g.0)
      × (e : Time) × (r.lease_expires_at ≡ some e)
      × (g.1 ≤ e)

abbrev Inv : World → Type 0
Inv w = All (Covers w.operation w.clock) w.grants

Covers-later :
    (r : OperationRecord) (t n : ℕ) (gs : List (Text × Time))
    → All (Covers r t) gs
    → All (Covers r (t + n)) gs
Covers-later r t n [] h = tt
Covers-later r t n (g ∷ gs) (h, hs) = (λ l. h (omega arith), Covers-later r t n gs hs)

-- An acquisition is granted only when no grant is left unexpired.
acquire-no_live :
    (r : OperationRecord) (q : LeaseRequest)
    → (acquire_lease r q).allowed ≡ true
    → r.state ≡ running
    → (e : Time) → r.lease_expires_at ≡ some e
    → e ≤ q.now
acquire-no_live r q h s e x =
    let c : CanAcquire r.state r q = ((acquire_lease-allowed_iff r q).0 h).state in
    let c' : CanAcquire running r q = subst (λ u. CanAcquire u r q) s c in
    subst (λ o. IsExpired o q.now) x c'

Covers-acquire :
    (r s : OperationRecord) (q : LeaseRequest) (gs : List (Text × Time))
    → (acquire_lease r q).allowed ≡ true
    → All (Covers r q.now) gs
    → All (Covers s q.now) gs
Covers-acquire r s q [] h c = tt
Covers-acquire r s q (g ∷ gs) h (c, cs) = (
  λ l. let (run, owned, e, x, le) = c l in absurd (omega (arith, acquire-no_live r q h run e x)),
  Covers-acquire r s q gs h cs,
)

extended :
    (o p : Option Time) (t : Time) (d : Duration) (e : Time)
    → IsExtended o t d p
    → o ≡ some e
    → (f : Time) × (p ≡ some f) × (e ≤ f)
extended none p t d e h x = absurd h
extended (some e') none t d e h x = absurd h
extended (some e') (some f) t d e h x = (f, refl, ground arith)

Covers-renew :
    (r : OperationRecord) (q : LeaseRequest) (gs : List (Text × Time))
    → (renew_lease r q).allowed ≡ true
    → All (Covers r q.now) gs
    → All (Covers (renew_lease r q).operation q.now) gs
Covers-renew r q [] h c = tt
Covers-renew r q (g ∷ gs) h (c, cs) = (
  λ l.
      let (runs, owned, e, x, le) = c l in
      let (longer, same) = renew_lease-Extends r q h in
      let (f, y, le') =
        extended r.lease_expires_at (renew_lease r q).operation.lease_expires_at q.now q.duration e
          longer x in
      (ap (λ s. s.state) same ∙ runs, ap (λ s. s.lease_owner) same ∙ owned, f, y, omega arith),
  Covers-renew r q gs h cs,
)

Covers-granted :
    (r : OperationRecord) (t : Time) (gs : List (Text × Time)) (x : Option Time)
    → (is_some x ≡ true → r.state ≡ running)
    → r.lease_expires_at ≡ x
    → All (Covers r t) gs
    → All (Covers r t) (granted x r.lease_owner gs)
Covers-granted r t gs none s e c = c
Covers-granted r t gs (some f) s e c = ((λ l. (s refl, refl, f, e, omega arith)), c)

Outcome-running :
    (s : OperationState) (r : OperationRecord) (o : Text) (q : LeaseRequest) (d : LeaseDecision)
    → Outcome s r o q d
    → is_some d.operation.lease_expires_at ≡ true
    → d.operation.state ≡ running
Outcome-running cancel_requested r o q d (a, f) h = ground arith
Outcome-running queued r o q d (a, f) h = f.state
Outcome-running running r o q d (a, f) h = f.state
Outcome-running operator_intervention_required r o q d (a, f) h = f.state
Outcome-running _ r o q d f h = absurd f

settle-Inv :
    (w : World) (d : LeaseDecision)
    → (d.allowed ≡ true → All (Covers d.operation w.clock) w.grants)
    → (d.allowed ≡ true → is_some d.operation.lease_expires_at ≡ true → d.operation.state ≡ running)
    → Inv w
    → Inv (settle w d)
settle-Inv w d keeps runs inv = elim (Bool-cases d.allowed) [
  | inl y ↦ rw y (
      Covers-granted d.operation w.clock w.grants d.operation.lease_expires_at (runs y) refl
        (keeps y))
  | inr n ↦ rw n inv
]

step-Inv : (w : World) (e : Event) → Inv w → Inv (step w e)
unfolding step
step-Inv w (acquire q) inv =
    let r = w.operation in
    let p = at_clock w q in
    settle-Inv w (acquire_lease r p)
      (λ h. Covers-acquire r (acquire_lease r p).operation p w.grants h inv)
      (λ h.
        Outcome-running r.state r (trim_space q.owner) p (acquire_lease r p)
          (acquire_lease-Outcome r p h))
      inv
step-Inv w (renew q) inv =
    let r = w.operation in
    let p = at_clock w q in
    settle-Inv w (renew_lease r p) (λ h. Covers-renew r p w.grants h inv)
      (λ h x.
        ap (λ s. s.state) (renew_lease-Extends r p h).1
        ∙ ((renew_lease-allowed_iff r p).0 h).running_state)
      inv
step-Inv w (wait n) inv = Covers-later w.operation w.clock n w.grants inv

run-Inv : (w : World) (es : List Event) → Inv w → Inv (run w es)
unfolding run
run-Inv w [] inv = inv
run-Inv w (e ∷ es) inv = run-Inv (step w e) es (step-Inv w e inv)

Memᴰ-Covers :
    (r : OperationRecord) (t : Time) {g : Text × Time} (gs : List (Text × Time))
    → All (Covers r t) gs
    → Memᴰ g gs
    → Covers r t g
Memᴰ-Covers r t [] c m = elim m [ ]
Memᴰ-Covers r t (x ∷ gs) (c, cs) (Memᴰ.head e) = subst (Covers r t) (sym e) c
Memᴰ-Covers r t (x ∷ gs) (c, cs) (Memᴰ.tail m) = Memᴰ-Covers r t gs cs m

-- After any sequence of acquisitions, renewals and waits that starts with no lease granted, two
-- granted leases that have not expired belong to the same owner.
pub exclusive_leases :
    (w : World) (es : List Event) (g h : Text × Time)
    → w.grants ≡ []
    → Memᴰ g (run w es).grants
    → Memᴰ h (run w es).grants
    → (run w es).clock < g.1
    → (run w es).clock < h.1
    → g.0 ≡ h.0
exclusive_leases w es g h none_yet mg mh lg lh =
    let v = run w es in
    let inv = run-Inv w es (subst (All (Covers w.operation w.clock)) (sym none_yet) tt) in
    let held_g = (Memᴰ-Covers v.operation v.clock v.grants inv mg lg).1 in
    let held_h = (Memᴰ-Covers v.operation v.clock v.grants inv mh lh).1 in sym held_g ∙ held_h
