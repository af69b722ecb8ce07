-- ===== src/Outbox/History.antt =====
-- What the records of the outbox go through (internal/audit/outbox.go, and the stale recovery of
-- internal/store/postgres/audit_outbox.go).
use agentsmith_fs_control_pl.Clock.{Duration, Time, is_zero}
use agentsmith_fs_control_pl.Outbox.{
  Decoded, DeliveryFailure, OutboxEvent, OutboxRecord, OutboxStatus, delivered, delivering, failed,
  mark_delivered, mark_delivering, mark_delivery_failed, new_outbox_record, pending, retry_wait,
  started, validate_outbox_record, failed_record, finished, outbox_valid,
}
use agentsmith_fs_control_pl.Outbox.Stale.{recover_stale_record, recovered_record}
use agentsmith_fs_control_pl.Prelude.{
  some, none, ok, ◌≡◌, ◌⊎◌, arith, pos, suc, ℕ, false, inl, inr, is_some, refl, true, ◌≢◌, subst,
  sym,
}
use agentsmith_fs_control_pl.Text.{Text, is_empty}

-- The arrows of the delivery diagram.
pub data Arrow : OutboxStatus → OutboxStatus → Type 0 where
  start_first : Arrow pending delivering
  start_again : Arrow retry_wait delivering
  succeed : Arrow delivering delivered
  back_off : Arrow delivering retry_wait
  give_up : Arrow delivering failed

-- One transition of a record, with the limit `m` on attempts; stale recovery has no regard to it.
pub data Transition (decode : Text → Decoded) (redact : Text → Text) (m : ℕ) (r : OutboxRecord)
    (s : OutboxRecord) : Type 0 where
  by_delivering :
      (o : Text) (t : Time)
      → mark_delivering decode r o t ≡ (s, none)
      → Transition decode redact m r s
  by_delivered : (t : Time) → mark_delivered decode r t ≡ (s, none) → Transition decode redact m r s
  by_failure :
      (f : DeliveryFailure)
      → f.max_attempts ≡ pos m
      → mark_delivery_failed decode redact r f ≡ (s, none)
      → Transition decode redact m r s
  by_recovery :
      (threshold : Duration) (f : DeliveryFailure)
      → recover_stale_record redact threshold f r ≡ some s
      → Transition decode redact m r s

-- The records that an event can come to, in so many transitions.
pub data Reached (decode : Text → Decoded) (redact : Text → Text) (m : ℕ)
    : ℕ → OutboxRecord → Type 0 where
  created :
      (e : OutboxEvent) (t : Time) {r : OutboxRecord}
      → new_outbox_record e t ≡ ok r
      → Reached decode redact m 0 r
  moved :
      {n : ℕ} {r s : OutboxRecord}
      → Reached decode redact m n r
      → Transition decode redact m r s
      → Reached decode redact m (suc n) s

-- What a record keeps for ever: the event and when it was stored.
pub record IsKept (r : OutboxRecord) (s : OutboxRecord) : Type 0 where
  pub id : s.event_id ≡ r.event_id
  pub type : s.event_type ≡ r.event_type
  pub time : s.event_time ≡ r.event_time
  pub payload : s.payload_json ≡ r.payload_json
  pub creation : s.created_at ≡ r.created_at

module _ (decode : Text → Decoded) (redact : Text → Text) where
  pub mark_delivering-inv :
      (r : OutboxRecord) (o : Text) (t : Time) {s : OutboxRecord}
      → mark_delivering decode r o t ≡ (s, none)
      → (s ≡ started r t)
        × ((r.status ≡ pending) ⊎ (r.status ≡ retry_wait))
        × (validate_outbox_record decode r ≡ none)
        × (is_zero t ≡ false)
  unfolding mark_delivering
  mark_delivering-inv r o t h = (ground arith, ground arith, ground arith, ground arith)

  pub mark_delivered-inv :
      (r : OutboxRecord) (t : Time) {s : OutboxRecord}
      → mark_delivered decode r t ≡ (s, none)
      → (s ≡ finished r t)
        × (r.status ≡ delivering)
        × (validate_outbox_record decode r ≡ none)
        × (is_zero t ≡ false)
  unfolding mark_delivered
  mark_delivered-inv r t h = (ground arith, ground arith, ground arith, ground arith)

  pub mark_delivery_failed-inv :
      (r : OutboxRecord) (f : DeliveryFailure) {s : OutboxRecord}
      → mark_delivery_failed decode redact r f ≡ (s, none)
      → (s ≡ failed_record redact r f)
        × (r.status ≡ delivering)
        × (validate_outbox_record decode r ≡ none)
        × (is_zero f.now ≡ false)
  unfolding mark_delivery_failed
  mark_delivery_failed-inv r f h = (ground arith, ground arith, ground arith, ground arith)

  pub recover_stale_record-inv :
      (threshold : Duration) (f : DeliveryFailure) (r : OutboxRecord) {s : OutboxRecord}
      → recover_stale_record redact threshold f r ≡ some s
      → (s ≡ recovered_record redact f r) × (r.status ≡ delivering) × (is_zero f.now ≡ false)
  unfolding recover_stale_record
  recover_stale_record-inv threshold f r h = (ground arith, ground arith, ground arith)

  failed_record-status :
      (r : OutboxRecord) (f : DeliveryFailure)
      → ((failed_record redact r f).status ≡ failed)
        ⊎ ((failed_record redact r f).status ≡ retry_wait)
  unfolding failed_record
  failed_record-status r f = ground arith

  failed_record-IsKept :
      (r : OutboxRecord) (f : DeliveryFailure) → IsKept r (failed_record redact r f)
  unfolding failed_record
  failed_record-IsKept r f = record {
    id = ground arith;
    type = ground arith;
    time = ground arith;
    payload = ground arith;
    creation = ground arith;
  }

  -- A transition follows an arrow of the delivery diagram and keeps the event, its payload and the
  -- time of creation.
  pub Transition-Arrow :
      (m : ℕ) (r s : OutboxRecord)
      → Transition decode redact m r s
      → Arrow r.status s.status × IsKept r s
  Transition-Arrow m r s (by_delivering o t h) =
      let (e, from, v, z) = mark_delivering-inv r o t h in
      (
        elim from [ inl p ↦ rw (e, p) start_first | inr p ↦ rw (e, p) start_again ],
        rw e (record { id = refl; type = refl; time = refl; payload = refl; creation = refl }),
      )
  Transition-Arrow m r s (by_delivered t h) =
      let (e, from, v, z) = mark_delivered-inv r t h in
      (
        rw (e, from) succeed,
        rw e (record { id = refl; type = refl; time = refl; payload = refl; creation = refl }),
      )
  Transition-Arrow m r s (by_failure f l h) =
      let (e, from, v, z) = mark_delivery_failed-inv r f h in
      (
        elim (failed_record-status r f) [
          | inl p ↦ rw (e, p, from) give_up
          | inr p ↦ rw (e, p, from) back_off
        ],
        rw e (failed_record-IsKept r f),
      )
  Transition-Arrow m r s (by_recovery threshold f h) =
      let (e, from, z) = recover_stale_record-inv threshold f r h in
      (
        rw (e, from) back_off,
        rw e (record { id = refl; type = refl; time = refl; payload = refl; creation = refl }),
      )

  -- A transition that returns an error returns the record as it was.
  pub marked_unchanged :
      (r : OutboxRecord) (o : Text) (t : Time) (f : DeliveryFailure)
      → (is_some ((mark_delivering decode r o t).1) ≡ true → (mark_delivering decode r o t).0 ≡ r)
        × (is_some ((mark_delivered decode r t).1) ≡ true → (mark_delivered decode r t).0 ≡ r)
        × (is_some ((mark_delivery_failed decode redact r f).1) ≡ true
            → (mark_delivery_failed decode redact r f).0 ≡ r)
  unfolding mark_delivering mark_delivered mark_delivery_failed
  marked_unchanged r o t f = (λ h. ground arith, λ h. ground arith, λ h. ground arith)

-- What holds of every record that is stored.
pub record IsWellFormed (r : OutboxRecord) : Type 0 where
  pub known : outbox_valid r.status ≡ true
  pub touched : is_zero r.updated_at ≡ false
  pub waits :
      r.status ≡ retry_wait → (is_some r.next_retry_at ≡ true) × (is_empty r.last_error ≡ false)
  pub unhurried : r.status ≢ retry_wait → r.next_retry_at ≡ none
  pub arrived : r.status ≡ delivered → is_some r.delivered_at ≡ true
  pub absent : r.status ≢ delivered → r.delivered_at ≡ none
  pub explained : r.status ≡ failed → is_empty r.last_error ≡ false

module _ (decode : Text → Decoded) (redact : Text → Text) where
  new_outbox_record-IsWellFormed :
      (e : OutboxEvent) (t : Time) {r : OutboxRecord}
      → new_outbox_record e t ≡ ok r
      → IsWellFormed r
  unfolding new_outbox_record
  new_outbox_record-IsWellFormed e t h = record {
    known = ground arith;
    touched = ground arith;
    waits = λ p. ground arith;
    unhurried = λ p. ground arith;
    arrived = λ p. ground arith;
    absent = λ p. ground arith;
    explained = λ p. ground arith;
  }

  started-IsWellFormed :
      (r : OutboxRecord) (t : Time)
      → IsWellFormed r
      → is_zero t ≡ false
      → ((r.status ≡ pending) ⊎ (r.status ≡ retry_wait))
      → IsWellFormed (started r t)
  started-IsWellFormed r t w z h = record {
    known = ground arith;
    touched = ground arith;
    waits = λ p. ground arith;
    unhurried = λ p. ground arith;
    arrived = λ p. ground arith;
    absent = λ p. w.absent (λ d. ground arith);
    explained = λ p. ground arith;
  }

  finished-IsWellFormed :
      (r : OutboxRecord) (t : Time) → is_zero t ≡ false → IsWellFormed (finished r t)
  finished-IsWellFormed r t z = record {
    known = ground arith;
    touched = ground arith;
    waits = λ p. ground arith;
    unhurried = λ p. ground arith;
    arrived = λ p. ground arith;
    absent = λ p. ground arith;
    explained = λ p. ground arith;
  }

  failed_record-IsWellFormed :
      (r : OutboxRecord) (f : DeliveryFailure)
      → is_zero f.now ≡ false
      → IsWellFormed (failed_record redact r f)
  unfolding failed_record
  failed_record-IsWellFormed r f z = record {
    known = ground arith;
    touched = ground arith;
    waits = λ p. ground arith;
    unhurried = λ p. ground arith;
    arrived = λ p. ground arith;
    absent = λ p. ground arith;
    explained = λ p. ground arith;
  }

  recovered_record-IsWellFormed :
      (r : OutboxRecord) (f : DeliveryFailure)
      → is_zero f.now ≡ false
      → IsWellFormed (recovered_record redact f r)
  recovered_record-IsWellFormed r f z = record {
    known = refl;
    touched = z;
    waits = λ p. ground arith;
    unhurried = λ p. absurd (p refl);
    arrived = λ p. cc;
    absent = λ p. refl;
    explained = λ p. cc;
  }

  pub Reached-IsWellFormed :
      (m n : ℕ) (r : OutboxRecord) → Reached decode redact m n r → IsWellFormed r
  Reached-IsWellFormed m n r (created e t h) = new_outbox_record-IsWellFormed e t h
  Reached-IsWellFormed m (suc n) s (moved {r = r} h (by_delivering o t g)) =
      let (e, from, v, z) = mark_delivering-inv decode redact r o t g in
      subst IsWellFormed (sym e) (started-IsWellFormed r t (Reached-IsWellFormed m n r h) z from)
  Reached-IsWellFormed m (suc n) s (moved {r = r} h (by_delivered t g)) =
      let (e, from, v, z) = mark_delivered-inv decode redact r t g in
      subst IsWellFormed (sym e) (finished-IsWellFormed r t z)
  Reached-IsWellFormed m (suc n) s (moved {r = r} h (by_failure f l g)) =
      let (e, from, v, z) = mark_delivery_failed-inv decode redact r f g in
      subst IsWellFormed (sym e) (failed_record-IsWellFormed r f z)
  Reached-IsWellFormed m (suc n) s (moved {r = r} h (by_recovery threshold f g)) =
      let (e, from, z) = recover_stale_record-inv decode redact threshold f r g in
      subst IsWellFormed (sym e) (recovered_record-IsWellFormed r f z)
