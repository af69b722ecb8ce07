-- ===== src/Outbox/Bound.antt =====
-- How often a record is sent: internal/audit/outbox.go counts the attempts and gives up at the limit,
-- the stale recovery of internal/store/postgres/audit_outbox.go lets a record be sent once more.
use agentsmith_fs_control_pl.Clock.{Time}
use agentsmith_fs_control_pl.Outbox.{
  Decoded, DeliveryFailure, OutboxRecord, OutboxStatus, delivering, failed_record, pending,
  retry_wait, OutboxEvent, new_outbox_record, started, delivered, failed, other_status,
}
use agentsmith_fs_control_pl.Outbox.History.{
  Reached, by_delivered, by_delivering, by_failure, by_recovery, recover_stale_record-inv,
  mark_delivered-inv, mark_delivering-inv, mark_delivery_failed-inv, created, moved,
}
use agentsmith_fs_control_pl.Prelude.{
  subst, arith, max_int64, pos, suc, ℕ, ◌+◌, ◌*◌, ◌<◌, ◌≡◌, ◌≤◌, inl, inr, leb_ℤ, ok, true, ◌⊎◌,
}
use agentsmith_fs_control_pl.Text.{Text}

-- The stale recoveries in a history.
abbrev pub recoveries :
    {decode : Text → Decoded} {redact : Text → Text} {m n : ℕ} {r : OutboxRecord}
    → Reached decode redact m n r
    → ℕ
recoveries (created e t h) = 0
recoveries (moved h (by_delivering o t g)) = recoveries h
recoveries (moved h (by_delivered t g)) = recoveries h
recoveries (moved h (by_failure f q g)) = recoveries h
recoveries (moved h (by_recovery threshold f g)) = suc (recoveries h)

-- The attempts of a record and the transitions so far, where `b` attempts may be begun.
abbrev Paced : ℕ → ℕ → OutboxStatus → ℕ → Type 0
Paced b n pending a = (n ≡ 2 * a) × (a < b)
Paced b n retry_wait a = (n ≡ 2 * a) × (a < b)
Paced b n delivering a = (suc n ≡ 2 * a) × (a ≤ b)
Paced b n _ a = (n ≡ 2 * a) × (a ≤ b)

Paced-bound : (b n : ℕ) (s : OutboxStatus) (a : ℕ) → Paced b n s a → (a ≤ b) × (n ≤ 2 * b)
Paced-bound b n pending a (p, q) = (omega arith, omega arith)
Paced-bound b n retry_wait a (p, q) = (omega arith, omega arith)
Paced-bound b n delivering a (p, q) = (omega arith, omega arith)
Paced-bound b n delivered a (p, q) = (omega arith, omega arith)
Paced-bound b n failed a (p, q) = (omega arith, omega arith)
Paced-bound b n (other_status s) a (p, q) = (omega arith, omega arith)

Paced-delivering :
    (b n : ℕ) {s : OutboxStatus} (a : ℕ)
    → s ≡ delivering
    → Paced b n s a
    → (suc n ≡ 2 * a) × (a ≤ b)
Paced-delivering b n a e p = subst (λ s. Paced b n s a) e p

module _ (decode : Text → Decoded) (redact : Text → Text) where
  failed_record-Paced :
      (m k n a : ℕ) (r : OutboxRecord) (f : DeliveryFailure)
      → f.max_attempts ≡ pos m
      → r.delivery_attempt ≡ pos a
      → suc n ≡ 2 * a
      → a ≤ m + k
      → Paced (m + k) (suc n) (failed_record redact r f).status a
        × ((failed_record redact r f).delivery_attempt ≡ pos a)
  unfolding failed_record
  failed_record-Paced m k n a r f l c p b = ground arith

  new_outbox_record-pending :
      (e : OutboxEvent) (t : Time) {r : OutboxRecord}
      → new_outbox_record e t ≡ ok r
      → (r.status ≡ pending) × (r.delivery_attempt ≡ pos 0)
  unfolding new_outbox_record
  new_outbox_record-pending e t h = (ground arith, ground arith)

  started-Paced :
      (b n a : ℕ) (r : OutboxRecord) (t : Time)
      → b ≤ max_int64
      → (r.status ≡ pending) ⊎ (r.status ≡ retry_wait)
      → r.delivery_attempt ≡ pos a
      → Paced b n r.status a
      → ((started r t).delivery_attempt ≡ pos (suc a)) × Paced b (suc n) delivering (suc a)
  started-Paced b n a r t l from c p =
      let (q, k) : (n ≡ 2 * a) × (a < b) = elim from [ inl f ↦ rw f at p | inr f ↦ rw f at p ] in
      (ground arith, (omega arith, omega arith))

  Reached-Paced :
      (m n : ℕ) (r : OutboxRecord) (h : Reached decode redact m n r)
      → 0 < m
      → m + recoveries h ≤ max_int64
      → (a : ℕ) × (r.delivery_attempt ≡ pos a) × Paced (m + recoveries h) n r.status a
  Reached-Paced m n r (created e t h) l b =
      let (s, c) = new_outbox_record-pending e t h in (0, c, rw s (omega arith, omega arith))
  Reached-Paced m (suc n) s (moved {r = r} h (by_delivering o t g)) l b =
      let (e, from, v, z) = mark_delivering-inv decode redact r o t g in
      let (a, c, p) = Reached-Paced m n r h l b in
      let (u, w) = started-Paced (m + recoveries h) n a r t b from c p in (suc a, rw e u, rw e w)
  Reached-Paced m (suc n) s (moved {r = r} h (by_delivered t g)) l b =
      let (e, from, v, z) = mark_delivered-inv decode redact r t g in
      let (a, c, p) = Reached-Paced m n r h l b in
      let (q, k) = Paced-delivering (m + recoveries h) n a from p in (a, rw e c, rw e (q, k))
  Reached-Paced m (suc n) s (moved {r = r} h (by_failure f q g)) l b =
      let (e, from, v, z) = mark_delivery_failed-inv decode redact r f g in
      let (a, c, p) = Reached-Paced m n r h l b in
      let (x, k) = Paced-delivering (m + recoveries h) n a from p in
      let (u, w) = failed_record-Paced m (recoveries h) n a r f q c x k in (a, rw e w, rw e u)
  Reached-Paced m (suc n) s (moved {r = r} h (by_recovery threshold f g)) l b =
      let (e, from, z) = recover_stale_record-inv decode redact threshold f r g in
      let (a, c, p) = Reached-Paced m n r h l (omega arith) in
      let (x, k) = Paced-delivering (m + recoveries h) n a from p in
      (a, rw e c, rw e (x, omega arith))

  -- Where every failure has the limit `m`, a positive `int`, a record comes to at most `m` attempts
  -- and one for each time that it was recovered as stale, and it goes through at most twice as many
  -- transitions. The attempts of these histories fit an `int`.
  pub attempts_bounded :
      (m n : ℕ) (r : OutboxRecord) (h : Reached decode redact m n r)
      → 0 < m
      → m + recoveries h ≤ max_int64
      → leb_ℤ r.delivery_attempt (pos (m + recoveries h)) ≡ true × n ≤ 2 * (m + recoveries h)
  attempts_bounded m n r h l b =
      let (a, c, p) = Reached-Paced m n r h l b in
      let (x, y) = Paced-bound (m + recoveries h) n r.status a p in (ground arith, y)
