-- ===== src/Inspection/OutboxPlan.antt =====
-- The plan for an audit record (internal/inspection/recovery_planner.go) against its transitions
-- (internal/audit/outbox.go).
use agentsmith_fs_control_pl.Clock.{Time, is_zero}
use agentsmith_fs_control_pl.Inspection.{
  RecoveryContext, classify_audit_outbox_recovery, classify_delivery, deliver, manual_intervention,
  validate_audit_outbox_payload, validate_audit_outbox_record,
}
use agentsmith_fs_control_pl.Outbox.{
  Decoded, OutboxRecord, failed, mark_delivering, started, validate_outbox_payload_json,
  validate_outbox_record,
}
use agentsmith_fs_control_pl.Outbox.History.{Reached, Reached-IsWellFormed}
use agentsmith_fs_control_pl.Prelude.{arith, false, leb_ℤ, none, pos, ℕ, ◌↔◌, ◌≡◌}
use agentsmith_fs_control_pl.Text.{Text, is_blank}

same_checks :
    (decode : Text → Decoded) (r : OutboxRecord)
    → validate_outbox_record decode r ≡ none
    → validate_audit_outbox_record decode r ≡ none
unfolding validate_outbox_record validate_outbox_payload_json validate_audit_outbox_record
    validate_audit_outbox_payload
same_checks decode r h = ground arith

checks_same :
    (decode : Text → Decoded) (r : OutboxRecord)
    → validate_audit_outbox_record decode r ≡ none
    → validate_outbox_record decode r ≡ none
unfolding validate_outbox_record validate_outbox_payload_json validate_audit_outbox_record
    validate_audit_outbox_payload
checks_same decode r h = ground arith

-- Where the plan is to deliver a record, MarkDelivering starts the delivery for any owner that is
-- not blank, at any time that is set.
pub classify_audit_outbox_recovery-mark_delivering :
    (decode : Text → Decoded) (r : OutboxRecord) (c : RecoveryContext) (o : Text) (t : Time)
    → (classify_audit_outbox_recovery decode r c).action ≡ deliver
    → is_blank o ≡ false
    → is_zero t ≡ false
    → mark_delivering decode r o t ≡ (started r t, none)
unfolding classify_audit_outbox_recovery classify_delivery mark_delivering
classify_audit_outbox_recovery-mark_delivering decode r c o t h b z =
    ground (arith, checks_same decode r)

-- For a record that the outbox can hold and that is valid, planned with a time that is set and a
-- positive threshold, manual work is asked for exactly when delivery was given up.
pub classify_audit_outbox_recovery-manual_iff :
    (decode : Text → Decoded) (redact : Text → Text) (m n : ℕ) (r : OutboxRecord)
    (c : RecoveryContext)
    → Reached decode redact m n r
    → validate_outbox_record decode r ≡ none
    → is_zero c.now ≡ false
    → leb_ℤ c.stale_delivering_threshold (pos 0) ≡ false
    → ((classify_audit_outbox_recovery decode r c).action ≡ manual_intervention)
      ↔ (r.status ≡ failed)
unfolding classify_audit_outbox_recovery classify_delivery
classify_audit_outbox_recovery-manual_iff decode redact m n r c h v z p =
    let w = Reached-IsWellFormed decode redact m n r h in
    let k = w.known in
    let t = w.touched in
    let wa = w.waits in
    let a = w.arrived in
    (λ q. ground (arith, same_checks decode r), λ q. ground (arith, same_checks decode r))
