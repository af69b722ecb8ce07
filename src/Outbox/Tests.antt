-- ===== src/Outbox/Tests.antt =====
-- A history of the outbox on concrete records.
use agentsmith_fs_control_pl.Outbox.{
  Decoded, DeliveryFailure, OutboxEvent, OutboxRecord, an_object, failed_record, malformed,
  mark_delivered, mark_delivering, mark_delivery_failed, new_outbox_record, pending_record,
  retry_wait, started, validate_outbox_payload_json, validate_outbox_record,
}
use agentsmith_fs_control_pl.Outbox.Bound.{attempts_bounded}
use agentsmith_fs_control_pl.Outbox.History.{
  Reached, Transition, by_delivering, by_recovery, created, moved,
}
use agentsmith_fs_control_pl.Outbox.Stale.{recover_stale_record}
use agentsmith_fs_control_pl.Prelude.{
  ok, ◌+◌, arith, if◌then◌else◌, leb_ℤ, pos, refl, some, true, ◌*◌, ◌≡◌, ◌≤◌,
}
use agentsmith_fs_control_pl.Text.{Text, bytes, text_eq, trim_space}

rules : Unit {0}
unfolding new_outbox_record mark_delivering mark_delivered mark_delivery_failed failed_record
    recover_stale_record validate_outbox_record validate_outbox_payload_json trim_space text_eq
rules = tt

abbrev decode_braces : Text → Decoded
decode_braces p = if text_eq p (bytes "{}") then an_object else malformed

abbrev keep : Text → Text
keep m = m

abbrev event : OutboxEvent
event = record { id = bytes "e1"; type = bytes "restore"; time = 5; encoded = some (bytes "{}") }

abbrev stored : OutboxRecord
stored = pending_record event (bytes "{}") 6

abbrev sent : OutboxRecord
sent = started stored 7

abbrev failure : DeliveryFailure
failure = record { max_attempts = pos 2; backoff = pos 3; last_error = bytes " refused"; now = 8 }

abbrev waiting : OutboxRecord
waiting = record sent {
  status = retry_wait;
  next_retry_at = some 11;
  last_error = bytes "refused";
  updated_at = 8;
}

stored_new : new_outbox_record event 6 ≡ ok stored
unfolding rules
stored_new = refl

-- A limit of one attempt: the worker is gone after the first, and the record is sent again.
unfoldable sent_once : Transition decode_braces keep 1 stored sent
unfolding rules
sent_once = by_delivering (bytes "w") 7 refl

abbrev stale_failure : DeliveryFailure
stale_failure = record {
  max_attempts = pos 1;
  backoff = pos 3;
  last_error = bytes " gone";
  now = 20;
}

abbrev recovered : OutboxRecord
recovered = record sent {
  status = retry_wait;
  next_retry_at = some 23;
  last_error = bytes "gone";
  updated_at = 20;
}

unfoldable recovery_moves : Transition decode_braces keep 1 sent recovered
unfolding rules
recovery_moves = by_recovery (pos 10) stale_failure refl

unfoldable resent_moves : Transition decode_braces keep 1 recovered (started recovered 30)
unfolding rules
resent_moves = by_delivering (bytes "w") 30 refl

abbrev resent-Reached : Reached decode_braces keep 1 3 (started recovered 30)
resent-Reached =
    moved (moved (moved (created event 6 stored_new) sent_once) recovery_moves) resent_moves

attempts_bounded_example : (leb_ℤ (pos 2) (pos (1 + 1)) ≡ true) × (3 ≤ 2 * (1 + 1))
unfolding sent_once recovery_moves resent_moves
attempts_bounded_example =
    attempts_bounded decode_braces keep 1 3 (started recovered 30) resent-Reached (omega arith)
      (omega arith)
