-- ===== src/Outbox/Stale.antt =====
-- A record whose delivery was given up by a worker that is gone goes back to waiting
-- (`RecoverStaleAuditOutboxRecords` of internal/store/postgres/audit_outbox.go).
use agentsmith_fs_control_pl.Clock.{Duration, add, after, is_zero}
use agentsmith_fs_control_pl.Outbox.{
  DeliveryFailure, OutboxRecord, failure_message, is_delivering, retry_wait,
}
use agentsmith_fs_control_pl.Prelude.{
  Option, if◌then◌else◌, leb_ℤ, ltb_ℤ, none, not, pos, some, ◌&&◌, ◌||◌,
}
use agentsmith_fs_control_pl.Text.{Text}

abbrev pub recovered_record : (Text → Text) → DeliveryFailure → OutboxRecord → OutboxRecord
recovered_record redact f r = record r {
  status = retry_wait;
  next_retry_at = some (add f.now f.backoff);
  last_error = failure_message redact f.last_error;
  delivered_at = none;
  updated_at = f.now;
}

-- One row under the statement, for a call with an owner and a limit, which bound the number of rows
-- and say nothing of one; `none` is a refused call or a row that is left alone. That the row was
-- last touched by the time of the call less the threshold is compared on the other side.
unfoldable pub recover_stale_record :
    (Text → Text) → Duration → DeliveryFailure → OutboxRecord → Option OutboxRecord
recover_stale_record redact threshold f r =
    if leb_ℤ threshold (pos 0)
      || is_zero f.now
      || leb_ℤ f.max_attempts (pos 0)
      || ltb_ℤ f.backoff (pos 0)
    then none
    else if is_delivering r.status && not (after (add r.updated_at threshold) f.now)
    then some (recovered_record redact f r)
    else none
