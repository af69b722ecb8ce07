-- ===== src/Outbox.antt =====
-- internal/audit/outbox.go: the records of the audit outbox and how their delivery proceeds. An
-- error keeps its code and its field, which tell its message. Two parameters stand for
-- what the model does not look into: how `encoding/json` reads a payload, and the rewriting of
-- secrets by internal/observability/redaction.go. `EventType` is compared with the empty text only
-- and stays a text.
pub mod Stale
pub mod History
pub mod Bound
mod Tests
use mathlib.Core.Option
use agentsmith_fs_control_pl.Clock.{Duration, Time, add, is_zero}
use agentsmith_fs_control_pl.Prelude.{
  Bool, Option, Result, [], check, err, false, if◌then◌else◌, inc_int, leb_ℤ, ltb_ℤ, none, not, ok,
  on_error, pos, some, true, ℤ, ◌then_check◌,
}
use agentsmith_fs_control_pl.Text.{Text, bytes, is_blank, is_empty, trim_space}

pub data OutboxErrorCode : Type 0 where
  invalid_request invalid_record invalid_transition : OutboxErrorCode

pub data OutboxField : Type 0 where
  event_id event_type event_time now owner payload_json : OutboxField
  status delivery_attempt delivery_status max_attempts backoff : OutboxField

pub record OutboxError : Type 0 where
  pub code : OutboxErrorCode
  pub field : OutboxField

pub data OutboxStatus : Type 0 where
  pending delivering delivered retry_wait failed : OutboxStatus
  other_status : Text → OutboxStatus

abbrev pub outbox_valid : OutboxStatus → Bool
outbox_valid (other_status s) = false
outbox_valid _ = true

abbrev pub outbox_terminal : OutboxStatus → Bool
outbox_terminal delivered = true
outbox_terminal failed = true
outbox_terminal _ = false

abbrev pub is_delivering : OutboxStatus → Bool
is_delivering delivering = true
is_delivering _ = false

-- `PayloadJSON` is the empty text where the source holds nil.
pub record OutboxRecord : Type 0 where
  pub event_id : Text
  pub event_type : Text
  pub event_time : Time
  pub payload_json : Text
  pub status : OutboxStatus
  pub delivery_attempt : ℤ
  pub next_retry_at : Option Time
  pub last_error : Text
  pub created_at : Time
  pub updated_at : Time
  pub delivered_at : Option Time

pub record DeliveryFailure : Type 0 where
  pub max_attempts : ℤ
  pub backoff : Duration
  pub last_error : Text
  pub now : Time

-- What `json.Unmarshal` into a `map[string]any` comes to: an error, no map (the payload `null`), or
-- a map.
pub data Decoded : Type 0 where
  malformed no_object an_object : Decoded

abbrev pub is_object : Decoded → Bool
is_object an_object = true
is_object _ = false

abbrev outbox_invalid_request : OutboxField → OutboxError
outbox_invalid_request f = record { code = invalid_request; field = f }

abbrev outbox_invalid_record : OutboxField → OutboxError
outbox_invalid_record f = record { code = invalid_record; field = f }

abbrev outbox_invalid_transition : OutboxField → OutboxError
outbox_invalid_transition f = record { code = invalid_transition; field = f }

unfoldable pub validate_outbox_payload_json : (Text → Decoded) → Text → Option OutboxError
validate_outbox_payload_json decode p =
    check (is_blank p) (outbox_invalid_record payload_json)
    then_check check (not (is_object (decode p))) (outbox_invalid_record payload_json)

unfoldable pub validate_outbox_record : (Text → Decoded) → OutboxRecord → Option OutboxError
validate_outbox_record decode r =
    check (is_blank r.event_id) (outbox_invalid_record event_id)
    then_check check (is_blank r.event_type) (outbox_invalid_record event_type)
    then_check check (is_zero r.event_time) (outbox_invalid_record event_time)
    then_check validate_outbox_payload_json decode r.payload_json
    then_check check (not (outbox_valid r.status)) (outbox_invalid_record status)
    then_check check (ltb_ℤ r.delivery_attempt (pos 0)) (outbox_invalid_record delivery_attempt)

-- The parts of `Event` that the outbox reads; `encoded` is what `json.Marshal(event.Sanitized())`
-- gives.
pub record OutboxEvent : Type 0 where
  pub id : Text
  pub type : Text
  pub time : Time
  pub encoded : Option Text

abbrev pub pending_record : OutboxEvent → Text → Time → OutboxRecord
pending_record e p t = record {
  event_id = e.id;
  event_type = e.type;
  event_time = e.time;
  payload_json = p;
  status = pending;
  delivery_attempt = pos 0;
  next_retry_at = none;
  last_error = [];
  created_at = t;
  updated_at = t;
  delivered_at = none;
}

unfoldable pub new_outbox_record : OutboxEvent → Time → Result OutboxError OutboxRecord
new_outbox_record e t =
    if is_blank e.id
    then err (outbox_invalid_request event_id)
    else if is_empty e.type
    then err (outbox_invalid_request event_type)
    else if is_zero e.time
    then err (outbox_invalid_request event_time)
    else if is_zero t
    then err (outbox_invalid_request now)
    else elim e.encoded [
      | none ↦ err (outbox_invalid_request payload_json)
      | some p ↦ ok (pending_record e p t)
    ]

-- The pair that a transition returns: the record, and the error if there is one.
abbrev pub Marked : Type 0
Marked = OutboxRecord × Option OutboxError

abbrev pub refused : OutboxRecord → OutboxError → Marked
refused r e = (r, some e)

abbrev can_deliver : OutboxStatus → Bool
can_deliver pending = true
can_deliver retry_wait = true
can_deliver _ = false

abbrev pub started : OutboxRecord → Time → OutboxRecord
started r t = record r {
  status = delivering;
  delivery_attempt = inc_int r.delivery_attempt;
  next_retry_at = none;
  last_error = [];
  updated_at = t;
}

unfoldable pub mark_delivering : (Text → Decoded) → OutboxRecord → Text → Time → Marked
mark_delivering decode r o t =
    if is_blank o
    then refused r (outbox_invalid_request owner)
    else if is_zero t
    then refused r (outbox_invalid_request now)
    else on_error (validate_outbox_record decode r) (refused r) (
        if not (can_deliver r.status)
        then refused r (outbox_invalid_transition delivery_status)
        else (started r t, none))

abbrev pub finished : OutboxRecord → Time → OutboxRecord
finished r t = record r {
  status = delivered;
  next_retry_at = none;
  last_error = [];
  delivered_at = some t;
  updated_at = t;
}

unfoldable pub mark_delivered : (Text → Decoded) → OutboxRecord → Time → Marked
mark_delivered decode r t =
    if is_zero t
    then refused r (outbox_invalid_request now)
    else on_error (validate_outbox_record decode r) (refused r) (
        if not (is_delivering r.status)
        then refused r (outbox_invalid_transition delivery_status)
        else (finished r t, none))

-- The stored message of a failure, never empty.
abbrev pub failure_message : (Text → Text) → Text → Text
failure_message redact m =
    let message = redact (trim_space m) in
    if is_empty message then bytes "delivery failed" else message

unfoldable pub failed_record : (Text → Text) → OutboxRecord → DeliveryFailure → OutboxRecord
failed_record redact r f =
    let noted = record r {
      last_error = failure_message redact f.last_error;
      updated_at = f.now;
      delivered_at = none;
    } in
    if leb_ℤ f.max_attempts r.delivery_attempt
    then record noted { status = failed; next_retry_at = none }
    else record noted { status = retry_wait; next_retry_at = some (add f.now f.backoff) }

unfoldable pub mark_delivery_failed :
    (Text → Decoded) → (Text → Text) → OutboxRecord → DeliveryFailure → Marked
mark_delivery_failed decode redact r f =
    if is_zero f.now
    then refused r (outbox_invalid_request now)
    else if leb_ℤ f.max_attempts (pos 0)
    then refused r (outbox_invalid_request max_attempts)
    else if ltb_ℤ f.backoff (pos 0)
    then refused r (outbox_invalid_request backoff)
    else on_error (validate_outbox_record decode r) (refused r) (
        if not (is_delivering r.status)
        then refused r (outbox_invalid_transition delivery_status)
        else (failed_record redact r f, none))
