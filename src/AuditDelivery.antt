-- ===== src/AuditDelivery.antt =====
-- internal/auditdelivery/delivery.go: one round of delivering the audit records that are due. The
-- answers of the store and of the deliverer are arguments: each claimed record comes with the error
-- of its delivery and the error of the call that marks it. `redact` is `audit.RedactString`. Of an
-- error the text is kept.
pub mod Account
pub mod Marks
pub mod Stale
mod Tests
use agentsmith_fs_control_pl.Clock.{Duration, Time, is_zero}
use agentsmith_fs_control_pl.Outbox.{DeliveryFailure, OutboxRecord, backoff}
use agentsmith_fs_control_pl.Prelude.{
  ◌+◌, Bool, List, Option, Result, [], err, if◌then◌else◌, leb_ℤ, length, ltb_ℤ, none, not, ok, pos,
  some, ℕ, ℤ, ◌++◌, ◌∷◌, is_some,
}
use agentsmith_fs_control_pl.Text.{Text, bytes, is_blank, trim_space}

-- `has_store` and `has_deliverer` tell that the interfaces are not nil; `clock` is what the clock
-- shows, if there is one.
pub record Config : Type 0 where
  pub has_store : Bool
  pub has_deliverer : Bool
  pub owner : Text
  pub limit : ℤ
  pub max_attempts : ℤ
  pub retry_backoff : Duration
  pub now : Time
  pub clock : Option Time

pub data DeliveryError : Type 0 where
  store_required deliverer_required owner_required limit_not_positive : DeliveryError
  max_attempts_not_positive backoff_negative time_not_set : DeliveryError
  claim_failed mark_failed : Text → DeliveryError

pub data Outcome : Type 0 where
  delivered delivery_failure_recorded failed : Outcome

pub record RecordResult : Type 0 where
  pub event_id : Text
  pub outcome : Outcome
  pub reason : Text
  pub error : Option Text

pub record BatchResult : Type 0 where
  pub claimed : ℕ
  pub delivered_count : ℕ
  pub delivery_failures_recorded : ℕ
  pub failed_count : ℕ
  pub results : List RecordResult

-- A claimed record, with the answers to the calls that the loop makes for it.
pub record Attempt : Type 0 where
  pub record_of : OutboxRecord
  pub delivery_error : Option Text
  pub mark_error : Option Text

abbrev clock_or : Time → Option Time → Time
clock_or t none = t
clock_or t (some u) = if is_zero t then u else t

-- The checked owner and time of `validatedConfig`.
unfoldable pub validated_config : Config → Result DeliveryError (Text × Time)
validated_config c =
    if not c.has_store
    then err store_required
    else if not c.has_deliverer
    then err deliverer_required
    else if is_blank c.owner
    then err owner_required
    else if leb_ℤ c.limit (pos 0)
    then err limit_not_positive
    else if leb_ℤ c.max_attempts (pos 0)
    then err max_attempts_not_positive
    else if ltb_ℤ c.retry_backoff (pos 0)
    then err backoff_negative
    else if is_zero (clock_or c.now c.clock)
    then err time_not_set
    else ok (trim_space c.owner, clock_or c.now c.clock)

-- The failure that the loop reports to the store.
abbrev pub failure_of : Config → Text → Time → DeliveryFailure
failure_of c redacted t = record {
  max_attempts = c.max_attempts;
  backoff = c.retry_backoff;
  last_error = redacted;
  now = t;
}

-- A call that marks a record: `MarkAuditOutboxDelivered` or `MarkAuditOutboxDeliveryFailed`.
pub data Mark : Type 0 where
  as_delivered : Text → Time → Mark
  as_failed : Text → DeliveryFailure → Mark

-- What a round has come to: its result, its error and the calls that it made to mark records.
pub record Round : Type 0 where
  pub result : BatchResult
  pub error : Option DeliveryError
  pub marks : List Mark

-- A record is done: its result is appended, and the loop stops if there is an error.
abbrev pub finish : Round → Mark → BatchResult → RecordResult → Option DeliveryError → Round
finish x m b r e = record {
  result = record b { results = b.results ++ (r ∷ []) };
  error = e;
  marks = x.marks ++ (m ∷ []);
}

abbrev count_failed : BatchResult → BatchResult
count_failed b = record b { failed_count = b.failed_count + 1 }

-- One record of the loop.
unfoldable pub deliver_record : (Text → Text) → Config → Time → Attempt → Round → Round
deliver_record redact c t a x =
    let id = a.record_of.event_id in
    let b = x.result in
    elim a.delivery_error [
      | some e ↦
          let mark = as_failed id (failure_of c (redact e) t) in
          elim a.mark_error [
            | some m ↦
                finish x mark (count_failed b)
                  (record { event_id = id; outcome = failed; reason = redact e; error = some m })
                  (some (mark_failed m))
            | none ↦
                finish x mark
                  (record b { delivery_failures_recorded = b.delivery_failures_recorded + 1 })
                  (record {
                    event_id = id;
                    outcome = delivery_failure_recorded;
                    reason = redact e;
                    error = none;
                  })
                  none
          ]
      | none ↦ elim a.mark_error [
        | some m ↦
            finish x (as_delivered id t) (count_failed b)
              (record {
                event_id = id;
                outcome = failed;
                reason = bytes "mark_delivered_after_delivery_failed";
                error = some m;
              })
              (some (mark_failed m))
        | none ↦
            finish x (as_delivered id t) (record b { delivered_count = b.delivered_count + 1 })
              (record { event_id = id; outcome = delivered; reason = []; error = none }) none
      ]
    ]

unfoldable pub deliver_records : (Text → Text) → Config → Time → List Attempt → Round → Round
deliver_records redact c t [] x = x
deliver_records redact c t (a ∷ rest) x =
    let y = deliver_record redact c t a x in
    let z = deliver_records redact c t rest y in if is_some y.error then y else z

abbrev pub no_result : BatchResult
no_result = record {
  claimed = 0;
  delivered_count = 0;
  delivery_failures_recorded = 0;
  failed_count = 0;
  results = [];
}

abbrev pub first_round : BatchResult → Option DeliveryError → Round
first_round b e = record { result = b; error = e; marks = [] }

-- What follows `validatedConfig`; `due` answers `ClaimDueAuditOutboxRecords`.
abbrev pub run_with :
    (Text → Text) → Config → Result DeliveryError (Text × Time) → Result Text (List Attempt) → Round
run_with redact c (err e) due = first_round no_result (some e)
run_with redact c (ok v) (err e) = first_round no_result (some (claim_failed e))
run_with redact c (ok v) (ok attempts) =
    deliver_records redact c v.1 attempts
      (first_round (record no_result { claimed = length attempts }) none)

unfoldable pub run_once : (Text → Text) → Config → Result Text (List Attempt) → Round
run_once redact c due = run_with redact c (validated_config c) due
