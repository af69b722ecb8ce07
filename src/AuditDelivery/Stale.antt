-- ===== src/AuditDelivery/Stale.antt =====
-- internal/auditdelivery/stale.go: a round that recovers the records whose delivery was given up by
-- a worker that is gone. The store is a function on states of any type; the list of the records is
-- left out of the result.
use agentsmith_fs_control_pl.Clock.{Duration, Time, is_zero}
use agentsmith_fs_control_pl.Outbox.{
  OutboxStatus, retry_wait, failed, OutboxRecord, DeliveryFailure,
}
use agentsmith_fs_control_pl.Prelude.{
  All, Bool, List, Option, Result, [], arith, check, err, if◌then◌else◌, inl, inr, leb_ℤ, length,
  ltb_ℤ, none, not, ok, pos, refl, some, ℕ, ℤ, ◌+◌, ◌then_check◌, ◌∷◌, ◌≡◌, ◌⊎◌,
}
use agentsmith_fs_control_pl.Text.{Text, bytes, is_blank, trim_space}

-- `clock` is what the clock shows, if there is one.
pub record StaleConfig : Type 0 where
  pub has_store : Bool
  pub owner : Text
  pub stale_threshold : Duration
  pub limit : ℤ
  pub max_attempts : ℤ
  pub retry_backoff : Duration
  pub now : Time
  pub clock : Option Time

pub data StaleError : Type 0 where
  no_store no_owner threshold_not_positive no_limit no_attempts negative_backoff : StaleError
  no_time : StaleError
  recovery_failed : Text → StaleError

pub record StaleCounts : Type 0 where
  pub recovered : ℕ
  pub retry_wait_count : ℕ
  pub failed_terminal : ℕ
  pub failed_count : ℕ

abbrev pub no_stale : StaleCounts
no_stale = record { recovered = 0; retry_wait_count = 0; failed_terminal = 0; failed_count = 0 }

abbrev pub shown_time : Option Time → Time
shown_time none = 0
shown_time (some t) = t

abbrev pub stale_now : StaleConfig → Time
stale_now c = if is_zero c.now then shown_time c.clock else c.now

unfoldable pub validate_stale_config : StaleConfig → Option StaleError
validate_stale_config c =
    check (not c.has_store) no_store
    then_check check (is_blank c.owner) no_owner
    then_check check (leb_ℤ c.stale_threshold (pos 0)) threshold_not_positive
    then_check check (leb_ℤ c.limit (pos 0)) no_limit
    then_check check (leb_ℤ c.max_attempts (pos 0)) no_attempts
    then_check check (ltb_ℤ c.retry_backoff (pos 0)) negative_backoff
    then_check check (is_zero (stale_now c)) no_time

abbrev pub stale_failure : StaleConfig → DeliveryFailure
stale_failure c = record {
  max_attempts = c.max_attempts;
  backoff = c.retry_backoff;
  last_error = bytes "stale_delivering_recovered_for_replay";
  now = stale_now c;
}

abbrev pub count_status : OutboxStatus → StaleCounts → StaleCounts
count_status retry_wait r = record r { retry_wait_count = r.retry_wait_count + 1 }
count_status failed r = record r { failed_terminal = r.failed_terminal + 1 }
count_status other r = r

abbrev pub count_records : List OutboxRecord → StaleCounts → StaleCounts
count_records [] r = r
count_records (x ∷ xs) r = count_records xs (count_status x.status r)

abbrev pub after_recovery_call :
    {W : Type 0} → Result Text (List OutboxRecord) × W → (StaleCounts × Option StaleError) × W
after_recovery_call (err e, w) =
    ((record no_stale { failed_count = 1 }, some (recovery_failed e)), w)
after_recovery_call (ok xs, w) =
    ((count_records xs (record no_stale { recovered = length xs }), none), w)

-- The store, with the owner, the threshold, the limit and the failure.
abbrev pub StaleStore : Type 0 → Type 0
StaleStore W = Text → Duration → ℤ → DeliveryFailure → W → Result Text (List OutboxRecord) × W

abbrev pub begin_stale_round :
    {W : Type 0}
    → StaleStore W
    → StaleConfig
    → Option StaleError
    → W
    → (StaleCounts × Option StaleError) × W
begin_stale_round store c (some e) w = ((no_stale, some e), w)
begin_stale_round store c none w =
    after_recovery_call (store (trim_space c.owner) c.stale_threshold c.limit (stale_failure c) w)

-- `RunOnce`
unfoldable pub recover_stale_records :
    {W : Type 0} → StaleStore W → StaleConfig → W → (StaleCounts × Option StaleError) × W
recover_stale_records store c w = begin_stale_round store c (validate_stale_config c) w

-- A record whose delivery failed: it waits for another attempt, or it was given up.
abbrev pub IsSettled : OutboxRecord → Type 0
IsSettled x = (x.status ≡ retry_wait) ⊎ (x.status ≡ failed)

-- Where every recovered record waits for another attempt or was given up, the counts add up.
pub count_records-total :
    (xs : List OutboxRecord) (r : StaleCounts)
    → All IsSettled xs
    → ((count_records xs r).recovered ≡ r.recovered)
      × ((count_records xs r).retry_wait_count + (count_records xs r).failed_terminal
          ≡ r.retry_wait_count + r.failed_terminal + length xs)
count_records-total [] r h = (refl, omega arith)
count_records-total (x ∷ xs) r (inl s, h) =
    rw s (let (a, b) = count_records-total xs (count_status retry_wait r) h in (a, omega arith))
count_records-total (x ∷ xs) r (inr s, h) =
    rw s (let (a, b) = count_records-total xs (count_status failed r) h in (a, omega arith))
