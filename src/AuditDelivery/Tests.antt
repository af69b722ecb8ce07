-- ===== src/AuditDelivery/Tests.antt =====
-- A round of delivery of one record.
use agentsmith_fs_control_pl.AuditDelivery.{
  Config, run_once, Attempt, deliver_record, deliver_records, validated_config,
}
use agentsmith_fs_control_pl.AuditDelivery.Marks.{AreMarksOf, run_once-AreMarksOf}
use agentsmith_fs_control_pl.Outbox.{delivering, OutboxRecord, an_object}
use agentsmith_fs_control_pl.Prelude.{List, [], none, ok, pos, refl, some, true, ◌∷◌, ◌≡◌}
use agentsmith_fs_control_pl.Text.{Text, bytes, trim_space}

abbrev config : Config
config = record {
  has_store = true;
  has_deliverer = true;
  owner = bytes "w1";
  limit = pos 5;
  max_attempts = pos 3;
  retry_backoff = pos 10;
  now = 0;
  clock = some 70;
}

abbrev claimed_record : OutboxRecord
claimed_record = record {
  event_id = bytes "e1";
  event_type = bytes "restore";
  event_time = 5;
  payload_json = bytes "{}";
  status = delivering;
  delivery_attempt = pos 1;
  next_retry_at = none;
  last_error = [];
  created_at = 6;
  updated_at = 60;
  delivered_at = none;
}

abbrev attempts : List Attempt
attempts =
    (record {
      record_of = claimed_record;
      delivery_error = some (bytes "refused");
      mark_error = none;
    })
    ∷ []

abbrev unchanged : Text → Text
unchanged m = m

config_is_valid : validated_config config ≡ ok (bytes "w1", 70)
unfolding validated_config trim_space
config_is_valid = refl

failure_is_recorded :
    (run_once unchanged config (ok attempts)).result.delivery_failures_recorded ≡ 1
unfolding run_once validated_config deliver_records deliver_record trim_space
failure_is_recorded = refl

run_once-AreMarksOf_example :
    AreMarksOf (λ p. an_object) unchanged attempts (run_once unchanged config (ok attempts)).marks
run_once-AreMarksOf_example =
    run_once-AreMarksOf (λ p. an_object) unchanged config (bytes "w1") 70 attempts config_is_valid
