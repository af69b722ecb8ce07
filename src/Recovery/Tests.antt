-- ===== src/Recovery/Tests.antt =====
-- Rounds over a small store (internal/recovery/operation.go).
use agentsmith_fs_control_pl.Clock.{add}
use agentsmith_fs_control_pl.Inspection.{
  classify_operation_recovery, validate_operation_lease_pair, classify_state,
}
use agentsmith_fs_control_pl.Operations.Lease.{no_policy, finalize_policy, is_live}
use agentsmith_fs_control_pl.Operations.Record.{OperationRecord}
use agentsmith_fs_control_pl.Operations.Samples.{boundary}
use agentsmith_fs_control_pl.Operations.State.{queued, running, cancel_requested}
use agentsmith_fs_control_pl.Prelude.{
  [], err, false, none, ok, pos, refl, some, true, ◌∷◌, ◌≡◌, arith, ◌*◌, ◌+◌, ◌/◌, ◌<◌, ◌≤◌, ◌⊎◌,
}
use agentsmith_fs_control_pl.Recovery.{
  Config, Execution, Machine, asked, executed, lease_unavailable, race_lost_outcome,
  skipped_outcome,
}
use agentsmith_fs_control_pl.Recovery.Interval.{
  lease_renewal_interval, lease_renewal_interval-InTime, min_interval,
}
use agentsmith_fs_control_pl.Recovery.Planned.{Planned}
use agentsmith_fs_control_pl.Recovery.Rounds.{Accounts, recover_operations_once-Accounts}
use agentsmith_fs_control_pl.Recovery.Steps.{
  validate_config, recover_operations_once, scan_operations,
}
use agentsmith_fs_control_pl.Text.{trim_space, bytes}

abbrev waiting : OperationRecord
waiting = record {
  boundary = boundary;
  state = queued;
  attempt = pos 0;
  lease_owner = [];
  lease_expires_at = none;
  started_at = none;
  finished_at = none;
}

abbrev held : OperationRecord
held = record waiting {
  state = running;
  attempt = pos 1;
  lease_owner = bytes "other";
  lease_expires_at = some 90;
}

abbrev cancelled : OperationRecord
cancelled = record waiting { state = cancel_requested; attempt = pos 1 }

abbrev done : Execution
done = record { execute_error = none; renew_error = none; outcome_visible = false }

-- A store that lists three operations and grants every lease.
abbrev machine : Machine (Unit {0})
machine = record {
  decision_now = λ w. 50;
  list_operations = λ t limit w. (ok (waiting ∷ held ∷ cancelled ∷ []), w);
  acquire = λ name q w. (ok held, w);
  supports = λ x p w. true;
  execute = λ x p w. (done, w);
  commit_unsupported = λ x p w. (none, w);
}

abbrev config : Config
config = record {
  has_reader = true;
  has_lease_store = true;
  has_commit_store = true;
  has_executor = true;
  has_event_id = true;
  owner = bytes "worker";
  lease_duration = pos 30;
  limit = pos 5;
}

one_executed :
    (recover_operations_once machine config tt).log
    ≡ asked waiting no_policy ∷ executed waiting held ∷ asked cancelled finalize_policy ∷ []
unfolding recover_operations_once validate_config trim_space scan_operations
    classify_operation_recovery validate_operation_lease_pair classify_state
one_executed = refl

-- Another worker was faster.
abbrev late : Machine (Unit {0})
late = record machine { acquire = λ name q w. (err lease_unavailable, w) }

race_lost :
    (recover_operations_once late config tt).outcomes
    ≡ (waiting, race_lost_outcome) ∷ (held, skipped_outcome) ∷ (cancelled, race_lost_outcome) ∷ []
unfolding recover_operations_once validate_config trim_space scan_operations
    classify_operation_recovery validate_operation_lease_pair classify_state
race_lost = refl

recover_operations_once-Accounts_example : Accounts 5 (recover_operations_once machine config tt)
recover_operations_once-Accounts_example = recover_operations_once-Accounts machine config tt

lease_renewal_interval-InTime_example :
    (0 < lease_renewal_interval (pos 1500000000))
    × (2 * lease_renewal_interval (pos 1500000000) ≤ 1500000000)
    × (is_live (some (add 20 (pos 1500000000))) (20 + lease_renewal_interval (pos 1500000000))
        ≡ true)
    × ((1500000000 < 3 * min_interval) ⊎ (lease_renewal_interval (pos 1500000000) ≡ 1500000000 / 3))
lease_renewal_interval-InTime_example = lease_renewal_interval-InTime 20 1500000000 (omega arith)

half_a_lease : lease_renewal_interval (pos 1500000000) ≡ 750000000
unfolding lease_renewal_interval
half_a_lease = refl
