-- ===== src/Worker/Tests.antt =====
-- Rounds with concrete runners, whose world is of no matter.
use mathlib.Core.Option
use agentsmith_fs_control_pl.Prelude.{[], false, none, refl, some, ◌∷◌, ◌≡◌}
use agentsmith_fs_control_pl.Text.{bytes}
use agentsmith_fs_control_pl.Worker.{
  exports, mounts, restores, operations, stale_audit, delivery, Config, Progress, Runner,
  empty_result, other_failure,
}
use agentsmith_fs_control_pl.Worker.Complete.{run_round_complete}
use agentsmith_fs_control_pl.Worker.Gate.{run_round_gate}
use agentsmith_fs_control_pl.Worker.Kept.{has_error, is_evidence_error}
use agentsmith_fs_control_pl.Worker.Stages.{
  deliver_audit, evidence_gate, gather_evidence, recover_operations, run_round, run_stage,
}

abbrev answer : {R : Type 0} → R → Runner (Unit {0}) R
answer r w = (r, none, w)

abbrev config : Config (Unit {0})
config = record {
  context = λ w. none;
  export_session_reconcile = some (answer empty_result.export_session_reconcile);
  operation_recovery = some (answer empty_result.operation_recovery);
  workload_mount_stale = some (answer empty_result.workload_mount_stale);
  restore_reconciliation = some (answer empty_result.restore_reconciliation);
  audit_stale_recovery = some (answer empty_result.audit_stale_recovery);
  audit_delivery = some (answer empty_result.audit_delivery);
}

-- A round in which the scan of mounts fails: operations are not recovered, audit goes on.
abbrev failing : Config (Unit {0})
failing = record config {
  workload_mount_stale =
      some (λ w. (empty_result.workload_mount_stale, some (other_failure (bytes "db")), w));
}

abbrev blocked_run : Config (Unit {0})
blocked_run = record config {
  restore_reconciliation =
      some (answer (record empty_result.restore_reconciliation { blocked = 1 }));
}

skips_operations :
    Option.map (λ p. p.called) (run_round failing tt)
    ≡ some (exports ∷ mounts ∷ restores ∷ stale_audit ∷ delivery ∷ [])
unfolding run_round gather_evidence recover_operations deliver_audit run_stage evidence_gate
skips_operations = refl

stops_at_gate :
    Option.map (λ p. p.called) (run_round blocked_run tt) ≡ some (exports ∷ mounts ∷ restores ∷ [])
unfolding run_round gather_evidence recover_operations deliver_audit run_stage evidence_gate
stops_at_gate = refl

abbrev done : Progress (Unit {0})
done = record {
  result = empty_result;
  errors = [];
  stopped = false;
  called = exports ∷ mounts ∷ restores ∷ operations ∷ stale_audit ∷ delivery ∷ [];
  world = tt;
}

ran : run_round config tt ≡ some done
unfolding run_round gather_evidence recover_operations deliver_audit run_stage evidence_gate
ran = refl

run_round_gate_example :
    (has_error is_evidence_error done.errors ≡ false)
    × (done.result.restore_reconciliation.blocked ≡ 0)
    × (done.result.restore_reconciliation.failed_count ≡ 0)
run_round_gate_example = run_round_gate config tt done ran refl

run_round_complete_example :
    (p : Progress (Unit {0})) × (run_round config tt ≡ some p)
    × (p.called ≡ exports ∷ mounts ∷ restores ∷ operations ∷ stale_audit ∷ delivery ∷ [])
    × (p.errors ≡ [])
run_round_complete_example = run_round_complete config tt (record {
  quiet = λ w. refl;
  exports_runner = answer empty_result.export_session_reconcile;
  exports_set = refl;
  exports_sound = λ w. refl;
  mounts_runner = answer empty_result.workload_mount_stale;
  mounts_set = refl;
  mounts_sound = λ w. refl;
  restores_runner = answer empty_result.restore_reconciliation;
  restores_set = refl;
  restores_sound = λ w. refl;
  never_blocked = λ w. refl;
  never_failed = λ w. refl;
  operations_runner = answer empty_result.operation_recovery;
  operations_set = refl;
  operations_sound = λ w. refl;
  stale_runner = answer empty_result.audit_stale_recovery;
  stale_set = refl;
  stale_sound = λ w. refl;
  delivery_runner = answer empty_result.audit_delivery;
  delivery_set = refl;
  delivery_sound = λ w. refl;
})
