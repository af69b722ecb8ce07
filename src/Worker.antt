-- ===== src/Worker.antt =====
-- internal/worker/run_once.go: one round of the worker, which runs the configured runners one after
-- the other. A runner works on a world of any type and answers with its result and its error; what
-- the context says is read from the world. The round also gives the list of the runners it called.
pub mod Stages
pub mod Kept
pub mod Gate
pub mod Complete
mod Tests
use agentsmith_fs_control_pl.AuditDelivery.{BatchResult}
use agentsmith_fs_control_pl.ExportReconcile.{ExportReconcileResult}
use agentsmith_fs_control_pl.Prelude.{Bool, List, Option, [], false, true, ℕ}
use agentsmith_fs_control_pl.RestoreReconcile.Loop.{RunResult}
use agentsmith_fs_control_pl.Text.{Text}
use agentsmith_fs_control_pl.WorkloadMount.StaleLease.{StaleLeaseResult}

-- The results of the runners of internal/recovery and internal/auditdelivery, as far as `Summary`
-- shows them.
pub record OperationBatchResult : Type 0 where
  pub scanned : ℕ
  pub claimed : ℕ
  pub reclaimed : ℕ
  pub finalized : ℕ
  pub skipped : ℕ
  pub manual : ℕ
  pub unsupported : ℕ
  pub race_lost : ℕ
  pub failed_count : ℕ

pub record StaleRecoveryResult : Type 0 where
  pub recovered : ℕ
  pub retry_wait_count : ℕ
  pub failed_terminal : ℕ
  pub failed_count : ℕ

pub record Result : Type 0 where
  pub export_session_reconcile : ExportReconcileResult
  pub operation_recovery : OperationBatchResult
  pub workload_mount_stale : StaleLeaseResult
  pub restore_reconciliation : RunResult
  pub audit_stale_recovery : StaleRecoveryResult
  pub audit_delivery : BatchResult

pub data Stage : Type 0 where
  exports mounts restores operations stale_audit delivery : Stage

-- An error, as far as the round looks at it: whether it is one of the context.
pub data Failure : Type 0 where
  cancelled deadline_exceeded : Failure
  other_failure : Text → Failure

abbrev pub is_context_error : Failure → Bool
is_context_error (other_failure e) = false
is_context_error e = true

-- A part of the joined error.
pub data ErrorPart : Type 0 where
  from_context : Failure → ErrorPart
  from_stage : Stage → Failure → ErrorPart

abbrev pub Runner : Type 0 → Type 0 → Type 0
Runner W R = W → R × Option Failure × W

pub record Config (W : Type 0) : Type 0 where
  pub context : W → Option Failure
  pub export_session_reconcile : Option (Runner W ExportReconcileResult)
  pub operation_recovery : Option (Runner W OperationBatchResult)
  pub workload_mount_stale : Option (Runner W StaleLeaseResult)
  pub restore_reconciliation : Option (Runner W RunResult)
  pub audit_stale_recovery : Option (Runner W StaleRecoveryResult)
  pub audit_delivery : Option (Runner W BatchResult)

-- The variables of the round; `stopped` says that it has returned.
pub record Progress (W : Type 0) : Type 0 where
  pub result : Result
  pub errors : List ErrorPart
  pub stopped : Bool
  pub called : List Stage
  pub world : W

abbrev pub empty_result : Result
empty_result = record {
  export_session_reconcile = record {
    recovered_runtime_requests = 0;
    recovered_runtime_writes = 0;
    scanned = 0;
    terminalized = 0;
    reused_count = 0;
    skipped = 0;
    race_lost = 0;
    failed_count = 0;
  };
  operation_recovery = record {
    scanned = 0;
    claimed = 0;
    reclaimed = 0;
    finalized = 0;
    skipped = 0;
    manual = 0;
    unsupported = 0;
    race_lost = 0;
    failed_count = 0;
  };
  workload_mount_stale = record { scanned = 0; kept_blocked = 0; failed_count = 0 };
  restore_reconciliation = record {
    scanned = 0;
    completed_runs = 0;
    blocked = 0;
    skipped = 0;
    failed_count = 0;
  };
  audit_stale_recovery = record {
    recovered = 0;
    retry_wait_count = 0;
    failed_terminal = 0;
    failed_count = 0;
  };
  audit_delivery = record {
    claimed = 0;
    delivered_count = 0;
    delivery_failures_recorded = 0;
    failed_count = 0;
    results = [];
  };
}

abbrev pub initial : {W : Type 0} → W → Progress W
initial w = record { result = empty_result; errors = []; stopped = false; called = []; world = w }
