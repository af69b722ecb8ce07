-- ===== src/Recovery.antt =====
-- internal/recovery/operation.go: a round that takes up the operations which are left over. The
-- stores, the executor and the clock are a machine with states of any type. An execution and the
-- renewal of its lease beside it answer together, with whether the outcome was read as committed.
-- The record and the audit event of an unsupported operation are made by `commit_unsupported`.
pub mod Steps
pub mod Account
pub mod Rounds
pub mod Planned
pub mod Interval
mod Tests
use agentsmith_fs_control_pl.Clock.{Duration, Time}
use agentsmith_fs_control_pl.Inspection.{RecoveryPlan}
use agentsmith_fs_control_pl.Operations.Lease.{LeaseCancelPolicy, LeaseRequest}
use agentsmith_fs_control_pl.Operations.Record.{OperationRecord}
use agentsmith_fs_control_pl.Prelude.{Bool, List, Option, Result, [], none, some, ℕ, ℤ, ◌+◌, ◌∷◌}
use agentsmith_fs_control_pl.Text.{Text}

-- `lease_unavailable` is `operations.ErrLeaseUnavailable`.
pub data StoreError : Type 0 where
  lease_unavailable : StoreError
  other_error : Text → StoreError

pub data ExecuteError : Type 0 where
  manual_committed : ExecuteError
  other_failure : Text → ExecuteError

pub data RecoveryError : Type 0 where
  reader_required lease_store_required commit_store_required executor_required : RecoveryError
  event_id_required owner_required duration_not_positive limit_not_positive : RecoveryError
  time_not_set : RecoveryError
  list_failed : Text → RecoveryError
  acquire_failed commit_failed execute_failed renew_failed : OperationRecord → RecoveryError

-- The answer of an execution: its error, the error of the renewal of the lease, and whether a
-- reader, if there is one, then shows the outcome that `operationCommittedOutcomeVisible` accepts.
pub record Execution : Type 0 where
  pub execute_error : Option ExecuteError
  pub renew_error : Option Text
  pub outcome_visible : Bool

pub record Machine (W : Type 0) : Type 0 where
  pub decision_now : W → Time
  pub list_operations : Time → ℕ → W → Result Text (List OperationRecord) × W
  pub acquire : Text → LeaseRequest → W → Result StoreError OperationRecord × W
  pub supports : OperationRecord → RecoveryPlan → W → Bool
  pub execute : OperationRecord → RecoveryPlan → W → Execution × W
  pub commit_unsupported : OperationRecord → RecoveryPlan → W → Option StoreError × W

pub record Config : Type 0 where
  pub has_reader : Bool
  pub has_lease_store : Bool
  pub has_commit_store : Bool
  pub has_executor : Bool
  pub has_event_id : Bool
  pub owner : Text
  pub lease_duration : Duration
  pub limit : ℤ

pub data OperationOutcome : Type 0 where
  claimed_outcome reclaimed_outcome finalized_outcome skipped_outcome : OperationOutcome
  manual_outcome unsupported_outcome race_lost_outcome failed_outcome : OperationOutcome

-- The counts of a round.
pub record Counts : Type 0 where
  pub scanned : ℕ
  pub claimed : ℕ
  pub reclaimed : ℕ
  pub finalized : ℕ
  pub skipped : ℕ
  pub manual_count : ℕ
  pub unsupported : ℕ
  pub race_lost : ℕ
  pub failed_count : ℕ

abbrev pub no_counts : Counts
no_counts = record {
  scanned = 0;
  claimed = 0;
  reclaimed = 0;
  finalized = 0;
  skipped = 0;
  manual_count = 0;
  unsupported = 0;
  race_lost = 0;
  failed_count = 0;
}

abbrev pub count : OperationOutcome → Counts → Counts
count claimed_outcome r = record r { claimed = r.claimed + 1 }
count reclaimed_outcome r = record r { reclaimed = r.reclaimed + 1 }
count finalized_outcome r = record r { finalized = r.finalized + 1 }
count skipped_outcome r = record r { skipped = r.skipped + 1 }
count manual_outcome r = record r { manual_count = r.manual_count + 1 }
count unsupported_outcome r = record r { unsupported = r.unsupported + 1 }
count race_lost_outcome r = record r { race_lost = r.race_lost + 1 }
count failed_outcome r = record r { failed_count = r.failed_count + 1 }

-- What a round did: a lease of a listed operation was asked for under a policy, or a leased operation
-- was executed.
pub data Event : Type 0 where
  asked : OperationRecord → LeaseCancelPolicy → Event
  executed : OperationRecord → OperationRecord → Event

-- `outcomes` are the operations of `Results`, in order, with their outcomes.
pub record Batch (W : Type 0) : Type 0 where
  pub counts : Counts
  pub outcomes : List (OperationRecord × OperationOutcome)
  pub error : Option RecoveryError
  pub log : List Event
  pub world : W

abbrev pub stop : {W : Type 0} → Counts → Option RecoveryError → W → Batch W
stop r e w = record { counts = r; outcomes = []; error = e; log = []; world = w }

abbrev pub logged : {W : Type 0} → Event → Batch W → Batch W
logged e o = record o { log = e ∷ o.log }

-- An operation is counted and its result appended before the rest of the round.
abbrev pub item :
    {W : Type 0}
    → OperationRecord
    → OperationOutcome
    → (Counts → W → Batch W)
    → Counts
    → W
    → Batch W
item x outcome rest r w =
    let o = rest (count outcome r) w in record o { outcomes = (x, outcome) ∷ o.outcomes }

abbrev pub fatal : {W : Type 0} → OperationRecord → RecoveryError → Counts → W → Batch W
fatal x e r w = item x failed_outcome (λ q v. stop q (some e) v) r w
