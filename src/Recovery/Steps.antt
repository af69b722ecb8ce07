-- ===== src/Recovery/Steps.antt =====
-- The steps of a round, from an operation that is listed to its result (internal/recovery/operation.go).
use agentsmith_fs_control_pl.Clock.{Time, is_zero}
use agentsmith_fs_control_pl.Inspection.{
  RecoveryAction, RecoveryPlan, claimable, retry, reclaim, finalize_cancellation, noop, wait,
  classify_operation_recovery,
}
use agentsmith_fs_control_pl.Operations.Lease.{
  LeaseRequest, LeaseCancelPolicy, no_policy, finalize_policy, no_recovery,
}
use agentsmith_fs_control_pl.Operations.Record.{OperationRecord}
use agentsmith_fs_control_pl.Prelude.{
  List, Option, Result, [], check, err, false, if◌then◌else◌, leb, leb_ℤ, length, ltb, negsuc, none,
  not, ok, pos, some, ℕ, ℤ, ◌+◌, ◌then_check◌, ◌∷◌,
}
use agentsmith_fs_control_pl.Recovery.{
  Batch, Config, Counts, ExecuteError, Execution, Machine, OperationOutcome, RecoveryError,
  StoreError, acquire_failed, asked, claimed_outcome, commit_failed, commit_store_required,
  duration_not_positive, event_id_required, execute_failed, executed, executor_required, fatal,
  finalized_outcome, item, lease_store_required, lease_unavailable, limit_not_positive, list_failed,
  logged, manual_committed, manual_outcome, no_counts, other_error, other_failure, owner_required,
  race_lost_outcome, reader_required, reclaimed_outcome, renew_failed, skipped_outcome, stop,
  time_not_set, unsupported_outcome,
}
use agentsmith_fs_control_pl.Text.{Text, bytes, is_blank, trim_space}

module _ {W : Type 0} (machine : Machine W) (c : Config) (owner : Text) (limit : ℕ)
    (now : Time) where
  abbrev pub lease_request : LeaseCancelPolicy → W → LeaseRequest
  lease_request policy w = record {
    owner = owner;
    duration = c.lease_duration;
    now = machine.decision_now w;
    recovery_mode = no_recovery;
    cancel_policy = policy;
  }

  -- The answer of `acquireOperation`; a clock that shows no time is an error of its own.
  abbrev pub acquire_operation :
      OperationRecord → LeaseCancelPolicy → W → Result StoreError OperationRecord × W
  acquire_operation x policy w =
      if is_zero (machine.decision_now w)
      then (err (other_error (bytes "operation recovery lease decision time")), w)
      else machine.acquire x.boundary.id (lease_request policy w) w

  -- `recordAcquireError`
  abbrev pub acquire_error :
      (Counts → W → Batch W) → OperationRecord → StoreError → Counts → W → Batch W
  acquire_error rest x lease_unavailable r w = item x race_lost_outcome rest r w
  acquire_error rest x (other_error e) r w = fatal x (acquire_failed x) r w

  -- `recordUnsupportedCommitError`, or the success of the commit
  abbrev pub after_commit :
      (Counts → W → Batch W) → OperationRecord → Counts → Option StoreError × W → Batch W
  after_commit rest x r (none, w) = item x unsupported_outcome rest r w
  after_commit rest x r (some lease_unavailable, w) = item x race_lost_outcome rest r w
  after_commit rest x r (some (other_error e), w) = fatal x (commit_failed x) r w

  abbrev pub commit_with :
      (Counts → W → Batch W)
      → OperationRecord
      → RecoveryPlan
      → Counts
      → Result StoreError OperationRecord × W
      → Batch W
  commit_with rest x p r (err e, w) = acquire_error rest x e r w
  commit_with rest x p r (ok leased, w) =
      after_commit rest x r (machine.commit_unsupported leased p w)

  abbrev pub after_execution :
      (Counts → W → Batch W)
      → OperationRecord
      → OperationOutcome
      → Counts
      → Option ExecuteError
      → W
      → Batch W
  after_execution rest x outcome r none w = item x outcome rest r w
  after_execution rest x outcome r (some manual_committed) w = item x manual_outcome rest r w
  after_execution rest x outcome r (some (other_failure e)) w = fatal x (execute_failed x) r w

  abbrev pub after_renewal :
      (Counts → W → Batch W)
      → OperationRecord
      → OperationOutcome
      → Counts
      → Execution
      → Option Text
      → W
      → Batch W
  after_renewal rest x outcome r a none w = after_execution rest x outcome r a.execute_error w
  after_renewal rest x outcome r a (some e) w =
      if a.outcome_visible
      then after_execution rest x outcome r a.execute_error w
      else fatal x (renew_failed x) r w

  -- `executeOperation`
  abbrev pub execute_operation :
      (Counts → W → Batch W) → OperationRecord → OperationOutcome → Counts → Execution × W → Batch W
  execute_operation rest x outcome r (a, w) = after_renewal rest x outcome r a a.renew_error w

  abbrev pub execute_with :
      (Counts → W → Batch W)
      → OperationRecord
      → RecoveryPlan
      → OperationOutcome
      → Counts
      → Result StoreError OperationRecord × W
      → Batch W
  execute_with rest x p outcome r (err e, w) = acquire_error rest x e r w
  execute_with rest x p outcome r (ok leased, w) =
      logged (executed x leased) (execute_operation rest x outcome r (machine.execute leased p w))

  -- The branches of a claim, a retry and a reclaim.
  abbrev pub take_up :
      (Counts → W → Batch W)
      → OperationRecord
      → RecoveryPlan
      → OperationOutcome
      → Counts
      → W
      → Batch W
  take_up rest x p outcome r w = logged (asked x no_policy) (
      if machine.supports x p w
      then execute_with rest x p outcome r (acquire_operation x no_policy w)
      else commit_with rest x p r (acquire_operation x no_policy w))

  abbrev pub finalize_with :
      (Counts → W → Batch W)
      → OperationRecord
      → Counts
      → Result StoreError OperationRecord × W
      → Batch W
  finalize_with rest x r (err e, w) = acquire_error rest x e r w
  finalize_with rest x r (ok leased, w) = item x finalized_outcome rest r w

  -- The switch on the action of the plan.
  abbrev pub follow :
      (Counts → W → Batch W)
      → OperationRecord
      → RecoveryPlan
      → RecoveryAction
      → Counts
      → W
      → Batch W
  follow rest x p claimable r w = take_up rest x p claimed_outcome r w
  follow rest x p retry r w = take_up rest x p claimed_outcome r w
  follow rest x p reclaim r w = take_up rest x p reclaimed_outcome r w
  follow rest x p finalize_cancellation r w =
      logged (asked x finalize_policy)
        (finalize_with rest x r (acquire_operation x finalize_policy w))
  follow rest x p wait r w = item x skipped_outcome rest r w
  follow rest x p noop r w = item x skipped_outcome rest r w
  follow rest x p action r w = item x manual_outcome rest r w

  -- The plan of a listed operation; explicit recovery is not asked for.
  abbrev pub plan_for : OperationRecord → RecoveryPlan
  plan_for x =
      classify_operation_recovery x
        (record { now = now; explicit_recovery = false; stale_delivering_threshold = pos 0 })

  unfoldable pub scan_operations : List OperationRecord → ℕ → Counts → W → Batch W
  scan_operations [] idx r w = stop r none w
  scan_operations (x ∷ xs) idx r w =
      let rest = scan_operations xs (idx + 1) in
      if leb limit idx then stop r none w else follow rest x (plan_for x) (plan_for x).action r w

  abbrev pub after_list : Result Text (List OperationRecord) × W → Batch W
  after_list (err e, w) = stop no_counts (some (list_failed e)) w
  after_list (ok xs, w) =
      scan_operations xs 0
        (record no_counts { scanned = if ltb limit (length xs) then limit else length xs }) w

abbrev pub positive : ℤ → ℕ
positive (pos n) = n
positive (negsuc n) = 0

-- The first check of `validatedConfig` that fails.
unfoldable pub validate_config : Config → Time → Option RecoveryError
validate_config c now =
    check (not c.has_reader) reader_required
    then_check check (not c.has_lease_store) lease_store_required
    then_check check (not c.has_commit_store) commit_store_required
    then_check check (not c.has_executor) executor_required
    then_check check (not c.has_event_id) event_id_required
    then_check check (is_blank c.owner) owner_required
    then_check check (leb_ℤ c.lease_duration (pos 0)) duration_not_positive
    then_check check (leb_ℤ c.limit (pos 0)) limit_not_positive
    then_check check (is_zero now) time_not_set

-- After the checks of `validatedConfig`.
abbrev pub begin_round :
    {W : Type 0} → Machine W → Config → Time → Option RecoveryError → W → Batch W
begin_round machine c now (some e) w = stop no_counts (some e) w
begin_round machine c now none w =
    after_list machine c (trim_space c.owner) (positive c.limit) now
      (machine.list_operations now (positive c.limit) w)

-- `RunOnce`
unfoldable pub recover_operations_once : {W : Type 0} → Machine W → Config → W → Batch W
recover_operations_once machine c w =
    begin_round machine c (machine.decision_now w) (validate_config c (machine.decision_now w)) w
