-- ===== src/RestoreReconcile.antt =====
-- internal/restorereconcile/reconcile.go: after a restore of the control plane's database, each
-- repository of a run is compared with what its storage shows, before writes are let in again.
pub mod Redaction
pub mod Loop
pub mod Verdicts
pub mod Runs
pub mod Completes
mod Tests
use agentsmith_fs_control_pl.Prelude.{Bool, [], false, if◌then◌else◌, not, true, ◌&&◌, ◌||◌}
use agentsmith_fs_control_pl.Text.{Text, bytes, is_blank, is_empty, text_eq, trim_space}

pub data Mode : Type 0 where
  reconciling blocked_operator_intervention completed : Mode
  other_mode : Text → Mode

-- `unset` is the empty string.
pub data RepoStatus : Type 0 where
  unset active archived tombstoned purged operator_intervention_required : RepoStatus
  other_status : Text → RepoStatus

pub data ObservationResult : Type 0 where
  clean mismatch : ObservationResult
  other_result : Text → ObservationResult

abbrev pub metadata_storage_mismatch : Text
metadata_storage_mismatch = bytes "metadata_storage_mismatch"

abbrev pub purged_repo_storage_present : Text
purged_repo_storage_present = bytes "purged_repo_storage_present"

abbrev pub missing_evidence : Text
missing_evidence = bytes "missing_reconciliation_evidence"

pub record Run : Type 0 where
  pub id : Text
  pub mode : Mode

pub record Target : Type 0 where
  pub run_id : Text
  pub repo_id : Text
  pub namespace_id : Text
  pub expected_repo_status : RepoStatus
  pub expected_storage_generation : Text
  pub expected_snapshot_id : Text
  pub expected_tombstone_marker : Text
  pub expected_purge_marker : Text

pub record Observation : Type 0 where
  pub run_id : Text
  pub repo_id : Text
  pub namespace_id : Text
  pub expected_repo_status : RepoStatus
  pub observed_storage_present : Bool
  pub observed_generation : Text
  pub observed_snapshot_id : Text
  pub observed_tombstone_marker : Text
  pub observed_purge_marker : Text
  pub result : ObservationResult
  pub reason : Text
  pub evidence_ref : Text

-- `AllowsResurrection` is never set.
pub record Decision : Type 0 where
  pub result : ObservationResult
  pub reason : Text

abbrev pub is_reconciling : Mode → Bool
is_reconciling reconciling = true
is_reconciling mode = false

abbrev pub is_blocked : Mode → Bool
is_blocked blocked_operator_intervention = true
is_blocked mode = false

abbrev pub is_purged : RepoStatus → Bool
is_purged purged = true
is_purged status = false

abbrev pub is_mismatch : ObservationResult → Bool
is_mismatch mismatch = true
is_mismatch result = false

abbrev pub status_or : RepoStatus → RepoStatus → RepoStatus
status_or unset expected = expected
status_or status expected = status

unfoldable pub dangerous_writes_blocked : Run → Bool
dangerous_writes_blocked run = is_reconciling run.mode || is_blocked run.mode

abbrev pub differs : Text → Decision
differs reason = record { result = mismatch; reason = reason }

abbrev pub same : Decision
same = record { result = clean; reason = [] }

unfoldable pub decide_observation : Observation → Decision
decide_observation o =
    if is_purged o.expected_repo_status && o.observed_storage_present
    then differs purged_repo_storage_present
    else if is_mismatch o.result
    then differs (if is_blank o.reason then metadata_storage_mismatch else trim_space o.reason)
    else same

unfoldable pub lacks_evidence : Observation → Bool
lacks_evidence o =
    is_blank o.evidence_ref
    || is_blank o.observed_generation
    || is_blank o.observed_snapshot_id
    || is_blank o.observed_tombstone_marker
    || is_blank o.observed_purge_marker

unfoldable pub differs_from : Target → Observation → Bool
differs_from t o =
    not (text_eq o.observed_generation t.expected_storage_generation)
    || not (text_eq o.observed_snapshot_id t.expected_snapshot_id)
    || not (text_eq o.observed_tombstone_marker t.expected_tombstone_marker)
    || not (text_eq o.observed_purge_marker t.expected_purge_marker)

-- The rest of `DecideObservationForTarget`, once the status is filled in.
unfoldable pub decide_filled : Target → Observation → Decision
decide_filled t o =
    if is_purged o.expected_repo_status && o.observed_storage_present
    then differs purged_repo_storage_present
    else if is_mismatch o.result
    then decide_observation o
    else if lacks_evidence o
    then differs missing_evidence
    else if differs_from t o
    then differs metadata_storage_mismatch
    else same

unfoldable pub decide_observation_for_target : Target → Observation → Decision
decide_observation_for_target t o =
    if is_empty o.run_id || is_empty o.repo_id
    then differs missing_evidence
    else (decide_filled t (record o {
      expected_repo_status = status_or o.expected_repo_status t.expected_repo_status;
    }))
