-- ===== src/RestoreReconcile/Loop.antt =====
-- `Runner.RunOnce` of internal/restorereconcile/reconcile.go. The store is a machine with states of
-- any type; each of its operations answers and goes to another state. A run also gives the list of
-- what it observed and stored. The audit event of a commit is left out.
use agentsmith_fs_control_pl.Clock.{Time}
use agentsmith_fs_control_pl.Prelude.{
  Bool, List, Option, Result, [], err, false, length, none, ok, some, true, ℕ, ◌+◌, ◌==◌, ◌∷◌,
}
use agentsmith_fs_control_pl.RestoreReconcile.{
  Decision, Observation, Run, Target, decide_observation_for_target, is_blocked, is_mismatch,
  is_reconciling,
}
use agentsmith_fs_control_pl.RestoreReconcile.Redaction.{Evidence, redacted_evidence}
use agentsmith_fs_control_pl.Text.{Text}

-- An error of the store; `no_rows` is `sql.ErrNoRows`. `ErrObservationMissing` is wrapped by the
-- run, which changes its text only.
pub data StoreError : Type 0 where
  no_rows observation_missing : StoreError
  other_error : Text → StoreError

pub data RunError : Type 0 where
  store_required target_set_empty sensitive_evidence : RunError
  from_store : StoreError → RunError

pub record MismatchCommit : Type 0 where
  pub run_id : Text
  pub repo_id : Text
  pub namespace_id : Text
  pub reason : Text
  pub evidence_ref : Text
  pub now : Time

pub record Store (W : Type 0) : Type 0 where
  pub active_run : W → Result StoreError Run × W
  pub list_targets : Text → W → Result StoreError (List Target) × W
  pub observe_target : Target → W → Result StoreError Observation × W
  pub complete_run : Text → Time → W → Option StoreError × W
  pub commit_mismatch : MismatchCommit → W → Option StoreError × W

pub data Event : Type 0 where
  observed : Target → Observation → Event
  committed : MismatchCommit → Event
  run_completed : Text → Time → Event

pub record RunResult : Type 0 where
  pub scanned : ℕ
  pub completed_runs : ℕ
  pub blocked : ℕ
  pub skipped : ℕ
  pub failed_count : ℕ

abbrev pub no_result : RunResult
no_result = record { scanned = 0; completed_runs = 0; blocked = 0; skipped = 0; failed_count = 0 }

pub record Outcome (W : Type 0) : Type 0 where
  pub result : RunResult
  pub error : Option RunError
  pub log : List Event
  pub world : W

-- An event before the rest of a run.
abbrev pub prepend : {W : Type 0} → Event → Outcome W → Outcome W
prepend e o = record o { log = e ∷ o.log }

abbrev pub stop : {W : Type 0} → RunResult → Option RunError → W → Outcome W
stop r e w = record { result = r; error = e; log = []; world = w }

abbrev pub fail : {W : Type 0} → RunResult → RunError → W → Outcome W
fail r e w = stop (record r { failed_count = r.failed_count + 1 }) (some e) w

module _ {W : Type 0} (store : Store W) (run : Run) (now : Time) where
  -- The end of a run without a mismatch.
  abbrev pub after_complete : RunResult → Option StoreError × W → Outcome W
  after_complete r (some e, w) = fail r (from_store e) w
  after_complete r (none, w) =
      prepend (run_completed run.id now) (stop (record r { completed_runs = 1 }) none w)

  abbrev pub finish_if : Bool → RunResult → W → Outcome W
  finish_if false r w = stop r none w
  finish_if true r w = after_complete r (store.complete_run run.id now w)

  abbrev pub finish : RunResult → W → Outcome W
  finish r w = finish_if (r.blocked == 0) r w

  abbrev pub commit_of : Observation → Decision → Evidence → MismatchCommit
  commit_of o d evidence = record {
    run_id = run.id;
    repo_id = o.repo_id;
    namespace_id = o.namespace_id;
    reason = d.reason;
    evidence_ref = evidence.evidence_ref;
    now = now;
  }

  abbrev pub after_commit :
      (RunResult → W → Outcome W) → RunResult → MismatchCommit → Option StoreError × W → Outcome W
  after_commit rest r c (some e, w) = fail r (from_store e) w
  after_commit rest r c (none, w) =
      prepend (committed c) (rest (record r { blocked = r.blocked + 1 }) w)

  abbrev pub commit :
      (RunResult → W → Outcome W)
      → RunResult
      → Observation
      → Decision
      → Option Evidence
      → W
      → Outcome W
  commit rest r o d none w = fail r sensitive_evidence w
  commit rest r o d (some evidence) w =
      after_commit rest r (commit_of o d evidence)
        (store.commit_mismatch (commit_of o d evidence) w)

  -- The branches of `decision.Result != ObservationResultMismatch`.
  abbrev pub judge :
      (RunResult → W → Outcome W) → RunResult → Observation → Decision → Bool → W → Outcome W
  judge rest r o d false w = rest r w
  judge rest r o d true w = commit rest r o d (redacted_evidence o) w

  abbrev pub after_observe :
      (RunResult → W → Outcome W)
      → Target
      → RunResult
      → Result StoreError Observation × W
      → Outcome W
  after_observe rest t r (err e, w) = fail r (from_store e) w
  after_observe rest t r (ok o, w) =
      let d = decide_observation_for_target t o in
      prepend (observed t o) (judge rest r o d (is_mismatch d.result) w)

  unfoldable pub scan_targets : List Target → RunResult → W → Outcome W
  scan_targets [] r w = finish r w
  scan_targets (t ∷ ts) r w = after_observe (scan_targets ts) t r (store.observe_target t w)

  abbrev pub after_list : Result StoreError (List Target) × W → Outcome W
  after_list (err e, w) = fail no_result (from_store e) w
  after_list (ok [], w) = fail no_result target_set_empty w
  after_list (ok (t ∷ ts), w) =
      scan_targets (t ∷ ts) (record no_result { scanned = length (t ∷ ts) }) w

-- The branches on the mode of the active run: reconciling, blocked, or another.
abbrev pub started : {W : Type 0} → Store W → Run → Time → Bool → Bool → W → Outcome W
started store run now true b w = after_list store run now (store.list_targets run.id w)
started store run now false true w = stop (record no_result { blocked = 1 }) none w
started store run now false false w = stop (record no_result { skipped = 1 }) none w

abbrev pub after_active : {W : Type 0} → Store W → Time → Result StoreError Run × W → Outcome W
after_active store now (err no_rows, w) = stop (record no_result { skipped = 1 }) none w
after_active store now (err e, w) = fail no_result (from_store e) w
after_active store now (ok run, w) =
    started store run now (is_reconciling run.mode) (is_blocked run.mode) w

-- `enabled` is `ExplicitlyEnabled`, `none` a nil store, `now` the time of the clock.
unfoldable pub run_once : {W : Type 0} → Bool → Option (Store W) → Time → W → Outcome W
run_once false store now w = stop no_result none w
run_once true none now w = stop no_result (some store_required) w
run_once true (some store) now w = after_active store now (store.active_run w)
