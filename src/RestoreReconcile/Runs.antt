-- ===== src/RestoreReconcile/Runs.antt =====
-- Complete runs of internal/restorereconcile/reconcile.go.
use agentsmith_fs_control_pl.Clock.{Time}
use agentsmith_fs_control_pl.Prelude.{
  ==_iff, List, Option, Result, [], arith, err, false, none, ok, some, true, ◌+◌, ◌==◌, ◌∷◌, ◌≡◌,
  ◌≢◌, Bool, ap, refl, ◌∙◌, length,
}
use agentsmith_fs_control_pl.RestoreReconcile.{
  Decision, Observation, Run, Target, decide_observation_for_target, is_mismatch, reconciling, Mode,
  blocked_operator_intervention, completed, is_blocked, is_reconciling, other_mode,
}
use agentsmith_fs_control_pl.RestoreReconcile.Loop.{
  MismatchCommit, Outcome, RunResult, Store, StoreError, after_commit, after_complete,
  after_observe, commit, commit_of, observed, run_completed, Event, finish_if, judge, prepend,
  scan_targets, after_active, after_list, no_result, no_rows, observation_missing, other_error,
  run_once, started,
}
use agentsmith_fs_control_pl.RestoreReconcile.Redaction.{Evidence, redacted_evidence}
use agentsmith_fs_control_pl.RestoreReconcile.Verdicts.{IsMatch, decide_observation_for_target_iff}

-- A run over these targets, from one state of the store to another: the store was asked for each
-- target once, in order, in the state that the call before had left, and answered with a match; it
-- then accepted the completion of the run. No other call was made.
pub data IsCleanRun {W : Type 0} (store : Store W) (run : Run) (now : Time)
    : List Target → W → List Event → W → Type 0 where
  finished :
      {w v : W}
      → store.complete_run run.id now w ≡ (none, v)
      → IsCleanRun store run now [] w (run_completed run.id now ∷ []) v
  matched :
      {t : Target} {o : Observation} {ts : List Target} {log : List Event} {w u v : W}
      → store.observe_target t w ≡ (ok o, u)
      → IsMatch t o
      → IsCleanRun store run now ts u log v
      → IsCleanRun store run now (t ∷ ts) w (observed t o ∷ log) v

module _ {W : Type 0} (store : Store W) (run : Run) (now : Time) where
  -- What a loop that completes the run has done.
  abbrev Clean : List Target → RunResult → W → Outcome W → Type 0
  Clean ts r w o =
      r.completed_runs ≡ 0
      → o.result.completed_runs ≡ 1
      → (r.blocked ≡ 0) × IsCleanRun store run now ts w o.log o.world

  after_complete-Clean :
      (r : RunResult) (w : W) (a : Option StoreError × W)
      → store.complete_run run.id now w ≡ a
      → r.blocked ≡ 0
      → Clean [] r w (after_complete store run now r a)
  after_complete-Clean r w (some e, v) q b z h = absurd (omega arith)
  after_complete-Clean r w (none, v) q b z h = (b, finished q)

  finish_if-Clean :
      (t : Bool) (r : RunResult) (w : W)
      → (r.blocked == 0) ≡ t
      → Clean [] r w (finish_if store run now t r w)
  finish_if-Clean true r w e z h =
      after_complete-Clean r w (store.complete_run run.id now w) refl ((==_iff r.blocked 0).0 e) z h
  finish_if-Clean false r w e z h = absurd (omega arith)

  after_commit-Clean :
      (ts : List Target) (rest : RunResult → W → Outcome W)
      → ((r : RunResult) (w : W) → Clean ts r w (rest r w))
      → (r : RunResult) (c : MismatchCommit) (a : Option StoreError × W) → r.completed_runs ≡ 0
      → (after_commit store run now rest r c a).result.completed_runs ≢ 1
  after_commit-Clean ts rest ih r c (some e, w) z h = omega arith
  after_commit-Clean ts rest ih r c (none, w) z h =
      let (b, _) = ih (record r { blocked = r.blocked + 1 }) w z h in absurd (omega arith)

  commit-Clean :
      (ts : List Target) (rest : RunResult → W → Outcome W)
      → ((r : RunResult) (w : W) → Clean ts r w (rest r w))
      → (r : RunResult) (o : Observation) (d : Decision) (e : Option Evidence) (w : W)
      → r.completed_runs ≡ 0
      → (commit store run now rest r o d e w).result.completed_runs ≢ 1
  commit-Clean ts rest ih r o d none w z h = omega arith
  commit-Clean ts rest ih r o d (some e) w z h =
      after_commit-Clean ts rest ih r _ (store.commit_mismatch (commit_of store run now o d e) w) z
        h

  judge-Clean :
      (t : Target) (ts : List Target) (rest : RunResult → W → Outcome W)
      → ((r : RunResult) (w : W) → Clean ts r w (rest r w))
      → (r : RunResult) (o : Observation) (d : Decision) (b : Bool) (w u : W)
      → store.observe_target t w ≡ (ok o, u)
      → decide_observation_for_target t o ≡ d
      → is_mismatch d.result ≡ b
      → Clean (t ∷ ts) r w (prepend (observed t o) (judge store run now rest r o d b u))
  judge-Clean t ts rest ih r o d false w u q e m z h =
      let (b, c) = ih r u z h in
      (
        b,
        matched q ((decide_observation_for_target_iff t o).0 (ap (λ x. is_mismatch x.result) e ∙ m))
            c,
      )
  judge-Clean t ts rest ih r o d true w u q e m z h =
      absurd (commit-Clean ts rest ih r o d (redacted_evidence o) u z h)

  after_observe-Clean :
      (t : Target) (ts : List Target) (rest : RunResult → W → Outcome W)
      → ((r : RunResult) (w : W) → Clean ts r w (rest r w))
      → (r : RunResult) (w : W) (a : Result StoreError Observation × W)
      → store.observe_target t w ≡ a
      → Clean (t ∷ ts) r w (after_observe store run now rest t r a)
  after_observe-Clean t ts rest ih r w (err e, u) q z h = absurd (omega arith)
  after_observe-Clean t ts rest ih r w (ok o, u) q z h =
      judge-Clean t ts rest ih r o (decide_observation_for_target t o) _ w u q refl refl z h

  scan_targets-Clean :
      (ts : List Target) (r : RunResult) (w : W) → Clean ts r w (scan_targets store run now ts r w)
  unfolding scan_targets
  scan_targets-Clean [] r w z h = finish_if-Clean (r.blocked == 0) r w refl z h
  scan_targets-Clean (t ∷ ts) r w z h =
      after_observe-Clean t ts (scan_targets store run now ts) (scan_targets-Clean ts) r w
        (store.observe_target t w) refl z h

-- What a reported completion rests on: the active run was being reconciled and had targets, and what
-- was done after they were listed, up to the last state of the store, is a clean run over all of
-- them.
pub record IsCompletion {W : Type 0} (store : Store W) (now : Time) (w : W) (o : Outcome W)
    : Type 0 where
  pub run : Run
  pub targets : List Target
  pub asked : W
  pub listed_at : W
  pub active : store.active_run w ≡ (ok run, asked)
  pub mode : run.mode ≡ reconciling
  pub listed : store.list_targets run.id asked ≡ (ok targets, listed_at)
  pub some_target : targets ≢ []
  pub clean_run : IsCleanRun store run now targets listed_at o.log o.world

is_reconciling-eq : (m : Mode) → is_reconciling m ≡ true → m ≡ reconciling
is_reconciling-eq reconciling h = refl
is_reconciling-eq blocked_operator_intervention h = cc
is_reconciling-eq completed h = cc
is_reconciling-eq (other_mode s) h = cc

module _ {W : Type 0} (store : Store W) (now : Time) where
  after_list-IsCompletion :
      (w w1 : W) (run : Run) (a : Result StoreError (List Target) × W)
      → store.active_run w ≡ (ok run, w1)
      → run.mode ≡ reconciling
      → store.list_targets run.id w1 ≡ a
      → (after_list store run now a).result.completed_runs ≡ 1
      → IsCompletion store now w (after_list store run now a)
  after_list-IsCompletion w w1 run (err e, v) p m q h = absurd (omega arith)
  after_list-IsCompletion w w1 run (ok [], v) p m q h = absurd (omega arith)
  after_list-IsCompletion w w1 run (ok (t ∷ ts), v) p m q h =
      let (_, clean) =
        scan_targets-Clean store run now (t ∷ ts) (record no_result { scanned = length (t ∷ ts) }) v
          refl h in
      record {
        run = run;
        targets = t ∷ ts;
        asked = w1;
        listed_at = v;
        active = p;
        mode = m;
        listed = q;
        some_target = λ e. cc;
        clean_run = clean;
      }

  started-IsCompletion :
      (w : W) (run : Run) (w1 : W) (m b : Bool)
      → store.active_run w ≡ (ok run, w1)
      → is_reconciling run.mode ≡ m
      → (started store run now m b w1).result.completed_runs ≡ 1
      → IsCompletion store now w (started store run now m b w1)
  started-IsCompletion w run w1 false true e m h = absurd (omega arith)
  started-IsCompletion w run w1 false false e m h = absurd (omega arith)
  started-IsCompletion w run w1 true b e m h =
      after_list-IsCompletion w w1 run (store.list_targets run.id w1) e
        (is_reconciling-eq run.mode m) refl h

  after_active-IsCompletion :
      (w : W) (a : Result StoreError Run × W)
      → store.active_run w ≡ a
      → (after_active store now a).result.completed_runs ≡ 1
      → IsCompletion store now w (after_active store now a)
  after_active-IsCompletion w (err no_rows, w1) e h = absurd (omega arith)
  after_active-IsCompletion w (err observation_missing, w1) e h = absurd (omega arith)
  after_active-IsCompletion w (err (other_error s), w1) e h = absurd (omega arith)
  after_active-IsCompletion w (ok run, w1) e h =
      started-IsCompletion w run w1 (is_reconciling run.mode) (is_blocked run.mode) e refl h

-- Whatever the store answers: a run reports a completion only if the active run was being
-- reconciled and had a target, the store answered the observation of each of its targets, in order,
-- with a match, and then accepted the completion of the run, which was the last call.
pub run_once-IsCompletion :
    {W : Type 0} (store : Store W) (now : Time) (w : W)
    → (run_once true (some store) now w).result.completed_runs ≡ 1
    → IsCompletion store now w (run_once true (some store) now w)
unfolding run_once
run_once-IsCompletion store now w h =
    after_active-IsCompletion store now w (store.active_run w) refl h
