-- ===== src/RestoreReconcile/Completes.antt =====
-- A reconciling run over matching storage ends (internal/restorereconcile/reconcile.go).
use agentsmith_fs_control_pl.Clock.{Time}
use agentsmith_fs_control_pl.Prelude.{
  ==_iff, All, List, Option, [], ap, none, ok, refl, some, true, ◌∷◌, ◌≡◌,
}
use agentsmith_fs_control_pl.RestoreReconcile.{
  Observation, Run, Target, is_reconciling, reconciling,
}
use agentsmith_fs_control_pl.RestoreReconcile.Loop.{
  Outcome, RunResult, Store, StoreError, after_complete, run_once, scan_targets,
}
use agentsmith_fs_control_pl.RestoreReconcile.Runs.{IsCleanRun, finished, matched}
use agentsmith_fs_control_pl.RestoreReconcile.Verdicts.{IsMatch, decide_observation_for_target_iff}

-- In any state the store observes the target, and what it observes matches.
abbrev pub AnswersMatch : {W : Type 0} → Store W → Target → Type 0
AnswersMatch {W} store t =
    (v : W) → (o : Observation) × (v' : W) × (store.observe_target t v ≡ (ok o, v')) × IsMatch t o

module _ {W : Type 0} (store : Store W) (run : Run) (now : Time) where
  -- A loop completes the run, without an error.
  abbrev pub IsDone : List Target → W → Outcome W → Type 0
  IsDone ts w o =
      (o.result.completed_runs ≡ 1) × (o.error ≡ none) × IsCleanRun store run now ts w o.log o.world

  after_complete-IsDone :
      (r : RunResult) (w : W) (a : Option StoreError × W)
      → store.complete_run run.id now w ≡ a
      → a.0 ≡ none
      → IsDone [] w (after_complete store run now r a)
  after_complete-IsDone r w (some e, v) q h = cc
  after_complete-IsDone r w (none, v) q h = (refl, refl, finished q)

  scan_targets-IsDone :
      (ts : List Target) (r : RunResult) (w : W)
      → r.blocked ≡ 0
      → ((v : W) → (store.complete_run run.id now v).0 ≡ none)
      → All (AnswersMatch store) ts
      → IsDone ts w (scan_targets store run now ts r w)
  unfolding scan_targets
  scan_targets-IsDone [] r w b c m =
      rw ((==_iff r.blocked 0).1 b)
        (after_complete-IsDone r w (store.complete_run run.id now w) refl (c w))
  scan_targets-IsDone (t ∷ ts) r w b c (m, ms) =
      let (o, v, e, i) = m w in
      let clean = (decide_observation_for_target_iff t o).1 i in
      let (x, y, z) = scan_targets-IsDone ts r v b c ms in rw (e, clean) (x, y, matched e i z)

-- If the active run is being reconciled and has targets, the store observes a match for each of them
-- and accepts the completion, then the run completes without an error: it asks for each target in
-- order, and the completion that the store accepts is its last call.
pub run_once_completes :
    {W : Type 0} (store : Store W) (now : Time) (w w1 w2 : W) (run : Run) (t : Target)
    (ts : List Target)
    → store.active_run w ≡ (ok run, w1)
    → run.mode ≡ reconciling
    → store.list_targets run.id w1 ≡ (ok (t ∷ ts), w2)
    → ((v : W) → (store.complete_run run.id now v).0 ≡ none)
    → All (AnswersMatch store) (t ∷ ts)
    → IsDone store run now (t ∷ ts) w2 (run_once true (some store) now w)
unfolding run_once
run_once_completes store now w w1 w2 run t ts active mode listed c m =
    let going : is_reconciling run.mode ≡ true = ap is_reconciling mode in
    rw (active, going, listed) (scan_targets-IsDone store run now (t ∷ ts) _ w2 refl c m)
