-- ===== src/Recovery/Account.antt =====
-- The counts of a round (internal/recovery/operation.go).
use agentsmith_fs_control_pl.Clock.{Time}
use agentsmith_fs_control_pl.ExportReconcile.Account.{bounded}
use agentsmith_fs_control_pl.Inspection.{
  RecoveryAction, RecoveryPlan, claimable, retry, reclaim, finalize_cancellation, noop, wait,
  recover, deliver, manual_intervention,
}
use agentsmith_fs_control_pl.Operations.Record.{OperationRecord}
use agentsmith_fs_control_pl.Prelude.{
  Bool, Bool-cases, Option, Result, arith, err, false, inl, inr, is_some, length, none, ok, refl,
  some, suc, true, ℕ, ◌+◌, ◌-◌, ◌<◌, ◌∙◌, ◌∷◌, ◌≡◌, ◌⊎◌,
}
use agentsmith_fs_control_pl.Recovery.{
  Batch, Config, Counts, Execution, ExecuteError, Machine, OperationOutcome, RecoveryError,
  StoreError, claimed_outcome, count, failed_outcome, fatal, finalized_outcome, item,
  lease_unavailable, manual_committed, manual_outcome, other_error, other_failure,
  race_lost_outcome, reclaimed_outcome, skipped_outcome, unsupported_outcome, acquire_failed,
  commit_failed, execute_failed, renew_failed,
}
use agentsmith_fs_control_pl.Recovery.Steps.{
  acquire_error, after_commit, after_execution, after_renewal, commit_with, execute_with,
  finalize_with, follow, take_up,
}
use agentsmith_fs_control_pl.RestoreReconcile.{same}
use agentsmith_fs_control_pl.Text.{Text}

abbrev pub counted : Counts → ℕ
counted r =
    r.claimed + r.reclaimed + r.finalized + r.skipped + r.manual_count + r.unsupported + r.race_lost

abbrev is_failed : OperationOutcome → Bool
is_failed failed_outcome = true
is_failed o = false

-- The end of a loop with `n` operations before it and room for `most`, from the counts before it.
abbrev pub Kept : {W : Type 0} → ℕ → ℕ → Counts → Batch W → Type 0
Kept n most r o =
    (o.counts.scanned ≡ r.scanned)
    × (counted r + r.failed_count + length o.outcomes ≡ counted o.counts + o.counts.failed_count)
    × (((o.error ≡ none)
          × (o.counts.failed_count ≡ r.failed_count)
          × (counted o.counts ≡ counted r + bounded n most))
        ⊎ ((is_some o.error ≡ true)
            × (o.counts.failed_count ≡ r.failed_count + 1)
            × (counted o.counts < counted r + bounded n most)))

count-once :
    (o : OperationOutcome) (r : Counts)
    → is_failed o ≡ false
    → (counted (count o r) ≡ counted r + 1)
      × ((count o r).failed_count ≡ r.failed_count)
      × ((count o r).scanned ≡ r.scanned)
count-once claimed_outcome r h = (omega arith, refl, refl)
count-once reclaimed_outcome r h = (omega arith, refl, refl)
count-once finalized_outcome r h = (omega arith, refl, refl)
count-once skipped_outcome r h = (omega arith, refl, refl)
count-once manual_outcome r h = (omega arith, refl, refl)
count-once unsupported_outcome r h = (omega arith, refl, refl)
count-once race_lost_outcome r h = (omega arith, refl, refl)
count-once failed_outcome r h = cc

-- One operation was counted, and the rest followed.
counted-Kept :
    {W : Type 0} (n most : ℕ) (x : OperationRecord) (outcome : OperationOutcome) (r after : Counts)
    (o : Batch W)
    → (counted after ≡ counted r + 1)
      × (after.failed_count ≡ r.failed_count)
      × (after.scanned ≡ r.scanned)
    → 0 < most
    → Kept n (most - 1) after o
    → Kept (suc n) most r (record o { outcomes = (x, outcome) ∷ o.outcomes })
counted-Kept n most x outcome r after o (c, f, s) room (same, sum, inl (e, a, b)) =
    (same ∙ s, omega arith, inl (e, a ∙ f, ground arith))
counted-Kept n most x outcome r after o (c, f, s) room (same, sum, inr (e, a, b)) =
    (same ∙ s, omega arith, inr (e, ground arith, ground arith))

module _ {W : Type 0} (n most : ℕ) (room : 0 < most) (rest : Counts → W → Batch W)
    (goes : (r : Counts) (w : W) → Kept n (most - 1) r (rest r w)) where
  item-Kept :
      (x : OperationRecord) (outcome : OperationOutcome) (r : Counts) (w : W)
      → is_failed outcome ≡ false
      → Kept (suc n) most r (item x outcome rest r w)
  item-Kept x outcome r w h =
      counted-Kept n most x outcome r (count outcome r) (rest (count outcome r) w)
        (count-once outcome r h) room (goes (count outcome r) w)

  fatal-Kept :
      (x : OperationRecord) (e : RecoveryError) (r : Counts) (w : W)
      → Kept (suc n) most r (fatal x e r w)
  fatal-Kept x e r w = (refl, omega arith, inr (refl, refl, ground arith))

  module _ (machine : Machine W) (c : Config) (owner : Text) (limit : ℕ) (now : Time) where
    acquire_error-Kept :
        (x : OperationRecord) (e : StoreError) (r : Counts) (w : W)
        → Kept (suc n) most r (acquire_error machine c owner limit now rest x e r w)
    acquire_error-Kept x lease_unavailable r w = item-Kept x race_lost_outcome r w refl
    acquire_error-Kept x (other_error e) r w = fatal-Kept x (acquire_failed x) r w

    after_commit-Kept :
        (x : OperationRecord) (r : Counts) (a : Option StoreError × W)
        → Kept (suc n) most r (after_commit machine c owner limit now rest x r a)
    after_commit-Kept x r (none, w) = item-Kept x unsupported_outcome r w refl
    after_commit-Kept x r (some lease_unavailable, w) = item-Kept x race_lost_outcome r w refl
    after_commit-Kept x r (some (other_error e), w) = fatal-Kept x (commit_failed x) r w

    commit_with-Kept :
        (x : OperationRecord) (p : RecoveryPlan) (r : Counts)
        (a : Result StoreError OperationRecord × W)
        → Kept (suc n) most r (commit_with machine c owner limit now rest x p r a)
    commit_with-Kept x p r (err e, w) = acquire_error-Kept x e r w
    commit_with-Kept x p r (ok leased, w) =
        after_commit-Kept x r (machine.commit_unsupported leased p w)

    after_execution-Kept :
        (x : OperationRecord) (outcome : OperationOutcome) (r : Counts) (e : Option ExecuteError)
        (w : W)
        → is_failed outcome ≡ false
        → Kept (suc n) most r (after_execution machine c owner limit now rest x outcome r e w)
    after_execution-Kept x outcome r none w h = item-Kept x outcome r w h
    after_execution-Kept x outcome r (some manual_committed) w h =
        item-Kept x manual_outcome r w refl
    after_execution-Kept x outcome r (some (other_failure e)) w h =
        fatal-Kept x (execute_failed x) r w

    after_renewal-Kept :
        (x : OperationRecord) (outcome : OperationOutcome) (r : Counts) (a : Execution)
        (e : Option Text) (w : W)
        → is_failed outcome ≡ false
        → Kept (suc n) most r (after_renewal machine c owner limit now rest x outcome r a e w)
    after_renewal-Kept x outcome r a none w h = after_execution-Kept x outcome r a.execute_error w h
    after_renewal-Kept x outcome r a (some e) w h = elim (Bool-cases a.outcome_visible) [
      | inl y ↦ rw y (after_execution-Kept x outcome r a.execute_error w h)
      | inr n ↦ rw n (fatal-Kept x (renew_failed x) r w)
    ]

    execute_with-Kept :
        (x : OperationRecord) (p : RecoveryPlan) (outcome : OperationOutcome) (r : Counts)
        (a : Result StoreError OperationRecord × W)
        → is_failed outcome ≡ false
        → Kept (suc n) most r (execute_with machine c owner limit now rest x p outcome r a)
    execute_with-Kept x p outcome r (err e, w) h = acquire_error-Kept x e r w
    execute_with-Kept x p outcome r (ok leased, w) h =
        let a = machine.execute leased p w in
        after_renewal-Kept x outcome r a.0 a.0.renew_error a.1 h

    take_up-Kept :
        (x : OperationRecord) (p : RecoveryPlan) (outcome : OperationOutcome) (r : Counts) (w : W)
        → is_failed outcome ≡ false
        → Kept (suc n) most r (take_up machine c owner limit now rest x p outcome r w)
    take_up-Kept x p outcome r w h = elim (Bool-cases (machine.supports x p w)) [
      | inl y ↦ rw y (execute_with-Kept x p outcome r _ h)
      | inr n ↦ rw n (commit_with-Kept x p r _)
    ]

    finalize_with-Kept :
        (x : OperationRecord) (r : Counts) (a : Result StoreError OperationRecord × W)
        → Kept (suc n) most r (finalize_with machine c owner limit now rest x r a)
    finalize_with-Kept x r (err e, w) = acquire_error-Kept x e r w
    finalize_with-Kept x r (ok leased, w) = item-Kept x finalized_outcome r w refl

    pub follow-Kept :
        (x : OperationRecord) (p : RecoveryPlan) (a : RecoveryAction) (r : Counts) (w : W)
        → Kept (suc n) most r (follow machine c owner limit now rest x p a r w)
    follow-Kept x p claimable r w = take_up-Kept x p claimed_outcome r w refl
    follow-Kept x p retry r w = take_up-Kept x p claimed_outcome r w refl
    follow-Kept x p reclaim r w = take_up-Kept x p reclaimed_outcome r w refl
    follow-Kept x p finalize_cancellation r w = finalize_with-Kept x r _
    follow-Kept x p wait r w = item-Kept x skipped_outcome r w refl
    follow-Kept x p noop r w = item-Kept x skipped_outcome r w refl
    follow-Kept x p recover r w = item-Kept x manual_outcome r w refl
    follow-Kept x p deliver r w = item-Kept x manual_outcome r w refl
    follow-Kept x p manual_intervention r w = item-Kept x manual_outcome r w refl
