-- ===== src/Recovery/Rounds.antt =====
-- The books of a whole round (internal/recovery/operation.go).
use agentsmith_fs_control_pl.Clock.{Time}
use agentsmith_fs_control_pl.ExportReconcile.Account.{bounded}
use agentsmith_fs_control_pl.Operations.Record.{OperationRecord}
use agentsmith_fs_control_pl.Prelude.{
  Bool-cases, List, Result, [], arith, err, if◌then◌else◌, inl, inr, is_some, leb, length, none, ok,
  refl, some, subst, sym, true, ℕ, ◌+◌, ◌-◌, ◌∷◌, ◌≡◌, ◌≤◌, ◌⊎◌, Option,
}
use agentsmith_fs_control_pl.Recovery.{
  Batch, Config, Counts, Machine, stop, no_counts, RecoveryError,
}
use agentsmith_fs_control_pl.Recovery.Account.{Kept, counted, follow-Kept}
use agentsmith_fs_control_pl.Recovery.Steps.{
  after_list, follow, plan_for, positive, recover_operations_once, scan_operations, validate_config,
  begin_round,
}
use agentsmith_fs_control_pl.Text.{Text, trim_space}

module _ {W : Type 0} (machine : Machine W) (c : Config) (owner : Text) (limit : ℕ)
    (now : Time) where
  pub scan-step :
      (x : OperationRecord) (xs : List OperationRecord) (idx : ℕ) (r : Counts) (w : W)
      → scan_operations machine c owner limit now (x ∷ xs) idx r w ≡ (
          if leb limit idx
          then stop r none w
          else follow machine c owner limit now
              (scan_operations machine c owner limit now xs (idx + 1))
              x
              (plan_for machine c owner limit now x)
              (plan_for machine c owner limit now x).action
              r
              w)
  unfolding scan_operations
  scan-step x xs idx r w = refl

  pub scan-end :
      (idx : ℕ) (r : Counts) (w : W)
      → scan_operations machine c owner limit now [] idx r w ≡ stop r none w
  unfolding scan_operations
  scan-end idx r w = refl

  scan_operations-Kept :
      (xs : List OperationRecord) (idx : ℕ) (r : Counts) (w : W)
      → Kept (length xs) (limit - idx) r (scan_operations machine c owner limit now xs idx r w)
  scan_operations-Kept [] idx r w =
      rw (scan-end idx r w) (refl, omega arith, inl (refl, refl, ground arith))
  scan_operations-Kept (x ∷ xs) idx r w = elim (Bool-cases (leb limit idx)) [
    | inl y ↦ rw (scan-step x xs idx r w, y) (refl, omega arith, inl (refl, refl, ground arith))
    | inr n ↦
        let fewer : (limit - idx) - 1 ≡ limit - (idx + 1) = omega arith in
        let rest = scan_operations machine c owner limit now xs (idx + 1) in
        rw (scan-step x xs idx r w, n)
          (follow-Kept (length xs) (limit - idx) (ground arith) rest
            (λ q v.
              subst (λ m. Kept (length xs) m q (rest q v)) (sym fewer)
                (scan_operations-Kept xs (idx + 1) q v))
            machine c owner limit now x (plan_for machine c owner limit now x)
            (plan_for machine c owner limit now x).action r w)
  ]

-- The books of a round: the results are as many as the counts say; without an error every scanned
-- operation has one and none failed; with one, at most one failed.
abbrev pub Accounts : {W : Type 0} → ℕ → Batch W → Type 0
Accounts limit o =
    (o.counts.scanned ≤ limit)
    × (length o.outcomes ≡ counted o.counts + o.counts.failed_count)
    × (((o.error ≡ none) × (o.counts.failed_count ≡ 0) × (counted o.counts ≡ o.counts.scanned))
        ⊎ ((is_some o.error ≡ true)
            × (o.counts.failed_count ≤ 1)
            × (counted o.counts ≤ o.counts.scanned)))

stopped-Accounts :
    {W : Type 0} (limit : ℕ) (e : RecoveryError) (w : W)
    → Accounts limit (stop no_counts (some e) w)
stopped-Accounts limit e w = (omega arith, refl, inr (refl, omega arith, omega arith))

list-Accounts :
    {W : Type 0} (machine : Machine W) (c : Config) (owner : Text) (limit : ℕ) (now : Time)
    (a : Result Text (List OperationRecord) × W)
    → Accounts limit (after_list machine c owner limit now a)
list-Accounts machine c owner limit now (err e, w) = stopped-Accounts limit _ w
list-Accounts machine c owner limit now (ok xs, w) =
    let (same, sum, h) =
      scan_operations-Kept machine c owner limit now xs 0
        (record no_counts { scanned = bounded (length xs) limit }) w in
    elim h [
      | inl (e, f, k) ↦ (ground arith, omega arith, inl (e, f, ground arith))
      | inr (e, f, k) ↦ (ground arith, omega arith, inr (e, ground arith, ground arith))
    ]

begin_round-Accounts :
    {W : Type 0} (machine : Machine W) (c : Config) (now : Time) (e : Option RecoveryError) (w : W)
    → Accounts (positive c.limit) (begin_round machine c now e w)
begin_round-Accounts machine c now (some e) w = stopped-Accounts (positive c.limit) e w
begin_round-Accounts machine c now none w =
    list-Accounts machine c (trim_space c.owner) (positive c.limit) now
      (machine.list_operations now (positive c.limit) w)

-- Whatever the stores and the executor answer, a round has one result for each operation it counted,
-- at most as many as its limit: without an error each scanned operation is counted once and none
-- failed; with an error at most one failed.
pub recover_operations_once-Accounts :
    {W : Type 0} (machine : Machine W) (c : Config) (w : W)
    → Accounts (positive c.limit) (recover_operations_once machine c w)
unfolding recover_operations_once
recover_operations_once-Accounts machine c w =
    begin_round-Accounts machine c (machine.decision_now w)
      (validate_config c (machine.decision_now w)) w
