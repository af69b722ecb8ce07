-- ===== src/ExportReconcile/Account.antt =====
-- The counts of a round (internal/exportreconcile/reconcile.go).
use agentsmith_fs_control_pl.Clock.{Time}
use agentsmith_fs_control_pl.ExportReconcile.{
  started, stop, hash_failed, reconcile_failed, count_skipped, count_reused, count_race_lost,
  count_terminalized, Config, ExportReconcileResult, Outcome, ReconcileError, Store, StoreError,
  after_list, after_reconcile, after_recovery, decision_time, fail, limit_of, no_rows, other_error,
  reconcile_exports, scan_sessions, submit, target_status, visit,
}
use agentsmith_fs_control_pl.ExportRuntime.{StoredSession}
use agentsmith_fs_control_pl.ExportRuntime.Steps.{TerminalRequest}
use agentsmith_fs_control_pl.Operations.Value.{Members}
use agentsmith_fs_control_pl.Prelude.{
  Bool, Bool-cases, List, Option, Option-cases, Result, [], arith, err, false, if◌then◌else◌, inl,
  inr, is_some, leb, length, ltb, none, ok, refl, some, subst, sym, true, ℕ, ◌+◌, ◌-◌, ◌<◌, ◌∙◌,
  ◌∷◌, ◌≡◌, ◌≤◌, ◌⊎◌, suc,
}
use agentsmith_fs_control_pl.SessionState.Sessions.{ExportStatus}
use agentsmith_fs_control_pl.Text.{Text, is_blank, trim_space}

abbrev pub counted : ExportReconcileResult → ℕ
counted r = r.terminalized + r.reused_count + r.skipped + r.race_lost

abbrev pub bounded : ℕ → ℕ → ℕ
bounded n most = if ltb most n then most else n

-- The end of a loop with `n` sessions before it and room for `most`, from the counts before it.
abbrev Kept : {W : Type 0} → ℕ → ℕ → ExportReconcileResult → Outcome W → Type 0
Kept n most r o =
    (o.result.scanned ≡ r.scanned)
    × (((o.error ≡ none)
          × (o.result.failed_count ≡ r.failed_count)
          × (counted o.result ≡ counted r + bounded n most))
        ⊎ ((is_some o.error ≡ true)
            × (o.result.failed_count ≡ r.failed_count + 1)
            × (counted o.result < counted r + bounded n most)))

-- One session was counted, and the rest followed.
counted-Kept :
    {W : Type 0} (n most : ℕ) (r after : ExportReconcileResult) (o : Outcome W)
    → counted after ≡ counted r + 1
    → after.scanned ≡ r.scanned
    → after.failed_count ≡ r.failed_count
    → 0 < most
    → Kept n (most - 1) after o
    → Kept (suc n) most r o
counted-Kept n most r after o c s f room (same, inl (e, a, b)) =
    (same ∙ s, inl (e, a ∙ f, ground arith))
counted-Kept n most r after o c s f room (same, inr (e, a, b)) =
    (same ∙ s, inr (e, ground arith, ground arith))

failed-Kept :
    {W : Type 0} (n most : ℕ) (r : ExportReconcileResult) (e : ReconcileError) (w : W)
    → 0 < most
    → Kept (suc n) most r (fail r e w)
failed-Kept n most r e w room = (refl, inr (refl, refl, ground arith))

module _ {W : Type 0} (stable_id : Text → Text → Text) (hash_request : Members → Result Text Text)
    (store : Store W) (owner : Text) (limit : ℕ) (now : Time) where
  module _ (n most : ℕ) (room : 0 < most) (rest : ExportReconcileResult → W → Outcome W)
      (goes : (r : ExportReconcileResult) (w : W) → Kept n (most - 1) r (rest r w)) where
    one-Kept :
        (r after : ExportReconcileResult) (w : W)
        → counted after ≡ counted r + 1
        → after.scanned ≡ r.scanned
        → after.failed_count ≡ r.failed_count
        → Kept (suc n) most r (rest after w)
    one-Kept r after w c s f = counted-Kept n most r after (rest after w) c s f room (goes after w)

    answer-Kept :
        (r : ExportReconcileResult) (q : TerminalRequest) (a : Result StoreError Bool × W)
        → Kept
            (suc n)
            most
            r
            (after_reconcile stable_id hash_request store owner limit now rest r q a)
    answer-Kept r q (err no_rows, w) = one-Kept r (count_race_lost r) w (omega arith) refl refl
    answer-Kept r q (err (other_error e), w) =
        failed-Kept n most r (reconcile_failed q.export_id e) w room
    answer-Kept r q (ok true, w) = one-Kept r (count_reused r) w (omega arith) refl refl
    answer-Kept r q (ok false, w) = one-Kept r (count_terminalized r) w (omega arith) refl refl

    submit-Kept :
        (r : ExportReconcileResult) (s : StoredSession) (q : TerminalRequest)
        (hash : Result Text Text) (w : W)
        → Kept
            (suc n)
            most
            r
            (submit stable_id hash_request store owner limit now rest r s q hash w)
    submit-Kept r s q (err e) w = failed-Kept n most r (hash_failed e) w room
    submit-Kept r s q (ok hash) w = answer-Kept r q _

    visit-Kept :
        (r : ExportReconcileResult) (s : StoredSession) (t : Option (ExportStatus × Text)) (w : W)
        → Kept (suc n) most r (visit stable_id hash_request store owner limit now rest r s t w)
    visit-Kept r s none w = one-Kept r (count_skipped r) w (omega arith) refl refl
    visit-Kept r s (some (target, reason)) w = submit-Kept r s _ _ w

  scan-step :
      (s : StoredSession) (ss : List StoredSession) (idx : ℕ) (r : ExportReconcileResult) (w : W)
      → scan_sessions stable_id hash_request store owner limit now (s ∷ ss) idx r w ≡ (
          if leb limit idx
          then stop r none w
          else visit stable_id hash_request store owner limit now
              (scan_sessions stable_id hash_request store owner limit now ss (idx + 1))
              r
              s
              (target_status s now)
              w)
  unfolding scan_sessions
  scan-step s ss idx r w = refl

  scan-end :
      (idx : ℕ) (r : ExportReconcileResult) (w : W)
      → scan_sessions stable_id hash_request store owner limit now [] idx r w ≡ stop r none w
  unfolding scan_sessions
  scan-end idx r w = refl

  scan_sessions-Kept :
      (ss : List StoredSession) (idx : ℕ) (r : ExportReconcileResult) (w : W)
      → Kept
          (length ss)
          (limit - idx)
          r
          (scan_sessions stable_id hash_request store owner limit now ss idx r w)
  scan_sessions-Kept [] idx r w = rw (scan-end idx r w) (refl, inl (refl, refl, ground arith))
  scan_sessions-Kept (s ∷ ss) idx r w = elim (Bool-cases (leb limit idx)) [
    | inl y ↦ rw (scan-step s ss idx r w, y) (refl, inl (refl, refl, ground arith))
    | inr n ↦
        let fewer : (limit - idx) - 1 ≡ limit - (idx + 1) = omega arith in
        rw (scan-step s ss idx r w, n)
          (visit-Kept (length ss) (limit - idx) (ground arith)
            (scan_sessions stable_id hash_request store owner limit now ss (idx + 1))
            (λ q v.
              subst
                (λ m.
                  Kept (length ss) m q
                    (scan_sessions stable_id hash_request store owner limit now ss (idx + 1) q v))
                (sym fewer) (scan_sessions-Kept ss (idx + 1) q v))
            r s (target_status s now) w)
  ]

-- The books of a round: without an error every scanned session was counted once and none failed;
-- with one, at most one failed, and no session was counted twice.
abbrev pub Accounts : {W : Type 0} → ℕ → Outcome W → Type 0
Accounts limit o =
    (o.result.scanned ≤ limit)
    × (((o.error ≡ none) × (o.result.failed_count ≡ 0) × (counted o.result ≡ o.result.scanned))
        ⊎ ((is_some o.error ≡ true)
            × (o.result.failed_count ≤ 1)
            × (counted o.result ≤ o.result.scanned)))

module _ {W : Type 0} (stable_id : Text → Text → Text) (hash_request : Members → Result Text Text)
    (store : Store W) (owner : Text) (limit : ℕ) (now : Time) where
  list-Accounts :
      (counts : ℕ × ℕ) (a : Result StoreError (List StoredSession) × W)
      → Accounts limit (after_list stable_id hash_request store owner limit now counts a)
  list-Accounts counts (err e, w) = (omega arith, inr (refl, omega arith, omega arith))
  list-Accounts (requests, writes) (ok ss, w) =
      let (same, h) =
        scan_sessions-Kept stable_id hash_request store owner limit now ss 0
          (started limit requests writes (length ss)) w in
      elim h [
        | inl (e, f, c) ↦ (ground arith, inl (e, f, ground arith))
        | inr (e, f, c) ↦ (ground arith, inr (e, ground arith, ground arith))
      ]

  recovery-Accounts :
      (a : Result StoreError (ℕ × ℕ) × W)
      → Accounts limit (after_recovery stable_id hash_request store owner limit now a)
  recovery-Accounts (err e, w) = (omega arith, inr (refl, omega arith, omega arith))
  recovery-Accounts (ok counts, w) = list-Accounts counts (store.list_sessions now limit w)

-- Whatever the store answers, the counts of a round are those of the sessions it scanned, at most as
-- many as its limit: without an error each is counted once as ended, reused, skipped or lost to
-- another worker and none failed; with an error at most one failed, and no session is counted twice.
pub reconcile_exports-Accounts :
    {W : Type 0} (stable_id : Text → Text → Text) (hash_request : Members → Result Text Text)
    (c : Config W) (w : W)
    → Accounts (limit_of c.limit) (reconcile_exports stable_id hash_request c w)
unfolding reconcile_exports
reconcile_exports-Accounts stable_id hash_request c w = elim (Option-cases c.store) [
  | inl n ↦ rw n (omega arith, inr (refl, omega arith, omega arith))
  | inr (store, e) ↦ rw e (elim (Bool-cases (is_blank c.owner)) [
    | inl y ↦ rw y (omega arith, inr (refl, omega arith, omega arith))
    | inr n ↦ rw n (
        recovery-Accounts stable_id hash_request store (trim_space c.owner) (limit_of c.limit)
          (decision_time c) (store.recover_requests (decision_time c) (limit_of c.limit) w))
  ])
]
