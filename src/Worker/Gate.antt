-- ===== src/Worker/Gate.antt =====
-- Operations are recovered only on clean evidence (internal/worker/run_once.go).
use agentsmith_fs_control_pl.Prelude.{
  ap, sym, not, none, if◌then◌else◌, Bool, List, [], arith, false, refl, some, true, ◌∙◌, ◌∷◌, ◌≡◌,
}
use agentsmith_fs_control_pl.RestoreReconcile.Loop.{RunResult}
use agentsmith_fs_control_pl.Worker.{
  exports, mounts, restores, operations, stale_audit, delivery, Config, ErrorPart, Progress, Result,
  empty_result, initial,
}
use agentsmith_fs_control_pl.Worker.Kept.{
  Same, has_error, is_evidence_error, run_stage-Same, was_called,
}
use agentsmith_fs_control_pl.Worker.Stages.{
  deliver_audit, evidence_gate, gather_evidence, recover_operations, run_round, run_stage,
  unless_stopped, without_errors, has_runner,
}

abbrev nothing : ErrorPart → Bool
nothing e = false

abbrev blank_view : Result → RunResult
blank_view t = empty_result.restore_reconciliation

abbrev restore_view : Result → RunResult
restore_view t = t.restore_reconciliation

called_only_if :
    {W : Type 0} (c : Config W) (es : List ErrorPart) (b : Bool) (p : Progress W)
    → was_called operations p.called ≡ false
    → was_called operations
        (unless_stopped c.context operations false
          (λ r t. record t { operation_recovery = r })
          (without_errors es c.operation_recovery)
          b
          p).called
      ≡ true
    → (b ≡ false) × (es ≡ [])
called_only_if c es true p n h = cc
called_only_if c (e ∷ es) false p n h = cc
called_only_if c [] false p n h = (refl, refl)

module _ {W : Type 0} (c : Config W) where
  gate_called :
      (p : Progress W)
      → was_called operations (evidence_gate p).called ≡ was_called operations p.called
  unfolding evidence_gate
  gate_called p = ground arith

  -- The evidence is gathered without the recovery of operations.
  gather_evidence_called :
      (p : Progress W)
      → was_called operations (gather_evidence c p).called ≡ was_called operations p.called
  unfolding gather_evidence
  gather_evidence_called p =
      let p1 =
        run_stage c.context exports false (λ r t. record t { export_session_reconcile = r })
          c.export_session_reconcile p in
      let p2 =
        run_stage c.context mounts false (λ r t. record t { workload_mount_stale = r })
          c.workload_mount_stale p1 in
      let p3 =
        run_stage c.context restores false (λ r t. record t { restore_reconciliation = r })
          c.restore_reconciliation p2 in
      gate_called p3
      ∙ (run_stage-Same c.context restores false (λ r t. record t { restore_reconciliation = r })
          operations nothing blank_view refl (λ e. refl) (λ e. refl) (λ r t. refl)
          c.restore_reconciliation p2).0
      ∙ (run_stage-Same c.context mounts false (λ r t. record t { workload_mount_stale = r })
          operations nothing blank_view refl (λ e. refl) (λ e. refl) (λ r t. refl)
          c.workload_mount_stale p1).0
      ∙ (run_stage-Same c.context exports false (λ r t. record t { export_session_reconcile = r })
          operations nothing blank_view refl (λ e. refl) (λ e. refl) (λ r t. refl)
          c.export_session_reconcile p).0

  deliver_audit-Same :
      (p : Progress W) → Same operations is_evidence_error restore_view p (deliver_audit c p)
  unfolding deliver_audit
  deliver_audit-Same p =
      let p1 =
        run_stage c.context stale_audit true (λ r t. record t { audit_stale_recovery = r })
          c.audit_stale_recovery p in
      let (a, b, d) =
        run_stage-Same c.context delivery false (λ r t. record t { audit_delivery = r }) operations
          is_evidence_error restore_view refl (λ e. refl) (λ e. refl) (λ r t. refl) c.audit_delivery
          p1 in
      let (a', b', d') =
        run_stage-Same c.context stale_audit true (λ r t. record t { audit_stale_recovery = r })
          operations is_evidence_error restore_view refl (λ e. refl) (λ e. refl) (λ r t. refl)
          c.audit_stale_recovery p in
      (a ∙ a', b ∙ b', d ∙ d')

  -- The recovery of operations keeps the evidence: the stage called is another than any that gives
  -- evidence.
  recover_operations-Same :
      (p : Progress W) → Same delivery is_evidence_error restore_view p (recover_operations c p)
  unfolding recover_operations
  recover_operations-Same p =
      run_stage-Same c.context operations false (λ r t. record t { operation_recovery = r })
        delivery is_evidence_error restore_view refl (λ e. refl) (λ e. refl) (λ r t. refl)
        (without_errors p.errors c.operation_recovery) p

  -- If the recovery was called, the round went on without an error so far.
  recover_operations_called :
      (p : Progress W)
      → was_called operations p.called ≡ false
      → was_called operations (recover_operations c p).called ≡ true
      → (p.stopped ≡ false) × (p.errors ≡ [])
  unfolding recover_operations run_stage
  recover_operations_called p n h = called_only_if c p.errors p.stopped p n h

some_of : {A : Type 0} (b : Bool) (x p : A) → (if not b then none else some x) ≡ some p → x ≡ p
some_of b x p h = ground arith

-- A round that went on after the gate saw no blocked and no failed run.
module _ {W : Type 0} where
  gate_clean :
      (p : Progress W)
      → (evidence_gate p).stopped ≡ false
      → ((evidence_gate p).result.restore_reconciliation.blocked ≡ 0)
        × ((evidence_gate p).result.restore_reconciliation.failed_count ≡ 0)
  unfolding evidence_gate
  gate_clean p h = (ground arith, ground arith)

  gather_evidence_clean :
      (c : Config W) (p : Progress W)
      → (gather_evidence c p).stopped ≡ false
      → ((gather_evidence c p).result.restore_reconciliation.blocked ≡ 0)
        × ((gather_evidence c p).result.restore_reconciliation.failed_count ≡ 0)
  unfolding gather_evidence
  gather_evidence_clean c p h = gate_clean _ h

  pub run_round-eq :
      (c : Config W) (w : W) (p : Progress W)
      → run_round c w ≡ some p
      → deliver_audit c (recover_operations c (gather_evidence c (initial w))) ≡ p
  unfolding run_round
  run_round-eq c w p h = some_of (has_runner c) _ p h

-- If a round recovers operations, then no error of the export sessions, the workload mounts and the
-- restore reconciliation is reported, and the restore reconciliation left no run blocked or failed.
pub run_round_gate :
    {W : Type 0} (c : Config W) (w : W) (p : Progress W)
    → run_round c w ≡ some p
    → was_called operations p.called ≡ true
    → (has_error is_evidence_error p.errors ≡ false)
      × (p.result.restore_reconciliation.blocked ≡ 0)
      × (p.result.restore_reconciliation.failed_count ≡ 0)
run_round_gate c w p h called =
    let q = gather_evidence c (initial w) in
    let r = recover_operations c q in
    let eq = run_round-eq c w p h in
    let (calls, errors, view) = deliver_audit-Same c r in
    let (_, errors', view') = recover_operations-Same c q in
    let in_recovery : was_called operations r.called ≡ true =
      sym calls ∙ ap (λ x. was_called operations x.called) eq ∙ called in
    let (going, no_errors) =
      recover_operations_called c q (gather_evidence_called c (initial w)) in_recovery in
    let (blocked_none, failed_none) = gather_evidence_clean c (initial w) going in
    let same_view : p.result.restore_reconciliation ≡ q.result.restore_reconciliation =
      ap (λ x. x.result.restore_reconciliation) (sym eq) ∙ view ∙ view' in
    (
      ap (λ x. has_error is_evidence_error x.errors) (sym eq)
          ∙ errors
          ∙ errors'
          ∙ ap (has_error is_evidence_error) no_errors,
      ap (λ x. x.blocked) same_view ∙ blocked_none,
      ap (λ x. x.failed_count) same_view ∙ failed_none,
    )
