-- ===== src/Worker/Complete.antt =====
-- A round without errors calls every runner (internal/worker/run_once.go).
use agentsmith_fs_control_pl.AuditDelivery.{BatchResult}
use agentsmith_fs_control_pl.ExportReconcile.{ExportReconcileResult}
use agentsmith_fs_control_pl.Prelude.{
  Bool, Option, [], ap, arith, false, none, refl, some, subst, sym, ◌++◌, ◌∙◌, ◌∷◌, ◌≡◌, true,
}
use agentsmith_fs_control_pl.RestoreReconcile.Loop.{RunResult}
use agentsmith_fs_control_pl.Worker.{
  exports, mounts, restores, Config, Failure, OperationBatchResult, Progress, Result, Runner, Stage,
  StaleRecoveryResult, delivery, initial, operations, stale_audit,
}
use agentsmith_fs_control_pl.Worker.Stages.{
  call, enter, evidence_gate, gather_evidence, run_stage, unless_stopped, deliver_audit,
  recover_operations, run_round, without_errors,
}
use agentsmith_fs_control_pl.WorkloadMount.StaleLease.{StaleLeaseResult}

-- A runner that never answers with an error.
abbrev pub IsSound : {W R : Type 0} → Runner W R → Type 0
IsSound {W} f = (w : W) → (f w).1 ≡ none

-- A stage that was run without an error.
abbrev HasRun :
    {W R : Type 0} → Stage → (R → Result → Result) → Runner W R → Progress W → Progress W → Type 0
HasRun stage save f p q =
    (q.stopped ≡ false)
    × (q.errors ≡ p.errors)
    × (q.called ≡ p.called ++ stage ∷ [])
    × (q.result ≡ save (f p.world).0 p.result)

module _ {W : Type 0} {R : Type 0} (context : W → Option Failure) (stage : Stage) (strict : Bool)
    (save : R → Result → Result) (quiet : (w : W) → context w ≡ none) where
  call-HasRun :
      (f : Runner W R) (a : R × Option Failure × W) (p : Progress W)
      → a.1 ≡ none
      → a.0 ≡ (f p.world).0
      → p.stopped ≡ false
      → HasRun stage save f p (call context stage strict save a p)
  call-HasRun f (r, some e, w) p n equal going = cc
  call-HasRun f (r, none, w) p n equal going =
      rw (quiet w) (going, refl, refl, ap (λ x. save x p.result) equal)

  run_stage-HasRun :
      (f : Runner W R) (p : Progress W)
      → IsSound f
      → p.stopped ≡ false
      → HasRun stage save f p (run_stage context stage strict save (some f) p)
  unfolding run_stage
  run_stage-HasRun f p sound going =
      subst (λ b. HasRun stage save f p (unless_stopped context stage strict save (some f) b p))
        (sym going)
        (subst (λ o. HasRun stage save f p (enter context stage strict save f o p))
          (sym (quiet p.world)) (call-HasRun f (f p.world) p (sound p.world) refl going))

gate_open :
    {W : Type 0} (p : Progress W)
    → p.result.restore_reconciliation.blocked ≡ 0
    → p.result.restore_reconciliation.failed_count ≡ 0
    → evidence_gate p ≡ p
unfolding evidence_gate
gate_open p b f = ground arith

-- The runners of a configuration in which every runner is there, sound, and finds the restore
-- reconciliation neither blocked nor failed, under a context that is never cancelled.
pub record IsHealthy {W : Type 0} (c : Config W) : Type 0 where
  pub quiet : (w : W) → c.context w ≡ none
  pub exports_runner : Runner W ExportReconcileResult
  pub exports_set : c.export_session_reconcile ≡ some exports_runner
  pub exports_sound : IsSound exports_runner
  pub mounts_runner : Runner W StaleLeaseResult
  pub mounts_set : c.workload_mount_stale ≡ some mounts_runner
  pub mounts_sound : IsSound mounts_runner
  pub restores_runner : Runner W RunResult
  pub restores_set : c.restore_reconciliation ≡ some restores_runner
  pub restores_sound : IsSound restores_runner
  pub never_blocked : (w : W) → (restores_runner w).0.blocked ≡ 0
  pub never_failed : (w : W) → (restores_runner w).0.failed_count ≡ 0
  pub operations_runner : Runner W OperationBatchResult
  pub operations_set : c.operation_recovery ≡ some operations_runner
  pub operations_sound : IsSound operations_runner
  pub stale_runner : Runner W StaleRecoveryResult
  pub stale_set : c.audit_stale_recovery ≡ some stale_runner
  pub stale_sound : IsSound stale_runner
  pub delivery_runner : Runner W BatchResult
  pub delivery_set : c.audit_delivery ≡ some delivery_runner
  pub delivery_sound : IsSound delivery_runner

module _ {W : Type 0} (c : Config W) (h : IsHealthy c) where
  gathered :
      (p : Progress W)
      → p.stopped ≡ false
      → ((gather_evidence c p).stopped ≡ false)
        × ((gather_evidence c p).errors ≡ p.errors)
        × ((gather_evidence c p).called
            ≡ ((p.called ++ exports ∷ []) ++ mounts ∷ []) ++ restores ∷ [])
  unfolding gather_evidence
  gathered p going =
      rw (h.exports_set, h.mounts_set, h.restores_set)
        (let save1 : ExportReconcileResult → Result → Result =
            λ r t. record t { export_session_reconcile = r } in
          let save2 : StaleLeaseResult → Result → Result =
            λ r t. record t { workload_mount_stale = r } in
          let save3 : RunResult → Result → Result =
            λ r t. record t { restore_reconciliation = r } in
          let p1 = run_stage c.context exports false save1 (some h.exports_runner) p in
          let p2 = run_stage c.context mounts false save2 (some h.mounts_runner) p1 in
          let p3 = run_stage c.context restores false save3 (some h.restores_runner) p2 in
          let (g1, e1, c1, _) =
            run_stage-HasRun c.context exports false save1 h.quiet h.exports_runner p
              h.exports_sound going in
          let (g2, e2, c2, _) =
            run_stage-HasRun c.context mounts false save2 h.quiet h.mounts_runner p1 h.mounts_sound
              g1 in
          let (g3, e3, c3, r3) =
            run_stage-HasRun c.context restores false save3 h.quiet h.restores_runner p2
              h.restores_sound g2 in
          let passed =
            gate_open p3 (ap (λ x. x.restore_reconciliation.blocked) r3 ∙ h.never_blocked p2.world)
              (ap (λ x. x.restore_reconciliation.failed_count) r3 ∙ h.never_failed p2.world) in
          (
            ap (λ x. x.stopped) passed ∙ g3,
            ap (λ x. x.errors) passed ∙ e3 ∙ e2 ∙ e1,
            ap (λ x. x.called) passed
                ∙ c3
                ∙ ap (λ l. l ++ restores ∷ []) (c2 ∙ ap (λ l. l ++ mounts ∷ []) c1),
          ))

  recovered :
      (p : Progress W)
      → p.stopped ≡ false
      → p.errors ≡ []
      → ((recover_operations c p).stopped ≡ false)
        × ((recover_operations c p).errors ≡ [])
        × ((recover_operations c p).called ≡ p.called ++ operations ∷ [])
  unfolding recover_operations
  recovered p going none_yet =
      let save : OperationBatchResult → Result → Result =
        λ r t. record t { operation_recovery = r } in
      let (g, e, called, _) =
        run_stage-HasRun c.context operations false save h.quiet h.operations_runner p
          h.operations_sound going in
      let runner : without_errors p.errors c.operation_recovery ≡ some h.operations_runner =
        ap (λ es. without_errors es c.operation_recovery) none_yet ∙ h.operations_set in
      rw runner (g, e ∙ none_yet, called)

  delivered_all :
      (p : Progress W)
      → p.stopped ≡ false
      → ((deliver_audit c p).errors ≡ p.errors)
        × ((deliver_audit c p).called ≡ (p.called ++ stale_audit ∷ []) ++ delivery ∷ [])
  unfolding deliver_audit
  delivered_all p going =
      rw (h.stale_set, h.delivery_set)
        (let save1 : StaleRecoveryResult → Result → Result =
            λ r t. record t { audit_stale_recovery = r } in
          let save2 : BatchResult → Result → Result = λ r t. record t { audit_delivery = r } in
          let p1 = run_stage c.context stale_audit true save1 (some h.stale_runner) p in
          let (g1, e1, c1, _) =
            run_stage-HasRun c.context stale_audit true save1 h.quiet h.stale_runner p h.stale_sound
              going in
          let (g2, e2, c2, _) =
            run_stage-HasRun c.context delivery false save2 h.quiet h.delivery_runner p1
              h.delivery_sound g1 in
          (e2 ∙ e1, c2 ∙ ap (λ l. l ++ delivery ∷ []) c1))

-- With every runner there and sound, no run of the restore reconciliation blocked or failed, and a
-- context that is never cancelled, a round calls all six runners in their order and reports no error.
pub run_round_complete :
    {W : Type 0} (c : Config W) (w : W)
    → IsHealthy c
    → (p : Progress W) × (run_round c w ≡ some p)
      × (p.called ≡ exports ∷ mounts ∷ restores ∷ operations ∷ stale_audit ∷ delivery ∷ [])
      × (p.errors ≡ [])
unfolding run_round
run_round_complete c w h =
    let q = gather_evidence c (initial w) in
    let r = recover_operations c q in
    let (g1, e1, c1) = gathered c h (initial w) refl in
    let (g2, e2, c2) = recovered c h q g1 e1 in
    let (e3, c3) = delivered_all c h r g2 in
    (
      deliver_audit c r,
      rw h.exports_set refl,
      c3
          ∙ ap (λ l. (l ++ stale_audit ∷ []) ++ delivery ∷ [])
              (c2 ∙ ap (λ l. l ++ operations ∷ []) c1),
      e3 ∙ e2,
    )
