-- ===== src/Worker/Stages.antt =====
-- The stages of a round and their order (internal/worker/run_once.go).
use agentsmith_fs_control_pl.Prelude.{
  Bool, List, Option, [], false, if◌then◌else◌, is_some, ltb, none, not, some, true, ◌++◌, ◌||◌,
  ◌∷◌,
}
use agentsmith_fs_control_pl.Worker.{
  exports, mounts, restores, operations, stale_audit, delivery, Config, ErrorPart, Failure,
  Progress, Result, Runner, Stage, from_context, from_stage, initial, is_context_error,
}

-- `if runner != nil && evidenceErrCount == 0`
abbrev pub without_errors : {A : Type 0} → List ErrorPart → Option A → Option A
without_errors [] runner = runner
without_errors (e ∷ es) runner = none

module _ {W : Type 0} where
  abbrev pub halt : ErrorPart → Progress W → Progress W
  halt e p = record p { errors = p.errors ++ e ∷ []; stopped = true }

  -- `if ctx.Err() != nil { errs = append(errs, ctx.Err()); return }`
  abbrev pub heed : Option Failure → Progress W → Progress W
  heed none p = p
  heed (some e) p = halt (from_context e) p

  -- After a runner: `strict` says that any error of it ends the round.
  abbrev pub after_runner :
      (W → Option Failure) → Stage → Bool → Option Failure → Progress W → Progress W
  after_runner context stage strict none p = heed (context p.world) p
  after_runner context stage strict (some e) p =
      if strict || is_context_error e
      then halt (from_stage stage e) p
      else heed (context p.world) (record p { errors = p.errors ++ from_stage stage e ∷ [] })

  abbrev pub call :
      {R : Type 0}
      → (W → Option Failure)
      → Stage
      → Bool
      → (R → Result → Result)
      → R × Option Failure × W
      → Progress W
      → Progress W
  call context stage strict save (r, e, w) p =
      after_runner context stage strict e
        (record p { result = save r p.result; called = p.called ++ stage ∷ []; world = w })

  abbrev pub enter :
      {R : Type 0}
      → (W → Option Failure)
      → Stage
      → Bool
      → (R → Result → Result)
      → Runner W R
      → Option Failure
      → Progress W
      → Progress W
  enter context stage strict save runner (some e) p = halt (from_context e) p
  enter context stage strict save runner none p = call context stage strict save (runner p.world) p

  abbrev pub unless_stopped :
      {R : Type 0}
      → (W → Option Failure)
      → Stage
      → Bool
      → (R → Result → Result)
      → Option (Runner W R)
      → Bool
      → Progress W
      → Progress W
  unless_stopped context stage strict save runner true p = p
  unless_stopped context stage strict save none false p = p
  unless_stopped context stage strict save (some runner) false p =
      enter context stage strict save runner (context p.world) p

  -- The block of a runner that may be nil.
  unfoldable pub run_stage :
      {R : Type 0}
      → (W → Option Failure)
      → Stage
      → Bool
      → (R → Result → Result)
      → Option (Runner W R)
      → Progress W
      → Progress W
  run_stage context stage strict save runner p =
      unless_stopped context stage strict save runner p.stopped p

  -- The return that follows a restore reconciliation with a blocked or failed run; without a runner
  -- the counts are 0.
  unfoldable pub evidence_gate : Progress W → Progress W
  evidence_gate p =
      if ltb 0 p.result.restore_reconciliation.blocked
        || ltb 0 p.result.restore_reconciliation.failed_count
      then record p { stopped = true }
      else p

module _ {W : Type 0} (c : Config W) where
  unfoldable pub gather_evidence : Progress W → Progress W
  gather_evidence p = evidence_gate (
      run_stage c.context restores false (λ r t. record t { restore_reconciliation = r })
        c.restore_reconciliation
        (run_stage c.context mounts false (λ r t. record t { workload_mount_stale = r })
          c.workload_mount_stale
          (run_stage c.context exports false (λ r t. record t { export_session_reconcile = r })
            c.export_session_reconcile p)))

  unfoldable pub recover_operations : Progress W → Progress W
  recover_operations p =
      run_stage c.context operations false (λ r t. record t { operation_recovery = r })
        (without_errors p.errors c.operation_recovery) p

  unfoldable pub deliver_audit : Progress W → Progress W
  deliver_audit p =
      run_stage c.context delivery false (λ r t. record t { audit_delivery = r }) c.audit_delivery
        (run_stage c.context stale_audit true (λ r t. record t { audit_stale_recovery = r })
          c.audit_stale_recovery p)

  abbrev pub has_runner : Bool
  has_runner =
      is_some c.export_session_reconcile
      || is_some c.operation_recovery
      || is_some c.workload_mount_stale
      || is_some c.restore_reconciliation
      || is_some c.audit_stale_recovery
      || is_some c.audit_delivery

  -- `RunOnce`; `none` is the error that no runner is configured.
  unfoldable pub run_round : W → Option (Progress W)
  run_round w =
      if not has_runner
      then none
      else some (deliver_audit (recover_operations (gather_evidence (initial w))))
