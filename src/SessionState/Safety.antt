-- ===== src/SessionState/Safety.antt =====
-- What an open gate guarantees, and which error a shut one gives
-- (internal/sessionstate/sessionstate.go).
use agentsmith_fs_control_pl.Clock.{Time, non_zero}
use agentsmith_fs_control_pl.Prelude.{All, arith, none, pos, true, ◌≡◌, ◌⊎◌, All-map}
use agentsmith_fs_control_pl.SessionState.{
  export_blocker, export_writer_drained, lifecycle_drain_gate, mount_blocker, mount_evidence,
  restore_writer_gate,
}
use agentsmith_fs_control_pl.SessionState.Gate.{evaluate-allowed_iff}
use agentsmith_fs_control_pl.SessionState.Sessions.{
  ExportSession, GateRequest, WorkloadMountBinding, blocker_none, lifecycle_drain, mount_terminal,
  read_write, restore_writer, validate_export,
}

export_blocker_stricter :
    (s : ExportSession) (now : Time)
    → export_blocker lifecycle_drain s now ≡ blocker_none
    → export_blocker restore_writer s now ≡ blocker_none
unfolding export_blocker
export_blocker_stricter s now h = ground arith

mount_blocker_stricter :
    (m : WorkloadMountBinding) (now : Time)
    → mount_blocker lifecycle_drain m now ≡ blocker_none
    → mount_blocker restore_writer m now ≡ blocker_none
unfolding mount_blocker mount_evidence
mount_blocker_stricter m now h = ground arith

-- The lifecycle gate is the stricter one: where it opens, the restore gate opens for the same
-- request.
pub lifecycle_drain_gate_stricter :
    (q : GateRequest)
    → (lifecycle_drain_gate q).allowed ≡ true
    → (restore_writer_gate q).allowed ≡ true
unfolding lifecycle_drain_gate restore_writer_gate
lifecycle_drain_gate_stricter q h =
    let o = (evaluate-allowed_iff lifecycle_drain q).0 h in
    (evaluate-allowed_iff restore_writer q).1 (record {
      target = o.target;
      exports =
          All-map (λ s c p. let (v, n, b) = c p in (v, n, export_blocker_stricter s q.now b))
            q.export_sessions o.exports;
      mounts =
          All-map (λ m c p. let (v, n, b) = c p in (v, n, mount_blocker_stricter m q.now b))
            q.mounts o.mounts;
    })

-- Nothing is being written through an export.
abbrev pub IsIdleWriter : GateRequest → ExportSession → Type 0
IsIdleWriter q s = s.repo_id ≡ q.repo_id → s.mode ≡ read_write → s.active_write_count ≡ pos 0

clear_is_idle :
    (s : ExportSession) (now : Time)
    → validate_export s ≡ none
    → export_blocker restore_writer s now ≡ blocker_none
    → s.mode ≡ read_write
    → s.active_write_count ≡ pos 0
unfolding validate_export export_blocker export_writer_drained
clear_is_idle s now v b m = ground arith

-- When the restore gate opens, no write is in flight through a read-write export of the repository.
pub restore_writer_gate-IsIdleWriter :
    (q : GateRequest)
    → (restore_writer_gate q).allowed ≡ true
    → All (IsIdleWriter q) q.export_sessions
unfolding restore_writer_gate
restore_writer_gate-IsIdleWriter q h =
    All-map (λ s c p m. let (v, _, b) = c p in clear_is_idle s q.now v b m) q.export_sessions
      ((evaluate-allowed_iff restore_writer q).0 h).exports

-- A mount that cannot write: it is read-only, or it has ended and was seen unmounted or unable to
-- write.
abbrev pub CannotWrite : GateRequest → WorkloadMountBinding → Type 0
CannotWrite q m =
    m.repo_id ≡ q.repo_id
    → (m.read_only_mount ≡ true)
      ⊎ ((mount_terminal m.status ≡ true)
          × ((non_zero m.confirmed_unmounted_at ≡ true) ⊎ (non_zero m.unable_to_write_at ≡ true)))

clear_cannot_write :
    (m : WorkloadMountBinding) (now : Time)
    → mount_blocker restore_writer m now ≡ blocker_none
    → (m.read_only_mount ≡ true)
      ⊎ ((mount_terminal m.status ≡ true)
          × ((non_zero m.confirmed_unmounted_at ≡ true) ⊎ (non_zero m.unable_to_write_at ≡ true)))
unfolding mount_blocker mount_evidence
clear_cannot_write m now b = ground arith

-- When the restore gate opens, every mount of the repository is read-only, or has ended with
-- evidence that it was unmounted or can no longer write.
pub restore_writer_gate-CannotWrite :
    (q : GateRequest) → (restore_writer_gate q).allowed ≡ true → All (CannotWrite q) q.mounts
unfolding restore_writer_gate
restore_writer_gate-CannotWrite q h =
    All-map (λ m c p. let (_, _, b) = c p in clear_cannot_write m q.now b) q.mounts
      ((evaluate-allowed_iff restore_writer q).0 h).mounts
