-- ===== src/SessionState.antt =====
-- internal/sessionstate/sessionstate.go: the gates that look at the sessions of a repository before
-- a restore or a lifecycle operation.
pub mod Sessions
pub mod Gate
pub mod Safety
pub mod Gravest
mod Tests
use agentsmith_fs_control_pl.Clock.{Time, after, is_zero, non_zero}
use agentsmith_fs_control_pl.Prelude.{
  Bool, List, Option, Result, [], check, err, false, if◌then◌else◌, is_some, is_zero_ℤ, ltb_ℤ, map,
  none, not, ok, pos, some, true, ℤ, ◌&&◌, ◌and_then◌, ◌then_check◌, ◌||◌, ◌∷◌,
}
use agentsmith_fs_control_pl.SessionState.Sessions.{
  BlockerClass, Decision, ExportSession, ExportStatus, GateKind, GateRequest, MountStatus,
  SessionError, SessionKind, WorkloadMountBinding, active_sessions_block_lifecycle,
  active_writer_sessions, allow, blocker_active, blocker_none, blocker_stale, deny, expired, export,
  export_terminal, failed, internal_error, is_read_write, is_revoking, lifecycle_drain,
  mount_terminal, no_kind, released, restore_writer, revoked, stale_sessions_block_lifecycle,
  stale_writer_session_uncertain, validate_export, validate_mount, validate_target, workload_mount,
}
use agentsmith_fs_control_pl.Text.{Text, is_blank, text_eq}

abbrev pub is_after : Option Time → Time → Bool
is_after none t = false
is_after (some e) t = after e t

unfoldable pub export_observation_stale : ExportSession → Time → Bool
export_observation_stale s now =
    not (is_some s.last_observed_at)
    || not (is_some s.gateway_heartbeat_expires_at)
    || not (is_after s.gateway_heartbeat_expires_at now)

unfoldable pub export_writer_drained : ExportSession → Time → Bool
export_writer_drained s now =
    if not (is_read_write s.mode)
      || not (is_zero_ℤ s.active_write_count)
      || not (non_zero s.write_drained_at)
    then false
    else if ltb_ℤ s.active_request_count (pos 0) || ltb_ℤ s.active_write_count (pos 0)
    then false
    else is_revoking s.status || not (after s.expires_at now)

unfoldable pub evidence_of : ExportStatus → ExportSession → Bool
evidence_of revoked s = true
evidence_of expired s = true
evidence_of failed s = not (is_blank s.status_reason)
evidence_of _ s = false

unfoldable pub export_has_terminal_evidence : ExportSession → Bool
export_has_terminal_evidence s =
    if not (non_zero s.terminal_observed_at) then false else evidence_of s.status s

abbrev pub is_restore : GateKind → Bool
is_restore restore_writer = true
is_restore lifecycle_drain = false

unfoldable pub export_blocker : GateKind → ExportSession → Time → BlockerClass
export_blocker k s now =
    if is_restore k && not (is_read_write s.mode)
    then blocker_none
    else if export_terminal s.status
    then (if not (export_has_terminal_evidence s) then blocker_stale else blocker_none)
    else if is_restore k && export_writer_drained s now
    then blocker_none
    else if export_observation_stale s now
    then blocker_stale
    else if not (is_restore k)
    then blocker_active
    else if after s.expires_at now
    then blocker_active
    else blocker_stale

unfoldable pub mount_evidence : GateKind → WorkloadMountBinding → Bool
mount_evidence restore_writer m =
    if non_zero m.confirmed_unmounted_at then true else elim m.status [
      | MountStatus.released ↦ non_zero m.unable_to_write_at
      | MountStatus.revoked ↦ non_zero m.unable_to_write_at
      | _ ↦ false
    ]
mount_evidence lifecycle_drain m = non_zero m.confirmed_unmounted_at

unfoldable pub mount_blocker : GateKind → WorkloadMountBinding → Time → BlockerClass
mount_blocker k m now =
    if is_restore k && m.read_only_mount
    then blocker_none
    else if mount_terminal m.status
    then (if mount_evidence k m then blocker_none else blocker_stale)
    else if after m.lease_expires_at now
    then blocker_active
    else blocker_stale

-- The variables of the loops of `evaluate`.
pub record Tally : Type 0 where
  pub active_found : Bool
  pub stale_found : Bool
  pub active_kind : SessionKind
  pub stale_kind : SessionKind

abbrev pub note : BlockerClass → SessionKind → Tally → Tally
note blocker_none k t = t
note blocker_active k t = record t { active_found = true; active_kind = k }
note blocker_stale k t = record t { stale_found = true; stale_kind = k }

abbrev pub invalid_state : Decision
invalid_state = deny internal_error no_kind

-- One round of a loop of `evaluate`: a session of another repository is passed over, an invalid one
-- or one of another namespace ends the evaluation.
abbrev pub visit :
    GateRequest
    → Text
    → Text
    → Option SessionError
    → BlockerClass
    → SessionKind
    → Tally
    → Result Decision Tally
visit q repo namespace e b k t =
    if not (text_eq repo q.repo_id)
    then ok t
    else if is_some e
    then err invalid_state
    else if not (text_eq namespace q.namespace_id)
    then err invalid_state
    else ok (note b k t)

unfoldable pub scan_exports :
    GateKind → GateRequest → List ExportSession → Tally → Result Decision Tally
scan_exports k q [] t = ok t
scan_exports k q (s ∷ ss) t =
    visit q s.repo_id s.namespace_id (validate_export s) (export_blocker k s q.now) export t
    and_then scan_exports k q ss

unfoldable pub scan_mounts :
    GateKind → GateRequest → List WorkloadMountBinding → Tally → Result Decision Tally
scan_mounts k q [] t = ok t
scan_mounts k q (m ∷ ms) t =
    visit q m.repo_id m.namespace_id (validate_mount m) (mount_blocker k m q.now) workload_mount t
    and_then scan_mounts k q ms

abbrev pub empty_tally : Tally
empty_tally = record {
  active_found = false;
  stale_found = false;
  active_kind = no_kind;
  stale_kind = no_kind;
}

-- What follows the loops.
unfoldable pub conclude : GateKind → Tally → Decision
conclude k t =
    if t.active_found
    then (if is_restore k
        then deny active_writer_sessions t.active_kind
        else deny active_sessions_block_lifecycle t.active_kind)
    else if t.stale_found
    then (if is_restore k
        then deny stale_writer_session_uncertain t.stale_kind
        else deny stale_sessions_block_lifecycle t.stale_kind)
    else allow

abbrev pub decide : GateKind → Result Decision Tally → Decision
decide k (ok t) = conclude k t
decide k (err d) = d

unfoldable pub evaluate : GateKind → GateRequest → Decision
evaluate k q =
    if is_some (validate_target q)
    then invalid_state
    else decide k (scan_exports k q q.export_sessions empty_tally and_then scan_mounts k q q.mounts)

unfoldable pub restore_writer_gate : GateRequest → Decision
restore_writer_gate q = evaluate restore_writer q

unfoldable pub lifecycle_drain_gate : GateRequest → Decision
lifecycle_drain_gate q = evaluate lifecycle_drain q
