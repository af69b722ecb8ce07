-- ===== src/SessionState/Sessions.antt =====
-- The sessions of a repository and the request to a gate (internal/sessionstate/sessionstate.go). A
-- string type of the source has a constructor for each of its constants and one for any other
-- string.
use mathlib.Core.Option
use agentsmith_fs_control_pl.Clock.{Time, is_zero}
use agentsmith_fs_control_pl.PathResolver.Id.{
  IdError, IdKind, export_id, mount_binding_id, validate_id,
}
use agentsmith_fs_control_pl.Prelude.{
  Bool, List, Option, check, false, is_zero_ℤ, ltb_ℤ, not, pos, true, ℤ, ◌&&◌, ◌then_check◌, ◌||◌,
}
use agentsmith_fs_control_pl.Text.{Text}

pub data AccessMode : Type 0 where
  read_only read_write : AccessMode
  other_mode : Text → AccessMode

abbrev pub mode_valid : AccessMode → Bool
mode_valid (other_mode s) = false
mode_valid _ = true

abbrev pub is_read_write : AccessMode → Bool
is_read_write read_write = true
is_read_write _ = false

pub data ExportStatus : Type 0 where
  active revoking revoked expired failed : ExportStatus
  other_status : Text → ExportStatus

abbrev pub export_status_valid : ExportStatus → Bool
export_status_valid (other_status s) = false
export_status_valid _ = true

abbrev pub export_terminal : ExportStatus → Bool
export_terminal revoked = true
export_terminal expired = true
export_terminal failed = true
export_terminal _ = false

abbrev pub is_revoking : ExportStatus → Bool
is_revoking revoking = true
is_revoking _ = false

pub data MountStatus : Type 0 where
  issued pending active releasing released revoked expired failed : MountStatus
  other_status : Text → MountStatus

abbrev pub mount_status_valid : MountStatus → Bool
mount_status_valid (MountStatus.other_status s) = false
mount_status_valid _ = true

abbrev pub mount_terminal : MountStatus → Bool
mount_terminal MountStatus.released = true
mount_terminal MountStatus.revoked = true
mount_terminal MountStatus.expired = true
mount_terminal MountStatus.failed = true
mount_terminal _ = false

pub data ErrorFamily : Type 0 where
  no_error internal_error active_writer_sessions stale_writer_session_uncertain : ErrorFamily
  active_sessions_block_lifecycle stale_sessions_block_lifecycle : ErrorFamily

pub data SessionError : Type 0 where
  bad_id : IdError → SessionError
  invalid_time invalid_session : SessionError

pub record ExportSession : Type 0 where
  pub id : Text
  pub namespace_id : Text
  pub repo_id : Text
  pub mode : AccessMode
  pub status : ExportStatus
  pub expires_at : Time
  pub active_request_count : ℤ
  pub active_write_count : ℤ
  pub last_observed_at : Option Time
  pub last_gateway_heartbeat_at : Option Time
  pub gateway_heartbeat_expires_at : Option Time
  pub write_drained_at : Option Time
  pub terminal_observed_at : Option Time
  pub status_reason : Text
  pub created_at : Time
  pub updated_at : Time

pub record WorkloadMountBinding : Type 0 where
  pub id : Text
  pub namespace_id : Text
  pub repo_id : Text
  pub read_only_mount : Bool
  pub status : MountStatus
  pub lease_expires_at : Time
  pub confirmed_unmounted_at : Option Time
  pub unable_to_write_at : Option Time
  pub terminal_observed_at : Option Time
  pub created_at : Time
  pub updated_at : Time

pub record GateRequest : Type 0 where
  pub namespace_id : Text
  pub repo_id : Text
  pub now : Time
  pub export_sessions : List ExportSession
  pub mounts : List WorkloadMountBinding

-- `blockingKind`, the kind of the session that blocks.
pub data SessionKind : Type 0 where
  no_kind export workload_mount : SessionKind

-- `Action` follows `Allowed` and `Reason` is a text for people: both are left out.
pub record Decision : Type 0 where
  pub allowed : Bool
  pub error_family : ErrorFamily
  pub blocking_kind : SessionKind

abbrev pub allow : Decision
allow = record { allowed = true; error_family = no_error; blocking_kind = no_kind }

abbrev pub deny : ErrorFamily → SessionKind → Decision
deny e k = record { allowed = false; error_family = e; blocking_kind = k }

pub data GateKind : Type 0 where
  restore_writer lifecycle_drain : GateKind

pub data BlockerClass : Type 0 where
  blocker_none blocker_active blocker_stale : BlockerClass

-- The error of `pathresolver.ValidateID`, as an error of this package.
abbrev pub id_check : IdKind → Text → Option SessionError
id_check k id = Option.map bad_id (validate_id k id)

unfoldable pub validate_target : GateRequest → Option SessionError
validate_target q =
    id_check IdKind.namespace_id q.namespace_id
    then_check id_check IdKind.repo_id q.repo_id
    then_check check (is_zero q.now) invalid_time

unfoldable pub validate_export : ExportSession → Option SessionError
validate_export s =
    id_check export_id s.id
    then_check id_check IdKind.namespace_id s.namespace_id
    then_check id_check IdKind.repo_id s.repo_id
    then_check check
        (not (mode_valid s.mode) || not (export_status_valid s.status) || is_zero s.expires_at)
        invalid_session
    then_check check
        (ltb_ℤ s.active_request_count (pos 0)
          || ltb_ℤ s.active_write_count (pos 0)
          || ltb_ℤ s.active_request_count s.active_write_count)
        invalid_session
    then_check check
        (export_terminal s.status
          && (not (is_zero_ℤ s.active_request_count) || not (is_zero_ℤ s.active_write_count)))
        invalid_session

unfoldable pub validate_mount : WorkloadMountBinding → Option SessionError
validate_mount m =
    id_check mount_binding_id m.id
    then_check id_check IdKind.namespace_id m.namespace_id
    then_check id_check IdKind.repo_id m.repo_id
    then_check check (not (mount_status_valid m.status) || is_zero m.lease_expires_at)
        invalid_session
