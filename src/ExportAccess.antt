-- ===== src/ExportAccess.antt =====
-- internal/exportaccess/exportaccess.go: what makes a session and a runtime request valid, and the
-- lifetime of a session; with the checks of internal/store/postgres/export_sessions.go before its
-- statements. The password verifiers are left out.
pub mod Lifetime
pub mod Validity
mod Tests
use mathlib.Core.Option
use agentsmith_fs_control_pl.Clock.{Time, after, is_zero}
use agentsmith_fs_control_pl.ExportRuntime.{Answer, Ledger, RequestBegin, begin_request}
use agentsmith_fs_control_pl.ExportRuntime.Requests.{
  RequestEnd, RequestHeartbeat, end_request, heartbeat,
}
use agentsmith_fs_control_pl.PathResolver.Id.{
  IdKind, IdError, export_id, is_ascii_alnum, is_id_char, validate_id,
}
use agentsmith_fs_control_pl.Prelude.{
  Bool, Option, Result, [], check, err, false, if◌then◌else◌, is_zero_ℤ, leb_ℤ, length, ltb, ltb_ℤ,
  map, none, not, ok, pos, some, true, ℤ, ◌then_check◌, ◌then_return◌, ◌||◌, ◌∷◌,
}
use agentsmith_fs_control_pl.SessionState.Sessions.{
  AccessMode, ExportStatus, export_status_valid, mode_valid,
}
use agentsmith_fs_control_pl.Text.{Text, bytes, cut_prefix, every, is_blank, trim_space}

pub data AccessError : Type 0 where
  bad_id : IdError → AccessError
  bad_protocol bad_mode bad_status bad_timestamps bad_creator : AccessError
  negative_count writes_exceed_requests bad_request_id expiry_not_after limit_not_positive :
      AccessError

pub data Protocol : Type 0 where
  webdav : Protocol
  other_protocol : Text → Protocol

abbrev pub protocol_valid : Protocol → Bool
protocol_valid webdav = true
protocol_valid (other_protocol s) = false

pub record Actor : Type 0 where
  pub type : Text
  pub id : Text

-- The fields of a session that its validation reads.
pub record Session : Type 0 where
  pub id : Text
  pub namespace_id : Text
  pub repo_id : Text
  pub protocol : Protocol
  pub mode : AccessMode
  pub status : ExportStatus
  pub expires_at : Time
  pub created_by_caller_service : Text
  pub created_by_actor : Actor
  pub active_request_count : ℤ
  pub active_write_count : ℤ
  pub created_at : Time
  pub updated_at : Time

abbrev pub trimmed_id : IdKind → Text → Option AccessError
trimmed_id k name = Option.map bad_id (validate_id k (trim_space name))

unfoldable pub validate_session : Session → Option AccessError
validate_session s =
    trimmed_id IdKind.export_id s.id
    then_check trimmed_id IdKind.namespace_id s.namespace_id
    then_check trimmed_id IdKind.repo_id s.repo_id
    then_check check (not (protocol_valid s.protocol)) bad_protocol
    then_check check (not (mode_valid s.mode)) bad_mode
    then_check check (not (export_status_valid s.status)) bad_status
    then_check check (is_zero s.expires_at || is_zero s.created_at || is_zero s.updated_at)
        bad_timestamps
    then_check check
        (is_blank s.created_by_caller_service
          || is_blank s.created_by_actor.type
          || is_blank s.created_by_actor.id)
        bad_creator
    then_check check (ltb_ℤ s.active_request_count (pos 0) || ltb_ℤ s.active_write_count (pos 0))
        negative_count
    then_check check (ltb_ℤ s.active_request_count s.active_write_count) writes_exceed_requests

abbrev pub request_suffix : Option Text → Option AccessError
request_suffix none = some bad_request_id
request_suffix (some []) = some bad_request_id
request_suffix (some (b ∷ s)) =
    check (ltb (length (b ∷ s)) 2 || ltb 63 (length (b ∷ s))) bad_request_id
    then_check check (not (is_ascii_alnum b)) bad_request_id
    then_check check (not (every is_id_char s)) bad_request_id

unfoldable pub validate_request_id : Text → Option AccessError
validate_request_id name = request_suffix (cut_prefix (bytes "errq_") name)

abbrev pub both_ids : Text → Text → Option AccessError
both_ids request export_name =
    validate_request_id (trim_space request) then_check trimmed_id IdKind.export_id export_name

unfoldable pub validate_begin : RequestBegin → Option AccessError
validate_begin q =
    both_ids q.request_id q.export_id
    then_check check (is_zero q.started_at || is_zero q.heartbeat_expires_at) bad_timestamps
    then_check check (not (after q.heartbeat_expires_at q.started_at)) expiry_not_after

unfoldable pub validate_heartbeat : RequestHeartbeat → Option AccessError
validate_heartbeat q =
    both_ids q.request_id q.export_id
    then_check check (is_zero q.observed_at || is_zero q.heartbeat_expires_at) bad_timestamps
    then_check check (not (after q.heartbeat_expires_at q.observed_at)) expiry_not_after

unfoldable pub validate_end : RequestEnd → Option AccessError
validate_end q =
    both_ids q.request_id q.export_id then_check check (is_zero q.ended_at) bad_timestamps

unfoldable pub validate_recovery : Time → ℤ → Option AccessError
validate_recovery now limit =
    check (is_zero now) bad_timestamps then_check check (leb_ℤ limit (pos 0)) limit_not_positive

abbrev pub trim_begin : RequestBegin → RequestBegin
trim_begin q = record q { request_id = trim_space q.request_id; export_id = trim_space q.export_id }

abbrev pub trim_heartbeat : RequestHeartbeat → RequestHeartbeat
trim_heartbeat q = record q {
  request_id = trim_space q.request_id;
  export_id = trim_space q.export_id;
}

abbrev pub trim_end : RequestEnd → RequestEnd
trim_end q = record q { request_id = trim_space q.request_id; export_id = trim_space q.export_id }

-- `BeginExportRuntimeRequest`: an invalid request does not reach the tables.
unfoldable pub begin_export_request : RequestBegin → Bool → Ledger → Result AccessError Answer
begin_export_request q restoring l =
    validate_begin (trim_begin q) then_return ok (begin_request (trim_begin q) restoring l)

unfoldable pub heartbeat_export_request : RequestHeartbeat → Ledger → Result AccessError Answer
heartbeat_export_request q l =
    validate_heartbeat (trim_heartbeat q) then_return ok (heartbeat (trim_heartbeat q) l)

unfoldable pub end_export_request : RequestEnd → Ledger → Result AccessError Answer
end_export_request q l = validate_end (trim_end q) then_return ok (end_request (trim_end q) l)

pub data TtlError : Type 0 where
  max_too_small ttl_too_small ttl_too_large : TtlError

abbrev pub min_ttl_seconds : ℤ
min_ttl_seconds = pos 60

abbrev pub default_ttl_seconds : ℤ
default_ttl_seconds = pos 3600

unfoldable pub resolve_ttl_seconds : ℤ → ℤ → Result TtlError ℤ
resolve_ttl_seconds requested most =
    if ltb_ℤ most min_ttl_seconds
    then err max_too_small
    else if is_zero_ℤ requested
    then (if ltb_ℤ most default_ttl_seconds then ok most else ok default_ttl_seconds)
    else if ltb_ℤ requested min_ttl_seconds
    then err ttl_too_small
    else if ltb_ℤ most requested
    then err ttl_too_large
    else ok requested
