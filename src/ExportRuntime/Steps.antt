-- ===== src/ExportRuntime/Steps.antt =====
-- Revocation and the terminal reconciliation of a session, and all steps of the ledger
-- (internal/store/postgres/export_sessions.go, and the disabling of a namespace in
-- internal/store/postgres/namespace_operations.go).
use mathlib.Core.Option
use agentsmith_fs_control_pl.Clock.{Time}
use agentsmith_fs_control_pl.ExportRuntime.{
  Ledger, RequestBegin, RuntimeRequest, StoredSession, begin_request, is_active, is_open, latest,
  set_session,
}
use agentsmith_fs_control_pl.ExportRuntime.Requests.{
  RequestEnd, RequestHeartbeat, count_if, end_request, heartbeat, recover_stale,
}
use agentsmith_fs_control_pl.Prelude.{
  Bool, Option, [], false, if◌then◌else◌, is_some, is_zero_ℤ, leb, none, not, some, true, ℕ, ℤ,
  ◌&&◌, ◌||◌, ◌==◌, ◌≡◌,
}
use agentsmith_fs_control_pl.SessionState.Sessions.{
  ExportStatus, active, is_revoking, revoking, revoked, expired, failed,
}
use agentsmith_fs_control_pl.Text.{Text, bytes, is_blank, text_eq, trim_space}

pub record TerminalRequest : Type 0 where
  pub export_id : Text
  pub namespace_id : Text
  pub target_status : ExportStatus
  pub observed_at : Time
  pub status_reason : Text
  pub active_request_count : ℤ
  pub active_write_count : ℤ

abbrev pub is_open_request : RuntimeRequest → Bool
is_open_request r = is_open r.state

-- What the target status asks of the session.
abbrev pub target_allowed : TerminalRequest → StoredSession → ExportStatus → ExportStatus → Bool
target_allowed q s revoked revoking = is_some s.revoked_at
target_allowed q s expired active = leb s.expires_at q.observed_at
target_allowed q s failed current = not (is_blank q.status_reason)
target_allowed q s target current = false

abbrev pub terminal_eligible : TerminalRequest → ℕ → StoredSession → Bool
terminal_eligible q still_open s =
    text_eq s.namespace_id q.namespace_id
    && s.active_request_count == 0
    && s.active_write_count == 0
    && is_zero_ℤ q.active_request_count
    && is_zero_ℤ q.active_write_count
    && still_open == 0
    && target_allowed q s q.target_status s.status

abbrev pub or_else : Option Time → Time → Option Time
or_else none t = some t
or_else (some x) t = some x

abbrev pub terminated : TerminalRequest → StoredSession → StoredSession
terminated q s = record s {
  status = q.target_status;
  terminal_observed_at = some q.observed_at;
  active_request_count = 0;
  active_write_count = 0;
  write_drained_at = or_else s.write_drained_at q.observed_at;
  status_reason = trim_space q.status_reason;
  updated_at = q.observed_at;
}

abbrev pub terminate_with : TerminalRequest → Ledger → Option StoredSession → Ledger
terminate_with q l none = l
terminate_with q l (some s) =
    if terminal_eligible q (count_if is_open_request q.export_id l.requests) s
    then record l { sessions = set_session q.export_id (terminated q s) l.sessions }
    else l

-- `exportReconcileTerminalSQL`; `repeated` says that the operation was stored before.
unfoldable pub reconcile_terminal : TerminalRequest → Bool → Ledger → Ledger
reconcile_terminal q true l = l
reconcile_terminal q false l = terminate_with q l (l.sessions q.export_id)

abbrev pub status_after_revoke : ExportStatus → ExportStatus
status_after_revoke revoked = revoked
status_after_revoke expired = expired
status_after_revoke failed = failed
status_after_revoke current = revoking

abbrev pub revoked_session : Time → StoredSession → StoredSession
revoked_session now s = record s {
  status = status_after_revoke s.status;
  revoked_at = or_else s.revoked_at now;
  updated_at = now;
}

abbrev pub revoke_with : Text → Text → Time → Ledger → Option StoredSession → Ledger
revoke_with name namespace now l none = l
revoke_with name namespace now l (some s) =
    if text_eq s.namespace_id namespace
    then record l { sessions = set_session name (revoked_session now s) l.sessions }
    else l

-- The update of `exportRevokeSQL`, where its operation is new.
unfoldable pub revoke_session : Text → Text → Time → Ledger → Ledger
revoke_session name namespace now l = revoke_with name namespace now l (l.sessions name)

abbrev pub disabled_session : Time → Time → StoredSession → StoredSession
disabled_session disabled_at now s = record s {
  status = revoking;
  revoked_at = or_else s.revoked_at disabled_at;
  status_reason = if is_blank s.status_reason then bytes "namespace_disabled" else s.status_reason;
  updated_at = now;
}

abbrev pub disabled_row : Text → Time → Time → StoredSession → StoredSession
disabled_row namespace disabled_at now s =
    if text_eq s.namespace_id namespace && (is_active s.status || is_revoking s.status)
    then disabled_session disabled_at now s
    else s

-- `revoking_exports` of `namespaceDisableOperationCommitWithLeaseSQL`, where the namespace was
-- active and its operation is carried out.
abbrev pub disable_exports : Text → Time → Time → Ledger → Ledger
disable_exports namespace disabled_at now l = record l {
  sessions = λ e. Option.map (disabled_row namespace disabled_at now) (l.sessions e);
}

abbrev pub accessed_session : Time → StoredSession → StoredSession
accessed_session now s = record s {
  last_accessed_at = latest s.last_accessed_at now;
  updated_at = now;
}

abbrev pub access_with : Text → Time → Ledger → Option StoredSession → Ledger
access_with name now l none = l
access_with name now l (some s) = record l {
  sessions = set_session name (accessed_session now s) l.sessions;
}

-- The update of `RecordExportAccess`, once its arguments are checked.
abbrev pub record_access : Text → Time → Ledger → Ledger
record_access name now l = access_with name now l (l.sessions name)

-- A session as it is created.
abbrev pub IsNew : StoredSession → Type 0
IsNew s = (s.status ≡ active) × (s.active_request_count ≡ 0) × (s.active_write_count ≡ 0)

-- One statement, or the creation of a session under a key that is not in use.
pub data Step : Ledger → Ledger → Type 0 where
  create :
      (l : Ledger) (s : StoredSession)
      → l.sessions s.id ≡ none
      → IsNew s
      → Step l (record l { sessions = set_session s.id s l.sessions })
  begin :
      (l : Ledger) (q : RequestBegin) (restoring : Bool) → Step l (begin_request q restoring l).1
  beat : (l : Ledger) (q : RequestHeartbeat) → Step l (heartbeat q l).1
  end : (l : Ledger) (q : RequestEnd) → Step l (end_request q l).1
  recover : (l : Ledger) (now : Time) (chosen : Text → Bool) → Step l (recover_stale now chosen l)
  revoke :
      (l : Ledger) (name namespace : Text) (now : Time)
      → Step l (revoke_session name namespace now l)
  disable :
      (l : Ledger) (namespace : Text) (disabled_at now : Time)
      → Step l (disable_exports namespace disabled_at now l)
  access : (l : Ledger) (name : Text) (now : Time) → Step l (record_access name now l)
  terminate :
      (l : Ledger) (q : TerminalRequest) (repeated : Bool)
      → Step l (reconcile_terminal q repeated l)

abbrev pub empty : Ledger
empty = record { sessions = λ name. none; requests = [] }

pub data Reached : Ledger → Type 0 where
  start : Reached empty
  next : {l m : Ledger} → Reached l → Step l m → Reached m
