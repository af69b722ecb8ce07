-- ===== src/ExportRuntime.antt =====
-- The ledger of the requests that run through export sessions: the statements of
-- internal/store/postgres/export_sessions.go, on the tables `export_sessions` and
-- `export_runtime_requests`. A statement is atomic. A lookup by primary key takes the row that is
-- found first. The tables are read as the statement finds them.
pub mod Requests
pub mod Steps
pub mod Counts
pub mod Invariant
pub mod Changes
pub mod Recovery
pub mod Reachable
pub mod Drain
pub mod Dated
pub mod GateView
pub mod Replay
mod Tests
use agentsmith_fs_control_pl.Clock.{Time, after}
use agentsmith_fs_control_pl.Prelude.{
  Bool, List, Option, [], bool_ne, false, if◌then◌else◌, ltb, none, not, some, true, ℕ, ◌&&◌, ◌+◌,
  ◌==◌, ◌∷◌,
}
use agentsmith_fs_control_pl.SessionState.Sessions.{
  ExportStatus, active, failed, revoked, expired, revoking, AccessMode,
}
use agentsmith_fs_control_pl.Text.{Text, text_eq}

-- A row of `export_sessions`. The counts are not negative by a constraint of the table, and are
-- taken to stay below the bound of the column's type.
pub record StoredSession : Type 0 where
  pub id : Text
  pub namespace_id : Text
  pub repo_id : Text
  pub mode : AccessMode
  pub status : ExportStatus
  pub expires_at : Time
  pub revoked_at : Option Time
  pub last_accessed_at : Option Time
  pub active_request_count : ℕ
  pub active_write_count : ℕ
  pub last_observed_at : Option Time
  pub last_gateway_heartbeat_at : Option Time
  pub gateway_heartbeat_expires_at : Option Time
  pub write_drained_at : Option Time
  pub terminal_observed_at : Option Time
  pub status_reason : Text
  pub created_at : Time
  pub updated_at : Time

pub data RequestState : Type 0 where
  open_request closed_request recovered_request : RequestState

-- A row of `export_runtime_requests`.
pub record RuntimeRequest : Type 0 where
  pub request_id : Text
  pub export_id : Text
  pub write : Bool
  pub state : RequestState
  pub last_heartbeat_at : Time
  pub heartbeat_expires_at : Time

-- The two tables, the first by its key.
pub record Ledger : Type 0 where
  pub sessions : Text → Option StoredSession
  pub requests : List RuntimeRequest

abbrev pub is_open : RequestState → Bool
is_open open_request = true
is_open state = false

abbrev pub is_active : ExportStatus → Bool
is_active active = true
is_active status = false

abbrev pub find_request : Text → List RuntimeRequest → Option RuntimeRequest
find_request name [] = none
find_request name (r ∷ rs) =
    let rest = find_request name rs in if text_eq r.request_id name then some r else rest

abbrev pub set_session :
    Text → StoredSession → (Text → Option StoredSession) → Text → Option StoredSession
set_session name s sessions k = if text_eq k name then some s else sessions k

-- `GREATEST(x, t)`
abbrev pub later : Time → Time → Time
later x t = if ltb x t then t else x

-- `GREATEST(COALESCE(x, t), t)`
abbrev pub latest : Option Time → Time → Option Time
latest none t = some t
latest (some x) t = some (later x t)

abbrev pub one_if : Bool → ℕ
one_if true = 1
one_if false = 0

-- `CASE WHEN writes = 0 THEN GREATEST(COALESCE(x, t), t) ELSE NULL END`
abbrev pub drained : ℕ → Option Time → Time → Option Time
drained writes x t = if writes == 0 then latest x t else none

-- A statement gives a row, or none (`sql.ErrNoRows`), and the tables that it leaves.
abbrev pub Answer : Type 0
Answer = Option StoredSession × Ledger

pub record RequestBegin : Type 0 where
  pub request_id : Text
  pub export_id : Text
  pub started_at : Time
  pub heartbeat_expires_at : Time
  pub write : Bool

abbrev pub incremented : RequestBegin → StoredSession → StoredSession
incremented q s =
    let writes = s.active_write_count + one_if q.write in
    record s {
      active_request_count = s.active_request_count + 1;
      active_write_count = writes;
      last_observed_at = latest s.last_observed_at q.started_at;
      last_gateway_heartbeat_at = latest s.last_gateway_heartbeat_at q.started_at;
      gateway_heartbeat_expires_at = latest s.gateway_heartbeat_expires_at q.heartbeat_expires_at;
      write_drained_at = drained writes s.write_drained_at q.started_at;
      updated_at = q.started_at;
    }

abbrev pub opened : RequestBegin → RuntimeRequest
opened q = record {
  request_id = q.request_id;
  export_id = q.export_id;
  write = q.write;
  state = open_request;
  last_heartbeat_at = q.started_at;
  heartbeat_expires_at = q.heartbeat_expires_at;
}

abbrev pub eligible : RequestBegin → Bool → StoredSession → Bool
eligible q restoring s =
    is_active s.status && after s.expires_at q.started_at && not (q.write && restoring)

abbrev pub begin_new : RequestBegin → Bool → Ledger → Option StoredSession → Answer
begin_new q restoring l none = (none, l)
begin_new q restoring l (some s) =
    if eligible q restoring s
    then (
      some (incremented q s),
      record {
        sessions = set_session q.export_id (incremented q s) l.sessions;
        requests = opened q ∷ l.requests;
      },
    )
    else (none, l)

abbrev pub same_request : RequestBegin → RuntimeRequest → Bool
same_request q r =
    text_eq r.export_id q.export_id && not (bool_ne r.write q.write) && is_open r.state

abbrev pub begin_with : RequestBegin → Bool → Ledger → Option RuntimeRequest → Answer
begin_with q restoring l none = begin_new q restoring l (l.sessions q.export_id)
begin_with q restoring l (some r) =
    if same_request q r then (l.sessions q.export_id, l) else (none, l)

-- `exportRuntimeRequestBeginSQL`; `restoring` says whether a restore reconciliation is active.
unfoldable pub begin_request : RequestBegin → Bool → Ledger → Answer
begin_request q restoring l = begin_with q restoring l (find_request q.request_id l.requests)
