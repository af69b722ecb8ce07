-- ===== src/ExportRuntime/Requests.antt =====
-- Heartbeats, ends and the recovery of stale requests
-- (internal/store/postgres/export_sessions.go).
use mathlib.Core.Option
use agentsmith_fs_control_pl.Clock.{Time}
use agentsmith_fs_control_pl.ExportRuntime.{
  Answer, Ledger, RequestState, RuntimeRequest, StoredSession, closed_request, drained,
  find_request, is_open, later, latest, one_if, recovered_request, set_session,
}
use agentsmith_fs_control_pl.Prelude.{
  Bool, List, Option, [], false, if◌then◌else◌, leb, none, not, some, true, ℕ, ◌&&◌, ◌+◌, ◌-◌, ◌==◌,
  ◌||◌, ◌∷◌,
}
use agentsmith_fs_control_pl.Text.{Text, text_eq}

-- The change of the first request with a key.
abbrev pub change_request :
    Text → (RuntimeRequest → RuntimeRequest) → List RuntimeRequest → List RuntimeRequest
change_request name f [] = []
change_request name f (r ∷ rs) =
    let rest = change_request name f rs in if text_eq r.request_id name then f r ∷ rs else r ∷ rest

pub record RequestHeartbeat : Type 0 where
  pub request_id : Text
  pub export_id : Text
  pub observed_at : Time
  pub heartbeat_expires_at : Time

abbrev pub touched : RequestHeartbeat → RuntimeRequest → RuntimeRequest
touched q r = record r {
  last_heartbeat_at = later r.last_heartbeat_at q.observed_at;
  heartbeat_expires_at = later r.heartbeat_expires_at q.heartbeat_expires_at;
}

abbrev pub seen : RequestHeartbeat → StoredSession → StoredSession
seen q s = record s {
  last_observed_at = latest s.last_observed_at q.observed_at;
  last_gateway_heartbeat_at = latest s.last_gateway_heartbeat_at q.observed_at;
  gateway_heartbeat_expires_at = latest s.gateway_heartbeat_expires_at q.heartbeat_expires_at;
  updated_at = later s.updated_at q.observed_at;
}

abbrev pub update_seen :
    RequestHeartbeat
    → (Text → Option StoredSession)
    → Option StoredSession
    → Text
    → Option StoredSession
update_seen q sessions none = sessions
update_seen q sessions (some s) = set_session q.export_id (seen q s) sessions

abbrev pub heartbeat_with : RequestHeartbeat → Ledger → Option RuntimeRequest → Answer
heartbeat_with q l none = (none, l)
heartbeat_with q l (some r) =
    if text_eq r.export_id q.export_id && is_open r.state
    then (
      Option.map (seen q) (l.sessions q.export_id),
      record {
        sessions = update_seen q l.sessions (l.sessions q.export_id);
        requests = change_request q.request_id (touched q) l.requests;
      },
    )
    else (none, l)

-- `exportRuntimeRequestHeartbeatSQL`
unfoldable pub heartbeat : RequestHeartbeat → Ledger → Answer
heartbeat q l = heartbeat_with q l (find_request q.request_id l.requests)

pub record RequestEnd : Type 0 where
  pub request_id : Text
  pub export_id : Text
  pub ended_at : Time
  pub successful_request_accessed_at : Option Time

abbrev pub accessed : Option Time → Option Time → Option Time
accessed old none = old
accessed old (some t) = latest old t

abbrev pub decremented : RequestEnd → Bool → StoredSession → StoredSession
decremented q write s =
    let writes = s.active_write_count - one_if write in
    record s {
      active_request_count = s.active_request_count - 1;
      active_write_count = writes;
      last_observed_at = latest s.last_observed_at q.ended_at;
      write_drained_at = drained writes s.write_drained_at q.ended_at;
      last_accessed_at = accessed s.last_accessed_at q.successful_request_accessed_at;
      updated_at = later s.updated_at q.ended_at;
    }

abbrev pub close_eligible : Bool → StoredSession → Bool
close_eligible write s =
    leb 1 s.active_request_count
    && leb (one_if write) s.active_write_count
    && leb (s.active_write_count - one_if write) (s.active_request_count - 1)

abbrev pub closed : RequestState → RuntimeRequest → RuntimeRequest
closed state r = record r { state = state }

abbrev pub end_open : RequestEnd → Ledger → RuntimeRequest → Option StoredSession → Answer
end_open q l r none = (none, l)
end_open q l r (some s) =
    if close_eligible r.write s
    then (
      some (decremented q r.write s),
      record {
        sessions = set_session q.export_id (decremented q r.write s) l.sessions;
        requests = change_request q.request_id (closed closed_request) l.requests;
      },
    )
    else (none, l)

abbrev pub end_with : RequestEnd → Ledger → Option RuntimeRequest → Answer
end_with q l none = (none, l)
end_with q l (some r) =
    if not (text_eq r.export_id q.export_id)
    then (none, l)
    else if is_open r.state
    then end_open q l r (l.sessions q.export_id)
    else (l.sessions q.export_id, l)

-- `exportRuntimeRequestEndSQL`
unfoldable pub end_request : RequestEnd → Ledger → Answer
end_request q l = end_with q l (find_request q.request_id l.requests)

-- The requests that a recovery takes: open, without a heartbeat in time, and among those that the
-- order, the limit and the locks of other transactions leave, which `chosen` stands for.
abbrev pub is_stale : Time → (Text → Bool) → RuntimeRequest → Bool
is_stale now chosen r = is_open r.state && leb r.heartbeat_expires_at now && chosen r.request_id

-- How many requests of a session pass a test, and how many of these write.
abbrev pub count_if : (RuntimeRequest → Bool) → Text → List RuntimeRequest → ℕ
count_if test name [] = 0
count_if test name (r ∷ rs) = one_if (test r && text_eq r.export_id name) + count_if test name rs

abbrev pub count_writes : (RuntimeRequest → Bool) → Text → List RuntimeRequest → ℕ
count_writes test name rs = count_if (λ r. test r && r.write) name rs

-- A session whose counts cover its stale requests.
abbrev pub covers : ℕ → ℕ → Option StoredSession → Bool
covers requests writes none = false
covers requests writes (some s) =
    leb requests s.active_request_count && leb writes s.active_write_count

abbrev pub all_eligible : Time → (Text → Bool) → Ledger → List RuntimeRequest → Bool
all_eligible now chosen l [] = true
all_eligible now chosen l (r ∷ rs) =
    (not (is_stale now chosen r)
      || covers (count_if (is_stale now chosen) r.export_id l.requests)
          (count_writes (is_stale now chosen) r.export_id l.requests) (l.sessions r.export_id))
    && all_eligible now chosen l rs

abbrev pub recover_rows : Time → (Text → Bool) → List RuntimeRequest → List RuntimeRequest
recover_rows now chosen [] = []
recover_rows now chosen (r ∷ rs) =
    (if is_stale now chosen r then closed recovered_request r else r) ∷ recover_rows now chosen rs

abbrev pub decreased : Time → ℕ → ℕ → StoredSession → StoredSession
decreased now requests writes s = record s {
  active_request_count = s.active_request_count - requests;
  active_write_count = s.active_write_count - writes;
  last_observed_at = latest s.last_observed_at now;
  write_drained_at = drained (s.active_write_count - writes) s.write_drained_at now;
  updated_at = now;
}

-- A session without a stale request is in no group, and is not updated.
abbrev pub recovered_session : Time → ℕ → ℕ → StoredSession → StoredSession
recovered_session now requests writes s =
    if requests == 0 then s else decreased now requests writes s

-- `exportRuntimeRequestRecoverStaleSQL`; the counts that it returns are left out.
unfoldable pub recover_stale : Time → (Text → Bool) → Ledger → Ledger
recover_stale now chosen l =
    if all_eligible now chosen l l.requests
    then record {
      sessions = λ name.
          Option.map
            (recovered_session now (count_if (is_stale now chosen) name l.requests)
              (count_writes (is_stale now chosen) name l.requests))
            (l.sessions name);
      requests = recover_rows now chosen l.requests;
    }
    else l
