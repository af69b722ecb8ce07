-- ===== src/ExportRuntime/Tests.antt =====
-- The ledger at concrete sessions and requests.
use mathlib.Core.Option
use mathlib.Core.List.{Memᴰ}
use agentsmith_fs_control_pl.ExportRuntime.{
  Ledger, RequestBegin, StoredSession, begin_request, incremented, set_session,
}
use agentsmith_fs_control_pl.ExportRuntime.Counts.{open_writes}
use agentsmith_fs_control_pl.ExportRuntime.Drain.{Drains, Step-Drains}
use agentsmith_fs_control_pl.ExportRuntime.GateView.{
  AllListed, QuietWriters, gate_view, restore_writer_gate-quiet,
}
use agentsmith_fs_control_pl.ExportRuntime.Invariant.{IsConsistent}
use agentsmith_fs_control_pl.ExportRuntime.Reachable.{Reached-IsConsistent}
use agentsmith_fs_control_pl.ExportRuntime.Replay.{
  after_begin, begin_request_again, end_request-begin_request, HasEnded,
}
use agentsmith_fs_control_pl.ExportRuntime.Requests.{RequestEnd, end_request, recover_stale}
use agentsmith_fs_control_pl.ExportRuntime.Steps.{
  Reached, start, next, begin, create, empty, revoke, revoke_session, revoked_session,
}
use agentsmith_fs_control_pl.PathResolver.Id.{
  validate_characters, validate_id, validate_prefixed, validate_suffix, validate_with,
}
use agentsmith_fs_control_pl.Prelude.{
  Bool-cases, inl, inr, sym, [], false, none, refl, some, true, ◌∷◌, ◌≡◌,
}
use agentsmith_fs_control_pl.SessionState.{
  conclude, evaluate, export_blocker, export_writer_drained, restore_writer_gate, scan_exports,
  scan_mounts,
}
use agentsmith_fs_control_pl.SessionState.Sessions.{
  active, read_write, GateRequest, validate_export, validate_target,
}
use agentsmith_fs_control_pl.Text.{Text, bytes, cut_prefix, every, text_eq}

abbrev session : StoredSession
session = record {
  id = bytes "export_e1";
  namespace_id = bytes "ns_a1";
  repo_id = bytes "repo_b2";
  mode = read_write;
  status = active;
  expires_at = 100;
  revoked_at = none;
  last_accessed_at = none;
  active_request_count = 0;
  active_write_count = 0;
  last_observed_at = none;
  last_gateway_heartbeat_at = none;
  gateway_heartbeat_expires_at = none;
  write_drained_at = none;
  terminal_observed_at = none;
  status_reason = [];
  created_at = 10;
  updated_at = 10;
}

abbrev write_request : RequestBegin
write_request = record {
  request_id = bytes "errq_r1";
  export_id = bytes "export_e1";
  started_at = 20;
  heartbeat_expires_at = 30;
  write = true;
}

abbrev read_request : RequestBegin
read_request = record write_request { write = false }

abbrev finished : RequestEnd
finished = record {
  request_id = bytes "errq_r1";
  export_id = bytes "export_e1";
  ended_at = 25;
  successful_request_accessed_at = some 25;
}

abbrev created : Ledger
created = record { sessions = set_session session.id session (λ name. none); requests = [] }

created-Reached : Reached created
created-Reached = next start (create empty session refl (refl, refl, refl))

-- The session while its request writes, and after it ended.
abbrev busy : Ledger
busy = after_begin write_request session created

begun : begin_request write_request false created ≡ (some (incremented write_request session), busy)
unfolding begin_request text_eq
begun = refl

restoring_refused : begin_request write_request true created ≡ (none, created)
unfolding begin_request text_eq
restoring_refused = refl

abbrev idle : Ledger
idle = (end_request finished busy).1

busy-Reached : Reached (begin_request write_request false created).1
busy-Reached = next created-Reached (begin created write_request false)

drained_at : Option.map (λ s. s.write_drained_at) (idle.sessions session.id) ≡ some (some 25)
unfolding end_request text_eq
drained_at = refl

recovered_at : open_writes session.id (recover_stale 30 (λ name. true) busy) ≡ 0
unfolding recover_stale text_eq
recovered_at = refl

abbrev revoked_row : StoredSession
revoked_row = revoked_session 40 session

abbrev revoked_ledger : Ledger
revoked_ledger = revoke_session session.id session.namespace_id 40 created

revoked-Reached : Reached revoked_ledger
revoked-Reached = next created-Reached (revoke created session.id session.namespace_id 40)

row_revoked : revoked_ledger.sessions session.id ≡ some revoked_row
unfolding revoke_session text_eq
row_revoked = refl

Reached-IsConsistent_example : IsConsistent (begin_request write_request false created).1
Reached-IsConsistent_example = Reached-IsConsistent busy-Reached

Step-Drains_example :
    Drains session.id revoked_ledger (begin_request read_request false revoked_ledger).1
Step-Drains_example =
    Step-Drains session.id revoked_row row_revoked refl (begin revoked_ledger read_request false)

begin_request_again_example :
    begin_request write_request true (begin_request write_request false created).1
    ≡ begin_request write_request false created
unfolding begin_request text_eq
begin_request_again_example =
    begin_request_again write_request write_request false true (incremented write_request session)
      created refl refl refl refl refl

end_request-begin_request_example :
    HasEnded write_request session created
      (end_request finished (begin_request write_request false created).1)
unfolding begin_request text_eq
end_request-begin_request_example =
    end_request-begin_request write_request finished false session
      (incremented write_request session) created (Reached-IsConsistent created-Reached) refl refl
      refl refl refl

-- The session of a repository before a restore: its lease has run out and it is drained.
abbrev gate : GateRequest
gate = record {
  namespace_id = bytes "ns_a1";
  repo_id = bytes "repo_b2";
  now = 150;
  export_sessions = gate_view (record session { write_drained_at = some 15 }) ∷ [];
  mounts = [];
}

abbrev drained_session : StoredSession
drained_session = record session { write_drained_at = some 15 }

abbrev drained_ledger : Ledger
drained_ledger = record {
  sessions = set_session session.id drained_session (λ name. none);
  requests = [];
}

drained-Reached : Reached drained_ledger
drained-Reached = next start (create empty drained_session refl (refl, refl, refl))

gate_open : (restore_writer_gate gate).allowed ≡ true
unfolding restore_writer_gate evaluate validate_target validate_id validate_with validate_prefixed
    validate_suffix validate_characters cut_prefix every scan_exports scan_mounts validate_export
    export_blocker export_writer_drained text_eq conclude
gate_open = refl

one_row :
    (k name : Text) (r s : StoredSession)
    → set_session k r (λ n. none) name ≡ some s
    → Memᴰ s (r ∷ [])
one_row k name r s h = elim (Bool-cases (text_eq name k)) [
  | inl y ↦ Memᴰ.head (let e : some r ≡ some s = rw y at h in let k : r ≡ s = cc in sym k)
  | inr n ↦ absurd (let e : none ≡ some s = rw n at h in cc)
]

-- The one session of the repository is listed.
drained_rows : AllListed (bytes "repo_b2") drained_ledger (drained_session ∷ [])
drained_rows name s row same_repo = one_row session.id name drained_session s row

restore_writer_gate-quiet_example : QuietWriters gate drained_ledger
restore_writer_gate-quiet_example =
    restore_writer_gate-quiet gate (drained_session ∷ []) drained-Reached drained_rows refl
      gate_open
