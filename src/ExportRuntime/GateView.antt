-- ===== src/ExportRuntime/GateView.antt =====
-- What the restore gate of internal/sessionstate/sessionstate.go shows of the ledger of
-- internal/store/postgres/export_sessions.go.
use mathlib.Core.List.{Memᴰ}
use agentsmith_fs_control_pl.ExportRuntime.{Ledger, StoredSession}
use agentsmith_fs_control_pl.ExportRuntime.Counts.{open_requests, open_writes}
use agentsmith_fs_control_pl.ExportRuntime.Invariant.{Matches}
use agentsmith_fs_control_pl.ExportRuntime.Reachable.{Reached-IsConsistent}
use agentsmith_fs_control_pl.ExportRuntime.Steps.{Reached}
use agentsmith_fs_control_pl.Prelude.{
  All, All-at, List, [], arith, map, pos, some, subst, sym, true, ℕ, ◌∙◌, ◌∷◌, ◌≡◌,
}
use agentsmith_fs_control_pl.SessionState.{restore_writer_gate}
use agentsmith_fs_control_pl.SessionState.Safety.{IsIdleWriter, restore_writer_gate-IsIdleWriter}
use agentsmith_fs_control_pl.SessionState.Sessions.{read_write, ExportSession, GateRequest}
use agentsmith_fs_control_pl.Text.{Text}

-- What `scanExportSession` of internal/store/postgres/session_state.go reads of a row for the gates.
abbrev pub gate_view : StoredSession → ExportSession
gate_view s = record {
  id = s.id;
  namespace_id = s.namespace_id;
  repo_id = s.repo_id;
  mode = s.mode;
  status = s.status;
  expires_at = s.expires_at;
  active_request_count = pos s.active_request_count;
  active_write_count = pos s.active_write_count;
  last_observed_at = s.last_observed_at;
  last_gateway_heartbeat_at = s.last_gateway_heartbeat_at;
  gateway_heartbeat_expires_at = s.gateway_heartbeat_expires_at;
  write_drained_at = s.write_drained_at;
  terminal_observed_at = s.terminal_observed_at;
  status_reason = s.status_reason;
  created_at = s.created_at;
  updated_at = s.updated_at;
}

-- Every row of the repository in the ledger is listed, as by `ListExportSessionsByRepo`.
abbrev pub AllListed : Text → Ledger → List StoredSession → Type 0
AllListed name_of_repo l ss =
    (name : Text) (s : StoredSession)
    → l.sessions name ≡ some s
    → s.repo_id ≡ name_of_repo
    → Memᴰ s ss

-- No open request of a read-write session of the repository is a writing one.
abbrev pub QuietWriters : GateRequest → Ledger → Type 0
QuietWriters q l =
    (name : Text) (s : StoredSession)
    → l.sessions name ≡ some s
    → s.repo_id ≡ q.repo_id
    → s.mode ≡ read_write
    → open_writes name l ≡ 0

pos_zero : (n : ℕ) → pos n ≡ pos 0 → n ≡ 0
pos_zero n h = ground arith

All-unmap :
    {A B : Type 0} (P : B → Type 0) (f : A → B) (xs : List A)
    → All P (map f xs)
    → All (λ a. P (f a)) xs
All-unmap P f [] h = tt
All-unmap P f (x ∷ xs) (h, hs) = (h, All-unmap P f xs hs)

-- When the restore gate opens on the rows of a reached ledger, and every row of the repository is
-- among them, no open request of a read-write session of the repository is a writing one.
pub restore_writer_gate-quiet :
    {l : Ledger} (q : GateRequest) (ss : List StoredSession)
    → Reached l
    → AllListed q.repo_id l ss
    → q.export_sessions ≡ map gate_view ss
    → (restore_writer_gate q).allowed ≡ true
    → QuietWriters q l
restore_writer_gate-quiet {l} q ss r rows e h name s row same_repo mode =
    let idle = subst (All (IsIdleWriter q)) e (restore_writer_gate-IsIdleWriter q h) in
    let (_, b, _) =
      subst (λ o. Matches o (open_requests name l) (open_writes name l)) row
        (Reached-IsConsistent r name) in
    sym b
    ∙ pos_zero s.active_write_count (
        All-at (λ x. IsIdleWriter q (gate_view x)) s ss (rows name s row same_repo)
          (All-unmap (IsIdleWriter q) gate_view ss idle) same_repo mode)
