-- ===== src/ExportReconcile/Tests.antt =====
-- Rounds on a small store (internal/exportreconcile/reconcile.go).
use agentsmith_fs_control_pl.ExportReconcile.{
  ExportReconcileResult, Outcome, stop, Config, Store, no_result, other_error, reconcile_exports,
  scan_sessions, target_status, visit,
}
use agentsmith_fs_control_pl.ExportReconcile.Targets.{IsEndedBy, visit-reconcile_terminal}
use agentsmith_fs_control_pl.ExportRuntime.{Ledger, StoredSession, set_session}
use agentsmith_fs_control_pl.ExportRuntime.Steps.{
  Reached, start, next, create, revoke, empty, revoked_session, revoke_session, reconcile_terminal,
  TerminalRequest,
}
use agentsmith_fs_control_pl.Operations.Value.{Members}
use agentsmith_fs_control_pl.Prelude.{
  Result, [], err, false, none, ok, pos, refl, some, ◌++◌, ◌∷◌, ◌≡◌, List,
}
use agentsmith_fs_control_pl.SessionState.Sessions.{read_write, active, revoked}
use agentsmith_fs_control_pl.Text.{trim_space, Text, bytes, text_eq}

abbrev session : StoredSession
session = record {
  id = bytes "export_e1";
  namespace_id = bytes "ns_a1";
  repo_id = bytes "repo_b2";
  mode = read_write;
  status = active;
  expires_at = 100;
  revoked_at = none;
  last_accessed_at = none;
  active_request_count = 0;
  active_write_count = 0;
  last_observed_at = none;
  last_gateway_heartbeat_at = none;
  gateway_heartbeat_expires_at = none;
  write_drained_at = none;
  terminal_observed_at = none;
  status_reason = [];
  created_at = 10;
  updated_at = 10;
}

abbrev revoked_row : StoredSession
revoked_row = revoked_session 40 session

abbrev ledger : Ledger
ledger =
    revoke_session session.id session.namespace_id 40
      (record { sessions = set_session session.id session (λ name. none); requests = [] })

ledger-Reached : Reached ledger
ledger-Reached =
    next (next start (create empty session refl (refl, refl, refl)))
      (revoke _ session.id session.namespace_id 40)

row_revoked : ledger.sessions session.id ≡ some revoked_row
unfolding revoke_session text_eq
row_revoked = refl

abbrev reason : Text
reason = bytes "export session drained after revoke"

-- A store that lists the revoked session and one that is in use.
abbrev store : Store (Unit {0})
store = record {
  recover_requests = λ now limit w. (ok (2, 1), w);
  list_sessions = λ now limit w. (ok (revoked_row ∷ session ∷ []), w);
  reconcile = λ q r w. (ok false, w);
}

abbrev config : Config (Unit {0})
config = record {
  store = some store;
  owner = bytes "worker";
  limit = pos 0;
  now = 50;
  clock = none;
  system_now = 60;
}

abbrev plain_id : Text → Text → Text
plain_id prefix key = prefix ++ key

abbrev plain_hash : Members → Result Text Text
plain_hash m = ok (bytes "sha256:0")

one_ended : (reconcile_exports plain_id plain_hash config tt).result ≡ record no_result {
  recovered_runtime_requests = 2;
  recovered_runtime_writes = 1;
  scanned = 2;
  terminalized = 1;
  skipped = 1;
}
unfolding reconcile_exports scan_sessions target_status trim_space
one_ended = refl

-- The sessions cannot be listed: the requests that were recovered before are not reported.
abbrev broken : Config (Unit {0})
broken = record config {
  store =
      some (record store { list_sessions = λ now limit w. (err (other_error (bytes "down")), w) });
}

recovery_unreported : (reconcile_exports plain_id plain_hash broken tt).result ≡ no_result
unfolding reconcile_exports trim_space
recovery_unreported = refl

-- The rest of a loop that is over.
abbrev counted : ExportReconcileResult → Unit {0} → Outcome (Unit {0})
counted r w = stop r none w

visit-reconcile_terminal_example :
    (q : TerminalRequest) × ((others : List TerminalRequest) × ((visit plain_id plain_hash store
          (bytes "w1")
          5
          50
          counted
          no_result
          revoked_row
          (target_status revoked_row 50)
          tt).requests
        ≡ q ∷ others))
    × (q.export_id ≡ session.id)
    × IsEndedBy revoked 60 false revoked_row
        ((reconcile_terminal q false ledger).sessions session.id)
unfolding target_status
visit-reconcile_terminal_example =
    visit-reconcile_terminal plain_id plain_hash store (bytes "w1") 5 50 60 counted no_result tt
      revoked_row revoked reason (bytes "sha256:0") false ledger-Reached row_revoked refl refl
