-- ===== src/ExportRuntime/Reachable.antt =====
-- The invariant of the ledger, and what the session gates may rely on
-- (internal/store/postgres/export_sessions.go and internal/sessionstate/sessionstate.go).
use mathlib.Core.Option
use agentsmith_fs_control_pl.Clock.{Time}
use agentsmith_fs_control_pl.ExportRuntime.{Ledger, StoredSession, is_active}
use agentsmith_fs_control_pl.ExportRuntime.Changes.{
  end_request-IsConsistent, heartbeat-IsConsistent,
}
use agentsmith_fs_control_pl.ExportRuntime.Counts.{open_requests, open_writes}
use agentsmith_fs_control_pl.ExportRuntime.Invariant.{
  IsConsistent, Matches, begin_request-IsConsistent, set_session-IsConsistent,
}
use agentsmith_fs_control_pl.ExportRuntime.Recovery.{recover_stale-IsConsistent}
use agentsmith_fs_control_pl.ExportRuntime.Requests.{count_if}
use agentsmith_fs_control_pl.ExportRuntime.Steps.{
  start, end, next, IsNew, Reached, Step, TerminalRequest, beat, begin, create, is_open_request,
  reconcile_terminal, recover, revoke, revoke_session, revoke_with, revoked_session,
  terminal_eligible, terminate, terminate_with, terminated, access, access_with, accessed_session,
  disable, disabled_row,
}
use agentsmith_fs_control_pl.Prelude.{
  Bool, Bool-cases, Option, arith, false, inl, inr, none, refl, some, subst, true, ℕ, ◌≡◌, ◌&&◌,
  ◌||◌,
}
use agentsmith_fs_control_pl.SessionState.Sessions.{is_revoking}
use agentsmith_fs_control_pl.Text.{Text, text_eq}

revoked-IsConsistent :
    (name namespace : Text) (now : Time) (l : Ledger) (o : Option StoredSession)
    → l.sessions name ≡ o
    → IsConsistent l
    → IsConsistent (revoke_with name namespace now l o)
revoked-IsConsistent name namespace now l none e c = c
revoked-IsConsistent name namespace now l (some s) e c =
    elim (Bool-cases (text_eq s.namespace_id namespace)) [
      | inl y ↦ rw y (
          set_session-IsConsistent l name (revoked_session now s) l.requests
            (subst (λ o. Matches o (open_requests name l) (open_writes name l)) e (c name))
            (λ x n. (refl, refl)) c)
      | inr n ↦ rw n c
    ]

terminated-Matches :
    (q : TerminalRequest) (s : StoredSession) (still_open requests writes : ℕ)
    → terminal_eligible q still_open s ≡ true
    → Matches (some s) requests writes
    → Matches (some (terminated q s)) requests writes
terminated-Matches q s still_open requests writes y (a, b, _) =
    (ground arith, ground arith, inr (ground arith))

terminated-IsConsistent :
    (q : TerminalRequest) (l : Ledger) (o : Option StoredSession)
    → l.sessions q.export_id ≡ o
    → IsConsistent l
    → IsConsistent (terminate_with q l o)
terminated-IsConsistent q l none e c = c
terminated-IsConsistent q l (some s) e c =
    elim (Bool-cases (terminal_eligible q (count_if is_open_request q.export_id l.requests) s)) [
      | inl y ↦ rw y (
          set_session-IsConsistent l q.export_id (terminated q s) l.requests
            (terminated-Matches q s _ _ _ y (
              subst (λ o. Matches o (open_requests q.export_id l) (open_writes q.export_id l)) e
                (c q.export_id)))
            (λ x n. (refl, refl)) c)
      | inr n ↦ rw n c
    ]

reconcile-IsConsistent :
    (q : TerminalRequest) (repeated : Bool) (l : Ledger)
    → IsConsistent l
    → IsConsistent (reconcile_terminal q repeated l)
unfolding reconcile_terminal
reconcile-IsConsistent q true l c = c
reconcile-IsConsistent q false l c = terminated-IsConsistent q l (l.sessions q.export_id) refl c

accessed-IsConsistent :
    (name : Text) (now : Time) (l : Ledger) (o : Option StoredSession)
    → l.sessions name ≡ o
    → IsConsistent l
    → IsConsistent (access_with name now l o)
accessed-IsConsistent name now l none e c = c
accessed-IsConsistent name now l (some s) e c =
    set_session-IsConsistent l name (accessed_session now s) l.requests
      (subst (λ o. Matches o (open_requests name l) (open_writes name l)) e (c name))
      (λ x n. (refl, refl)) c

disabled-Matches :
    (namespace : Text) (disabled_at now : Time) (o : Option StoredSession) (requests writes : ℕ)
    → Matches o requests writes
    → Matches (Option.map (disabled_row namespace disabled_at now) o) requests writes
disabled-Matches namespace disabled_at now none requests writes c = c
disabled-Matches namespace disabled_at now (some s) requests writes c =
    elim (Bool-cases
      (text_eq s.namespace_id namespace && (is_active s.status || is_revoking s.status))) [
        | inl y ↦ rw y c
        | inr n ↦ rw n c
      ]

created-Matches :
    (s : StoredSession) (requests writes : ℕ)
    → IsNew s
    → Matches none requests writes
    → Matches (some s) requests writes
created-Matches s requests writes (_, a, b) (p, q) = (ground arith, ground arith, inr q)

Step-IsConsistent : {l m : Ledger} → Step l m → IsConsistent l → IsConsistent m
unfolding revoke_session
Step-IsConsistent (create l s free new) c =
    set_session-IsConsistent l s.id s l.requests
      (created-Matches s _ _ new
        (subst (λ o. Matches o (open_requests s.id l) (open_writes s.id l)) free (c s.id)))
      (λ x n. (refl, refl)) c
Step-IsConsistent (begin l q restoring) c = begin_request-IsConsistent q restoring l c
Step-IsConsistent (beat l q) c = heartbeat-IsConsistent q l c
Step-IsConsistent (end l q) c = end_request-IsConsistent q l c
Step-IsConsistent (recover l now chosen) c = recover_stale-IsConsistent now chosen l c
Step-IsConsistent (revoke l name namespace now) c =
    revoked-IsConsistent name namespace now l (l.sessions name) refl c
Step-IsConsistent (disable l namespace disabled_at now) c =
    λ e. disabled-Matches namespace disabled_at now (l.sessions e) _ _ (c e)
Step-IsConsistent (access l name now) c = accessed-IsConsistent name now l (l.sessions name) refl c
Step-IsConsistent (terminate l q repeated) c = reconcile-IsConsistent q repeated l c

-- However the statements follow one another, the counts of every session are the numbers of its open
-- requests and of its open writing requests, and a session that is marked as drained of writes has
-- no open writing request.
pub Reached-IsConsistent : {l : Ledger} → Reached l → IsConsistent l
Reached-IsConsistent start = λ e. (refl, refl)
Reached-IsConsistent (next r s) = Step-IsConsistent s (Reached-IsConsistent r)
