-- ===== src/ExportReconcile/Targets.antt =====
-- The requests of internal/exportreconcile/reconcile.go reach the statement that ends a session
-- (internal/store/postgres/export_sessions.go).
use agentsmith_fs_control_pl.Clock.{Time, after}
use agentsmith_fs_control_pl.ExportReconcile.{
  target_of, target_status, terminal_request, ExportReconcileResult, Outcome, Store, hashed_members,
  visit,
}
use agentsmith_fs_control_pl.ExportRuntime.{Ledger, StoredSession}
use agentsmith_fs_control_pl.ExportRuntime.Counts.{open_requests, open_writes}
use agentsmith_fs_control_pl.ExportRuntime.Dated.{Reached-AllDated, dated_status}
use agentsmith_fs_control_pl.ExportRuntime.Invariant.{Matches}
use agentsmith_fs_control_pl.ExportRuntime.Reachable.{Reached-IsConsistent}
use agentsmith_fs_control_pl.ExportRuntime.Steps.{
  reconcile_terminal, target_allowed, terminal_eligible, terminated, Reached, TerminalRequest,
}
use agentsmith_fs_control_pl.Operations.Value.{Members}
use agentsmith_fs_control_pl.Prelude.{
  Bool-cases, ap, arith, false, inl, inr, none, refl, some, subst, true, ◌≡◌, Bool, Option,
  if◌then◌else◌, sym, ◌∙◌, List, Result, ok, ℕ, ◌∷◌,
}
use agentsmith_fs_control_pl.SessionState.Sessions.{ExportStatus, export_terminal, revoking}
use agentsmith_fs_control_pl.Text.{Text, bytes, text_eq_refl}

drained_session :
    (s : StoredSession) (now : Time) (target : ExportStatus) (reason : Text)
    → target_status s now ≡ some (target, reason)
    → (s.active_request_count ≡ 0)
      × (s.active_write_count ≡ 0)
      × (target_of s.status s now ≡ some (target, reason))
unfolding target_status
drained_session s now target reason h = (ground arith, ground arith, ground arith)

-- The status of the first of two equal targets.
same_target :
    {a target : ExportStatus} {x reason : Text}
    → ◌≡◌ {A = Option (ExportStatus × Text)} (some (a, x)) (some (target, reason))
    → a ≡ target
same_target h = cc

abbrev ready : Bool → Option (ExportStatus × Text)
ready b =
    if b
    then none
    else some (ExportStatus.expired, bytes "export session expired with no active requests")

target_of-allowed :
    (s : StoredSession) (now : Time) (x target : ExportStatus) (reason : Text)
    → target_of x s now ≡ some (target, reason)
    → dated_status x s.revoked_at ≡ true
    → target_allowed (terminal_request s target reason now) s target x ≡ true
target_of-allowed s now revoking target reason h d =
    subst (λ y. target_allowed (terminal_request s y reason now) s y revoking ≡ true)
      (same_target h) d
target_of-allowed s now ExportStatus.active target reason h d =
    elim (Bool-cases (after s.expires_at now)) [
      | inl y ↦ let refused : ready true ≡ some (target, reason) = ap ready (sym y) ∙ h in cc
      | inr n ↦
          subst
            (λ x. target_allowed (terminal_request s x reason now) s x ExportStatus.active ≡ true)
            (same_target (ap ready (sym n) ∙ h)) (ground arith)
    ]
target_of-allowed s now ExportStatus.revoked target reason h d = cc
target_of-allowed s now ExportStatus.expired target reason h d = cc
target_of-allowed s now ExportStatus.failed target reason h d = cc
target_of-allowed s now (ExportStatus.other_status x) target reason h d = cc

allowed-terminal :
    (q : TerminalRequest) (s : StoredSession) (target x : ExportStatus)
    → target_allowed q s target x ≡ true
    → export_terminal target ≡ true
allowed-terminal q s ExportStatus.revoked x h = refl
allowed-terminal q s ExportStatus.expired x h = refl
allowed-terminal q s ExportStatus.failed x h = refl
allowed-terminal q s target x h = cc

terminal-no_target :
    (x : ExportStatus) (s : StoredSession) (now : Time)
    → export_terminal x ≡ true
    → target_of x s now ≡ none
terminal-no_target ExportStatus.active s now h = cc
terminal-no_target revoking s now h = cc
terminal-no_target x s now h = refl

-- What a request leaves of the row of a session: its end, or the row as it was, if the operation of
-- the request had been stored before.
abbrev pub IsEndedBy : ExportStatus → Time → Bool → StoredSession → Option StoredSession → Type 0
IsEndedBy target later repeated s after_it =
    (t : StoredSession) × (after_it ≡ some t)
    × (repeated ≡ true → t ≡ s)
    × (repeated ≡ false
        → (t.status ≡ target) × (export_terminal t.status ≡ true) × (target_status t later ≡ none))

ended_by :
    {l : Ledger} (s : StoredSession) (now later : Time) (target : ExportStatus) (reason : Text)
    (repeated : Bool)
    → Reached l
    → l.sessions s.id ≡ some s
    → target_status s now ≡ some (target, reason)
    → IsEndedBy target later repeated s
        ((reconcile_terminal (terminal_request s target reason now) repeated l).sessions s.id)
unfolding reconcile_terminal target_status
ended_by s now later target reason true r row h = (s, row, (λ e. refl), (λ e. cc))
ended_by {l} s now later target reason false r row h =
    let (a, b, c) = drained_session s now target reason h in
    let (n, _, _) =
      subst (λ o. Matches o (open_requests s.id l) (open_writes s.id l)) row
        (Reached-IsConsistent r s.id) in
    let q = terminal_request s target reason now in
    let fine = target_of-allowed s now s.status target reason c (Reached-AllDated r s.id s row) in
    let quiet : open_requests s.id l ≡ 0 = sym n ∙ a in
    let y : terminal_eligible q (open_requests s.id l) s ≡ true =
      rw (text_eq_refl s.namespace_id, a, b, quiet) fine in
    let ended = allowed-terminal q s target s.status fine in
    rw (row, y)
      (
        terminated q s,
        rw (text_eq_refl s.id) refl,
        (λ e. cc),
        (λ e. (refl, ended, terminal-no_target target (terminated q s) later ended)),
      )

-- A session that a loop finds drained and ready is submitted next, if its request can be hashed. On
-- a reached ledger in which its row is still as it was read, that request ends the session, which is
-- then not ready again; only where the operation of the request was stored before, the row stays.
pub visit-reconcile_terminal :
    {W : Type 0} {l : Ledger} (stable_id : Text → Text → Text)
    (hash_request : Members → Result Text Text) (store : Store W) (owner : Text) (limit : ℕ)
    (now later : Time) (rest : ExportReconcileResult → W → Outcome W) (x : ExportReconcileResult)
    (w : W) (s : StoredSession) (target : ExportStatus) (reason hash : Text) (repeated : Bool)
    → Reached l
    → l.sessions s.id ≡ some s
    → target_status s now ≡ some (target, reason)
    → hash_request (hashed_members s target) ≡ ok hash
    → (q : TerminalRequest) × ((others : List TerminalRequest) × ((visit stable_id hash_request
            store owner limit now rest x s
            (target_status s now)
            w).requests
          ≡ q ∷ others))
      × (q.export_id ≡ s.id)
      × IsEndedBy target later repeated s ((reconcile_terminal q repeated l).sessions s.id)
visit-reconcile_terminal stable_id hash_request store owner limit now later rest x w s target reason
      hash repeated r row h e =
    (
      terminal_request s target reason now,
      rw (h, e) (_, refl),
      refl,
      ended_by s now later target reason repeated r row h,
    )
