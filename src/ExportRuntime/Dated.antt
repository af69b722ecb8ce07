-- ===== src/ExportRuntime/Dated.antt =====
-- A session that is being revoked has the time of its revocation
-- (internal/store/postgres/export_sessions.go).
use mathlib.Core.Option
use agentsmith_fs_control_pl.Clock.{Time}
use agentsmith_fs_control_pl.ExportRuntime.{
  Ledger, RequestBegin, RuntimeRequest, StoredSession, begin_new, begin_request, eligible,
  find_request, incremented, is_open, same_request, set_session, is_active,
}
use agentsmith_fs_control_pl.ExportRuntime.Requests.{
  RequestEnd, RequestHeartbeat, all_eligible, close_eligible, count_if, count_writes, decremented,
  end_open, end_request, end_with, heartbeat, is_stale, recover_stale, recovered_session, seen,
  update_seen,
}
use agentsmith_fs_control_pl.ExportRuntime.Steps.{
  end, next, start, IsNew, Reached, Step, TerminalRequest, beat, begin, create, is_open_request,
  or_else, reconcile_terminal, recover, revoke, revoke_session, revoke_with, revoked_session,
  status_after_revoke, target_allowed, terminal_eligible, terminate, terminate_with, terminated,
  access, access_with, accessed_session, disable, disable_exports, disabled_row,
}
use agentsmith_fs_control_pl.Prelude.{
  Bool, Bool-cases, Option, Option-cases, ap, arith, false, if◌then◌else◌, inl, inr, is_some, none,
  refl, some, sym, true, ℕ, ◌&&◌, ◌==◌, ◌∙◌, ◌≡◌, ◌||◌,
}
use agentsmith_fs_control_pl.SessionState.Sessions.{ExportStatus, revoking, is_revoking}
use agentsmith_fs_control_pl.Text.{Text, text_eq}

abbrev pub dated_status : ExportStatus → Option Time → Bool
dated_status revoking t = is_some t
dated_status current t = true

abbrev pub dated : StoredSession → Bool
dated s = dated_status s.status s.revoked_at

abbrev pub AllDated : (Text → Option StoredSession) → Type 0
AllDated sessions = (e : Text) (s : StoredSession) → sessions e ≡ some s → dated s ≡ true

set_session-AllDated :
    (name : Text) (new : StoredSession) (sessions : Text → Option StoredSession)
    → dated new ≡ true
    → AllDated sessions
    → AllDated (set_session name new sessions)
set_session-AllDated name new sessions fine d e s h = elim (Bool-cases (text_eq e name)) [
  | inl y ↦
      let found : some new ≡ some s = ap (λ b. if b then some new else sessions e) (sym y) ∙ h in
      let same : new ≡ s = cc in ap dated (sym same) ∙ fine
  | inr n ↦ d e s (ap (λ b. if b then some new else sessions e) (sym n) ∙ h)
]

dated_after_revoke :
    (x : ExportStatus) (t : Option Time) (now : Time)
    → dated_status (status_after_revoke x) (or_else t now) ≡ true
dated_after_revoke ExportStatus.active none now = refl
dated_after_revoke ExportStatus.active (some t) now = refl
dated_after_revoke revoking none now = refl
dated_after_revoke revoking (some t) now = refl
dated_after_revoke ExportStatus.revoked t now = refl
dated_after_revoke ExportStatus.expired t now = refl
dated_after_revoke ExportStatus.failed t now = refl
dated_after_revoke (ExportStatus.other_status x) none now = refl
dated_after_revoke (ExportStatus.other_status x) (some t) now = refl

dated_target :
    (q : TerminalRequest) (old : StoredSession) (target current : ExportStatus) (t : Option Time)
    → target_allowed q old target current ≡ true
    → dated_status target t ≡ true
dated_target q old revoking current t h = cc
dated_target q old target current t h = refl

module _ (l : Ledger) (d : AllDated l.sessions) where
  new-AllDated :
      (q : RequestBegin) (restoring : Bool) (o : Option StoredSession)
      → l.sessions q.export_id ≡ o
      → AllDated (begin_new q restoring l o).1.sessions
  new-AllDated q restoring none f = d
  new-AllDated q restoring (some old) f = elim (Bool-cases (eligible q restoring old)) [
    | inl y ↦
        rw y
          (set_session-AllDated q.export_id (incremented q old) l.sessions (d q.export_id old f) d)
    | inr n ↦ rw n d
  ]

  begin-AllDated :
      (q : RequestBegin) (restoring : Bool) → AllDated (begin_request q restoring l).1.sessions
  unfolding begin_request
  begin-AllDated q restoring = elim (Option-cases (find_request q.request_id l.requests)) [
    | inr (r, f) ↦ rw f (elim (Bool-cases (same_request q r)) [ inl y ↦ rw y d | inr n ↦ rw n d ])
    | inl f ↦ rw f (new-AllDated q restoring (l.sessions q.export_id) refl)
  ]

  update_seen-AllDated :
      (q : RequestHeartbeat) (o : Option StoredSession)
      → l.sessions q.export_id ≡ o
      → AllDated (update_seen q l.sessions o)
  update_seen-AllDated q none f = d
  update_seen-AllDated q (some old) f =
      set_session-AllDated q.export_id (seen q old) l.sessions (d q.export_id old f) d

  heartbeat-AllDated : (q : RequestHeartbeat) → AllDated (heartbeat q l).1.sessions
  unfolding heartbeat
  heartbeat-AllDated q = elim (Option-cases (find_request q.request_id l.requests)) [
    | inl f ↦ rw f d
    | inr (r, f) ↦ rw f (elim (Bool-cases (text_eq r.export_id q.export_id && is_open r.state)) [
      | inl y ↦ rw y (update_seen-AllDated q (l.sessions q.export_id) refl)
      | inr n ↦ rw n d
    ])
  ]

  end_open-AllDated :
      (q : RequestEnd) (r : RuntimeRequest) (o : Option StoredSession)
      → l.sessions q.export_id ≡ o
      → AllDated (end_open q l r o).1.sessions
  end_open-AllDated q r none f = d
  end_open-AllDated q r (some old) f = elim (Bool-cases (close_eligible r.write old)) [
    | inl y ↦ rw y (
        set_session-AllDated q.export_id (decremented q r.write old) l.sessions
          (d q.export_id old f) d)
    | inr n ↦ rw n d
  ]

  end_found-AllDated :
      (q : RequestEnd) (r : RuntimeRequest) → AllDated (end_with q l (some r)).1.sessions
  end_found-AllDated q r = elim (Bool-cases (text_eq r.export_id q.export_id)) [
    | inr n ↦ rw n d
    | inl y ↦ elim (Bool-cases (is_open r.state)) [
      | inl live ↦ rw (y, live) (end_open-AllDated q r (l.sessions q.export_id) refl)
      | inr n ↦ rw (y, n) (elim (Bool-cases (is_open r.state)) [ inl a ↦ d | inr b ↦ d ])
    ]
  ]

  end_request-AllDated : (q : RequestEnd) → AllDated (end_request q l).1.sessions
  unfolding end_request
  end_request-AllDated q = elim (Option-cases (find_request q.request_id l.requests)) [
    | inl f ↦ rw f d
    | inr (r, f) ↦ rw f (end_found-AllDated q r)
  ]

  recovered-AllDated :
      (now : Time) (requests writes : Text → ℕ)
      → AllDated (λ e. Option.map (recovered_session now (requests e) (writes e)) (l.sessions e))
  recovered-AllDated now requests writes e s h = elim (Option-cases (l.sessions e)) [
    | inl n ↦
        let refused : none ≡ some s =
          ap (Option.map (recovered_session now (requests e) (writes e))) (sym n) ∙ h in
        cc
    | inr (old, f) ↦
        let found : some (recovered_session now (requests e) (writes e) old) ≡ some s =
          ap (Option.map (recovered_session now (requests e) (writes e))) (sym f) ∙ h in
        let same : recovered_session now (requests e) (writes e) old ≡ s = cc in
        ap dated (sym same) ∙ elim (Bool-cases (requests e == 0)) [
          | inl z ↦ rw z (d e old f)
          | inr k ↦ rw k (d e old f)
        ]
  ]

  recover_stale-AllDated :
      (now : Time) (chosen : Text → Bool) → AllDated (recover_stale now chosen l).sessions
  unfolding recover_stale
  recover_stale-AllDated now chosen = elim (Bool-cases (all_eligible now chosen l l.requests)) [
    | inl y ↦ rw y (
        recovered-AllDated now (λ e. count_if (is_stale now chosen) e l.requests)
          (λ e. count_writes (is_stale now chosen) e l.requests))
    | inr n ↦ rw n d
  ]

  revoke_with-AllDated :
      (name namespace : Text) (now : Time) (o : Option StoredSession)
      → AllDated (revoke_with name namespace now l o).sessions
  revoke_with-AllDated name namespace now none = d
  revoke_with-AllDated name namespace now (some old) =
      elim (Bool-cases (text_eq old.namespace_id namespace)) [
        | inl y ↦ rw y (
            set_session-AllDated name (revoked_session now old) l.sessions
              (dated_after_revoke old.status old.revoked_at now) d)
        | inr n ↦ rw n d
      ]

  access_with-AllDated :
      (name : Text) (now : Time) (o : Option StoredSession)
      → l.sessions name ≡ o
      → AllDated (access_with name now l o).sessions
  access_with-AllDated name now none f = d
  access_with-AllDated name now (some old) f =
      set_session-AllDated name (accessed_session now old) l.sessions (d name old f) d

  disable-AllDated :
      (namespace : Text) (disabled_at now : Time)
      → AllDated (disable_exports namespace disabled_at now l).sessions
  disable-AllDated namespace disabled_at now e s h = elim (Option-cases (l.sessions e)) [
    | inl n ↦
        let refused : none ≡ some s =
          ap (Option.map (disabled_row namespace disabled_at now)) (sym n) ∙ h in
        cc
    | inr (old, f) ↦
        let found : some (disabled_row namespace disabled_at now old) ≡ some s =
          ap (Option.map (disabled_row namespace disabled_at now)) (sym f) ∙ h in
        let same : disabled_row namespace disabled_at now old ≡ s = cc in
        ap dated (sym same)
        ∙ elim (Bool-cases (
            text_eq old.namespace_id namespace
            && (is_active old.status || is_revoking old.status))) [
              | inl y ↦ rw y (dated_after_revoke revoking old.revoked_at disabled_at)
              | inr k ↦ rw k (d e old f)
            ]
  ]

  terminate_with-AllDated :
      (q : TerminalRequest) (o : Option StoredSession) → AllDated (terminate_with q l o).sessions
  terminate_with-AllDated q none = d
  terminate_with-AllDated q (some old) =
      elim (Bool-cases
        (terminal_eligible q (count_if is_open_request q.export_id l.requests) old)) [
          | inl y ↦ rw y (
              set_session-AllDated q.export_id (terminated q old) l.sessions
                (dated_target q old q.target_status old.status old.revoked_at (ground arith)) d)
          | inr n ↦ rw n d
        ]

  reconcile_terminal-AllDated :
      (q : TerminalRequest) (repeated : Bool) → AllDated (reconcile_terminal q repeated l).sessions
  unfolding reconcile_terminal
  reconcile_terminal-AllDated q true = d
  reconcile_terminal-AllDated q false = terminate_with-AllDated q (l.sessions q.export_id)

created-AllDated :
    (l : Ledger) (s : StoredSession)
    → IsNew s
    → AllDated l.sessions
    → AllDated (set_session s.id s l.sessions)
created-AllDated l s (live, _, _) d =
    set_session-AllDated s.id s l.sessions (ap (λ x. dated_status x s.revoked_at) live) d

Step-AllDated : {l m : Ledger} → Step l m → AllDated l.sessions → AllDated m.sessions
unfolding revoke_session
Step-AllDated (create l s free is_new) d = created-AllDated l s is_new d
Step-AllDated (begin l q restoring) d = begin-AllDated l d q restoring
Step-AllDated (beat l q) d = heartbeat-AllDated l d q
Step-AllDated (end l q) d = end_request-AllDated l d q
Step-AllDated (recover l now chosen) d = recover_stale-AllDated l d now chosen
Step-AllDated (revoke l name namespace now) d =
    revoke_with-AllDated l d name namespace now (l.sessions name)
Step-AllDated (disable l namespace disabled_at now) d =
    disable-AllDated l d namespace disabled_at now
Step-AllDated (access l name now) d = access_with-AllDated l d name now (l.sessions name) refl
Step-AllDated (terminate l q repeated) d = reconcile_terminal-AllDated l d q repeated

pub Reached-AllDated : {l : Ledger} → Reached l → AllDated l.sessions
Reached-AllDated start = λ e s h. cc
Reached-AllDated (next r step) = Step-AllDated step (Reached-AllDated r)
