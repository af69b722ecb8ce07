-- ===== src/ExportRuntime/Drain.antt =====
-- Sessions drain once they are not active (internal/store/postgres/export_sessions.go).
use mathlib.Core.Option
use agentsmith_fs_control_pl.Clock.{Time}
use agentsmith_fs_control_pl.ExportRuntime.{
  Ledger, RequestBegin, RuntimeRequest, StoredSession, begin_new, begin_request, begin_with,
  eligible, find_request, is_active, same_request, set_session, is_open,
}
use agentsmith_fs_control_pl.ExportRuntime.Changes.{closed-counts, touched-counts}
use agentsmith_fs_control_pl.ExportRuntime.Counts.{open_requests}
use agentsmith_fs_control_pl.ExportRuntime.Invariant.{text_eq_flip}
use agentsmith_fs_control_pl.ExportRuntime.Recovery.{recovered-counts}
use agentsmith_fs_control_pl.ExportRuntime.Requests.{
  RequestEnd, RequestHeartbeat, all_eligible, change_request, close_eligible, count_if, decremented,
  end_open, end_request, end_with, heartbeat, recover_stale, recovered_session, seen, touched,
  update_seen,
}
use agentsmith_fs_control_pl.ExportRuntime.Steps.{
  end, Step, TerminalRequest, beat, begin, create, is_open_request, reconcile_terminal, recover,
  revoke, revoke_session, revoke_with, revoked_session, status_after_revoke, target_allowed,
  terminal_eligible, terminate, terminate_with, terminated, access, access_with, accessed_session,
  disable, disable_exports, disabled_row, disabled_session,
}
use agentsmith_fs_control_pl.Prelude.{
  Bool, Bool-cases, Option, Option-cases, ap, arith, false, inl, inr, none, refl, some, sym, true,
  ℕ, ◌∙◌, ◌≡◌, ◌≢◌, ◌≤◌, ◌&&◌, ◌==◌, ◌||◌,
}
use agentsmith_fs_control_pl.SessionState.Sessions.{ExportStatus, revoking, is_revoking}
use agentsmith_fs_control_pl.Text.{Text, text_eq, text_eq_iff}

-- The session is still there and not active, and has no more open requests than before.
abbrev pub Drains : Text → Ledger → Ledger → Type 0
Drains e l m =
    ((t : StoredSession) × (m.sessions e ≡ some t) × (is_active t.status ≡ false))
    × (open_requests e m ≤ open_requests e l)

never_active : (x : ExportStatus) → is_active (status_after_revoke x) ≡ false
never_active ExportStatus.active = refl
never_active revoking = refl
never_active ExportStatus.revoked = refl
never_active ExportStatus.expired = refl
never_active ExportStatus.failed = refl
never_active (ExportStatus.other_status x) = refl

allowed_not_active :
    (q : TerminalRequest) (old : StoredSession) (target current : ExportStatus)
    → target_allowed q old target current ≡ true
    → is_active target ≡ false
allowed_not_active q old ExportStatus.active current h = cc
allowed_not_active q old target current h = refl

target_not_active :
    (q : TerminalRequest) (old : StoredSession) (n : ℕ)
    → terminal_eligible q n old ≡ true
    → is_active q.target_status ≡ false
target_not_active q old n y = allowed_not_active q old q.target_status old.status (ground arith)

module _ (e : Text) (l : Ledger) (s : StoredSession) (row : l.sessions e ≡ some s)
    (ended : is_active s.status ≡ false) where
  same_row :
      (name : Text) (old : StoredSession)
      → l.sessions name ≡ some old
      → text_eq e name ≡ true
      → old ≡ s
  same_row name old found y =
      let equal : l.sessions name ≡ some s = ap l.sessions (sym ((text_eq_iff e name).0 y)) ∙ row in
      cc

  set-drains :
      (name : Text) (old new : StoredSession)
      → l.sessions name ≡ some old
      → (is_active old.status ≡ false → is_active new.status ≡ false)
      → (t : StoredSession) × (set_session name new l.sessions e ≡ some t)
        × (is_active t.status ≡ false)
  set-drains name old new found keep = elim (Bool-cases (text_eq e name)) [
    | inl y ↦
        (new, rw y refl, keep (ap (λ x. is_active x.status) (same_row name old found y) ∙ ended))
    | inr n ↦ (s, rw n row, ended)
  ]

  stays : Drains e l l
  stays = ((s, row, ended), omega arith)

  replayed :
      (q : RequestBegin) (restoring : Bool) (r : RuntimeRequest)
      → Drains e l (begin_with q restoring l (some r)).1
  replayed q restoring r = elim (Bool-cases (same_request q r)) [
    | inl y ↦ rw y stays
    | inr n ↦ rw n stays
  ]

  still_active :
      (q : RequestBegin) (restoring : Bool) (old : StoredSession)
      → eligible q restoring old ≡ true
      → old ≢ s
  still_active q restoring old y h =
      let a : is_active old.status ≡ true = ground arith in
      let b : is_active old.status ≡ false = ap (λ x. is_active x.status) h ∙ ended in cc

  opened_new :
      (q : RequestBegin) (restoring : Bool) (o : Option StoredSession)
      → l.sessions q.export_id ≡ o
      → Drains e l (begin_new q restoring l o).1
  opened_new q restoring none f = stays
  opened_new q restoring (some old) f = elim (Bool-cases (eligible q restoring old)) [
    | inr n ↦ rw n stays
    | inl y ↦ elim (Bool-cases (text_eq e q.export_id)) [
      | inl here ↦ absurd (still_active q restoring old y (same_row q.export_id old f here))
      | inr n ↦ rw y ((s, rw n row, ended), rw (text_eq_flip q.export_id e n) (omega arith))
    ]
  ]

  begin-Drains : (q : RequestBegin) (restoring : Bool) → Drains e l (begin_request q restoring l).1
  unfolding begin_request
  begin-Drains q restoring = elim (Option-cases (find_request q.request_id l.requests)) [
    | inr (r, f) ↦ rw f (replayed q restoring r)
    | inl f ↦ rw f (opened_new q restoring (l.sessions q.export_id) refl)
  ]

  seen-Drains :
      (q : RequestHeartbeat) (r : RuntimeRequest) (o : Option StoredSession)
      → l.sessions q.export_id ≡ o
      → find_request q.request_id l.requests ≡ some r
      → Drains e l (record {
        sessions = update_seen q l.sessions o;
        requests = change_request q.request_id (touched q) l.requests;
      })
  seen-Drains q r none f h =
      let (a, _) = touched-counts q l r h e in ((s, row, ended), omega (arith, a))
  seen-Drains q r (some old) f h =
      let (a, _) = touched-counts q l r h e in
      (set-drains q.export_id old (seen q old) f (λ x. x), omega (arith, a))

  beat-Drains : (q : RequestHeartbeat) → Drains e l (heartbeat q l).1
  unfolding heartbeat
  beat-Drains q = elim (Option-cases (find_request q.request_id l.requests)) [
    | inl f ↦ rw f stays
    | inr (r, f) ↦ rw f (elim (Bool-cases (text_eq r.export_id q.export_id && is_open r.state)) [
      | inl y ↦ rw y (seen-Drains q r (l.sessions q.export_id) refl f)
      | inr n ↦ rw n stays
    ])
  ]

  end_open-Drains :
      (q : RequestEnd) (r : RuntimeRequest) (o : Option StoredSession)
      → l.sessions q.export_id ≡ o
      → find_request q.request_id l.requests ≡ some r
      → is_open r.state ≡ true
      → Drains e l (end_open q l r o).1
  end_open-Drains q r none f h live = stays
  end_open-Drains q r (some old) f h live = elim (Bool-cases (close_eligible r.write old)) [
    | inl y ↦
        let (a, _) = closed-counts q l r e h live in
        rw y (set-drains q.export_id old (decremented q r.write old) f (λ x. x), omega (arith, a))
    | inr n ↦ rw n stays
  ]

  end_found-Drains :
      (q : RequestEnd) (r : RuntimeRequest)
      → find_request q.request_id l.requests ≡ some r
      → Drains e l (end_with q l (some r)).1
  end_found-Drains q r f = elim (Bool-cases (text_eq r.export_id q.export_id)) [
    | inr n ↦ rw n stays
    | inl y ↦ elim (Bool-cases (is_open r.state)) [
      | inl live ↦ rw (y, live) (end_open-Drains q r (l.sessions q.export_id) refl f live)
      | inr n ↦ rw (y, n) stays
    ]
  ]

  end-Drains : (q : RequestEnd) → Drains e l (end_request q l).1
  unfolding end_request
  end-Drains q = elim (Option-cases (find_request q.request_id l.requests)) [
    | inl f ↦ rw f stays
    | inr (r, f) ↦ rw f (end_found-Drains q r f)
  ]

  recovered_status : (now : Time) (n w : ℕ) → is_active (recovered_session now n w s).status ≡ false
  recovered_status now n w = elim (Bool-cases (n == 0)) [ inl z ↦ rw z ended | inr k ↦ rw k ended ]

  recover-Drains : (now : Time) (chosen : Text → Bool) → Drains e l (recover_stale now chosen l)
  unfolding recover_stale
  recover-Drains now chosen = elim (Bool-cases (all_eligible now chosen l l.requests)) [
    | inl y ↦
        let (a, _) = recovered-counts now chosen e l.requests in
        rw y ((_, ap (Option.map _) row, recovered_status now _ _), omega (arith, a))
    | inr n ↦ rw n stays
  ]

  revoke_with-Drains :
      (name namespace : Text) (now : Time) (o : Option StoredSession)
      → l.sessions name ≡ o
      → Drains e l (revoke_with name namespace now l o)
  revoke_with-Drains name namespace now none f = stays
  revoke_with-Drains name namespace now (some old) f =
      elim (Bool-cases (text_eq old.namespace_id namespace)) [
        | inl y ↦ rw y (
          set-drains name old (revoked_session now old) f (λ x. never_active old.status),
          omega arith,
        )
        | inr n ↦ rw n stays
      ]

  access_with-Drains :
      (name : Text) (now : Time) (o : Option StoredSession)
      → l.sessions name ≡ o
      → Drains e l (access_with name now l o)
  access_with-Drains name now none f = stays
  access_with-Drains name now (some old) f =
      (set-drains name old (accessed_session now old) f (λ x. x), omega arith)

  disable-Drains :
      (namespace : Text) (disabled_at now : Time)
      → Drains e l (disable_exports namespace disabled_at now l)
  disable-Drains namespace disabled_at now =
      elim (Bool-cases
        (text_eq s.namespace_id namespace && (is_active s.status || is_revoking s.status))) [
          | inl y ↦ (
            (
              disabled_session disabled_at now s,
              ap (Option.map (disabled_row namespace disabled_at now)) row ∙ rw y refl,
              refl,
            ),
            omega arith,
          )
          | inr n ↦ (
            (s, ap (Option.map (disabled_row namespace disabled_at now)) row ∙ rw n refl, ended),
            omega arith,
          )
        ]

  terminate_with-Drains :
      (q : TerminalRequest) (o : Option StoredSession)
      → l.sessions q.export_id ≡ o
      → Drains e l (terminate_with q l o)
  terminate_with-Drains q none f = stays
  terminate_with-Drains q (some old) f =
      elim (Bool-cases
        (terminal_eligible q (count_if is_open_request q.export_id l.requests) old)) [
          | inl y ↦ rw y (
            set-drains q.export_id old (terminated q old) f (λ x. target_not_active q old _ y),
            omega arith,
          )
          | inr n ↦ rw n stays
        ]

  terminate-Drains :
      (q : TerminalRequest) (repeated : Bool) → Drains e l (reconcile_terminal q repeated l)
  unfolding reconcile_terminal
  terminate-Drains q true = stays
  terminate-Drains q false = terminate_with-Drains q (l.sessions q.export_id) refl

  not_free : (new : StoredSession) → l.sessions new.id ≡ none → text_eq e new.id ≢ true
  not_free new free y =
      let equal : l.sessions new.id ≡ some s =
        ap l.sessions (sym ((text_eq_iff e new.id).0 y)) ∙ row in
      cc

  created-Drains :
      (new : StoredSession)
      → l.sessions new.id ≡ none
      → Drains e l (record l { sessions = set_session new.id new l.sessions })
  created-Drains new free = elim (Bool-cases (text_eq e new.id)) [
    | inl y ↦ absurd (not_free new free y)
    | inr n ↦ ((s, rw n row, ended), omega arith)
  ]

-- Once a session is not active, which is so from its revocation on, no statement starts a request
-- through it or makes it active again: its open requests only become fewer.
pub Step-Drains :
    {l m : Ledger} (e : Text) (s : StoredSession)
    → l.sessions e ≡ some s
    → is_active s.status ≡ false
    → Step l m
    → Drains e l m
unfolding revoke_session
Step-Drains e s row ended (create l new free is_new) = created-Drains e l s row ended new free
Step-Drains e s row ended (begin l q restoring) = begin-Drains e l s row ended q restoring
Step-Drains e s row ended (beat l q) = beat-Drains e l s row ended q
Step-Drains e s row ended (end l q) = end-Drains e l s row ended q
Step-Drains e s row ended (recover l now chosen) = recover-Drains e l s row ended now chosen
Step-Drains e s row ended (revoke l name namespace now) =
    revoke_with-Drains e l s row ended name namespace now (l.sessions name) refl
Step-Drains e s row ended (disable l namespace disabled_at now) =
    disable-Drains e l s row ended namespace disabled_at now
Step-Drains e s row ended (access l name now) =
    access_with-Drains e l s row ended name now (l.sessions name) refl
Step-Drains e s row ended (terminate l q repeated) = terminate-Drains e l s row ended q repeated
