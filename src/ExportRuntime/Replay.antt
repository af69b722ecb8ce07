-- ===== src/ExportRuntime/Replay.antt =====
-- A request that is begun again, and one that ends (internal/store/postgres/export_sessions.go).
use agentsmith_fs_control_pl.ExportRuntime.{
  Ledger, RequestBegin, RuntimeRequest, StoredSession, begin_request, closed_request, eligible,
  find_request, incremented, is_active, opened, same_request, set_session,
}
use agentsmith_fs_control_pl.ExportRuntime.Counts.{count_if-le, open_requests, open_writes}
use agentsmith_fs_control_pl.ExportRuntime.Invariant.{IsConsistent, Matches}
use agentsmith_fs_control_pl.ExportRuntime.Requests.{
  RequestEnd, change_request, close_eligible, closed, count_if, decremented, end_request,
}
use agentsmith_fs_control_pl.ExportRuntime.Steps.{is_open_request}
use agentsmith_fs_control_pl.Prelude.{
  Bool, Bool-cases, List, Option, Option-cases, ap, arith, false, inl, inr, none, refl, some, subst,
  sym, true, ◌<◌, ◌∙◌, ◌∷◌, ◌≡◌, ◌⊎◌,
}
use agentsmith_fs_control_pl.Text.{Text, text_eq, text_eq_iff, text_eq_refl}

-- The ledger in which a request was begun.
abbrev pub after_begin : RequestBegin → StoredSession → Ledger → Ledger
after_begin q s l = record {
  sessions = set_session q.export_id (incremented q s) l.sessions;
  requests = opened q ∷ l.requests;
}

-- A request that is not known is begun exactly if its session is there, active and not expired, and
-- it does not write during a restore reconciliation; then it is counted. Otherwise nothing changes.
pub begin_request-new :
    (q : RequestBegin) (restoring : Bool) (l : Ledger)
    → find_request q.request_id l.requests ≡ none
    → ((s : StoredSession) × (l.sessions q.export_id ≡ some s)
        × (is_active s.status ≡ true)
        × (q.started_at < s.expires_at)
        × ((q.write ≡ false) ⊎ (restoring ≡ false))
        × (begin_request q restoring l ≡ (some (incremented q s), after_begin q s l)))
      ⊎ (begin_request q restoring l ≡ (none, l))
unfolding begin_request
begin_request-new q restoring l f = elim (Option-cases (l.sessions q.export_id)) [
  | inl n ↦ inr (rw (f, n) refl)
  | inr (s, e) ↦ elim (Bool-cases (eligible q restoring s)) [
    | inl y ↦ inl (s, e, ground arith, ground arith, ground arith, rw (f, e, y) refl)
    | inr n ↦ inr (rw (f, e, n) refl)
  ]
]

find_opened :
    (q : RequestBegin) (rs : List RuntimeRequest)
    → find_request q.request_id (opened q ∷ rs) ≡ some (opened q)
find_opened q rs = rw (text_eq_refl q.request_id) refl

same_opened : (q : RequestBegin) → same_request q (opened q) ≡ true
same_opened q = let e = text_eq_refl q.export_id in ground arith

set_session_self :
    (name : Text) (s : StoredSession) (sessions : Text → Option StoredSession)
    → set_session name s sessions name ≡ some s
set_session_self name s sessions = rw (text_eq_refl name) refl

known :
    (q again : RequestBegin)
    → again.export_id ≡ q.export_id
    → again.write ≡ q.write
    → same_request again (opened q) ≡ true
known q again same_export write =
    let e : text_eq q.export_id again.export_id ≡ true =
      (text_eq_iff q.export_id again.export_id).1 (sym same_export) in
    ground arith

begin_opened :
    (q again : RequestBegin) (restoring : Bool) (s : StoredSession) (l : Ledger)
    → again.request_id ≡ q.request_id
    → again.export_id ≡ q.export_id
    → again.write ≡ q.write
    → begin_request again restoring (after_begin q s l)
      ≡ (some (incremented q s), after_begin q s l)
unfolding begin_request
begin_opened q again restoring s l name same_export write =
    let f = ap (λ n. find_request n (opened q ∷ l.requests)) name ∙ find_opened q l.requests in
    let y : same_request again (opened q) ≡ true = known q again same_export write in
    let row =
      ap (set_session q.export_id (incremented q s) l.sessions) same_export
      ∙ set_session_self q.export_id (incremented q s) l.sessions in
    rw (f, y, row) refl

-- The answer to the end of a request and the ledger after it, by what was there before the request:
-- the answer is the row that is stored.
abbrev pub HasEnded : RequestBegin → StoredSession → Ledger → Option StoredSession × Ledger → Type 0
HasEnded q s l (answer, m) =
    (t : StoredSession) × (answer ≡ some t)
    × (m.sessions q.export_id ≡ some t)
    × (t.active_request_count ≡ s.active_request_count)
    × (t.active_write_count ≡ s.active_write_count)
    × (count_if is_open_request q.export_id m.requests ≡ open_requests q.export_id l)

end_opened :
    (q : RequestBegin) (finish : RequestEnd) (s : StoredSession) (l : Ledger)
    → IsConsistent l
    → l.sessions q.export_id ≡ some s
    → finish.request_id ≡ q.request_id
    → finish.export_id ≡ q.export_id
    → HasEnded q s l (end_request finish (after_begin q s l))
unfolding end_request
end_opened q finish s l c e name same_export =
    let f = ap (λ n. find_request n (opened q ∷ l.requests)) name ∙ find_opened q l.requests in
    let row =
      ap (set_session q.export_id (incremented q s) l.sessions) same_export
      ∙ set_session_self q.export_id (incremented q s) l.sessions in
    let own : text_eq q.export_id finish.export_id ≡ true =
      (text_eq_iff q.export_id finish.export_id).1 (sym same_export) in
    let (a, b, _) =
      subst (λ o. Matches o (open_requests q.export_id l) (open_writes q.export_id l)) e
        (c q.export_id) in
    let covered : close_eligible q.write (incremented q s) ≡ true =
      ground (arith, count_if-le is_open_request (λ r. r.write) q.export_id l.requests) in
    let renamed =
      ap
        (λ n.
          count_if is_open_request q.export_id
            (change_request n (closed closed_request) (opened q ∷ l.requests)))
        name in
    rw (f, own, row, covered)
      (
        decremented finish q.write (incremented q s),
        refl,
        ap
              (λ n.
                set_session n (decremented finish q.write (incremented q s))
                  (set_session q.export_id (incremented q s) l.sessions) q.export_id)
              same_export
            ∙ set_session_self q.export_id (decremented finish q.write (incremented q s))
                (set_session q.export_id (incremented q s) l.sessions),
        omega arith,
        omega arith,
        renamed ∙ rw (text_eq_refl q.request_id) (omega arith),
      )

-- A gateway that repeats the beginning of a request, at whatever time, gets the session that it got
-- before, and nothing is counted twice.
pub begin_request_again :
    (q again : RequestBegin) (restoring later : Bool) (t : StoredSession) (l : Ledger)
    → find_request q.request_id l.requests ≡ none
    → (begin_request q restoring l).0 ≡ some t
    → again.request_id ≡ q.request_id
    → again.export_id ≡ q.export_id
    → again.write ≡ q.write
    → begin_request again later (begin_request q restoring l).1 ≡ begin_request q restoring l
begin_request_again q again restoring later t l f begun name same_export write =
    elim (begin_request-new q restoring l f) [
      | inl (s, _, _, _, _, e) ↦ rw e (begin_opened q again later s l name same_export write)
      | inr e ↦ let refused = ap (λ x. x.0) e in cc
    ]

-- A request that is begun and then ends leaves the counts of its stored session and the number of
-- its open requests as they were; the answer is the stored session.
pub end_request-begin_request :
    (q : RequestBegin) (finish : RequestEnd) (restoring : Bool) (s t : StoredSession) (l : Ledger)
    → IsConsistent l
    → find_request q.request_id l.requests ≡ none
    → l.sessions q.export_id ≡ some s
    → (begin_request q restoring l).0 ≡ some t
    → finish.request_id ≡ q.request_id
    → finish.export_id ≡ q.export_id
    → HasEnded q s l (end_request finish (begin_request q restoring l).1)
end_request-begin_request q finish restoring s t l c f e begun name same_export =
    elim (begin_request-new q restoring l f) [
      | inl (o, row, _, _, _, eq) ↦ rw eq (
          subst (λ x. HasEnded q x l (end_request finish (after_begin q o l)))
            (let same : o ≡ s = cc in same) (end_opened q finish o l c row name same_export))
      | inr eq ↦ let refused = ap (λ x. x.0) eq in cc
    ]
