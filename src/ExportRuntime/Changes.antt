-- ===== src/ExportRuntime/Changes.antt =====
-- Heartbeats and ends keep the counts right (internal/store/postgres/export_sessions.go).
use agentsmith_fs_control_pl.ExportRuntime.{
  Ledger, RuntimeRequest, StoredSession, closed_request, find_request, is_open, one_if,
}
use agentsmith_fs_control_pl.ExportRuntime.Counts.{count_if-change, open_requests, open_writes}
use agentsmith_fs_control_pl.ExportRuntime.Invariant.{
  IsConsistent, Matches, marked, set_session-IsConsistent, text_eq_flip,
}
use agentsmith_fs_control_pl.ExportRuntime.Requests.{
  RequestEnd, RequestHeartbeat, change_request, close_eligible, closed, count_if, count_writes,
  decremented, end_open, end_request, end_with, heartbeat, heartbeat_with, seen, touched,
  update_seen,
}
use agentsmith_fs_control_pl.ExportRuntime.Steps.{is_open_request}
use agentsmith_fs_control_pl.Prelude.{
  Bool-cases, List, Option, arith, false, inl, inr, none, refl, some, subst, sym, true, ◌&&◌, ◌+◌,
  ◌≡◌,
}
use agentsmith_fs_control_pl.Text.{Text, text_eq, text_eq_iff}

-- The requests change, and every session keeps its counts.
requests-IsConsistent :
    (l : Ledger) (rs : List RuntimeRequest)
    → ((e : Text)
        → (count_if is_open_request e rs ≡ open_requests e l)
          × (count_writes is_open_request e rs ≡ open_writes e l))
    → IsConsistent l
    → IsConsistent (record { sessions = l.sessions; requests = rs })
requests-IsConsistent l rs h c e = let (a, b) = h e in rw (a, b) (c e)

pub touched-counts :
    (q : RequestHeartbeat) (l : Ledger) (r : RuntimeRequest)
    → find_request q.request_id l.requests ≡ some r
    → (e : Text)
    → (count_if is_open_request e (change_request q.request_id (touched q) l.requests)
        ≡ open_requests e l)
      × (count_writes is_open_request e (change_request q.request_id (touched q) l.requests)
          ≡ open_writes e l)
touched-counts q l r h e = (
  omega (arith, count_if-change is_open_request e q.request_id (touched q) l.requests r h),
  omega (
    arith,
    count_if-change (λ x. is_open_request x && x.write) e q.request_id (touched q) l.requests r h,
  ),
)

update_seen-IsConsistent :
    (q : RequestHeartbeat) (l : Ledger) (r : RuntimeRequest) (o : Option StoredSession)
    → l.sessions q.export_id ≡ o
    → find_request q.request_id l.requests ≡ some r
    → IsConsistent l
    → IsConsistent (record {
      sessions = update_seen q l.sessions o;
      requests = change_request q.request_id (touched q) l.requests;
    })
update_seen-IsConsistent q l r none e h c =
    requests-IsConsistent l (change_request q.request_id (touched q) l.requests)
      (touched-counts q l r h) c
update_seen-IsConsistent q l r (some s) e h c =
    let rs = change_request q.request_id (touched q) l.requests in
    let (a, b) = touched-counts q l r h q.export_id in
    let old =
      subst (λ o. Matches o (open_requests q.export_id l) (open_writes q.export_id l)) e
        (c q.export_id) in
    set_session-IsConsistent l q.export_id (seen q s) rs (rw (a, b) old)
      (λ x n. touched-counts q l r h x) c

heartbeat_with-IsConsistent :
    (q : RequestHeartbeat) (l : Ledger) (o : Option RuntimeRequest)
    → find_request q.request_id l.requests ≡ o
    → IsConsistent l
    → IsConsistent (heartbeat_with q l o).1
heartbeat_with-IsConsistent q l none h c = c
heartbeat_with-IsConsistent q l (some r) h c =
    elim (Bool-cases (text_eq r.export_id q.export_id && is_open r.state)) [
      | inl y ↦ rw y (update_seen-IsConsistent q l r (l.sessions q.export_id) refl h c)
      | inr n ↦ rw n c
    ]

pub heartbeat-IsConsistent :
    (q : RequestHeartbeat) (l : Ledger) → IsConsistent l → IsConsistent (heartbeat q l).1
unfolding heartbeat
heartbeat-IsConsistent q l c =
    heartbeat_with-IsConsistent q l (find_request q.request_id l.requests) refl c

-- A request that ends no longer counts.
pub closed-counts :
    (q : RequestEnd) (l : Ledger) (r : RuntimeRequest) (e : Text)
    → find_request q.request_id l.requests ≡ some r
    → is_open r.state ≡ true
    → (count_if is_open_request e (change_request q.request_id (closed closed_request) l.requests)
          + one_if (text_eq r.export_id e)
        ≡ open_requests e l)
      × (count_writes is_open_request e
              (change_request q.request_id (closed closed_request) l.requests)
            + one_if (r.write && text_eq r.export_id e)
          ≡ open_writes e l)
closed-counts q l r e h o =
    let a = count_if-change is_open_request e q.request_id (closed closed_request) l.requests r h in
    let b =
      count_if-change (λ x. is_open_request x && x.write) e q.request_id (closed closed_request)
        l.requests r h in
    (ground (arith, a), ground (arith, b))

other_key : (a b k : Text) → text_eq a b ≡ true → text_eq k b ≡ false → text_eq a k ≡ false
other_key a b k row n =
    text_eq_flip a k (subst (λ x. text_eq k x ≡ false) (sym ((text_eq_iff a b).0 row)) n)

others_closed :
    (q : RequestEnd) (l : Ledger) (r : RuntimeRequest) (k : Text)
    → find_request q.request_id l.requests ≡ some r
    → is_open r.state ≡ true
    → text_eq r.export_id k ≡ false
    → (count_if is_open_request k (change_request q.request_id (closed closed_request) l.requests)
        ≡ open_requests k l)
      × (count_writes is_open_request k
            (change_request q.request_id (closed closed_request) l.requests)
          ≡ open_writes k l)
others_closed q l r k h o n =
    let (a, b) = closed-counts q l r k h o in (ground (arith, a), ground (arith, b))

end_open-IsConsistent :
    (q : RequestEnd) (l : Ledger) (r : RuntimeRequest) (o : Option StoredSession)
    → l.sessions q.export_id ≡ o
    → find_request q.request_id l.requests ≡ some r
    → text_eq r.export_id q.export_id ≡ true
    → is_open r.state ≡ true
    → IsConsistent l
    → IsConsistent (end_open q l r o).1
end_open-IsConsistent q l r none e h row live c = c
end_open-IsConsistent q l r (some s) e h row live c = elim (Bool-cases (close_eligible r.write s)) [
  | inr n ↦ rw n c
  | inl y ↦
      let (x, w, d) =
        subst (λ o. Matches o (open_requests q.export_id l) (open_writes q.export_id l)) e
          (c q.export_id) in
      let (a, b) = closed-counts q l r q.export_id h live in
      rw y (
        set_session-IsConsistent l q.export_id (decremented q r.write s)
          (change_request q.request_id (closed closed_request) l.requests)
          (marked (decremented q r.write s) _ _ s.write_drained_at q.ended_at (ground (arith, a, x))
            (ground (arith, b, w)) refl)
          (λ k n. others_closed q l r k h live (other_key r.export_id q.export_id k row n)) c)
]

end_with-IsConsistent :
    (q : RequestEnd) (l : Ledger) (o : Option RuntimeRequest)
    → find_request q.request_id l.requests ≡ o
    → IsConsistent l
    → IsConsistent (end_with q l o).1
end_with-IsConsistent q l none h c = c
end_with-IsConsistent q l (some r) h c = elim (Bool-cases (text_eq r.export_id q.export_id)) [
  | inr n ↦ rw n c
  | inl y ↦ elim (Bool-cases (is_open r.state)) [
    | inl live ↦ rw (y, live) (end_open-IsConsistent q l r (l.sessions q.export_id) refl h y live c)
    | inr n ↦ rw (y, n) c
  ]
]

pub end_request-IsConsistent :
    (q : RequestEnd) (l : Ledger) → IsConsistent l → IsConsistent (end_request q l).1
unfolding end_request
end_request-IsConsistent q l c =
    end_with-IsConsistent q l (find_request q.request_id l.requests) refl c
