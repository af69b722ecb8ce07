-- ===== src/ExportRuntime/Invariant.antt =====
-- The counts of a session are those of its open requests
-- (internal/store/postgres/export_sessions.go).
use agentsmith_fs_control_pl.Clock.{Time}
use agentsmith_fs_control_pl.ExportRuntime.{
  Ledger, RequestBegin, RuntimeRequest, StoredSession, incremented, opened, set_session, begin_new,
  begin_request, begin_with, drained, eligible, find_request, one_if, same_request,
}
use agentsmith_fs_control_pl.ExportRuntime.Counts.{open_requests, open_writes}
use agentsmith_fs_control_pl.ExportRuntime.Requests.{count_if, count_writes}
use agentsmith_fs_control_pl.ExportRuntime.Steps.{is_open_request}
use agentsmith_fs_control_pl.Prelude.{
  Bool-cases, List, Option, false, inl, inr, none, some, subst, sym, ℕ, ◌∷◌, ◌≡◌, ◌⊎◌, ==_iff, Bool,
  arith, refl, true, ◌&&◌, ◌==◌,
}
use agentsmith_fs_control_pl.Text.{Text, text_eq, text_eq_iff, text_eq_refl}

-- The counts of a row against those of the ledger; the mark of a drained session stands only where
-- no request writes.
abbrev pub Matches : Option StoredSession → ℕ → ℕ → Type 0
Matches none requests writes = (requests ≡ 0) × (writes ≡ 0)
Matches (some s) requests writes =
    (s.active_request_count ≡ requests)
    × (s.active_write_count ≡ writes)
    × ((s.write_drained_at ≡ none) ⊎ (writes ≡ 0))

abbrev pub IsConsistent : Ledger → Type 0
IsConsistent l = (e : Text) → Matches (l.sessions e) (open_requests e l) (open_writes e l)

-- A row is written for one session, and the requests of the others keep their counts.
pub set_session-IsConsistent :
    (l : Ledger) (name : Text) (s : StoredSession) (rs : List RuntimeRequest)
    → Matches (some s) (count_if is_open_request name rs) (count_writes is_open_request name rs)
    → ((e : Text)
        → text_eq e name ≡ false
        → (count_if is_open_request e rs ≡ open_requests e l)
          × (count_writes is_open_request e rs ≡ open_writes e l))
    → IsConsistent l
    → IsConsistent (record { sessions = set_session name s l.sessions; requests = rs })
set_session-IsConsistent l name s rs here others c e = elim (Bool-cases (text_eq e name)) [
  | inl y ↦
      let equal = (text_eq_iff e name).0 y in
      rw y (
        subst
          (λ x.
            Matches (some s) (count_if is_open_request x rs) (count_writes is_open_request x rs))
          (sym equal) here)
  | inr n ↦ let (a, b) = others e n in rw (n, a, b) (c e)
]

pub text_eq_flip : (a b : Text) → text_eq b a ≡ false → text_eq a b ≡ false
text_eq_flip a b h = elim (Bool-cases (text_eq a b)) [
  | inl y ↦ absurd (let equal = (text_eq_iff b a).1 (sym ((text_eq_iff a b).0 y)) in cc)
  | inr n ↦ n
]

pub drained_or :
    (writes : ℕ) (x : Option Time) (t : Time) → (drained writes x t ≡ none) ⊎ (writes ≡ 0)
drained_or writes x t = elim (Bool-cases (writes == 0)) [
  | inl z ↦ inr ((==_iff writes 0).0 z)
  | inr n ↦ inl (rw n refl)
]

-- A row with the right counts, whose mark is that of its statement.
pub marked :
    (s : StoredSession) (requests writes : ℕ) (x : Option Time) (t : Time)
    → s.active_request_count ≡ requests
    → s.active_write_count ≡ writes
    → s.write_drained_at ≡ drained s.active_write_count x t
    → Matches (some s) requests writes
marked s requests writes x t a b m = (
  a,
  b,
  subst (λ w. (s.write_drained_at ≡ none) ⊎ (w ≡ 0)) b
      (subst (λ d. (d ≡ none) ⊎ (s.active_write_count ≡ 0)) (sym m)
        (drained_or s.active_write_count x t)),
)

pub one_if_and : (b c : Bool) → c ≡ true → one_if ((true && b) && c) ≡ one_if b
one_if_and b c h = ground arith

-- A new request counts for its own session, and for no other.
opened-here :
    (q : RequestBegin) (s : StoredSession) (l : Ledger)
    → Matches (some s) (open_requests q.export_id l) (open_writes q.export_id l)
    → Matches
        (some (incremented q s))
        (count_if is_open_request q.export_id (opened q ∷ l.requests))
        (count_writes is_open_request q.export_id (opened q ∷ l.requests))
opened-here q s l (a, b, _) =
    let self = text_eq_refl q.export_id in
    marked (incremented q s) _ _ s.write_drained_at q.started_at (rw self (omega (arith, a)))
      (omega (arith, b, one_if_and q.write (text_eq q.export_id q.export_id) self)) refl

opened-others :
    (q : RequestBegin) (l : Ledger) (e : Text)
    → text_eq e q.export_id ≡ false
    → (count_if is_open_request e (opened q ∷ l.requests) ≡ open_requests e l)
      × (count_writes is_open_request e (opened q ∷ l.requests) ≡ open_writes e l)
opened-others q l e n = let m = text_eq_flip q.export_id e n in (rw m (omega arith), ground arith)

begin_new-IsConsistent :
    (q : RequestBegin) (restoring : Bool) (l : Ledger) (o : Option StoredSession)
    → l.sessions q.export_id ≡ o
    → IsConsistent l
    → IsConsistent (begin_new q restoring l o).1
begin_new-IsConsistent q restoring l none e c = c
begin_new-IsConsistent q restoring l (some s) e c = elim (Bool-cases (eligible q restoring s)) [
  | inl y ↦ rw y (
      set_session-IsConsistent l q.export_id (incremented q s) (opened q ∷ l.requests)
        (opened-here q s l (
          subst (λ o. Matches o (open_requests q.export_id l) (open_writes q.export_id l)) e
            (c q.export_id)))
        (opened-others q l) c)
  | inr n ↦ rw n c
]

begin_with-IsConsistent :
    (q : RequestBegin) (restoring : Bool) (l : Ledger) (o : Option RuntimeRequest)
    → IsConsistent l
    → IsConsistent (begin_with q restoring l o).1
begin_with-IsConsistent q restoring l none c =
    begin_new-IsConsistent q restoring l (l.sessions q.export_id) refl c
begin_with-IsConsistent q restoring l (some r) c = elim (Bool-cases (same_request q r)) [
  | inl y ↦ rw y c
  | inr n ↦ rw n c
]

pub begin_request-IsConsistent :
    (q : RequestBegin) (restoring : Bool) (l : Ledger)
    → IsConsistent l
    → IsConsistent (begin_request q restoring l).1
unfolding begin_request
begin_request-IsConsistent q restoring l c =
    begin_with-IsConsistent q restoring l (find_request q.request_id l.requests) c
