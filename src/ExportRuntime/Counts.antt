-- ===== src/ExportRuntime/Counts.antt =====
-- How the statements of internal/store/postgres/export_sessions.go change the numbers of requests.
use agentsmith_fs_control_pl.Clock.{Time}
use agentsmith_fs_control_pl.ExportRuntime.{
  RuntimeRequest, find_request, is_open, one_if, recovered_request, Ledger,
}
use agentsmith_fs_control_pl.ExportRuntime.Requests.{
  change_request, closed, count_if, is_stale, recover_rows, count_writes,
}
use agentsmith_fs_control_pl.ExportRuntime.Steps.{is_open_request}
use agentsmith_fs_control_pl.Prelude.{
  Bool, Bool-cases, List, [], arith, false, inl, inr, refl, some, subst, true, ◌&&◌, ◌+◌, ◌∷◌, ◌≡◌,
  ap, ℕ, ◌≤◌,
}
use agentsmith_fs_control_pl.Text.{Text, text_eq}

found :
    (q : RuntimeRequest) (rs : List RuntimeRequest) (name : Text) (r : RuntimeRequest)
    → text_eq q.request_id name ≡ true
    → find_request name (q ∷ rs) ≡ some r
    → q ≡ r
found q rs name r y h = ground arith

passed :
    (q : RuntimeRequest) (rs : List RuntimeRequest) (name : Text) (r : RuntimeRequest)
    → text_eq q.request_id name ≡ false
    → find_request name (q ∷ rs) ≡ some r
    → find_request name rs ≡ some r
passed q rs name r n h = ground arith

changed :
    (test : RuntimeRequest → Bool) (e name : Text) (f : RuntimeRequest → RuntimeRequest)
    (q : RuntimeRequest) (rs : List RuntimeRequest) (r : RuntimeRequest)
    → text_eq q.request_id name ≡ true
    → q ≡ r
    → count_if test e (change_request name f (q ∷ rs)) + one_if (test r && text_eq r.export_id e)
      ≡ count_if test e (q ∷ rs) + one_if (test (f r) && text_eq (f r).export_id e)
changed test e name f q rs r y equal = rw y (
    subst
      (λ x.
        one_if (test (f q) && text_eq (f q).export_id e)
          + count_if test e rs
          + one_if (test x && text_eq x.export_id e)
        ≡ one_if (test q && text_eq q.export_id e)
          + count_if test e rs
          + one_if (test (f x) && text_eq (f x).export_id e))
      equal (omega arith))

kept :
    (test : RuntimeRequest → Bool) (e name : Text) (f : RuntimeRequest → RuntimeRequest)
    (q : RuntimeRequest) (rs : List RuntimeRequest) (r : RuntimeRequest)
    → text_eq q.request_id name ≡ false
    → count_if test e (change_request name f rs) + one_if (test r && text_eq r.export_id e)
      ≡ count_if test e rs + one_if (test (f r) && text_eq (f r).export_id e)
    → count_if test e (change_request name f (q ∷ rs)) + one_if (test r && text_eq r.export_id e)
      ≡ count_if test e (q ∷ rs) + one_if (test (f r) && text_eq (f r).export_id e)
kept test e name f q rs r n ih = rw n (omega (arith, ih))

recover_stale_row :
    (write : RuntimeRequest → Bool) (now : Time) (chosen : Text → Bool) (e : Text)
    (r : RuntimeRequest) (rs : List RuntimeRequest)
    → write (closed recovered_request r) ≡ write r
    → is_stale now chosen r ≡ true
    → count_if (λ r. is_open_request r && write r) e (recover_rows now chosen rs)
        + count_if (λ r. is_stale now chosen r && write r) e rs
      ≡ count_if (λ r. is_open_request r && write r) e rs
    → count_if (λ r. is_open_request r && write r) e (recover_rows now chosen (r ∷ rs))
        + count_if (λ r. is_stale now chosen r && write r) e (r ∷ rs)
      ≡ count_if (λ r. is_open_request r && write r) e (r ∷ rs)
recover_stale_row write now chosen e r rs w y ih =
    let o : is_open r.state ≡ true = ground arith in rw (y, o) (omega (arith, ih))

recover_other_row :
    (write : RuntimeRequest → Bool) (now : Time) (chosen : Text → Bool) (e : Text)
    (r : RuntimeRequest) (rs : List RuntimeRequest)
    → is_stale now chosen r ≡ false
    → count_if (λ r. is_open_request r && write r) e (recover_rows now chosen rs)
        + count_if (λ r. is_stale now chosen r && write r) e rs
      ≡ count_if (λ r. is_open_request r && write r) e rs
    → count_if (λ r. is_open_request r && write r) e (recover_rows now chosen (r ∷ rs))
        + count_if (λ r. is_stale now chosen r && write r) e (r ∷ rs)
      ≡ count_if (λ r. is_open_request r && write r) e (r ∷ rs)
recover_other_row write now chosen e r rs n ih = rw n (omega (arith, ih))

-- A change of the first request with a key changes the counts by that request.
pub count_if-change :
    (test : RuntimeRequest → Bool) (e name : Text) (f : RuntimeRequest → RuntimeRequest)
    (rs : List RuntimeRequest) (r : RuntimeRequest)
    → find_request name rs ≡ some r
    → count_if test e (change_request name f rs) + one_if (test r && text_eq r.export_id e)
      ≡ count_if test e rs + one_if (test (f r) && text_eq (f r).export_id e)
count_if-change test e name f [] r h = cc
count_if-change test e name f (q ∷ rs) r h = elim (Bool-cases (text_eq q.request_id name)) [
  | inl y ↦ changed test e name f q rs r y (found q rs name r y h)
  | inr n ↦
      kept test e name f q rs r n (count_if-change test e name f rs r (passed q rs name r n h))
]

-- What a recovery closes and what it leaves add up to what was open.
pub count_if-recover :
    (write : RuntimeRequest → Bool) (now : Time) (chosen : Text → Bool) (e : Text)
    (rs : List RuntimeRequest)
    → ((r : RuntimeRequest) → write (closed recovered_request r) ≡ write r)
    → count_if (λ r. is_open_request r && write r) e (recover_rows now chosen rs)
        + count_if (λ r. is_stale now chosen r && write r) e rs
      ≡ count_if (λ r. is_open_request r && write r) e rs
count_if-recover write now chosen e [] w = refl
count_if-recover write now chosen e (r ∷ rs) w = elim (Bool-cases (is_stale now chosen r)) [
  | inl y ↦
      recover_stale_row write now chosen e r rs (w r) y (count_if-recover write now chosen e rs w)
  | inr n ↦ recover_other_row write now chosen e r rs n (count_if-recover write now chosen e rs w)
]

pub count_if-ext :
    (f g : RuntimeRequest → Bool) (e : Text) (rs : List RuntimeRequest)
    → ((r : RuntimeRequest) → f r ≡ g r)
    → count_if f e rs ≡ count_if g e rs
count_if-ext f g e [] h = refl
count_if-ext f g e (r ∷ rs) h =
    rw (h r) (ap (λ n. one_if (g r && text_eq r.export_id e) + n) (count_if-ext f g e rs h))

pub count_if-le :
    (f g : RuntimeRequest → Bool) (e : Text) (rs : List RuntimeRequest)
    → count_if (λ r. f r && g r) e rs ≤ count_if f e rs
count_if-le f g e [] = omega arith
count_if-le f g e (r ∷ rs) = ground (arith, count_if-le f g e rs)

-- The open requests of a session, and those among them that write.
abbrev pub open_requests : Text → Ledger → ℕ
open_requests e l = count_if is_open_request e l.requests

abbrev pub open_writes : Text → Ledger → ℕ
open_writes e l = count_writes is_open_request e l.requests
