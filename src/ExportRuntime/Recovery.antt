-- ===== src/ExportRuntime/Recovery.antt =====
-- The recovery of stale requests keeps the counts right
-- (internal/store/postgres/export_sessions.go).
use mathlib.Core.Option
use agentsmith_fs_control_pl.Clock.{Time}
use agentsmith_fs_control_pl.ExportRuntime.{Ledger, RuntimeRequest, StoredSession}
use agentsmith_fs_control_pl.ExportRuntime.Counts.{
  count_if-ext, count_if-le, count_if-recover, open_requests, open_writes,
}
use agentsmith_fs_control_pl.ExportRuntime.Invariant.{IsConsistent, Matches, marked}
use agentsmith_fs_control_pl.ExportRuntime.Requests.{
  all_eligible, count_if, count_writes, decreased, is_stale, recover_rows, recover_stale,
  recovered_session,
}
use agentsmith_fs_control_pl.ExportRuntime.Steps.{is_open_request}
use agentsmith_fs_control_pl.Prelude.{
  ==_iff, Bool, Bool-cases, List, Option, arith, inl, inr, none, refl, some, true, ℕ, ◌&&◌, ◌+◌,
  ◌==◌, ◌≡◌, ◌≤◌, ◌⊎◌,
}
use agentsmith_fs_control_pl.Text.{Text}

is_open-and_true : (r : RuntimeRequest) → is_open_request r && true ≡ is_open_request r
is_open-and_true r = ground arith

is_stale-and_true :
    (now : Time) (chosen : Text → Bool) (r : RuntimeRequest)
    → is_stale now chosen r && true ≡ is_stale now chosen r
is_stale-and_true now chosen r = ground arith

-- What was open is closed or still open, for all requests and for those that write.
pub recovered-counts :
    (now : Time) (chosen : Text → Bool) (e : Text) (rs : List RuntimeRequest)
    → (count_if is_open_request e (recover_rows now chosen rs) + count_if (is_stale now chosen) e rs
        ≡ count_if is_open_request e rs)
      × (count_writes is_open_request e (recover_rows now chosen rs)
            + count_writes (is_stale now chosen) e rs
          ≡ count_writes is_open_request e rs)
recovered-counts now chosen e rs = (
  omega (
    arith,
    count_if-recover (λ r. true) now chosen e rs (λ r. refl),
    count_if-ext (λ r. is_open_request r && true) is_open_request e (recover_rows now chosen rs)
        is_open-and_true,
    count_if-ext (λ r. is_open_request r && true) is_open_request e rs is_open-and_true,
    count_if-ext (λ r. is_stale now chosen r && true) (is_stale now chosen) e rs
        (is_stale-and_true now chosen),
  ),
  count_if-recover (λ r. r.write) now chosen e rs (λ r. refl),
)

unchanged :
    (s : StoredSession) (writes writes' n w : ℕ)
    → writes' + w ≡ writes
    → w ≤ n
    → n ≡ 0
    → (s.write_drained_at ≡ none) ⊎ (writes ≡ 0)
    → (s.write_drained_at ≡ none) ⊎ (writes' ≡ 0)
unchanged s writes writes' n w q le z (inl d) = inl d
unchanged s writes writes' n w q le z (inr d) = inr (omega arith)

recovered_session-Matches :
    (now : Time) (s : StoredSession) (requests writes requests' writes' n w : ℕ)
    → requests' + n ≡ requests
    → writes' + w ≡ writes
    → w ≤ n
    → Matches (some s) requests writes
    → Matches (some (recovered_session now n w s)) requests' writes'
recovered_session-Matches now s requests writes requests' writes' n w p q le (a, b, d) =
    elim (Bool-cases (n == 0)) [
      | inl z ↦
          rw z
            (ground arith, ground arith, unchanged s writes writes' n w q le ((==_iff n 0).0 z) d)
      | inr k ↦ rw k (
          marked (decreased now n w s) requests' writes' s.write_drained_at now (ground arith)
            (ground arith) refl)
    ]

recovered-Matches :
    (now : Time) (chosen : Text → Bool) (l : Ledger) (e : Text) (o : Option StoredSession)
    → Matches o (open_requests e l) (open_writes e l)
    → Matches
        (Option.map
          (recovered_session now
            (count_if (is_stale now chosen) e l.requests)
            (count_writes (is_stale now chosen) e l.requests))
          o)
        (count_if is_open_request e (recover_rows now chosen l.requests))
        (count_writes is_open_request e (recover_rows now chosen l.requests))
recovered-Matches now chosen l e none (a, b) =
    let (p, q) = recovered-counts now chosen e l.requests in (omega (arith, p), omega (arith, q))
recovered-Matches now chosen l e (some s) m =
    let (p, q) = recovered-counts now chosen e l.requests in
    recovered_session-Matches now s _ _ _ _ _ _ p q
      (count_if-le (is_stale now chosen) (λ r. r.write) e l.requests) m

pub recover_stale-IsConsistent :
    (now : Time) (chosen : Text → Bool) (l : Ledger)
    → IsConsistent l
    → IsConsistent (recover_stale now chosen l)
unfolding recover_stale
recover_stale-IsConsistent now chosen l c =
    elim (Bool-cases (all_eligible now chosen l l.requests)) [
      | inl y ↦ rw y (λ e. recovered-Matches now chosen l e (l.sessions e) (c e))
      | inr n ↦ rw n c
    ]
