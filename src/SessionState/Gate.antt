-- ===== src/SessionState/Gate.antt =====
-- When the gates of internal/sessionstate/sessionstate.go open.
use agentsmith_fs_control_pl.Prelude.{
  All, Bool-cases, List, Option, [], arith, false, inl, inr, none, ok, ◌∷◌, ◌≡◌, and_then-ok,
  Result, err, refl, subst, true, ◌and_then◌, ◌↔◌, ap,
}
use agentsmith_fs_control_pl.SessionState.{
  Tally, export_blocker, mount_blocker, scan_exports, visit, conclude, decide, empty_tally,
  evaluate, invalid_state, scan_mounts,
}
use agentsmith_fs_control_pl.SessionState.Sessions.{
  BlockerClass, ExportSession, GateKind, GateRequest, SessionError, SessionKind,
  WorkloadMountBinding, blocker_none, validate_export, validate_mount, Decision, export,
  validate_target, workload_mount,
}
use agentsmith_fs_control_pl.Text.{Text, text_eq, text_eq_iff}

-- A stored session that does not keep a gate shut: it is of another repository, or it is valid, of
-- the namespace, and no blocker.
abbrev pub IsClear : GateRequest → Text → Text → Option SessionError → BlockerClass → Type 0
IsClear q repo namespace e b =
    repo ≡ q.repo_id → (e ≡ none) × (namespace ≡ q.namespace_id) × (b ≡ blocker_none)

abbrev pub IsClearExport : GateKind → GateRequest → ExportSession → Type 0
IsClearExport k q s =
    IsClear q s.repo_id s.namespace_id (validate_export s) (export_blocker k s q.now)

abbrev pub IsClearMount : GateKind → GateRequest → WorkloadMountBinding → Type 0
IsClearMount k q m = IsClear q m.repo_id m.namespace_id (validate_mount m) (mount_blocker k m q.now)

abbrev IsQuiet : Tally → Type 0
IsQuiet t = (t.active_found ≡ false) × (t.stale_found ≡ false)

-- The texts of one round, compared.
module _ (q : GateRequest) (repo namespace : Text) (e : Option SessionError) (b : BlockerClass)
    (k : SessionKind) (t : Tally) where
  visit-IsQuiet :
      (u : Tally)
      → visit q repo namespace e b k t ≡ ok u
      → IsQuiet u
      → IsQuiet t × IsClear q repo namespace e b
  visit-IsQuiet u h c = (
    (ground arith, ground arith),
    λ p.
        let same = (text_eq_iff repo q.repo_id).1 p in
        (ground arith, (text_eq_iff namespace q.namespace_id).0 (ground arith), ground arith),
  )

  visit_clear : IsClear q repo namespace e b → visit q repo namespace e b k t ≡ ok t
  visit_clear c = elim (Bool-cases (text_eq repo q.repo_id)) [
    | inl y ↦
        let (valid, of_namespace, free) = c ((text_eq_iff repo q.repo_id).0 y) in
        let same = (text_eq_iff namespace q.namespace_id).1 of_namespace in ground arith
    | inr n ↦ rw n
  ]

scan_exports-IsClear :
    (k : GateKind) (q : GateRequest) (ss : List ExportSession) (t u : Tally)
    → scan_exports k q ss t ≡ ok u
    → IsQuiet u
    → IsQuiet t × All (IsClearExport k q) ss
unfolding scan_exports
scan_exports-IsClear k q [] t u h c = (ground arith, tt)
scan_exports-IsClear k q (s ∷ ss) t u h c =
    let b = export_blocker k s q.now in
    let (t', first, rest) =
      and_then-ok (visit q s.repo_id s.namespace_id (validate_export s) b export t)
        (scan_exports k q ss) h in
    let (quiet, cs) = scan_exports-IsClear k q ss t' u rest c in
    let (quiet', clear) =
      visit-IsQuiet q s.repo_id s.namespace_id (validate_export s) b export t t' first quiet in
    (quiet', (clear, cs))

scan_exports_clear :
    (k : GateKind) (q : GateRequest) (ss : List ExportSession) (t : Tally)
    → All (IsClearExport k q) ss
    → scan_exports k q ss t ≡ ok t
unfolding scan_exports
scan_exports_clear k q [] t c = refl
scan_exports_clear k q (s ∷ ss) t (c, cs) =
    rw
      (visit_clear q s.repo_id s.namespace_id (validate_export s) (export_blocker k s q.now) export
        t c)
      (scan_exports_clear k q ss t cs)

scan_mounts-IsClear :
    (k : GateKind) (q : GateRequest) (ms : List WorkloadMountBinding) (t u : Tally)
    → scan_mounts k q ms t ≡ ok u
    → IsQuiet u
    → IsQuiet t × All (IsClearMount k q) ms
unfolding scan_mounts
scan_mounts-IsClear k q [] t u h c = (ground arith, tt)
scan_mounts-IsClear k q (m ∷ ms) t u h c =
    let b = mount_blocker k m q.now in
    let (t', first, rest) =
      and_then-ok (visit q m.repo_id m.namespace_id (validate_mount m) b workload_mount t)
        (scan_mounts k q ms) h in
    let (quiet, cs) = scan_mounts-IsClear k q ms t' u rest c in
    let (quiet', clear) =
      visit-IsQuiet q m.repo_id m.namespace_id (validate_mount m) b workload_mount t t' first
        quiet in
    (quiet', (clear, cs))

scan_mounts_clear :
    (k : GateKind) (q : GateRequest) (ms : List WorkloadMountBinding) (t : Tally)
    → All (IsClearMount k q) ms
    → scan_mounts k q ms t ≡ ok t
unfolding scan_mounts
scan_mounts_clear k q [] t c = refl
scan_mounts_clear k q (m ∷ ms) t (c, cs) =
    rw
      (visit_clear q m.repo_id m.namespace_id (validate_mount m) (mount_blocker k m q.now)
        workload_mount t c)
      (scan_mounts_clear k q ms t cs)

decide-allowed :
    (k : GateKind) (r : Result Decision Tally)
    → ((d : Decision) → r ≡ err d → d ≡ invalid_state)
    → (decide k r).allowed ≡ true
    → (t : Tally) × (r ≡ ok t) × IsQuiet t
unfolding conclude
decide-allowed k (ok t) only h = (t, refl, (ground arith, ground arith))
decide-allowed k (err d) only h = absurd (cc (only d refl))

visit-err :
    (q : GateRequest) (repo namespace : Text) (e : Option SessionError) (b : BlockerClass)
    (k : SessionKind) (t : Tally) (d : Decision)
    → visit q repo namespace e b k t ≡ err d
    → d ≡ invalid_state
visit-err q repo namespace e b k t d h = ground arith

and_then-only :
    {A B : Type 0} (m : Result Decision A) (f : A → Result Decision B)
    → ((d : Decision) → m ≡ err d → d ≡ invalid_state)
    → ((a : A) (d : Decision) → f a ≡ err d → d ≡ invalid_state)
    → (d : Decision) → (m and_then f) ≡ err d
    → d ≡ invalid_state
and_then-only (ok a) f hm hf d h = hf a d h
and_then-only (err e) f hm hf d h = let p : e ≡ d = cc in hm d (ap err p)

scan_exports-err :
    (k : GateKind) (q : GateRequest) (ss : List ExportSession) (t : Tally) (d : Decision)
    → scan_exports k q ss t ≡ err d
    → d ≡ invalid_state
unfolding scan_exports
scan_exports-err k q [] t d h = cc
scan_exports-err k q (s ∷ ss) t d h =
    and_then-only _ (scan_exports k q ss) (visit-err q _ _ _ _ _ t) (λ u. scan_exports-err k q ss u)
      d h

scan_mounts-err :
    (k : GateKind) (q : GateRequest) (ms : List WorkloadMountBinding) (t : Tally) (d : Decision)
    → scan_mounts k q ms t ≡ err d
    → d ≡ invalid_state
unfolding scan_mounts
scan_mounts-err k q [] t d h = cc
scan_mounts-err k q (m ∷ ms) t d h =
    and_then-only _ (scan_mounts k q ms) (visit-err q _ _ _ _ _ t) (λ u. scan_mounts-err k q ms u) d
      h

scan : GateKind → GateRequest → Result Decision Tally
scan k q = scan_exports k q q.export_sessions empty_tally and_then scan_mounts k q q.mounts

evaluate-run :
    (k : GateKind) (q : GateRequest) → validate_target q ≡ none → evaluate k q ≡ decide k (scan k q)
unfolding evaluate scan
evaluate-run k q v = rw v

-- What opens a gate.
pub record IsOpen (k : GateKind) (q : GateRequest) : Type 0 where
  pub target : validate_target q ≡ none
  pub exports : All (IsClearExport k q) q.export_sessions
  pub mounts : All (IsClearMount k q) q.mounts

-- A gate opens exactly for a valid target all of whose stored sessions, exports and mounts, are
-- valid, of the namespace of the request and no blocker of that gate; sessions of other
-- repositories do not matter.
pub evaluate-allowed_iff :
    (k : GateKind) (q : GateRequest) → ((evaluate k q).allowed ≡ true) ↔ IsOpen k q
evaluate-allowed_iff k q = (sound, complete)
  where
    sound : (evaluate k q).allowed ≡ true → IsOpen k q
    sound h =
        let v : validate_target q ≡ none = unfold evaluate in ground arith in
        let (u, run, quiet) =
          decide-allowed k (scan k q)
            (unfold scan in
              and_then-only _ (scan_mounts k q q.mounts)
                (scan_exports-err k q q.export_sessions empty_tally)
                (λ t. scan_mounts-err k q q.mounts t))
            (subst (λ d. d.allowed ≡ true) (evaluate-run k q v) h) in
        let (t, es, ms) =
          and_then-ok (scan_exports k q q.export_sessions empty_tally) (scan_mounts k q q.mounts)
            {new = u} (unfold scan in run) in
        let (quiet', cm) = scan_mounts-IsClear k q q.mounts t u ms quiet in
        let (_, ce) = scan_exports-IsClear k q q.export_sessions empty_tally t es quiet' in
        record { target = v; exports = ce; mounts = cm }

    complete : IsOpen k q → (evaluate k q).allowed ≡ true
    complete o = rw (evaluate-run k q o.target) (
        unfold scan conclude in
        rw (scan_exports_clear k q q.export_sessions empty_tally o.exports)
          (rw (scan_mounts_clear k q q.mounts empty_tally o.mounts) refl))
