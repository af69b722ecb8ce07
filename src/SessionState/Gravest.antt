-- ===== src/SessionState/Gravest.antt =====
-- Which error a shut gate of internal/sessionstate/sessionstate.go gives: that of the gravest
-- finding, whatever the order of the sessions.
use agentsmith_fs_control_pl.Prelude.{
  All, Bool, Bool-cases, List, Option, [], arith, false, if◌then◌else◌, inl, inr, none, ok, refl,
  true, ◌∷◌, ◌≡◌,
}
use agentsmith_fs_control_pl.SessionState.{
  Tally, conclude, empty_tally, evaluate, export_blocker, mount_blocker, note, scan_exports,
  scan_mounts, visit,
}
use agentsmith_fs_control_pl.SessionState.Sessions.{
  BlockerClass, ErrorFamily, ExportSession, GateKind, GateRequest, SessionError, SessionKind,
  WorkloadMountBinding, active_sessions_block_lifecycle, active_writer_sessions, blocker_active,
  blocker_none, blocker_stale, export, lifecycle_drain, no_error, restore_writer,
  stale_sessions_block_lifecycle, stale_writer_session_uncertain, validate_export, validate_mount,
  validate_target, workload_mount,
}
use agentsmith_fs_control_pl.Text.{Text, text_eq, text_eq_iff}

-- The graver of two findings, and the gravest among the sessions of a repository.
abbrev pub graver : BlockerClass → BlockerClass → BlockerClass
graver blocker_active b = blocker_active
graver blocker_stale blocker_active = blocker_active
graver blocker_stale b = blocker_stale
graver blocker_none b = b

unfoldable pub gravest_export : GateKind → GateRequest → List ExportSession → BlockerClass
gravest_export k q [] = blocker_none
gravest_export k q (s ∷ ss) =
    let rest = gravest_export k q ss in
    if text_eq s.repo_id q.repo_id then graver (export_blocker k s q.now) rest else rest

unfoldable pub gravest_mount : GateKind → GateRequest → List WorkloadMountBinding → BlockerClass
gravest_mount k q [] = blocker_none
gravest_mount k q (m ∷ ms) =
    let rest = gravest_mount k q ms in
    if text_eq m.repo_id q.repo_id then graver (mount_blocker k m q.now) rest else rest

abbrev pub is_no_blocker : BlockerClass → Bool
is_no_blocker blocker_none = true
is_no_blocker _ = false

-- The error of a gate for the gravest finding.
abbrev pub family_of : GateKind → BlockerClass → ErrorFamily
family_of k blocker_none = no_error
family_of restore_writer blocker_active = active_writer_sessions
family_of restore_writer blocker_stale = stale_writer_session_uncertain
family_of lifecycle_drain blocker_active = active_sessions_block_lifecycle
family_of lifecycle_drain blocker_stale = stale_sessions_block_lifecycle

-- Stored sessions of the repository are valid and of the namespace.
abbrev pub IsSound : GateRequest → Text → Text → Option SessionError → Type 0
IsSound q repo namespace e = repo ≡ q.repo_id → (e ≡ none) × (namespace ≡ q.namespace_id)

abbrev class_of : Tally → BlockerClass
class_of t =
    if t.active_found then blocker_active else if t.stale_found then blocker_stale else blocker_none

visit_sound :
    (q : GateRequest) (repo namespace : Text) (e : Option SessionError) (b : BlockerClass)
    (k : SessionKind) (t : Tally)
    → IsSound q repo namespace e
    → (u : Tally) × (visit q repo namespace e b k t ≡ ok u)
      × (class_of u ≡ (if text_eq repo q.repo_id then graver (class_of t) b else class_of t))
visit_sound q repo namespace e b k t c = elim (Bool-cases (text_eq repo q.repo_id)) [
  | inl y ↦
      let (valid, of_namespace) = c ((text_eq_iff repo q.repo_id).0 y) in
      let same = (text_eq_iff namespace q.namespace_id).1 of_namespace in
      (note b k t, ground arith, ground arith)
  | inr n ↦ (t, ground arith, ground arith)
]

graver_assoc : (a b c : BlockerClass) → graver (graver a b) c ≡ graver a (graver b c)
graver_assoc a b c = ground arith

scan_exports-class :
    (k : GateKind) (q : GateRequest) (ss : List ExportSession) (t : Tally)
    → All (λ s. IsSound q s.repo_id s.namespace_id (validate_export s)) ss
    → (u : Tally) × (scan_exports k q ss t ≡ ok u)
      × (class_of u ≡ graver (class_of t) (gravest_export k q ss))
unfolding scan_exports gravest_export
scan_exports-class k q [] t c = (t, refl, ground arith)
scan_exports-class k q (s ∷ ss) t (c, cs) =
    let b = export_blocker k s q.now in
    let (t', first, found) =
      visit_sound q s.repo_id s.namespace_id (validate_export s) b export t c in
    let (u, rest, total) = scan_exports-class k q ss t' cs in
    (
      u,
      rw first rest,
      elim (Bool-cases (text_eq s.repo_id q.repo_id)) [
        | inl y ↦
            rw y (cc (total, rw y at found, graver_assoc (class_of t) b (gravest_export k q ss)))
        | inr n ↦ rw n (cc (total, rw n at found))
      ],
    )

scan_mounts-class :
    (k : GateKind) (q : GateRequest) (ms : List WorkloadMountBinding) (t : Tally)
    → All (λ m. IsSound q m.repo_id m.namespace_id (validate_mount m)) ms
    → (u : Tally) × (scan_mounts k q ms t ≡ ok u)
      × (class_of u ≡ graver (class_of t) (gravest_mount k q ms))
unfolding scan_mounts gravest_mount
scan_mounts-class k q [] t c = (t, refl, ground arith)
scan_mounts-class k q (m ∷ ms) t (c, cs) =
    let b = mount_blocker k m q.now in
    let (t', first, found) =
      visit_sound q m.repo_id m.namespace_id (validate_mount m) b workload_mount t c in
    let (u, rest, total) = scan_mounts-class k q ms t' cs in
    (
      u,
      rw first rest,
      elim (Bool-cases (text_eq m.repo_id q.repo_id)) [
        | inl y ↦
            rw y (cc (total, rw y at found, graver_assoc (class_of t) b (gravest_mount k q ms)))
        | inr n ↦ rw n (cc (total, rw n at found))
      ],
    )

conclude-family :
    (k : GateKind) (t : Tally)
    → ((conclude k t).error_family ≡ family_of k (class_of t))
      × ((conclude k t).allowed ≡ is_no_blocker (class_of t))
unfolding conclude
conclude-family k t = (ground arith, ground arith)

-- Where the target and the stored sessions of the repository are valid, a gate answers by the
-- gravest blocker among them, exports and mounts together: it opens when there is none, and gives
-- the error for active sessions when there is an active one, the error for stale sessions
-- otherwise.
pub evaluate-gravest :
    (k : GateKind) (q : GateRequest)
    → validate_target q ≡ none
    → All (λ s. IsSound q s.repo_id s.namespace_id (validate_export s)) q.export_sessions
    → All (λ m. IsSound q m.repo_id m.namespace_id (validate_mount m)) q.mounts
    → let worst = graver (gravest_export k q q.export_sessions) (gravest_mount k q q.mounts) in
      ((evaluate k q).error_family ≡ family_of k worst)
      × ((evaluate k q).allowed ≡ is_no_blocker worst)
unfolding evaluate
evaluate-gravest k q v es ms =
    let (t, run_exports, found) = scan_exports-class k q q.export_sessions empty_tally es in
    let (u, run_mounts, total) = scan_mounts-class k q q.mounts t ms in
    let (family, opens) = conclude-family k u in
    rw (v, run_exports) (rw run_mounts (cc (family, found, total), cc (opens, found, total)))
