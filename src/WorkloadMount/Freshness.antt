-- ===== src/WorkloadMount/Freshness.antt =====
-- Plans for mounts against the session gates: internal/workloadmount/workloadmount.go and
-- reconcile.go with internal/sessionstate/sessionstate.go.
use agentsmith_fs_control_pl.Clock.{Time, after, non_zero}
use agentsmith_fs_control_pl.Prelude.{
  All, All-map, List, [], arith, false, map, none, refl, subst, true, ◌∷◌, ◌≡◌, ◌≢◌, Bool-cases,
  inl, inr, ◌⊎◌,
}
use agentsmith_fs_control_pl.SessionState.{lifecycle_drain_gate, mount_blocker, mount_evidence}
use agentsmith_fs_control_pl.SessionState.Gate.{IsClearMount, evaluate-allowed_iff}
use agentsmith_fs_control_pl.SessionState.Sessions.{
  GateRequest, MountStatus, WorkloadMountBinding, blocker_none, blocker_stale, lifecycle_drain,
  mount_status_valid, mount_terminal, restore_writer, validate_mount,
}
use agentsmith_fs_control_pl.WorkloadMount.{
  Binding, allow_issuance, binding_plan_freshness, freshness_of, no_ordinary_plan, terminal,
  valid_status,
}

-- What `scanWorkloadMountBinding` of internal/store/postgres/session_state.go reads of a stored
-- binding for the gates.
abbrev pub gate_view : Binding → WorkloadMountBinding
gate_view m = record {
  id = m.id;
  namespace_id = m.namespace_id;
  repo_id = m.repo_id;
  read_only_mount = m.read_only_mount;
  status = m.status;
  lease_expires_at = m.lease_expires_at;
  confirmed_unmounted_at = m.confirmed_unmounted_at;
  unable_to_write_at = m.unable_to_write_at;
  terminal_observed_at = m.terminal_observed_at;
  created_at = m.created_at;
  updated_at = m.updated_at;
}

-- A binding that a lifecycle operation does not wait for: no plan is given for it any more, and it
-- was seen unmounted.
abbrev pub IsGone : GateRequest → Binding → Type 0
IsGone q m =
    m.repo_id ≡ q.repo_id
    → (binding_plan_freshness m q.now ≡ no_ordinary_plan)
      × (non_zero m.confirmed_unmounted_at ≡ true)

clear_is_gone :
    (s : MountStatus) (m : Binding) (now : Time)
    → m.status ≡ s
    → valid_status s ≡ true
    → mount_blocker lifecycle_drain (gate_view m) now ≡ blocker_none
    → (freshness_of s m.lease_expires_at now ≡ no_ordinary_plan)
      × (non_zero m.confirmed_unmounted_at ≡ true)
unfolding mount_blocker mount_evidence freshness_of valid_status
clear_is_gone MountStatus.issued m now e v b = ground arith
clear_is_gone MountStatus.pending m now e v b = ground arith
clear_is_gone MountStatus.active m now e v b = ground arith
clear_is_gone MountStatus.releasing m now e v b = ground arith
clear_is_gone MountStatus.released m now e v b = ground arith
clear_is_gone MountStatus.revoked m now e v b = ground arith
clear_is_gone MountStatus.expired m now e v b = ground arith
clear_is_gone MountStatus.failed m now e v b = ground arith
clear_is_gone (MountStatus.other_status s) m now e v b = cc

All-of_map {ℓ} :
    {A : Type 0} {B : Type 0} (P : B → Type ℓ) (f : A → B) (xs : List A)
    → All P (map f xs)
    → All (λ x. P (f x)) xs
All-of_map P f [] h = tt
All-of_map P f (x ∷ xs) (h, hs) = (h, All-of_map P f xs hs)

valid_of : (s : MountStatus) → mount_status_valid s ≡ true → valid_status s ≡ true
unfolding valid_status
valid_of (MountStatus.other_status s) h = cc
valid_of s h = refl

valid_mount-status :
    (m : Binding) → validate_mount (gate_view m) ≡ none → valid_status m.status ≡ true
unfolding validate_mount
valid_mount-status m h = valid_of m.status (ground arith)

-- When the lifecycle gate opens on the stored bindings of a repository, no ordinary plan is given
-- for any of them, and each was confirmed unmounted.
pub lifecycle_drain_gate-IsGone :
    (q : GateRequest) (ms : List Binding)
    → q.mounts ≡ map gate_view ms
    → (lifecycle_drain_gate q).allowed ≡ true
    → All (IsGone q) ms
unfolding lifecycle_drain_gate binding_plan_freshness
lifecycle_drain_gate-IsGone q ms e h =
    let clear =
      subst (All (IsClearMount lifecycle_drain q)) e
        ((evaluate-allowed_iff lifecycle_drain q).0 h).mounts in
    All-map
      (λ m c p.
        let (v, _, b) = c p in clear_is_gone m.status m q.now refl (valid_mount-status m v) b)
      ms (All-of_map (IsClearMount lifecycle_drain q) gate_view ms clear)

stale_status :
    (s : MountStatus) (expires now : Time)
    → terminal s ≡ false
    → after expires now ≡ false
    → (mount_terminal s ≡ false) × (freshness_of s expires now ≢ allow_issuance)
unfolding terminal freshness_of
stale_status MountStatus.issued expires now t a = (refl, λ e. ground arith)
stale_status MountStatus.pending expires now t a = (refl, λ e. ground arith)
stale_status MountStatus.active expires now t a = (refl, λ e. ground arith)
stale_status MountStatus.releasing expires now t a = (refl, λ e. cc)
stale_status (MountStatus.other_status s) expires now t a = (refl, λ e. cc)
stale_status MountStatus.released expires now t a = cc
stale_status MountStatus.revoked expires now t a = cc
stale_status MountStatus.expired expires now t a = cc
stale_status MountStatus.failed expires now t a = cc

stale_lifecycle :
    (m : Binding) (now : Time)
    → mount_terminal m.status ≡ false
    → after m.lease_expires_at now ≡ false
    → mount_blocker lifecycle_drain (gate_view m) now ≡ blocker_stale
unfolding mount_blocker
stale_lifecycle m now t a = rw (t, a) refl

stale_restore :
    (m : Binding) (now : Time)
    → m.read_only_mount ≡ false
    → mount_terminal m.status ≡ false
    → after m.lease_expires_at now ≡ false
    → mount_blocker restore_writer (gate_view m) now ≡ blocker_stale
unfolding mount_blocker
stale_restore m now w t a = rw (w, t, a) refl

-- A binding whose lease has run out and whose status is not terminal is a stale blocker of the
-- lifecycle gate, and, unless it is read-only, of the restore gate; its plan is not issued again.
pub stale_binding-blocks :
    (m : Binding) (now : Time)
    → terminal m.status ≡ false
    → after m.lease_expires_at now ≡ false
    → (mount_blocker lifecycle_drain (gate_view m) now ≡ blocker_stale)
      × ((m.read_only_mount ≡ true)
          ⊎ (mount_blocker restore_writer (gate_view m) now ≡ blocker_stale))
      × (binding_plan_freshness m now ≢ allow_issuance)
unfolding binding_plan_freshness
stale_binding-blocks m now t a =
    let s = stale_status m.status m.lease_expires_at now t a in
    (stale_lifecycle m now s.0 a, restore, s.1)
  where
    restore :
        (m.read_only_mount ≡ true)
        ⊎ (mount_blocker restore_writer (gate_view m) now ≡ blocker_stale)
    restore = elim (Bool-cases m.read_only_mount) [
      | inl r ↦ inl r
      | inr w ↦ inr (stale_restore m now w (stale_status m.status m.lease_expires_at now t a).0 a)
    ]
