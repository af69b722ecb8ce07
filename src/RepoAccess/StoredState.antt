-- ===== src/RepoAccess/StoredState.antt =====
-- The stored state that an admission reads (`validateStoredState` and `validateFence` of
-- internal/repoaccess/repoaccess.go).
use agentsmith_fs_control_pl.Clock.{is_zero}
use agentsmith_fs_control_pl.PathResolver.Id.{IdKind, operation_id, validate_id}
use agentsmith_fs_control_pl.Prelude.{
  All, List, Option, [], arith, false, inl, inr, none, refl, ◌∷◌, ◌≡◌, ◌⊎◌, true, ◌↔◌,
}
use agentsmith_fs_control_pl.RepoAccess.{
  Fence, FenceKind, FenceStatus, Request, active, expired, fence_broken, fence_kind_valid,
  fence_status_valid, fences_broken, lifecycle, recovery_required, stored_state_broken,
  writer_session,
}
use agentsmith_fs_control_pl.Resources.{validate_namespace, validate_repo}
use agentsmith_fs_control_pl.Resources.Binding.{validate_binding}
use agentsmith_fs_control_pl.Resources.Policy.{Float}
use agentsmith_fs_control_pl.Text.{Text, text_eq, text_eq_iff}

-- A fence as it may stand among those of the repository.
pub record IsSoundFence (repo : Text) (f : Fence) : Type 0 where
  pub of_repo : f.repo_id ≡ repo
  pub repo_named : validate_id IdKind.repo_id f.repo_id ≡ none
  pub holder_named : validate_id operation_id f.holder_operation_id ≡ none
  pub kind : (f.kind ≡ lifecycle) ⊎ (f.kind ≡ writer_session)
  pub status : (f.status ≡ active) ⊎ ((f.status ≡ expired) ⊎ (f.status ≡ recovery_required))
  pub expiry : is_zero f.expires_at ≡ false
  pub creation : is_zero f.created_at ≡ false
  pub update : is_zero f.updated_at ≡ false

-- The records of the request pass the checks of their types, and its fences are sound.
pub record IsSoundState (parse : Text → Option Float) (q : Request) : Type 0 where
  pub repo : validate_repo q.repo ≡ none
  pub namespace : validate_namespace q.namespace ≡ none
  pub binding : validate_binding parse q.binding ≡ none
  pub fences : All (IsSoundFence q.repo.id) q.held_repo_fences

kind-cases : (k : FenceKind) → fence_kind_valid k ≡ true → (k ≡ lifecycle) ⊎ (k ≡ writer_session)
kind-cases lifecycle h = inl refl
kind-cases writer_session h = inr refl
kind-cases (FenceKind.other_kind s) h = cc

status-cases :
    (s : FenceStatus)
    → fence_status_valid s ≡ true
    → (s ≡ active) ⊎ ((s ≡ expired) ⊎ (s ≡ recovery_required))
status-cases active h = inl refl
status-cases expired h = inr (inl refl)
status-cases recovery_required h = inr (inr refl)
status-cases (FenceStatus.other_status s) h = cc

kind-valid : (k : FenceKind) → (k ≡ lifecycle) ⊎ (k ≡ writer_session) → fence_kind_valid k ≡ true
kind-valid k (inl e) = rw e refl
kind-valid k (inr e) = rw e refl

status-valid :
    (s : FenceStatus)
    → (s ≡ active) ⊎ ((s ≡ expired) ⊎ (s ≡ recovery_required))
    → fence_status_valid s ≡ true
status-valid s (inl e) = rw e refl
status-valid s (inr (inl e)) = rw e refl
status-valid s (inr (inr e)) = rw e refl

fence_sound :
    (repo : Text) (f : Fence)
    → fence_broken f ≡ false
    → text_eq f.repo_id repo ≡ true
    → IsSoundFence repo f
unfolding fence_broken
fence_sound repo f h e = record {
  of_repo = (text_eq_iff f.repo_id repo).0 e;
  repo_named = ground arith;
  holder_named = ground arith;
  kind = kind-cases f.kind (ground arith);
  status = status-cases f.status (ground arith);
  expiry = ground arith;
  creation = ground arith;
  update = ground arith;
}

fence_complete : (repo : Text) (f : Fence) → IsSoundFence repo f → fence_broken f ≡ false
unfolding fence_broken
fence_complete repo f s =
    rw (s.repo_named, s.holder_named, s.expiry, s.creation, s.update)
      (rw (kind-valid f.kind s.kind, status-valid f.status s.status) refl)

fences_sound :
    (repo : Text) (fs : List Fence) → fences_broken repo fs ≡ false → All (IsSoundFence repo) fs
unfolding fences_broken
fences_sound repo [] h = tt
fences_sound repo (f ∷ fs) h =
    (fence_sound repo f (ground arith) (ground arith), fences_sound repo fs (ground arith))

fences_complete :
    (repo : Text) (fs : List Fence) → All (IsSoundFence repo) fs → fences_broken repo fs ≡ false
unfolding fences_broken
fences_complete repo [] h = refl
fences_complete repo (f ∷ fs) (s, ss) =
    rw
      (
        fence_complete repo f s,
        (text_eq_iff f.repo_id repo).1 s.of_repo,
        fences_complete repo fs ss,
      )
      refl

-- The check of the stored state finds nothing broken exactly if the state is sound.
pub stored_state_broken_iff :
    (parse : Text → Option Float) (q : Request)
    → (stored_state_broken parse q ≡ false) ↔ IsSoundState parse q
unfolding stored_state_broken
stored_state_broken_iff parse q = (
  (λ h. record {
    repo = ground arith;
    namespace = ground arith;
    binding = ground arith;
    fences = fences_sound q.repo.id q.held_repo_fences (ground arith);
  }),
  λ s. rw (s.repo, s.namespace, s.binding) (fences_complete q.repo.id q.held_repo_fences s.fences),
)
