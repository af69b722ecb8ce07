-- ===== src/RepoAccess.antt =====
-- internal/repoaccess/repoaccess.go: whether an operation may use a repository. A string type of
-- the
-- source has a constructor for each of its constants and one for any other string. `Action` follows
-- `Allowed` and the reason is a text for people: both are left out.
pub mod FenceLaws
pub mod StoredState
pub mod Admission
pub mod Storage
mod Tests
use agentsmith_fs_control_pl.Clock.{Time, is_zero}
use agentsmith_fs_control_pl.PathResolver.Id.{IdKind, operation_id, validate_id, namespace_id}
use agentsmith_fs_control_pl.Prelude.{
  Bool, List, Option, [], false, if◌then◌else◌, is_some, none, not, some, true, ◌&&◌, ◌||◌, ◌∷◌,
}
use agentsmith_fs_control_pl.Resources.{
  Namespace, Repo, RepoStatus, is_active, is_repo, archiving, archived, restoring_archived,
  deleting, tombstoned, restoring_tombstoned, purging, purged, operator_intervention_required,
  repo_status_eq, validate_namespace, validate_repo,
}
use agentsmith_fs_control_pl.Resources.Binding.{NamespaceVolumeBinding, validate_binding}
use agentsmith_fs_control_pl.Resources.Policy.{Float}
use agentsmith_fs_control_pl.Text.{Text, text_eq}

pub data Intent : Type 0 where
  storage_session storage_mutation export_create workload_mount save_point_create restore : Intent
  template_create_from_repo template_clone_into_repo lifecycle_archive : Intent
  lifecycle_restore_archived lifecycle_delete lifecycle_restore_tombstoned lifecycle_purge : Intent
  other_intent : Text → Intent

abbrev pub intent_valid : Intent → Bool
intent_valid (other_intent s) = false
intent_valid _ = true

abbrev pub is_lifecycle_intent : Intent → Bool
is_lifecycle_intent lifecycle_archive = true
is_lifecycle_intent lifecycle_restore_archived = true
is_lifecycle_intent lifecycle_delete = true
is_lifecycle_intent lifecycle_restore_tombstoned = true
is_lifecycle_intent lifecycle_purge = true
is_lifecycle_intent _ = false

pub data Mode : Type 0 where
  read_only read_write : Mode
  other_mode : Text → Mode

abbrev pub mode_valid : Mode → Bool
mode_valid (other_mode s) = false
mode_valid _ = true

abbrev pub is_read_write : Mode → Bool
is_read_write read_write = true
is_read_write _ = false

pub data ErrorFamily : Type 0 where
  no_error internal_error namespace_disabled repo_archived repo_tombstoned repo_purged : ErrorFamily
  repo_lifecycle_invalid_state repo_lifecycle_fence_held writer_session_fence_held : ErrorFamily
  operation_recovery_required : ErrorFamily

pub data FenceKind : Type 0 where
  lifecycle writer_session : FenceKind
  other_kind : Text → FenceKind

abbrev pub fence_kind_valid : FenceKind → Bool
fence_kind_valid (other_kind s) = false
fence_kind_valid _ = true

abbrev pub is_lifecycle : FenceKind → Bool
is_lifecycle lifecycle = true
is_lifecycle _ = false

abbrev pub is_writer_session : FenceKind → Bool
is_writer_session writer_session = true
is_writer_session _ = false

pub data FenceStatus : Type 0 where
  active expired recovery_required : FenceStatus
  other_status : Text → FenceStatus

abbrev pub fence_status_valid : FenceStatus → Bool
fence_status_valid (other_status s) = false
fence_status_valid _ = true

abbrev pub needs_recovery : FenceStatus → Bool
needs_recovery expired = true
needs_recovery recovery_required = true
needs_recovery _ = false

pub record Fence : Type 0 where
  pub id : Text
  pub repo_id : Text
  pub kind : FenceKind
  pub holder_operation_id : Text
  pub status : FenceStatus
  pub expires_at : Time
  pub released_at : Option Time
  pub recovered_at : Option Time
  pub created_at : Time
  pub updated_at : Time

-- `fence.Held()`
abbrev pub is_held : Fence → Bool
is_held f = not (is_some f.released_at) && not (is_some f.recovered_at)

pub record Request : Type 0 where
  pub repo : Repo
  pub namespace : Namespace
  pub binding : NamespaceVolumeBinding
  pub held_repo_fences : List Fence
  pub intent : Intent
  pub mode : Mode

pub record Decision : Type 0 where
  pub allowed : Bool
  pub error_family : ErrorFamily
  pub blocking_fence_kind : Option FenceKind

abbrev pub allow : Decision
allow = record { allowed = true; error_family = no_error; blocking_fence_kind = none }

abbrev pub deny : ErrorFamily → Option FenceKind → Decision
deny e k = record { allowed = false; error_family = e; blocking_fence_kind = k }

-- Whether `validateFence` returns an error.
unfoldable pub fence_broken : Fence → Bool
fence_broken f =
    is_some (validate_id IdKind.repo_id f.repo_id)
    || is_some (validate_id operation_id f.holder_operation_id)
    || not (fence_kind_valid f.kind)
    || not (fence_status_valid f.status)
    || (is_zero f.expires_at || is_zero f.created_at || is_zero f.updated_at)

unfoldable pub fences_broken : Text → List Fence → Bool
fences_broken repo [] = false
fences_broken repo (f ∷ fs) =
    fence_broken f || not (text_eq f.repo_id repo) || fences_broken repo fs

-- Whether `validateStoredState` returns an error.
unfoldable pub stored_state_broken : (Text → Option Float) → Request → Bool
stored_state_broken parse q =
    is_some (validate_repo q.repo)
    || is_some (validate_namespace q.namespace)
    || is_some (validate_binding parse q.binding)
    || fences_broken q.repo.id q.held_repo_fences

unfoldable pub deny_for_held_lifecycle_fence : List Fence → Option Decision
deny_for_held_lifecycle_fence [] = none
deny_for_held_lifecycle_fence (f ∷ fs) =
    let rest = deny_for_held_lifecycle_fence fs in
    if not (is_held f)
    then rest
    else if is_lifecycle f.kind
    then (if needs_recovery f.status
        then some (deny operation_recovery_required (some f.kind))
        else some (deny repo_lifecycle_fence_held (some f.kind)))
    else rest

unfoldable pub writer_fence_blocks : Intent → Mode → Bool
writer_fence_blocks export_create m = is_read_write m
writer_fence_blocks workload_mount m = is_read_write m
writer_fence_blocks storage_session m = is_read_write m
writer_fence_blocks storage_mutation m = true
writer_fence_blocks restore m = true
writer_fence_blocks i m = is_lifecycle_intent i

-- The loop of `denyForWriterFence`.
unfoldable pub deny_for_writer_fences : List Fence → Option Decision
deny_for_writer_fences [] = none
deny_for_writer_fences (f ∷ fs) =
    let rest = deny_for_writer_fences fs in
    if not (is_held f) || not (is_writer_session f.kind)
    then rest
    else if needs_recovery f.status
    then some (deny operation_recovery_required (some f.kind))
    else some (deny writer_session_fence_held (some f.kind))

unfoldable pub deny_for_writer_fence : Request → Option Decision
deny_for_writer_fence q =
    if not (writer_fence_blocks q.intent q.mode)
    then none
    else deny_for_writer_fences q.held_repo_fences

abbrev pub is_transitional_status : RepoStatus → Bool
is_transitional_status archiving = true
is_transitional_status restoring_archived = true
is_transitional_status deleting = true
is_transitional_status restoring_tombstoned = true
is_transitional_status purging = true
is_transitional_status operator_intervention_required = true
is_transitional_status _ = false

abbrev pub admit_from : Bool → RepoStatus → Decision
admit_from allowed s =
    if allowed
    then allow
    else if is_transitional_status s
    then deny operation_recovery_required none
    else deny repo_lifecycle_invalid_state none

unfoldable pub admit_lifecycle_intent : Intent → RepoStatus → Decision
admit_lifecycle_intent lifecycle_archive s = admit_from (repo_status_eq s RepoStatus.active) s
admit_lifecycle_intent lifecycle_restore_archived s = admit_from (repo_status_eq s archived) s
admit_lifecycle_intent lifecycle_delete s =
    admit_from (repo_status_eq s RepoStatus.active || repo_status_eq s archived) s
admit_lifecycle_intent lifecycle_restore_tombstoned s = admit_from (repo_status_eq s tombstoned) s
admit_lifecycle_intent lifecycle_purge s = admit_from (repo_status_eq s tombstoned) s
admit_lifecycle_intent i s = deny internal_error none

abbrev pub deny_for_repo_status : RepoStatus → Decision
deny_for_repo_status archived = deny repo_archived none
deny_for_repo_status tombstoned = deny repo_tombstoned none
deny_for_repo_status purged = deny repo_purged none
deny_for_repo_status s = deny operation_recovery_required none

abbrev pub or_else : Option Decision → Decision → Decision
or_else (some d) e = d
or_else none e = e

unfoldable pub admit : (Text → Option Float) → Request → Decision
admit parse q =
    if not (intent_valid q.intent) || not (mode_valid q.mode)
    then deny internal_error none
    else if stored_state_broken parse q
    then deny internal_error none
    else if not (text_eq q.namespace.id q.repo.namespace_id)
        || not (text_eq q.binding.namespace_id q.repo.namespace_id)
    then deny internal_error none
    else if not (is_repo q.repo.kind)
    then deny internal_error none
    else if not (is_active q.binding.status) || not (is_active q.namespace.status)
    then deny namespace_disabled none
    else or_else (deny_for_held_lifecycle_fence q.held_repo_fences) (
        or_else (deny_for_writer_fence q) (
          if is_lifecycle_intent q.intent
          then admit_lifecycle_intent q.intent q.repo.status
          else if not (repo_status_eq q.repo.status RepoStatus.active)
          then deny_for_repo_status q.repo.status
          else allow))
