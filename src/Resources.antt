-- ===== src/Resources.antt =====
-- internal/resources/resources.go: what is stored about namespaces, their volumes and repositories,
-- and what makes it valid. Policies and callers have modules of their own. A string type of the
-- source has a constructor for each of its constants and one for any other string; the text of an
-- error is left out, its kind is a constructor.
pub mod Caller
pub mod Policy
pub mod Binding
pub mod Lifecycle
mod Tests
use mathlib.Core.Option
use agentsmith_fs_control_pl.Clock.{Time, is_zero}
use agentsmith_fs_control_pl.PathResolver.Id.{
  IdError, IdKind, namespace_id, volume_id, operation_id, validate_id, is_ascii_alnum,
}
use agentsmith_fs_control_pl.PathResolver.Repo.{
  RepoPaths, resolve_repo_paths, resolve_template_paths,
}
use agentsmith_fs_control_pl.Prelude.{
  ◌==◌, Bool, Option, Result, [], check, err, false, if◌then◌else◌, is_some, length, ltb, map, none,
  not, ok, some, true, ℕ, ◌&&◌, ◌then_check◌, ◌||◌, ◌∷◌,
}
use agentsmith_fs_control_pl.Text.{Text, every, is_blank, is_empty, text_eq}

pub data ResourceError : Type 0 where
  bad_id : IdError → ResourceError
  unknown_backend unknown_isolation unknown_status unknown_kind unknown_role : ResourceError
  no_object unsupported_field missing_field wrong_type sensitive_field out_of_range : ResourceError
  missing_created_at missing_updated_at : ResourceError
  disabled_at_set disabled_at_missing disabled_reason_missing : ResourceError
  missing_caller_service missing_roles deployment_role duplicate_role dedicated_role : ResourceError
  missing_callers duplicate_caller : ResourceError
  unknown_pre_delete pre_delete_missing pre_delete_set retention_missing retention_set :
      ResourceError
  missing_jvs_repo_id invalid_jvs_repo_id : ResourceError
  control_not_canonical payload_not_canonical status_mismatch : ResourceError

-- The error of `pathresolver.ValidateID`, as an error of this package.
abbrev pub id_check : IdKind → Text → Option ResourceError
id_check k id = Option.map bad_id (validate_id k id)

abbrev pub validate_timestamps : Time → Time → Option ResourceError
validate_timestamps creation update =
    check (is_zero creation) missing_created_at then_check check (is_zero update) missing_updated_at

pub data NamespaceStatus : Type 0 where
  active disabled : NamespaceStatus
  other_status : Text → NamespaceStatus

abbrev pub namespace_status_valid : NamespaceStatus → Bool
namespace_status_valid (other_status s) = false
namespace_status_valid _ = true

abbrev pub is_active : NamespaceStatus → Bool
is_active active = true
is_active _ = false

pub record Namespace : Type 0 where
  pub id : Text
  pub status : NamespaceStatus
  pub disabled_reason : Text
  pub disabled_at : Option Time
  pub created_at : Time
  pub updated_at : Time

-- The `switch` of `Namespace.Validate`.
unfoldable pub validate_disabled : NamespaceStatus → Namespace → Option ResourceError
validate_disabled active n = check (is_some n.disabled_at) disabled_at_set
validate_disabled disabled n =
    check (not (is_some n.disabled_at)) disabled_at_missing
    then_check check (is_blank n.disabled_reason) disabled_reason_missing
validate_disabled (other_status s) n = none

unfoldable pub validate_namespace : Namespace → Option ResourceError
validate_namespace n =
    id_check namespace_id n.id
    then_check check (not (namespace_status_valid n.status)) unknown_status
    then_check validate_disabled n.status n
    then_check validate_timestamps n.created_at n.updated_at

pub data RepoKind : Type 0 where
  repo template : RepoKind
  other_repo_kind : Text → RepoKind

abbrev pub is_repo : RepoKind → Bool
is_repo repo = true
is_repo _ = false

abbrev pub repo_kind_valid : RepoKind → Bool
repo_kind_valid (other_repo_kind s) = false
repo_kind_valid _ = true

pub data RepoStatus : Type 0 where
  active archiving archived restoring_archived deleting tombstoned restoring_tombstoned : RepoStatus
  purging purged operator_intervention_required : RepoStatus
  other_status : Text → RepoStatus

abbrev pub repo_status_valid : RepoStatus → Bool
repo_status_valid (RepoStatus.other_status s) = false
repo_status_valid _ = true

-- `a == b`
abbrev pub repo_status_eq : RepoStatus → RepoStatus → Bool
repo_status_eq RepoStatus.active RepoStatus.active = true
repo_status_eq archiving archiving = true
repo_status_eq archived archived = true
repo_status_eq restoring_archived restoring_archived = true
repo_status_eq deleting deleting = true
repo_status_eq tombstoned tombstoned = true
repo_status_eq restoring_tombstoned restoring_tombstoned = true
repo_status_eq purging purging = true
repo_status_eq purged purged = true
repo_status_eq operator_intervention_required operator_intervention_required = true
repo_status_eq (RepoStatus.other_status s) (RepoStatus.other_status t) = text_eq s t
repo_status_eq _ _ = false

-- `PreDeleteStatus` is `none` where the source holds the empty string.
pub record RepoLifecycle : Type 0 where
  pub status : RepoStatus
  pub retention_expires_at : Option Time
  pub last_lifecycle_operation_id : Text
  pub pre_delete_status : Option RepoStatus

abbrev pub status_requires_pre_delete : RepoStatus → Bool
status_requires_pre_delete deleting = true
status_requires_pre_delete tombstoned = true
status_requires_pre_delete restoring_tombstoned = true
status_requires_pre_delete purging = true
status_requires_pre_delete purged = true
status_requires_pre_delete _ = false

abbrev pub status_requires_retention : RepoStatus → Bool
status_requires_retention tombstoned = true
status_requires_retention restoring_tombstoned = true
status_requires_retention purging = true
status_requires_retention _ = false

abbrev pub status_forbids_retention : RepoStatus → Bool
status_forbids_retention RepoStatus.active = true
status_forbids_retention archiving = true
status_forbids_retention archived = true
status_forbids_retention restoring_archived = true
status_forbids_retention _ = false

abbrev pub is_pre_delete : Option RepoStatus → Bool
is_pre_delete none = true
is_pre_delete (some RepoStatus.active) = true
is_pre_delete (some archived) = true
is_pre_delete (some _) = false

unfoldable pub validate_lifecycle : RepoLifecycle → Option ResourceError
validate_lifecycle l =
    check (not (repo_status_valid l.status)) unknown_status
    then_check (if not (is_empty l.last_lifecycle_operation_id)
        then id_check operation_id l.last_lifecycle_operation_id
        else none)
    then_check check (not (is_pre_delete l.pre_delete_status)) unknown_pre_delete
    then_check (if status_requires_pre_delete l.status
        then check (not (is_some l.pre_delete_status)) pre_delete_missing
        else check
            (not (repo_status_eq l.status operator_intervention_required)
              && is_some l.pre_delete_status)
            pre_delete_set)
    then_check (if status_requires_retention l.status
        then check (not (is_some l.retention_expires_at)) retention_missing
        else check (status_forbids_retention l.status && is_some l.retention_expires_at)
            retention_set)

pub record Repo : Type 0 where
  pub id : Text
  pub namespace_id : Text
  pub volume_id : Text
  pub jvs_repo_id : Text
  pub kind : RepoKind
  pub status : RepoStatus
  pub control_volume_subdir : Text
  pub payload_volume_subdir : Text
  pub lifecycle : RepoLifecycle
  pub created_at : Time
  pub updated_at : Time

abbrev pub is_jvs_char : ℕ → Bool
is_jvs_char b = is_ascii_alnum b || b == b'_' || b == b'.' || b == b':' || b == b'-'

-- The loop over the runes of the identifier. A rune outside ASCII has only bytes from 128 on, which
-- no test here accepts.
abbrev pub jvs_characters : Text → Bool
jvs_characters [] = false
jvs_characters (b ∷ s) = is_ascii_alnum b && every is_jvs_char s

unfoldable pub validate_jvs_repo_id : Text → Option ResourceError
validate_jvs_repo_id id =
    check (is_empty id) missing_jvs_repo_id
    then_check check (ltb 128 (length id)) invalid_jvs_repo_id
    then_check check (not (jvs_characters id)) invalid_jvs_repo_id

abbrev pub canonical : Repo → Result IdError RepoPaths → Option ResourceError
canonical r (err e) = some (bad_id e)
canonical r (ok paths) =
    check (not (text_eq r.control_volume_subdir paths.control_volume_subdir)) control_not_canonical
    then_check check (not (text_eq r.payload_volume_subdir paths.payload_volume_subdir))
        payload_not_canonical

unfoldable pub validate_canonical_path_identity : RepoKind → Repo → Option ResourceError
validate_canonical_path_identity repo r = canonical r (resolve_repo_paths r.namespace_id r.id)
validate_canonical_path_identity template r =
    canonical r (resolve_template_paths r.namespace_id r.id)
validate_canonical_path_identity (other_repo_kind s) r = some ResourceError.unknown_kind

unfoldable pub validate_repo : Repo → Option ResourceError
validate_repo r =
    id_check namespace_id r.namespace_id
    then_check id_check volume_id r.volume_id
    then_check validate_jvs_repo_id r.jvs_repo_id
    then_check check (not (repo_kind_valid r.kind)) ResourceError.unknown_kind
    then_check validate_canonical_path_identity r.kind r
    then_check check (not (repo_status_valid r.status)) unknown_status
    then_check validate_lifecycle r.lifecycle
    then_check check (not (repo_status_eq r.status r.lifecycle.status)) status_mismatch
    then_check validate_timestamps r.created_at r.updated_at
