-- ===== src/Resources/Binding.antt =====
-- How a namespace is bound to its volume (`NamespaceVolumeBinding` of
-- internal/resources/resources.go).
use agentsmith_fs_control_pl.Clock.{Time}
use agentsmith_fs_control_pl.Operations.Value.{Members}
use agentsmith_fs_control_pl.PathResolver.Id.{IdKind, volume_id}
use agentsmith_fs_control_pl.Prelude.{
  ◌==◌, List, Option, [], check, length, ltb_ℤ, none, not, pos, ℤ, ◌then_check◌, ◌∷◌,
}
use agentsmith_fs_control_pl.Resources.{
  ResourceError, NamespaceStatus, duplicate_caller, id_check, missing_callers,
  namespace_status_valid, out_of_range, unknown_status, validate_timestamps,
}
use agentsmith_fs_control_pl.Resources.Caller.{AllowedCaller, validate_caller}
use agentsmith_fs_control_pl.Resources.Policy.{
  Float, in_object, one_of, validate_export_policy, validate_lifecycle_policy,
  validate_mount_policy, validate_template_policy,
}
use agentsmith_fs_control_pl.Text.{Text, trim_space}

pub record NamespaceVolumeBinding : Type 0 where
  pub namespace_id : Text
  pub default_volume_id : Text
  pub allowed_callers : List AllowedCaller
  pub quota_bytes_default : ℤ
  pub export_policy : Option Members
  pub lifecycle_policy : Option Members
  pub mount_policy : Option Members
  pub template_policy : Option Members
  pub status : NamespaceStatus
  pub created_at : Time
  pub updated_at : Time

-- The loop over the callers; `seen` are the services so far.
unfoldable pub validate_callers : List Text → List AllowedCaller → Option ResourceError
validate_callers seen [] = none
validate_callers seen (c ∷ cs) =
    let service = trim_space c.caller_service in
    validate_caller c
    then_check check (one_of seen service) duplicate_caller
    then_check validate_callers (service ∷ seen) cs

unfoldable pub validate_binding :
    (Text → Option Float) → NamespaceVolumeBinding → Option ResourceError
validate_binding parse b =
    id_check IdKind.namespace_id b.namespace_id
    then_check id_check volume_id b.default_volume_id
    then_check check (ltb_ℤ b.quota_bytes_default (pos 0)) out_of_range
    then_check check (not (namespace_status_valid b.status)) unknown_status
    then_check check (length b.allowed_callers == 0) missing_callers
    then_check validate_callers [] b.allowed_callers
    then_check in_object (validate_export_policy parse) b.export_policy
    then_check in_object (validate_lifecycle_policy parse) b.lifecycle_policy
    then_check in_object validate_mount_policy b.mount_policy
    then_check in_object validate_template_policy b.template_policy
    then_check validate_timestamps b.created_at b.updated_at
