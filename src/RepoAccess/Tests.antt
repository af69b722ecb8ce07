-- ===== src/RepoAccess/Tests.antt =====
-- Requests for a concrete repository.
use agentsmith_fs_control_pl.Operations.Value.{boolean, integer, member, no_members}
use agentsmith_fs_control_pl.PathResolver.Id.{
  validate_characters, validate_id, validate_prefixed, validate_suffix, validate_with,
}
use agentsmith_fs_control_pl.PathResolver.Repo.{resolve_repo_paths}
use agentsmith_fs_control_pl.PathResolver.Repo.Laws.{payload}
use agentsmith_fs_control_pl.Prelude.{
  List, Option, [], false, none, pos, refl, some, true, ◌↔◌, ◌∷◌, ◌≡◌, inl,
}
use agentsmith_fs_control_pl.RepoAccess.{
  Request, Fence, Intent, export_create, read_write, Mode, admit, admit_lifecycle_intent,
  deny_for_held_lifecycle_fence, deny_for_writer_fence, deny_for_writer_fences, fence_broken,
  fences_broken, stored_state_broken, writer_fence_blocks,
}
use agentsmith_fs_control_pl.RepoAccess.Admission.{IsAdmitted, admit-allowed_iff}
use agentsmith_fs_control_pl.RepoAccess.Storage.{admit-disjoint}
use agentsmith_fs_control_pl.Resources.{
  NamespaceStatus, RepoStatus, Repo, Namespace, repo, validate_canonical_path_identity,
  validate_disabled, validate_jvs_repo_id, validate_lifecycle, validate_namespace, validate_repo,
}
use agentsmith_fs_control_pl.Resources.Binding.{
  NamespaceVolumeBinding, validate_binding, validate_callers,
}
use agentsmith_fs_control_pl.Resources.Caller.{repo_admin, validate_caller, validate_roles}
use agentsmith_fs_control_pl.Resources.Policy.{
  Float, reject_unknown_keys, validate_export_policy, validate_lifecycle_policy,
  validate_mount_policy, validate_template_policy,
}
use agentsmith_fs_control_pl.Text.{Text, bytes, cut_prefix, every, text_eq, trim_space}

-- All that an admission computes with.
rules : Unit {0}
unfolding admit deny_for_held_lifecycle_fence deny_for_writer_fence deny_for_writer_fences
    writer_fence_blocks admit_lifecycle_intent stored_state_broken fences_broken fence_broken
    validate_repo validate_lifecycle validate_canonical_path_identity validate_jvs_repo_id
    validate_namespace validate_disabled validate_binding validate_callers validate_caller
    validate_roles validate_export_policy validate_lifecycle_policy validate_mount_policy
    validate_template_policy reject_unknown_keys resolve_repo_paths validate_id validate_with
    validate_prefixed validate_suffix validate_characters cut_prefix every text_eq trim_space
rules = tt

abbrev namespace : Namespace
namespace = record {
  id = bytes "ns_a1";
  status = NamespaceStatus.active;
  disabled_reason = [];
  disabled_at = none;
  created_at = 1;
  updated_at = 2;
}

abbrev binding : NamespaceVolumeBinding
binding = record {
  namespace_id = bytes "ns_a1";
  default_volume_id = bytes "vol_c3";
  allowed_callers = (record { caller_service = bytes "svc"; roles = repo_admin ∷ [] }) ∷ [];
  quota_bytes_default = pos 0;
  export_policy = some (
      member (bytes "webdav_enabled") (boolean true)
        (member (bytes "max_session_seconds") (integer (pos 60)) no_members));
  lifecycle_policy = some (
      member (bytes "tombstone_retention_seconds") (integer (pos 0)) (
        member (bytes "purge_requires_lifecycle_admin") (boolean true)
          (member (bytes "break_glass_purge_enabled") (boolean false) no_members)));
  mount_policy = some (
      member (bytes "workload_mount_enabled") (boolean true) (
        member (bytes "workload_mount_requires_external_control_root") (boolean true)
          (member (bytes "allow_privileged_workload") (boolean false) no_members)));
  template_policy = some (
      member (bytes "namespace_templates_enabled") (boolean true)
        (member (bytes "cross_namespace_clone_enabled") (boolean false) no_members));
  status = NamespaceStatus.active;
  created_at = 1;
  updated_at = 2;
}

abbrev repository : Repo
repository = record {
  id = bytes "repo_b2";
  namespace_id = bytes "ns_a1";
  volume_id = bytes "vol_c3";
  jvs_repo_id = bytes "jvs1";
  kind = repo;
  status = RepoStatus.active;
  control_volume_subdir = bytes "afscp/namespaces/ns_a1/repos/repo_b2/control";
  payload_volume_subdir = bytes "afscp/namespaces/ns_a1/repos/repo_b2/payload";
  lifecycle = record {
    status = RepoStatus.active;
    retention_expires_at = none;
    last_lifecycle_operation_id = [];
    pre_delete_status = none;
  };
  created_at = 1;
  updated_at = 2;
}

abbrev request : Intent → Mode → List Fence → Request
request i m fs = record {
  repo = repository;
  namespace = namespace;
  binding = binding;
  held_repo_fences = fs;
  intent = i;
  mode = m;
}

abbrev no_numbers : Text → Option Float
no_numbers s = none

write_is_admitted : (admit no_numbers (request export_create read_write [])).allowed ≡ true
unfolding rules
write_is_admitted = refl

admit-allowed_iff_example :
    ((admit no_numbers (request export_create read_write [])).allowed ≡ true)
    ↔ IsAdmitted no_numbers (request export_create read_write [])
admit-allowed_iff_example = admit-allowed_iff no_numbers (request export_create read_write [])

admit-disjoint_example :
    (bytes "ns_a1" ≡ bytes "ns_a1") × (bytes "repo_b2" ≡ bytes "repo_b2") × (payload ≡ payload)
admit-disjoint_example =
    admit-disjoint no_numbers (request export_create read_write [])
      (request export_create read_write []) payload payload write_is_admitted write_is_admitted
      (inl refl)
