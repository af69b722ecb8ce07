-- ===== src/PathResolver/Repo.antt =====
-- `ResolveRepoPaths` and `ResolveTemplatePaths` of internal/pathresolver/pathresolver.go: where a
-- repository or a template is stored on its volume.
pub mod Laws
mod Tests
use agentsmith_fs_control_pl.PathResolver.Id.{
  IdError, namespace_id, repo_id, template_id, validate_id,
}
use agentsmith_fs_control_pl.Prelude.{Result, ok, ◌++◌, ◌then_return◌}
use agentsmith_fs_control_pl.Text.{Text, bytes}

pub record RepoPaths : Type 0 where
  pub container_volume_subdir : Text
  pub control_volume_subdir : Text
  pub payload_volume_subdir : Text

abbrev pub TemplatePaths : Type 0
TemplatePaths = RepoPaths

abbrev pub paths_under : Text → RepoPaths
paths_under container = record {
  container_volume_subdir = container;
  control_volume_subdir = container ++ bytes "/control";
  payload_volume_subdir = container ++ bytes "/payload";
}

abbrev pub repo_container : Text → Text → Text
repo_container namespace repo =
    bytes "afscp/namespaces/" ++ (namespace ++ (bytes "/repos/" ++ repo))

abbrev pub template_container : Text → Text → Text
template_container namespace template =
    bytes "afscp/namespaces/" ++ (namespace ++ (bytes "/templates/" ++ template))

unfoldable pub resolve_repo_paths : Text → Text → Result IdError RepoPaths
resolve_repo_paths namespace repo =
    validate_id namespace_id namespace
    then_return validate_id repo_id repo
    then_return ok (paths_under (repo_container namespace repo))

unfoldable pub resolve_template_paths : Text → Text → Result IdError TemplatePaths
resolve_template_paths namespace template =
    validate_id namespace_id namespace
    then_return validate_id template_id template
    then_return ok (paths_under (template_container namespace template))
