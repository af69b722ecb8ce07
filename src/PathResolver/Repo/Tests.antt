-- ===== src/PathResolver/Repo/Tests.antt =====
-- Storage roots at concrete identifiers.
use agentsmith_fs_control_pl.PathResolver.Id.{
  validate_characters, validate_id, validate_prefixed, validate_suffix, validate_with,
}
use agentsmith_fs_control_pl.PathResolver.Repo.{
  RepoPaths, paths_under, repo_container, resolve_repo_paths,
}
use agentsmith_fs_control_pl.PathResolver.Repo.Laws.{payload, resolve_repo_paths-disjoint}
use agentsmith_fs_control_pl.Prelude.{inl, ok, refl, ◌≡◌}
use agentsmith_fs_control_pl.Text.{bytes, cut_prefix, every}

abbrev paths : RepoPaths
paths = paths_under (repo_container (bytes "ns_a1") (bytes "repo_b2"))

resolved : resolve_repo_paths (bytes "ns_a1") (bytes "repo_b2") ≡ ok paths
unfolding resolve_repo_paths validate_id validate_with validate_prefixed validate_suffix
    validate_characters cut_prefix every
resolved = refl

payload_root : paths.payload_volume_subdir ≡ bytes "afscp/namespaces/ns_a1/repos/repo_b2/payload"
payload_root = refl

resolve_repo_paths-disjoint_example :
    (bytes "ns_a1" ≡ bytes "ns_a1") × (bytes "repo_b2" ≡ bytes "repo_b2") × (payload ≡ payload)
resolve_repo_paths-disjoint_example =
    resolve_repo_paths-disjoint (bytes "ns_a1") (bytes "ns_a1") (bytes "repo_b2") (bytes "repo_b2")
      paths paths payload payload resolved resolved (inl refl)
