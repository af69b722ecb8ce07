-- ===== src/PathResolver/Id/Tests.antt =====
-- Identifiers at concrete texts.
use agentsmith_fs_control_pl.PathResolver.Id.{
  repo_id, unsafe_character, validate_characters, validate_id, validate_prefixed, validate_suffix,
  validate_with,
}
use agentsmith_fs_control_pl.Prelude.{none, refl, some, ◌≡◌}
use agentsmith_fs_control_pl.Text.{bytes, cut_prefix, every}

repo_is_valid : validate_id repo_id (bytes "repo_a-1") ≡ none
unfolding validate_id validate_with validate_prefixed validate_suffix validate_characters cut_prefix
    every
repo_is_valid = refl

traversal_is_not : validate_id repo_id (bytes "repo_a/..") ≡ some unsafe_character
unfolding validate_id validate_with validate_prefixed validate_suffix validate_characters cut_prefix
    every
traversal_is_not = refl
