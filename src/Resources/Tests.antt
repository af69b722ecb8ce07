-- ===== src/Resources/Tests.antt =====
-- A repository in the trash.
use agentsmith_fs_control_pl.Prelude.{[], none, refl, some, ◌≡◌}
use agentsmith_fs_control_pl.Resources.{tombstoned, archived, RepoLifecycle, validate_lifecycle}

abbrev in_trash : RepoLifecycle
in_trash = record {
  status = tombstoned;
  retention_expires_at = some 90;
  last_lifecycle_operation_id = [];
  pre_delete_status = some archived;
}

in_trash_is_valid : validate_lifecycle in_trash ≡ none
unfolding validate_lifecycle
in_trash_is_valid = refl
