-- ===== src/Resources/Caller.antt =====
-- The callers that a namespace admits (`AllowedCaller` of internal/resources/resources.go) and
-- their
-- roles. internal/auth/policy.go declares the same thirteen strings again as `Role`: `CallerRole`
-- stands for both types.
use agentsmith_fs_control_pl.Prelude.{
  ◌==◌, Bool, List, Option, [], ap, arith, check, false, length, none, not, refl, true, ◌&&◌,
  ◌then_check◌, ◌||◌, ◌∷◌, ◌≡◌,
}
use agentsmith_fs_control_pl.Resources.{
  missing_roles, unknown_role, ResourceError, dedicated_role, deployment_role, duplicate_role,
  missing_caller_service,
}
use agentsmith_fs_control_pl.Text.{Text, is_blank, text_eq, text_eq_iff, text_eq_refl}

pub data CallerRole : Type 0 where
  volume_admin namespace_admin repo_admin repo_lifecycle_admin restore_admin : CallerRole
  template_admin export_admin mount_admin operation_inspector orchestrator_mount : CallerRole
  migration_admin operator_admin break_glass_admin : CallerRole
  other_role : Text → CallerRole

abbrev pub role_valid : CallerRole → Bool
role_valid (other_role s) = false
role_valid _ = true

-- `a == b`
abbrev pub role_eq : CallerRole → CallerRole → Bool
role_eq volume_admin volume_admin = true
role_eq namespace_admin namespace_admin = true
role_eq repo_admin repo_admin = true
role_eq repo_lifecycle_admin repo_lifecycle_admin = true
role_eq restore_admin restore_admin = true
role_eq template_admin template_admin = true
role_eq export_admin export_admin = true
role_eq mount_admin mount_admin = true
role_eq operation_inspector operation_inspector = true
role_eq orchestrator_mount orchestrator_mount = true
role_eq migration_admin migration_admin = true
role_eq operator_admin operator_admin = true
role_eq break_glass_admin break_glass_admin = true
role_eq (other_role s) (other_role t) = text_eq s t
role_eq _ _ = false

pub role_eq_refl : (r : CallerRole) → role_eq r r ≡ true
role_eq_refl (other_role s) = text_eq_refl s
role_eq_refl _ = refl

pub role_eq_sound : (r s : CallerRole) → role_eq r s ≡ true → r ≡ s
role_eq_sound (other_role s) (other_role t) h = ap other_role ((text_eq_iff s t).0 h)
role_eq_sound _ _ h = ground arith

pub record AllowedCaller : Type 0 where
  pub caller_service : Text
  pub roles : List CallerRole

-- The roles of deployment policy.
abbrev pub is_deployment : CallerRole → Bool
is_deployment operator_admin = true
is_deployment break_glass_admin = true
is_deployment volume_admin = true
is_deployment _ = false

abbrev pub has_role : CallerRole → List CallerRole → Bool
has_role r [] = false
has_role r (s ∷ ss) = role_eq s r || has_role r ss

-- The loop over the roles, which have been seen so far in `seen`.
unfoldable pub validate_roles : List CallerRole → List CallerRole → Option ResourceError
validate_roles seen [] = none
validate_roles seen (r ∷ rs) =
    check (not (role_valid r)) unknown_role
    then_check check (is_deployment r) deployment_role
    then_check check (has_role r seen) duplicate_role
    then_check validate_roles (r ∷ seen) rs

unfoldable pub validate_caller : AllowedCaller → Option ResourceError
validate_caller c =
    check (is_blank c.caller_service) missing_caller_service
    then_check check (length c.roles == 0) missing_roles
    then_check validate_roles [] c.roles
    then_check check (has_role orchestrator_mount c.roles && not (length c.roles == 1))
        dedicated_role
    then_check check (has_role migration_admin c.roles && not (length c.roles == 1)) dedicated_role
