-- ===== src/Auth/Tests.antt =====
-- Callers of a concrete namespace.
use agentsmith_fs_control_pl.Auth.{
  KindCaller, caller_role_allowed, caller_role_denial_reason_for, denial_reason, kind_can_use_role,
  map_allowed_caller, map_product_roles, map_roles, product, role_satisfies_required_role,
  roles_distinct, some_role_satisfies,
}
use agentsmith_fs_control_pl.Auth.Mapping.{IsMapped, map_allowed_caller-IsMapped}
use agentsmith_fs_control_pl.Auth.Policy.{IsGranted, caller_role_denial_reason_for-allowed_iff}
use agentsmith_fs_control_pl.Prelude.{[], false, none, refl, some, ◌↔◌, ◌∷◌, ◌≡◌}
use agentsmith_fs_control_pl.Resources.Caller.{
  AllowedCaller, validate_caller, repo_admin, export_admin, validate_roles,
}
use agentsmith_fs_control_pl.Text.{bytes, is_blank, text_eq, trim_space}

rules : Unit {0}
unfolding validate_caller validate_roles role_satisfies_required_role kind_can_use_role
    some_role_satisfies denial_reason caller_role_denial_reason_for map_allowed_caller map_roles
    map_product_roles roles_distinct text_eq trim_space
rules = tt

abbrev caller : AllowedCaller
caller = record { caller_service = bytes " svc"; roles = repo_admin ∷ export_admin ∷ [] }

caller_is_valid : validate_caller caller ≡ none
unfolding rules
caller_is_valid = refl

abbrev mapped : KindCaller
mapped = record {
  caller_service = bytes "svc";
  kind = product;
  roles = repo_admin ∷ export_admin ∷ [];
}

map_allowed_caller-IsMapped_example :
    (k : KindCaller) × (map_allowed_caller caller ≡ some k) × IsMapped caller k
map_allowed_caller-IsMapped_example = map_allowed_caller-IsMapped caller caller_is_valid

svc_is_allowed :
    caller_role_denial_reason_for (bytes "svc ") export_admin (mapped ∷ []) ≡ caller_role_allowed
unfolding rules
svc_is_allowed = refl

caller_role_denial_reason_for-allowed_iff_example :
    (caller_role_denial_reason_for (bytes "svc ") export_admin (mapped ∷ []) ≡ caller_role_allowed)
    ↔ ((is_blank (bytes "svc ") ≡ false)
        × IsGranted (trim_space (bytes "svc ")) export_admin (mapped ∷ []))
caller_role_denial_reason_for-allowed_iff_example =
    caller_role_denial_reason_for-allowed_iff (bytes "svc ") export_admin (mapped ∷ [])
