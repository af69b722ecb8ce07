-- ===== src/Auth.antt =====
-- internal/auth/policy.go and internal/namespaceauth/mapping.go: which callers may act in which
-- role. `Role` is `CallerRole` of Resources/Caller; `CallerKind` has a constructor for each of its
-- constants and one for any other string.
pub mod Policy
pub mod Mapping
mod Tests
use agentsmith_fs_control_pl.Prelude.{
  ◌==◌, Bool, List, Option, [], false, if◌then◌else◌, length, none, not, some, true, ◌&&◌, ◌||◌,
  ◌∷◌,
}
use agentsmith_fs_control_pl.Resources.Caller.{
  CallerRole, AllowedCaller, role_eq, has_role, other_role, break_glass_admin, export_admin,
  migration_admin, mount_admin, namespace_admin, operation_inspector, operator_admin,
  orchestrator_mount, repo_admin, repo_lifecycle_admin, restore_admin, template_admin, volume_admin,
}
use agentsmith_fs_control_pl.Text.{Text, is_blank, is_empty, text_eq, trim_space}

pub data CallerKind : Type 0 where
  product admin operator migration orchestrator : CallerKind
  other_kind : Text → CallerKind

-- `auth.AllowedCaller`
pub record KindCaller : Type 0 where
  pub caller_service : Text
  pub kind : CallerKind
  pub roles : List CallerRole

pub data CallerRoleDenialReason : Type 0 where
  caller_role_allowed caller_service_not_allowed caller_role_not_allowed : CallerRoleDenialReason

abbrev pub is_product_control_plane_role : CallerRole → Bool
is_product_control_plane_role repo_admin = true
is_product_control_plane_role repo_lifecycle_admin = true
is_product_control_plane_role restore_admin = true
is_product_control_plane_role template_admin = true
is_product_control_plane_role export_admin = true
is_product_control_plane_role mount_admin = true
is_product_control_plane_role operation_inspector = true
is_product_control_plane_role namespace_admin = true
is_product_control_plane_role _ = false

abbrev pub is_admin_operator_role : CallerRole → Bool
is_admin_operator_role volume_admin = true
is_admin_operator_role operator_admin = true
is_admin_operator_role break_glass_admin = true
is_admin_operator_role _ = false

unfoldable pub kind_can_use_role : CallerKind → CallerRole → Bool
kind_can_use_role product r = is_product_control_plane_role r
kind_can_use_role orchestrator r = role_eq r orchestrator_mount
kind_can_use_role migration r = role_eq r migration_admin
kind_can_use_role admin r = is_product_control_plane_role r || is_admin_operator_role r
kind_can_use_role operator r = is_product_control_plane_role r || is_admin_operator_role r
kind_can_use_role (other_kind s) r = false

abbrev pub is_admin_or_operator : CallerKind → Bool
is_admin_or_operator admin = true
is_admin_or_operator operator = true
is_admin_or_operator _ = false

unfoldable pub role_satisfies_required_role : CallerKind → CallerRole → CallerRole → Bool
role_satisfies_required_role k granted required =
    if role_eq granted required && kind_can_use_role k required
    then true
    else if role_eq required operation_inspector && role_eq granted operator_admin
    then is_admin_or_operator k
    else false

unfoldable pub some_role_satisfies : CallerKind → List CallerRole → CallerRole → Bool
some_role_satisfies k [] required = false
some_role_satisfies k (r ∷ rs) required =
    let rest = some_role_satisfies k rs required in
    if role_satisfies_required_role k r required then true else rest

-- The loop of `CallerRoleDenialReasonFor`; `found` is `callerFound`.
unfoldable pub denial_reason : Text → CallerRole → Bool → List KindCaller → CallerRoleDenialReason
denial_reason service required found [] =
    if found then caller_role_not_allowed else caller_service_not_allowed
denial_reason service required found (c ∷ cs) =
    let other = denial_reason service required found cs in
    let seen = denial_reason service required true cs in
    if not (text_eq (trim_space c.caller_service) service)
    then other
    else if some_role_satisfies c.kind c.roles required
    then caller_role_allowed
    else seen

unfoldable pub caller_role_denial_reason_for :
    Text → CallerRole → List KindCaller → CallerRoleDenialReason
caller_role_denial_reason_for service required allowed =
    if is_blank service
    then caller_service_not_allowed
    else denial_reason (trim_space service) required false allowed

abbrev is_allowed : CallerRoleDenialReason → Bool
is_allowed caller_role_allowed = true
is_allowed _ = false

abbrev pub caller_not_allowed : Text → CallerRole → List KindCaller → Bool
caller_not_allowed service required allowed =
    not (is_allowed (caller_role_denial_reason_for service required allowed))

abbrev pub namespace_mismatch : Text → Text → Bool
namespace_mismatch request resource =
    if is_blank request && is_blank resource
    then false
    else not (text_eq (trim_space request) (trim_space resource))

abbrev pub namespace_bound_mismatch : Text → Text → Bool
namespace_bound_mismatch request resource =
    if is_blank request || is_blank resource
    then true
    else not (text_eq (trim_space request) (trim_space resource))

abbrev pub map_product_role : CallerRole → Option CallerRole
map_product_role namespace_admin = some namespace_admin
map_product_role repo_admin = some repo_admin
map_product_role repo_lifecycle_admin = some repo_lifecycle_admin
map_product_role restore_admin = some restore_admin
map_product_role template_admin = some template_admin
map_product_role export_admin = some export_admin
map_product_role mount_admin = some mount_admin
map_product_role operation_inspector = some operation_inspector
map_product_role _ = none

abbrev pub is_empty_role : CallerRole → Bool
is_empty_role (other_role s) = is_empty s
is_empty_role _ = false

-- The first loop of `MapAllowedCaller`.
unfoldable pub roles_distinct : List CallerRole → List CallerRole → Bool
roles_distinct seen [] = true
roles_distinct seen (r ∷ rs) =
    let rest = roles_distinct (r ∷ seen) rs in
    if is_empty_role r || has_role r seen then false else rest

abbrev cons_role : Option CallerRole → Option (List CallerRole) → Option (List CallerRole)
cons_role (some r) (some rs) = some (r ∷ rs)
cons_role _ _ = none

-- The second loop.
unfoldable pub map_product_roles : List CallerRole → Option (List CallerRole)
map_product_roles [] = some []
map_product_roles (r ∷ rs) = cons_role (map_product_role r) (map_product_roles rs)

abbrev as_product : Text → Option (List CallerRole) → Option KindCaller
as_product service none = none
as_product service (some rs) =
    some (record { caller_service = service; kind = product; roles = rs })

abbrev pub sole_role : List CallerRole → Option CallerRole
sole_role (r ∷ []) = some r
sole_role _ = none

abbrev pub dedicated_kind : Option CallerRole → Option CallerKind
dedicated_kind (some orchestrator_mount) = some orchestrator
dedicated_kind (some migration_admin) = some migration
dedicated_kind _ = none

abbrev map_as : Text → List CallerRole → Option CallerKind → Option KindCaller
map_as service rs (some k) = some (record { caller_service = service; kind = k; roles = rs })
map_as service rs none = as_product service (map_product_roles rs)

unfoldable pub map_roles : Text → List CallerRole → Option KindCaller
map_roles service rs = map_as service rs (dedicated_kind (sole_role rs))

unfoldable pub map_allowed_caller : AllowedCaller → Option KindCaller
map_allowed_caller c =
    if is_blank c.caller_service
    then none
    else if length c.roles == 0
    then none
    else if not (roles_distinct [] c.roles)
    then none
    else map_roles (trim_space c.caller_service) c.roles
