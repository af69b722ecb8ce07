-- ===== src/Auth/Mapping.antt =====
-- The mapping of stored callers (internal/namespaceauth/mapping.go) keeps the roles that
-- internal/resources/resources.go lets a namespace give.
use agentsmith_fs_control_pl.Auth.{
  is_product_control_plane_role, kind_can_use_role, map_product_role, map_product_roles, product,
  role_satisfies_required_role, roles_distinct, some_role_satisfies, KindCaller, map_roles,
  migration, orchestrator, dedicated_kind, map_allowed_caller, sole_role,
}
use agentsmith_fs_control_pl.Prelude.{
  All, List, [], arith, false, none, refl, some, true, ◌∷◌, ◌≡◌, Bool-cases, inl, inr, subst,
  length, not, ◌&&◌, ◌==◌, ap, sym, ◌≢◌, ◌⊎◌,
}
use agentsmith_fs_control_pl.Resources.Caller.{
  CallerRole, has_role, is_deployment, migration_admin, orchestrator_mount, role_eq, role_valid,
  validate_roles, AllowedCaller, role_eq_sound, validate_caller,
}
use agentsmith_fs_control_pl.Text.{Text, trim_space, is_blank}

validate_roles-distinct :
    (seen rs : List CallerRole) → validate_roles seen rs ≡ none → roles_distinct seen rs ≡ true
unfolding validate_roles roles_distinct
validate_roles-distinct seen [] h = refl
validate_roles-distinct seen (r ∷ rs) h = ground (arith, validate_roles-distinct (r ∷ seen) rs)

abbrev IsProduct : CallerRole → Type 0
IsProduct r = is_product_control_plane_role r ≡ true

ordinary-IsProduct :
    (r : CallerRole)
    → role_valid r ≡ true
    → is_deployment r ≡ false
    → role_eq r orchestrator_mount ≡ false
    → role_eq r migration_admin ≡ false
    → IsProduct r
ordinary-IsProduct r a b c d = ground arith

validate_roles-IsProduct :
    (seen rs : List CallerRole)
    → validate_roles seen rs ≡ none
    → has_role orchestrator_mount rs ≡ false
    → has_role migration_admin rs ≡ false
    → All IsProduct rs
unfolding validate_roles
validate_roles-IsProduct seen [] h a b = tt
validate_roles-IsProduct seen (r ∷ rs) h a b = (
  ground arith,
  validate_roles-IsProduct (r ∷ seen) rs (ground arith) (ground arith) (ground arith),
)

product-maps : (r : CallerRole) → IsProduct r → map_product_role r ≡ some r
product-maps r h = ground arith

map_product_roles_same : (rs : List CallerRole) → All IsProduct rs → map_product_roles rs ≡ some rs
unfolding map_product_roles
map_product_roles_same [] p = refl
map_product_roles_same (r ∷ rs) (p, ps) = rw (product-maps r p, map_product_roles_same rs ps) refl

product-satisfies :
    (g r : CallerRole) → IsProduct g → role_satisfies_required_role product g r ≡ role_eq g r
unfolding role_satisfies_required_role kind_can_use_role
product-satisfies g r p = elim (Bool-cases (role_eq g r)) [
  | inl y ↦ let e : IsProduct r = subst IsProduct (role_eq_sound g r y) p in ground arith
  | inr n ↦ ground arith
]

products_satisfy :
    (rs : List CallerRole) (r : CallerRole)
    → All IsProduct rs
    → some_role_satisfies product rs r ≡ has_role r rs
unfolding some_role_satisfies
products_satisfy [] r p = refl
products_satisfy (g ∷ rs) r (p, ps) =
    rw (product-satisfies g r p, products_satisfy rs r ps) (ground arith)

-- What a caller of a namespace is mapped to: the same service, with exactly the stored roles.
pub record IsMapped (c : AllowedCaller) (k : KindCaller) : Type 0 where
  pub service : k.caller_service ≡ trim_space c.caller_service
  pub same : (r : CallerRole) → some_role_satisfies k.kind k.roles r ≡ has_role r c.roles

not_dedicated : (rs : List CallerRole) → All IsProduct rs → dedicated_kind (sole_role rs) ≡ none
not_dedicated [] p = refl
not_dedicated (r ∷ []) (p, ps) = ground arith
not_dedicated (r ∷ s ∷ rs) p = refl

map_roles_many :
    (service : Text) (rs : List CallerRole)
    → All IsProduct rs
    → map_roles service rs ≡ some (record { caller_service = service; kind = product; roles = rs })
unfolding map_roles
map_roles_many service rs p = rw (not_dedicated rs p, map_product_roles_same rs p) refl

orchestrator_roles :
    (r : CallerRole)
    → some_role_satisfies orchestrator (orchestrator_mount ∷ []) r
      ≡ has_role r (orchestrator_mount ∷ [])
unfolding some_role_satisfies role_satisfies_required_role kind_can_use_role
orchestrator_roles r = ground arith

migration_roles :
    (r : CallerRole)
    → some_role_satisfies migration (migration_admin ∷ []) r ≡ has_role r (migration_admin ∷ [])
unfolding some_role_satisfies role_satisfies_required_role kind_can_use_role
migration_roles r = ground arith

abbrev RolesMapped : Text → List CallerRole → Type 0
RolesMapped service rs =
    (k : KindCaller) × (map_roles service rs ≡ some k)
    × (k.caller_service ≡ service)
    × ((r : CallerRole) → some_role_satisfies k.kind k.roles r ≡ has_role r rs)

-- A role that must stand alone does not occur beside others.
abbrev IsAlone : CallerRole → List CallerRole → Type 0
IsAlone r rs = has_role r rs && not (length rs == 1) ≡ false

products-RolesMapped :
    (service : Text) (rs : List CallerRole) → All IsProduct rs → RolesMapped service rs
products-RolesMapped service rs ps = (
  record { caller_service = service; kind = product; roles = rs },
  map_roles_many service rs ps,
  refl,
  λ r. products_satisfy rs r ps,
)

roles_shape :
    (rs : List CallerRole)
    → IsAlone orchestrator_mount rs
    → IsAlone migration_admin rs
    → (rs ≡ orchestrator_mount ∷ [])
      ⊎ ((rs ≡ migration_admin ∷ [])
          ⊎ ((has_role orchestrator_mount rs ≡ false) × (has_role migration_admin rs ≡ false)))
roles_shape [] a b = inr (inr (refl, refl))
roles_shape (r ∷ []) a b = elim (Bool-cases (role_eq r orchestrator_mount)) [
  | inl y ↦ inl (ap (λ x. x ∷ []) (role_eq_sound r orchestrator_mount y))
  | inr n ↦ elim (Bool-cases (role_eq r migration_admin)) [
    | inl y ↦ inr (inl (ap (λ x. x ∷ []) (role_eq_sound r migration_admin y)))
    | inr m ↦ inr (inr (rw n refl, rw m refl))
  ]
]
roles_shape (r ∷ s ∷ rs) a b = inr (inr (ground arith, ground arith))

valid-RolesMapped :
    (service : Text) (rs : List CallerRole)
    → validate_roles [] rs ≡ none
    → IsAlone orchestrator_mount rs
    → IsAlone migration_admin rs
    → RolesMapped service rs
unfolding map_roles
valid-RolesMapped service rs v a b = elim (roles_shape rs a b) [
  | inl e ↦ subst (RolesMapped service) (sym e) (_, refl, refl, orchestrator_roles)
  | inr (inl e) ↦ subst (RolesMapped service) (sym e) (_, refl, refl, migration_roles)
  | inr (inr (n, m)) ↦ products-RolesMapped service rs (validate_roles-IsProduct [] rs v n m)
]

caller-parts :
    (c : AllowedCaller)
    → validate_caller c ≡ none
    → (is_blank c.caller_service ≡ false)
      × (length c.roles == 0 ≡ false)
      × (validate_roles [] c.roles ≡ none)
      × IsAlone orchestrator_mount c.roles
      × IsAlone migration_admin c.roles
unfolding validate_caller
caller-parts c h = (ground arith, ground arith, ground arith, ground arith, ground arith)

-- Every caller that a namespace may store is mapped, under its trimmed name, and has exactly the
-- stored roles: for each role that a route may require, the mapped caller satisfies it exactly when
-- the role is stored.
pub map_allowed_caller-IsMapped :
    (c : AllowedCaller)
    → validate_caller c ≡ none
    → (k : KindCaller) × (map_allowed_caller c ≡ some k) × IsMapped c k
unfolding map_allowed_caller
map_allowed_caller-IsMapped c h =
    let (b, l, v, a, m) = caller-parts c h in
    let (k, e, s, r) = valid-RolesMapped (trim_space c.caller_service) c.roles v a m in
    (k, rw (b, l) (rw (validate_roles-distinct [] c.roles v) e), record { service = s; same = r })

-- A caller of the product never acts in a role of deployment policy, nor as orchestrator or
-- migration.
pub product-role_satisfies :
    (granted required : CallerRole)
    → role_satisfies_required_role product granted required ≡ true
    → (granted ≡ required)
      × (is_deployment required ≡ false)
      × (required ≢ orchestrator_mount)
      × (required ≢ migration_admin)
unfolding role_satisfies_required_role kind_can_use_role
product-role_satisfies g r h =
    let (e, p) : (role_eq g r ≡ true) × IsProduct r = (ground arith, ground arith) in
    (role_eq_sound g r e, ground arith, λ q. ground arith, λ q. ground arith)
