-- ===== src/Auth/Policy.antt =====
-- Which callers are let in (internal/auth/policy.go).
use mathlib.Core.List.{Memᴰ}
use agentsmith_fs_control_pl.Auth.{
  CallerKind, KindCaller, caller_role_allowed, caller_role_denial_reason_for, denial_reason,
  is_admin_or_operator, kind_can_use_role, role_satisfies_required_role, some_role_satisfies,
}
use agentsmith_fs_control_pl.Prelude.{
  Bool, Bool-cases, List, [], arith, false, inl, inr, refl, subst, true, ◌&&◌, ◌↔◌, ◌∷◌, ◌≡◌, ◌⊎◌,
}
use agentsmith_fs_control_pl.Resources.Caller.{
  CallerRole, operation_inspector, operator_admin, role_eq, role_eq_refl, role_eq_sound,
}
use agentsmith_fs_control_pl.Text.{Text, is_blank, text_eq, text_eq_iff, trim_space}

-- What makes one role enough for another: it is the same and open to the kind of the caller, or it
-- is operator_admin, which may inspect operations.
abbrev pub Grants : CallerKind → CallerRole → CallerRole → Type 0
Grants k g r =
    ((g ≡ r) × (kind_can_use_role k r ≡ true))
    ⊎ ((r ≡ operation_inspector) × ((g ≡ operator_admin) × (is_admin_or_operator k ≡ true)))

role_satisfies-Grants :
    (k : CallerKind) (g r : CallerRole) → (role_satisfies_required_role k g r ≡ true) ↔ Grants k g r
unfolding role_satisfies_required_role
role_satisfies-Grants k g r = (sound, complete)
  where
    sound : role_satisfies_required_role k g r ≡ true → Grants k g r
    sound h = elim (Bool-cases (role_eq g r && kind_can_use_role k r)) [
      | inl y ↦ inl (role_eq_sound g r (ground arith), ground arith)
      | inr n ↦ inr (
        role_eq_sound r operation_inspector (ground arith),
        (role_eq_sound g operator_admin (ground arith), ground arith),
      )
    ]

    complete : Grants k g r → role_satisfies_required_role k g r ≡ true
    complete (inl (e, c)) = rw (e, role_eq_refl r, c) refl
    complete (inr (e, (f, c))) = rw (e, f) c

-- A caller of the list with this service has a role that is enough.
abbrev pub IsGranted : Text → CallerRole → List KindCaller → Type 0
IsGranted service r cs =
    (c : KindCaller) × Memᴰ c cs
    × (trim_space c.caller_service ≡ service)
    × ((g : CallerRole) × Memᴰ g c.roles × Grants c.kind g r)

some_role-Grants :
    (k : CallerKind) (gs : List CallerRole) (r : CallerRole)
    → some_role_satisfies k gs r ≡ true
    → (g : CallerRole) × Memᴰ g gs × Grants k g r
unfolding some_role_satisfies
some_role-Grants k [] r h = cc
some_role-Grants k (g ∷ gs) r h = elim (Bool-cases (role_satisfies_required_role k g r)) [
  | inl y ↦ (g, Memᴰ.head refl, (role_satisfies-Grants k g r).0 y)
  | inr n ↦ let (x, m, s) = some_role-Grants k gs r (ground arith) in (x, Memᴰ.tail m, s)
]

Grants-some_role :
    (k : CallerKind) (gs : List CallerRole) (r g : CallerRole)
    → Memᴰ g gs
    → Grants k g r
    → some_role_satisfies k gs r ≡ true
unfolding some_role_satisfies
Grants-some_role k [] r g m s = elim m [ ]
Grants-some_role k (x ∷ gs) r g (Memᴰ.head e) s =
    let y = (role_satisfies-Grants k x r).1 (subst (λ z. Grants k z r) e s) in rw y refl
Grants-some_role k (x ∷ gs) r g (Memᴰ.tail m) s =
    let y = Grants-some_role k gs r g m s in ground arith

denial_reason-found :
    (service : Text) (r : CallerRole) (found : Bool) (cs : List KindCaller)
    → denial_reason service r found cs ≡ caller_role_allowed
    → IsGranted service r cs
unfolding denial_reason
denial_reason-found service r found [] h = ground arith
denial_reason-found service r found (c ∷ cs) h =
    elim (Bool-cases (text_eq (trim_space c.caller_service) service)) [
      | inr n ↦ later (denial_reason-found service r found cs (ground arith))
      | inl y ↦ elim (Bool-cases (some_role_satisfies c.kind c.roles r)) [
        | inl s ↦ (
          c,
          Memᴰ.head refl,
          (text_eq_iff (trim_space c.caller_service) service).0 y,
          some_role-Grants c.kind c.roles r s,
        )
        | inr n ↦ later (denial_reason-found service r true cs (ground arith))
      ]
    ]
  where
    later : IsGranted service r cs → IsGranted service r (c ∷ cs)
    later (d, m, e, g) = (d, Memᴰ.tail m, e, g)

denial_reason-granted :
    (service : Text) (r : CallerRole) (found : Bool) (cs : List KindCaller)
    → IsGranted service r cs
    → denial_reason service r found cs ≡ caller_role_allowed
unfolding denial_reason
denial_reason-granted service r found [] (d, m, e, g) = elim m [ ]
denial_reason-granted service r found (c ∷ cs) (d, Memᴰ.head q, e, (g, k, s)) =
    let y =
      (text_eq_iff (trim_space c.caller_service) service).1
        (subst (λ x. trim_space x.caller_service ≡ service) q e) in
    let z =
      Grants-some_role c.kind c.roles r g (subst (λ x. Memᴰ g x.roles) q k)
        (subst (λ x. Grants x.kind g r) q s) in
    rw (y, z) refl
denial_reason-granted service r found (c ∷ cs) (d, Memᴰ.tail m, e, g) =
    let x = denial_reason-granted service r found cs (d, m, e, g) in
    let y = denial_reason-granted service r true cs (d, m, e, g) in ground arith

-- A caller is let in exactly when its service is named and some entry of the list with that service
-- holds a role that is the required one and open to the kind of the entry, or inspects as
-- operator_admin.
pub caller_role_denial_reason_for-allowed_iff :
    (service : Text) (r : CallerRole) (cs : List KindCaller)
    → (caller_role_denial_reason_for service r cs ≡ caller_role_allowed)
      ↔ ((is_blank service ≡ false) × IsGranted (trim_space service) r cs)
unfolding caller_role_denial_reason_for
caller_role_denial_reason_for-allowed_iff service r cs = (
  λ h.
      let b : is_blank service ≡ false = ground arith in
      (b, denial_reason-found (trim_space service) r false cs (ground arith)),
  λ (b, g). rw b (denial_reason-granted (trim_space service) r false cs g),
)
