-- ===== src/ExportAccess/Lifetime.antt =====
-- The lifetime of export sessions (internal/exportaccess/exportaccess.go).
use agentsmith_fs_control_pl.ExportAccess.{
  default_ttl_seconds, min_ttl_seconds, resolve_ttl_seconds,
}
use agentsmith_fs_control_pl.Prelude.{arith, false, leb_ℤ, ok, pos, true, ℤ, ◌↔◌, ◌≡◌, ◌⊎◌}

-- What a lifetime of so many seconds rests on: the bound of the deployment allows the minimum, and
-- the lifetime is the requested one, within the bounds, or, for no request, the default, cut to the
-- bound.
abbrev pub IsTtl : ℤ → ℤ → ℤ → Type 0
IsTtl requested most n =
    (leb_ℤ min_ttl_seconds most ≡ true)
    × (((requested ≡ pos 0) × (n ≡ default_ttl_seconds) × (leb_ℤ default_ttl_seconds most ≡ true))
        ⊎ ((requested ≡ pos 0) × (n ≡ most) × (leb_ℤ default_ttl_seconds most ≡ false))
        ⊎ ((requested ≡ n) × (leb_ℤ min_ttl_seconds n ≡ true) × (leb_ℤ n most ≡ true)))

-- `ResolveTTLSeconds` gives exactly these lifetimes, and an error for every other request.
pub resolve_ttl_seconds_iff :
    (requested most n : ℤ) → (resolve_ttl_seconds requested most ≡ ok n) ↔ IsTtl requested most n
unfolding resolve_ttl_seconds
resolve_ttl_seconds_iff requested most n = ground arith
