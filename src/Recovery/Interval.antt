-- ===== src/Recovery/Interval.antt =====
-- How often the lease of an operation that is executed is renewed
-- (internal/recovery/operation.go).
use agentsmith_fs_control_pl.Clock.{Duration, add}
use agentsmith_fs_control_pl.ExportRuntime.{latest}
use agentsmith_fs_control_pl.Operations.Lease.{is_live}
use agentsmith_fs_control_pl.Prelude.{
  arith, if◌then◌else◌, ltb, negsuc, pos, some, true, ℕ, ◌&&◌, ◌*◌, ◌+◌, ◌/◌, ◌<◌, ◌==◌, ◌≡◌, ◌≤◌,
  ◌⊎◌, Bool-cases, inl, inr,
}

-- `minOperationLeaseRenewalInterval`, a second, and the millisecond of the last branch.
abbrev pub min_interval : ℕ
min_interval = 1000000000

abbrev pub millisecond : ℕ
millisecond = 1000000

abbrev pub at_least_min : ℕ → ℕ
at_least_min interval = if ltb interval min_interval then min_interval else interval

abbrev pub at_most_safe : ℕ → ℕ → ℕ
at_most_safe latest interval = if ltb 0 latest && ltb latest interval then latest else interval

abbrev pub not_zero : ℕ → ℕ
not_zero interval = if interval == 0 then millisecond else interval

abbrev pub interval_of : ℕ → ℕ
interval_of d = not_zero (at_most_safe (d / 2) (at_least_min (d / 3)))

-- `operationLeaseRenewalInterval`
unfoldable pub lease_renewal_interval : Duration → ℕ
lease_renewal_interval (pos d) = if d == 0 then min_interval else interval_of d
lease_renewal_interval (negsuc d) = min_interval

-- The first renewal of a lease of at least two nanoseconds comes after a positive time, at most half
-- of the lease, so that the lease is still live then; and a lease of three seconds or more is renewed
-- after a third of it.
pub lease_renewal_interval-InTime :
    (t d : ℕ)
    → 2 ≤ d
    → (0 < lease_renewal_interval (pos d))
      × (2 * lease_renewal_interval (pos d) ≤ d)
      × (is_live (some (add t (pos d))) (t + lease_renewal_interval (pos d)) ≡ true)
      × ((d < 3 * min_interval) ⊎ (lease_renewal_interval (pos d) ≡ d / 3))
unfolding lease_renewal_interval
lease_renewal_interval-InTime t d h = (
  ground arith,
  ground arith,
  ground arith,
  elim (Bool-cases (ltb d (3 * min_interval))) [
    | inl y ↦ inl (ground arith)
    | inr n ↦ inr (ground arith)
  ],
)
