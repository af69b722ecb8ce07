-- ===== src/Fences/Valid.antt =====
-- What `ValidateFence` says of the status and the times of a fence (internal/fences/fences.go).
use agentsmith_fs_control_pl.Fences.{
  Fence, Status, active, expired, is_held, other_status, recovered, recovery_required, released,
  status_valid, validate_fence, validate_times,
}
use agentsmith_fs_control_pl.Prelude.{Bool, arith, false, none, true, ◌≡◌}

-- The statuses of a fence that is still held.
abbrev pub is_holding : Status → Bool
is_holding active = true
is_holding expired = true
is_holding recovery_required = true
is_holding _ = false

validate_fence-times :
    (f : Fence)
    → validate_fence f ≡ none
    → (status_valid f.status ≡ true) × (validate_times f.status f ≡ none)
unfolding validate_fence
validate_fence-times f h = ground arith

held_of_times :
    (s : Status) (f : Fence)
    → status_valid s ≡ true
    → validate_times s f ≡ none
    → is_held f ≡ is_holding s
unfolding validate_times
held_of_times active f v h = ground arith
held_of_times expired f v h = ground arith
held_of_times recovery_required f v h = ground arith
held_of_times released f v h = ground arith
held_of_times recovered f v h = ground arith
held_of_times (other_status s) f v h = cc

-- Of a valid fence the times and the status agree: it is held exactly while its status is active,
-- expired or recovery_required.
pub validate_fence-held : (f : Fence) → validate_fence f ≡ none → is_held f ≡ is_holding f.status
validate_fence-held f h = let (v, t) = validate_fence-times f h in held_of_times f.status f v t
