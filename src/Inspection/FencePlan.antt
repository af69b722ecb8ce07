-- ===== src/Inspection/FencePlan.antt =====
-- The plan for a fence (internal/inspection/recovery_planner.go) against the rules for fences
-- (internal/fences/fences.go).
use agentsmith_fs_control_pl.Fences.{
  Status, expired, recovery_required, Fence, is_held, validate_fence,
}
use agentsmith_fs_control_pl.Fences.Valid.{validate_fence-held}
use agentsmith_fs_control_pl.Inspection.{wait, classify_fence_recovery, noop, recover}
use agentsmith_fs_control_pl.Prelude.{false, none, ◌↔◌, ◌≡◌, ◌⊎◌, arith}

-- A fence that stands in the way for good until someone recovers it.
abbrev pub IsStuck : Fence → Type 0
IsStuck f = (validate_fence f ≡ none) × ((f.status ≡ expired) ⊎ (f.status ≡ recovery_required))

-- The plan for a fence is to recover it exactly when the fence is valid and its status is expired
-- or recovery required, and to wait exactly when it is valid and active; a fence that is held and
-- valid is never left alone.
pub classify_fence_recovery_iff :
    (f : Fence)
    → (((classify_fence_recovery f).action ≡ recover) ↔ IsStuck f)
      × (((classify_fence_recovery f).action ≡ wait)
          ↔ ((validate_fence f ≡ none) × (f.status ≡ Status.active)))
      × (((classify_fence_recovery f).action ≡ noop)
          ↔ ((validate_fence f ≡ none) × (is_held f ≡ false)))
unfolding classify_fence_recovery
classify_fence_recovery_iff f =
    let held = validate_fence-held f in
    (
      (λ h. (ground (arith, held), ground (arith, held)), λ h. ground (arith, held)),
      (λ h. (ground (arith, held), ground (arith, held)), λ h. ground (arith, held)),
      (λ h. (ground (arith, held), ground (arith, held)), λ h. ground (arith, held)),
    )
