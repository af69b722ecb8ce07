-- ===== src/Fences/Tests.antt =====
-- Fences on a concrete repository.
use mathlib.Core.List.{Memᴰ}
use agentsmith_fs_control_pl.Fences.{
  AcquisitionRequest, Fence, acquired, active, blocked_by, blocked_by_kind, can_acquire,
  can_acquire_among, lifecycle, validate_fence, validate_fence_repo_id, validate_request,
  validate_times, wait_or_recover, writer_session,
}
use agentsmith_fs_control_pl.Fences.Acquire.{
  IsClear, can_acquire-allowed_iff, can_acquire-exclusive,
}
use agentsmith_fs_control_pl.PathResolver.Id.{
  validate_characters, validate_id, validate_prefixed, validate_suffix, validate_with,
}
use agentsmith_fs_control_pl.Prelude.{All, [], false, none, refl, true, ◌↔◌, ◌∷◌, ◌≡◌}
use agentsmith_fs_control_pl.Text.{bytes, cut_prefix, every, text_eq, trim_space}

-- All that a decision computes with.
rules : Unit {0}
unfolding can_acquire can_acquire_among validate_request validate_fence validate_fence_repo_id
    validate_times blocked_by blocked_by_kind validate_id validate_with validate_prefixed
    validate_suffix validate_characters cut_prefix every text_eq trim_space
rules = tt

abbrev fence : Fence
fence = record {
  id = bytes "f1";
  repo_id = bytes "repo_b2";
  kind = writer_session;
  holder_operation_id = bytes "op_01";
  status = active;
  expires_at = 90;
  released_at = none;
  recovery_operation_id = [];
  recovery_reason = [];
  recovery_started_at = none;
  recovered_at = none;
  created_at = 10;
  updated_at = 10;
}

abbrev request : AcquisitionRequest
request = record {
  repo_id = bytes "repo_b2";
  kind = lifecycle;
  holder_operation_id = bytes "op_02";
  conflict_mode = wait_or_recover;
}

fence_is_valid : validate_fence fence ≡ none
unfolding rules
fence_is_valid = refl

can_acquire-allowed_iff_example :
    ((can_acquire request (fence ∷ [])).allowed ≡ true)
    ↔ ((validate_request request ≡ none) × All (IsClear request) (fence ∷ []))
can_acquire-allowed_iff_example = can_acquire-allowed_iff request (fence ∷ [])

free_repository : can_acquire request [] ≡ acquired
unfolding rules
free_repository = refl

can_acquire-exclusive_example : (can_acquire request (fence ∷ [])).allowed ≡ false
can_acquire-exclusive_example =
    can_acquire-exclusive request fence (fence ∷ []) (Memᴰ.head refl) refl refl
