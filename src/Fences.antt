-- ===== src/Fences.antt =====
-- internal/fences/fences.go: the fences that keep two operations off one repository. A string type
-- of the source has a constructor for each of its constants and one for any other string. Of a
-- `FenceError` the family and the field are kept; the reason is a text for people.
pub mod Valid
pub mod Acquire
mod Tests
use agentsmith_fs_control_pl.Clock.{Time, is_zero}
use agentsmith_fs_control_pl.PathResolver.Id.{IdKind, operation_id, validate_id}
use agentsmith_fs_control_pl.Prelude.{
  Bool, List, Option, [], check, false, if◌then◌else◌, is_some, none, not, on_error, some, true,
  ◌&&◌, ◌then_check◌, ◌∷◌,
}
use agentsmith_fs_control_pl.Text.{Text, is_blank, is_empty, text_eq}

pub data Kind : Type 0 where
  writer_session lifecycle : Kind
  other_kind : Text → Kind

abbrev pub kind_valid : Kind → Bool
kind_valid (other_kind s) = false
kind_valid _ = true

pub data Status : Type 0 where
  active expired recovery_required released recovered : Status
  other_status : Text → Status

abbrev pub status_valid : Status → Bool
status_valid (other_status s) = false
status_valid _ = true

pub data ErrorFamily : Type 0 where
  invalid_id writer_session_fence_held repo_lifecycle_fence_held : ErrorFamily
  operation_recovery_required : ErrorFamily

pub data FenceField : Type 0 where
  id repo_id kind holder_operation_id status expires_at created_at updated_at : FenceField
  recovery_operation_id released_at recovered_at recovery_started_at : FenceField
  fence_kind conflict_mode : FenceField

pub record FenceError : Type 0 where
  pub family : ErrorFamily
  pub field : FenceField

pub record Fence : Type 0 where
  pub id : Text
  pub repo_id : Text
  pub kind : Kind
  pub holder_operation_id : Text
  pub status : Status
  pub expires_at : Time
  pub released_at : Option Time
  pub recovery_operation_id : Text
  pub recovery_reason : Text
  pub recovery_started_at : Option Time
  pub recovered_at : Option Time
  pub created_at : Time
  pub updated_at : Time

-- `fence.Held()`
abbrev pub is_held : Fence → Bool
is_held f = not (is_some f.released_at) && not (is_some f.recovered_at)

abbrev pub invalid : FenceField → FenceError
invalid f = record { family = invalid_id; field = f }

-- The last `switch` of `ValidateFence`: which times go with which status.
unfoldable pub validate_times : Status → Fence → Option FenceError
validate_times released f =
    check (not (is_some f.released_at)) (invalid released_at)
    then_check check (is_some f.recovered_at) (invalid recovered_at)
validate_times recovered f =
    check (not (is_some f.released_at)) (invalid released_at)
    then_check check (not (is_some f.recovered_at)) (invalid recovered_at)
    then_check check (not (is_some f.recovery_started_at)) (invalid recovery_started_at)
validate_times (other_status s) f = none
validate_times _ f =
    check (is_some f.released_at) (invalid released_at)
    then_check check (is_some f.recovered_at) (invalid recovered_at)

unfoldable pub validate_fence_repo_id : Fence → Option FenceError
validate_fence_repo_id f = check (is_some (validate_id IdKind.repo_id f.repo_id)) (invalid repo_id)

unfoldable pub validate_fence : Fence → Option FenceError
validate_fence f =
    check (is_blank f.id) (invalid id)
    then_check check (is_some (validate_id IdKind.repo_id f.repo_id)) (invalid repo_id)
    then_check check (not (kind_valid f.kind)) (invalid kind)
    then_check check (is_some (validate_id operation_id f.holder_operation_id))
        (invalid holder_operation_id)
    then_check check (not (status_valid f.status)) (invalid status)
    then_check check (is_zero f.expires_at) (invalid expires_at)
    then_check check (is_zero f.created_at) (invalid created_at)
    then_check check (is_zero f.updated_at) (invalid updated_at)
    then_check check
        (not (is_empty f.recovery_operation_id)
          && is_some (validate_id operation_id f.recovery_operation_id))
        (invalid recovery_operation_id)
    then_check validate_times f.status f

pub data ConflictMode : Type 0 where
  fail_closed wait_or_recover : ConflictMode
  other_mode : Text → ConflictMode

abbrev pub mode_valid : ConflictMode → Bool
mode_valid (other_mode s) = false
mode_valid _ = true

pub record AcquisitionRequest : Type 0 where
  pub repo_id : Text
  pub kind : Kind
  pub holder_operation_id : Text
  pub conflict_mode : ConflictMode

pub data AcquisitionAction : Type 0 where
  acquire deny wait_for_recovery : AcquisitionAction

pub record AcquisitionDecision : Type 0 where
  pub allowed : Bool
  pub action : AcquisitionAction
  pub blocking_fence : Option Fence
  pub error : Option FenceError

abbrev pub denied : Option Fence → FenceError → AcquisitionDecision
denied f e = record { allowed = false; action = deny; blocking_fence = f; error = some e }

abbrev pub acquired : AcquisitionDecision
acquired = record { allowed = true; action = acquire; blocking_fence = none; error = none }

abbrev pub waiting : Fence → AcquisitionDecision
waiting f = record {
  allowed = false;
  action = wait_for_recovery;
  blocking_fence = some f;
  error = none;
}

abbrev pub blocked : Fence → ErrorFamily → FenceField → AcquisitionDecision
blocked f family x = denied (some f) (record { family = family; field = x })

unfoldable pub validate_request : AcquisitionRequest → Option FenceError
validate_request q =
    check (is_some (validate_id IdKind.repo_id q.repo_id)) (invalid repo_id)
    then_check check (not (kind_valid q.kind)) (invalid kind)
    then_check check (is_some (validate_id operation_id q.holder_operation_id))
        (invalid holder_operation_id)
    then_check check (not (mode_valid q.conflict_mode)) (invalid conflict_mode)

-- A held fence whose status is not the trouble, by the kind of the fence, of the request and its
-- conflict mode.
unfoldable pub blocked_by_kind : Kind → Kind → ConflictMode → Fence → AcquisitionDecision
blocked_by_kind lifecycle k m f = blocked f repo_lifecycle_fence_held fence_kind
blocked_by_kind writer_session lifecycle wait_or_recover f = waiting f
blocked_by_kind writer_session k m f = blocked f writer_session_fence_held fence_kind
blocked_by_kind (other_kind s) k m f = blocked f operation_recovery_required fence_kind

unfoldable pub blocked_by : Status → AcquisitionRequest → Fence → AcquisitionDecision
blocked_by expired q f = blocked f operation_recovery_required status
blocked_by recovery_required q f = blocked f operation_recovery_required status
blocked_by s q f = blocked_by_kind f.kind q.kind q.conflict_mode f

-- The loop of `CanAcquire`. A refusal of a stored fence keeps the field that is wrong.
unfoldable pub can_acquire_among : AcquisitionRequest → List Fence → AcquisitionDecision
can_acquire_among q [] = acquired
can_acquire_among q (f ∷ fs) =
    let rest = can_acquire_among q fs in
    on_error (validate_fence_repo_id f) (λ e. blocked f operation_recovery_required e.field)
      (if not (text_eq f.repo_id q.repo_id)
        then rest
        else on_error (validate_fence f) (λ e. blocked f operation_recovery_required e.field)
            (if not (is_held f) then rest else blocked_by f.status q f))

unfoldable pub can_acquire : AcquisitionRequest → List Fence → AcquisitionDecision
can_acquire q fs = on_error (validate_request q) (denied none) (can_acquire_among q fs)
