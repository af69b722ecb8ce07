-- ===== src/Fences/Acquire.antt =====
-- When `CanAcquire` lets an operation onto a repository (internal/fences/fences.go).
use mathlib.Core.List.{Memᴰ}
use agentsmith_fs_control_pl.Fences.{
  AcquisitionRequest, ConflictMode, Fence, Kind, Status, blocked_by, blocked_by_kind,
  can_acquire_among, is_held, validate_fence, validate_fence_repo_id, acquired, active, can_acquire,
  lifecycle, validate_request, wait_for_recovery, wait_or_recover, writer_session, FenceError,
  denied, deny,
}
use agentsmith_fs_control_pl.Fences.Valid.{validate_fence-held}
use agentsmith_fs_control_pl.PathResolver.Id.{IdKind, validate_id}
use agentsmith_fs_control_pl.Prelude.{
  List, arith, false, none, true, ◌∷◌, ◌≡◌, All, Bool-cases, Option, [], inl, inr, refl, some,
  subst, sym, ◌↔◌, ◌∙◌, ap, on_error, ◌⊎◌,
}
use agentsmith_fs_control_pl.Text.{text_eq, text_eq_iff}

-- A stored fence that does not stand in the way of a request for a repository.
abbrev pub IsClear : AcquisitionRequest → Fence → Type 0
IsClear q f =
    (validate_id IdKind.repo_id f.repo_id ≡ none)
    × (f.repo_id ≡ q.repo_id → (validate_fence f ≡ none) × (is_held f ≡ false))

blocked_by_kind-denied :
    (k j : Kind) (m : ConflictMode) (f : Fence) → (blocked_by_kind k j m f).allowed ≡ false
unfolding blocked_by_kind
blocked_by_kind-denied k j m f = ground arith

blocked_by-denied :
    (s : Status) (q : AcquisitionRequest) (f : Fence) → (blocked_by s q f).allowed ≡ false
unfolding blocked_by
blocked_by-denied s q f = ground (arith, blocked_by_kind-denied f.kind q.kind q.conflict_mode f)

-- One round of the loop, with the rest of the loop shut.
step-allowed :
    (q : AcquisitionRequest) (f : Fence) (fs : List Fence)
    → (can_acquire_among q (f ∷ fs)).allowed ≡ true
    → IsClear q f × ((can_acquire_among q fs).allowed ≡ true)
unfolding can_acquire_among validate_fence_repo_id
step-allowed q f fs h = (
  (
    ground (arith, blocked_by-denied f.status q f),
    λ e. ground (arith, text_eq_iff f.repo_id q.repo_id, blocked_by-denied f.status q f),
  ),
  ground (arith, blocked_by-denied f.status q f),
)

step-clear :
    (q : AcquisitionRequest) (f : Fence) (fs : List Fence)
    → IsClear q f
    → can_acquire_among q (f ∷ fs) ≡ can_acquire_among q fs
unfolding can_acquire_among validate_fence_repo_id
step-clear q f fs (v, c) = elim (Bool-cases (text_eq f.repo_id q.repo_id)) [
  | inl same ↦ let (ok_fence, free) = c ((text_eq_iff f.repo_id q.repo_id).0 same) in ground arith
  | inr other ↦ ground arith
]

among-allowed :
    (q : AcquisitionRequest) (fs : List Fence)
    → (can_acquire_among q fs).allowed ≡ true
    → All (IsClear q) fs
among-allowed q [] h = tt
among-allowed q (f ∷ fs) h = let (c, rest) = step-allowed q f fs h in (c, among-allowed q fs rest)

among-clear :
    (q : AcquisitionRequest) (fs : List Fence)
    → All (IsClear q) fs
    → can_acquire_among q fs ≡ acquired
unfolding can_acquire_among
among-clear q [] c = refl
among-clear q (f ∷ fs) (c, cs) = step-clear q f fs c ∙ among-clear q fs cs

-- `CanAcquire` allows exactly a valid request for a repository all of whose stored fences are valid
-- and released, in a set of fences that all name a valid repository.
pub can_acquire-allowed_iff :
    (q : AcquisitionRequest) (fs : List Fence)
    → ((can_acquire q fs).allowed ≡ true) ↔ ((validate_request q ≡ none) × All (IsClear q) fs)
unfolding can_acquire
can_acquire-allowed_iff q fs = (sound, complete)
  where
    sound : (can_acquire q fs).allowed ≡ true → (validate_request q ≡ none) × All (IsClear q) fs
    sound h = (ground arith, among-allowed q fs (ground arith))

    complete : (validate_request q ≡ none) × All (IsClear q) fs → (can_acquire q fs).allowed ≡ true
    complete (v, c) = ground (arith, among-clear q fs c)

held_not_clear :
    (q : AcquisitionRequest) (f : Fence) (fs : List Fence)
    → Memᴰ f fs
    → f.repo_id ≡ q.repo_id
    → is_held f ≡ true
    → All (IsClear q) fs
    → ⊥
held_not_clear q f [] m e h c = elim m [ ]
held_not_clear q f (g ∷ fs) (Memᴰ.head p) e h (c, cs) =
    let clear : IsClear q f = subst (IsClear q) (sym p) c in cc ((clear.1 e).1)
held_not_clear q f (g ∷ fs) (Memᴰ.tail m) e h (c, cs) = held_not_clear q f fs m e h cs

-- A held fence keeps every other operation off its repository, whatever its kind, its expiry and
-- its place among the stored fences, and whatever the request asks for.
pub can_acquire-exclusive :
    (q : AcquisitionRequest) (f : Fence) (fs : List Fence)
    → Memᴰ f fs
    → f.repo_id ≡ q.repo_id
    → is_held f ≡ true
    → (can_acquire q fs).allowed ≡ false
can_acquire-exclusive q f fs m e h = elim (Bool-cases (can_acquire q fs).allowed) [
  | inl y ↦ absurd (held_not_clear q f fs m e h ((can_acquire-allowed_iff q fs).0 y).1)
  | inr n ↦ n
]

-- What a request to wait says of the blocking fence.
abbrev pub WaitsFor : AcquisitionRequest → List Fence → Option Fence → Type 0
WaitsFor q fs none = ⊥
WaitsFor q fs (some f) =
    Memᴰ f fs
    × (f.repo_id ≡ q.repo_id)
    × (validate_fence f ≡ none)
    × (is_held f ≡ true)
    × (f.kind ≡ writer_session)
    × (f.status ≡ active)
    × (q.kind ≡ lifecycle)
    × (q.conflict_mode ≡ wait_or_recover)

blocked_by-waits :
    (q : AcquisitionRequest) (f : Fence)
    → validate_fence f ≡ none
    → is_held f ≡ true
    → (blocked_by f.status q f).action ≡ wait_for_recovery
    → ((blocked_by f.status q f).blocking_fence ≡ some f)
      × (f.kind ≡ writer_session)
      × (f.status ≡ active)
      × (q.kind ≡ lifecycle)
      × (q.conflict_mode ≡ wait_or_recover)
unfolding blocked_by blocked_by_kind
blocked_by-waits q f v h w = ground (arith, validate_fence-held f v)

WaitsFor-later :
    (q : AcquisitionRequest) (f : Fence) (fs : List Fence) (o : Option Fence)
    → WaitsFor q fs o
    → WaitsFor q (f ∷ fs) o
WaitsFor-later q f fs none w = w
WaitsFor-later q f fs (some g) (m, a, b, c, d, e, k, l) = (Memᴰ.tail m, a, b, c, d, e, k, l)

-- One round of the loop goes on, or stops at this fence.
step-cases :
    (q : AcquisitionRequest) (f : Fence) (fs : List Fence)
    → (can_acquire_among q (f ∷ fs) ≡ can_acquire_among q fs)
      ⊎ ((can_acquire_among q (f ∷ fs)).action ≡ deny)
      ⊎ ((f.repo_id ≡ q.repo_id)
          × (validate_fence f ≡ none)
          × (is_held f ≡ true)
          × (can_acquire_among q (f ∷ fs) ≡ blocked_by f.status q f))
unfolding can_acquire_among validate_fence_repo_id
step-cases q f fs = ground (arith, text_eq_iff f.repo_id q.repo_id)

among-waits :
    (q : AcquisitionRequest) (fs : List Fence)
    → (can_acquire_among q fs).action ≡ wait_for_recovery
    → WaitsFor q fs (can_acquire_among q fs).blocking_fence
unfolding can_acquire_among
among-waits q [] w = cc
among-waits q (f ∷ fs) w = elim (step-cases q f fs) [
  | inl e ↦ rw e (WaitsFor-later q f fs _ (among-waits q fs (ap (λ d. d.action) (sym e) ∙ w)))
  | inr (inl e) ↦ cc
  | inr (inr (same, v, h, e)) ↦
      let (b, k, s, l, m) = blocked_by-waits q f v h (ap (λ d. d.action) (sym e) ∙ w) in
      rw (e, b) (Memᴰ.head refl, same, v, h, k, s, l, m)
]

-- A request is told to wait or recover only for a lifecycle operation that asked for it, and only
-- by a stored, valid, held and active writer-session fence of its repository, which is returned.
pub can_acquire-waits :
    (q : AcquisitionRequest) (fs : List Fence)
    → (can_acquire q fs).action ≡ wait_for_recovery
    → WaitsFor q fs (can_acquire q fs).blocking_fence
unfolding can_acquire
can_acquire-waits q fs w = at (validate_request q) w
  where
    at :
        (o : Option FenceError)
        → (on_error o (denied none) (can_acquire_among q fs)).action ≡ wait_for_recovery
        → WaitsFor q fs (on_error o (denied none) (can_acquire_among q fs)).blocking_fence
    at none w = among-waits q fs w
    at (some e) w = cc
