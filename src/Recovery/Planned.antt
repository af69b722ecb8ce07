-- ===== src/Recovery/Planned.antt =====
-- Which operations a round leases and executes (internal/recovery/operation.go).
use agentsmith_fs_control_pl.Clock.{Time}
use agentsmith_fs_control_pl.Inspection.{
  RecoveryAction, claimable, retry, reclaim, finalize_cancellation,
}
use agentsmith_fs_control_pl.Operations.Lease.{is_live, no_policy, finalize_policy}
use agentsmith_fs_control_pl.Operations.Record.{OperationRecord}
use agentsmith_fs_control_pl.Operations.State.{queued, running, cancel_requested, OperationState}
use agentsmith_fs_control_pl.Prelude.{false, ◌≡◌, ◌⊎◌, All}
use agentsmith_fs_control_pl.Recovery.{Batch, Event, asked, executed}
use agentsmith_fs_control_pl.Text.{Text}

-- Operations that wait for a worker, or whose worker let its lease run out.
abbrev pub IsLeftOver : Time → OperationRecord → Type 0
IsLeftOver t x = (x.state ≡ queued) ⊎ ((x.state ≡ running) × (is_live x.lease_expires_at t ≡ false))

abbrev pub IsCancelled : Time → OperationRecord → Type 0
IsCancelled t x = (x.state ≡ cancel_requested) × (is_live x.lease_expires_at t ≡ false)

abbrev pub IsPlanned : Time → Event → Type 0
IsPlanned t (executed x leased) = IsLeftOver t x
IsPlanned t (asked x no_policy) = IsLeftOver t x
IsPlanned t (asked x finalize_policy) = IsCancelled t x
IsPlanned t (asked x other) = ⊥

-- What an action says of the state of an operation.
abbrev Meaning : Time → RecoveryAction → OperationRecord → OperationState → Type 0
Meaning t claimable x s = (s ≡ queued) ⊎ ((s ≡ running) × (is_live x.lease_expires_at t ≡ false))
Meaning t retry x s = (s ≡ queued) ⊎ ((s ≡ running) × (is_live x.lease_expires_at t ≡ false))
Meaning t reclaim x s = (s ≡ queued) ⊎ ((s ≡ running) × (is_live x.lease_expires_at t ≡ false))
Meaning t finalize_cancellation x s =
    (s ≡ cancel_requested) × (is_live x.lease_expires_at t ≡ false)
Meaning t a x s = Unit

abbrev pub Planned : {W : Type 0} → Time → Batch W → Type 0
Planned t o = All (IsPlanned t) o.log
