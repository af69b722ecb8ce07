-- ===== src/WorkloadMount/StaleLease.antt =====
-- `StaleLeaseReconciler.RunOnce` of internal/workloadmount/reconcile.go. The store's answer to the
-- listing and the clock's time are arguments; an error of the store is a text.
use agentsmith_fs_control_pl.Clock.{Time, is_zero}
use agentsmith_fs_control_pl.Prelude.{
  Bool, List, Option, Result, check, err, if◌then◌else◌, leb_ℤ, length, none, not, ok, pos, some, ℕ,
  ℤ, ◌then_return◌, ◌||◌,
}
use agentsmith_fs_control_pl.Text.{Text}
use agentsmith_fs_control_pl.WorkloadMount.{Binding}

pub record StaleLeaseResult : Type 0 where
  pub scanned : ℕ
  pub kept_blocked : ℕ
  pub failed_count : ℕ

pub data StaleLeaseError : Type 0 where
  not_configured time_unset : StaleLeaseError
  store_error : Text → StaleLeaseError

pub record StaleLeaseReconciler : Type 0 where
  pub has_store : Bool
  pub has_clock : Bool
  pub limit : ℤ

-- `NewStaleLeaseReconciler`
pub data ReconcilerError : Type 0 where
  store_required clock_required limit_not_positive : ReconcilerError

unfoldable pub new_stale_lease_reconciler :
    StaleLeaseReconciler → Result ReconcilerError StaleLeaseReconciler
new_stale_lease_reconciler config =
    check (not config.has_store) store_required
    then_return check (not config.has_clock) clock_required
    then_return check (leb_ℤ config.limit (pos 0)) limit_not_positive
    then_return ok config

-- A run returns its result beside its error.
abbrev pub no_result : StaleLeaseResult
no_result = record { scanned = 0; kept_blocked = 0; failed_count = 0 }

abbrev pub scan_result : Result Text (List Binding) → StaleLeaseResult × Option StaleLeaseError
scan_result (err e) =
    (record { scanned = 0; kept_blocked = 0; failed_count = 1 }, some (store_error e))
scan_result (ok bindings) =
    (record { scanned = length bindings; kept_blocked = length bindings; failed_count = 0 }, none)

unfoldable pub run_once_stale_leases :
    Option StaleLeaseReconciler
    → Time
    → (Time → ℤ → Result Text (List Binding))
    → StaleLeaseResult × Option StaleLeaseError
run_once_stale_leases none now list = (no_result, some not_configured)
run_once_stale_leases (some r) now list =
    if not r.has_store || not r.has_clock || leb_ℤ r.limit (pos 0)
    then (no_result, some not_configured)
    else if is_zero now
    then (no_result, some time_unset)
    else scan_result (list now r.limit)
