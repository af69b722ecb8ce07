-- ===== src/Operations/State/Tests.antt =====
-- The transitions of internal/operations/state.go at concrete states.
use agentsmith_fs_control_pl.Operations.State.{
  running, succeeded, terminal_state, validate_transition,
}
use agentsmith_fs_control_pl.Prelude.{refl, some, ◌≡◌}

no_way_back : validate_transition succeeded running ≡ some (terminal_state succeeded running)
unfolding validate_transition
no_way_back = refl
