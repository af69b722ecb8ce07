-- ===== src/Operations/State.antt =====
-- internal/operations/state.go: the states of an operation and the transitions that are allowed.
-- Go's `OperationState` is a string; `unknown` stands for one that is no constant of the package.
pub mod Graph
mod Tests
use agentsmith_fs_control_pl.Prelude.{
  Bool, true, false, ◌||◌, not, Option, none, some, if◌then◌else◌,
}
use agentsmith_fs_control_pl.Text.{Text, text_eq}

pub data OperationState : Type 0 where
  queued running succeeded failed cancel_requested cancelled : OperationState
  operator_intervention_required : OperationState
  unknown : Text → OperationState

abbrev pub is_terminal : OperationState → Bool
is_terminal succeeded = true
is_terminal failed = true
is_terminal cancelled = true
is_terminal _ = false

abbrev pub valid : OperationState → Bool
valid (unknown s) = false
valid _ = true

-- `from == to`
abbrev pub state_eq : OperationState → OperationState → Bool
state_eq queued queued = true
state_eq running running = true
state_eq succeeded succeeded = true
state_eq failed failed = true
state_eq cancel_requested cancel_requested = true
state_eq cancelled cancelled = true
state_eq operator_intervention_required operator_intervention_required = true
state_eq (unknown s) (unknown t) = text_eq s t
state_eq _ _ = false

-- The table `allowedNextStates`; a pair that it does not list reads false.
unfoldable pub allowed_next : OperationState → OperationState → Bool
allowed_next queued running = true
allowed_next queued cancel_requested = true
allowed_next queued cancelled = true
allowed_next queued failed = true
allowed_next queued operator_intervention_required = true
allowed_next running succeeded = true
allowed_next running failed = true
allowed_next running cancel_requested = true
allowed_next running cancelled = true
allowed_next running operator_intervention_required = true
allowed_next cancel_requested cancelled = true
allowed_next cancel_requested failed = true
allowed_next cancel_requested operator_intervention_required = true
allowed_next operator_intervention_required running = true
allowed_next operator_intervention_required failed = true
allowed_next operator_intervention_required cancelled = true
allowed_next _ _ = false

-- The errors of `ValidateTransition`, all wrapping `ErrInvalidStateTransition`, and the one that
-- `RenewLease` makes of a state that it does not serve.
pub data TransitionError : Type 0 where
  unknown_state : OperationState → OperationState → TransitionError
  terminal_state : OperationState → OperationState → TransitionError
  cannot_transition : OperationState → OperationState → TransitionError
  cannot_renew : OperationState → TransitionError

unfoldable pub validate_transition : OperationState → OperationState → Option TransitionError
unfolding allowed_next
validate_transition from to =
    if not (valid from) || not (valid to)
    then some (unknown_state from to)
    else if state_eq from to
    then none
    else if is_terminal from
    then some (terminal_state from to)
    else if allowed_next from to
    then none
    else some (cannot_transition from to)
