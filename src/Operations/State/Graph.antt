-- ===== src/Operations/State/Graph.antt =====
-- The transition diagram of internal/operations/state.go as a relation, and what it implies.
use mathlib.Core.List.{Memᴰ}
use agentsmith_fs_control_pl.Operations.State.{
  OperationState, queued, running, succeeded, failed, cancel_requested, cancelled,
  operator_intervention_required, valid, validate_transition, is_terminal, unknown,
}
use agentsmith_fs_control_pl.Prelude.{
  ◌≡◌, refl, ◌⊎◌, true, none, arith, List, [], inl, inr, subst, sym, ◌↔◌, ◌∙◌, ◌∷◌,
}

-- The edges of the diagram, without the transitions of a state to itself.
infix 40 ◌⟶◌ ◌⟶*◌
pub data ◌⟶◌ : OperationState → OperationState → Type 0 where
  start : queued ⟶ running
  cancel_queued : queued ⟶ cancel_requested
  drop : queued ⟶ cancelled
  reject : queued ⟶ failed
  park_queued : queued ⟶ operator_intervention_required
  succeed : running ⟶ succeeded
  fail : running ⟶ failed
  cancel_running : running ⟶ cancel_requested
  stop : running ⟶ cancelled
  park_running : running ⟶ operator_intervention_required
  finalize : cancel_requested ⟶ cancelled
  fail_cancel : cancel_requested ⟶ failed
  park_cancel : cancel_requested ⟶ operator_intervention_required
  resume : operator_intervention_required ⟶ running
  give_up : operator_intervention_required ⟶ failed
  abandon : operator_intervention_required ⟶ cancelled

ruleset edges = (
  start, cancel_queued, drop, reject, park_queued, succeed, fail, cancel_running, stop,
  park_running, finalize, fail_cancel, park_cancel, resume, give_up, abandon,
)

pub data ◌⟶*◌ (s : OperationState) : OperationState → Type 0 where
  here : s ⟶* s
  next : {t u : OperationState} → s ⟶* t → t ⟶ u → s ⟶* u

follows :
    (s t : OperationState) → validate_transition s t ≡ none → (valid s ≡ true) × ((s ≡ t) ⊎ (s ⟶ t))
unfolding validate_transition
follows queued t h = grind (arith, edges)
follows _ t h = grind (arith, edges)

stays : (s : OperationState) → valid s ≡ true → validate_transition s s ≡ none
unfolding validate_transition
stays (unknown s) h = cc
stays queued h = refl
stays _ h = refl

edge : {s t : OperationState} → s ⟶ t → validate_transition s t ≡ none
unfolding validate_transition
edge start = refl
edge _ = refl

-- `ValidateTransition` accepts a pair of states exactly when the first is known and the second is
-- the same state or follows by an edge of the diagram.
pub validate_transition_iff :
    (s t : OperationState)
    → (validate_transition s t ≡ none) ↔ ((valid s ≡ true) × ((s ≡ t) ⊎ (s ⟶ t)))
validate_transition_iff s t = (follows s t, back)
  where
    back : (valid s ≡ true) × ((s ≡ t) ⊎ (s ⟶ t)) → validate_transition s t ≡ none
    back (v, inl e) = subst (λ u. validate_transition s u ≡ none) e (stays s v)
    back (v, inr e) = edge e

-- A history of accepted transitions that starts in `s`.
abbrev pub Accepted : OperationState → List OperationState → Type 0
Accepted s [] = Unit
Accepted s (t ∷ ts) = (validate_transition s t ≡ none) × Accepted t ts

abbrev pub final : OperationState → List OperationState → OperationState
final s [] = s
final s (t ∷ ts) = final t ts

terminal_step :
    (s t : OperationState) → is_terminal s ≡ true → validate_transition s t ≡ none → s ≡ t
unfolding validate_transition
terminal_step s t e h = ground arith

-- From a succeeded, failed or cancelled operation no history of accepted transitions leads to
-- another state.
pub terminal_absorbs :
    (s : OperationState) (ts : List OperationState)
    → is_terminal s ≡ true
    → Accepted s ts
    → final s ts ≡ s
terminal_absorbs s [] e h = refl
terminal_absorbs s (t ∷ ts) e (h, hs) =
    let p = terminal_step s t e h in
    terminal_absorbs t ts (subst (λ u. is_terminal u ≡ true) p e) hs ∙ sym p

success_step :
    (s t : OperationState)
    → validate_transition s t ≡ none
    → t ≡ succeeded
    → (s ≡ succeeded) ⊎ (s ≡ running)
unfolding validate_transition
success_step s t h e = ground arith

-- An operation that a history of accepted transitions ends as succeeded was running at some point
-- of it, unless it had succeeded before.
pub success_needs_running :
    (s : OperationState) (ts : List OperationState)
    → Accepted s ts
    → final s ts ≡ succeeded
    → (s ≡ succeeded) ⊎ Memᴰ running (s ∷ ts)
success_needs_running s [] h e = inl e
success_needs_running s (t ∷ ts) (h, hs) e = elim (success_needs_running t ts hs e) [
  | inl p ↦ elim (success_step s t h p) [ inl q ↦ inl q | inr q ↦ inr (Memᴰ.head (sym q)) ]
  | inr m ↦ inr (Memᴰ.tail m)
]

resume_step :
    (s t : OperationState)
    → validate_transition s t ≡ none
    → t ≡ running
    → (s ≡ running) ⊎ (s ≡ queued) ⊎ (s ≡ operator_intervention_required)
unfolding validate_transition
resume_step s t h e = ground arith
