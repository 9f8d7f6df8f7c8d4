-- ===== src/Fsm/Monotone.antt =====
-- The transition table of internal/model/state.go is acyclic: a rank rises along it.
use autonomous_remediation_e.Prelude.{ℕ, ◌≤◌, ◌<◌, ◌≡◌, ◌↔◌, true, false, arith}
use autonomous_remediation_e.Fsm.{
  ExecutionState, detected, evaluating, precheck_passed, precheck_failed, executing,
  postcheck_passed, committed, postcheck_failed, rolling_back, rolled_back, escalated, other,
  is_valid_state, can_transition, is_terminal,
}

-- How far along a remediation a state is.
unfoldable pub rank : ExecutionState → ℕ
rank detected = 0
rank evaluating = 1
rank precheck_passed = 2
rank precheck_failed = 2
rank executing = 3
rank postcheck_passed = 4
rank postcheck_failed = 4
rank committed = 5
rank rolling_back = 5
rank rolled_back = 6
rank escalated = 7
rank (other _) = 0

-- Every permitted transition leads from a defined state to a defined state that is further
-- along, of rank 7 at most.
pub can_transition-rank :
    (s t : ExecutionState)
    → can_transition s t ≡ true
    → (is_valid_state s ≡ true) × (is_valid_state t ≡ true) × (rank s < rank t) × (rank t ≤ 7)
unfolding can_transition is_valid_state rank
can_transition-rank s t h = ground arith

-- A way out of every state that is not terminal.
unfoldable pub way_out : ExecutionState → ExecutionState
way_out detected = evaluating
way_out evaluating = precheck_passed
way_out precheck_passed = executing
way_out executing = postcheck_passed
way_out postcheck_passed = committed
way_out postcheck_failed = rolling_back
way_out rolling_back = rolled_back
way_out _ = escalated

-- A defined state is terminal exactly when no transition out of it is permitted, to whatever
-- state.
pub is_terminal_iff :
    (s : ExecutionState)
    → is_valid_state s ≡ true
    → (is_terminal s ≡ true) ↔ ((t : ExecutionState) → can_transition s t ≡ false)
unfolding can_transition is_valid_state is_terminal way_out
is_terminal_iff s v = (λ h t. ground arith, λ h. ground (arith, h (way_out s)))

-- A permitted transition leaves no terminal state.
pub can_transition-is_terminal :
    (s t : ExecutionState) → can_transition s t ≡ true → is_terminal s ≡ false
unfolding can_transition is_terminal
can_transition-is_terminal s t h = ground arith
