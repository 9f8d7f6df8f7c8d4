-- ===== src/Fsm.antt =====
-- internal/model/state.go: the 11-state machine of a remediation.
pub mod Monotone
pub mod History
mod Tests
use autonomous_remediation_e.Prelude.{
  ℕ, Bool, true, false, ◌||◌, String, List, [], ◌∷◌, ◌++◌, Option, none, some, str_eq,
  if◌then◌else◌,
}

-- `ExecutionState` is a string in the source: one of the 11 constants, or `other s` for any other
-- text `s`.
pub data ExecutionState : Type 0 where
  detected evaluating precheck_passed precheck_failed executing postcheck_passed committed
        postcheck_failed rolling_back rolled_back escalated :
      ExecutionState
  other : String → ExecutionState

-- `==` on the two strings.
unfoldable pub state_eq : ExecutionState → ExecutionState → Bool
state_eq detected detected = true
state_eq evaluating evaluating = true
state_eq precheck_passed precheck_passed = true
state_eq precheck_failed precheck_failed = true
state_eq executing executing = true
state_eq postcheck_passed postcheck_passed = true
state_eq committed committed = true
state_eq postcheck_failed postcheck_failed = true
state_eq rolling_back rolling_back = true
state_eq rolled_back rolled_back = true
state_eq escalated escalated = true
state_eq (other s) (other t) = str_eq s t
state_eq _ _ = false

unfoldable pub contains : List ExecutionState → ExecutionState → Bool
unfolding state_eq
contains [] s = false
contains (t ∷ ts) s = state_eq t s || contains ts s

-- `AllStates`.
abbrev pub all_states : List ExecutionState
all_states =
    detected ∷ evaluating ∷ precheck_passed ∷ precheck_failed ∷ executing ∷ postcheck_passed
    ∷ committed ∷ postcheck_failed ∷ rolling_back ∷ rolled_back ∷ escalated ∷ []

-- `validTransitions[from]`; `none` for a key that the map does not have.
unfoldable pub valid_transitions : ExecutionState → Option (List ExecutionState)
valid_transitions detected = some (evaluating ∷ escalated ∷ [])
valid_transitions evaluating = some (precheck_passed ∷ precheck_failed ∷ [])
valid_transitions precheck_passed = some (executing ∷ [])
valid_transitions precheck_failed = some (escalated ∷ [])
valid_transitions executing = some (postcheck_passed ∷ postcheck_failed ∷ [])
valid_transitions postcheck_passed = some (committed ∷ [])
valid_transitions postcheck_failed = some (rolling_back ∷ [])
valid_transitions rolling_back = some (rolled_back ∷ escalated ∷ [])
valid_transitions rolled_back = some (escalated ∷ [])
valid_transitions committed = some []
valid_transitions escalated = some []
valid_transitions (other _) = none

unfoldable pub is_valid_state : ExecutionState → Bool
unfolding contains
is_valid_state s = contains all_states s

unfoldable pub can_transition : ExecutionState → ExecutionState → Bool
unfolding contains valid_transitions
can_transition from to = elim (valid_transitions from) [
  | none ↦ false
  | some targets ↦ contains targets to
]

unfoldable pub is_terminal : ExecutionState → Bool
unfolding state_eq
is_terminal s = state_eq s committed || state_eq s escalated

-- `Timestamp` is a reading of the clock, in nanoseconds.
pub record StateTransition : Type 0 where
  pub from : ExecutionState
  pub to : ExecutionState
  pub timestamp : ℕ
  pub reason : String

pub record Fsm : Type 0 where
  pub current : ExecutionState
  pub history : List StateTransition

-- The error values, with what their messages show.
pub data FsmError : Type 0 where
  invalid_initial : ExecutionState → FsmError
  invalid_target : ExecutionState → FsmError
  illegal_transition : ExecutionState → ExecutionState → String → FsmError

-- `NewFSM`, at the time `now`; `none` where it returns the error `invalid_initial initial`.
unfoldable pub new_fsm : ℕ → ExecutionState → Option Fsm
new_fsm now initial =
    if is_valid_state initial
    then some (record {
      current = initial;
      history =
          record { from = other ""; to = initial; timestamp = now; reason = "initialization" } ∷ [];
    })
    else none

-- `Transition`, at the time `now`: the machine afterwards and the error, if there is one.
unfoldable pub transition : ℕ → ExecutionState → String → Fsm → Fsm × Option FsmError
transition now to reason m =
    if is_valid_state to
    then if can_transition m.current to
      then (
        record {
          current = to;
          history =
              m.history
              ++ record { from = m.current; to = to; timestamp = now; reason = reason } ∷ [];
        },
        none,
      )
      else (m, some (illegal_transition m.current to reason))
    else (m, some (invalid_target to))

-- A caller's attempts in order: the time, the target and the reason of each. Their errors are
-- dropped, as the engine does.
unfoldable pub transitions : List (ℕ × ExecutionState × String) → Fsm → Fsm
transitions [] m = m
transitions ((now, to, reason) ∷ ts) m = transitions ts (transition now to reason m).0
