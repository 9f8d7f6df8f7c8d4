-- ===== src/Fsm/Tests.antt =====
-- Runs of the state machine, and the theorems at concrete inputs.
use autonomous_remediation_e.Prelude.{ℕ, ◌+◌, ◌≤◌, ◌≡◌, refl, String, List, [], ◌∷◌, some, length}
use autonomous_remediation_e.Fsm.{
  ExecutionState, detected, evaluating, precheck_failed, committed, escalated, Fsm, is_valid_state,
  can_transition, new_fsm, transition, transitions,
}
use autonomous_remediation_e.Fsm.Monotone.{rank}
use autonomous_remediation_e.Fsm.History.{IsHistory, new_fsm-transitions}

abbrev begun : Fsm
begun = record {
  current = detected;
  history =
      record {
        from = ExecutionState.other "";
        to = detected;
        timestamp = 5;
        reason = "initialization";
      }
      ∷ [];
}

begun-new : new_fsm 5 detected ≡ some begun
unfolding new_fsm is_valid_state
begun-new = refl

-- The second attempt is refused.
abbrev attempts : List (ℕ × ExecutionState × String)
attempts =
    (6, evaluating, "matched")
    ∷ (7, committed, "too early")
    ∷ (8, precheck_failed, "damped")
    ∷ (9, escalated, "stop")
    ∷ []

attempts_reach : (transitions attempts begun).current ≡ escalated
unfolding transitions transition is_valid_state can_transition
attempts_reach = refl

new_fsm-transitions_example :
    let m = transitions attempts begun in
    IsHistory detected m.history m.current × (length m.history + rank detected ≤ 8)
new_fsm-transitions_example = new_fsm-transitions 5 detected attempts begun-new
