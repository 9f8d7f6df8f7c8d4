-- ===== src/Engine/Outcomes.antt =====
-- Which way a call of `Remediate` (internal/engine/engine.go) takes through the states, and what
-- its result says of it, told by the error that it returns.
use autonomous_remediation_e.Prelude.{
  ℕ, ◌⊎◌, ◌≡◌, refl, Bool, true, false, ◌||◌, String, List, [], ◌∷◌, ◌++◌, map, Option, none, some,
  Bytes, str_eq, inl, inr, Bool-cases,
}
use autonomous_remediation_e.Fsm.{
  ExecutionState, detected, evaluating, precheck_passed, precheck_failed, executing,
  postcheck_passed, committed, postcheck_failed, rolling_back, rolled_back, escalated, Fsm,
  transition, is_valid_state, can_transition, contains, state_eq, valid_transitions,
}
use autonomous_remediation_e.Host.{System}
use autonomous_remediation_e.Executor.{ExecutionResult}
use autonomous_remediation_e.Rollback.{WalRecord, JournalError, RollbackError}
use autonomous_remediation_e.Verifier.{CheckError}
use autonomous_remediation_e.Damping
use autonomous_remediation_e.Lock.{Acquired, acquired, refused}
use autonomous_remediation_e.Engine.{
  Alert, Runbook, State, Engine, Failure, EngineError, malformed, runbook_not_found, lock_failed,
  precondition_fail, wal_error, rollback_faulted, postcondition_fail, Readings, Texts,
}
use autonomous_remediation_e.Engine.Steps.{Call, transit, enter}
use autonomous_remediation_e.Engine.Settle.{Remediated, commit, reverted, revert}
use autonomous_remediation_e.Engine.Remediate.{
  detected_fsm, conclude, proceed, conditioned, admit, hold, resolve, execute_runbook,
  stage_runbook, gate_runbook, lock_runbook, match_runbook, remediate,
}

-- The states that a call enters, by its error.
unfoldable pub trail : Option EngineError → List ExecutionState
trail none = detected ∷ evaluating ∷ precheck_passed ∷ executing ∷ postcheck_passed ∷ committed ∷ []
trail (some malformed) = detected ∷ escalated ∷ []
trail (some runbook_not_found) = detected ∷ escalated ∷ []
trail (some lock_failed) = detected ∷ evaluating ∷ precheck_failed ∷ escalated ∷ []
trail (some (precondition_fail f)) = detected ∷ evaluating ∷ precheck_failed ∷ escalated ∷ []
trail (some (wal_error e)) = detected ∷ evaluating ∷ precheck_passed ∷ []
trail (some (rollback_faulted e)) =
    detected ∷ evaluating ∷ precheck_passed ∷ executing ∷ postcheck_failed ∷ rolling_back
    ∷ escalated ∷ []
trail (some (postcondition_fail f)) =
    detected ∷ evaluating ∷ precheck_passed ∷ executing ∷ postcheck_failed ∷ rolling_back
    ∷ rolled_back ∷ escalated ∷ []

-- The `FinalState` of its result.
unfoldable pub final_of : Option EngineError → ExecutionState
final_of none = committed
final_of (some (precondition_fail f)) = precheck_failed
final_of (some (postcondition_fail f)) = rolled_back
final_of (some _) = escalated

abbrev is_none : Option EngineError → Bool
is_none none = true
is_none (some e) = false

abbrev is_reverted : Option EngineError → Bool
is_reverted (some (postcondition_fail f)) = true
is_reverted _ = false

-- The result tells what the error does: the states entered, the final state, success and whether
-- it was rolled back.
abbrev pub Told : {X : Type 0} → Remediated X → Type 0
Told (st, r, error) =
    (map (λ t. t.to) r.transitions ≡ trail error)
    × (r.final_state ≡ final_of error)
    × (r.success ≡ is_none error)
    × (r.rolled_back ≡ is_reverted error)

-- A machine that came by way of the first states of `trail`.
abbrev evaluating_fsm : ℕ → ℕ → String → Fsm
evaluating_fsm t0 t1 r1 = record {
  current = evaluating;
  history =
      record {
        from = ExecutionState.other "";
        to = detected;
        timestamp = t0;
        reason = "initialization";
      }
      ∷ record { from = detected; to = evaluating; timestamp = t1; reason = r1 }
      ∷ [];
}

abbrev passed_fsm : ℕ → ℕ → String → ℕ → String → Fsm
passed_fsm t0 t1 r1 t2 r2 = record {
  current = precheck_passed;
  history =
      (evaluating_fsm t0 t1 r1).history
      ++ record { from = evaluating; to = precheck_passed; timestamp = t2; reason = r2 } ∷ [];
}

abbrev executing_fsm : ℕ → ℕ → String → ℕ → String → ℕ → String → Fsm
executing_fsm t0 t1 r1 t2 r2 t3 r3 = record {
  current = executing;
  history =
      (passed_fsm t0 t1 r1 t2 r2).history
      ++ record { from = precheck_passed; to = executing; timestamp = t3; reason = r3 } ∷ [];
}

abbrev reverting_fsm : ℕ → ℕ → String → ℕ → String → ℕ → String → ℕ → String → ℕ → String → Fsm
reverting_fsm t0 t1 r1 t2 r2 t3 r3 t4 r4 t5 r5 = record {
  current = rolling_back;
  history =
      (executing_fsm t0 t1 r1 t2 r2 t3 r3).history
      ++ record { from = executing; to = postcheck_failed; timestamp = t4; reason = r4 }
        ∷ record { from = postcheck_failed; to = rolling_back; timestamp = t5; reason = r5 }
        ∷ [];
}

module _ {X : Type 0} (os : System X) (call : Call X) where
  commit-Told :
      (t0 t1 : ℕ) (r1 : String) (t2 : ℕ) (r2 : String) (t3 : ℕ) (r3 : String)
      (res : Option ExecutionResult) (st : State X)
      → Told (commit call res (record { state = st; fsm = executing_fsm t0 t1 r1 t2 r2 t3 r3 }))
  unfolding commit enter transit transition is_valid_state can_transition contains valid_transitions
      state_eq trail final_of
  commit-Told t0 t1 r1 t2 r2 t3 r3 res st = (refl, refl, refl, refl)

  reverted-Told :
      (t0 t1 : ℕ) (r1 : String) (t2 : ℕ) (r2 : String) (t3 : ℕ) (r3 : String) (t4 : ℕ) (r4 : String)
      (t5 : ℕ) (r5 : String) (failure : Failure) (res : Option ExecutionResult)
      (e : Option RollbackError) (st : State X)
      → Told (
          reverted call failure res e
            (record { state = st; fsm = reverting_fsm t0 t1 r1 t2 r2 t3 r3 t4 r4 t5 r5 }))
  unfolding reverted enter transit transition is_valid_state can_transition contains
      valid_transitions state_eq trail final_of
  reverted-Told t0 t1 r1 t2 r2 t3 r3 t4 r4 t5 r5 failure res none st = (refl, refl, refl, refl)
  reverted-Told t0 t1 r1 t2 r2 t3 r3 t4 r4 t5 r5 failure res (some e) st = (refl, refl, refl, refl)

  conclude-Told :
      (t0 t1 : ℕ) (r1 : String) (t2 : ℕ) (r2 : String) (t3 : ℕ) (r3 : String) (wal : WalRecord X)
      (res : Option ExecutionResult) (failure : Option Failure) (st : State X)
      → Told (
          conclude os call wal res failure
            (record { state = st; fsm = executing_fsm t0 t1 r1 t2 r2 t3 r3 }))
  unfolding conclude revert enter transit transition is_valid_state can_transition contains
      valid_transitions state_eq
  conclude-Told t0 t1 r1 t2 r2 t3 r3 wal res none st = commit-Told t0 t1 r1 t2 r2 t3 r3 res st
  conclude-Told t0 t1 r1 t2 r2 t3 r3 wal res (some failure) st =
      reverted-Told t0 t1 r1 t2 r2 t3 r3 _ _ _ _ failure res _ _

  proceed-Told :
      (t0 t1 : ℕ) (r1 : String) (t2 : ℕ) (r2 : String) (outcome : WalRecord X ⊎ JournalError)
      (st : State X)
      → Told (proceed os call outcome (record { state = st; fsm = passed_fsm t0 t1 r1 t2 r2 }))
  unfolding proceed execute_runbook enter transit transition is_valid_state can_transition contains
      valid_transitions state_eq trail final_of
  proceed-Told t0 t1 r1 t2 r2 (inl wal) st = conclude-Told t0 t1 r1 t2 r2 _ _ wal _ _ _
  proceed-Told t0 t1 r1 t2 r2 (inr e) st = (refl, refl, refl, refl)

  conditioned-Told :
      (t0 t1 : ℕ) (r1 : String) (unmet : Option (String × Option CheckError)) (st : State X)
      → Told (conditioned os call unmet (record { state = st; fsm = evaluating_fsm t0 t1 r1 }))
  unfolding conditioned stage_runbook enter transit transition is_valid_state can_transition
      contains valid_transitions state_eq trail final_of
  conditioned-Told t0 t1 r1 none st = proceed-Told t0 t1 r1 _ _ _ _
  conditioned-Told t0 t1 r1 (some (name, e)) st = (refl, refl, refl, refl)

  admit-Told :
      (t0 t1 : ℕ) (r1 : String) (refusal : Option Damping.Reason) (st : State X)
      → Told (admit os call refusal (record { state = st; fsm = evaluating_fsm t0 t1 r1 }))
  unfolding admit enter transit transition is_valid_state can_transition contains valid_transitions
      state_eq trail final_of
  admit-Told t0 t1 r1 none st = conditioned-Told t0 t1 r1 _ _
  admit-Told t0 t1 r1 (some reason) st = (refl, refl, refl, refl)

  hold-Told :
      (t0 t1 : ℕ) (r1 : String) (lock : Acquired) (st : State X)
      → Told (hold os call lock (record { state = st; fsm = evaluating_fsm t0 t1 r1 }))
  unfolding hold gate_runbook enter transit transition is_valid_state can_transition contains
      valid_transitions state_eq trail final_of
  hold-Told t0 t1 r1 (acquired l) st = admit-Told t0 t1 r1 _ _
  hold-Told t0 t1 r1 (refused e) st = (refl, refl, refl, refl)

module _ {X : Type 0} (os : System X) (texts : Texts) where
  resolve-Told :
      (lock_dir : Bytes) (rs : Readings) (alert : Alert) (found : Option (Runbook X)) (st : State X)
      → Told
          (resolve os texts lock_dir rs alert found (record { state = st; fsm = detected_fsm rs }))
  unfolding resolve lock_runbook enter transit transition is_valid_state can_transition contains
      valid_transitions state_eq trail final_of
  resolve-Told lock_dir rs alert none st = (refl, refl, refl, refl)
  resolve-Told lock_dir rs alert (some runbook) st = hold-Told os _ _ _ _ _ _

  -- Every call ends, and the error that it returns tells the whole of its result: the states that
  -- it went through in order, the final state, whether it succeeded and whether it was rolled back.
  -- It succeeds, by way of POSTCHECK_PASSED to COMMITTED, exactly when there is no error.
  pub remediate-Told :
      (e : Engine X) (rs : Readings) (alert : Option Alert) (st : State X)
      → Told (remediate os texts e rs alert st)
  unfolding remediate transit transition is_valid_state can_transition contains valid_transitions
      state_eq trail final_of
  remediate-Told e rs none st = (refl, refl, refl, refl)
  remediate-Told e rs (some alert) st =
      elim (Bool-cases (str_eq alert.id "" || str_eq alert.resource_id "")) [
        | inl blank ↦ rw (blank, remediate) (refl, refl, refl, refl)
        | inr named ↦
            rw (named, remediate) (resolve-Told e.lock_dir rs alert (match_runbook e alert) _)
      ]
