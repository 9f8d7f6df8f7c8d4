-- ===== src/Engine/Steps.antt =====
-- The loops of `Remediate` (internal/engine/engine.go) over conditions and actions, and the pair
-- of a transition and an entry of the ledger that each of its stages makes.
use autonomous_remediation_e.Prelude.{
  true, false, String, List, [], ◌∷◌, Option, none, some, Bytes, codes, if◌then◌else◌,
}
use autonomous_remediation_e.Fsm.{
  ExecutionState, detected, evaluating, precheck_passed, precheck_failed, executing,
  postcheck_passed, committed, postcheck_failed, rolling_back, rolled_back, escalated, other, Fsm,
  transition,
}
use autonomous_remediation_e.Audit.{append}
use autonomous_remediation_e.Lock.{hex}
use autonomous_remediation_e.Host.{World, System}
use autonomous_remediation_e.Executor.{Action, BlastRadius, ExecutionResult, ExecError, execute}
use autonomous_remediation_e.Verifier.{Condition, CheckError, verify_condition}
use autonomous_remediation_e.Engine.{
  Alert, Runbook, State, Failure, action_error, action_failed, Readings, Texts,
}

-- `string(state)`
unfoldable pub state_text : ExecutionState → String
state_text detected = "DETECTED"
state_text evaluating = "EVALUATING"
state_text precheck_passed = "PRECHECK_PASSED"
state_text precheck_failed = "PRECHECK_FAILED"
state_text executing = "EXECUTING"
state_text postcheck_passed = "POSTCHECK_PASSED"
state_text committed = "COMMITTED"
state_text postcheck_failed = "POSTCHECK_FAILED"
state_text rolling_back = "ROLLING_BACK"
state_text rolled_back = "ROLLED_BACK"
state_text escalated = "ESCALATED"
state_text (other s) = s

-- The state of the engine and of the machine of one call.
pub record Run (X : Type 0) : Type 0 where
  pub state : State X
  pub fsm : Fsm

-- What stays the same in one call.
pub record Call (X : Type 0) : Type 0 where
  pub alert : Alert
  pub runbook : Runbook X
  pub readings : Readings
  pub texts : Texts

module _ {X : Type 0} where
  -- `_ = fsm.Transition(to, reason)`
  unfoldable pub transit : Readings → ExecutionState → String → Run X → Run X
  transit rs to reason m = record m { fsm = (transition (rs.entered to) to reason m.fsm).0 }

  -- `_, _ = e.ledger.Append(resource, runbook, state, digest)`
  unfoldable pub note :
      Texts → Readings → String → String → ExecutionState → Bytes → State X → State X
  note texts rs resource runbook state digest st =
      let at = rs.logged state in
      record st {
        ledger =
            (append (λ x. hex (texts.sha256 x)) at.timestamp at.outcome at.synced (codes resource)
              (codes runbook) (codes (state_text state)) digest st.ledger).0;
      }

  -- Both, as each stage of a call does.
  unfoldable pub enter : Call X → ExecutionState → String → Bytes → Run X → Run X
  enter call to reason digest m =
      let m' = transit call.readings to reason m in
      record m' {
        state =
            note call.texts call.readings call.alert.resource_id call.runbook.id to digest m'.state;
      }

module _ {X : Type 0} (os : System X) where
  -- The loop over conditions: the host afterwards, and the first condition that fails with its
  -- error, if one does.
  unfoldable pub check_conditions :
      String → List (Condition X) → World X → World X × Option (String × Option CheckError)
  check_conditions target [] w = (w, none)
  check_conditions target (c ∷ cs) w =
      let (w', ok, error) = verify_condition os target c w in
      elim error [
        | some e ↦ (w', some (c.name, some e))
        | none ↦ elim ok [
          | true ↦ check_conditions target cs w'
          | false ↦ (w', some (c.name, none))
        ]
      ]

  -- The failure of an action, if it failed: an error, or a result that is no success.
  unfoldable pub action_failure :
      String → Option ExecutionResult → Option ExecError → Option Failure
  action_failure name res (some e) = some (action_error name e)
  action_failure name none none = none
  action_failure name (some r) none = if r.success then none else some (action_failed name r.error)

  -- The loop over actions, with the last result so far: it stops at the first failure.
  unfoldable pub run_actions :
      String
      → BlastRadius
      → List (Action X)
      → Option ExecutionResult
      → World X
      → World X × Option ExecutionResult × Option Failure
  run_actions target clamp [] last w = (w, last, none)
  run_actions target clamp (a ∷ rest) last w =
      let (w', res, error) = execute os target a clamp w in
      elim (action_failure a.name res error) [
        | none ↦ run_actions target clamp rest res w'
        | some failure ↦ (w', res, some failure)
      ]
