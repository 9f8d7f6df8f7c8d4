-- ===== src/Engine/Settle.antt =====
-- `Remediate` of internal/engine/engine.go, from the actions to the outcome.
use autonomous_remediation_e.Prelude.{
  Bool, true, false, String, Option, none, some, Bytes, codes, str_eq, if◌then◌else◌,
}
use autonomous_remediation_e.Fsm.{
  ExecutionState, precheck_failed, postcheck_passed, committed, postcheck_failed, rolling_back,
  rolled_back, escalated,
}
use autonomous_remediation_e.Audit.{compute_payload_digest}
use autonomous_remediation_e.Damping.{record_execution_at}
use autonomous_remediation_e.Lock.{hex}
use autonomous_remediation_e.Host.{World, System}
use autonomous_remediation_e.Executor.{ExecutionResult}
use autonomous_remediation_e.Rollback.{WalRecord, WalState, RollbackError, update_state}
use autonomous_remediation_e.Rollback.Replay.{execute_rollback}
use autonomous_remediation_e.Engine.{
  State, Failure, postcondition_unmet, rollback_failed, EngineError, rollback_faulted,
  postcondition_fail, RemediationResult,
}
use autonomous_remediation_e.Engine.Steps.{Run, Call, enter, check_conditions, run_actions}

-- The outcome of a call: the engine's state, the result and the error.
abbrev pub Remediated : Type 0 → Type 0
Remediated X = State X × RemediationResult × Option EngineError

module _ {X : Type 0} where
  -- The resource that the damping controller counts for.
  abbrev pub damped : Call X → String
  damped call =
      if str_eq call.runbook.target_resource_id ""
      then call.alert.resource_id
      else call.runbook.target_resource_id

  abbrev pub tx_of : Call X → String
  tx_of call = call.texts.tx_name call.runbook.id call.alert.id call.readings.nanos

  abbrev pub digest_of : Call X → String → String → Bytes
  digest_of call stdout stderr =
      compute_payload_digest (λ x. hex (call.texts.sha256 x)) (call.texts.alert_json call.alert)
        (codes stdout) (codes stderr)

  -- The digest before and after the actions.
  abbrev pub base_digest : Call X → Bytes
  base_digest call = digest_of call "" ""

  abbrev pub exec_digest : Call X → Option ExecutionResult → Bytes
  exec_digest call none = digest_of call "" ""
  exec_digest call (some r) = digest_of call r.stdout r.stderr

  -- The result of a call that fails before a transaction is named.
  abbrev pub rejected : Call X → ExecutionState → Failure → Run X → RemediationResult
  rejected call final failure m = record {
    tx_id = "";
    runbook_id = call.runbook.id;
    resource_id = call.alert.resource_id;
    final_state = final;
    success = false;
    rolled_back = false;
    execution_res = none;
    duration = call.readings.duration;
    transitions = m.fsm.history;
    error = some failure;
  }

  -- The result of a call whose actions were run and not committed.
  abbrev pub undone :
      Call X → ExecutionState → Bool → Failure → Option ExecutionResult → Run X → RemediationResult
  undone call final clean failure res m = record (rejected call final failure m) {
    tx_id = tx_of call;
    rolled_back = clean;
    execution_res = res;
  }

  -- PRECHECK_FAILED and then ESCALATED.
  abbrev pub fail_closed : Call X → Failure → String → Run X → Run X
  fail_closed call failure reason m =
      enter call escalated reason (base_digest call)
        (enter call precheck_failed (call.texts.message failure) (base_digest call) m)

  -- The happy path: POSTCHECK_PASSED, COMMITTED, and the execution is counted.
  unfoldable pub commit : Call X → Option ExecutionResult → Run X → Remediated X
  commit call res m =
      let digest = exec_digest call res in
      let rs = call.readings in
      let m1 = enter call postcheck_passed "ground-truth postconditions verified" digest m in
      let m2 = enter call committed "remediation successfully verified and committed" digest m1 in
      let (journal, _) =
        update_state rs.commit_write rs.committed (tx_of call) WalState.committed
          m2.state.journal in
      let st = record m2.state {
        journal = journal;
        damping = record_execution_at rs.record_written (damped call) rs.recorded m2.state.damping;
      } in
      (
        st,
        record {
          tx_id = tx_of call;
          runbook_id = call.runbook.id;
          resource_id = call.alert.resource_id;
          final_state = committed;
          success = true;
          rolled_back = false;
          execution_res = res;
          duration = rs.duration;
          transitions = m2.fsm.history;
          error = none;
        },
        none,
      )

  -- After the rollback: ESCALATED, by way of ROLLED_BACK where no compensating step failed.
  unfoldable pub reverted :
      Call X → Failure → Option ExecutionResult → Option RollbackError → Run X → Remediated X
  reverted call failure res (some e) m =
      let shown = rollback_failed e failure in
      let m1 = enter call escalated (call.texts.message shown) (exec_digest call res) m in
      (m1.state, undone call escalated false shown res m1, some (rollback_faulted e))
  reverted call failure res none m =
      let digest = exec_digest call res in
      let m1 = enter call rolled_back "compensating actions executed cleanly" digest m in
      let m2 = enter call escalated "remediation rolled back; escalating to operator" digest m1 in
      (m2.state, undone call rolled_back true failure res m2, some (postcondition_fail failure))

module _ {X : Type 0} (os : System X) where
  -- The fault path: POSTCHECK_FAILED, ROLLING_BACK and the rollback.
  unfoldable pub revert :
      Call X → WalRecord X → Failure → Option ExecutionResult → Run X → Remediated X
  revert call wal failure res m =
      let digest = exec_digest call res in
      let m1 = enter call postcheck_failed (call.texts.message failure) digest m in
      let m2 = enter call rolling_back "initiating compensating rollback actions" digest m1 in
      let (world, journal, error) =
        execute_rollback os call.alert.resource_id call.readings.rollback (some wal) m2.state.world
          m2.state.journal in
      reverted call failure res error
        (record m2 { state = record m2.state { world = world; journal = journal } })

  -- The actions and the postconditions: the host, the last result, and what failed first.
  unfoldable pub attempt : Call X → World X → World X × Option ExecutionResult × Option Failure
  attempt call w =
      let target = call.alert.resource_id in
      let (w1, res, failure) =
        run_actions os target call.runbook.blast_radius call.runbook.actions none w in
      elim failure [
        | some f ↦ (w1, res, some f)
        | none ↦
            let (w2, unmet) = check_conditions os target call.runbook.postconditions w1 in
            elim unmet [
              | some (name, e) ↦ (w2, res, some (postcondition_unmet name e))
              | none ↦ (w2, res, none)
            ]
      ]
