-- ===== src/Engine/Remediate.antt =====
-- `Remediate` of internal/engine/engine.go, stage by stage, from the last to the first.
use autonomous_remediation_e.Prelude.{
  ℕ, false, ◌||◌, String, [], ◌∷◌, Option, none, some, Bytes, codes, str_append, str_eq,
  if◌then◌else◌, inl, inr, ◌⊎◌,
}
use autonomous_remediation_e.Prelude.Assoc.{lookup}
use autonomous_remediation_e.Fsm.{
  ExecutionState, detected, evaluating, precheck_passed, precheck_failed, executing, escalated, Fsm,
}
use autonomous_remediation_e.Audit.{compute_payload_digest}
use autonomous_remediation_e.Damping
use autonomous_remediation_e.Verifier.{CheckError}
use autonomous_remediation_e.Damping.{can_execute, record_execution_at}
use autonomous_remediation_e.Lock.{hex, Acquired, acquired, refused, ResourceLock, try_lock, unlock}
use autonomous_remediation_e.Host.{System}
use autonomous_remediation_e.Executor.{ExecutionResult}
use autonomous_remediation_e.Rollback.{WalRecord, JournalError, stage}
use autonomous_remediation_e.Engine.{
  Alert, Runbook, State, Engine, Failure, malformed_alert, no_runbook, lock_collision,
  damping_breach, precondition_failed, staging_failed, EngineError, malformed, runbook_not_found,
  lock_failed, precondition_fail, wal_error, RemediationResult, Readings, Texts,
}
use autonomous_remediation_e.Engine.Catalog.{get_runbook, targeting}
use autonomous_remediation_e.Engine.Steps.{Run, Call, transit, note, enter, check_conditions}
use autonomous_remediation_e.Engine.Settle.{
  Remediated, damped, tx_of, base_digest, rejected, fail_closed, commit, revert, attempt,
}

abbrev pub or_blank : Option String → String
or_blank none = ""
or_blank (some s) = s

-- The digest of the alert alone.
abbrev pub alert_digest : Texts → Alert → Bytes
alert_digest texts alert =
    compute_payload_digest (λ x. hex (texts.sha256 x)) (texts.alert_json alert) [] []

-- The machine of a new call: `NewFSM(DETECTED)`.
abbrev pub detected_fsm : Readings → Fsm
detected_fsm rs = record {
  current = detected;
  history =
      record {
        from = ExecutionState.other "";
        to = detected;
        timestamp = rs.entered detected;
        reason = "initialization";
      }
      ∷ [];
}

module _ {X : Type 0} where
  -- The runbook that an alert asks for: by its label, else by its resource.
  unfoldable pub match_runbook : Engine X → Alert → Option (Runbook X)
  match_runbook e alert =
      let runbook_id = or_blank (lookup "runbook_id" alert.labels) in
      if str_eq runbook_id ""
      then targeting alert.resource_id e.runbooks
      else get_runbook runbook_id e

  -- The result of a call for which there is no runbook.
  abbrev pub unmatched : Readings → String → Failure → Run X → RemediationResult
  unmatched rs resource failure m = record {
    tx_id = "";
    runbook_id = "";
    resource_id = resource;
    final_state = escalated;
    success = false;
    rolled_back = false;
    execution_res = none;
    duration = rs.duration;
    transitions = m.fsm.history;
    error = some failure;
  }

  abbrev pub refuse_alert : Readings → State X → Remediated X
  refuse_alert rs st =
      let m : Run X =
        transit rs escalated "malformed or empty alert"
          (record { state = st; fsm = detected_fsm rs }) in
      (m.state, unmatched rs "" malformed_alert m, some malformed)

module _ {X : Type 0} (os : System X) where
  -- The outcome, by what failed.
  unfoldable pub conclude :
      Call X → WalRecord X → Option ExecutionResult → Option Failure → Run X → Remediated X
  conclude call wal res none m = commit call res m
  conclude call wal res (some failure) m = revert os call wal failure res m

  -- EXECUTING, the actions, the postconditions and the outcome.
  unfoldable pub execute_runbook : Call X → WalRecord X → Run X → Remediated X
  execute_runbook call wal m =
      let m1 = enter call executing "executing mutation actions" (base_digest call) m in
      let (world, res, failure) = attempt os call m1.state.world in
      conclude call wal res failure (record m1 { state = record m1.state { world = world } })

  -- What is staged is executed. Where the staging failed, the machine is told to go to ESCALATED.
  unfoldable pub proceed : Call X → WalRecord X ⊎ JournalError → Run X → Remediated X
  proceed call (inl wal) m = execute_runbook call wal m
  proceed call (inr e) m =
      let m1 = enter call escalated (call.texts.message (staging_failed e)) (base_digest call) m in
      (
        m1.state,
        record (rejected call escalated (staging_failed e) m1) { tx_id = tx_of call },
        some (wal_error e),
      )

  -- The compensating steps are staged in the journal before anything is changed.
  unfoldable pub stage_runbook : Call X → Run X → Remediated X
  stage_runbook call m =
      let (journal, outcome) =
        stage call.readings.stage_write call.readings.staged (tx_of call) call.runbook.id
          call.alert.resource_id call.runbook.rollback_steps m.state.journal in
      proceed call outcome (record m { state = record m.state { journal = journal } })

  -- After the preconditions, by the one that failed.
  unfoldable pub conditioned : Call X → Option (String × Option CheckError) → Run X → Remediated X
  conditioned call none m =
      stage_runbook call
        (enter call precheck_passed "all preconditions verified" (base_digest call) m)
  conditioned call (some (name, e)) m =
      let failure = precondition_failed name e in
      let m1 = fail_closed call failure "precheck failed; fail-closed" m in
      (m1.state, rejected call precheck_failed failure m1, some (precondition_fail failure))

  -- After the damping gate, by its refusal.
  unfoldable pub admit : Call X → Option Damping.Reason → Run X → Remediated X
  admit call none m =
      let (world, unmet) =
        check_conditions os call.alert.resource_id call.runbook.preconditions m.state.world in
      conditioned call unmet (record m { state = record m.state { world = world } })
  admit call (some reason) m =
      let failure = damping_breach reason in
      let m1 = fail_closed call failure "flap damping breach; fail-closed" m in
      (m1.state, rejected call precheck_failed failure m1, some (precondition_fail failure))

  -- The damping gate.
  unfoldable pub gate_runbook : Call X → Run X → Remediated X
  gate_runbook call m =
      let (damping, refusal) = can_execute call.readings.gate (damped call) m.state.damping in
      admit call refusal (record m { state = record m.state { damping = damping } })

  -- `defer resLock.Unlock()`
  abbrev pub unlocked : ResourceLock → Remediated X → Remediated X
  unlocked l (st, result, error) =
      let (kernel, _) = unlock l st.kernel in (record st { kernel = kernel }, result, error)

  -- With the lock on the resource of the alert, or without.
  unfoldable pub hold : Call X → Acquired → Run X → Remediated X
  hold call (acquired l) m = unlocked l (gate_runbook call m)
  hold call (refused e) m =
      let failure = lock_collision e in
      let m1 = fail_closed call failure "resource locked; escalation required" m in
      (m1.state, rejected call escalated failure m1, some lock_failed)

  -- The attempt to get it.
  unfoldable pub lock_runbook : Bytes → Call X → Run X → Remediated X
  lock_runbook lock_dir call m =
      let (kernel, lock) =
        try_lock call.texts.sha256 lock_dir call.readings.lock (codes call.alert.resource_id)
          m.state.kernel in
      hold call lock (record m { state = record m.state { kernel = kernel } })

  -- With the runbook for the alert, or without.
  unfoldable pub resolve :
      Texts → Bytes → Readings → Alert → Option (Runbook X) → Run X → Remediated X
  resolve texts lock_dir rs alert none m =
      let m1 =
        transit rs escalated (texts.joined "no runbook matched for resource " alert.resource_id)
          m in
      (
        note texts rs alert.resource_id "" escalated (alert_digest texts alert) m1.state,
        unmatched rs alert.resource_id no_runbook m1,
        some runbook_not_found,
      )
  resolve texts lock_dir rs alert (some runbook) m =
      let call : Call X = record {
        alert = alert;
        runbook = runbook;
        readings = rs;
        texts = texts;
      } in
      lock_runbook lock_dir call (
        enter call evaluating (texts.joined "matched runbook " runbook.id)
          (alert_digest texts alert) m)

  -- `Remediate`.
  unfoldable pub remediate : Texts → Engine X → Readings → Option Alert → State X → Remediated X
  remediate texts e rs none st = refuse_alert rs st
  remediate texts e rs (some alert) st =
      if str_eq alert.id "" || str_eq alert.resource_id ""
      then refuse_alert rs st
      else resolve texts e.lock_dir rs alert (match_runbook e alert) (record {
        state = note texts rs alert.resource_id "" detected (alert_digest texts alert) st;
        fsm = detected_fsm rs;
      })

  -- The alert that `RunDirect` makes up, under the name and at the time given.
  unfoldable pub manual_alert : String → ℕ → String → String → Runbook X → Alert
  manual_alert alert_id now runbook_id resource rb = record {
    id = alert_id;
    fingerprint = str_append "fp-" (str_append runbook_id (str_append "-" resource));
    source = "remediation-ctl";
    resource_id = resource;
    severity = rb.severity;
    labels = ("runbook_id", runbook_id) ∷ [];
    annotations = [];
    received_at = now;
    hmac_signature = "";
    raw_payload = "";
  }

  -- `RunDirect`; without a runbook there is no result.
  unfoldable pub run_direct :
      Texts
      → Engine X
      → Readings
      → String
      → ℕ
      → String
      → String
      → State X
      → State X × Option RemediationResult × Option EngineError
  run_direct texts e rs alert_id now runbook_id resource st = elim (get_runbook runbook_id e) [
    | none ↦ (st, none, some runbook_not_found)
    | some rb ↦
        let (st', r, error) =
          remediate texts e rs (some (manual_alert alert_id now runbook_id resource rb)) st in
        (st', some r, error)
  ]
