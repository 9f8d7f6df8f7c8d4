-- ===== src/Ingress/Processor/Kinds.antt =====
-- Which results of the engine (internal/engine/engine.go) the metrics (internal/ingress/metrics.go)
-- count as failed prechecks and as rollbacks.
use autonomous_remediation_e.Prelude.{◌≡◌, Bool, true, false, Option, none, some}
use autonomous_remediation_e.Fsm.{state_eq}
use autonomous_remediation_e.Host.{System}
use autonomous_remediation_e.Engine.{
  Alert, State, Engine, EngineError, malformed, runbook_not_found, lock_failed, precondition_fail,
  wal_error, rollback_faulted, postcondition_fail, Readings, Texts,
}
use autonomous_remediation_e.Engine.Settle.{Remediated}
use autonomous_remediation_e.Engine.Remediate.{remediate}
use autonomous_remediation_e.Engine.Outcomes.{Told, final_of, remediate-Told}
use autonomous_remediation_e.Ingress.Metrics.{is_precheck_failure, is_rollback}

-- The error says that the damping or a precondition refused.
unfoldable pub is_refusal : Option EngineError → Bool
is_refusal (some (precondition_fail f)) = true
is_refusal _ = false

-- The error says that every compensating step was made.
unfoldable pub is_compensated : Option EngineError → Bool
is_compensated (some (postcondition_fail f)) = true
is_compensated _ = false

-- What the metrics count of a result, by the error beside it.
abbrev pub Counted : {X : Type 0} → Remediated X → Type 0
Counted (st, r, error) =
    (is_precheck_failure r ≡ is_refusal error) × (is_rollback r ≡ is_compensated error)

Told-Counted : {X : Type 0} (x : Remediated X) → Told x → Counted x
unfolding is_precheck_failure is_rollback is_refusal is_compensated final_of state_eq
Told-Counted (st, r, none) t = (rw t.1, rw (t.3, t.1))
Told-Counted (st, r, some malformed) t = (rw t.1, rw (t.3, t.1))
Told-Counted (st, r, some runbook_not_found) t = (rw t.1, rw (t.3, t.1))
Told-Counted (st, r, some lock_failed) t = (rw t.1, rw (t.3, t.1))
Told-Counted (st, r, some (precondition_fail f)) t = (rw t.1, rw (t.3, t.1))
Told-Counted (st, r, some (wal_error e)) t = (rw t.1, rw (t.3, t.1))
Told-Counted (st, r, some (rollback_faulted e)) t = (rw t.1, rw (t.3, t.1))
Told-Counted (st, r, some (postcondition_fail f)) t = (rw t.1, rw t.3)

module _ {X : Type 0} (os : System X) (texts : Texts) where
  -- A call of the engine is counted as a failed precheck exactly if the damping or a precondition
  -- refused it, and as a rollback exactly if all its compensating steps were made. So a rollback that
  -- was begun and failed is not counted, nor is a call that found the lock held.
  pub remediate-Counted :
      (e : Engine X) (rs : Readings) (alert : Option Alert) (st : State X)
      → Counted (remediate os texts e rs alert st)
  remediate-Counted e rs alert st =
      Told-Counted (remediate os texts e rs alert st) (remediate-Told os texts e rs alert st)
