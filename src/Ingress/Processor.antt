-- ===== src/Ingress/Processor.antt =====
-- `AlertProcessor` of internal/ingress, as the handlers use it: the engine, and the metrics beside it.
pub mod Kinds
use autonomous_remediation_e.Prelude.{String, Option, none, some}
use autonomous_remediation_e.Host.{System}
use autonomous_remediation_e.Engine.{
  Alert, State, Engine, Failure, RemediationResult, Readings, Texts,
}
use autonomous_remediation_e.Engine.Remediate.{remediate}
use autonomous_remediation_e.Ingress.Metrics.{Metrics, record_remediation_result}

-- The state that the ingress changes: the engine's, and the metrics where there are any.
pub record Daemon (X : Type 0) : Type 0 where
  pub state : State X
  pub metrics : Option Metrics

-- `if s.metrics != nil && res != nil { s.metrics.RecordRemediationResult(res) }`
abbrev pub count_result : (Failure → String) → RemediationResult → Option Metrics → Option Metrics
count_result message result none = none
count_result message result (some m) = some (record_remediation_result message (some result) m)

module _ {X : Type 0} (os : System X) (texts : Texts) (e : Engine X) where
  -- An alert is processed and its result is counted.
  unfoldable pub process : Readings → Alert → Daemon X → Daemon X × RemediationResult
  process rs alert d =
      let (state, result, _) = remediate os texts e rs (some alert) d.state in
      (record { state = state; metrics = count_result texts.message result d.metrics }, result)
