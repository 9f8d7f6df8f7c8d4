-- ===== src/Ingress/Metrics/Totals.antt =====
-- What the counters hold after a list of results: the counts of the results that
-- they stand for.
use autonomous_remediation_e.Prelude.{List, [], ◌∷◌, some, String, Bytes, codes}
use autonomous_remediation_e.Engine.{Failure, RemediationResult}
use autonomous_remediation_e.Engine.Steps.{state_text}
use autonomous_remediation_e.Ingress.Metrics.{
  Metrics, or_named, action_key, record_remediation_result,
}

-- The labels of a result.
abbrev pub runbook_of : RemediationResult → Bytes
runbook_of r = or_named (codes "unknown") (codes r.runbook_id)

abbrev pub resource_of : RemediationResult → Bytes
resource_of r = or_named (codes "unknown") (codes r.resource_id)

abbrev pub action_of : RemediationResult → Bytes
action_of r =
    action_key (runbook_of r) (or_named (codes "UNKNOWN") (codes (state_text r.final_state)))

module _ (message : Failure → String) where
  -- The results, one after the other.
  unfoldable pub record_all : List RemediationResult → Metrics → Metrics
  record_all [] m = m
  record_all (r ∷ rs) m = record_all rs (record_remediation_result message (some r) m)

  abbrev recorded : RemediationResult → Metrics → Metrics
  recorded r m = record_remediation_result message (some r) m
