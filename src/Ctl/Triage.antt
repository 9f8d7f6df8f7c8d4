-- ===== src/Ctl/Triage.antt =====
-- `handleTriage` of cmd/remediation-ctl/main.go: from an incident to a proposal of the model, which is
-- shown, or handed to the engine.
use autonomous_remediation_e.Prelude.{
  String, List, [], ◌∷◌, Option, none, some, Bytes, bytes_eq, str_append, if◌then◌else◌, ◌⊎◌, inl,
  inr,
}
use autonomous_remediation_e.Prelude.Scalars.{of_codes}
use autonomous_remediation_e.Host.{System}
use autonomous_remediation_e.Proposer.{
  Config, Proposal, Proposed, ok, Library, or_text, propose_remediation,
}
use autonomous_remediation_e.Proposer
use autonomous_remediation_e.Runbooks.Catalog.{get, register_all, new_catalog}
use autonomous_remediation_e.Engine.{State, Engine, Runbook, RemediationResult, EngineError}
use autonomous_remediation_e.Engine.Settle.{Remediated}
use autonomous_remediation_e.Engine.Remediate.{remediate}
use autonomous_remediation_e.Ctl.Flags.{Flag, text_flag, bool_flag}
use autonomous_remediation_e.Ctl.{
  out, err, usage, Outcome, Installation, concat, ends, after, with_flags, ended_run, node_config,
}
use autonomous_remediation_e.Ctl.Run.{with_engine}
use autonomous_remediation_e.Ctl.Resolve.{
  triage_flags, TriageReadings, resolve_incident, resolve_api_key, triage_config, triage_alert,
}
use autonomous_remediation_e.Ctl.Preview.{banner, proposal_lines, dry_run_lines}

-- `Remediate` always returns a result.
abbrev pub with_result :
    {X : Type 0} → Remediated X → State X × Option RemediationResult × Option EngineError
with_result (st, r, error) = (st, some r, error)

module _ {X : Type 0} (os : System X) (p : Installation X) (lib : Library) (prompt : Bytes) where
  -- The call of `Remediate` for a proposal and what is printed of it.
  unfoldable pub enforce_proposal :
      TriageReadings → Bytes → Proposal → Engine X → State X → Outcome X
  enforce_proposal rs model proposal e st =
      after
        (out (
            concat (
              "==> Starting deterministic remediation for Runbook ["
              ∷ of_codes proposal.runbook_id
              ∷ "] on Resource ["
              ∷ of_codes proposal.target_resource
              ∷ "]..."
              ∷ []))
          ∷ [])
        (ended_run p.formats "[ERROR] Deterministic Enforcement Failed: "
          (out ""
            ∷ out "[SUCCESS] AI proposal verified and enforced by deterministic engine."
            ∷ out "Remediation verified, committed, and chained to cryptographic audit ledger."
            ∷ [])
          (with_result (
            remediate os p.texts e rs.remediation
              (some (triage_alert rs.alert_id rs.now model proposal)) st)))

  -- With the runbook of the catalog, or without; then the two modes.
  unfoldable pub with_runbook :
      TriageReadings → List Flag → Bytes → Proposal → Option (Runbook X) → Outcome X
  with_runbook rs fs model proposal none = ends 1 (
      err ""
      ∷ err (
          concat (
            "[REJECTED] Proposed runbook "
            ∷ of_codes proposal.runbook_id
            ∷ " is not in deterministic catalog: runbook not found in catalog: "
            ∷ of_codes proposal.runbook_id
            ∷ []))
      ∷ [])
  with_runbook rs fs model proposal (some rb) =
      if bool_flag "execute" fs
      then after
          (out ""
            ∷ out "[LIVE EXECUTION] Enforcing remediation through deterministic engine..."
            ∷ [])
          (with_engine os p (node_config p.environment fs) (enforce_proposal rs model proposal))
      else ends 0 (dry_run_lines p.formats proposal rb)

  unfoldable pub with_proposal : TriageReadings → List Flag → Bytes → Proposed → Outcome X
  with_proposal rs fs model (Proposer.err e) =
      ends 1
        (err "" ∷ err (str_append "[ERROR] AI Triage failed: " (p.formats.propose_error e)) ∷ [])
  with_proposal rs fs model (ok proposal) = after (proposal_lines proposal) (
      with_runbook rs fs model proposal
        (get (of_codes proposal.runbook_id) (register_all p.catalog new_catalog)))

  -- With an incident and a key.
  unfoldable pub consult : TriageReadings → List Flag → Bytes → Bytes → Outcome X
  consult rs fs incident_log api_key =
      let cfg = triage_config p.environment api_key fs in
      after (banner (bool_flag "execute" fs) cfg)
        (with_proposal rs fs cfg.model (propose_remediation lib prompt cfg incident_log))

  unfoldable pub with_incident : TriageReadings → List Flag → Bytes ⊎ String → Outcome X
  with_incident rs fs (inr message) = ends 1 (err message ∷ [])
  with_incident rs fs (inl incident_log) =
      let api_key = resolve_api_key p.environment (text_flag "api-key" fs) in
      if bytes_eq incident_log []
      then ends 1 (
          err "Error: --incident flag or piped stdin containing incident log is required"
          ∷ usage "triage"
          ∷ [])
      else if bytes_eq api_key []
      then ends 1 (
          err
            "Error: API key required. Provide via --api-key flag or set $NVIDIA_API_KEY / $OPENAI_API_KEY"
          ∷ [])
      else consult rs fs incident_log api_key

  unfoldable pub triage_parsed : TriageReadings → List Flag → Outcome X
  triage_parsed rs fs = with_incident rs fs (resolve_incident rs (text_flag "incident" fs))

  -- `handleTriage`.
  unfoldable pub handle_triage : TriageReadings → List Bytes → Outcome X
  handle_triage rs args = with_flags p.formats "triage" triage_flags (triage_parsed rs) args
