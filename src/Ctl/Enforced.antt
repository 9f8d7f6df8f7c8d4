-- ===== src/Ctl/Enforced.antt =====
-- When `handleTriage` of cmd/remediation-ctl/main.go lets an engine act.
use autonomous_remediation_e.Prelude.{ℕ, ◌≡◌, ◌⊎◌, inl, true, List, none, some, Bytes}
use autonomous_remediation_e.Prelude.Scalars.{of_codes}
use autonomous_remediation_e.Host.{System}
use autonomous_remediation_e.Proposer.{Config, Proposal, Library}
use autonomous_remediation_e.Proposer
use autonomous_remediation_e.Proposer.Proposals.{IsFounded}
use autonomous_remediation_e.Runbooks.Catalog.{get, register_all, new_catalog}
use autonomous_remediation_e.Engine.{Runbook, State, Engine}
use autonomous_remediation_e.Engine.Lifecycle.{new_engine, register_runbooks}
use autonomous_remediation_e.Engine.Remediate.{remediate}
use autonomous_remediation_e.Ctl.Flags.{Flag, got, parse_flags, text_flag, bool_flag}
use autonomous_remediation_e.Ctl.{Left, untouched, Installation, node_config}
use autonomous_remediation_e.Ctl.Resolve.{
  TriageReadings, triage_flags, triage_config, triage_alert, resolve_incident, resolve_api_key,
}
use autonomous_remediation_e.Ctl.Ends.{Concluded}

module _ {X : Type 0} (os : System X) (p : Installation X) (lib : Library) (prompt : Bytes) where
  -- The engine has acted on a proposal: `--execute` is among the arguments, the proposal is founded on
  -- the model's answer, its runbook is in the catalog, and the process ends as `Remediate` did on the
  -- alert that is made of it, over a new engine of the configuration that the flags give.
  pub record IsEnforced (rs : TriageReadings) (args : List Bytes) (left : Left X) (status : ℕ)
      : Type 0 where
    pub flags : List Flag
    pub read : parse_flags none args triage_flags ≡ got flags
    pub live : bool_flag "execute" flags ≡ true
    pub proposal : Proposal
    pub incident : Bytes
    pub resolved : resolve_incident rs (text_flag "incident" flags) ≡ inl incident
    pub founded :
        IsFounded lib prompt
          (triage_config p.environment
            (resolve_api_key p.environment (text_flag "api-key" flags))
            flags)
          incident
          proposal
    pub runbook : Runbook X
    pub known :
        get (of_codes proposal.runbook_id) (register_all p.catalog new_catalog) ≡ some runbook
    pub made : Engine X
    pub initial : State X
    pub opens :
        new_engine p.texts p.line_size
          (node_config p.environment flags)
          (p.disk (node_config p.environment flags))
        ≡ inl (made, initial)
    pub concluded :
        let (st, r, error) =
          remediate os p.texts
            (register_runbooks p.catalog made)
            rs.remediation
            (some (
              triage_alert rs.alert_id rs.now
                (triage_config p.environment
                  (resolve_api_key p.environment (text_flag "api-key" flags))
                  flags).model
                proposal))
            initial in
        Concluded st error left status

  -- Nothing was touched, or the engine has acted on a proposal.
  abbrev Justified : TriageReadings → List Bytes → Left X → ℕ → Type 0
  Justified rs args left status = (left ≡ untouched) ⊎ IsEnforced rs args left status

  module _ (rs : TriageReadings) (args : List Bytes) (fs : List Flag)
      (parses : parse_flags none args triage_flags ≡ got fs) (log : Bytes)
      (resolved : resolve_incident rs (text_flag "incident" fs) ≡ inl log) where
    -- What the flags and the environment configure the model with.
    abbrev asked_config : Config
    asked_config =
        triage_config p.environment (resolve_api_key p.environment (text_flag "api-key" fs)) fs
