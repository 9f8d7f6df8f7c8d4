-- ===== src/Ctl/Run.antt =====
-- `handleRun` of cmd/remediation-ctl/main.go, and the engine that the commands make.
use autonomous_remediation_e.Prelude.{
  ℕ, ◌||◌, String, List, [], ◌∷◌, Bytes, bytes_eq, str_append, if◌then◌else◌, inl, inr, ◌⊎◌,
}
use autonomous_remediation_e.Prelude.Scalars.{of_codes}
use autonomous_remediation_e.Host.{System}
use autonomous_remediation_e.Proposer.{or_text}
use autonomous_remediation_e.Engine.{State, Engine, Readings, EngineConfig}
use autonomous_remediation_e.Engine.Lifecycle.{InitError, new_engine, register_runbooks}
use autonomous_remediation_e.Engine.Remediate.{run_direct}
use autonomous_remediation_e.Ctl.Flags.{Flag, string, text_flag}
use autonomous_remediation_e.Ctl.{
  out, err, usage, Outcome, Installation, concat, ends, after, with_flags, ended_run, engine_flags,
  node_config,
}

abbrev pub run_flags : List Flag
run_flags = string "runbook" "" ∷ string "resource" "" ∷ string "target" "" ∷ engine_flags

-- `effectiveTarget`.
abbrev pub effective_target : List Flag → Bytes
effective_target fs = or_text (text_flag "resource" fs) (text_flag "target" fs)

-- The name and the time of the alert that `RunDirect` makes up, and what its remediation reads.
pub record RunReadings : Type 0 where
  pub alert_id : String
  pub now : ℕ
  pub remediation : Readings

module _ {X : Type 0} (os : System X) (p : Installation X) where
  -- With an engine, into which the catalog is registered, or without.
  unfoldable pub opened :
      (Engine X → State X → Outcome X) → (Engine X × State X) ⊎ InitError → Outcome X
  opened go (inl (e, st)) = go (register_runbooks p.catalog e) st
  opened go (inr e) =
      ends 1
        (err (str_append "Error initializing remediation engine: " (p.formats.init_error e)) ∷ [])

  -- An engine of the configuration, for what follows.
  unfoldable pub with_engine : EngineConfig → (Engine X → State X → Outcome X) → Outcome X
  with_engine cfg go = opened go (new_engine p.texts p.line_size cfg (p.disk cfg))

  -- The call of `RunDirect` and what is printed of it.
  unfoldable pub direct_run : RunReadings → String → String → Engine X → State X → Outcome X
  direct_run rs runbook_id target e st =
      after
        (out (
            concat (
              "==> Starting remediation for Runbook [" ∷ runbook_id ∷ "] on Resource [" ∷ target
              ∷ "]..." ∷ []))
          ∷ [])
        (ended_run p.formats "[ERROR] Remediation Failed: "
          (out ""
            ∷ out "[SUCCESS] Remediation verified, committed, and chained to audit ledger."
            ∷ [])
          (run_direct os p.texts e rs.remediation rs.alert_id rs.now runbook_id target st))

  -- `handleRun` after the flags.
  unfoldable pub run_parsed : RunReadings → List Flag → Outcome X
  run_parsed rs fs =
      if bytes_eq (text_flag "runbook" fs) [] || bytes_eq (effective_target fs) []
      then ends 1 (
          err "Error: --runbook and --target (or --resource) flags are required for 'run'"
          ∷ usage "run"
          ∷ [])
      else with_engine (node_config p.environment fs)
          (direct_run rs (of_codes (text_flag "runbook" fs)) (of_codes (effective_target fs)))

  -- `handleRun`.
  unfoldable pub handle_run : RunReadings → List Bytes → Outcome X
  handle_run rs args = with_flags p.formats "run" run_flags (run_parsed rs) args
