-- ===== src/Ctl/Commands.antt =====
-- `main` of cmd/remediation-ctl/main.go: the subcommands.
use autonomous_remediation_e.Prelude.{
  ℕ, ◌||◌, List, [], ◌∷◌, String, Bytes, bytes_eq, codes, str_append, if◌then◌else◌,
}
use autonomous_remediation_e.Host.{System}
use autonomous_remediation_e.Damping.{StateFile, GateReadings}
use autonomous_remediation_e.Proposer.{Library}
use autonomous_remediation_e.Ctl.{err, Outcome, Installation, usage_lines, ends}
use autonomous_remediation_e.Ctl.Run.{RunReadings, handle_run}
use autonomous_remediation_e.Ctl.Reports.{
  LedgerAnswer, JournalAnswer, handle_verify_audit, handle_ctl_status, handle_list_runbooks,
}
use autonomous_remediation_e.Ctl.Circuits.{handle_damping_status}
use autonomous_remediation_e.Ctl.Resolve.{TriageReadings}
use autonomous_remediation_e.Ctl.Triage.{handle_triage}

-- What the process reads, by the command.
pub record CtlReadings (X : Type 0) : Type 0 where
  pub run : RunReadings
  pub triage : TriageReadings
  pub verified_at : ℕ
  pub ledgers : Bytes → LedgerAnswer
  pub journals : Bytes → JournalAnswer X
  pub gates : String → GateReadings
  pub damping_files : Bytes → StateFile

module _ {X : Type 0} (os : System X) (p : Installation X) (lib : Library) (prompt : Bytes) where
  abbrev pub unknown_subcommand : Bytes → Outcome X
  unknown_subcommand name =
      ends 1
        (err (str_append "Unknown subcommand: " (p.formats.quoted name)) ∷ err "" ∷ usage_lines)

  -- The `switch` on the subcommand.
  unfoldable pub dispatch : CtlReadings X → Bytes → List Bytes → Outcome X
  dispatch rs name args =
      if bytes_eq name (codes "run")
      then handle_run os p rs.run args
      else if bytes_eq name (codes "triage")
      then handle_triage os p lib prompt rs.triage args
      else if bytes_eq name (codes "verify-audit")
      then handle_verify_audit p rs.verified_at rs.ledgers args
      else if bytes_eq name (codes "status")
      then handle_ctl_status p rs.journals args
      else if bytes_eq name (codes "list-runbooks")
      then handle_list_runbooks p args
      else if bytes_eq name (codes "damping-status")
      then handle_damping_status p rs.gates rs.damping_files args
      else if bytes_eq name (codes "help")
          || bytes_eq name (codes "--help")
          || bytes_eq name (codes "-h")
      then ends 0 usage_lines
      else unknown_subcommand name

  -- `main`, by the arguments after the program's name.
  unfoldable pub ctl_main : CtlReadings X → List Bytes → Outcome X
  ctl_main rs [] = ends 1 usage_lines
  ctl_main rs (name ∷ args) = dispatch rs name args
