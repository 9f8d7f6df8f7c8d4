-- ===== src/Ctl/Reports.antt =====
-- `handleVerifyAudit`, `handleStatus` and `handleListRunbooks` of cmd/remediation-ctl/main.go: the
-- commands that report.
use autonomous_remediation_e.Prelude.{
  ℕ, String, List, [], ◌∷◌, ◌++◌, Bytes, bytes_eq, codes, str_append, ltb, length, if◌then◌else◌,
}
use autonomous_remediation_e.Prelude.Assoc.{Assoc}
use autonomous_remediation_e.Prelude.Scalars.{of_codes}
use autonomous_remediation_e.Audit.{LedgerFile}
use autonomous_remediation_e.Audit.Verify.{
  VerificationResult, Verdict, valid, invalid, verify_ledger,
}
use autonomous_remediation_e.Lock.{hex}
use autonomous_remediation_e.Rollback.{
  WalFile, WalRecord, WalState, prepared, committed, rolling_back, rolled_back, failed,
  list_pending,
}
use autonomous_remediation_e.Verifier.{
  ConditionType, disk_free_pct, process_alive, http_health, file_exists, custom, unsupported,
  Condition,
}
use autonomous_remediation_e.Engine.{Runbook}
use autonomous_remediation_e.Ctl.Flags.{string, text_flag}
use autonomous_remediation_e.Ctl.{
  Printed, Left, untouched, journal, out, err, usage, Outcome, Installation, rule, dashed_rule,
  concat, numbered, for_each, only_if, ends, with_flags,
}

-- The constants of rollback/journal.go.
unfoldable pub wal_state_text : WalState → String
wal_state_text prepared = "PREPARED"
wal_state_text committed = "COMMITTED"
wal_state_text rolling_back = "ROLLING_BACK"
wal_state_text rolled_back = "ROLLED_BACK"
wal_state_text failed = "FAILED"

-- The constants of model/model.go.
unfoldable pub condition_text : ConditionType → String
condition_text disk_free_pct = "disk_free_pct"
condition_text process_alive = "process_alive"
condition_text http_health = "http_health"
condition_text file_exists = "file_exists"
condition_text custom = "custom"
condition_text (unsupported s) = s

-- What the path of a ledger and that of a journal hold.
pub data LedgerAnswer : Type 0 where
  unopened : String → LedgerAnswer
  opened : LedgerFile → LedgerAnswer

pub data JournalAnswer (X : Type 0) : Type 0 where
  -- The directory is not made, or not read, with the error's text.
  unmade unread : String → JournalAnswer X
  listed : Assoc (WalFile X) → JournalAnswer X

module _ {X : Type 0} (p : Installation X) where
  abbrev pub verified_lines : Bytes → ℕ → VerificationResult → List Printed
  verified_lines path at r =
      rule
      ∷ out "  CRYPTOGRAPHIC AUDIT LEDGER INTEGRITY VERIFIED                   "
      ∷ rule
      ∷ out (str_append "  Ledger Path     : " (of_codes path))
      ∷ out "  Status          : VALID (100% Monotonic Hash Chain Continuity)"
      ∷ out (str_append "  Total Records   : " (p.formats.number r.total_records))
      ∷ out (str_append "  Genesis Hash H0 : " (of_codes r.genesis_hash))
      ∷ out (str_append "  Latest Tail Hash: " (of_codes r.tail_hash))
      ∷ out (str_append "  Verification At : " (p.formats.date at))
      ∷ rule
      ∷ []

  unfoldable pub verdict_outcome : Bytes → ℕ → Verdict → Outcome X
  verdict_outcome path at (valid r) = ends 0 (verified_lines path at r)
  verdict_outcome path at (invalid e) =
      ends 1 (err "" ∷ err (str_append "[INTEGRITY FAILURE] " (p.formats.verify_error e)) ∷ [])

  -- `VerifyLedgerFile`.
  unfoldable pub verify_ledger_file : Bytes → ℕ → LedgerAnswer → Outcome X
  verify_ledger_file path at (unopened message) =
      ends 1 (err "" ∷ err (str_append "[INTEGRITY FAILURE] " message) ∷ [])
  verify_ledger_file path at (opened f) =
      verdict_outcome path at (verify_ledger (λ x. hex (p.texts.sha256 x)) p.line_size f)

  -- `handleVerifyAudit`, at the time and over the files given.
  unfoldable pub handle_verify_audit : ℕ → (Bytes → LedgerAnswer) → List Bytes → Outcome X
  handle_verify_audit at files args =
      with_flags p.formats "verify-audit" (string "file" "" ∷ [])
        (λ fs.
          let path = text_flag "file" fs in
          if bytes_eq path []
          then ends 1
              (err "Error: --file flag is required for 'verify-audit'" ∷ usage "verify-audit" ∷ [])
          else verify_ledger_file path at (files path))
        args

  unfoldable pub pending_line : WalRecord X → List Printed
  pending_line r =
      out (
        concat (
          "  - TX: "
          ∷ r.tx_id
          ∷ " | State: "
          ∷ wal_state_text r.state
          ∷ " | Runbook: "
          ∷ r.runbook_id
          ∷ " | Target: "
          ∷ r.resource_id
          ∷ []))
      ∷ []

  unfoldable pub journal_lines : JournalAnswer X → List Printed
  unfolding pending_line
  journal_lines (unmade message) =
      out (concat ("Journal Status    : Error opening (" ∷ message ∷ ")" ∷ [])) ∷ []
  journal_lines (unread message) =
      out (concat ("Pending Recovery  : Error reading (" ∷ message ∷ ")" ∷ [])) ∷ []
  journal_lines (listed j) =
      out (
        concat (
          "Pending Recovery  : "
          ∷ p.formats.number (length (list_pending j))
          ∷ " uncommitted WAL transactions"
          ∷ []))
      ∷ for_each pending_line (list_pending j)

  unfoldable pub available_line : Runbook X → List Printed
  available_line rb =
      out (
        concat (
          "  - [" ∷ rb.id ∷ "] " ∷ rb.name ∷ " (Target: " ∷ rb.target_resource_id ∷ ", Severity: "
          ∷ rb.severity ∷ ")" ∷ []))
      ∷ []

  -- The directory of a journal that `NewJournal` has made.
  abbrev pub made_journal : Bytes → JournalAnswer X → Left X
  made_journal dir (unmade message) = untouched
  made_journal dir (unread message) = journal (of_codes dir)
  made_journal dir (listed j) = journal (of_codes dir)

  -- `handleStatus`, over what the directories hold.
  unfoldable pub handle_ctl_status : (Bytes → JournalAnswer X) → List Bytes → Outcome X
  handle_ctl_status journals args =
      with_flags p.formats "status" (string "journal-dir" "/tmp/remediation-journal" ∷ [])
        (λ fs.
          let given = text_flag "journal-dir" fs in
          let dir = if bytes_eq given [] then codes "/tmp/remediation-journal" else given in
          let answer = journals dir in
          record (ends 0 (
            rule
            ∷ out "  AUTONOMOUS REMEDIATION ENGINE STATUS                            "
            ∷ rule
            ∷ (journal_lines answer
                ++ (out (
                      concat (
                        "Available Runbooks: "
                        ∷ p.formats.number (length p.catalog)
                        ∷ " registered"
                        ∷ []))
                    ∷ for_each available_line p.catalog)
                ++ (rule ∷ [])))) { left = made_journal dir answer })
        args

  abbrev pub condition_line : Condition X → List Printed
  condition_line c =
      out (concat ("      - " ∷ c.name ∷ " (" ∷ condition_text c.type ∷ ")" ∷ [])) ∷ []

  abbrev pub bytes_limit : Runbook X → List Printed
  bytes_limit rb = only_if (ltb 0 rb.blast_radius.max_bytes_mutated) (
      out (
        concat (
          "    Max Bytes Mutated: "
          ∷ p.formats.number rb.blast_radius.max_bytes_mutated
          ∷ " bytes"
          ∷ []))
      ∷ [])

  abbrev pub files_limit : Runbook X → List Printed
  files_limit rb = only_if (ltb 0 rb.blast_radius.max_files_modified) (
      out (
        concat (
          "    Max Files Mod    : "
          ∷ p.formats.number rb.blast_radius.max_files_modified
          ∷ " files"
          ∷ []))
      ∷ [])

  unfoldable pub runbook_lines : ℕ → Runbook X → List Printed
  runbook_lines i rb =
      (out (concat ("[" ∷ p.formats.number i ∷ "] ID: " ∷ rb.id ∷ []))
        ∷ out (str_append "    Name             : " rb.name)
        ∷ out (str_append "    Target Resource  : " rb.target_resource_id)
        ∷ out (str_append "    Severity         : " rb.severity)
        ∷ out (
            str_append "    Max Execution    : "
              (p.formats.duration rb.blast_radius.max_execution_time))
        ∷ [])
      ++ bytes_limit rb
      ++ files_limit rb
      ++ (out (
            concat (
              "    Preconditions    : "
              ∷ p.formats.number (length rb.preconditions)
              ∷ " checks"
              ∷ []))
          ∷ for_each condition_line rb.preconditions)
      ++ (out (
            concat
              ("    Actions          : " ∷ p.formats.number (length rb.actions) ∷ " steps" ∷ []))
          ∷ for_each (λ a. out (str_append "      - " a.name) ∷ []) rb.actions)
      ++ (out (
            concat (
              "    Postconditions   : "
              ∷ p.formats.number (length rb.postconditions)
              ∷ " checks"
              ∷ []))
          ∷ for_each condition_line rb.postconditions)
      ++ (dashed_rule ∷ [])

  -- `handleListRunbooks`, which does not look at its arguments.
  unfoldable pub handle_list_runbooks : List Bytes → Outcome X
  handle_list_runbooks args = ends 0 (
      rule
      ∷ out "  AVAILABLE PRODUCTION RUNBOOKS                                   "
      ∷ rule
      ∷ out (concat ("Total Runbooks: " ∷ p.formats.number (length p.catalog) ∷ " registered" ∷ []))
      ∷ out ""
      ∷ numbered runbook_lines 0 p.catalog)
