-- ===== src/Ctl/Preview.antt =====
-- What `handleTriage` of cmd/remediation-ctl/main.go prints of a proposal and of its runbook.
use autonomous_remediation_e.Prelude.{
  ℕ, not, Bool, true, false, List, [], ◌∷◌, ◌++◌, bytes_eq, str_append, ltb, length,
}
use autonomous_remediation_e.Prelude.Scalars.{of_codes}
use autonomous_remediation_e.Verifier.{Condition}
use autonomous_remediation_e.Proposer.{Config, Proposal}
use autonomous_remediation_e.Engine.{Runbook}
use autonomous_remediation_e.Ctl.{
  Printed, out, Formats, rule, dashed_rule, concat, numbered, only_if,
}
use autonomous_remediation_e.Ctl.Reports.{condition_text}

abbrev pub mode_line : Bool → Printed
mode_line true = out "Mode            : LIVE EXECUTION (AI Proposal -> Deterministic Enforcement)"
mode_line false = out "Mode            : DRY-RUN (AI Proposal -> Inspection Only)"

abbrev pub banner : Bool → Config → List Printed
banner execute cfg =
    rule
    ∷ out "  AI INCIDENT TRIAGE PROPOSER                                     "
    ∷ rule
    ∷ out (str_append "Model           : " (of_codes cfg.model))
    ∷ out (str_append "Base URL        : " (of_codes cfg.base_url))
    ∷ mode_line execute
    ∷ dashed_rule
    ∷ out "Consulting AI model for incident triage and runbook selection..."
    ∷ []

unfoldable pub proposal_lines : Proposal → List Printed
proposal_lines p =
    (out ""
      ∷ rule
      ∷ out "  AI PROPOSAL & REASONING TRACE                                   "
      ∷ rule
      ∷ [])
    ++ only_if (not (bytes_eq p.reasoning_content []))
        (out "[Reasoning Trace]:" ∷ out (of_codes p.reasoning_content) ∷ dashed_rule ∷ [])
    ++ (out (str_append "Diagnosis       : " (of_codes p.diagnosis))
        ∷ out (str_append "Proposed Runbook: " (of_codes p.runbook_id))
        ∷ out (str_append "Target Resource : " (of_codes p.target_resource))
        ∷ out (str_append "Severity        : " (of_codes p.severity))
        ∷ rule
        ∷ [])

module _ {X : Type 0} (fmt : Formats) where
  abbrev pub numbered_condition : ℕ → Condition X → List Printed
  numbered_condition i c =
      out (concat ("  [" ∷ fmt.number i ∷ "] " ∷ c.name ∷ " (" ∷ condition_text c.type ∷ ")" ∷ []))
      ∷ []

  -- The report of a dry run on the runbook that was proposed.
  unfoldable pub dry_run_lines : Proposal → Runbook X → List Printed
  dry_run_lines p rb =
      (out ""
        ∷ out "[DETERMINISTIC PRECHECKS (DRY-RUN)]"
        ∷ out (str_append "Runbook Name     : " rb.name)
        ∷ out (str_append "Runbook ID       : " rb.id)
        ∷ out (str_append "Target Resource  : " (of_codes p.target_resource))
        ∷ out (str_append "Max Execution    : " (fmt.duration rb.blast_radius.max_execution_time))
        ∷ [])
      ++ only_if (ltb 0 rb.blast_radius.max_bytes_mutated) (
          out (
            concat (
              "Max Bytes Mutated: " ∷ fmt.number rb.blast_radius.max_bytes_mutated ∷ " bytes" ∷ []))
          ∷ [])
      ++ only_if (ltb 0 rb.blast_radius.max_files_modified) (
          out (
            concat (
              "Max Files Mod    : "
              ∷ fmt.number rb.blast_radius.max_files_modified
              ∷ " files"
              ∷ []))
          ∷ [])
      ++ only_if (ltb 0 (length rb.blast_radius.allowed_path_prefixes)) (
          out (str_append "Allowed Prefixes : " (fmt.list rb.blast_radius.allowed_path_prefixes))
          ∷ [])
      ++ (out ""
          ∷ out (concat ("Precondition Gates (" ∷ fmt.number (length rb.preconditions) ∷ "):" ∷ []))
          ∷ numbered numbered_condition 0 rb.preconditions)
      ++ (out ""
          ∷ out (concat ("Actions to be Executed (" ∷ fmt.number (length rb.actions) ∷ "):" ∷ []))
          ∷ numbered (λ i a. out (concat ("  [" ∷ fmt.number i ∷ "] " ∷ a.name ∷ [])) ∷ []) 0
              rb.actions)
      ++ (out ""
          ∷ out (
              concat
                ("Postcondition Assertions (" ∷ fmt.number (length rb.postconditions) ∷ "):" ∷ []))
          ∷ numbered numbered_condition 0 rb.postconditions)
      ++ (out ""
          ∷ dashed_rule
          ∷ out "[DRY-RUN COMPLETE] Remediation was NOT executed."
          ∷ out "Architectural Principle: 'AI proposes. Deterministic systems enforce.'"
          ∷ out "To execute through the deterministic engine, run with --execute."
          ∷ rule
          ∷ [])
