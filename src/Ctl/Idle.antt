-- ===== src/Ctl/Idle.antt =====
-- Which subcommands of cmd/remediation-ctl/main.go make no engine.
use autonomous_remediation_e.Prelude.{
  ℕ, ◌≡◌, refl, Bool, true, false, ◌||◌, String, List, [], ◌∷◌, Option, none, some, Bytes, bytes_eq,
  codes, Bool-cases, inl, inr,
}
use autonomous_remediation_e.Host.{System}
use autonomous_remediation_e.Audit.Verify.{Verdict, valid, invalid}
use autonomous_remediation_e.Damping.{StateFile, Controller, GateReadings}
use autonomous_remediation_e.Proposer.{Library}
use autonomous_remediation_e.Ctl.Flags.{text_flag}
use autonomous_remediation_e.Ctl.{Left, untouched, engine, circuits, journal, Installation}
use autonomous_remediation_e.Ctl.Ends.{with_flags-ends}
use autonomous_remediation_e.Ctl.Reports.{
  LedgerAnswer, unopened, opened, JournalAnswer, unmade, unread, listed, made_journal,
  verdict_outcome, verify_ledger_file, handle_verify_audit, handle_ctl_status, handle_list_runbooks,
}
use autonomous_remediation_e.Ctl.Circuits.{damping_flags, loaded_circuits, handle_damping_status}
use autonomous_remediation_e.Ctl.Commands.{CtlReadings, dispatch, ctl_main}

-- An engine was made and left its state.
abbrev pub has_engine : {X : Type 0} → Left X → Bool
has_engine untouched = false
has_engine (engine st) = true
has_engine (circuits file) = false
has_engine (journal dir) = false

module _ {X : Type 0} (p : Installation X) where
  abbrev Idles : Left X → ℕ → Type 0
  Idles left status = has_engine left ≡ false

  verdict_outcome-Idles :
      (path : Bytes) (at : ℕ) (v : Verdict) → has_engine (verdict_outcome p path at v).left ≡ false
  unfolding verdict_outcome
  verdict_outcome-Idles path at (valid r) = refl
  verdict_outcome-Idles path at (invalid e) = refl

  verify_ledger_file-Idles :
      (path : Bytes) (at : ℕ) (a : LedgerAnswer)
      → has_engine (verify_ledger_file p path at a).left ≡ false
  unfolding verify_ledger_file
  verify_ledger_file-Idles path at (unopened message) = refl
  verify_ledger_file-Idles path at (opened f) = verdict_outcome-Idles path at _

  handle_verify_audit-Idles :
      (at : ℕ) (files : Bytes → LedgerAnswer) (args : List Bytes)
      → has_engine (handle_verify_audit p at files args).left ≡ false
  unfolding handle_verify_audit
  handle_verify_audit-Idles at files args =
      with_flags-ends Idles p.formats "verify-audit" _ _ args (λ h. refl) refl
        (λ fs h. elim (Bool-cases (bytes_eq (text_flag "file" fs) [])) [
          | inl empty ↦ rw empty refl
          | inr given ↦ rw given (verify_ledger_file-Idles (text_flag "file" fs) at _)
        ])

  loaded_circuits-Idles :
      (gates : String → GateReadings) (resource : Bytes) (file : StateFile) (c : Option Controller)
      → has_engine (loaded_circuits p gates resource file c).left ≡ false
  unfolding loaded_circuits
  loaded_circuits-Idles gates resource file none = refl
  loaded_circuits-Idles gates resource file (some c) = refl

  handle_damping_status-Idles :
      (gates : String → GateReadings) (files : Bytes → StateFile) (args : List Bytes)
      → has_engine (handle_damping_status p gates files args).left ≡ false
  unfolding handle_damping_status
  handle_damping_status-Idles gates files args =
      with_flags-ends Idles p.formats "damping-status" damping_flags _ args (λ h. refl) refl
        (λ fs h. loaded_circuits-Idles gates (text_flag "resource" fs) _ _)

  made_journal-Idles :
      (dir : Bytes) (a : JournalAnswer X) → has_engine (made_journal p dir a) ≡ false
  made_journal-Idles dir (unmade message) = refl
  made_journal-Idles dir (unread message) = refl
  made_journal-Idles dir (listed j) = refl

  handle_ctl_status-Idles :
      (journals : Bytes → JournalAnswer X) (args : List Bytes)
      → has_engine (handle_ctl_status p journals args).left ≡ false
  unfolding handle_ctl_status
  handle_ctl_status-Idles journals args =
      with_flags-ends Idles p.formats "status" _ _ args (λ h. refl) refl
        (λ fs h. made_journal-Idles _ _)

module _ {X : Type 0} (os : System X) (p : Installation X) (lib : Library) (prompt : Bytes) where
  -- No subcommand but `run` and `triage` makes an engine, whatever its arguments are.
  pub ctl_main-idle :
      (rs : CtlReadings X) (name : Bytes) (args : List Bytes)
      → bytes_eq name (codes "run") ≡ false
      → bytes_eq name (codes "triage") ≡ false
      → has_engine (ctl_main os p lib prompt rs (name ∷ args)).left ≡ false
  unfolding ctl_main dispatch handle_list_runbooks
  ctl_main-idle rs name args no_run no_triage =
      elim (Bool-cases (bytes_eq name (codes "verify-audit"))) [
        | inl e1 ↦ rw (no_run, no_triage, e1) (handle_verify_audit-Idles p _ _ args)
        | inr n1 ↦ elim (Bool-cases (bytes_eq name (codes "status"))) [
          | inl e2 ↦ rw (no_run, no_triage, n1, e2) (handle_ctl_status-Idles p _ args)
          | inr n2 ↦ elim (Bool-cases (bytes_eq name (codes "list-runbooks"))) [
            | inl e3 ↦ rw (no_run, no_triage, n1, n2, e3) refl
            | inr n3 ↦ elim (Bool-cases (bytes_eq name (codes "damping-status"))) [
              | inl e4 ↦
                  rw (no_run, no_triage, n1, n2, n3, e4) (handle_damping_status-Idles p _ _ args)
              | inr n4 ↦
                  elim (Bool-cases (
                    bytes_eq name (codes "help")
                    || bytes_eq name (codes "--help")
                    || bytes_eq name (codes "-h"))) [
                      | inl e5 ↦ rw (no_run, no_triage, n1, n2, n3, n4, e5) refl
                      | inr n5 ↦ rw (no_run, no_triage, n1, n2, n3, n4, n5) refl
                    ]
            ]
          ]
        ]
      ]
