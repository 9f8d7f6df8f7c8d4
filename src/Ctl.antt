-- ===== src/Ctl.antt =====
-- cmd/remediation-ctl/main.go: the command line. A command is a function from its arguments, code
-- points, to the lines that it prints, the exit status and what it leaves behind.
pub mod Flags
pub mod Run
pub mod Reports
pub mod Circuits
pub mod Resolve
pub mod Preview
pub mod Triage
pub mod Commands
pub mod Ends
pub mod Spelled
pub mod Arguments
pub mod Enforced
pub mod Committed
pub mod Idle
pub mod Probing
mod Tests
use autonomous_remediation_e.Prelude.{
  ℕ, ◌+◌, ◌&&◌, not, Bool, true, false, String, List, [], ◌∷◌, ◌++◌, Option, none, some, Bytes,
  bytes_eq, codes, str_append, if◌then◌else◌,
}
use autonomous_remediation_e.Prelude.Scalars.{of_codes}
use autonomous_remediation_e.Fsm.{StateTransition}
use autonomous_remediation_e.Audit.{AuditEntry}
use autonomous_remediation_e.Audit.Verify.{VerifyError}
use autonomous_remediation_e.Damping
use autonomous_remediation_e.Damping.{StateFile}
use autonomous_remediation_e.Proposer.{ProposeError}
use autonomous_remediation_e.Engine.{
  State, Engine, EngineConfig, EngineError, RemediationResult, Runbook, Texts,
}
use autonomous_remediation_e.Engine.Steps.{state_text}
use autonomous_remediation_e.Engine.Lifecycle.{Disk, InitError, close}
use autonomous_remediation_e.Ctl.Flags.{
  FlagError, Flag, Parsed, got, helped, faulted, parse_flags, text_flag, string,
}

-- A line for the standard output or the standard error, or the flags' own usage.
pub data Printed : Type 0 where
  out err : String → Printed
  usage : String → Printed

-- What a process leaves: nothing of its own, an engine's state, the file of the damping
-- states, or the directory of a journal.
pub data Left (X : Type 0) : Type 0 where
  untouched : Left X
  engine : State X → Left X
  circuits : StateFile → Left X
  journal : String → Left X

pub record Outcome (X : Type 0) : Type 0 where
  pub lines : List Printed
  pub status : ℕ
  pub left : Left X

-- The texts that the packages fmt and time make of a value, and those of the errors.
pub record Formats : Type 0 where
  pub number : ℕ → String
  pub duration : ℕ → String
  pub date : ℕ → String
  -- How long ago, in seconds.
  pub since : ℕ → String
  pub quoted : Bytes → String
  -- A text on the left of 16 columns, and a list of texts.
  pub column : String → String
  pub list : List String → String
  pub flag_error : FlagError → String
  pub init_error : InitError → String
  pub engine_error : EngineError → String
  pub verify_error : VerifyError → String
  pub propose_error : ProposeError → String
  pub load_error : StateFile → String
  pub reason : Damping.Reason → String

-- The variables of the environment that the commands read; one that is not set is empty.
pub record Environment : Type 0 where
  pub damping_file : Bytes
  pub nvidia_api_key : Bytes
  pub openai_api_key : Bytes

-- What the commands stand on: the libraries, the environment, what the paths of a configuration
-- hold, and `defaultCatalog()`.
pub record Installation (X : Type 0) : Type 0 where
  pub texts : Texts
  pub formats : Formats
  pub line_size : AuditEntry → ℕ
  pub environment : Environment
  pub disk : EngineConfig → Disk X
  pub catalog : List (Runbook X)

abbrev pub rule : Printed
rule = out "=================================================================="

abbrev pub dashed_rule : Printed
dashed_rule = out "------------------------------------------------------------------"

unfoldable pub concat : List String → String
concat [] = ""
concat (s ∷ ss) = str_append s (concat ss)

-- The lines that a list gives, each by its index from 1.
unfoldable pub numbered {ℓ} : {A : Type ℓ} → (ℕ → A → List Printed) → ℕ → List A → List Printed
numbered f i [] = []
numbered f i (x ∷ xs) = f (i + 1) x ++ numbered f (i + 1) xs

unfoldable pub for_each {ℓ} : {A : Type ℓ} → (A → List Printed) → List A → List Printed
for_each f [] = []
for_each f (x ∷ xs) = f x ++ for_each f xs

-- The lines of an `if` without an `else`.
abbrev pub only_if : Bool → List Printed → List Printed
only_if b lines = if b then lines else []

abbrev pub transition_line : Formats → ℕ → StateTransition → List Printed
transition_line fmt i t =
    out (
      concat (
        "  ["
        ∷ fmt.number i
        ∷ "] "
        ∷ fmt.column (state_text t.from)
        ∷ " -> "
        ∷ fmt.column (state_text t.to)
        ∷ " ("
        ∷ t.reason
        ∷ ")"
        ∷ []))
    ∷ []

-- The block under `Execution Telemetry`.
unfoldable pub telemetry : Formats → Option RemediationResult → List Printed
telemetry fmt none = out "" ∷ out "--- Execution Telemetry ---" ∷ []
telemetry fmt (some r) =
    out ""
    ∷ out "--- Execution Telemetry ---"
    ∷ out (str_append "Transaction ID : " r.tx_id)
    ∷ out (str_append "Final State    : " (state_text r.final_state))
    ∷ out (str_append "Duration       : " (fmt.duration r.duration))
    ∷ out "FSM Lifecycle Transitions:"
    ∷ numbered (transition_line fmt) 0 r.transitions

module _ {X : Type 0} where
  -- A process that ends before it has changed anything.
  abbrev pub ends : ℕ → List Printed → Outcome X
  ends status lines = record { lines = lines; status = status; left = untouched }

  -- Lines printed before what follows.
  abbrev pub after : List Printed → Outcome X → Outcome X
  after lines o = record o { lines = lines ++ o.lines }

  -- After the flags, or the end of the process.
  unfoldable pub flagged : Formats → String → (List Flag → Outcome X) → Parsed → Outcome X
  flagged fmt name go (got fs) = go fs
  flagged fmt name go helped = ends 0 (usage name ∷ [])
  flagged fmt name go (faulted e) = ends 2 (err (fmt.flag_error e) ∷ usage name ∷ [])

  -- `fs.Parse(args)` with `ExitOnError`, and what follows it.
  unfoldable pub with_flags :
      Formats → String → List Flag → (List Flag → Outcome X) → List Bytes → Outcome X
  with_flags fmt name fs go args = flagged fmt name go (parse_flags none args fs)

  -- The end of a remediation by its error; `os.Exit(1)` leaves the deferred `Close` out.
  unfoldable pub ended_run :
      Formats
      → String
      → List Printed
      → State X × Option RemediationResult × Option EngineError
      → Outcome X
  ended_run fmt failing success (st, result, none) = record {
    lines = telemetry fmt result ++ success;
    status = 0;
    left = engine (close st);
  }
  ended_run fmt failing success (st, result, some e) = record {
    lines = telemetry fmt result ++ err "" ∷ err (str_append failing (fmt.engine_error e)) ∷ [];
    status = 1;
    left = engine st;
  }

-- The flags that `run` and `triage` share.
abbrev pub engine_flags : List Flag
engine_flags =
    string "audit-log" "/tmp/remediation-audit.log"
    ∷ string "lock-dir" "/tmp/remediation-locks"
    ∷ string "journal-dir" "/tmp/remediation-journal"
    ∷ string "damping-file" "/tmp/remediation-damping.json"
    ∷ []

-- The path of the damping state, which the environment gives where the flag is left at its default.
unfoldable pub damping_path : Environment → List Flag → Bytes
damping_path env fs =
    let file = text_flag "damping-file" fs in
    if not (bytes_eq env.damping_file []) && bytes_eq file (codes "/tmp/remediation-damping.json")
    then env.damping_file
    else file

-- The configuration of the engine that `run` and `triage` make.
unfoldable pub node_config : Environment → List Flag → EngineConfig
unfolding damping_path
node_config env fs = record {
  lock_dir = of_codes (text_flag "lock-dir" fs);
  audit_log_path = of_codes (text_flag "audit-log" fs);
  journal_dir = of_codes (text_flag "journal-dir" fs);
  damping_state_path = of_codes (damping_path env fs);
  host_uuid = "remediation-ctl-node";
}

-- `printUsage`.
abbrev pub usage_lines : List Printed
usage_lines =
    out "Autonomous Remediation Engine Controller (remediation-ctl)"
    ∷ out ""
    ∷ out "Usage:"
    ∷ out
        "  remediation-ctl run --runbook=<id> --resource=<res> [--audit-log=<path>] [--lock-dir=<dir>] [--journal-dir=<dir>] [--damping-file=<path>]"
    ∷ out
        "  remediation-ctl triage --incident=<text|file> [--execute] [--api-key=<key>] [--base-url=<url>] [--model=<model>]"
    ∷ out "  remediation-ctl verify-audit --file=<path>"
    ∷ out "  remediation-ctl status [--journal-dir=<dir>]"
    ∷ out "  remediation-ctl list-runbooks"
    ∷ out "  remediation-ctl damping-status [--damping-file=<path>] [--resource=<res>]"
    ∷ []
