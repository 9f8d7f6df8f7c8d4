-- ===== src/Engine.antt =====
-- internal/engine/engine.go: the closed loop of a remediation, over the subsystems of the other
-- modules. A text is a native string here, and `codes` gives the code points that the ledger and
-- the locks take. The error values are data with what their messages show.
pub mod Catalog
pub mod Lookup
pub mod Lifecycle
pub mod Steps
pub mod Settle
pub mod Remediate
pub mod Outcomes
pub mod Locking
pub mod Admission
pub mod Recovery
pub mod Trail
pub mod Restoration
pub mod Toy
mod Tests
use autonomous_remediation_e.Prelude.{ℕ, Bool, String, List, Option, Bytes}
use autonomous_remediation_e.Prelude.Assoc.{Assoc}
use autonomous_remediation_e.Fsm.{ExecutionState, StateTransition, Fsm}
use autonomous_remediation_e.Audit.{Ledger, WriteOutcome}
use autonomous_remediation_e.Damping.{Controller, GateReadings}
use autonomous_remediation_e.Damping
use autonomous_remediation_e.Lock.{Kernel, FileAnswers, LockError}
use autonomous_remediation_e.Host.{World}
use autonomous_remediation_e.Executor.{Action, BlastRadius, ExecutionResult, ExecError}
use autonomous_remediation_e.Verifier.{Condition, CheckError}
use autonomous_remediation_e.Rollback.{RollbackStep, WalFile, WalWrite, JournalError, RollbackError}
use autonomous_remediation_e.Rollback.Replay.{RollbackReadings}

-- `model.Alert`; a time of 0 is Go's zero time, and a missing map is the empty one.
pub record Alert : Type 0 where
  pub id : String
  pub fingerprint : String
  pub source : String
  pub resource_id : String
  pub severity : String
  pub labels : Assoc String
  pub annotations : Assoc String
  pub received_at : ℕ
  pub hmac_signature : String
  pub raw_payload : String

-- `model.Runbook`, without the fields that nothing reads (version and the damping limits of
-- its own).
pub record Runbook (X : Type 0) : Type 0 where
  pub id : String
  pub name : String
  pub target_resource_id : String
  pub severity : String
  pub preconditions : List (Condition X)
  pub actions : List (Action X)
  pub postconditions : List (Condition X)
  pub rollback_steps : List (RollbackStep X)
  pub blast_radius : BlastRadius

-- `Engine`, with what its calls change: the host, the kernel's locks, the audit ledger, the
-- write-ahead journal and the damping controller. `runbooks` lists the map in the order in which
-- a `range` over it goes.
pub record State (X : Type 0) : Type 0 where
  pub world : World X
  pub kernel : Kernel
  pub ledger : Ledger
  pub journal : Assoc (WalFile X)
  pub damping : Controller

-- `EngineConfig`.
pub record EngineConfig : Type 0 where
  pub lock_dir : String
  pub audit_log_path : String
  pub journal_dir : String
  pub damping_state_path : String
  pub host_uuid : String

-- `Engine`, as far as its calls leave it as it is: `configured_lock_dir` is its configuration's,
-- which may be empty, and `lock_dir` the coordinator's.
pub record Engine (X : Type 0) : Type 0 where
  pub configured_lock_dir : Bytes
  pub lock_dir : Bytes
  pub runbooks : Assoc (Runbook X)

-- What went wrong, as the field `Error` of a result shows it.
pub data Failure : Type 0 where
  malformed_alert : Failure
  no_runbook : Failure
  lock_collision : LockError → Failure
  damping_breach : Damping.Reason → Failure
  precondition_failed : String → Option CheckError → Failure
  staging_failed : JournalError → Failure
  action_error : String → ExecError → Failure
  action_failed : String → String → Failure
  postcondition_unmet : String → Option CheckError → Failure
  -- The rollback's error, and the fault before it.
  rollback_failed : RollbackError → Failure → Failure

-- The error that `Remediate` returns beside the result.
pub data EngineError : Type 0 where
  malformed : EngineError
  runbook_not_found : EngineError
  lock_failed : EngineError
  precondition_fail : Failure → EngineError
  wal_error : JournalError → EngineError
  rollback_faulted : RollbackError → EngineError
  postcondition_fail : Failure → EngineError

pub record RemediationResult : Type 0 where
  pub tx_id : String
  pub runbook_id : String
  pub resource_id : String
  pub final_state : ExecutionState
  pub success : Bool
  pub rolled_back : Bool
  pub execution_res : Option ExecutionResult
  pub duration : ℕ
  pub transitions : List StateTransition
  pub error : Option Failure

-- What one append to the ledger reads: the time, and how its write and its sync end.
pub record AppendReadings : Type 0 where
  pub timestamp : Bytes
  pub outcome : WriteOutcome
  pub synced : Bool

-- What one `Remediate` reads from outside: the clock, and how the calls into the file system
-- end. No state is entered or logged twice in a call, so its readings are told by the state.
pub record Readings : Type 0 where
  pub entered : ExecutionState → ℕ
  pub logged : ExecutionState → AppendReadings
  pub lock : FileAnswers
  pub gate : GateReadings
  -- The text of the nanoseconds in the transaction's name.
  pub nanos : String
  pub staged : ℕ
  pub stage_write : WalWrite
  pub committed : ℕ
  pub commit_write : WalWrite
  pub rollback : RollbackReadings
  pub recorded : ℕ
  pub record_written : Bool
  pub duration : ℕ

-- What the engine takes from the libraries: SHA-256, the JSON of an alert, and the texts that
-- `fmt.Sprintf` makes of a failure and of a transaction's parts.
pub record Texts : Type 0 where
  pub sha256 : Bytes → Bytes
  pub alert_json : Alert → Bytes
  pub message : Failure → String
  pub joined : String → String → String
  pub tx_name : String → String → String → String
