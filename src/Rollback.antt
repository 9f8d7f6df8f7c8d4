-- ===== src/Rollback.antt =====
-- internal/rollback: the write-ahead journal (journal.go) and the replay of compensating steps
-- (rollback.go). A journal is its directory: the files by transaction. The JSON of a record keeps
-- every field but the compensating function, as its tag says.
pub mod Replay
pub mod Pending
pub mod Undo
mod Tests
use autonomous_remediation_e.Prelude.{
  ℕ, zero, suc, ◌+◌, Bool, true, false, ◌&&◌, ◌||◌, not, String, List, [], ◌∷◌, map, Option, none,
  some, length, str_eq, if◌then◌else◌, ◌⊎◌, inl, inr,
}
use autonomous_remediation_e.Prelude.Assoc.{Assoc, lookup, insert}
use autonomous_remediation_e.Host.{World, CopyOutcome, copied, copy_failed, sync_failed, System}

pub data WalState : Type 0 where
  prepared committed rolling_back rolled_back failed : WalState

abbrev pub is_pending : WalState → Bool
is_pending prepared = true
is_pending rolling_back = true
is_pending _ = false

-- `model.RollbackStep`; an absent field is the empty string. A compensating function gets the
-- target resource of the context.
pub record RollbackStep (X : Type 0) : Type 0 where
  pub name : String
  pub binary : String
  pub args : List String
  pub target_path : String
  pub staged_backup_path : String
  pub compensating_fn : Option (String → World X → World X × Option String)

pub record WalRecord (X : Type 0) : Type 0 where
  pub tx_id : String
  pub runbook_id : String
  pub resource_id : String
  pub created_at : ℕ
  pub updated_at : ℕ
  pub state : WalState
  pub steps : List (RollbackStep X)

-- The content of a WAL file: a record, or text that is not the JSON of one.
pub data WalFile (X : Type 0) : Type 0 where
  saved : WalRecord X → WalFile X
  corrupt : WalFile X

pub data JournalError : Type 0 where
  no_wal_file corrupted_wal not_opened not_written not_synced : JournalError

-- How a write ends: the file is not opened, is cut off, is not synchronized, or is on disk.
pub data WalWrite : Type 0 where
  unopened cut_off unsynced synced : WalWrite

pub data StepError : Type 0 where
  no_backup no_target copy_fault sync_fault : StepError
  -- What a compensating function or a command reports.
  reported : String → StepError

-- The step that failed, by its index.
pub record RollbackError : Type 0 where
  pub index : ℕ
  pub step_name : String
  pub cause : StepError

module _ {X : Type 0} where
  -- What is left of a step and of a record when it is written as JSON and read again.
  abbrev pub persisted_step : RollbackStep X → RollbackStep X
  persisted_step s = record s { compensating_fn = none }

  abbrev pub persisted : WalRecord X → WalRecord X
  persisted r = record r { steps = map persisted_step r.steps }

  -- `readUnsafe`, and so `Read`.
  unfoldable pub read : String → Assoc (WalFile X) → Option (WalRecord X) × Option JournalError
  read tx j = elim (lookup tx j) [
    | none ↦ (none, some no_wal_file)
    | some corrupt ↦ (none, some corrupted_wal)
    | some (saved r) ↦ (some r, none)
  ]

  -- `writeAndSync`; opening the file truncates it.
  unfoldable pub write_and_sync :
      WalWrite → WalRecord X → Assoc (WalFile X) → Assoc (WalFile X) × Option JournalError
  write_and_sync unopened r j = (j, some not_opened)
  write_and_sync cut_off r j = (insert r.tx_id corrupt j, some not_written)
  write_and_sync unsynced r j = (insert r.tx_id (saved (persisted r)) j, some not_synced)
  write_and_sync synced r j = (insert r.tx_id (saved (persisted r)) j, none)

  abbrev pub staged : ℕ → String → String → String → List (RollbackStep X) → WalRecord X
  staged now tx runbook resource steps = record {
    tx_id = tx;
    runbook_id = runbook;
    resource_id = resource;
    created_at = now;
    updated_at = now;
    state = prepared;
    steps = steps;
  }

  -- `Stage`: the journal afterwards, and the record, with its functions, where there is no error.
  unfoldable pub stage :
      WalWrite
      → ℕ
      → String
      → String
      → String
      → List (RollbackStep X)
      → Assoc (WalFile X)
      → Assoc (WalFile X) × (WalRecord X ⊎ JournalError)
  stage ending now tx runbook resource steps j =
      let r = staged now tx runbook resource steps in
      let (j', error) = write_and_sync ending r j in
      elim error [ none ↦ (j', inl r) | some e ↦ (j', inr e) ]

  -- `UpdateState`.
  unfoldable pub update_state :
      WalWrite → ℕ → String → WalState → Assoc (WalFile X) → Assoc (WalFile X) × Option JournalError
  update_state ending now tx new_state j =
      let (found, error) = read tx j in
      elim found [
        | some r ↦ write_and_sync ending (record r { state = new_state; updated_at = now }) j
        | none ↦ (j, error)
      ]

  -- `ListPending`, in the order of the directory; a file that cannot be read is passed over.
  unfoldable pub list_pending : Assoc (WalFile X) → List (WalRecord X)
  list_pending [] = []
  list_pending ((tx, corrupt) ∷ j) = list_pending j
  list_pending ((tx, saved r) ∷ j) =
      let rest = list_pending j in if is_pending r.state then r ∷ rest else rest

  -- `restoreFile`. The target is truncated before anything is read, so a file that is its own
  -- backup is emptied.
  unfoldable pub restore_file : System X → String → String → World X → World X × Option StepError
  restore_file os backup target w =
      if os.can_read w backup
      then if os.can_write w target
        then (let truncated = insert target "" w.files in
            elim (lookup backup truncated) [
              | none ↦ (record w { files = truncated }, some copy_fault)
              | some content ↦ elim (os.copy w backup target) [
                | copied ↦ (record w { files = insert target content truncated }, none)
                | copy_failed part ↦
                    (record w { files = insert target part truncated }, some copy_fault)
                | sync_failed ↦
                    (record w { files = insert target content truncated }, some sync_fault)
              ]
            ])
        else (w, some no_target)
      else (w, some no_backup)

  abbrev pub reporting : World X × Option String → World X × Option StepError
  reporting (w, none) = (w, none)
  reporting (w, some message) = (w, some (reported message))

  -- `executeSingleStep`: a function, else a backup, else a command, else nothing.
  unfoldable pub execute_single_step :
      System X → String → RollbackStep X → World X → World X × Option StepError
  execute_single_step os target step w = elim step.compensating_fn [
    | some f ↦ reporting (f target w)
    | none ↦
        if not (str_eq step.target_path "") && not (str_eq step.staged_backup_path "")
        then restore_file os step.staged_backup_path step.target_path w
        else if not (str_eq step.binary "")
        then reporting (os.command step.binary step.args w)
        else (w, none)
  ]
