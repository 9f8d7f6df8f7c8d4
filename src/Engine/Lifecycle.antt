-- ===== src/Engine/Lifecycle.antt =====
-- `NewEngine`, `IsHealthy` and `Close` of internal/engine/engine.go, and the constructors of its parts.
use autonomous_remediation_e.Prelude.{
  ℕ, Bool, Option, none, some, String, List, str_eq, bytes_eq, codes, if◌then◌else◌, [], ◌∷◌, ◌⊎◌,
  inl, inr,
}
use autonomous_remediation_e.Prelude.Assoc.{Assoc}
use autonomous_remediation_e.Audit.{
  AuditEntry, LedgerFile, LedgerError, Ledger, ok, err, new_ledger,
}
use autonomous_remediation_e.Audit
use autonomous_remediation_e.Damping.{StateFile, Controller, new_controller}
use autonomous_remediation_e.Lock.{Kernel}
use autonomous_remediation_e.Rollback.{WalFile}
use autonomous_remediation_e.Host.{World}
use autonomous_remediation_e.Engine.{State, Engine, EngineConfig, Texts, Runbook}
use autonomous_remediation_e.Engine.Catalog.{register_runbook}

-- What the file system answers: the error of making the directory of the locks, and that of writing
-- a file in it.
pub record HealthAnswers : Type 0 where
  pub directory : Option String
  pub write : Option String

-- What is wrong with the directory, if it can be made.
unfoldable pub unwritable : Option String → Option String → Option String
unwritable (some reason) write = some reason
unwritable none write = write

module _ {X : Type 0} where
  -- `IsHealthy`, with what is wrong; the ledger of an engine is always there, also when it is closed.
  unfoldable pub is_healthy : HealthAnswers → Engine X → Option String
  is_healthy answers e =
      if bytes_eq e.configured_lock_dir [] then none else unwritable answers.directory answers.write

  -- `Close`.
  unfoldable pub close : State X → State X
  close st = record st { ledger = Audit.close st.ledger }

-- What is there before the engine: the host, the kernel's locks, and what the paths of the
-- configuration hold. The ledger's file is `none` where it cannot be opened; the two tests say
-- whether the directory of the locks and that of the journal can be made.
pub record Disk (X : Type 0) : Type 0 where
  pub world : World X
  pub kernel : Kernel
  pub ledger : Option LedgerFile
  pub journal : Assoc (WalFile X)
  pub damping : StateFile
  pub makes_lock_dir : Bool
  pub makes_journal_dir : Bool

pub data InitError : Type 0 where
  no_lock_dir : InitError
  no_ledger : LedgerError → InitError
  no_journal_dir : InitError
  no_damping : InitError

-- The directory of `NewCoordinator`.
unfoldable pub coordinator_dir : String → String
coordinator_dir dir = if str_eq dir "" then "/tmp/remediation-locks" else dir

module _ {X : Type 0} where
  abbrev pub started_engine : EngineConfig → Disk X → Ledger → Controller → Engine X × State X
  started_engine cfg disk ledger damping = (
    record {
      configured_lock_dir = codes cfg.lock_dir;
      lock_dir = codes (coordinator_dir cfg.lock_dir);
      runbooks = [];
    },
    record {
      world = disk.world;
      kernel = disk.kernel;
      ledger = ledger;
      journal = disk.journal;
      damping = damping;
    },
  )

  -- `NewEngine`, from the journal on.
  unfoldable pub with_ledger :
      EngineConfig → Disk X → Audit.Result Ledger → (Engine X × State X) ⊎ InitError
  with_ledger cfg disk (err e) = inr (no_ledger e)
  with_ledger cfg disk (ok ledger) =
      if disk.makes_journal_dir
      then (elim (new_controller cfg.damping_state_path disk.damping) [
        | none ↦ inr no_damping
        | some damping ↦ inl (started_engine cfg disk ledger damping)
      ])
      else inr no_journal_dir

  -- `NewEngine`; the function is the length of an entry's JSON.
  unfoldable pub new_engine :
      Texts → (AuditEntry → ℕ) → EngineConfig → Disk X → (Engine X × State X) ⊎ InitError
  new_engine texts line_size cfg disk =
      if disk.makes_lock_dir
      then with_ledger cfg disk
          (new_ledger line_size texts.sha256 (codes cfg.host_uuid) disk.ledger)
      else inr no_lock_dir

  -- The loop by which the commands register the catalog; no runbook of it is refused.
  unfoldable pub register_runbooks : List (Runbook X) → Engine X → Engine X
  register_runbooks [] e = e
  register_runbooks (rb ∷ rbs) e = register_runbooks rbs (register_runbook (some rb) e).0
