-- ===== src/Host.antt =====
-- The host that runbooks act on: its files, by name, and all else (the clock too) as a parameter
-- `X`. What the operating system answers is read off the state of the host. The closures of
-- internal/model/model.go get the target resource that the context carries
-- (`TargetResourceContextKey`). An error from outside is its message.
pub mod Toy
use autonomous_remediation_e.Prelude.{ℕ, Bool, String, List, Option, ◌⊎◌}
use autonomous_remediation_e.Prelude.Assoc.{Assoc}

pub record World (X : Type 0) : Type 0 where
  pub files : Assoc String
  pub rest : X

-- How far copying a file got before it failed.
pub data CopyOutcome : Type 0 where
  copied : CopyOutcome
  copy_failed : String → CopyOutcome
  sync_failed : CopyOutcome

-- What `kill(pid, 0)` answers.
pub data Probe : Type 0 where
  running not_permitted no_process : Probe

-- An exit code; a process that a signal ended has -1.
pub data ExitCode : Type 0 where
  code : ℕ → ExitCode
  no_code : ExitCode

-- How a command ended: well, with an exit code, or without having been started properly.
pub data RunOutcome : Type 0 where
  finished : RunOutcome
  exit_error : ExitCode → RunOutcome
  run_error : String → RunOutcome

-- What a command wrote, how it ended, and whether there was a process.
pub record CommandRun : Type 0 where
  pub stdout : String
  pub stderr : String
  pub outcome : RunOutcome
  pub started : Bool

-- The user and group that a command is run as, where they are not the engine's own.
pub record Credential : Type 0 where
  pub uid : ℕ
  pub gid : ℕ

-- The calls into the operating system.
pub record System (X : Type 0) : Type 0 where
  pub can_read : World X → String → Bool
  pub can_write : World X → String → Bool
  pub copy : World X → String → String → CopyOutcome
  -- `exec.CommandContext(…).CombinedOutput()`: a compensating command, run to its end or to its
  -- deadline.
  pub command : String → List String → World X → World X × Option String
  -- A command in a process group of its own, with a deadline.
  pub run : String → List String → Option Credential → ℕ → World X → World X × CommandRun
  pub kill_group : World X → World X
  pub getuid : World X → ℕ
  pub probe : World X → ℕ → Probe
  pub signal : ℕ → ℕ → World X → World X × Option String
  -- `statfs`: the available and the total blocks.
  pub statfs : World X → String → (ℕ × ℕ) ⊎ String
  -- Whether these available blocks, of these total blocks, are at least this percentage, in the
  -- arithmetic of float64.
  pub meets : ℕ → ℕ → ℕ → Bool
  pub exists : World X → String → Bool
  -- A GET with a timeout: the status code, or an error.
  pub http_get : String → ℕ → World X → World X × (ℕ ⊎ String)
  -- The time between two states, and whether a deadline that far after the first state, or the
  -- caller's own deadline, has passed in the second.
  pub elapsed : World X → World X → ℕ
  pub expired : ℕ → World X → World X → Bool
