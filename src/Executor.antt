-- ===== src/Executor.antt =====
-- internal/executor/executor.go: one action, with its deadline and the clamps of the blast radius
-- (internal/model/model.go). A duration, a process id or a limit that is not positive is 0.
pub mod Bounds
mod Tests
use autonomous_remediation_e.Prelude.{
  ℕ, zero, suc, Bool, true, false, ◌&&◌, ◌||◌, not, String, List, Option, none, some, ltb, ◌==◌,
  str_eq, if◌then◌else◌,
}
use autonomous_remediation_e.Host.{
  World, Probe, running, not_permitted, no_process, ExitCode, code, no_code, RunOutcome, finished,
  exit_error, run_error, CommandRun, Credential, System,
}

pub record BlastRadius : Type 0 where
  pub max_execution_time : ℕ
  pub max_bytes_mutated : ℕ
  pub max_processes_signaled : ℕ
  pub max_files_modified : ℕ
  pub allowed_path_prefixes : List String

pub record ExecutionResult : Type 0 where
  pub exit_code : ExitCode
  pub stdout : String
  pub stderr : String
  pub duration : ℕ
  pub bytes_mutated : ℕ
  pub success : Bool
  pub error : String

-- An absent number is 0, an absent text is empty. A mutation gets the target resource of the
-- context and the time until its deadline.
pub record Action (X : Type 0) : Type 0 where
  pub name : String
  pub binary : String
  pub args : List String
  pub timeout : ℕ
  pub uid : ℕ
  pub gid : ℕ
  pub target_pid : ℕ
  pub signal : ℕ
  pub mutate_fn : Option (String → ℕ → World X → World X × Option ExecutionResult × Option String)

pub data ExecError : Type 0 where
  timed_out : ExecError
  -- The bytes that were mutated, and the limit.
  bytes_exceeded : ℕ → ℕ → ExecError
  mutation_failed : String → ExecError
  signal_prohibited : ExecError
  not_alive : Probe → ExecError
  signal_failed : String → ExecError
  exited : ExitCode → String → ExecError
  spawn_failed : String → ExecError
  invalid_action : ExecError

-- `&ExecutionResult{}`
abbrev pub empty_result : ExecutionResult
empty_result = record {
  exit_code = code 0;
  stdout = "";
  stderr = "";
  duration = 0;
  bytes_mutated = 0;
  success = false;
  error = "";
}

abbrev pub or_empty : Option ExecutionResult → ExecutionResult
or_empty none = empty_result
or_empty (some r) = r

-- `NewExecutor`: 15 seconds, in nanoseconds.
abbrev pub default_timeout : ℕ
default_timeout = 15000000000

abbrev pub with_default : ℕ → ℕ
with_default timeout = if timeout == 0 then default_timeout else timeout

-- The deadline that an action gets.
unfoldable pub effective_timeout : ℕ → BlastRadius → ℕ
effective_timeout timeout clamp =
    if ltb 0 clamp.max_execution_time && ltb clamp.max_execution_time (with_default timeout)
    then clamp.max_execution_time
    else with_default timeout

abbrev pub Executed : Type 0 → Type 0
Executed X = World X × Option ExecutionResult × Option ExecError

module _ {X : Type 0} (os : System X) where
  -- What is made of the outcome of a mutation function that started in `w` and ended in `w'`.
  unfoldable pub mutated :
      ℕ → BlastRadius → World X → World X → Option ExecutionResult → Option String → Executed X
  mutated timeout clamp w w' res err =
      let r = record (or_empty res) { duration = os.elapsed w w' } in
      if os.expired timeout w w'
      then (
        w',
        some (record r { exit_code = code 124; error = "execution deadline exceeded" }),
        some timed_out,
      )
      else if ltb 0 clamp.max_bytes_mutated && ltb clamp.max_bytes_mutated r.bytes_mutated
      then (w', some r, some (bytes_exceeded r.bytes_mutated clamp.max_bytes_mutated))
      else elim err [
        | some message ↦ (
          w',
          some (record r { success = false; error = message }),
          some (mutation_failed message),
        )
        | none ↦ (w', some (record r { success = true }), none)
      ]

  -- The signal to a process, after a probe.
  unfoldable pub signaled : BlastRadius → ℕ → ℕ → World X → Executed X
  signaled clamp pid number w =
      if ltb 0 clamp.max_processes_signaled && ltb clamp.max_processes_signaled 1
      then (w, none, some signal_prohibited)
      else elim (os.probe w pid) [
        | running ↦
            let (w', error) = os.signal pid number w in
            elim error [
              | some message ↦ (
                w',
                some (record empty_result {
                  exit_code = code 1;
                  duration = os.elapsed w w';
                  error = message;
                }),
                some (signal_failed message),
              )
              | none ↦ (
                w',
                some (record empty_result { duration = os.elapsed w w'; success = true }),
                none,
              )
            ]
        | not_permitted ↦ (
          w,
          some (record empty_result {
            exit_code = code 1;
            duration = os.elapsed w w;
            error = "target PID is not running";
          }),
          some (not_alive not_permitted),
        )
        | no_process ↦ (
          w,
          some (record empty_result {
            exit_code = code 1;
            duration = os.elapsed w w;
            error = "target PID is not running";
          }),
          some (not_alive no_process),
        )
      ]

  -- The credential of a command: only root gives up its own.
  unfoldable pub demoted : World X → ℕ → ℕ → Option Credential
  demoted w uid gid =
      if os.getuid w == 0 && (ltb 0 uid || ltb 0 gid)
      then some (record { uid = uid; gid = gid })
      else none

  -- What is made of a command that ended in `w'`.
  unfoldable pub commanded : ℕ → World X → World X → CommandRun → Executed X
  commanded timeout w w' c =
      let r = record empty_result {
        duration = os.elapsed w w';
        stdout = c.stdout;
        stderr = c.stderr;
      } in
      let failed : ExitCode → String → ExecError → Executed X = λ status message e.
        if os.expired timeout w w'
        then (
          (if c.started then os.kill_group w' else w'),
          some (record r { exit_code = code 124; error = "execution timed out" }),
          some timed_out,
        )
        else (w', some (record r { exit_code = status; error = message }), some e) in
      elim c.outcome [
        | finished ↦ (w', some (record r { success = true }), none)
        | exit_error status ↦ failed status c.stderr (exited status c.stderr)
        | run_error message ↦ failed (code 1) message (spawn_failed message)
      ]

  -- `Execute`: a mutation function, else a signal, else a command.
  unfoldable pub execute : String → Action X → BlastRadius → World X → Executed X
  execute target action clamp w =
      let timeout = effective_timeout action.timeout clamp in
      elim action.mutate_fn [
        | some f ↦ let (w', res, err) = f target timeout w in mutated timeout clamp w w' res err
        | none ↦
            if ltb 0 action.target_pid && not (action.signal == 0)
            then signaled clamp action.target_pid action.signal w
            else if not (str_eq action.binary "")
            then (let (w', c) =
                  os.run action.binary action.args (demoted w action.uid action.gid) timeout w in
                commanded timeout w w' c)
            else (w, none, some invalid_action)
      ]
