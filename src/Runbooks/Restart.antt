-- ===== src/Runbooks/Restart.antt =====
-- `NewServiceHangRecoveryRunbook` of internal/runbooks/runbooks.go, RBK-PROC-001: a service that hangs
-- is terminated, by force if need be, and started again. The variable `activePID` is the first part
-- of the rest of the host; a process or a duration that is not positive is 0.
pub mod Waiting
pub mod Hang
pub mod Book
use autonomous_remediation_e.Prelude.{
  ℕ, zero, suc, ◌+◌, ◌-◌, ◌/◌, Bool, true, false, ◌||◌, ◌&&◌, not, String, List, [], ◌∷◌, Option,
  none, some, codes, str_eq, str_append, leb, ltb, ◌==◌, if◌then◌else◌, inl, inr, ◌⊎◌,
}
use autonomous_remediation_e.Prelude.Strings.{trim_space, atoi, or_no_pid}
use autonomous_remediation_e.Host.{World, Probe, running, not_permitted, no_process, System}
use autonomous_remediation_e.Executor.{ExecutionResult, empty_result}
use autonomous_remediation_e.Runbooks.Files.{Platform, read_file, write_file}

abbrev pub Site : Type 0 → Type 0
Site Y = World (ℕ × Y)

pub record ServiceHangConfig (Y : Type 0) : Type 0 where
  pub service_name : String
  pub target_pid : ℕ
  pub pid_file_path : String
  pub port : ℕ
  pub health_url : String
  pub start_cmd : String
  pub start_args : List String
  pub spawn_fn : Option (Site Y → Site Y × (ℕ ⊎ String))
  pub term_timeout : ℕ
  pub kill_timeout : ℕ
  pub execution_timeout : ℕ

pub data Trouble : Type 0 where
  not_running : ℕ → Trouble
  healthy : Trouble
  spawn_failed : String → Trouble
  replacement_dead : ℕ → Trouble
  port_closed : ℕ → Trouble
  health_failed : Trouble
  -- The waiting loop of the model ran out of fuel.
  out_of_fuel : Trouble

-- What the runbook takes from outside: the start of a command, `strconv.Itoa`, and the texts that fmt
-- makes, the Python program of the server that stands in for the service among them.
pub record Library (Y : Type 0) : Type 0 where
  pub start : String → List String → Site Y → Site Y × (ℕ ⊎ String)
  pub py_script : ℕ → String
  pub itoa : ℕ → String
  pub describe : Trouble → String
  pub report : ℕ → String

module _ {Y : Type 0} where
  unfoldable pub default_service_hang_config : ServiceHangConfig Y
  default_service_hang_config = record {
    service_name = "ai-gateway";
    target_pid = 0;
    pid_file_path = "/var/run/ai-gateway.pid";
    port = 8080;
    health_url = "http://127.0.0.1:8080/healthz";
    start_cmd = "/usr/local/bin/ai-gateway";
    start_args = "--config=/etc/ai-gateway/config.yaml" ∷ [];
    spawn_fn = none;
    term_timeout = 5000000000;
    kill_timeout = 2000000000;
    execution_timeout = 15000000000;
  }

  abbrev pub with_pid : ℕ → Site Y → Site Y
  with_pid pid w = record w { rest = (pid, w.rest.1) }

-- `err != nil && !errors.Is(err, syscall.EPERM)` of a signal 0, and `err == nil`.
abbrev pub is_gone : Probe → Bool
is_gone no_process = true
is_gone _ = false

abbrev pub is_running : Probe → Bool
is_running running = true
is_running _ = false

-- 50 milliseconds.
abbrev pub pause : ℕ
pause = 50000000

module _ {Y : Type 0} (os : System (ℕ × Y)) (p : Platform (ℕ × Y)) where
  -- The loop that waits for the end of a process until a time has passed since the first state:
  -- whether it has ended. On fuel; `none` says that the fuel ran out.
  unfoldable pub wait_gone : ℕ → ℕ → ℕ → Site Y → Site Y → Option (Site Y × Bool)
  wait_gone zero timeout pid start w = none
  wait_gone (suc fuel) timeout pid start w =
      let again = wait_gone fuel timeout pid start (p.sleep pause w) in
      if ltb (os.elapsed start w) timeout
      then (if is_gone (os.probe w pid) then some (w, true) else again)
      else some (w, false)

  -- As many rounds as pauses fit in the time, and two.
  unfoldable pub wait_until : ℕ → ℕ → Site Y → Option (Site Y × Bool)
  wait_until timeout pid w = wait_gone (timeout / pause + 2) timeout pid w w

  unfoldable pub after_kill : Option (Site Y × Bool) → Option (Site Y)
  after_kill none = none
  after_kill (some (w, terminated)) = some w

  -- SIGKILL, where SIGTERM was not enough.
  unfoldable pub after_term : ℕ → ℕ → Option (Site Y × Bool) → Option (Site Y)
  after_term kill_timeout pid none = none
  after_term kill_timeout pid (some (w, true)) = some w
  after_term kill_timeout pid (some (w, false)) =
      after_kill (wait_until kill_timeout pid (os.signal pid 9 w).0)

  -- The escalation ladder; no process, the own one and one that does not answer are left alone.
  unfoldable pub escalate : ℕ → ℕ → Site Y → Option (Site Y)
  escalate term_timeout kill_timeout w =
      let pid = w.rest.0 in
      if not (pid == 0) && not (pid == p.getpid) && is_running (os.probe w pid)
      then after_term kill_timeout pid (wait_until term_timeout pid (os.signal pid 15 w).0)
      else some w

module _ {Y : Type 0} (os : System (ℕ × Y)) (p : Platform (ℕ × Y)) (lib : Library Y)
    (cfg : ServiceHangConfig Y) where
  abbrev pub Checked : Type 0
  Checked = Site Y × Bool × Option String

  abbrev fail : Site Y → Trouble → Checked
  fail w t = (w, false, some (lib.describe t))

  abbrev or_read : Option String → Option String → Option String
  or_read none other = other
  or_read (some s) other = some s

  -- The file with the process, at one of two places.
  unfoldable pub pid_file : Site Y → Option String
  pid_file w =
      let path =
        if str_eq cfg.pid_file_path ""
        then str_append "/var/run/" (str_append cfg.service_name ".pid")
        else cfg.pid_file_path in
      or_read (read_file os path w)
        (read_file os (str_append "/tmp/" (str_append cfg.service_name ".pid")) w)

  unfoldable pub stored : Option String → Site Y → Site Y
  stored none w = w
  stored (some content) w =
      let pid = or_no_pid (atoi (trim_space (codes content))) in
      if pid == 0 then w else with_pid pid w

  -- The answer of the health endpoint counts only where no process is known.
  unfoldable pub judged : ℕ → Site Y × (ℕ ⊎ String) → Checked
  judged pid (w, inr e) = (w, true, none)
  judged pid (w, inl status) =
      if (status == 200) && (pid == 0) then fail w healthy else (w, true, none)

  unfoldable pub probed : Site Y → Checked
  probed w = judged w.rest.0 (os.http_get cfg.health_url 1000000000 w)

  -- A process that is known: the own one and one that is gone are forgotten, but a fixed one must run.
  unfoldable pub examined : Site Y → Checked
  examined w =
      let pid = w.rest.0 in
      if pid == 0
      then probed w
      else if pid == p.getpid
      then probed (with_pid 0 w)
      else if is_gone (os.probe w pid)
      then (if cfg.target_pid == 0 then probed (with_pid 0 w) else fail w (not_running pid))
      else probed w

  -- The precondition.
  unfoldable pub check_hang : String → Site Y → Checked
  check_hang target w = examined (stored (pid_file w) w)

  abbrev pub Mutated : Type 0
  Mutated = Site Y × Option ExecutionResult × Option String

  -- `startMockHealthServer`: 0 where the server cannot be started.
  abbrev or_none : Site Y × (ℕ ⊎ String) → Site Y × (ℕ ⊎ String)
  or_none (w, inl pid) = (w, inl pid)
  or_none (w, inr e) = (w, inl 0)

  unfoldable pub start_mock_health_server : ℕ → Site Y → Site Y × (ℕ ⊎ String)
  start_mock_health_server port w =
      let script = lib.py_script (if port == 0 then 8080 else port) in
      or_none (lib.start "python3" ("-c" ∷ script ∷ []) w)

  -- The replacement, by the function, the command or the server that stands in for the service.
  unfoldable pub spawn : Option (Site Y → Site Y × (ℕ ⊎ String)) → Site Y → Site Y × (ℕ ⊎ String)
  spawn (some f) w = f w
  spawn none w =
      if str_eq cfg.start_cmd ""
      then (w, inl 0)
      else if p.is_file w cfg.start_cmd
      then lib.start cfg.start_cmd cfg.start_args w
      else start_mock_health_server cfg.port w

  -- The new process is remembered, and written to the file if there is one.
  unfoldable pub remembered : ℕ → Site Y → Site Y
  remembered pid w =
      if pid == 0
      then w
      else if str_eq cfg.pid_file_path ""
      then with_pid pid w
      else (write_file os cfg.pid_file_path (lib.itoa pid) (with_pid pid w)).0

  unfoldable pub spawned : Site Y × (ℕ ⊎ String) → Mutated
  spawned (w, inr e) = (w, none, some (lib.describe (spawn_failed e)))
  spawned (w, inl pid) = (
    remembered pid w,
    some (record empty_result { success = true; stdout = lib.report pid }),
    none,
  )

  unfoldable pub escalated : Site Y → Option (Site Y) → Mutated
  escalated w none = (w, none, some (lib.describe out_of_fuel))
  escalated w (some w') = spawned (spawn cfg.spawn_fn w')

  -- The action.
  unfoldable pub restart : String → ℕ → Site Y → Mutated
  restart target timeout w = escalated w (escalate os p cfg.term_timeout cfg.kill_timeout w)

  -- At most this many attempts to reach the port.
  unfoldable pub wait_port : ℕ → Site Y → Site Y × Bool
  wait_port zero w = (w, false)
  wait_port (suc n) w =
      let (w', open_port) = p.dial (str_append "127.0.0.1:" (lib.itoa cfg.port)) 100000000 w in
      let again = wait_port n (p.sleep 100000000 w') in if open_port then (w', true) else again

  -- At most this many requests to the health endpoint.
  unfoldable pub wait_healthy : ℕ → Site Y → Site Y × Bool
  wait_healthy zero w = (w, false)
  wait_healthy (suc n) w =
      let (w', response) = os.http_get cfg.health_url 1000000000 w in
      let again = wait_healthy n (p.sleep 100000000 w') in
      elim response [ inl status ↦ if status == 200 then (w', true) else again | inr e ↦ again ]

  unfoldable pub health_verdict : Site Y × Bool → Checked
  health_verdict (w, true) = (w, true, none)
  health_verdict (w, false) = fail w health_failed

  unfoldable pub port_verdict : Site Y × Bool → Checked
  port_verdict (w, true) = health_verdict (wait_healthy 20 w)
  port_verdict (w, false) = fail w (port_closed cfg.port)

  -- The postcondition; without a process there is nothing to check.
  unfoldable pub check_replaced : String → Site Y → Checked
  check_replaced target w =
      let pid = w.rest.0 in
      if pid == 0
      then (w, true, none)
      else if is_gone (os.probe w pid)
      then fail w (replacement_dead pid)
      else port_verdict (wait_port 30 w)
