-- ===== src/Runbooks/Lkg.antt =====
-- `NewConfigRollbackRunbook` of internal/runbooks/runbooks.go, RBK-CFG-001: the active configuration
-- is replaced by the last one that is known to be good. The variable `lkgSHA256` is the first part
-- of the rest of the host.
pub mod Swap
pub mod Committed
use autonomous_remediation_e.Prelude.{
  ℕ, zero, suc, Bool, true, false, ◌||◌, ◌&&◌, not, String, List, [], ◌∷◌, Option, none, some,
  Bytes, codes, str_eq, str_append, ◌==◌, if◌then◌else◌, inl, inr, ◌⊎◌,
}
use autonomous_remediation_e.Host.{World, code, System}
use autonomous_remediation_e.Executor.{ExecutionResult, empty_result}
use autonomous_remediation_e.Engine.{Runbook}
use autonomous_remediation_e.Runbooks.Files.{
  Platform, read_file, write_file, rename, reload, custom_condition, mutation,
}
use autonomous_remediation_e.Runbooks.Syntax.{SyntaxError, validate_config_syntax}

-- A host with the variable of the runbook.
abbrev pub Site : Type 0 → Type 0
Site Y = World (String × Y)

-- `ConfigRollbackConfig`; a duration or a process that is not positive is 0.
pub record ConfigRollbackConfig (Y : Type 0) : Type 0 where
  pub service_name : String
  pub active_config_path : String
  pub lkg_config_path : String
  pub quarantine_dir : String
  pub health_url : String
  pub target_pid : ℕ
  pub pid_file_path : String
  pub restart_fn : Option (Site Y → Site Y × Option String)
  pub execution_timeout : ℕ

-- What goes wrong.
pub data Trouble : Type 0 where
  lkg_unreadable : Trouble
  lkg_invalid : SyntaxError → Trouble
  already_restored : Trouble
  tmp_unwritten rename_failed : Trouble
  restart_failed : String → Trouble
  active_missing sha_mismatch unhealthy : Trouble

-- What the runbook takes from the libraries: SHA-256 in hexadecimal digits, the test for JSON, the
-- length of a text in bytes, and the texts that fmt makes.
pub record Library : Type 0 where
  pub sha256_hex : String → String
  pub is_json : Bytes → Bool
  pub size : String → ℕ
  pub describe : Trouble → String
  pub report : String → String

-- The path for the corrupt configuration, by the text of the nanoseconds, in a clean directory.
abbrev pub quarantine_path : String → String → String
quarantine_path dir nanos =
    str_append dir (str_append "/config-" (str_append nanos ".yaml.corrupt"))

abbrev pub tmp_path : String → String
tmp_path path = str_append path ".lkg.tmp"

module _ {Y : Type 0} where
  abbrev pub with_sha : String → Site Y → Site Y
  with_sha sha w = record w { rest = (sha, w.rest.1) }

  unfoldable pub default_config_rollback_config : ConfigRollbackConfig Y
  default_config_rollback_config = record {
    service_name = "ai-gateway";
    active_config_path = "/etc/ai-gateway/config.yaml";
    lkg_config_path = "/var/lib/autonomous-remediation/lkg/ai-gateway.config.yaml";
    quarantine_dir = "/var/lib/autonomous-remediation/quarantine";
    health_url = "http://127.0.0.1:8080/healthz";
    target_pid = 0;
    pid_file_path = "";
    restart_fn = none;
    execution_timeout = 10000000000;
  }

module _ {Y : Type 0} (os : System (String × Y)) (lib : Library)
    (cfg : ConfigRollbackConfig Y) where
  abbrev Checked : Type 0
  Checked = Site Y × Bool × Option String

  abbrev fail : Site Y → Trouble → Checked
  fail w t = (w, false, some (lib.describe t))

  -- The active configuration beside the good one.
  unfoldable pub diverged : Option String → Site Y → Checked
  diverged none w = (w, true, none)
  diverged (some active) w =
      if str_eq (lib.sha256_hex active) w.rest.0 then fail w already_restored else (w, true, none)

  unfoldable pub validated : Option SyntaxError → String → Site Y → Checked
  validated (some e) lkg w = fail w (lkg_invalid e)
  validated none lkg w =
      let w' = with_sha (lib.sha256_hex lkg) w in
      diverged (read_file os cfg.active_config_path w') w'

  unfoldable pub found_lkg : Option String → Site Y → Checked
  found_lkg none w = fail w lkg_unreadable
  found_lkg (some lkg) w = validated (validate_config_syntax lib.is_json (codes lkg)) lkg w

  -- The precondition.
  unfoldable pub check_lkg : String → Site Y → Checked
  check_lkg target w = found_lkg (read_file os cfg.lkg_config_path w) w

  abbrev Mutated : Type 0
  Mutated = Site Y × Option ExecutionResult × Option String

  abbrev give_up : Site Y → Trouble → Mutated
  give_up w t = (w, none, some (lib.describe t))

  -- A copy of the corrupt configuration, whose failure is ignored.
  unfoldable pub quarantined : String → Option String → Site Y → Site Y
  quarantined nanos none w = w
  quarantined nanos (some active) w =
      (write_file os (quarantine_path cfg.quarantine_dir nanos) active w).0

  unfoldable pub quarantine : String → Site Y → Site Y
  quarantine nanos w =
      if str_eq cfg.quarantine_dir ""
      then w
      else quarantined nanos (read_file os cfg.active_config_path w) w

  unfoldable pub reloaded : String → Site Y × Option String → Mutated
  reloaded lkg (w, some e) = give_up w (restart_failed e)
  reloaded lkg (w, none) = (
    w,
    some (record empty_result {
      success = true;
      bytes_mutated = lib.size lkg;
      stdout = lib.report w.rest.0;
    }),
    none,
  )

  unfoldable pub renamed : String → Site Y × Bool → Mutated
  renamed lkg (w, false) = give_up w rename_failed
  renamed lkg (w, true) = reloaded lkg (reload os cfg.restart_fn cfg.target_pid cfg.pid_file_path w)

  unfoldable pub staged_tmp : String → Site Y × Bool → Mutated
  staged_tmp lkg (w, false) = give_up w tmp_unwritten
  staged_tmp lkg (w, true) =
      renamed lkg (rename os (tmp_path cfg.active_config_path) cfg.active_config_path w)

  unfoldable pub swapped : Option String → Site Y → Mutated
  swapped none w = give_up w lkg_unreadable
  swapped (some lkg) w = staged_tmp lkg (write_file os (tmp_path cfg.active_config_path) lkg w)

  -- The action, at a time.
  unfoldable pub restore_lkg : String → String → ℕ → Site Y → Mutated
  restore_lkg nanos target timeout w =
      let w' = quarantine nanos w in swapped (read_file os cfg.lkg_config_path w') w'

module _ {Y : Type 0} (os : System (String × Y)) (p : Platform (String × Y)) (lib : Library)
    (cfg : ConfigRollbackConfig Y) where
  -- Whether the health endpoint answers 200 in at most this many attempts.
  unfoldable pub poll_health : ℕ → Site Y → Site Y × Bool
  poll_health zero w = (w, false)
  poll_health (suc n) w =
      let (w', response) = os.http_get cfg.health_url 1000000000 w in
      let again = poll_health n (p.sleep 100000000 w') in
      elim response [ inl status ↦ if status == 200 then (w', true) else again | inr e ↦ again ]

  abbrev judged_health : Site Y × Bool → Site Y × Bool × Option String
  judged_health (w, true) = (w, true, none)
  judged_health (w, false) = (w, false, some (lib.describe unhealthy))

  unfoldable pub one_probe : Site Y → Site Y × Bool
  one_probe w =
      let (w', response) = os.http_get cfg.health_url 1000000000 w in
      elim response [ inl status ↦ (w', status == 200) | inr e ↦ (w', false) ]

  -- Only where the port of the gateway listens.
  unfoldable pub if_listening : Site Y × Bool → Site Y × Bool
  if_listening (w, true) = one_probe w
  if_listening (w, false) = (w, true)

  unfoldable pub probe_health : Option (Site Y → Site Y × Option String) → Site Y → Site Y × Bool
  probe_health (some f) w = poll_health 20 w
  probe_health none w =
      if str_eq cfg.health_url ""
      then (w, true)
      else if_listening (p.dial "127.0.0.1:8080" 200000000 w)

  unfoldable pub matched : Option String → Site Y → Site Y × Bool × Option String
  matched none w = (w, false, some (lib.describe active_missing))
  matched (some active) w =
      if str_eq (lib.sha256_hex active) w.rest.0
      then judged_health (probe_health cfg.restart_fn w)
      else (w, false, some (lib.describe sha_mismatch))

  -- The postcondition.
  unfoldable pub check_restored : String → Site Y → Site Y × Bool × Option String
  check_restored target w = matched (read_file os cfg.active_config_path w) w

  -- The runbook; its action reads the time.
  unfoldable pub new_config_rollback_runbook : String → Runbook (String × Y)
  new_config_rollback_runbook nanos =
      let timeout = if cfg.execution_timeout == 0 then 10000000000 else cfg.execution_timeout in
      record {
        id = "RBK-CFG-001";
        name = "config_rollback";
        target_resource_id = if str_eq cfg.service_name "" then "ai-gateway" else cfg.service_name;
        severity = "CRITICAL";
        preconditions =
            custom_condition "lkg-valid-and-active-config-diverged" (check_lkg os lib cfg) ∷ [];
        actions =
            mutation "quarantine-corrupt-and-atomic-restore-lkg" timeout
              (restore_lkg os lib cfg nanos)
            ∷ [];
        postconditions =
            custom_condition "active-sha256-matches-lkg-and-service-healthy" check_restored ∷ [];
        rollback_steps = [];
        blast_radius = record {
          max_execution_time = timeout;
          max_bytes_mutated = 0;
          max_processes_signaled = 0;
          max_files_modified = 1;
          allowed_path_prefixes = [];
        };
      }
