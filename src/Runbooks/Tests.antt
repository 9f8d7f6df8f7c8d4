-- ===== src/Runbooks/Tests.antt =====
-- Runs of the runbooks of internal/runbooks/runbooks.go on a small host.
use autonomous_remediation_e.Prelude.{
  codes, false, ℕ, zero, suc, ◌+◌, ◌*◌, ◌≡◌, ◌≢◌, ◌↔◌, refl, true, String, [], ◌∷◌, none, some,
  str_eq, arith, inl, if◌then◌else◌,
}
use autonomous_remediation_e.Prelude.Assoc.{lookup, insert, erase}
use autonomous_remediation_e.Host.{World}
use autonomous_remediation_e.Runbooks.Files.{
  read_file, write_file, rename, moved, reload, reload_pid,
}
use autonomous_remediation_e.Engine.Catalog.{canonical}
use autonomous_remediation_e.Prelude.Strings.{trim_space, trim_front, trim_back, is_space}
use autonomous_remediation_e.Prelude.Octets.{bytes_eq}
use autonomous_remediation_e.Fsm.{
  transition, is_valid_state, can_transition, contains, valid_transitions, state_eq,
}
use autonomous_remediation_e.Audit.{
  append, new_entry, write_line, compute_record_hash, compute_payload_digest,
}
use autonomous_remediation_e.Damping.{StateFile, can_execute}
use autonomous_remediation_e.Lock.{
  try_lock, try_lock_path, lock_path_for, lock_filename, sanitized, trim_left, trim_right, hex,
  is_plain, is_held, unlock, drop_lock,
}
use autonomous_remediation_e.Executor.{execute, mutated, effective_timeout}
use autonomous_remediation_e.Verifier.{verify_condition}
use autonomous_remediation_e.Rollback.{stage, write_and_sync, update_state}
use autonomous_remediation_e.Engine.{Engine, State}
use autonomous_remediation_e.Engine.Steps.{
  enter, transit, note, run_actions, action_failure, state_text, check_conditions,
}
use autonomous_remediation_e.Engine.Settle.{attempt, commit}
use autonomous_remediation_e.Engine.Remediate.{
  resolve, lock_runbook, hold, admit, conditioned, stage_runbook, proceed, execute_runbook,
  conclude, match_runbook, remediate, gate_runbook,
}
use autonomous_remediation_e.Engine.Catalog.{get_runbook, named, or_else}
use autonomous_remediation_e.Engine.Toy.{texts, readings, alert}
use autonomous_remediation_e.Runbooks.Syntax.{validate_config_syntax}
use autonomous_remediation_e.Runbooks.Lkg.{
  check_restored, matched, probe_health, new_config_rollback_runbook,
}
use autonomous_remediation_e.Runbooks.Lkg.Committed.{Restored, remediate-Restored}
use autonomous_remediation_e.Runbooks.Toy.{local, quiet}
use autonomous_remediation_e.Runbooks.Lkg
use autonomous_remediation_e.Runbooks.Rotation
use autonomous_remediation_e.Runbooks.Restart
use autonomous_remediation_e.Runbooks.Lkg.{
  ConfigRollbackConfig, restore_lkg, quarantine, quarantined, swapped, staged_tmp, renamed,
  reloaded, check_lkg, found_lkg, validated, diverged,
}
use autonomous_remediation_e.Runbooks.Lkg.Swap.{IsSound, Outcome, restore_lkg-Swapped}
use autonomous_remediation_e.Runbooks.Rotation.{
  Vars, TlsRotationConfig, default_tls_rotation_config, resolve_tls_cert_paths, rotate,
  restore_original,
}
use autonomous_remediation_e.Runbooks.Rotation.Modulus.{
  rsa, ecdsa, Fits, verify_cert_and_key_modulus, verify_cert_and_key_modulus-Fits,
}
use autonomous_remediation_e.Runbooks.Rotation.Deployed.{IsWorking}
use autonomous_remediation_e.Runbooks.Rotation.Elsewhere.{restore_original-elsewhere}
use autonomous_remediation_e.Runbooks.Restart.{
  ServiceHangConfig, default_service_hang_config, escalate, pause, check_hang, pid_file, stored,
  spawn, restart, check_replaced, is_gone, wait_gone, wait_until, after_term, after_kill,
}
use autonomous_remediation_e.Runbooks.Restart.Waiting.{SleepsLong, slept, escalate-total}
use autonomous_remediation_e.Runbooks.Restart.Hang.{LetsThrough, check_hang_iff}

-- RBK-CFG-001: the configuration "bad" is replaced by "good", and kept in the quarantine.
abbrev config_files : World (String × ℕ)
config_files = record { files = ("/c", "bad") ∷ ("/lkg", "good") ∷ []; rest = ("", 0) }

abbrev lkg_settings : ConfigRollbackConfig ℕ
lkg_settings = record {
  service_name = "ai-gateway";
  active_config_path = "/c";
  lkg_config_path = "/lkg";
  quarantine_dir = "/q";
  health_url = "";
  target_pid = 0;
  pid_file_path = "";
  restart_fn = none;
  execution_timeout = 1;
}

abbrev lkg_library : Lkg.Library
lkg_library = record {
  sha256_hex = λ s. s;
  is_json = λ b. true;
  size = λ s. 4;
  describe = λ t. "trouble";
  report = λ s. s;
}

restores :
    let (w, r, e) = restore_lkg local lkg_library lkg_settings "1" "" 1 config_files in
    (lookup "/c" w.files ≡ some "good")
    × (lookup "/q/config-1.yaml.corrupt" w.files ≡ some "bad")
    × (e ≡ none)
unfolding restore_lkg quarantine quarantined swapped staged_tmp renamed reloaded read_file
    write_file rename moved reload reload_pid lookup insert erase
restores = (refl, refl, refl)

settings-IsSound : IsSound local lkg_library lkg_settings "1"
unfolding reload reload_pid
settings-IsSound = record { apart = λ e. cc e; kept_good = λ e. cc e; reload_keeps = λ w. refl }

restore_lkg-Swapped_example :
    Outcome local lkg_library lkg_settings
      (some "bad")
      "good"
      (restore_lkg local lkg_library lkg_settings "1" "" 1 config_files)
unfolding lookup
restore_lkg-Swapped_example =
    restore_lkg-Swapped local lkg_library lkg_settings "1" "" "good" 1 config_files settings-IsSound
      refl

-- The same on the engine.
abbrev gateway : Engine (String × ℕ)
gateway = record {
  configured_lock_dir = codes "/run/lock";
  lock_dir = codes "/run/lock";
  runbooks =
      ("RBK-CFG-001", new_config_rollback_runbook local quiet lkg_library lkg_settings "1") ∷ [];
}

abbrev corrupted : State (String × ℕ)
corrupted = record {
  world = config_files;
  kernel = record { held = [] };
  ledger = record {
    is_open = true;
    file = record { lines = []; torn = false };
    host_uuid = codes "host";
    last_hash = [];
    next_seq = 0;
  };
  journal = [];
  damping = record { state_path = ""; states = []; file = StateFile.missing };
}

remediate-Restored_example :
    Restored local quiet lkg_library lkg_settings corrupted
      (remediate local texts gateway readings (some alert) corrupted).0
unfolding remediate resolve lock_runbook hold gate_runbook admit conditioned stage_runbook proceed
    execute_runbook conclude commit attempt enter transit note run_actions check_conditions
    match_runbook get_runbook named or_else canonical try_lock try_lock_path lock_path_for
    lock_filename sanitized trim_left trim_right hex is_plain is_held unlock drop_lock can_execute
    lookup insert erase stage write_and_sync update_state action_failure execute mutated
    effective_timeout verify_condition append new_entry write_line compute_record_hash
    compute_payload_digest state_text transition is_valid_state can_transition contains
    valid_transitions state_eq new_config_rollback_runbook check_lkg found_lkg validated diverged
    validate_config_syntax trim_space trim_front trim_back is_space bytes_eq restore_lkg quarantine
    quarantined swapped staged_tmp renamed reloaded read_file write_file rename moved reload
    reload_pid check_restored matched probe_health
remediate-Restored_example =
    remediate-Restored local quiet lkg_library lkg_settings "1" texts gateway readings alert
      corrupted settings-IsSound
      (record {
        gets = λ url timeout w. refl;
        dials = λ address timeout w. refl;
        sleeps = λ time w. refl;
      })
      refl refl

-- RBK-TLS-001: the rotation for ai-gateway, and a certificate with its key.
abbrev rotation_library : Rotation.Library ℕ
rotation_library = record {
  crypto = record {
    pem_decode = λ s. some s;
    parse_certificate = λ s. some (record { serial = s; not_after = 1; public_key = rsa 15 65537 });
    parse_pkcs1 = λ s. if str_eq s "rsa" then some (rsa 15 3) else none;
    parse_pkcs8 = λ s. none;
    parse_ec = λ s. some (ecdsa "P-256" 1 2);
  };
  lower = λ s. s;
  size = λ s. 4;
  handshake = λ address w. (w, inl none);
  describe = λ t. "trouble";
  report = λ s. s;
}

abbrev tls_files : World (Vars × ℕ)
tls_files = record {
  files =
      ("/etc/ssl/certs/ai-gateway.crt", "old")
      ∷ ("/etc/ssl/private/ai-gateway.key", "old key")
      ∷ ("/var/lib/autonomous-remediation/staging/tls.crt", "new")
      ∷ ("/var/lib/autonomous-remediation/staging/tls.key", "new key")
      ∷ [];
  rest = (record { staged_serial = ""; backup_cert_path = ""; backup_key_path = "" }, 0);
}

local-IsWorking : IsWorking {Y = ℕ} local
local-IsWorking = record { reads = λ w path. refl; writes = λ w path. refl }

restore_original-elsewhere_example :
    let cfg : TlsRotationConfig ℕ = default_tls_rotation_config in
    let rotated = (rotate local quiet rotation_library cfg "ai-gateway" 1 tls_files).0 in
    let restored = (restore_original local quiet rotation_library cfg "ai-gateway" rotated).0 in
    (lookup "/etc/ssl/certs/ai-gateway.crt" rotated.files ≡ some "new")
    × (lookup "/etc/ssl/private/ai-gateway.key" rotated.files ≡ some "new key")
    × (lookup "/etc/ssl/certs/ai-gateway.crt" restored.files ≡ some "new")
    × (lookup "/etc/ssl/private/ai-gateway.key" restored.files ≡ some "new key")
unfolding lookup
restore_original-elsewhere_example =
    restore_original-elsewhere local quiet rotation_library "ai-gateway" 1 "new" "new key" tls_files
      local-IsWorking refl refl

verify_cert_and_key_modulus-Fits_example :
    Fits rotation_library.crypto "1f" "rsa"
      (verify_cert_and_key_modulus rotation_library.crypto "1f" "rsa")
verify_cert_and_key_modulus-Fits_example =
    verify_cert_and_key_modulus-Fits rotation_library.crypto "1f" "rsa"

-- RBK-PROC-001 with a clock that only the pauses move.
slept-rest : (n : ℕ) (w : World (ℕ × ℕ)) → (slept local quiet n w).rest.1 ≡ w.rest.1 + n * pause
unfolding slept
slept-rest zero w = omega arith
slept-rest (suc n) w = omega (arith, slept-rest n w)

local-SleepsLong : SleepsLong local quiet
local-SleepsLong n w = ground (arith, slept-rest n w)

abbrev hung : World (ℕ × ℕ)
hung = record { files = []; rest = (7, 0) }

escalate-total_example : escalate local quiet 5000000000 2000000000 hung ≢ none
escalate-total_example = escalate-total local quiet 5000000000 2000000000 hung local-SleepsLong

abbrev restart_library : Restart.Library ℕ
restart_library = record {
  start = λ cmd args w. (w, inl 7);
  py_script = λ port. "";
  itoa = λ n. "7";
  describe = λ t. "trouble";
  report = λ n. "restarted";
}

-- Its process runs, and its health endpoint answers 200.
check_hang_iff_example :
    ((check_hang local quiet restart_library default_service_hang_config "ai-gateway" hung).1
      ≡ true)
    ↔ LetsThrough local quiet restart_library default_service_hang_config hung
unfolding stored pid_file read_file lookup
check_hang_iff_example =
    check_hang_iff local quiet restart_library default_service_hang_config "ai-gateway" hung
