-- ===== src/Engine/Toy.antt =====
-- A small engine for the tests of internal/engine/engine.go and of what calls it: a runbook that
-- overwrites a file.
use autonomous_remediation_e.Prelude.{ℕ, true, false, [], ◌∷◌, none, some, codes}
use autonomous_remediation_e.Prelude.Assoc.{insert}
use autonomous_remediation_e.Audit.{written}
use autonomous_remediation_e.Damping.{StateFile}
use autonomous_remediation_e.Host.Toy.{two_files}
use autonomous_remediation_e.Executor.{Action}
use autonomous_remediation_e.Verifier.{Condition, file_exists, disk_free_pct}
use autonomous_remediation_e.Rollback.{RollbackStep, synced}
use autonomous_remediation_e.Engine.{Alert, Runbook, State, Engine, Readings, Texts}

abbrev pub present : Condition ℕ
present = record {
  name = "the file is there";
  type = file_exists;
  target = "/a";
  min_free_pct = 0;
  expected_status = 0;
  timeout = 0;
  pid = 0;
  check_fn = none;
}

abbrev pub overwriting : Action ℕ
overwriting = record {
  name = "overwrite";
  binary = "";
  args = [];
  timeout = 0;
  uid = 0;
  gid = 0;
  target_pid = 0;
  signal = 0;
  mutate_fn =
      some (λ target timeout w. (record w { files = insert target "new" w.files }, none, none));
}

abbrev pub restoring : RollbackStep ℕ
restoring = record {
  name = "restore";
  binary = "";
  args = [];
  target_path = "/a";
  staged_backup_path = "/a.bak";
  compensating_fn = none;
}

abbrev pub runbook : Runbook ℕ
runbook = record {
  id = "RBK-CFG-001";
  name = "config_rollback";
  target_resource_id = "/a";
  severity = "HIGH";
  preconditions = present ∷ [];
  actions = overwriting ∷ [];
  postconditions = record present { type = disk_free_pct; min_free_pct = 80 } ∷ [];
  rollback_steps = restoring ∷ [];
  blast_radius = record {
    max_execution_time = 0;
    max_bytes_mutated = 0;
    max_processes_signaled = 0;
    max_files_modified = 0;
    allowed_path_prefixes = [];
  };
}

abbrev pub engine : Engine ℕ
engine = record {
  configured_lock_dir = codes "/run/lock";
  lock_dir = codes "/run/lock";
  runbooks = ("RBK-CFG-001", runbook) ∷ [];
}

abbrev pub resting : State ℕ
resting = record {
  world = two_files;
  kernel = record { held = [] };
  ledger = record {
    is_open = true;
    file = record { lines = []; torn = false };
    host_uuid = codes "host";
    last_hash = [];
    next_seq = 0;
  };
  journal = [];
  damping = record { state_path = ""; states = []; file = StateFile.missing };
}

abbrev pub texts : Texts
texts = record {
  sha256 = λ x. 1 ∷ 2 ∷ 3 ∷ 4 ∷ [];
  alert_json = λ a. codes a.id;
  message = λ f. "failure";
  joined = λ a b. b;
  tx_name = λ a b c. b;
}

abbrev pub readings : Readings
readings = record {
  entered = λ s. 1;
  logged = λ s. record { timestamp = codes "t"; outcome = written; synced = true };
  lock = record { directory = true; opened = true; fault = false };
  gate = record { now = 10; trip_now = 10; reset_written = true; trip_written = true };
  nanos = "9";
  staged = 2;
  stage_write = synced;
  committed = 3;
  commit_write = synced;
  rollback = record { begun = 4; begun_write = synced; ended = 5; ended_write = synced };
  recorded = 6;
  record_written = true;
  duration = 7;
}

abbrev pub alert : Alert
alert = record {
  id = "tx";
  fingerprint = "";
  source = "";
  resource_id = "/a";
  severity = "HIGH";
  labels = ("runbook_id", "config_rollback") ∷ [];
  annotations = [];
  received_at = 1;
  hmac_signature = "";
  raw_payload = "";
}
