-- ===== src/Ctl/Tests.antt =====
-- Runs of cmd/remediation-ctl/main.go on a small host, with one runbook that overwrites a file.
use autonomous_remediation_e.Prelude.{
  ℕ, ◌≡◌, ◌⊎◌, refl, ◌+◌, String, str_eq, ltb, if◌then◌else◌, true, false, List, [], ◌∷◌, arith,
  none, some, Bytes, codes,
}
use autonomous_remediation_e.Prelude.Octets.{bytes_eq}
use autonomous_remediation_e.Prelude.Scalars.{of_codes, char_of}
use autonomous_remediation_e.Prelude.Assoc.{lookup, insert}
use autonomous_remediation_e.Fsm.{
  transition, is_valid_state, can_transition, contains, valid_transitions, state_eq,
}
use autonomous_remediation_e.Audit.{
  append, new_entry, write_line, compute_record_hash, compute_payload_digest, new_ledger, scan_tail,
  scanned, genesis_hash,
}
use autonomous_remediation_e.Damping.{
  Reason, count_within, StateFile, Controller, GateReadings, can_execute, new_controller, load,
  default_quarantine_duration, record_execution_at, save_locked, state_of, breach,
}
use autonomous_remediation_e.Lock.{
  try_lock, try_lock_path, lock_path_for, lock_filename, sanitized, trim_left, trim_right, hex,
  is_plain, is_held, unlock, drop_lock,
}
use autonomous_remediation_e.Host.Toy.{toy, two_files}
use autonomous_remediation_e.Executor.{execute, mutated, effective_timeout}
use autonomous_remediation_e.Verifier.{verify_condition, verify_type, check_file_exists}
use autonomous_remediation_e.Rollback.{stage, write_and_sync, update_state, read}
use autonomous_remediation_e.Engine.{Runbook}
use autonomous_remediation_e.Engine.Steps.{
  enter, transit, note, run_actions, action_failure, state_text, check_conditions,
}
use autonomous_remediation_e.Engine.Settle.{attempt, commit}
use autonomous_remediation_e.Engine.Catalog.{
  register_runbook, get_runbook, named, or_else, canonical,
}
use autonomous_remediation_e.Engine.Remediate.{
  resolve, lock_runbook, hold, admit, conditioned, stage_runbook, proceed, execute_runbook,
  conclude, match_runbook, remediate, gate_runbook, manual_alert, run_direct,
}
use autonomous_remediation_e.Engine.Lifecycle.{
  new_engine, with_ledger, coordinator_dir, register_runbooks,
}
use autonomous_remediation_e.Engine.Toy.{present, runbook, texts, readings}
use autonomous_remediation_e.Proposer.{Library, answered}
use autonomous_remediation_e.Ctl.{
  Formats, Installation, circuits, flagged, with_flags, ended_run, node_config, damping_path,
}
use autonomous_remediation_e.Ctl.Flags.{
  Flag, string, got, helped, parse_flags, parse_one, met, assigned, put_flag, find_flag,
  read_argument, dashed_argument, twice_dashed, named_argument, split_value,
}
use autonomous_remediation_e.Ctl.Flags.RoundTrip.{write_settings}
use autonomous_remediation_e.Ctl.Run.{
  RunReadings, run_flags, direct_run, run_parsed, handle_run, opened, with_engine,
}
use autonomous_remediation_e.Ctl.Resolve.{TriageReadings, FileAnswer}
use autonomous_remediation_e.Ctl.Triage.{handle_triage}
use autonomous_remediation_e.Prelude.Strings.{trim_space, trim_back, trim_front, is_space}
use autonomous_remediation_e.Ctl.Spelled.{spelled_all}
use autonomous_remediation_e.Ctl.Arguments.{
  Paths, Question, paths_config, run_values, triage_line, IsAsked, commands-spelled_all,
}
use autonomous_remediation_e.Ctl.Circuits.{damping_flags, handle_damping_status}
use autonomous_remediation_e.Ctl.Probing.{handle_damping_status_trips}
use autonomous_remediation_e.Ctl.Reports.{LedgerAnswer, JournalAnswer}
use autonomous_remediation_e.Ctl.Commands.{CtlReadings, ctl_main}
use autonomous_remediation_e.Ctl.Idle.{has_engine, ctl_main-idle}
use autonomous_remediation_e.Damping.Quarantine.{is_quarantined}
use autonomous_remediation_e.Damping.Gate.{executions_of}
use autonomous_remediation_e.Ctl.Committed.{IsCommitted, handle_run_zero}

abbrev formats : Formats
formats = record {
  number = λ n. "1";
  duration = λ n. "1s";
  date = λ n. "now";
  since = λ n. "1s";
  quoted = λ s. "text";
  column = λ s. s;
  list = λ ss. "[]";
  flag_error = λ e. "flag";
  init_error = λ e. "init";
  engine_error = λ e. "engine";
  verify_error = λ e. "verify";
  propose_error = λ e. "propose";
  load_error = λ f. "load";
  reason = λ r. "reason";
}

abbrev succeeding : Runbook ℕ
succeeding = record runbook { postconditions = present ∷ [] }

abbrev installation : Installation ℕ
installation = record {
  texts = texts;
  formats = formats;
  line_size = λ e. 100;
  environment = record { damping_file = []; nvidia_api_key = []; openai_api_key = codes "sk" };
  disk = λ cfg. record {
    world = two_files;
    kernel = record { held = [] };
    ledger = some (record { lines = []; torn = false });
    journal = [];
    damping = StateFile.missing;
    makes_lock_dir = true;
    makes_journal_dir = true;
  };
  catalog = succeeding ∷ [];
}

abbrev run_readings : RunReadings
run_readings = record { alert_id = "manual-1"; now = 1; remediation = readings }

abbrev run_args : List Bytes
run_args = codes "--runbook=config_rollback" ∷ codes "-target" ∷ codes "/a" ∷ []

runs : (handle_run toy installation run_readings run_args).status ≡ 0
unfolding handle_run run_parsed direct_run opened with_engine flagged with_flags ended_run
    node_config damping_path parse_flags parse_one met assigned put_flag find_flag read_argument
    dashed_argument twice_dashed named_argument split_value of_codes char_of new_engine with_ledger
    coordinator_dir register_runbooks register_runbook new_controller load new_ledger scan_tail
    scanned genesis_hash run_direct manual_alert remediate resolve lock_runbook hold gate_runbook
    admit conditioned stage_runbook proceed execute_runbook conclude commit attempt enter transit
    note run_actions check_conditions match_runbook get_runbook named or_else canonical try_lock
    try_lock_path lock_path_for lock_filename sanitized trim_left trim_right hex is_plain is_held
    unlock drop_lock can_execute lookup insert stage write_and_sync update_state read action_failure
    execute mutated effective_timeout verify_condition verify_type check_file_exists append
    new_entry write_line compute_record_hash compute_payload_digest state_text transition
    is_valid_state can_transition contains valid_transitions state_eq bytes_eq record_execution_at
    save_locked state_of
runs = refl

handle_run_zero_example :
    (parse_flags none run_args run_flags ≡ helped)
    ⊎ IsCommitted toy installation run_readings run_args
        (handle_run toy installation run_readings run_args).left
handle_run_zero_example = handle_run_zero toy installation run_readings run_args runs

-- A model that proposes the runbook for the file.
abbrev library : Library
library = record {
  post = λ endpoint key req. answered 200 (codes "{}");
  valid = λ s. true;
  parse_completion = λ s. some (record {
    choices = record { content = codes "{}"; reasoning_content = [] } ∷ [];
    error = none;
  });
  parse_proposal = λ s. some (record {
    runbook_id = codes "config_rollback";
    runbook_id_alt = [];
    target_resource = codes "/a";
    target_resource_alt = [];
    severity = [];
    diagnosis = [];
    reasoning_content = [];
    reasoning_alt = [];
  });
}

abbrev triage_readings : TriageReadings
triage_readings = record {
  files = λ path. FileAnswer.absent;
  stdin = none;
  alert_id = "ai-triage-1";
  now = 1;
  remediation = readings;
}

abbrev triage_args : List Bytes
triage_args = codes "--incident=the file is wrong" ∷ codes "--execute" ∷ []

abbrev paths : Paths
paths = record {
  audit_log = codes "/l";
  lock_dir = codes "/k";
  journal_dir = codes "/j";
  damping_file = codes "/d";
}

abbrev question : Question
question = record {
  incident = codes "it is down";
  api_key = codes "sk";
  base_url = codes "http://m";
  model = codes "m1";
  live = true;
}

commands-spelled_all_example :
    (handle_run toy installation run_readings (
        write_settings
          (spelled_all (λ s. (false, true)) (run_values true (codes "r") (codes "/a") paths)))
      ≡ with_engine toy installation
          (paths_config paths)
          (direct_run toy installation run_readings (of_codes (codes "r")) (of_codes (codes "/a"))))
    × IsAsked toy installation library [] triage_readings question paths (
        handle_triage toy installation library [] triage_readings
          (write_settings (triage_line false (λ s. (false, true)) question paths)))
unfolding bytes_eq trim_space trim_back trim_front is_space
commands-spelled_all_example =
    commands-spelled_all toy installation library [] (λ s. (false, true)) paths run_readings true
      (codes "r") (codes "/a") triage_readings false question refl refl refl refl refl refl

abbrev gate : GateReadings
gate = record { now = 1000; trip_now = 1000; reset_written = true; trip_written = true }

-- Two executions in the last ten minutes.
abbrev busy : Controller
busy = record {
  state_path = "/d";
  states =
      (
        "/a",
        record {
          resource = "/a";
          executions = 1 ∷ 2 ∷ [];
          tripped = false;
          quarantine_until = 0;
          trip_reason = Reason.empty;
        },
      )
      ∷ [];
  file = StateFile.missing;
}

abbrev busy_file : StateFile
busy_file = StateFile.saved busy.states

abbrev status_args : List Bytes
status_args = codes "--damping-file=/d" ∷ codes "--resource=/a" ∷ []

abbrev status_flags : List Flag
status_flags = string "damping-file" "/d" ∷ string "resource" "/a" ∷ []

status_parses : parse_flags none status_args damping_flags ≡ got status_flags
unfolding parse_flags parse_one met assigned put_flag find_flag read_argument dashed_argument
    twice_dashed named_argument split_value bytes_eq
status_parses = refl

handle_damping_status_trips_example :
    let o = handle_damping_status installation (λ k. gate) (λ s. busy_file) status_args in
    (o.status ≡ 0)
    × (file : StateFile) × (c' : Controller) × ((o.left ≡ circuits file)
        × (new_controller "/d" file ≡ some c')
        × ((j : String) (at : ℕ)
            → is_quarantined at j c' ≡ (
                if str_eq "/a" j
                then ltb at (1000 + default_quarantine_duration)
                else is_quarantined at j (record busy { file = busy_file }))))
unfolding find_flag bytes_eq of_codes char_of new_controller load is_quarantined state_of lookup
    breach executions_of count_within
handle_damping_status_trips_example =
    handle_damping_status_trips installation (λ k. gate) (λ s. busy_file) status_args status_flags
      (record busy { file = busy_file }) status_parses refl refl refl refl refl (λ e. ground arith)

abbrev ctl_readings : CtlReadings ℕ
ctl_readings = record {
  run = run_readings;
  triage = triage_readings;
  verified_at = 1;
  ledgers = λ s. LedgerAnswer.unopened "";
  journals = λ s. JournalAnswer.unread "";
  gates = λ k. gate;
  damping_files = λ s. busy_file;
}

ctl_main-idle_example :
    has_engine (ctl_main toy installation library [] ctl_readings (codes "status" ∷ [])).left
    ≡ false
unfolding bytes_eq
ctl_main-idle_example =
    ctl_main-idle toy installation library [] ctl_readings (codes "status") [] refl refl
