-- ===== src/Engine/Tests.antt =====
-- Runs of internal/engine/engine.go on a small host: a runbook that overwrites a file.
use autonomous_remediation_e.Prelude.{ℕ, ◌≡◌, refl, true, [], ◌∷◌, some, codes}
use autonomous_remediation_e.Prelude.Assoc.{lookup, insert}
use autonomous_remediation_e.Fsm.{
  transition, is_valid_state, can_transition, contains, valid_transitions, state_eq,
}
use autonomous_remediation_e.Audit.{
  append, new_entry, write_line, compute_record_hash, compute_payload_digest,
}
use autonomous_remediation_e.Damping.{can_execute}
use autonomous_remediation_e.Lock.{
  try_lock, try_lock_path, lock_path_for, lock_filename, sanitized, trim_left, trim_right, hex,
  is_plain, is_held, unlock, drop_lock,
}
use autonomous_remediation_e.Host.Toy.{toy, two_files}
use autonomous_remediation_e.Executor.{
  empty_result, ExecutionResult, execute, mutated, effective_timeout,
}
use autonomous_remediation_e.Verifier.{
  disk_too_full, verify_condition, verify_type, check_file_exists, check_disk_free,
}
use autonomous_remediation_e.Rollback.{
  WalRecord, staged, stage, write_and_sync, update_state, read, execute_single_step, restore_file,
}
use autonomous_remediation_e.Engine.{Failure, postcondition_unmet, postcondition_fail, Runbook}
use autonomous_remediation_e.Engine.Steps.{
  enter, transit, note, run_actions, action_failure, state_text, Run, Call, check_conditions,
}
use autonomous_remediation_e.Engine.Settle.{revert, reverted, attempt}
use autonomous_remediation_e.Engine.Remediate.{
  resolve, lock_runbook, hold, admit, conditioned, stage_runbook, proceed, execute_runbook,
  conclude, match_runbook, remediate, gate_runbook, detected_fsm,
}
use autonomous_remediation_e.Engine.Outcomes.{Told, remediate-Told}
use autonomous_remediation_e.Engine.Locking.{remediate-kernel}
use autonomous_remediation_e.Engine.Admission.{Gated, gate_runbook-Gated}
use autonomous_remediation_e.Engine.Catalog.{get_runbook, named, or_else, canonical}
use autonomous_remediation_e.Engine.Recovery.{Recorded, durable, stage_runbook-Recorded}
use autonomous_remediation_e.Engine.Trail.{Logged, kept, states_in, remediate-Logged}
use autonomous_remediation_e.Engine.Restoration.{execute_runbook-restored}
use autonomous_remediation_e.Rollback.Replay.{execute_rollback, replay}
use autonomous_remediation_e.Engine.Toy.{
  present, restoring, runbook, engine, resting, texts, readings, alert,
}

abbrev call : Call ℕ
call = record { alert = alert; runbook = runbook; readings = readings; texts = texts }

remediate-Told_example : Told (remediate toy texts engine readings (some alert) resting)
remediate-Told_example = remediate-Told toy texts engine readings (some alert) resting

remediate-kernel_example :
    (remediate toy texts engine readings (some alert) resting).0.kernel ≡ record { held = [] }
remediate-kernel_example = remediate-kernel toy texts engine readings (some alert) resting

abbrev evaluated : Run ℕ
evaluated = record { state = resting; fsm = detected_fsm readings }

gate_runbook-Gated_example :
    let (c, refusal) = can_execute readings.gate "/a" resting.damping in
    let (w, unmet) = check_conditions toy "/a" (present ∷ []) two_files in
    Gated toy call refusal unmet w c resting (gate_runbook toy call evaluated)
gate_runbook-Gated_example = gate_runbook-Gated toy call evaluated

-- The disk is not free enough afterwards: the file is restored, and the run ends in ESCALATED.
remediate_rolls_back :
    let (st, r, error) = remediate toy texts engine readings (some alert) resting in
    (r.rolled_back ≡ true) × (st.world ≡ two_files)
unfolding remediate resolve lock_runbook hold gate_runbook admit conditioned stage_runbook proceed
    execute_runbook conclude revert reverted attempt enter transit note run_actions check_conditions
    match_runbook get_runbook named or_else canonical try_lock try_lock_path lock_path_for
    lock_filename sanitized trim_left trim_right hex is_plain is_held unlock drop_lock can_execute
    lookup insert stage write_and_sync update_state read execute_rollback replay execute_single_step
    restore_file action_failure execute mutated effective_timeout verify_condition verify_type
    check_file_exists check_disk_free append new_entry write_line compute_record_hash
    compute_payload_digest state_text transition is_valid_state can_transition contains
    valid_transitions state_eq
remediate_rolls_back = (refl, refl)

abbrev rotation : Runbook ℕ
rotation = record runbook { id = "RBK-TLS-001"; name = "tls_cert_rotation" }

stage_runbook-Recorded_example :
    Recorded toy
      (durable 4 5 call)
      (staged 2 "tx" "RBK-CFG-001" "/a" (restoring ∷ []))
      []
      (stage_runbook toy (durable 4 5 call) evaluated)
stage_runbook-Recorded_example = stage_runbook-Recorded toy 4 5 call evaluated

remediate-Logged_example :
    Logged [] (remediate toy texts engine (kept (λ s. codes "t") readings) (some alert) resting)
unfolding states_in
remediate-Logged_example =
    remediate-Logged toy texts (λ s. codes "t") [] engine readings (some alert) resting refl refl
      refl

abbrev too_full : Failure
too_full = postcondition_unmet "the file is there" (some disk_too_full)

abbrev replaced : ExecutionResult
replaced = record empty_result { duration = 1; success = true }

abbrev transaction : WalRecord ℕ
transaction = staged 2 "tx" "RBK-CFG-001" "/a" (restoring ∷ [])

execute_runbook-restored_example :
    let (st, r, error) = execute_runbook toy call transaction evaluated in
    (st.world ≡ two_files) × (error ≡ some (postcondition_fail too_full)) × (r.rolled_back ≡ true)
unfolding attempt run_actions check_conditions action_failure execute mutated effective_timeout
    verify_condition verify_type check_disk_free lookup insert execute_single_step restore_file
execute_runbook-restored_example =
    execute_runbook-restored toy call transaction (some replaced) too_full evaluated
      ((λ w. record w { files = insert "/a" "new" w.files }) ∷ []) refl (refl, tt)
