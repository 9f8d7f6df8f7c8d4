-- ===== src/Rollback/Tests.antt =====
-- Runs of internal/rollback on a small host.
use autonomous_remediation_e.Prelude.{ℕ, ◌≡◌, refl, [], ◌∷◌, none, some, str_eq, if◌then◌else◌}
use autonomous_remediation_e.Prelude.Assoc.{Assoc, lookup, insert}
use autonomous_remediation_e.Host.{World}
use autonomous_remediation_e.Host.Toy.{toy, two_files}
use autonomous_remediation_e.Rollback.{
  RollbackStep, WalRecord, WalFile, saved, rolling_back, rolled_back, synced, persisted, staged,
  read, update_state, restore_file, execute_single_step,
}
use autonomous_remediation_e.Rollback.Replay.{outcome_state, execute_rollback}
use autonomous_remediation_e.Rollback.Pending.{on_disk, execute_rollback-read}
use autonomous_remediation_e.Rollback.Undo.{perform, execute_rollback-perform}

abbrev restoring : RollbackStep ℕ
restoring = record {
  name = "restore";
  binary = "";
  args = [];
  target_path = "/a";
  staged_backup_path = "/a.bak";
  compensating_fn = none;
}

abbrev transaction : WalRecord ℕ
transaction = staged 5 "tx" "RBK-CFG-001" "/a" (restoring ∷ [])

abbrev overwrite : World ℕ → World ℕ
overwrite w = record w { files = insert "/a" "new" w.files }

abbrev journal : Assoc (WalFile ℕ)
journal = ("tx", saved (persisted transaction)) ∷ []

execute_rollback-perform_example :
    let w = perform toy "/a" (overwrite ∷ []) two_files in
    let j' = (update_state synced 6 "tx" rolling_back journal).0 in
    let j'' = (update_state synced 7 "tx" rolled_back j').0 in
    execute_rollback toy "/a" (on_disk 6 7) (some transaction) w journal ≡ (two_files, j'', none)
unfolding execute_single_step restore_file lookup insert
execute_rollback-perform_example =
    execute_rollback-perform toy "/a" (on_disk 6 7) (overwrite ∷ []) transaction two_files journal
      (refl, tt)

execute_rollback-read_example :
    let (w', j', e) =
      execute_rollback toy "/a" (on_disk 6 7) (some transaction) two_files journal in
    read "tx" j' ≡ (
      if str_eq "tx" "tx"
      then (some (persisted (record transaction { state = outcome_state e; updated_at = 7 })), none)
      else read "tx" journal)
unfolding read lookup
execute_rollback-read_example =
    execute_rollback-read toy "/a" 6 7 transaction two_files journal "tx" refl
