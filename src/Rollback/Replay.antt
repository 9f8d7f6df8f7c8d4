-- ===== src/Rollback/Replay.antt =====
-- `ExecuteRollback` of internal/rollback/rollback.go: the compensating steps run from the last to
-- the first, and the journal follows.
use autonomous_remediation_e.Prelude.{
  ℕ, zero, suc, String, List, Option, none, some, length, get_elem?,
}
use autonomous_remediation_e.Prelude.Assoc.{Assoc}
use autonomous_remediation_e.Host.{World, System}
use autonomous_remediation_e.Rollback.{
  RollbackStep, WalRecord, WalFile, WalState, rolling_back, rolled_back, failed, WalWrite,
  RollbackError, update_state, execute_single_step,
}

-- The two times at which the journal is updated, and how its writes end.
pub record RollbackReadings : Type 0 where
  pub begun : ℕ
  pub begun_write : WalWrite
  pub ended : ℕ
  pub ended_write : WalWrite

abbrev pub outcome_state : Option RollbackError → WalState
outcome_state none = rolled_back
outcome_state (some e) = failed

module _ {X : Type 0} (os : System X) (target : String) where
  -- The loop, with `n` steps still to go: the next is `steps[n - 1]`.
  unfoldable pub replay : ℕ → List (RollbackStep X) → World X → World X × Option RollbackError
  replay zero steps w = (w, none)
  replay (suc i) steps w = elim (get_elem? steps i) [
    | none ↦ (w, none)
    | some step ↦
        let (w', error) = execute_single_step os target step w in
        elim error [
          | none ↦ replay i steps w'
          | some e ↦ (w', some (record { index = i; step_name = step.name; cause = e }))
        ]
  ]

  -- `ExecuteRollback` over a journal that is not nil. The errors of the journal are dropped.
  unfoldable pub execute_rollback :
      RollbackReadings
      → Option (WalRecord X)
      → World X
      → Assoc (WalFile X)
      → World X × Assoc (WalFile X) × Option RollbackError
  execute_rollback rs none w j = (w, j, none)
  execute_rollback rs (some r) w j =
      let (j', _) = update_state rs.begun_write rs.begun r.tx_id rolling_back j in
      let (w', e) = replay (length r.steps) r.steps w in
      let (j'', _) = update_state rs.ended_write rs.ended r.tx_id (outcome_state e) j' in
      (w', j'', e)
