-- ===== src/Rollback/Pending.antt =====
-- What the journal of internal/rollback/journal.go holds after `Stage`, `UpdateState` and
-- `ExecuteRollback`, as `Read` finds it.
use autonomous_remediation_e.Prelude.{
  ℕ, subst, ◌≡◌, refl, ◌∙◌, ap, String, List, [], ◌∷◌, Option, none, some, map, if◌then◌else◌,
  str_eq, str_eq_iff, length, Bool-cases, inl, inr, ◌⊎◌,
}
use autonomous_remediation_e.Prelude.Assoc.{Assoc, insert, lookup-insert}
use autonomous_remediation_e.Host.{World, System}
use autonomous_remediation_e.Rollback.{
  RollbackStep, WalRecord, WalFile, corrupt, saved, WalState, WalWrite, JournalError, corrupted_wal,
  not_opened, not_written, not_synced, unopened, cut_off, unsynced, synced, persisted,
  persisted_step, staged, read, stage, write_and_sync, update_state, rolling_back,
}
use autonomous_remediation_e.Rollback.Replay.{
  RollbackReadings, replay, outcome_state, execute_rollback,
}

-- Readings in which both writes of the journal succeed.
abbrev pub on_disk : ℕ → ℕ → RollbackReadings
on_disk begun ended = record {
  begun = begun;
  begun_write = synced;
  ended = ended;
  ended_write = synced;
}

module _ {X : Type 0} where
  -- What `Read` makes of a file.
  abbrev pub answer : WalFile X → Option (WalRecord X) × Option JournalError
  answer corrupt = (none, some corrupted_wal)
  answer (saved r) = (some r, none)

  pub read-insert :
      (tx k : String) (f : WalFile X) (j : Assoc (WalFile X))
      → read k (insert tx f j) ≡ (if str_eq tx k then answer f else read k j)
  unfolding read
  read-insert tx k f j = elim (Bool-cases (str_eq tx k)) [
    | inl same ↦
        rw (lookup-insert tx k f j, same, read) (elim f [ corrupt ↦ refl | saved r ↦ refl ])
    | inr apart ↦ rw (lookup-insert tx k f j, apart, read) refl
  ]

  update_state-written :
      (ending : WalWrite) (now : ℕ) (s : WalState) (tx : String) (r : WalRecord X)
      (j : Assoc (WalFile X))
      → read tx j ≡ (some r, none)
      → update_state ending now tx s j
        ≡ write_and_sync ending (record r { state = s; updated_at = now }) j
  unfolding update_state
  update_state-written ending now s tx r j e = rw (e, update_state) refl

  -- A `Stage` returns an error, or it returns the new record and `Read` finds it for its
  -- transaction, PREPARED and with every step but its compensating functions. What is read for
  -- every other transaction stays the same then.
  pub stage-read :
      (ending : WalWrite) (now : ℕ) (tx runbook resource k : String) (steps : List (RollbackStep X))
      (j : Assoc (WalFile X))
      → let r = staged now tx runbook resource steps in
        let (j', outcome) = stage ending now tx runbook resource steps j in
        (outcome ≡ inl r)
          × (read k j' ≡ (if str_eq tx k then (some (persisted r), none) else read k j))
        ⊎ (e : JournalError) × (outcome ≡ inr e)
  unfolding stage write_and_sync
  stage-read unopened now tx runbook resource k steps j = inr (not_opened, refl)
  stage-read cut_off now tx runbook resource k steps j = inr (not_written, refl)
  stage-read unsynced now tx runbook resource k steps j = inr (not_synced, refl)
  stage-read synced now tx runbook resource k steps j =
      inl (refl, read-insert tx k (saved (persisted (staged now tx runbook resource steps))) j)

  update_state-read :
      (now : ℕ) (s : WalState) (r : WalRecord X) (j : Assoc (WalFile X)) (k : String)
      → read r.tx_id j ≡ (some r, none)
      → read k (update_state synced now r.tx_id s j).0 ≡ (
          if str_eq r.tx_id k
          then (some (persisted (record r { state = s; updated_at = now })), none)
          else read k j)
  unfolding write_and_sync
  update_state-read now s r j k e =
      rw (update_state-written synced now s r.tx_id r j e)
        (read-insert r.tx_id k (saved (persisted (record r { state = s; updated_at = now }))) j)

  -- An update of the state that is cut off leaves a file that cannot be read: the record and its
  -- compensating steps are gone, whatever they were.
  pub update_state-cut_off :
      (now : ℕ) (s : WalState) (r : WalRecord X) (j : Assoc (WalFile X))
      → read r.tx_id j ≡ (some r, none)
      → read r.tx_id (update_state cut_off now r.tx_id s j).0 ≡ (none, some corrupted_wal)
  unfolding write_and_sync
  update_state-cut_off now s r j e =
      rw (update_state-written cut_off now s r.tx_id r j e)
        (rw (read-insert r.tx_id r.tx_id corrupt j, (str_eq_iff r.tx_id r.tx_id).1 refl) refl)

  persisted_steps :
      (steps : List (RollbackStep X))
      → map persisted_step (map persisted_step steps) ≡ map persisted_step steps
  persisted_steps [] = refl
  persisted_steps (s ∷ ss) = ap (λ x. persisted_step s ∷ x) (persisted_steps ss)

  pub update_state-on_disk :
      (now : ℕ) (s : WalState) (r : WalRecord X) (j : Assoc (WalFile X)) (k : String)
      → read r.tx_id j ≡ (some (persisted r), none)
      → read k (update_state synced now r.tx_id s j).0 ≡ (
          if str_eq r.tx_id k
          then (some (persisted (record r { state = s; updated_at = now })), none)
          else read k j)
  update_state-on_disk now s r j k e =
      subst
        (λ x. read k (update_state synced now r.tx_id s j).0 ≡ (
          if str_eq r.tx_id k
          then (some (record r { state = s; updated_at = now; steps = x }), none)
          else read k j))
        (persisted_steps r.steps) (update_state-read now s (persisted r) j k e)

  -- A rollback of a record that is on disk, with journal writes that succeed, leaves it on disk
  -- with its steps, ROLLED_BACK where no step failed and FAILED where one did: it is not pending
  -- any more. The files of other transactions stay as they were.
  pub execute_rollback-read :
      (os : System X) (target : String) (begun ended : ℕ) (r : WalRecord X) (w : World X)
      (j : Assoc (WalFile X)) (k : String)
      → read r.tx_id j ≡ (some (persisted r), none)
      → let (w', j', e) = execute_rollback os target (on_disk begun ended) (some r) w j in
        read k j' ≡ (
          if str_eq r.tx_id k
          then (some (persisted (record r { state = outcome_state e; updated_at = ended })), none)
          else read k j)
  unfolding execute_rollback
  execute_rollback-read os target begun ended r w j k e =
      let r1 = record r { state = rolling_back; updated_at = begun } in
      let first = update_state-on_disk begun rolling_back r j in
      let s = outcome_state (replay os target (length r.steps) r.steps w).1 in
      let found = first r.tx_id e ∙ rw ((str_eq_iff r.tx_id r.tx_id).1 refl) refl in
      let second =
        update_state-on_disk ended s r1 (update_state synced begun r.tx_id rolling_back j).0 k
          found in
      elim (Bool-cases (str_eq r.tx_id k)) [
        | inl same ↦ second ∙ rw same refl
        | inr apart ↦ second ∙ rw apart (first k e ∙ rw apart refl)
      ]
