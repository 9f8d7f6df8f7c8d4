-- ===== src/Engine/Recovery.antt =====
-- What the journal says of a call of `Remediate` (internal/engine/engine.go) after it.
use autonomous_remediation_e.Prelude.{
  ℕ, ◌≡◌, refl, subst, ◌∙◌, false, String, Option, none, some, str_eq, str_eq_iff, if◌then◌else◌,
  inl, inr, Bool-cases,
}
use autonomous_remediation_e.Prelude.Assoc.{Assoc, insert}
use autonomous_remediation_e.Fsm.{executing, postcheck_failed, rolling_back}
use autonomous_remediation_e.Host.{System}
use autonomous_remediation_e.Executor.{ExecutionResult}
use autonomous_remediation_e.Rollback.{
  WalRecord, WalFile, saved, WalState, rolled_back, failed, JournalError, RollbackError, persisted,
  staged, read, stage, write_and_sync, update_state, synced,
}
use autonomous_remediation_e.Rollback.Replay.{outcome_state, execute_rollback}
use autonomous_remediation_e.Rollback.Pending.{
  on_disk, read-insert, update_state-on_disk, execute_rollback-read,
}
use autonomous_remediation_e.Engine.{
  Failure, malformed, runbook_not_found, lock_failed, precondition_fail, wal_error,
  rollback_faulted, postcondition_fail,
}
use autonomous_remediation_e.Engine.Steps.{Run, Call, transit, enter, note}
use autonomous_remediation_e.Engine.Settle.{
  Remediated, commit, reverted, revert, attempt, base_digest, exec_digest, tx_of,
}
use autonomous_remediation_e.Engine.Remediate.{conclude, execute_runbook, proceed, stage_runbook}

module _ {X : Type 0} (os : System X) (call : Call X) where
  -- What `Read` finds for the transaction `k` once the state and the time of `wal` are changed in
  -- the journal `j`.
  abbrev pub changed :
      WalRecord X
      → Assoc (WalFile X)
      → WalState
      → ℕ
      → String
      → Option (WalRecord X) × Option JournalError
  changed wal j s t k =
      if str_eq wal.tx_id k
      then (some (persisted (record wal { state = s; updated_at = t })), none)
      else read k j

  -- The journal tells the outcome: COMMITTED, ROLLED_BACK or FAILED.
  abbrev pub Recorded : WalRecord X → Assoc (WalFile X) → Remediated X → Type 0
  Recorded wal j (st, r, none) =
      (k : String) → read k st.journal ≡ changed wal j WalState.committed call.readings.committed k
  Recorded wal j (st, r, some (postcondition_fail f)) =
      (k : String) → read k st.journal ≡ changed wal j rolled_back call.readings.rollback.ended k
  Recorded wal j (st, r, some (rollback_faulted e)) =
      (k : String) → read k st.journal ≡ changed wal j failed call.readings.rollback.ended k
  Recorded wal j (st, r, some _) = ⊥

  reverted-Recorded :
      (wal : WalRecord X) (j : Assoc (WalFile X)) (failure : Failure) (res : Option ExecutionResult)
      (e : Option RollbackError) (m : Run X)
      → ((k : String)
          → read k m.state.journal ≡ changed wal j (outcome_state e) call.readings.rollback.ended k)
      → Recorded wal j (reverted call failure res e m)
  unfolding reverted enter transit note
  reverted-Recorded wal j failure res none m h = h
  reverted-Recorded wal j failure res (some e) m h = h

-- The same call, with journal writes that all succeed.
abbrev pub durable : {X : Type 0} → ℕ → ℕ → Call X → Call X
durable begun ended call = record call {
  readings = record call.readings {
    stage_write = synced;
    commit_write = synced;
    rollback = on_disk begun ended;
  };
}

module _ {X : Type 0} (os : System X) (begun ended : ℕ) (c : Call X) where
  conclude-Recorded :
      (wal : WalRecord X) (res : Option ExecutionResult) (failure : Option Failure) (m : Run X)
      → wal.tx_id ≡ tx_of c
      → read wal.tx_id m.state.journal ≡ (some (persisted wal), none)
      → Recorded os
          (durable begun ended c)
          wal
          m.state.journal
          (conclude os (durable begun ended c) wal res failure m)
  unfolding conclude commit revert enter transit note
  conclude-Recorded wal res none m same h = λ k.
      subst
        (λ tx.
          read k (update_state synced c.readings.committed tx WalState.committed m.state.journal).0
          ≡ changed os (durable begun ended c) wal m.state.journal WalState.committed
              c.readings.committed k)
        same (update_state-on_disk c.readings.committed WalState.committed wal m.state.journal k h)
  conclude-Recorded wal res (some f) m same h =
      let call = durable begun ended c in
      let m1 = enter call postcheck_failed (call.texts.message f) (exec_digest call res) m in
      let m2 =
        enter call rolling_back "initiating compensating rollback actions" (exec_digest call res)
          m1 in
      let (world, journal, e) =
        execute_rollback os call.alert.resource_id call.readings.rollback (some wal) m2.state.world
          m2.state.journal in
      reverted-Recorded os call wal m.state.journal f res e
        (record m2 { state = record m2.state { world = world; journal = journal } })
        (λ k.
          execute_rollback-read os call.alert.resource_id begun ended wal m2.state.world
            m2.state.journal k h)

  changed-base :
      (wal : WalRecord X) (j j1 : Assoc (WalFile X)) (s : WalState) (t : ℕ) (k : String)
      → (str_eq wal.tx_id k ≡ false → read k j1 ≡ read k j)
      → changed os c wal j1 s t k ≡ changed os c wal j s t k
  changed-base wal j j1 s t k h = elim (Bool-cases (str_eq wal.tx_id k)) [
    | inl same ↦ rw same refl
    | inr apart ↦ rw apart (h apart)
  ]

  Recorded-base :
      (wal : WalRecord X) (j j1 : Assoc (WalFile X)) (res : Remediated X)
      → ((k : String) → str_eq wal.tx_id k ≡ false → read k j1 ≡ read k j)
      → Recorded os (durable begun ended c) wal j1 res
      → Recorded os (durable begun ended c) wal j res
  Recorded-base wal j j1 (st, r, none) h x = λ k. x k ∙ changed-base wal j j1 _ _ k (h k)
  Recorded-base wal j j1 (st, r, some (rollback_faulted e)) h x =
      λ k. x k ∙ changed-base wal j j1 _ _ k (h k)
  Recorded-base wal j j1 (st, r, some (postcondition_fail f)) h x =
      λ k. x k ∙ changed-base wal j j1 _ _ k (h k)
  Recorded-base wal j j1 (st, r, some malformed) h x = absurd x
  Recorded-base wal j j1 (st, r, some runbook_not_found) h x = absurd x
  Recorded-base wal j j1 (st, r, some lock_failed) h x = absurd x
  Recorded-base wal j j1 (st, r, some (precondition_fail f)) h x = absurd x
  Recorded-base wal j j1 (st, r, some (wal_error e)) h x = absurd x

  execute_runbook-Recorded :
      (wal : WalRecord X) (m : Run X)
      → wal.tx_id ≡ tx_of c
      → read wal.tx_id m.state.journal ≡ (some (persisted wal), none)
      → Recorded os
          (durable begun ended c)
          wal
          m.state.journal
          (execute_runbook os (durable begun ended c) wal m)
  unfolding execute_runbook enter transit note
  execute_runbook-Recorded wal m same h =
      let call = durable begun ended c in
      let m1 = enter call executing "executing mutation actions" (base_digest call) m in
      let (world, res, failure) = attempt os call m1.state.world in
      conclude-Recorded wal res failure (record m1 { state = record m1.state { world = world } })
        same h

  -- Where the writes of the journal succeed, a call that has passed its preconditions leaves the
  -- record of its transaction in the journal, with all its steps: COMMITTED where it returns no
  -- error, ROLLED_BACK where it returns the failure that it rolled back, FAILED where a
  -- compensating step failed. The records of other transactions are untouched.
  pub stage_runbook-Recorded :
      (m : Run X)
      → let call = durable begun ended c in
        let wal =
          staged call.readings.staged
            (tx_of call)
            call.runbook.id
            call.alert.resource_id
            call.runbook.rollback_steps in
        Recorded os call wal m.state.journal (stage_runbook os call m)
  unfolding stage_runbook proceed stage write_and_sync
  stage_runbook-Recorded m =
      let call = durable begun ended c in
      let wal =
        staged call.readings.staged (tx_of call) call.runbook.id call.alert.resource_id
          call.runbook.rollback_steps in
      let j = insert wal.tx_id (saved (persisted wal)) m.state.journal in
      let m1 : Run X = record m { state = record m.state { journal = j } } in
      let found : (k : String) → _ ≡ _ =
        λ k. read-insert wal.tx_id k (saved (persisted wal)) m.state.journal in
      Recorded-base wal m.state.journal j (execute_runbook os call wal m1)
        (λ k apart. found k ∙ rw apart refl)
        (execute_runbook-Recorded wal m1 refl
          (found wal.tx_id ∙ rw ((str_eq_iff wal.tx_id wal.tx_id).1 refl) refl))
