-- ===== src/Engine/Admission.antt =====
-- What must hold for a call of `Remediate` (internal/engine/engine.go) to go on at each of its
-- gates, and what it leaves as it was where it is turned away.
use autonomous_remediation_e.Prelude.{
  ℕ, ◌≡◌, ◌≢◌, ◌⊎◌, refl, ap, ◌∙◌, String, List, Option, none, some, inl, inr,
}
use autonomous_remediation_e.Fsm.{executing, precheck_passed}
use autonomous_remediation_e.Damping.{can_execute, record_execution_at}
use autonomous_remediation_e.Damping
use autonomous_remediation_e.Prelude.Assoc.{Assoc}
use autonomous_remediation_e.Host.{World, System}
use autonomous_remediation_e.Executor.{ExecutionResult}
use autonomous_remediation_e.Verifier.{CheckError}
use autonomous_remediation_e.Rollback.{
  WalRecord, WalFile, JournalError, not_opened, not_written, not_synced, RollbackError, WalWrite,
  synced, unopened, cut_off, unsynced, RollbackStep, staged, stage, write_and_sync,
}
use autonomous_remediation_e.Engine.{
  State, Failure, malformed, runbook_not_found, lock_failed, precondition_fail, wal_error,
  rollback_faulted, postcondition_fail,
}
use autonomous_remediation_e.Engine.Steps.{Run, Call, transit, enter, note, check_conditions}
use autonomous_remediation_e.Engine.Settle.{
  Remediated, commit, reverted, revert, attempt, base_digest, damped, tx_of,
}
use autonomous_remediation_e.Engine.Remediate.{
  conclude, execute_runbook, proceed, stage_runbook, conditioned, admit, gate_runbook,
}

stage-cases :
    {X : Type 0} (ending : WalWrite) (now : ℕ) (tx runbook resource : String)
    (steps : List (RollbackStep X)) (j : Assoc (WalFile X))
    → (ending ≡ synced)
        × ((stage ending now tx runbook resource steps j).1
            ≡ inl (staged now tx runbook resource steps))
      ⊎ (ending ≢ synced)
        × (e : JournalError) × ((stage ending now tx runbook resource steps j).1 ≡ inr e)
unfolding stage write_and_sync
stage-cases unopened now tx runbook resource steps j = inr (λ e. cc e, not_opened, refl)
stage-cases cut_off now tx runbook resource steps j = inr (λ e. cc e, not_written, refl)
stage-cases unsynced now tx runbook resource steps j = inr (λ e. cc e, not_synced, refl)
stage-cases synced now tx runbook resource steps j = inl (refl, refl)

module _ {X : Type 0} (os : System X) (call : Call X) where
  -- The controller after an execution is counted.
  abbrev pub counted : Damping.Controller → Damping.Controller
  counted c =
      record_execution_at call.readings.record_written (damped call) call.readings.recorded c

  -- The loop over the preconditions.
  abbrev pub check : State X → World X × Option (String × Option CheckError)
  check st = check_conditions os call.alert.resource_id call.runbook.preconditions st.world

  -- From the actions on: the execution is counted where nothing failed, and only there.
  abbrev pub Concluded : Option Failure → State X → Remediated X → Type 0
  Concluded failure st (st', r, none) =
      (failure ≡ none) × (st'.world ≡ st.world) × (st'.damping ≡ counted st.damping)
  Concluded failure st (st', r, some (rollback_faulted e)) =
      (failure ≢ none) × (st'.damping ≡ st.damping)
  Concluded failure st (st', r, some (postcondition_fail f)) =
      (failure ≢ none) × (st'.damping ≡ st.damping)
  Concluded failure st (st', r, some _) = ⊥

  reverted-Concluded :
      (f failure : Failure) (res : Option ExecutionResult) (e : Option RollbackError) (m : Run X)
      (st : State X)
      → m.state.damping ≡ st.damping
      → Concluded (some f) st (reverted call failure res e m)
  unfolding reverted enter transit note
  reverted-Concluded f failure res none m st h = (λ q. cc q, h)
  reverted-Concluded f failure res (some e) m st h = (λ q. cc q, h)

  conclude-Concluded :
      (wal : WalRecord X) (res : Option ExecutionResult) (failure : Option Failure) (m : Run X)
      → Concluded failure m.state (conclude os call wal res failure m)
  unfolding conclude commit revert enter transit note
  conclude-Concluded wal res none m = (refl, refl, refl)
  conclude-Concluded wal res (some f) m = reverted-Concluded f f res _ _ m.state refl

  -- From the staging on.
  abbrev pub Staged : State X → Remediated X → Type 0
  Staged st (st', r, none) =
      let (world, res, failure) = attempt os call st.world in
      (call.readings.stage_write ≡ synced)
      × (failure ≡ none)
      × (st'.world ≡ world)
      × (st'.damping ≡ counted st.damping)
  Staged st (st', r, some (wal_error e)) =
      (call.readings.stage_write ≢ synced) × (st'.world ≡ st.world) × (st'.damping ≡ st.damping)
  Staged st (st', r, some (rollback_faulted e)) =
      (call.readings.stage_write ≡ synced)
      × ((attempt os call st.world).2 ≢ none)
      × (st'.damping ≡ st.damping)
  Staged st (st', r, some (postcondition_fail f)) =
      (call.readings.stage_write ≡ synced)
      × ((attempt os call st.world).2 ≢ none)
      × (st'.damping ≡ st.damping)
  Staged st (st', r, some _) = ⊥

  Concluded-Staged :
      (res : Remediated X) (st st1 : State X)
      → call.readings.stage_write ≡ synced
      → st1.world ≡ (attempt os call st.world).0
      → st1.damping ≡ st.damping
      → Concluded (attempt os call st.world).2 st1 res
      → Staged st res
  Concluded-Staged (st', r, none) st st1 s w d (f, w', d') = (s, f, w' ∙ w, d' ∙ ap counted d)
  Concluded-Staged (st', r, some (rollback_faulted e)) st st1 s w d (f, d') = (s, f, d' ∙ d)
  Concluded-Staged (st', r, some (postcondition_fail x)) st st1 s w d (f, d') = (s, f, d' ∙ d)
  Concluded-Staged (st', r, some malformed) st st1 s w d h = absurd h
  Concluded-Staged (st', r, some runbook_not_found) st st1 s w d h = absurd h
  Concluded-Staged (st', r, some lock_failed) st st1 s w d h = absurd h
  Concluded-Staged (st', r, some (precondition_fail x)) st st1 s w d h = absurd h
  Concluded-Staged (st', r, some (wal_error x)) st st1 s w d h = absurd h

  execute_runbook-Staged :
      (wal : WalRecord X) (m : Run X)
      → call.readings.stage_write ≡ synced
      → Staged m.state (execute_runbook os call wal m)
  unfolding execute_runbook enter transit note
  execute_runbook-Staged wal m s =
      let (world, res, failure) = attempt os call m.state.world in
      let m1 = enter call executing "executing mutation actions" (base_digest call) m in
      let m2 : Run X = record m1 { state = record m1.state { world = world } } in
      Concluded-Staged (conclude os call wal res failure m2) m.state m2.state s refl refl
        (conclude-Concluded wal res failure m2)

  stage_runbook-Staged : (m : Run X) → Staged m.state (stage_runbook os call m)
  unfolding stage_runbook proceed enter transit note
  stage_runbook-Staged m =
      elim (stage-cases call.readings.stage_write call.readings.staged (tx_of call) call.runbook.id
        call.alert.resource_id call.runbook.rollback_steps m.state.journal) [
          | inl (s, e) ↦
              rw (e, stage_runbook)
                (execute_runbook-Staged
                  (staged call.readings.staged (tx_of call) call.runbook.id call.alert.resource_id
                    call.runbook.rollback_steps)
                  (record m {
                    state = record m.state {
                      journal =
                          (stage call.readings.stage_write call.readings.staged (tx_of call)
                            call.runbook.id call.alert.resource_id call.runbook.rollback_steps
                            m.state.journal).0;
                    };
                  })
                  s)
          | inr (s, x, e) ↦ rw (e, stage_runbook) (s, refl, refl)
        ]

  -- From the damping gate on, by its refusal and by the precondition that fails: the host in the
  -- state `w` after the preconditions, the controller `c` after the gate.
  abbrev pub Gated :
      Option Damping.Reason
      → Option (String × Option CheckError)
      → World X
      → Damping.Controller
      → State X
      → Remediated X
      → Type 0
  Gated refusal unmet w c st (st', r, some (precondition_fail f)) =
      (st'.journal ≡ st.journal)
      × (st'.damping ≡ c)
      × ((refusal ≢ none) × (st'.world ≡ st.world)
          ⊎ (refusal ≡ none) × (unmet ≢ none) × (st'.world ≡ w))
  Gated refusal unmet w c st (st', r, e) =
      (refusal ≡ none) × (unmet ≡ none) × Staged (record st { world = w; damping = c }) (st', r, e)

  Staged-Gated :
      (w : World X) (c : Damping.Controller) (st : State X) (res : Remediated X)
      → Staged (record st { world = w; damping = c }) res
      → Gated none none w c st res
  Staged-Gated w c st (st', r, none) h = (refl, refl, h)
  Staged-Gated w c st (st', r, some (rollback_faulted e)) h = (refl, refl, h)
  Staged-Gated w c st (st', r, some (postcondition_fail x)) h = (refl, refl, h)
  Staged-Gated w c st (st', r, some malformed) h = absurd h
  Staged-Gated w c st (st', r, some runbook_not_found) h = absurd h
  Staged-Gated w c st (st', r, some lock_failed) h = absurd h
  Staged-Gated w c st (st', r, some (precondition_fail x)) h = absurd h
  Staged-Gated w c st (st', r, some (wal_error x)) h = (refl, refl, h)

  conditioned-Gated :
      (unmet : Option (String × Option CheckError)) (w : World X) (m : Run X)
      → Gated none unmet w m.state.damping m.state
          (conditioned os call unmet (record m { state = record m.state { world = w } }))
  unfolding conditioned enter transit note
  conditioned-Gated none w m =
      let m1 : Run X =
        enter call precheck_passed "all preconditions verified" (base_digest call)
          (record m { state = record m.state { world = w } }) in
      Staged-Gated w m.state.damping m.state (stage_runbook os call m1) (stage_runbook-Staged m1)
  conditioned-Gated (some (name, e)) w m = (refl, refl, inr (refl, (λ q. cc q), refl))

  admit-Gated :
      (refusal : Option Damping.Reason) (m : Run X)
      → Gated refusal
          (check m.state).1
          (check m.state).0
          m.state.damping
          m.state
          (admit os call refusal m)
  unfolding admit enter transit note
  admit-Gated none m = conditioned-Gated (check m.state).1 (check m.state).0 m
  admit-Gated (some reason) m = (refl, refl, inl ((λ q. cc q), refl))

  -- What a call that holds its lock ends with tells what its gates found:
  -- no error: the damping gate let it through, every precondition passed, the compensating steps
  -- were on disk before the actions, all actions and postconditions went well, and the execution,
  -- and no other, is counted;
  -- a precondition error: the gate refused, and the host is as before, or a precondition failed,
  -- and the host is as the preconditions left it; nothing is staged or counted;
  -- a staging error: gate and preconditions passed, and no action was run or counted;
  -- an error of the fault path: the steps were staged, an action or a postcondition failed, and
  -- nothing is counted.
  pub gate_runbook-Gated :
      (m : Run X)
      → let (c, refusal) = can_execute call.readings.gate (damped call) m.state.damping in
        Gated refusal (check m.state).1 (check m.state).0 c m.state (gate_runbook os call m)
  unfolding gate_runbook
  gate_runbook-Gated m =
      let (c, refusal) = can_execute call.readings.gate (damped call) m.state.damping in
      admit-Gated refusal (record m { state = record m.state { damping = c } })
