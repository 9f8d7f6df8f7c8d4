-- ===== src/Engine/Restoration.antt =====
-- When a call of `Remediate` (internal/engine/engine.go) that fails leaves the host as it was.
use autonomous_remediation_e.Prelude.{
  ◌≡◌, refl, sym, subst, ◌∙◌, ap, true, List, Option, none, some,
}
use autonomous_remediation_e.Fsm.{executing}
use autonomous_remediation_e.Host.{World, System}
use autonomous_remediation_e.Executor.{ExecutionResult}
use autonomous_remediation_e.Rollback.{WalRecord, RollbackError}
use autonomous_remediation_e.Rollback.Replay.{execute_rollback}
use autonomous_remediation_e.Rollback.Undo.{perform, Compensates, execute_rollback-perform}
use autonomous_remediation_e.Engine.{Failure, postcondition_fail}
use autonomous_remediation_e.Engine.Steps.{Run, Call, transit, enter, note}
use autonomous_remediation_e.Engine.Settle.{reverted, revert, attempt, base_digest}
use autonomous_remediation_e.Engine.Remediate.{conclude, execute_runbook}

module _ {X : Type 0} (os : System X) (call : Call X) where
  reverted-restored :
      (failure : Failure) (res : Option ExecutionResult) (e : Option RollbackError) (m : Run X)
      (w : World X)
      → m.state.world ≡ w
      → e ≡ none
      → let (st, r, error) = reverted call failure res e m in
        (st.world ≡ w) × (error ≡ some (postcondition_fail failure)) × (r.rolled_back ≡ true)
  unfolding reverted enter transit note
  reverted-restored failure res none m w h q = (h, refl, refl)
  reverted-restored failure res (some x) m w h q = cc q

  conclude-restored :
      (wal : WalRecord X) (res : Option ExecutionResult) (failure : Failure) (m : Run X)
      (acts : List (World X → World X)) (w : World X)
      → m.state.world ≡ perform os call.alert.resource_id acts w
      → Compensates os call.alert.resource_id acts wal.steps w
      → let (st, r, error) = conclude os call wal res (some failure) m in
        (st.world ≡ w) × (error ≡ some (postcondition_fail failure)) × (r.rolled_back ≡ true)
  unfolding conclude revert enter transit note
  conclude-restored wal res failure m acts w same h =
      let after =
        ap
          (λ x.
            execute_rollback os call.alert.resource_id call.readings.rollback (some wal) x
              m.state.journal)
          same
        ∙ execute_rollback-perform os call.alert.resource_id call.readings.rollback acts wal w
            m.state.journal h in
      reverted-restored failure res _ _ w (ap (λ x. x.0) after) (ap (λ x. x.2) after)

  -- Where the actions did `acts` to the host, the steps on record compensate them one by one, and
  -- an action or a postcondition failed all the same: the call leaves the host as it was when the
  -- actions began, says that it rolled back, and returns the failure.
  pub execute_runbook-restored :
      (wal : WalRecord X) (res : Option ExecutionResult) (failure : Failure) (m : Run X)
      (acts : List (World X → World X))
      → attempt os call m.state.world
        ≡ (perform os call.alert.resource_id acts m.state.world, res, some failure)
      → Compensates os call.alert.resource_id acts wal.steps m.state.world
      → let (st, r, error) = execute_runbook os call wal m in
        (st.world ≡ m.state.world)
        × (error ≡ some (postcondition_fail failure))
        × (r.rolled_back ≡ true)
  unfolding execute_runbook enter transit note
  execute_runbook-restored wal res failure m acts did h =
      let m1 = enter call executing "executing mutation actions" (base_digest call) m in
      let ended : World X → Run X = λ w. record m1 { state = record m1.state { world = w } } in
      subst
        (λ x.
          let (w, r, f) = x in
          let (st, result, error) = conclude os call wal r f (ended w) in
          (st.world ≡ m.state.world)
          × (error ≡ some (postcondition_fail failure))
          × (result.rolled_back ≡ true))
        (sym did)
        (conclude-restored wal res failure
          (ended (perform os call.alert.resource_id acts m.state.world)) acts m.state.world refl h)
