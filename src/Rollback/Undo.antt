-- ===== src/Rollback/Undo.antt =====
-- What `ExecuteRollback` (internal/rollback/rollback.go) undoes.
use autonomous_remediation_e.Prelude.{
  ℕ, zero, suc, ◌≤◌, ◌≡◌, ◌≢◌, refl, sym, ap, ◌∙◌, String, List, [], ◌∷◌, none, some, length,
  get_elem?, arith, Option-cases, inl, inr,
}
use autonomous_remediation_e.Prelude.Assoc.{Assoc}
use autonomous_remediation_e.Host.{World, System}
use autonomous_remediation_e.Rollback.{
  RollbackStep, WalRecord, WalFile, StepError, update_state, rolling_back, rolled_back,
  execute_single_step,
}
use autonomous_remediation_e.Rollback.Replay.{RollbackReadings, replay, execute_rollback}

get_elem?-none {ℓ} : {A : Type ℓ} (xs : List A) (i : ℕ) → get_elem? xs i ≡ none → length xs ≤ i
get_elem?-none [] i e = omega arith
get_elem?-none (x ∷ xs) zero e = cc
get_elem?-none (x ∷ xs) (suc i) e = omega (arith, get_elem?-none xs i e)

module _ {X : Type 0} (os : System X) (target : String) where
  -- The actions, in order.
  abbrev pub perform : List (World X → World X) → World X → World X
  perform [] w = w
  perform (act ∷ acts) w = perform acts (act w)

  -- Step by step, a compensating step takes the state after its action back to the state before.
  abbrev pub Compensates : List (World X → World X) → List (RollbackStep X) → World X → Type 0
  Compensates [] [] w = Unit
  Compensates (act ∷ acts) (step ∷ steps) w =
      (execute_single_step os target step (act w) ≡ (w, none)) × Compensates acts steps (act w)
  Compensates _ _ w = ⊥

  replay-next :
      (i : ℕ) (s : RollbackStep X) (steps : List (RollbackStep X)) (w : World X)
      → get_elem? steps i ≡ some s
      → (execute_single_step os target s w).1 ≡ none
      → replay os target (suc i) steps w
        ≡ replay os target i steps (execute_single_step os target s w).0
  unfolding replay
  replay-next i s steps w e fine = rw (e, fine, replay) refl

  replay-stop :
      (i : ℕ) (s : RollbackStep X) (steps : List (RollbackStep X)) (w : World X) (err : StepError)
      → get_elem? steps i ≡ some s
      → (execute_single_step os target s w).1 ≡ some err
      → (replay os target (suc i) steps w).1 ≢ none
  unfolding replay
  replay-stop i s steps w err e bad = rw (e, bad, replay) (λ q. cc q)

  -- Behind a replay that went well, the step before it runs last.
  replay-cons :
      (n : ℕ) (step : RollbackStep X) (steps : List (RollbackStep X)) (w w' w'' : World X)
      → n ≤ length steps
      → replay os target n steps w ≡ (w', none)
      → execute_single_step os target step w' ≡ (w'', none)
      → replay os target (suc n) (step ∷ steps) w ≡ (w'', none)
  unfolding replay
  replay-cons zero step steps w w' w'' h p q =
      let q' : execute_single_step os target step w ≡ (w'', none) =
        ap (execute_single_step os target step) (ap (λ x. x.0) p) ∙ q in
      rw (ap (λ x. x.1) q', replay) (ap (λ x. (x.0, none)) q')
  replay-cons (suc i) step steps w w' w'' h p q = elim (Option-cases (get_elem? steps i)) [
    | inl e ↦ absurd (omega (arith, get_elem?-none steps i e))
    | inr (s, e) ↦ elim (Option-cases (execute_single_step os target s w).1) [
      | inl fine ↦
          replay-next (suc i) s (step ∷ steps) w e fine
          ∙ replay-cons i step steps (execute_single_step os target s w).0 w' w'' (omega arith)
              (sym (replay-next i s steps w e fine) ∙ p) q
      | inr (err, bad) ↦ absurd (replay-stop i s steps w err e bad (ap (λ x. x.1) p))
    ]
  ]

  replay-perform :
      (acts : List (World X → World X)) (steps : List (RollbackStep X)) (w : World X)
      → Compensates acts steps w
      → replay os target (length steps) steps (perform acts w) ≡ (w, none)
  unfolding replay
  replay-perform [] [] w h = refl
  replay-perform (act ∷ acts) (step ∷ steps) w h =
      replay-cons (length steps) step steps (perform acts (act w)) (act w) w (omega arith)
        (replay-perform acts steps (act w) h.1) h.0
  replay-perform [] (step ∷ steps) w h = absurd h
  replay-perform (act ∷ acts) [] w h = absurd h

  -- Where each compensating step, run after its action, takes the state back to the one before it:
  -- a rollback after all the actions ends without an error, leaves the host as it was before the
  -- first action, and leaves the journal with the two updates ROLLING_BACK and ROLLED_BACK.
  pub execute_rollback-perform :
      (rs : RollbackReadings) (acts : List (World X → World X)) (r : WalRecord X) (w : World X)
      (j : Assoc (WalFile X))
      → Compensates acts r.steps w
      → let j' = (update_state rs.begun_write rs.begun r.tx_id rolling_back j).0 in
        let j'' = (update_state rs.ended_write rs.ended r.tx_id rolled_back j').0 in
        execute_rollback os target rs (some r) (perform acts w) j ≡ (w, j'', none)
  unfolding execute_rollback
  execute_rollback-perform rs acts r w j h = rw (replay-perform acts r.steps w h) refl
