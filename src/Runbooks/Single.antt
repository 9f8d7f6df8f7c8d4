-- ===== src/Runbooks/Single.antt =====
-- The engine (internal/engine/engine.go) on a runbook of internal/runbooks/runbooks.go with a single
-- condition that is a function, and a single action that is one.
use autonomous_remediation_e.Prelude.{
  ℕ, ◌≡◌, Bool, true, String, [], ◌∷◌, Option, none, some, arith,
}
use autonomous_remediation_e.Host.{World, System}
use autonomous_remediation_e.Executor.{
  ExecutionResult, BlastRadius, execute, mutated, effective_timeout,
}
use autonomous_remediation_e.Verifier.{verify_condition}
use autonomous_remediation_e.Engine.{State}
use autonomous_remediation_e.Engine.Admission.{Gated}
use autonomous_remediation_e.Damping.{can_execute}
use autonomous_remediation_e.Damping
use autonomous_remediation_e.Verifier.{CheckError}
use autonomous_remediation_e.Engine.Steps.{Call, check_conditions, run_actions, action_failure}
use autonomous_remediation_e.Engine.Settle.{attempt, Remediated}
use autonomous_remediation_e.Runbooks.Files.{custom_condition, mutation}

module _ {X : Type 0} (os : System X) (target : String) where
  pub one_condition :
      (name : String) (f : String → World X → World X × Bool × Option String) (w : World X)
      → (check_conditions os target (custom_condition name f ∷ []) w).1 ≡ none
      → ((f target w).1 ≡ true)
        × ((check_conditions os target (custom_condition name f ∷ []) w).0 ≡ (f target w).0)
  unfolding check_conditions verify_condition
  one_condition name f w h = ground arith

  pub one_action :
      (name : String) (timeout : ℕ) (clamp : BlastRadius)
      (f : String → ℕ → World X → World X × Option ExecutionResult × Option String) (w : World X)
      → (run_actions os target clamp (mutation name timeout f ∷ []) none w).2 ≡ none
      → ((f target (effective_timeout timeout clamp) w).2 ≡ none)
        × ((run_actions os target clamp (mutation name timeout f ∷ []) none w).0
            ≡ (f target (effective_timeout timeout clamp) w).0)
  unfolding run_actions action_failure execute mutated
  one_action name timeout clamp f w h = ground arith

  -- Nothing failed from the actions on: neither these nor the postconditions after them.
  pub attempt-none :
      (call : Call X) (w : World X)
      → (attempt os call w).2 ≡ none
      → let target = call.alert.resource_id in
        let rb = call.runbook in
        let acted = run_actions os target rb.blast_radius rb.actions none w in
        let checked = check_conditions os target rb.postconditions acted.0 in
        (acted.2 ≡ none) × (checked.1 ≡ none) × ((attempt os call w).0 ≡ checked.0)
  unfolding attempt
  attempt-none call w h = ground arith

  -- A run without an error: the preconditions passed, and nothing failed after them.
  pub Gated-world :
      (call : Call X) (refusal : Option Damping.Reason)
      (unmet : Option (String × Option CheckError)) (w : World X) (c : Damping.Controller)
      (st : State X) (x : Remediated X)
      → Gated os call refusal unmet w c st x
      → x.2 ≡ none
      → (unmet ≡ none) × ((attempt os call w).2 ≡ none) × (x.0.world ≡ (attempt os call w).0)
  Gated-world call refusal unmet w c st (st', r, none) (a, met, (s, f, e, d)) h = (met, f, e)
  Gated-world call refusal unmet w c st (st', r, some f) g h = cc h
