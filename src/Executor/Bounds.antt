-- ===== src/Executor/Bounds.antt =====
-- What a call of `Execute` (internal/executor/executor.go) keeps to.
use autonomous_remediation_e.Prelude.{
  ℕ, ◌⊎◌, ◌≤◌, ◌<◌, ◌≡◌, ◌≢◌, true, false, String, Option, none, some, arith, Option-cases, inl,
  inr,
}
use autonomous_remediation_e.Host.{World, CommandRun, System}
use autonomous_remediation_e.Executor.{
  BlastRadius, ExecutionResult, Action, with_default, effective_timeout, Executed, mutated,
  signaled, commanded, demoted, execute,
}

-- The deadline is never 0, never later than the limit where there is one, and otherwise the
-- action's own or the default: the earlier of the two.
pub effective_timeout-bounds :
    (timeout : ℕ) (clamp : BlastRadius)
    → (0 < effective_timeout timeout clamp)
      × ((clamp.max_execution_time ≡ 0)
          ⊎ (effective_timeout timeout clamp ≤ clamp.max_execution_time))
      × (effective_timeout timeout clamp ≤ with_default timeout)
      × ((effective_timeout timeout clamp ≡ with_default timeout)
          ⊎ (effective_timeout timeout clamp ≡ clamp.max_execution_time))
unfolding effective_timeout
effective_timeout-bounds timeout clamp = ground arith

-- The outcome has an error, or it has a result that is a success.
abbrev pub Honest : {X : Type 0} → Executed X → Type 0
Honest (w, some r, none) = r.success ≡ true
Honest (w, none, none) = ⊥
Honest (w, res, some e) = Unit

module _ {X : Type 0} (os : System X) where
  mutated-Honest :
      (timeout : ℕ) (clamp : BlastRadius) (w w' : World X) (res : Option ExecutionResult)
      (err : Option String)
      → Honest (mutated os timeout clamp w w' res err)
  unfolding mutated
  mutated-Honest timeout clamp w w' res err = ground arith

  signaled-Honest :
      (clamp : BlastRadius) (pid number : ℕ) (w : World X) → Honest (signaled os clamp pid number w)
  unfolding signaled
  signaled-Honest clamp pid number w = ground arith

  commanded-Honest :
      (timeout : ℕ) (w w' : World X) (c : CommandRun) → Honest (commanded os timeout w w' c)
  unfolding commanded
  commanded-Honest timeout w w' c = ground arith

  -- Whatever the action: where `Execute` returns no error it returns a result, which is marked a
  -- success.
  pub execute-Honest :
      (target : String) (action : Action X) (clamp : BlastRadius) (w : World X)
      → Honest (execute os target action clamp w)
  unfolding execute
  execute-Honest target action clamp w =
      let timeout = effective_timeout action.timeout clamp in
      elim (Option-cases action.mutate_fn) [
        | inr (f, e) ↦
            let (w', res, err) = f target timeout w in
            rw (e, execute) (mutated-Honest timeout clamp w w' res err)
        | inl e ↦
            let (w', c) =
              os.run action.binary action.args (demoted os w action.uid action.gid) timeout w in
            rw (e, execute)
              (ground (
                arith,
                signaled-Honest clamp action.target_pid action.signal w,
                commanded-Honest timeout w w' c,
              ))
      ]

  -- Without an error, the deadline had not passed and the bytes are within the limit.
  abbrev pub Within : ℕ → BlastRadius → World X → Executed X → Type 0
  Within timeout clamp w (w', some r, none) =
      (os.expired timeout w w' ≡ false)
      × ((clamp.max_bytes_mutated ≡ 0) ⊎ (r.bytes_mutated ≤ clamp.max_bytes_mutated))
  Within timeout clamp w (w', none, none) = ⊥
  Within timeout clamp w (w', res, some e) = Unit

  mutated-Within :
      (timeout : ℕ) (clamp : BlastRadius) (w w' : World X) (res : Option ExecutionResult)
      (err : Option String)
      → Within timeout clamp w (mutated os timeout clamp w w' res err)
  unfolding mutated
  mutated-Within timeout clamp w w' res err = ground arith

  -- A mutation function whose action succeeds has mutated no more bytes than the limit, where
  -- there is one, and its deadline had not passed when it returned.
  pub execute-Within :
      (target : String) (action : Action X) (clamp : BlastRadius) (w : World X)
      → action.mutate_fn ≢ none
      → Within (effective_timeout action.timeout clamp) clamp w (execute os target action clamp w)
  unfolding execute
  execute-Within target action clamp w given =
      let timeout = effective_timeout action.timeout clamp in
      elim (Option-cases action.mutate_fn) [
        | inl e ↦ absurd (given e)
        | inr (f, e) ↦
            let (w', res, err) = f target timeout w in
            rw (e, execute) (mutated-Within timeout clamp w w' res err)
      ]

  -- The limit on the number of processes prohibits nothing: an action that signals has the same
  -- outcome under all clamps.
  pub execute-signal :
      (target : String) (action : Action X) (clamp clamp' : BlastRadius) (w : World X)
      → action.mutate_fn ≡ none
      → 0 < action.target_pid
      → 0 < action.signal
      → execute os target action clamp w ≡ execute os target action clamp' w
  unfolding execute signaled
  execute-signal target action clamp clamp' w e p q = rw (e, execute) (ground arith)
