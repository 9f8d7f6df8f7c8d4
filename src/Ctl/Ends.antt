-- ===== src/Ctl/Ends.antt =====
-- How the commands of cmd/remediation-ctl/main.go end: what each stage does to a predicate on what
-- the process leaves and its exit status.
use autonomous_remediation_e.Prelude.{
  ℕ, ◌≡◌, refl, ◌⊎◌, inl, inr, List, String, Option, none, some, Bytes,
}
use autonomous_remediation_e.Host.{System}
use autonomous_remediation_e.Engine.{State, Engine, EngineConfig, EngineError, RemediationResult}
use autonomous_remediation_e.Engine.Lifecycle.{InitError, close, new_engine, register_runbooks}
use autonomous_remediation_e.Ctl.Flags.{Flag, Parsed, got, helped, faulted, parse_flags}
use autonomous_remediation_e.Ctl.{
  Printed, Left, untouched, engine, Outcome, Formats, Installation, flagged, with_flags, ended_run,
}
use autonomous_remediation_e.Ctl.Run.{opened, with_engine}

-- How a process ends after a remediation: with 0 and a closed ledger where there was no error, with
-- 1 and the state as it was left where there was one.
unfoldable pub Concluded : {X : Type 0} → State X → Option EngineError → Left X → ℕ → Type 0
Concluded st none left status = (left ≡ engine (close st)) × (status ≡ 0)
Concluded st (some e) left status = (left ≡ engine st) × (status ≡ 1)

module _ {X : Type 0} where
  pub ended_run-Concluded :
      (fmt : Formats) (failing : String) (success : List Printed) (st : State X)
      (r : Option RemediationResult) (error : Option EngineError)
      → let o = ended_run fmt failing success (st, r, error) in Concluded st error o.left o.status
  unfolding ended_run Concluded
  ended_run-Concluded fmt failing success st r none = (refl, refl)
  ended_run-Concluded fmt failing success st r (some e) = (refl, refl)

  flagged-ends :
      (P : Left X → ℕ → Type 0) (fmt : Formats) (name : String) (go : List Flag → Outcome X)
      (x : Parsed)
      → (x ≡ helped → P untouched 0)
      → P untouched 2
      → ((fs : List Flag) → x ≡ got fs → P (go fs).left (go fs).status)
      → let o = flagged fmt name go x in P o.left o.status
  unfolding flagged
  flagged-ends P fmt name go (got fs) on_help on_fault going = going fs refl
  flagged-ends P fmt name go helped on_help on_fault going = on_help refl
  flagged-ends P fmt name go (faulted e) on_help on_fault going = on_fault

  -- Such a predicate holds after the flags, if it holds where they end the process and for each way
  -- of going on.
  pub with_flags-ends :
      (P : Left X → ℕ → Type 0) (fmt : Formats) (name : String) (fs : List Flag)
      (go : List Flag → Outcome X) (args : List Bytes)
      → (parse_flags none args fs ≡ helped → P untouched 0)
      → P untouched 2
      → ((fs' : List Flag) → parse_flags none args fs ≡ got fs' → P (go fs').left (go fs').status)
      → let o = with_flags fmt name fs go args in P o.left o.status
  unfolding with_flags
  with_flags-ends P fmt name fs go args = flagged-ends P fmt name go (parse_flags none args fs)

module _ {X : Type 0} (os : System X) (p : Installation X) where
  opened-ends :
      (P : Left X → ℕ → Type 0) (go : Engine X → State X → Outcome X)
      (x : (Engine X × State X) ⊎ InitError)
      → P untouched 1
      → ((e : Engine X) (st : State X)
          → x ≡ inl (e, st)
          → let o = go (register_runbooks p.catalog e) st in P o.left o.status)
      → let o = opened os p go x in P o.left o.status
  unfolding opened
  opened-ends P go (inl (e, st)) on_error going = going e st refl
  opened-ends P go (inr e) on_error going = on_error

  pub with_engine-ends :
      (P : Left X → ℕ → Type 0) (cfg : EngineConfig) (go : Engine X → State X → Outcome X)
      → P untouched 1
      → ((e : Engine X) (st : State X)
          → new_engine p.texts p.line_size cfg (p.disk cfg) ≡ inl (e, st)
          → let o = go (register_runbooks p.catalog e) st in P o.left o.status)
      → let o = with_engine os p cfg go in P o.left o.status
  unfolding with_engine
  with_engine-ends P cfg go = opened-ends P go (new_engine p.texts p.line_size cfg (p.disk cfg))
