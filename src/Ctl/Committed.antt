-- ===== src/Ctl/Committed.antt =====
-- What the exit status 0 of `handleRun` of cmd/remediation-ctl/main.go says.
use autonomous_remediation_e.Prelude.{
  ℕ, ◌≡◌, ◌≢◌, refl, subst, ◌⊎◌, inl, inr, ◌||◌, Bool, true, false, List, [], Option, none, some,
  Bytes, bytes_eq, bytes_eq_refl, arith, Bool-cases, Option-cases,
}
use autonomous_remediation_e.Prelude.Scalars.{of_codes}
use autonomous_remediation_e.Host.{System}
use autonomous_remediation_e.Engine.{runbook_not_found, Runbook, State, Engine, EngineError}
use autonomous_remediation_e.Engine.Lifecycle.{close, new_engine, register_runbooks}
use autonomous_remediation_e.Engine.Catalog.{get_runbook}
use autonomous_remediation_e.Engine.Settle.{Remediated}
use autonomous_remediation_e.Engine.Outcomes.{Told, final_of, remediate-Told}
use autonomous_remediation_e.Fsm.{committed}
use autonomous_remediation_e.Engine.Remediate.{remediate, manual_alert, run_direct}
use autonomous_remediation_e.Ctl.Flags.{Flag, got, helped, parse_flags, text_flag}
use autonomous_remediation_e.Ctl.{Left, untouched, engine, Installation, node_config}
use autonomous_remediation_e.Ctl.Run.{
  RunReadings, run_flags, effective_target, direct_run, run_parsed, handle_run,
}
use autonomous_remediation_e.Ctl.Ends.{
  Concluded, ended_run-Concluded, with_flags-ends, with_engine-ends,
}

module _ {X : Type 0} (os : System X) (p : Installation X) where
  -- `RunDirect` was called with the runbook and the target of the flags, over a new engine of their
  -- configuration, and the process ends as the call did.
  pub record IsDirect (rs : RunReadings) (args : List Bytes) (left : Left X) (status : ℕ)
      : Type 0 where
    pub flags : List Flag
    pub read : parse_flags none args run_flags ≡ got flags
    pub named : text_flag "runbook" flags ≢ []
    pub targeted : effective_target flags ≢ []
    pub made : Engine X
    pub initial : State X
    pub opens :
        new_engine p.texts p.line_size
          (node_config p.environment flags)
          (p.disk (node_config p.environment flags))
        ≡ inl (made, initial)
    pub concluded :
        let (st, r, error) =
          run_direct os p.texts
            (register_runbooks p.catalog made)
            rs.remediation
            rs.alert_id
            rs.now
            (of_codes (text_flag "runbook" flags))
            (of_codes (effective_target flags))
            initial in
        Concluded st error left status

  -- Nothing was touched, and the status is 0 for a call for help alone; or `RunDirect` was called.
  abbrev Directed : RunReadings → List Bytes → Left X → ℕ → Type 0
  Directed rs args left status =
      ((left ≡ untouched) × (status ≡ 0 → parse_flags none args run_flags ≡ helped))
      ⊎ IsDirect rs args left status

  nonempty : (xs : Bytes) → bytes_eq xs [] ≡ false → xs ≢ []
  nonempty xs h e =
      let same : bytes_eq [] [] ≡ false = subst (λ x. bytes_eq x [] ≡ false) e h in
      let refl_eq = bytes_eq_refl [] in ground arith

  neither : (a b : Bool) → (a || b) ≡ false → (a ≡ false) × (b ≡ false)
  neither a b h = ground arith

  run_parsed-Directed :
      (rs : RunReadings) (args : List Bytes) (fs : List Flag)
      → parse_flags none args run_flags ≡ got fs
      → let o = run_parsed os p rs fs in Directed rs args o.left o.status
  unfolding run_parsed direct_run
  run_parsed-Directed rs args fs parses =
      elim (Bool-cases
        (bytes_eq (text_flag "runbook" fs) [] || bytes_eq (effective_target fs) [])) [
          | inl missing ↦ rw missing (inl (refl, λ h. ground arith))
          | inr given ↦
              let (runbook, target) = neither _ _ given in
              let direct =
                with_engine-ends os p (Directed rs args) (node_config p.environment fs)
                  (direct_run os p rs (of_codes (text_flag "runbook" fs))
                    (of_codes (effective_target fs)))
                  (inl (refl, λ h. ground arith))
                  (λ e st opens. inr (record {
                    flags = fs;
                    read = parses;
                    named = nonempty (text_flag "runbook" fs) runbook;
                    targeted = nonempty (effective_target fs) target;
                    made = e;
                    initial = st;
                    opens = opens;
                    concluded = ended_run-Concluded p.formats _ _ _ _ _;
                  })) in
              rw given direct
        ]

  handle_run-Directed :
      (rs : RunReadings) (args : List Bytes)
      → let o = handle_run os p rs args in Directed rs args o.left o.status
  unfolding handle_run
  handle_run-Directed rs args =
      with_flags-ends (Directed rs args) p.formats "run" run_flags (run_parsed os p rs) args
        (λ h. inl (refl, λ zero. h)) (inl (refl, λ h. ground arith)) (run_parsed-Directed rs args)

  -- The runbook that the flags name was found, `Remediate` returned no error on the alert that is made
  -- for the target of the flags, and the ledger is closed.
  pub record IsCommitted (rs : RunReadings) (args : List Bytes) (left : Left X) : Type 0 where
    pub flags : List Flag
    pub read : parse_flags none args run_flags ≡ got flags
    pub targeted : effective_target flags ≢ []
    pub made : Engine X
    pub initial : State X
    pub opens :
        new_engine p.texts p.line_size
          (node_config p.environment flags)
          (p.disk (node_config p.environment flags))
        ≡ inl (made, initial)
    pub runbook : Runbook X
    pub found :
        get_runbook (of_codes (text_flag "runbook" flags)) (register_runbooks p.catalog made)
        ≡ some runbook
    pub done :
        let (st, r, error) =
          remediate os p.texts
            (register_runbooks p.catalog made)
            rs.remediation
            (some (
              manual_alert os rs.alert_id rs.now
                (of_codes (text_flag "runbook" flags))
                (of_codes (effective_target flags))
                runbook))
            initial in
        (left ≡ engine (close st))
        × (error ≡ none)
        × (r.final_state ≡ committed)
        × (r.success ≡ true)

  Concluded-zero :
      (st : State X) (error : Option EngineError) (left : Left X) (status : ℕ)
      → Concluded st error left status
      → status ≡ 0
      → (error ≡ none) × (left ≡ engine (close st))
  unfolding Concluded
  Concluded-zero st none left status (same, z) h = (refl, same)
  Concluded-zero st (some e) left status (same, one) h = ground arith

  Told-committed :
      (done : Remediated X)
      → Told done
      → done.2 ≡ none
      → (done.1.final_state ≡ committed) × (done.1.success ≡ true)
  unfolding final_of
  Told-committed (st, r, none) (t, f, s, b) h = (f, s)
  Told-committed (st, r, some e) told h = ground arith

  IsDirect-IsCommitted :
      (rs : RunReadings) (args : List Bytes) (left : Left X) (status : ℕ)
      → IsDirect rs args left status
      → status ≡ 0
      → IsCommitted rs args left
  unfolding run_direct
  IsDirect-IsCommitted rs args left status d h =
      let e = register_runbooks p.catalog d.made in
      let id = of_codes (text_flag "runbook" d.flags) in
      elim (Option-cases (get_runbook id e)) [
        | inl unknown ↦
            let (failed, same) =
              Concluded-zero d.initial (some runbook_not_found) left status
                (rw (unknown, run_direct) at d.concluded) h in
            ground arith
        | inr (rb, known) ↦
            let alert =
              manual_alert os rs.alert_id rs.now id (of_codes (effective_target d.flags)) rb in
            let (st, r, error) = remediate os p.texts e rs.remediation (some alert) d.initial in
            let (fine, same) =
              Concluded-zero st error left status (rw (known, run_direct) at d.concluded) h in
            let (final, success) =
              Told-committed (st, r, error)
                (remediate-Told os p.texts e rs.remediation (some alert) d.initial) fine in
            record {
              flags = d.flags;
              read = d.read;
              targeted = d.targeted;
              made = d.made;
              initial = d.initial;
              opens = d.opens;
              runbook = rb;
              found = known;
              done = (same, fine, final, success);
            }
      ]

  -- `remediation-ctl run` exits with 0 for a call for help, and otherwise only where the runbook was
  -- found and `Remediate` returned no error: the final state is COMMITTED, the result says success,
  -- and the process leaves what the call left, with the ledger closed.
  pub handle_run_zero :
      (rs : RunReadings) (args : List Bytes)
      → (handle_run os p rs args).status ≡ 0
      → (parse_flags none args run_flags ≡ helped)
        ⊎ IsCommitted rs args (handle_run os p rs args).left
  handle_run_zero rs args h = elim (handle_run-Directed rs args) [
    | inl (same, help) ↦ inl (help h)
    | inr d ↦ inr (IsDirect-IsCommitted rs args _ _ d h)
  ]
