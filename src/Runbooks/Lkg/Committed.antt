-- ===== src/Runbooks/Lkg/Committed.antt =====
-- What a run of the engine (internal/engine/engine.go) on RBK-CFG-001 (internal/runbooks/runbooks.go)
-- that ends well has done.
use autonomous_remediation_e.Prelude.{
  ℕ, zero, suc, ◌≡◌, refl, sym, ◌∙◌, ap, subst, true, String, [], ◌∷◌, Option, none, some, Bytes,
  str_eq, ◌==◌, ◌||◌, if◌then◌else◌, arith, Bool-cases, Option-cases, inl, inr,
}
use autonomous_remediation_e.Prelude.Assoc.{lookup}
use autonomous_remediation_e.Host.{System}
use autonomous_remediation_e.Executor.{ExecutionResult, effective_timeout}
use autonomous_remediation_e.Lock.{Acquired, acquired, refused}
use autonomous_remediation_e.Engine.{State, Alert, Engine, Texts, Readings, malformed}
use autonomous_remediation_e.Engine.Remediate.{
  gate_runbook, hold, lock_runbook, resolve, match_runbook, remediate, detected_fsm, alert_digest,
}
use autonomous_remediation_e.Engine.Admission.{gate_runbook-Gated}
use autonomous_remediation_e.Damping.{can_execute}
use autonomous_remediation_e.Engine.Steps.{
  Run, Call, enter, transit, note, check_conditions, run_actions,
}
use autonomous_remediation_e.Engine.Settle.{attempt, Remediated, damped}
use autonomous_remediation_e.Fsm.{detected}
use autonomous_remediation_e.Runbooks.Lkg.{
  Site, ConfigRollbackConfig, Library, diverged, validated, found_lkg, check_lkg, restore_lkg,
  poll_health, one_probe, if_listening, probe_health, matched, check_restored,
  new_config_rollback_runbook,
}
use autonomous_remediation_e.Runbooks.Lkg.Swap.{IsSound, Outcome, restore_lkg-Swapped}
use autonomous_remediation_e.Runbooks.Files.{custom_condition, read_file, Platform}
use autonomous_remediation_e.Runbooks.Single.{one_condition, one_action, attempt-none, Gated-world}

module _ {Y : Type 0} (os : System (String × Y)) (p : Platform (String × Y)) (lib : Library)
    (cfg : ConfigRollbackConfig Y) where
  -- Requests, dials and sleeps leave the files alone.
  pub record IsWatching : Type 0 where
    pub gets :
        (url : String) (timeout : ℕ) (w : Site Y) → (os.http_get url timeout w).0.files ≡ w.files
    pub dials :
        (address : String) (timeout : ℕ) (w : Site Y) → (p.dial address timeout w).0.files ≡ w.files
    pub sleeps : (time : ℕ) (w : Site Y) → (p.sleep time w).files ≡ w.files

  poll_health-files :
      (n : ℕ) (w : Site Y) → IsWatching → (poll_health os p lib cfg n w).0.files ≡ w.files
  unfolding poll_health
  poll_health-files zero w h = refl
  poll_health-files (suc n) w h =
      let w' = (os.http_get cfg.health_url 1000000000 w).0 in
      let again = poll_health-files n (p.sleep 100000000 w') h in
      ground (arith, again, h.sleeps 100000000 w', h.gets cfg.health_url 1000000000 w)

  probe_health-files :
      (f : Option (Site Y → Site Y × Option String)) (w : Site Y)
      → IsWatching
      → (probe_health os p lib cfg f w).0.files ≡ w.files
  unfolding probe_health if_listening one_probe
  probe_health-files (some f) w h = poll_health-files 20 w h
  probe_health-files none w h =
      let w' = (p.dial "127.0.0.1:8080" 200000000 w).0 in
      ground (arith, h.dials "127.0.0.1:8080" 200000000 w, h.gets cfg.health_url 1000000000 w')

  check_restored-files :
      (target : String) (w : Site Y)
      → IsWatching
      → (check_restored os p lib cfg target w).0.files ≡ w.files
  unfolding check_restored matched
  check_restored-files target w h = ground (arith, probe_health-files cfg.restart_fn w h)

  -- The check before leaves the files alone, and where it passes there is a good configuration.
  check_lkg-passed :
      (target : String) (w : Site Y)
      → (check_lkg os lib cfg target w).1 ≡ true
      → ((check_lkg os lib cfg target w).0.files ≡ w.files)
        × (good : String) × (lookup cfg.lkg_config_path w.files ≡ some good)
  unfolding check_lkg found_lkg validated diverged read_file
  check_lkg-passed target w h = elim (Option-cases (read_file os cfg.lkg_config_path w)) [
    | inl e ↦ absurd (ground arith)
    | inr (good, e) ↦ (ground arith, good, ground arith)
  ]

  Outcome-none :
      (old : Option String) (good : String) (x : Site Y × Option ExecutionResult × Option String)
      → Outcome os lib cfg old good x
      → x.2 ≡ none
      → lookup cfg.active_config_path x.0.files ≡ some good
  Outcome-none old good (w, r, none) h e = h
  Outcome-none old good (w, r, some f) h e = cc e

  abbrev pub on : String → Call (String × Y) → Call (String × Y)
  on nanos call = record call { runbook = new_config_rollback_runbook os p lib cfg nanos }

  attempt-restored :
      (nanos good : String) (call : Call (String × Y)) (w : Site Y)
      → IsSound os lib cfg nanos
      → IsWatching
      → lookup cfg.lkg_config_path w.files ≡ some good
      → (attempt os (on nanos call) w).2 ≡ none
      → lookup cfg.active_config_path (attempt os (on nanos call) w).0.files ≡ some good
  unfolding new_config_rollback_runbook
  attempt-restored nanos good call w sound watching here h =
      let target = call.alert.resource_id in
      let rb = new_config_rollback_runbook os p lib cfg nanos in
      let action : String = "quarantine-corrupt-and-atomic-restore-lkg" in
      let condition : String = "active-sha256-matches-lkg-and-service-healthy" in
      let timeout = if cfg.execution_timeout == 0 then 10000000000 else cfg.execution_timeout in
      let spent = effective_timeout timeout rb.blast_radius in
      let restored = restore_lkg os lib cfg nanos target spent w in
      let (acted, met, ends) = attempt-none os target (on nanos call) w h in
      let (fine, acts) =
        one_action os target action timeout rb.blast_radius (restore_lkg os lib cfg nanos) w
          acted in
      let after = (run_actions os target rb.blast_radius rb.actions none w).0 in
      let (passed, checks) =
        one_condition os target condition (check_restored os p lib cfg) after met in
      let good_now : lookup cfg.active_config_path restored.0.files ≡ some good =
        Outcome-none (lookup cfg.active_config_path w.files) good restored
          (restore_lkg-Swapped os lib cfg nanos target good spent w sound here) fine in
      ap (λ (v : Site Y). lookup cfg.active_config_path v.files) (ends ∙ checks)
      ∙ ap (lookup cfg.active_config_path) (check_restored-files target after watching)
      ∙ ap (λ (v : Site Y). lookup cfg.active_config_path v.files) acts
      ∙ good_now

  -- The good configuration of the one state is the active one of the other.
  abbrev pub Restored : State (String × Y) → State (String × Y) → Type 0
  Restored st st' =
      (good : String) × (lookup cfg.lkg_config_path st.world.files ≡ some good)
      × (lookup cfg.active_config_path st'.world.files ≡ some good)

  gate_runbook-Restored :
      (nanos : String) (call : Call (String × Y)) (m : Run (String × Y))
      → IsSound os lib cfg nanos
      → IsWatching
      → (gate_runbook os (on nanos call) m).2 ≡ none
      → Restored m.state (gate_runbook os (on nanos call) m).0
  unfolding new_config_rollback_runbook
  gate_runbook-Restored nanos call m sound watching h =
      let target = call.alert.resource_id in
      let w = m.state.world in
      let (c, refusal) = can_execute call.readings.gate (damped (on nanos call)) m.state.damping in
      let checked =
        check_conditions os target
          (custom_condition "lkg-valid-and-active-config-diverged" (check_lkg os lib cfg) ∷ []) w in
      let (met, fine, ends) =
        Gated-world os target (on nanos call) refusal checked.1 checked.0 c m.state
          (gate_runbook os (on nanos call) m) (gate_runbook-Gated os (on nanos call) m) h in
      let (passed, left) =
        one_condition os target "lkg-valid-and-active-config-diverged" (check_lkg os lib cfg) w
          met in
      let (kept, good, here) = check_lkg-passed target w passed in
      let still : lookup cfg.lkg_config_path checked.0.files ≡ some good =
        ap (λ (v : Site Y). lookup cfg.lkg_config_path v.files) left
        ∙ ap (lookup cfg.lkg_config_path) kept
        ∙ here in
      (
        good,
        here,
        ap (λ (v : Site Y). lookup cfg.active_config_path v.files) ends
            ∙ attempt-restored nanos good call checked.0 sound watching still fine,
      )

  hold-Restored :
      (nanos : String) (call : Call (String × Y)) (a : Acquired) (m : Run (String × Y))
      → IsSound os lib cfg nanos
      → IsWatching
      → (hold os (on nanos call) a m).2 ≡ none
      → Restored m.state (hold os (on nanos call) a m).0
  unfolding hold
  hold-Restored nanos call (acquired l) m sound watching h =
      gate_runbook-Restored nanos call m sound watching h
  hold-Restored nanos call (refused e) m sound watching h = cc h

  resolve-Restored :
      (nanos : String) (texts : Texts) (lock_dir : Bytes) (rs : Readings) (alert : Alert)
      (m : Run (String × Y))
      → IsSound os lib cfg nanos
      → IsWatching
      → let found = some (new_config_rollback_runbook os p lib cfg nanos) in
        (resolve os texts lock_dir rs alert found m).2 ≡ none
        → Restored m.state
            (resolve os texts lock_dir rs alert
              (some (new_config_rollback_runbook os p lib cfg nanos))
              m).0
  unfolding resolve lock_runbook enter transit note
  resolve-Restored nanos texts lock_dir rs alert m sound watching h =
      hold-Restored nanos
        (record {
          alert = alert;
          runbook = new_config_rollback_runbook os p lib cfg nanos;
          readings = rs;
          texts = texts;
        })
        _ _ sound watching h

  -- Where a call of `Remediate` that matches RBK-CFG-001 returns no error, the active configuration is,
  -- when it returns, the one that was kept as good when it was called. The path for the corrupt file
  -- is another than both, the reload does not write the active configuration, and requests, dials and
  -- sleeps leave the files alone.
  pub remediate-Restored :
      (nanos : String) (texts : Texts) (e : Engine (String × Y)) (rs : Readings) (alert : Alert)
      (st : State (String × Y))
      → IsSound os lib cfg nanos
      → IsWatching
      → match_runbook e alert ≡ some (new_config_rollback_runbook os p lib cfg nanos)
      → (remediate os texts e rs (some alert) st).2 ≡ none
      → Restored st (remediate os texts e rs (some alert) st).0
  unfolding remediate enter transit note
  remediate-Restored nanos texts e rs alert st sound watching found h =
      let rb = new_config_rollback_runbook os p lib cfg nanos in
      let run = remediate os texts e rs (some alert) st in
      elim (Bool-cases (str_eq alert.id "" || str_eq alert.resource_id "")) [
        | inl empty ↦
            let turned_away : run.2 ≡ some malformed = rw empty refl in absurd (cc (h, turned_away))
        | inr whole ↦
            let m : Run (String × Y) = record {
              state = note texts rs alert.resource_id "" detected (alert_digest texts alert) st;
              fsm = detected_fsm rs;
            } in
            let same : run ≡ resolve os texts e.lock_dir rs alert (some rb) m =
              rw (whole, found) refl in
            subst (λ (x : Remediated (String × Y)). Restored st x.0) (sym same)
              (resolve-Restored nanos texts e.lock_dir rs alert m sound watching
                (ap (λ (x : Remediated (String × Y)). x.2) (sym same) ∙ h))
      ]
