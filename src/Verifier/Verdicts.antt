-- ===== src/Verifier/Verdicts.antt =====
-- What a condition that passes its check says of the host, for internal/verifier/verifier.go.
use autonomous_remediation_e.Prelude.{
  ℕ, ◌≡◌, ◌≢◌, ◌↔◌, ◌⊎◌, Bool, true, false, String, Option, none, some, ◌==◌, str_eq_iff,
  if◌then◌else◌, inl, inr, arith, Option-cases, sym, subst,
}
use autonomous_remediation_e.Host.{World, running, not_permitted, System}
use autonomous_remediation_e.Verifier.{
  ConditionType, disk_free_pct, process_alive, http_health, file_exists, custom, unsupported,
  Condition, CheckError, check_disk_free, check_process_alive, check_http_health, check_file_exists,
  verify_type, verify_condition, reporting,
}

module _ {X : Type 0} (os : System X) where
  -- The file system has blocks, and enough of them are available.
  abbrev pub HasRoom : ℕ → (ℕ × ℕ) ⊎ String → Type 0
  HasRoom min_free_pct (inl (a, b)) = (b ≢ 0) × (os.meets a b min_free_pct ≡ true)
  HasRoom min_free_pct (inr message) = ⊥

  -- What each type of condition asks of the host, whatever the code that checks it.
  abbrev pub Holds : ConditionType → Condition X → World X → Type 0
  Holds disk_free_pct c w = (c.target ≢ "") × HasRoom c.min_free_pct (os.statfs w c.target)
  Holds process_alive c w =
      (c.pid ≢ 0) × ((os.probe w c.pid ≡ running) ⊎ (os.probe w c.pid ≡ not_permitted))
  Holds http_health c w =
      (c.target ≢ "")
      × ((os.http_get c.target (if c.timeout == 0 then 2000000000 else c.timeout) w).1
          ≡ inl (if c.expected_status == 0 then 200 else c.expected_status))
  Holds file_exists c w = (c.target ≢ "") × (os.exists w c.target ≡ true)
  Holds custom c w = ⊥
  Holds (unsupported name) c w = ⊥

  -- The verdict that the engine reads off an outcome: passed, and no error.
  abbrev pub is_passed : World X × Bool × Option CheckError → Bool
  is_passed (w, ok, none) = ok
  is_passed (w, ok, some e) = false

  check_disk_free-passed :
      (c : Condition X) (w : World X)
      → ((check_disk_free os c.target c.min_free_pct w).0 ≡ true)
          × ((check_disk_free os c.target c.min_free_pct w).1 ≡ none)
        ↔ Holds disk_free_pct c w
  unfolding check_disk_free
  check_disk_free-passed c w = ground (arith, str_eq_iff c.target "")

  check_process_alive-passed :
      (c : Condition X) (w : World X)
      → (check_process_alive os c.pid w ≡ true) ↔ Holds process_alive c w
  unfolding check_process_alive
  check_process_alive-passed c w = ground arith

  check_http_health-passed :
      (c : Condition X) (w : World X)
      → (is_passed (check_http_health os c.target c.timeout c.expected_status w) ≡ true)
        ↔ Holds http_health c w
  unfolding check_http_health
  check_http_health-passed c w = ground (arith, str_eq_iff c.target "")

  verify_type-passed :
      (t : ConditionType) (c : Condition X) (w : World X)
      → let c' = record c { type = t } in (is_passed (verify_type os c' w) ≡ true) ↔ Holds t c w
  unfolding verify_type check_file_exists
  verify_type-passed disk_free_pct c w = ground (arith, check_disk_free-passed c w)
  verify_type-passed process_alive c w = ground (arith, check_process_alive-passed c w)
  verify_type-passed http_health c w = check_http_health-passed c w
  verify_type-passed file_exists c w = ground (arith, str_eq_iff c.target "")
  verify_type-passed custom c w = ground arith
  verify_type-passed (unsupported name) c w = ground arith

  -- What a condition asks: what its check function answers, where it has one.
  abbrev pub Asked :
      String
      → Option (String → World X → World X × Bool × Option String)
      → Condition X
      → World X
      → Type 0
  Asked target none c w = Holds c.type c w
  Asked target (some f) c w = ((f target w).1 ≡ true) × ((f target w).2 ≡ none)

  verify_condition-type :
      (target : String) (c : Condition X) (w : World X)
      → c.check_fn ≡ none
      → verify_condition os target c w ≡ verify_type os c w
  unfolding verify_condition
  verify_condition-type target c w e = simp (e, verify_condition)

  verify_condition-reporting :
      (target : String) (c : Condition X) (w : World X)
      (f : String → World X → World X × Bool × Option String)
      → c.check_fn ≡ some f
      → verify_condition os target c w ≡ reporting os (f target w)
  unfolding verify_condition
  verify_condition-reporting target c w f e = simp (e, verify_condition)

  -- A condition without a check function passes exactly when what its type asks of the host holds,
  -- so never where its type is custom or unknown. One with a check function passes exactly when the
  -- function says so and reports no error, whatever the type.
  pub verify_condition-passed :
      (target : String) (c : Condition X) (w : World X)
      → (is_passed (verify_condition os target c w) ≡ true) ↔ Asked target c.check_fn c w
  verify_condition-passed target c w = elim (Option-cases c.check_fn) [
    | inl e ↦
        subst (λ x. (is_passed x ≡ true) ↔ Asked target c.check_fn c w)
          (sym (verify_condition-type target c w e))
          (subst (λ x. (is_passed (verify_type os c w) ≡ true) ↔ Asked target x c w) (sym e)
            (verify_type-passed c.type c w))
    | inr (f, e) ↦
        subst (λ x. (is_passed x ≡ true) ↔ Asked target c.check_fn c w)
          (sym (verify_condition-reporting target c w f e))
          (subst (λ x. (is_passed (reporting os (f target w)) ≡ true) ↔ Asked target x c w) (sym e)
            (ground arith))
  ]
