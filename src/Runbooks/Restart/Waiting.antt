-- ===== src/Runbooks/Restart/Waiting.antt =====
-- The waiting loops of RBK-PROC-001 (internal/runbooks/runbooks.go) end.
use autonomous_remediation_e.Prelude.{
  ℕ, zero, suc, ◌+◌, ◌*◌, ◌/◌, ◌≤◌, ◌≡◌, ◌≢◌, refl, Bool, true, false, ◌&&◌, not, Option, none,
  some, ltb, ◌==◌, arith, Bool-cases, inl, inr,
}
use autonomous_remediation_e.Host.{System}
use autonomous_remediation_e.Runbooks.Files.{Platform}
use autonomous_remediation_e.Runbooks.Restart.{
  Site, is_gone, is_running, pause, wait_gone, wait_until, after_kill, after_term, escalate,
}

module _ {Y : Type 0} (os : System (ℕ × Y)) (p : Platform (ℕ × Y)) where
  -- After this many pauses.
  unfoldable pub slept : ℕ → Site Y → Site Y
  slept zero w = w
  slept (suc n) w = p.sleep pause (slept n w)

  -- Pauses last together at least as long as they were asked for.
  abbrev pub SleepsLong : Type 0
  SleepsLong = (n : ℕ) (w : Site Y) → n * pause ≤ os.elapsed w (slept n w)

  wait_gone-total :
      (fuel n timeout pid : ℕ) (start : Site Y)
      → SleepsLong
      → timeout ≤ (n + fuel) * pause
      → wait_gone os p (suc fuel) timeout pid start (slept n start) ≢ none
  unfolding wait_gone slept
  wait_gone-total zero n timeout pid start long h =
      let late : ltb (os.elapsed start (slept n start)) timeout ≡ false =
        ground (arith, long n start) in
      rw late (λ e. cc e)
  wait_gone-total (suc fuel) n timeout pid start long h =
      let w = slept n start in
      elim (Bool-cases (ltb (os.elapsed start w) timeout)) [
        | inr late ↦ rw late (λ e. cc e)
        | inl early ↦ elim (Bool-cases (is_gone (os.probe w pid))) [
          | inl gone ↦ rw (early, gone) (λ e. cc e)
          | inr there ↦
              rw (early, there) (wait_gone-total fuel (suc n) timeout pid start long (omega arith))
        ]
      ]

  wait_until-total :
      (timeout pid : ℕ) (w : Site Y) → SleepsLong → wait_until os p timeout pid w ≢ none
  unfolding wait_until slept
  wait_until-total timeout pid w long =
      let rounds : timeout / pause + 2 ≡ suc (timeout / pause + 1) = omega arith in
      rw rounds (wait_gone-total (timeout / pause + 1) 0 timeout pid w long (omega arith))

  after_kill-total : (r : Option (Site Y × Bool)) → r ≢ none → after_kill os p r ≢ none
  unfolding after_kill
  after_kill-total none h = λ e. h refl
  after_kill-total (some (w, terminated)) h = λ e. cc e

  after_term-total :
      (kill_timeout pid : ℕ) (r : Option (Site Y × Bool))
      → SleepsLong
      → r ≢ none
      → after_term os p kill_timeout pid r ≢ none
  unfolding after_term
  after_term-total kill_timeout pid none long h = λ e. h refl
  after_term-total kill_timeout pid (some (w, true)) long h = λ e. cc e
  after_term-total kill_timeout pid (some (w, false)) long h =
      after_kill-total _ (wait_until-total kill_timeout pid (os.signal pid 9 w).0 long)

  -- Where pauses last at least as long as asked for, the escalation ladder ends for all timeouts:
  -- each of its two waiting loops takes at most as many rounds as pauses of 50 ms fit in its
  -- timeout, and two.
  pub escalate-total :
      (term_timeout kill_timeout : ℕ) (w : Site Y)
      → SleepsLong
      → escalate os p term_timeout kill_timeout w ≢ none
  unfolding escalate
  escalate-total term_timeout kill_timeout w long =
      let pid = w.rest.0 in
      elim (Bool-cases (not (pid == 0) && not (pid == p.getpid) && is_running (os.probe w pid))) [
        | inl e ↦ rw e (
            after_term-total kill_timeout pid _ long
              (wait_until-total term_timeout pid (os.signal pid 15 w).0 long))
        | inr e ↦ rw e (λ h. cc h)
      ]
