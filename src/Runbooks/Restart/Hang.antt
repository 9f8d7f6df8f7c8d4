-- ===== src/Runbooks/Restart/Hang.antt =====
-- When the check before RBK-PROC-001 (internal/runbooks/runbooks.go) lets the restart through.
use autonomous_remediation_e.Prelude.{
  ℕ, ◌≡◌, ◌≢◌, refl, ap, ◌∙◌, sym, Bool, true, false, String, ◌==◌, arith, Bool-cases, inl, inr,
  ◌⊎◌, ◌↔◌,
}
use autonomous_remediation_e.Host.{System}
use autonomous_remediation_e.Runbooks.Files.{Platform}
use autonomous_remediation_e.Runbooks.Restart.{
  Site, ServiceHangConfig, Library, is_gone, with_pid, pid_file, stored, judged, probed, examined,
  check_hang,
}

module _ {Y : Type 0} (os : System (ℕ × Y)) (p : Platform (ℕ × Y)) (lib : Library Y)
    (cfg : ServiceHangConfig Y) where
  -- A process is known that is not the own one and is not gone.
  abbrev IsAlive : Site Y → Type 0
  IsAlive w = (w.rest.0 ≢ 0) × (w.rest.0 ≢ p.getpid) × (is_gone (os.probe w w.rest.0) ≡ false)

  -- No process is known, or it is the own one, or it is gone and was not fixed by the settings.
  abbrev IsUnknown : Site Y → Type 0
  IsUnknown w =
      (w.rest.0 ≡ 0)
      ⊎ ((w.rest.0 ≡ p.getpid) ⊎ ((is_gone (os.probe w w.rest.0) ≡ true) × (cfg.target_pid ≡ 0)))

  -- The answer of the health endpoint, with the process forgotten.
  abbrev answer : Site Y → ℕ ⊎ String
  answer w = (os.http_get cfg.health_url 1000000000 (with_pid 0 w)).1

  judged-known :
      (pid : ℕ) (x : Site Y × (ℕ ⊎ String)) → pid ≢ 0 → (judged os p lib cfg pid x).1 ≡ true
  unfolding judged
  judged-known pid (w, inr e) h = refl
  judged-known pid (w, inl status) h = ground arith

  judged-unknown :
      (x : Site Y × (ℕ ⊎ String)) → ((judged os p lib cfg 0 x).1 ≡ true) ↔ (x.1 ≢ inl 200)
  unfolding judged
  judged-unknown (w, inr e) = ((λ h. λ q. cc q), λ h. refl)
  judged-unknown (w, inl status) = elim (Bool-cases (status == 200)) [
    | inl e ↦
        let same : status ≡ 200 = ground arith in rw e ((λ h. cc h), λ h. absurd (h (ap inl same)))
    | inr e ↦ let other : status ≢ 200 = ground arith in rw e ((λ h. λ q. other (cc q)), λ h. refl)
  ]

  with_pid_same : (w : Site Y) → w.rest.0 ≡ 0 → with_pid 0 w ≡ w
  with_pid_same w h = ap (λ n. with_pid n w) (sym h)

  abbrev pub LetsThrough : Site Y → Type 0
  LetsThrough w = IsAlive w ⊎ (IsUnknown w × (answer w ≢ inl 200))

  -- Where the process is not alive, the check goes by the answer.
  by_answer :
      (w : Site Y) (passed : Bool)
      → passed ≡ (probed os p lib cfg (with_pid 0 w)).1
      → ¬ IsAlive w
      → IsUnknown w
      → (passed ≡ true) ↔ LetsThrough w
  unfolding probed
  by_answer w passed e dead u =
      let j = judged-unknown (os.http_get cfg.health_url 1000000000 (with_pid 0 w)) in
      (
        λ h. inr (u, j.0 (sym e ∙ h)),
        λ l. elim l [ inl alive ↦ absurd (dead alive) | inr (v, n) ↦ e ∙ j.1 n ],
      )

  examined_iff : (w : Site Y) → ((examined os p lib cfg w).1 ≡ true) ↔ LetsThrough w
  unfolding examined probed
  examined_iff w = elim (Bool-cases (w.rest.0 == 0)) [
    | inl none_known ↦
        let absent : w.rest.0 ≡ 0 = ground arith in
        by_answer w (examined os p lib cfg w).1
          (rw none_known
            (ap (λ (v : Site Y). (probed os p lib cfg v).1) (sym (with_pid_same w absent))))
          (λ a. a.0 absent) (inl absent)
    | inr known ↦ elim (Bool-cases (w.rest.0 == p.getpid)) [
      | inl own ↦
          let same : w.rest.0 ≡ p.getpid = ground arith in
          by_answer w (examined os p lib cfg w).1 (rw (known, own) refl) (λ a. a.1 same)
            (inr (inl same))
      | inr other ↦ elim (Bool-cases (is_gone (os.probe w w.rest.0))) [
        | inr alive ↦
            let there : IsAlive w = (ground arith, ground arith, alive) in
            (λ h. inl there, λ l. rw (known, other, alive) (judged-known w.rest.0 _ there.0))
        | inl gone ↦ elim (Bool-cases (cfg.target_pid == 0)) [
          | inl free ↦
              by_answer w (examined os p lib cfg w).1 (rw (known, other, gone, free) refl)
                (λ a. cc (a.2, gone)) (inr (inr (gone, ground arith)))
          | inr fixed ↦
              let refused : (examined os p lib cfg w).1 ≡ false =
                rw (known, other, gone, fixed) refl in
              (λ h. absurd (cc (h, refused)), λ l. absurd (ground arith))
        ]
      ]
    ]
  ]

  -- The check lets the restart through exactly if a process is known, alive and not the own one,
  -- whatever the health endpoint answers, or if no such process is known and the health endpoint
  -- does not answer 200; a process fixed by the settings that is gone is refused.
  pub check_hang_iff :
      (target : String) (w : Site Y)
      → ((check_hang os p lib cfg target w).1 ≡ true)
        ↔ LetsThrough (stored os p lib cfg (pid_file os p lib cfg w) w)
  unfolding check_hang
  check_hang_iff target w = examined_iff (stored os p lib cfg (pid_file os p lib cfg w) w)
