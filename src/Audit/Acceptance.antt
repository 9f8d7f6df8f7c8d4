-- ===== src/Audit/Acceptance.antt =====
-- When the loops over a ledger file (internal/audit/ledger.go and verify.go) take every line.
use autonomous_remediation_e.Prelude.{
  ℕ, ◌≡◌, refl, sym, true, List, [], ◌∷◌, ◌++◌, arith, Bytes, ltb, subst, Bool-cases, inl, inr,
}
use autonomous_remediation_e.Audit.{
  AuditEntry, Line, blank, malformed, entry, ok, next, scan_tail, max_token,
}
use autonomous_remediation_e.Audit.Verify.{
  VerificationResult, valid, Scan, accept, result_of, check_entry, verify_lines,
}

module _ (digest : Bytes → Bytes) (line_size : AuditEntry → ℕ) where
  -- The loop takes all the lines, from the variables `s` to `s'`.
  abbrev pub Accepts : List Line → Scan → Scan → Type 0
  Accepts [] s s' = s ≡ s'
  Accepts (blank ∷ ls) s s' = Accepts ls s s'
  Accepts (malformed ∷ ls) s s' = ⊥
  Accepts (entry e ∷ ls) s s' =
      (ltb (line_size e) max_token ≡ true)
      × ((check_entry digest line_size e s).0 ≡ true)
      × Accepts ls (accept e s) s'

module _ (digest : Bytes → Bytes) (line_size : AuditEntry → ℕ) where
  pub Accepts-append :
      (ls : List Line) (e : AuditEntry) (s s' : Scan)
      → Accepts digest line_size ls s s'
      → ltb (line_size e) max_token ≡ true
      → (check_entry digest line_size e s').0 ≡ true
      → Accepts digest line_size (ls ++ (entry e ∷ [])) s (accept e s')
  Accepts-append [] e s s' h small good =
      (small, subst (λ x. (check_entry digest line_size e x).0 ≡ true) (sym h) good, rw h)
  Accepts-append (blank ∷ ls) e s s' h small good = Accepts-append ls e s s' h small good
  Accepts-append (malformed ∷ ls) e s s' h small good = absurd h
  Accepts-append (entry x ∷ ls) e s s' h small good =
      (h.0, h.1, Accepts-append ls e (accept x s) s' h.2 small good)

  pub verify_lines-Accepts :
      (ls : List Line) (s s' : Scan)
      → Accepts digest line_size ls s s'
      → verify_lines digest line_size ls s ≡ valid (result_of s')
  unfolding verify_lines
  verify_lines-Accepts [] s s' h = rw h
  verify_lines-Accepts (blank ∷ ls) s s' h = verify_lines-Accepts ls s s' h
  verify_lines-Accepts (malformed ∷ ls) s s' h = absurd h
  verify_lines-Accepts (entry x ∷ ls) s s' h =
      rw (h.0, h.1) (verify_lines-Accepts ls (accept x s) s' h.2)

  pub Accepts-of_valid :
      (ls : List Line) (s : Scan) {r : VerificationResult}
      → verify_lines digest line_size ls s ≡ valid r
      → (s' : Scan) × Accepts digest line_size ls s s' × (result_of s' ≡ r)
  unfolding verify_lines
  Accepts-of_valid [] s h = (s, refl, ground arith)
  Accepts-of_valid (blank ∷ ls) s h = Accepts-of_valid ls s h
  Accepts-of_valid (malformed ∷ ls) s h = cc
  Accepts-of_valid (entry x ∷ ls) s {r} h = elim (Bool-cases (ltb (line_size x) max_token)) [
    | inr big ↦ let h' = rw big at h in cc
    | inl small ↦ elim (Bool-cases (check_entry digest line_size x s).0) [
      | inr bad ↦ let h' = rw (small, bad) at h in cc
      | inl good ↦
          let (s', a, e) = Accepts-of_valid ls (accept x s) (rw (small, good) at h) in
          (s', (small, good, a), e)
    ]
  ]

  pub scan_tail-append :
      (ls : List Line) (e : AuditEntry) (hash hash' : Bytes) (seq seq' : ℕ)
      → ltb (line_size e) max_token ≡ true
      → scan_tail line_size ls hash seq ≡ ok (hash', seq')
      → scan_tail line_size (ls ++ (entry e ∷ [])) hash seq ≡ ok (e.record_hash, next e.seq)
  unfolding scan_tail
  scan_tail-append [] e hash hash' seq seq' small h = rw small
  scan_tail-append (blank ∷ ls) e hash hash' seq seq' small h =
      scan_tail-append ls e hash hash' seq seq' small h
  scan_tail-append (malformed ∷ ls) e hash hash' seq seq' small h = cc
  scan_tail-append (entry x ∷ ls) e hash hash' seq seq' small h =
      elim (Bool-cases (ltb (line_size x) max_token)) [
        | inr big ↦ let h' = rw big at h in cc
        | inl fits ↦
            rw fits
              (scan_tail-append ls e x.record_hash hash' (next x.seq) seq' small (rw fits at h))
      ]

  -- Lines that are taken can be put in front of, or cut from, any others.
  pub verify_lines-append :
      (ls more : List Line) (s s' : Scan)
      → Accepts digest line_size ls s s'
      → verify_lines digest line_size (ls ++ more) s ≡ verify_lines digest line_size more s'
  unfolding verify_lines
  verify_lines-append [] more s s' h = rw h
  verify_lines-append (blank ∷ ls) more s s' h = verify_lines-append ls more s s' h
  verify_lines-append (malformed ∷ ls) more s s' h = absurd h
  verify_lines-append (entry x ∷ ls) more s s' h =
      rw (h.0, h.1) (verify_lines-append ls more (accept x s) s' h.2)

  pub Accepts-of_append :
      (ls more : List Line) (s : Scan) {r : VerificationResult}
      → verify_lines digest line_size (ls ++ more) s ≡ valid r
      → (s' : Scan) × Accepts digest line_size ls s s'
  unfolding verify_lines
  Accepts-of_append [] more s h = (s, refl)
  Accepts-of_append (blank ∷ ls) more s h = Accepts-of_append ls more s h
  Accepts-of_append (malformed ∷ ls) more s h = cc
  Accepts-of_append (entry x ∷ ls) more s h = elim (Bool-cases (ltb (line_size x) max_token)) [
    | inr big ↦ let h' = rw big at h in cc
    | inl small ↦ elim (Bool-cases (check_entry digest line_size x s).0) [
      | inr bad ↦ let h' = rw (small, bad) at h in cc
      | inl good ↦
          let (s', a) = Accepts-of_append ls more (accept x s) (rw (small, good) at h) in
          (s', (small, good, a))
    ]
  ]
