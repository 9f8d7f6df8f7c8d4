-- ===== src/Audit/Integrity.antt =====
-- What a valid verdict of internal/audit/verify.go says of a ledger file, and what it leaves open.
use autonomous_remediation_e.Prelude.{
  ℕ, ◌+◌, ◌^◌, ◌<◌, ◌≡◌, refl, sym, ◌∙◌, ap, true, List, [], ◌∷◌, arith, Bytes, bytes_eq_iff,
  length, append-split,
}
use autonomous_remediation_e.Audit.{
  AuditEntry, Line, blank, malformed, entry, LedgerFile, hashed, scanned, compute_record_hash,
}
use autonomous_remediation_e.Audit.Verify.{
  VerificationResult, valid, Scan, begin, accept, result_of, check_entry, verify_ledger,
}
use autonomous_remediation_e.Audit.Acceptance.{Accepts, Accepts-of_valid}

-- The bytes that the record hash of an entry covers.
abbrev pub covered : AuditEntry → Bytes
covered e =
    hashed e.prev_record_hash e.seq e.timestamp e.resource_id e.state e.runbook_id e.payload_digest

-- The records among the lines.
abbrev pub records : List Line → List AuditEntry
records [] = []
records (blank ∷ ls) = records ls
records (malformed ∷ ls) = records ls
records (entry e ∷ ls) = e ∷ records ls

-- Record by record, the same bytes are covered and the same hash is stored.
abbrev pub SameRecords : List AuditEntry → List AuditEntry → Type 0
SameRecords [] [] = Unit
SameRecords [] (_ ∷ _) = ⊥
SameRecords (_ ∷ _) [] = ⊥
SameRecords (e ∷ es) (e' ∷ es') =
    (covered e ≡ covered e') × (e.record_hash ≡ e'.record_hash) × SameRecords es es'

module _ (digest : Bytes → Bytes) where
  -- No two records at the same place are a collision of the hash.
  abbrev pub NoCollision : List AuditEntry → List AuditEntry → Type 0
  NoCollision [] _ = Unit
  NoCollision (_ ∷ _) [] = Unit
  NoCollision (e ∷ es) (e' ∷ es') =
      (digest (covered e) ≡ digest (covered e') → covered e ≡ covered e') × NoCollision es es'

module _ (digest : Bytes → Bytes) (line_size : AuditEntry → ℕ) where
  -- What the three tests say of a record that passes.
  check_entry_sound :
      (e : AuditEntry) (s : Scan)
      → (check_entry digest line_size e s).0 ≡ true
      → (e.seq ≡ s.expected_seq)
        × (digest (covered e) ≡ e.record_hash)
        × (0 < s.expected_seq → e.prev_record_hash ≡ s.expected_prev_hash)
  unfolding check_entry compute_record_hash
  check_entry_sound e s h = ground (
    arith,
    bytes_eq_iff e.prev_record_hash s.expected_prev_hash,
    bytes_eq_iff (digest (covered e)) e.record_hash,
  )

  -- The loop over the records alone.
  AcceptsAll : List AuditEntry → Scan → Scan → Type 0
  AcceptsAll [] s s' = s ≡ s'
  AcceptsAll (e ∷ es) s s' =
      ((check_entry digest line_size e s).0 ≡ true) × AcceptsAll es (accept e s) s'

  Accepts-records :
      (ls : List Line) (s s' : Scan)
      → Accepts digest line_size ls s s'
      → AcceptsAll (records ls) s s'
  unfolding AcceptsAll
  Accepts-records [] s s' h = h
  Accepts-records (blank ∷ ls) s s' h = Accepts-records ls s s' h
  Accepts-records (malformed ∷ ls) s s' h = absurd h
  Accepts-records (entry e ∷ ls) s s' h = (h.1, Accepts-records ls (accept e s) s' h.2)

  module _ (fixed : (x : Bytes) → length (digest x) ≡ 64) where
    -- Read backwards from a common last hash, each record pins the one before.
    pinned :
        (es es' : List AuditEntry) (s s' t t' : Scan)
        → length es ≡ length es'
        → 0 < s.expected_seq
        → s.expected_seq ≡ s'.expected_seq
        → s.expected_seq + length es < 2 ^ 64
        → s.last_hash ≡ s.expected_prev_hash
        → s'.last_hash ≡ s'.expected_prev_hash
        → length s.expected_prev_hash ≡ length s'.expected_prev_hash
        → AcceptsAll es s t
        → AcceptsAll es' s' t'
        → t.last_hash ≡ t'.last_hash
        → NoCollision digest es es'
        → SameRecords es es' × (s.expected_prev_hash ≡ s'.expected_prev_hash)
    unfolding AcceptsAll accept hashed
    pinned [] [] s s' t t' len pos seq room p p' w a a' end nc = (
      tt,
      sym p ∙ ap (λ (x : Scan). x.last_hash) a ∙ end ∙ sym (ap (λ (x : Scan). x.last_hash) a') ∙ p',
    )
    pinned [] (e' ∷ es') s s' t t' len pos seq room p p' w a a' end nc = absurd (omega arith)
    pinned (e ∷ es) [] s s' t t' len pos seq room p p' w a a' end nc = absurd (omega arith)
    pinned (e ∷ es) (e' ∷ es') s s' t t' len pos seq room p p' w a a' end nc =
        let (q, d, b) = check_entry_sound e s a.0 in
        let (q', d', b') = check_entry_sound e' s' a'.0 in
        let back : length s'.expected_prev_hash ≡ length e'.prev_record_hash =
          ap (length {0}) (sym (b' (omega arith))) in
        let widths : length e.record_hash ≡ length e'.record_hash =
          ap (length {0}) (sym d)
          ∙ fixed (covered e)
          ∙ sym (fixed (covered e'))
          ∙ ap (length {0}) d' in
        let (rest, hash) =
          pinned es es' (accept e s) (accept e' s') t t' (omega arith) (omega arith) (omega arith)
            (omega arith) refl refl widths a.1 a'.1 end nc.1 in
        let same = nc.0 (d ∙ hash ∙ sym d') in
        let (prev, _) =
          append-split e.prev_record_hash e'.prev_record_hash _ _
            (ap (length {0}) (b pos) ∙ w ∙ back) same in
        ((same, hash, rest), sym (b pos) ∙ prev ∙ b' (omega arith))

    -- The first record, whose pointer is not checked.
    pinned_first :
        (es es' : List AuditEntry) (t t' : Scan)
        → length es ≡ length es'
        → length es < 2 ^ 64
        → AcceptsAll es begin t
        → AcceptsAll es' begin t'
        → t.last_hash ≡ t'.last_hash
        → NoCollision digest es es'
        → SameRecords es es'
    unfolding AcceptsAll accept
    pinned_first [] [] t t' len room a a' end nc = tt
    pinned_first [] (e' ∷ es') t t' len room a a' end nc = absurd (omega arith)
    pinned_first (e ∷ es) [] t t' len room a a' end nc = absurd (omega arith)
    pinned_first (e ∷ es) (e' ∷ es') t t' len room a a' end nc =
        let (q, d, b) = check_entry_sound e begin a.0 in
        let (q', d', b') = check_entry_sound e' begin a'.0 in
        let widths : length e.record_hash ≡ length e'.record_hash =
          ap (length {0}) (sym d)
          ∙ fixed (covered e)
          ∙ sym (fixed (covered e'))
          ∙ ap (length {0}) d' in
        let (rest, hash) =
          pinned es es' (accept e begin) (accept e' begin) t t' (omega arith) (omega arith) refl
            (omega arith) refl refl widths a.1 a'.1 end nc.1 in
        (nc.0 (d ∙ hash ∙ sym d'), hash, rest)

    -- Tamper evidence. Two files of the same number of records, below 2^64, that both verify and
    -- have the same tail hash agree record by record in the bytes that the hash covers and in the
    -- stored hashes, unless two records at the same place collide under the hash. (`fixed`: a
    -- hexadecimal SHA-256 has 64 digits.)
    pub tail_hash_pins :
        (f f' : LedgerFile) {r r' : VerificationResult}
        → verify_ledger digest line_size f ≡ valid r
        → verify_ledger digest line_size f' ≡ valid r'
        → length (records (scanned f)) ≡ length (records (scanned f'))
        → length (records (scanned f)) < 2 ^ 64
        → r.tail_hash ≡ r'.tail_hash
        → NoCollision digest (records (scanned f)) (records (scanned f'))
        → SameRecords (records (scanned f)) (records (scanned f'))
    unfolding verify_ledger result_of
    tail_hash_pins f f' v v' len room end nc =
        let (t, a, e) = Accepts-of_valid digest line_size (scanned f) begin v in
        let (t', a', e') = Accepts-of_valid digest line_size (scanned f') begin v' in
        pinned_first (records (scanned f)) (records (scanned f')) t t' len room
          (Accepts-records (scanned f) begin t a) (Accepts-records (scanned f') begin t' a')
          (ap (λ (x : VerificationResult). x.tail_hash) e
            ∙ end
            ∙ sym (ap (λ (x : VerificationResult). x.tail_hash) e'))
          nc
