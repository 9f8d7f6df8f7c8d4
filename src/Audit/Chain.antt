-- ===== src/Audit/Chain.antt =====
-- What `Append` of internal/audit/ledger.go writes is what internal/audit/verify.go accepts and
-- what a restart reads back.
use autonomous_remediation_e.Prelude.{
  ℕ, ◌+◌, ◌^◌, ◌<◌, ◌≡◌, refl, ◌∙◌, true, false, List, [], ◌∷◌, some, arith, Bytes, bytes_eq,
  bytes_eq_refl, bytes_eq_iff, ltb, if◌then◌else◌, length, codes, subst,
}
use autonomous_remediation_e.Audit.{
  AuditEntry, LedgerFile, Ledger, written, ok, write_line, scanned, genesis_hash, new_entry, append,
  scan_tail, new_ledger, max_token,
}
use autonomous_remediation_e.Audit.Acceptance.{
  Accepts, Accepts-append, verify_lines-Accepts, scan_tail-append,
}
use autonomous_remediation_e.Audit.Verify.{
  valid, Scan, begin, accept, result_of, check_entry, verify_ledger,
}

-- What is passed to one `Append`, with the time that it reads.
pub record Request : Type 0 where
  pub timestamp : Bytes
  pub resource : Bytes
  pub runbook : Bytes
  pub state : Bytes
  pub payload : Bytes

abbrev pub empty_file : LedgerFile
empty_file = record { lines = []; torn = false }

module _ (digest : Bytes → Bytes) (line_size : AuditEntry → ℕ) where
  -- A ledger whose file the verifier accepts up to the variables `s`, and a restart reads back.
  record Kept (genesis : Bytes) (l : Ledger) (s : Scan) : Type 0 where
    whole : l.file.torn ≡ false
    accepts : Accepts digest line_size l.file.lines begin s
    reopens : scan_tail line_size l.file.lines genesis 0 ≡ ok (l.last_hash, l.next_seq)
    sequence : s.expected_seq ≡ l.next_seq
    first : l.next_seq ≡ 0 → l.last_hash ≡ genesis
    later :
        0 < l.next_seq
        → (s.expected_prev_hash ≡ l.last_hash)
          × (s.last_hash ≡ l.last_hash)
          × (s.first_prev_hash ≡ genesis)

  -- One successful `Append`.
  abbrev appended : Request → Ledger → Ledger
  appended q l = (append digest q.timestamp written true q.resource q.runbook q.state q.payload l).0

  abbrev entry_of : Request → Ledger → AuditEntry
  entry_of q l = new_entry digest q.timestamp q.resource q.runbook q.state q.payload l

  check-new_entry :
      (genesis : Bytes) (q : Request) (l : Ledger) (s : Scan)
      → Kept genesis l s
      → (check_entry digest line_size (entry_of q l) s).0 ≡ true
  unfolding check_entry new_entry
  check-new_entry genesis q l s k = ground (
    arith,
    k.sequence,
    k.later,
    bytes_eq_iff l.last_hash s.expected_prev_hash,
    bytes_eq_refl (entry_of q l).record_hash,
  )

  append-Kept :
      (genesis : Bytes) (q : Request) (l : Ledger) (s : Scan)
      → l.is_open ≡ true
      → ltb (line_size (entry_of q l)) max_token ≡ true
      → l.next_seq + 1 < 2 ^ 64
      → Kept genesis l s
      → Kept genesis (appended q l) (accept (entry_of q l) s)
  unfolding append write_line accept new_entry
  append-Kept genesis q l s live small room k =
      rw (live, k.whole)
        (record {
          whole = refl;
          accepts =
              Accepts-append digest line_size l.file.lines (entry_of q l) begin s k.accepts small
                (check-new_entry genesis q l s k);
          reopens =
              scan_tail-append digest line_size l.file.lines (entry_of q l) genesis l.last_hash 0
                l.next_seq small k.reopens;
          sequence = ground (arith, k.sequence);
          first = λ z. absurd (omega arith);
          later = λ p. (refl, refl, ground (arith, k.sequence, k.first, k.later));
        })

  -- The appends of a list of requests, each written and synced.
  unfoldable pub append_all : List Request → Ledger → Ledger
  append_all [] l = l
  append_all (q ∷ qs) l = append_all qs (appended q l)

  -- Each entry that is made fits into a line that the scanner reads.
  abbrev pub Fits : List Request → Ledger → Type 0
  Fits [] l = Unit
  Fits (q ∷ qs) l = (line_size (entry_of q l) < max_token) × Fits qs (appended q l)

  -- What is the same, and the sequence number.
  appended_fields :
      (q : Request) (l : Ledger)
      → l.is_open ≡ true
      → l.next_seq + 1 < 2 ^ 64
      → ((appended q l).is_open ≡ true)
        × ((appended q l).host_uuid ≡ l.host_uuid)
        × ((appended q l).next_seq ≡ l.next_seq + 1)
  unfolding append
  appended_fields q l live room = ground arith

  append_all-Kept :
      (genesis : Bytes) (qs : List Request) (l : Ledger) (s : Scan)
      → l.is_open ≡ true
      → l.next_seq + length qs < 2 ^ 64
      → Fits qs l
      → Kept genesis l s
      → let l' = append_all qs l in
        ((s' : Scan) × Kept genesis l' s')
        × (l'.is_open ≡ true)
        × (l'.host_uuid ≡ l.host_uuid)
        × (l'.next_seq ≡ l.next_seq + length qs)
  unfolding append_all
  append_all-Kept genesis [] l s live room fits k = ((s, k), live, refl, omega arith)
  append_all-Kept genesis (q ∷ qs) l s live room fits k =
      let (live', host', seq') = appended_fields q l live (omega arith) in
      let (kept, still, host'', seq'') =
        append_all-Kept genesis qs (appended q l) (accept (entry_of q l) s) live' (omega arith)
          fits.1 (append-Kept genesis q l s live (ground arith) (omega arith) k) in
      (kept, still, host'' ∙ host', omega arith)

  empty-Kept :
      (uuid : Bytes) {l : Ledger}
      → new_ledger line_size digest uuid (some empty_file) ≡ ok l
      → Kept (genesis_hash digest l.host_uuid (codes "INIT")) l begin
        × (l.is_open ≡ true)
        × (l.next_seq ≡ 0)
        × (l.host_uuid ≡ (if bytes_eq uuid [] then codes "localhost-arm64" else uuid))
  unfolding new_ledger scan_tail
  empty-Kept uuid {l} e =
      let same : empty_file ≡ l.file = ground arith in
      (
        record {
          whole = ground arith;
          accepts =
              subst (λ (f : LedgerFile). Accepts digest line_size f.lines begin begin) same refl;
          reopens = ground arith;
          sequence = ground arith;
          first = λ z. ground arith;
          later = λ p. absurd (ground arith);
        },
        ground arith,
        ground arith,
        ground arith,
      )

  Kept-verifies :
      (genesis : Bytes) (l : Ledger) (s : Scan)
      → Kept genesis l s
      → 0 < l.next_seq
      → verify_ledger digest line_size l.file
        ≡ valid
            (record { total_records = l.next_seq; genesis_hash = genesis; tail_hash = l.last_hash })
  unfolding verify_ledger scanned result_of
  Kept-verifies genesis l s k p =
      (verify_lines-Accepts digest line_size l.file.lines begin s k.accepts
        ∙ ground (arith, k.later p, k.sequence))

  Kept-reopens :
      (uuid genesis : Bytes) (l : Ledger) (s : Scan)
      → Kept genesis l s
      → l.is_open ≡ true
      → l.host_uuid ≡ (if bytes_eq uuid [] then codes "localhost-arm64" else uuid)
      → genesis ≡ genesis_hash digest l.host_uuid (codes "INIT")
      → new_ledger line_size digest uuid (some l.file) ≡ ok l
  unfolding new_ledger scanned
  Kept-reopens uuid genesis l s k live host e = rw (← host, ← e, k.reopens) (ground (arith, live))

  -- Round trip. From a ledger that is opened over an empty file, any requests (one at least and
  -- fewer than 2^64) are appended, each written and synced and each entry shorter than a scanner
  -- line. Then the file verifies, with as many records as there were requests, the genesis hash
  -- of the host and the ledger's last hash at the tail; and a restart over that file gives the
  -- same ledger, its sequence number and last hash included.
  pub append_all-verifies :
      (uuid : Bytes) (q : Request) (qs : List Request) {l : Ledger}
      → new_ledger line_size digest uuid (some empty_file) ≡ ok l
      → length (q ∷ qs) < 2 ^ 64
      → Fits (q ∷ qs) l
      → let l' = append_all (q ∷ qs) l in
        (verify_ledger digest line_size l'.file
          ≡ valid (record {
            total_records = length (q ∷ qs);
            genesis_hash = genesis_hash digest l.host_uuid (codes "INIT");
            tail_hash = l'.last_hash;
          }))
        × (new_ledger line_size digest uuid (some l'.file) ≡ ok l')
  append_all-verifies uuid q qs {l} e room fits =
      let (start, live, zero_seq, host) = empty-Kept uuid e in
      let genesis = genesis_hash digest l.host_uuid (codes "INIT") in
      let ((s, k), live', host', seq) =
        append_all-Kept genesis (q ∷ qs) l begin live (omega arith) fits start in
      let l' = append_all (q ∷ qs) l in
      (
        Kept-verifies genesis l' s k (omega arith) ∙ ground (arith, seq, zero_seq),
        Kept-reopens uuid genesis l' s k live' (host' ∙ host) (rw host'),
      )
