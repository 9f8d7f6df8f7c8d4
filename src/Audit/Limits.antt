-- ===== src/Audit/Limits.antt =====
-- What the verdict of internal/audit/verify.go does not show, and which calls of `Append`
-- (internal/audit/ledger.go) leave a file that no longer verifies.
use mathlib.Core.List.{append_assoc}
use autonomous_remediation_e.Prelude.{
  ℕ, ◌^◌, ◌<◌, ◌≡◌, ◌≢◌, refl, sym, ◌∙◌, ap, Bool, true, false, List, [], ◌∷◌, ◌++◌, arith, Bytes,
  ltb, Bool-cases, inl, inr,
}
use autonomous_remediation_e.Audit.{
  AuditEntry, Line, blank, malformed, entry, LedgerFile, Ledger, written, ok, err, sync_failed,
  join_last, with_line, write_line, scanned, compute_record_hash, new_entry, append, max_token,
}
use autonomous_remediation_e.Audit.Verify.{
  VerificationResult, valid, Scan, begin, accept, result_of, check_entry, verify_lines,
  verify_ledger,
}
use autonomous_remediation_e.Audit.Acceptance.{
  Accepts-of_valid, Accepts-of_append, verify_lines-Accepts, verify_lines-append,
}
use autonomous_remediation_e.Audit.Poison.{
  poisoned_before, join_last-poisoned, verify_lines-poisoned,
}
use autonomous_remediation_e.Audit.Integrity.{covered}

abbrev pub map_entries : (AuditEntry → AuditEntry) → List Line → List Line
map_entries g [] = []
map_entries g (blank ∷ ls) = blank ∷ map_entries g ls
map_entries g (malformed ∷ ls) = malformed ∷ map_entries g ls
map_entries g (entry e ∷ ls) = entry (g e) ∷ map_entries g ls

-- Two entries that the verifier cannot tell apart: the same sequence number, hashes and covered
-- bytes.
abbrev pub LooksSame : (AuditEntry → ℕ) → AuditEntry → AuditEntry → Type 0
LooksSame line_size e' e =
    (e'.seq ≡ e.seq)
    × (e'.prev_record_hash ≡ e.prev_record_hash)
    × (e'.record_hash ≡ e.record_hash)
    × (covered e' ≡ covered e)
    × (ltb (line_size e') max_token ≡ ltb (line_size e) max_token)

module _ (digest : Bytes → Bytes) (line_size : AuditEntry → ℕ) where
  module _ (g : AuditEntry → AuditEntry)
      (same : (e : AuditEntry) → LooksSame line_size (g e) e) where
    check_entry-blind :
        (e : AuditEntry) (s : Scan)
        → check_entry digest line_size (g e) s ≡ check_entry digest line_size e s
    unfolding check_entry compute_record_hash
    check_entry-blind e s = let (p, q, r, c, _) = same e in rw (ap digest c, p, q, r)

    accept-blind : (e : AuditEntry) (s : Scan) → accept (g e) s ≡ accept e s
    unfolding accept
    accept-blind e s = let (p, q, r, c, _) = same e in rw (q, r)

    verify_lines-blind :
        (ls : List Line) (s : Scan)
        → verify_lines digest line_size (map_entries g ls) s ≡ verify_lines digest line_size ls s
    unfolding verify_lines
    verify_lines-blind [] s = refl
    verify_lines-blind (blank ∷ ls) s = verify_lines-blind ls s
    verify_lines-blind (malformed ∷ ls) s = refl
    verify_lines-blind (entry e ∷ ls) s =
        let (p, q, r, c, small) = same e in
        rw (small, check_entry-blind e s, accept-blind e s, verify_lines-blind ls (accept e s)) refl

  -- A limit of the check. Whatever rewriting `g` of the records keeps the sequence numbers, the
  -- hashes and the bytes covered, the file verifies exactly as before: the host's UUID is not
  -- covered, and neither is where a covered field ends and the next begins.
  pub verify_ledger-blind :
      (g : AuditEntry → AuditEntry) (ls : List Line)
      → ((e : AuditEntry) → LooksSame line_size (g e) e)
      → verify_ledger digest line_size (record { lines = map_entries g ls; torn = false })
        ≡ verify_ledger digest line_size (record { lines = ls; torn = false })
  unfolding verify_ledger scanned
  verify_ledger-blind g ls same = verify_lines-blind g same ls begin

  -- Another limit. Cutting lines from the end of a file that verifies leaves a file that verifies:
  -- only a tail hash that is kept elsewhere shows the loss.
  pub verify_ledger-truncated :
      (ls cut : List Line) {r : VerificationResult}
      → verify_ledger digest line_size (record { lines = ls ++ cut; torn = false }) ≡ valid r
      → (r' : VerificationResult) × (verify_ledger digest line_size
            (record { lines = ls; torn = false })
          ≡ valid r')
  unfolding verify_ledger scanned
  verify_ledger-truncated ls cut h =
      let (s, a) = Accepts-of_append digest line_size ls cut begin h in
      (result_of s, verify_lines-Accepts digest line_size ls begin s a)

  -- The second of two records with one sequence number is refused.
  twice_refused :
      (e e' : AuditEntry) (s : Scan)
      → e.seq ≡ s.expected_seq
      → e'.seq ≡ s.expected_seq
      → s.expected_seq < 2 ^ 64
      → (r : VerificationResult)
      → verify_lines digest line_size (entry e ∷ entry e' ∷ []) s ≢ valid r
  unfolding verify_lines check_entry accept
  twice_refused e e' s p q room r h = ground arith

  -- The file after one written line, and after two.
  append-file :
      (l : Ledger) (synced : Bool) (ts res rb st pd : Bytes)
      → l.is_open ≡ true
      → l.file.torn ≡ false
      → (append digest ts written synced res rb st pd l).0.file ≡ record {
        lines = l.file.lines ++ (entry (new_entry digest ts res rb st pd l) ∷ []);
        torn = false;
      }
  unfolding append write_line with_line
  append-file l true ts res rb st pd live whole = rw (live, whole)
  append-file l false ts res rb st pd live whole = rw (live, whole)

  -- Where the last line lacks its newline, the first of the two joins it.
  append-file_torn :
      (l : Ledger) (synced : Bool) (ts res rb st pd : Bytes)
      → l.is_open ≡ true
      → l.file.torn ≡ true
      → (append digest ts written synced res rb st pd l).0.file
        ≡ record { lines = join_last l.file.lines; torn = false }
  unfolding append write_line with_line
  append-file_torn l true ts res rb st pd live torn = rw (live, torn)
  append-file_torn l false ts res rb st pd live torn = rw (live, torn)

  -- An append that is not synced, and one more.
  module _ (l : Ledger) (ts ts' res res' rb rb' st st' pd pd' : Bytes)
      (live : l.is_open ≡ true) where
    abbrev unsynced : Ledger
    unsynced = (append digest ts written false res rb st pd l).0

    abbrev twice : Ledger
    twice = (append digest ts' written true res' rb' st' pd' unsynced).0

    unsynced-is_open : unsynced.is_open ≡ true
    unfolding append
    unsynced-is_open = ground arith

    unsynced-torn :
        l.file.torn ≡ true
        → (r : VerificationResult) → verify_ledger digest line_size twice.file ≢ valid r
    unfolding verify_ledger scanned
    unsynced-torn torn r v =
        let one = append-file_torn l false ts res rb st pd live torn in
        let two =
          append-file unsynced true ts' res' rb' st' pd' unsynced-is_open
            (ap (λ (f : LedgerFile). f.torn) one) in
        let e' = new_entry digest ts' res' rb' st' pd' unsynced in
        let bad =
          poisoned_before line_size (join_last l.file.lines) (entry e' ∷ [])
            (join_last-poisoned line_size l.file.lines) in
        let lines : twice.file.lines ≡ join_last l.file.lines ++ (entry e' ∷ []) =
          ap (λ (f : LedgerFile). f.lines) two
          ∙ ap (λ (f : LedgerFile). f.lines ++ (entry e' ∷ [])) one in
        verify_lines-poisoned line_size digest twice.file.lines begin r (rw lines bad) v

    unsynced-whole :
        {r : VerificationResult}
        → verify_ledger digest line_size l.file ≡ valid r
        → r.total_records ≡ l.next_seq
        → l.next_seq < 2 ^ 64
        → l.file.torn ≡ false
        → (r' : VerificationResult) → verify_ledger digest line_size twice.file ≢ valid r'
    unfolding append verify_ledger scanned result_of new_entry
    unsynced-whole {r} v total room whole r' v' =
        let l' = unsynced in
        let e = new_entry digest ts res rb st pd l in
        let e' = new_entry digest ts' res' rb' st' pd' l' in
        let (s, a, same) = Accepts-of_valid digest line_size l.file.lines begin v in
        let one = append-file l false ts res rb st pd live whole in
        let two =
          append-file l' true ts' res' rb' st' pd' unsynced-is_open
            (ap (λ (f : LedgerFile). f.torn) one) in
        let n : s.expected_seq ≡ l.next_seq =
          ap (λ (x : VerificationResult). x.total_records) same ∙ total in
        let stays : l'.next_seq ≡ l.next_seq = ground arith in
        let final =
          two
          ∙ ap (λ (f : LedgerFile). record { lines = f.lines ++ (entry e' ∷ []); torn = false })
              one in
        twice_refused e e' s (sym n) (stays ∙ sym n) (rw n room) r' (
          sym
            (verify_lines-append digest line_size l.file.lines (entry e ∷ entry e' ∷ []) begin s a)
          ∙ ap (λ ls. verify_lines digest line_size ls begin)
              (sym (append_assoc l.file.lines (entry e ∷ []) (entry e' ∷ [])))
          ∙ ap (verify_ledger digest line_size) (sym final)
          ∙ v')

  -- After a `Sync` that failed the sequence number is used again: whatever ledger the file of
  -- which verifies up to its own sequence number, an append that is written and not synced and
  -- then one that succeeds leave a file that does not verify.
  pub append-unsynced :
      (l : Ledger) (ts ts' res res' rb rb' st st' pd pd' : Bytes) {r : VerificationResult}
      → l.is_open ≡ true
      → verify_ledger digest line_size l.file ≡ valid r
      → r.total_records ≡ l.next_seq
      → l.next_seq < 2 ^ 64
      → let (l', failure) = append digest ts written false res rb st pd l in
        let (l'', success) = append digest ts' written true res' rb' st' pd' l' in
        (failure ≡ err sync_failed)
        × ((e : AuditEntry) × (success ≡ ok e))
        × ((r' : VerificationResult) → verify_ledger digest line_size l''.file ≢ valid r')
  unfolding append
  append-unsynced l ts ts' res res' rb rb' st st' pd pd' {r} live v total room =
      let e' =
        new_entry digest ts' res' rb' st' pd' (append digest ts written false res rb st pd l).0 in
      (
        ground arith,
        (e', ground arith),
        elim (Bool-cases l.file.torn) [
          | inl torn ↦ unsynced-torn l ts ts' res res' rb rb' st st' pd pd' live torn
          | inr whole ↦
              unsynced-whole l ts ts' res res' rb rb' st st' pd pd' live v total room whole
        ],
      )
