-- ===== src/Audit/Poison.antt =====
-- Appends (internal/audit/ledger.go) that leave a file which no later call mends: neither the
-- verifier (internal/audit/verify.go) nor a restart reads it again.
use autonomous_remediation_e.Prelude.{
  ℕ, ◌≤◌, ◌≡◌, ◌≢◌, Bool, true, false, ◌||◌, not, ◌⊎◌, List, [], ◌∷◌, ◌++◌, some, arith, Bytes, ltb,
  if◌then◌else◌, Bool-cases, inl, inr, refl, bytes_eq, codes,
}
use autonomous_remediation_e.Audit.{
  AuditEntry, Line, blank, malformed, entry, LedgerFile, Ledger, WriteOutcome, written, not_written,
  cut_off, unended, join_last, with_line, Result, ok, err, next, write_line, scanned, genesis_hash,
  new_entry, append, scan_tail, opened, new_ledger, max_token,
}
use autonomous_remediation_e.Audit.Verify.{
  VerificationResult, valid, Scan, begin, accept, verify_lines, verify_ledger,
}
use autonomous_remediation_e.Audit.Chain.{Request}

-- A line that ends every scan with an error.
abbrev pub is_poison : (AuditEntry → ℕ) → Line → Bool
is_poison line_size blank = false
is_poison line_size malformed = true
is_poison line_size (entry e) = not (ltb (line_size e) max_token)

abbrev pub is_poisoned : (AuditEntry → ℕ) → List Line → Bool
is_poisoned line_size [] = false
is_poisoned line_size (x ∷ ls) = is_poison line_size x || is_poisoned line_size ls

module _ (line_size : AuditEntry → ℕ) where
  pub poisoned_before :
      (ls more : List Line)
      → is_poisoned line_size ls ≡ true
      → is_poisoned line_size (ls ++ more) ≡ true
  poisoned_before [] more h = cc
  poisoned_before (x ∷ ls) more h = ground (arith, poisoned_before ls more)

  poisoned_by :
      (ls : List Line) (x : Line)
      → is_poison line_size x ≡ true
      → is_poisoned line_size (ls ++ (x ∷ [])) ≡ true
  poisoned_by [] x h = rw h
  poisoned_by (y ∷ ls) x h = ground (arith, poisoned_by ls x h)

  -- The scan of a restart fails.
  scan_tail-poisoned :
      (ls : List Line) (hash : Bytes) (seq : ℕ) (r : Bytes × ℕ)
      → is_poisoned line_size ls ≡ true
      → scan_tail line_size ls hash seq ≢ ok r
  unfolding scan_tail
  scan_tail-poisoned [] hash seq r h e = cc
  scan_tail-poisoned (blank ∷ ls) hash seq r h e = scan_tail-poisoned ls hash seq r h e
  scan_tail-poisoned (malformed ∷ ls) hash seq r h e = cc
  scan_tail-poisoned (entry x ∷ ls) hash seq r h e =
      ground (arith, scan_tail-poisoned ls x.record_hash (next x.seq) r)

  pub verify_lines-poisoned :
      (digest : Bytes → Bytes) (ls : List Line) (s : Scan) (r : VerificationResult)
      → is_poisoned line_size ls ≡ true
      → verify_lines digest line_size ls s ≢ valid r
  unfolding verify_lines
  verify_lines-poisoned digest [] s r h e = cc
  verify_lines-poisoned digest (blank ∷ ls) s r h e = verify_lines-poisoned digest ls s r h e
  verify_lines-poisoned digest (malformed ∷ ls) s r h e = cc
  verify_lines-poisoned digest (entry x ∷ ls) s r h e =
      ground (arith, verify_lines-poisoned digest ls (accept x s) r)

  pub join_last-poisoned : (ls : List Line) → is_poisoned line_size (join_last ls) ≡ true
  unfolding join_last
  join_last-poisoned [] = refl
  join_last-poisoned (x ∷ []) = refl
  join_last-poisoned (x ∷ y ∷ ls) = ground (arith, join_last-poisoned (y ∷ ls))

  with_line-poisoned :
      (f : LedgerFile) (x : Line)
      → is_poisoned line_size f.lines ≡ true
      → is_poisoned line_size (with_line f x) ≡ true
  unfolding with_line
  with_line-poisoned f x h = elim (Bool-cases f.torn) [
    | inl torn ↦ rw torn (join_last-poisoned f.lines)
    | inr whole ↦ rw whole (poisoned_before f.lines (x ∷ []) h)
  ]

  with_line_poisons :
      (f : LedgerFile) (x : Line)
      → is_poison line_size x ≡ true
      → is_poisoned line_size (with_line f x) ≡ true
  unfolding with_line
  with_line_poisons f x h = elim (Bool-cases f.torn) [
    | inl torn ↦ rw torn (join_last-poisoned f.lines)
    | inr whole ↦ rw whole (poisoned_by f.lines x h)
  ]

  -- A write leaves a poisoned file poisoned, however it ends.
  write_line-poisoned :
      (o : WriteOutcome) (e : AuditEntry) (f : LedgerFile)
      → is_poisoned line_size (scanned f) ≡ true
      → is_poisoned line_size (scanned (write_line o e f)) ≡ true
  unfolding write_line scanned
  write_line-poisoned not_written e f h = h
  write_line-poisoned cut_off e f h = with_line-poisoned f malformed h
  write_line-poisoned unended e f h = with_line-poisoned f (entry e) h
  write_line-poisoned written e f h = with_line-poisoned f (entry e) h

  cut_off_poisons :
      (e : AuditEntry) (f : LedgerFile)
      → is_poisoned line_size (scanned (write_line cut_off e f)) ≡ true
  unfolding write_line scanned
  cut_off_poisons e f = with_line_poisons f malformed refl

  written_poisons :
      (e : AuditEntry) (f : LedgerFile)
      → max_token ≤ line_size e
      → is_poisoned line_size (scanned (write_line written e f)) ≡ true
  unfolding write_line scanned
  written_poisons e f big = with_line_poisons f (entry e) (ground arith)

  -- What is written after a line without its newline.
  torn_poisons :
      (o : WriteOutcome) (e : AuditEntry) (f : LedgerFile)
      → f.torn ≡ true
      → o ≢ not_written
      → is_poisoned line_size (scanned (write_line o e f)) ≡ true
  unfolding write_line scanned with_line
  torn_poisons not_written e f torn some_bytes = absurd (some_bytes refl)
  torn_poisons cut_off e f torn some_bytes = rw torn (join_last-poisoned f.lines)
  torn_poisons unended e f torn some_bytes = rw torn (join_last-poisoned f.lines)
  torn_poisons written e f torn some_bytes = rw torn (join_last-poisoned f.lines)

opened_ok :
    (f : LedgerFile) (host : Bytes) (x : Result (Bytes × ℕ)) (l : Ledger)
    → opened f host x ≡ ok l
    → (r : Bytes × ℕ) × (x ≡ ok r)
opened_ok f host (ok r) l h = (r, refl)
opened_ok f host (err x) l h = cc

-- One call of `Append`: its arguments, and how its `Write` and its `Sync` end.
pub record Call : Type 0 where
  pub request : Request
  pub outcome : WriteOutcome
  pub synced : Bool

module _ (digest : Bytes → Bytes) (line_size : AuditEntry → ℕ) where
  abbrev pub call : Call → Ledger → Ledger × Result AuditEntry
  call k l =
      append digest k.request.timestamp k.outcome k.synced k.request.resource k.request.runbook
        k.request.state k.request.payload l

  new_ledger-poisoned :
      (f : LedgerFile) (uuid : Bytes) (l : Ledger)
      → is_poisoned line_size (scanned f) ≡ true
      → new_ledger line_size digest uuid (some f) ≢ ok l
  unfolding new_ledger
  new_ledger-poisoned f uuid l bad e =
      let host = if bytes_eq uuid [] then codes "localhost-arm64" else uuid in
      let genesis = genesis_hash digest host (codes "INIT") in
      let (r, e') = opened_ok f host (scan_tail line_size (scanned f) genesis 0) l e in
      scan_tail-poisoned line_size (scanned f) genesis 0 r bad e'

  -- The entry that the call makes.
  abbrev pub made : Call → Ledger → AuditEntry
  made k l =
      new_entry digest k.request.timestamp k.request.resource k.request.runbook k.request.state
        k.request.payload l

  unfoldable pub calls : List Call → Ledger → Ledger
  calls [] l = l
  calls (k ∷ ks) l = calls ks (call k l).0

  append-poisoned :
      (k : Call) (l : Ledger)
      → is_poisoned line_size (scanned l.file) ≡ true
      → is_poisoned line_size (scanned (call k l).0.file) ≡ true
  unfolding append
  append-poisoned k l h =
      let q = k.request in
      let e = new_entry digest q.timestamp q.resource q.runbook q.state q.payload l in
      ground (arith, write_line-poisoned line_size k.outcome e l.file h)

  calls-poisoned :
      (ks : List Call) (l : Ledger)
      → is_poisoned line_size (scanned l.file) ≡ true
      → is_poisoned line_size (scanned (calls ks l).file) ≡ true
  unfolding calls
  calls-poisoned [] l h = h
  calls-poisoned (k ∷ ks) l h = calls-poisoned ks (call k l).0 (append-poisoned k l h)

  call-file :
      (k : Call) (l : Ledger)
      → l.is_open ≡ true
      → (call k l).0.file ≡ write_line k.outcome (made k l) l.file
  unfolding append
  call-file k l live = ground arith

  -- The three calls that poison a file: a write that is cut off within the record, one that succeeds
  -- with an entry that does not fit into a scanner line, and one that writes any bytes after a line
  -- that lacks its newline.
  abbrev pub Poisons : Call → Ledger → Type 0
  Poisons k l =
      (k.outcome ≡ cut_off)
      ⊎ ((k.outcome ≡ written) × (max_token ≤ line_size (made k l)))
      ⊎ ((l.file.torn ≡ true) × (k.outcome ≢ not_written))

  call-Poisons :
      (k : Call) (l : Ledger)
      → l.is_open ≡ true
      → Poisons k l
      → is_poisoned line_size (scanned (call k l).0.file) ≡ true
  call-Poisons k l live (inl cut) =
      rw (call-file k l live, cut) (cut_off_poisons line_size (made k l) l.file)
  call-Poisons k l live (inr (inl (whole, big))) =
      rw (call-file k l live, whole) (written_poisons line_size (made k l) l.file big)
  call-Poisons k l live (inr (inr (torn, some_bytes))) =
      rw (call-file k l live) (torn_poisons line_size k.outcome (made k l) l.file torn some_bytes)

  -- Whatever ledger is open: once a write was cut off within a record, not at its newline alone, or once
  -- an entry of 64 KiB or more was written (which `Append` reports as a success), or once any bytes were
  -- written after a record whose newline was cut off, then after any further calls, however they end, the
  -- file does not verify and a restart over it fails.
  pub calls_unreadable :
      (k : Call) (ks : List Call) (l : Ledger) (uuid : Bytes)
      → l.is_open ≡ true
      → Poisons k l
      → let f = (calls (k ∷ ks) l).file in
        ((r : VerificationResult) → verify_ledger digest line_size f ≢ valid r)
        × ((l' : Ledger) → new_ledger line_size digest uuid (some f) ≢ ok l')
  unfolding verify_ledger calls
  calls_unreadable k ks l uuid live cause =
      let bad = calls-poisoned ks (call k l).0 (call-Poisons k l live cause) in
      (
        λ r. verify_lines-poisoned line_size digest _ begin r bad,
        λ l'. new_ledger-poisoned (calls (k ∷ ks) l).file uuid l' bad,
      )
