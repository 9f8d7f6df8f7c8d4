-- ===== src/Audit.antt =====
-- internal/audit: the append-only, hash-chained ledger (ledger.go) and its verifier (verify.go).
-- `digest` stands for the hexadecimal SHA-256 of crypto/sha256, and `line_size` for the length of
-- the JSON text of an entry. A line that holds an entry reads back as that entry, as
-- encoding/json does for valid UTF-8.
pub mod Verify
pub mod Acceptance
pub mod Chain
pub mod Integrity
pub mod Limits
pub mod Poison
mod Tests
use autonomous_remediation_e.Prelude.{
  ℕ, suc, ◌+◌, ◌%◌, ◌^◌, Bool, true, false, List, [], ◌∷◌, ◌++◌, Option, none, some, Bytes,
  bytes_eq, be64, codes, ltb, ◌==◌, not, if◌then◌else◌,
}

pub record AuditEntry : Type 0 where
  pub seq : ℕ
  pub timestamp : Bytes
  pub host_uuid : Bytes
  pub resource_id : Bytes
  pub runbook_id : Bytes
  pub state : Bytes
  pub payload_digest : Bytes
  pub prev_record_hash : Bytes
  pub record_hash : Bytes

-- A line of the file: empty, text that is no record, or a record.
pub data Line : Type 0 where
  blank : Line
  malformed : Line
  entry : AuditEntry → Line

-- The file: its lines, and whether the last of them lacks its newline, as after a write that was cut
-- off. It is `malformed` where the cut was within the record, and an entry where all but the newline was
-- written.
pub record LedgerFile : Type 0 where
  pub lines : List Line
  pub torn : Bool

-- `file` is nil once the ledger is closed: `is_open` is false then.
pub record Ledger : Type 0 where
  pub is_open : Bool
  pub file : LedgerFile
  pub host_uuid : Bytes
  pub last_hash : Bytes
  pub next_seq : ℕ

-- How `Write` ends: all bytes are written, or an error after none of them, after some of the record's,
-- or after all but the newline.
pub data WriteOutcome : Type 0 where
  written not_written cut_off unended : WriteOutcome

pub data LedgerError : Type 0 where
  closed write_failed sync_failed malformed_record scan_failed open_failed : LedgerError

pub data Result (A : Type 0) : Type 0 where
  ok : A → Result A
  err : LedgerError → Result A

-- `uint64` addition of 1.
abbrev pub next : ℕ → ℕ
next n = (n + 1) % 2 ^ 64

-- The bytes that `ComputeRecordHash` hashes.
unfoldable pub hashed : Bytes → ℕ → Bytes → Bytes → Bytes → Bytes → Bytes → Bytes
hashed prev seq timestamp resource state runbook payload =
    prev ++ (be64 seq ++ (timestamp ++ (resource ++ (state ++ (runbook ++ payload)))))

-- A line of 64 KiB or more stops a `bufio.Scanner`.
abbrev pub max_token : ℕ
max_token = 65536

-- A last line that other text follows without a newline is no record: it ends within one, or goes on
-- after one.
unfoldable pub join_last : List Line → List Line
join_last [] = malformed ∷ []
join_last (x ∷ []) = malformed ∷ []
join_last (x ∷ y ∷ ls) = x ∷ join_last (y ∷ ls)

-- The lines after bytes that make a line of their own where the last one is ended.
unfoldable pub with_line : LedgerFile → Line → List Line
unfolding join_last
with_line f x = if f.torn then join_last f.lines else f.lines ++ (x ∷ [])

-- What the write of one line leaves in the file.
unfoldable pub write_line : WriteOutcome → AuditEntry → LedgerFile → LedgerFile
unfolding with_line
write_line not_written e f = f
write_line cut_off e f = record { lines = with_line f malformed; torn = true }
write_line unended e f = record { lines = with_line f (entry e); torn = true }
write_line written e f = record { lines = with_line f (entry e); torn = false }

-- The lines as the scanner sees them, which returns a last line without its newline as well.
unfoldable pub scanned : LedgerFile → List Line
scanned f = f.lines

module _ (digest : Bytes → Bytes) where
  unfoldable pub genesis_hash : Bytes → Bytes → Bytes
  genesis_hash host boot = digest (codes "REMEDIATION_GENESIS_2026" ++ (host ++ boot))

  unfoldable pub compute_record_hash : Bytes → ℕ → Bytes → Bytes → Bytes → Bytes → Bytes → Bytes
  compute_record_hash prev seq timestamp resource state runbook payload =
      digest (hashed prev seq timestamp resource state runbook payload)

  unfoldable pub compute_payload_digest : Bytes → Bytes → Bytes → Bytes
  compute_payload_digest alert stdout stderr = digest (alert ++ (stdout ++ stderr))

  -- The entry that `Append` makes, at the time `timestamp`.
  unfoldable pub new_entry : Bytes → Bytes → Bytes → Bytes → Bytes → Ledger → AuditEntry
  new_entry timestamp resource runbook state payload l = record {
    seq = l.next_seq;
    timestamp = timestamp;
    host_uuid = l.host_uuid;
    resource_id = resource;
    runbook_id = runbook;
    state = state;
    payload_digest = payload;
    prev_record_hash = l.last_hash;
    record_hash =
        compute_record_hash l.last_hash l.next_seq timestamp resource state runbook payload;
  }

  -- `Append`, with how its `Write` ends and whether its `Sync` succeeds. A `json.Marshal` of
  -- these fields returns no error.
  unfoldable pub append :
      Bytes
      → WriteOutcome
      → Bool
      → Bytes
      → Bytes
      → Bytes
      → Bytes
      → Ledger
      → Ledger × Result AuditEntry
  append timestamp outcome synced resource runbook state payload l =
      let e = new_entry timestamp resource runbook state payload l in
      let l' = record l { file = write_line outcome e l.file } in
      if not l.is_open then (l, err closed) else elim outcome [
        | not_written ↦ (l', err write_failed)
        | cut_off ↦ (l', err write_failed)
        | unended ↦ (l', err write_failed)
        | written ↦
            if synced
            then (record l' { last_hash = e.record_hash; next_seq = next l.next_seq }, ok e)
            else (l', err sync_failed)
      ]

-- `Close`.
unfoldable pub close : Ledger → Ledger
close l = record l { is_open = false }

-- The ledger that `NewLedger` returns after the scan.
abbrev pub opened : LedgerFile → Bytes → Result (Bytes × ℕ) → Result Ledger
opened f host (err x) = err x
opened f host (ok (hash, seq)) =
    ok (record { is_open = true; file = f; host_uuid = host; last_hash = hash; next_seq = seq })

module _ (line_size : AuditEntry → ℕ) where
  -- The state of the scan in `NewLedger`: the last hash and the number after the last sequence
  -- number, from the records so far.
  unfoldable pub scan_tail : List Line → Bytes → ℕ → Result (Bytes × ℕ)
  scan_tail [] hash seq = ok (hash, seq)
  scan_tail (blank ∷ ls) hash seq = scan_tail ls hash seq
  scan_tail (malformed ∷ ls) hash seq = err malformed_record
  scan_tail (entry e ∷ ls) hash seq =
      let rest = scan_tail ls e.record_hash (next e.seq) in
      if ltb (line_size e) max_token then rest else err scan_failed

  -- `NewLedger` over the file at the path; `none` where the directory or the file cannot be
  -- opened.
  unfoldable pub new_ledger : (Bytes → Bytes) → Bytes → Option LedgerFile → Result Ledger
  unfolding scan_tail scanned
  new_ledger digest uuid none = err open_failed
  new_ledger digest uuid (some f) =
      let host = if bytes_eq uuid [] then codes "localhost-arm64" else uuid in
      opened f host (scan_tail (scanned f) (genesis_hash digest host (codes "INIT")) 0)
