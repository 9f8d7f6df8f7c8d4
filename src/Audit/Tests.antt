-- ===== src/Audit/Tests.antt =====
-- Runs of the ledger and its verifier, and the theorems at concrete inputs. The hash is a toy one.
use autonomous_remediation_e.Prelude.{
  ℕ, inl, zero, suc, ◌+◌, ◌*◌, ◌%◌, ◌≡◌, ◌≢◌, refl, inr, true, false, [], ◌∷◌, ◌++◌, some, arith,
  Bytes, codes, length,
}
use autonomous_remediation_e.Prelude.Octets.{bytes_eq, be64}
use autonomous_remediation_e.Audit.{
  AuditEntry, entry, Ledger, written, unended, ok, err, LedgerError, hashed, write_line, scanned,
  genesis_hash, compute_record_hash, new_entry, append, scan_tail, new_ledger,
}
use autonomous_remediation_e.Audit.Verify.{
  VerificationResult, valid, accept, result_of, check_entry, verify_lines, verify_ledger,
}
use autonomous_remediation_e.Audit.Chain.{Request, empty_file, append_all, append_all-verifies}
use autonomous_remediation_e.Audit.Integrity.{records, SameRecords, tail_hash_pins}
use autonomous_remediation_e.Audit.Limits.{append-unsynced}
use autonomous_remediation_e.Audit.Poison.{Call, calls, calls_unreadable}

abbrev sum : Bytes → ℕ
sum [] = 1
sum (x ∷ xs) = (x + 3 * sum xs) % 251

abbrev pad : ℕ → ℕ → Bytes
pad zero x = []
pad (suc n) x = x ∷ pad n x

length-pad : (n x : ℕ) → length (pad n x) ≡ n
length-pad zero x = refl
length-pad (suc n) x = omega (arith, length-pad n x)

abbrev toy : Bytes → Bytes
toy xs = pad 64 (sum xs)

abbrev size : AuditEntry → ℕ
size e = length e.resource_id + 300

abbrev host : Bytes
host = codes "node"

abbrev opened_ledger : Ledger
opened_ledger = record {
  is_open = true;
  file = empty_file;
  host_uuid = host;
  last_hash = toy (codes "REMEDIATION_GENESIS_2026" ++ (host ++ codes "INIT"));
  next_seq = 0;
}

opened_ledger-new : new_ledger size toy host (some empty_file) ≡ ok opened_ledger
unfolding new_ledger scan_tail scanned genesis_hash bytes_eq
opened_ledger-new = refl

abbrev first : Request
first = record {
  timestamp = codes "t1";
  resource = codes "/var/log";
  runbook = [];
  state = codes "DETECTED";
  payload = codes "aa";
}

abbrev second : Request
second = record first { state = codes "ESCALATED" }

abbrev after_two : Ledger
after_two = append_all toy size (first ∷ second ∷ []) opened_ledger

after_two_valid :
    verify_ledger toy size after_two.file
    ≡ valid (record {
      total_records = 2;
      genesis_hash = genesis_hash toy host (codes "INIT");
      tail_hash = after_two.last_hash;
    })
unfolding verify_ledger verify_lines check_entry accept result_of scanned append_all append
    new_entry write_line compute_record_hash hashed be64 bytes_eq genesis_hash
after_two_valid = refl

append_all-verifies_example :
    (verify_ledger toy size after_two.file
      ≡ valid (record {
        total_records = 2;
        genesis_hash = genesis_hash toy host (codes "INIT");
        tail_hash = after_two.last_hash;
      }))
    × (new_ledger size toy host (some after_two.file) ≡ ok after_two)
unfolding new_entry append
append_all-verifies_example =
    append_all-verifies toy size host first (second ∷ []) opened_ledger-new (omega arith)
      (omega arith)

tail_hash_pins_example :
    SameRecords (records (scanned after_two.file)) (records (scanned after_two.file))
unfolding append_all append new_entry write_line scanned
tail_hash_pins_example =
    tail_hash_pins toy size (λ x. length-pad 64 (sum x)) after_two.file after_two.file
      after_two_valid after_two_valid refl (omega arith) refl ((λ e. refl), ((λ e. refl), tt))

abbrev forged : AuditEntry → AuditEntry
forged e = record e { host_uuid = codes "elsewhere" }

abbrev entry_1 : AuditEntry
entry_1 =
    new_entry toy first.timestamp first.resource first.runbook first.state first.payload
      opened_ledger

abbrev after_one : Ledger
after_one = append_all toy size (first ∷ []) opened_ledger

after_one_valid :
    verify_ledger toy size (record { lines = (entry entry_1 ∷ []) ++ []; torn = false })
    ≡ valid (record {
      total_records = 1;
      genesis_hash = genesis_hash toy host (codes "INIT");
      tail_hash = after_one.last_hash;
    })
unfolding verify_ledger verify_lines check_entry accept result_of scanned append_all append
    new_entry write_line compute_record_hash hashed be64 bytes_eq genesis_hash
after_one_valid = refl

-- A record whose newline alone was cut off is a record.
unended_valid :
    verify_ledger toy size (write_line unended entry_1 (record { lines = []; torn = false }))
    ≡ valid (record {
      total_records = 1;
      genesis_hash = genesis_hash toy host (codes "INIT");
      tail_hash = after_one.last_hash;
    })
unfolding verify_ledger verify_lines check_entry accept result_of scanned append_all append
    new_entry write_line compute_record_hash hashed be64 bytes_eq genesis_hash
unended_valid = refl

append-unsynced_example :
    let (l', failure) = append toy [] written false host [] [] [] opened_ledger in
    let (l'', success) = append toy [] written true host [] [] [] l' in
    (failure ≡ err LedgerError.sync_failed)
    × ((e : AuditEntry) × (success ≡ ok e))
    × ((r' : VerificationResult) → verify_ledger toy size l''.file ≢ valid r')
unfolding verify_ledger verify_lines scanned result_of
append-unsynced_example =
    append-unsynced toy size opened_ledger [] [] host host [] [] [] [] [] []
      {r = record { total_records = 0; genesis_hash = []; tail_hash = [] }} refl refl refl
      (omega arith)

abbrev huge : AuditEntry → ℕ
huge e = 70000

abbrev long_call : Call
long_call = record { request = first; outcome = written; synced = true }

calls_unreadable_example :
    let f = (calls toy huge (long_call ∷ long_call ∷ []) opened_ledger).file in
    ((r : VerificationResult) → verify_ledger toy huge f ≢ valid r)
    × ((l' : Ledger) → new_ledger huge toy host (some f) ≢ ok l')
calls_unreadable_example =
    calls_unreadable toy huge long_call (long_call ∷ []) opened_ledger host refl
      (inr (inl (refl, omega arith)))
