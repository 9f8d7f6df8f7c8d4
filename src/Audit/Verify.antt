-- ===== src/Audit/Verify.antt =====
-- internal/audit/verify.go: the check of a ledger file.
use autonomous_remediation_e.Prelude.{
  ℕ, Bool, false, List, [], ◌∷◌, Bytes, bytes_eq, ltb, ◌==◌, if◌then◌else◌,
}
use autonomous_remediation_e.Audit.{
  AuditEntry, Line, blank, malformed, entry, LedgerFile, scanned, next, compute_record_hash,
  max_token,
}

-- `VerificationResult`, which is built for a valid ledger alone; `VerifiedAt` is left out.
pub record VerificationResult : Type 0 where
  pub total_records : ℕ
  pub genesis_hash : Bytes
  pub tail_hash : Bytes

pub data VerifyError : Type 0 where
  malformed_json : ℕ → VerifyError
  discontinuity : ℕ → ℕ → VerifyError
  chain_broken : ℕ → VerifyError
  tampered : ℕ → VerifyError
  scanner_error : VerifyError

pub data Verdict : Type 0 where
  valid : VerificationResult → Verdict
  invalid : VerifyError → Verdict

-- The variables of the loop in `VerifyLedgerReader`.
pub record Scan : Type 0 where
  pub expected_prev_hash : Bytes
  pub expected_seq : ℕ
  pub first_prev_hash : Bytes
  pub last_hash : Bytes

abbrev pub begin : Scan
begin = record { expected_prev_hash = []; expected_seq = 0; first_prev_hash = []; last_hash = [] }

-- The loop's variables after a record that is accepted.
unfoldable pub accept : AuditEntry → Scan → Scan
accept e s = record {
  expected_prev_hash = e.record_hash;
  expected_seq = next s.expected_seq;
  first_prev_hash = if s.expected_seq == 0 then e.prev_record_hash else s.first_prev_hash;
  last_hash = e.record_hash;
}

unfoldable pub result_of : Scan → VerificationResult
result_of s = record {
  total_records = s.expected_seq;
  genesis_hash = s.first_prev_hash;
  tail_hash = s.last_hash;
}

module _ (digest : Bytes → Bytes) (line_size : AuditEntry → ℕ) where
  abbrev pub recomputed : AuditEntry → Bytes
  recomputed e =
      compute_record_hash digest e.prev_record_hash e.seq e.timestamp e.resource_id e.state
        e.runbook_id e.payload_digest

  -- The three tests on one record: sequence number, pointer to the record before, hash.
  unfoldable pub check_entry : AuditEntry → Scan → Bool × VerifyError
  check_entry e s =
      if e.seq == s.expected_seq
      then if s.expected_seq == 0
        then (bytes_eq (recomputed e) e.record_hash, tampered e.seq)
        else if bytes_eq e.prev_record_hash s.expected_prev_hash
        then (bytes_eq (recomputed e) e.record_hash, tampered e.seq)
        else (false, chain_broken e.seq)
      else (false, discontinuity s.expected_seq e.seq)

  -- `VerifyLedgerReader` over the lines that are left.
  unfoldable pub verify_lines : List Line → Scan → Verdict
  verify_lines [] s = valid (result_of s)
  verify_lines (blank ∷ ls) s = verify_lines ls s
  verify_lines (malformed ∷ ls) s = invalid (malformed_json s.expected_seq)
  verify_lines (entry e ∷ ls) s =
      let rest = verify_lines ls (accept e s) in
      if ltb (line_size e) max_token
      then if (check_entry e s).0 then rest else invalid (check_entry e s).1
      else invalid scanner_error

  unfoldable pub verify_ledger : LedgerFile → Verdict
  verify_ledger f = verify_lines (scanned f) begin
