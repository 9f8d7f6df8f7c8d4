-- ===== src/Verifier.antt =====
-- internal/verifier/verifier.go: the checks of the conditions of a runbook. `Precondition` and
-- `Postcondition` of internal/model/model.go have the same fields. A timeout, a process id or a
-- status that is not positive is 0, and a percentage is the number that `System.meets` reads.
pub mod Verdicts
mod Tests
use autonomous_remediation_e.Prelude.{
  ℕ, zero, suc, Bool, true, false, String, Option, none, some, ◌==◌, not, str_eq, if◌then◌else◌,
  inl, inr,
}
use autonomous_remediation_e.Host.{World, Probe, running, not_permitted, no_process, System}

pub data ConditionType : Type 0 where
  disk_free_pct process_alive http_health file_exists custom : ConditionType
  unsupported : String → ConditionType

pub record Condition (X : Type 0) : Type 0 where
  pub name : String
  pub type : ConditionType
  pub target : String
  pub min_free_pct : ℕ
  pub expected_status : ℕ
  pub timeout : ℕ
  pub pid : ℕ
  pub check_fn : Option (String → World X → World X × Bool × Option String)

pub data CheckError : Type 0 where
  empty_path : CheckError
  statfs_failed : String → CheckError
  no_blocks : CheckError
  disk_too_full : CheckError
  not_running : CheckError
  empty_url : CheckError
  request_failed : String → CheckError
  -- Expected, and found.
  wrong_status : ℕ → ℕ → CheckError
  no_file : CheckError
  no_check_fn : CheckError
  unsupported_type : String → CheckError
  -- What a check function reports.
  reported : String → CheckError

module _ {X : Type 0} (os : System X) where
  -- `CheckDiskFree`, without the percentage that it also returns.
  unfoldable pub check_disk_free : String → ℕ → World X → Bool × Option CheckError
  check_disk_free path min_free_pct w =
      if str_eq path "" then (false, some empty_path) else elim (os.statfs w path) [
        | inr message ↦ (false, some (statfs_failed message))
        | inl (available, blocks) ↦
            if blocks == 0
            then (false, some no_blocks)
            else (os.meets available blocks min_free_pct, none)
      ]

  -- `CheckProcessAlive`.
  unfoldable pub check_process_alive : ℕ → World X → Bool
  check_process_alive pid w =
      if pid == 0
      then false
      else elim (os.probe w pid) [ running ↦ true | not_permitted ↦ true | no_process ↦ false ]

  -- `CheckHTTPHealth`; 2 seconds and the status 200 where none is given.
  unfoldable pub check_http_health : String → ℕ → ℕ → World X → World X × Bool × Option CheckError
  check_http_health url timeout expected_status w =
      if str_eq url ""
      then (w, false, some empty_url)
      else (let deadline = if timeout == 0 then 2000000000 else timeout in
          let expected = if expected_status == 0 then 200 else expected_status in
          let (w', response) = os.http_get url deadline w in
          elim response [
            | inr message ↦ (w', false, some (request_failed message))
            | inl status ↦
                if status == expected
                then (w', true, none)
                else (w', false, some (wrong_status expected status))
          ])

  -- `CheckFileExists`.
  unfoldable pub check_file_exists : String → World X → Bool
  check_file_exists path w = if str_eq path "" then false else os.exists w path

  abbrev pub reporting : World X × Bool × Option String → World X × Bool × Option CheckError
  reporting (w, ok, none) = (w, ok, none)
  reporting (w, ok, some message) = (w, ok, some (reported message))

  -- The switch on the type of a condition.
  unfoldable pub verify_type : Condition X → World X → World X × Bool × Option CheckError
  verify_type c w = elim c.type [
    | disk_free_pct ↦
        let (passed, error) = check_disk_free c.target c.min_free_pct w in
        elim error [
          | some e ↦ (w, false, some e)
          | none ↦ if passed then (w, true, none) else (w, false, some disk_too_full)
        ]
    | process_alive ↦
        if check_process_alive c.pid w then (w, true, none) else (w, false, some not_running)
    | http_health ↦ check_http_health c.target c.timeout c.expected_status w
    | file_exists ↦
        if check_file_exists c.target w then (w, true, none) else (w, false, some no_file)
    | custom ↦ (w, false, some no_check_fn)
    | unsupported name ↦ (w, false, some (unsupported_type name))
  ]

  -- `VerifyPrecondition`, and `VerifyPostcondition`, whose messages alone differ.
  unfoldable pub verify_condition :
      String → Condition X → World X → World X × Bool × Option CheckError
  verify_condition target c w = elim c.check_fn [
    | some f ↦ reporting (f target w)
    | none ↦ verify_type c w
  ]
