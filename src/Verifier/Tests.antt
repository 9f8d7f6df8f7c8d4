-- ===== src/Verifier/Tests.antt =====
-- A run of internal/verifier/verifier.go on a small host.
use autonomous_remediation_e.Prelude.{ℕ, ◌≡◌, ◌↔◌, true, none}
use autonomous_remediation_e.Host.Toy.{toy, two_files}
use autonomous_remediation_e.Verifier.{Condition, disk_free_pct, verify_condition}
use autonomous_remediation_e.Verifier.Verdicts.{Asked, is_passed, verify_condition-passed}

abbrev third_free : Condition ℕ
third_free = record {
  name = "a third of the disk is free";
  type = disk_free_pct;
  target = "/var/log";
  min_free_pct = 33;
  expected_status = 0;
  timeout = 0;
  pid = 0;
  check_fn = none;
}

verify_condition-passed_example :
    (is_passed toy (verify_condition toy "/a" third_free two_files) ≡ true)
    ↔ Asked toy "/a" none third_free two_files
verify_condition-passed_example = verify_condition-passed toy "/a" third_free two_files
