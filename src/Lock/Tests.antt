-- ===== src/Lock/Tests.antt =====
-- Runs of internal/lock/lock.go on concrete resources, with a toy hash of 32 bytes.
use autonomous_remediation_e.Prelude.{
  ℕ, suc, zero, ◌≤◌, ◌≡◌, ◌↔◌, refl, true, Bytes, List, [], ◌∷◌, codes, length,
}
use autonomous_remediation_e.Lock.{
  sanitized, lock_filename, hex, is_plain, trim_left, trim_right, try_lock_path,
}
use autonomous_remediation_e.Lock.Exclusion.{
  Op, try, release, good, run, start, holders, is_acquired, run-holders, run-try_lock_path,
}

abbrev repeated : ℕ → ℕ → Bytes
repeated zero x = []
repeated (suc n) x = x ∷ repeated n x

abbrev toy : Bytes → Bytes
toy r = repeated 32 (length r)

length-toy : (r : Bytes) → length (toy r) ≡ 32
length-toy r = refl

lock_filename_traversal :
    lock_filename toy (codes "../etc/passwd") ≡ codes "etc_passwd_0d0d0d0d.lock"
unfolding lock_filename sanitized hex is_plain trim_left trim_right
lock_filename_traversal = refl

abbrev contested : List Op
contested =
    try good (codes "db") (codes "/run/db.lock")
    ∷ try good (codes "db") (codes "/run/db.lock")
    ∷ release 0
    ∷ release 0
    ∷ try good (codes "db") (codes "/run/db.lock")
    ∷ []

run-holders_example : holders (codes "/run/db.lock") (run contested start).locks ≤ 1
run-holders_example = run-holders contested (codes "/run/db.lock")

run-try_lock_path_example :
    (is_acquired
        (try_lock_path good (codes "db") (codes "/run/db.lock") (run contested start).kernel)
      ≡ true)
    ↔ (holders (codes "/run/db.lock") (run contested start).locks ≡ 0)
run-try_lock_path_example = run-try_lock_path contested (codes "db") (codes "/run/db.lock")
