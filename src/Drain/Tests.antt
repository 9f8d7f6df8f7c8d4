-- ===== src/Drain/Tests.antt =====
-- Runs of the disk drain of internal/runbooks/runbooks.go on small directories.
use autonomous_remediation_e.Prelude.{◌≡◌, ℕ, refl, true, false, List, [], ◌∷◌, codes, map}
use autonomous_remediation_e.Prelude.Octets.{bytes_eq}
use autonomous_remediation_e.Drain.{
  DiskCleanupConfig, Entry, clamped, contains, starts_with, ends_with, is_archive_file,
  find_candidate_archives, oldest_first, insert_by_time, stat, remove, check_candidate_file_safe,
  prune, prune_oldest_archives,
}
use autonomous_remediation_e.Prelude.Assoc.{lookup}
use autonomous_remediation_e.Prelude.Strings.{has_prefix, without_prefix}
use autonomous_remediation_e.Host.{World}
use autonomous_remediation_e.Runbooks.Toy.{local, quiet}
use autonomous_remediation_e.Drain.Checks.{
  Shelf, Library, resolve_target_dir, check_drainable, inspected, candidates_checked, all_safe,
  noted, drain, check_drained, check_space,
}
use autonomous_remediation_e.Drain.Intact.{verdict, check_drained-active}

abbrev archive : Entry
archive = record {
  name = codes "a.gz";
  is_dir = false;
  is_regular = true;
  mod_time = 2;
  size = 30;
  inode = 11;
}

abbrev logs : List Entry
logs =
    record archive { name = codes "app.log"; inode = 5 }
    ∷ archive
    ∷ record archive { name = codes "b.old"; mod_time = 1; inode = 12 }
    ∷ record archive { name = codes "c.gz"; mod_time = 3; inode = 5 }
    ∷ []

abbrev settings : DiskCleanupConfig
settings = record {
  target_dir = "/var/log";
  min_free_pct_required = 10;
  execution_timeout = 1;
  health_check_url = "";
  active_log_name = codes "app.log";
  max_files_to_delete = 2;
  max_bytes_to_delete = 100;
}

prune_oldest :
    map (λ e. e.mod_time) (prune_oldest_archives settings 5 (λ n. true) (λ n. true) logs).dir
    ≡ 2 ∷ 3 ∷ []
unfolding prune_oldest_archives prune find_candidate_archives oldest_first insert_by_time
    check_candidate_file_safe stat remove is_archive_file contains starts_with ends_with bytes_eq
prune_oldest = refl

-- A directory whose active log has the inode 5, before any run.
abbrev shelf : World (Shelf × ℕ)
shelf = record {
  files = [];
  rest = (record { active_inode = 0; dirs = ("/var/log", logs) ∷ [] }, 0);
}

abbrev library : Library ℕ
library = record {
  can_stat = λ w dir name. true;
  can_remove = λ w dir name. true;
  describe = λ t. "trouble";
  report = λ r. "deleted";
}

-- The third archive shares its inode with the active log, and is refused.
check_refuses : (check_drainable local quiet library settings "" shelf).1 ≡ false
unfolding resolve_target_dir check_drainable inspected candidates_checked all_safe noted
    find_candidate_archives check_candidate_file_safe stat is_archive_file contains starts_with
    ends_with bytes_eq lookup has_prefix without_prefix
check_refuses = refl

abbrev safe_logs : List Entry
safe_logs = record archive { name = codes "app.log"; inode = 5 } ∷ archive ∷ []

abbrev safe_shelf : World (Shelf × ℕ)
safe_shelf = record shelf {
  rest = (record { active_inode = 9; dirs = ("/var/log", safe_logs) ∷ [] }, 0);
}

check_drained-active_example :
    let before = (check_drainable local quiet library (clamped settings) "" safe_shelf).0 in
    let after = (drain local quiet library (clamped settings) "" 1 before).0 in
    (check_drained local quiet library (clamped settings) "" after).1
    ≡ verdict
        (stat (codes "app.log") safe_logs)
        9
        (check_space local quiet library (clamped settings) "/var/log" after).1
unfolding clamped resolve_target_dir check_drainable inspected candidates_checked all_safe noted
    find_candidate_archives check_candidate_file_safe stat is_archive_file contains starts_with
    ends_with bytes_eq lookup has_prefix without_prefix
check_drained-active_example =
    check_drained-active local quiet library settings "" 1 safe_logs safe_shelf refl refl
