-- ===== src/Drain.antt =====
-- internal/runbooks/runbooks.go: the disk drain RBK-DISK-001, its settings, the choice of the archives
-- and the loop that deletes them; Checks has its conditions and the runbook. A directory is the list of its entries; a name is the
-- list of its code points. A limit that is not positive is 0.
pub mod Clamps
pub mod Checks
pub mod Intact
mod Tests
use autonomous_remediation_e.Prelude.{
  ℕ, zero, suc, ◌+◌, ◌*◌, ◌^◌, ◌%◌, Bool, true, false, ◌&&◌, ◌||◌, not, String, str_eq, List, [],
  ◌∷◌, ◌++◌, Option, none, some, Bytes, bytes_eq, codes, ltb, leb, ◌==◌, if◌then◌else◌, keep,
}

pub record DiskCleanupConfig : Type 0 where
  pub target_dir : String
  pub active_log_name : Bytes
  pub min_free_pct_required : ℕ
  pub max_files_to_delete : ℕ
  pub max_bytes_to_delete : ℕ
  pub execution_timeout : ℕ
  pub health_check_url : String

-- 20 GiB.
abbrev pub byte_limit : ℕ
byte_limit = 21474836480

-- What `NewDiskCleanupRunbook` makes of the settings.
unfoldable pub clamped : DiskCleanupConfig → DiskCleanupConfig
clamped cfg = record cfg {
  target_dir = if str_eq cfg.target_dir "" then "/var/log" else cfg.target_dir;
  active_log_name =
      if bytes_eq cfg.active_log_name [] then codes "ai-gateway.log" else cfg.active_log_name;
  max_files_to_delete =
      if cfg.max_files_to_delete == 0 || ltb 10 cfg.max_files_to_delete
      then 10
      else cfg.max_files_to_delete;
  max_bytes_to_delete =
      if cfg.max_bytes_to_delete == 0 || ltb byte_limit cfg.max_bytes_to_delete
      then byte_limit
      else cfg.max_bytes_to_delete;
  execution_timeout =
      if cfg.execution_timeout == 0 || ltb 15000000000 cfg.execution_timeout
      then 15000000000
      else cfg.execution_timeout;
}

-- `DefaultDiskCleanupConfig`.
unfoldable pub default_disk_cleanup_config : DiskCleanupConfig
default_disk_cleanup_config = record {
  target_dir = "/var/log";
  active_log_name = codes "ai-gateway.log";
  min_free_pct_required = 10;
  max_files_to_delete = 10;
  max_bytes_to_delete = 21474836480;
  execution_timeout = 15000000000;
  health_check_url = "";
}

pub record Entry : Type 0 where
  pub name : Bytes
  pub is_dir : Bool
  pub is_regular : Bool
  pub mod_time : ℕ
  pub size : ℕ
  pub inode : ℕ

unfoldable pub starts_with : Bytes → Bytes → Bool
starts_with [] s = true
starts_with (p ∷ ps) [] = false
starts_with (p ∷ ps) (c ∷ cs) = p == c && starts_with ps cs

-- `strings.Contains` and `strings.HasSuffix`.
unfoldable pub contains : Bytes → Bytes → Bool
contains p [] = bytes_eq p []
contains p (c ∷ cs) = starts_with p (c ∷ cs) || contains p cs

unfoldable pub ends_with : Bytes → Bytes → Bool
ends_with p [] = bytes_eq p []
ends_with p (c ∷ cs) = bytes_eq p (c ∷ cs) || ends_with p cs

-- `isArchiveFile`.
unfoldable pub is_archive_file : Bytes → Bool
is_archive_file name =
    ends_with (codes ".log.gz") name
    || ends_with (codes ".old") name
    || ends_with (codes ".gz") name
    || contains (codes ".log.") name

-- `findCandidateArchives`.
unfoldable pub find_candidate_archives : Bytes → List Entry → List Entry
find_candidate_archives active dir =
    keep (λ e. not e.is_dir && not (bytes_eq e.name active) && is_archive_file e.name) dir

-- Sorting by the time of modification, the oldest first.
unfoldable pub insert_by_time : Entry → List Entry → List Entry
insert_by_time e [] = e ∷ []
insert_by_time e (x ∷ xs) =
    let rest = insert_by_time e xs in if leb e.mod_time x.mod_time then e ∷ x ∷ xs else x ∷ rest

unfoldable pub oldest_first : List Entry → List Entry
oldest_first [] = []
oldest_first (e ∷ es) = insert_by_time e (oldest_first es)

-- `os.Stat` in the directory.
unfoldable pub stat : Bytes → List Entry → Option Entry
stat name [] = none
stat name (e ∷ es) = if bytes_eq e.name name then some e else stat name es

-- `os.Remove`.
unfoldable pub remove : Bytes → List Entry → List Entry
remove name [] = []
remove name (e ∷ es) = let rest = remove name es in if bytes_eq e.name name then rest else e ∷ rest

-- `checkCandidateFileSafe`; an inode of 0 says that there was no active log.
unfoldable pub check_candidate_file_safe : Bytes → ℕ → Bytes → List Entry → Bool
check_candidate_file_safe name active_inode active dir = elim (stat name dir) [
  | none ↦ false
  | some e ↦ not (ltb 0 active_inode && e.inode == active_inode) && not (bytes_eq name active)
]

-- How far the loop has come.
pub record Pruned : Type 0 where
  pub dir : List Entry
  pub files_deleted : ℕ
  -- An int64, by its bit pattern.
  pub bytes_deleted : ℕ
  -- An archive could not be removed: the action fails.
  pub failed : Bool

-- The sum of two int64, which wraps around.
abbrev pub int64_sum : ℕ → ℕ → ℕ
int64_sum a b = (a + b) % 2 ^ 64

-- Whether an int64 is larger than a number that is not negative; the upper half is negative.
abbrev pub int64_exceeds : ℕ → ℕ → Bool
int64_exceeds x limit = ltb x (2 ^ 63) && ltb limit x

-- The archive is unlinked and counted.
abbrev pub unlinked : Entry → Pruned → Pruned
unlinked f p = record p {
  dir = remove f.name p.dir;
  files_deleted = p.files_deleted + 1;
  bytes_deleted = int64_sum p.bytes_deleted f.size;
}

-- The loop ends before this archive.
abbrev pub full : DiskCleanupConfig → Entry → Pruned → Bool
full cfg f p =
    leb cfg.max_files_to_delete p.files_deleted
    || int64_exceeds (int64_sum p.bytes_deleted f.size) cfg.max_bytes_to_delete
      && ltb 0 p.files_deleted

-- The loop of the action `prune-oldest-archives`, over the sorted candidates; `can_remove` is the
-- answer of the file system.
unfoldable pub prune : DiskCleanupConfig → ℕ → (Bytes → Bool) → List Entry → Pruned → Pruned
prune cfg active_inode can_remove [] p = p
prune cfg active_inode can_remove (f ∷ fs) p = elim (full cfg f p) [
  | true ↦ p
  | false ↦ elim (check_candidate_file_safe f.name active_inode cfg.active_log_name p.dir) [
    | false ↦ prune cfg active_inode can_remove fs p
    | true ↦ elim (can_remove f.name) [
      | false ↦ record p { failed = true }
      | true ↦ prune cfg active_inode can_remove fs (unlinked f p)
    ]
  ]
]

-- The whole action, in the directory. A candidate that `os.Stat` does not answer for is passed over;
-- `can_stat` is that answer.
unfoldable pub prune_oldest_archives :
    DiskCleanupConfig → ℕ → (Bytes → Bool) → (Bytes → Bool) → List Entry → Pruned
prune_oldest_archives cfg active_inode can_stat can_remove dir =
    prune cfg active_inode can_remove
      (oldest_first (keep (λ e. can_stat e.name) (find_candidate_archives cfg.active_log_name dir)))
      (record { dir = dir; files_deleted = 0; bytes_deleted = 0; failed = false })
