-- ===== src/Drain/Checks.antt =====
-- RBK-DISK-001 as a runbook (`NewDiskCleanupRunbook` of internal/runbooks/runbooks.go). The variable
-- `activeInode` and the directories, by path, are the first part of the rest of the host. A
-- percentage is a natural number.
use autonomous_remediation_e.Prelude.{
  ℕ, ◌^◌, Bool, true, false, ◌&&◌, not, String, List, [], ◌∷◌, Option, none, some, Bytes, codes,
  str_eq, ltb, ◌==◌, if◌then◌else◌, inl, inr, ◌⊎◌,
}
use autonomous_remediation_e.Prelude.Strings.{has_prefix}
use autonomous_remediation_e.Prelude.Assoc.{Assoc, lookup, insert}
use autonomous_remediation_e.Host.{World, System}
use autonomous_remediation_e.Executor.{ExecutionResult, empty_result}
use autonomous_remediation_e.Engine.{Runbook}
use autonomous_remediation_e.Runbooks.Files.{Platform, custom_condition, mutation}
use autonomous_remediation_e.Drain.{
  DiskCleanupConfig, Entry, Pruned, clamped, find_candidate_archives, check_candidate_file_safe,
  stat, prune_oldest_archives,
}

pub record Shelf : Type 0 where
  pub active_inode : ℕ
  pub dirs : Assoc (List Entry)

abbrev pub Site : Type 0 → Type 0
Site Y = World (Shelf × Y)

pub data Trouble : Type 0 where
  inaccessible not_a_directory : String → Trouble
  statfs_failed : String → String → Trouble
  unreadable unsafe_candidate unlink_failed : Trouble
  active_missing active_not_regular : Trouble
  inode_changed : ℕ → ℕ → Trouble
  too_full : String → Trouble
  wrong_status : ℕ → Trouble

-- What the runbook takes from outside: whether an archive of a directory can be looked at and be unlinked, and the
-- texts that fmt makes.
pub record Library (Y : Type 0) : Type 0 where
  pub can_stat : Site Y → String → Bytes → Bool
  pub can_remove : Site Y → String → Bytes → Bool
  pub describe : Trouble → String
  pub report : Pruned → String

-- `resolveTargetDir`, of the resource of the context.
unfoldable pub resolve_target_dir : String → String → String
resolve_target_dir target default_dir =
    if has_prefix (codes "/") (codes target) then target else default_dir

abbrev pub with_inode : {Y : Type 0} → ℕ → Site Y → Site Y
with_inode i w = record w { rest = (record w.rest.0 { active_inode = i }, w.rest.1) }

abbrev pub with_dir : {Y : Type 0} → String → List Entry → Site Y → Site Y
with_dir dir entries w = record w {
  rest = (record w.rest.0 { dirs = insert dir entries w.rest.0.dirs }, w.rest.1);
}

-- The inode of the active log, if there is one.
unfoldable pub noted : {Y : Type 0} → Option Entry → Site Y → Site Y
noted none w = w
noted (some e) w = with_inode e.inode w

unfoldable pub all_safe : DiskCleanupConfig → ℕ → List Entry → List Entry → Bool
all_safe cfg active_inode dir [] = true
all_safe cfg active_inode dir (c ∷ cs) =
    check_candidate_file_safe c.name active_inode cfg.active_log_name dir
    && all_safe cfg active_inode dir cs

module _ {Y : Type 0} (os : System (Shelf × Y)) (p : Platform (Shelf × Y)) (lib : Library Y)
    (cfg : DiskCleanupConfig) where
  abbrev pub Checked : Type 0
  Checked = Site Y × Bool × Option String

  abbrev fail : Site Y → Trouble → Checked
  fail w t = (w, false, some (lib.describe t))

  -- The candidates, with the inode noted.
  unfoldable pub candidates_checked : String → List Entry → Site Y → Checked
  candidates_checked dir entries w =
      if os.can_read w dir
      then (if all_safe cfg w.rest.0.active_inode entries
            (find_candidate_archives cfg.active_log_name entries)
          then (w, true, none)
          else fail w unsafe_candidate)
      else fail w unreadable

  unfoldable pub inspected : String → Option (List Entry) → Site Y → Checked
  inspected dir none w =
      if p.is_file w dir then fail w (not_a_directory dir) else fail w (inaccessible dir)
  inspected dir (some entries) w = elim (os.statfs w dir) [
    | inr e ↦ fail w (statfs_failed dir e)
    | inl blocks ↦ candidates_checked dir entries (noted (stat cfg.active_log_name entries) w)
  ]

  -- The precondition.
  unfoldable pub check_drainable : String → Site Y → Checked
  check_drainable target w =
      let dir = resolve_target_dir target cfg.target_dir in
      inspected dir (lookup dir w.rest.0.dirs) w

  abbrev pub Mutated : Type 0
  Mutated = Site Y × Option ExecutionResult × Option String

  abbrev reported : Pruned → Site Y → Mutated
  reported r w = if r.failed then (w, none, some (lib.describe unlink_failed)) else (
    w,
    some (record empty_result {
      success = true;
      bytes_mutated = if ltb r.bytes_deleted (2 ^ 63) then r.bytes_deleted else 0;
      stdout = lib.report r;
    }),
    none,
  )

  unfoldable pub pruned : String → Option (List Entry) → Site Y → Mutated
  pruned dir none w = (w, none, some (lib.describe unreadable))
  pruned dir (some entries) w =
      if os.can_read w dir
      then (let r =
            prune_oldest_archives cfg w.rest.0.active_inode (lib.can_stat w dir)
              (lib.can_remove w dir) entries in
          reported r (with_dir dir r.dir w))
      else (w, none, some (lib.describe unreadable))

  -- The action.
  unfoldable pub drain : String → ℕ → Site Y → Mutated
  drain target timeout w =
      let dir = resolve_target_dir target cfg.target_dir in pruned dir (lookup dir w.rest.0.dirs) w

  -- The optional health check: an endpoint that does not answer is passed over.
  unfoldable pub health_answered : Site Y × (ℕ ⊎ String) → Checked
  health_answered (w, inr e) = (w, true, none)
  health_answered (w, inl status) =
      if status == 200 then (w, true, none) else fail w (wrong_status status)

  unfoldable pub check_health : Site Y → Checked
  check_health w =
      if str_eq cfg.health_check_url ""
      then (w, true, none)
      else health_answered (os.http_get cfg.health_check_url 2000000000 w)

  unfoldable pub check_space : String → Site Y → Checked
  check_space dir w = elim (os.statfs w dir) [
    | inr e ↦ fail w (statfs_failed dir e)
    | inl (avail, blocks) ↦
        if ltb 0 blocks
          && ltb 0 cfg.min_free_pct_required
          && not (os.meets avail blocks cfg.min_free_pct_required)
        then fail w (too_full dir)
        else check_health w
  ]

  -- The active log, where its inode was noted.
  unfoldable pub check_active : String → Option Entry → Site Y → Checked
  check_active dir none w = fail w active_missing
  check_active dir (some e) w =
      if not e.is_regular
      then fail w active_not_regular
      else if not (e.inode == w.rest.0.active_inode)
      then fail w (inode_changed w.rest.0.active_inode e.inode)
      else check_space dir w

  abbrev pub active_of : Option (List Entry) → Option Entry
  active_of none = none
  active_of (some entries) = stat cfg.active_log_name entries

  -- The postcondition.
  unfoldable pub check_drained : String → Site Y → Checked
  check_drained target w =
      let dir = resolve_target_dir target cfg.target_dir in
      if ltb 0 w.rest.0.active_inode
      then check_active dir (active_of (lookup dir w.rest.0.dirs)) w
      else check_space dir w

  unfoldable pub disk_runbook : Runbook (Shelf × Y)
  disk_runbook = record {
    id = "RBK-DISK-001";
    name = "disk_cleanup_var_log";
    target_resource_id = cfg.target_dir;
    severity = "HIGH";
    preconditions = custom_condition "statfs-and-candidate-inspection" check_drainable ∷ [];
    actions = mutation "prune-oldest-archives" cfg.execution_timeout drain ∷ [];
    postconditions = custom_condition "active-log-intact-and-space-freed" check_drained ∷ [];
    rollback_steps = [];
    blast_radius = record {
      max_execution_time = cfg.execution_timeout;
      max_bytes_mutated = cfg.max_bytes_to_delete;
      max_processes_signaled = 0;
      max_files_modified = cfg.max_files_to_delete;
      allowed_path_prefixes = "/var/log" ∷ "/tmp" ∷ cfg.target_dir ∷ [];
    };
  }

-- `NewDiskCleanupRunbook`.
unfoldable pub new_disk_cleanup_runbook :
    {Y : Type 0}
    → System (Shelf × Y)
    → Platform (Shelf × Y)
    → Library Y
    → DiskCleanupConfig
    → Runbook (Shelf × Y)
new_disk_cleanup_runbook os p lib cfg = disk_runbook os p lib (clamped cfg)
