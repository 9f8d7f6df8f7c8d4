-- ===== src/Drain/Clamps.antt =====
-- What the disk drain of internal/runbooks/runbooks.go keeps to.
use autonomous_remediation_e.Prelude.{
  ℕ, ◌^◌, All, ◌≤◌, ◌<◌, ◌≡◌, ◌⊎◌, refl, ◌∙◌, Bool, true, false, List, [], ◌∷◌, Bytes, bytes_eq,
  bytes_eq_iff, bytes_eq_refl, keep, arith, Bool-cases, inl, inr,
}
use autonomous_remediation_e.Drain.{
  DiskCleanupConfig, Entry, Pruned, stat, remove, check_candidate_file_safe, unlinked, full, prune,
  prune_oldest_archives, oldest_first, find_candidate_archives, is_archive_file, insert_by_time,
}

-- At most the files that the settings allow, and the entries under the name of the active log are those
-- from before.
record Kept (cfg : DiskCleanupConfig) (before : List Entry) (p : Pruned) : Type 0 where
  files : p.files_deleted ≤ cfg.max_files_to_delete
  active :
      keep (λ e. bytes_eq e.name cfg.active_log_name) p.dir
      ≡ keep (λ e. bytes_eq e.name cfg.active_log_name) before

-- The bytes that the settings allow, or one file alone; and the sum has not come to the wrap-around.
record Bounded (cfg : DiskCleanupConfig) (p : Pruned) : Type 0 where
  bytes : (p.bytes_deleted ≤ cfg.max_bytes_to_delete) ⊎ (p.files_deleted ≡ 1)
  none_yet : p.files_deleted ≡ 0 → p.bytes_deleted ≡ 0
  small : p.bytes_deleted < 2 ^ 62

keep-remove :
    (name active : Bytes) (dir : List Entry)
    → bytes_eq name active ≡ false
    → keep (λ e. bytes_eq e.name active) (remove name dir) ≡ keep (λ e. bytes_eq e.name active) dir
unfolding remove
keep-remove name active [] h = refl
keep-remove name active (e ∷ es) h = ground (
  arith,
  keep-remove name active es h,
  bytes_eq_iff e.name name,
  bytes_eq_iff e.name active,
  bytes_eq_iff name active,
)

safe-other :
    (name : Bytes) (active_inode : ℕ) (active : Bytes) (dir : List Entry)
    → check_candidate_file_safe name active_inode active dir ≡ true
    → bytes_eq name active ≡ false
unfolding check_candidate_file_safe
safe-other name active_inode active dir h = ground arith

-- An archive that is smaller than 4 EiB.
abbrev pub IsSmall : Entry → Type 0
IsSmall e = e.size < 2 ^ 62

module _ (cfg : DiskCleanupConfig) (active_inode : ℕ) (can_remove : Bytes → Bool) where
  -- What holds of the loop where it begins, and is left by an archive that is unlinked and by the
  -- failure, holds where it ends.
  prune-induction :
      (P : Pruned → Type 0) (Q : Entry → Type 0)
      → ((f : Entry) (p : Pruned)
          → Q f
          → P p
          → bytes_eq f.name cfg.active_log_name ≡ false
          → full cfg f p ≡ false
          → P (unlinked f p))
      → ((p : Pruned) → P p → P (record p { failed = true }))
      → (fs : List Entry) → All Q fs
      → (p : Pruned) → P p
      → P (prune cfg active_inode can_remove fs p)
  unfolding prune
  prune-induction P Q step fail [] all p k = k
  prune-induction P Q step fail (f ∷ fs) (q, all) p k = elim (Bool-cases (full cfg f p)) [
    | inl stop ↦ rw (stop, prune) k
    | inr go ↦
        elim (Bool-cases
          (check_candidate_file_safe f.name active_inode cfg.active_log_name p.dir)) [
            | inr unsafe ↦ rw (go, unsafe, prune) (prune-induction P Q step fail fs all p k)
            | inl safe ↦ elim (Bool-cases (can_remove f.name)) [
              | inr stuck ↦ rw (go, safe, stuck, prune) (fail p k)
              | inl gone ↦
                  let other = safe-other f.name active_inode cfg.active_log_name p.dir safe in
                  rw (go, safe, gone, prune)
                    (prune-induction P Q step fail fs all (unlinked f p) (step f p q k other go))
            ]
          ]
  ]

  unlinked-Kept :
      (before : List Entry) (f : Entry) (p : Pruned)
      → Kept cfg before p
      → bytes_eq f.name cfg.active_log_name ≡ false
      → full cfg f p ≡ false
      → Kept cfg before (unlinked f p)
  unlinked-Kept before f p k other h = record {
    files = ground (arith, k.files);
    active = keep-remove f.name cfg.active_log_name p.dir other ∙ k.active;
  }

abbrev IsAny : Entry → Type 0
IsAny e = Unit

All-entries : (es : List Entry) → All IsAny es
All-entries [] = tt
All-entries (e ∷ es) = (tt, All-entries es)

abbrev start : List Entry → Pruned
start dir = record { dir = dir; files_deleted = 0; bytes_deleted = 0; failed = false }

module _ (cfg : DiskCleanupConfig) (active_inode : ℕ) (can_stat can_remove : Bytes → Bool)
    (dir : List Entry) where
  abbrev candidates : List Entry
  candidates =
      oldest_first (keep (λ e. can_stat e.name) (find_candidate_archives cfg.active_log_name dir))

  prune_oldest_archives-Kept :
      Kept cfg dir (prune_oldest_archives cfg active_inode can_stat can_remove dir)
  unfolding prune_oldest_archives
  prune_oldest_archives-Kept =
      prune-induction cfg active_inode can_remove (Kept cfg dir) IsAny
        (λ f p q k other go. unlinked-Kept cfg active_inode can_remove dir f p k other go)
        (λ p k. record { files = k.files; active = k.active }) candidates (All-entries candidates)
        (start dir) (record { files = omega arith; active = refl })

  -- The entries under the name of the active log stay as they were.
  pub prune_oldest_archives-active :
      keep
        (λ e. bytes_eq e.name cfg.active_log_name)
        (prune_oldest_archives cfg active_inode can_stat can_remove dir).dir
      ≡ keep (λ e. bytes_eq e.name cfg.active_log_name) dir
  prune_oldest_archives-active = prune_oldest_archives-Kept.active

-- The limit on bytes does not hold for the first archive: a directory whose one file is an archive
-- under another name than the active log's, and is larger than the limit, loses it all the same.
pub prune_oldest_archives-oversized :
    (cfg : DiskCleanupConfig) (f : Entry)
    → 0 < cfg.max_files_to_delete
    → cfg.max_bytes_to_delete < f.size
    → f.size < 2 ^ 63
    → f.is_dir ≡ false
    → bytes_eq f.name cfg.active_log_name ≡ false
    → is_archive_file f.name ≡ true
    → let p = prune_oldest_archives cfg 0 (λ n. true) (λ n. true) (f ∷ []) in
      (p.dir ≡ []) × (p.failed ≡ false) × (cfg.max_bytes_to_delete < p.bytes_deleted)
unfolding prune_oldest_archives prune find_candidate_archives oldest_first insert_by_time
    check_candidate_file_safe stat remove
prune_oldest_archives-oversized cfg f files big fits plain other archive =
    ground (arith, bytes_eq_refl f.name)
