-- ===== src/Drain/Intact.antt =====
-- What the checks around RBK-DISK-001 (internal/runbooks/runbooks.go) make of the active log.
use autonomous_remediation_e.Prelude.{
  ℕ, ◌≡◌, refl, sym, ap, ◌∙◌, Bool, true, ◌&&◌, ◌||◌, String, List, [], ◌∷◌, Option, none, some,
  Bytes, bytes_eq, ltb, ◌==◌, keep, arith, Bool-cases, inl, inr, str_eq_iff,
}
use autonomous_remediation_e.Prelude.Assoc.{lookup, insert, lookup-insert}
use autonomous_remediation_e.Host.{System}
use autonomous_remediation_e.Runbooks.Files.{Platform}
use autonomous_remediation_e.Drain.{DiskCleanupConfig, Entry, clamped, stat, prune_oldest_archives}
use autonomous_remediation_e.Drain.Clamps.{prune_oldest_archives-active}
use autonomous_remediation_e.Drain.Checks.{
  Shelf, Site, Library, resolve_target_dir, noted, candidates_checked, inspected, check_drainable,
  active_of, pruned, drain, check_space, check_active, check_drained,
}

-- The entry under a name is the first of those under the name.
stat-keep :
    (name : Bytes) (dir : List Entry)
    → stat name dir ≡ stat name (keep (λ e. bytes_eq e.name name) dir)
unfolding stat
stat-keep name [] = refl
stat-keep name (e ∷ es) = ground (arith, stat-keep name es)

-- What the check after makes of the active log that the check before saw, by the inode that was
-- noted before, and by what the space and the health endpoint say.
abbrev pub verdict : Option Entry → ℕ → Bool → Bool
verdict none n rest = n == 0 && rest
verdict (some e) n rest = (e.inode == 0 || e.is_regular) && rest

module _ {Y : Type 0} (os : System (Shelf × Y)) (p : Platform (Shelf × Y)) (lib : Library Y)
    (raw : DiskCleanupConfig) where
  abbrev cfg : DiskCleanupConfig
  cfg = clamped raw

  abbrev log_in : String → Site Y → Option Entry
  log_in dir w = active_of os p lib cfg (lookup dir w.rest.0.dirs)

  -- The active log is where it was, and the noted inode too.
  pruned-log_in :
      (dir : String) (entries : List Entry) (w : Site Y)
      → lookup dir w.rest.0.dirs ≡ some entries
      → let w' = (pruned os p lib cfg dir (some entries) w).0 in
        (log_in dir w' ≡ stat cfg.active_log_name entries)
        × (w'.rest.0.active_inode ≡ w.rest.0.active_inode)
  unfolding pruned
  pruned-log_in dir entries w here = elim (Bool-cases (os.can_read w dir)) [
    | inr e ↦ rw e (ap (active_of os p lib cfg) here, refl)
    | inl e ↦
        let r =
          prune_oldest_archives cfg w.rest.0.active_inode (lib.can_stat w dir)
            (lib.can_remove w dir) entries in
        let kept =
          prune_oldest_archives-active cfg w.rest.0.active_inode (lib.can_stat w dir)
            (lib.can_remove w dir) entries in
        let there : lookup dir (insert dir r.dir w.rest.0.dirs) ≡ some r.dir =
          lookup-insert dir dir r.dir w.rest.0.dirs ∙ rw ((str_eq_iff dir dir).1 refl) refl in
        let same : stat cfg.active_log_name r.dir ≡ stat cfg.active_log_name entries =
          stat-keep cfg.active_log_name r.dir
          ∙ ap (stat cfg.active_log_name) kept
          ∙ sym (stat-keep cfg.active_log_name entries) in
        elim (Bool-cases r.failed) [
          | inl f ↦ rw (e, f) (ap (active_of os p lib cfg) there ∙ same, refl)
          | inr f ↦ rw (e, f) (ap (active_of os p lib cfg) there ∙ same, refl)
        ]
  ]

  -- A directory that passes the check before is there, and the log is noted.
  inspected-passed :
      (dir : String) (entries : List Entry) (w : Site Y)
      → (inspected os p lib cfg dir (some entries) w).1 ≡ true
      → (inspected os p lib cfg dir (some entries) w).0 ≡ noted (stat cfg.active_log_name entries) w
  unfolding inspected candidates_checked
  inspected-passed dir entries w h = ground arith

  check_drained-verdict :
      (target : String) (e : Option Entry) (w v : Site Y)
      → log_in (resolve_target_dir target cfg.target_dir) v ≡ e
      → v.rest.0.active_inode ≡ (noted e w).rest.0.active_inode
      → (check_drained os p lib cfg target v).1
        ≡ verdict e w.rest.0.active_inode
            (check_space os p lib cfg (resolve_target_dir target cfg.target_dir) v).1
  unfolding noted check_active check_drained
  check_drained-verdict target none w v h i = elim (Bool-cases (ltb 0 v.rest.0.active_inode)) [
    | inl e ↦ rw (e, h) (ground (arith, i))
    | inr e ↦ rw e (ground (arith, i))
  ]
  check_drained-verdict target (some e) w v h i = elim (Bool-cases (ltb 0 v.rest.0.active_inode)) [
    | inl f ↦ rw (f, h) (ground (arith, i))
    | inr f ↦ rw f (ground (arith, i))
  ]

  noted-dirs : (e : Option Entry) (w : Site Y) → (noted e w).rest.0.dirs ≡ w.rest.0.dirs
  unfolding noted
  noted-dirs none w = refl
  noted-dirs (some e) w = refl

  drain-verdict :
      (target : String) (timeout : ℕ) (entries : List Entry) (w v : Site Y)
      → noted (stat cfg.active_log_name entries) w ≡ v
      → lookup (resolve_target_dir target cfg.target_dir) w.rest.0.dirs ≡ some entries
      → (check_drained os p lib cfg target (drain os p lib cfg target timeout v).0).1
        ≡ verdict
            (stat cfg.active_log_name entries)
            w.rest.0.active_inode
            (check_space os p lib cfg
              (resolve_target_dir target cfg.target_dir)
              (drain os p lib cfg target timeout v).0).1
  unfolding drain
  drain-verdict target timeout entries w v same here =
      let dir = resolve_target_dir target cfg.target_dir in
      let log = stat cfg.active_log_name entries in
      let there : lookup dir v.rest.0.dirs ≡ some entries =
        ap (λ (x : Site Y). lookup dir x.rest.0.dirs) (sym same)
        ∙ ap (lookup dir) (noted-dirs log w)
        ∙ here in
      let (kept, inode) = pruned-log_in dir entries v there in
      rw there (
        check_drained-verdict target log w (pruned os p lib cfg dir (some entries) v).0 kept
          (inode ∙ ap (λ (x : Site Y). x.rest.0.active_inode) (sym same)))

  -- Where the check before passes and the archives of the same directory are removed, or their
  -- removal fails, the check after goes by the active log that the check before saw, by space and by
  -- health: a log that is a regular file is found intact, whatever was removed; a log that is none is
  -- refused; and where there was no log, the check is refused if an earlier run has noted an inode.
  pub check_drained-active :
      (target : String) (timeout : ℕ) (entries : List Entry) (w : Site Y)
      → lookup (resolve_target_dir target cfg.target_dir) w.rest.0.dirs ≡ some entries
      → (check_drainable os p lib cfg target w).1 ≡ true
      → let dir = resolve_target_dir target cfg.target_dir in
        let before = (check_drainable os p lib cfg target w).0 in
        let after = (drain os p lib cfg target timeout before).0 in
        (check_drained os p lib cfg target after).1
        ≡ verdict
            (stat cfg.active_log_name entries)
            w.rest.0.active_inode
            (check_space os p lib cfg dir after).1
  unfolding check_drainable drain
  check_drained-active target timeout entries w here passed =
      let dir = resolve_target_dir target cfg.target_dir in
      let seen : (inspected os p lib cfg dir (some entries) w).1 ≡ true =
        ap (λ o. (inspected os p lib cfg dir o w).1) (sym here) ∙ passed in
      rw here
        (drain-verdict target timeout entries w _ (sym (inspected-passed dir entries w seen)) here)
