-- ===== src/Runbooks/Lkg/Swap.antt =====
-- What the action of RBK-CFG-001 (internal/runbooks/runbooks.go) leaves of the active configuration.
use autonomous_remediation_e.Prelude.{
  ℕ, ◌≡◌, ◌≢◌, refl, sym, ◌∙◌, subst, Bool, true, false, String, Option, none, some, str_eq,
  str_eq_iff, arith, Bool-cases, inl, inr, ◌⊎◌,
}
use autonomous_remediation_e.Prelude.Assoc.{lookup, insert, erase, lookup-insert}
use autonomous_remediation_e.Host.{System}
use autonomous_remediation_e.Executor.{ExecutionResult}
use autonomous_remediation_e.Runbooks.Files.{
  read_file, write_file, moved, rename, reload, str_append-ne,
}
use autonomous_remediation_e.Runbooks.Lkg.{
  Site, ConfigRollbackConfig, Library, quarantine_path, tmp_path, quarantined, quarantine, reloaded,
  renamed, staged_tmp, swapped, restore_lkg,
}

module _ {Y : Type 0} (os : System (String × Y)) (lib : Library)
    (cfg : ConfigRollbackConfig Y) where
  abbrev file_at : String → Site Y → Option String
  file_at path w = lookup path w.files

  -- The paths are apart, and the reload leaves the active configuration alone.
  pub record IsSound (nanos : String) : Type 0 where
    pub apart : quarantine_path cfg.quarantine_dir nanos ≢ cfg.active_config_path
    pub kept_good : quarantine_path cfg.quarantine_dir nanos ≢ cfg.lkg_config_path
    pub reload_keeps :
        (w : Site Y)
        → lookup cfg.active_config_path
            (reload os cfg.restart_fn cfg.target_pid cfg.pid_file_path w).0.files
          ≡ lookup cfg.active_config_path w.files

  -- The active configuration afterwards, by the error: without one, the good configuration; with
  -- one, the good configuration or what was there before.
  abbrev Swapped : Option String → String → Option String → Option String → Type 0
  Swapped old good none now = now ≡ some good
  Swapped old good (some e) now = (now ≡ old) ⊎ (now ≡ some good)

  abbrev pub Outcome :
      Option String → String → Site Y × Option ExecutionResult × Option String → Type 0
  Outcome old good (w, r, e) = Swapped old good e (file_at cfg.active_config_path w)

  file_at-write :
      (path other content : String) (w : Site Y)
      → other ≢ path
      → file_at path (write_file os other content w).0 ≡ file_at path w
  unfolding write_file
  file_at-write path other content w h =
      ground (arith, lookup-insert other path content w.files, str_eq_iff other path)

  quarantine-file_at :
      (path nanos : String) (w : Site Y)
      → quarantine_path cfg.quarantine_dir nanos ≢ path
      → file_at path (quarantine os lib cfg nanos w) ≡ file_at path w
  unfolding quarantine quarantined
  quarantine-file_at path nanos w h = elim (Bool-cases (str_eq cfg.quarantine_dir "")) [
    | inl e ↦ rw e
    | inr e ↦ rw e (copied (read_file os cfg.active_config_path w))
  ]
    where
      copied :
          (r : Option String) → file_at path (quarantined os lib cfg nanos r w) ≡ file_at path w
      copied none = refl
      copied (some active) =
          file_at-write path (quarantine_path cfg.quarantine_dir nanos) active w h

  reloaded-Outcome :
      (old : Option String) (good : String) (x : Site Y × Option String)
      → file_at cfg.active_config_path x.0 ≡ some good
      → Outcome old good (reloaded os lib cfg good x)
  unfolding reloaded
  reloaded-Outcome old good (w, none) h = h
  reloaded-Outcome old good (w, some e) h = inr h

  renamed-Outcome :
      (nanos good : String) (old : Option String) (x : Site Y × Bool)
      → IsSound nanos
      → ((x.1 ≡ true) × (file_at cfg.active_config_path x.0 ≡ some good))
        ⊎ ((x.1 ≡ false) × (file_at cfg.active_config_path x.0 ≡ old))
      → Outcome old good (renamed os lib cfg good x)
  unfolding renamed
  renamed-Outcome nanos good old (w, true) s (inl (e, h)) =
      reloaded-Outcome old good _ (s.reload_keeps w ∙ h)
  renamed-Outcome nanos good old (w, true) s (inr (e, h)) = cc e
  renamed-Outcome nanos good old (w, false) s (inl (e, h)) = cc e
  renamed-Outcome nanos good old (w, false) s (inr (e, h)) = inl h

  -- A rename puts the content at the new name, or changes nothing.
  rename_cases :
      (from to content : String) (w : Site Y)
      → lookup from w.files ≡ some content
      → (((rename os from to w).1 ≡ true) × (file_at to (rename os from to w).0 ≡ some content))
        ⊎ (((rename os from to w).1 ≡ false) × (file_at to (rename os from to w).0 ≡ file_at to w))
  unfolding rename moved
  rename_cases from to content w here = elim (Bool-cases (os.can_write w to)) [
    | inl e ↦ inl (
      rw (here, e) refl,
      rw (here, e)
          (lookup-insert to to content (erase from w.files) ∙ rw ((str_eq_iff to to).1 refl) refl),
    )
    | inr e ↦ inr (rw (here, e) refl, rw (here, e) refl)
  ]

  staged_tmp-Outcome :
      (nanos good : String) (w : Site Y)
      → IsSound nanos
      → Outcome
          (file_at cfg.active_config_path w)
          good
          (staged_tmp os lib cfg good (write_file os (tmp_path cfg.active_config_path) good w))
  unfolding staged_tmp write_file
  staged_tmp-Outcome nanos good w s =
      let tmp = tmp_path cfg.active_config_path in
      let active = cfg.active_config_path in
      let w' : Site Y = record w { files = insert tmp good w.files } in
      elim (Bool-cases (os.can_write w tmp)) [
        | inl e ↦
            let there : lookup tmp w'.files ≡ some good =
              lookup-insert tmp tmp good w.files ∙ rw ((str_eq_iff tmp tmp).1 refl) refl in
            let other : tmp ≢ active = str_append-ne active ".lkg.tmp" (λ h. cc h) in
            let kept : file_at active w' ≡ file_at active w =
              ground (arith, lookup-insert tmp active good w.files, str_eq_iff tmp active) in
            rw e (
              subst (λ old. Outcome old good (renamed os lib cfg good (rename os tmp active w')))
                kept
                (renamed-Outcome nanos good (file_at active w') (rename os tmp active w') s
                  (rename_cases tmp active good w' there)))
        | inr e ↦ rw e (inl refl)
      ]

  swapped-Outcome :
      (nanos good : String) (r : Option String) (w : Site Y)
      → IsSound nanos
      → (r ≡ some good) ⊎ (r ≡ none)
      → Outcome (file_at cfg.active_config_path w) good (swapped os lib cfg r w)
  unfolding swapped
  swapped-Outcome nanos good none w s h = inl refl
  swapped-Outcome nanos good (some lkg) w s (inl h) =
      let same : good ≡ lkg = cc h in
      subst (λ g. Outcome (file_at cfg.active_config_path w) g (swapped os lib cfg (some lkg) w))
        (sym same) (staged_tmp-Outcome nanos lkg w s)
  swapped-Outcome nanos good (some lkg) w s (inr h) = cc h

  read_cases :
      (path content : String) (w : Site Y)
      → file_at path w ≡ some content
      → (read_file os path w ≡ some content) ⊎ (read_file os path w ≡ none)
  unfolding read_file
  read_cases path content w h = elim (Bool-cases (os.can_read w path)) [
    | inl e ↦ inl (rw e h)
    | inr e ↦ inr (rw e refl)
  ]

  -- Where a good configuration is kept, the action of RBK-CFG-001 leaves one of two whole files as
  -- the active configuration, whichever of its calls into the file system fail: without an error it
  -- is the good configuration; with an error it is that, or what it was before. The path for the
  -- corrupt file is another than both, and the reload does not write the active configuration.
  pub restore_lkg-Swapped :
      (nanos target good : String) (timeout : ℕ) (w : Site Y)
      → IsSound nanos
      → lookup cfg.lkg_config_path w.files ≡ some good
      → Outcome
          (lookup cfg.active_config_path w.files)
          good
          (restore_lkg os lib cfg nanos target timeout w)
  unfolding restore_lkg
  restore_lkg-Swapped nanos target good timeout w s here =
      let w' = quarantine os lib cfg nanos w in
      let kept : file_at cfg.lkg_config_path w' ≡ some good =
        quarantine-file_at cfg.lkg_config_path nanos w s.kept_good ∙ here in
      subst (λ old. Outcome old good (swapped os lib cfg (read_file os cfg.lkg_config_path w') w'))
        (quarantine-file_at cfg.active_config_path nanos w s.apart)
        (swapped-Outcome nanos good (read_file os cfg.lkg_config_path w') w' s
          (read_cases cfg.lkg_config_path good w' kept))
