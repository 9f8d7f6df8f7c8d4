-- ===== src/Runbooks/Rotation/Elsewhere.antt =====
-- What the compensating step of RBK-TLS-001 (internal/runbooks/runbooks.go) writes.
use autonomous_remediation_e.Prelude.{
  ℕ, ◌≡◌, ◌≢◌, refl, ◌∙◌, ap, ◌||◌, String, Option, none, some, str_eq, str_eq_iff, str_append,
  arith, Bool-cases, inl, inr,
}
use autonomous_remediation_e.Prelude.Assoc.{Assoc, lookup, insert, erase, lookup-insert}
use autonomous_remediation_e.Host.{System}
use autonomous_remediation_e.Runbooks.Files.{Platform, read_file, write_file}
use autonomous_remediation_e.Runbooks.Rotation.{
  Vars, Site, TlsRotationConfig, Library, default_tls_rotation_config, resolve_tls_cert_paths,
  copied, reload_again, restore_original, rotate, deployed, backed_up, base, has_slash, with_vars,
  Mutated,
}
use autonomous_remediation_e.Runbooks.Rotation.Deployed.{
  IsWorking, lookup_same, lookup_inserted, lookup_erased, read_file-here, deployed_files,
  gateway_cert, gateway_key, deployed-works,
}

module _ {Y : Type 0} (os : System (Vars × Y)) (p : Platform (Vars × Y)) (lib : Library Y) where
  copied_other :
      (cfg : TlsRotationConfig Y) (path to : String) (r : Option String) (w : Site Y)
      → to ≢ path
      → lookup path (copied os p lib cfg to r w).files ≡ lookup path w.files
  unfolding copied write_file
  copied_other cfg path to none w h = refl
  copied_other cfg path to (some content) w h =
      ground (arith, lookup-insert to path content w.files, str_eq_iff to path)

  still :
      (cfg : TlsRotationConfig Y) (f : Option (Site Y → Site Y × Option String)) (w : Site Y)
      → f ≡ none
      → reload_again os p lib cfg f w ≡ w
  unfolding reload_again
  still cfg none w h = refl
  still cfg (some f) w h = cc h

  restore_original_other :
      (cfg : TlsRotationConfig Y) (resource path : String) (w : Site Y)
      → cfg.reload_fn ≡ none
      → cfg.active_cert_path ≢ path
      → cfg.active_key_path ≢ path
      → lookup path (restore_original os p lib cfg resource w).0.files ≡ lookup path w.files
  unfolding restore_original
  restore_original_other cfg resource path w no_reload cert key =
      let v = w.rest.0 in
      elim (Bool-cases (str_eq v.backup_cert_path "" || str_eq v.backup_key_path "")) [
        | inl e ↦ rw e refl
        | inr e ↦
            let w1 =
              copied os p lib cfg cfg.active_cert_path (read_file os v.backup_cert_path w) w in
            let w2 =
              copied os p lib cfg cfg.active_key_path (read_file os v.backup_key_path w1) w1 in
            rw e (
              ap (λ (x : Site Y). lookup path x.files) (still cfg cfg.reload_fn w2 no_reload)
              ∙ copied_other cfg path cfg.active_key_path (read_file os v.backup_key_path w1) w1 key
              ∙ copied_other cfg path cfg.active_cert_path (read_file os v.backup_cert_path w) w
                  cert)
      ]

  -- The copies are made beside the staged files.
  backed_up_other :
      (path : String) (w : Site Y)
      → "/var/lib/autonomous-remediation/journal/backup/ai-gateway.crt.bak" ≢ path
      → "/var/lib/autonomous-remediation/journal/backup/ai-gateway.key.bak" ≢ path
      → lookup path
          (backed_up os p lib default_tls_rotation_config gateway_cert gateway_key w).files
        ≡ lookup path w.files
  unfolding backed_up base has_slash default_tls_rotation_config
  backed_up_other path w no_cert no_key =
      let cfg : TlsRotationConfig Y = default_tls_rotation_config in
      let crt : String = "/var/lib/autonomous-remediation/journal/backup/ai-gateway.crt.bak" in
      let key : String = "/var/lib/autonomous-remediation/journal/backup/ai-gateway.key.bak" in
      let w1 = with_vars (record w.rest.0 { backup_cert_path = crt; backup_key_path = key }) w in
      let w2 = copied os p lib cfg crt (read_file os gateway_cert w1) w1 in
      copied_other cfg path key (read_file os gateway_key w2) w2 no_key
      ∙ copied_other cfg path crt (read_file os gateway_cert w1) w1 no_cert

  rotate-deployed :
      (timeout : ℕ) (w : Site Y)
      → let cfg : TlsRotationConfig Y = default_tls_rotation_config in
        let w' = backed_up os p lib cfg gateway_cert gateway_key w in
        rotate os p lib cfg "ai-gateway" timeout w
        ≡ deployed os p lib cfg gateway_cert gateway_key
            (read_file os cfg.staged_cert_path w')
            (read_file os cfg.staged_key_path w')
            w'
  unfolding rotate resolve_tls_cert_paths default_tls_rotation_config
  rotate-deployed timeout w =
      let cfg : TlsRotationConfig Y = default_tls_rotation_config in
      let swapped : resolve_tls_cert_paths p cfg "ai-gateway" w ≡ (gateway_cert, gateway_key) =
        ground arith in
      ap
        (λ (x : String × String).
          let w' = backed_up os p lib cfg x.0 x.1 w in
          deployed os p lib cfg x.0 x.1 (read_file os cfg.staged_cert_path w')
            (read_file os cfg.staged_key_path w') w')
        swapped

  rotate-works :
      (timeout : ℕ) (a b : String) (w : Site Y)
      → IsWorking os
      → lookup "/var/lib/autonomous-remediation/staging/tls.crt" w.files ≡ some a
      → lookup "/var/lib/autonomous-remediation/staging/tls.key" w.files ≡ some b
      → (m : Assoc String) × ((rotate os p lib default_tls_rotation_config "ai-gateway" timeout
            w).0.files
          ≡ deployed_files gateway_cert gateway_key a b m)
  unfolding default_tls_rotation_config
  rotate-works timeout a b w ok cert key =
      let cfg : TlsRotationConfig Y = default_tls_rotation_config in
      let w' = backed_up os p lib cfg gateway_cert gateway_key w in
      let cert' =
        read_file-here os cfg.staged_cert_path a w' ok
          (backed_up_other cfg.staged_cert_path w (λ e. cc e) (λ e. cc e) ∙ cert) in
      let key' =
        read_file-here os cfg.staged_key_path b w' ok
          (backed_up_other cfg.staged_key_path w (λ e. cc e) (λ e. cc e) ∙ key) in
      (
        w'.files,
        ap (λ (x : Mutated os p lib cfg). x.0.files) (rotate-deployed timeout w)
            ∙ ap
                (λ (x : Option String × Option String).
                  (deployed os p lib cfg gateway_cert gateway_key x.0 x.1 w').0.files)
                (λ i. (cert' i, key' i))
            ∙ ap (λ (x : Site Y). x.files) (deployed-works os p lib a b w' ok),
      )

  deployed_files-holds :
      (a b : String) (m : Assoc String)
      → (lookup gateway_cert (deployed_files gateway_cert gateway_key a b m) ≡ some a)
        × (lookup gateway_key (deployed_files gateway_cert gateway_key a b m) ≡ some b)
  deployed_files-holds a b m =
      let ct = str_append gateway_cert ".tmp" in
      let kt = str_append gateway_key ".tmp" in
      let m2 = erase ct (insert kt b (insert ct a m)) in
      let m3 = insert gateway_cert a m2 in
      (
        lookup_inserted gateway_key gateway_cert b (erase kt m3) refl
            ∙ lookup_erased kt gateway_cert m3 refl
            ∙ lookup_same gateway_cert a m2,
        lookup_same gateway_key b (erase kt m3),
      )

  -- On a host on which files can be read and written, with a staged certificate and key, and with the
  -- configuration of the catalog: the rotation for the resource ai-gateway puts the staged pair at the
  -- paths of ai-gateway, and the step that is to compensate it, for whatever resource, leaves it there.
  pub restore_original-elsewhere :
      (resource : String) (timeout : ℕ) (a b : String) (w : Site Y)
      → IsWorking os
      → lookup "/var/lib/autonomous-remediation/staging/tls.crt" w.files ≡ some a
      → lookup "/var/lib/autonomous-remediation/staging/tls.key" w.files ≡ some b
      → let cfg : TlsRotationConfig Y = default_tls_rotation_config in
        let rotated = (rotate os p lib cfg "ai-gateway" timeout w).0 in
        let restored = (restore_original os p lib cfg resource rotated).0 in
        (lookup "/etc/ssl/certs/ai-gateway.crt" rotated.files ≡ some a)
        × (lookup "/etc/ssl/private/ai-gateway.key" rotated.files ≡ some b)
        × (lookup "/etc/ssl/certs/ai-gateway.crt" restored.files ≡ some a)
        × (lookup "/etc/ssl/private/ai-gateway.key" restored.files ≡ some b)
  unfolding default_tls_rotation_config
  restore_original-elsewhere resource timeout a b w ok cert key =
      let cfg : TlsRotationConfig Y = default_tls_rotation_config in
      let rotated = (rotate os p lib cfg "ai-gateway" timeout w).0 in
      let (m, put) = rotate-works timeout a b w ok cert key in
      let (cert', key') = deployed_files-holds a b m in
      let there = ap (lookup gateway_cert) put ∙ cert' in
      let there' = ap (lookup gateway_key) put ∙ key' in
      (
        there,
        there',
        restore_original_other cfg resource gateway_cert rotated refl (λ e. cc e) (λ e. cc e)
            ∙ there,
        restore_original_other cfg resource gateway_key rotated refl (λ e. cc e) (λ e. cc e)
            ∙ there',
      )
