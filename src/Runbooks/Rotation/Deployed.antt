-- ===== src/Runbooks/Rotation/Deployed.antt =====
-- What the action of RBK-TLS-001 (internal/runbooks/runbooks.go) deploys for ai-gateway.
use autonomous_remediation_e.Prelude.{
  ◌≡◌, refl, ◌∙◌, true, false, String, some, str_eq, str_eq_iff, str_append,
}
use autonomous_remediation_e.Prelude.Assoc.{
  Assoc, lookup, insert, erase, lookup-insert, lookup-erase,
}
use autonomous_remediation_e.Host.{System}
use autonomous_remediation_e.Runbooks.Files.{
  Platform, read_file, write_file, rename, moved, reload, reload_pid,
}
use autonomous_remediation_e.Runbooks.Rotation.{
  Vars, Site, Library, default_tls_rotation_config, deployed, cert_staged, key_staged, cert_renamed,
  key_renamed, reloaded,
}

pub lookup_same : (k v : String) (m : Assoc String) → lookup k (insert k v m) ≡ some v
lookup_same k v m = lookup-insert k k v m ∙ rw ((str_eq_iff k k).1 refl) refl

pub lookup_inserted :
    (k j v : String) (m : Assoc String) → str_eq k j ≡ false → lookup j (insert k v m) ≡ lookup j m
lookup_inserted k j v m h = lookup-insert k j v m ∙ rw h refl

pub lookup_erased :
    (k j : String) (m : Assoc String) → str_eq k j ≡ false → lookup j (erase k m) ≡ lookup j m
lookup_erased k j m h = lookup-erase k j m ∙ rw h refl

-- The files after both temporary ones are written and renamed.
abbrev pub deployed_files : String → String → String → String → Assoc String → Assoc String
deployed_files cert key a b m =
    let ct = str_append cert ".tmp" in
    let kt = str_append key ".tmp" in
    insert key b (erase kt (insert cert a (erase ct (insert kt b (insert ct a m)))))

abbrev pub gateway_cert : String
gateway_cert = "/etc/ssl/certs/ai-gateway.crt"

abbrev pub gateway_key : String
gateway_key = "/etc/ssl/private/ai-gateway.key"

module _ {Y : Type 0} (os : System (Vars × Y)) where
  -- A host on which files can be read and written.
  pub record IsWorking : Type 0 where
    pub reads : (w : Site Y) (path : String) → os.can_read w path ≡ true
    pub writes : (w : Site Y) (path : String) → os.can_write w path ≡ true

  pub read_file-here :
      (path content : String) (w : Site Y)
      → IsWorking
      → lookup path w.files ≡ some content
      → read_file os path w ≡ some content
  unfolding read_file
  read_file-here path content w ok here = rw (ok.reads w path) here

  write_file-works :
      (path content : String) (w : Site Y)
      → IsWorking
      → write_file os path content w ≡ (record w { files = insert path content w.files }, true)
  unfolding write_file
  write_file-works path content w ok = rw (ok.writes w path) refl

  rename-works :
      (from to content : String) (w : Site Y)
      → IsWorking
      → lookup from w.files ≡ some content
      → rename os from to w ≡ (record w { files = insert to content (erase from w.files) }, true)
  unfolding rename moved
  rename-works from to content w ok here = rw (here, ok.writes w to) refl

module _ {Y : Type 0} (os : System (Vars × Y)) (p : Platform (Vars × Y)) (lib : Library Y) where
  -- The staged pair is put at the paths of ai-gateway.
  pub deployed-works :
      (a b : String) (w : Site Y)
      → IsWorking os
      → (deployed os p lib default_tls_rotation_config gateway_cert gateway_key
          (some a)
          (some b)
          w).0
        ≡ record w { files = deployed_files gateway_cert gateway_key a b w.files }
  unfolding deployed cert_staged key_staged cert_renamed key_renamed reloaded reload reload_pid
      default_tls_rotation_config
  deployed-works a b w ok =
      let ct = str_append gateway_cert ".tmp" in
      let kt = str_append gateway_key ".tmp" in
      let m1 = insert ct a w.files in
      let m2 = insert kt b m1 in
      let m3 = insert gateway_cert a (erase ct m2) in
      let w1 : Site Y = record w { files = m1 } in
      let w2 : Site Y = record w { files = m2 } in
      let w3 : Site Y = record w { files = m3 } in
      let first : lookup ct m2 ≡ some a =
        lookup_inserted kt ct b m1 refl ∙ lookup_same ct a w.files in
      let second : lookup kt m3 ≡ some b =
        lookup_inserted gateway_cert kt a (erase ct m2) refl
        ∙ lookup_erased ct kt m2 refl
        ∙ lookup_same kt b m1 in
      rw
        (
          write_file-works os ct a w ok,
          write_file-works os kt b w1 ok,
          rename-works os ct gateway_cert a w2 ok first,
          rename-works os kt gateway_key b w3 ok second,
        )
        refl
