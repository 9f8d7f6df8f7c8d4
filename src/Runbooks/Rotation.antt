-- ===== src/Runbooks/Rotation.antt =====
-- `NewTLSCertRotationRunbook` of internal/runbooks/runbooks.go, RBK-TLS-001: the certificate of a
-- service and its key are replaced by staged ones. The variables of the closures are the first part
-- of the rest of the host.
pub mod Modulus
pub mod Deployed
pub mod Elsewhere
pub mod Book
use Prim.Native.Char.{code}
use autonomous_remediation_e.Prelude.{
  ℕ, ◌+◌, ◌-◌, Bool, true, false, ◌||◌, ◌&&◌, not, String, List, [], ◌∷◌, Option, none, some,
  str_eq, str_append, leb, ltb, ◌==◌, if◌then◌else◌, inl, inr, ◌⊎◌,
}
use autonomous_remediation_e.Prelude.Assoc.{erase}
use autonomous_remediation_e.Host.{World, System}
use autonomous_remediation_e.Executor.{ExecutionResult, empty_result}
use autonomous_remediation_e.Runbooks.Files.{Platform, read_file, write_file, rename, reload}
use autonomous_remediation_e.Runbooks.Rotation.Modulus.{
  Certificate, Crypto, KeyError, verify_cert_and_key_modulus, decode_certificate,
}

-- The variables that the closures share.
pub record Vars : Type 0 where
  pub staged_serial : String
  pub backup_cert_path : String
  pub backup_key_path : String

abbrev pub Site : Type 0 → Type 0
Site Y = World (Vars × Y)

-- `TLSRotationConfig`; a duration or a process that is not positive is 0.
pub record TlsRotationConfig (Y : Type 0) : Type 0 where
  pub service_name : String
  pub staged_cert_path : String
  pub staged_key_path : String
  pub active_cert_path : String
  pub active_key_path : String
  pub backup_dir : String
  pub target_addr : String
  pub health_url : String
  pub target_pid : ℕ
  pub pid_file_path : String
  pub reload_fn : Option (Site Y → Site Y × Option String)
  pub execution_timeout : ℕ

pub data Trouble : Type 0 where
  cert_unreadable key_unreadable : Trouble
  key_mismatch : KeyError → Trouble
  short_validity : Trouble
  tmp_cert_unwritten tmp_key_unwritten cert_not_renamed key_not_renamed : Trouble
  reload_failed : String → Trouble
  active_missing bad_active : Trouble
  serial_mismatch : String → String → Trouble
  handshake_failed no_peer_certificate : Trouble

-- What the runbook takes from the libraries: the parts of crypto/x509, `strings.ToLower` on a serial
-- number, the length of a text in bytes, the serial number that a TLS handshake presents (or none, or
-- no handshake), and the texts that fmt makes.
pub record Library (Y : Type 0) : Type 0 where
  pub crypto : Crypto
  pub lower : String → String
  pub size : String → ℕ
  pub handshake : String → Site Y → Site Y × (Option String ⊎ String)
  pub describe : Trouble → String
  pub report : String → String

unfoldable pub has_slash : String → Bool
has_slash String.[] = false
has_slash (String.◌∷◌ c s) = code c == 47 || has_slash s

-- `filepath.Base` of a path that does not end in a slash.
unfoldable pub base : String → String
base String.[] = String.[]
base (String.◌∷◌ c s) =
    let rest = base s in if has_slash s then rest else if code c == 47 then s else String.◌∷◌ c s

abbrev pub or_named : String → String → String
or_named String.[] name = name
or_named (String.◌∷◌ c s) name = String.◌∷◌ c s

module _ {Y : Type 0} where
  unfoldable pub default_tls_rotation_config : TlsRotationConfig Y
  default_tls_rotation_config = record {
    service_name = "ai-security-guardrail-proxy";
    staged_cert_path = "/var/lib/autonomous-remediation/staging/tls.crt";
    staged_key_path = "/var/lib/autonomous-remediation/staging/tls.key";
    active_cert_path = "/etc/ssl/certs/guardrail-proxy.crt";
    active_key_path = "/etc/ssl/private/guardrail-proxy.key";
    backup_dir = "/var/lib/autonomous-remediation/journal/backup";
    target_addr = "127.0.0.1:8443";
    health_url = "https://127.0.0.1:8443/healthz";
    target_pid = 0;
    pid_file_path = "";
    reload_fn = none;
    execution_timeout = 10000000000;
  }

  -- `resolveTLSCertPaths`, for the resource of the context, or the service where that is empty.
  unfoldable pub resolve_tls_cert_paths :
      Platform (Vars × Y) → TlsRotationConfig Y → String → Site Y → String × String
  resolve_tls_cert_paths p cfg resource w =
      let target = or_named resource cfg.service_name in
      if (str_eq target "ai-gateway"
          || (str_eq target "" && p.is_file w "/etc/ssl/certs/ai-gateway.crt"))
        && (p.is_file w "/etc/ssl/certs/ai-gateway.crt"
            || str_eq cfg.active_cert_path "/etc/ssl/certs/guardrail-proxy.crt")
      then ("/etc/ssl/certs/ai-gateway.crt", "/etc/ssl/private/ai-gateway.key")
      else (cfg.active_cert_path, cfg.active_key_path)

  abbrev pub with_vars : Vars → Site Y → Site Y
  with_vars v w = record w { rest = (v, w.rest.1) }

module _ {Y : Type 0} (os : System (Vars × Y)) (p : Platform (Vars × Y)) (lib : Library Y)
    (cfg : TlsRotationConfig Y) where
  abbrev fail : Site Y → Trouble → Site Y × Bool × Option String
  fail w t = (w, false, some (lib.describe t))

  -- A certificate that fits its key is valid for more than 30 days.
  unfoldable pub valid_long : ℕ → Certificate ⊎ KeyError → Site Y → Site Y × Bool × Option String
  valid_long now (inr e) w = fail w (key_mismatch e)
  valid_long now (inl cert) w =
      if leb cert.not_after (now + 2592000000000000)
      then fail w short_validity
      else (with_vars (record w.rest.0 { staged_serial = cert.serial }) w, true, none)

  unfoldable pub staged_pair :
      ℕ → Option String → Option String → Site Y → Site Y × Bool × Option String
  staged_pair now none key w = fail w cert_unreadable
  staged_pair now (some cert) none w = fail w key_unreadable
  staged_pair now (some cert) (some key) w =
      valid_long now (verify_cert_and_key_modulus lib.crypto cert key) w

  -- The precondition, at a time.
  unfoldable pub check_staged : ℕ → String → Site Y → Site Y × Bool × Option String
  check_staged now resource w =
      staged_pair now (read_file os cfg.staged_cert_path w) (read_file os cfg.staged_key_path w) w

  abbrev pub Mutated : Type 0
  Mutated = Site Y × Option ExecutionResult × Option String

  abbrev give_up : Site Y → Trouble → Mutated
  give_up w t = (w, none, some (lib.describe t))

  -- A copy, if the file can be read; a failure is ignored.
  unfoldable pub copied : String → Option String → Site Y → Site Y
  copied path none w = w
  copied path (some content) w = (write_file os path content w).0

  -- The copies of the active files.
  unfoldable pub backed_up : String → String → Site Y → Site Y
  backed_up cert key w =
      if str_eq cfg.backup_dir ""
      then w
      else (let backup_cert =
            str_append cfg.backup_dir (str_append "/" (str_append (base cert) ".bak")) in
          let backup_key =
            str_append cfg.backup_dir (str_append "/" (str_append (base key) ".bak")) in
          let w1 =
            with_vars
              (record w.rest.0 { backup_cert_path = backup_cert; backup_key_path = backup_key })
              w in
          let w2 = copied backup_cert (read_file os cert w1) w1 in
          copied backup_key (read_file os key w2) w2)

  unfoldable pub reloaded : ℕ → Site Y × Option String → Mutated
  reloaded size (w, some e) = give_up w (reload_failed e)
  reloaded size (w, none) = (
    w,
    some (record empty_result {
      success = true;
      bytes_mutated = size;
      stdout = lib.report w.rest.0.staged_serial;
    }),
    none,
  )

  unfoldable pub key_renamed : ℕ → Site Y × Bool → Mutated
  key_renamed size (w, false) = give_up w key_not_renamed
  key_renamed size (w, true) =
      reloaded size (reload os cfg.reload_fn cfg.target_pid cfg.pid_file_path w)

  unfoldable pub cert_renamed : ℕ → String → Site Y × Bool → Mutated
  cert_renamed size key (w, false) = give_up w cert_not_renamed
  cert_renamed size key (w, true) = key_renamed size (rename os (str_append key ".tmp") key w)

  -- After the second temporary file; the first is removed where this one failed.
  unfoldable pub key_staged : ℕ → String → String → Site Y × Bool → Mutated
  key_staged size cert key (w, false) =
      give_up (record w { files = erase (str_append cert ".tmp") w.files }) tmp_key_unwritten
  key_staged size cert key (w, true) =
      cert_renamed size key (rename os (str_append cert ".tmp") cert w)

  unfoldable pub cert_staged : ℕ → String → String → String → Site Y × Bool → Mutated
  cert_staged size cert key key_content (w, false) = give_up w tmp_cert_unwritten
  cert_staged size cert key key_content (w, true) =
      key_staged size cert key (write_file os (str_append key ".tmp") key_content w)

  unfoldable pub deployed : String → String → Option String → Option String → Site Y → Mutated
  deployed cert key none staged_key w = give_up w cert_unreadable
  deployed cert key (some staged) none w = give_up w key_unreadable
  deployed cert key (some staged) (some staged_key) w =
      cert_staged (lib.size staged + lib.size staged_key) cert key staged_key
        (write_file os (str_append cert ".tmp") staged w)

  -- The action, for a resource.
  unfoldable pub rotate : String → ℕ → Site Y → Mutated
  rotate resource timeout w =
      let (cert, key) = resolve_tls_cert_paths p cfg resource w in
      let w' = backed_up cert key w in
      deployed cert key (read_file os cfg.staged_cert_path w') (read_file os cfg.staged_key_path w')
        w'

  -- The step that compensates it: the copies are written to the paths of the configuration.
  unfoldable pub reload_again : Option (Site Y → Site Y × Option String) → Site Y → Site Y
  reload_again none w = w
  reload_again (some f) w = (f w).0

  unfoldable pub restore_original : String → Site Y → Site Y × Option String
  restore_original resource w =
      let v = w.rest.0 in
      if str_eq v.backup_cert_path "" || str_eq v.backup_key_path ""
      then (w, none)
      else (let w1 = copied cfg.active_cert_path (read_file os v.backup_cert_path w) w in
          let w2 = copied cfg.active_key_path (read_file os v.backup_key_path w1) w1 in
          (reload_again cfg.reload_fn w2, none))

  -- The postcondition: the serial number of the file, and the one that a listening service presents.
  unfoldable pub presented : Site Y × (Option String ⊎ String) → Site Y × Bool × Option String
  presented (w, inr e) = fail w handshake_failed
  presented (w, inl none) = fail w no_peer_certificate
  presented (w, inl (some serial)) =
      if str_eq (lib.lower serial) (lib.lower w.rest.0.staged_serial)
      then (w, true, none)
      else fail w (serial_mismatch serial w.rest.0.staged_serial)

  unfoldable pub if_listening : Site Y × Bool → Site Y × Bool × Option String
  if_listening (w, false) = (w, true, none)
  if_listening (w, true) = presented (lib.handshake cfg.target_addr w)

  unfoldable pub same_serial : Option Certificate → Site Y → Site Y × Bool × Option String
  same_serial none w = fail w bad_active
  same_serial (some cert) w =
      if str_eq (lib.lower cert.serial) (lib.lower w.rest.0.staged_serial)
      then if_listening (p.dial cfg.target_addr 200000000 w)
      else fail w (serial_mismatch cert.serial w.rest.0.staged_serial)

  unfoldable pub active_found : Option String → Site Y → Site Y × Bool × Option String
  active_found none w = fail w active_missing
  active_found (some content) w = same_serial (decode_certificate lib.crypto content) w

  unfoldable pub check_rotated : String → Site Y → Site Y × Bool × Option String
  check_rotated resource w =
      active_found (read_file os (resolve_tls_cert_paths p cfg resource w).0 w) w
