-- ===== src/Runbooks/Rotation/Book.antt =====
-- RBK-TLS-001 as a runbook (`NewTLSCertRotationRunbook` of internal/runbooks/runbooks.go).
use autonomous_remediation_e.Prelude.{ℕ, [], ◌∷◌, some, ◌==◌, if◌then◌else◌}
use autonomous_remediation_e.Host.{System}
use autonomous_remediation_e.Engine.{Runbook}
use autonomous_remediation_e.Runbooks.Files.{Platform, custom_condition, mutation}
use autonomous_remediation_e.Runbooks.Rotation.{
  Vars, TlsRotationConfig, Library, or_named, check_staged, rotate, restore_original, check_rotated,
}

module _ {Y : Type 0} where
  -- The settings with the defaults for what is missing.
  unfoldable pub completed_tls : TlsRotationConfig Y → TlsRotationConfig Y
  completed_tls cfg = record cfg {
    service_name = or_named cfg.service_name "ai-security-guardrail-proxy";
    target_addr = or_named cfg.target_addr "127.0.0.1:8443";
    execution_timeout = if cfg.execution_timeout == 0 then 10000000000 else cfg.execution_timeout;
  }

  unfoldable pub rotation_runbook :
      System (Vars × Y)
      → Platform (Vars × Y)
      → Library Y
      → ℕ
      → TlsRotationConfig Y
      → Runbook (Vars × Y)
  rotation_runbook os p lib now cfg = record {
    id = "RBK-TLS-001";
    name = "tls_cert_rotation";
    target_resource_id = cfg.service_name;
    severity = "HIGH";
    preconditions =
        custom_condition "staged-x509-validity-and-modulus-verification"
          (check_staged os p lib cfg now)
        ∷ [];
    actions =
        mutation "atomic-swap-and-sighup-reload" cfg.execution_timeout (rotate os p lib cfg) ∷ [];
    postconditions =
        custom_condition "tls-handshake-presented-serial-verified" (check_rotated os p lib cfg)
        ∷ [];
    rollback_steps =
        record {
          name = "restore-original-tls-certificate";
          binary = "";
          args = [];
          target_path = "";
          staged_backup_path = "";
          compensating_fn = some (restore_original os p lib cfg);
        }
        ∷ [];
    blast_radius = record {
      max_execution_time = cfg.execution_timeout;
      max_bytes_mutated = 0;
      max_processes_signaled = 0;
      max_files_modified = 2;
      allowed_path_prefixes = [];
    };
  }

  -- `NewTLSCertRotationRunbook`; its precondition reads the time.
  unfoldable pub new_tls_cert_rotation_runbook :
      System (Vars × Y)
      → Platform (Vars × Y)
      → Library Y
      → ℕ
      → TlsRotationConfig Y
      → Runbook (Vars × Y)
  new_tls_cert_rotation_runbook os p lib now cfg = rotation_runbook os p lib now (completed_tls cfg)
