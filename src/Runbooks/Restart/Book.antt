-- ===== src/Runbooks/Restart/Book.antt =====
-- RBK-PROC-001 as a runbook (`NewServiceHangRecoveryRunbook` of internal/runbooks/runbooks.go).
use autonomous_remediation_e.Prelude.{ℕ, [], ◌∷◌, str_eq, str_append, ◌==◌, if◌then◌else◌}
use autonomous_remediation_e.Host.{System}
use autonomous_remediation_e.Engine.{Runbook}
use autonomous_remediation_e.Runbooks.Files.{Platform, custom_condition, mutation}
use autonomous_remediation_e.Runbooks.Restart.{
  ServiceHangConfig, Library, check_hang, restart, check_replaced,
}

module _ {Y : Type 0} where
  -- The settings with the defaults for what is missing.
  unfoldable pub completed : Library Y → ServiceHangConfig Y → ServiceHangConfig Y
  completed lib cfg =
      let port = if cfg.port == 0 then 8080 else cfg.port in
      record cfg {
        service_name = if str_eq cfg.service_name "" then "ai-gateway" else cfg.service_name;
        port = port;
        health_url =
            if str_eq cfg.health_url ""
            then str_append "http://127.0.0.1:" (str_append (lib.itoa port) "/healthz")
            else cfg.health_url;
        term_timeout = if cfg.term_timeout == 0 then 5000000000 else cfg.term_timeout;
        kill_timeout = if cfg.kill_timeout == 0 then 2000000000 else cfg.kill_timeout;
        execution_timeout =
            if cfg.execution_timeout == 0 then 15000000000 else cfg.execution_timeout;
      }

  -- The runbook over settings that are complete.
  unfoldable pub restart_runbook :
      System (ℕ × Y) → Platform (ℕ × Y) → Library Y → ServiceHangConfig Y → Runbook (ℕ × Y)
  restart_runbook os p lib cfg = record {
    id = "RBK-PROC-001";
    name = "service_hang_recovery";
    target_resource_id = cfg.service_name;
    severity = "CRITICAL";
    preconditions = custom_condition "target-service-hang-asserted" (check_hang os p lib cfg) ∷ [];
    actions =
        mutation "escalation-ladder-termination-and-respawn" cfg.execution_timeout
          (restart os p lib cfg)
        ∷ [];
    postconditions =
        custom_condition "replacement-process-and-port-healthy" (check_replaced os p lib cfg) ∷ [];
    rollback_steps = [];
    blast_radius = record {
      max_execution_time = cfg.execution_timeout;
      max_bytes_mutated = 0;
      max_processes_signaled = 1;
      max_files_modified = 0;
      allowed_path_prefixes = [];
    };
  }

  -- `NewServiceHangRecoveryRunbook`; the variable starts as `TargetPID`.
  unfoldable pub new_service_hang_recovery_runbook :
      System (ℕ × Y) → Platform (ℕ × Y) → Library Y → ServiceHangConfig Y → Runbook (ℕ × Y)
  new_service_hang_recovery_runbook os p lib cfg = restart_runbook os p lib (completed lib cfg)
