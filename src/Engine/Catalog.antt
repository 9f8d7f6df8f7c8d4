-- ===== src/Engine/Catalog.antt =====
-- `RegisterRunbook`, `GetRunbook` and `ListRunbooks` of internal/engine/engine.go.
use autonomous_remediation_e.Prelude.{
  Bool, true, false, ◌||◌, String, List, [], ◌∷◌, Option, none, some, str_eq, if◌then◌else◌,
}
use autonomous_remediation_e.Prelude.Assoc.{Assoc, lookup, insert}
use autonomous_remediation_e.Engine.{Runbook, Engine}

-- The canonical name that an alias stands for.
unfoldable pub canonical : String → Option String
canonical id =
    if str_eq id "disk_cleanup_var_log" || str_eq id "disk_log_drain" || str_eq id "RBK-DISK-001"
    then some "RBK-DISK-001"
    else if str_eq id "service_deadlock_restart"
        || str_eq id "service_hang_recovery"
        || str_eq id "RBK-PROC-001"
    then some "RBK-PROC-001"
    else if str_eq id "tls_cert_renew_internal"
        || str_eq id "tls_cert_rotation"
        || str_eq id "tls_cert_reload"
        || str_eq id "RBK-TLS-001"
    then some "RBK-TLS-001"
    else if str_eq id "config_rollback" || str_eq id "RBK-CFG-001"
    then some "RBK-CFG-001"
    else none

module _ {X : Type 0} where
  -- `RegisterRunbook`; a runbook without an ID is refused, with `false`.
  unfoldable pub register_runbook : Option (Runbook X) → Engine X → Engine X × Bool
  register_runbook none e = (e, false)
  register_runbook (some rb) e =
      if str_eq rb.id ""
      then (e, false)
      else (record e { runbooks = insert rb.id rb e.runbooks }, true)

  -- The first runbook whose name or ID is this.
  unfoldable pub named : String → Assoc (Runbook X) → Option (Runbook X)
  named id [] = none
  named id ((k, rb) ∷ rbs) = if str_eq rb.name id || str_eq rb.id id then some rb else named id rbs

  unfoldable pub or_else : Option (Runbook X) → Option (Runbook X) → Option (Runbook X)
  or_else none other = other
  or_else (some rb) other = some rb

  -- By key, else by name.
  abbrev pub find : String → Assoc (Runbook X) → Option (Runbook X)
  find id rbs = or_else (lookup id rbs) (named id rbs)

  -- `GetRunbook`.
  unfoldable pub get_runbook : String → Engine X → Option (Runbook X)
  get_runbook id e =
      or_else (find id e.runbooks)
        (elim (canonical id) [ none ↦ none | some canon_id ↦ find canon_id e.runbooks ])

  -- `ListRunbooks`.
  unfoldable pub list_runbooks : Assoc (Runbook X) → List (Runbook X)
  list_runbooks [] = []
  list_runbooks ((k, rb) ∷ rbs) = rb ∷ list_runbooks rbs

  -- The first runbook for the resource.
  unfoldable pub targeting : String → Assoc (Runbook X) → Option (Runbook X)
  targeting resource [] = none
  targeting resource ((k, rb) ∷ rbs) =
      if str_eq rb.target_resource_id resource then some rb else targeting resource rbs
