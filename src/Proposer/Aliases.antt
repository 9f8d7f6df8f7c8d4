-- ===== src/Proposer/Aliases.antt =====
-- The aliases of internal/ai/proposer.go beside those of `GetRunbook` (internal/engine/engine.go).
use autonomous_remediation_e.Prelude.{
  ◌≡◌, refl, ◌∙◌, ap, true, ◌||◌, String, some, codes, str_eq, str_eq_iff, subst, arith, Bool-cases,
  inl, inr,
}
use autonomous_remediation_e.Prelude.Octets.{bytes_eq}
use autonomous_remediation_e.Prelude.Strings.{trim_space, trim_front, trim_back, is_space}
use autonomous_remediation_e.Engine.Catalog.{canonical}
use autonomous_remediation_e.Proposer.{normalize_runbook_id}

-- A name that is one that normalises to an ID normalises to it.
same_name :
    (id name c : String)
    → str_eq id name ≡ true
    → normalize_runbook_id (codes name) ≡ codes c
    → normalize_runbook_id (codes id) ≡ codes c
same_name id name c e h = ap (λ n. normalize_runbook_id (codes n)) ((str_eq_iff id name).0 e) ∙ h

disk_names :
    (id : String)
    → (str_eq id "disk_cleanup_var_log" || str_eq id "disk_log_drain" || str_eq id "RBK-DISK-001")
      ≡ true
    → normalize_runbook_id (codes id) ≡ codes "RBK-DISK-001"
unfolding normalize_runbook_id trim_space trim_front trim_back is_space bytes_eq
disk_names id h = elim (Bool-cases (str_eq id "disk_cleanup_var_log")) [
  | inl e ↦ same_name id "disk_cleanup_var_log" "RBK-DISK-001" e refl
  | inr e0 ↦ elim (Bool-cases (str_eq id "disk_log_drain")) [
    | inl e ↦ same_name id "disk_log_drain" "RBK-DISK-001" e refl
    | inr e1 ↦
        let last : str_eq id "RBK-DISK-001" ≡ true = ground arith in
        same_name id "RBK-DISK-001" "RBK-DISK-001" last refl
  ]
]

proc_names :
    (id : String)
    → (str_eq id "service_deadlock_restart"
        || str_eq id "service_hang_recovery"
        || str_eq id "RBK-PROC-001")
      ≡ true
    → normalize_runbook_id (codes id) ≡ codes "RBK-PROC-001"
unfolding normalize_runbook_id trim_space trim_front trim_back is_space bytes_eq
proc_names id h = elim (Bool-cases (str_eq id "service_deadlock_restart")) [
  | inl e ↦ same_name id "service_deadlock_restart" "RBK-PROC-001" e refl
  | inr e0 ↦ elim (Bool-cases (str_eq id "service_hang_recovery")) [
    | inl e ↦ same_name id "service_hang_recovery" "RBK-PROC-001" e refl
    | inr e1 ↦
        let last : str_eq id "RBK-PROC-001" ≡ true = ground arith in
        same_name id "RBK-PROC-001" "RBK-PROC-001" last refl
  ]
]

tls_names :
    (id : String)
    → (str_eq id "tls_cert_renew_internal"
        || str_eq id "tls_cert_rotation"
        || str_eq id "tls_cert_reload"
        || str_eq id "RBK-TLS-001")
      ≡ true
    → normalize_runbook_id (codes id) ≡ codes "RBK-TLS-001"
unfolding normalize_runbook_id trim_space trim_front trim_back is_space bytes_eq
tls_names id h = elim (Bool-cases (str_eq id "tls_cert_renew_internal")) [
  | inl e ↦ same_name id "tls_cert_renew_internal" "RBK-TLS-001" e refl
  | inr e0 ↦ elim (Bool-cases (str_eq id "tls_cert_rotation")) [
    | inl e ↦ same_name id "tls_cert_rotation" "RBK-TLS-001" e refl
    | inr e1 ↦ elim (Bool-cases (str_eq id "tls_cert_reload")) [
      | inl e ↦ same_name id "tls_cert_reload" "RBK-TLS-001" e refl
      | inr e2 ↦
          let last : str_eq id "RBK-TLS-001" ≡ true = ground arith in
          same_name id "RBK-TLS-001" "RBK-TLS-001" last refl
    ]
  ]
]

cfg_names :
    (id : String)
    → (str_eq id "config_rollback" || str_eq id "RBK-CFG-001") ≡ true
    → normalize_runbook_id (codes id) ≡ codes "RBK-CFG-001"
unfolding normalize_runbook_id trim_space trim_front trim_back is_space bytes_eq
cfg_names id h = elim (Bool-cases (str_eq id "config_rollback")) [
  | inl e ↦ same_name id "config_rollback" "RBK-CFG-001" e refl
  | inr e0 ↦
      let last : str_eq id "RBK-CFG-001" ≡ true = ground arith in
      same_name id "RBK-CFG-001" "RBK-CFG-001" last refl
]

-- Every name by which the engine's catalog knows a runbook is normalised to the ID that the catalog
-- takes it for.
pub normalize_runbook_id-canonical :
    (id c : String) → canonical id ≡ some c → normalize_runbook_id (codes id) ≡ codes c
unfolding canonical
normalize_runbook_id-canonical id c h =
    elim (Bool-cases (
      str_eq id "disk_cleanup_var_log" || str_eq id "disk_log_drain" || str_eq id "RBK-DISK-001")) [
        | inl e ↦
            let same : ◌≡◌ {A = String} "RBK-DISK-001" c = ground arith in
            subst (λ x. normalize_runbook_id (codes id) ≡ codes x) same (disk_names id e)
        | inr n0 ↦
            elim (Bool-cases (
              str_eq id "service_deadlock_restart"
              || str_eq id "service_hang_recovery"
              || str_eq id "RBK-PROC-001")) [
                | inl e ↦
                    let same : ◌≡◌ {A = String} "RBK-PROC-001" c = ground arith in
                    subst (λ x. normalize_runbook_id (codes id) ≡ codes x) same (proc_names id e)
                | inr n1 ↦
                    elim (Bool-cases (
                      str_eq id "tls_cert_renew_internal"
                      || str_eq id "tls_cert_rotation"
                      || str_eq id "tls_cert_reload"
                      || str_eq id "RBK-TLS-001")) [
                        | inl e ↦
                            let same : ◌≡◌ {A = String} "RBK-TLS-001" c = ground arith in
                            subst (λ x. normalize_runbook_id (codes id) ≡ codes x) same
                              (tls_names id e)
                        | inr n2 ↦
                            elim (Bool-cases
                              (str_eq id "config_rollback" || str_eq id "RBK-CFG-001")) [
                                | inl e ↦
                                    let same : ◌≡◌ {A = String} "RBK-CFG-001" c = ground arith in
                                    subst (λ x. normalize_runbook_id (codes id) ≡ codes x) same
                                      (cfg_names id e)
                                | inr n3 ↦ absurd (ground arith)
                              ]
                      ]
              ]
      ]
