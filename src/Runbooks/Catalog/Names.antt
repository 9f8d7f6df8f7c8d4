-- ===== src/Runbooks/Catalog/Names.antt =====
-- Which names the default catalog (internal/runbooks/catalog.go) knows.
use autonomous_remediation_e.Prelude.{
  ◌≡◌, refl, ◌∙◌, ap, subst, true, ◌||◌, String, Option, none, some, str_eq, str_eq_iff, arith,
  Bool-cases, inl, inr,
}
use autonomous_remediation_e.Prelude.Assoc.{Assoc, lookup, insert}
use autonomous_remediation_e.Engine.{Runbook}
use autonomous_remediation_e.Engine.Catalog.{canonical, named, or_else}
use autonomous_remediation_e.Runbooks.Catalog.{register, get, register_all, new_default_catalog}

abbrev pub id_of : {X : Type 0} → Option (Runbook X) → Option String
id_of none = none
id_of (some rb) = some rb.id

module _ {X : Type 0} (disk process tls config : Runbook X) where
  -- The runbooks of the default catalog, as far as their names go.
  abbrev pub named_catalog : Assoc (Runbook X)
  named_catalog =
      new_default_catalog (record disk { id = "RBK-DISK-001"; name = "disk_cleanup_var_log" })
        (record process { id = "RBK-PROC-001"; name = "service_hang_recovery" })
        (record tls { id = "RBK-TLS-001"; name = "tls_cert_rotation" })
        (record config { id = "RBK-CFG-001"; name = "config_rollback" })

  same_name :
      (id name c : String)
      → str_eq id name ≡ true
      → id_of (get name named_catalog) ≡ some c
      → id_of (get id named_catalog) ≡ some c
  same_name id name c e h = ap (λ n. id_of (get n named_catalog)) ((str_eq_iff id name).0 e) ∙ h

  disk_names :
      (id : String)
      → (str_eq id "disk_cleanup_var_log" || str_eq id "disk_log_drain" || str_eq id "RBK-DISK-001")
        ≡ true
      → id_of (get id named_catalog) ≡ some "RBK-DISK-001"
  unfolding get register_all new_default_catalog register lookup insert named or_else canonical
  disk_names id h = elim (Bool-cases (str_eq id "disk_cleanup_var_log")) [
    | inl e ↦ same_name id "disk_cleanup_var_log" "RBK-DISK-001" e refl
    | inr e0 ↦ elim (Bool-cases (str_eq id "disk_log_drain")) [
      | inl e ↦ same_name id "disk_log_drain" "RBK-DISK-001" e refl
      | inr e1 ↦
          let last : str_eq id "RBK-DISK-001" ≡ true = ground arith in
          same_name id "RBK-DISK-001" "RBK-DISK-001" last refl
    ]
  ]

  process_names :
      (id : String)
      → (str_eq id "service_deadlock_restart"
          || str_eq id "service_hang_recovery"
          || str_eq id "RBK-PROC-001")
        ≡ true
      → id_of (get id named_catalog) ≡ some "RBK-PROC-001"
  unfolding get register_all new_default_catalog register lookup insert named or_else canonical
  process_names id h = elim (Bool-cases (str_eq id "service_deadlock_restart")) [
    | inl e ↦ same_name id "service_deadlock_restart" "RBK-PROC-001" e refl
    | inr e0 ↦ elim (Bool-cases (str_eq id "service_hang_recovery")) [
      | inl e ↦ same_name id "service_hang_recovery" "RBK-PROC-001" e refl
      | inr e1 ↦
          let last : str_eq id "RBK-PROC-001" ≡ true = ground arith in
          same_name id "RBK-PROC-001" "RBK-PROC-001" last refl
    ]
  ]

  tls_names :
      (id : String)
      → (str_eq id "tls_cert_renew_internal"
          || str_eq id "tls_cert_rotation"
          || str_eq id "tls_cert_reload"
          || str_eq id "RBK-TLS-001")
        ≡ true
      → id_of (get id named_catalog) ≡ some "RBK-TLS-001"
  unfolding get register_all new_default_catalog register lookup insert named or_else canonical
  tls_names id h = elim (Bool-cases (str_eq id "tls_cert_renew_internal")) [
    | inl e ↦ same_name id "tls_cert_renew_internal" "RBK-TLS-001" e refl
    | inr e0 ↦ elim (Bool-cases (str_eq id "tls_cert_rotation")) [
      | inl e ↦ same_name id "tls_cert_rotation" "RBK-TLS-001" e refl
      | inr e1 ↦ elim (Bool-cases (str_eq id "tls_cert_reload")) [
        | inl e ↦ same_name id "tls_cert_reload" "RBK-TLS-001" e refl
        | inr e2 ↦
            let last : str_eq id "RBK-TLS-001" ≡ true = ground arith in
            same_name id "RBK-TLS-001" "RBK-TLS-001" last refl
      ]
    ]
  ]

  config_names :
      (id : String)
      → (str_eq id "config_rollback" || str_eq id "RBK-CFG-001") ≡ true
      → id_of (get id named_catalog) ≡ some "RBK-CFG-001"
  unfolding get register_all new_default_catalog register lookup insert named or_else canonical
  config_names id h = elim (Bool-cases (str_eq id "config_rollback")) [
    | inl e ↦ same_name id "config_rollback" "RBK-CFG-001" e refl
    | inr e0 ↦
        let last : str_eq id "RBK-CFG-001" ≡ true = ground arith in
        same_name id "RBK-CFG-001" "RBK-CFG-001" last refl
  ]

  -- Whatever the four runbooks do, the default catalog finds for every alias, name and ID that stands
  -- for one of the four IDs the runbook with that ID.
  pub get-canonical :
      (id c : String) → canonical id ≡ some c → id_of (get id named_catalog) ≡ some c
  unfolding canonical
  get-canonical id c h =
      elim (Bool-cases (
        str_eq id "disk_cleanup_var_log"
        || str_eq id "disk_log_drain"
        || str_eq id "RBK-DISK-001")) [
          | inl e ↦
              let same : ◌≡◌ {A = String} "RBK-DISK-001" c = ground arith in
              subst (λ x. id_of (get id named_catalog) ≡ some x) same (disk_names id e)
          | inr n0 ↦
              elim (Bool-cases (
                str_eq id "service_deadlock_restart"
                || str_eq id "service_hang_recovery"
                || str_eq id "RBK-PROC-001")) [
                  | inl e ↦
                      let same : ◌≡◌ {A = String} "RBK-PROC-001" c = ground arith in
                      subst (λ x. id_of (get id named_catalog) ≡ some x) same (process_names id e)
                  | inr n1 ↦
                      elim (Bool-cases (
                        str_eq id "tls_cert_renew_internal"
                        || str_eq id "tls_cert_rotation"
                        || str_eq id "tls_cert_reload"
                        || str_eq id "RBK-TLS-001")) [
                          | inl e ↦
                              let same : ◌≡◌ {A = String} "RBK-TLS-001" c = ground arith in
                              subst (λ x. id_of (get id named_catalog) ≡ some x) same
                                (tls_names id e)
                          | inr n2 ↦
                              elim (Bool-cases
                                (str_eq id "config_rollback" || str_eq id "RBK-CFG-001")) [
                                  | inl e ↦
                                      let same : ◌≡◌ {A = String} "RBK-CFG-001" c = ground arith in
                                      subst (λ x. id_of (get id named_catalog) ≡ some x) same
                                        (config_names id e)
                                  | inr n3 ↦ absurd (ground arith)
                                ]
                        ]
                ]
        ]
