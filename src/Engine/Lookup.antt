-- ===== src/Engine/Lookup.antt =====
-- What `GetRunbook` (internal/engine/engine.go) finds.
use autonomous_remediation_e.Prelude.{
  ◌≡◌, ◌≢◌, refl, sym, ◌∙◌, true, false, String, some, str_eq, str_eq_iff, Bool-cases, inl, inr,
}
use autonomous_remediation_e.Prelude.Assoc.{lookup, insert, lookup-insert}
use autonomous_remediation_e.Engine.{Runbook, Engine}
use autonomous_remediation_e.Engine.Catalog.{register_runbook, get_runbook, or_else}

differs : (a b : String) → b ≢ a → str_eq a b ≡ false
differs a b apart = elim (Bool-cases (str_eq a b)) [
  | inl same ↦ absurd (apart (sym ((str_eq_iff a b).0 same)))
  | inr fine ↦ fine
]

module _ {X : Type 0} where
  get_runbook-key :
      (id : String) (e : Engine X) (rb : Runbook X)
      → lookup id e.runbooks ≡ some rb
      → get_runbook id e ≡ some rb
  unfolding get_runbook or_else
  get_runbook-key id e rb h = rw (h, get_runbook, or_else) refl

  -- A runbook with an ID can always be registered, and is then what its ID finds; a runbook that
  -- stood under another ID is still what that one finds.
  pub register_runbook-get_runbook :
      (rb other : Runbook X) (k : String) (e : Engine X)
      → rb.id ≢ ""
      → k ≢ rb.id
      → lookup k e.runbooks ≡ some other
      → let (e', ok) = register_runbook (some rb) e in
        (ok ≡ true) × (get_runbook rb.id e' ≡ some rb) × (get_runbook k e' ≡ some other)
  unfolding register_runbook
  register_runbook-get_runbook rb other k e given apart stood =
      elim (Bool-cases (str_eq rb.id "")) [
        | inl blank ↦ absurd (given ((str_eq_iff rb.id "").0 blank))
        | inr fine ↦
            let e' : Engine X = record e { runbooks = insert rb.id rb e.runbooks } in
            rw (fine, register_runbook)
              (
                refl,
                get_runbook-key rb.id e' rb (
                    lookup-insert rb.id rb.id rb e.runbooks
                    ∙ rw ((str_eq_iff rb.id rb.id).1 refl) refl),
                get_runbook-key k e' other
                    (lookup-insert rb.id k rb e.runbooks ∙ rw (differs rb.id k apart) stood),
              )
      ]
