-- ===== src/Runbooks/Catalog.antt =====
-- internal/runbooks/catalog.go: the catalog, with its runbooks as parameters.
pub mod Names
use autonomous_remediation_e.Prelude.{
  Bool, true, false, ◌||◌, String, List, [], ◌∷◌, Option, none, some, str_eq, if◌then◌else◌,
}
use autonomous_remediation_e.Prelude.Assoc.{Assoc, lookup, insert}
use autonomous_remediation_e.Engine.{Runbook}
use autonomous_remediation_e.Engine.Catalog.{canonical, named, or_else, list_runbooks}

module _ {X : Type 0} where
  -- `NewCatalog`.
  abbrev pub new_catalog : Assoc (Runbook X)
  new_catalog = []

  -- `Register`; a runbook without an ID is refused, with `false`.
  unfoldable pub register : Runbook X → Assoc (Runbook X) → Assoc (Runbook X) × Bool
  register rb c = if str_eq rb.id "" then (c, false) else (insert rb.id rb c, true)

  -- By key, else the first of this name or ID.
  abbrev pub get_named : String → Assoc (Runbook X) → Option (Runbook X)
  get_named id c = or_else (lookup id c) (named id c)

  -- `Get`: by the name given, else by the canonical one.
  unfoldable pub get : String → Assoc (Runbook X) → Option (Runbook X)
  get id c =
      or_else (get_named id c)
        (elim (canonical id) [ none ↦ none | some canon_id ↦ get_named canon_id c ])

  -- `List`.
  abbrev pub list : Assoc (Runbook X) → List (Runbook X)
  list c = list_runbooks c

  -- The loop of `NewDefaultCatalog`, which drops the errors.
  unfoldable pub register_all : List (Runbook X) → Assoc (Runbook X) → Assoc (Runbook X)
  register_all [] c = c
  register_all (rb ∷ rbs) c = register_all rbs (register rb c).0

  -- `DefaultCatalog`: the four runbooks, in order.
  abbrev pub default_catalog : Runbook X → Runbook X → Runbook X → Runbook X → List (Runbook X)
  default_catalog disk process tls config = disk ∷ process ∷ tls ∷ config ∷ []

  -- `NewDefaultCatalog`.
  unfoldable pub new_default_catalog :
      Runbook X → Runbook X → Runbook X → Runbook X → Assoc (Runbook X)
  new_default_catalog disk process tls config =
      register_all (default_catalog disk process tls config) new_catalog
