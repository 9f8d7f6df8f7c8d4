-- ===== src/Config/Yaml/Total.antt =====
-- The recursion of `parseYAMLBlock` (internal/config/config.go) ends.
use autonomous_remediation_e.Prelude.{
  ℕ, zero, suc, ◌+◌, ◌*◌, ◌≤◌, ◌<◌, ◌≢◌, Bool, ◌&&◌, not, List, [], ◌∷◌, Option, none, some, Bytes,
  codes, length, ltb, ◌==◌, arith, Bool-cases, inl, inr,
}
use autonomous_remediation_e.Prelude.Strings.{has_prefix}
use autonomous_remediation_e.Config.Yaml.{
  Yaml, null, boolean, integer, float, text, arr, obj, Items, nil, Fields, end, LineInfo, Task,
  block, items, item_keys, entries, Outcome, split_colon, is_item, item_text, fields_of, found,
  nested, then_nested, then_fields, map_item, keyed_item, plain_item, item, item_key, entry, step,
  run_task, out_of_fuel, as_mapping, parse_lines, split_lines, all_short, line_infos,
  parse_basic_yaml,
}

pub lines_of : Task → List LineInfo
lines_of (block indent ls) = ls
lines_of (items indent acc ls) = ls
lines_of (item_keys indent m ls) = ls
lines_of (entries indent m ls) = ls

-- How many rounds a task may take.
pub weight : Task → ℕ
weight (block indent ls) = 2 * length ls + 1
weight (items indent acc ls) = 2 * length ls
weight (item_keys indent m ls) = 2 * length ls
weight (entries indent m ls) = 2 * length ls

-- There is a value, and no more lines are left than there were.
abbrev pub Done : ℕ → Outcome → Type 0
Done n none = ⊥
Done n (some (v, rest)) = length rest ≤ n

abbrev NestedDone : ℕ → Option (Option Yaml × List LineInfo) → Type 0
NestedDone n none = ⊥
NestedDone n (some (v, rest)) = length rest ≤ n

Done-weaken : {n m : ℕ} (r : Outcome) → n ≤ m → Done n r → Done m r
Done-weaken none le d = absurd d
Done-weaken (some (v, rest)) le d = omega arith

module _ (is_float : Bytes → Bool) (rec : Task → Outcome) (w : ℕ)
    (total : (t : Task) → weight t < w → Done (length (lines_of t)) (rec t)) where
  found-Done : (n : ℕ) (r : Outcome) → Done n r → NestedDone n (found is_float rec r)
  found-Done n none d = d
  found-Done n (some (v, rest)) d = d

  nested-Done :
      (indent : ℕ) (ls : List LineInfo)
      → 2 * length ls + 1 < w
      → NestedDone (length ls) (nested is_float rec indent ls)
  unfolding nested weight lines_of
  nested-Done indent [] h = omega arith
  nested-Done indent (l ∷ ls) h = elim (Bool-cases (ltb indent l.indent)) [
    | inl e ↦ rw e (found-Done _ _ (total (block l.indent (l ∷ ls)) h))
    | inr e ↦ rw e (omega arith)
  ]

  then_nested-Done :
      (n : ℕ) (r : Option (Option Yaml × List LineInfo)) (k : Option Yaml → List LineInfo → Outcome)
      → NestedDone n r
      → ((v : Option Yaml) (rest : List LineInfo) → length rest ≤ n → Done n (k v rest))
      → Done n (then_nested is_float rec r k)
  then_nested-Done n none k d next = d
  then_nested-Done n (some (v, rest)) k d next = next v rest d

  then_fields-Done :
      (n : ℕ) (r : Outcome) (k : Fields → List LineInfo → Outcome)
      → Done n r
      → ((m : Fields) (rest : List LineInfo) → length rest ≤ n → Done n (k m rest))
      → Done n (then_fields is_float rec r k)
  then_fields-Done n none k d next = d
  then_fields-Done n (some (v, rest)) k d next = next (fields_of v) rest d

  -- The loops go on with fewer lines.
  items-Done :
      (indent : ℕ) (acc : Items) (rest : List LineInfo) (n : ℕ)
      → 2 * n < w
      → length rest ≤ n
      → Done n (rec (items indent acc rest))
  unfolding weight lines_of
  items-Done indent acc rest n h le = Done-weaken _ le (total (items indent acc rest) (omega arith))

  item_keys-Done :
      (indent : ℕ) (m : Fields) (rest : List LineInfo) (n : ℕ)
      → 2 * n < w
      → length rest ≤ n
      → Done n (rec (item_keys indent m rest))
  unfolding weight lines_of
  item_keys-Done indent m rest n h le =
      Done-weaken _ le (total (item_keys indent m rest) (omega arith))

  entries-Done :
      (indent : ℕ) (m : Fields) (rest : List LineInfo) (n : ℕ)
      → 2 * n < w
      → length rest ≤ n
      → Done n (rec (entries indent m rest))
  unfolding weight lines_of
  entries-Done indent m rest n h le = Done-weaken _ le (total (entries indent m rest) (omega arith))

  map_item-Done :
      (indent : ℕ) (acc : Items) (m : Fields) (ls : List LineInfo) (n : ℕ)
      → 2 * n < w
      → length ls ≤ n
      → Done n (map_item is_float rec indent acc m ls)
  unfolding map_item
  map_item-Done indent acc m ls n h le =
      then_fields-Done n _ _ (item_keys-Done indent m ls n h le)
        (λ m' rest le'. items-Done indent _ rest n h le')

  keyed_item-Done :
      (indent : ℕ) (acc : Items) (k v : Bytes) (ls : List LineInfo)
      → 2 * length ls + 1 < w
      → Done (length ls) (keyed_item is_float rec indent acc k v ls)
  unfolding keyed_item
  keyed_item-Done indent acc k [] ls h =
      then_nested-Done _ _ _ (nested-Done indent ls h)
        (λ v rest le. map_item-Done indent acc _ rest _ (omega arith) le)
  keyed_item-Done indent acc k (c ∷ cs) ls h =
      map_item-Done indent acc _ ls _ (omega arith) (omega arith)

  plain_item-Done :
      (indent : ℕ) (acc : Items) (s : Bytes) (kv : Option (Bytes × Bytes)) (ls : List LineInfo)
      → 2 * length ls + 1 < w
      → Done (length ls) (plain_item is_float rec indent acc s kv ls)
  unfolding plain_item
  plain_item-Done indent acc s none ls h = items-Done indent _ ls _ (omega arith) (omega arith)
  plain_item-Done indent acc s (some (k, v)) ls h = keyed_item-Done indent acc k v ls h

  item-Done :
      (indent : ℕ) (acc : Items) (s : Bytes) (ls : List LineInfo)
      → 2 * length ls + 1 < w
      → Done (length ls) (item is_float rec indent acc s ls)
  unfolding item
  item-Done indent acc [] ls h =
      then_nested-Done _ _ _ (nested-Done indent ls h)
        (λ v rest le. items-Done indent _ rest _ (omega arith) le)
  item-Done indent acc (c ∷ cs) ls h = plain_item-Done indent acc (c ∷ cs) _ ls h

  item_key-Done :
      (indent sub_indent : ℕ) (m : Fields) (kv : Option (Bytes × Bytes)) (ls : List LineInfo)
      → 2 * length ls + 1 < w
      → Done (length ls) (item_key is_float rec indent sub_indent m kv ls)
  unfolding item_key
  item_key-Done indent sub m none ls h = item_keys-Done indent m ls _ (omega arith) (omega arith)
  item_key-Done indent sub m (some (k, [])) ls h =
      then_nested-Done _ _ _ (nested-Done sub ls h)
        (λ v rest le. item_keys-Done indent _ rest _ (omega arith) le)
  item_key-Done indent sub m (some (k, c ∷ cs)) ls h =
      item_keys-Done indent _ ls _ (omega arith) (omega arith)

  entry-Done :
      (indent : ℕ) (m : Fields) (kv : Option (Bytes × Bytes)) (ls : List LineInfo)
      → 2 * length ls + 1 < w
      → Done (length ls) (entry is_float rec indent m kv ls)
  unfolding entry
  entry-Done indent m none ls h = entries-Done indent m ls _ (omega arith) (omega arith)
  entry-Done indent m (some (k, [])) ls h =
      then_nested-Done _ _ _ (nested-Done indent ls h)
        (λ v rest le. entries-Done indent _ rest _ (omega arith) le)
  entry-Done indent m (some (k, c ∷ cs)) ls h =
      entries-Done indent _ ls _ (omega arith) (omega arith)

  step-Done : (t : Task) → weight t ≤ w → Done (length (lines_of t)) (step is_float rec t)
  unfolding step weight lines_of
  step-Done (block indent []) h = omega arith
  step-Done (block indent (l ∷ ls)) h = elim (Bool-cases (is_item l.text)) [
    | inl e ↦ rw e (items-Done indent nil (l ∷ ls) _ (omega arith) (omega arith))
    | inr e ↦ rw e (entries-Done indent end (l ∷ ls) _ (omega arith) (omega arith))
  ]
  step-Done (items indent acc []) h = omega arith
  step-Done (items indent acc (l ∷ ls)) h =
      elim (Bool-cases ((l.indent == indent) && is_item l.text)) [
        | inl e ↦
            rw e (
              Done-weaken _ (omega arith)
                (item-Done indent acc (item_text l.text) ls (omega arith)))
        | inr e ↦ rw e (omega arith)
      ]
  step-Done (item_keys indent m []) h = omega arith
  step-Done (item_keys indent m (l ∷ ls)) h =
      elim (Bool-cases (ltb indent l.indent && not (has_prefix (codes "- ") l.text))) [
        | inl e ↦ rw e (
            Done-weaken _ (omega arith)
              (item_key-Done indent l.indent m (split_colon l.text) ls (omega arith)))
        | inr e ↦ rw e (omega arith)
      ]
  step-Done (entries indent m []) h = omega arith
  step-Done (entries indent m (l ∷ ls)) h = elim (Bool-cases (l.indent == indent)) [
    | inl e ↦
        rw e
          (Done-weaken _ (omega arith) (entry-Done indent m (split_colon l.text) ls (omega arith)))
    | inr e ↦ rw e (omega arith)
  ]

-- With more fuel than the weight of a task, the task is done.
pub run_task-Done :
    (is_float : Bytes → Bool) (fuel : ℕ) (t : Task)
    → weight t < fuel
    → Done (length (lines_of t)) (run_task is_float fuel t)
unfolding run_task
run_task-Done is_float zero t h = absurd (omega arith)
run_task-Done is_float (suc fuel) t h =
    step-Done is_float (run_task is_float fuel) fuel (run_task-Done is_float fuel) t (omega arith)

as_mapping-total : (n : ℕ) (r : Outcome) → Done n r → as_mapping r ≢ out_of_fuel
unfolding as_mapping
as_mapping-total n none d = absurd d
as_mapping-total n (some (null, rest)) d = λ e. cc e
as_mapping-total n (some (boolean b, rest)) d = λ e. cc e
as_mapping-total n (some (integer s i, rest)) d = λ e. cc e
as_mapping-total n (some (float s, rest)) d = λ e. cc e
as_mapping-total n (some (text s, rest)) d = λ e. cc e
as_mapping-total n (some (arr xs, rest)) d = λ e. cc e
as_mapping-total n (some (obj m, rest)) d = λ e. cc e

parse_lines-total :
    (is_float : Bytes → Bool) (ls : List LineInfo) → parse_lines is_float ls ≢ out_of_fuel
unfolding parse_lines weight lines_of
parse_lines-total is_float [] = λ e. cc e
parse_lines-total is_float (l ∷ ls) =
    as_mapping-total _ _
      (run_task-Done is_float (2 * length (l ∷ ls) + 2) (block l.indent (l ∷ ls)) (omega arith))

-- The parser ends on every text: with the mapping of its root block or with an error. Each round of
-- its recursion and of its loops takes a line or enters a block, so twice the number of lines, and
-- one, bounds the rounds.
pub parse_basic_yaml-total :
    (is_float : Bytes → Bool) (s : Bytes) → parse_basic_yaml is_float s ≢ out_of_fuel
unfolding parse_basic_yaml
parse_basic_yaml-total is_float s = elim (Bool-cases (all_short (split_lines s))) [
  | inl e ↦ rw e (parse_lines-total is_float (line_infos (split_lines s)))
  | inr e ↦ rw e (λ h. cc h)
]
