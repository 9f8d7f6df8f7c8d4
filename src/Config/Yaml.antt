-- ===== src/Config/Yaml.antt =====
-- `ParseBasicYAML` of internal/config/config.go. A text is the list of its code points. The index
-- into the lines is the list of the lines that are left. The recursion of `parseYAMLBlock` and its
-- loops is a step on a task, repeated on fuel; `none` says that the fuel ran out.
pub mod Total
pub mod Dropped
use autonomous_remediation_e.Prelude.{
  ℕ, zero, suc, ◌+◌, ◌-◌, ◌*◌, Bool, true, false, ◌&&◌, ◌||◌, not, List, [], ◌∷◌, ◌++◌, Option,
  none, some, Bytes, bytes_eq, codes, length, take, ltb, leb, ◌==◌, if◌then◌else◌, map,
}
use autonomous_remediation_e.Prelude.Strings.{
  trim_space, trim_front, trim_prefix, has_prefix, has_suffix, index, drop, slice, to_lower,
  signed_part, natural, max_int64,
}

mutual
  pub data Yaml : Type 0 where
    null : Yaml
    boolean : Bool → Yaml
    -- An int64: whether it is negative, and its size.
    integer : Bool → ℕ → Yaml
    -- The float64 that is written so.
    float : Bytes → Yaml
    text : Bytes → Yaml
    arr : Items → Yaml
    obj : Fields → Yaml

  pub data Items : Type 0 where
    nil : Items
    cons : Yaml → Items → Items

  pub data Fields : Type 0 where
    end : Fields
    field : Bytes → Yaml → Fields → Fields

-- `append(list, v)`
unfoldable pub append_item : Items → Yaml → Items
append_item nil v = cons v nil
append_item (cons x xs) v = cons x (append_item xs v)

-- `m[k] = v`
unfoldable pub assign : Bytes → Yaml → Fields → Fields
assign k v end = field k v end
assign k v (field j w m) = if bytes_eq j k then field k v m else field j w (assign k v m)

-- `lineInfo`.
pub record LineInfo : Type 0 where
  pub indent : ℕ
  pub text : Bytes

-- The loop of `stripYAMLComment`: the quote that is open, if there is one, and the line.
unfoldable pub strip_from : Option ℕ → Bytes → Bytes
strip_from q [] = []
strip_from none (c ∷ cs) =
    let quoted = strip_from (some c) cs in
    let plain = strip_from none cs in
    if c == 34 || c == 39 then c ∷ quoted else if c == 35 then [] else c ∷ plain
strip_from (some q) (c ∷ cs) =
    let closed = strip_from none cs in
    let inside = strip_from (some q) cs in if c == q then c ∷ closed else c ∷ inside

-- `stripYAMLComment`.
unfoldable pub strip_yaml_comment : Bytes → Bytes
strip_yaml_comment line = strip_from none line

-- `parseYAMLValue` after the quotes; the first argument is `strconv.ParseFloat`'s test.
unfoldable pub integer_of : Bool × Bytes → Option Yaml
integer_of (negative, s) = elim (natural (if negative then suc max_int64 else max_int64) s) [
  | none ↦ none
  | some n ↦ some (integer negative n)
]

unfoldable pub number_or_text : (Bytes → Bool) → Bytes → Option Yaml → Yaml
number_or_text is_float s (some v) = v
number_or_text is_float s none = if is_float s then float s else text s

unfoldable pub is_quoted : ℕ → Bytes → Bool
is_quoted q s = has_prefix (q ∷ []) s && has_suffix (q ∷ []) s

abbrev is_one_of : Bytes → Bytes → Bytes → Bytes → Bool
is_one_of s a b c = bytes_eq s a || bytes_eq s b || bytes_eq s c

-- `parseYAMLValue`.
unfoldable pub parse_yaml_value : (Bytes → Bool) → Bytes → Yaml
parse_yaml_value is_float value =
    let s = trim_space value in
    let low = map to_lower s in
    if is_quoted 34 s || is_quoted 39 s
    then text (if leb 2 (length s) then slice 1 (length s - 1) s else [])
    else if is_one_of low (codes "true") (codes "yes") (codes "on")
    then boolean true
    else if is_one_of low (codes "false") (codes "no") (codes "off")
    then boolean false
    else number_or_text is_float s (integer_of (signed_part s))

-- What `parseYAMLBlock` and its loops have before them: the indent of the block, what they have
-- collected, and the lines that are left.
pub data Task : Type 0 where
  -- A call of the function.
  block : ℕ → List LineInfo → Task
  -- The loop over a list, the loop over the further keys of an item, and the loop over a map.
  items : ℕ → Items → List LineInfo → Task
  item_keys : ℕ → Fields → List LineInfo → Task
  entries : ℕ → Fields → List LineInfo → Task

abbrev pub Outcome : Type 0
Outcome = Option (Yaml × List LineInfo)

-- `strings.SplitN(text, ":", 2)`, both parts trimmed, where there is a colon.
unfoldable pub split_at : Option ℕ → Bytes → Option (Bytes × Bytes)
split_at none s = none
split_at (some i) s = some (trim_space (take i s), trim_space (drop (i + 1) s))

unfoldable pub split_colon : Bytes → Option (Bytes × Bytes)
split_colon s = split_at (index (codes ":") s) s

unfoldable pub is_item : Bytes → Bool
is_item s = has_prefix (codes "- ") s || bytes_eq s (codes "-")

abbrev pub item_text : Bytes → Bytes
item_text s = trim_space (trim_prefix (codes " ") (trim_prefix (codes "-") s))

-- A value that may be missing: null, or no entry at all.
abbrev pub or_null : Option Yaml → Yaml
or_null none = null
or_null (some v) = v

abbrev pub assign_found : Bytes → Option Yaml → Fields → Fields
assign_found k none m = m
assign_found k (some v) m = assign k v m

abbrev pub fields_of : Yaml → Fields
fields_of (obj m) = m
fields_of _ = end

module _ (is_float : Bytes → Bool) (rec : Task → Outcome) where
  abbrev pub found : Outcome → Option (Option Yaml × List LineInfo)
  found none = none
  found (some (v, rest)) = some (some v, rest)

  -- The block that is indented deeper, if the next line is.
  unfoldable pub nested : ℕ → List LineInfo → Option (Option Yaml × List LineInfo)
  nested indent [] = some (none, [])
  nested indent (l ∷ ls) =
      if ltb indent l.indent then found (rec (block l.indent (l ∷ ls))) else some (none, l ∷ ls)

  -- What follows a block that is nested, or a loop.
  abbrev pub then_nested :
      Option (Option Yaml × List LineInfo) → (Option Yaml → List LineInfo → Outcome) → Outcome
  then_nested none k = none
  then_nested (some (v, rest)) k = k v rest

  abbrev pub then_fields : Outcome → (Fields → List LineInfo → Outcome) → Outcome
  then_fields none k = none
  then_fields (some (v, rest)) k = k (fields_of v) rest

  -- The item that has these fields so far, with its further keys.
  unfoldable pub map_item : ℕ → Items → Fields → List LineInfo → Outcome
  map_item indent acc m ls =
      then_fields (rec (item_keys indent m ls))
        (λ m' rest. rec (items indent (append_item acc (obj m')) rest))

  -- An item with a colon.
  unfoldable pub keyed_item : ℕ → Items → Bytes → Bytes → List LineInfo → Outcome
  keyed_item indent acc k [] ls =
      then_nested (nested indent ls) (λ v rest. map_item indent acc (assign_found k v end) rest)
  keyed_item indent acc k (c ∷ cs) ls =
      map_item indent acc (assign k (parse_yaml_value is_float (c ∷ cs)) end) ls

  unfoldable pub plain_item : ℕ → Items → Bytes → Option (Bytes × Bytes) → List LineInfo → Outcome
  plain_item indent acc s none ls =
      rec (items indent (append_item acc (parse_yaml_value is_float s)) ls)
  plain_item indent acc s (some (k, v)) ls = keyed_item indent acc k v ls

  -- An item, by the text after its dash.
  unfoldable pub item : ℕ → Items → Bytes → List LineInfo → Outcome
  item indent acc [] ls =
      then_nested (nested indent ls)
        (λ v rest. rec (items indent (append_item acc (or_null v)) rest))
  item indent acc (c ∷ cs) ls = plain_item indent acc (c ∷ cs) (split_colon (c ∷ cs)) ls

  -- A further key of an item, on a line of this indent.
  unfoldable pub item_key : ℕ → ℕ → Fields → Option (Bytes × Bytes) → List LineInfo → Outcome
  item_key indent sub_indent m none ls = rec (item_keys indent m ls)
  item_key indent sub_indent m (some (k, [])) ls =
      then_nested (nested sub_indent ls)
        (λ v rest. rec (item_keys indent (assign_found k v m) rest))
  item_key indent sub_indent m (some (k, c ∷ cs)) ls =
      rec (item_keys indent (assign k (parse_yaml_value is_float (c ∷ cs)) m) ls)

  -- A line of a map.
  unfoldable pub entry : ℕ → Fields → Option (Bytes × Bytes) → List LineInfo → Outcome
  entry indent m none ls = rec (entries indent m ls)
  entry indent m (some (k, [])) ls =
      then_nested (nested indent ls) (λ v rest. rec (entries indent (assign k (or_null v) m) rest))
  entry indent m (some (k, c ∷ cs)) ls =
      rec (entries indent (assign k (parse_yaml_value is_float (c ∷ cs)) m) ls)

  -- `parseYAMLBlock`, one round of a loop at a time.
  unfoldable pub step : Task → Outcome
  step (block indent []) = some (null, [])
  step (block indent (l ∷ ls)) =
      if is_item l.text then rec (items indent nil (l ∷ ls)) else rec (entries indent end (l ∷ ls))
  step (items indent acc []) = some (arr acc, [])
  step (items indent acc (l ∷ ls)) =
      if (l.indent == indent) && is_item l.text
      then item indent acc (item_text l.text) ls
      else some (arr acc, l ∷ ls)
  step (item_keys indent m []) = some (obj m, [])
  step (item_keys indent m (l ∷ ls)) =
      if ltb indent l.indent && not (has_prefix (codes "- ") l.text)
      then item_key indent l.indent m (split_colon l.text) ls
      else some (obj m, l ∷ ls)
  step (entries indent m []) = some (obj m, [])
  step (entries indent m (l ∷ ls)) =
      if l.indent == indent then entry indent m (split_colon l.text) ls else some (obj m, l ∷ ls)

-- The recursion, on fuel.
unfoldable pub run_task : (Bytes → Bool) → ℕ → Task → Outcome
run_task is_float zero t = none
run_task is_float (suc fuel) t = step is_float (run_task is_float fuel) t

-- A line of 64 KiB or more stops a `bufio.Scanner`.
abbrev pub max_line : ℕ
max_line = 65536

abbrev pub prepend : ℕ → List Bytes → List Bytes
prepend c [] = (c ∷ []) ∷ []
prepend c (l ∷ ls) = (c ∷ l) ∷ ls

-- The lines of a text, without their ends.
unfoldable pub split_lines : Bytes → List Bytes
split_lines [] = []
split_lines (c ∷ cs) = let rest = split_lines cs in if c == 10 then [] ∷ rest else prepend c rest

unfoldable pub without_cr : Bytes → Bytes
without_cr [] = []
without_cr (c ∷ []) = if c == 13 then [] else c ∷ []
without_cr (c ∷ d ∷ cs) = c ∷ without_cr (d ∷ cs)

unfoldable pub all_short : List Bytes → Bool
all_short [] = true
all_short (l ∷ ls) = ltb (length l) max_line && all_short ls

-- The lines that are not blank, with their indents.
unfoldable pub line_infos : List Bytes → List LineInfo
line_infos [] = []
line_infos (l ∷ ls) =
    let raw = strip_yaml_comment (without_cr l) in
    let rest = line_infos ls in
    if bytes_eq (trim_space raw) []
    then rest
    else record {
      indent = length raw - length (trim_front (λ c. c == 32) raw);
      text = trim_space raw;
    }
      ∷ rest

pub data ParsedYaml : Type 0 where
  mapping : Fields → ParsedYaml
  not_a_mapping line_too_long : ParsedYaml
  out_of_fuel : ParsedYaml

unfoldable pub as_mapping : Outcome → ParsedYaml
as_mapping none = out_of_fuel
as_mapping (some (obj m, rest)) = mapping m
as_mapping (some (_, rest)) = not_a_mapping

-- The blocks of the lines, from the first; what is left after the root block is not looked at.
unfoldable pub parse_lines : (Bytes → Bool) → List LineInfo → ParsedYaml
parse_lines is_float [] = mapping end
parse_lines is_float (l ∷ ls) =
    as_mapping (run_task is_float (2 * length (l ∷ ls) + 2) (block l.indent (l ∷ ls)))

-- `ParseBasicYAML`.
unfoldable pub parse_basic_yaml : (Bytes → Bool) → Bytes → ParsedYaml
parse_basic_yaml is_float s =
    if all_short (split_lines s)
    then parse_lines is_float (line_infos (split_lines s))
    else line_too_long
