-- ===== src/Config/Yaml/Dropped.antt =====
-- What `ParseBasicYAML` (internal/config/config.go) leaves out of a file.
use autonomous_remediation_e.Prelude.{
  ℕ, suc, ◌+◌, ◌*◌, ◌≡◌, ◌≢◌, refl, ap, ◌∙◌, Bool, true, false, List, ◌∷◌, some, Bytes, length,
  ◌==◌, arith,
}
use autonomous_remediation_e.Config.Yaml.{
  obj, Fields, end, field, assign, LineInfo, parse_yaml_value, block, entries, split_colon, is_item,
  entry, step, run_task, mapping, parse_lines, as_mapping,
}

module _ (is_float : Bytes → Bool) (fuel n : ℕ) where
  opens :
      (l : LineInfo) (ls : List LineInfo)
      → is_item l.text ≡ false
      → run_task is_float (suc fuel) (block n (l ∷ ls))
        ≡ run_task is_float fuel (entries n end (l ∷ ls))
  unfolding run_task step
  opens l ls plain = rw plain

  takes :
      (l : LineInfo) (ls : List LineInfo) (m : Fields) (k : Bytes) (c : ℕ) (cs : Bytes)
      → l.indent ≡ n
      → split_colon l.text ≡ some (k, c ∷ cs)
      → run_task is_float (suc fuel) (entries n m (l ∷ ls))
        ≡ run_task is_float fuel (entries n (assign k (parse_yaml_value is_float (c ∷ cs)) m) ls)
  unfolding run_task step entry
  takes l ls m k c cs here keyed =
      let same : (l.indent == n) ≡ true = ground arith in rw (same, keyed)

  stops :
      (l : LineInfo) (ls : List LineInfo) (m : Fields)
      → l.indent ≢ n
      → run_task is_float (suc fuel) (entries n m (l ∷ ls)) ≡ some (obj m, l ∷ ls)
  unfolding run_task step
  stops l ls m other = let differs : (l.indent == n) ≡ false = ground arith in rw differs

-- A line after a key with its value at another indent ends the root block, and with it the file:
-- whatever follows the line, the mapping has the one key.
pub parse_lines-dropped :
    (is_float : Bytes → Bool) (l l' : LineInfo) (ls : List LineInfo) (k : Bytes) (c : ℕ)
    (cs : Bytes)
    → is_item l.text ≡ false
    → split_colon l.text ≡ some (k, c ∷ cs)
    → l'.indent ≢ l.indent
    → parse_lines is_float (l ∷ l' ∷ ls)
      ≡ mapping (field k (parse_yaml_value is_float (c ∷ cs)) end)
unfolding parse_lines assign as_mapping
parse_lines-dropped is_float l l' ls k c cs plain keyed other =
    let fuel = 2 * length ls + 3 in
    let m = assign k (parse_yaml_value is_float (c ∷ cs)) end in
    let enough : 2 * length (l ∷ l' ∷ ls) + 2 ≡ suc (suc (suc fuel)) = omega arith in
    ap (λ f. as_mapping (run_task is_float f (block l.indent (l ∷ l' ∷ ls)))) enough
    ∙ ap as_mapping (
        opens is_float (suc (suc fuel)) l.indent l (l' ∷ ls) plain
        ∙ takes is_float (suc fuel) l.indent l (l' ∷ ls) end k c cs refl keyed
        ∙ stops is_float fuel l.indent l' ls m other)
