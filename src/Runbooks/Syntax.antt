-- ===== src/Runbooks/Syntax.antt =====
-- `ValidateConfigSyntax` of internal/runbooks/runbooks.go, on the code points of a file. The test for
-- JSON is a parameter.
use autonomous_remediation_e.Prelude.{
  ℕ, suc, ◌+◌, ◌-◌, ◌%◌, Bool, ◌&&◌, ◌||◌, not, List, [], ◌∷◌, Option, none, some, Bytes, bytes_eq,
  codes, length, take, leb, ◌==◌, if◌then◌else◌,
}
use autonomous_remediation_e.Prelude.Strings.{trim_space, trim_front, has_prefix, has_suffix}
use autonomous_remediation_e.Drain.{contains}
use autonomous_remediation_e.Config.Yaml.{max_line, split_lines, without_cr}

pub data SyntaxError : Type 0 where
  empty_data line_too_long : SyntaxError
  -- By the number of the line.
  tabs unbalanced invalid : ℕ → SyntaxError

-- How often a code point occurs, and how often it occurs after a backslash.
unfoldable pub count_of_code : ℕ → Bytes → ℕ
count_of_code q [] = 0
count_of_code q (c ∷ cs) = let rest = count_of_code q cs in if c == q then suc rest else rest

unfoldable pub count_escaped : ℕ → Bytes → ℕ
count_escaped q [] = 0
count_escaped q (c ∷ []) = 0
count_escaped q (c ∷ d ∷ cs) =
    let found = suc (count_escaped q cs) in
    let rest = count_escaped q (d ∷ cs) in if (c == 92) && (d == q) then found else rest

-- The white space before a line.
unfoldable pub indent_of : Bytes → Bytes
indent_of line = take (length line - length (trim_front (λ c. (c == 32) || (c == 9)) line)) line

unfoldable pub is_unbalanced : Bytes → Bool
is_unbalanced trimmed =
    not (count_of_code 39 trimmed % 2 == 0)
    || not ((count_of_code 34 trimmed - count_escaped 34 trimmed) % 2 == 0)

-- The test of one line.
unfoldable pub line_error : ℕ → Bytes → Option SyntaxError
line_error n line =
    let trimmed = trim_space line in
    if bytes_eq trimmed [] || has_prefix (codes "#") trimmed
    then none
    else if contains (codes "\t") (indent_of line)
    then some (tabs n)
    else if is_unbalanced trimmed
        && not (has_suffix (codes "|") trimmed)
        && not (has_suffix (codes ">") trimmed)
    then some (unbalanced n)
    else if not (has_prefix (codes "-") trimmed) && not (contains (codes ":") trimmed)
    then some (invalid n)
    else none

abbrev pub or_later : Option SyntaxError → Option SyntaxError → Option SyntaxError
or_later none later = later
or_later (some e) later = some e

-- The scanner stops at the first line with an error or too long a line.
unfoldable pub lines_error : ℕ → List Bytes → Option SyntaxError
lines_error n [] = none
lines_error n (l ∷ ls) =
    let rest = lines_error (n + 1) ls in
    if leb max_line (length l)
    then some line_too_long
    else or_later (line_error n (without_cr l)) rest

-- `ValidateConfigSyntax`.
unfoldable pub validate_config_syntax : (Bytes → Bool) → Bytes → Option SyntaxError
validate_config_syntax is_json content =
    if bytes_eq (trim_space content) []
    then some empty_data
    else if is_json content
    then none
    else lines_error 1 (split_lines content)
