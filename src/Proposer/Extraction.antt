-- ===== src/Proposer/Extraction.antt =====
-- `extractThinkTags` and `extractJSON` of internal/ai/proposer.go.
use autonomous_remediation_e.Prelude.{
  ℕ, ◌+◌, Bool, ◌&&◌, [], ◌++◌, Option, none, some, Bytes, bytes_eq, codes, ltb, if◌then◌else◌,
  take,
}
use autonomous_remediation_e.Prelude.Strings.{
  trim_space, has_prefix, has_suffix, index, last_index, drop, slice,
}

abbrev pub think_open : Bytes
think_open = codes "<think>"

abbrev pub think_close : Bytes
think_close = codes "</think>"

-- The parts of a text with a tag that opens at the first place and one that closes at the second.
unfoldable pub between_tags : Option ℕ → Option ℕ → Bytes → Bytes × Bytes
between_tags none end content = ([], content)
between_tags (some start) none content = ([], content)
between_tags (some start) (some end) content =
    if ltb start end
    then (
      trim_space (slice (start + 7) end content),
      trim_space (take start content ++ drop (end + 8) content),
    )
    else ([], content)

-- `extractThinkTags`: the reasoning and the rest.
unfoldable pub extract_think_tags : Bytes → Bytes × Bytes
extract_think_tags content =
    between_tags (index think_open content) (index think_close content) content

module _ (valid : Bytes → Bool) where
  -- A candidate that is JSON.
  abbrev pub if_valid : Bytes → Option Bytes
  if_valid candidate = if valid candidate then some candidate else none

  -- What stands before the closing fence.
  unfoldable pub fenced : Option ℕ → Bytes → Option Bytes
  fenced none rest = none
  fenced (some end) rest = if_valid (trim_space (take end rest))

  -- 1. A fence with the language json.
  unfoldable pub json_fence : Option ℕ → Bytes → Option Bytes
  json_fence none trimmed = none
  json_fence (some i) trimmed =
      let rest = drop (i + 7) trimmed in fenced (index (codes "```") rest) rest

  -- A short first line, which names a language, is left out.
  unfoldable pub without_language : Option ℕ → Bytes → Bytes
  without_language none rest = rest
  without_language (some newline) rest = if ltb newline 10 then drop (newline + 1) rest else rest

  -- 2. Any fence.
  unfoldable pub any_fence : Option ℕ → Bytes → Option Bytes
  any_fence none trimmed = none
  any_fence (some i) trimmed =
      let rest =
        without_language (index (codes "\n") (drop (i + 3) trimmed)) (drop (i + 3) trimmed) in
      fenced (index (codes "```") rest) rest

  -- 3. The whole_text text.
  unfoldable pub whole_text : Bytes → Option Bytes
  whole_text trimmed =
      if has_prefix (codes "{") trimmed && has_suffix (codes "}") trimmed
      then if_valid trimmed
      else none

  -- 4. From the first brace to the last.
  unfoldable pub braces : Option ℕ → Option ℕ → Bytes → Option Bytes
  braces none last trimmed = none
  braces (some first) none trimmed = none
  braces (some first) (some last) trimmed =
      if ltb first last then if_valid (trim_space (slice first (last + 1) trimmed)) else none

  abbrev pub or_next : Option Bytes → Option Bytes → Option Bytes
  or_next (some s) next = some s
  or_next none next = next

  -- `extractJSON`, on a text that is not blank; `none` is its error.
  unfoldable pub extract_json : Bytes → Option Bytes
  extract_json content =
      let trimmed = trim_space content in
      if bytes_eq trimmed []
      then none
      else or_next (json_fence (index (codes "```json") trimmed) trimmed) (
          or_next (any_fence (index (codes "```") trimmed) trimmed) (
            or_next (whole_text trimmed)
              (braces (index (codes "{") trimmed) (last_index b'}' trimmed) trimmed)))
