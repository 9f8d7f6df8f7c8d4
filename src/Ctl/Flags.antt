-- ===== src/Ctl/Flags.antt =====
-- The flags of the commands (cmd/remediation-ctl/main.go and cmd/remediation-daemon/main.go), as the
-- package flag of the standard library reads them. A text is the list of its code points.
pub mod Spelling
pub mod RoundTrip
use autonomous_remediation_e.Prelude.{
  ℕ, Bool, true, false, ◌||◌, List, [], ◌∷◌, Option, none, some, Bytes, bytes_eq, codes, ◌==◌,
  if◌then◌else◌, String,
}

-- What a flag holds: `String` or `Bool`.
pub data FlagValue : Type 0 where
  text : Bytes → FlagValue
  switch : Bool → FlagValue

-- A flag of a `FlagSet`, with its default at first.
pub record Flag : Type 0 where
  pub name : Bytes
  pub value : FlagValue

pub data FlagError : Type 0 where
  bad_syntax : Bytes → FlagError
  undefined : Bytes → FlagError
  missing_argument : Bytes → FlagError
  -- The name and the value.
  invalid_boolean : Bytes → Bytes → FlagError

-- The end of `Parse` with `ExitOnError`: the flags, or the process ends.
pub data Parsed : Type 0 where
  got : List Flag → Parsed
  helped : Parsed
  faulted : FlagError → Parsed

-- What one argument is.
pub data Argument : Type 0 where
  -- The flags end here.
  positional : Argument
  malformed : Argument
  flag : Bytes → Option Bytes → Argument

unfoldable pub find_flag : Bytes → List Flag → Option FlagValue
find_flag name [] = none
find_flag name (f ∷ fs) = if bytes_eq f.name name then some f.value else find_flag name fs

unfoldable pub put_flag : Bytes → FlagValue → List Flag → List Flag
put_flag name v [] = []
put_flag name v (f ∷ fs) =
    if bytes_eq f.name name then record f { value = v } ∷ fs else f ∷ put_flag name v fs

-- `strconv.ParseBool`.
unfoldable pub parse_bool : Bytes → Option Bool
parse_bool s =
    if bytes_eq s (codes "1")
      || bytes_eq s (codes "t")
      || bytes_eq s (codes "T")
      || bytes_eq s (codes "true")
      || bytes_eq s (codes "TRUE")
      || bytes_eq s (codes "True")
    then some true
    else if bytes_eq s (codes "0")
        || bytes_eq s (codes "f")
        || bytes_eq s (codes "F")
        || bytes_eq s (codes "false")
        || bytes_eq s (codes "FALSE")
        || bytes_eq s (codes "False")
    then some false
    else none

abbrev pub with_value : ℕ → Bytes × Option Bytes → Bytes × Option Bytes
with_value c (name, value) = (c ∷ name, value)

-- A name up to the first `=`, and what comes after it.
unfoldable pub split_value : Bytes → Bytes × Option Bytes
split_value [] = ([], none)
split_value (c ∷ cs) = if c == 61 then ([], some cs) else with_value c (split_value cs)

-- What comes after the dashes; it is neither empty nor begun by `-` or `=`.
unfoldable pub named_argument : Bytes → Argument
unfolding split_value
named_argument [] = malformed
named_argument (c ∷ cs) =
    if c == 45 || c == 61
    then malformed
    else (let (name, value) = split_value cs in flag (c ∷ name) value)

-- What comes after two dashes; with nothing there the flags end.
unfoldable pub twice_dashed : Bytes → Argument
unfolding named_argument
twice_dashed [] = positional
twice_dashed (c ∷ cs) = named_argument (c ∷ cs)

-- What comes after the first dash.
unfoldable pub dashed_argument : Bytes → Argument
unfolding twice_dashed named_argument
dashed_argument [] = positional
dashed_argument (c ∷ cs) = if c == 45 then twice_dashed cs else named_argument (c ∷ cs)

unfoldable pub read_argument : Bytes → Argument
unfolding dashed_argument
read_argument [] = positional
read_argument (c ∷ cs) = if c == 45 then dashed_argument cs else positional

-- A name that is not defined.
unfoldable pub undefined_flag : Bytes → Parsed
undefined_flag name =
    if bytes_eq name (codes "help") || bytes_eq name (codes "h")
    then helped
    else faulted (undefined name)

-- What reading goes on with: the flags, and the name of the flag that takes the next argument.
pub data Progress : Type 0 where
  reading : Option Bytes → List Flag → Progress
  ended : Parsed → Progress

abbrev pub after_bool : Bytes → Bytes → List Flag → Option Bool → Progress
after_bool name v fs none = ended (faulted (invalid_boolean name v))
after_bool name v fs (some b) = reading none (put_flag name (switch b) fs)

-- With the flag of that name, or without.
unfoldable pub assigned : Bytes → Option Bytes → List Flag → Option FlagValue → Progress
unfolding put_flag parse_bool undefined_flag
assigned name value fs none = ended (undefined_flag name)
assigned name none fs (some (switch b)) = reading none (put_flag name (switch true) fs)
assigned name (some v) fs (some (switch b)) = after_bool name v fs (parse_bool v)
assigned name none fs (some (text t)) = reading (some name) fs
assigned name (some v) fs (some (text t)) = reading none (put_flag name (text v) fs)

-- By what the argument is.
unfoldable pub met : Bytes → Argument → List Flag → Progress
unfolding assigned find_flag
met a positional fs = ended (got fs)
met a malformed fs = ended (faulted (bad_syntax a))
met a (flag name value) fs = assigned name value fs (find_flag name fs)

-- `parseOne`; the flag that waits for its argument takes it as it is.
unfoldable pub parse_one : Option Bytes → Bytes → List Flag → Progress
unfolding met read_argument put_flag
parse_one (some name) a fs = reading none (put_flag name (text a) fs)
parse_one none a fs = met a (read_argument a) fs

-- `Parse`.
unfoldable pub parse_flags : Option Bytes → List Bytes → List Flag → Parsed
unfolding parse_one
parse_flags none [] fs = got fs
parse_flags (some name) [] fs = faulted (missing_argument name)
parse_flags waiting (a ∷ args) fs = elim (parse_one waiting a fs) [
  | reading waiting' fs' ↦ parse_flags waiting' args fs'
  | ended p ↦ p
]

abbrev pub text_of : Option FlagValue → Bytes
text_of none = []
text_of (some (text t)) = t
text_of (some (switch b)) = []

abbrev pub switch_of : Option FlagValue → Bool
switch_of none = false
switch_of (some (text t)) = false
switch_of (some (switch b)) = b

-- The variables behind the flags.
abbrev pub text_flag : String → List Flag → Bytes
text_flag name fs = text_of (find_flag (codes name) fs)

abbrev pub bool_flag : String → List Flag → Bool
bool_flag name fs = switch_of (find_flag (codes name) fs)

abbrev pub string : String → String → Flag
string name value = record { name = codes name; value = text (codes value) }

abbrev pub bool : String → Flag
bool name = record { name = codes name; value = switch false }
