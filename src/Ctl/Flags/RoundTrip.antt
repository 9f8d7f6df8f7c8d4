-- ===== src/Ctl/Flags/RoundTrip.antt =====
-- The flags of cmd/remediation-ctl/main.go and the ways of writing them on a command line.
use mathlib.Core.List.{append_assoc}
use autonomous_remediation_e.Prelude.{
  ℕ, arith, ◌≡◌, refl, ◌∙◌, sym, ap, Bool, true, false, ◌&&◌, ◌||◌, not, List, [], ◌∷◌, ◌++◌,
  Option, none, some, Bytes, bytes_eq, bytes_eq_refl, codes, ◌==◌, All, &&_elim, Bool-cases,
  if◌then◌else◌, inl, inr,
}
use autonomous_remediation_e.Ctl.Flags.{
  FlagValue, text, switch, Flag, Argument, flag, find_flag, put_flag, parse_bool, read_argument,
  assigned, met, parse_one, parse_flags, Progress, reading,
}
use autonomous_remediation_e.Ctl.Flags.Spelling.{
  is_name, dashes, read_argument-joined, read_argument-bare,
}

-- A flag as it is written: `-name=value`, `-name value`, `-name` and `-name=true`.
pub data Setting : Type 0 where
  joined apart : Bytes → Bytes → Setting
  on : Bytes → Setting
  valued : Bytes → Bool → Setting

abbrev pub name_of : Setting → Bytes
name_of (joined name v) = name
name_of (apart name v) = name
name_of (on name) = name
name_of (valued name b) = name

abbrev pub value_of : Setting → FlagValue
value_of (joined name v) = text v
value_of (apart name v) = text v
value_of (on name) = switch true
value_of (valued name b) = switch b

abbrev pub bool_text : Bool → Bytes
bool_text true = codes "true"
bool_text false = codes "false"

unfoldable pub write_setting : Bool → Setting → List Bytes
write_setting two (joined name v) = dashes two (name ++ (61 ∷ v)) ∷ []
write_setting two (apart name v) = dashes two name ∷ (v ∷ [])
write_setting two (on name) = dashes two name ∷ []
write_setting two (valued name b) = dashes two (name ++ (61 ∷ bool_text b)) ∷ []

-- The arguments, of settings with one dash or two.
unfoldable pub write_settings : List (Bool × Setting) → List Bytes
unfolding write_setting
write_settings [] = []
write_settings ((two, s) ∷ ss) = write_setting two s ++ write_settings ss

-- What they mean.
unfoldable pub put_settings : List (Bool × Setting) → List Flag → List Flag
put_settings [] fs = fs
put_settings ((two, s) ∷ ss) fs = put_settings ss (put_flag (name_of s) (value_of s) fs)

-- `true` for a switch.
abbrev kind_of : FlagValue → Bool
kind_of (text t) = false
kind_of (switch b) = true

unfoldable kind_in : Bytes → List Flag → Option Bool
kind_in name [] = none
kind_in name (f ∷ fs) = if bytes_eq f.name name then some (kind_of f.value) else kind_in name fs

-- The flag is defined, of the kind that the setting needs, and its name can be written.
unfoldable pub Fits : List Flag → Bool × Setting → Type 0
unfolding kind_in is_name
Fits fs (two, s) =
    (is_name (name_of s) ≡ true) × (kind_in (name_of s) fs ≡ some (kind_of (value_of s)))

kind_in-find_flag :
    (name : Bytes) (fs : List Flag) (k : Bool)
    → kind_in name fs ≡ some k
    → (v : FlagValue) × (find_flag name fs ≡ some v) × (kind_of v ≡ k)
unfolding kind_in find_flag
kind_in-find_flag name [] k h = ground arith
kind_in-find_flag name (f ∷ fs) k h = elim (Bool-cases (bytes_eq f.name name)) [
  | inl same ↦ (f.value, rw same refl, ground arith)
  | inr differ ↦ rw differ (kind_in-find_flag name fs k (rw differ at h))
]

kind_in-put_flag :
    (name : Bytes) (n : Bytes) (v : FlagValue) (fs : List Flag)
    → kind_in n fs ≡ some (kind_of v)
    → kind_in name (put_flag n v fs) ≡ kind_in name fs
unfolding kind_in put_flag
kind_in-put_flag name n v [] h = refl
kind_in-put_flag name n v (f ∷ fs) h = elim (Bool-cases (bytes_eq f.name n)) [
  | inl same ↦ rw same (elim (Bool-cases (bytes_eq f.name name)) [
    | inl this ↦ rw this (sym (rw same at h))
    | inr that ↦ rw that refl
  ])
  | inr differ ↦ rw differ (elim (Bool-cases (bytes_eq f.name name)) [
    | inl this ↦ rw this refl
    | inr that ↦ rw that (kind_in-put_flag name n v fs (rw differ at h))
  ])
]

-- The flag of a setting, found in its kind.
unfoldable meaning : Setting → Option Bytes
meaning (joined name v) = some v
meaning (apart name v) = none
meaning (on name) = none
meaning (valued name b) = some (bool_text b)

unfoldable reading_of : (s : Setting) → List Flag → Progress
reading_of (apart name v) fs = reading (some name) fs
reading_of (joined name v) fs = reading none (put_flag name (text v) fs)
reading_of (on name) fs = reading none (put_flag name (switch true) fs)
reading_of (valued name b) fs = reading none (put_flag name (switch b) fs)

assigned-meaning :
    (s : Setting) (fs : List Flag) (v : FlagValue)
    → kind_of v ≡ kind_of (value_of s)
    → assigned (name_of s) (meaning s) fs (some v) ≡ reading_of s fs
unfolding assigned meaning reading_of parse_bool autonomous_remediation_e.Prelude.Octets.bytes_eq
assigned-meaning (joined name x) fs (text t) h = refl
assigned-meaning (apart name x) fs (text t) h = refl
assigned-meaning (on name) fs (switch b) h = refl
assigned-meaning (valued name true) fs (switch b) h = refl
assigned-meaning (valued name false) fs (switch b) h = refl
assigned-meaning (joined name x) fs (switch b) h = ground arith
assigned-meaning (apart name x) fs (switch b) h = ground arith
assigned-meaning (on name) fs (text t) h = ground arith
assigned-meaning (valued name b) fs (text t) h = ground arith

met-meaning :
    (s : Setting) (fs : List Flag)
    → kind_in (name_of s) fs ≡ some (kind_of (value_of s))
    → (a : Bytes) → met a (flag (name_of s) (meaning s)) fs ≡ reading_of s fs
unfolding met
met-meaning s fs h a =
    let (v, found, kind) = kind_in-find_flag (name_of s) fs (kind_of (value_of s)) h in
    rw found (assigned-meaning s fs v kind)

parse_flags-read :
    (a : Bytes) (rest : List Bytes) (fs : List Flag) {g : Argument} {fs' : List Flag}
    {waiting : Option Bytes}
    → read_argument a ≡ g
    → ((b : Bytes) → met b g fs ≡ reading waiting fs')
    → parse_flags none (a ∷ rest) fs ≡ parse_flags waiting rest fs'
unfolding parse_flags parse_one
parse_flags-read a rest fs read step = rw (read, step a, parse_flags, parse_one) refl

-- One setting is read as what it means.
parse_flags-write_setting :
    (two : Bool) (s : Setting) (rest : List Bytes) (fs : List Flag)
    → Fits fs (two, s)
    → parse_flags none (write_setting two s ++ rest) fs
      ≡ parse_flags none rest (put_flag (name_of s) (value_of s) fs)
unfolding Fits write_setting parse_flags parse_one meaning reading_of
parse_flags-write_setting two (joined name v) rest fs (named, kind) =
    parse_flags-read (dashes two (name ++ (61 ∷ v))) rest fs (read_argument-joined two name v named)
      (met-meaning (joined name v) fs kind)
parse_flags-write_setting two (apart name v) rest fs (named, kind) =
    parse_flags-read (dashes two name) (v ∷ rest) fs (read_argument-bare two name named)
      (met-meaning (apart name v) fs kind)
parse_flags-write_setting two (on name) rest fs (named, kind) =
    parse_flags-read (dashes two name) rest fs (read_argument-bare two name named)
      (met-meaning (on name) fs kind)
parse_flags-write_setting two (valued name b) rest fs (named, kind) =
    parse_flags-read (dashes two (name ++ (61 ∷ bool_text b))) rest fs
      (read_argument-joined two name (bool_text b) named) (met-meaning (valued name b) fs kind)

Fits-put_flag :
    (s : Setting) (fs : List Flag) (two : Bool)
    → Fits fs (two, s)
    → (t : Bool × Setting) → Fits fs t
    → Fits (put_flag (name_of s) (value_of s) fs) t
unfolding Fits
Fits-put_flag s fs two (_, kind) (_, t) (named, k) =
    (named, kind_in-put_flag (name_of t) (name_of s) (value_of s) fs kind ∙ k)

All-Fits-put_flag :
    (s : Setting) (fs : List Flag) (two : Bool)
    → Fits fs (two, s)
    → (ss : List (Bool × Setting)) → All (Fits fs) ss
    → All (Fits (put_flag (name_of s) (value_of s) fs)) ss
All-Fits-put_flag s fs two h [] all = all
All-Fits-put_flag s fs two h (t ∷ ss) (fits, all) =
    (Fits-put_flag s fs two h t fits, All-Fits-put_flag s fs two h ss all)

-- Flags that are written with one dash or two, joined to their value by `=` or before it, and a
-- switch alone or with `true` or `false`, are read as what they say, in order, and the arguments
-- after them are read on, if each is defined in its kind under a name that can be written.
pub parse_flags-write_settings :
    (ss : List (Bool × Setting)) (rest : List Bytes) (fs : List Flag)
    → All (Fits fs) ss
    → parse_flags none (write_settings ss ++ rest) fs ≡ parse_flags none rest (put_settings ss fs)
unfolding write_settings put_settings
parse_flags-write_settings [] rest fs all = refl
parse_flags-write_settings ((two, s) ∷ ss) rest fs (fits, all) =
    ap (λ args. parse_flags none args fs)
      (append_assoc (write_setting two s) (write_settings ss) rest)
    ∙ parse_flags-write_setting two s (write_settings ss ++ rest) fs fits
    ∙ parse_flags-write_settings ss rest (put_flag (name_of s) (value_of s) fs)
        (All-Fits-put_flag s fs two fits ss all)
