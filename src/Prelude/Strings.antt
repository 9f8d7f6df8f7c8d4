-- ===== src/Prelude/Strings.antt =====
-- Functions of Go's package strings, and `strconv.Atoi`, on a text as the list of its code points.
use Prim.Native.Nat.{ℕ, zero, suc, ◌+◌, ◌-◌, ◌*◌}
use mathlib.Core.Bool.{Bool, true, false, not, ◌&&◌, ◌||◌}
use mathlib.Core.List.{[], ◌∷◌}
use mathlib.Core.Option.{Option, none, some}
use autonomous_remediation_e.Prelude.Tests.{leb, ◌==◌, if◌then◌else◌}
use autonomous_remediation_e.Prelude.Lists.{take}
use autonomous_remediation_e.Prelude.Octets.{Bytes, bytes_eq}

-- `unicode.IsSpace`.
unfoldable pub is_space : ℕ → Bool
is_space c =
    (leb 9 c && leb c 13)
    || c == 32
    || c == 133
    || c == 160
    || c == 5760
    || (leb 8192 c && leb c 8202)
    || c == 8232
    || c == 8233
    || c == 8239
    || c == 8287
    || c == 12288

-- Without the code points at the front that a test takes, and without those at the end.
unfoldable pub trim_front : (ℕ → Bool) → Bytes → Bytes
trim_front p [] = []
trim_front p (c ∷ cs) = let rest = trim_front p cs in if p c then rest else c ∷ cs

abbrev pub cons_kept : Bool → ℕ → Bytes → Bytes
cons_kept true c [] = []
cons_kept true c (d ∷ ds) = c ∷ d ∷ ds
cons_kept false c ds = c ∷ ds

unfoldable pub trim_back : (ℕ → Bool) → Bytes → Bytes
trim_back p [] = []
trim_back p (c ∷ cs) = cons_kept (p c) c (trim_back p cs)

-- `TrimSpace`.
unfoldable pub trim_space : Bytes → Bytes
trim_space s = trim_back is_space (trim_front is_space s)

-- What follows a prefix, where a text has it.
unfoldable pub without_prefix : Bytes → Bytes → Option Bytes
without_prefix [] s = some s
without_prefix (p ∷ ps) [] = none
without_prefix (p ∷ ps) (c ∷ cs) = if p == c then without_prefix ps cs else none

unfoldable pub or_whole : Bytes → Option Bytes → Bytes
or_whole s none = s
or_whole s (some rest) = rest

-- `TrimPrefix`.
unfoldable pub trim_prefix : Bytes → Bytes → Bytes
trim_prefix p s = or_whole s (without_prefix p s)

abbrev pub is_some : Option Bytes → Bool
is_some none = false
is_some (some rest) = true

-- `HasPrefix`.
unfoldable pub has_prefix : Bytes → Bytes → Bool
has_prefix p s = is_some (without_prefix p s)

abbrev pub later : Option ℕ → Option ℕ
later none = none
later (some i) = some (suc i)

-- `Index`; Go's -1 is `none`.
unfoldable pub index : Bytes → Bytes → Option ℕ
index p [] = if has_prefix p [] then some 0 else none
index p (c ∷ cs) = let rest = later (index p cs) in if has_prefix p (c ∷ cs) then some 0 else rest

abbrev pub or_here : Bool → Option ℕ → Option ℕ
or_here here (some i) = some (suc i)
or_here true none = some 0
or_here false none = none

-- `LastIndex` of one code point.
unfoldable pub last_index : ℕ → Bytes → Option ℕ
last_index p [] = none
last_index p (c ∷ cs) = or_here (c == p) (last_index p cs)

abbrev pub drop : ℕ → Bytes → Bytes
drop zero s = s
drop (suc n) [] = []
drop (suc n) (c ∷ cs) = drop n cs

-- `s[lo:hi]`, where 0 <= lo <= hi <= len(s).
abbrev pub slice : ℕ → ℕ → Bytes → Bytes
slice lo hi s = drop lo (take hi s)

-- `HasSuffix`.
unfoldable pub has_suffix : Bytes → Bytes → Bool
has_suffix p [] = bytes_eq p []
has_suffix p (c ∷ cs) = bytes_eq p (c ∷ cs) || has_suffix p cs

-- `unicode.ToUpper` on Latin-1 and on the two other letters whose capital is in ASCII, the dotless i and
-- the long s; further letters stay as they are.
abbrev pub to_upper : ℕ → ℕ
to_upper c =
    if leb 97 c && leb c 122
    then c - 32
    else if c == 305
    then 73
    else if c == 383
    then 83
    else if leb 224 c && leb c 254 && not (c == 247)
    then c - 32
    else if c == 255
    then 376
    else if c == 181
    then 924
    else c

-- `ToLower` on ASCII.

abbrev pub to_lower : ℕ → ℕ
to_lower c = if leb 65 c && leb c 90 then c + 32 else c

-- The largest int64.
abbrev pub max_int64 : ℕ
max_int64 = 9223372036854775807

-- The digits of a number after those that were read, up to a largest value.
unfoldable pub digits : ℕ → ℕ → Bytes → Option ℕ
digits limit n [] = some n
digits limit n (c ∷ cs) =
    let rest = digits limit (10 * n + (c - 48)) cs in
    if leb 48 c && leb c 57 && leb (10 * n + (c - 48)) limit then rest else none

-- A number of at least one digit.
unfoldable pub natural : ℕ → Bytes → Option ℕ
natural limit [] = none
natural limit (c ∷ cs) = digits limit 0 (c ∷ cs)

-- The sign of a number, and what follows it.
unfoldable pub signed_part : Bytes → Bool × Bytes
signed_part [] = (false, [])
signed_part (c ∷ cs) =
    if c == 45 then (true, cs) else if c == 43 then (false, cs) else (false, c ∷ cs)

-- `strconv.Atoi`; a number that is not positive is 0, and so is one that is too large, which
-- differs from Go's in error messages alone.
abbrev pub positive_part : Bool × Bytes → Option ℕ
positive_part (false, s) = natural max_int64 s
positive_part (true, s) = elim (natural (suc max_int64) s) [ none ↦ none | some n ↦ some 0 ]

unfoldable pub atoi : Bytes → Option ℕ
atoi s = positive_part (signed_part s)

abbrev pub or_no_pid : Option ℕ → ℕ
or_no_pid none = 0
or_no_pid (some n) = n
