-- ===== src/Ctl/Flags/Spelling.antt =====
-- How one argument spells a flag of cmd/remediation-ctl/main.go.
use autonomous_remediation_e.Prelude.{
  ℕ, arith, ◌≡◌, refl, ap, Bool, true, false, ◌&&◌, ◌||◌, not, [], ◌∷◌, ◌++◌, Option, none, some,
  Bytes, ◌==◌, Bool-cases, inl, inr,
}
use autonomous_remediation_e.Ctl.Flags.{
  flag, split_value, with_value, named_argument, dashed_argument, twice_dashed, read_argument,
}

unfoldable pub has_equals : Bytes → Bool
has_equals [] = false
has_equals (c ∷ cs) = c == 61 || has_equals cs

-- A name that can stand after the dashes.
unfoldable pub is_name : Bytes → Bool
unfolding has_equals
is_name [] = false
is_name (c ∷ cs) = not (c == 45 || c == 61) && not (has_equals cs)

-- One dash or two.
abbrev pub dashes : Bool → Bytes → Bytes
dashes true s = 45 ∷ (45 ∷ s)
dashes false s = 45 ∷ s

split_value-append :
    (cs v : Bytes) → has_equals cs ≡ false → split_value (cs ++ (61 ∷ v)) ≡ (cs, some v)
unfolding has_equals split_value
split_value-append [] v h = refl
split_value-append (c ∷ cs) v h = elim (Bool-cases (c == 61)) [
  | inl equals ↦ ground arith
  | inr differ ↦ rw differ (ap (with_value c) (split_value-append cs v (rw differ at h)))
]

split_value-whole : (cs : Bytes) → has_equals cs ≡ false → split_value cs ≡ (cs, none)
unfolding has_equals split_value
split_value-whole [] h = refl
split_value-whole (c ∷ cs) h = elim (Bool-cases (c == 61)) [
  | inl equals ↦ ground arith
  | inr differ ↦ rw differ (ap (with_value c) (split_value-whole cs (rw differ at h)))
]

is_name-cons :
    (c : ℕ) (cs : Bytes)
    → is_name (c ∷ cs) ≡ true
    → ((c == 45) ≡ false) × ((c == 61) ≡ false) × (has_equals cs ≡ false)
unfolding is_name
is_name-cons c cs h = ground arith

read_argument-split :
    (two : Bool) (c : ℕ) (cs rest : Bytes) (value : Option Bytes)
    → is_name (c ∷ cs) ≡ true
    → split_value rest ≡ (cs, value)
    → read_argument (dashes two (c ∷ rest)) ≡ flag (c ∷ cs) value
unfolding read_argument dashed_argument twice_dashed named_argument
read_argument-split two c cs rest value h split =
    let (no_dash, no_equals, plain) = is_name-cons c cs h in
    elim two as (λ b. read_argument (dashes b (c ∷ rest)) ≡ flag (c ∷ cs) value) [
      | true ↦ rw (no_dash, no_equals, split) refl
      | false ↦ rw (no_dash, no_equals, split) refl
    ]

pub read_argument-joined :
    (two : Bool) (name v : Bytes)
    → is_name name ≡ true
    → read_argument (dashes two (name ++ (61 ∷ v))) ≡ flag name (some v)
unfolding is_name
read_argument-joined two [] v h = ground arith
read_argument-joined two (c ∷ cs) v h =
    read_argument-split two c cs (cs ++ (61 ∷ v)) (some v) h
      (split_value-append cs v (is_name-cons c cs h).2)

pub read_argument-bare :
    (two : Bool) (name : Bytes)
    → is_name name ≡ true
    → read_argument (dashes two name) ≡ flag name none
unfolding is_name
read_argument-bare two [] h = ground arith
read_argument-bare two (c ∷ cs) h =
    read_argument-split two c cs cs none h (split_value-whole cs (is_name-cons c cs h).2)
