-- ===== src/Lock/Names.antt =====
-- The file names that `LockPathFor` of internal/lock/lock.go makes, for whatever resource.
use mathlib.Core.List.{append_assoc}
use autonomous_remediation_e.Prelude.{
  ℕ, zero, suc, ◌*◌, ◌/◌, ◌%◌, ◌≤◌, ◌<◌, sym, ◌≡◌, refl, true, false, [], ◌∷◌, ◌++◌, map, ap, ◌∙◌,
  append-split, arith, Bytes, codes, take, length, length-append, length-take, All, ltb, ◌==◌,
  Bool-cases, inl, inr,
}
use autonomous_remediation_e.Lock.{
  is_plain, plain, trim_left, trim_right, cons_trimmed, sanitized, hex, hex_digit, prefix_of,
  lock_filename,
}

abbrev pub IsPlain : ℕ → Type 0
IsPlain c = is_plain c ≡ true

module _ {ℓ} (P : ℕ → Type ℓ) where
  All-append : (xs ys : Bytes) → All P xs → All P ys → All P (xs ++ ys)
  All-append [] ys h k = k
  All-append (x ∷ xs) ys h k = (h.0, All-append xs ys h.1 k)

  All-take : (n : ℕ) (xs : Bytes) → All P xs → All P (take n xs)
  All-take zero xs h = tt
  All-take (suc n) [] h = tt
  All-take (suc n) (x ∷ xs) h = (h.0, All-take n xs h.1)

  trim_left-All : (xs : Bytes) → All P xs → All P (trim_left xs)
  unfolding trim_left
  trim_left-All [] h = tt
  trim_left-All (x ∷ xs) h = elim (Bool-cases (x == b'_')) [
    | inl skip ↦ rw skip (trim_left-All xs h.1)
    | inr keep ↦ rw keep h
  ]

  cons_trimmed-All : (x : ℕ) (xs : Bytes) → P x → All P xs → All P (cons_trimmed x xs)
  cons_trimmed-All x [] h k = elim (Bool-cases (x == b'_')) [
    | inl skip ↦ rw skip tt
    | inr keep ↦ rw keep (h, tt)
  ]
  cons_trimmed-All x (y ∷ ys) h k = (h, k)

  trim_right-All : (xs : Bytes) → All P xs → All P (trim_right xs)
  unfolding trim_right
  trim_right-All [] h = tt
  trim_right-All (x ∷ xs) h = cons_trimmed-All x (trim_right xs) h.0 (trim_right-All xs h.1)

plain-IsPlain : (c : ℕ) → IsPlain (plain c)
unfolding is_plain
plain-IsPlain c = ground arith

map-plain : (xs : Bytes) → All IsPlain (map plain xs)
map-plain [] = tt
map-plain (x ∷ xs) = (plain-IsPlain x, map-plain xs)

sanitized-IsPlain : (xs : Bytes) → All IsPlain (sanitized xs)
unfolding sanitized
sanitized-IsPlain xs =
    let s = trim_right (trim_left (map plain xs)) in
    let good = trim_right-All IsPlain _ (trim_left-All IsPlain _ (map-plain xs)) in
    elim (Bool-cases (ltb 64 (length s))) [
      | inl long ↦ rw long (All-take IsPlain 64 s good)
      | inr short ↦ rw short good
    ]

ltb-false : (a b : ℕ) → ltb a b ≡ false → b ≤ a
ltb-false a b h = ground arith

length-sanitized : (xs : Bytes) → length (sanitized xs) ≤ 64
unfolding sanitized
length-sanitized xs =
    let s = trim_right (trim_left (map plain xs)) in
    elim (Bool-cases (ltb 64 (length s))) [
      | inl long ↦ rw long (omega (arith, length-take {0} 64 s))
      | inr short ↦ rw short (ltb-false 64 (length s) short)
    ]

prefix_of-IsPlain : (xs : Bytes) → All IsPlain xs → All IsPlain (prefix_of xs)
unfolding is_plain
prefix_of-IsPlain [] h = (refl, (refl, (refl, tt)))
prefix_of-IsPlain (x ∷ xs) h = h

length-prefix_of :
    (xs : Bytes) → length xs ≤ 64 → (0 < length (prefix_of xs)) × (length (prefix_of xs) ≤ 64)
length-prefix_of [] h = omega arith
length-prefix_of (x ∷ xs) h = omega arith

hex_digit-IsPlain : (n : ℕ) → n < 16 → IsPlain (hex_digit n)
unfolding is_plain
hex_digit-IsPlain n h = ground arith

hex-IsPlain : (xs : Bytes) → All IsPlain (hex xs)
unfolding hex
hex-IsPlain [] = tt
hex-IsPlain (x ∷ xs) = (
  hex_digit-IsPlain (x / 16 % 16) (omega arith),
  (hex_digit-IsPlain (x % 16) (omega arith), hex-IsPlain xs),
)

length-hex : (xs : Bytes) → length (hex xs) ≡ 2 * length xs
unfolding hex
length-hex [] = omega arith
length-hex (x ∷ xs) = omega (arith, length-hex xs)

-- What stands before ".lock".
unfoldable pub stem : (Bytes → Bytes) → Bytes → Bytes
stem digest resource = prefix_of (sanitized resource) ++ (b'_' ∷ hex (take 4 (digest resource)))

length-stem :
    (digest : Bytes → Bytes) (resource : Bytes)
    → (0 < length (stem digest resource)) × (length (stem digest resource) ≤ 73)
unfolding stem
length-stem digest resource =
    let hashed = take 4 (digest resource) in
    omega (
      arith,
      length-append {0} (prefix_of (sanitized resource)) (b'_' ∷ hex hashed),
      length-prefix_of (sanitized resource) (length-sanitized resource),
      length-hex hashed,
      length-take {0} 4 (digest resource),
    )

-- Whatever the resource is called, slashes and dots included, its lock file is named by 1 to 73
-- letters, digits, dashes and underscores and then ".lock": it stands in the lock directory
-- itself, and its name is no longer than a file name may be.
pub lock_filename_safe :
    (digest : Bytes → Bytes) (resource : Bytes)
    → (lock_filename digest resource ≡ stem digest resource ++ codes ".lock")
      × All IsPlain (stem digest resource)
      × (0 < length (stem digest resource))
      × (length (stem digest resource) ≤ 73)
unfolding lock_filename stem is_plain
lock_filename_safe digest resource = (
  sym (append_assoc (prefix_of (sanitized resource)) _ _),
  All-append IsPlain (prefix_of (sanitized resource)) _
      (prefix_of-IsPlain _ (sanitized-IsPlain resource))
      (plain-IsPlain b'_', hex-IsPlain (take 4 (digest resource))),
  (length-stem digest resource).0,
  (length-stem digest resource).1,
)

-- Two resources have one lock file only if the kept part of their names and the first four bytes
-- of their hashes, as text, agree (a hash has 32 bytes).
pub lock_filename_shared :
    (digest : Bytes → Bytes) (r r' : Bytes)
    → ((x : Bytes) → length (digest x) ≡ 32)
    → lock_filename digest r ≡ lock_filename digest r'
    → (prefix_of (sanitized r) ≡ prefix_of (sanitized r'))
      × (hex (take 4 (digest r)) ≡ hex (take 4 (digest r')))
unfolding lock_filename
lock_filename_shared digest r r' fixed e =
    let tail : Bytes → Bytes = λ x. hex (take 4 (digest x)) ++ codes ".lock" in
    let eight : (x : Bytes) → length (hex (take 4 (digest x))) ≡ 8 =
      λ x. omega (arith, length-hex (take 4 (digest x)), length-take {0} 4 (digest x), fixed x) in
    let thirteen : (x : Bytes) → length (tail x) ≡ 13 =
      λ x. omega (arith, length-append {0} (hex (take 4 (digest x))) (codes ".lock"), eight x) in
    let (p, q) =
      append-split (prefix_of (sanitized r)) (prefix_of (sanitized r')) (b'_' ∷ tail r)
        (b'_' ∷ tail r')
        (omega (
          arith,
          ap (length {0}) e,
          length-append {0} (prefix_of (sanitized r)) (b'_' ∷ tail r),
          length-append {0} (prefix_of (sanitized r')) (b'_' ∷ tail r'),
          thirteen r,
          thirteen r',
        ))
        e in
    let q' : tail r ≡ tail r' = cc in (p, (append-split _ _ _ _ (eight r ∙ sym (eight r')) q').0)
