-- ===== src/Prelude/Scalars.antt =====
-- The text of a list of code points.
use Prim.Native.Nat.{ℕ, Ordering, compare}
use Prim.Native.Char.{Char, char, IsLt}
use Prim.Native.String.{String}
use mathlib.Core.List.{List, [], ◌∷◌}
use mathlib.Core.Option.{Option, none, some}

abbrev BothLt : Ordering → Ordering → Type 0
BothLt Ordering.lt o = IsLt o
BothLt Ordering.eq o = ⊥
BothLt Ordering.gt o = ⊥

abbrev LtOrBoth : Ordering → Ordering → Ordering → Type 0
LtOrBoth Ordering.lt o p = Unit
LtOrBoth Ordering.eq o p = BothLt o p
LtOrBoth Ordering.gt o p = BothLt o p

-- Whether a number is a Unicode scalar value, by its comparisons with the ends of the surrogates and
-- of the code points.
inside? : (o p : Ordering) → Option (BothLt o p)
inside? Ordering.lt Ordering.lt = some tt
inside? Ordering.lt Ordering.eq = none
inside? Ordering.lt Ordering.gt = none
inside? Ordering.eq p = none
inside? Ordering.gt p = none

scalar? : (o p q : Ordering) → Option (LtOrBoth o p q)
unfolding inside?
scalar? Ordering.lt p q = some tt
scalar? Ordering.eq p q = inside? p q
scalar? Ordering.gt p q = inside? p q

-- A number that is none stands for U+FFFD, as in Go.
unfoldable pub char_of : ℕ → Char
unfolding scalar?
char_of n = elim (scalar? (compare n 55296) (compare 57343 n) (compare n 1114112)) [
  | none ↦ char 65533 tt
  | some v ↦ char n v
]

unfoldable pub of_codes : List ℕ → String
unfolding char_of
of_codes [] = String.[]
of_codes (c ∷ cs) = String.◌∷◌ (char_of c) (of_codes cs)
