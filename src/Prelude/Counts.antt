-- ===== src/Prelude/Counts.antt =====
-- Laws of `count_if` and `keep`.
use Prim.Native.Nat.{◌≤◌}
use mathlib.Core.Path.{◌≡◌, refl}
use mathlib.Core.Bool.{Bool, true}
use mathlib.Core.List.{List, [], ◌∷◌, ◌++◌}
use mathlib.Core.Option.{some}
use native.Mathlib.Omega.{arith}
use autonomous_remediation_e.Prelude.Lists.{count_if, keep, last?, last?-append}

module _ {ℓ} {A : Type ℓ} (p q : A → Bool) where
  pub count_if_mono :
      (xs : List A) → ((x : A) → p x ≡ true → q x ≡ true) → count_if p xs ≤ count_if q xs
  count_if_mono [] h = omega arith
  count_if_mono (x ∷ xs) h = ground (arith, h x, count_if_mono xs h)

  -- Dropping items that do not count leaves the count.
  pub count_if-keep :
      (xs : List A) → ((x : A) → p x ≡ true → q x ≡ true) → count_if p (keep q xs) ≡ count_if p xs
  count_if-keep [] h = refl
  count_if-keep (x ∷ xs) h = ground (arith, h x, count_if-keep xs h)

module _ {ℓ} {A : Type ℓ} (q : A → Bool) where
  pub keep-append-last :
      (xs : List A) (y : A) → q y ≡ true → keep q (xs ++ (y ∷ [])) ≡ keep q xs ++ (y ∷ [])
  keep-append-last [] y h = rw h
  keep-append-last (x ∷ xs) y h = ground (arith, keep-append-last xs y h)

  pub last?-keep-append :
      (xs : List A) (y : A) → q y ≡ true → last? (keep q (xs ++ (y ∷ []))) ≡ some y
  last?-keep-append xs y h = rw (keep-append-last xs y h) (last?-append (keep q xs) y)
