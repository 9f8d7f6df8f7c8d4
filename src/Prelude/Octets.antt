-- ===== src/Prelude/Octets.antt =====
-- A Go string or byte slice that is hashed or walked: the list of its bytes.
use Prim.Native.Nat.{ℕ, ◌/◌, ◌%◌, ◌^◌}
use mathlib.Core.Path.{◌≡◌, refl, ap, ◌∙◌, sym}
use mathlib.Core.Bool.{Bool, true, false, ◌&&◌}
use mathlib.Core.List.{List, [], ◌∷◌, ◌++◌}
use mathlib.Core.Logic.{◌↔◌}
use native.Mathlib.Omega.{arith}
use autonomous_remediation_e.Prelude.Tests.{◌==◌}
use autonomous_remediation_e.Prelude.Lists.{length}

abbrev pub Bytes : Type 0
Bytes = List ℕ

-- `==` on two Go strings.
unfoldable pub bytes_eq : Bytes → Bytes → Bool
bytes_eq [] [] = true
bytes_eq (x ∷ xs) (y ∷ ys) = (x == y) && bytes_eq xs ys
bytes_eq _ _ = false

bytes_eq→eq : (xs ys : Bytes) → bytes_eq xs ys ≡ true → xs ≡ ys
unfolding bytes_eq
bytes_eq→eq [] [] h = refl
bytes_eq→eq [] (y ∷ ys) h = cc
bytes_eq→eq (x ∷ xs) [] h = cc
bytes_eq→eq (x ∷ xs) (y ∷ ys) h = ground (arith, bytes_eq→eq xs ys)

pub bytes_eq_refl : (xs : Bytes) → bytes_eq xs xs ≡ true
unfolding bytes_eq
bytes_eq_refl [] = refl
bytes_eq_refl (x ∷ xs) = ground (arith, bytes_eq_refl xs)

pub bytes_eq_iff : (xs ys : Bytes) → (bytes_eq xs ys ≡ true) ↔ (xs ≡ ys)
bytes_eq_iff xs ys = (bytes_eq→eq xs ys, λ e. ap (bytes_eq xs) (sym e) ∙ bytes_eq_refl xs)

-- `binary.BigEndian.PutUint64`.
unfoldable pub be64 : ℕ → Bytes
be64 n =
    (n / 2 ^ 56 % 256)
    ∷ (n / 2 ^ 48 % 256)
    ∷ (n / 2 ^ 40 % 256)
    ∷ (n / 2 ^ 32 % 256)
    ∷ (n / 2 ^ 24 % 256)
    ∷ (n / 2 ^ 16 % 256)
    ∷ (n / 2 ^ 8 % 256)
    ∷ (n % 256)
    ∷ []

pub length-be64 : (n : ℕ) → length (be64 n) ≡ 8
unfolding be64
length-be64 n = refl

-- Two concatenations with first parts of one length agree part by part.
pub append-split :
    (xs xs' ys ys' : Bytes)
    → length xs ≡ length xs'
    → xs ++ ys ≡ xs' ++ ys'
    → (xs ≡ xs') × (ys ≡ ys')
append-split [] [] ys ys' h e = (refl, e)
append-split [] (x ∷ xs') ys ys' h e = absurd (omega arith)
append-split (x ∷ xs) [] ys ys' h e = absurd (omega arith)
append-split (x ∷ xs) (x' ∷ xs') ys ys' h e =
    let (p, q) = append-split xs xs' ys ys' (omega arith) (cc) in (cc, q)
