-- ===== src/Common/Bytes.antt =====
-- `memcmp(a, b, n) == 0` over two arrays of one length.
use Prim.Native.Nat.{ℕ}
use mathlib.Core.Path.{◌≡◌, refl}
use mathlib.Core.Bool.{Bool, true, false, ◌&&◌}
use mathlib.Core.List.{List, [], ◌∷◌}
use native.Mathlib.Omega.{arith}
use libwake.Common.Tests.{◌==◌}

unfoldable pub mem_eq : List ℕ → List ℕ → Bool
mem_eq [] [] = true
mem_eq (x ∷ xs) (y ∷ ys) = x == y && mem_eq xs ys
mem_eq _ _ = false

pub mem_eq→eq : (a b : List ℕ) → mem_eq a b ≡ true → a ≡ b
unfolding mem_eq
mem_eq→eq [] [] h = refl
mem_eq→eq (x ∷ xs) (y ∷ ys) h = ground (arith, mem_eq→eq xs ys)
mem_eq→eq [] (y ∷ ys) h = ground arith
mem_eq→eq (x ∷ xs) [] h = ground arith

pub mem_eq_refl : (a : List ℕ) → mem_eq a a ≡ true
unfolding mem_eq
mem_eq_refl [] = refl
mem_eq_refl (x ∷ xs) = ground (arith, mem_eq_refl xs)

pub mem_eq_comm : (a b : List ℕ) → mem_eq a b ≡ mem_eq b a
unfolding mem_eq
mem_eq_comm [] [] = refl
mem_eq_comm (x ∷ xs) (y ∷ ys) = ground (arith, mem_eq_comm xs ys)
mem_eq_comm [] (y ∷ ys) = refl
mem_eq_comm (x ∷ xs) [] = refl
