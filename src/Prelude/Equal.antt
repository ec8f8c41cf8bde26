-- ===== src/Prelude/Equal.antt =====
-- The comparison of two byte strings, as `memcmp` after the comparison of the lengths.
use Prim.Native.Nat.{ℕ}
use mathlib.Core.Path.{◌≡◌, refl, ap₂}
use mathlib.Core.Bool.{Bool, true, false, ◌&&◌}
use mathlib.Core.List.{List, [], ◌∷◌}
use native.Mathlib.Omega.{arith}
use blueberry.Prelude.Tests.{◌==◌}

unfoldable pub eq_list : List ℕ → List ℕ → Bool
eq_list [] [] = true
eq_list (x ∷ xs) (y ∷ ys) = x == y && eq_list xs ys
eq_list xs ys = false

pub eq_list_sound : (xs ys : List ℕ) → eq_list xs ys ≡ true → xs ≡ ys
unfolding eq_list
eq_list_sound [] [] h = refl
eq_list_sound [] (y ∷ ys) h = cc
eq_list_sound (x ∷ xs) [] h = cc
eq_list_sound (x ∷ xs) (y ∷ ys) h =
    ap₂ (λ z zs. z ∷ zs) (ground arith) (eq_list_sound xs ys (ground arith))

pub eq_list_self : (xs : List ℕ) → eq_list xs xs ≡ true
unfolding eq_list
eq_list_self [] = refl
eq_list_self (x ∷ xs) = ground (arith, eq_list_self xs)
