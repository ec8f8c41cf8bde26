-- ===== src/Prelude/Blit.antt =====
-- Copying a block of cells over part of a buffer: `memmove`, `memcpy` and `memset`.
use Prim.Native.Nat.{ℕ, zero, suc, ◌+◌, ◌≤◌, ◌<◌}
use mathlib.Core.Path.{◌≡◌, refl, ap, ◌∙◌}
use mathlib.Core.List.{List, [], ◌∷◌}
use native.Mathlib.Omega.{arith}
use blueberry.Prelude.Lists.{
  length, get_or, set, replicate, length-set, get_or-set_self, get_or-set_ne,
}

module _ {ℓ} {A : Type ℓ} where
  -- `memmove(dst + at, src, n)` with the `n` cells of `src`
  abbrev pub blit : List A → ℕ → List A → List A
  blit dst at [] = dst
  blit dst at (x ∷ src) = blit (set dst at x) (at + 1) src

  pub length-blit : (dst : List A) (at : ℕ) (src : List A) → length (blit dst at src) ≡ length dst
  length-blit dst at [] = refl
  length-blit dst at (x ∷ src) = length-blit (set dst at x) (at + 1) src ∙ length-set dst at x

  -- cells before the block are kept
  pub get_or-blit_before :
      (dst : List A) (at : ℕ) (src : List A) (i : ℕ) (d : A)
      → i < at
      → get_or (blit dst at src) i d ≡ get_or dst i d
  get_or-blit_before dst at [] i d h = refl
  get_or-blit_before dst at (x ∷ src) i d h =
      get_or-blit_before (set dst at x) (at + 1) src i d (omega arith)
      ∙ get_or-set_ne dst at i x d (omega arith)

  -- the block is there
  pub get_or-blit_inside :
      (dst : List A) (at : ℕ) (src : List A) (i : ℕ) (d : A)
      → at + length src ≤ length dst
      → i < length src
      → get_or (blit dst at src) (at + i) d ≡ get_or src i d
  get_or-blit_inside dst at [] i d fits h = absurd (omega arith)
  get_or-blit_inside dst at (x ∷ src) zero d fits h =
      ap (λ k. get_or (blit (set dst at x) (at + 1) src) k d) (omega arith)
      ∙ get_or-blit_before (set dst at x) (at + 1) src at d (omega arith)
      ∙ get_or-set_self dst at x d (omega arith)
  get_or-blit_inside dst at (x ∷ src) (suc i) d fits h =
      ap (λ k. get_or (blit (set dst at x) (at + 1) src) k d) (omega arith)
      ∙ get_or-blit_inside (set dst at x) (at + 1) src i d (omega (arith, length-set dst at x))
          (omega arith)

  pub get_or-replicate : (n : ℕ) (a : A) (i : ℕ) (d : A) → i < n → get_or (replicate n a) i d ≡ a
  get_or-replicate zero a i d h = absurd (omega arith)
  get_or-replicate (suc n) a zero d h = refl
  get_or-replicate (suc n) a (suc i) d h = get_or-replicate n a i d (omega arith)
