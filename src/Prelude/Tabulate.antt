-- ===== src/Prelude/Tabulate.antt =====
-- The list of the first values of a function of the index: the view that an indexed buffer gives.
use Prim.Native.Nat.{ℕ, zero, suc, ◌+◌, ◌<◌}
use mathlib.Core.Path.{◌≡◌, refl, ap, ap₂, ◌∙◌}
use mathlib.Core.List.{List, [], ◌∷◌, ◌++◌}
use native.Mathlib.Omega.{arith}
use blueberry.Prelude.Lists.{length, get_or, take, drop}

module _ {ℓ} {A : Type ℓ} where
  -- `f 0`, `f 1`, up to `f (n - 1)`
  abbrev pub tabulate : ℕ → (ℕ → A) → List A
  tabulate zero f = []
  tabulate (suc n) f = f 0 ∷ tabulate n (λ i. f (suc i))

  pub length-tabulate : (n : ℕ) (f : ℕ → A) → length (tabulate n f) ≡ n
  length-tabulate zero f = refl
  length-tabulate (suc n) f = ap suc (length-tabulate n (λ i. f (suc i)))

  pub tabulate_ext :
      (n : ℕ) (f g : ℕ → A) → ((i : ℕ) → i < n → f i ≡ g i) → tabulate n f ≡ tabulate n g
  tabulate_ext zero f g h = refl
  tabulate_ext (suc n) f g h =
      ap₂ ◌∷◌ (h 0 (omega arith))
        (tabulate_ext n (λ i. f (suc i)) (λ i. g (suc i)) (λ i p. h (suc i) (omega arith)))

  pub tabulate-append :
      (n m : ℕ) (f : ℕ → A) → tabulate (n + m) f ≡ tabulate n f ++ tabulate m (λ i. f (n + i))
  tabulate-append zero m f =
      ap (λ k. tabulate k f) (omega arith)
      ∙ tabulate_ext m f (λ i. f (0 + i)) (λ i h. ap f (omega arith))
  tabulate-append (suc n) m f =
      ap (λ k. tabulate k f) e
      ∙ ap (◌∷◌ (f 0)) (
          tabulate-append n m (λ i. f (suc i))
          ∙ ap (◌++◌ (tabulate n (λ i. f (suc i)))) (
              tabulate_ext m (λ i. f (suc (n + i))) (λ i. f (suc n + i))
                (λ i h. ap f (omega arith))))
    where
      e : suc n + m ≡ suc (n + m)
      e = omega arith

  pub tabulate-snoc : (n : ℕ) (f : ℕ → A) → tabulate (suc n) f ≡ tabulate n f ++ f n ∷ []
  tabulate-snoc zero f = refl
  tabulate-snoc (suc n) f = ap (◌∷◌ (f 0)) (tabulate-snoc n (λ i. f (suc i)))

  -- A list is the table of its own entries.
  pub tabulate-get_or : (xs : List A) (d : A) → tabulate (length xs) (λ i. get_or xs i d) ≡ xs
  tabulate-get_or [] d = refl
  tabulate-get_or (x ∷ xs) d = ap (◌∷◌ x) (tabulate-get_or xs d)

  -- Two lists of one length with the same entries are equal.
  pub list_ext :
      (xs ys : List A) (d : A)
      → length xs ≡ length ys
      → ((i : ℕ) → i < length xs → get_or xs i d ≡ get_or ys i d)
      → xs ≡ ys
  list_ext [] [] d e h = refl
  list_ext [] (y ∷ ys) d e h = absurd (omega arith)
  list_ext (x ∷ xs) [] d e h = absurd (omega arith)
  list_ext (x ∷ xs) (y ∷ ys) d e h =
      ap₂ ◌∷◌ (h 0 (omega arith)) (list_ext xs ys d (omega arith) (λ i p. h (suc i) (omega arith)))

  pub get_or-tabulate :
      (n : ℕ) (f : ℕ → A) (i : ℕ) (d : A) → i < n → get_or (tabulate n f) i d ≡ f i
  get_or-tabulate zero f i d h = absurd (omega arith)
  get_or-tabulate (suc n) f zero d h = refl
  get_or-tabulate (suc n) f (suc i) d h = get_or-tabulate n (λ j. f (suc j)) i d (omega arith)

  pub drop-tabulate :
      (k n : ℕ) (f : ℕ → A) → drop k (tabulate (k + n) f) ≡ tabulate n (λ i. f (k + i))
  drop-tabulate zero n f =
      ap (λ m. tabulate m f) (omega arith)
      ∙ tabulate_ext n f (λ i. f (0 + i)) (λ i h. ap f (omega arith))
  drop-tabulate (suc k) n f =
      ap (λ m. drop (suc k) (tabulate m f)) e
      ∙ drop-tabulate k n (λ i. f (suc i))
      ∙ tabulate_ext n (λ i. f (suc (k + i))) (λ i. f (suc k + i)) (λ i h. ap f (omega arith))
    where
      e : suc k + n ≡ suc (k + n)
      e = omega arith

  pub take-tabulate : (k n : ℕ) (f : ℕ → A) → take k (tabulate (k + n) f) ≡ tabulate k f
  take-tabulate zero n f = refl
  take-tabulate (suc k) n f =
      ap (λ m. take (suc k) (tabulate m f)) e ∙ ap (◌∷◌ (f 0)) (take-tabulate k n (λ i. f (suc i)))
    where
      e : suc k + n ≡ suc (k + n)
      e = omega arith
