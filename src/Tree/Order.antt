-- ===== src/Tree/Order.antt =====
-- The order of the keys, and the sorted list of pairs that a tree stands for.
use Prim.Native.Nat.{Ordering}
use blueberry.Prelude.{
  ℕ, ◌≡◌, refl, ap, ◌⊎◌, inl, inr, ◌∙◌, List, [], ◌∷◌, ◌++◌, Option, none, some, All, arith,
}

-- `ci_map_kv`
pub record Kv : Type 0 where
  pub key : ℕ
  pub val : ℕ

abbrev pub flip : Ordering → Ordering
flip Ordering.lt = Ordering.gt
flip Ordering.eq = Ordering.eq
flip Ordering.gt = Ordering.lt

-- `ci_tree_cmp` as the sign of its result: a total order, up to keys that it takes as equal.
pub record IsOrder (cmp : ℕ → ℕ → Ordering) : Type 0 where
  pub cmp-flip : (a b : ℕ) → cmp b a ≡ flip (cmp a b)
  pub cmp-trans :
      (a b c : ℕ) → cmp a b ≡ Ordering.lt → cmp b c ≡ Ordering.lt → cmp a c ≡ Ordering.lt
  pub cmp-congr : (a b c : ℕ) → cmp a b ≡ Ordering.eq → cmp a c ≡ cmp b c

pub Ordering-cases : (c : Ordering) → (c ≡ Ordering.lt) ⊎ ((c ≡ Ordering.eq) ⊎ (c ≡ Ordering.gt))
Ordering-cases Ordering.lt = inl refl
Ordering-cases Ordering.eq = inr (inl refl)
Ordering-cases Ordering.gt = inr (inr refl)

module _ (cmp : ℕ → ℕ → Ordering) where
  -- The list as a map: its pair for a key, and the list with a pair set or a key removed.
  unfoldable pub lookup : ℕ → List Kv → Option Kv
  lookup k [] = none
  lookup k (x ∷ xs) = elim (cmp k x.key) [
    | Ordering.lt ↦ none
    | Ordering.eq ↦ some x
    | Ordering.gt ↦ lookup k xs
  ]

  unfoldable pub insert : Kv → List Kv → List Kv
  insert kv [] = kv ∷ []
  insert kv (x ∷ xs) = elim (cmp kv.key x.key) [
    | Ordering.lt ↦ kv ∷ x ∷ xs
    | Ordering.eq ↦ kv ∷ xs
    | Ordering.gt ↦ x ∷ insert kv xs
  ]

  unfoldable pub remove : ℕ → List Kv → List Kv
  remove k [] = []
  remove k (x ∷ xs) = elim (cmp k x.key) [
    | Ordering.lt ↦ x ∷ xs
    | Ordering.eq ↦ xs
    | Ordering.gt ↦ x ∷ remove k xs
  ]

  abbrev pub Below : ℕ → Kv → Type 0
  Below k x = cmp k x.key ≡ Ordering.lt

  abbrev pub Above : ℕ → Kv → Type 0
  Above k x = cmp k x.key ≡ Ordering.gt

  -- Every key is smaller than those behind it.
  abbrev pub IsSorted : List Kv → Type 0
  IsSorted [] = Unit {0}
  IsSorted (x ∷ xs) = All (Below x.key) xs × IsSorted xs

  -- the parts of a sorted list
  pub All-append_left : (P : Kv → Type 0) (xs ys : List Kv) → All P (xs ++ ys) → All P xs
  All-append_left P [] ys h = tt
  All-append_left P (x ∷ xs) ys (p, h) = (p, All-append_left P xs ys h)

  pub All-append_right : (P : Kv → Type 0) (xs ys : List Kv) → All P (xs ++ ys) → All P ys
  All-append_right P [] ys h = h
  All-append_right P (x ∷ xs) ys (p, h) = All-append_right P xs ys h

  pub All-append : (P : Kv → Type 0) (xs ys : List Kv) → All P xs → All P ys → All P (xs ++ ys)
  All-append P [] ys h k = k
  All-append P (x ∷ xs) ys (p, h) k = (p, All-append P xs ys h k)

  pub All-map : (P Q : Kv → Type 0) (xs : List Kv) → ((x : Kv) → P x → Q x) → All P xs → All Q xs
  All-map P Q [] f h = tt
  All-map P Q (x ∷ xs) f (p, h) = (f x p, All-map P Q xs f h)

  pub IsSorted-left : (xs ys : List Kv) → IsSorted (xs ++ ys) → IsSorted xs
  IsSorted-left [] ys s = tt
  IsSorted-left (x ∷ xs) ys (b, s) = (All-append_left (Below x.key) xs ys b, IsSorted-left xs ys s)

  pub IsSorted-right : (xs ys : List Kv) → IsSorted (xs ++ ys) → IsSorted ys
  IsSorted-right [] ys s = s
  IsSorted-right (x ∷ xs) ys (b, s) = IsSorted-right xs ys s

  module _ (o : IsOrder cmp) where
    pub flip_gt : (a b : ℕ) → cmp a b ≡ Ordering.lt → cmp b a ≡ Ordering.gt
    flip_gt a b h = o.cmp-flip a b ∙ ap flip h

    pub flip_lt : (a b : ℕ) → cmp a b ≡ Ordering.gt → cmp b a ≡ Ordering.lt
    flip_lt a b h = o.cmp-flip a b ∙ ap flip h

    pub flip_eq : (a b : ℕ) → cmp a b ≡ Ordering.eq → cmp b a ≡ Ordering.eq
    flip_eq a b h = o.cmp-flip a b ∙ ap flip h

    -- A key above `x` is above what stands before `x`, and one below `x` below what stands behind.
    pub Above-before :
        (k : ℕ) (xs ys : List Kv) (x : Kv) → IsSorted (xs ++ x ∷ ys) → Above k x → All (Above k) xs
    Above-before k [] ys x s h = tt
    Above-before k (y ∷ xs) ys x (b, s) h =
        let y_x : cmp y.key x.key ≡ Ordering.lt =
          (All-append_right (Below y.key) xs (x ∷ ys) b).0 in
        let y_k : cmp y.key k ≡ Ordering.lt = o.cmp-trans y.key x.key k y_x (flip_lt k x.key h) in
        (flip_gt y.key k y_k, Above-before k xs ys x s h)

    pub Below-behind :
        (k : ℕ) (ys : List Kv) (x : Kv) → All (Below x.key) ys → Below k x → All (Below k) ys
    Below-behind k ys x b h =
        All-map (Below x.key) (Below k) ys (λ y. o.cmp-trans k x.key y.key h) b

    -- the same for a key equal to that of `x`
    pub equal_before :
        (k : ℕ) (xs ys : List Kv) (x : Kv)
        → IsSorted (xs ++ x ∷ ys)
        → cmp k x.key ≡ Ordering.eq
        → All (Above k) xs
    equal_before k [] ys x s h = tt
    equal_before k (y ∷ xs) ys x (b, s) h =
        let y_x : cmp y.key x.key ≡ Ordering.lt =
          (All-append_right (Below y.key) xs (x ∷ ys) b).0 in
        (o.cmp-congr k x.key y.key h ∙ flip_gt y.key x.key y_x, equal_before k xs ys x s h)

  pub lookup-skip : (k : ℕ) (xs ys : List Kv) → All (Above k) xs → lookup k (xs ++ ys) ≡ lookup k ys
  unfolding lookup
  lookup-skip k [] ys h = refl
  lookup-skip k (x ∷ xs) ys (p, h) = ground (arith, p, lookup-skip k xs ys h)

  pub lookup-stop : (k : ℕ) (xs ys : List Kv) → All (Below k) ys → lookup k (xs ++ ys) ≡ lookup k xs
  unfolding lookup
  lookup-stop k [] [] h = refl
  lookup-stop k [] (y ∷ ys) (p, h) = ground (arith, p)
  lookup-stop k (x ∷ xs) ys h = ground (arith, lookup-stop k xs ys h)

  pub insert-skip :
      (kv : Kv) (xs ys : List Kv)
      → All (Above kv.key) xs
      → insert kv (xs ++ ys) ≡ xs ++ insert kv ys
  unfolding insert
  insert-skip kv [] ys h = refl
  insert-skip kv (x ∷ xs) ys (p, h) = ground (arith, p, insert-skip kv xs ys h)

  pub insert-stop :
      (kv : Kv) (xs ys : List Kv)
      → All (Below kv.key) ys
      → insert kv (xs ++ ys) ≡ insert kv xs ++ ys
  unfolding insert
  insert-stop kv [] [] h = refl
  insert-stop kv [] (y ∷ ys) (p, h) = ground (arith, p)
  insert-stop kv (x ∷ xs) ys h = ground (arith, insert-stop kv xs ys h)

  pub remove-skip :
      (k : ℕ) (xs ys : List Kv) → All (Above k) xs → remove k (xs ++ ys) ≡ xs ++ remove k ys
  unfolding remove
  remove-skip k [] ys h = refl
  remove-skip k (x ∷ xs) ys (p, h) = ground (arith, p, remove-skip k xs ys h)

  pub remove-stop :
      (k : ℕ) (xs ys : List Kv) → All (Below k) ys → remove k (xs ++ ys) ≡ remove k xs ++ ys
  unfolding remove
  remove-stop k [] [] h = refl
  remove-stop k [] (y ∷ ys) (p, h) = ground (arith, p)
  remove-stop k (x ∷ xs) ys h = ground (arith, remove-stop k xs ys h)

  All-insert : (P : Kv → Type 0) (kv : Kv) (xs : List Kv) → P kv → All P xs → All P (insert kv xs)
  unfolding insert
  All-insert P kv [] p h = (p, tt)
  All-insert P kv (x ∷ xs) p (q, h) = let ih = All-insert P kv xs p h in ground (arith, p, q, h, ih)

  All-remove : (P : Kv → Type 0) (k : ℕ) (xs : List Kv) → All P xs → All P (remove k xs)
  unfolding remove
  All-remove P k [] h = tt
  All-remove P k (x ∷ xs) (q, h) = let ih = All-remove P k xs h in ground (arith, q, h, ih)

  pub insert-IsSorted :
      (o : IsOrder cmp) (kv : Kv) (xs : List Kv) → IsSorted xs → IsSorted (insert kv xs)
  unfolding insert
  insert-IsSorted o kv [] s = (tt, tt)
  insert-IsSorted o kv (x ∷ xs) (b, s) = elim (Ordering-cases (cmp kv.key x.key)) [
    | inl lt ↦ let low = Below-behind o kv.key xs x b lt in ground (arith, lt, low, b, s)
    | inr (inl eq) ↦
        let low =
          All-map (Below x.key) (Below kv.key) xs (λ y h. o.cmp-congr kv.key x.key y.key eq ∙ h)
            b in
        ground (arith, eq, low, s)
    | inr (inr gt) ↦
        let ih = insert-IsSorted o kv xs s in
        let low = All-insert (Below x.key) kv xs (flip_lt o kv.key x.key gt) b in
        ground (arith, gt, low, ih)
  ]

  pub remove-IsSorted : (k : ℕ) (xs : List Kv) → IsSorted xs → IsSorted (remove k xs)
  unfolding remove
  remove-IsSorted k [] s = tt
  remove-IsSorted k (x ∷ xs) (b, s) =
      let ih = remove-IsSorted k xs s in
      let c = All-remove (Below x.key) k xs b in ground (arith, b, s, c, ih)

  -- What is set is found, and nothing else changes; likewise for what is removed.
  pub lookup-insert_self :
      (o : IsOrder cmp) (kv : Kv) (xs : List Kv) → lookup kv.key (insert kv xs) ≡ some kv
  unfolding lookup insert
  lookup-insert_self o kv [] = let e = o.cmp-flip kv.key kv.key in ground (arith, e)
  lookup-insert_self o kv (x ∷ xs) =
      let e = o.cmp-flip kv.key kv.key in
      let ih = lookup-insert_self o kv xs in ground (arith, e, ih)
