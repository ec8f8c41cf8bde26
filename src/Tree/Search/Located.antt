-- ===== src/Tree/Search/Located.antt =====
-- What a search among the items of a node says of all pairs of the node, and what `lookup`, `insert`
-- and `remove` then do.
use Prim.Native.Nat.{Ordering}
use blueberry.Prelude.{
  ℕ, zero, suc, ◌≤◌, ◌<◌, ◌≡◌, refl, sym, ap, ◌∙◌, subst, true, false, none, some, List, [], ◌∷◌,
  ◌++◌, length, get_or, take, drop, All, arith,
}
use blueberry.Tree.Order.{
  Kv, IsOrder, IsSorted, IsSorted-left, IsSorted-right, Below, Above, Above-before, Below-behind,
  equal_before, lookup, insert, remove, All-append, All-append_right, lookup-skip, insert-skip,
  remove-skip, lookup-stop, insert-stop, remove-stop,
}
use blueberry.Tree.Search.{no_kv, key_at}
use blueberry.Tree.Search.Places.{IsPlace}
use blueberry.Tree.Node.{Node, Rest, leaf, branch, end, more, rest_items, items, child_at, set_item}
use blueberry.Tree.Node.Contents.{contents, rest_contents, before, behind, contents-child_at}
use blueberry.Tree.Node.Parts.{front, rear, contents-items, contents-set_items}

module _ (cmp : ℕ → ℕ → Ordering) (o : IsOrder cmp) where
  -- at an equal key
  pub lookup-equal :
      (k : ℕ) (xs ys : List Kv) (x : Kv)
      → IsSorted cmp (xs ++ x ∷ ys)
      → cmp k x.key ≡ Ordering.eq
      → lookup cmp k (xs ++ x ∷ ys) ≡ some x
  unfolding lookup
  lookup-equal k xs ys x s e =
      lookup-skip cmp k xs (x ∷ ys) (equal_before cmp o k xs ys x s e) ∙ rw (e, lookup) refl

  pub insert-equal :
      (kv : Kv) (xs ys : List Kv) (x : Kv)
      → IsSorted cmp (xs ++ x ∷ ys)
      → cmp kv.key x.key ≡ Ordering.eq
      → insert cmp kv (xs ++ x ∷ ys) ≡ xs ++ kv ∷ ys
  unfolding insert
  insert-equal kv xs ys x s e =
      insert-skip cmp kv xs (x ∷ ys) (equal_before cmp o kv.key xs ys x s e) ∙ rw (e, insert) refl

  pub remove-equal :
      (k : ℕ) (xs ys : List Kv) (x : Kv)
      → IsSorted cmp (xs ++ x ∷ ys)
      → cmp k x.key ≡ Ordering.eq
      → remove cmp k (xs ++ x ∷ ys) ≡ xs ++ ys
  unfolding remove
  remove-equal k xs ys x s e =
      remove-skip cmp k xs (x ∷ ys) (equal_before cmp o k xs ys x s e) ∙ rw (e, remove) refl

  -- between smaller and greater keys
  pub lookup-gap :
      (k : ℕ) (xs ys : List Kv)
      → All (Above cmp k) xs
      → All (Below cmp k) ys
      → lookup cmp k (xs ++ ys) ≡ none
  unfolding lookup
  lookup-gap k xs ys a b = lookup-skip cmp k xs ys a ∙ lookup-stop cmp k [] ys b

  pub insert-gap :
      (kv : Kv) (xs ys : List Kv)
      → All (Above cmp kv.key) xs
      → All (Below cmp kv.key) ys
      → insert cmp kv (xs ++ ys) ≡ xs ++ kv ∷ ys
  unfolding insert
  insert-gap kv xs ys a b =
      insert-skip cmp kv xs ys a ∙ ap (λ zs. xs ++ zs) (insert-stop cmp kv [] ys b)

  pub remove-gap :
      (k : ℕ) (xs ys : List Kv)
      → All (Above cmp k) xs
      → All (Below cmp k) ys
      → remove cmp k (xs ++ ys) ≡ xs ++ ys
  unfolding remove
  remove-gap k xs ys a b =
      remove-skip cmp k xs ys a ∙ ap (λ zs. xs ++ zs) (remove-stop cmp k [] ys b)

  -- around a child
  pub lookup-around :
      (k : ℕ) (xs ys zs : List Kv)
      → All (Above cmp k) xs
      → All (Below cmp k) zs
      → lookup cmp k (xs ++ (ys ++ zs)) ≡ lookup cmp k ys
  lookup-around k xs ys zs a b = lookup-skip cmp k xs (ys ++ zs) a ∙ lookup-stop cmp k ys zs b

  pub insert-around :
      (kv : Kv) (xs ys zs : List Kv)
      → All (Above cmp kv.key) xs
      → All (Below cmp kv.key) zs
      → insert cmp kv (xs ++ (ys ++ zs)) ≡ xs ++ (insert cmp kv ys ++ zs)
  insert-around kv xs ys zs a b =
      insert-skip cmp kv xs (ys ++ zs) a ∙ ap (λ ws. xs ++ ws) (insert-stop cmp kv ys zs b)

  pub remove-around :
      (k : ℕ) (xs ys zs : List Kv)
      → All (Above cmp k) xs
      → All (Below cmp k) zs
      → remove cmp k (xs ++ (ys ++ zs)) ≡ xs ++ (remove cmp k ys ++ zs)
  remove-around k xs ys zs a b =
      remove-skip cmp k xs (ys ++ zs) a ∙ ap (λ ws. xs ++ ws) (remove-stop cmp k ys zs b)

  before-Above :
      (k : ℕ) (c : Node) (r : Rest) (i : ℕ)
      → IsSorted cmp (contents c ++ rest_contents r)
      → i ≤ length (rest_items r)
      → ((j : ℕ) → j < i → cmp k (key_at (rest_items r) j) ≡ Ordering.gt)
      → All (Above cmp k) (before c r i)
  unfolding contents before
  before-Above k c r zero s le h = tt
  before-Above k c end (suc i) s le h = tt
  before-Above k c (more kv d r) (suc i) s le h =
      let x = h 0 (omega arith) in
      let a = Above-before cmp o k (contents c) (contents d ++ rest_contents r) kv s x in
      let s' = IsSorted-right cmp (contents c) (kv ∷ (contents d ++ rest_contents r)) s in
      All-append cmp (Above cmp k) (contents c) (kv ∷ before d r i) a
        (x, before-Above k d r i s'.1 (omega arith) (λ j lt. h (suc j) (omega arith)))

  behind-Below :
      (k : ℕ) (c : Node) (r : Rest) (i : ℕ)
      → IsSorted cmp (contents c ++ rest_contents r)
      → ((j : ℕ)
          → i ≤ j
          → j < length (rest_items r)
          → cmp k (key_at (rest_items r) j) ≡ Ordering.lt)
      → All (Below cmp k) (behind r i)
  unfolding contents behind
  behind-Below k c end zero s h = tt
  behind-Below k c end (suc i) s h = tt
  behind-Below k c (more kv d r) zero s h =
      let x = h 0 (omega arith) (omega arith) in
      let (b, s') = IsSorted-right cmp (contents c) (kv ∷ (contents d ++ rest_contents r)) s in
      (x, Below-behind cmp o k (contents d ++ rest_contents r) kv b x)
  behind-Below k c (more kv d r) (suc i) s h =
      let (b, s') = IsSorted-right cmp (contents c) (kv ∷ (contents d ++ rest_contents r)) s in
      behind-Below k d r i s' (λ j le lt. h (suc j) (omega arith) (omega arith))

  -- The key belongs into the child at the index that is not found.
  pub around_child :
      (k : ℕ) (c : Node) (r : Rest) (i : ℕ)
      → IsSorted cmp (contents c ++ rest_contents r)
      → IsPlace cmp (rest_items r) k (false, i)
      → All (Above cmp k) (before c r i) × All (Below cmp k) (behind r i)
  around_child k c r i s (le, above, below) =
      (before-Above k c r i s le above, behind-Below k c r i s below)

  -- the same for the items of a leaf
  take-Above :
      (k : ℕ) (xs : List Kv) (i : ℕ)
      → i ≤ length xs
      → ((j : ℕ) → j < i → cmp k (key_at xs j) ≡ Ordering.gt)
      → All (Above cmp k) (take i xs)
  take-Above k xs zero le h = tt
  take-Above k [] (suc i) le h = tt
  take-Above k (x ∷ xs) (suc i) le h =
      (h 0 (omega arith), take-Above k xs i (omega arith) (λ j lt. h (suc j) (omega arith)))

  drop-Below :
      (k : ℕ) (xs : List Kv) (i : ℕ)
      → ((j : ℕ) → i ≤ j → j < length xs → cmp k (key_at xs j) ≡ Ordering.lt)
      → All (Below cmp k) (drop i xs)
  drop-Below k [] zero h = tt
  drop-Below k [] (suc i) h = tt
  drop-Below k (x ∷ xs) zero h = (
    h 0 (omega arith) (omega arith),
    drop-Below k xs 0 (λ j le lt. h (suc j) (omega arith) (omega arith)),
  )
  drop-Below k (x ∷ xs) (suc i) h =
      drop-Below k xs i (λ j le lt. h (suc j) (omega arith) (omega arith))

  pub around_index :
      (k : ℕ) (xs : List Kv) (i : ℕ)
      → IsPlace cmp xs k (false, i)
      → All (Above cmp k) (take i xs) × All (Below cmp k) (drop i xs)
  around_index k xs i (le, above, below) = (take-Above k xs i le above, drop-Below k xs i below)

pub child_at-IsSorted :
    (cmp : ℕ → ℕ → Ordering) (c : Node) (r : Rest) (i : ℕ)
    → i ≤ length (rest_items r)
    → IsSorted cmp (contents c ++ rest_contents r)
    → IsSorted cmp (contents (child_at c r i))
child_at-IsSorted cmp c r i le s =
    let n = contents (child_at c r i) in
    IsSorted-left cmp n (behind r i) (
      IsSorted-right cmp (before c r i) (n ++ behind r i)
        (subst (IsSorted cmp) (contents-child_at c r i le) s))

module _ (cmp : ℕ → ℕ → Ordering) (o : IsOrder cmp) where
  pub items-IsSorted : (n : Node) → IsSorted cmp (contents n) → IsSorted cmp (items n)
  unfolding contents
  items-IsSorted (leaf xs) s = s
  items-IsSorted (branch c r) s =
      rest_items-IsSorted r (IsSorted-right cmp (contents c) (rest_contents r) s)
    where
      rest_items-All : (P : Kv → Type 0) (q : Rest) → All P (rest_contents q) → All P (rest_items q)
      rest_items-All P end h = tt
      rest_items-All P (more kv d q) (p, h) =
          (p, rest_items-All P q (All-append_right cmp P (contents d) (rest_contents q) h))

      rest_items-IsSorted :
          (q : Rest) → IsSorted cmp (rest_contents q) → IsSorted cmp (rest_items q)
      rest_items-IsSorted end h = tt
      rest_items-IsSorted (more kv d q) (b, h) = (
        rest_items-All (Below cmp kv.key) q
            (All-append_right cmp (Below cmp kv.key) (contents d) (rest_contents q) b),
        rest_items-IsSorted q (IsSorted-right cmp (contents d) (rest_contents q) h),
      )

  -- the key found at an item
  pub lookup-found :
      (k : ℕ) (n : Node) (i : ℕ)
      → IsSorted cmp (contents n)
      → IsPlace cmp (items n) k (true, i)
      → lookup cmp k (contents n) ≡ some (get_or (items n) i no_kv)
  lookup-found k n i s (lt, e) =
      let p = contents-items n i lt in
      ap (lookup cmp k) p
      ∙ lookup-equal cmp o k (front n i) (rear n i) (get_or (items n) i no_kv)
          (subst (IsSorted cmp) p s) e

  pub insert-found :
      (kv : Kv) (n : Node) (i : ℕ)
      → IsSorted cmp (contents n)
      → IsPlace cmp (items n) kv.key (true, i)
      → contents (set_item n i kv) ≡ insert cmp kv (contents n)
  insert-found kv n i s (lt, e) =
      let p = contents-items n i lt in
      sym (
        ap (insert cmp kv) p
        ∙ insert-equal cmp o kv (front n i) (rear n i) (get_or (items n) i no_kv)
            (subst (IsSorted cmp) p s) e
        ∙ sym (contents-set_items n i kv lt))

  pub remove-found :
      (k : ℕ) (n : Node) (i : ℕ)
      → IsSorted cmp (contents n)
      → IsPlace cmp (items n) k (true, i)
      → remove cmp k (contents n) ≡ front n i ++ rear n i
  remove-found k n i s (lt, e) =
      let p = contents-items n i lt in
      ap (remove cmp k) p
      ∙ remove-equal cmp o k (front n i) (rear n i) (get_or (items n) i no_kv)
          (subst (IsSorted cmp) p s) e
