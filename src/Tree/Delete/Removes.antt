-- ===== src/Tree/Delete/Removes.antt =====
-- ci_tree_node_delete takes the pair out of the sorted list that the node stands for, and keeps the
-- shape.
use Prim.Native.Nat.{Ordering}
use blueberry.Prelude.{
  ℕ, zero, suc, ◌+◌, ◌≤◌, ◌<◌, ◌≡◌, refl, sym, ap, ◌∙◌, inl, inr, Bool, true, false, none, some,
  List, [], ◌∷◌, ◌++◌, append_assoc, length, get_or, take, drop, length-set, arith,
}
use blueberry.Tree.Order.{Kv, IsOrder, IsSorted, lookup, remove}
use blueberry.Tree.Search.{no_kv, bsearch_hint}
use blueberry.Tree.Search.Places.{IsPlace, bsearch_hint-IsPlace}
use blueberry.Tree.Search.Located.{
  lookup-gap, lookup-around, remove-around, around_child, around_index, child_at-IsSorted,
  items-IsSorted, lookup-found, remove-found,
}
use blueberry.Tree.Node.{
  Node, Rest, leaf, branch, rest_items, items, nitems, child_at, set_child, set_rest_item,
}
use blueberry.Tree.Node.Contents.{
  contents, rest_contents, before, behind, behind_item, contents-child_at, contents-set_child,
  contents-set_item, rest_items-set,
}
use blueberry.Tree.Node.Parts.{take-drop, front, rear}
use blueberry.Tree.Node.Balanced.{
  IsBalanced, IsKids, to_kids, from_kids, child_at-IsChild, set_child-IsKids, rest_items-set_child,
}
use blueberry.Tree.Node.Rebalanced.{set_rest_item-IsKidsBut}
use blueberry.Tree.Set.{Mut, nochange, nomem, must_split, inserted, replaced, deleted}
use blueberry.Tree.Delete.{
  Act, delkey, popmax, Out, pick, after_child, from_child, replace_item, delete_in, noted_hint,
  node_delete,
}
use blueberry.Tree.Delete.Pops.{Shrinks, IsPopped, mended, length-remove_at, node_delete-IsPopped}

module _ (cmp : ℕ → ℕ → Ordering) where
  -- what each result says of the pairs, for a key that is deleted
  abbrev pub RemovedTo : Mut → ℕ → List Kv → ℕ → Kv → Node → Type 0
  RemovedTo deleted size old key prev n =
      (contents n ≡ remove cmp key old) × (lookup cmp key old ≡ some prev)
  RemovedTo nochange size old key prev n =
      (contents n ≡ old) × (lookup cmp key old ≡ none) × (nitems n ≡ size)
  RemovedTo result size old key prev n = ⊥

  abbrev pub IsRemoved : ℕ → ℕ → List Kv → ℕ → Out → Type 0
  IsRemoved h size old key none = ⊥
  IsRemoved h size old key (some (m, n, prev, hint)) =
      Shrinks h size n × RemovedTo m size old key prev n

  module _ (o : IsOrder cmp) (key h : ℕ) (c : Node) (r : Rest) (i : ℕ) (k : IsKids h (c, r))
      (one : 1 ≤ length (rest_items r)) (s : IsSorted cmp (contents c ++ rest_contents r)) where
    -- the key belongs into a child
    from_child-IsRemoved :
        (out : Out)
        → IsPlace cmp (rest_items r) key (false, i)
        → IsRemoved h (nitems (child_at c r i)) (contents (child_at c r i)) key out
        → IsRemoved
            (suc h)
            (length (rest_items r))
            (contents c ++ rest_contents r)
            key
            (from_child c r i out)
    unfolding from_child after_child contents
    from_child-IsRemoved none p x = x
    from_child-IsRemoved (some (m, n, prev, hint)) p (x, to) = by_result m to
      where
        d : Node
        d = (set_child c r i n).0

        q : Rest
        q = (set_child c r i n).1

        child : Node
        child = child_at c r i

        old : List Kv
        old = contents c ++ rest_contents r

        found_here : lookup cmp key old ≡ lookup cmp key (contents child)
        found_here =
            let (a, z) = around_child cmp o key c r i s p in
            ap (lookup cmp key) (contents-child_at c r i p.0)
            ∙ lookup-around cmp o key (before c r i) (contents child) (behind r i) a z

        by_result :
            (w : Mut)
            → RemovedTo w (nitems child) (contents child) key prev n
            → IsRemoved (suc h) (length (rest_items r)) old key (after_child w d q i prev hint)
        by_result deleted (e, f) =
            let (a, z) = around_child cmp o key c r i s p in
            let same =
              contents-set_child c r i n p.0
              ∙ ap (λ ys. before c r i ++ (ys ++ behind r i)) e
              ∙ sym (remove-around cmp o key (before c r i) (contents child) (behind r i) a z)
              ∙ ap (remove cmp key) (sym (contents-child_at c r i p.0)) in
            let (y, g) =
              mended h c r q i n (remove cmp key old) k p.0 one x
                (ap length (rest_items-set_child c r i n)) (λ b. b) same in
            (y, (g, found_here ∙ f))
        by_result nochange (e, f, size) =
            let (b, l, u) = child_at-IsChild h c r i k in
            let k' =
              set_child-IsKids h c r i n k
                (x.balanced, omega (arith, size, l), omega (arith, size, u)) in
            let same =
              contents-set_child c r i n p.0
              ∙ ap (λ ys. before c r i ++ (ys ++ behind r i)) e
              ∙ sym (contents-child_at c r i p.0) in
            let size' = ap length (rest_items-set_child c r i n) in
            (
              record { balanced = from_kids h (d, q) k'; size = inl size' },
              (same, found_here ∙ f, size'),
            )
        by_result nomem t = absurd t
        by_result must_split t = absurd t
        by_result inserted t = absurd t
        by_result replaced t = absurd t

    -- The key is found in the branch.
    replace_item-IsRemoved :
        (out : Out)
        → IsPlace cmp (rest_items r) key (true, i)
        → IsPopped h (nitems (child_at c r i)) (contents (child_at c r i)) out
        → IsRemoved
            (suc h)
            (length (rest_items r))
            (contents c ++ rest_contents r)
            key
            (replace_item c r i (get_or (rest_items r) i no_kv) out)
    unfolding replace_item after_child contents front rear
    replace_item-IsRemoved (some (deleted, n, spare, hint)) (lt, p) (x, f) =
        let (d, q) = set_child c r i n in
        let w = set_rest_item q i spare in
        let same =
          contents-set_item c r i n spare lt
          ∙ ap (λ zs. before c r i ++ zs)
              (sym (append_assoc (contents n) (spare ∷ []) (behind_item r i)))
          ∙ ap (λ ys. before c r i ++ (ys ++ behind_item r i)) f
          ∙ sym (append_assoc (before c r i) (contents (child_at c r i)) (behind_item r i))
          ∙ sym (remove-found cmp o key (branch c r) i s (lt, p)) in
        let size =
          ap length (rest_items-set q i spare)
          ∙ length-set (rest_items q) i spare
          ∙ ap length (rest_items-set_child c r i n) in
        let (y, g) =
          mended h c r w i n (remove cmp key (contents c ++ rest_contents r)) k (omega (arith, lt))
            one x size (λ b. set_rest_item-IsKidsBut h d q i i spare b) same in
        (y, (g, lookup-found cmp o key (branch c r) i s (lt, p)))
    replace_item-IsRemoved none p x = absurd x
    replace_item-IsRemoved (some (nomem, n, prev, hint)) p x = absurd x
    replace_item-IsRemoved (some (nochange, n, prev, hint)) p x = absurd x
    replace_item-IsRemoved (some (must_split, n, prev, hint)) p x = absurd x
    replace_item-IsRemoved (some (inserted, n, prev, hint)) p x = absurd x
    replace_item-IsRemoved (some (replaced, n, prev, hint)) p x = absurd x

  delete_in-IsRemoved :
      (o : IsOrder cmp) (h key : ℕ) (child : Act → Kv → Node → Out) (p : Bool × ℕ) (prev : Kv)
      (hint : List ℕ) (n : Node)
      → ((g : ℕ)
          → g < h
          → (spare : Kv) (m : Node) → IsBalanced g m
          → 1 ≤ nitems m
          → IsPopped g (nitems m) (contents m) (child popmax spare m))
      → ((g : ℕ)
          → g < h
          → (m : Node) → IsBalanced g m
          → 1 ≤ nitems m
          → IsSorted cmp (contents m)
          → IsRemoved g (nitems m) (contents m) key (child delkey prev m))
      → IsBalanced h n
      → 1 ≤ nitems n
      → IsSorted cmp (contents n)
      → IsPlace cmp (items n) key p
      → IsRemoved h (nitems n) (contents n) key (delete_in child delkey p prev hint n)
  unfolding delete_in contents front rear
  delete_in-IsRemoved o (suc h) key child p prev hint (leaf xs) ih ih' b one s q = absurd b
  delete_in-IsRemoved o zero key child p prev hint (branch c r) ih ih' b one s q = absurd b
  delete_in-IsRemoved o zero key child (true, i) prev hint (leaf xs) ih ih' b one s q = (
    record { balanced = tt; size = inr (length-remove_at xs i q.0) },
    (
      ap (λ k. take i xs ++ drop k xs) {x = i + 1} {y = suc i} (omega arith)
          ∙ sym (remove-found cmp o key (leaf xs) i s q),
      lookup-found cmp o key (leaf xs) i s q,
    ),
  )
  delete_in-IsRemoved o zero key child (false, i) prev hint (leaf xs) ih ih' b one s q =
      let (a, z) = around_index cmp o key xs i q in
      (
        record { balanced = tt; size = inl refl },
        (
          refl,
          sym (ap (lookup cmp key) (take-drop xs i))
              ∙ lookup-gap cmp o key (take i xs) (drop i xs) a z,
          refl,
        ),
      )
  delete_in-IsRemoved o (suc h) key child (true, i) prev hint (branch c r) ih ih' b one s q =
      let k = to_kids h c r b in
      let (bm, lm, um) = child_at-IsChild h c r i k in
      replace_item-IsRemoved o key h c r i k one s (child popmax no_kv (child_at c r i)) q
        (ih h (omega arith) no_kv (child_at c r i) bm (omega (arith, lm)))
  delete_in-IsRemoved o (suc h) key child (false, i) prev hint (branch c r) ih ih' b one s q =
      let k = to_kids h c r b in
      let (bm, lm, um) = child_at-IsChild h c r i k in
      from_child-IsRemoved o key h c r i k one s (child delkey prev (child_at c r i)) q (
        ih' h (omega arith) (child_at c r i) bm (omega (arith, lm))
          (child_at-IsSorted cmp c r i q.0 s))

  -- With fuel for each level, ci_tree_node_delete with CI_TREE_DELKEY takes the pair with the key out of
  -- the node and says which it was, or says that there is none, and the pairs stay.
  pub node_delete-IsRemoved :
      (o : IsOrder cmp) (fuel h depth key : ℕ) (hint : List ℕ) (prev : Kv) (n : Node)
      → h < fuel
      → IsBalanced h n
      → 1 ≤ nitems n
      → IsSorted cmp (contents n)
      → IsRemoved h (nitems n) (contents n) key (node_delete cmp fuel depth key hint delkey prev n)
  unfolding node_delete pick noted_hint
  node_delete-IsRemoved o zero h depth key hint prev n lt b one s = absurd (omega arith)
  node_delete-IsRemoved o (suc fuel) h depth key hint prev n lt b one s =
      let x = bsearch_hint cmp hint (items n) key depth in
      delete_in-IsRemoved o h key (node_delete cmp fuel (depth + 1) key x.1) x.0 prev x.1 n
        (λ g less spare m bm om.
          node_delete-IsPopped cmp fuel g (depth + 1) key x.1 spare m (omega (arith, lt, less)) bm
            om)
        (λ g less m bm om sm.
          node_delete-IsRemoved o fuel g (depth + 1) key x.1 prev m (omega (arith, lt, less)) bm om
            sm)
        b one s (bsearch_hint-IsPlace cmp o (items n) (items-IsSorted cmp o n s) key hint depth)
