-- ===== src/Tree/Set/Inserts.antt =====
-- ci_tree_node_set puts the pair into the sorted list that the node stands for, and keeps the shape.
use Prim.Native.Nat.{Ordering}
use blueberry.Prelude.{
  ℕ, zero, suc, ◌+◌, ◌*◌, ◌≤◌, ◌<◌, ◌≡◌, refl, sym, ap, ◌∙◌, subst, Bool, true, false, none, some,
  List, ◌++◌, ◌==◌, if_elim, length, take, drop, All, arith,
}
use blueberry.Tree.Order.{Kv, IsOrder, IsSorted, lookup, insert, Above, Below}
use blueberry.Tree.Search.{bsearch_hint}
use blueberry.Tree.Search.Places.{IsPlace, bsearch_hint-IsPlace}
use blueberry.Tree.Search.Located.{
  lookup-gap, insert-gap, lookup-around, insert-around, around_child, around_index,
  child_at-IsSorted, items-IsSorted, lookup-found, insert-found,
}
use blueberry.Tree.Node.{
  Node, Rest, leaf, branch, rest_items, items, nitems, parent, child_at, set_child, put_split,
  split, max_items,
}
use blueberry.Tree.Node.Contents.{
  contents, rest_contents, before, behind, contents-child_at, child_at-set_child,
  contents-set_child, contents-put_split, split_lem,
}
use blueberry.Tree.Node.Parts.{take-drop, set_item-IsBalanced, nitems-set_item, length-insert_at}
use blueberry.Tree.Node.Balanced.{
  IsBalanced, IsKids, to_kids, from_kids, child_at-IsChild, set_child-IsKids, rest_items-set_child,
  put_split-IsKids, split-IsBalanced,
}
use blueberry.Tree.Set.{
  Mut, nochange, nomem, must_split, inserted, replaced, deleted, Env, Out, split_child, after_child,
  back_in_parent, set_in, node_set,
}

module _ (cmp : ℕ → ℕ → Ordering) (alloc : ℕ → Bool) where
  -- an allocation fails
  abbrev pub Fails : Type 0
  Fails = (k : ℕ) × (alloc k ≡ false)

  -- what each result says of the pairs `new`, and of how full the node is
  abbrev pub SetTo : Mut → Node → List Kv → Kv → Type 0
  SetTo inserted n old item = (contents n ≡ insert cmp item old) × (lookup cmp item.key old ≡ none)
  SetTo replaced n old item =
      (contents n ≡ insert cmp item old) × ((x : Kv) × (lookup cmp item.key old ≡ some x))
  SetTo nomem n old item = (contents n ≡ old) × Fails
  SetTo must_split n old item = (contents n ≡ old) × (nitems n ≡ max_items)
  SetTo nochange n old item = ⊥
  SetTo deleted n old item = ⊥

  pub record Sets (h lo : ℕ) (old : List Kv) (item : Kv) (m : Mut) (n : Node) : Type 0 where
    pub balanced : IsBalanced h n
    pub larger : lo ≤ nitems n
    pub small : nitems n ≤ max_items
    pub to : SetTo m n old item

  abbrev pub IsAdded : ℕ → ℕ → List Kv → Kv → Out → Type 0
  IsAdded h lo old item none = ⊥
  IsAdded h lo old item (some (m, n, env)) = Sets h lo old item m n

  IsAdded-weaken :
      (h lo lo' : ℕ) (old : List Kv) (item : Kv) (out : Out)
      → lo' ≤ lo
      → IsAdded h lo old item out
      → IsAdded h lo' old item out
  IsAdded-weaken h lo lo' old item none le x = x
  IsAdded-weaken h lo lo' old item (some (m, n, env)) le x = record {
    balanced = x.balanced;
    larger = omega (arith, x.larger, le);
    small = x.small;
    to = x.to;
  }

  module _ (item : Kv) (again : Env → Node → Out) where
    -- what is known of the second call for the same node
    abbrev Again : ℕ → ℕ → List Kv → Type 0
    Again h size old =
        (env : Env) (m : Node)
        → IsBalanced h m
        → contents m ≡ old
        → nitems m ≡ size + 1
        → nitems m ≤ max_items
        → IsAdded h size old item (again env m)

    split_child-IsAdded :
        (h : ℕ) (c : Node) (r : Rest) (i : ℕ) (env : Env) (old : List Kv) (size : ℕ)
        → Again (suc h) size old
        → IsKids h (c, r)
        → i ≤ length (rest_items r)
        → contents c ++ rest_contents r ≡ old
        → length (rest_items r) ≡ size
        → size ≤ max_items
        → nitems (child_at c r i) ≡ max_items
        → IsAdded (suc h) size old item (split_child alloc again c r i env)
    unfolding split_child contents
    split_child-IsAdded h c r i env old size ih k le e l u full =
        let child = child_at c r i in
        let (left, median, right) = split child in
        let (halves, l32, r31) = split_lem child (omega (arith, full)) in
        let (bl, br) =
          split-IsBalanced h child (omega (arith, full)) (child_at-IsChild h c r i k).0 in
        let (k', one) =
          put_split-IsKids h c r i left median right le k
            (bl, omega (arith, l32), omega (arith, l32))
            (br, omega (arith, r31, full), omega (arith, r31, full)) in
        if_elim {A = Out} (IsAdded (suc h) size old item) (length (rest_items r) == max_items)
          (λ t. record {
            balanced = from_kids h (c, r) k;
            larger = omega (arith, l);
            small = omega (arith, l, u);
            to = (e, ground (arith, t));
          })
          (λ t.
            if_elim {A = Out} (IsAdded (suc h) size old item) (alloc env.used)
              (λ a.
                ih (record { hint = env.hint; used = env.used + 1 })
                  (parent (put_split c r i left median right))
                  (from_kids h (put_split c r i left median right) k')
                  (contents-put_split c r i left median right le
                    ∙ ap (λ zs. before c r i ++ (zs ++ behind r i)) (sym halves)
                    ∙ sym (contents-child_at c r i le)
                    ∙ e)
                  (omega (arith, one, l)) (ground (arith, t, one, l, u)))
              (λ a. record {
                balanced = from_kids h (c, r) k;
                larger = omega (arith, l);
                small = omega (arith, l, u);
                to = (e, (env.used, a));
              }))

    back_in_parent-IsAdded :
        (o : IsOrder cmp) (h : ℕ) (c : Node) (r : Rest) (i : ℕ) (out : Out)
        → Again (suc h) (length (rest_items r)) (contents c ++ rest_contents r)
        → IsKids h (c, r)
        → length (rest_items r) ≤ max_items
        → IsSorted cmp (contents c ++ rest_contents r)
        → IsPlace cmp (rest_items r) item.key (false, i)
        → IsAdded h (nitems (child_at c r i)) (contents (child_at c r i)) item out
        → IsAdded
            (suc h)
            (length (rest_items r))
            (contents c ++ rest_contents r)
            item
            (back_in_parent alloc again c r i out)
    unfolding back_in_parent after_child contents
    back_in_parent-IsAdded o h c r i none ih k u s p x = x
    back_in_parent-IsAdded o h c r i (some (m, n, env)) ih k u s p x = by_result m x
      where
        d : Node
        d = (set_child c r i n).0

        q : Rest
        q = (set_child c r i n).1

        child : Node
        child = child_at c r i

        same_items : length (rest_items q) ≡ length (rest_items r)
        same_items = ap length (rest_items-set_child c r i n)

        old : List Kv
        old = contents c ++ rest_contents r

        sides : All (Above cmp item.key) (before c r i) × All (Below cmp item.key) (behind r i)
        sides = around_child cmp o item.key c r i s p

        found_here : lookup cmp item.key old ≡ lookup cmp item.key (contents child)
        found_here =
            ap (lookup cmp item.key) (contents-child_at c r i p.0)
            ∙ lookup-around cmp o item.key (before c r i) (contents child) (behind r i) sides.0
                sides.1

        kept_here : contents n ≡ contents child → contents (branch d q) ≡ old
        kept_here e =
            contents-set_child c r i n p.0
            ∙ ap (λ z. before c r i ++ (z ++ behind r i)) e
            ∙ sym (contents-child_at c r i p.0)

        put_here :
            contents n ≡ insert cmp item (contents child)
            → contents (branch d q) ≡ insert cmp item old
        put_here e =
            contents-set_child c r i n p.0
            ∙ ap (λ z. before c r i ++ (z ++ behind r i)) e
            ∙ sym (
                insert-around cmp o item (before c r i) (contents child) (behind r i) sides.0
                  sides.1)
            ∙ ap (insert cmp item) (sym (contents-child_at c r i p.0))

        kids : (w : Mut) → Sets h (nitems child) (contents child) item w n → IsKids h (d, q)
        kids w y =
            set_child-IsKids h c r i n k
              (y.balanced, omega (arith, y.larger, (child_at-IsChild h c r i k).1), y.small)

        build :
            (w : Mut)
            → Sets h (nitems child) (contents child) item w n
            → SetTo w (branch d q) old item
            → Sets (suc h) (length (rest_items r)) old item w (branch d q)
        build w y to = record {
          balanced = from_kids h (d, q) (kids w y);
          larger = omega (arith, same_items);
          small = omega (arith, same_items, u);
          to = to;
        }

        by_result :
            (w : Mut)
            → Sets h (nitems child) (contents child) item w n
            → IsAdded (suc h) (length (rest_items r)) old item (after_child alloc again w d q i env)
        by_result inserted y = build inserted y (put_here y.to.0, found_here ∙ y.to.1)
        by_result replaced y =
            let (e, (x, f)) = y.to in build replaced y (put_here e, (x, found_here ∙ f))
        by_result nomem y = build nomem y (kept_here y.to.0, y.to.1)
        by_result must_split y =
            split_child-IsAdded h d q i env old (length (rest_items r)) ih (kids must_split y)
              (omega (arith, same_items, p.0)) (kept_here y.to.0) same_items u
              (ap nitems (child_at-set_child c r i n p.0) ∙ y.to.1)
        by_result nochange y = absurd y.to
        by_result deleted y = absurd y.to

  set_in-IsAdded :
      (o : IsOrder cmp) (item : Kv) (h : ℕ) (child again : Env → Node → Out) (s : Bool × ℕ)
      (env : Env) (n : Node)
      → ((g : ℕ)
          → g < h
          → (e : Env) (m : Node) → IsBalanced g m
          → nitems m ≤ max_items
          → IsSorted cmp (contents m)
          → IsAdded g (nitems m) (contents m) item (child e m))
      → Again item again h (nitems n) (contents n)
      → IsBalanced h n
      → nitems n ≤ max_items
      → IsSorted cmp (contents n)
      → IsPlace cmp (items n) item.key s
      → IsAdded h (nitems n) (contents n) item (set_in alloc child again s env n item)
  unfolding set_in contents
  set_in-IsAdded o item h child again (true, i) env n ih ih' b u s p = record {
    balanced = set_item-IsBalanced h n i item b;
    larger = omega (arith, nitems-set_item n i item);
    small = omega (arith, nitems-set_item n i item, u);
    to = (insert-found cmp o item n i s p, (_, lookup-found cmp o item.key n i s p));
  }
  set_in-IsAdded o item (suc h) child again (false, i) env (leaf xs) ih ih' b u s p = absurd b
  set_in-IsAdded o item zero child again (false, i) env (leaf xs) ih ih' b u s p =
      let (a, z) = around_index cmp o item.key xs i p in
      if_elim {A = Out} (IsAdded zero (length xs) xs item) (length xs == max_items)
        (λ t. record {
          balanced = tt;
          larger = omega arith;
          small = u;
          to = (refl, ground (arith, t));
        })
        (λ t. record {
          balanced = tt;
          larger = omega (arith, length-insert_at xs i item);
          small = ground (arith, t, u, length-insert_at xs i item);
          to = (
            sym (insert-gap cmp o item (take i xs) (drop i xs) a z)
                ∙ ap (insert cmp item) (take-drop xs i),
            sym (ap (lookup cmp item.key) (take-drop xs i))
                ∙ lookup-gap cmp o item.key (take i xs) (drop i xs) a z,
          );
        })
  set_in-IsAdded o item zero child again (false, i) env (branch c r) ih ih' b u s p = absurd b
  set_in-IsAdded o item (suc h) child again (false, i) env (branch c r) ih ih' b u s p =
      let k = to_kids h c r b in
      let m = child_at c r i in
      let (bal, low, high) = child_at-IsChild h c r i k in
      back_in_parent-IsAdded item again o h c r i (child env m) ih' k u s p
        (ih h (omega arith) env m bal high (child_at-IsSorted cmp c r i p.0 s))

  -- With enough fuel, and whatever allocations fail, ci_tree_node_set ends. It says whether it put the
  -- pair in for a new key or for an old one; otherwise the pairs stay, because memory ran out or the
  -- node is full.
  pub node_set-IsAdded :
      (o : IsOrder cmp) (item : Kv) (fuel h depth : ℕ) (env : Env) (n : Node)
      → h * 66 + 65 ≤ fuel + nitems n
      → IsBalanced h n
      → nitems n ≤ max_items
      → IsSorted cmp (contents n)
      → IsAdded h (nitems n) (contents n) item (node_set alloc cmp fuel depth item env n)
  unfolding node_set
  node_set-IsAdded o item zero h depth env n le b u s = absurd (omega (arith, le, u))
  node_set-IsAdded o item (suc fuel) h depth env n le b u s =
      let x = bsearch_hint cmp env.hint (items n) item.key depth in
      set_in-IsAdded o item h (node_set alloc cmp fuel (depth + 1) item)
        (node_set alloc cmp fuel depth item) x.0 (record { hint = x.1; used = env.used }) n
        (λ g lt e m bm um sm.
          node_set-IsAdded o item fuel g (depth + 1) e m (omega (arith, lt, le, u)) bm um sm)
        (λ e m bm same size um.
          IsAdded-weaken h (nitems m) (nitems n) (contents n) item
            (node_set alloc cmp fuel depth item e m) (omega (arith, size))
            (subst (λ old. IsAdded h (nitems m) old item (node_set alloc cmp fuel depth item e m))
              same
              (node_set-IsAdded o item fuel h depth e m (omega (arith, size, le)) bm um
                (subst (IsSorted cmp) (sym same) s))))
        b u s
        (bsearch_hint-IsPlace cmp o (items n) (items-IsSorted cmp o n s) item.key env.hint depth)
