-- ===== src/Tree/Find.antt =====
-- ci_tree.c: ci_tree_find_kv and ci_tree_get. The loop goes down one level each round; its fuel bounds
-- the rounds, and `none` at the outside is that it ran out.
use Prim.Native.Nat.{Ordering}
use blueberry.Prelude.{
  ℕ, zero, suc, ◌+◌, ◌<◌, ◌≡◌, refl, sym, ap, ◌∙◌, Bool, true, false, Option, none, some, List,
  get_or, take, drop, subst, arith,
}
use blueberry.Tree.Order.{Kv, IsOrder, IsSorted, lookup}
use blueberry.Tree.Search.{no_kv, bsearch_hint}
use blueberry.Tree.Search.Places.{IsPlace, bsearch_hint-IsPlace}
use blueberry.Tree.Search.Located.{
  lookup-found, items-IsSorted, lookup-gap, lookup-around, around_child, around_index,
  child_at-IsSorted,
}
use blueberry.Tree.Node.{Node, leaf, branch, items, child_at}
use blueberry.Tree.Node.Contents.{contents, before, behind, contents-child_at}
use blueberry.Tree.Node.Parts.{take-drop}
use blueberry.Tree.State.{Tree, IsTree, IsRoot, pairs, pairs_of, levels, levels-IsBalanced}
use blueberry.Tree.Node.Balanced.{IsBalanced, to_kids, child_at-IsChild}

-- what was found, and the hint
abbrev pub Found : Type 0
Found = Option (Option Kv × List ℕ)

-- What the loop does when the search in the node is done; `next` goes on in a child.
pub find_in : (Node → Found) → Bool × ℕ → List ℕ → Node → Found
find_in next (true, i) hint n = some (some (get_or (items n) i no_kv), hint)
find_in next (false, i) hint (leaf xs) = some (none, hint)
find_in next (false, i) hint (branch c r) = next (child_at c r i)

module _ (cmp : ℕ → ℕ → Ordering) where
  pub find_node : ℕ → ℕ → List ℕ → ℕ → Node → Found
  find_node zero depth hint key n = none
  find_node (suc fuel) depth hint key n =
      let (s, hint') = bsearch_hint cmp hint (items n) key depth in
      find_in (find_node fuel (depth + 1) hint' key) s hint' n

  -- the search ended, and found `o`
  abbrev pub IsFound : Option Kv → Found → Type 0
  IsFound o none = ⊥
  IsFound o (some (p, hint)) = p ≡ o

  find_in-IsFound :
      (o : IsOrder cmp) (h : ℕ) (next : Node → Found) (key : ℕ) (s : Bool × ℕ) (hint : List ℕ)
      (n : Node)
      → ((g : ℕ)
          → g < h
          → (m : Node) → IsBalanced g m
          → IsSorted cmp (contents m)
          → IsFound (lookup cmp key (contents m)) (next m))
      → IsBalanced h n
      → IsSorted cmp (contents n)
      → IsPlace cmp (items n) key s
      → IsFound (lookup cmp key (contents n)) (find_in next s hint n)
  unfolding find_in contents
  find_in-IsFound o h next key (true, i) hint n ih b s p = sym (lookup-found cmp o key n i s p)
  find_in-IsFound o h next key (false, i) hint (leaf xs) ih b s p =
      let (a, z) = around_index cmp o key xs i p in
      sym (lookup-gap cmp o key (take i xs) (drop i xs) a z) ∙ ap (lookup cmp key) (take-drop xs i)
  find_in-IsFound o zero next key (false, i) hint (branch c r) ih b s p = absurd b
  find_in-IsFound o (suc h) next key (false, i) hint (branch c r) ih b s p =
      let (a, z) = around_child cmp o key c r i s p in
      let m = child_at c r i in
      subst (λ x. IsFound x (next m))
        (sym (lookup-around cmp o key (before c r i) (contents m) (behind r i) a z)
          ∙ ap (lookup cmp key) (sym (contents-child_at c r i p.0)))
        (ih h (omega arith) m (child_at-IsChild h c r i (to_kids h c r b)).0
          (child_at-IsSorted cmp c r i p.0 s))

  -- With fuel for each level, ci_tree_find_kv ends, and for any hint it finds the pair that the sorted
  -- list of the node's pairs has for the key, or nothing.
  pub find_node-lookup :
      (o : IsOrder cmp) (fuel h depth : ℕ) (hint : List ℕ) (key : ℕ) (n : Node)
      → h < fuel
      → IsBalanced h n
      → IsSorted cmp (contents n)
      → IsFound (lookup cmp key (contents n)) (find_node fuel depth hint key n)
  unfolding find_node
  find_node-lookup o zero h depth hint key n lt b s = absurd (omega arith)
  find_node-lookup o (suc fuel) h depth hint key n lt b s =
      let x = bsearch_hint cmp hint (items n) key depth in
      find_in-IsFound o h (find_node fuel (depth + 1) x.1 key) key x.0 x.1 n
        (λ g less m. find_node-lookup o fuel g (depth + 1) x.1 key m (omega arith)) b s
        (bsearch_hint-IsPlace cmp o (items n) (items-IsSorted cmp o n s) key hint depth)

  -- ci_tree_find_kv
  pub find_at : List ℕ → ℕ → Option Node → Found
  find_at hint key none = some (none, hint)
  find_at hint key (some n) = find_node (levels n + 1) 0 hint key n

  abbrev pub find_kv : Tree → ℕ → Found
  find_kv t key = find_at t.hint key t.root

  -- ci_tree_get: the value, with `none` for NULL, and the tree with the hint as it is then
  pub got : Tree → Found → Option (Option ℕ × Tree)
  got t none = none
  got t (some (none, hint)) =
      some (none, record { root = t.root; count = t.count; height = t.height; hint = hint })
  got t (some (some kv, hint)) =
      some (some kv.val, record { root = t.root; count = t.count; height = t.height; hint = hint })

  abbrev pub get : Tree → ℕ → Option (Option ℕ × Tree)
  get t key = got t (find_kv t key)

  find_at-IsFound :
      (o : IsOrder cmp) (hint : List ℕ) (key height : ℕ) (r : Option Node)
      → IsRoot cmp r height
      → IsFound (lookup cmp key (pairs_of r)) (find_at hint key r)
  unfolding find_at lookup
  find_at-IsFound o hint key height none e = refl
  find_at-IsFound o hint key height (some n) (h, b, l, u, s, e) =
      find_node-lookup o (levels n + 1) h 0 hint key n (omega (arith, levels-IsBalanced h n b)) b s

  -- For a total order of the keys, ci_tree_find_kv ends on every well-formed tree, and finds what
  -- the sorted pairs of the tree have for the key, whatever the hint is.
  pub find_kv-IsFound :
      (o : IsOrder cmp) (t : Tree) (key : ℕ)
      → IsTree cmp t
      → IsFound (lookup cmp key (pairs t)) (find_kv t key)
  find_kv-IsFound o t key x = find_at-IsFound o t.hint key t.height t.root x.shape

  abbrev pub value : Option Kv → Option ℕ
  value none = none
  value (some kv) = some kv.val

  -- the value that was got, and a tree that is as before but for the hint
  abbrev pub IsGot : Option ℕ → Tree → Option (Option ℕ × Tree) → Type 0
  IsGot v t none = ⊥
  IsGot v t (some (w, t')) = (w ≡ v) × IsTree cmp t' × (pairs t' ≡ pairs t)

  got-IsGot :
      (t : Tree) (o : Option Kv) (found : Found)
      → IsTree cmp t
      → IsFound o found
      → IsGot (value o) t (got t found)
  unfolding got
  got-IsGot t o none x e = e
  got-IsGot t o (some (none, hint)) x e =
      (ap value e, record { shape = x.shape; counted = x.counted }, refl)
  got-IsGot t o (some (some kv, hint)) x e =
      (ap value e, record { shape = x.shape; counted = x.counted }, refl)

  -- For a total order of the keys, ci_tree_get on a well-formed tree gives the value that its
  -- sorted pairs have for the key, or none, and keeps the pairs and what holds between two calls,
  -- whatever the hint is before and after.
  pub get-IsGot :
      (o : IsOrder cmp) (t : Tree) (key : ℕ)
      → IsTree cmp t
      → IsGot (value (lookup cmp key (pairs t))) t (get t key)
  get-IsGot o t key x =
      got-IsGot t (lookup cmp key (pairs t)) (find_kv t key) x (find_kv-IsFound o t key x)
