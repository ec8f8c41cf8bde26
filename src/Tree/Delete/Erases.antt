-- ===== src/Tree/Delete/Erases.antt =====
-- ci_tree_delete on the whole tree: it ends, keeps what holds between two calls, and takes the pair out.
use Prim.Native.Nat.{Ordering}
use blueberry.Prelude.{
  ℕ, zero, suc, ◌+◌, ◌%◌, ◌^◌, ◌≤◌, ◌≡◌, refl, sym, ap, ◌∙◌, subst, true, false, Option, none, some,
  List, [], ◌∷◌, append-nil, ◌==◌, if_elim, length, arith,
}
use blueberry.Tree.Order.{Kv, IsOrder, IsSorted, lookup, remove, remove-IsSorted}
use blueberry.Tree.Search.{no_kv}
use blueberry.Tree.Node.{Node, leaf, branch, end, more, rest_items, nitems, max_items}
use blueberry.Tree.Node.Contents.{contents}
use blueberry.Tree.Node.Balanced.{IsBalanced}
use blueberry.Tree.State.{Tree, IsTree, IsRoot, pairs, pairs_of, levels, levels-IsBalanced}
use blueberry.Tree.Set.{nochange, nomem, must_split, inserted, replaced, deleted}
use blueberry.Tree.Delete.{Out, Result, lower, delete_root, delete_at, delete}
use blueberry.Tree.Delete.Removes.{IsRemoved, node_delete-IsRemoved}

module _ (cmp : ℕ → ℕ → Ordering) where
  pub length-remove :
      (k : ℕ) (xs : List Kv) (x : Kv)
      → lookup cmp k xs ≡ some x
      → length (remove cmp k xs) + 1 ≡ length xs
  unfolding lookup remove
  length-remove k [] y h = ground (arith, h)
  length-remove k (x ∷ xs) y h = let ih = length-remove k xs y in ground (arith, h, ih)

  -- A call returns 1 and the pair of the key is taken out, or 0, and there was none.
  abbrev pub IsErased : List Kv → ℕ → Result → Type 0
  IsErased old key none = ⊥
  IsErased old key (some (true, t)) =
      IsTree cmp t × (pairs t ≡ remove cmp key old) × ((x : Kv) × (lookup cmp key old ≡ some x))
  IsErased old key (some (false, t)) = IsTree cmp t × (pairs t ≡ old) × (lookup cmp key old ≡ none)

  -- A root without items gives way to its only child, or to none.
  lower-IsRoot :
      (h height : ℕ) (n : Node)
      → IsBalanced h n
      → nitems n ≤ max_items
      → IsSorted cmp (contents n)
      → height ≡ (h + 1) % 2 ^ 16
      → IsRoot cmp (lower n height).0 (lower n height).1
        × (pairs_of (lower n height).0 ≡ contents n)
  unfolding lower contents
  lower-IsRoot (suc h) height (leaf xs) b u s e = absurd b
  lower-IsRoot zero height (branch c r) b u s e = absurd b
  lower-IsRoot zero height (leaf []) b u s e = (omega (arith, e), refl)
  lower-IsRoot zero height (leaf (x ∷ xs)) b u s e =
      if_elim {A = Option Node × ℕ} (λ z. IsRoot cmp z.0 z.1 × (pairs_of z.0 ≡ x ∷ xs))
        (suc (length xs) == 0) (λ t. absurd (ground (arith, t)))
        (λ _. ((0, b, omega arith, u, s, e), refl))
  lower-IsRoot (suc h) height (branch c end) (b, l, u', rs) u s e = (
    (
      h,
      b,
      omega (arith, l),
      u',
      subst (IsSorted cmp) (append-nil (contents c)) s,
      omega (arith, e),
    ),
    sym (append-nil (contents c)),
  )
  lower-IsRoot (suc h) height (branch c (more kv d r)) b u s e =
      if_elim {A = Option Node × ℕ}
        (λ z. IsRoot cmp z.0 z.1 × (pairs_of z.0 ≡ contents (branch c (more kv d r))))
        (suc (length (rest_items r)) == 0) (λ t. absurd (ground (arith, t)))
        (λ _. ((suc h, b, omega arith, u, s, e), refl))

  delete_root-IsErased :
      (h size count height key : ℕ) (old : List Kv) (out : Out)
      → IsSorted cmp old
      → 1 ≤ size
      → size ≤ max_items
      → height ≡ (h + 1) % 2 ^ 16
      → count ≡ length old % 2 ^ 32
      → IsRemoved cmp h size old key out
      → IsErased old key (delete_root count height out)
  unfolding delete_root
  delete_root-IsErased h size count height key old none s l u e f x = x
  delete_root-IsErased h size count height key old (some (deleted, n, prev, hint)) s l u e f
        (x, (same, here)) =
      let (shape, kept) =
        lower-IsRoot h height n x.balanced (ground (arith, x.size, u))
          (subst (IsSorted cmp) (sym same) (remove-IsSorted cmp key old s)) e in
      (
        record {
          shape = shape;
          counted = omega (arith, f, ap length (kept ∙ same), length-remove key old prev here);
        },
        kept ∙ same,
        (prev, here),
      )
  delete_root-IsErased h size count height key old (some (nochange, n, prev, hint)) s l u e f
        (x, (same, here, full)) =
      (
        record {
          shape = (
            h,
            x.balanced,
            omega (arith, full, l),
            omega (arith, full, u),
            subst (IsSorted cmp) (sym same) s,
            e,
          );
          counted = f ∙ ap (λ xs. length xs % 2 ^ 32) (sym same);
        },
        same,
        here,
      )
  delete_root-IsErased h size count height key old (some (nomem, n, prev, hint)) s l u e f (x, to) =
      absurd to
  delete_root-IsErased h size count height key old (some (must_split, n, prev, hint)) s l u e f
        (x, to) =
      absurd to
  delete_root-IsErased h size count height key old (some (inserted, n, prev, hint)) s l u e f
        (x, to) =
      absurd to
  delete_root-IsErased h size count height key old (some (replaced, n, prev, hint)) s l u e f
        (x, to) =
      absurd to

  delete_at-IsErased :
      (o : IsOrder cmp) (key count height : ℕ) (hint : List ℕ) (r : Option Node)
      → IsRoot cmp r height
      → count ≡ length (pairs_of r) % 2 ^ 32
      → IsErased (pairs_of r) key (delete_at cmp key count height hint r)
  unfolding delete_at lookup
  delete_at-IsErased o key count height hint none e f =
      (record { shape = e; counted = f }, refl, refl)
  delete_at-IsErased o key count height hint (some n) (h, b, l, u, s, e) f =
      delete_root-IsErased h (nitems n) count height key (contents n) _ s l u e f (
        node_delete-IsRemoved cmp o (levels n + 1) h 0 key hint no_kv n
          (omega (arith, levels-IsBalanced h n b)) b l s)

  -- For a total order of the keys, ci_tree_delete ends on every well-formed tree. It returns 1, the
  -- key was there, and its pair is taken out of the sorted pairs; or it returns 0, the key was not
  -- there, and the pairs are the ones before. Either way what holds between two calls holds again:
  -- equal depths, node sizes, order, count and height.
  pub delete-IsErased :
      (o : IsOrder cmp) (t : Tree) (key : ℕ)
      → IsTree cmp t
      → IsErased (pairs t) key (delete cmp t key)
  delete-IsErased o t key x =
      delete_at-IsErased o key t.count t.height t.hint t.root x.shape x.counted
