-- ===== src/Tree/Delete/Pops.antt =====
-- ci_tree_node_delete with CI_TREE_POPMAX, and the mending of a branch one of whose children shrank.
use Prim.Native.Nat.{Ordering}
use blueberry.Prelude.{
  ℕ, zero, suc, ◌+◌, ◌-◌, ◌≤◌, ◌<◌, ◌≡◌, refl, sym, ap, ◌∙◌, ◌⊎◌, inl, inr, none, some, List, [],
  ◌∷◌, ◌++◌, append_assoc, append-nil, length, get_or, take, drop, length-append, length-take,
  length-drop, arith,
}
use blueberry.Tree.Order.{Kv}
use blueberry.Tree.Search.{no_kv}
use blueberry.Tree.Node.{
  Node, Rest, leaf, branch, rest_items, nitems, remove_at, parent, child_at, set_child, mend,
}
use blueberry.Tree.Node.Contents.{
  contents, rest_contents, before, contents-child_at, contents-set_child, take-get_or-drop,
}
use blueberry.Tree.Node.Balanced.{
  IsBalanced, IsKids, to_kids, from_kids, child_at-IsChild, rest_items-set_child,
}
use blueberry.Tree.Node.Parts.{drop_all, nothing_behind}
use blueberry.Tree.Node.Rebalanced.{IsKidsBut, mend-Mends, set_child-IsKidsBut}
use blueberry.Tree.Set.{nochange, nomem, must_split, inserted, replaced, deleted}
use blueberry.Tree.Delete.{popmax, Out, pick, after_child, pop_child, delete_in, node_delete}

-- The shape is kept, and at most one item is missing.
pub record Shrinks (h old_size : ℕ) (n : Node) : Type 0 where
  pub balanced : IsBalanced h n
  pub size : (nitems n ≡ old_size) ⊎ (nitems n + 1 ≡ old_size)

abbrev pub IsPopped : ℕ → ℕ → List Kv → Out → Type 0
IsPopped h size old (some (deleted, n, prev, hint)) =
    Shrinks h size n × (contents n ++ prev ∷ [] ≡ old)
IsPopped h size old out = ⊥

-- the branch mended once the child at the index has shrunk and, maybe, an item was written
pub mended :
    (h : ℕ) (c : Node) (r q : Rest) (i : ℕ) (n : Node) (old : List Kv)
    → IsKids h (c, r)
    → i ≤ length (rest_items r)
    → 1 ≤ length (rest_items r)
    → Shrinks h (nitems (child_at c r i)) n
    → length (rest_items q) ≡ length (rest_items r)
    → (IsKidsBut h (set_child c r i n).0 (set_child c r i n).1 i
        → IsKidsBut h (set_child c r i n).0 q i)
    → contents (set_child c r i n).0 ++ rest_contents q ≡ old
    → Shrinks (suc h) (length (rest_items r)) (parent (mend (set_child c r i n).0 q i))
      × (contents (parent (mend (set_child c r i n).0 q i)) ≡ old)
unfolding contents
mended h c r q i n old k le one x same but e =
    let d = (set_child c r i n).0 in
    let (b, l, u) = child_at-IsChild h c r i k in
    let loose : IsKidsBut h d (set_child c r i n).1 i =
      set_child-IsKidsBut h c r i n le k
        (x.balanced, ground (arith, x.size, l), ground (arith, x.size, u)) in
    let m = mend-Mends h d q i (omega (arith, same, one)) (but loose) in
    (
      record {
        balanced = from_kids h (mend d q i) m.kids;
        size = elim m.size [
          | inl f ↦ inl (omega (arith, f, same))
          | inr f ↦ inr (omega (arith, f, same))
        ];
      },
      m.same ∙ e,
    )

pub length-remove_at :
    (xs : List Kv) (i : ℕ) → i < length xs → length (remove_at xs i) + 1 ≡ length xs
length-remove_at xs i h =
    let l = length-append (take i xs) (drop (i + 1) xs) in
    let m = length-take i xs in let e = length-drop (i + 1) xs in omega (arith, l, m, e)

pop_child-IsPopped :
    (h : ℕ) (c : Node) (r : Rest) (i : ℕ) (out : Out)
    → IsKids h (c, r)
    → i ≡ length (rest_items r)
    → 1 ≤ length (rest_items r)
    → IsPopped h (nitems (child_at c r i)) (contents (child_at c r i)) out
    → IsPopped (suc h) (length (rest_items r)) (contents c ++ rest_contents r) (pop_child c r i out)
unfolding pop_child after_child contents
pop_child-IsPopped h c r i (some (deleted, n, prev, hint)) k e one (x, f) =
    let d = (set_child c r i n).0 in
    let q = (set_child c r i n).1 in
    let child = child_at c r i in
    let none_behind = nothing_behind r i (omega (arith, e)) in
    let (y, same) =
      mended h c r q i n (contents d ++ rest_contents q) k (omega (arith, e)) one x
        (ap length (rest_items-set_child c r i n)) (λ b. b) refl in
    (
      y,
      ap (λ zs. zs ++ prev ∷ [])
            (same
              ∙ contents-set_child c r i n (omega (arith, e))
              ∙ ap (λ zs. before c r i ++ (contents n ++ zs)) none_behind
              ∙ ap (λ zs. before c r i ++ zs) (append-nil (contents n)))
          ∙ append_assoc (before c r i) (contents n) (prev ∷ [])
          ∙ ap (λ zs. before c r i ++ zs) (f ∙ sym (append-nil (contents child)))
          ∙ ap (λ zs. before c r i ++ (contents child ++ zs)) (sym none_behind)
          ∙ sym (contents-child_at c r i (omega (arith, e))),
    )
pop_child-IsPopped h c r i none k e one x = absurd x
pop_child-IsPopped h c r i (some (nomem, n, prev, hint)) k e one x = absurd x
pop_child-IsPopped h c r i (some (nochange, n, prev, hint)) k e one x = absurd x
pop_child-IsPopped h c r i (some (must_split, n, prev, hint)) k e one x = absurd x
pop_child-IsPopped h c r i (some (inserted, n, prev, hint)) k e one x = absurd x
pop_child-IsPopped h c r i (some (replaced, n, prev, hint)) k e one x = absurd x

module _ (cmp : ℕ → ℕ → Ordering) where
  -- With fuel for each level, ci_tree_node_delete with CI_TREE_POPMAX takes out the greatest pair of a
  -- node that has items, and says which it was.
  pub node_delete-IsPopped :
      (fuel h depth key : ℕ) (hint : List ℕ) (prev : Kv) (n : Node)
      → h < fuel
      → IsBalanced h n
      → 1 ≤ nitems n
      → IsPopped h (nitems n) (contents n) (node_delete cmp fuel depth key hint popmax prev n)
  unfolding node_delete delete_in pick contents
  node_delete-IsPopped zero h depth key hint prev n lt b one = absurd (omega arith)
  node_delete-IsPopped (suc fuel) (suc h) depth key hint prev (leaf xs) lt b one = absurd b
  node_delete-IsPopped (suc fuel) zero depth key hint prev (branch c r) lt b one = absurd b
  node_delete-IsPopped (suc fuel) zero depth key hint prev (leaf xs) lt b one =
      let i = length xs - 1 in
      let nothing = drop_all xs (i + 1) (omega arith) in
      (
        record { balanced = tt; size = inr (length-remove_at xs i (omega arith)) },
        ap (λ zs. (take i xs ++ zs) ++ get_or xs i no_kv ∷ []) nothing
            ∙ ap (λ zs. zs ++ get_or xs i no_kv ∷ []) (append-nil (take i xs))
            ∙ ap (λ zs. take i xs ++ get_or xs i no_kv ∷ zs)
                (sym (drop_all xs (suc i) (omega arith)))
            ∙ sym (take-get_or-drop xs i (omega arith)),
      )
  node_delete-IsPopped (suc fuel) (suc h) depth key hint prev (branch c r) lt b one =
      let k = to_kids h c r b in
      let i = length (rest_items r) - 1 + 1 in
      let (bm, lm, um) = child_at-IsChild h c r i k in
      pop_child-IsPopped h c r i _ k (omega arith) one (
        node_delete-IsPopped fuel h (depth + 1) key _ prev (child_at c r i) (omega (arith, lt)) bm
          (omega (arith, lm)))
