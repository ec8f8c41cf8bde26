-- ===== src/Tree/Delete.antt =====
-- ci_tree.c: ci_tree_node_delete and ci_tree_delete. The fuel bounds the levels gone down, and `none`
-- is that it ran out.
pub mod Pops
pub mod Removes
pub mod Erases
use Prim.Native.Nat.{Ordering}
use blueberry.Prelude.{
  ℕ, zero, suc, ◌+◌, ◌-◌, ◌%◌, ◌^◌, Bool, true, false, Option, none, some, List, ◌==◌,
  if◌then◌else◌, length, get_or,
}
use blueberry.Tree.Order.{Kv}
use blueberry.Tree.Search.{no_kv, bsearch_hint}
use blueberry.Tree.Node.{
  Node, Rest, leaf, branch, rest_items, items, nitems, remove_at, parent, child_at, set_child,
  set_rest_item, mend,
}
use blueberry.Tree.Set.{Mut, nochange, nomem, must_split, inserted, replaced, deleted}
use blueberry.Tree.State.{Tree, levels}

-- `ci_tree_delact`
pub data Act : Type 0 where
  delkey : Act
  popmax : Act
  popfront : Act
  popback : Act

-- the result, the node as it is then, `*prev` and the hint
abbrev pub Out : Type 0
Out = Option (Mut × Node × Kv × List ℕ)

-- Found, and the index; `s` is what the search gives for `delkey`.
unfoldable pub pick : Act → Node → Bool × ℕ → Bool × ℕ
pick delkey n s = s
pick popmax n s = (true, nitems n - 1)
pick popfront (leaf xs) s = (true, 0)
pick popfront (branch c r) s = (false, 0)
pick popback (leaf xs) s = (true, length xs - 1)
pick popback (branch c r) s = (false, length (rest_items r))

-- what follows the deletion in the child `i`
pub after_child : Mut → Node → Rest → ℕ → Kv → List ℕ → Out
after_child deleted c r i prev hint = some (deleted, parent (mend c r i), prev, hint)
after_child result c r i prev hint = some (result, branch c r, prev, hint)

-- a deletion in a child, whose `*prev` is the one of the node
pub from_child : Node → Rest → ℕ → Out → Out
from_child c r i none = none
from_child c r i (some (result, n, prev, hint)) =
    let (d, q) = set_child c r i n in after_child result d q i prev hint

-- `popmax` on a branch: what the child says is not looked at, unless memory ran out
pub pop_child : Node → Rest → ℕ → Out → Out
pop_child c r i none = none
pop_child c r i (some (nomem, n, prev, hint)) =
    let (d, q) = set_child c r i n in some (nomem, branch d q, prev, hint)
pop_child c r i (some (result, n, prev, hint)) =
    let (d, q) = set_child c r i n in after_child deleted d q i prev hint

-- the key found in a branch: the item is `*prev`, and the greatest pair of the child takes its place
pub replace_item : Node → Rest → ℕ → Kv → Out → Out
replace_item c r i prev none = none
replace_item c r i prev (some (nomem, n, spare, hint)) =
    let (d, q) = set_child c r i n in some (nomem, branch d q, prev, hint)
replace_item c r i prev (some (result, n, spare, hint)) =
    let (d, q) = set_child c r i n in after_child deleted d (set_rest_item q i spare) i prev hint

-- ci_tree_node_delete behind the search; `child` goes on in a child
unfoldable pub delete_in : (Act → Kv → Node → Out) → Act → Bool × ℕ → Kv → List ℕ → Node → Out
delete_in child act (true, i) prev hint (leaf xs) =
    some (deleted, leaf (remove_at xs i), get_or xs i no_kv, hint)
delete_in child act (false, i) prev hint (leaf xs) = some (nochange, leaf xs, prev, hint)
delete_in child popmax (true, i) prev hint (branch c r) =
    pop_child c r (i + 1) (child popmax prev (child_at c r (i + 1)))
delete_in child act (true, i) prev hint (branch c r) =
    replace_item c r i (get_or (rest_items r) i no_kv) (child popmax no_kv (child_at c r i))
delete_in child act (false, i) prev hint (branch c r) =
    from_child c r i (child act prev (child_at c r i))

-- the hint as the search, which is only made for `delkey`, leaves it
unfoldable pub noted_hint : Act → List ℕ → List ℕ → List ℕ
noted_hint delkey old new = new
noted_hint act old new = old

-- the root when it has no items left, and the height
unfoldable pub lower : Node → ℕ → Option Node × ℕ
lower (leaf xs) height =
    if length xs == 0 then (none, (height + 2 ^ 16 - 1) % 2 ^ 16) else (some (leaf xs), height)
lower (branch c r) height =
    if length (rest_items r) == 0
    then (some c, (height + 2 ^ 16 - 1) % 2 ^ 16)
    else (some (branch c r), height)

-- what ci_tree_delete returns, and the tree
abbrev pub Result : Type 0
Result = Option (Bool × Tree)

-- what ci_tree_delete does with the result for the root
unfoldable pub delete_root : ℕ → ℕ → Out → Result
delete_root count height none = none
delete_root count height (some (nochange, n, prev, hint)) =
    some (false, record { root = some n; count = count; height = height; hint = hint })
delete_root count height (some (nomem, n, prev, hint)) =
    some (false, record { root = some n; count = count; height = height; hint = hint })
delete_root count height (some (result, n, prev, hint)) =
    let (root, height') = lower n height in
    some (
      true,
      record { root = root; count = (count + 2 ^ 32 - 1) % 2 ^ 32; height = height'; hint = hint },
    )

module _ (cmp : ℕ → ℕ → Ordering) where
  unfoldable pub node_delete : ℕ → ℕ → ℕ → List ℕ → Act → Kv → Node → Out
  node_delete zero depth key hint act prev n = none
  node_delete (suc fuel) depth key hint act prev n =
      let (s, new) = bsearch_hint cmp hint (items n) key depth in
      let hint' = noted_hint act hint new in
      delete_in (node_delete fuel (depth + 1) key hint') act (pick act n s) prev hint' n

  -- the body of ci_tree_delete, for the root of the tree
  unfoldable pub delete_at : ℕ → ℕ → ℕ → List ℕ → Option Node → Result
  delete_at key count height hint none =
      some (false, record { root = none; count = count; height = height; hint = hint })
  delete_at key count height hint (some n) =
      delete_root count height (node_delete (levels n + 1) 0 key hint delkey no_kv n)

  abbrev pub delete : Tree → ℕ → Result
  delete t key = delete_at key t.count t.height t.hint t.root
