-- ===== src/Tree/Node.antt =====
-- ci_tree.c: a node of the tree and what is done to one node. A branch is its first child and then
-- an item and a child in turn, so that it has one child more than items. Copy-on-write, which
-- CI_TREE_USE_COW would turn on, is not modelled: a node has one parent.
pub mod Contents
pub mod Parts
pub mod Balanced
pub mod Rotated
pub mod Rebalanced
use blueberry.Prelude.{
  ℕ, zero, suc, ◌+◌, ◌-◌, Bool, true, false, List, [], ◌∷◌, ◌++◌, ◌==◌, ltb, if◌then◌else◌, length,
  get_or, set, take, drop,
}
use blueberry.Tree.Order.{Kv}
use blueberry.Tree.Search.{no_kv}

abbrev pub max_items : ℕ
max_items = 64

abbrev pub min_items : ℕ
min_items = 32

-- `ci_tree_node`; `Rest` is the items of a branch, each with the child behind it
mutual
  pub data Node : Type 0 where
    leaf : List Kv → Node
    branch : Node → Rest → Node

  pub data Rest : Type 0 where
    end : Rest
    more : Kv → Node → Rest → Rest

abbrev pub rest_items : Rest → List Kv
rest_items end = []
rest_items (more kv d r) = kv ∷ rest_items r

-- the array `items` up to `nitems`
abbrev pub items : Node → List Kv
items (leaf xs) = xs
items (branch c r) = rest_items r

abbrev pub nitems : Node → ℕ
nitems n = length (items n)

-- An item and the items behind it are moved up, and the item is written at the index.
abbrev pub insert_at : List Kv → ℕ → Kv → List Kv
insert_at xs i kv = take i xs ++ kv ∷ drop i xs

-- ci_tree_node_shift_left on a leaf
abbrev pub remove_at : List Kv → ℕ → List Kv
remove_at xs i = take i xs ++ drop (i + 1) xs

-- What a branch has: its first child and the rest.
abbrev pub Kids : Type 0
Kids = Node × Rest

abbrev pub parent : Kids → Node
parent (c, r) = branch c r

-- the same children behind one more child and item
abbrev pub under : Node → Kv → Kids → Kids
under c kv (d, r) = (c, more kv d r)

-- `children[i]` of the branch of `c` and `r`
unfoldable pub child_at : Node → Rest → ℕ → Node
child_at c r zero = c
child_at c end (suc i) = c
child_at c (more kv d r) (suc i) = child_at d r i

-- `children[i] = n`
pub set_child : Node → Rest → ℕ → Node → Kids
set_child c r zero n = (n, r)
set_child c end (suc i) n = (c, end)
set_child c (more kv d r) (suc i) n = under c kv (set_child d r i n)

-- `items[i] = kv`
pub set_rest_item : Rest → ℕ → Kv → Rest
set_rest_item end i kv = end
set_rest_item (more old d r) zero kv = more kv d r
set_rest_item (more old d r) (suc i) kv = more old d (set_rest_item r i kv)

pub set_item : Node → ℕ → Kv → Node
set_item (leaf xs) i kv = leaf (set xs i kv)
set_item (branch c r) i kv = branch c (set_rest_item r i kv)

-- The child `i` is now `left`, and `kv` and `right` stand behind it: ci_tree_node_shift_right and the
-- writes behind it.
pub put_split : Node → Rest → ℕ → Node → Kv → Node → Kids
put_split c r zero left kv right = (left, more kv right r)
put_split c end (suc i) left kv right = (c, end)
put_split c (more old d r) (suc i) left kv right = under c old (put_split d r i left kv right)

-- The items and children of a branch, cut at the item `i`: those before it, the item, and those
-- behind it.
pub cut : Node → Rest → ℕ → Kids × Kv × Kids
cut c end i = ((c, end), no_kv, (c, end))
cut c (more kv d r) zero = ((c, end), kv, (d, r))
cut c (more kv d r) (suc i) =
    let (left, median, right) = cut d r i in (under c kv left, median, right)

-- ci_tree_node_split: the node that is left, the median and the right node
pub split : Node → Node × Kv × Node
split (leaf xs) = (leaf (take 32 xs), get_or xs 32 no_kv, leaf (drop 33 xs))
split (branch c r) = let (left, median, right) = cut c r 32 in (parent left, median, parent right)

-- `items` and `children` of `left` and `right` side by side, with `kv` between them
pub join_rest : Rest → Kv → Node → Rest → Rest
join_rest end kv d r = more kv d r
join_rest (more old c q) kv d r = more old c (join_rest q kv d r)

-- the merge of ci_tree_node_rebalance
pub join : Node → Kv → Node → Node
join (leaf xs) kv (leaf ys) = leaf (xs ++ kv ∷ ys)
join (branch c q) kv (branch d r) = branch c (join_rest q kv d r)
join left kv right = left

-- The last item of a branch, with the child behind it, and the branch without them.
pub pop_last : Node → Kv → Node → Rest → Kids × Kv × Node
pop_last c kv d end = ((c, end), kv, d)
pop_last c kv d (more next e r) =
    let (left, last, child) = pop_last d next e r in (under c kv left, last, child)

-- "rotate left -> right": the left node, the item between and the right node
pub rotate_right : Node → Kv → Node → Node × Kv × Node
rotate_right (leaf xs) kv (leaf ys) =
    (leaf (take (length xs - 1) xs), get_or xs (length xs - 1) no_kv, leaf (kv ∷ ys))
rotate_right (branch c (more first d r)) kv (branch e q) =
    let (left, last, child) = pop_last c first d r in
    (parent left, last, branch child (more kv e q))
rotate_right left kv right = (left, kv, right)

-- "rotate right -> left"
pub rotate_left : Node → Kv → Node → Node × Kv × Node
rotate_left (leaf xs) kv (leaf ys) = (leaf (xs ++ kv ∷ []), get_or ys 0 no_kv, leaf (drop 1 ys))
rotate_left (branch c q) kv (branch e (more first d r)) =
    (branch c (join_rest q kv e end), first, branch d r)
rotate_left left kv right = (left, kv, right)

-- the three cases of ci_tree_node_rebalance, for two neighbours in front of `r`
pub rebalance_pair : Node → Kv → Node → Rest → Kids
rebalance_pair left kv right r =
    let (a, x, b) = rotate_right left kv right in
    let (c, y, d) = rotate_left left kv right in
    if ltb (nitems left + nitems right) max_items
    then (join left kv right, r)
    else if ltb (nitems right) (nitems left)
    then (a, more x b r)
    else (c, more y d r)

-- ci_tree_node_rebalance at the child `i`, and at the one before if `i` is the last
pub rebalance : Node → Rest → ℕ → Kids
rebalance c end i = (c, end)
rebalance c (more kv d end) i = rebalance_pair c kv d end
rebalance c (more kv d (more x e r)) zero = rebalance_pair c kv d (more x e r)
rebalance c (more kv d (more x e r)) (suc i) = under c kv (rebalance d (more x e r) i)

-- the last lines of ci_tree_node_delete
pub mend : Node → Rest → ℕ → Kids
mend c r i = if ltb (nitems (child_at c r i)) min_items then rebalance c r i else (c, r)
