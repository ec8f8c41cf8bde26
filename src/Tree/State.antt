-- ===== src/Tree/State.antt =====
-- ci_tree.h: the tree, and what holds of it between two calls. The order is a parameter of the
-- functions, in place of the fields `cmp` and `cmpctx`.
use Prim.Native.Nat.{Ordering}
use blueberry.Prelude.{
  ℕ, zero, suc, ◌+◌, ◌%◌, ◌^◌, ◌≤◌, ◌<◌, ◌≡◌, refl, ap, Option, none, some, List, [], ◌∷◌, length,
  arith, length-append,
}
use blueberry.Tree.Order.{Kv, IsSorted}
use blueberry.Tree.Node.{Node, Rest, leaf, branch, end, more, rest_items, nitems, max_items}
use blueberry.Tree.Node.Contents.{contents, rest_contents}
use blueberry.Tree.Node.Balanced.{IsBalanced}

-- `ci_tree`
pub record Tree : Type 0 where
  pub root : Option Node
  pub count : ℕ
  pub height : ℕ
  pub hint : List ℕ

-- what ci_tree_new sets
abbrev pub new : Tree
new = record { root = none; count = 0; height = 0; hint = 0 ∷ 0 ∷ 0 ∷ 0 ∷ 0 ∷ 0 ∷ 0 ∷ 0 ∷ [] }

-- ci_tree_clear; the memory that ci_tree_node_free gives back is not modelled
abbrev pub clear : Tree → Tree
clear t = record { root = none; count = 0; height = 0; hint = t.hint }

abbrev pub pairs_of : Option Node → List Kv
pairs_of none = []
pairs_of (some n) = contents n

-- the pairs of a tree, in order
abbrev pub pairs : Tree → List Kv
pairs t = pairs_of t.root

-- the levels below a node, which the fuel of the operations is taken from
unfoldable pub levels : Node → ℕ
levels (leaf xs) = 0
levels (branch c r) = suc (levels c)

abbrev pub IsRoot : (ℕ → ℕ → Ordering) → Option Node → ℕ → Type 0
IsRoot cmp none height = height ≡ 0
IsRoot cmp (some n) height =
    (h : ℕ) × IsBalanced h n
    × (1 ≤ nitems n)
    × (nitems n ≤ max_items)
    × IsSorted cmp (contents n)
    × (height ≡ (h + 1) % 2 ^ 16)

-- A well-formed tree, which is what holds between two calls. `count` and `height` wrap around.
pub record IsTree (cmp : ℕ → ℕ → Ordering) (t : Tree) : Type 0 where
  pub shape : IsRoot cmp t.root t.height
  pub counted : t.count ≡ length (pairs t) % 2 ^ 32

pub levels-IsBalanced : (h : ℕ) (n : Node) → IsBalanced h n → levels n ≡ h
unfolding levels
levels-IsBalanced zero (leaf xs) b = refl
levels-IsBalanced (suc h) (leaf xs) b = absurd b
levels-IsBalanced zero (branch c r) b = absurd b
levels-IsBalanced (suc h) (branch c r) (b, l, u, rs) = ap suc (levels-IsBalanced h c b)

-- A tree has more pairs than levels.
pub levels_lt : (h : ℕ) (n : Node) → IsBalanced h n → 1 ≤ nitems n → h < length (contents n)
unfolding contents
levels_lt zero (leaf xs) b le = le
levels_lt (suc h) (leaf xs) b le = absurd b
levels_lt zero (branch c r) b le = absurd b
levels_lt (suc h) (branch c r) (b, l, u, rs) le =
    let ih = levels_lt h c b (omega (arith, l)) in
    let e = length-append (contents c) (rest_contents r) in
    let p = rest_positive r le in omega (arith, ih, e, p)
  where
    rest_positive : (q : Rest) → 1 ≤ length (rest_items q) → 1 ≤ length (rest_contents q)
    rest_positive end lt = absurd (omega arith)
    rest_positive (more kv d q) lt = omega arith
