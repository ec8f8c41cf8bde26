-- ===== src/Tree/Set.antt =====
-- ci_tree.c: ci_tree_node_set and ci_tree_set. `alloc` says of each allocation, in the order they are
-- made, whether it succeeds.
pub mod Inserts
pub mod Stores
use Prim.Native.Nat.{Ordering}
use blueberry.Prelude.{
  ℕ, zero, suc, ◌+◌, ◌-◌, ◌*◌, ◌%◌, ◌^◌, Bool, true, false, not, Option, none, some, List, [], ◌∷◌,
  ◌==◌, if◌then◌else◌, length,
}
use blueberry.Tree.Order.{Kv}
use blueberry.Tree.Search.{bsearch_hint}
use blueberry.Tree.Node.{
  Node, Rest, leaf, branch, end, more, rest_items, items, nitems, insert_at, Kids, parent, child_at,
  set_child, set_item, put_split, split, max_items,
}
use blueberry.Tree.State.{Tree, levels}
use blueberry.Tree.Node.Contents.{contents}

-- `ci_tree_mut`
pub data Mut : Type 0 where
  nochange : Mut
  nomem : Mut
  must_split : Mut
  inserted : Mut
  replaced : Mut
  deleted : Mut

-- what the calls share: the hint of the tree, and how many allocations were made
pub record Env : Type 0 where
  pub hint : List ℕ
  pub used : ℕ

-- The result of ci_tree_node_set and the node as it is then, or `none` when the fuel ran out.
abbrev pub Out : Type 0
Out = Option (Mut × Node × Env)

-- what ci_tree_set returns, the tree and the allocations made, or `none` when the fuel ran out
abbrev pub Result : Type 0
Result = Option (Bool × Tree × ℕ)

abbrev pub finish : Bool → Node → ℕ → ℕ → Env → Result
finish ok n count height env =
    some (ok, record { root = some n; count = count; height = height; hint = env.hint }, env.used)

module _ (alloc : ℕ → Bool) where
  -- "child needs split", up to the end of ci_tree_node_set, which `again` calls for the same node
  pub split_child : (Env → Node → Out) → Node → Rest → ℕ → Env → Out
  split_child again c r i env =
      let (left, median, right) = split (child_at c r i) in
      let next : Env = record { hint = env.hint; used = env.used + 1 } in
      if length (rest_items r) == max_items
      then some (must_split, branch c r, env)
      else if alloc env.used
      then again next (parent (put_split c r i left median right))
      else some (nomem, branch c r, next)

  -- what is done with the result for a child
  pub after_child : (Env → Node → Out) → Mut → Node → Rest → ℕ → Env → Out
  after_child again inserted c r i env = some (inserted, branch c r, env)
  after_child again replaced c r i env = some (replaced, branch c r, env)
  after_child again nomem c r i env = some (nomem, branch c r, env)
  after_child again must_split c r i env = split_child again c r i env
  after_child again nochange c r i env = split_child again c r i env
  after_child again deleted c r i env = split_child again c r i env

  pub back_in_parent : (Env → Node → Out) → Node → Rest → ℕ → Out → Out
  back_in_parent again c r i none = none
  back_in_parent again c r i (some (result, n, env)) =
      let (d, q) = set_child c r i n in after_child again result d q i env

  -- ci_tree_node_set behind the search
  unfoldable pub set_in : (Env → Node → Out) → (Env → Node → Out) → Bool × ℕ → Env → Node → Kv → Out
  set_in child again (true, i) env n item = some (replaced, set_item n i item, env)
  set_in child again (false, i) env (leaf xs) item =
      if length xs == max_items
      then some (must_split, leaf xs, env)
      else some (inserted, leaf (insert_at xs i item), env)
  set_in child again (false, i) env (branch c r) item =
      back_in_parent again c r i (child env (child_at c r i))

  module _ (cmp : ℕ → ℕ → Ordering) where
    unfoldable pub node_set : ℕ → ℕ → Kv → Env → Node → Out
    node_set zero depth item env n = none
    node_set (suc fuel) depth item env n =
        let (s, hint) = bsearch_hint cmp env.hint (items n) item.key depth in
        set_in (node_set fuel (depth + 1) item) (node_set fuel depth item) s
          (record { hint = hint; used = env.used }) n item

  -- "root needs split": the new root, then the right half
  pub split_root : (ℕ → Env → Node → Result) → Node → ℕ → ℕ → Env → Result
  split_root again n count height env =
      let (left, median, right) = split n in
      let once : Env = record { hint = env.hint; used = env.used + 1 } in
      let twice : Env = record { hint = env.hint; used = env.used + 2 } in
      if not (alloc env.used)
      then finish false n count height once
      else if not (alloc (env.used + 1))
      then finish false n count height twice
      else again ((height + 1) % 2 ^ 16) twice (branch left (more median right end))

  -- what ci_tree_set does with the result for the root; `again` is the `goto set`
  unfoldable pub set_root : (ℕ → Env → Node → Result) → ℕ → ℕ → Out → Result
  set_root again count height none = none
  set_root again count height (some (replaced, n, env)) = finish true n count height env
  set_root again count height (some (inserted, n, env)) =
      finish true n ((count + 1) % 2 ^ 32) height env
  set_root again count height (some (nomem, n, env)) = finish false n count height env
  set_root again count height (some (must_split, n, env)) = split_root again n count height env
  set_root again count height (some (nochange, n, env)) = split_root again n count height env
  set_root again count height (some (deleted, n, env)) = split_root again n count height env

  module _ (cmp : ℕ → ℕ → Ordering) where
    unfoldable pub set_loop : ℕ → Kv → ℕ → ℕ → Env → Node → Result
    set_loop zero item count height env n = none
    set_loop (suc fuel) item count height env n =
        set_root (set_loop fuel item count) count height
          (node_set cmp (levels n * 66 + 66) 0 item env n)

    -- the body of ci_tree_set, for the root of the tree
    unfoldable pub set_at : ℕ → Kv → ℕ → ℕ → List ℕ → Option Node → Result
    set_at used item count height hint none =
        if alloc used
        then finish true (leaf (item ∷ [])) ((count + 1) % 2 ^ 32) ((height + 1) % 2 ^ 16)
            (record { hint = hint; used = used + 1 })
        else some
            (false, record { root = none; count = count; height = height; hint = hint }, used + 1)
    set_at used item count height hint (some n) =
        set_loop (length (contents n) + 1) item count height (record { hint = hint; used = used }) n

    -- ci_tree_set, when `used` allocations were made before
    abbrev pub set : ℕ → Tree → Kv → Result
    set used t item = set_at used item t.count t.height t.hint t.root
