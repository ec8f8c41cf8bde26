-- ===== src/Tree/Iter.antt =====
-- ci_tree.c: the iterators, forward and backward. The tree does not change while one is used. An
-- index of a backward iterator, which can be -1, is kept plus one.
pub mod Walks
pub mod Calls
pub mod Depth
use blueberry.Prelude.{
  ℕ, zero, suc, ◌+◌, ◌-◌, Bool, true, false, Option, none, some, List, [], ◌∷◌, ltb, if◌then◌else◌,
  length, get_or,
}
use blueberry.Tree.Order.{Kv}
use blueberry.Tree.Search.{no_kv}
use blueberry.Tree.Node.{Node, Rest, leaf, branch, end, more, rest_items, child_at}

-- `ci_tree_iter_entry`: the node and the index
abbrev pub Entry : Type 0
Entry = Node × ℕ

-- `ci_tree_iter`, with the root of its tree; the top of the stack is first
pub record Iter : Type 0 where
  pub root : Option Node
  pub done : Bool
  pub started : Bool
  pub stack : List Entry

-- ci_tree_iter_new and ci_tree_iter_new_reverse
abbrev pub iter_new : Option Node → Iter
iter_new root = record { root = root; done = false; started = false; stack = [] }

pub push_left : Node → List Entry → List Entry
push_left (leaf xs) st = (leaf xs, 0) ∷ st
push_left (branch c r) st = push_left c ((branch c r, 0) ∷ st)

-- the `while` of ci_tree_iter_forward
pub forward_loop : List Entry → Option Kv × List Entry
forward_loop [] = (none, [])
forward_loop ((leaf xs, i) ∷ st) =
    let rest = forward_loop st in
    if ltb i (length xs) then (some (get_or xs i no_kv), (leaf xs, i + 1) ∷ st) else rest
forward_loop ((branch c r, i) ∷ st) =
    let rest = forward_loop st in
    if ltb i (length (rest_items r))
    then (
      some (get_or (rest_items r) i no_kv),
      push_left (child_at c r (i + 1)) ((branch c r, i + 1) ∷ st),
    )
    else rest

mutual
  pub push_right : Node → List Entry → List Entry
  push_right (leaf xs) st = (leaf xs, length xs) ∷ st
  push_right (branch c r) st = push_last r (push_right c) ((branch c r, length (rest_items r)) ∷ st)

  -- on in `children[nitems]`
  pub push_last : Rest → (List Entry → List Entry) → List Entry → List Entry
  push_last end push st = push st
  push_last (more kv d r) push st = push_last r (push_right d) st

-- the `while` of ci_tree_iter_backward
pub backward_loop : List Entry → Option Kv × List Entry
backward_loop [] = (none, [])
backward_loop ((leaf xs, i) ∷ st) =
    let rest = backward_loop st in
    if ltb 0 i then (some (get_or xs (i - 1) no_kv), (leaf xs, i - 1) ∷ st) else rest
backward_loop ((branch c r, i) ∷ st) =
    let rest = backward_loop st in
    if ltb 0 i
    then (
      some (get_or (rest_items r) (i - 1) no_kv),
      push_right (child_at c r (i - 1)) ((branch c r, i - 1) ∷ st),
    )
    else rest

-- what a step does with the result of its loop
pub stepped : Option Node → Option Kv × List Entry → Option Kv × Iter
stepped root (none, st) = (none, record { root = root; done = true; started = true; stack = st })
stepped root (some kv, st) =
    (some kv, record { root = root; done = false; started = true; stack = st })

-- A step, with its push and its loop, for the fields of the iterator.
pub step :
    (Node → List Entry → List Entry)
    → (List Entry → Option Kv × List Entry)
    → Option Node
    → Bool
    → Bool
    → List Entry
    → Option Kv × Iter
step push loop root true started st =
    (none, record { root = root; done = true; started = started; stack = st })
step push loop root false true st = stepped root (loop st)
step push loop none false false st =
    (none, record { root = none; done = true; started = true; stack = st })
step push loop (some n) false false st = stepped (some n) (loop (push n st))

abbrev pub forward : Iter → Option Kv × Iter
forward it = step push_left forward_loop it.root it.done it.started it.stack

abbrev pub backward : Iter → Option Kv × Iter
backward it = step push_right backward_loop it.root it.done it.started it.stack
