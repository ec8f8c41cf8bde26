-- ===== src/Tree/Iter/Depth.antt =====
-- The stack of an iterator, which has 16 entries in the source, needs one for each level of the tree.
use blueberry.Prelude.{
  ℕ, zero, suc, ◌+◌, ◌-◌, ◌≤◌, ◌≡◌, refl, ap, Bool, true, false, Option, none, some, List, [], ◌∷◌,
  ltb, if_elim, length, arith,
}
use blueberry.Tree.Order.{Kv}
use blueberry.Tree.Node.{Node, Rest, leaf, branch, end, more, rest_items, child_at}
use blueberry.Tree.Node.Balanced.{IsBalanced, IsKids, to_kids, child_at-IsChild}
use blueberry.Tree.Iter.{
  Entry, Iter, push_left, forward_loop, push_right, push_last, backward_loop, stepped, step,
  forward, backward,
}

-- Each entry is deep enough below the entries under it.
abbrev pub IsChain : ℕ → List Entry → Type 0
IsChain h [] = Unit {0}
IsChain h ((n, i) ∷ st) = ((g : ℕ) × IsBalanced g n × (g + length st ≤ h)) × IsChain h st

abbrev pub IsRootAt : ℕ → Option Node → Type 0
IsRootAt h none = Unit {0}
IsRootAt h (some n) = IsBalanced h n

-- An iterator of a tree that has `h` levels below the root.
pub record IsShallow (h : ℕ) (it : Iter) : Type 0 where
  pub rooted : IsRootAt h it.root
  pub chain : IsChain h it.stack
  pub fresh : it.started ≡ false → it.stack ≡ []
  pub bounded : length it.stack ≤ h + 1

length-IsChain : (h : ℕ) (st : List Entry) → IsChain h st → length st ≤ h + 1
length-IsChain h [] x = omega arith
length-IsChain h ((n, i) ∷ st) ((g, b, le), x) = omega (arith, le)

push_left-IsChain :
    (h g : ℕ) (n : Node) (st : List Entry)
    → IsBalanced g n
    → g + length st ≤ h
    → IsChain h st
    → IsChain h (push_left n st)
unfolding push_left
push_left-IsChain h g (leaf xs) st b le x = ((g, b, le), x)
push_left-IsChain h zero (branch c r) st b le x = absurd b
push_left-IsChain h (suc g) (branch c r) st b le x =
    push_left-IsChain h g c ((branch c r, 0) ∷ st) (to_kids g c r b).0.0 (omega (arith, le))
      ((suc g, b, le), x)

-- what a push of a node at the level `g` keeps
abbrev Keeps : ℕ → ℕ → (List Entry → List Entry) → Type 0
Keeps h g push = (st : List Entry) → g + length st ≤ h → IsChain h st → IsChain h (push st)

mutual
  unfolding push_right push_last

  push_right-IsChain : (h g : ℕ) (n : Node) → IsBalanced g n → Keeps h g (push_right n)
  push_right-IsChain h g (leaf xs) b st le x = ((g, b, le), x)
  push_right-IsChain h zero (branch c r) b st le x = absurd b
  push_right-IsChain h (suc g) (branch c r) b st le x =
      let ((bc, l, u), rs) = to_kids g c r b in
      push_last-IsChain h g c r (push_right-IsChain h g c bc) ((bc, l, u), rs)
        ((branch c r, length (rest_items r)) ∷ st) (omega (arith, le)) ((suc g, b, le), x)

  push_last-IsChain :
      (h g : ℕ) (c : Node) (r : Rest)
      → Keeps h g (push_right c)
      → IsKids g (c, r)
      → Keeps h g (push_last r (push_right c))
  push_last-IsChain h g c end k kids st le x = k st le x
  push_last-IsChain h g c (more kv d r) k (p, (b, l, u, rs)) st le x =
      push_last-IsChain h g d r (push_right-IsChain h g d b) ((b, l, u), rs) st le x

forward_loop-IsChain : (h : ℕ) (st : List Entry) → IsChain h st → IsChain h (forward_loop st).1
unfolding forward_loop
forward_loop-IsChain h [] x = x
forward_loop-IsChain h ((leaf xs, i) ∷ st) (p, x) =
    if_elim {A = Option Kv × List Entry} (λ r. IsChain h r.1) (ltb i (length xs)) (λ _. (p, x))
      (λ _. forward_loop-IsChain h st x)
forward_loop-IsChain h ((branch c r, i) ∷ st) ((zero, b, le), x) = absurd b
forward_loop-IsChain h ((branch c r, i) ∷ st) ((suc g, b, le), x) =
    if_elim {A = Option Kv × List Entry} (λ z. IsChain h z.1) (ltb i (length (rest_items r)))
      (λ _.
        push_left-IsChain h g (child_at c r (i + 1)) ((branch c r, i + 1) ∷ st)
          (child_at-IsChild g c r (i + 1) (to_kids g c r b)).0 (omega (arith, le))
          ((suc g, b, le), x))
      (λ _. forward_loop-IsChain h st x)

backward_loop-IsChain : (h : ℕ) (st : List Entry) → IsChain h st → IsChain h (backward_loop st).1
unfolding backward_loop
backward_loop-IsChain h [] x = x
backward_loop-IsChain h ((leaf xs, i) ∷ st) (p, x) =
    if_elim {A = Option Kv × List Entry} (λ r. IsChain h r.1) (ltb 0 i) (λ _. (p, x))
      (λ _. backward_loop-IsChain h st x)
backward_loop-IsChain h ((branch c r, i) ∷ st) ((zero, b, le), x) = absurd b
backward_loop-IsChain h ((branch c r, i) ∷ st) ((suc g, b, le), x) =
    if_elim {A = Option Kv × List Entry} (λ z. IsChain h z.1) (ltb 0 i)
      (λ _.
        push_right-IsChain h g (child_at c r (i - 1))
          (child_at-IsChild g c r (i - 1) (to_kids g c r b)).0 ((branch c r, i - 1) ∷ st)
          (omega (arith, le)) ((suc g, b, le), x))
      (λ _. backward_loop-IsChain h st x)

step-IsShallow :
    (h : ℕ) (push : Node → List Entry → List Entry) (loop : List Entry → Option Kv × List Entry)
    (it : Iter)
    → ((n : Node) → IsBalanced h n → Keeps h h (push n))
    → ((st : List Entry) → IsChain h st → IsChain h (loop st).1)
    → IsShallow h it
    → IsShallow h (step push loop it.root it.done it.started it.stack).1
unfolding step stepped
step-IsShallow h push loop it p l x =
    by_fields it.root it.done it.started it.stack x.rooted x.chain x.fresh
  where
    by_loop :
        (root : Option Node) (r : Option Kv × List Entry)
        → IsRootAt h root
        → IsChain h r.1
        → IsShallow h (stepped root r).1
    by_loop root (none, st) w c = record {
      rooted = w;
      chain = c;
      fresh = λ e. ground (arith, e);
      bounded = length-IsChain h st c;
    }
    by_loop root (some kv, st) w c = record {
      rooted = w;
      chain = c;
      fresh = λ e. ground (arith, e);
      bounded = length-IsChain h st c;
    }

    by_fields :
        (root : Option Node) (done started : Bool) (st : List Entry)
        → IsRootAt h root
        → IsChain h st
        → (started ≡ false → st ≡ [])
        → IsShallow h (step push loop root done started st).1
    by_fields root true started st w c f = record {
      rooted = w;
      chain = c;
      fresh = f;
      bounded = length-IsChain h st c;
    }
    by_fields root false true st w c f = by_loop root (loop st) w (l st c)
    by_fields none false false st w c f = record {
      rooted = w;
      chain = c;
      fresh = λ e. ground (arith, e);
      bounded = length-IsChain h st c;
    }
    by_fields (some n) false false st w c f =
        by_loop (some n) (loop (push n st)) w
          (l (push n st) (p n w st (omega (arith, ap length (f refl))) c))

-- On a balanced tree of `h` levels below the root, a step of an iterator, forward or backward, keeps
-- the stack at no more than `h + 1` entries, one for each level.
pub step-bounded :
    (h : ℕ) (it : Iter) → IsShallow h it → IsShallow h (forward it).1 × IsShallow h (backward it).1
step-bounded h it x = (
  step-IsShallow h push_left forward_loop it (λ n b st. push_left-IsChain h h n st b)
      (forward_loop-IsChain h) x,
  step-IsShallow h push_right backward_loop it (λ n b. push_right-IsChain h h n b)
      (backward_loop-IsChain h) x,
)
