-- ===== src/Tree/Iter/Calls.antt =====
-- What the calls of an iterator give, one after the other.
use mathlib.Core.List.{reverse, reverse-append}
use blueberry.Prelude.{
  ℕ, zero, suc, ◌≡◌, refl, sym, ap, ◌∙◌, false, Option, none, some, List, [], ◌∷◌, take,
}
use blueberry.Tree.Order.{Kv}
use blueberry.Tree.State.{Tree, pairs}
use blueberry.Tree.Iter.{Iter, iter_new, forward, backward}
use blueberry.Tree.Iter.Walks.{
  ahead, back, rest_of, IsIter, IsForward, IsBackward, forward-IsForward, backward-IsBackward,
}

-- the pair of a call and those of the calls behind it
abbrev pub given : (Iter → List Kv) → Option Kv × Iter → List Kv
given more (none, it) = []
given more (some kv, it) = kv ∷ more it

-- the pairs that `k` calls give, up to the first NULL
abbrev pub calls : (Iter → Option Kv × Iter) → ℕ → Iter → List Kv
calls go zero it = []
calls go (suc k) it = given (calls go k) (go it)

given-IsForward :
    (k : ℕ) (all : List Kv) (r : Option Kv × Iter)
    → IsForward all r
    → ((it : Iter)
        → (it.started ≡ false → it.stack ≡ [])
        → calls forward k it ≡ take k (rest_of ahead it))
    → given (calls forward k) r ≡ take (suc k) all
given-IsForward k all (none, next) e ih = ap (take (suc k)) (sym e)
given-IsForward k all (some kv, next) (e, f) ih =
    ap (λ xs. kv ∷ xs) (ih next f) ∙ ap (take (suc k)) (sym e)

calls-forward_on :
    (k : ℕ) (it : Iter)
    → (it.started ≡ false → it.stack ≡ [])
    → calls forward k it ≡ take k (rest_of ahead it)
calls-forward_on zero it f = refl
calls-forward_on (suc k) it f =
    given-IsForward k (rest_of ahead it) (forward it) (forward-IsForward it f) (calls-forward_on k)

-- The first `k` calls of a new forward iterator give the first `k` pairs of the tree, in order, or all
-- that there are.
pub calls-forward : (t : Tree) (k : ℕ) → calls forward k (iter_new t.root) ≡ take k (pairs t)
calls-forward t k = calls-forward_on k (iter_new t.root) (λ _. refl)

given-IsBackward :
    (k : ℕ) (all : List Kv) (r : Option Kv × Iter)
    → IsBackward all r
    → ((it : Iter) → IsIter it → calls backward k it ≡ take k (reverse (rest_of back it)))
    → given (calls backward k) r ≡ take (suc k) (reverse all)
given-IsBackward k all (none, next) (e, x) ih = ap (λ xs. take (suc k) (reverse xs)) (sym e)
given-IsBackward k all (some kv, next) (e, x) ih =
    ap (λ xs. kv ∷ xs) (ih next x)
    ∙ ap (take (suc k)) (sym (reverse-append (rest_of back next) (kv ∷ [])))
    ∙ ap (λ xs. take (suc k) (reverse xs)) (sym e)

calls-backward_on :
    (k : ℕ) (it : Iter) → IsIter it → calls backward k it ≡ take k (reverse (rest_of back it))
calls-backward_on zero it x = refl
calls-backward_on (suc k) it x =
    given-IsBackward k (rest_of back it) (backward it) (backward-IsBackward it x)
      (calls-backward_on k)

-- The first `k` calls of a new backward iterator give the last `k` pairs of the tree, from the last one
-- on, or all that there are.
pub calls-backward :
    (t : Tree) (k : ℕ) → calls backward k (iter_new t.root) ≡ take k (reverse (pairs t))
calls-backward t k =
    calls-backward_on k (iter_new t.root) (record { fresh = λ _. refl; within = tt })
