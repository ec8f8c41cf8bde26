-- ===== src/Tree/Iter/Walks.antt =====
-- An iterator walks over the pairs of its tree, in order or in the opposite order.
use blueberry.Prelude.{
  ℕ, zero, suc, ◌+◌, ◌-◌, ◌≤◌, ◌<◌, ◌≡◌, refl, sym, ap, ◌∙◌, subst, Bool, true, false, Option, none,
  some, List, [], ◌∷◌, ◌++◌, append_assoc, append-nil, ltb, if◌then◌else◌, if_elim, length, get_or,
  take, drop, arith,
}
use blueberry.Tree.Order.{Kv}
use blueberry.Tree.Search.{no_kv}
use blueberry.Tree.Node.{Node, Rest, leaf, branch, end, more, rest_items, child_at}
use blueberry.Tree.Node.Contents.{contents, rest_contents, before, behind, contents-child_at}
use blueberry.Tree.Node.Parts.{drop_all, nothing_behind, behind-child_at, before-child_at}
use blueberry.Tree.State.{pairs_of}
use blueberry.Tree.Iter.{
  Entry, Iter, push_left, forward_loop, push_right, push_last, backward_loop, stepped, step,
  forward, backward,
}

-- the pairs that a forward iterator has yet to give
unfoldable pub ahead : List Entry → List Kv
ahead [] = []
ahead ((leaf xs, i) ∷ st) = drop i xs ++ ahead st
ahead ((branch c r, i) ∷ st) = behind r i ++ ahead st

-- The loop gives the first of the pairs, or there is none.
abbrev pub First : List Kv → Option Kv × List Entry → Type 0
First all (none, st) = all ≡ []
First all (some kv, st) = all ≡ kv ∷ ahead st

-- one more round of a walk: `i + 1` is `suc i`
next : (i : ℕ) → i + 1 ≡ suc i
next i = omega arith

ahead-push_left : (st : List Entry) (n : Node) → ahead (push_left n st) ≡ contents n ++ ahead st
unfolding ahead push_left contents behind
ahead-push_left st (leaf xs) = refl
ahead-push_left st (branch c r) =
    ahead-push_left ((branch c r, 0) ∷ st) c
    ∙ sym (append_assoc (contents c) (rest_contents r) (ahead st))

drop_next : (xs : List Kv) (i : ℕ) → i < length xs → drop i xs ≡ get_or xs i no_kv ∷ drop (i + 1) xs
drop_next xs i h = by_suc xs i h ∙ ap (λ k. get_or xs i no_kv ∷ drop k xs) (sym (next i))
  where
    by_suc :
        (ys : List Kv) (j : ℕ) → j < length ys → drop j ys ≡ get_or ys j no_kv ∷ drop (suc j) ys
    by_suc [] j h = absurd (omega arith)
    by_suc (y ∷ ys) zero h = refl
    by_suc (y ∷ ys) (suc j) h = by_suc ys j (omega arith)

forward_loop-First : (st : List Entry) → First (ahead st) (forward_loop st)
unfolding ahead forward_loop
forward_loop-First [] = refl
forward_loop-First ((leaf xs, i) ∷ st) =
    if_elim {A = Option Kv × List Entry} (First (drop i xs ++ ahead st)) (ltb i (length xs))
      (λ t. ap (λ ys. ys ++ ahead st) (drop_next xs i (ground (arith, t))))
      (λ t.
        subst (λ ys. First (ys ++ ahead st) (forward_loop st))
          (sym (drop_all xs i (ground (arith, t)))) (forward_loop-First st))
forward_loop-First ((branch c r, i) ∷ st) =
    let item = get_or (rest_items r) i no_kv in
    if_elim {A = Option Kv × List Entry} (First (behind r i ++ ahead st))
      (ltb i (length (rest_items r)))
      (λ t.
        ap (λ xs. xs ++ ahead st) (behind-child_at c r i (ground (arith, t)))
        ∙ ap (λ k. item ∷ ((contents (child_at c r k) ++ behind r k) ++ ahead st)) (sym (next i))
        ∙ ap (λ xs. item ∷ xs)
            (append_assoc (contents (child_at c r (i + 1))) (behind r (i + 1)) (ahead st)
              ∙ sym (ahead-push_left ((branch c r, i + 1) ∷ st) (child_at c r (i + 1)))))
      (λ t.
        subst (λ ys. First (ys ++ ahead st) (forward_loop st))
          (sym (nothing_behind r i (ground (arith, t)))) (forward_loop-First st))

-- the pairs that a backward iterator has yet to give, in the order of the tree
unfoldable pub back : List Entry → List Kv
back [] = []
back ((leaf xs, i) ∷ st) = back st ++ take i xs
back ((branch c r, i) ∷ st) = back st ++ before c r i

-- no index is beyond the items
abbrev pub IsWithin : List Entry → Type 0
IsWithin [] = Unit {0}
IsWithin ((leaf xs, i) ∷ st) = (i ≤ length xs) × IsWithin st
IsWithin ((branch c r, i) ∷ st) = (i ≤ length (rest_items r)) × IsWithin st

-- The loop gives the last of the pairs, or there is none.
abbrev pub Last : List Kv → Option Kv × List Entry → Type 0
Last all (none, st) = (all ≡ []) × IsWithin st
Last all (some kv, st) = (all ≡ back st ++ kv ∷ []) × IsWithin st

take_all : (xs : List Kv) → take (length xs) xs ≡ xs
take_all [] = refl
take_all (x ∷ xs) = ap (◌∷◌ x) (take_all xs)

-- what a push adds
abbrev Pushes : Node → (List Entry → List Entry) → Type 0
Pushes n push =
    (st : List Entry) → IsWithin st → (back (push st) ≡ back st ++ contents n) × IsWithin (push st)

mutual
  unfolding back push_right push_last contents child_at before

  back-push_right : (n : Node) → Pushes n (push_right n)
  back-push_right (leaf xs) st w = (ap (λ ys. back st ++ ys) (take_all xs), (omega arith, w))
  back-push_right (branch c r) st w =
      let k = length (rest_items r) in
      let (e, w') =
        back-push_last c r (back-push_right c) ((branch c r, k) ∷ st) (omega arith, w) in
      (
        e
            ∙ append_assoc (back st) (before c r k) (contents (child_at c r k))
            ∙ ap (λ ys. back st ++ (before c r k ++ ys))
                (sym (append-nil (contents (child_at c r k)))
                  ∙ ap (λ zs. contents (child_at c r k) ++ zs)
                      (sym (nothing_behind r k (omega arith))))
            ∙ ap (λ ys. back st ++ ys) (sym (contents-child_at c r k (omega arith))),
        w',
      )

  back-push_last :
      (c : Node) (r : Rest)
      → Pushes c (push_right c)
      → Pushes (child_at c r (length (rest_items r))) (push_last r (push_right c))
  back-push_last c end h st w = h st w
  back-push_last c (more kv d r) h st w = back-push_last d r (back-push_right d) st w

take_next :
    (xs : List Kv) (i : ℕ) → i < length xs → take (suc i) xs ≡ take i xs ++ get_or xs i no_kv ∷ []
take_next [] i h = absurd (omega arith)
take_next (x ∷ xs) zero h = refl
take_next (x ∷ xs) (suc i) h = ap (◌∷◌ x) (take_next xs i (omega arith))

one_less : (i : ℕ) → 0 < i → i ≡ suc (i - 1)
one_less i h = omega arith

backward_loop-Last : (st : List Entry) → IsWithin st → Last (back st) (backward_loop st)
unfolding back backward_loop before
backward_loop-Last [] w = (refl, tt)
backward_loop-Last ((leaf xs, i) ∷ st) (le, w) =
    if_elim {A = Option Kv × List Entry} (Last (back st ++ take i xs)) (ltb 0 i)
      (λ t.
        let positive : 0 < i = ground (arith, t) in
        (
          ap (λ k. back st ++ take k xs) (one_less i positive)
              ∙ ap (λ ys. back st ++ ys) (take_next xs (i - 1) (omega (arith, positive, le)))
              ∙ sym (append_assoc (back st) (take (i - 1) xs) (get_or xs (i - 1) no_kv ∷ [])),
          (omega (arith, le), w),
        ))
      (λ t.
        subst (λ k. Last (back st ++ take k xs) (backward_loop st)) {x = 0} {y = i}
          (ground (arith, t))
          (subst (λ ys. Last ys (backward_loop st)) (sym (append-nil (back st)))
            (backward_loop-Last st w)))
backward_loop-Last ((branch c r, i) ∷ st) (le, w) =
    if_elim {A = Option Kv × List Entry} (Last (back st ++ before c r i)) (ltb 0 i)
      (λ t.
        let positive : 0 < i = ground (arith, t) in
        let child = child_at c r (i - 1) in
        let item = get_or (rest_items r) (i - 1) no_kv in
        let (e, w') = back-push_right child ((branch c r, i - 1) ∷ st) (omega (arith, le), w) in
        (
          ap (λ k. back st ++ before c r k) (one_less i positive)
              ∙ ap (λ ys. back st ++ ys) (before-child_at c r (i - 1) (omega (arith, positive, le)))
              ∙ sym (append_assoc (back st) (before c r (i - 1)) (contents child ++ item ∷ []))
              ∙ sym (append_assoc (back st ++ before c r (i - 1)) (contents child) (item ∷ []))
              ∙ ap (λ ys. ys ++ item ∷ []) (sym e),
          w',
        ))
      (λ t.
        subst (λ k. Last (back st ++ before c r k) (backward_loop st)) {x = 0} {y = i}
          (ground (arith, t))
          (subst (λ ys. Last ys (backward_loop st)) (sym (append-nil (back st)))
            (backward_loop-Last st w)))

-- what an iterator has yet to give, for its list of pairs
abbrev pub rest_of : (List Entry → List Kv) → Iter → List Kv
rest_of list it = if it.done then [] else if it.started then list it.stack else pairs_of it.root

-- what holds of an iterator between two steps
pub record IsIter (it : Iter) : Type 0 where
  pub fresh : it.started ≡ false → it.stack ≡ []
  pub within : IsWithin it.stack

abbrev pub IsForward : List Kv → Option Kv × Iter → Type 0
IsForward all (none, it) = all ≡ []
IsForward all (some kv, it) = (all ≡ kv ∷ rest_of ahead it) × (it.started ≡ false → it.stack ≡ [])

abbrev pub IsBackward : List Kv → Option Kv × Iter → Type 0
IsBackward all (none, it) = (all ≡ []) × IsIter it
IsBackward all (some kv, it) = (all ≡ rest_of back it ++ kv ∷ []) × IsIter it

-- A step of a forward iterator gives the first of the pairs that are left, in the order of the tree,
-- and leaves the others; if none is left, it gives NULL.
pub forward-IsForward :
    (it : Iter) → (it.started ≡ false → it.stack ≡ []) → IsForward (rest_of ahead it) (forward it)
unfolding stepped step ahead
forward-IsForward it fresh = by_fields it.root it.done it.started it.stack fresh
  where
    by_loop :
        (root : Option Node) (all : List Kv) (r : Option Kv × List Entry)
        → First all r
        → IsForward all (stepped root r)
    by_loop root all (none, st) e = e
    by_loop root all (some kv, st) e = (e, λ h. ground (arith, h))

    by_fields :
        (root : Option Node) (done started : Bool) (st : List Entry)
        → (started ≡ false → st ≡ [])
        → IsForward
            (if done then [] else if started then ahead st else pairs_of root)
            (step push_left forward_loop root done started st)
    by_fields root true started st f = refl
    by_fields root false true st f =
        by_loop root (ahead st) (forward_loop st) (forward_loop-First st)
    by_fields none false false st f = refl
    by_fields (some n) false false st f =
        let e =
          ahead-push_left st n
          ∙ ap (λ ws. contents n ++ ahead ws) (f refl)
          ∙ append-nil (contents n) in
        by_loop (some n) (contents n) (forward_loop (push_left n st)) (
          subst (λ ys. First ys (forward_loop (push_left n st))) e
            (forward_loop-First (push_left n st)))

-- A step of a backward iterator gives the last of the pairs that are left, and leaves the others; if
-- none is left, it gives NULL.
pub backward-IsBackward : (it : Iter) → IsIter it → IsBackward (rest_of back it) (backward it)
unfolding stepped step back
backward-IsBackward it x = by_fields it.root it.done it.started it.stack x.fresh x.within
  where
    by_loop :
        (root : Option Node) (all : List Kv) (r : Option Kv × List Entry)
        → Last all r
        → IsBackward all (stepped root r)
    by_loop root all (none, st) (e, w) = (e, record { fresh = λ h. ground (arith, h); within = w })
    by_loop root all (some kv, st) (e, w) =
        (e, record { fresh = λ h. ground (arith, h); within = w })

    by_fields :
        (root : Option Node) (done started : Bool) (st : List Entry)
        → (started ≡ false → st ≡ [])
        → IsWithin st
        → IsBackward
            (if done then [] else if started then back st else pairs_of root)
            (step push_right backward_loop root done started st)
    by_fields root true started st f w = (refl, record { fresh = f; within = w })
    by_fields root false true st f w =
        by_loop root (back st) (backward_loop st) (backward_loop-Last st w)
    by_fields none false false st f w =
        (refl, record { fresh = λ h. ground (arith, h); within = w })
    by_fields (some n) false false st f w =
        let (p, w') = back-push_right n st w in
        let e = p ∙ ap (λ ws. back ws ++ contents n) (f refl) in
        by_loop (some n) (contents n) (backward_loop (push_right n st)) (
          subst (λ ys. Last ys (backward_loop (push_right n st))) e
            (backward_loop-Last (push_right n st) w'))
