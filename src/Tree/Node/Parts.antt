-- ===== src/Tree/Node/Parts.antt =====
-- The pairs of a node as those before an item, the item, and those behind it.
use blueberry.Prelude.{
  ◌≤◌, ℕ, zero, suc, ◌+◌, ◌<◌, ◌≡◌, refl, sym, ap, ◌∙◌, List, [], ◌∷◌, ◌++◌, append_assoc, length,
  get_or, set, take, drop, arith, length-append, length-set,
}
use blueberry.Tree.Order.{Kv}
use blueberry.Tree.Search.{no_kv}
use blueberry.Tree.Node.{
  Node, Rest, leaf, branch, rest_items, end, more, items, nitems, child_at, set_item, insert_at,
}
use blueberry.Tree.Node.Contents.{
  behind, contents, rest_contents, before, behind_item, behind-item, contents-child_at,
  take-get_or-drop, contents-set_rest_item, rest_items-set,
}
use blueberry.Tree.Node.Balanced.{IsBalanced, set_rest_item-IsRest}

-- A branch is what is before an item, the item, and what is behind it.
pub contents-item :
    (c : Node) (r : Rest) (i : ℕ)
    → i < length (rest_items r)
    → contents c ++ rest_contents r
      ≡ (before c r i ++ contents (child_at c r i))
        ++ get_or (rest_items r) i no_kv ∷ behind_item r i
contents-item c r i h =
    contents-child_at c r i (omega arith)
    ∙ ap (λ xs. before c r i ++ (contents (child_at c r i) ++ xs)) (behind-item r i h)
    ∙ sym (
        append_assoc (before c r i) (contents (child_at c r i))
          (get_or (rest_items r) i no_kv ∷ behind_item r i))

-- what stands before and behind an item of a node
unfoldable pub front : Node → ℕ → List Kv
front (leaf xs) i = take i xs
front (branch c r) i = before c r i ++ contents (child_at c r i)

unfoldable pub rear : Node → ℕ → List Kv
rear (leaf xs) i = drop (suc i) xs
rear (branch c r) i = behind_item r i

pub contents-items :
    (n : Node) (i : ℕ)
    → i < nitems n
    → contents n ≡ front n i ++ get_or (items n) i no_kv ∷ rear n i
unfolding contents front rear
contents-items (leaf xs) i h = take-get_or-drop xs i h
contents-items (branch c r) i h = contents-item c r i h

pub take-drop : (xs : List Kv) (i : ℕ) → take i xs ++ drop i xs ≡ xs
take-drop xs zero = refl
take-drop [] (suc i) = refl
take-drop (x ∷ xs) (suc i) = ap (◌∷◌ x) (take-drop xs i)

pub contents-set_items :
    (n : Node) (i : ℕ) (kv : Kv)
    → i < nitems n
    → contents (set_item n i kv) ≡ front n i ++ kv ∷ rear n i
unfolding contents front rear set_item
contents-set_items (leaf xs) i kv h = set_lem xs i h
  where
    set_lem :
        (ys : List Kv) (j : ℕ) → j < length ys → set ys j kv ≡ take j ys ++ kv ∷ drop (suc j) ys
    set_lem [] j h = absurd (omega arith)
    set_lem (y ∷ ys) zero h = refl
    set_lem (y ∷ ys) (suc j) h = ap (◌∷◌ y) (set_lem ys j (omega arith))
contents-set_items (branch c r) i kv h =
    contents-set_rest_item c r i kv h
    ∙ sym (append_assoc (before c r i) (contents (child_at c r i)) (kv ∷ behind_item r i))

-- An item written keeps the shape and the number of the items.
pub set_item-IsBalanced :
    (h : ℕ) (n : Node) (i : ℕ) (kv : Kv) → IsBalanced h n → IsBalanced h (set_item n i kv)
unfolding set_item
set_item-IsBalanced zero (leaf xs) i kv b = tt
set_item-IsBalanced (suc h) (leaf xs) i kv b = absurd b
set_item-IsBalanced zero (branch c r) i kv b = absurd b
set_item-IsBalanced (suc h) (branch c r) i kv (b, l, u, rs) =
    (b, l, u, set_rest_item-IsRest h r i kv rs)

pub nitems-set_item : (n : Node) (i : ℕ) (kv : Kv) → nitems (set_item n i kv) ≡ nitems n
unfolding set_item
nitems-set_item (leaf xs) i kv = length-set xs i kv
nitems-set_item (branch c r) i kv =
    ap length (rest_items-set r i kv) ∙ length-set (rest_items r) i kv

pub length-insert_at : (xs : List Kv) (i : ℕ) (kv : Kv) → length (insert_at xs i kv) ≡ length xs + 1
length-insert_at xs i kv =
    let l = length-append (take i xs) (kv ∷ drop i xs) in
    let m = length-append (take i xs) (drop i xs) in
    let e = ap length (take-drop xs i) in omega (arith, l, m, e)

pub drop_all : (xs : List Kv) (k : ℕ) → length xs ≤ k → drop k xs ≡ []
drop_all [] zero h = refl
drop_all [] (suc k) h = refl
drop_all (x ∷ xs) zero h = absurd (omega arith)
drop_all (x ∷ xs) (suc k) h = drop_all xs k (omega arith)

pub nothing_behind : (r : Rest) (i : ℕ) → length (rest_items r) ≤ i → behind r i ≡ []
unfolding behind contents
nothing_behind end zero h = refl
nothing_behind end (suc i) h = refl
nothing_behind (more kv d r) zero h = absurd (omega arith)
nothing_behind (more kv d r) (suc i) h = nothing_behind r i (omega arith)

-- Behind an item stands the next child.
pub behind-child_at :
    (c : Node) (r : Rest) (i : ℕ)
    → i < length (rest_items r)
    → behind r i
      ≡ get_or (rest_items r) i no_kv ∷ (contents (child_at c r (suc i)) ++ behind r (suc i))
unfolding behind child_at contents
behind-child_at c end i h = absurd (omega arith)
behind-child_at c (more kv d r) zero h = refl
behind-child_at c (more kv d r) (suc i) h = behind-child_at d r i (omega arith)

-- Before the next child stands a child and then an item.
pub before-child_at :
    (c : Node) (r : Rest) (i : ℕ)
    → i < length (rest_items r)
    → before c r (suc i)
      ≡ before c r i ++ (contents (child_at c r i) ++ get_or (rest_items r) i no_kv ∷ [])
unfolding before child_at contents
before-child_at c end i h = absurd (omega arith)
before-child_at c (more kv d r) zero h = refl
before-child_at c (more kv d r) (suc i) h =
    ap (λ xs. contents c ++ kv ∷ xs) (before-child_at d r i (omega arith))
    ∙ sym (
        append_assoc (contents c) (kv ∷ before d r i)
          (contents (child_at d r i) ++ get_or (rest_items r) i no_kv ∷ []))
