-- ===== src/Tree/Node/Balanced.antt =====
-- The shape of the tree: all leaves are equally deep, and every node below the root holds between 31
-- items and `max_items`. A split leaves 32 and 31, so that `min_items` is no bound.
use blueberry.Prelude.{ℕ, zero, suc, ◌+◌, ◌≤◌, ◌<◌, ◌≡◌, refl, ap, ◌∷◌, length, arith}
use blueberry.Tree.Order.{Kv}
use blueberry.Tree.Node.{
  Node, Rest, leaf, branch, end, more, rest_items, nitems, Kids, parent, under, child_at, set_child,
  set_rest_item, put_split, cut, split, join_rest, max_items,
}

abbrev mutual
  pub IsBalanced : ℕ → Node → Type 0
  IsBalanced zero (leaf xs) = Unit {0}
  IsBalanced (suc h) (leaf xs) = ⊥
  IsBalanced zero (branch c r) = ⊥
  IsBalanced (suc h) (branch c r) =
      IsBalanced h c × (31 ≤ nitems c) × (nitems c ≤ max_items) × IsRest h r

  pub IsRest : ℕ → Rest → Type 0
  IsRest h end = Unit {0}
  IsRest h (more kv d r) = IsBalanced h d × (31 ≤ nitems d) × (nitems d ≤ max_items) × IsRest h r

-- a node below the root
abbrev pub IsChild : ℕ → Node → Type 0
IsChild h n = IsBalanced h n × (31 ≤ nitems n) × (nitems n ≤ max_items)

abbrev pub IsKids : ℕ → Kids → Type 0
IsKids h (c, r) = IsChild h c × IsRest h r

pub to_kids : (h : ℕ) (c : Node) (r : Rest) → IsBalanced (suc h) (branch c r) → IsKids h (c, r)
to_kids h c r (b, l, u, rs) = ((b, l, u), rs)

pub from_kids : (h : ℕ) (k : Kids) → IsKids h k → IsBalanced (suc h) (parent k)
from_kids h (c, r) ((b, l, u), rs) = (b, l, u, rs)

pub under-IsKids :
    (h : ℕ) (c : Node) (kv : Kv) (k : Kids) → IsChild h c → IsKids h k → IsKids h (under c kv k)
under-IsKids h c kv (d, r) p ((b, l, u), rs) = (p, (b, l, u, rs))

pub child_at-IsChild :
    (h : ℕ) (c : Node) (r : Rest) (i : ℕ) → IsKids h (c, r) → IsChild h (child_at c r i)
unfolding child_at
child_at-IsChild h c r zero (p, rs) = p
child_at-IsChild h c end (suc i) (p, rs) = p
child_at-IsChild h c (more kv d r) (suc i) (p, (b, l, u, rs)) =
    child_at-IsChild h d r i ((b, l, u), rs)

pub set_child-IsKids :
    (h : ℕ) (c : Node) (r : Rest) (i : ℕ) (n : Node)
    → IsKids h (c, r)
    → IsChild h n
    → IsKids h (set_child c r i n)
unfolding set_child
set_child-IsKids h c r zero n (p, rs) q = (q, rs)
set_child-IsKids h c end (suc i) n k q = k
set_child-IsKids h c (more kv d r) (suc i) n (p, (b, l, u, rs)) q =
    under-IsKids h c kv (set_child d r i n) p (set_child-IsKids h d r i n ((b, l, u), rs) q)

-- the items of the branch stay
pub rest_items-set_child :
    (c : Node) (r : Rest) (i : ℕ) (n : Node) → rest_items (set_child c r i n).1 ≡ rest_items r
unfolding set_child
rest_items-set_child c r zero n = refl
rest_items-set_child c end (suc i) n = refl
rest_items-set_child c (more kv d r) (suc i) n = ap (◌∷◌ kv) (rest_items-set_child d r i n)

pub set_rest_item-IsRest :
    (h : ℕ) (r : Rest) (i : ℕ) (kv : Kv) → IsRest h r → IsRest h (set_rest_item r i kv)
unfolding set_rest_item
set_rest_item-IsRest h end i kv rs = rs
set_rest_item-IsRest h (more old d r) zero kv rs = rs
set_rest_item-IsRest h (more old d r) (suc i) kv (b, l, u, rs) =
    (b, l, u, set_rest_item-IsRest h r i kv rs)

pub put_split-IsKids :
    (h : ℕ) (c : Node) (r : Rest) (i : ℕ) (left : Node) (kv : Kv) (right : Node)
    → i ≤ length (rest_items r)
    → IsKids h (c, r)
    → IsChild h left
    → IsChild h right
    → IsKids h (put_split c r i left kv right)
      × (length (rest_items (put_split c r i left kv right).1) ≡ length (rest_items r) + 1)
unfolding put_split
put_split-IsKids h c r zero left kv right le (p, rs) q (b, l, u) = ((q, (b, l, u, rs)), omega arith)
put_split-IsKids h c end (suc i) left kv right le k q q' = absurd (omega arith)
put_split-IsKids h c (more old d r) (suc i) left kv right le (p, (b, l, u, rs)) q q' =
    let (k, e) = put_split-IsKids h d r i left kv right (omega arith) ((b, l, u), rs) q q' in
    (under-IsKids h c old (put_split d r i left kv right) p k, omega (arith, e))

cut-IsKids :
    (h : ℕ) (c : Node) (r : Rest) (i : ℕ)
    → i < length (rest_items r)
    → IsKids h (c, r)
    → (let (k, kv, l) = cut c r i in IsKids h k × IsKids h l)
unfolding cut
cut-IsKids h c end i lt k = absurd (omega arith)
cut-IsKids h c (more kv d r) zero lt (p, (b, l, u, rs)) = ((p, tt), ((b, l, u), rs))
cut-IsKids h c (more kv d r) (suc i) lt (p, (b, l, u, rs)) =
    let (k, m) = cut-IsKids h d r i (omega arith) ((b, l, u), rs) in
    (under-IsKids h c kv (cut d r i).0 p k, m)

pub split-IsBalanced :
    (h : ℕ) (n : Node)
    → 32 < nitems n
    → IsBalanced h n
    → (let (left, kv, right) = split n in IsBalanced h left × IsBalanced h right)
unfolding split
split-IsBalanced zero (leaf xs) lt b = (tt, tt)
split-IsBalanced (suc h) (leaf xs) lt b = absurd b
split-IsBalanced zero (branch c r) lt b = absurd b
split-IsBalanced (suc h) (branch c r) lt b =
    let (k, l) = cut-IsKids h c r 32 lt (to_kids h c r b) in
    (from_kids h (cut c r 32).0 k, from_kids h (cut c r 32).2 l)

pub join_rest-IsRest :
    (h : ℕ) (q : Rest) (kv : Kv) (d : Node) (r : Rest)
    → IsRest h q
    → IsKids h (d, r)
    → IsRest h (join_rest q kv d r)
unfolding join_rest
join_rest-IsRest h end kv d r qs ((b, l, u), rs) = (b, l, u, rs)
join_rest-IsRest h (more old c q) kv d r (b, l, u, qs) k =
    (b, l, u, join_rest-IsRest h q kv d r qs k)
