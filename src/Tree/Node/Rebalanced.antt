-- ===== src/Tree/Node/Rebalanced.antt =====
-- ci_tree_node_rebalance keeps the pairs of a branch and mends the size of a child.
use blueberry.Prelude.{
  ℕ, zero, suc, ◌+◌, ◌≤◌, ◌<◌, ◌≡◌, refl, sym, ap, ◌∙◌, ◌⊎◌, inl, inr, List, ◌∷◌, ◌++◌,
  append_assoc, ltb, if_elim, length, arith, length-append,
}
use blueberry.Tree.Order.{Kv}
use blueberry.Tree.Node.{
  Node, Rest, leaf, branch, end, more, rest_items, nitems, Kids, child_at, set_child, set_rest_item,
  join_rest, join, rotate_right, rotate_left, rebalance_pair, rebalance, max_items, min_items, mend,
}
use blueberry.Tree.Node.Contents.{contents, rest_contents, kids_contents, join_rest_lem}
use blueberry.Tree.Node.Rotated.{rotate_right-Rotates, rotate_left-Rotates}
use blueberry.Tree.Node.Balanced.{
  IsBalanced, IsRest, IsChild, IsKids, to_kids, from_kids, under-IsKids, join_rest-IsRest,
  set_rest_item-IsRest,
}

-- a child that may have one item too few
abbrev pub IsLoose : ℕ → Node → Type 0
IsLoose h n = IsBalanced h n × (30 ≤ nitems n) × (nitems n ≤ max_items)

-- The children of a branch, of which the one at the index may be loose.
abbrev pub IsKidsBut : ℕ → Node → Rest → ℕ → Type 0
IsKidsBut h c r zero = IsLoose h c × IsRest h r
IsKidsBut h c end (suc i) = ⊥
IsKidsBut h c (more kv d r) (suc i) = IsChild h c × IsKidsBut h d r i

pub set_child-IsKidsBut :
    (h : ℕ) (c : Node) (r : Rest) (i : ℕ) (n : Node)
    → i ≤ length (rest_items r)
    → IsKids h (c, r)
    → IsLoose h n
    → (let k = set_child c r i n in IsKidsBut h k.0 k.1 i)
unfolding set_child
set_child-IsKidsBut h c r zero n le (p, rs) q = (q, rs)
set_child-IsKidsBut h c end (suc i) n le k q = absurd (omega arith)
set_child-IsKidsBut h c (more kv d r) (suc i) n le (p, (b, l, u, rs)) q =
    (p, set_child-IsKidsBut h d r i n (omega arith) ((b, l, u), rs) q)

pub set_rest_item-IsKidsBut :
    (h : ℕ) (c : Node) (r : Rest) (i j : ℕ) (kv : Kv)
    → IsKidsBut h c r i
    → IsKidsBut h c (set_rest_item r j kv) i
unfolding set_rest_item
set_rest_item-IsKidsBut h c r zero j kv (p, rs) = (p, set_rest_item-IsRest h r j kv rs)
set_rest_item-IsKidsBut h c end (suc i) j kv b = absurd b
set_rest_item-IsKidsBut h c (more old d r) (suc i) zero kv (p, b) = (p, b)
set_rest_item-IsKidsBut h c (more old d r) (suc i) (suc j) kv (p, b) =
    (p, set_rest_item-IsKidsBut h d r i j kv b)

record Joins (h : ℕ) (left : Node) (kv : Kv) (right n : Node) : Type 0 where
  same : contents n ≡ contents left ++ kv ∷ contents right
  balanced : IsBalanced h n
  size : nitems n ≡ nitems left + nitems right + 1

join-Joins :
    (h : ℕ) (left : Node) (kv : Kv) (right : Node)
    → IsBalanced h left
    → IsBalanced h right
    → Joins h left kv right (join left kv right)
unfolding contents join
join-Joins zero (leaf xs) kv (leaf ys) b d = record {
  same = refl;
  balanced = tt;
  size = omega (arith, length-append xs (kv ∷ ys));
}
join-Joins (suc h) (leaf xs) kv right b d = absurd b
join-Joins zero (leaf xs) kv (branch e q) b d = absurd d
join-Joins zero (branch c r) kv right b d = absurd b
join-Joins (suc h) (branch c r) kv (leaf ys) b d = absurd d
join-Joins (suc h) (branch c q) kv (branch d r) b b' =
    let (p, qs) = to_kids h c q b in
    let j = join_rest_lem q kv d r in
    record {
      same =
          ap (λ zs. contents c ++ zs) j.0
          ∙ sym
              (append_assoc (contents c) (rest_contents q) (kv ∷ (contents d ++ rest_contents r)));
      balanced =
          from_kids h (c, join_rest q kv d r)
            (p, join_rest-IsRest h q kv d r qs (to_kids h d r b'));
      size = j.1;
    }

-- The children are mended: they have the pairs `old`, and at most one item less than `n`.
pub record Mends (h : ℕ) (k : Kids) (old : List Kv) (n : ℕ) : Type 0 where
  pub same : kids_contents k ≡ old
  pub kids : IsKids h k
  pub size : (length (rest_items k.1) ≡ n) ⊎ (length (rest_items k.1) + 1 ≡ n)

rebalance_pair-Mends :
    (h : ℕ) (left : Node) (kv : Kv) (right : Node) (r : Rest)
    → IsBalanced h left
    → IsBalanced h right
    → 30 ≤ nitems left
    → 30 ≤ nitems right
    → 61 ≤ nitems left + nitems right
    → nitems left ≤ 64
    → nitems right ≤ 64
    → (nitems left < 32) ⊎ (nitems right < 32)
    → IsRest h r
    → Mends h
        (rebalance_pair left kv right r)
        (contents left ++ kv ∷ (contents right ++ rest_contents r))
        (suc (length (rest_items r)))
unfolding contents rebalance_pair
rebalance_pair-Mends h left kv right r b d l l' s u u' small rs =
    let j = join-Joins h left kv right b d in
    let x = rotate_right-Rotates h left kv right b d (omega arith) in
    let y = rotate_left-Rotates h left kv right b d (omega arith) in
    let old = contents left ++ kv ∷ (contents right ++ rest_contents r) in
    let n = suc (length (rest_items r)) in
    let p = rotate_right left kv right in
    let q = rotate_left left kv right in
    let gather : (zs ws : List Kv) (z : Kv)
        → zs ++ z ∷ ws ≡ contents left ++ kv ∷ contents right
        → zs ++ z ∷ (ws ++ rest_contents r) ≡ old =
      λ zs ws z e.
        sym (append_assoc zs (z ∷ ws) (rest_contents r))
        ∙ ap (λ vs. vs ++ rest_contents r) e
        ∙ append_assoc (contents left) (kv ∷ contents right) (rest_contents r) in
    if_elim {A = Kids} (λ k. Mends h k old n) (ltb (nitems left + nitems right) max_items)
      (λ lt. record {
        same =
            ap (λ vs. vs ++ rest_contents r) j.same
            ∙ append_assoc (contents left) (kv ∷ contents right) (rest_contents r);
        kids = ((j.balanced, omega (arith, j.size), ground (arith, lt, j.size)), rs);
        size = inr (omega arith);
      })
      (λ ge.
        if_elim {A = Kids} (λ k. Mends h k old n) (ltb (nitems right) (nitems left))
          (λ lt. record {
            same = gather (contents p.0) (contents p.2) p.1 x.same;
            kids = (
              (
                x.left_IsBalanced,
                ground (arith, ge, lt, x.left_size, small),
                ground (arith, ge, lt, x.left_size, small),
              ),
              (
                x.right_IsBalanced,
                ground (arith, ge, lt, x.right_size, small),
                ground (arith, ge, lt, x.right_size, small),
                rs,
              ),
            );
            size = inl (omega arith);
          })
          (λ le. record {
            same = gather (contents q.0) (contents q.2) q.1 y.same;
            kids = (
              (
                y.left_IsBalanced,
                ground (arith, ge, le, y.left_size, small),
                ground (arith, ge, le, y.left_size, small),
              ),
              (
                y.right_IsBalanced,
                ground (arith, ge, le, y.right_size, small),
                ground (arith, ge, le, y.right_size, small),
                rs,
              ),
            );
            size = inl (omega arith);
          }))

pub IsKidsBut-IsKids :
    (h : ℕ) (c : Node) (r : Rest) (i : ℕ)
    → IsKidsBut h c r i
    → 31 ≤ nitems (child_at c r i)
    → IsKids h (c, r)
unfolding child_at
IsKidsBut-IsKids h c r zero ((b, l, u), rs) m = ((b, m, u), rs)
IsKidsBut-IsKids h c end (suc i) b m = absurd b
IsKidsBut-IsKids h c (more kv d r) (suc i) (p, b) m =
    let ((x, l, u), rs) = IsKidsBut-IsKids h d r i b m in (p, (x, l, u, rs))

rebalance-Mends :
    (h : ℕ) (c : Node) (r : Rest) (i : ℕ)
    → 0 < length (rest_items r)
    → IsKidsBut h c r i
    → nitems (child_at c r i) < 32
    → Mends h (rebalance c r i) (contents c ++ rest_contents r) (length (rest_items r))
unfolding rebalance contents child_at
rebalance-Mends h c end i lt b s = absurd (omega arith)
rebalance-Mends h c (more kv d end) zero lt ((b, l, u), (b', l', u', rs)) s =
    rebalance_pair-Mends h c kv d end b b' l (omega arith) (omega arith) u u' (inl s) rs
rebalance-Mends h c (more kv d (more x e r)) zero lt ((b, l, u), (b', l', u', rs)) s =
    rebalance_pair-Mends h c kv d (more x e r) b b' l (omega arith) (omega arith) u u' (inl s) rs
rebalance-Mends h c (more kv d end) (suc zero) lt ((b, l, u), ((b', l', u'), rs)) s =
    rebalance_pair-Mends h c kv d end b b' (omega arith) l' (omega arith) u u' (inr s) rs
rebalance-Mends h c (more kv d end) (suc (suc i)) lt (p, b) s = absurd b
rebalance-Mends h c (more kv d (more x e r)) (suc i) lt (p, b) s =
    let m = rebalance-Mends h d (more x e r) i (omega arith) b s in
    let k = rebalance d (more x e r) i in
    record {
      same = ap (λ zs. contents c ++ kv ∷ zs) m.same;
      kids = under-IsKids h c kv k p m.kids;
      size = elim m.size [ inl e ↦ inl (omega (arith, e)) | inr e ↦ inr (omega (arith, e)) ];
    }

-- the end of ci_tree_node_delete on a branch of which the child at the index may have too few items
pub mend-Mends :
    (h : ℕ) (c : Node) (r : Rest) (i : ℕ)
    → 0 < length (rest_items r)
    → IsKidsBut h c r i
    → Mends h (mend c r i) (contents c ++ rest_contents r) (length (rest_items r))
unfolding mend
mend-Mends h c r i lt b =
    if_elim {A = Kids} (λ k. Mends h k (contents c ++ rest_contents r) (length (rest_items r)))
      (ltb (nitems (child_at c r i)) min_items)
      (λ s. rebalance-Mends h c r i lt b (ground (arith, s)))
      (λ s. record {
        same = refl;
        kids = IsKidsBut-IsKids h c r i b (ground (arith, s));
        size = inl refl;
      })
