-- ===== src/Tree/Node/Rotated.antt =====
-- The rotations of ci_tree_node_rebalance keep the pairs of two neighbours and the item between them.
use blueberry.Prelude.{
  ℕ, zero, suc, ◌+◌, ◌-◌, ◌<◌, ◌≡◌, refl, sym, ap, ap₂, ◌∙◌, List, [], ◌∷◌, ◌++◌, append_assoc,
  append-nil, length, get_or, take, drop, arith, length-append, length-take,
}
use blueberry.Tree.Order.{Kv}
use blueberry.Tree.Search.{no_kv}
use blueberry.Tree.Node.{
  Node, Rest, leaf, branch, end, more, rest_items, nitems, Kids, join_rest, pop_last, rotate_right,
  rotate_left,
}
use blueberry.Tree.Node.Contents.{
  contents, rest_contents, kids_contents, join_rest_lem, take-get_or-drop,
}
use blueberry.Tree.Node.Balanced.{
  IsBalanced, IsChild, IsKids, to_kids, from_kids, under-IsKids, join_rest-IsRest,
}

-- Two neighbours and the item between them, before and after a rotation to the right.
pub record Rotates (h : ℕ) (left : Node) (kv : Kv) (right : Node) (r : Node × Kv × Node) (n m : ℕ)
    : Type 0 where
  pub same : contents r.0 ++ r.1 ∷ contents r.2 ≡ contents left ++ kv ∷ contents right
  pub left_IsBalanced : IsBalanced h r.0
  pub right_IsBalanced : IsBalanced h r.2
  pub left_size : nitems r.0 ≡ n
  pub right_size : nitems r.2 ≡ m

record Pops (h : ℕ) (c : Node) (kv : Kv) (d : Node) (r : Rest) (k : Kids × Kv × Node) : Type 0 where
  same :
      contents c ++ kv ∷ (contents d ++ rest_contents r) ≡ kids_contents k.0 ++ k.1 ∷ contents k.2
  front : IsKids h k.0
  back : IsChild h k.2
  size : length (rest_items k.0.1) ≡ length (rest_items r)

pop_last-Pops :
    (h : ℕ) (c : Node) (kv : Kv) (d : Node) (r : Rest)
    → IsChild h c
    → IsKids h (d, r)
    → Pops h c kv d r (pop_last c kv d r)
unfolding contents pop_last
pop_last-Pops h c kv d end p (q, rs) = record {
  same = ap₂ (λ xs ys. xs ++ kv ∷ ys) (sym (append-nil (contents c))) (append-nil (contents d));
  front = (p, tt);
  back = q;
  size = refl;
}
pop_last-Pops h c kv d (more next e r) p (q, (b, l, u, rs)) =
    let t = pop_last-Pops h d next e r q ((b, l, u), rs) in
    let k = pop_last d next e r in
    record {
      same =
          ap (λ xs. contents c ++ kv ∷ xs) t.same
          ∙ sym (append_assoc (contents c) (kv ∷ kids_contents k.0) (k.1 ∷ contents k.2));
      front = under-IsKids h c kv k.0 p t.front;
      back = t.back;
      size = ap suc t.size;
    }

pub rotate_right-Rotates :
    (h : ℕ) (left : Node) (kv : Kv) (right : Node)
    → IsBalanced h left
    → IsBalanced h right
    → 0 < nitems left
    → Rotates h left kv right (rotate_right left kv right) (nitems left - 1) (nitems right + 1)
unfolding contents rotate_right
rotate_right-Rotates zero (leaf xs) kv (leaf ys) b d h = record {
  same =
      sym (append_assoc (take (length xs - 1) xs) (get_or xs (length xs - 1) no_kv ∷ []) (kv ∷ ys))
      ∙ ap (λ zs. zs ++ kv ∷ ys) (last_item xs h);
  left_IsBalanced = tt;
  right_IsBalanced = tt;
  left_size = omega (arith, length-take (length xs - 1) xs);
  right_size = omega arith;
}
  where
    nothing_behind : (zs : List Kv) → drop (length zs) zs ≡ []
    nothing_behind [] = refl
    nothing_behind (z ∷ zs) = nothing_behind zs

    last_item :
        (zs : List Kv)
        → 0 < length zs
        → take (length zs - 1) zs ++ get_or zs (length zs - 1) no_kv ∷ [] ≡ zs
    last_item zs h =
        ap (λ ws. take (length zs - 1) zs ++ get_or zs (length zs - 1) no_kv ∷ ws)
          (sym (nothing_behind zs) ∙ ap (λ k. drop k zs) {y = suc (length zs - 1)} (omega arith))
        ∙ sym (take-get_or-drop zs (length zs - 1) (omega arith))
rotate_right-Rotates (suc h) (leaf xs) kv right b d lt = absurd b
rotate_right-Rotates zero (leaf xs) kv (branch e q) b d h = absurd d
rotate_right-Rotates zero (branch c r) kv right b d lt = absurd b
rotate_right-Rotates (suc h) (branch c r) kv (leaf ys) b d lt = absurd d
rotate_right-Rotates (suc h) (branch c end) kv (branch e q) b d lt = absurd (omega arith)
rotate_right-Rotates (suc h) (branch c (more first d r)) kv (branch e q) b b' lt =
    let (p, (s, l, u, rs)) = to_kids h c (more first d r) b in
    let ((t, l', u'), qs) = to_kids h e q b' in
    let x = pop_last-Pops h c first d r p ((s, l, u), rs) in
    let k = pop_last c first d r in
    record {
      same =
          sym (
            append_assoc (kids_contents k.0) (k.1 ∷ contents k.2)
              (kv ∷ (contents e ++ rest_contents q)))
          ∙ ap (λ zs. zs ++ kv ∷ (contents e ++ rest_contents q)) (sym x.same);
      left_IsBalanced = from_kids h k.0 x.front;
      right_IsBalanced = from_kids h (k.2, more kv e q) (x.back, (t, l', u', qs));
      left_size = omega (arith, x.size);
      right_size = omega arith;
    }

pub rotate_left-Rotates :
    (h : ℕ) (left : Node) (kv : Kv) (right : Node)
    → IsBalanced h left
    → IsBalanced h right
    → 0 < nitems right
    → Rotates h left kv right (rotate_left left kv right) (nitems left + 1) (nitems right - 1)
unfolding contents rotate_left
rotate_left-Rotates zero (leaf xs) kv (leaf []) b d h = absurd (omega arith)
rotate_left-Rotates zero (leaf xs) kv (leaf (y ∷ ys)) b d h = record {
  same = append_assoc xs (kv ∷ []) (y ∷ ys);
  left_IsBalanced = tt;
  right_IsBalanced = tt;
  left_size = length-append xs (kv ∷ []);
  right_size = omega arith;
}
rotate_left-Rotates (suc h) (leaf xs) kv right b d lt = absurd b
rotate_left-Rotates zero (leaf xs) kv (branch e q) b d h = absurd d
rotate_left-Rotates zero (branch c r) kv right b d lt = absurd b
rotate_left-Rotates (suc h) (branch c r) kv (leaf ys) b d lt = absurd d
rotate_left-Rotates (suc h) (branch c q) kv (branch e end) b d lt = absurd (omega arith)
rotate_left-Rotates (suc h) (branch c q) kv (branch e (more first d r)) b b' lt =
    let (p, qs) = to_kids h c q b in
    let (t, (s, l, u, rs)) = to_kids h e (more first d r) b' in
    let j = join_rest_lem q kv e end in
    record {
      same =
          let x = contents d ++ rest_contents r in
          ap (λ zs. (contents c ++ zs) ++ first ∷ x)
            (j.0 ∙ ap (λ ws. rest_contents q ++ kv ∷ ws) (append-nil (contents e)))
          ∙ ap (λ zs. zs ++ first ∷ x)
              (sym (append_assoc (contents c) (rest_contents q) (kv ∷ contents e)))
          ∙ append_assoc (contents c ++ rest_contents q) (kv ∷ contents e) (first ∷ x);
      left_IsBalanced =
          from_kids h (c, join_rest q kv e end) (p, join_rest-IsRest h q kv e end qs (t, tt));
      right_IsBalanced = from_kids h (d, r) ((s, l, u), rs);
      left_size = omega (arith, j.1);
      right_size = omega arith;
    }
