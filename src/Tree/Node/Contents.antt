-- ===== src/Tree/Node/Contents.antt =====
-- The pairs that a node stands for, in order, and what the functions on one node do to them.
use blueberry.Prelude.{
  ℕ, zero, suc, ◌+◌, ◌≤◌, ◌<◌, ◌≡◌, refl, sym, ap, ◌∙◌, List, [], ◌∷◌, ◌++◌, append_assoc,
  append-nil, length, get_or, set, take, drop, arith, length-take, length-drop,
}
use blueberry.Tree.Order.{Kv}
use blueberry.Tree.Search.{no_kv}
use blueberry.Tree.Node.{
  Node, Rest, leaf, branch, end, more, rest_items, nitems, Kids, child_at, set_child, set_rest_item,
  put_split, cut, split, join_rest,
}

-- the pairs of a node, and of the rest of a branch, in order
unfoldable mutual
  pub contents : Node → List Kv
  contents (leaf xs) = xs
  contents (branch c r) = contents c ++ rest_contents r

  pub rest_contents : Rest → List Kv
  rest_contents end = []
  rest_contents (more kv d r) = kv ∷ (contents d ++ rest_contents r)

abbrev pub kids_contents : Kids → List Kv
kids_contents (c, r) = contents c ++ rest_contents r

-- what stands before the child `i`, and behind it
unfoldable pub before : Node → Rest → ℕ → List Kv
before c r zero = []
before c end (suc i) = []
before c (more kv d r) (suc i) = contents c ++ kv ∷ before d r i

unfoldable pub behind : Rest → ℕ → List Kv
behind r zero = rest_contents r
behind end (suc i) = []
behind (more kv d r) (suc i) = behind r i

-- A branch is what is before a child, the child, and what is behind.
pub contents-child_at :
    (c : Node) (r : Rest) (i : ℕ)
    → i ≤ length (rest_items r)
    → contents c ++ rest_contents r ≡ before c r i ++ (contents (child_at c r i) ++ behind r i)
unfolding contents child_at before behind
contents-child_at c r zero h = refl
contents-child_at c end (suc i) h = absurd (omega arith)
contents-child_at c (more kv d r) (suc i) h =
    ap (λ xs. contents c ++ kv ∷ xs) (contents-child_at d r i (omega arith))
    ∙ sym (append_assoc (contents c) (kv ∷ before d r i) (contents (child_at d r i) ++ behind r i))

pub contents-set_child :
    (c : Node) (r : Rest) (i : ℕ) (n : Node)
    → i ≤ length (rest_items r)
    → kids_contents (set_child c r i n) ≡ before c r i ++ (contents n ++ behind r i)
unfolding contents set_child before behind
contents-set_child c r zero n h = refl
contents-set_child c end (suc i) n h = absurd (omega arith)
contents-set_child c (more kv d r) (suc i) n h =
    ap (λ xs. contents c ++ kv ∷ xs) (contents-set_child d r i n (omega arith))
    ∙ sym (append_assoc (contents c) (kv ∷ before d r i) (contents n ++ behind r i))

pub contents-put_split :
    (c : Node) (r : Rest) (i : ℕ) (left : Node) (kv : Kv) (right : Node)
    → i ≤ length (rest_items r)
    → kids_contents (put_split c r i left kv right)
      ≡ before c r i ++ ((contents left ++ kv ∷ contents right) ++ behind r i)
unfolding contents put_split before behind
contents-put_split c r zero left kv right h =
    sym (append_assoc (contents left) (kv ∷ contents right) (rest_contents r))
contents-put_split c end (suc i) left kv right h = absurd (omega arith)
contents-put_split c (more old d r) (suc i) left kv right h =
    ap (λ xs. contents c ++ old ∷ xs) (contents-put_split d r i left kv right (omega arith))
    ∙ sym (
        append_assoc (contents c) (old ∷ before d r i)
          ((contents left ++ kv ∷ contents right) ++ behind r i))

-- what is behind the item `i`
unfoldable pub behind_item : Rest → ℕ → List Kv
unfolding contents
behind_item end i = []
behind_item (more kv d r) zero = contents d ++ rest_contents r
behind_item (more kv d r) (suc i) = behind_item r i

pub behind-item :
    (r : Rest) (i : ℕ)
    → i < length (rest_items r)
    → behind r i ≡ get_or (rest_items r) i no_kv ∷ behind_item r i
unfolding behind behind_item contents
behind-item end i h = absurd (omega arith)
behind-item (more kv d r) zero h = refl
behind-item (more kv d r) (suc i) h = behind-item r i (omega arith)

pub rest_items-set :
    (r : Rest) (i : ℕ) (kv : Kv) → rest_items (set_rest_item r i kv) ≡ set (rest_items r) i kv
unfolding set_rest_item
rest_items-set end i kv = refl
rest_items-set (more old d r) zero kv = refl
rest_items-set (more old d r) (suc i) kv = ap (◌∷◌ old) (rest_items-set r i kv)

-- the child `i` and the item behind it written
pub contents-set_item :
    (c : Node) (r : Rest) (i : ℕ) (n : Node) (kv : Kv)
    → i < length (rest_items r)
    → (let k = set_child c r i n in contents k.0 ++ rest_contents (set_rest_item k.1 i kv))
      ≡ before c r i ++ (contents n ++ kv ∷ behind_item r i)
unfolding contents set_child set_rest_item before behind_item
contents-set_item c end i n kv h = absurd (omega arith)
contents-set_item c (more old d r) zero n kv h = refl
contents-set_item c (more old d r) (suc i) n kv h =
    ap (λ xs. contents c ++ old ∷ xs) (contents-set_item d r i n kv (omega arith))
    ∙ sym (append_assoc (contents c) (old ∷ before d r i) (contents n ++ kv ∷ behind_item r i))

-- only an item written
pub contents-set_rest_item :
    (c : Node) (r : Rest) (i : ℕ) (kv : Kv)
    → i < length (rest_items r)
    → contents c ++ rest_contents (set_rest_item r i kv)
      ≡ before c r i ++ (contents (child_at c r i) ++ kv ∷ behind_item r i)
unfolding contents child_at set_rest_item before behind_item
contents-set_rest_item c end i kv h = absurd (omega arith)
contents-set_rest_item c (more old d r) zero kv h = refl
contents-set_rest_item c (more old d r) (suc i) kv h =
    ap (λ xs. contents c ++ old ∷ xs) (contents-set_rest_item d r i kv (omega arith))
    ∙ sym (
        append_assoc (contents c) (old ∷ before d r i)
          (contents (child_at d r i) ++ kv ∷ behind_item r i))

pub take-get_or-drop :
    (xs : List Kv) (i : ℕ) → i < length xs → xs ≡ take i xs ++ get_or xs i no_kv ∷ drop (suc i) xs
take-get_or-drop [] i h = absurd (omega arith)
take-get_or-drop (x ∷ xs) zero h = refl
take-get_or-drop (x ∷ xs) (suc i) h = ap (◌∷◌ x) (take-get_or-drop xs i (omega arith))

cut_lem :
    (c : Node) (r : Rest) (i : ℕ)
    → i < length (rest_items r)
    → (let (k, kv, l) = cut c r i in
        (contents c ++ rest_contents r ≡ kids_contents k ++ kv ∷ kids_contents l)
        × (length (rest_items k.1) ≡ i)
        × (length (rest_items l.1) + i + 1 ≡ length (rest_items r)))
unfolding contents cut
cut_lem c end i h = absurd (omega arith)
cut_lem c (more kv d r) zero h = (
  ap (λ xs. xs ++ kv ∷ (contents d ++ rest_contents r)) (sym (append-nil (contents c))),
  refl,
  omega arith,
)
cut_lem c (more kv d r) (suc i) h =
    let (e, l, m) = cut_lem d r i (omega arith) in
    (
      ap (λ xs. contents c ++ kv ∷ xs) e ∙ sym (append_assoc (contents c) (kv ∷ _) _),
      ap suc l,
      omega (arith, m),
    )

-- The halves of a node and the median between them are the node.
pub split_lem :
    (n : Node)
    → 32 < nitems n
    → (let (left, kv, right) = split n in
        (contents n ≡ contents left ++ kv ∷ contents right)
        × (nitems left ≡ 32)
        × (nitems right + 33 ≡ nitems n))
unfolding contents split
split_lem (leaf xs) h =
    (take-get_or-drop xs 32 h, omega (arith, length-take 32 xs), omega (arith, length-drop 33 xs))
split_lem (branch c r) h = let (e, l, m) = cut_lem c r 32 h in (e, l, omega (arith, m))

pub join_rest_lem :
    (q : Rest) (kv : Kv) (d : Node) (r : Rest)
    → (rest_contents (join_rest q kv d r) ≡ rest_contents q ++ kv ∷ (contents d ++ rest_contents r))
      × (length (rest_items (join_rest q kv d r))
          ≡ length (rest_items q) + length (rest_items r) + 1)
unfolding contents join_rest
join_rest_lem end kv d r = (refl, omega arith)
join_rest_lem (more old c q) kv d r =
    let (e, l) = join_rest_lem q kv d r in
    (
      ap (λ xs. old ∷ (contents c ++ xs)) e
          ∙ ap (◌∷◌ old) (
              sym (
                append_assoc (contents c) (rest_contents q)
                  (kv ∷ (contents d ++ rest_contents r)))),
      omega (arith, l),
    )

pub child_at-set_child :
    (c : Node) (r : Rest) (i : ℕ) (n : Node)
    → i ≤ length (rest_items r)
    → (let k = set_child c r i n in child_at k.0 k.1 i) ≡ n
unfolding child_at set_child
child_at-set_child c r zero n h = refl
child_at-set_child c end (suc i) n h = absurd (omega arith)
child_at-set_child c (more kv d r) (suc i) n h = child_at-set_child d r i n (omega arith)
