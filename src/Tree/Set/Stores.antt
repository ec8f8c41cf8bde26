-- ===== src/Tree/Set/Stores.antt =====
-- ci_tree_set on the whole tree: it ends, keeps what holds between two calls, and puts the pair in.
use Prim.Native.Nat.{Ordering}
use blueberry.Prelude.{
  ℕ, zero, suc, ◌+◌, ◌*◌, ◌%◌, ◌^◌, ◌≤◌, ◌<◌, ◌≡◌, refl, sym, ap, ◌∙◌, subst, Bool, true, false,
  not, Option, none, some, List, [], ◌∷◌, ◌++◌, append-nil, if_elim, length, arith,
}
use blueberry.Tree.Order.{Kv, IsOrder, IsSorted, lookup, insert, insert-IsSorted}
use blueberry.Tree.Node.{Node, branch, end, more, nitems, split, max_items}
use blueberry.Tree.Node.Contents.{contents, split_lem}
use blueberry.Tree.Node.Balanced.{IsBalanced, split-IsBalanced}
use blueberry.Tree.State.{
  Tree, IsTree, IsRoot, pairs, pairs_of, levels, levels-IsBalanced, levels_lt,
}
use blueberry.Tree.Set.{
  Mut, nochange, nomem, must_split, inserted, replaced, deleted, Env, Out, Result, finish,
  split_root, set_root, node_set, set_loop, set_at, set,
}
use blueberry.Tree.Set.Inserts.{Fails, Sets, IsAdded, node_set-IsAdded}

module _ (cmp : ℕ → ℕ → Ordering) where
  -- a list with a pair put in for a new key, or for an old one
  pub length-insert_new :
      (kv : Kv) (xs : List Kv)
      → lookup cmp kv.key xs ≡ none
      → length (insert cmp kv xs) ≡ length xs + 1
  unfolding lookup insert
  length-insert_new kv [] h = refl
  length-insert_new kv (x ∷ xs) h = let ih = length-insert_new kv xs in ground (arith, h, ih)

  pub length-insert_old :
      (kv : Kv) (xs : List Kv) (x : Kv)
      → lookup cmp kv.key xs ≡ some x
      → length (insert cmp kv xs) ≡ length xs
  unfolding lookup insert
  length-insert_old kv [] y h = ground (arith, h)
  length-insert_old kv (x ∷ xs) y h = let ih = length-insert_old kv xs y in ground (arith, h, ih)

module _ (cmp : ℕ → ℕ → Ordering) (alloc : ℕ → Bool) where
  -- A call returns 1 and the pair is put in, or 0, and the pairs stay because an allocation failed.
  abbrev pub Returns : Bool → List Kv → Kv → List Kv → Type 0
  Returns true old item now = now ≡ insert cmp item old
  Returns false old item now = (now ≡ old) × Fails cmp alloc

  abbrev pub IsStored : List Kv → Kv → Result → Type 0
  IsStored old item none = ⊥
  IsStored old item (some (ok, t, used)) = IsTree cmp t × Returns ok old item (pairs t)

  module _ (o : IsOrder cmp) (item : Kv) (old : List Kv) (sorted : IsSorted cmp old) (count : ℕ)
      (counted : count ≡ length old % 2 ^ 32) where
    -- what the loop knows of its arguments
    record Ready (h height : ℕ) (n : Node) : Type 0 where
      balanced : IsBalanced h n
      some_items : 1 ≤ nitems n
      small : nitems n ≤ max_items
      same : contents n ≡ old
      high : height ≡ (h + 1) % 2 ^ 16

    finish-kept :
        (h height : ℕ) (n : Node) (env : Env)
        → Ready h height n
        → Fails cmp alloc
        → IsStored old item (finish false n count height env)
    finish-kept h height n env x fails = (
      record {
        shape = (
          h,
          x.balanced,
          x.some_items,
          x.small,
          subst (IsSorted cmp) (sym x.same) sorted,
          x.high,
        );
        counted = counted ∙ ap (λ xs. length xs % 2 ^ 32) (sym x.same);
      },
      (x.same, fails),
    )

    split_root-IsStored :
        (h height : ℕ) (n : Node) (env : Env) (again : ℕ → Env → Node → Result)
        → ((e : Env) (m : Node)
            → Ready (suc h) ((height + 1) % 2 ^ 16) m
            → IsStored old item (again ((height + 1) % 2 ^ 16) e m))
        → Ready h height n
        → nitems n ≡ max_items
        → IsStored old item (split_root alloc again n count height env)
    unfolding split_root contents
    split_root-IsStored h height n env again ih x full =
        let (left, median, right) = split n in
        let (halves, l32, r31) = split_lem n (omega (arith, full)) in
        let (bl, br) = split-IsBalanced h n (omega (arith, full)) x.balanced in
        let once : Env = record { hint = env.hint; used = env.used + 1 } in
        let twice : Env = record { hint = env.hint; used = env.used + 2 } in
        if_elim {A = Result} (IsStored old item) (not (alloc env.used))
          (λ a. finish-kept h height n once x (env.used, ground (arith, a)))
          (λ a.
            if_elim {A = Result} (IsStored old item) (not (alloc (env.used + 1)))
              (λ b. finish-kept h height n twice x (env.used + 1, ground (arith, b)))
              (λ b. ih twice (branch left (more median right end)) (record {
                balanced = (
                  bl,
                  omega (arith, l32),
                  omega (arith, l32),
                  (br, omega (arith, r31, full), omega (arith, r31, full), tt),
                );
                some_items = omega arith;
                small = omega arith;
                same =
                    ap (λ zs. contents left ++ median ∷ zs) (append-nil (contents right))
                    ∙ sym halves
                    ∙ x.same;
                high = omega (arith, x.high);
              })))

    set_root-IsStored :
        (h height lo : ℕ) (again : ℕ → Env → Node → Result) (out : Out)
        → ((e : Env) (m : Node)
            → Ready (suc h) ((height + 1) % 2 ^ 16) m
            → IsStored old item (again ((height + 1) % 2 ^ 16) e m))
        → height ≡ (h + 1) % 2 ^ 16
        → 1 ≤ lo
        → IsAdded cmp alloc h lo old item out
        → IsStored old item (set_root alloc again count height out)
    unfolding set_root
    set_root-IsStored h height lo again none ih e le x = x
    set_root-IsStored h height lo again (some (m, n, env)) ih e le x = by_result m x
      where
        shaped :
            (w : Mut)
            → Sets cmp alloc h lo old item w n
            → contents n ≡ insert cmp item old
            → IsRoot cmp (some n) height
        shaped w y same = (
          h,
          y.balanced,
          omega (arith, y.larger, le),
          y.small,
          subst (IsSorted cmp) (sym same) (insert-IsSorted cmp o item old sorted),
          e,
        )

        ready : (w : Mut) → Sets cmp alloc h lo old item w n → contents n ≡ old → Ready h height n
        ready w y same = record {
          balanced = y.balanced;
          some_items = omega (arith, y.larger, le);
          small = y.small;
          same = same;
          high = e;
        }

        by_result :
            (w : Mut)
            → Sets cmp alloc h lo old item w n
            → IsStored old item (set_root alloc again count height (some (w, n, env)))
        by_result inserted y = (
          record {
            shape = shaped inserted y y.to.0;
            counted =
                omega (arith, counted, ap length y.to.0, length-insert_new cmp item old y.to.1);
          },
          y.to.0,
        )
        by_result replaced y =
            let (same, (z, f)) = y.to in
            (
              record {
                shape = shaped replaced y same;
                counted =
                    omega (arith, counted, ap length same, length-insert_old cmp item old z f);
              },
              same,
            )
        by_result nomem y = finish-kept h height n env (ready nomem y y.to.0) y.to.1
        by_result must_split y =
            split_root-IsStored h height n env again ih (ready must_split y y.to.0) y.to.1
        by_result nochange y = absurd y.to
        by_result deleted y = absurd y.to

    set_loop-IsStored :
        (fuel h height : ℕ) (env : Env) (n : Node)
        → length old < fuel + h
        → Ready h height n
        → IsStored old item (set_loop alloc cmp fuel item count height env n)
    unfolding set_loop
    set_loop-IsStored zero h height env n lt x =
        absurd (omega (arith, lt, levels_lt h n x.balanced x.some_items, ap length x.same))
    set_loop-IsStored (suc fuel) h height env n lt x =
        set_root-IsStored h height (nitems n) (set_loop alloc cmp fuel item count)
          (node_set alloc cmp (levels n * 66 + 66) 0 item env n)
          (λ e m y.
            set_loop-IsStored fuel (suc h) ((height + 1) % 2 ^ 16) e m (omega (arith, lt)) y)
          x.high x.some_items
          (subst
            (λ xs.
              IsAdded cmp alloc h (nitems n) xs item
                (node_set alloc cmp (levels n * 66 + 66) 0 item env n))
            x.same
            (node_set-IsAdded cmp alloc o item (levels n * 66 + 66) h 0 env n
              (omega (arith, levels-IsBalanced h n x.balanced)) x.balanced x.small
              (subst (IsSorted cmp) (sym x.same) sorted)))

  set_at-IsStored :
      (o : IsOrder cmp) (used : ℕ) (item : Kv) (count height : ℕ) (hint : List ℕ) (r : Option Node)
      → IsRoot cmp r height
      → count ≡ length (pairs_of r) % 2 ^ 32
      → IsStored (pairs_of r) item (set_at alloc cmp used item count height hint r)
  unfolding set_at contents insert
  set_at-IsStored o used item count height hint none e counted =
      if_elim {A = Result} (IsStored [] item) (alloc used)
        (λ a. (
          record {
            shape = (0, tt, omega arith, omega arith, (tt, tt), omega (arith, e));
            counted = omega (arith, counted);
          },
          refl,
        ))
        (λ a. (record { shape = e; counted = counted }, (refl, (used, a))))
  set_at-IsStored o used item count height hint (some n) (h, b, l, u, s, e) counted =
      set_loop-IsStored o item (contents n) s count counted (length (contents n) + 1) h height
        (record { hint = hint; used = used }) n (omega arith)
        (record { balanced = b; some_items = l; small = u; same = refl; high = e })

  -- For a total order of the keys, ci_tree_set ends on every well-formed tree. It returns 1 and the
  -- tree has the pair put into its sorted pairs, or it returns 0, an allocation failed, and the
  -- pairs are the ones before. Either way what holds between two calls holds again: equal depths,
  -- node sizes, order, count and height.
  pub set-IsStored :
      (o : IsOrder cmp) (used : ℕ) (t : Tree) (item : Kv)
      → IsTree cmp t
      → IsStored (pairs t) item (set alloc cmp used t item)
  set-IsStored o used t item x =
      set_at-IsStored o used item t.count t.height t.hint t.root x.shape x.counted
