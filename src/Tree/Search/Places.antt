-- ===== src/Tree/Search/Places.antt =====
-- Both searches find where a key stands, or belongs, among sorted items.
use Prim.Native.Nat.{Ordering}
use blueberry.Prelude.{
  ℕ, zero, suc, ◌+◌, ◌-◌, ◌/◌, ◌≤◌, ◌<◌, ◌≡◌, ap, ◌∙◌, inl, inr, Bool, true, false, ◌&&◌, List, [],
  ◌∷◌, ltb, if_elim, Bool-cases, length, get_or, All, arith,
}
use blueberry.Tree.Order.{Kv, IsOrder, IsSorted, Below, Ordering-cases, flip_lt, flip}
use blueberry.Tree.Search.{
  no_kv, key_at, bsearch_loop, bsearch, hint_loop, hinted, noted, bsearch_hint,
}

equal_of_not_lt : (i j : ℕ) → (i < j → ⊥) → (j < i → ⊥) → i ≡ j
equal_of_not_lt i j h k = omega arith

module _ (cmp : ℕ → ℕ → Ordering) where
  -- Where `key` stands, or between which items it belongs.
  abbrev pub IsPlace : List Kv → ℕ → Bool × ℕ → Type 0
  IsPlace items key (true, i) = (i < length items) × (cmp key (key_at items i) ≡ Ordering.eq)
  IsPlace items key (false, i) =
      (i ≤ length items)
      × ((j : ℕ) → j < i → cmp key (key_at items j) ≡ Ordering.gt)
      × ((j : ℕ) → i ≤ j → j < length items → cmp key (key_at items j) ≡ Ordering.lt)

  key_at-All :
      (P : Kv → Type 0) (xs : List Kv) (j : ℕ) → j < length xs → All P xs → P (get_or xs j no_kv)
  key_at-All P [] j h all = absurd (omega arith)
  key_at-All P (x ∷ xs) zero h (p, all) = p
  key_at-All P (x ∷ xs) (suc j) h (p, all) = key_at-All P xs j (omega arith) all

  key_at-lt :
      (xs : List Kv) (i j : ℕ)
      → IsSorted cmp xs
      → i < j
      → j < length xs
      → cmp (key_at xs i) (key_at xs j) ≡ Ordering.lt
  key_at-lt [] i j s h k = absurd (omega arith)
  key_at-lt (x ∷ xs) i zero s h k = absurd (omega arith)
  key_at-lt (x ∷ xs) zero (suc j) (b, s) h k = key_at-All (Below cmp x.key) xs j (omega arith) b
  key_at-lt (x ∷ xs) (suc i) (suc j) (b, s) h k = key_at-lt xs i j s (omega arith) (omega arith)

  module _ (o : IsOrder cmp) (items : List Kv) (s : IsSorted cmp items) (key : ℕ) where
    -- what a loop knows: the key is above what is below `lo`, and below what is at `hi` or above
    record Bounds (lo hi : ℕ) : Type 0 where
      inside : hi ≤ length items
      above : (j : ℕ) → j < lo → cmp key (key_at items j) ≡ Ordering.gt
      below : (j : ℕ) → hi ≤ j → j < length items → cmp key (key_at items j) ≡ Ordering.lt

    whole : Bounds 0 (length items)
    whole = record {
      inside = omega arith;
      above = λ j h. absurd (omega arith);
      below = λ j h k. absurd (omega arith);
    }

    lower_Bounds :
        (lo hi mid : ℕ)
        → Bounds lo hi
        → mid < length items
        → cmp key (key_at items mid) ≡ Ordering.lt
        → Bounds lo mid
    lower_Bounds lo hi mid b h e = record {
      inside = omega arith;
      above = b.above;
      below = λ j le lt. elim (Bool-cases (ltb mid j)) [
        | inl more ↦
            o.cmp-trans key (key_at items mid) (key_at items j) e
              (key_at-lt items mid j s (ground (arith, more)) lt)
        | inr same ↦
            ap (λ m. cmp key (key_at items m)) {x = j} {y = mid} (ground (arith, same, le)) ∙ e
      ];
    }

    upper_Bounds :
        (lo hi mid : ℕ)
        → Bounds lo hi
        → mid < length items
        → cmp key (key_at items mid) ≡ Ordering.gt
        → Bounds (mid + 1) hi
    upper_Bounds lo hi mid b h e = record {
      inside = b.inside;
      above = λ j lt. elim (Bool-cases (ltb j mid)) [
        | inl less ↦
            o.cmp-flip (key_at items j) key
            ∙ ap flip (
                o.cmp-trans (key_at items j) (key_at items mid) key
                  (key_at-lt items j mid s (ground (arith, less)) h)
                  (flip_lt cmp o key (key_at items mid) e))
        | inr same ↦
            ap (λ m. cmp key (key_at items m)) {x = j} {y = mid} (ground (arith, same, lt)) ∙ e
      ];
      below = b.below;
    }

    done_IsPlace :
        (lo hi : ℕ) → Bounds lo hi → hi ≤ lo → lo ≤ length items → IsPlace items key (false, lo)
    done_IsPlace lo hi b h k = (k, b.above, λ j le. b.below j (omega arith))

    hint_loop-IsPlace :
        (fuel lo hi : ℕ)
        → Bounds lo hi
        → lo ≤ length items
        → hi < fuel + lo
        → IsPlace items key (hint_loop cmp items key fuel lo hi)
    unfolding hint_loop
    hint_loop-IsPlace zero lo hi b k h = done_IsPlace lo hi b (omega arith) k
    hint_loop-IsPlace (suc fuel) lo hi b k h =
        let mid = (lo + (hi - 1)) / 2 in
        if_elim (IsPlace items key) (ltb lo hi)
          (λ lt.
            let inside : mid < length items = ground (arith, lt, b.inside) in
            elim (Ordering-cases (cmp key (key_at items mid))) [
              | inl e ↦ rw e (
                  hint_loop-IsPlace fuel lo mid (lower_Bounds lo hi mid b inside e) k
                    (ground (arith, lt)))
              | inr (inl e) ↦ rw e (inside, e)
              | inr (inr e) ↦ rw e (
                  hint_loop-IsPlace fuel (mid + 1) hi (upper_Bounds lo hi mid b inside e)
                    (omega arith) (ground (arith, lt)))
            ])
          (λ ge. done_IsPlace lo hi b (ground (arith, ge)) k)

    noted-IsPlace :
        (hint : List ℕ) (depth lo hi : ℕ)
        → Bounds lo hi
        → lo ≤ length items
        → IsPlace items key (noted cmp hint items key depth lo hi).0
    unfolding noted
    noted-IsPlace hint depth lo hi b k =
        hint_loop-IsPlace (length items + 1) lo hi b k (omega (arith, b.inside))

    -- For any hint, ci_tree_bsearch_hint on items sorted by a total order finds the key, or the
    -- index where it belongs.
    pub bsearch_hint-IsPlace :
        (hint : List ℕ) (depth : ℕ) → IsPlace items key (bsearch_hint cmp hint items key depth).0
    unfolding bsearch_hint
    bsearch_hint-IsPlace hint depth =
        let idx = hinted hint items depth in
        if_elim {A = (Bool × ℕ) × List ℕ} (λ r. IsPlace items key r.0) (ltb depth 8 && ltb 0 idx)
          (λ p.
            let inside : idx < length items = ground (arith, p) in
            elim (Ordering-cases (cmp key (key_at items idx))) [
              | inl e ↦ rw e (
                  noted-IsPlace hint depth 0 idx (lower_Bounds 0 (length items) idx whole inside e)
                    (omega arith))
              | inr (inl e) ↦ rw e (inside, e)
              | inr (inr e) ↦ rw e (
                  noted-IsPlace hint depth (idx + 1) (length items)
                    (upper_Bounds 0 (length items) idx whole inside e) (omega arith))
            ])
          (λ _. noted-IsPlace hint depth 0 (length items) whole (omega arith))

    bsearch_loop-IsPlace :
        (fuel lo hi : ℕ)
        → Bounds lo hi
        → lo ≤ length items
        → hi < fuel + lo
        → IsPlace items key (bsearch_loop cmp items key fuel lo hi)
    unfolding bsearch_loop
    bsearch_loop-IsPlace zero lo hi b k h = done_IsPlace lo hi b (omega arith) k
    bsearch_loop-IsPlace (suc fuel) lo hi b k h =
        let mid = (lo + hi) / 2 in
        if_elim (IsPlace items key) (ltb lo hi)
          (λ lt.
            let inside : mid < length items = ground (arith, lt, b.inside) in
            elim (Ordering-cases (cmp key (key_at items mid))) [
              | inl e ↦ rw e (
                  bsearch_loop-IsPlace fuel lo mid (lower_Bounds lo hi mid b inside e) k
                    (ground (arith, lt)))
              | inr (inl e) ↦ rw e (inside, e)
              | inr (inr e) ↦ rw e (
                  bsearch_loop-IsPlace fuel (mid + 1) hi (upper_Bounds lo hi mid b inside e)
                    (omega arith) (ground (arith, lt)))
            ])
          (λ ge. done_IsPlace lo hi b (ground (arith, ge)) k)

    two_equal :
        (i j : ℕ)
        → i < j
        → j < length items
        → cmp key (key_at items i) ≡ Ordering.eq
        → cmp key (key_at items j) ≡ Ordering.eq
        → ⊥
    two_equal i j h k e f =
        let l = key_at-lt items i j s h k in
        let g = o.cmp-congr key (key_at items i) (key_at items j) e in cc

    none_equal :
        (i j : ℕ)
        → IsPlace items key (false, j)
        → i < length items
        → cmp key (key_at items i) ≡ Ordering.eq
        → ⊥
    none_equal i j (k, above, below) h e = elim (Bool-cases (ltb i j)) [
      | inl less ↦ let f = above i (ground (arith, less)) in cc
      | inr more ↦ let f = below i (ground (arith, more)) h in cc
    ]

    no_gap : (i j : ℕ) → i < j → IsPlace items key (false, i) → IsPlace items key (false, j) → ⊥
    no_gap i j h (k, above, below) (k', above', below') =
        let e = above' i h in let f = below i (omega arith) (omega arith) in cc

    -- There is one place.
    IsPlace-unique : (p q : Bool × ℕ) → IsPlace items key p → IsPlace items key q → p ≡ q
    IsPlace-unique (true, i) (true, j) (h, e) (k, f) =
        ap (λ n. (true, n))
          (equal_of_not_lt i j (λ l. two_equal i j l k e f) (λ l. two_equal j i l h f e))
    IsPlace-unique (true, i) (false, j) (h, e) q = absurd (none_equal i j q h e)
    IsPlace-unique (false, i) (true, j) p (k, f) = absurd (none_equal j i p k f)
    IsPlace-unique (false, i) (false, j) p q =
        ap (λ n. (false, n)) (equal_of_not_lt i j (λ l. no_gap i j l p q) (λ l. no_gap j i l q p))

    -- On items sorted by a total order ci_tree_bsearch_hint, with any hint, gives what
    -- ci_tree_bsearch gives.
    pub bsearch_hint-bsearch :
        (hint : List ℕ) (depth : ℕ)
        → (bsearch_hint cmp hint items key depth).0 ≡ bsearch cmp items key
    unfolding bsearch
    bsearch_hint-bsearch hint depth =
        IsPlace-unique (bsearch_hint cmp hint items key depth).0
          (bsearch_loop cmp items key (length items + 1) 0 (length items))
          (bsearch_hint-IsPlace hint depth)
          (bsearch_loop-IsPlace (length items + 1) 0 (length items) whole (omega arith)
            (omega arith))
