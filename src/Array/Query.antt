-- ===== src/Array/Query.antt =====
-- Searching and comparing arrays, and giving their elements up: ci_arr_find, ci_arr_contains,
-- ci_arr_eq, ci_arr_wrapindex, ci_arr_clear and the destructors.
use blueberry.Prelude.{
  ℕ, zero, suc, ◌+◌, ◌-◌, ◌^◌, ◌≤◌, ◌<◌, ◌≡◌, ◌≢◌, refl, sym, ap, ap₂, ◌∙◌, not, List, [], ◌∷◌,
  ◌++◌, Option, none, some, leb, length, get_or, take, drop, arith, if_elim,
}
use blueberry.Prelude.Words.{add32, sub32}
use blueberry.Prelude.Int.{pos, negsuc, ◌+ℤ◌}
use blueberry.Prelude.Tabulate.{tabulate, tabulate_ext, tabulate-append}
use blueberry.Array.{Array, at, is_wrapped, destroy, clear, wrapindex}
use blueberry.Array.Valid.{IsValid, contents, idx_lem}

-- a block of cells, read out
pub segment_table :
    (xs : List ℕ) (from n : ℕ)
    → from + n ≤ length xs
    → take n (drop from xs) ≡ tabulate n (λ i. get_or xs (from + i) 0)
segment_table xs from zero h = refl
segment_table [] zero (suc n) h = absurd (omega arith)
segment_table [] (suc from) (suc n) h = absurd (omega arith)
segment_table (x ∷ xs) zero (suc n) h = ap₂ ◌∷◌ refl (
    segment_table xs 0 n (omega arith)
    ∙ tabulate_ext n (λ i. get_or xs (0 + i) 0) (λ i. get_or (x ∷ xs) (0 + suc i) 0)
        λ i p. ap (λ k. get_or (x ∷ xs) k 0) {x = suc (0 + i)} (omega arith))
segment_table (x ∷ xs) (suc from) (suc n) h =
    segment_table xs from (suc n) (omega arith)
    ∙ tabulate_ext (suc n) (λ i. get_or xs (from + i) 0) (λ i. get_or (x ∷ xs) (suc from + i) 0)
        λ i p. ap (λ k. get_or (x ∷ xs) k 0) {x = suc (from + i)} (omega arith)

module _ {a : Array} (v : IsValid a) where
  flat_table : a.offset + a.len ≤ a.size → take a.len (drop a.offset a.cells) ≡ contents a
  flat_table h =
      segment_table a.cells a.offset a.len (omega (arith, v.backed))
      ∙ tabulate_ext a.len (λ i. get_or a.cells (a.offset + i) 0) (at a)
          λ i p. ap (λ k. get_or a.cells k 0) (ground (arith, idx_lem v i (omega (arith, v.fits))))

  wrapped_table :
      a.size < a.offset + a.len
      → take (a.size - a.offset) (drop a.offset a.cells)
          ++ take (a.len - (a.size - a.offset)) (drop 0 a.cells)
        ≡ contents a
  wrapped_table h =
      let seg1 = a.size - a.offset in
      ap₂ ◌++◌ (segment_table a.cells a.offset seg1 (omega (arith, v.backed, v.start)))
        (segment_table a.cells 0 (a.len - seg1) (omega (arith, v.backed, v.fits, v.start)))
      ∙ sym (
          ap (λ k. tabulate k (at a)) {y = seg1 + (a.len - seg1)} (omega arith)
          ∙ tabulate-append seg1 (a.len - seg1) (at a)
          ∙ ap₂ ◌++◌
              (tabulate_ext seg1 (at a) (λ i. get_or a.cells (a.offset + i) 0)
                λ i p.
                  ap (λ k. get_or a.cells k 0)
                    (ground (arith, idx_lem v i (omega (arith, v.fits, v.start)))))
              (tabulate_ext (a.len - seg1) (λ i. at a (seg1 + i)) (λ i. get_or a.cells (0 + i) 0)
                λ i p.
                  ap (λ k. get_or a.cells k 0)
                    (ground
                      (arith, idx_lem v (seg1 + i) (omega (arith, v.fits, v.start)), v.start))))

  -- The destructors pass every element to `ci_dec`, once and in order.
  pub destroy-contents : destroy a ≡ contents a
  unfolding destroy
  destroy-contents =
      let seg1 : sub32 a.size a.offset ≡ a.size - a.offset = omega (arith, v.start, v.bounded) in
      let sum : add32 a.offset a.len ≡ a.offset + a.len =
        omega (arith, v.start, v.bounded, v.fits) in
      if_elim (λ xs. xs ≡ contents a) (leb (add32 a.offset a.len) a.size)
        (λ e. flat_table (ground arith))
        (λ e.
          let seg2 : sub32 a.len (a.size - a.offset) ≡ a.len - (a.size - a.offset) =
            ground (arith, v.start, v.bounded, v.fits) in
          rw (seg1, seg2) (wrapped_table (ground arith)))

  -- ci_arr_clear passes every element to `ci_dec`, and leaves a valid empty array.
  pub clear-contents :
      ((clear a).1 ≡ contents a) × IsValid (clear a).0 × (contents (clear a).0 ≡ [])
  unfolding clear
  clear-contents =
      let seg1 : sub32 a.size a.offset ≡ a.size - a.offset = omega (arith, v.start, v.bounded) in
      let sum : add32 a.offset a.len ≡ a.offset + a.len =
        omega (arith, v.start, v.bounded, v.fits) in
      (
        if_elim (λ xs. xs ≡ contents a) (not (is_wrapped a))
            (λ e. flat_table (ground (arith, v.start)))
            (λ e.
              let seg2 : sub32 a.len (a.size - a.offset) ≡ a.len - (a.size - a.offset) =
                ground (arith, v.start, v.bounded, v.fits) in
              rw (seg1, seg2) (wrapped_table (ground arith))),
        record {
          nonempty = v.nonempty;
          bounded = v.bounded;
          start = v.nonempty;
          fits = omega arith;
          backed = v.backed;
        },
        refl,
      )

-- what a search for `x` over the indices `[i, hi)` has to answer
abbrev pub Finds : Array → ℕ → ℕ → ℕ → Option ℕ → Type 0
Finds a x i hi none = (j : ℕ) → i ≤ j → j < hi → at a j ≢ x
Finds a x i hi (some k) = (i ≤ k) × (k < hi) × (at a k ≡ x) × ((j : ℕ) → i ≤ j → j < k → at a j ≢ x)

-- A non-negative index is taken as it is, and `-k` counts from the end; below the start it is the
-- length, which no access accepts.
pub wrapindex_lem :
    (a : Array)
    → a.len < 2 ^ 31
    → ((n : ℕ) → n < 2 ^ 32 → wrapindex a (pos n) ≡ n)
      × ((n : ℕ) → n < a.len → wrapindex a (negsuc n) ≡ a.len - suc n)
      × ((n : ℕ) → a.len ≤ n → wrapindex a (negsuc n) ≡ a.len)
unfolding wrapindex ◌+ℤ◌
wrapindex_lem a h = (λ n p. ground arith, λ n p. ground arith, λ n p. ground arith)
