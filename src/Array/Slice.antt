-- ===== src/Array/Slice.antt =====
-- ci_arr_slice and ci_arr_copy, against Python's slices.
use Prim.Native.Nat.{min}
use blueberry.Prelude.{
  ℕ, zero, suc, ◌+◌, ◌-◌, ◌^◌, ◌≤◌, ◌<◌, ◌≡◌, refl, sym, ap, ap₂, ◌∙◌, false, List, [], ◌∷◌, Option,
  none, some, leb, length, get_or, set, take, drop, length-set, get_or-set_self, get_or-set_ne,
  arith, Option-cases, ◌⊎◌, inl, inr, if_elim, ℕ_discrete,
}
use blueberry.Prelude.Words.{add32}
use blueberry.Prelude.Int.{ℤ, pos, negsuc, ◌+ℤ◌}
use blueberry.Prelude.Tabulate.{tabulate, tabulate_ext, drop-tabulate, take-tabulate}
use blueberry.Array.{
  Memory, Array, at, new, slice_from, slice_to, slice_loop, slice_range, slice, copy,
}
use blueberry.Array.Valid.{IsValid, contents, idx_lem}

-- where a Python index points in a list of `n` elements
unfoldable pub py_index : ℕ → ℤ → ℕ
py_index n (pos i) = min i n
py_index n (negsuc i) = n - suc i

module _ (a : Array) (small : a.len < 2 ^ 31) where
  pub slice_from_lem : (i : ℤ) → slice_from a i ≡ py_index a.len i
  unfolding slice_from py_index ◌+ℤ◌
  slice_from_lem (pos i) = ground arith
  slice_from_lem (negsuc i) = ground arith

  pub slice_to_lem : (i : ℤ) → slice_to a i ≡ py_index a.len i
  unfolding slice_to py_index ◌+ℤ◌
  slice_to_lem (pos i) = ground arith
  slice_to_lem (negsuc i) = ground arith

py_index-le : (n : ℕ) (i : ℤ) → py_index n i ≤ n
unfolding py_index
py_index-le n (pos i) = omega arith
py_index-le n (negsuc i) = omega arith

-- The loop copies `n` elements from `from + i` on to the cells from `i` on, and lists them.
record Copied (a r : Array) (from i n : ℕ) (s : Array × List ℕ) : Type 0 where
  size_same : s.0.size ≡ r.size
  offset_same : s.0.offset ≡ r.offset
  backed : length s.0.cells ≡ length r.cells
  before : (j : ℕ) → j < i → get_or s.0.cells j 0 ≡ get_or r.cells j 0
  taken : (j : ℕ) → j < n → get_or s.0.cells (i + j) 0 ≡ at a (from + (i + j))
  listed : s.1 ≡ tabulate n (λ j. at a (from + (i + j)))

slice_loop-Copied :
    (a : Array) (from : ℕ) (r : Array) (i n : ℕ)
    → from + (i + n) < 2 ^ 32
    → i + n ≤ length r.cells
    → Copied a r from i n (slice_loop a from r i n)
unfolding slice_loop
slice_loop-Copied a from r i zero h room = record {
  size_same = refl;
  offset_same = refl;
  backed = refl;
  before = λ j p. refl;
  taken = λ j p. absurd (omega arith);
  listed = refl;
}
slice_loop-Copied a from r i (suc n) h room =
    let el = at a (add32 from i) in
    let here : add32 from i ≡ from + i = omega arith in
    let r' = record r { cells = set r.cells i el } in
    let ih =
      slice_loop-Copied a from r' (i + 1) n (omega arith)
        (omega (arith, length-set r.cells i el)) in
    record {
      size_same = ih.size_same;
      offset_same = ih.offset_same;
      backed = ih.backed ∙ length-set r.cells i el;
      before = λ j p. ih.before j (omega arith) ∙ get_or-set_ne r.cells i j el 0 (omega arith);
      taken = λ j p. elim (ℕ_discrete j 0) [
        | yes e ↦
            ap (λ k. get_or (slice_loop a from r' (i + 1) n).0.cells k 0) {y = i} (omega arith)
            ∙ ih.before i (omega arith)
            ∙ get_or-set_self r.cells i el 0 (omega arith)
            ∙ ap (at a) (omega arith)
        | no ne ↦
            ap (λ k. get_or (slice_loop a from r' (i + 1) n).0.cells k 0) {y = i + 1 + (j - 1)}
              (omega arith)
            ∙ ih.taken (j - 1) (omega arith)
            ∙ ap (at a) (omega arith)
      ];
      listed = ap₂ ◌∷◌ (ap (at a) (omega arith)) (
          ih.listed
          ∙ tabulate_ext n (λ j. at a (from + (i + 1 + j))) (λ j. at a (from + (i + suc j)))
              λ j p. ap (at a) (omega arith));
    }

-- What an allocating function answers: a valid array of the elements `xs` with the pointers that it
-- has passed to `ci_inc`, or NULL where the allocator had nothing to give.
abbrev pub Gives : Memory → List ℕ → List ℕ → Option (Array × List ℕ) → Type 0
Gives m xs incs none = ((k : ℕ) × (m.cells k ≡ none)) ⊎ ((k : ℕ) × (m.slot k ≡ none))
Gives m xs incs (some (r, counted)) = IsValid r × (contents r ≡ xs) × (counted ≡ incs)

-- a new array, empty and of the capacity asked for
record Fresh (n : ℕ) (r : Array) : Type 0 where
  size_is : r.size ≡ n
  len_is : r.len ≡ 0
  offset_is : r.offset ≡ 0
  backed : length r.cells ≡ n

new_cases :
    (m : Memory) (n : ℕ)
    → 0 < n
    → ((r : Array) × (new m n ≡ some r) × Fresh n r)
      ⊎ ((new m n ≡ none) × (((k : ℕ) × (m.cells k ≡ none)) ⊎ ((k : ℕ) × (m.slot k ≡ none))))
unfolding new
new_cases m n h = elim (Option-cases (m.slot 24)) [
  | inl e ↦ inr (rw (e, new), inr (24, e))
  | inr (header, e) ↦ elim (Option-cases (m.cells n)) [
    | inl f ↦ inr (ground (arith, e, f), inl (n, f))
    | inr (mem, f) ↦ inl (
      record { small = false; size = n; len = 0; offset = 0; cells = mem },
      ground (arith, e, f),
      record { size_is = refl; len_is = refl; offset_is = refl; backed = m.length-cells n f },
    )
  ]
]

part_table :
    (a : Array) (first n : ℕ)
    → first + n ≤ a.len
    → take n (drop first (contents a)) ≡ tabulate n (λ j. at a (first + j))
part_table a first n h =
    let rest = a.len - first - n in
    ap (λ k. take n (drop first (tabulate k (at a)))) {y = first + (n + rest)} (omega arith)
    ∙ ap (take n) (drop-tabulate first (n + rest) (at a))
    ∙ take-tabulate n rest (λ j. at a (first + j))

module _ (m : Memory) {a : Array} (v : IsValid a) where
  filled :
      (first n : ℕ) {r : Array}
      → 0 < n
      → first + n ≤ a.len
      → Fresh n r
      → let s = slice_loop a first r 0 n in
        IsValid (record (s.0) { len = n })
        × (contents (record (s.0) { len = n }) ≡ tabulate n (λ j. at a (first + j)))
        × (s.1 ≡ tabulate n (λ j. at a (first + j)))
  filled first n {r} h fits fresh =
      let c =
        slice_loop-Copied a first r 0 n (omega (arith, v.fits, v.bounded))
          (omega (arith, fresh.backed)) in
      let s = slice_loop a first r 0 n in
      let w : IsValid (record (s.0) { len = n }) = record {
        nonempty = omega (arith, c.size_same, fresh.size_is);
        bounded = omega (arith, c.size_same, fresh.size_is, v.fits, v.bounded);
        start = omega (arith, c.size_same, c.offset_same, fresh.size_is, fresh.offset_is);
        fits = omega (arith, c.size_same, fresh.size_is);
        backed = omega (arith, c.backed, fresh.backed, c.size_same, fresh.size_is);
      } in
      (
        w,
        tabulate_ext n (at (record (s.0) { len = n })) (λ j. at a (first + j))
            λ j p.
              ap (λ k. get_or s.0.cells k 0) {y = 0 + j}
                (ground (
                  arith,
                  idx_lem w j (omega (arith, w.fits)),
                  c.offset_same,
                  fresh.offset_is,
                  c.size_same,
                  fresh.size_is,
                ))
              ∙ c.taken j p
              ∙ ap (at a) (omega arith),
        c.listed
            ∙ tabulate_ext n (λ j. at a (first + (0 + j))) (λ j. at a (first + j))
                λ j p. ap (at a) (omega arith),
      )

  empty_part :
      (part : List ℕ)
      → part ≡ []
      → Gives m part part (elim (new m 8) [ none ↦ none | some r ↦ some (r, []) ])
  empty_part part e = elim (new_cases m 8 (omega arith)) [
    | inl (r, f, fresh) ↦ rw f (
      record {
        nonempty = omega (arith, fresh.size_is);
        bounded = omega (arith, fresh.size_is);
        start = omega (arith, fresh.size_is, fresh.offset_is);
        fits = omega (arith, fresh.size_is, fresh.len_is);
        backed = fresh.backed ∙ sym fresh.size_is;
      },
      ap (λ k. tabulate k (at r)) fresh.len_is ∙ sym e,
      sym e,
    )
    | inr (f, why) ↦ rw f why
  ]

  filled_part :
      (part : List ℕ) (first n : ℕ)
      → 0 < n
      → first + n ≤ a.len
      → part ≡ tabulate n (λ j. at a (first + j))
      → Gives m part part (elim (new m n) [
        | none ↦ none
        | some r ↦ let (s, incs) = slice_loop a first r 0 n in some (record s { len = n }, incs)
      ])
  filled_part part first n h fits e = elim (new_cases m n h) [
    | inl (r, f, fresh) ↦
        let (w, same, counted) = filled first n h fits fresh in
        rw f (w, same ∙ sym e, counted ∙ sym e)
    | inr (f, why) ↦ rw f why
  ]

  slice_range_lem :
      (first last : ℕ)
      → last ≤ a.len
      → let part = take (last - first) (drop first (contents a)) in
        Gives m part part (slice_range m a first last)
  unfolding slice_range
  slice_range_lem first last h =
      let part = take (last - first) (drop first (contents a)) in
      if_elim (Gives m part part) (leb last first)
        (λ e. empty_part part (ap (λ k. take k (drop first (contents a))) {y = 0} (ground arith)))
        (λ e.
          let n = last - first in
          let fits : first + n ≤ a.len = ground arith in
          filled_part part first n (ground arith) fits (part_table a first n fits))

  -- ci_arr_slice gives a valid array of the elements that Python's slice has, each counted once.
  pub slice_lem :
      (from to : ℤ)
      → let first = py_index a.len from in
        let part = take (py_index a.len to - first) (drop first (contents a)) in
        Gives m part part (slice m a from to)
  unfolding slice
  slice_lem from to =
      let small : a.len < 2 ^ 31 = omega (arith, v.fits, v.bounded) in
      rw (slice_from_lem a small from, slice_to_lem a small to)
        (slice_range_lem (py_index a.len from) (py_index a.len to) (py_index-le a.len to))

  -- ci_arr_copy gives a valid array of the same elements.
  pub copy_lem : Gives m (contents a) (contents a) (copy m a)
  unfolding copy
  copy_lem = rw (← whole) at (slice_lem (pos 0) (pos (2 ^ 31 - 1)))
    where
      whole :
          contents a
          ≡ take
              (py_index a.len (pos (2 ^ 31 - 1)) - py_index a.len (pos 0))
              (drop (py_index a.len (pos 0)) (contents a))
      whole =
          let first : py_index a.len (pos 0) ≡ 0 = unfold py_index in omega arith in
          let last : py_index a.len (pos (2 ^ 31 - 1)) ≡ a.len =
            unfold py_index in omega (arith, v.fits, v.bounded) in
          rw (first, last)
            (sym (
              ap (λ k. take k (contents a)) (omega arith)
              ∙ part_table a 0 a.len (omega arith)
              ∙ tabulate_ext a.len (λ j. at a (0 + j)) (at a) λ j p. ap (at a) (omega arith)))
