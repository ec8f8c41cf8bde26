-- ===== src/Array/Reverse.antt =====
-- ci_arr_reverse swaps the elements from both ends until the indices meet.
use mathlib.Core.List.{reverse, reverse-append}
use blueberry.Prelude.{
  ℕ, zero, suc, ◌+◌, ◌-◌, ◌≤◌, ◌<◌, ◌≡◌, ◌≢◌, refl, sym, ap, ap₂, ◌∙◌, List, [], ◌∷◌, ◌++◌, ltb,
  leb, length, get_or, set, length-set, get_or-set_self, get_or-set_ne, arith, if_elim, ℕ_discrete,
}
use blueberry.Prelude.Tabulate.{tabulate, tabulate_ext, tabulate-snoc}
use blueberry.Array.{Array, idx, at, reverse_loop}
use blueberry.Array
use blueberry.Array.Valid.{IsValid, contents, idx-lt, idx_injective}

-- `b` is `a` with the elements from `lo` to `hi` the other way round.
record Mirrored (a b : Array) (lo hi : ℕ) : Type 0 where
  size_same : b.size ≡ a.size
  len_same : b.len ≡ a.len
  offset_same : b.offset ≡ a.offset
  backed : length b.cells ≡ length a.cells
  below : (j : ℕ) → j < lo → at b j ≡ at a j
  above : (j : ℕ) → hi < j → j < a.len → at b j ≡ at a j
  between : (j : ℕ) → lo ≤ j → j ≤ hi → at b j ≡ at a (lo + hi - j)

Mirrored-same : (a : Array) (lo hi : ℕ) → hi ≤ lo → Mirrored a a lo hi
Mirrored-same a lo hi h = record {
  size_same = refl;
  len_same = refl;
  offset_same = refl;
  backed = refl;
  below = λ j p. refl;
  above = λ j p q. refl;
  between = λ j p q. ap (at a) (omega arith);
}

module _ {a : Array} (v : IsValid a) (lo hi : ℕ) (order : lo < hi) (top : hi < a.len) where
  -- one round: the elements at `lo` and `hi` change places
  abbrev exchanged : Array
  exchanged = record a {
    cells =
        set (set a.cells (idx a lo) (get_or a.cells (idx a hi) 0)) (idx a hi)
          (get_or a.cells (idx a lo) 0);
  }

  exchanged-IsValid : IsValid exchanged
  exchanged-IsValid = record {
    nonempty = v.nonempty;
    bounded = v.bounded;
    start = v.start;
    fits = v.fits;
    backed =
        length-set (set a.cells (idx a lo) (get_or a.cells (idx a hi) 0)) (idx a hi)
          (get_or a.cells (idx a lo) 0)
        ∙ length-set a.cells (idx a lo) (get_or a.cells (idx a hi) 0)
        ∙ v.backed;
  }

  first : List ℕ
  first = set a.cells (idx a lo) (get_or a.cells (idx a hi) 0)

  exchanged_hi : at exchanged hi ≡ at a lo
  exchanged_hi =
      get_or-set_self (set a.cells (idx a lo) (get_or a.cells (idx a hi) 0)) (idx a hi)
        (get_or a.cells (idx a lo) 0) 0
        (omega (
          arith,
          length-set a.cells (idx a lo) (get_or a.cells (idx a hi) 0),
          idx-lt v hi,
          v.backed,
        ))

  exchanged_other : (j : ℕ) → j < a.size → j ≢ hi → at exchanged j ≡ get_or first (idx a j) 0
  unfolding first
  exchanged_other j h ne =
      get_or-set_ne (set a.cells (idx a lo) (get_or a.cells (idx a hi) 0)) (idx a hi) (idx a j)
        (get_or a.cells (idx a lo) 0) 0
        (idx_injective v hi j (omega (arith, v.fits)) h (λ e. ne (sym e)))

  exchanged_lo : at exchanged lo ≡ at a hi
  exchanged_lo =
      exchanged_other lo (omega (arith, v.fits)) (omega arith)
      ∙ (unfold first in
          get_or-set_self a.cells (idx a lo) (get_or a.cells (idx a hi) 0) 0
            (omega (arith, idx-lt v lo, v.backed)))

  exchanged_ne : (j : ℕ) → j < a.size → j ≢ lo → j ≢ hi → at exchanged j ≡ at a j
  exchanged_ne j h nl nh =
      exchanged_other j h nh
      ∙ (unfold first in
          get_or-set_ne a.cells (idx a lo) (idx a j) (get_or a.cells (idx a hi) 0) 0
            (idx_injective v lo j (omega (arith, v.fits)) h (λ e. nl (sym e))))

  -- a round and the mirror of what lies between
  Mirrored-step : {b : Array} → Mirrored exchanged b (lo + 1) (hi - 1) → Mirrored a b lo hi
  Mirrored-step m = record {
    size_same = m.size_same;
    len_same = m.len_same;
    offset_same = m.offset_same;
    backed = m.backed ∙ exchanged-IsValid.backed ∙ sym v.backed;
    below = λ j p.
        m.below j (omega arith)
        ∙ exchanged_ne j (omega (arith, v.fits)) (omega arith) (omega arith);
    above = λ j p q.
        m.above j (omega arith) q
        ∙ exchanged_ne j (omega (arith, v.fits)) (omega arith) (omega arith);
    between = λ j p q. elim (ℕ_discrete j lo) [
      | yes e ↦
          m.below j (omega arith) ∙ ap (at exchanged) e ∙ exchanged_lo ∙ ap (at a) (omega arith)
      | no nl ↦ elim (ℕ_discrete j hi) [
        | yes e ↦
            m.above j (omega arith) (omega arith)
            ∙ ap (at exchanged) e
            ∙ exchanged_hi
            ∙ ap (at a) (omega arith)
        | no nh ↦
            m.between j (omega arith) (omega arith)
            ∙ ap (at exchanged) (omega arith)
            ∙ exchanged_ne (lo + hi - j) (omega (arith, v.fits)) (omega arith) (omega arith)
      ]
    ];
  }

reverse_loop-Mirrored :
    (fuel : ℕ) (a : Array) (lo hi : ℕ)
    → IsValid a
    → hi < lo + fuel
    → hi < a.len
    → Mirrored a (reverse_loop fuel a lo hi) lo hi
unfolding reverse_loop
reverse_loop-Mirrored zero a lo hi v f top = Mirrored-same a lo hi (omega arith)
reverse_loop-Mirrored (suc fuel) a lo hi v f top =
    if_elim (λ b. Mirrored a b lo hi) (ltb lo hi)
      (λ e.
        let order : lo < hi = ground arith in
        Mirrored-step v lo hi order top (
          reverse_loop-Mirrored fuel (exchanged v lo hi order top) (lo + 1) (hi - 1)
            (exchanged-IsValid v lo hi order top) (omega arith) (omega arith)))
      (λ e. Mirrored-same a lo hi (ground arith))

reverse-tabulate : (n : ℕ) (f : ℕ → ℕ) → reverse (tabulate n f) ≡ tabulate n (λ i. f (n - 1 - i))
reverse-tabulate zero f = refl
reverse-tabulate (suc n) f =
    reverse-append (f 0 ∷ []) (tabulate n (λ i. f (suc i)))
    ∙ ap (λ xs. xs ++ f 0 ∷ []) (reverse-tabulate n (λ i. f (suc i)))
    ∙ sym (
        tabulate-snoc n (λ i. f (suc n - 1 - i))
        ∙ ap₂ (λ xs y. xs ++ y ∷ [])
            (tabulate_ext n (λ i. f (suc n - 1 - i)) (λ i. f (suc (n - 1 - i)))
              λ i p. ap f (omega arith))
            (ap f (omega arith)))

-- ci_arr_reverse reverses the elements, and keeps the array valid.
pub reverse_lem :
    {a : Array}
    → IsValid a
    → (contents (Array.reverse a) ≡ reverse (contents a)) × IsValid (Array.reverse a)
unfolding Array.reverse
reverse_lem {a} v =
    if_elim (λ b. (contents b ≡ reverse (contents a)) × IsValid b) (leb a.len 1)
      (λ e. (short a (ground arith), v))
      λ e.
        mirrored (reverse_loop-Mirrored a.len a 0 (a.len - 1) v (ground arith) (ground arith))
          (ground arith)
  where
    short : (a : Array) → a.len ≤ 1 → contents a ≡ reverse (contents a)
    short a h =
        tabulate_ext a.len (at a) (λ i. at a (a.len - 1 - i)) (λ i p. ap (at a) (omega arith))
        ∙ sym (reverse-tabulate a.len (at a))

    mirrored :
        {b : Array}
        → Mirrored a b 0 (a.len - 1)
        → 1 < a.len
        → (contents b ≡ reverse (contents a)) × IsValid b
    mirrored {b} m long = (
      ap (λ k. tabulate k (at b)) m.len_same
          ∙ tabulate_ext a.len (at b) (λ i. at a (a.len - 1 - i))
              (λ i p. m.between i (omega arith) (omega arith) ∙ ap (at a) (omega arith))
          ∙ sym (reverse-tabulate a.len (at a)),
      record {
        nonempty = omega (arith, m.size_same, v.nonempty);
        bounded = omega (arith, m.size_same, v.bounded);
        start = omega (arith, m.size_same, m.offset_same, v.start);
        fits = omega (arith, m.size_same, m.len_same, v.fits);
        backed = omega (arith, m.size_same, m.backed, v.backed);
      },
    )
