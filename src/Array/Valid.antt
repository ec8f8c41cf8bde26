-- ===== src/Array/Valid.antt =====
-- The representation invariant of `ci_array`, and the arithmetic of the circular index under it.
use native.Mathlib.Nat.{mod-eq_of_lt, mod-eq-sub-mod}
use blueberry.Prelude.{
  ℕ, ◌+◌, ◌-◌, ◌%◌, ◌^◌, ◌≤◌, ◌<◌, ◌≡◌, ◌≢◌, List, ltb, if◌then◌else◌, length, get_or, set, arith,
  dec_lt, get_or-set_self, get_or-set_ne, ap, ◌∙◌,
}
use blueberry.Prelude.Tabulate.{tabulate, length-tabulate}
use blueberry.Array.{Array, idx, at}

-- `small` keeps the sums of the code below 2 ^ 32, and its lengths in the range of int32_t.
pub record IsValid (a : Array) : Type 0 where
  pub nonempty : 0 < a.size
  pub bounded : a.size < 2 ^ 31
  pub start : a.offset < a.size
  pub fits : a.len ≤ a.size
  pub backed : length a.cells ≡ a.size

-- The elements, in their order.
abbrev pub contents : Array → List ℕ
contents a = tabulate a.len (at a)

pub length-contents : (a : Array) → length (contents a) ≡ a.len
length-contents a = length-tabulate a.len (at a)

pub wrap_mod :
    (o i s : ℕ) → o < s → i ≤ s → (o + i) % s ≡ (if ltb (o + i) s then o + i else o + i - s)
wrap_mod o i s ho hi = elim (dec_lt (o + i) s) [
  | yes p ↦ ground (arith, mod-eq_of_lt p)
  | no p ↦ ground (
    arith,
    mod-eq-sub-mod {n = o + i} {m = s} (omega arith),
    mod-eq_of_lt {n = o + i - s} {m = s} (omega arith),
  )
]

module _ {a : Array} (v : IsValid a) where
  pub idx_lem :
      (i : ℕ)
      → i ≤ a.size
      → idx a i ≡ (if ltb (a.offset + i) a.size then a.offset + i else a.offset + i - a.size)
  idx_lem i h =
      ap (λ k. k % a.size) (mod-eq_of_lt {n = a.offset + i} {m = 2 ^ 32} (omega arith))
      ∙ wrap_mod a.offset i a.size v.start h

  pub idx-lt : (i : ℕ) → idx a i < a.size
  idx-lt i = omega arith

  pub idx_injective : (i j : ℕ) → i < a.size → j < a.size → i ≢ j → idx a i ≢ idx a j
  idx_injective i j hi hj ne e = ground (arith, idx_lem i (omega arith), idx_lem j (omega arith))

  -- a write at a logical index, seen at another
  pub at-set_self : (i x : ℕ) → i < a.size → get_or (set a.cells (idx a i) x) (idx a i) 0 ≡ x
  at-set_self i x h = get_or-set_self a.cells (idx a i) x 0 (omega (arith, idx-lt i))

  pub at-set_ne :
      (i j x : ℕ)
      → i < a.size
      → j < a.size
      → i ≢ j
      → get_or (set a.cells (idx a i) x) (idx a j) 0 ≡ at a j
  at-set_ne i j x hi hj ne =
      get_or-set_ne a.cells (idx a i) (idx a j) x 0 (idx_injective i j hi hj ne)
