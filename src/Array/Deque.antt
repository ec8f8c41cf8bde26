-- ===== src/Array/Deque.antt =====
-- The array as a double-ended queue: what push, pop, unshift, shift and extend do to the list of
-- its elements.
use blueberry.Prelude.{
  ℕ, suc, ◌-◌, ◌%◌, ◌<◌, ◌≡◌, ◌≢◌, refl, ap, ap₂, ◌∙◌, Bool, false, List, [], ◌∷◌, ◌++◌, Option,
  none, some, ◌==◌, if◌then◌else◌, get_or, set, arith, if_elim,
}
use blueberry.Prelude.Words.{add32}
use blueberry.Prelude.Tabulate.{tabulate, tabulate_ext, tabulate-snoc}
use blueberry.Array.{Memory, Array, idx, at, pop, shift}
use blueberry.Array.Valid.{IsValid, contents, idx_lem}

-- What a call that may fail does to the elements: on success they are `after`, on failure they are
-- what they were, and it fails only if malloc does.
pub record Does (m : Memory) (a : Array) (after : List ℕ) (r : Bool × Array) : Type 0 where
  pub valid : IsValid r.1
  pub result : contents r.1 ≡ (if r.0 then after else contents a)
  pub failed : r.0 ≡ false → (k : ℕ) × (m.cells k ≡ none)

module _ {b : Array} (v : IsValid b) (x : ℕ) (free : b.len < b.size) where
  stored : Array
  stored = record b { cells = set b.cells (idx b b.len) x; len = add32 b.len 1 }

  -- the head moves back by one
  abbrev back : ℕ
  back = if b.offset == 0 then b.size - 1 else b.offset - 1

  prepended : Array
  prepended = record b { offset = back; cells = set b.cells back x; len = add32 b.len 1 }

-- the abstract queue: taking an element from either end
unfoldable pub pop_back : List ℕ → Option ℕ × List ℕ
pop_back [] = (none, [])
pop_back (x ∷ xs) = elim xs [
  | [] ↦ (some x, [])
  | y ∷ ys ↦ let (last, rest) = pop_back xs in (last, x ∷ rest)
]

unfoldable pub pop_front : List ℕ → Option ℕ × List ℕ
pop_front [] = (none, [])
pop_front (x ∷ xs) = (some x, xs)

pop_back-snoc : (xs : List ℕ) (x : ℕ) → pop_back (xs ++ x ∷ []) ≡ (some x, xs)
unfolding pop_back
pop_back-snoc [] x = refl
pop_back-snoc (y ∷ []) x = refl
pop_back-snoc (y ∷ z ∷ xs) x = ap (λ r. (r.0, y ∷ r.1)) (pop_back-snoc (z ∷ xs) x)

-- The call returns what the abstract queue does, and leaves a valid array of the rest.
abbrev pub Refines : Option ℕ × List ℕ → Option ℕ × Array → Type 0
Refines spec r = ((r.0, contents r.1) ≡ spec) × IsValid r.1

module _ {a : Array} (v : IsValid a) where
  contents_empty : a.len ≡ 0 → contents a ≡ []
  contents_empty e = ap (λ k. tabulate k (at a)) e

  contents_snoc : a.len ≢ 0 → contents a ≡ tabulate (a.len - 1) (at a) ++ at a (a.len - 1) ∷ []
  contents_snoc ne =
      ap (λ k. tabulate k (at a)) {y = suc (a.len - 1)} (omega arith)
      ∙ tabulate-snoc (a.len - 1) (at a)

  contents_cons : a.len ≢ 0 → contents a ≡ at a 0 ∷ tabulate (a.len - 1) (λ i. at a (suc i))
  contents_cons ne = ap (λ k. tabulate k (at a)) {y = suc (a.len - 1)} (omega arith)

  -- ci_arr_pop is `pop_back` on the elements, and keeps the array valid.
  pub pop-Refines : Refines (pop_back (contents a)) (pop a)
  unfolding pop
  pop-Refines =
      if_elim (Refines (pop_back (contents a))) (a.len == 0)
        (λ e. (rw (contents_empty (ground arith)) (unfold pop_back in refl), v))
        (λ e. (
          rw (contents_snoc (ground arith), pop_back-snoc),
          record {
            nonempty = v.nonempty;
            bounded = v.bounded;
            start = v.start;
            fits = omega (arith, v.fits);
            backed = v.backed;
          },
        ))

  -- one step of the head round the circle
  next_idx :
      (b : Array)
      → IsValid b
      → b.size ≡ a.size
      → b.offset ≡ add32 a.offset 1 % a.size
      → (i : ℕ) → i < a.size
      → idx b i ≡ idx a (suc i)
  next_idx b w es eo i h =
      ground (arith, idx_lem w i, idx_lem v (suc i), idx_lem v 1, v.start, v.nonempty)

  -- ci_arr_shift is `pop_front` on the elements, and keeps the array valid.
  pub shift-Refines : Refines (pop_front (contents a)) (shift a)
  unfolding shift
  shift-Refines =
      if_elim (Refines (pop_front (contents a))) (a.len == 0)
        (λ e. (rw (contents_empty (ground arith)) (unfold pop_front in refl), v))
        (λ e. (
          rw (contents_cons (ground arith)) (
              unfold pop_front in
              ap₂ (λ x xs. (some x, xs)) (ap (λ k. get_or a.cells k 0) first)
                (tabulate_ext (a.len - 1) (at rest) (λ i. at a (suc i))
                  λ i h.
                    ap (λ k. get_or a.cells k 0)
                      (next_idx rest rest-IsValid refl refl i (omega (arith, v.fits))))),
          rest-IsValid,
        ))
    where
      rest : Array
      rest = record a { offset = add32 a.offset 1 % a.size; len = a.len - 1 }

      rest-IsValid : IsValid rest
      rest-IsValid = record {
        nonempty = v.nonempty;
        bounded = v.bounded;
        start = omega (arith, v.nonempty);
        fits = omega (arith, v.fits);
        backed = v.backed;
      }

      first : a.offset ≡ idx a 0
      first = ground (arith, idx_lem v 0, v.start)
