-- ===== src/Array/Tests.antt =====
-- Concrete arrays, and the theorems at them.
use mathlib.Core.List.{reverse}
use blueberry.Prelude.{
  ℕ, ◌-◌, ◌/◌, ◌≡◌, refl, true, false, List, [], ◌∷◌, some, length, replicate, length-replicate,
  take, drop, arith,
}
use blueberry.Prelude.Int.{pos, negsuc}
use blueberry.Array.{Memory, Array, other, append, slice, copy, destroy, clear, wrapindex}
use blueberry.Array.{push, pop, shift, ensure_space}
use blueberry.Array
use blueberry.Array.Valid.{IsValid, contents}
use blueberry.Array.Deque.{Refines, pop_back, pop_front, pop-Refines, shift-Refines}
use blueberry.Array.Query.{destroy-contents}
use blueberry.Array.Reverse.{reverse_lem}
use blueberry.Array.Slice.{Gives, py_index, slice_lem, copy_lem}
use blueberry.Array.Append.{Appended, append_lem}

some_cells : (n : ℕ) {mem : List ℕ} → some (replicate n 99) ≡ some mem → length mem ≡ n
some_cells n e = ground (arith, length-replicate {A = ℕ} n 99)

some_slot :
    (n : ℕ) {mem : List ℕ}
    → some (replicate ((n - 24) / 8) 99) ≡ some mem
    → length mem ≡ (n - 24) / 8
some_slot n e = ground (arith, length-replicate {A = ℕ} ((n - 24) / 8) 99)

-- malloc that always has memory, filled with 99
abbrev heap : Memory
heap = record {
  cells = λ n. some (replicate n 99);
  slot = λ n. some (replicate ((n - 24) / 8) 99);
  length-cells = some_cells;
  length-slot = some_slot;
}

-- 10, 11, 12 round the end of four cells
abbrev wrapped : Array
wrapped = record { small = false; size = 4; len = 3; offset = 3; cells = 11 ∷ 12 ∷ 0 ∷ 10 ∷ [] }

-- an inline array that is full
abbrev full : Array
full = record { small = true; size = 3; len = 3; offset = 1; cells = 22 ∷ 20 ∷ 21 ∷ [] }

wrapped-IsValid : IsValid wrapped
wrapped-IsValid = omega arith

contents_tests : (contents wrapped ≡ 10 ∷ 11 ∷ 12 ∷ []) × (contents full ≡ 20 ∷ 21 ∷ 22 ∷ [])
contents_tests = (refl, refl)

push-full : contents (push heap full 23).1 ≡ 20 ∷ 21 ∷ 22 ∷ 23 ∷ []
unfolding push Array.room ensure_space Array.upgrade Array.upgrade_cap Array.move_out Array.rmoffset
    Array.grow Array.linearize
push-full = refl

pop-Refines_example : Refines (pop_back (10 ∷ 11 ∷ 12 ∷ [])) (pop wrapped)
pop-Refines_example = pop-Refines wrapped-IsValid

shift-Refines_example : Refines (pop_front (10 ∷ 11 ∷ 12 ∷ [])) (shift wrapped)
shift-Refines_example = shift-Refines wrapped-IsValid

reverse_lem_example :
    (contents (Array.reverse wrapped) ≡ reverse (10 ∷ 11 ∷ 12 ∷ []))
    × IsValid (Array.reverse wrapped)
reverse_lem_example = reverse_lem wrapped-IsValid

destroy-contents_example : destroy wrapped ≡ 10 ∷ 11 ∷ 12 ∷ []
destroy-contents_example = destroy-contents wrapped-IsValid

-- the last two elements
slice_lem_example :
    let first = py_index 3 (negsuc 1) in
    let part = take (py_index 3 (pos 9) - first) (drop first (contents wrapped)) in
    Gives heap part part (slice heap wrapped (negsuc 1) (pos 9))
slice_lem_example = slice_lem heap wrapped-IsValid (negsuc 1) (pos 9)

copy_lem_example : Gives heap (10 ∷ 11 ∷ 12 ∷ []) (10 ∷ 11 ∷ 12 ∷ []) (copy heap wrapped)
copy_lem_example = copy_lem heap wrapped-IsValid

append_lem_example : Appended heap wrapped full (append heap wrapped (other full))
append_lem_example =
    append_lem heap wrapped full wrapped-IsValid (omega arith) (omega arith) (omega arith)
