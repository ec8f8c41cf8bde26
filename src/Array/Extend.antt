-- ===== src/Array/Extend.antt =====
-- ci_arr_extend: the new elements are NULL.
use blueberry.Prelude.{ℕ, ◌+◌, ◌≤◌, ◌<◌, ◌≡◌, length}
use blueberry.Array.{Array, at}

-- `b` is `a` with the elements from `i` on, `n` of them, set to NULL.
record Zeroed (a b : Array) (i n : ℕ) : Type 0 where
  size_same : b.size ≡ a.size
  len_same : b.len ≡ a.len
  offset_same : b.offset ≡ a.offset
  backed : length b.cells ≡ length a.cells
  inside : (j : ℕ) → i ≤ j → j < i + n → at b j ≡ 0
  outside : (j : ℕ) → j < i → at b j ≡ at a j
