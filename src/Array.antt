-- ===== src/Array.antt =====
-- ci_array.c: the array type of the language, a circular buffer of pointers.
-- A pointer is a number and NULL is 0. `Memory` stands for malloc and the slot allocator. A function
-- that writes to `*a` returns the new array; one that calls `ci_inc` or `ci_dec` on elements also
-- returns the pointers that it passes, in the order of the calls.
mod Tests
pub mod Valid
pub mod Deque
pub mod Space
pub mod Query
pub mod Extend
pub mod Reverse
pub mod Slice
pub mod Append
use blueberry.Prelude.{
  ℕ, zero, suc, ◌+◌, ◌-◌, ◌*◌, ◌/◌, ◌%◌, ◌^◌, ◌≡◌, Bool, true, false, ◌&&◌, not, List, [], ◌∷◌,
  ◌++◌, Option, none, some, ltb, leb, ◌==◌, if◌then◌else◌, length, get_or, set, take, drop,
  replicate,
}
use blueberry.Prelude.Words.{add32, sub32, mul32}
use blueberry.Prelude.Int.{ℤ, pos, negsuc, pos_part, ◌+ℤ◌, is_neg, signed32}
use blueberry.Prelude.Blit.{blit}

-- `cells n` is `malloc(n * sizeof(ci_ptr))`, and `slot n` the cells that follow the array header in
-- a slot of `n` bytes that `ci_new` gives; `none` is NULL. What they hold is not known.
pub record Memory : Type 0 where
  pub cells : ℕ → Option (List ℕ)
  pub slot : ℕ → Option (List ℕ)
  pub length-cells : (n : ℕ) {mem : List ℕ} → cells n ≡ some mem → length mem ≡ n
  pub length-slot : (n : ℕ) {mem : List ℕ} → slot n ≡ some mem → length mem ≡ (n - 24) / 8

-- `ci_array`. `small` is the flag CI_OBJ_SMALL and `cells` what `data` points to.
pub record Array : Type 0 where
  pub small : Bool
  pub size : ℕ
  pub len : ℕ
  pub offset : ℕ
  pub cells : List ℕ

abbrev pub default_cap : ℕ
default_cap = 8

abbrev pub space : Array → ℕ
space a = sub32 a.size a.len

-- ci_arr__idx
abbrev pub idx : Array → ℕ → ℕ
idx a i = add32 a.offset i % a.size

-- ci_arr(a, i) as a value
abbrev pub at : Array → ℕ → ℕ
at a i = get_or a.cells (idx a i) 0

abbrev pub is_wrapped : Array → Bool
is_wrapped a = ltb 0 a.len && ltb a.size (add32 a.offset a.len)

abbrev pub seg1_length : Array → ℕ
seg1_length a = sub32 a.size a.offset

abbrev pub seg2_length : Array → ℕ
seg2_length a = sub32 a.len (seg1_length a)

-- the loop of ci_arr__zero_tail, from `i` for `n` rounds
zero_loop : Array → ℕ → ℕ → Array
zero_loop a i zero = a
zero_loop a i (suc n) = zero_loop (record a { cells = set a.cells (idx a i) 0 }) (i + 1) n

pub zero_tail : Array → ℕ → ℕ → Array
zero_tail a from to =
    if a.offset == 0
    then record a { cells = blit a.cells from (replicate (to - from) 0) }
    else zero_loop a from (to - from)

pub rmoffset : Array → List ℕ → List ℕ
rmoffset a dst =
    if a.len == 0
    then dst
    else if not (is_wrapped a)
    then blit dst 0 (take a.len (drop a.offset a.cells))
    else blit (blit dst 0 (take (seg1_length a) (drop a.offset a.cells))) (seg1_length a)
        (take (seg2_length a) a.cells)

-- ci_arr_index; `none` is a failed assertion
pub index : Array → ℕ → Option ℕ
index a i = if ltb i a.len then some (at a i) else none

-- The index is an `intptr_t`.
pub wrapindex : Array → ℤ → ℕ
wrapindex a i =
    if not (is_neg i)
    then pos_part i % 2 ^ 32
    else let wrapped = pos a.len +ℤ i in if is_neg wrapped then a.len else pos_part wrapped % 2 ^ 32

-- ci_arr_set; a failed assertion is `none`
pub put : Array → ℕ → ℕ → Option Array
put a i v = if ltb i a.len then some (record a { cells = set a.cells (idx a i) v }) else none

-- The pointers that ci_arr_destructor and ci_arr_small_destructor pass to `ci_dec`.
pub destroy : Array → List ℕ
destroy a =
    if leb (add32 a.offset a.len) a.size
    then take a.len (drop a.offset a.cells)
    else let seg1 = sub32 a.size a.offset in
      take seg1 (drop a.offset a.cells) ++ take (sub32 a.len seg1) a.cells

-- The emptied array, and the pointers that ci_arr_clear passes to `ci_dec`.
pub clear : Array → Array × List ℕ
clear a =
    let gone =
      if not (is_wrapped a)
      then take a.len (drop a.offset a.cells)
      else take (seg1_length a) (drop a.offset a.cells) ++ take (seg2_length a) a.cells in
    (record a { len = 0; offset = 0 }, gone)

-- the `while (lo < hi)` of ci_arr_reverse
reverse_loop : ℕ → Array → ℕ → ℕ → Array
reverse_loop zero a lo hi = a
reverse_loop (suc fuel) a lo hi =
    let li = idx a lo in
    let ri = idx a hi in
    let tmp = get_or a.cells li 0 in
    let swapped = set (set a.cells li (get_or a.cells ri 0)) ri tmp in
    let rest = reverse_loop fuel (record a { cells = swapped }) (lo + 1) (hi - 1) in
    if ltb lo hi then rest else a

-- `len` rounds are enough: `lo` and `hi` meet.
pub reverse : Array → Array
reverse a = if leb a.len 1 then a else reverse_loop a.len a 0 (a.len - 1)

-- the loop of ci_arr_find over the `n` indices from `i` on; `none` is -1
find_loop : Array → ℕ → ℕ → ℕ → Option ℕ
find_loop a element i zero = none
find_loop a element i (suc n) = if at a i == element then some i else find_loop a element (i + 1) n

pub find : Array → ℕ → ℕ → Option ℕ
find a element start = find_loop a element start (a.len - start)

pub contains : Array → ℕ → Bool
contains a element = elim (find a element 0) [ none ↦ false | some _ ↦ true ]

-- the loop of ci_arr_eq
eq_loop : Array → Array → ℕ → ℕ → Bool
eq_loop a b i zero = true
eq_loop a b i (suc n) = if not (at a i == at b i) then false else eq_loop a b (i + 1) n

-- `same` tells that the two pointers are equal.
pub eq : Bool → Array → Array → Bool
eq same a b = if same then true else if not (a.len == b.len) then false else eq_loop a b 0 a.len

-- ci_arr_slice: how `from` and `to` are resolved
pub slice_from : Array → ℤ → ℕ
slice_from a from =
    let off =
      if is_neg from
      then (let f = signed32 a.len +ℤ from in if is_neg f then 0 else pos_part f)
      else pos_part from in
    if ltb a.len off then a.len else off

pub slice_to : Array → ℤ → ℕ
slice_to a to =
    if is_neg to
    then (let t = signed32 a.len +ℤ to in if is_neg t then 0 else pos_part t)
    else if ltb a.len (pos_part to)
    then a.len
    else pos_part to

-- the loop of ci_arr_slice: `n` elements of `a` from `from + i` on are stored from cell `i` on
slice_loop : Array → ℕ → Array → ℕ → ℕ → Array × List ℕ
slice_loop a from result i zero = (result, [])
slice_loop a from result i (suc n) =
    let el = at a (add32 from i) in
    let (r, incs) = slice_loop a from (record result { cells = set result.cells i el }) (i + 1) n in
    (r, el ∷ incs)

-- the capacity that ci_arr_upgrade asks for
pub upgrade_cap : Array → ℕ
upgrade_cap a =
    let cap = if ltb a.size a.len then a.len else a.size in if cap == 0 then default_cap else cap

-- `src` of ci_arr_append: the array `dst` itself, or another
pub data Source : Type 0 where
  itself : Source
  other : Array → Source

abbrev pub source_of : Source → Array → Array
source_of itself dst = dst
source_of (other src) dst = src

-- The loop of ci_arr_append over the `n` indices from `i` on. Every round writes at the index
-- `dst->length`, which the loop does not change.
append_loop : Array → Source → ℕ → ℕ → Array × List ℕ
append_loop dst src i zero = (dst, [])
append_loop dst src i (suc n) =
    let el = at (source_of src dst) i in
    let (d, incs) =
      append_loop (record dst { cells = set dst.cells (idx dst dst.len) el }) src (i + 1) n in
    (d, el ∷ incs)

module _ (m : Memory) where
  -- ci_arr__linearize: success, and the array
  pub linearize : Array → ℕ → Bool × Array
  linearize a newsize = elim (m.cells newsize) [
    | none ↦ (false, a)
    | some mem ↦
        let moved = rmoffset a mem in
        let zeroed =
          if ltb a.len newsize then blit moved a.len (replicate (newsize - a.len) 0) else moved in
        (true, record a { cells = zeroed; size = newsize; offset = 0 })
  ]

  -- the part of ci_arr_upgrade that moves the elements to `cap` fresh cells
  move_out : Array → ℕ → Bool × Array
  move_out a cap = elim (m.cells cap) [
    | none ↦ (false, a)
    | some mem ↦ (true, record a { small = false; cells = rmoffset a mem; size = cap; offset = 0 })
  ]

  pub upgrade : Array → Bool × Array
  upgrade a = if not a.small then (true, a) else move_out a (upgrade_cap a)

  pub ensure_continuous : Array → Bool × Array
  ensure_continuous a =
      if a.small then upgrade a else if not (is_wrapped a) then (true, a) else linearize a a.size

  -- the part of ci_arr_ensure_space that reallocates
  grow : Array → ℕ → Bool × Array
  grow a n =
      let doubled = mul32 a.size 2 in
      linearize a (if ltb doubled (add32 a.len n) then add32 a.len n else doubled)

  pub ensure_space : Array → ℕ → Bool × Array
  ensure_space a n =
      if leb (add32 a.len n) a.size
      then (true, a)
      else if a.small
      then (let (done, b) = upgrade a in
          if not done
          then (false, b)
          else if leb (add32 b.len n) b.size
          then (true, b)
          else grow b n)
      else grow a n

  -- what ci_arr_push and ci_arr_unshift do first
  room : Array → Bool × Array
  room a = if a.len == a.size then ensure_space a 1 else (true, a)

  pub push : Array → ℕ → Bool × Array
  push a v =
      let (done, b) = room a in
      if not done
      then (false, b)
      else (true, record b { cells = set b.cells (idx b b.len) v; len = add32 b.len 1 })

  pub unshift : Array → ℕ → Bool × Array
  unshift a v =
      let (done, b) = room a in
      let offset = if b.offset == 0 then b.size - 1 else b.offset - 1 in
      if not done
      then (false, b)
      else (true, record b { offset = offset; cells = set b.cells offset v; len = add32 b.len 1 })

  pub extend : Array → ℕ → Bool × Array
  extend a newlen =
      let (done, b) = ensure_space a (newlen - a.len) in
      if leb newlen a.len
      then (true, a)
      else if not done
      then (false, b)
      else (true, record (zero_tail b b.len newlen) { len = newlen })

  pub new : ℕ → Option Array
  new n =
      let alloc = if n == 0 then default_cap else n in
      let filled : List ℕ → Array =
        λ mem. record { small = false; size = alloc; len = 0; offset = 0; cells = mem } in
      elim (m.slot 24) [
        | none ↦ none
        | some _ ↦ elim (m.cells alloc) [ none ↦ none | some mem ↦ some (filled mem) ]
      ]

  -- the pool that ci_arr_new_inline picks, by its slot size in bytes
  abbrev pub pool : ℕ → Option ℕ
  pool nelems =
      let need = (24 + nelems * 8) % 2 ^ 32 in
      if leb need 128
      then some 128
      else if leb need 256
      then some 256
      else if leb need 1024
      then some 1024
      else if leb need 2048
      then some 2048
      else none

  pub new_inline : ℕ → Option Array
  new_inline nelems = elim (pool nelems) [
    | none ↦ none
    | some bytes ↦ elim (m.slot bytes) [
      | none ↦ none
      | some mem ↦
          some (record { small = true; size = (bytes - 24) / 8; len = 0; offset = 0; cells = mem })
    ]
  ]

  -- Success, the array, and the pointers passed to `ci_inc`.
  pub append : Array → Source → Bool × Array × List ℕ
  append dst src =
      let n = (source_of src dst).len in
      let (done, b) = ensure_space dst n in
      let (c, incs) = append_loop b src 0 n in
      if n == 0
      then (true, dst, [])
      else if not done
      then (false, b, [])
      else (true, record c { len = add32 c.len n }, incs)

  -- the part of ci_arr_slice behind the resolved range
  slice_range : Array → ℕ → ℕ → Option (Array × List ℕ)
  slice_range a first last =
      if leb last first
      then elim (new default_cap) [ none ↦ none | some r ↦ some (r, []) ]
      else elim (new (last - first)) [
        | none ↦ none
        | some r ↦
            let (s, incs) = slice_loop a first r 0 (last - first) in
            some (record s { len = last - first }, incs)
      ]

  -- The slice, and the pointers passed to `ci_inc`.
  pub slice : Array → ℤ → ℤ → Option (Array × List ℕ)
  slice a from to = slice_range a (slice_from a from) (slice_to a to)

  -- ci_arr_copy passes INT32_MAX
  pub copy : Array → Option (Array × List ℕ)
  copy a = slice a (pos 0) (pos (2 ^ 31 - 1))

pub pop : Array → Option ℕ × Array
pop a =
    if a.len == 0
    then (none, a)
    else (some (at (record a { len = a.len - 1 }) (a.len - 1)), record a { len = a.len - 1 })

pub shift : Array → Option ℕ × Array
shift a = if a.len == 0 then (none, a) else (
  some (get_or a.cells a.offset 0),
  record a { offset = add32 a.offset 1 % a.size; len = a.len - 1 },
)
