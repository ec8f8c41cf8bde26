-- ===== src/Cma/Build.antt =====
-- cma/cma.c: the functions that set up opcodes and sets of characters, and cma_init, cma_match and
-- cma_run. A C string is the list of its bytes before the terminator. The name of a sequence is
-- for dumps: here it only says whether there is one.
pub mod Sets
pub mod Fast
use blueberry.Prelude.{
  ℕ, zero, suc, ◌+◌, ◌-◌, Bool, true, false, not, ◌||◌, Option, none, some, List, [], ◌∷◌, ltb,
  ◌==◌, if◌then◌else◌, ◌&&◌,
}
use blueberry.Cma.{
  Bytes, Tag, Op, Ops, no_ops, op, str_op, set_op, and_op, or_op, not_op, ahead_op, rep_op,
  rep_set_op, cap_op, ref_op, exec_op, State, Outcome, matched, missed, jumped, no_fuel, Hooks,
  call,
}

abbrev pub Bits : Type 0
Bits = ℕ → Bool

-- CMA_BIT_SET
abbrev pub bit_set : ℕ → Bits → Bits
bit_set ch bits c = c == ch || bits c

-- `for (c = lo; c <= hi; c++)`, of so many rounds
pub fill_from : ℕ → ℕ → Bits → Bits
fill_from zero c bits = bits
fill_from (suc rounds) c bits = fill_from rounds (c + 1) (bit_set c bits)

pub fill_range : ℕ → ℕ → Bits → Bits
fill_range start stop bits =
    if ltb stop start
    then fill_from (start + 1 - stop) stop bits
    else fill_from (stop + 1 - start) start bits

-- 45 is '-'
pub fill_str : Bytes → Bits → Bits
fill_str [] bits = bits
fill_str (a ∷ []) bits = bit_set a bits
fill_str (a ∷ b ∷ []) bits = bit_set b (bit_set a bits)
fill_str (a ∷ b ∷ c ∷ rest) bits = elim (b == 45) [
  | true ↦ fill_str rest (fill_range a c bits)
  | false ↦ fill_str (b ∷ c ∷ rest) (bit_set a bits)
]

pub fill_chrs : Bytes → Bits → Bits
fill_chrs [] bits = bits
fill_chrs (c ∷ cs) bits = fill_chrs cs (bit_set c bits)

abbrev pub invert : Bits → Bits
invert bits c = not (bits c)

-- the bits that cma_init_set clears
abbrev pub no_bits : Bits
no_bits c = false

abbrev pub init_str : Bytes → Bool → Op
init_str buf insensitive = str_op buf insensitive

abbrev pub init_and : Bool → Ops → Op
init_and has_name (op o no_ops) = if has_name then and_op (op o no_ops) else o
init_and has_name os = and_op os

abbrev pub init_or : Bool → Ops → Op
init_or has_name (op o no_ops) = if has_name then or_op (op o no_ops) else o
init_or has_name os = or_op os

-- cma_init_not, cma_init_ahead, cma_init_ref and cma_init_cap fill in a record of one shape each.
abbrev pub init_rep : ℕ → ℕ → Op → Op
init_rep min max (set_op bits) = rep_set_op min max bits
init_rep min max p = rep_op min max p

unfoldable pub start : Bytes → State
start input = record {
  input = input;
  pos = 0;
  saves = [];
  caps = [];
  farthest = 0;
  end_is_miss = true;
}

-- The result, none for -1, and the state; none at the outside when the calls nested too deep.
abbrev pub finished : Outcome → Option (Option ℕ × State)
finished (matched s) = some (some s.pos, s)
finished (missed s) = some (none, s)
finished (jumped s) = some (none, s)
finished no_fuel = none

module _ (hooks : Hooks) where
  unfoldable pub match_with : ℕ → State → Op → Option (Option ℕ × State)
  match_with fuel s o = finished (call hooks fuel s o)

  unfoldable pub run : ℕ → Op → Bytes → Option (Option ℕ × State)
  run fuel o input = match_with fuel (start input) o
