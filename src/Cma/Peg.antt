-- ===== src/Cma/Peg.antt =====
-- The meaning of a pattern as a parsing expression grammar has it, without stacks, captures and marks:
-- from a position of the input, a pattern takes the bytes up to another, or does not match.
pub mod Leaves
pub mod Sound
pub mod Unique
pub mod Refines
pub mod Loops
use blueberry.Prelude.{
  ℕ, zero, suc, ◌+◌, ◌≤◌, ◌<◌, ◌≡◌, ◌≢◌, Bool, true, ◌&&◌, Option, none, some, length, get_or, take,
  drop, ltb, leb, eq_list, if◌then◌else◌,
}
use blueberry.Cma.{
  Bytes, Op, Ops, no_ops, op, str_op, set_op, and_op, or_op, not_op, ahead_op, rep_op, rep_set_op,
  cap_op, endl_op, noop_op, lower_all, Tag,
}

-- What is matched: a pattern, each of some in turn, the first of some that matches, or the rounds of a
-- repetition from the count on.
pub data Goal : Type 0 where
  pat : Op → Goal
  each : Ops → Goal
  one_of : Ops → Goal
  rounds : ℕ → ℕ → Op → ℕ → Goal

-- the text stands at the position
abbrev pub stands : Bytes → Bool → Bytes → ℕ → Bool
stands input insensitive buf p =
    let here = take (length buf) (drop p input) in
    if insensitive then eq_list (lower_all here) (lower_all buf) else eq_list here buf

-- the result of a repetition that stops
abbrev pub stops : ℕ → ℕ → ℕ → Option ℕ
stops least count p = if ltb count least then none else some p

pub data Takes (input : Bytes) : Goal → ℕ → Option ℕ → Type 0 where
  text :
      {buf : Bytes} {i : Bool} {p : ℕ} {r : Option ℕ}
      → r ≡ (if stands input i buf p then some (p + length buf) else none)
      → Takes input (pat (str_op buf i)) p r
  char :
      {bits : ℕ → Bool} {p : ℕ} {r : Option ℕ}
      → r ≡ (if ltb p (length input) && bits (get_or input p 0) then some (p + 1) else none)
      → Takes input (pat (set_op bits)) p r
  endl :
      {p : ℕ} {r : Option ℕ}
      → r ≡ (if leb (length input) p then some p else none)
      → Takes input (pat endl_op) p r
  noop : {p : ℕ} → Takes input (pat noop_op) p (some p)
  in_turn :
      {os : Ops} {p : ℕ} {r : Option ℕ}
      → Takes input (each os) p r
      → Takes input (pat (and_op os)) p r
  each_done : {p : ℕ} → Takes input (each no_ops) p (some p)
  each_step :
      {o : Op} {os : Ops} {p q : ℕ} {r : Option ℕ}
      → Takes input (pat o) p (some q)
      → Takes input (each os) q r
      → Takes input (each (op o os)) p r
  each_miss :
      {o : Op} {os : Ops} {p : ℕ} → Takes input (pat o) p none → Takes input (each (op o os)) p none
  choice :
      {os : Ops} {p : ℕ} {r : Option ℕ}
      → Takes input (one_of os) p r
      → Takes input (pat (or_op os)) p r
  none_left : {p : ℕ} → Takes input (one_of no_ops) p none
  first :
      {o : Op} {os : Ops} {p q : ℕ}
      → Takes input (pat o) p (some q)
      → Takes input (one_of (op o os)) p (some q)
  later :
      {o : Op} {os : Ops} {p : ℕ} {r : Option ℕ}
      → Takes input (pat o) p none
      → Takes input (one_of os) p r
      → Takes input (one_of (op o os)) p r
  not_hit :
      {o : Op} {p q : ℕ} → Takes input (pat o) p (some q) → Takes input (pat (not_op o)) p none
  not_miss : {o : Op} {p : ℕ} → Takes input (pat o) p none → Takes input (pat (not_op o)) p (some p)
  ahead_hit :
      {o : Op} {p q : ℕ}
      → Takes input (pat o) p (some q)
      → Takes input (pat (ahead_op o)) p (some p)
  ahead_miss : {o : Op} {p : ℕ} → Takes input (pat o) p none → Takes input (pat (ahead_op o)) p none
  repeated :
      {least most : ℕ} {o : Op} {p : ℕ} {r : Option ℕ}
      → Takes input (rounds least most o 0) p r
      → Takes input (pat (rep_op least most o)) p r
  repeated_set :
      {least most : ℕ} {bits : ℕ → Bool} {p : ℕ} {r : Option ℕ}
      → Takes input (rounds least most (set_op bits) 0) p r
      → Takes input (pat (rep_set_op least most bits)) p r
  round_full :
      {least most : ℕ} {o : Op} {p count : ℕ} {r : Option ℕ}
      → most ≤ count
      → r ≡ stops least count p
      → Takes input (rounds least most o count) p r
  round_miss :
      {least most : ℕ} {o : Op} {p count : ℕ} {r : Option ℕ}
      → count < most
      → Takes input (pat o) p none
      → r ≡ stops least count p
      → Takes input (rounds least most o count) p r
  round_empty :
      {least most : ℕ} {o : Op} {p count : ℕ} {r : Option ℕ}
      → count < most
      → Takes input (pat o) p (some p)
      → r ≡ stops least count p
      → Takes input (rounds least most o count) p r
  round_step :
      {least most : ℕ} {o : Op} {p q count : ℕ} {r : Option ℕ}
      → count < most
      → Takes input (pat o) p (some q)
      → q ≢ p
      → Takes input (rounds least most o (count + 1)) q r
      → Takes input (rounds least most o count) p r
  captured :
      {o : Op} {tag : Tag} {p : ℕ} {r : Option ℕ}
      → Takes input (pat o) p r
      → Takes input (pat (cap_op tag o)) p r
