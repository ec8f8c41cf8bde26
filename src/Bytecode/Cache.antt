-- ===== src/Bytecode/Cache.antt =====
-- blueberry.c: bb_build_cached, which turns a function's code into the table of operations that the
-- interpreter runs. `table` tells for which bytes `bb_fast_table` has a handler.
pub mod Decodes
use blueberry.Prelude.{
  ℕ, zero, suc, ◌+◌, ◌*◌, ◌/◌, ◌^◌, Bool, not, List, [], ◌∷◌, Option, none, some, ltb, leb, ◌==◌,
  if◌then◌else◌, length, get_elem?, get_or,
}
use blueberry.Prelude.Words.{add32}
use blueberry.Prelude.Results.{Result, ok, err, ◌>>=◌}

-- `bb_fast_fn`: the entry of the table for a byte, __vmop_opcode_error or bb_op_return_var
pub data Handler : Type 0 where
  fast : ℕ → Handler
  opcode_error return_var : Handler

-- the third argument: a number, a string, or the place of the payload in the code
pub data Arg : Type 0 where
  word : ℕ → Arg
  string : List ℕ → Arg
  payload : ℕ → Arg

-- `bb_cached_op`; `none` are arguments that are not written
pub record CachedOp : Type 0 where
  pub handler : Handler
  pub args : Option (ℕ × ℕ × Arg)

-- a string index out of range, and a read behind the end of the code
pub data Fault : Type 0 where
  string_out_of_range code_too_short : Fault

-- the entry behind the last instruction
abbrev pub final : CachedOp
final = record { handler = return_var; args = some (0, 0, word 0) }

abbrev pub unknown : CachedOp
unknown = record { handler = opcode_error; args = none }

abbrev pub imm_at : List ℕ → ℕ → ℕ
imm_at code bi =
    get_or code (bi + 4) 0
    + get_or code (bi + 5) 0 * 2 ^ 8
    + get_or code (bi + 6) 0 * 2 ^ 16
    + get_or code (bi + 7) 0 * 2 ^ 24

-- the third argument of an instruction of a subtype
unfoldable pub third : List (List ℕ) → ℕ → ℕ → ℕ → ℕ → Result Fault Arg
third strings subtype b3 imm bi =
    if subtype == 0
    then ok (word b3)
    else if subtype == 1
    then ok (word imm)
    else if subtype == 2
    then elim (get_elem? strings imm) [ none ↦ err string_out_of_range | some s ↦ ok (string s) ]
    else ok (payload (bi + 8))

-- the length of an instruction
unfoldable pub advance : ℕ → ℕ → ℕ
advance subtype b3 = if subtype == 3 then 8 + b3 * 4 else 8

-- The `while` from the byte `bi` on: the entries from there on. A round moves on by eight bytes or
-- more.
unfoldable pub build_loop :
    (ℕ → Bool) → List (List ℕ) → ℕ → List ℕ → ℕ → ℕ → Result Fault (List CachedOp)
build_loop table strings code_length code zero bi = ok (final ∷ [])
build_loop table strings code_length code (suc fuel) bi =
    let b0 = get_or code bi 0 in
    let b3 = get_or code (bi + 3) 0 in
    let rest = build_loop table strings code_length code fuel (add32 bi (advance (b0 / 64) b3)) in
    let round = third strings (b0 / 64) b3 (imm_at code bi) bi >>= λ c. rest >>= λ ops. ok (
      record { handler = fast b0; args = some (get_or code (bi + 1) 0, get_or code (bi + 2) 0, c) }
      ∷ ops) in
    if leb code_length bi
    then ok (final ∷ [])
    else if ltb (length code) (bi + 8)
    then err code_too_short
    else if not (table b0)
    then ok (unknown ∷ final ∷ [])
    else round

-- The entries of `ops`, which has room for `max_words` of them.
unfoldable pub build_cached : (ℕ → Bool) → List (List ℕ) → ℕ → List ℕ → Result Fault (List CachedOp)
build_cached table strings code_length code =
    build_loop table strings code_length code (code_length + 1) 0

abbrev pub max_words : ℕ → ℕ
max_words code_length = code_length / 8 + 4
