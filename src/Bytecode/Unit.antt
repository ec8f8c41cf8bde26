-- ===== src/Bytecode/Unit.antt =====
-- encoder.c: the string table and be_encode_unit.
pub mod Table
pub mod RoundTrip
use blueberry.Prelude.{
  ℕ, zero, suc, ◌+◌, ◌*◌, ◌%◌, ◌^◌, Bool, true, false, ◌&&◌, not, List, [], ◌∷◌, ◌++◌, Option, none,
  some, ltb, ◌==◌, if◌then◌else◌, length, get_elem?, eq_list,
}
use blueberry.Prelude.Results.{Result, ok, err, ◌>>=◌}
use blueberry.Bytecode.Buffer.{
  Error, undefined_label, imm_too_wide, unresolved_decide, unhandled_op, unknown_enc,
  too_many_registers, missing_operand, bad_pairs, key_not_string, unexpected_end, bad_magic,
  bad_version, put_u8, put_u16, put_u32, put_bytes, patch_u32, pad4, Reader, Read, read_u8,
  read_u16, read_u32, read_bytes,
}
use blueberry.Bytecode.Opcode.{Register, Opcode}
use blueberry.Bytecode.Encode.{encode_function}

-- the search of bc_strtab_intern, from index `i` on
unfoldable pub intern_find : List (List ℕ) → List ℕ → ℕ → Option ℕ
intern_find [] s i = none
intern_find (t ∷ ts) s i = if eq_list t s then some i else intern_find ts s (i + 1)

-- The table is the list of its strings. The index and the table, from what the search found.
abbrev pub interned : List (List ℕ) → List ℕ → Option ℕ → ℕ × List (List ℕ)
interned ts s (some i) = (i % 2 ^ 16, ts)
interned ts s none = (length ts % 2 ^ 16, ts ++ s ∷ [])

unfoldable pub intern : List (List ℕ) → List ℕ → ℕ × List (List ℕ)
intern ts s = interned ts s (intern_find ts s 0)

unfoldable pub intern_all : List (List ℕ) → List (List ℕ) → List (List ℕ)
intern_all ts [] = ts
intern_all ts (s ∷ ss) = intern_all (intern ts s).1 ss

-- `b_function`: `reg_next` is the one of its code block, if it has one.
pub record Function : Type 0 where
  pub name : List ℕ
  pub arg_count : ℕ
  pub reg_next : Option ℕ
  pub bytecode : List Opcode

-- `b_unit`, with the registers of its opcodes and what their `label_patch_addr` hold.
pub record CompiledUnit : Type 0 where
  pub str_pool : List (List ℕ)
  pub functions : List Function
  pub registers : List Register
  pub patches : List ℕ

abbrev pub names : List Function → List (List ℕ)
names [] = []
names (f ∷ fs) = f.name ∷ names fs

unfoldable pub encode_bodies : List Register → List ℕ → List Function → Result Error (List (List ℕ))
encode_bodies regs patches [] = ok []
encode_bodies regs patches (f ∷ fs) = do
  (code, patches) ← encode_function regs patches f.bytecode
  codes ← encode_bodies regs patches fs
  ok (code ∷ codes)

unfoldable pub put_strings : List ℕ → List (List ℕ) → List ℕ
put_strings out [] = out
put_strings out (s ∷ ss) = put_strings (put_bytes (put_u16 out (length s)) s) ss

abbrev pub reg_count : Function → ℕ
reg_count f = elim f.reg_next [ none ↦ 0 | some n ↦ n ]

-- the loop that writes the functions, with their codes
unfoldable pub put_functions : List ℕ → List (List ℕ) → List Function → List (List ℕ) → List ℕ
put_functions out ts (f ∷ fs) (code ∷ codes) =
    let (name_idx, ts) = intern ts f.name in
    let head = put_u16 (put_u8 (put_u8 (put_u16 out name_idx) f.arg_count) (reg_count f)) 0 in
    put_functions (put_bytes (put_u32 head (length code)) code) ts fs codes
put_functions out ts fs codes = out

-- the part of be_encode_unit that writes, with the function bodies encoded
unfoldable pub write_unit : CompiledUnit → List (List ℕ) → List ℕ
write_unit u codes =
    let ts = intern_all (intern_all [] u.str_pool) (names u.functions) in
    let magic = put_bytes [] (67 ∷ 73 ∷ 66 ∷ 67 ∷ []) in
    let head = put_u16 (put_u16 (put_u16 magic 2) (length ts)) (length u.functions) in
    put_functions (put_strings head ts) ts u.functions codes

pub encode_unit : CompiledUnit → Result Error (List ℕ)
encode_unit u = do codes ← encode_bodies u.registers u.patches u.functions; ok (write_unit u codes)
