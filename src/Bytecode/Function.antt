-- ===== src/Bytecode/Function.antt =====
-- encoder.c: the encoding of one function, an emit pass and a pass that patches the jumps.
pub mod Emits
use blueberry.Prelude.{
  ℕ, zero, suc, ◌+◌, ◌-◌, ◌*◌, ◌/◌, ◌%◌, ◌^◌, Bool, true, false, ◌&&◌, ◌||◌, not, List, [], ◌∷◌,
  ◌++◌, Option, none, some, ltb, leb, ◌==◌, if◌then◌else◌, length, get_or, set, drop, replicate,
  eq_list,
}
use blueberry.Prelude.Words.{add32}
use blueberry.Prelude.Results.{Result, ok, err, ◌>>=◌}
use blueberry.Bytecode.Buffer.{
  Error, undefined_label, imm_too_wide, unresolved_decide, unhandled_op, unknown_enc,
  too_many_registers, missing_operand, bad_pairs, key_not_string, unexpected_end, bad_magic,
  bad_version, put_u8, put_u16, put_u32, put_bytes, patch_u32, pad4, Reader, Read, read_u8,
  read_u16, read_u32, read_bytes,
}
use blueberry.Bytecode.Opcode.{
  op_loadint, op_loadnull, op_hashaccess, op_newmap, op_newarray, op_return, op_jmp, op_jmpf,
  op_jmpt, op_label, op_iterstep, op_moveto, op_movefrom, Enc, enc_rrr, enc_rru8, enc_ru16, enc_rri,
  enc_rrs, enc_ri, enc_r, enc_r0, enc_var, enc_var_strid, enc_rd, enc_decide, enc_call, Register,
  null_reg, Opcode, Sub, sub_rrr, sub_rri, sub_rrs, sub_var, tag,
}

-- bc_emit_fixed
unfoldable pub emit_fixed : List ℕ → Sub → ℕ → ℕ → ℕ → ℕ → ℕ → List ℕ
emit_fixed out subtype opnum r1 r2 r3 imm =
    put_u32 (put_u8 (put_u8 (put_u8 (put_u8 out (tag subtype opnum)) r1) r2) r3) imm

-- bc_emit_var_header
unfoldable pub emit_var_header : List ℕ → ℕ → ℕ → ℕ → ℕ → ℕ → List ℕ
emit_var_header out opnum r1 r2 nwords imm =
    put_u32 (put_u8 (put_u8 (put_u8 (put_u8 out (tag sub_var opnum)) r1) r2) nwords) imm

-- The map of labels: `none` in the source is the value 0, so the index is stored plus one.
abbrev pub label_set : List (List ℕ × ℕ) → List ℕ → ℕ → List (List ℕ × ℕ)
label_set m name word_idx = (name, word_idx + 1) ∷ m

-- ci_map_get_str on that map
unfoldable pub label_find : List (List ℕ × ℕ) → List ℕ → ℕ
label_find [] name = 0
label_find ((key, v) ∷ m) name = if eq_list key name then v else label_find m name

unfoldable pub label_get : List (List ℕ × ℕ) → List ℕ → Result Error ℕ
label_get m name = let v = label_find m name in if v == 0 then err undefined_label else ok (v - 1)

-- The local variables of be_encode_function. `patches` holds `label_patch_addr` of every register.
pub record State : Type 0 where
  pub out : List ℕ
  pub labels : List (List ℕ × ℕ)
  pub ic : ℕ
  pub patches : List ℕ

-- INT32_MIN <= imm <= INT32_MAX, on the bit pattern of an int64_t
abbrev pub is_int32 : ℕ → Bool
is_int32 imm = ltb imm (2 ^ 31) || leb (2 ^ 64 - 2 ^ 31) imm

module _ (regs : List Register) where
  abbrev pub reg : ℕ → Register
  reg p = get_or regs p null_reg

  abbrev pub number : ℕ → ℕ
  number p = (reg p).number

  -- the numbers of the registers from `v` on
  unfoldable pub put_numbers : List ℕ → List ℕ → List ℕ
  put_numbers out [] = out
  put_numbers out (p ∷ ps) = put_numbers (put_u8 out (number p)) ps

  -- RETURN and LOADNULL, MOVETO and MOVEFROM, NEWARRAY: `nwords` words of register numbers
  unfoldable pub emit_registers : List ℕ → ℕ → ℕ → ℕ → List ℕ → Result Error (List ℕ)
  emit_registers out op r1 r2 ps =
      let count = length ps in
      let nwords = (count + 3) / 4 in
      if ltb 255 nwords
      then err too_many_registers
      else ok (pad4 (put_numbers (emit_var_header out op r1 r2 nwords 0) ps) nwords count)

  pub emit_newarray : List ℕ → ℕ → List ℕ → Result Error (List ℕ)
  emit_newarray out op [] = err missing_operand
  emit_newarray out op (dst ∷ elems) = emit_registers out op (number dst) (length elems) elems

  -- the loop over the pairs [val, key] of NEWMAP
  pub put_pairs : List ℕ → List ℕ → List ℕ
  put_pairs out (val ∷ key ∷ ps) =
      let next =
        if (reg key).is_string
        then put_u16 (put_u8 (put_u8 out 0) (number val)) (reg key).interned_string_id
        else put_u8 (put_u8 (put_u8 (put_u8 out 1) (number val)) (number key)) 0 in
      put_pairs next ps
  put_pairs out ps = out

  pub emit_newmap : List ℕ → ℕ → List ℕ → Result Error (List ℕ)
  emit_newmap out op [] = err missing_operand
  emit_newmap out op (dst ∷ ps) =
      let npairs = length ps / 2 in
      if not (length ps % 2 == 0)
      then err bad_pairs
      else if ltb 255 npairs
      then err too_many_registers
      else ok (put_pairs (emit_var_header out op (number dst) npairs npairs 0) ps)

  -- the loop over the keys of HASHACCESS
  pub put_keys : List ℕ → List ℕ → Result Error (List ℕ)
  put_keys out [] = ok out
  put_keys out (key ∷ ks) =
      let rest = put_keys (put_u16 out (reg key).interned_string_id) ks in
      if not (reg key).is_string then err key_not_string else rest

  -- HASHACCESS ends with a word of 0 behind its keys, which fill whole words.
  pub emit_hashaccess : List ℕ → ℕ → List ℕ → Result Error (List ℕ)
  emit_hashaccess out op (dst ∷ src ∷ keys) =
      let nkeys = length keys in
      let nwords = (nkeys + 1) / 2 + 1 in
      if ltb 255 nwords then err too_many_registers else do
        filled ← put_keys (emit_var_header out op (number dst) (number src) nwords 0) keys
        ok (put_u16 (put_u16 (if nkeys % 2 == 0 then filled else put_u16 filled 0) 0) 0)
  emit_hashaccess out op ps = err missing_operand

  unfoldable pub emit_var : List ℕ → Opcode → Result Error (List ℕ)
  emit_var out op =
      if op.op == op_return || op.op == op_loadnull
      then emit_registers out op.op (length op.var_regs) 0 op.var_regs
      else if op.op == op_moveto || op.op == op_movefrom
      then emit_registers out op.op (number op.r_dst) (length op.var_regs) op.var_regs
      else if op.op == op_newarray
      then emit_newarray out op.op op.var_regs
      else if op.op == op_newmap
      then emit_newmap out op.op op.var_regs
      else if op.op == op_hashaccess
      then emit_hashaccess out op.op op.var_regs
      else err unhandled_op
