-- ===== src/Bytecode/Encode.antt =====
-- encoder.c: be_encode_function, as its emit pass followed by its pass that patches the jumps.
pub mod Coded
pub mod Emits
pub mod Patched
use blueberry.Prelude.{
  ℕ, zero, suc, ◌+◌, ◌/◌, ◌%◌, ◌^◌, Bool, true, false, ◌&&◌, ◌||◌, not, List, [], ◌∷◌, Option, none,
  some, ◌==◌, if◌then◌else◌, length, get_or, set,
}
use blueberry.Prelude.Words.{add32}
use blueberry.Prelude.Results.{Result, ok, err, ◌>>=◌}
use blueberry.Bytecode.Buffer.{
  Error, undefined_label, imm_too_wide, unresolved_decide, unhandled_op, unknown_enc,
  too_many_registers, missing_operand, bad_pairs, key_not_string, unexpected_end, bad_magic,
  bad_version, put_u8, put_u16, put_u32, put_bytes, patch_u32, pad4, Reader, Read, read_u8,
  read_u16, read_u32, read_bytes,
}
use blueberry.Bytecode.Opcode.{
  op_loadint, op_loadnull, op_hashaccess, op_newmap, op_newarray, op_return, op_jmp, op_jmpf,
  op_jmpt, op_label, op_iterstep, op_moveto, op_movefrom, Enc, enc_rrr, enc_rru8, enc_ru16, enc_rri,
  enc_rrs, enc_ri, enc_r, enc_r0, enc_var, enc_var_strid, enc_rd, enc_decide, enc_call, Register,
  null_reg, Opcode, Sub, sub_rrr, sub_rri, sub_rrs, sub_var, tag,
}
use blueberry.Bytecode.Function.{
  emit_fixed, emit_var_header, label_set, label_get, State, is_int32, reg, number, put_numbers,
  emit_registers, emit_newarray, put_pairs, emit_newmap, put_keys, emit_hashaccess, emit_var,
}

module _ (regs : List Register) where
  -- A jump is written with the target 0, and its label's register gets the place of the target.
  unfoldable pub emit_jump : State → ℕ → ℕ → ℕ → ℕ → State
  emit_jump st op r1 r2 label = record st {
    out = emit_fixed st.out sub_rri op r1 r2 0 0;
    patches = set st.patches label (length st.out + 4);
  }

  -- A fixed instruction without a jump.
  abbrev pub emit_plain : State → Sub → ℕ → ℕ → ℕ → ℕ → ℕ → State
  emit_plain st subtype op r1 r2 r3 imm = record st {
    out = emit_fixed st.out subtype op r1 r2 r3 imm;
  }

  -- a value of 64 bits in two words behind the header
  unfoldable pub emit_wide : State → ℕ → ℕ → ℕ → State
  emit_wide st op r1 imm =
      let header = emit_var_header st.out op r1 0 2 0 in
      record st { out = put_u32 (put_u32 header imm) (imm / 2 ^ 32) }

  -- the `if` over the encodings
  unfoldable pub emit_body : Enc → State → Opcode → Result Error State
  emit_body enc_rrr st op = ok (
      emit_plain st sub_rrr op.op (number regs op.rrr_dst) (number regs op.rrr_src1)
        (number regs op.rrr_src2) 0)
  emit_body enc_rri st op = ok (
      if op.op == op_iterstep
      then emit_jump st op.op (number regs op.rri32_dst) op.rri32_imm op.rri32_src1
      else emit_plain st sub_rri op.op (number regs op.rri32_dst) (number regs op.rri32_src1) 0
          op.rri32_imm)
  emit_body enc_rrs st op = ok (
      emit_plain st sub_rrs op.op (number regs op.rri32_dst) (number regs op.rri32_src1) 0
        op.rri32_imm)
  emit_body enc_ri st op =
      if is_int32 op.rri32_imm
      then ok (
          emit_plain st sub_rri op.op (number regs op.rri32_dst) (number regs op.rri32_dst) 0
            op.rri32_imm)
      else if not (op.op == op_loadint)
      then err imm_too_wide
      else ok (emit_wide st op.op (number regs op.rri32_dst) op.rri32_imm)
  emit_body enc_rd st op = ok (emit_wide st op.op (number regs op.rd_dst) op.rd_imm)
  emit_body enc_r st op = ok (
      if op.op == op_jmpf || op.op == op_jmpt
      then emit_jump st op.op (number regs op.r_dst) 0 op.r_src
      else emit_plain st sub_rrr op.op (number regs op.r_dst) (number regs op.r_src) 0 0)
  emit_body enc_r0 st op = ok (
      if op.op == op_jmp
      then emit_jump st op.op 0 0 op.r_dst
      else emit_plain st sub_rrr op.op (number regs op.r_dst) 0 0 0)
  emit_body enc_call st op =
      ok (emit_plain st sub_rrr op.op (number regs op.call_base) op.call_nargs op.call_nrets 0)
  emit_body enc_decide st op = err unresolved_decide
  emit_body enc_var st op = (emit_var regs st.out op >>= λ out. ok (record st { out = out }))
  emit_body enc_var_strid st op = (emit_var regs st.out op >>= λ out. ok (record st { out = out }))
  emit_body enc_rru8 st op = err unknown_enc
  emit_body enc_ru16 st op = err unknown_enc

  -- one round of the emit pass
  unfoldable pub emit_op : State → Opcode → Result Error State
  emit_op st op =
      if op.op == op_label
      then ok (record st { labels = label_set st.labels (reg regs op.r_dst).label st.ic })
      else (emit_body op.enc st op >>= λ st. ok (record st { ic = add32 st.ic 1 }))

  unfoldable pub emit_pass : State → List Opcode → Result Error State
  emit_pass st [] = ok st
  emit_pass st (op ∷ ops) = emit_op st op >>= λ st. emit_pass st ops

  -- `label_reg` of the second pass
  unfoldable pub jump_label : Opcode → Option ℕ
  jump_label op = elim op.enc [
    | enc_r0 ↦ if op.op == op_jmp then some op.r_dst else none
    | enc_r ↦ if op.op == op_jmpf || op.op == op_jmpt then some op.r_src else none
    | enc_rri ↦ if op.op == op_iterstep then some op.rri32_src1 else none
    | _ ↦ none
  ]

  -- one round of the second pass, for an opcode with a label
  unfoldable pub patch_label : State → ℕ → Result Error State
  patch_label st label =
      let imm_off = get_or st.patches label 0 in
      let patched = label_get st.labels (reg regs label).label >>= λ target.
      ok (record st { out = patch_u32 st.out imm_off target; patches = set st.patches label 0 }) in
      if imm_off == 0 then ok st else patched

  unfoldable pub patch_pass : State → List Opcode → Result Error State
  patch_pass st [] = ok st
  patch_pass st (op ∷ ops) =
      let step : Result Error State = elim (jump_label op) [
        | none ↦ ok st
        | some label ↦ patch_label st label
      ] in
      step >>= λ st. patch_pass st ops

  -- The registers come with the `label_patch_addr` that they had before.
  unfoldable pub encode_function : List ℕ → List Opcode → Result Error (List ℕ × List ℕ)
  encode_function patches ops = do
    st ← emit_pass (record { out = []; labels = []; ic = 0; patches = patches }) ops
    st ← patch_pass st ops
    ok (st.out, st.patches)
