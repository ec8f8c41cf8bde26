-- ===== src/Bytecode/Encode/Emits.antt =====
-- The emit pass of be_encode_function writes whole instructions, and counts them.
use blueberry.Prelude.{
  ℕ, ◌+◌, ◌-◌, ◌/◌, ◌^◌, ◌<◌, ◌≡◌, ◌≢◌, refl, inl, inr, not, ◌||◌, List, [], ◌∷◌, ◌==◌,
  if◌then◌else◌, if_elim, length, All, arith,
}
use blueberry.Prelude.Results.{ok, ◌>>=◌, OnOk, OnOk->>=, OnOk-map}
use blueberry.Bytecode.Opcode.{
  op_loadint, op_jmp, op_jmpf, op_jmpt, op_label, op_iterstep, Enc, enc_rrr, enc_rru8, enc_ru16,
  enc_rri, enc_rrs, enc_ri, enc_r, enc_r0, enc_var, enc_var_strid, enc_rd, enc_decide, enc_call,
  Register, Opcode, sub_rrr, sub_rri, sub_rrs, sub_var,
}
use blueberry.Bytecode.Function.{emit_var_header, label_set, State, is_int32, reg, number, emit_var}
use blueberry.Bytecode.Function.Emits.{
  Appends-both, Appends-u32, emit_fixed-Emits, emit_var_header-Emits, emit_var-Emits,
}
use blueberry.Bytecode.Encode.{emit_jump, emit_wide, emit_body, emit_op, emit_pass}
use blueberry.Bytecode.Instruction.{Emits}
use blueberry.Bytecode.Encode.Coded.{Body, IsCoded, labelled, added}

-- the instructions that a list of opcodes stands for: labels stand for none
unfoldable pub opcode_count : List Opcode → ℕ
opcode_count [] = 0
opcode_count (op ∷ ops) = (if op.op == op_label then 0 else 1) + opcode_count ops

plain : {st : State} {out : List ℕ} → Emits st.out out → Body st (record st { out = out })
plain e = record { emits = e; ic_same = refl; placed = inl refl }

rri_fixed : sub_rri ≢ sub_var
rri_fixed e = cc

rrr_fixed : sub_rrr ≢ sub_var
rrr_fixed e = cc

rrs_fixed : sub_rrs ≢ sub_var
rrs_fixed e = cc

module _ (regs : List Register) where
  emit_wide-Body : (st : State) (op r1 imm : ℕ) → Body st (emit_wide regs st op r1 imm)
  unfolding emit_wide
  emit_wide-Body st op r1 imm = plain (
      emit_var_header-Emits st.out op r1 0 2 0 _ (omega arith) (
        Appends-both (omega arith) (Appends-u32 (emit_var_header st.out op r1 0 2 0) imm)
          (Appends-u32 _ (imm / 2 ^ 32))))

  emit_jump-Body :
      (st : State) (op r1 r2 label : ℕ) → op < 64 → Body st (emit_jump regs st op r1 r2 label)
  unfolding emit_jump
  emit_jump-Body st op r1 r2 label h = record {
    emits = emit_fixed-Emits st.out sub_rri op r1 r2 0 0 h rri_fixed;
    ic_same = refl;
    placed = inr (label, refl);
  }

  variable_Body :
      (st : State) (op : Opcode)
      → OnOk (Body st) (emit_var regs st.out op >>= λ out. ok (record st { out = out }))
  variable_Body st op =
      OnOk->>= (Emits st.out) (Body st) (emit_var regs st.out op) _ (emit_var-Emits regs st.out op)
        λ out e. plain e

  emit_body-Body :
      (enc : Enc) (st : State) (op : Opcode)
      → op.op < 64
      → OnOk (Body st) (emit_body regs enc st op)
  unfolding emit_body
  emit_body-Body enc_rrr st op h = plain (emit_fixed-Emits st.out sub_rrr op.op _ _ _ 0 h rrr_fixed)
  emit_body-Body enc_rri st op h =
      if_elim (Body st) (op.op == op_iterstep)
        (λ _. emit_jump-Body st op.op (number regs op.rri32_dst) op.rri32_imm op.rri32_src1 h)
        (λ _. plain (emit_fixed-Emits st.out sub_rri op.op _ _ 0 op.rri32_imm h rri_fixed))
  emit_body-Body enc_rrs st op h =
      plain (emit_fixed-Emits st.out sub_rrs op.op _ _ 0 op.rri32_imm h rrs_fixed)
  emit_body-Body enc_ri st op h =
      if_elim (OnOk (Body st)) (is_int32 op.rri32_imm)
        (λ _. plain (emit_fixed-Emits st.out sub_rri op.op _ _ 0 op.rri32_imm h rri_fixed))
        (λ _.
          if_elim (OnOk (Body st)) (not (op.op == op_loadint)) (λ _. tt)
            (λ _. emit_wide-Body st op.op (number regs op.rri32_dst) op.rri32_imm))
  emit_body-Body enc_rd st op h = emit_wide-Body st op.op (number regs op.rd_dst) op.rd_imm
  emit_body-Body enc_r st op h =
      if_elim (Body st) (op.op == op_jmpf || op.op == op_jmpt)
        (λ _. emit_jump-Body st op.op (number regs op.r_dst) 0 op.r_src h)
        (λ _. plain (emit_fixed-Emits st.out sub_rrr op.op _ _ 0 0 h rrr_fixed))
  emit_body-Body enc_r0 st op h =
      if_elim (Body st) (op.op == op_jmp) (λ _. emit_jump-Body st op.op 0 0 op.r_dst h)
        (λ _. plain (emit_fixed-Emits st.out sub_rrr op.op _ 0 0 0 h rrr_fixed))
  emit_body-Body enc_call st op h =
      plain (emit_fixed-Emits st.out sub_rrr op.op _ _ _ 0 h rrr_fixed)
  emit_body-Body enc_decide st op h = tt
  emit_body-Body enc_var st op h = variable_Body st op
  emit_body-Body enc_var_strid st op h = variable_Body st op
  emit_body-Body enc_rru8 st op h = tt
  emit_body-Body enc_ru16 st op h = tt

  emit_op-Coded :
      (op : Opcode)
      → op.op < 64
      → (st : State) → IsCoded st
      → st.ic < 2 ^ 32 - 1
      → OnOk
          (λ new. IsCoded new × (new.ic ≡ st.ic + (if op.op == op_label then 0 else 1)))
          (emit_op regs st op)
  unfolding emit_op
  emit_op-Coded op h st c small =
      let P : State → Type 0 =
        λ new. IsCoded new × (new.ic ≡ st.ic + (if op.op == op_label then 0 else 1)) in
      if_elim (OnOk P) (op.op == op_label)
        (λ e. (labelled c (label_set st.labels (reg regs op.r_dst).label st.ic), ground arith))
        λ e.
          OnOk->>= (Body st) P (emit_body regs op.enc st op) _ (emit_body-Body op.enc st op h)
            λ new b. (added c b (omega (arith, b.ic_same, small)), ground (arith, b.ic_same, small))

  -- The emit pass, when it succeeds, leaves whole instructions, one more for each opcode that is no
  -- label, and the places to patch at immediate operands of these.
  pub emit_pass-Coded :
      (ops : List Opcode)
      → All (λ op. op.op < 64) ops
      → (st : State) → IsCoded st
      → st.ic + length ops < 2 ^ 32
      → OnOk (λ new. IsCoded new × (new.ic ≡ st.ic + opcode_count ops)) (emit_pass regs st ops)
  unfolding emit_pass opcode_count
  emit_pass-Coded [] hs st c small = (c, omega arith)
  emit_pass-Coded (op ∷ ops) (h, hs) st c small =
      let n : ℕ = if op.op == op_label then 0 else 1 in
      OnOk->>= (λ new. IsCoded new × (new.ic ≡ st.ic + n))
        (λ new. IsCoded new × (new.ic ≡ st.ic + (n + opcode_count ops))) (emit_op regs st op) _
        (emit_op-Coded op h st c (omega (arith, small)))
        λ mid (d, e).
          OnOk-map (λ new. IsCoded new × (new.ic ≡ st.ic + (n + opcode_count ops)))
            (emit_pass regs mid ops) (λ new (c, f). (c, omega (arith, e, f)))
            (emit_pass-Coded ops hs mid d (ground (arith, e, small)))
