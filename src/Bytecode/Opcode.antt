-- ===== src/Bytecode/Opcode.antt =====
-- bytecode.c: the opcodes that the code generator gives to the encoder.
use blueberry.Prelude.{ℕ, ◌+◌, ◌/◌, ◌%◌, Bool, false, List, [], ◌==◌, if◌then◌else◌}

-- the numbers of the opcodes that the encoder treats apart
abbrev pub op_loadint : ℕ
op_loadint = 1

abbrev pub op_loadnull : ℕ
op_loadnull = 4

abbrev pub op_hashaccess : ℕ
op_hashaccess = 8

abbrev pub op_newmap : ℕ
op_newmap = 14

abbrev pub op_newarray : ℕ
op_newarray = 15

abbrev pub op_return : ℕ
op_return = 38

abbrev pub op_jmp : ℕ
op_jmp = 39

abbrev pub op_jmpf : ℕ
op_jmpf = 40

abbrev pub op_jmpt : ℕ
op_jmpt = 41

abbrev pub op_label : ℕ
op_label = 42

abbrev pub op_iterstep : ℕ
op_iterstep = 45

abbrev pub op_moveto : ℕ
op_moveto = 46

abbrev pub op_movefrom : ℕ
op_movefrom = 47

-- the encodings B_ENC_…
pub data Enc : Type 0 where
  enc_rrr enc_rru8 enc_ru16 enc_rri enc_rrs enc_ri enc_r enc_r0 enc_var enc_var_strid : Enc
  enc_rd enc_decide enc_call : Enc

-- `b_register`, without the field that the encoder writes. `is_string` is `type == B_REG_STRING`,
-- and `label` the name in `value.label`.
pub record Register : Type 0 where
  pub number : ℕ
  pub is_string : Bool
  pub label : List ℕ
  pub interned_string_id : ℕ

abbrev pub null_reg : Register
null_reg = record { number = 0; is_string = false; label = []; interned_string_id = 0 }

-- `b_opcode`: its groups of fields lie side by side. A register is its index in a table, since
-- opcodes share them. A 64-bit immediate and a double are their bit patterns.
pub record Opcode : Type 0 where
  pub op : ℕ
  pub enc : Enc
  pub rrr_dst : ℕ
  pub rrr_src1 : ℕ
  pub rrr_src2 : ℕ
  pub rri32_dst : ℕ
  pub rri32_src1 : ℕ
  pub rri32_imm : ℕ
  pub rd_dst : ℕ
  pub rd_imm : ℕ
  pub r_dst : ℕ
  pub r_src : ℕ
  pub var_regs : List ℕ
  pub call_base : ℕ
  pub call_nargs : ℕ
  pub call_nrets : ℕ

-- BC_SUB_RRR, BC_SUB_RRI, BC_SUB_RRS and BC_SUB_VAR: the two high bits of an opcode's byte
pub data Sub : Type 0 where
  sub_rrr sub_rri sub_rrs sub_var : Sub

-- `subtype | opnum` on bytes
abbrev pub tag : Sub → ℕ → ℕ
tag sub_rrr opnum = opnum % 256
tag sub_rri opnum = if opnum / 64 % 2 == 1 then opnum % 256 else (opnum + 64) % 256
tag sub_rrs opnum = if opnum / 128 % 2 == 1 then opnum % 256 else (opnum + 128) % 256
tag sub_var opnum = 192 + opnum % 64
