-- ===== src/Bytecode/Encode/Patched.antt =====
-- The second pass of be_encode_function: it changes immediate operands and nothing else.
use blueberry.Prelude.{ℕ, zero, suc, ◌≡◌, ◌≢◌, List, [], ◌∷◌, length, get_or, set, All}
use blueberry.Bytecode.Buffer.{patch_u32}
use blueberry.Bytecode.Opcode.{Register, Opcode}
use blueberry.Bytecode.Function.{State}
use blueberry.Bytecode.Instruction.{Instruction, code_bytes, IsInstruction}
use blueberry.Bytecode.Encode.Coded.{IsCoded}
use blueberry.Bytecode.Encode.Emits.{opcode_count}

-- the instructions with another operand in the `k`-th
unfoldable pub with_imm : List Instruction → ℕ → ℕ → List Instruction
with_imm [] k v = []
with_imm (i ∷ is) zero v = record i { imm = v } ∷ is
with_imm (i ∷ is) (suc k) v = i ∷ with_imm is k v

module _ {st : State} (c : IsCoded st) (label : ℕ) (target : ℕ)
    (placed : get_or st.patches label 0 ≢ 0) where
  patched : State
  patched = record st {
    out = patch_u32 st.out (get_or st.patches label 0) target;
    patches = set st.patches label 0;
  }

module _ (regs : List Register) where
  abbrev Same : State → State → Type 0
  Same st new = IsCoded new × (new.ic ≡ st.ic)

-- Whole instructions, one for each opcode that is no label.
pub record IsEncoding (ops : List Opcode) (code : List ℕ) : Type 0 where
  pub instructions : List Instruction
  pub valid : All IsInstruction instructions
  pub written : code ≡ code_bytes instructions
  pub counted : length instructions ≡ opcode_count ops
