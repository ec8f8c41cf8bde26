-- ===== src/Bytecode/Instruction.antt =====
-- The wire format of one instruction, as the comment in blueberry_vm/bytecode_load.c describes it.
use blueberry.Prelude.{ℕ, ◌*◌, ◌/◌, ◌<◌, ◌≡◌, List, [], ◌∷◌, ◌++◌, ◌==◌, if◌then◌else◌, length}
use blueberry.Bytecode.Buffer.Reads.{bytes32}

pub record Instruction : Type 0 where
  pub code : ℕ
  pub r1 : ℕ
  pub r2 : ℕ
  pub r3 : ℕ
  pub imm : ℕ
  pub payload : List ℕ

-- eight bytes, and the payload
abbrev pub instruction_bytes : Instruction → List ℕ
instruction_bytes i = i.code ∷ i.r1 ∷ i.r2 ∷ i.r3 ∷ bytes32 i.imm ++ i.payload

unfoldable pub code_bytes : List Instruction → List ℕ
code_bytes [] = []
code_bytes (i ∷ is) = instruction_bytes i ++ code_bytes is

-- The fields are bytes. An instruction whose two high bits are set, and no other, has a payload: of
-- as many words as its third register says.
pub record IsInstruction (i : Instruction) : Type 0 where
  pub code_byte : i.code < 256
  pub r1_byte : i.r1 < 256
  pub r2_byte : i.r2 < 256
  pub r3_byte : i.r3 < 256
  pub words : length i.payload ≡ (if i.code / 64 == 3 then i.r3 * 4 else 0)

-- `new` is `old` with one instruction added.
pub record Emits (old new : List ℕ) : Type 0 where
  pub instruction : Instruction
  pub valid : IsInstruction instruction
  pub written : new ≡ old ++ instruction_bytes instruction
