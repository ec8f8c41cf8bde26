-- ===== src/Bytecode/Load.antt =====
-- blueberry_vm/bytecode_load.c: bb_vm_loadbytecode. An interned string is modelled by its content.
pub mod Reads
use blueberry.Prelude.{
  ℕ, zero, suc, ◌%◌, ◌^◌, Bool, ◌&&◌, not, List, [], ◌∷◌, Option, ◌==◌, if◌then◌else◌, length,
  get_elem?,
}
use blueberry.Prelude.Results.{Result, ok, err}
use blueberry.Bytecode.Buffer.{
  Error, bad_magic, bad_version, Reader, Read, ◌>>=◌, pure, fail, read_u8, read_u16, read_u32,
  read_bytes,
}

-- `bb_function`: a name is what `unit->str2intern` gives for its index, or NULL.
pub record LoadedFunction : Type 0 where
  pub name : Option (List ℕ)
  pub args : ℕ
  pub regs : ℕ
  pub code_length : ℕ
  pub code : List ℕ

-- `bb_unit`
pub record LoadedUnit : Type 0 where
  pub strings : List (List ℕ)
  pub functions : List LoadedFunction

-- the `n` rounds of the loop over the strings
pub read_strings : ℕ → Read (List (List ℕ))
read_strings zero = pure []
read_strings (suc n) = do slen ← read_u16; s ← read_bytes slen; ss ← read_strings n; pure (s ∷ ss)

-- the `n` rounds of the loop that skips the locals
pub skip_locals : ℕ → Read (Unit {0})
skip_locals zero = pure tt
skip_locals (suc n) = do _ ← read_u16; _ ← read_u8; skip_locals n

-- one round of the loop over the functions; `code_length` is a uint16_t
pub read_function : List (List ℕ) → Read LoadedFunction
read_function strings = do
  name_idx ← read_u16
  arg_count ← read_u8
  reg_count ← read_u8
  loc_count ← read_u16
  _ ← skip_locals loc_count
  code_bytes ← read_u32
  code ← read_bytes code_bytes
  pure (record {
    name = get_elem? strings name_idx;
    args = arg_count;
    regs = reg_count;
    code_length = code_bytes % 2 ^ 16;
    code = code;
  })

pub read_functions : List (List ℕ) → ℕ → Read (List LoadedFunction)
read_functions strings zero = pure []
read_functions strings (suc n) = do
  f ← read_function strings
  fs ← read_functions strings n
  pure (f ∷ fs)

-- the part behind the version
pub read_tables : Read LoadedUnit
read_tables = do
  str_count ← read_u16
  fn_count ← read_u16
  strings ← read_strings str_count
  functions ← read_functions strings fn_count
  pure (record { strings = strings; functions = functions })

-- the part behind the magic number
pub read_version : Read LoadedUnit
read_version = do version ← read_u16; if version == 2 then read_tables else fail bad_version

pub read_unit : Read LoadedUnit
read_unit = do
  m0 ← read_u8
  m1 ← read_u8
  m2 ← read_u8
  m3 ← read_u8
  if m0 == 67 && m1 == 73 && m2 == 66 && m3 == 67 then read_version else fail bad_magic

pub load_unit : List ℕ → Result Error LoadedUnit
load_unit buf = elim (read_unit (record { bytes = buf; pos = 0; len = length buf })) [
  | err e ↦ err e
  | ok (u, _) ↦ ok u
]
