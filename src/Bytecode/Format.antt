-- ===== src/Bytecode/Format.antt =====
-- The file format, as the comment in blueberry_vm/bytecode_load.c describes it, and what a unit
-- in that format is read as.
use blueberry.Prelude.{ℕ, ◌%◌, ◌^◌, ◌<◌, List, [], ◌∷◌, ◌++◌, length, get_elem?, All}
use blueberry.Bytecode.Buffer.Reads.{bytes16, bytes32}
use blueberry.Bytecode.Load.{LoadedFunction, LoadedUnit}

-- a function of the file
pub record Entry : Type 0 where
  pub name_idx : ℕ
  pub arg_count : ℕ
  pub reg_count : ℕ
  pub code : List ℕ

unfoldable pub strings_bytes : List (List ℕ) → List ℕ
strings_bytes [] = []
strings_bytes (s ∷ ss) = bytes16 (length s) ++ (s ++ strings_bytes ss)

unfoldable pub entry_bytes : Entry → List ℕ
entry_bytes e =
    bytes16 e.name_idx
    ++ ((e.arg_count % 2 ^ 8 ∷ [])
        ++ ((e.reg_count % 2 ^ 8 ∷ []) ++ (bytes16 0 ++ (bytes32 (length e.code) ++ e.code))))

unfoldable pub entries_bytes : List Entry → List ℕ
entries_bytes [] = []
entries_bytes (e ∷ es) = entry_bytes e ++ entries_bytes es

-- "CIBC", the version and the two counts, then the strings and the functions
unfoldable pub unit_bytes : List (List ℕ) → List Entry → List ℕ
unit_bytes ss es =
    (67 ∷ [])
    ++ ((73 ∷ [])
        ++ ((66 ∷ [])
            ++ ((67 ∷ [])
                ++ (bytes16 2
                    ++ (bytes16 (length ss)
                        ++ (bytes16 (length es) ++ (strings_bytes ss ++ entries_bytes es)))))))

-- What each field is read as. A function's length of code is kept in 16 bits.
unfoldable pub loaded_function : List (List ℕ) → Entry → LoadedFunction
loaded_function ss e = record {
  name = get_elem? ss e.name_idx;
  args = e.arg_count % 2 ^ 8;
  regs = e.reg_count % 2 ^ 8;
  code_length = length e.code % 2 ^ 16;
  code = e.code;
}

unfoldable pub loaded_functions : List (List ℕ) → List Entry → List LoadedFunction
loaded_functions ss [] = []
loaded_functions ss (e ∷ es) = loaded_function ss e ∷ loaded_functions ss es

abbrev pub loaded_unit : List (List ℕ) → List Entry → LoadedUnit
loaded_unit ss es = record { strings = ss; functions = loaded_functions ss es }

-- The fields that the format has 16 or 32 bits for.
pub record Fits (ss : List (List ℕ)) (es : List Entry) : Type 0 where
  pub count : length ss < 2 ^ 16
  pub functions : length es < 2 ^ 16
  pub lengths : All (λ s. length s < 2 ^ 16) ss
  pub indices : All (λ e. e.name_idx < 2 ^ 16) es
  pub codes : All (λ e. length e.code < 2 ^ 32) es
