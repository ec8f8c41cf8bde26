-- ===== src/Bytecode/Tests.antt =====
-- A small compiled unit, and the theorems at it.
use blueberry.Prelude.{ℕ, ◌<◌, ◌^◌, ◌≡◌, refl, true, false, List, [], ◌∷◌, some, length, arith}
use blueberry.Prelude.Results.{ok, ◌>>=◌}
use blueberry.Bytecode.Opcode.{Register, Opcode, enc_rrr, enc_ri, enc_r, enc_r0, enc_var}
use blueberry.Bytecode.Function.{
  label_find, label_get, put_numbers, emit_var, emit_registers, emit_fixed, emit_var_header,
}
use blueberry.Bytecode.Buffer.{pad_loop, pad4}
use blueberry.Bytecode.Encode.{
  encode_function, emit_pass, emit_op, emit_body, emit_jump, emit_wide, jump_label, patch_label,
  patch_pass,
}
use blueberry.Bytecode.Unit.{
  CompiledUnit, intern, intern_all, intern_find, encode_unit, encode_bodies, put_strings,
  put_functions, write_unit,
}
use blueberry.Bytecode.Unit.Table.{Interns, intern-Interns, IsUnique, intern_all-IsUnique}
use blueberry.Bytecode.Unit.RoundTrip.{IsEncodable, table, all_loaded, load_unit-encode_unit}
use blueberry.Bytecode.Load.{load_unit}
use blueberry.Prelude.{eq_list, Bool, All}
use blueberry.Bytecode.Instruction.{Instruction, code_bytes}
use blueberry.Bytecode.Cache.{fast, word, payload, final, build_cached, build_loop, third, advance}
use blueberry.Bytecode.Cache.Decodes.{IsKnown, cached_ops, build_cached-cached_ops}

-- r3, and the label "end"
abbrev regs : List Register
regs =
    record { number = 3; is_string = false; label = []; interned_string_id = 0 }
    ∷ record { number = 0; is_string = false; label = 101 ∷ 110 ∷ 100 ∷ []; interned_string_id = 0 }
    ∷ []

abbrev nothing : Opcode
nothing = record {
  op = 7;
  enc = enc_rrr;
  rrr_dst = 0;
  rrr_src1 = 0;
  rrr_src2 = 0;
  rri32_dst = 0;
  rri32_src1 = 0;
  rri32_imm = 0;
  rd_dst = 0;
  rd_imm = 0;
  r_dst = 0;
  r_src = 0;
  var_regs = [];
  call_base = 0;
  call_nargs = 0;
  call_nrets = 0;
}

-- LOADINT r3 5; JMPF r3 "end"; LOADINT r3 2^40; LABEL "end"; RETURN [r3]
abbrev body : List Opcode
body =
    record nothing { op = 1; enc = enc_ri; rri32_dst = 0; rri32_imm = 5 }
    ∷ record nothing { op = 40; enc = enc_r; r_dst = 0; r_src = 1 }
    ∷ record nothing { op = 1; enc = enc_ri; rri32_dst = 0; rri32_imm = 2 ^ 40 }
    ∷ record nothing { op = 42; enc = enc_r0; r_dst = 1 }
    ∷ record nothing { op = 38; enc = enc_var; var_regs = 0 ∷ [] }
    ∷ []

-- The jump goes to the instruction behind the label, the fourth.
abbrev code : List ℕ
code =
    65 ∷ 3 ∷ 3 ∷ 0 ∷ 5 ∷ 0 ∷ 0 ∷ 0 ∷ 104 ∷ 3 ∷ 0 ∷ 0 ∷ 3 ∷ 0 ∷ 0 ∷ 0 ∷ 193 ∷ 3 ∷ 0 ∷ 2 ∷ 0 ∷ 0 ∷ 0
    ∷ 0 ∷ 0 ∷ 0 ∷ 0 ∷ 0 ∷ 0 ∷ 1 ∷ 0 ∷ 0 ∷ 230 ∷ 1 ∷ 0 ∷ 1 ∷ 0 ∷ 0 ∷ 0 ∷ 0 ∷ 3 ∷ 0 ∷ 0 ∷ 0 ∷ []

encode_body : encode_function regs (0 ∷ 0 ∷ []) body ≡ ok (code, 0 ∷ 0 ∷ [])
unfolding encode_function emit_pass emit_op emit_body emit_jump emit_wide jump_label patch_label
    patch_pass label_find label_get emit_fixed emit_var_header emit_var emit_registers put_numbers
    pad4 pad_loop eq_list
encode_body = refl

abbrev places : List ℕ
places = 0 ∷ 0 ∷ []

abbrev main : List ℕ
main = 109 ∷ 97 ∷ 105 ∷ 110 ∷ []

abbrev unit : CompiledUnit
unit = record {
  str_pool = (104 ∷ 105 ∷ []) ∷ main ∷ [];
  functions = record { name = main; arg_count = 0; reg_next = some 4; bytecode = body } ∷ [];
  registers = regs;
  patches = 0 ∷ 0 ∷ [];
}

encode_bodies_unit : encode_bodies regs (0 ∷ 0 ∷ []) unit.functions ≡ ok (code ∷ [])
unfolding encode_bodies encode_function emit_pass emit_op emit_body emit_jump emit_wide jump_label
    patch_label patch_pass label_find label_get emit_fixed emit_var_header emit_var emit_registers
    put_numbers pad4 pad_loop eq_list
encode_bodies_unit = refl

unit-IsEncodable : IsEncodable unit (code ∷ [])
unfolding write_unit put_strings put_functions intern intern_all intern_find eq_list
unit-IsEncodable = omega arith

load_unit-encode_unit_example :
    (encode_unit unit >>= load_unit)
    ≡ ok (record { strings = table unit; functions = all_loaded unit.functions (code ∷ []) })
load_unit-encode_unit_example = load_unit-encode_unit unit encode_bodies_unit unit-IsEncodable

intern-Interns_example : Interns ((104 ∷ []) ∷ []) main (intern ((104 ∷ []) ∷ []) main)
intern-Interns_example = intern-Interns ((104 ∷ []) ∷ []) main

none-IsUnique : IsUnique []
none-IsUnique i j s p q = ground arith

intern_all-IsUnique_example : IsUnique (intern_all [] (main ∷ main ∷ []))
intern_all-IsUnique_example = intern_all-IsUnique [] (main ∷ main ∷ []) none-IsUnique

-- Every byte has a handler.
abbrev all_handled : ℕ → Bool
all_handled b = true

build_cached_code :
    build_cached all_handled [] 44 code
    ≡ ok (
        record { handler = fast 65; args = some (3, 3, word 5) }
        ∷ record { handler = fast 104; args = some (3, 0, word 3) }
        ∷ record { handler = fast 193; args = some (3, 0, payload 24) }
        ∷ record { handler = fast 230; args = some (1, 0, payload 40) }
        ∷ final
        ∷ [])
unfolding build_cached build_loop third advance
build_cached_code = refl

abbrev two : List Instruction
two =
    record { code = 65; r1 = 3; r2 = 3; r3 = 0; imm = 5; payload = [] }
    ∷ record { code = 230; r1 = 1; r2 = 0; r3 = 1; imm = 0; payload = 3 ∷ 0 ∷ 0 ∷ 0 ∷ [] }
    ∷ []

two-IsKnown : All (IsKnown all_handled []) two
two-IsKnown = (
  record { handled = refl; imm_word = omega arith; in_range = λ e. ground arith },
  (record { handled = refl; imm_word = omega arith; in_range = λ e. ground arith }, tt),
)

two-small : length (code_bytes two) < 2 ^ 16
unfolding code_bytes
two-small = omega arith

build_cached-cached_ops_example :
    build_cached all_handled [] (length (code_bytes two)) (code_bytes two)
    ≡ ok (cached_ops [] 0 two)
build_cached-cached_ops_example =
    build_cached-cached_ops all_handled [] two (omega arith) two-IsKnown two-small
