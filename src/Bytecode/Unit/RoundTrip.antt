-- ===== src/Bytecode/Unit/RoundTrip.antt =====
-- A unit that encoder.c writes is read back by blueberry_vm/bytecode_load.c.
use blueberry.Prelude.{
  ℕ, suc, ◌%◌, ◌^◌, ◌≤◌, ◌<◌, ◌≡◌, refl, sym, ap, ap₂, ◌∙◌, subst, List, [], ◌∷◌, ◌++◌,
  append_assoc, append-nil, Option, none, some, length, get_elem?, All, arith,
}
use blueberry.Prelude.Results.{ok, ◌>>=◌, >>=-inv}
use blueberry.Bytecode.Buffer.{put_u8, put_u16, put_u32, put_bytes}
use blueberry.Bytecode.Buffer.Reads.{bytes16, bytes32}
use blueberry.Bytecode.Opcode.{Register}
use blueberry.Bytecode.Encode.{encode_function}
use blueberry.Bytecode.Unit.{
  Function, CompiledUnit, intern, intern_all, names, put_strings, reg_count, put_functions,
  write_unit, encode_unit, interned, intern_find, encode_bodies,
}
use blueberry.Bytecode.Unit.Table.{In, intern-Interns, intern_all-In}
use blueberry.Bytecode.Load.{LoadedFunction, load_unit}
use blueberry.Bytecode.Load.Reads.{load_unit-unit_bytes}
use blueberry.Bytecode.Format.{
  Entry, Fits, strings_bytes, entry_bytes, entries_bytes, unit_bytes, loaded_function,
  loaded_functions,
}

interned-lt : (ts : List (List ℕ)) (s : List ℕ) (r : Option ℕ) → (interned ts s r).0 < 2 ^ 16
interned-lt ts s none = omega arith
interned-lt ts s (some i) = omega arith

put_strings-strings_bytes :
    (out : List ℕ) (ss : List (List ℕ)) → put_strings out ss ≡ out ++ strings_bytes ss
unfolding put_strings strings_bytes
put_strings-strings_bytes out [] = sym (append-nil out)
put_strings-strings_bytes out (s ∷ ss) =
    put_strings-strings_bytes ((out ++ bytes16 (length s)) ++ s) ss
    ∙ append_assoc (out ++ bytes16 (length s)) s (strings_bytes ss)
    ∙ append_assoc out (bytes16 (length s)) (s ++ strings_bytes ss)

-- the entries of the file for the functions and their codes
abbrev entry : List (List ℕ) → Function → List ℕ → Entry
entry ts f code = record {
  name_idx = (intern ts f.name).0;
  arg_count = f.arg_count;
  reg_count = reg_count f;
  code = code;
}

unfoldable entries : List (List ℕ) → List Function → List (List ℕ) → List Entry
entries ts (f ∷ fs) (code ∷ codes) = entry ts f code ∷ entries ts fs codes
entries ts fs codes = []

abbrev put_entry : List ℕ → Entry → List ℕ
put_entry out e =
    put_bytes
      (put_u32 (put_u16 (put_u8 (put_u8 (put_u16 out e.name_idx) e.arg_count) e.reg_count) 0)
        (length e.code))
      e.code

append_assoc6 :
    (o a b c d e f : List ℕ)
    → ((((((o ++ a) ++ b) ++ c) ++ d) ++ e) ++ f) ≡ o ++ (a ++ (b ++ (c ++ (d ++ (e ++ f)))))
append_assoc6 o a b c d e f =
    append_assoc ((((o ++ a) ++ b) ++ c) ++ d) e f
    ∙ append_assoc (((o ++ a) ++ b) ++ c) d (e ++ f)
    ∙ append_assoc ((o ++ a) ++ b) c (d ++ (e ++ f))
    ∙ append_assoc (o ++ a) b (c ++ (d ++ (e ++ f)))
    ∙ append_assoc o a (b ++ (c ++ (d ++ (e ++ f))))

put_entry-entry_bytes : (out : List ℕ) (e : Entry) → put_entry out e ≡ out ++ entry_bytes e
unfolding entry_bytes
put_entry-entry_bytes out e =
    append_assoc6 out (bytes16 e.name_idx) (e.arg_count % 2 ^ 8 ∷ []) (e.reg_count % 2 ^ 8 ∷ [])
      (bytes16 0) (bytes32 (length e.code)) e.code

put_functions-entries_bytes :
    (out : List ℕ) (ts : List (List ℕ)) (fs : List Function) (codes : List (List ℕ))
    → All (λ s. In s ts) (names fs)
    → put_functions out ts fs codes ≡ out ++ entries_bytes (entries ts fs codes)
unfolding put_functions entries entries_bytes
put_functions-entries_bytes out ts [] codes h = sym (append-nil out)
put_functions-entries_bytes out ts (f ∷ fs) [] h = sym (append-nil out)
put_functions-entries_bytes out ts (f ∷ fs) (code ∷ codes) (i, is) =
    let e = entry ts f code in
    ap (λ us. put_functions (put_entry out e) us fs codes) ((intern-Interns ts f.name).same i)
    ∙ put_functions-entries_bytes (put_entry out e) ts fs codes is
    ∙ ap (λ bs. bs ++ entries_bytes (entries ts fs codes)) (put_entry-entry_bytes out e)
    ∙ append_assoc out (entry_bytes e) (entries_bytes (entries ts fs codes))

-- What the loader should give for a function and its code.
abbrev pub loaded : Function → List ℕ → LoadedFunction
loaded f code = record {
  name = some f.name;
  args = f.arg_count % 2 ^ 8;
  regs = reg_count f % 2 ^ 8;
  code_length = length code % 2 ^ 16;
  code = code;
}

unfoldable pub all_loaded : List Function → List (List ℕ) → List LoadedFunction
all_loaded (f ∷ fs) (code ∷ codes) = loaded f code ∷ all_loaded fs codes
all_loaded fs codes = []

entries-all_loaded :
    (ts : List (List ℕ)) (fs : List Function) (codes : List (List ℕ))
    → length ts < 2 ^ 16
    → All (λ s. In s ts) (names fs)
    → loaded_functions ts (entries ts fs codes) ≡ all_loaded fs codes
unfolding loaded_functions loaded_function entries all_loaded
entries-all_loaded ts [] codes small h = refl
entries-all_loaded ts (f ∷ fs) [] small h = refl
entries-all_loaded ts (f ∷ fs) (code ∷ codes) small (i, is) =
    let x = intern-Interns ts f.name in
    let name : get_elem? ts (intern ts f.name).0 ≡ some f.name =
      subst (λ us. get_elem? us (intern ts f.name).0 ≡ some f.name) (x.same i)
        (x.found (subst (λ us. length us ≤ 2 ^ 16) (sym (x.same i)) (omega arith))) in
    ap₂ (λ n gs. record (loaded f code) { name = n } ∷ gs) name
      (entries-all_loaded ts fs codes small is)

length-entries :
    (ts : List (List ℕ)) (fs : List Function) (codes : List (List ℕ))
    → length codes ≡ length fs
    → length (entries ts fs codes) ≡ length fs
unfolding entries
length-entries ts [] codes h = refl
length-entries ts (f ∷ fs) [] h = h
length-entries ts (f ∷ fs) (code ∷ codes) h = ap suc (length-entries ts fs codes (omega arith))

entries-indices :
    (ts : List (List ℕ)) (fs : List Function) (codes : List (List ℕ))
    → All (λ e. e.name_idx < 2 ^ 16) (entries ts fs codes)
unfolding entries intern
entries-indices ts [] codes = tt
entries-indices ts (f ∷ fs) [] = tt
entries-indices ts (f ∷ fs) (code ∷ codes) =
    (interned-lt ts f.name (intern_find ts f.name 0), entries-indices ts fs codes)

entries-codes :
    (ts : List (List ℕ)) (fs : List Function) (codes : List (List ℕ))
    → All (λ code. length code < 2 ^ 32) codes
    → All (λ e. length e.code < 2 ^ 32) (entries ts fs codes)
unfolding entries
entries-codes ts [] codes h = tt
entries-codes ts (f ∷ fs) [] h = tt
entries-codes ts (f ∷ fs) (code ∷ codes) (h, hs) = (h, entries-codes ts fs codes hs)

length-encode_bodies :
    (regs : List Register) (patches : List ℕ) (fs : List Function) {codes : List (List ℕ)}
    → encode_bodies regs patches fs ≡ ok codes
    → length codes ≡ length fs
unfolding encode_bodies
length-encode_bodies regs patches [] h = cc
length-encode_bodies regs patches (f ∷ fs) h =
    let (p, _, h) = >>=-inv (encode_function regs patches f.bytecode) _ h in
    let (cs, e, h) = >>=-inv (encode_bodies regs p.1 fs) _ h in
    let l : length cs ≡ length fs = length-encode_bodies regs p.1 fs e in cc

-- the strings of the file
abbrev pub table : CompiledUnit → List (List ℕ)
table u = intern_all (intern_all [] u.str_pool) (names u.functions)

-- The counts and lengths fit the fields of the format.
pub record IsEncodable (u : CompiledUnit) (codes : List (List ℕ)) : Type 0 where
  pub count : length (table u) < 2 ^ 16
  pub functions : length u.functions < 2 ^ 16
  pub lengths : All (λ s. length s < 2 ^ 16) (table u)
  pub sizes : All (λ code. length code < 2 ^ 32) codes
  pub total : length (write_unit u codes) < 2 ^ 32

module _ (u : CompiledUnit) {codes : List (List ℕ)}
    (bodies : encode_bodies u.registers u.patches u.functions ≡ ok codes)
    (fits : IsEncodable u codes) where
  names-In : All (λ s. In s (table u)) (names u.functions)
  names-In =
      intern_all-In (intern_all [] u.str_pool) (names u.functions) (omega (arith, fits.count))

  same_length : length (entries (table u) u.functions codes) ≡ length u.functions
  same_length =
      length-entries (table u) u.functions codes
        (length-encode_bodies u.registers u.patches u.functions bodies)

  write_unit-unit_bytes :
      write_unit u codes ≡ unit_bytes (table u) (entries (table u) u.functions codes)
  unfolding write_unit unit_bytes
  write_unit-unit_bytes =
      let ts = table u in
      let rest = entries_bytes (entries ts u.functions codes) in
      let head =
        67 ∷ 73 ∷ 66 ∷ 67 ∷ bytes16 2 ++ (bytes16 (length ts) ++ bytes16 (length u.functions)) in
      put_functions-entries_bytes (put_strings head ts) ts u.functions codes names-In
      ∙ ap (λ bs. bs ++ rest) (put_strings-strings_bytes head ts)
      ∙ append_assoc head (strings_bytes ts) rest
      ∙ ap
          (λ n.
            67
            ∷ 73
            ∷ 66
            ∷ 67
            ∷ 2
            ∷ 0
            ∷ (bytes16 (length ts) ++ (bytes16 n ++ (strings_bytes ts ++ rest))))
          (sym same_length)

  file-Fits : Fits (table u) (entries (table u) u.functions codes)
  file-Fits = record {
    count = fits.count;
    functions = omega (arith, same_length, fits.functions);
    lengths = fits.lengths;
    indices = entries-indices (table u) u.functions codes;
    codes = entries-codes (table u) u.functions codes fits.sizes;
  }

  -- A unit whose function bodies are encoded, and whose counts and lengths fit their fields, is
  -- loaded from its file with its strings once each, and with every function's name, counts and code.
  -- The loaded length of the code is the length modulo 2 ^ 16.
  pub load_unit-encode_unit :
      (encode_unit u >>= load_unit)
      ≡ ok (record { strings = table u; functions = all_loaded u.functions codes })
  unfolding encode_unit
  load_unit-encode_unit =
      ap (λ m. (m >>= λ cs. ok (write_unit u cs)) >>= load_unit) bodies
      ∙ ap load_unit write_unit-unit_bytes
      ∙ load_unit-unit_bytes (table u) (entries (table u) u.functions codes) file-Fits
          (subst (λ bs. length bs < 2 ^ 32) write_unit-unit_bytes fits.total)
      ∙ ap (λ fs. ok (record { strings = table u; functions = fs }))
          (entries-all_loaded (table u) u.functions codes fits.count names-In)
