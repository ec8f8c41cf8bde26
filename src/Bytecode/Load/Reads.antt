-- ===== src/Bytecode/Load/Reads.antt =====
-- The loader of blueberry_vm/bytecode_load.c reads what the format describes.
use blueberry.Prelude.{
  ℕ, ◌%◌, ◌^◌, ◌<◌, ◌≡◌, sym, ap, ◌∙◌, List, [], ◌∷◌, ◌++◌, append-nil, length, All, arith,
}
use blueberry.Prelude.Results.{Result, ok, err}
use blueberry.Bytecode.Buffer.{Error}
use blueberry.Bytecode.Buffer.Reads.{
  between, Reads, Reads-pure, Reads->>=, Reads-last, read_u8-Reads, read_u16-Reads, read_u32-Reads,
  read_bytes-Reads,
}
use blueberry.Bytecode.Load.{
  LoadedUnit, read_strings, skip_locals, read_function, read_functions, read_tables, read_version,
  read_unit, load_unit,
}
use blueberry.Bytecode.Format.{
  Entry, Fits, strings_bytes, entry_bytes, entries_bytes, unit_bytes, loaded_function,
  loaded_functions, loaded_unit,
}

read_strings-Reads :
    (ss : List (List ℕ))
    → All (λ s. length s < 2 ^ 16) ss
    → Reads (read_strings (length ss)) (strings_bytes ss) ss
unfolding read_strings strings_bytes
read_strings-Reads [] h = Reads-pure []
read_strings-Reads (s ∷ ss) (h, hs) =
    Reads->>= _ (read_u16-Reads (length s) h)
      (Reads->>= _ (read_bytes-Reads s) (Reads-last (λ ss. s ∷ ss) (read_strings-Reads ss hs)))

skip_locals-Reads : Reads (skip_locals 0) [] tt
unfolding skip_locals
skip_locals-Reads = Reads-pure tt

read_function-Reads :
    (ss : List (List ℕ)) (e : Entry)
    → e.name_idx < 2 ^ 16
    → length e.code < 2 ^ 32
    → Reads (read_function ss) (entry_bytes e) (loaded_function ss e)
unfolding read_function entry_bytes loaded_function
read_function-Reads ss e index size = Reads->>= _ (read_u16-Reads e.name_idx index) (
    Reads->>= _ (read_u8-Reads (e.arg_count % 2 ^ 8)) (
      Reads->>= _ (read_u8-Reads (e.reg_count % 2 ^ 8)) (
        Reads->>= _ (read_u16-Reads 0 (omega arith)) (
          Reads->>= _ skip_locals-Reads (
            Reads->>= _ (read_u32-Reads (length e.code) size)
              (Reads-last _ (read_bytes-Reads e.code)))))))

read_functions-Reads :
    (ss : List (List ℕ)) (es : List Entry)
    → All (λ e. e.name_idx < 2 ^ 16) es
    → All (λ e. length e.code < 2 ^ 32) es
    → Reads (read_functions ss (length es)) (entries_bytes es) (loaded_functions ss es)
unfolding read_functions entries_bytes loaded_functions
read_functions-Reads ss [] is cs = Reads-pure []
read_functions-Reads ss (e ∷ es) (i, is) (c, cs) =
    Reads->>= _ (read_function-Reads ss e i c)
      (Reads-last (λ fs. loaded_function ss e ∷ fs) (read_functions-Reads ss es is cs))

module _ (ss : List (List ℕ)) (es : List Entry) (fits : Fits ss es) where
  read_unit-Reads : Reads read_unit (unit_bytes ss es) (loaded_unit ss es)
  unfolding read_unit read_version read_tables unit_bytes
  read_unit-Reads = Reads->>= _ (read_u8-Reads 67) (
      Reads->>= _ (read_u8-Reads 73) (
        Reads->>= _ (read_u8-Reads 66) (
          Reads->>= _ (read_u8-Reads 67) (
            Reads->>= _ (read_u16-Reads 2 (omega arith)) (
              Reads->>= _ (read_u16-Reads (length ss) fits.count) (
                Reads->>= _ (read_u16-Reads (length es) fits.functions) (
                  Reads->>= _ (read_strings-Reads ss fits.lengths) (
                    Reads-last (λ fs. record { strings = ss; functions = fs })
                      (read_functions-Reads ss es fits.indices fits.codes)))))))))

  -- A file in the format, of less than 2 ^ 32 bytes, is loaded with every field as described.
  pub load_unit-unit_bytes :
      length (unit_bytes ss es) < 2 ^ 32 → load_unit (unit_bytes ss es) ≡ ok (loaded_unit ss es)
  unfolding load_unit between
  load_unit-unit_bytes small =
      ap (λ m. elim m as (λ _. Result Error LoadedUnit) [ err e ↦ err e | ok (u, _) ↦ ok u ])
        (whole ∙ read_unit-Reads.reads [] [] (omega arith))
    where
      whole :
          read_unit (record { bytes = unit_bytes ss es; pos = 0; len = length (unit_bytes ss es) })
          ≡ read_unit (between [] (unit_bytes ss es ++ []))
      whole =
          ap (λ bs. read_unit (record { bytes = bs; pos = 0; len = length bs }))
            (sym (append-nil (unit_bytes ss es)))
