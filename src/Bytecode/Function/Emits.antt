-- ===== src/Bytecode/Function/Emits.antt =====
-- The functions of encoder.c that write one instruction do so in the wire format.
use blueberry.Prelude.{
  ℕ, zero, suc, ◌+◌, ◌-◌, ◌*◌, ◌/◌, ◌%◌, ◌^◌, ◌<◌, ◌≡◌, ◌≢◌, refl, sym, ap, ◌∙◌, not, ◌||◌, List,
  [], ◌∷◌, ◌++◌, append_assoc, append-nil, ltb, ◌==◌, if◌then◌else◌, if_elim, length, arith,
  length-append,
}
use blueberry.Prelude.Results.{OnOk, OnOk->>=, OnOk-map}
use blueberry.Bytecode.Buffer.{put_u8, put_u16, put_u32, pad4, pad_loop}
use blueberry.Bytecode.Buffer.Reads.{bytes16, bytes32}
use blueberry.Bytecode.Opcode.{
  op_loadnull, op_hashaccess, op_newmap, op_newarray, op_return, op_moveto, op_movefrom, Register,
  Opcode, Sub, sub_rrr, sub_rri, sub_rrs, sub_var, tag,
}
use blueberry.Bytecode.Function.{
  emit_fixed, emit_var_header, reg, number, put_numbers, emit_registers, emit_newarray, put_pairs,
  emit_newmap, put_keys, emit_hashaccess, emit_var,
}
use blueberry.Bytecode.Instruction.{Emits}

-- What `f` appends does not depend on what is there.
pub record Appends (out new : List ℕ) (n : ℕ) : Type 0 where
  pub added : List ℕ
  pub size : length added ≡ n
  pub written : new ≡ out ++ added

Appends-nothing : (out : List ℕ) → Appends out out 0
Appends-nothing out = record { added = []; size = refl; written = sym (append-nil out) }

module _ {a b c : List ℕ} {k m n : ℕ} where
  pub Appends-both : m + n ≡ k → Appends a b m → Appends b c n → Appends a c k
  Appends-both sum p q = record {
    added = p.added ++ q.added;
    size = omega (arith, length-append p.added q.added, p.size, q.size, sum);
    written = q.written ∙ ap (λ xs. xs ++ q.added) p.written ∙ append_assoc a p.added q.added;
  }

pub Appends-u8 : (out : List ℕ) (v : ℕ) → Appends out (put_u8 out v) 1
Appends-u8 out v = record { added = v % 2 ^ 8 ∷ []; size = refl; written = refl }

pub Appends-u16 : (out : List ℕ) (v : ℕ) → Appends out (put_u16 out v) 2
Appends-u16 out v = record { added = bytes16 v; size = refl; written = refl }

pub Appends-u32 : (out : List ℕ) (v : ℕ) → Appends out (put_u32 out v) 4
Appends-u32 out v = record { added = bytes32 v; size = refl; written = refl }

pad_loop-Appends : (n : ℕ) (out : List ℕ) → Appends out (pad_loop n out) n
unfolding pad_loop
pad_loop-Appends zero out = Appends-nothing out
pad_loop-Appends (suc n) out =
    Appends-both (omega arith) (Appends-u8 out 0) (pad_loop-Appends n (put_u8 out 0))

module _ (regs : List Register) where
  put_numbers-Appends : (out ps : List ℕ) → Appends out (put_numbers regs out ps) (length ps)
  unfolding put_numbers
  put_numbers-Appends out [] = Appends-nothing out
  put_numbers-Appends out (p ∷ ps) =
      Appends-both (omega arith) (Appends-u8 out (number regs p))
        (put_numbers-Appends (put_u8 out (number regs p)) ps)

  put_pair-Appends :
      (out : List ℕ) (val key : ℕ)
      → Appends out
          (if (reg regs key).is_string
            then put_u16 (put_u8 (put_u8 out 0) (number regs val)) (reg regs key).interned_string_id
            else put_u8 (put_u8 (put_u8 (put_u8 out 1) (number regs val)) (number regs key)) 0)
          4
  put_pair-Appends out val key =
      if_elim (λ new. Appends out new 4) (reg regs key).is_string
        (λ _.
          Appends-both {m = 2} (omega arith)
            (Appends-both (omega arith) (Appends-u8 out 0) (Appends-u8 _ _)) (Appends-u16 _ _))
        λ _.
          Appends-both {m = 2} {n = 2} (omega arith)
            (Appends-both (omega arith) (Appends-u8 out 1) (Appends-u8 _ _))
            (Appends-both (omega arith) (Appends-u8 _ _) (Appends-u8 _ 0))

  put_pairs-Appends : (ps out : List ℕ) → Appends out (put_pairs regs out ps) (length ps / 2 * 4)
  unfolding put_pairs
  put_pairs-Appends [] out = Appends-nothing out
  put_pairs-Appends (p ∷ []) out = Appends-nothing out
  put_pairs-Appends (val ∷ key ∷ ps) out =
      Appends-both (omega arith) (put_pair-Appends out val key) (put_pairs-Appends ps _)

  put_keys-Appends :
      (ks out : List ℕ) → OnOk (λ new. Appends out new (length ks * 2)) (put_keys regs out ks)
  unfolding put_keys
  put_keys-Appends [] out = Appends-nothing out
  put_keys-Appends (k ∷ ks) out =
      if_elim (OnOk (λ new. Appends out new (suc (length ks) * 2))) (not (reg regs k).is_string)
        (λ _. tt)
        λ _.
          OnOk-map _ (put_keys regs (put_u16 out (reg regs k).interned_string_id) ks)
            (λ new. Appends-both (omega arith) (Appends-u16 out _)) (put_keys-Appends ks _)

eight :
    (out : List ℕ) (a b c d e f g h : ℕ)
    → ((((out ++ a ∷ []) ++ b ∷ []) ++ c ∷ []) ++ d ∷ []) ++ e ∷ f ∷ g ∷ h ∷ []
      ≡ out ++ a ∷ b ∷ c ∷ d ∷ e ∷ f ∷ g ∷ h ∷ []
eight out a b c d e f g h =
    append_assoc (((out ++ a ∷ []) ++ b ∷ []) ++ c ∷ []) (d ∷ []) (e ∷ f ∷ g ∷ h ∷ [])
    ∙ append_assoc ((out ++ a ∷ []) ++ b ∷ []) (c ∷ []) (d ∷ e ∷ f ∷ g ∷ h ∷ [])
    ∙ append_assoc (out ++ a ∷ []) (b ∷ []) (c ∷ d ∷ e ∷ f ∷ g ∷ h ∷ [])
    ∙ append_assoc out (a ∷ []) (b ∷ c ∷ d ∷ e ∷ f ∷ g ∷ h ∷ [])

-- The subtypes but VAR leave the high bits of a small opcode number clear of 11.
tag_fixed : (s : Sub) (op : ℕ) → op < 64 → s ≢ sub_var → (tag s op < 256) × (tag s op / 64 ≢ 3)
tag_fixed sub_rrr op h ne = ground arith
tag_fixed sub_rri op h ne = ground arith
tag_fixed sub_rrs op h ne = ground arith
tag_fixed sub_var op h ne = absurd (ne refl)

pub emit_fixed-Emits :
    (out : List ℕ) (s : Sub) (op r1 r2 r3 imm : ℕ)
    → op < 64
    → s ≢ sub_var
    → Emits out (emit_fixed out s op r1 r2 r3 imm)
unfolding emit_fixed
emit_fixed-Emits out s op r1 r2 r3 imm h ne =
    let t = tag_fixed s op h ne in
    record {
      instruction = record {
        code = tag s op % 256;
        r1 = r1 % 256;
        r2 = r2 % 256;
        r3 = r3 % 256;
        imm = imm;
        payload = [];
      };
      valid = record {
        code_byte = omega arith;
        r1_byte = omega arith;
        r2_byte = omega arith;
        r3_byte = omega arith;
        words =
            if_elim (λ n. 0 ≡ n) (tag s op % 256 / 64 == 3) (λ e. absurd (ground (arith, t.0, t.1)))
              (λ e. refl);
      };
      written = eight out _ _ _ _ _ _ _ _;
    }

-- A header and then `nwords` words.
pub emit_var_header-Emits :
    (out : List ℕ) (op r1 r2 nwords imm : ℕ) (new : List ℕ)
    → nwords < 256
    → Appends (emit_var_header out op r1 r2 nwords imm) new (nwords * 4)
    → Emits out new
unfolding emit_var_header
emit_var_header-Emits out op r1 r2 nwords imm new h p = record {
  instruction = record {
    code = tag sub_var op % 256;
    r1 = r1 % 256;
    r2 = r2 % 256;
    r3 = nwords % 256;
    imm = imm;
    payload = p.added;
  };
  valid = record {
    code_byte = omega arith;
    r1_byte = omega arith;
    r2_byte = omega arith;
    r3_byte = omega arith;
    words = ground (arith, p.size);
  };
  written =
      p.written
      ∙ ap (λ xs. xs ++ p.added) (eight out _ _ _ _ _ _ _ _)
      ∙ append_assoc out (_ ∷ _ ∷ _ ∷ _ ∷ bytes32 imm) p.added;
}

-- A list of registers, padded to whole words.
module _ (regs : List Register) where
  pub emit_registers-Emits :
      (out : List ℕ) (op r1 r2 : ℕ) (ps : List ℕ)
      → OnOk (Emits out) (emit_registers regs out op r1 r2 ps)
  unfolding emit_registers pad4
  emit_registers-Emits out op r1 r2 ps =
      let nwords = (length ps + 3) / 4 in
      if_elim (OnOk (Emits out)) (ltb 255 nwords) (λ _. tt)
        λ e. emit_var_header-Emits out op r1 r2 nwords 0 _ (ground arith) (
          Appends-both (omega arith) (put_numbers-Appends regs _ ps)
            (pad_loop-Appends (nwords * 4 - length ps) _))

  pub emit_newarray-Emits :
      (out : List ℕ) (op : ℕ) (ps : List ℕ) → OnOk (Emits out) (emit_newarray regs out op ps)
  unfolding emit_newarray
  emit_newarray-Emits out op [] = tt
  emit_newarray-Emits out op (dst ∷ ps) =
      emit_registers-Emits out op (number regs dst) (length ps) ps

  pub emit_newmap-Emits :
      (out : List ℕ) (op : ℕ) (ps : List ℕ) → OnOk (Emits out) (emit_newmap regs out op ps)
  unfolding emit_newmap
  emit_newmap-Emits out op [] = tt
  emit_newmap-Emits out op (dst ∷ ps) =
      let npairs = length ps / 2 in
      if_elim (OnOk (Emits out)) (not (length ps % 2 == 0)) (λ _. tt)
        λ _.
          if_elim (OnOk (Emits out)) (ltb 255 npairs) (λ _. tt)
            λ e.
              emit_var_header-Emits out op (number regs dst) npairs npairs 0 _ (ground arith)
                (put_pairs-Appends regs ps _)

  pub emit_hashaccess-Emits :
      (out : List ℕ) (op : ℕ) (ps : List ℕ) → OnOk (Emits out) (emit_hashaccess regs out op ps)
  unfolding emit_hashaccess
  emit_hashaccess-Emits out op [] = tt
  emit_hashaccess-Emits out op (dst ∷ []) = tt
  emit_hashaccess-Emits out op (dst ∷ src ∷ keys) =
      let nkeys = length keys in
      let nwords = (nkeys + 1) / 2 + 1 in
      let header = emit_var_header out op (number regs dst) (number regs src) nwords 0 in
      if_elim (OnOk (Emits out)) (ltb 255 nwords) (λ _. tt)
        λ e.
          OnOk->>= (λ new. Appends header new (nkeys * 2)) (Emits out) (put_keys regs header keys) _
            (put_keys-Appends regs keys header)
            λ filled p.
              emit_var_header-Emits out op (number regs dst) (number regs src) nwords 0 _
                (ground arith)
                (Appends-both {m = nwords * 4 - 4} {n = 4} (omega arith)
                  (if_elim (λ new. Appends header new (nwords * 4 - 4)) (nkeys % 2 == 0)
                    (λ even. Appends-both {n = 0} (ground arith) p (Appends-nothing filled))
                    λ odd. Appends-both {n = 2} (ground arith) p (Appends-u16 filled 0))
                  (Appends-both (omega arith) (Appends-u16 _ 0) (Appends-u16 _ 0)))

  pub emit_var-Emits : (out : List ℕ) (op : Opcode) → OnOk (Emits out) (emit_var regs out op)
  unfolding emit_var
  emit_var-Emits out op =
      let P = OnOk (Emits out) in
      if_elim P (op.op == op_return || op.op == op_loadnull)
        (λ _. emit_registers-Emits out op.op _ _ op.var_regs)
        λ _.
          if_elim P (op.op == op_moveto || op.op == op_movefrom)
            (λ _. emit_registers-Emits out op.op _ _ op.var_regs)
            λ _.
              if_elim P (op.op == op_newarray) (λ _. emit_newarray-Emits out op.op op.var_regs)
                λ _.
                  if_elim P (op.op == op_newmap) (λ _. emit_newmap-Emits out op.op op.var_regs)
                    λ _.
                      if_elim P (op.op == op_hashaccess)
                        (λ _. emit_hashaccess-Emits out op.op op.var_regs) λ _. tt
