-- ===== src/Bytecode/Cache/Decodes.antt =====
-- The table of operations of whole instructions has one entry for each, and the table of any code
-- fits its memory.
use blueberry.Prelude.{
  ℕ, zero, suc, ◌+◌, ◌-◌, ◌*◌, ◌/◌, ◌^◌, ◌≤◌, ◌<◌, ◌≡◌, refl, sym, ap, ◌∙◌, subst, Bool, true, List,
  [], ◌∷◌, ◌++◌, some, inl, inr, leb, ◌==◌, if◌then◌else◌, if_elim, Bool-cases, length, get_elem?,
  get_or, All, arith, length-append, get_or-append_right, append_assoc,
}
use blueberry.Prelude.Words.{add32}
use blueberry.Prelude.Results.{ok}
use blueberry.Bytecode.Buffer.Reads.{bytes32}
use blueberry.Bytecode.Instruction.{Instruction, instruction_bytes, code_bytes, IsInstruction}
use blueberry.Bytecode.Cache.{
  fast, Arg, word, string, payload, CachedOp, final, imm_at, third, advance, build_loop,
  build_cached,
}

-- Any code: the entries fit.
module _ (table : ℕ → Bool) (strings : List (List ℕ)) (n : ℕ) (code : List ℕ) (small : n < 2 ^ 16)
    (bytes : (i : ℕ) → get_or code i 0 < 256) where
  abbrev Fit : ℕ → List CachedOp → Type 0
  Fit bi ops = length ops * 8 ≤ n - bi + 15

-- What the entries of instructions should be, the first of which stands at the byte `bi`.
abbrev pub arg_of : List (List ℕ) → ℕ → Instruction → Arg
arg_of strings bi i =
    if i.code / 64 == 0
    then word i.r3
    else if i.code / 64 == 1
    then word i.imm
    else if i.code / 64 == 2
    then string (get_or strings i.imm [])
    else payload (bi + 8)

unfoldable pub cached_ops : List (List ℕ) → ℕ → List Instruction → List CachedOp
cached_ops strings bi [] = final ∷ []
cached_ops strings bi (i ∷ is) =
    record { handler = fast i.code; args = some (i.r1, i.r2, arg_of strings bi i) }
    ∷ cached_ops strings (bi + length (instruction_bytes i)) is

-- An instruction that the interpreter has a handler for, whose string is there.
pub record IsKnown (table : ℕ → Bool) (strings : List (List ℕ)) (i : Instruction) : Type 0 where
  pub handled : table i.code ≡ true
  pub imm_word : i.imm < 2 ^ 32
  pub in_range : i.code / 64 ≡ 2 → i.imm < length strings

get_elem?-get_or :
    (xs : List (List ℕ)) (k : ℕ) → k < length xs → get_elem? xs k ≡ some (get_or xs k [])
get_elem?-get_or [] k h = absurd (omega arith)
get_elem?-get_or (x ∷ xs) zero h = refl
get_elem?-get_or (x ∷ xs) (suc k) h = get_elem?-get_or xs k (omega arith)

module _ (table : ℕ → Bool) (strings : List (List ℕ)) where
  third-arg_of :
      (i : Instruction) (bi : ℕ)
      → IsKnown table strings i
      → third strings (i.code / 64) i.r3 i.imm bi ≡ ok (arg_of strings bi i)
  unfolding third
  third-arg_of i bi k = elim (Bool-cases (i.code / 64 == 2)) [
    | inl two ↦
        rw (get_elem?-get_or strings i.imm (k.in_range (ground (arith, two)))) (ground (arith, two))
    | inr other ↦ ground (arith, other)
  ]

  advance-length :
      (i : Instruction)
      → IsInstruction i
      → advance (i.code / 64) i.r3 ≡ length (instruction_bytes i)
  unfolding advance
  advance-length i v = ground (arith, v.words, length-append (bytes32 i.imm) i.payload)

  at_offset : (pre xs : List ℕ) (k : ℕ) → get_or (pre ++ xs) (length pre + k) 0 ≡ get_or xs k 0
  at_offset pre xs k = get_or-append_right pre xs k 0

  at_start : (pre xs : List ℕ) → get_or (pre ++ xs) (length pre) 0 ≡ get_or xs 0 0
  at_start pre xs = ap (λ k. get_or (pre ++ xs) k 0) (omega arith) ∙ at_offset pre xs 0

  imm_at-imm :
      (pre rest : List ℕ) (i : Instruction)
      → i.imm < 2 ^ 32
      → imm_at (pre ++ (instruction_bytes i ++ rest)) (length pre) ≡ i.imm
  imm_at-imm pre rest i h =
      let xs = instruction_bytes i ++ rest in
      omega (arith, at_offset pre xs 4, at_offset pre xs 5, at_offset pre xs 6, at_offset pre xs 7)

  build_loop-cached_ops :
      (is : List Instruction) (pre : List ℕ) (n fuel : ℕ)
      → All IsInstruction is
      → All (IsKnown table strings) is
      → n ≡ length (pre ++ code_bytes is)
      → n < 2 ^ 16
      → length is < fuel
      → build_loop table strings n (pre ++ code_bytes is) fuel (length pre)
        ≡ ok (cached_ops strings (length pre) is)
  unfolding build_loop cached_ops code_bytes
  build_loop-cached_ops is pre n zero vs ks e small more = absurd (omega arith)
  build_loop-cached_ops [] pre n (suc fuel) vs ks e small more =
      if_elim (λ r. r ≡ ok (final ∷ [])) (leb n (length pre)) (λ _. refl)
        λ later. absurd (ground (arith, later, e, length-append pre []))
  build_loop-cached_ops (i ∷ is) pre n (suc fuel) (v, vs) (k, ks) e small more =
      let ib = instruction_bytes i in
      let rest = code_bytes is in
      let code = pre ++ (ib ++ rest) in
      let ih =
        build_loop-cached_ops is (pre ++ ib) n fuel vs ks
          (e ∙ ap length (sym (append_assoc pre ib rest))) small (omega arith) in
      let next : add32 (length pre) (length ib) ≡ length (pre ++ ib) =
        omega
          (arith, length-append pre ib, length-append pre (ib ++ rest), length-append ib rest, e) in
      let ih' : build_loop table strings n code fuel (length (pre ++ ib))
          ≡ ok (cached_ops strings (length (pre ++ ib)) is) =
        subst
          (λ c.
            build_loop table strings n c fuel (length (pre ++ ib))
            ≡ ok (cached_ops strings (length (pre ++ ib)) is))
          (append_assoc pre ib rest) ih in
      rw
        (
          imm_at-imm pre rest i k.imm_word,
          at_start pre (ib ++ rest),
          at_offset pre (ib ++ rest) 1,
          at_offset pre (ib ++ rest) 2,
          at_offset pre (ib ++ rest) 3,
          third-arg_of i (length pre) k,
          k.handled,
          advance-length i v,
          next,
          ih',
          length-append pre ib,
        )
        (ground (arith, e, length-append pre (ib ++ rest)))

  length-le : (is : List Instruction) → length is ≤ length (code_bytes is)
  unfolding code_bytes
  length-le [] = omega arith
  length-le (i ∷ is) =
      omega (arith, length-le is, length-append (instruction_bytes i) (code_bytes is))

  -- On the code of valid instructions, shorter than 2 ^ 16 bytes, whose bytes have handlers and whose
  -- string indices are in range, bb_build_cached makes one entry for each instruction, in order, with
  -- its two registers and what the third argument of its subtype should be, and then the return.
  pub build_cached-cached_ops :
      (is : List Instruction)
      → All IsInstruction is
      → All (IsKnown table strings) is
      → length (code_bytes is) < 2 ^ 16
      → build_cached table strings (length (code_bytes is)) (code_bytes is)
        ≡ ok (cached_ops strings 0 is)
  unfolding build_cached
  build_cached-cached_ops is vs ks small =
      build_loop-cached_ops is [] (length (code_bytes is)) (length (code_bytes is) + 1) vs ks refl
        small (omega (arith, length-le is))
