-- ===== src/Bytecode/Encode/Coded.antt =====
-- The invariant of be_encode_function: the output is whole instructions, and every place to patch
-- is the immediate operand of one of them.
use blueberry.Prelude.{
  ℕ, zero, suc, ◌+◌, ◌-◌, ◌^◌, ◌<◌, ◌≡◌, ◌≢◌, refl, sym, ap, ap₂, subst, ◌∙◌, ◌⊎◌, inl, inr, List,
  [], ◌∷◌, ◌++◌, append_assoc, append-nil, length, length-append, get_or, set, All, arith,
}
use blueberry.Prelude.Words.{add32}
use blueberry.Bytecode.Function.{State}
use blueberry.Bytecode.Instruction.{
  Instruction, instruction_bytes, code_bytes, IsInstruction, Emits,
}

-- The places to patch are kept, but for a label that gets the place in the new instruction.
abbrev pub Placed : State → State → Type 0
Placed old new =
    (new.patches ≡ old.patches)
    ⊎ ((label : ℕ) × (new.patches ≡ set old.patches label (length old.out + 4)))

-- what every encoding does: one instruction more, and the same counter
pub record Body (old new : State) : Type 0 where
  pub emits : Emits old.out new.out
  pub ic_same : new.ic ≡ old.ic
  pub placed : Placed old new

-- where the immediate operand of the `k`-th instruction stands
unfoldable pub site : List Instruction → ℕ → ℕ
site [] k = 4
site (i ∷ is) zero = 4
site (i ∷ is) (suc k) = length (instruction_bytes i) + site is k

-- a place that is the operand of one of the instructions
abbrev pub SiteOf : List Instruction → ℕ → Type 0
SiteOf is v = (k : ℕ) × (k < length is) × (v ≡ site is k)

pub record IsCoded (st : State) : Type 0 where
  pub instructions : List Instruction
  pub valid : All IsInstruction instructions
  pub written : st.out ≡ code_bytes instructions
  pub counted : st.ic ≡ length instructions
  pub sites : (p : ℕ) → get_or st.patches p 0 ≢ 0 → SiteOf instructions (get_or st.patches p 0)

code_bytes-append :
    (is js : List Instruction) → code_bytes (is ++ js) ≡ code_bytes is ++ code_bytes js
unfolding code_bytes
code_bytes-append [] js = refl
code_bytes-append (i ∷ is) js =
    ap (λ bs. instruction_bytes i ++ bs) (code_bytes-append is js)
    ∙ sym (append_assoc (instruction_bytes i) (code_bytes is) (code_bytes js))

All-append :
    (is js : List Instruction)
    → All IsInstruction is
    → All IsInstruction js
    → All IsInstruction (is ++ js)
All-append [] js p q = q
All-append (i ∷ is) js (p, ps) q = (p, All-append is js ps q)

site-append : (is js : List Instruction) (k : ℕ) → k < length is → site (is ++ js) k ≡ site is k
unfolding site
site-append [] js k h = absurd (omega arith)
site-append (i ∷ is) js zero h = refl
site-append (i ∷ is) js (suc k) h =
    ap (λ n. length (instruction_bytes i) + n) (site-append is js k (omega arith))

site-last :
    (is : List Instruction) (i : Instruction)
    → site (is ++ i ∷ []) (length is) ≡ length (code_bytes is) + 4
unfolding site code_bytes
site-last [] i = refl
site-last (j ∷ is) i =
    omega (arith, site-last is i, length-append (instruction_bytes j) (code_bytes is))

pub get_or-set_cases :
    (xs : List ℕ) (l v p : ℕ)
    → (get_or (set xs l v) p 0 ≡ get_or xs p 0) ⊎ (get_or (set xs l v) p 0 ≡ v)
get_or-set_cases [] l v p = inl refl
get_or-set_cases (x ∷ xs) zero v zero = inr refl
get_or-set_cases (x ∷ xs) zero v (suc p) = inl refl
get_or-set_cases (x ∷ xs) (suc l) v zero = inl refl
get_or-set_cases (x ∷ xs) (suc l) v (suc p) = get_or-set_cases xs l v p

module _ {st : State} (c : IsCoded st) where
  pub labelled : (labels : List (List ℕ × ℕ)) → IsCoded (record st { labels = labels })
  labelled labels = record {
    instructions = c.instructions;
    valid = c.valid;
    written = c.written;
    counted = c.counted;
    sites = c.sites;
  }

  kept_site :
      (i : Instruction) (p : ℕ)
      → get_or st.patches p 0 ≢ 0
      → SiteOf (c.instructions ++ i ∷ []) (get_or st.patches p 0)
  kept_site i p ne =
      let (k, lt, e) = c.sites p ne in
      (
        k,
        omega (arith, lt, length-append c.instructions (i ∷ [])),
        e ∙ sym (site-append c.instructions (i ∷ []) k lt),
      )

  moved_site :
      (i : Instruction) (p v : ℕ)
      → v ≡ get_or st.patches p 0
      → v ≢ 0
      → SiteOf (c.instructions ++ i ∷ []) v
  moved_site i p v e ne =
      subst (SiteOf (c.instructions ++ i ∷ [])) (sym e) (kept_site i p (λ z. ne (e ∙ z)))

  new_site : (i : Instruction) (v : ℕ) → v ≡ length st.out + 4 → SiteOf (c.instructions ++ i ∷ []) v
  new_site i v e = (
    length c.instructions,
    omega (arith, length-append c.instructions (i ∷ [])),
    e ∙ ap (λ bs. length bs + 4) c.written ∙ sym (site-last c.instructions i),
  )

  Placed-site :
      (new : State)
      → Placed st new
      → (i : Instruction) (p : ℕ) → get_or new.patches p 0 ≢ 0
      → SiteOf (c.instructions ++ i ∷ []) (get_or new.patches p 0)
  Placed-site new (inl same) i p ne =
      moved_site i p (get_or new.patches p 0) (ap (λ q. get_or q p 0) same) ne
  Placed-site new (inr (label, e)) i p ne =
      let v = get_or new.patches p 0 in
      let is : v ≡ get_or (set st.patches label (length st.out + 4)) p 0 =
        ap (λ q. get_or q p 0) e in
      elim (get_or-set_cases st.patches label (length st.out + 4) p) [
        | inl old ↦ moved_site i p v (is ∙ old) ne
        | inr new ↦ new_site i v (is ∙ new)
      ]

  pub added :
      {new : State}
      → Body st new
      → new.ic < 2 ^ 32 - 1
      → IsCoded (record new { ic = add32 new.ic 1 })
  unfolding code_bytes
  added {new} b small =
      let i = b.emits.instruction in
      record {
        instructions = c.instructions ++ i ∷ [];
        valid = All-append c.instructions (i ∷ []) c.valid (b.emits.valid, tt);
        written =
            b.emits.written
            ∙ ap₂ (λ bs cs. bs ++ cs) c.written (sym (append-nil (instruction_bytes i)))
            ∙ sym (code_bytes-append c.instructions (i ∷ []));
        counted = omega (arith, b.ic_same, small, c.counted, length-append c.instructions (i ∷ []));
        sites = Placed-site new b.placed i;
      }
