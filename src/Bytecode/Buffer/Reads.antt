-- ===== src/Bytecode/Buffer/Reads.antt =====
-- What a reading function does in front of given bytes, and how such readings follow each other.
use blueberry.Prelude.{
  ℕ, ◌+◌, ◌*◌, ◌/◌, ◌%◌, ◌^◌, ◌<◌, ◌≡◌, sym, ap, ap₂, ◌∙◌, subst, List, [], ◌∷◌, ◌++◌, append_assoc,
  append-nil, leb, ltb, if_elim, length, get_or, take, arith, length-append, take-append,
  drop-append, get_or-append_right,
}
use blueberry.Prelude.Results.{Result, ok, err}
use blueberry.Bytecode.Buffer.{
  Error, ◌>>=◌, pure, Reader, Read, read_u8, read_u16, read_u32, read_bytes,
}

-- A reader behind `pre` and in front of `post`.
unfoldable pub between : List ℕ → List ℕ → Reader
between pre post = record { bytes = pre ++ post; pos = length pre; len = length (pre ++ post) }

-- In front of `bs`, and in less than 2 ^ 32 bytes, `f` reads `x` and stops behind them.
pub record Reads {ℓ} {A : Type ℓ} (f : Read A) (bs : List ℕ) (x : A) : Type ℓ where
  pub reads :
      (pre post : List ℕ)
      → length pre + length bs + length post < 2 ^ 32
      → f (between pre (bs ++ post)) ≡ ok (x, between (pre ++ bs) post)

pub Reads-pure {ℓ} : {A : Type ℓ} (x : A) → Reads (pure x) [] x
unfolding pure
Reads-pure x = record {
  reads = λ pre post h. ap (λ p. ok (x, between p post)) (sym (append-nil pre));
}

>>=-ok {ℓ κ} :
    {A : Type ℓ} {B : Type κ} (f : Read A) (g : A → Read B) {r s : Reader} {x : A}
    → f r ≡ ok (x, s)
    → (f >>= g) r ≡ g x s
unfolding ◌>>=◌
>>=-ok {B = B} f g e =
    ap (λ m. elim m as (λ _. Result Error (B × Reader)) [ err e ↦ err e | ok (z, r) ↦ g z r ]) e

-- A reader, and then one that depends on what it read.
pub Reads->>= {ℓ κ} :
    {A : Type ℓ} {B : Type κ} {f : Read A} (g : A → Read B) {bs cs : List ℕ} {x : A} {y : B}
    → Reads f bs x
    → Reads (g x) cs y
    → Reads (f >>= g) (bs ++ cs) y
Reads->>= {f = f} g {bs = bs} {cs = cs} {y = y} reads_f reads_g = record {
  reads = λ pre post h.
      let bound : length pre + length bs + length (cs ++ post) < 2 ^ 32 =
        omega (arith, length-append bs cs, length-append cs post) in
      let bound' : length (pre ++ bs) + length cs + length post < 2 ^ 32 =
        omega (arith, length-append bs cs, length-append pre bs) in
      ap (λ q. (f >>= g) (between pre q)) (append_assoc bs cs post)
      ∙ >>=-ok f g (reads_f.reads pre (cs ++ post) bound)
      ∙ reads_g.reads (pre ++ bs) post bound'
      ∙ ap (λ q. ok (y, between q post)) (append_assoc pre bs cs);
}

-- the last step of a `do` block, which reads nothing
pub Reads-last {ℓ κ} :
    {A : Type ℓ} {B : Type κ} {f : Read A} (g : A → B) {bs : List ℕ} {x : A}
    → Reads f bs x
    → Reads (f >>= λ z. pure (g z)) bs (g x)
Reads-last {f = f} g {bs = bs} {x = x} reads_f =
    subst (λ cs. Reads (f >>= λ z. pure (g z)) cs (g x)) (append-nil bs)
      (Reads->>= (λ z. pure (g z)) reads_f (Reads-pure (g x)))

-- the bytes of the numbers, little-endian
abbrev pub bytes16 : ℕ → List ℕ
bytes16 v = v % 2 ^ 8 ∷ v / 2 ^ 8 % 2 ^ 8 ∷ []

abbrev pub bytes32 : ℕ → List ℕ
bytes32 v = v % 2 ^ 8 ∷ v / 2 ^ 8 % 2 ^ 8 ∷ v / 2 ^ 16 % 2 ^ 8 ∷ v / 2 ^ 24 % 2 ^ 8 ∷ []

abbrev reader_at : ℕ → List ℕ → Reader
reader_at k xs = record { bytes = xs; pos = k; len = length xs }

moved : {xs ys : List ℕ} {k l : ℕ} → k ≡ l → xs ≡ ys → reader_at k xs ≡ reader_at l ys
moved p q = ap₂ reader_at p q

pub read_u8-Reads : (b : ℕ) → Reads read_u8 (b ∷ []) b
unfolding read_u8 between
read_u8-Reads b = record {
  reads = λ pre post h.
      if_elim (λ m. m ≡ ok (b, reader_at (length (pre ++ b ∷ [])) ((pre ++ b ∷ []) ++ post)))
        (leb (length (pre ++ b ∷ post)) (length pre))
        (λ e. absurd (ground (arith, length-append pre (b ∷ post))))
        λ e.
          let sum : (length pre + 1) % 2 ^ 32 ≡ length (pre ++ b ∷ []) =
            ground (arith, length-append pre (b ∷ [])) in
          ap₂ (λ b r. ok (b, r))
            (subst (λ k. get_or (pre ++ b ∷ post) k 0 ≡ b) {x = length pre + 0} (omega arith)
              (get_or-append_right pre (b ∷ post) 0 0))
            (moved sum (sym (append_assoc pre (b ∷ []) post)));
}

pub read_bytes-Reads : (bs : List ℕ) → Reads (read_bytes (length bs)) bs bs
unfolding read_bytes between
read_bytes-Reads bs = record {
  reads = λ pre post h.
      if_elim (λ m. m ≡ ok (bs, reader_at (length (pre ++ bs)) ((pre ++ bs) ++ post)))
        (ltb (length (pre ++ (bs ++ post))) ((length pre + length bs) % 2 ^ 32))
        (λ e. absurd (ground (arith, length-append pre (bs ++ post), length-append bs post)))
        λ e.
          let sum : (length pre + length bs) % 2 ^ 32 ≡ length (pre ++ bs) =
            ground (arith, length-append pre bs) in
          ap₂ (λ b r. ok (b, r))
            (ap (take (length bs)) (drop-append pre (bs ++ post)) ∙ take-append bs post)
            (moved sum (sym (append_assoc pre bs post)));
}

pub read_u16-Reads : (v : ℕ) → v < 2 ^ 16 → Reads read_u16 (bytes16 v) v
unfolding read_u16
read_u16-Reads v h =
    subst (Reads read_u16 (bytes16 v)) {x = v % 2 ^ 8 + v / 2 ^ 8 % 2 ^ 8 * 2 ^ 8} (omega arith) (
      Reads->>= _ (read_u8-Reads (v % 2 ^ 8))
        (Reads-last (λ hi. v % 2 ^ 8 + hi * 2 ^ 8) (read_u8-Reads (v / 2 ^ 8 % 2 ^ 8))))

quad :
    {a b c d a' b' c' d' : ℕ}
    → a ≡ a'
    → b ≡ b'
    → c ≡ c'
    → d ≡ d'
    → a ∷ b ∷ c ∷ d ∷ [] ≡ a' ∷ b' ∷ c' ∷ d' ∷ []
quad p q r s = cc

pub read_u32-Reads : (v : ℕ) → v < 2 ^ 32 → Reads read_u32 (bytes32 v) v
unfolding read_u32
read_u32-Reads v h =
    subst (Reads read_u32 (bytes32 v)) {x = v % 2 ^ 16 + v / 2 ^ 16 * 2 ^ 16} (omega arith) (
      subst (λ bs. Reads read_u32 bs (v % 2 ^ 16 + v / 2 ^ 16 * 2 ^ 16))
        {x = bytes16 (v % 2 ^ 16) ++ bytes16 (v / 2 ^ 16)}
        (quad (omega arith) (omega arith) (omega arith) (omega arith))
        (Reads->>= _ (read_u16-Reads (v % 2 ^ 16) (omega arith)) (
          Reads-last (λ hi. v % 2 ^ 16 + hi * 2 ^ 16) (read_u16-Reads (v / 2 ^ 16) (omega arith)))))
