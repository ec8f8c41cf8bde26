-- ===== src/Bytecode/Buffer.antt =====
-- The output buffer of encoder.c, as the list of its bytes, and the reader of
-- blueberry_vm/bytecode_load.c. `b_error` and `bb_error` end the program: they are error values.
pub mod Reads
use blueberry.Prelude.{
  ℕ, zero, suc, ◌+◌, ◌-◌, ◌*◌, ◌/◌, ◌%◌, ◌^◌, Bool, List, [], ◌∷◌, ◌++◌, leb, ltb, if◌then◌else◌,
  length, get_or, set, take, drop,
}
use blueberry.Prelude.Words.{add32}
use blueberry.Prelude.Results.{Result, ok, err}

pub data Error : Type 0 where
  undefined_label imm_too_wide unresolved_decide unhandled_op unknown_enc : Error
  too_many_registers missing_operand bad_pairs key_not_string : Error
  unexpected_end bad_magic bad_version : Error

-- bc_buf_u8
abbrev pub put_u8 : List ℕ → ℕ → List ℕ
put_u8 b v = b ++ v % 2 ^ 8 ∷ []

-- bc_buf_u16, little-endian
abbrev pub put_u16 : List ℕ → ℕ → List ℕ
put_u16 b v = b ++ v % 2 ^ 8 ∷ v / 2 ^ 8 % 2 ^ 8 ∷ []

-- bc_buf_u32, little-endian
abbrev pub put_u32 : List ℕ → ℕ → List ℕ
put_u32 b v = b ++ v % 2 ^ 8 ∷ v / 2 ^ 8 % 2 ^ 8 ∷ v / 2 ^ 16 % 2 ^ 8 ∷ v / 2 ^ 24 % 2 ^ 8 ∷ []

-- bc_buf_bytes
abbrev pub put_bytes : List ℕ → List ℕ → List ℕ
put_bytes b src = b ++ src

-- bc_buf_patch_u32
abbrev pub patch_u32 : List ℕ → ℕ → ℕ → List ℕ
patch_u32 b offset v =
    set
      (set (set (set b offset (v % 2 ^ 8)) (offset + 1) (v / 2 ^ 8 % 2 ^ 8)) (offset + 2)
        (v / 2 ^ 16 % 2 ^ 8))
      (offset + 3) (v / 2 ^ 24 % 2 ^ 8)

-- the `n` rounds of the loop of bc_buf_pad4
unfoldable pub pad_loop : ℕ → List ℕ → List ℕ
pad_loop zero b = b
pad_loop (suc n) b = pad_loop n (put_u8 b 0)

unfoldable pub pad4 : List ℕ → ℕ → ℕ → List ℕ
pad4 b nwords pbytes = pad_loop (nwords * 4 - pbytes) b

-- `bb_reader`
pub record Reader : Type 0 where
  pub bytes : List ℕ
  pub pos : ℕ
  pub len : ℕ

-- A reading function gives its value and the moved reader.
abbrev pub Read {ℓ} : Type ℓ → Type ℓ
Read A = Reader → Result Error (A × Reader)

infixl 5 ◌>>=◌
pub ◌>>=◌ {ℓ κ} : {A : Type ℓ} {B : Type κ} → Read A → (A → Read B) → Read B
f >>= g = λ r. elim (f r) [ err e ↦ err e | ok (x, r) ↦ g x r ]

pub pure {ℓ} : {A : Type ℓ} → A → Read A
pure x = λ r. ok (x, r)

pub fail {ℓ} : {A : Type ℓ} → Error → Read A
fail e = λ r. err e

pub read_u8 : Read ℕ
read_u8 r =
    if leb r.len r.pos
    then err unexpected_end
    else ok (get_or r.bytes r.pos 0, record r { pos = add32 r.pos 1 })

pub read_u16 : Read ℕ
read_u16 = do lo ← read_u8; hi ← read_u8; pure (lo + hi * 2 ^ 8)

pub read_u32 : Read ℕ
read_u32 = do lo ← read_u16; hi ← read_u16; pure (lo + hi * 2 ^ 16)

pub read_bytes : ℕ → Read (List ℕ)
read_bytes n r =
    if ltb r.len (add32 r.pos n)
    then err unexpected_end
    else ok (take n (drop r.pos r.bytes), record r { pos = add32 r.pos n })
