-- ===== src/Cma/Build/Sets.antt =====
-- cma/cma.c: the set of characters that a specification as in R("A-Za-z_") stands for.
use Prim.Native.Nat.{min, max}
use blueberry.Prelude.{
  ℕ, zero, suc, ◌+◌, ◌-◌, ◌≡◌, ◌≢◌, refl, ap, ◌∙◌, Bool, true, false, ◌&&◌, ◌||◌, List, [], ◌∷◌,
  leb, ltb, ◌==◌, All, arith,
}
use blueberry.Cma.{Bytes}
use blueberry.Cma.Build.{Bits, bit_set, fill_from, fill_range, fill_str}

-- an item of a specification: a character, or two with a dash between them
pub data Item : Type 0 where
  one : ℕ → Item
  span : ℕ → ℕ → Item

abbrev pub written : List Item → Bytes
written [] = []
written (one a ∷ items) = a ∷ written items
written (span a b ∷ items) = a ∷ 45 ∷ b ∷ written items

-- no item begins with the dash
abbrev pub NoDash : Item → Type 0
NoDash (one a) = a ≢ 45
NoDash (span a b) = a ≢ 45

abbrev pub covers : Item → ℕ → Bool
covers (one a) c = c == a
covers (span a b) c = leb (min a b) c && leb c (max a b)

abbrev pub covered : List Item → ℕ → Bool
covered [] c = false
covered (i ∷ items) c = covers i c || covered items c

fill_from_lem :
    (n lo : ℕ) (bits : Bits) (c : ℕ)
    → fill_from n lo bits c ≡ (bits c || (leb lo c && ltb c (lo + n)))
unfolding fill_from
fill_from_lem zero lo bits c = ground arith
fill_from_lem (suc n) lo bits c = fill_from_lem n (lo + 1) (bit_set lo bits) c ∙ ground arith

pub fill_range_lem :
    (a b : ℕ) (bits : Bits) (c : ℕ) → fill_range a b bits c ≡ (bits c || covers (span a b) c)
unfolding fill_range
fill_range_lem a b bits c =
    ground (arith, fill_from_lem (a + 1 - b) b bits c, fill_from_lem (b + 1 - a) a bits c)

fill_step :
    (a b c : ℕ) (rest : Bytes) (bits : Bits)
    → b ≢ 45
    → fill_str (a ∷ b ∷ c ∷ rest) bits ≡ fill_str (b ∷ c ∷ rest) (bit_set a bits)
unfolding fill_str
fill_step a b c rest bits h =
    ap
      (λ t. elim t [
        | true ↦ fill_str rest (fill_range a c bits)
        | false ↦ fill_str (b ∷ c ∷ rest) (bit_set a bits)
      ])
      {x = b == 45} {y = false} (ground (arith, h))

fill_one :
    (a : ℕ) (items : List Item) (bits : Bits)
    → All NoDash items
    → fill_str (a ∷ written items) bits ≡ fill_str (written items) (bit_set a bits)
unfolding fill_str
fill_one a [] bits h = refl
fill_one a (one b ∷ []) bits h = refl
fill_one a (one b ∷ one c ∷ items) bits (h, k) = fill_step a b c (written items) bits h
fill_one a (one b ∷ span c d ∷ items) bits (h, k) = fill_step a b c (45 ∷ d ∷ written items) bits h
fill_one a (span b c ∷ items) bits (h, k) = fill_step a b 45 (c ∷ written items) bits h

-- Filling a set from a specification whose items do not begin with a dash adds the characters that the
-- items cover, a range in either order, and no others.
pub fill_str-written :
    (items : List Item) (bits : Bits)
    → All NoDash items
    → (c : ℕ) → fill_str (written items) bits c ≡ (bits c || covered items c)
unfolding fill_str
fill_str-written [] bits h c = ground arith
fill_str-written (one a ∷ items) bits (h, k) c =
    ap (λ f. f c) (fill_one a items bits k)
    ∙ fill_str-written items (bit_set a bits) k c
    ∙ ground arith
fill_str-written (span a b ∷ items) bits (h, k) c =
    fill_str-written items (fill_range a b bits) k c
    ∙ ap (λ t. t || covered items c) (fill_range_lem a b bits c)
    ∙ ground arith
