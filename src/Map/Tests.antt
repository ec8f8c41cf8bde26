-- ===== src/Map/Tests.antt =====
-- Concrete maps.
use blueberry.Prelude.{ℕ, ◌≡◌, refl, Bool, true, Option, none, some, [], ◌∷◌, ◌==◌, if◌then◌else◌}
use blueberry.Map.{
  Map, no_kv, empty_map, hash_ptr, set_key, grow_insert, insert_noresize, first_loop, robin_loop,
  slot_psl, home_pos, choose_preindex, choose_loop,
}
use blueberry.Map.Lookup.{get, find_kv, find_from, probe_loop, until_null}
use blueberry.Map.Change.{delete, delete_kv, shift_loop}
use blueberry.Map.Lookup.Find.{Scanned, find_kv-Scanned}

abbrev hashcmp : ℕ → ℕ → ℕ
hashcmp a b = if b == 0 then hash_ptr a else if a == b then 1 else 0

abbrev then_do : Option (Bool × Map) → (Map → Option (Bool × Map)) → Option (Bool × Map)
then_do none f = none
then_do (some (b, m)) f = f m

abbrev has_memory : ℕ → Bool
has_memory n = true

-- Three keys, of which the first and the third have one place; the first is deleted, and the third is
-- set and deleted.
abbrev history : Option (Bool × Map)
history = then_do (set_key hashcmp has_memory (empty_map 8) 256 1) (λ m.
    then_do (set_key hashcmp has_memory m 288 2) (λ m.
      then_do (set_key hashcmp has_memory m 512 3) (λ m.
        then_do (delete hashcmp has_memory m 256) (λ m.
          then_do (set_key hashcmp has_memory m 512 4) (λ m. delete hashcmp has_memory m 512)))))

-- The third key is still there.
deleted_key_remains : elim history [ none ↦ none | some (b, m) ↦ get m 512 ] ≡ some 3
unfolding set_key delete get find_kv grow_insert insert_noresize first_loop robin_loop slot_psl
    home_pos choose_preindex choose_loop delete_kv shift_loop find_from probe_loop until_null
deleted_key_remains = refl

-- two keys in the slots 5 and 6
abbrev two : Map
two = record {
  used_limit = 4;
  divmask = 7;
  kvs =
      no_kv
      ∷ no_kv
      ∷ no_kv
      ∷ no_kv
      ∷ no_kv
      ∷ record { key = 288; val = 2 }
      ∷ record { key = 512; val = 3 }
      ∷ no_kv
      ∷ [];
  preindex = 17 ∷ 0 ∷ 0 ∷ 0 ∷ 0 ∷ 0 ∷ 0 ∷ 0 ∷ [];
}

find_kv-Scanned_example :
    (found : Option ℕ) × (find_kv two 512 ≡ some found) × Scanned two 512 4 4 found
find_kv-Scanned_example = find_kv-Scanned two 512 (λ e. cc) (λ e. cc)
