-- ===== src/Map/Change.antt =====
-- ci_map.c: the lookup by what keys hash to and compare as, the insertion on top of it, and deletion.
-- A map always has an empty slot, where the backward shift ends.
use blueberry.Prelude.{
  ℕ, zero, suc, ◌+◌, Bool, true, false, ◌||◌, Option, none, some, ◌==◌, if◌then◌else◌, get_or,
}
use blueberry.Map.{
  Map, no_kv, buckets, extract_preindex, extract_maxpsl, route, key_at, byte_at, after, start_at,
  put_kv, hash_key, slot_psl, grow_insert,
}
use blueberry.Map.Lookup.{find_kv}

module _ (hashcmp : ℕ → ℕ → ℕ) (has_memory : ℕ → Bool) where
  -- the loop of ci_map_find_kv_hash
  pub hash_loop : Map → ℕ → ℕ → ℕ → Option ℕ
  hash_loop m key zero pos = none
  hash_loop m key (suc probes) pos =
      let rest = hash_loop m key probes (after m pos) in
      if key_at m pos == 0 then none else if hashcmp key (key_at m pos) == 0 then rest else some pos

  pub find_kv_hash : Map → ℕ → ℕ → Option ℕ
  find_kv_hash m key h =
      let byte = byte_at m (route m h) in
      let probes = if extract_maxpsl byte == 31 then 255 else extract_maxpsl byte in
      let found = hash_loop m key (probes + 1) (start_at m h (extract_preindex byte)) in
      if extract_preindex byte == 0 then none else found

  pub find : Map → ℕ → ℕ
  find m key = elim (find_kv_hash m key (hash_key hashcmp has_memory key)) [
    | none ↦ 0
    | some pos ↦ (get_or m.kvs pos no_kv).val
  ]

  pub put : Map → ℕ → ℕ → Option (Bool × Map)
  put m key val = elim (find_kv_hash m key (hash_key hashcmp has_memory key)) [
    | some pos ↦ some (true, put_kv pos (key_at m pos) val m)
    | none ↦ grow_insert hashcmp has_memory key val (hash_key hashcmp has_memory key) m
  ]

  -- the backward shift, up to an empty slot or a key at its place
  unfoldable pub shift_loop : ℕ → ℕ → Map → Map
  shift_loop zero pos m = put_kv pos 0 0 m
  shift_loop (suc rounds) pos m =
      let next = after m pos in
      elim (key_at m next == 0 || slot_psl hashcmp has_memory (key_at m next) next m == 0) [
        | true ↦ put_kv pos 0 0 m
        | false ↦
            shift_loop rounds next (put_kv pos (key_at m next) (get_or m.kvs next no_kv).val m)
      ]

  unfoldable pub delete_kv : Map → ℕ → Map
  delete_kv m pos =
      let shifted = shift_loop (buckets m) pos m in record shifted { used_limit = m.used_limit + 1 }

  unfoldable pub delete : Map → ℕ → Option (Bool × Map)
  delete m key = elim (find_kv m key) [
    | none ↦ none
    | some none ↦ some (false, m)
    | some (some pos) ↦ some (true, delete_kv m pos)
  ]

  pub remove : Map → ℕ → Bool × Map
  remove m key = elim (find_kv_hash m key (hash_key hashcmp has_memory key)) [
    | none ↦ (false, m)
    | some pos ↦ (true, delete_kv m pos)
  ]
