-- ===== src/Map/Lookup.antt =====
-- ci_map.c: the lookup of a key by its pointer.
pub mod Find
use Prim.Native.Nat.{min, max}
use blueberry.Prelude.{
  ℕ, zero, suc, ◌+◌, ◌-◌, ◌*◌, ◌/◌, ◌%◌, ◌^◌, Bool, true, false, ◌||◌, Option, none, some, List, [],
  ◌∷◌, ltb, leb, ◌==◌, if◌then◌else◌, length, get_or, set, replicate,
}
use blueberry.Map.{
  Kv, Map, no_kv, buckets, extract_preindex, extract_maxpsl, hash_ptr, route, key_at, byte_at,
  after, start_at, put_kv,
}

-- the slot of a key, within so many slots
unfoldable pub probe_loop : Map → ℕ → ℕ → ℕ → Option ℕ
probe_loop m key zero pos = none
probe_loop m key (suc probes) pos =
    let rest = probe_loop m key probes (after m pos) in
    if key_at m pos == key then some pos else rest

-- up to an empty slot; none when the rounds are over
unfoldable pub until_null : Map → ℕ → ℕ → ℕ → Option (Option ℕ)
until_null m key zero pos = none
until_null m key (suc rounds) pos =
    let rest = until_null m key rounds (after m pos) in
    if key_at m pos == key then some (some pos) else if key_at m pos == 0 then some none else rest

-- ci_map_find_kv from the first slot on, its inner result the slot or none for NULL
unfoldable pub find_from : Map → ℕ → ℕ → ℕ → Option (Option ℕ)
find_from m key maxpsl pos =
    let behind = after m (after m (after m (after m pos))) in
    elim (probe_loop m key 4 pos) [
      | some found ↦ some (some found)
      | none ↦
          if ltb maxpsl 4
          then some none
          else if maxpsl == 31
          then until_null m key (buckets m) behind
          else some (probe_loop m key (maxpsl - 3) behind)
    ]

unfoldable pub find_kv : Map → ℕ → Option (Option ℕ)
find_kv m key =
    let h = hash_ptr key in
    let byte = byte_at m (route m h) in
    let found = find_from m key (extract_maxpsl byte) (start_at m h (extract_preindex byte)) in
    if extract_preindex byte == 0 then some none else found

-- the value, 0 for NULL
unfoldable pub get : Map → ℕ → Option ℕ
get m key = elim (find_kv m key) [
  | none ↦ none
  | some none ↦ some 0
  | some (some pos) ↦ some (get_or m.kvs pos no_kv).val
]
