-- ===== src/Map.antt =====
-- ci_map.c: the hash map, with open addressing. A pointer is a number, NULL is 0, and the buffer is its
-- two arrays. The number of buckets is a power of two, so `& divmask` is the remainder by it. What a
-- key hashes to and when two are equal is the parameter `hashcmp`, and whether calloc has memory for
-- so many buckets is `has_memory`. The reference counts and the prototype are left out.
pub mod Lookup
pub mod Change
pub mod Tests
use Prim.Native.Nat.{min, max}
use blueberry.Prelude.{
  ℕ, zero, suc, ◌+◌, ◌-◌, ◌*◌, ◌/◌, ◌%◌, ◌^◌, Bool, true, false, ◌||◌, Option, none, some, List, [],
  ◌∷◌, ltb, leb, ◌==◌, if◌then◌else◌, length, get_or, set, replicate,
}

pub record Kv : Type 0 where
  pub key : ℕ
  pub val : ℕ

pub record Map : Type 0 where
  pub used_limit : ℕ
  pub divmask : ℕ
  pub kvs : List Kv
  pub preindex : List ℕ

abbrev pub no_kv : Kv
no_kv = record { key = 0; val = 0 }

abbrev pub buckets : Map → ℕ
buckets m = m.divmask + 1

-- the mask of the preindex, and one: both masks are less by one than a power of two
abbrev pub routes : Map → ℕ
routes m = min (m.divmask + 1) (2 ^ 16)

abbrev pub extract_preindex : ℕ → ℕ
extract_preindex byte = byte % 8

abbrev pub extract_maxpsl : ℕ → ℕ
extract_maxpsl byte = byte / 8

abbrev pub hash_ptr : ℕ → ℕ
hash_ptr key = key / 32 % 2 ^ 32

-- the entry of the preindex for a hash: its top bits
abbrev pub route : Map → ℕ → ℕ
route m h = h / (2 ^ 32 / routes m) % routes m

abbrev pub key_at : Map → ℕ → ℕ
key_at m pos = (get_or m.kvs pos no_kv).key

abbrev pub byte_at : Map → ℕ → ℕ
byte_at m p_idx = get_or m.preindex p_idx 0

abbrev pub after : Map → ℕ → ℕ
after m pos = (pos + 1) % buckets m

abbrev pub start_at : Map → ℕ → ℕ → ℕ
start_at m h p_val = (h % buckets m + p_val * 4) % buckets m

pub home_pos : ℕ → Map → ℕ
home_pos h m = start_at m h (extract_preindex (byte_at m (route m h)))

-- the empty slots of the four at `start`
abbrev pub empty_slots : Map → ℕ → ℕ → ℕ
empty_slots m start zero = 0
empty_slots m start (suc j) =
    let fewer = empty_slots m start j in
    if key_at m ((start + j) % buckets m) == 0 then fewer + 1 else fewer

-- the windows from `p_val` on
pub choose_loop : Map → ℕ → ℕ → ℕ → ℕ → ℕ → ℕ
choose_loop m idx zero p_val best_empty best_pval = best_pval
choose_loop m idx (suc windows) p_val best_empty best_pval =
    let empty = empty_slots m ((idx + p_val * 4) % buckets m) 4 in
    let best = if ltb best_empty empty then empty else best_empty in
    let next =
      choose_loop m idx windows (p_val + 1) best
        (if ltb best_empty empty then p_val else best_pval) in
    if ltb 2 empty then p_val else next

pub choose_preindex : Map → ℕ → ℕ
choose_preindex m idx = choose_loop m idx 7 1 0 1

-- the longest probe of a route
abbrev pub note_psl : ℕ → ℕ → Map → Map
note_psl p_idx psl m =
    let byte = byte_at m p_idx in
    if ltb (extract_maxpsl byte) psl
    then record m { preindex = set m.preindex p_idx (byte % 8 + min psl 31 * 8) }
    else m

abbrev pub put_kv : ℕ → ℕ → ℕ → Map → Map
put_kv pos key val m = record m { kvs = set m.kvs pos (record { key = key; val = val }) }

abbrev pub insert_to : ℕ → ℕ → ℕ → ℕ → ℕ → Map → Map
insert_to p_idx psl pos key val m =
    let noted = note_psl p_idx psl m in
    put_kv pos key val (record noted { used_limit = noted.used_limit - 1 })

-- a buffer of zeros, for a power of two; 0.8 of it is no whole number, and rounded down
abbrev pub empty_map : ℕ → Map
empty_map n = record {
  used_limit = n * 4 / 5;
  divmask = n - 1;
  kvs = replicate n no_kv;
  preindex = replicate n 0;
}

-- the least power of two from `power` on that is not below the number
pub round_up : ℕ → ℕ → ℕ → ℕ
round_up zero power n = power
round_up (suc rounds) power n =
    let rest = round_up rounds (power * 2) n in if leb n power then power else rest

abbrev pub round_up2 : ℕ → ℕ
round_up2 n = round_up 32 1 n

abbrev pub clear : Map → Map
clear m = empty_map (buckets m)

module _ (hashcmp : ℕ → ℕ → ℕ) (has_memory : ℕ → Bool) where
  abbrev pub hash_key : ℕ → ℕ
  hash_key key = hashcmp key 0

  pub slot_psl : ℕ → ℕ → Map → ℕ
  slot_psl key pos m = (pos + buckets m - home_pos (hash_key key) m) % buckets m

  -- the `while` of the insertion; none when no slot is free
  pub robin_loop : ℕ → ℕ → ℕ → ℕ → ℕ → ℕ → Map → Option Map
  robin_loop zero p_idx psl pos key val m = none
  robin_loop (suc rounds) p_idx psl pos key val m =
      let found = key_at m pos in
      let cur_psl = slot_psl found pos m in
      elim (found == 0) [
        | true ↦ some (insert_to p_idx psl pos key val m)
        | false ↦ elim (found == key) [
          | true ↦ some (put_kv pos key val m)
          | false ↦ elim (ltb cur_psl psl) [
            | true ↦
                robin_loop rounds (route m (hash_key found)) (cur_psl + 1) (after m pos) found
                  (get_or m.kvs pos no_kv).val (note_psl p_idx psl (put_kv pos key val m))
            | false ↦ robin_loop rounds p_idx (psl + 1) (after m pos) key val m
          ]
        ]
      ]

  -- the first slots, so many, in which no key is displaced
  pub first_loop : ℕ → ℕ → ℕ → ℕ → ℕ → ℕ → Map → Option Map
  first_loop zero p_idx psl pos key val m = robin_loop (buckets m) p_idx psl pos key val m
  first_loop (suc slots) p_idx psl pos key val m =
      let found = key_at m pos in
      elim (found == 0) [
        | true ↦ some (insert_to p_idx psl pos key val m)
        | false ↦ elim (found == key) [
          | true ↦ some (put_kv pos key val m)
          | false ↦ first_loop slots p_idx (psl + 1) (after m pos) key val m
        ]
      ]

  pub insert_noresize : ℕ → ℕ → ℕ → Map → Option Map
  insert_noresize key val h m =
      let p_idx = route m h in
      let byte = byte_at m p_idx in
      let chosen = choose_preindex m (h % buckets m) in
      let p_val = if extract_preindex byte == 0 then chosen else extract_preindex byte in
      let routed =
        if extract_preindex byte == 0
        then record m { preindex = set m.preindex p_idx (byte / 8 * 8 + chosen) }
        else m in
      first_loop 4 p_idx 0 (start_at m h p_val) key val routed

  pub insert_all : List Kv → Map → Option Map
  insert_all [] m = some m
  insert_all (kv ∷ kvs) m = elim (kv.key == 0) [
    | true ↦ insert_all kvs m
    | false ↦ elim (insert_noresize kv.key kv.val (hash_key kv.key) m) [
      | none ↦ none
      | some n ↦ insert_all kvs n
    ]
  ]

  -- whether there was memory, and the map
  pub resize : Map → ℕ → Option (Bool × Map)
  resize m newbuckets =
      let n = round_up2 (max newbuckets 8) in
      if has_memory n
      then elim (insert_all m.kvs (empty_map n)) [ none ↦ none | some o ↦ some (true, o) ]
      else some (false, m)

  abbrev pub inserted : ℕ → ℕ → ℕ → Map → Option (Bool × Map)
  inserted key val h m = elim (insert_noresize key val h m) [
    | none ↦ none
    | some n ↦ some (true, n)
  ]

  -- ci_map_set, and ci_map_put for a key that is not there: grow when no slot is left
  pub grow_insert : ℕ → ℕ → ℕ → Map → Option (Bool × Map)
  grow_insert key val h m = elim (m.used_limit == 0) [
    | true ↦ elim (resize m (buckets m * 2)) [
      | none ↦ none
      | some (true, n) ↦ inserted key val h n
      | some (false, n) ↦ some (false, n)
    ]
    | false ↦ inserted key val h m
  ]

  pub set_key : Map → ℕ → ℕ → Option (Bool × Map)
  set_key m key val = grow_insert key val (hash_ptr key) m

-- ci_map_next, with so many slots left: the slot, and the cursor behind it
pub next_loop : Map → ℕ → ℕ → Option (ℕ × ℕ)
next_loop m zero pos = none
next_loop m (suc slots) pos =
    let rest = next_loop m slots (pos + 1) in
    if key_at m pos == 0 then rest else some (pos, pos + 1)

pub next_kv : Map → ℕ → Option (ℕ × ℕ)
next_kv m cursor = next_loop m (buckets m - cursor) cursor
