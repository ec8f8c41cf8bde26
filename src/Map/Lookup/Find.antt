-- ===== src/Map/Lookup/Find.antt =====
-- ci_map.c: the lookup, with its first four slots written out, scans the slots of a probe in turn.
use Prim.Native.Nat.{max}
use blueberry.Prelude.{
  ℕ, zero, suc, ◌+◌, ◌-◌, ◌<◌, ◌≡◌, ◌≢◌, refl, ap, ◌∙◌, Option, none, some, ltb, ◌==◌, if_elim,
  arith, Bool-cases, Option-cases, inl, inr,
}
use blueberry.Map.{
  Map, byte_at, route, hash_ptr, start_at, extract_preindex, extract_maxpsl, key_at, after,
}
use blueberry.Map.Lookup.{probe_loop, find_from, find_kv}

-- the slot so many behind another
abbrev pub further : Map → ℕ → ℕ → ℕ
further m zero pos = pos
further m (suc n) pos = further m n (after m pos)

-- What is found within so many slots: nothing, and none of them holds the key, or the first that does.
abbrev pub Scanned : Map → ℕ → ℕ → ℕ → Option ℕ → Type 0
Scanned m key pos n none = (i : ℕ) → i < n → key_at m (further m i pos) ≢ key
Scanned m key pos n (some found) =
    (j : ℕ) × (j < n)
    × (found ≡ further m j pos)
    × (key_at m found ≡ key)
    × ((i : ℕ) → i < j → key_at m (further m i pos) ≢ key)

further_step :
    (m : Map) (key pos n : ℕ) (found : Option ℕ)
    → key_at m pos ≢ key
    → Scanned m key (after m pos) n found
    → Scanned m key pos (suc n) found
further_step m key pos n none ne h = λ i lt. here i lt
  where
    here : (i : ℕ) → i < suc n → key_at m (further m i pos) ≢ key
    here zero lt = ne
    here (suc i) lt = h i (omega arith)
further_step m key pos n (some found) ne (j, lt, at, e, first) = (suc j, omega arith, at, e, here)
  where
    here : (i : ℕ) → i < suc j → key_at m (further m i pos) ≢ key
    here zero lt' = ne
    here (suc i) lt' = first i (omega arith)

probe_loop-Scanned : (m : Map) (key n pos : ℕ) → Scanned m key pos n (probe_loop m key n pos)
unfolding probe_loop
probe_loop-Scanned m key zero pos = λ i lt. absurd (omega arith)
probe_loop-Scanned m key (suc n) pos =
    if_elim (Scanned m key pos (suc n)) (key_at m pos == key)
      (λ e. (0, omega arith, refl, ground (arith, e), λ i lt. absurd (omega arith)))
      (λ ne.
        further_step m key pos n (probe_loop m key n (after m pos)) (λ e. ground (arith, ne, e))
          (probe_loop-Scanned m key n (after m pos)))

probe_loop_add :
    (m : Map) (key n k pos : ℕ)
    → probe_loop m key (n + k) pos ≡ elim (probe_loop m key n pos) [
      | some found ↦ some found
      | none ↦ probe_loop m key k (further m n pos)
    ]
unfolding probe_loop
probe_loop_add m key zero k pos =
    ap (λ n. probe_loop m key n pos) {x = zero + k} {y = k} (omega arith)
probe_loop_add m key (suc n) k pos =
    ap (λ n. probe_loop m key n pos) {x = suc n + k} {y = suc (n + k)} (omega arith)
    ∙ elim (Bool-cases (key_at m pos == key)) [
      | inl e ↦ ground (arith, e)
      | inr e ↦ ground (arith, e, probe_loop_add m key n k (after m pos))
    ]

find_from-probe_loop :
    (m : Map) (key maxpsl pos : ℕ)
    → maxpsl ≢ 31
    → find_from m key maxpsl pos ≡ some (probe_loop m key (max 4 (maxpsl + 1)) pos)
unfolding find_from
find_from-probe_loop m key maxpsl pos short = elim (Bool-cases (ltb maxpsl 4)) [
  | inl e ↦
      let four : probe_loop m key (max 4 (maxpsl + 1)) pos ≡ probe_loop m key 4 pos =
        ap (λ n. probe_loop m key n pos) (ground (arith, e)) in
      elim (Option-cases (probe_loop m key 4 pos)) [
        | inl none_found ↦ ground (arith, e, none_found, four)
        | inr (found, some_found) ↦ ground (arith, e, some_found, four)
      ]
  | inr e ↦
      let all : probe_loop m key (max 4 (maxpsl + 1)) pos
          ≡ probe_loop m key (4 + (maxpsl - 3)) pos =
        ap (λ n. probe_loop m key n pos) (ground (arith, e)) in
      elim (Option-cases (probe_loop m key 4 pos)) [
        | inl none_found ↦
            ground (arith, e, short, none_found, all, probe_loop_add m key 4 (maxpsl - 3) pos)
        | inr (found, some_found) ↦
            ground (arith, e, short, some_found, all, probe_loop_add m key 4 (maxpsl - 3) pos)
      ]
]

-- The lookup of a key, where the preindex routes its hash and the longest probe of the route is not
-- saturated, gives the first slot with the key from its place on, within the longest probe but at least
-- four slots, or none where no such slot holds the key.
pub find_kv-Scanned :
    (m : Map) (key : ℕ)
    → extract_preindex (byte_at m (route m (hash_ptr key))) ≢ 0
    → extract_maxpsl (byte_at m (route m (hash_ptr key))) ≢ 31
    → (found : Option ℕ) × (find_kv m key ≡ some found)
      × Scanned m key
          (start_at m (hash_ptr key) (extract_preindex (byte_at m (route m (hash_ptr key)))))
          (max 4 (extract_maxpsl (byte_at m (route m (hash_ptr key))) + 1))
          found
unfolding find_kv
find_kv-Scanned m key routed short =
    let byte = byte_at m (route m (hash_ptr key)) in
    let pos = start_at m (hash_ptr key) (extract_preindex byte) in
    let most = max 4 (extract_maxpsl byte + 1) in
    (
      probe_loop m key most pos,
      ground (arith, routed, find_from-probe_loop m key (extract_maxpsl byte) pos short),
      probe_loop-Scanned m key most pos,
    )
