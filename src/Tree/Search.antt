-- ===== src/Tree/Search.antt =====
-- ci_tree.c: the binary searches for a key among the items of a node, the plain one and the one that
-- begins at a hint. `hint` is the eight bytes of `t->hint`.
pub mod Places
pub mod Located
use Prim.Native.Nat.{Ordering}
use blueberry.Prelude.{
  ℕ, zero, suc, ◌+◌, ◌-◌, ◌/◌, ◌%◌, ◌^◌, Bool, true, false, ◌&&◌, List, ltb, if◌then◌else◌, length,
  get_or, set,
}
use blueberry.Tree.Order.{Kv}

abbrev pub no_kv : Kv
no_kv = record { key = 0; val = 0 }

abbrev pub key_at : List Kv → ℕ → ℕ
key_at items i = (get_or items i no_kv).key

-- the index that the hint names, within the items
abbrev pub hinted : List ℕ → List Kv → ℕ → ℕ
hinted hint items depth =
    let idx = get_or hint depth 0 in if ltb (length items - 1) idx then length items - 1 else idx

module _ (cmp : ℕ → ℕ → Ordering) where
  -- the `while (lo < hi)` of ci_tree_bsearch
  pub bsearch_loop : List Kv → ℕ → ℕ → ℕ → ℕ → Bool × ℕ
  bsearch_loop items key zero lo hi = (false, lo)
  bsearch_loop items key (suc fuel) lo hi =
      let mid = (lo + hi) / 2 in
      let lower = bsearch_loop items key fuel lo mid in
      let upper = bsearch_loop items key fuel (mid + 1) hi in
      let round : Bool × ℕ = elim (cmp key (key_at items mid)) [
        | Ordering.eq ↦ (true, mid)
        | Ordering.lt ↦ lower
        | Ordering.gt ↦ upper
      ] in
      if ltb lo hi then round else (false, lo)

  -- found, and the index
  pub bsearch : List Kv → ℕ → Bool × ℕ
  bsearch items key = bsearch_loop items key (length items + 1) 0 (length items)

  -- The `while (lo <= hi)` of ci_tree_bsearch_hint. `hi`, which can be -1, is kept plus one.
  unfoldable pub hint_loop : List Kv → ℕ → ℕ → ℕ → ℕ → Bool × ℕ
  hint_loop items key zero lo hi = (false, lo)
  hint_loop items key (suc fuel) lo hi =
      let mid = (lo + (hi - 1)) / 2 in
      let lower = hint_loop items key fuel lo mid in
      let upper = hint_loop items key fuel (mid + 1) hi in
      let round : Bool × ℕ = elim (cmp key (key_at items mid)) [
        | Ordering.eq ↦ (true, mid)
        | Ordering.lt ↦ lower
        | Ordering.gt ↦ upper
      ] in
      if ltb lo hi then round else (false, lo)

  -- the loop and what is noted at its end
  unfoldable pub noted : List ℕ → List Kv → ℕ → ℕ → ℕ → ℕ → (Bool × ℕ) × List ℕ
  noted hint items key depth lo hi =
      let r = hint_loop items key (length items + 1) lo hi in
      (r, if ltb depth 8 then set hint depth (r.1 % 2 ^ 8) else hint)

  -- Found and the index, and the hint.
  unfoldable pub bsearch_hint : List ℕ → List Kv → ℕ → ℕ → (Bool × ℕ) × List ℕ
  bsearch_hint hint items key depth =
      let idx = hinted hint items depth in
      let probe : (Bool × ℕ) × List ℕ = elim (cmp key (key_at items idx)) [
        | Ordering.eq ↦ ((true, idx), hint)
        | Ordering.gt ↦ noted hint items key depth (idx + 1) (length items)
        | Ordering.lt ↦ noted hint items key depth 0 idx
      ] in
      if ltb depth 8 && ltb 0 idx then probe else noted hint items key depth 0 (length items)
