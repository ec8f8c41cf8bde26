-- ===== src/Array/Append.antt =====
-- ci_arr_append writes every element of the source to one and the same slot, the one at the old
-- length: the elements before it are kept, and of the source only the last element arrives.
use blueberry.Prelude.{
  ℕ, zero, suc, ◌+◌, ◌-◌, ◌*◌, ◌^◌, ◌≤◌, ◌<◌, ◌≡◌, ◌≢◌, refl, sym, ap, ap₂, ◌∙◌, Bool, true, false,
  not, List, [], ◌∷◌, ◌==◌, if◌then◌else◌, length, get_or, set, length-set, none, arith, if_elim,
  ℕ_discrete,
}
use blueberry.Prelude.Words.{add32}
use blueberry.Prelude.Tabulate.{tabulate, tabulate_ext, get_or-tabulate}
use blueberry.Array.{Memory, Array, idx, at, other, append_loop, append}
use blueberry.Array.Valid.{IsValid, contents, at-set_self, at-set_ne}
use blueberry.Array.Space.{Keeps, ensure_space_lem}

-- what the loop leaves when it has copied the elements `i` to `i + n - 1` of `src`
record WroteLast (b src : Array) (i n : ℕ) (r : Array × List ℕ) : Type 0 where
  size_same : r.0.size ≡ b.size
  len_same : r.0.len ≡ b.len
  offset_same : r.0.offset ≡ b.offset
  backed : length r.0.cells ≡ length b.cells
  kept : (j : ℕ) → j < b.size → j ≢ b.len → at r.0 j ≡ at b j
  last : 0 < n → at r.0 b.len ≡ at src (i + n - 1)
  listed : r.1 ≡ tabulate n (λ j. at src (i + j))

append_loop-WroteLast :
    (b src : Array) (i n : ℕ)
    → IsValid b
    → b.len < b.size
    → WroteLast b src i n (append_loop b (other src) i n)
unfolding append_loop
append_loop-WroteLast b src i zero v h = record {
  size_same = refl;
  len_same = refl;
  offset_same = refl;
  backed = refl;
  kept = λ j p q. refl;
  last = λ p. absurd (omega arith);
  listed = refl;
}
append_loop-WroteLast b src i (suc n) v h =
    let el = at src i in
    let b' = record b { cells = set b.cells (idx b b.len) el } in
    let w : IsValid b' = record {
      nonempty = v.nonempty;
      bounded = v.bounded;
      start = v.start;
      fits = v.fits;
      backed = length-set b.cells (idx b b.len) el ∙ v.backed;
    } in
    let ih = append_loop-WroteLast b' src (i + 1) n w h in
    record {
      size_same = ih.size_same;
      len_same = ih.len_same;
      offset_same = ih.offset_same;
      backed = ih.backed ∙ length-set b.cells (idx b b.len) el;
      kept = λ j p q. ih.kept j p q ∙ at-set_ne v b.len j el h p (λ e. q (sym e));
      last = λ p. elim (ℕ_discrete n 0) [
        | yes e ↦
            ap (λ k. at (append_loop b' (other src) (i + 1) k).0 b.len) e
            ∙ at-set_self v b.len el h
            ∙ ap (at src) (omega arith)
        | no ne ↦ ih.last (omega arith) ∙ ap (at src) (omega arith)
      ];
      listed = ap₂ ◌∷◌ (ap (at src) (omega arith)) (
          ih.listed
          ∙ tabulate_ext n (λ j. at src (i + 1 + j)) (λ j. at src (i + suc j))
              λ j p. ap (at src) (omega arith));
    }

-- What is left of the two arrays when ci_arr_append has returned.
pub record Appended (m : Memory) (dst src : Array) (r : Bool × Array × List ℕ) : Type 0 where
  pub valid : IsValid r.1
  pub before : (i : ℕ) → i < dst.len → at r.1 i ≡ at dst i
  pub len_after : r.0 ≡ true → r.1.len ≡ dst.len + src.len
  pub counted : r.0 ≡ true → r.2 ≡ contents src
  pub written : r.0 ≡ true → at r.1 dst.len ≡ at src (src.len - 1)
  pub failed : r.0 ≡ false → (r.2 ≡ []) × ((k : ℕ) × (m.cells k ≡ none))

-- a kept element, seen through the list of all
kept_at :
    (dst b : Array)
    → contents b ≡ contents dst
    → b.len ≡ dst.len
    → (i : ℕ) → i < dst.len
    → at b i ≡ at dst i
kept_at dst b same len i h =
    sym (get_or-tabulate b.len (at b) i 0 (omega (arith, len)))
    ∙ ap (λ xs. get_or xs i 0) same
    ∙ get_or-tabulate dst.len (at dst) i 0 h

module _ (m : Memory) (dst src : Array) (v : IsValid dst) (some_left : 0 < src.len) where
  appended :
      (done : Bool) (b : Array)
      → dst.len + src.len < 2 ^ 31
      → Keeps m dst (dst.len + src.len) (done, b)
      → Appended m dst src (
          if not done then (false, b, []) else (
            true,
            record ((append_loop b (other src) 0 src.len).0) {
              len = add32 (append_loop b (other src) 0 src.len).0.len src.len;
            },
            (append_loop b (other src) 0 src.len).1,
          ))
  appended false b sum k = record {
    valid = k.valid;
    before = kept_at dst b k.same k.len_kept;
    len_after = λ e. cc;
    counted = λ e. cc;
    written = λ e. cc;
    failed = λ e. (refl, k.failed e);
  }
  appended true b sum k =
      let room : dst.len + src.len ≤ b.size = k.enough refl in
      let len = k.len_kept in
      let w = append_loop-WroteLast b src 0 src.len k.valid (omega (arith, len)) in
      record {
        valid = record {
          nonempty = omega (arith, w.size_same, k.valid.nonempty);
          bounded = omega (arith, w.size_same, k.valid.bounded);
          start = omega (arith, w.size_same, w.offset_same, k.valid.start);
          fits = omega (arith, w.size_same, w.len_same, len);
          backed = omega (arith, w.size_same, w.backed, k.valid.backed);
        };
        before = λ i h.
            w.kept i (omega arith) (omega (arith, len)) ∙ kept_at dst b k.same k.len_kept i h;
        len_after = λ e. omega (arith, w.len_same, len);
        counted = λ e.
            w.listed
            ∙ tabulate_ext src.len (λ j. at src (0 + j)) (at src) λ j p. ap (at src) (omega arith);
        written = λ e.
            ap (at (append_loop b (other src) 0 src.len).0) (sym len)
            ∙ w.last some_left
            ∙ ap (at src) (omega arith);
        failed = λ e. cc;
      }

  -- ci_arr_append keeps the old elements, counts every element of the source, and writes the last
  -- one of the source to the slot after the old elements.
  pub append_lem :
      dst.len + src.len < 2 ^ 31
      → dst.size * 2 < 2 ^ 31
      → Appended m dst src (append m dst (other src))
  unfolding append
  append_lem sum double =
      if_elim (Appended m dst src) (src.len == 0) (λ e. absurd (ground arith))
        λ e. appended _ _ sum (ensure_space_lem m v src.len sum double)
