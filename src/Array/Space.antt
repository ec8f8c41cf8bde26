-- ===== src/Array/Space.antt =====
-- Reallocation: copying out of the circle, growing, and what both leave alone.
use blueberry.Prelude.{
  ℕ, ◌+◌, ◌-◌, ◌*◌, ◌%◌, ◌^◌, ◌≤◌, ◌<◌, ◌≡◌, refl, ap, ◌∙◌, inl, inr, Bool, true, false, not, List,
  none, ltb, leb, if◌then◌else◌, length, get_or, take, drop, length-take, length-drop, get_or-take,
  get_or-drop, arith, dec_lt, Option-cases, replicate,
}
use blueberry.Prelude.Tabulate.{tabulate, tabulate_ext}
use blueberry.Prelude.Blit.{blit, length-blit, get_or-blit_before, get_or-blit_inside}
use blueberry.Array.{
  Memory, Array, at, seg1_length, seg2_length, rmoffset, linearize, upgrade, upgrade_cap, move_out,
  grow, ensure_space,
}
use blueberry.Array.Valid.{IsValid, contents, idx_lem}

-- A copy of `n` cells, from the place `from` of `src` to the place `to` of `dst`.
module _ (dst src : List ℕ) (to from n : ℕ) where
  pub length-segment : from + n ≤ length src → length (take n (drop from src)) ≡ n
  length-segment there = omega (arith, length-take n (drop from src), length-drop from src)

  pub segment_inside :
      (i : ℕ)
      → to + n ≤ length dst
      → from + n ≤ length src
      → i < n
      → get_or (blit dst to (take n (drop from src))) (to + i) 0 ≡ get_or src (from + i) 0
  segment_inside i room there h =
      get_or-blit_inside dst to (take n (drop from src)) i 0 (omega (arith, length-segment there))
        (omega (arith, length-segment there))
      ∙ get_or-take n (drop from src) i 0 h
      ∙ get_or-drop from src i 0

pub length-rmoffset : (a : Array) (dst : List ℕ) → length (rmoffset a dst) ≡ length dst
unfolding rmoffset
length-rmoffset a dst = ground (
  arith,
  length-blit dst 0 (take a.len (drop a.offset a.cells)),
  length-blit dst 0 (take (seg1_length a) (drop a.offset a.cells)),
  length-blit (blit dst 0 (take (seg1_length a) (drop a.offset a.cells))) (seg1_length a)
      (take (seg2_length a) a.cells),
)

module _ (a : Array) (dst : List ℕ) (v : IsValid a) (room : a.len ≤ length dst) where
  -- the first segment lies in `[0, seg1)` and the second in `[seg1, len)`
  wrapped_at :
      (i : ℕ)
      → a.size < a.offset + a.len
      → i < a.len
      → get_or
          (blit
            (blit dst 0 (take (a.size - a.offset) (drop a.offset a.cells)))
            (a.size - a.offset)
            (take (a.len - (a.size - a.offset)) (drop 0 a.cells)))
          i
          0
        ≡ at a i
  wrapped_at i wrapped h =
      let seg1 = a.size - a.offset in
      let once = blit dst 0 (take seg1 (drop a.offset a.cells)) in
      elim (dec_lt i seg1) [
        | yes p ↦
            get_or-blit_before once seg1 (take (a.len - seg1) (drop 0 a.cells)) i 0 p
            ∙ ap (λ k. get_or once k 0) (omega arith)
            ∙ segment_inside dst a.cells 0 a.offset seg1 i (omega (arith, v.start, v.fits))
                (omega (arith, v.backed, v.start)) p
            ∙ ap (λ k. get_or a.cells k 0) (ground (arith, idx_lem v i (omega (arith, v.fits))))
        | no p ↦
            ap (λ k. get_or (blit once seg1 (take (a.len - seg1) (drop 0 a.cells))) k 0)
              (omega arith)
            ∙ segment_inside once a.cells seg1 0 (a.len - seg1) (i - seg1)
                (omega (arith, length-blit dst 0 (take seg1 (drop a.offset a.cells)), v.start))
                (omega (arith, v.backed, v.fits, v.start)) (omega arith)
            ∙ ap (λ k. get_or a.cells k 0)
                (ground (arith, idx_lem v i (omega (arith, v.fits)), v.start, v.fits))
      ]

  unwrapped_at :
      (i : ℕ)
      → a.offset + a.len ≤ a.size
      → i < a.len
      → get_or (blit dst 0 (take a.len (drop a.offset a.cells))) i 0 ≡ at a i
  unwrapped_at i flat h =
      ap (λ k. get_or (blit dst 0 (take a.len (drop a.offset a.cells))) k 0) (omega arith)
      ∙ segment_inside dst a.cells 0 a.offset a.len i (omega (arith, room))
          (omega (arith, v.backed)) h
      ∙ ap (λ k. get_or a.cells k 0) (ground (arith, idx_lem v i (omega (arith, v.fits))))

  -- Element `i` of the array is cell `i` of the copy.
  pub rmoffset-at : (i : ℕ) → i < a.len → get_or (rmoffset a dst) i 0 ≡ at a i
  unfolding rmoffset
  rmoffset-at i h =
      let seg1 : seg1_length a ≡ a.size - a.offset = omega (arith, v.start, v.bounded) in
      let seg2 : a.size < a.offset + a.len → seg2_length a ≡ a.len - (a.size - a.offset) =
        λ w. omega (arith, v.start, v.bounded, v.fits) in
      let sum : (a.offset + a.len) % 2 ^ 32 ≡ a.offset + a.len =
        omega (arith, v.start, v.bounded, v.fits) in
      ground (arith, unwrapped_at i, wrapped_at i)

-- What a function that may move the buffer does with `a`: the array stays valid and keeps its
-- elements whether it succeeds or not; if it succeeds there is room for `need` elements, and it
-- fails only if malloc does.
pub record Keeps (m : Memory) (a : Array) (need : ℕ) (r : Bool × Array) : Type 0 where
  pub valid : IsValid r.1
  pub same : contents r.1 ≡ contents a
  pub len_kept : r.1.len ≡ a.len
  pub enough : r.0 ≡ true → need ≤ r.1.size
  pub failed : r.0 ≡ false → (k : ℕ) × (m.cells k ≡ none)

-- An array at offset 0 whose cells begin with the elements of `a`.
module _ (a b : Array) (len_same : b.len ≡ a.len) (at_zero : b.offset ≡ 0)
    (copied : (i : ℕ) → i < a.len → get_or b.cells i 0 ≡ at a i) where
  flat-contents : IsValid b → contents b ≡ contents a
  flat-contents v =
      ap (λ k. tabulate k (at b)) len_same
      ∙ tabulate_ext a.len (at b) (at a) λ i h.
        ap (λ k. get_or b.cells k 0) (ground (arith, idx_lem v i (omega (arith, v.fits))))
        ∙ copied i h

module _ (m : Memory) where
  -- No malloc is asked for: `a` itself is the answer.
  pub Keeps-self : {a : Array} {need : ℕ} → IsValid a → need ≤ a.size → Keeps m a need (true, a)
  Keeps-self v h = record {
    valid = v;
    same = refl;
    len_kept = refl;
    enough = λ _. h;
    failed = λ e. cc;
  }

  Keeps-failed : {a : Array} {need k : ℕ} → IsValid a → m.cells k ≡ none → Keeps m a need (false, a)
  Keeps-failed {k} v e = record {
    valid = v;
    same = refl;
    len_kept = refl;
    enough = λ e. cc;
    failed = λ _. (k, e);
  }

  Keeps-trans :
      {a b : Array} {done : Bool} {need need' : ℕ} {r : Bool × Array}
      → Keeps m a need' (done, b)
      → Keeps m b need r
      → Keeps m a need r
  Keeps-trans k l = record {
    valid = l.valid;
    same = l.same ∙ k.same;
    len_kept = l.len_kept ∙ k.len_kept;
    enough = l.enough;
    failed = l.failed;
  }

  Keeps-if :
      {a : Array} {need : ℕ} {x y : Bool × Array} (b : Bool)
      → (b ≡ true → Keeps m a need x)
      → (b ≡ false → Keeps m a need y)
      → Keeps m a need (if b then x else y)
  Keeps-if true k l = k refl
  Keeps-if false k l = l refl

  -- what both ways to move the elements come to
  Keeps-moved :
      {a b : Array} (v : IsValid a) (n : ℕ)
      → a.len ≤ n
      → 0 < n
      → n < 2 ^ 31
      → b.len ≡ a.len
      → b.size ≡ n
      → b.offset ≡ 0
      → length b.cells ≡ n
      → ((i : ℕ) → i < a.len → get_or b.cells i 0 ≡ at a i)
      → Keeps m a n (true, b)
  Keeps-moved {a} {b} v n fits nonempty bounded el es eo ec copied =
      let w : IsValid b = omega arith in
      record {
        valid = w;
        same = flat-contents a b el eo copied w;
        len_kept = el;
        enough = λ _. omega arith;
        failed = λ e. cc;
      }

  module _ {a : Array} (v : IsValid a) where
    pub linearize_lem : (n : ℕ) → a.len ≤ n → 0 < n → n < 2 ^ 31 → Keeps m a n (linearize m a n)
    unfolding linearize
    linearize_lem n fits nonempty bounded = elim (Option-cases (m.cells n)) [
      | inl e ↦ rw (e, linearize) (Keeps-failed v e)
      | inr (mem, e) ↦
          let size = m.length-cells n e in
          let moved = rmoffset a mem in
          let zeros : List ℕ = replicate (n - a.len) 0 in
          rw (e, linearize)
            (Keeps-moved v n fits nonempty bounded refl refl refl
              (ground (arith, length-blit moved a.len zeros, length-rmoffset a mem))
              (λ i h. ground (
                arith,
                get_or-blit_before moved a.len zeros i 0,
                rmoffset-at a mem v (omega arith) i,
              )))
    ]

    upgrade_cap_lem : upgrade_cap a ≡ a.size
    unfolding upgrade_cap
    upgrade_cap_lem = ground (arith, v.nonempty, v.fits)

    move_out_lem : Keeps m a a.size (move_out m a a.size)
    unfolding move_out
    move_out_lem = elim (Option-cases (m.cells a.size)) [
      | inl e ↦ rw (e, move_out) (Keeps-failed v e)
      | inr (mem, e) ↦
          let size = m.length-cells a.size e in
          rw (e, move_out)
            (Keeps-moved v a.size v.fits v.nonempty v.bounded refl refl refl
              (length-rmoffset a mem ∙ size)
              (λ i h. rmoffset-at a mem v (omega (arith, v.fits)) i h))
    ]

    pub upgrade_lem : Keeps m a a.size (upgrade m a)
    unfolding upgrade
    upgrade_lem =
        Keeps-if (not a.small) (λ _. Keeps-self v (omega arith))
          (λ _. rw upgrade_cap_lem move_out_lem)

    move_out_size : (move_out m a a.size).1.size ≡ a.size
    unfolding move_out
    move_out_size = elim (Option-cases (m.cells a.size)) [
      | inl e ↦ rw (e, move_out)
      | inr (mem, e) ↦ rw (e, move_out)
    ]

    upgrade_size : (upgrade m a).1.size ≡ a.size
    unfolding upgrade
    upgrade_size = ground (arith, move_out_size, upgrade_cap_lem)

  grow_lem :
      {a : Array} (v : IsValid a) (n : ℕ)
      → a.len + n < 2 ^ 31
      → a.size * 2 < 2 ^ 31
      → Keeps m a (a.len + n) (grow m a n)
  unfolding grow
  grow_lem {a} v n sum double =
      let sum_ok : (a.len + n) % 2 ^ 32 ≡ a.len + n = omega arith in
      let double_ok : a.size * 2 % 2 ^ 32 ≡ a.size * 2 = omega arith in
      rw (sum_ok, double_ok)
        (grown (
          linearize_lem v (if ltb (a.size * 2) (a.len + n) then a.len + n else a.size * 2)
            (ground (arith, v.fits)) (ground (arith, v.nonempty)) (ground arith)))
    where
      grown :
          {r : Bool × Array}
          → Keeps m a (if ltb (a.size * 2) (a.len + n) then a.len + n else a.size * 2) r
          → Keeps m a (a.len + n) r
      grown k = record {
        valid = k.valid;
        same = k.same;
        len_kept = k.len_kept;
        enough = λ e. ground (arith, k.enough e);
        failed = k.failed;
      }

  -- what ci_arr_ensure_space does once an inline array is upgraded
  upgraded_lem :
      {a b : Array} {done : Bool} (n : ℕ)
      → a.len + n < 2 ^ 31
      → a.size * 2 < 2 ^ 31
      → b.size ≡ a.size
      → Keeps m a a.size (done, b)
      → Keeps m a (a.len + n) (
          if not done
          then (false, b)
          else if leb ((b.len + n) % 2 ^ 32) b.size
          then (true, b)
          else grow m b n)
  upgraded_lem {a} {b} {done} n sum double same k =
      Keeps-if (not done)
        (λ e. record {
          valid = k.valid;
          same = k.same;
          len_kept = k.len_kept;
          enough = λ e'. cc;
          failed = λ _. k.failed (ground arith);
        })
        λ _.
          Keeps-if (leb ((b.len + n) % 2 ^ 32) b.size)
            (λ e. record {
              valid = k.valid;
              same = k.same;
              len_kept = k.len_kept;
              enough = λ _. ground (arith, k.len_kept);
              failed = λ e'. cc;
            })
            λ _. Keeps-trans k (
              rw (← k.len_kept)
                (grow_lem k.valid n (omega (arith, k.len_kept)) (omega (arith, same))))

  pub ensure_space_lem :
      {a : Array}
      → IsValid a
      → (n : ℕ) → a.len + n < 2 ^ 31
      → a.size * 2 < 2 ^ 31
      → Keeps m a (a.len + n) (ensure_space m a n)
  unfolding ensure_space
  ensure_space_lem {a} v n sum double =
      Keeps-if (leb ((a.len + n) % 2 ^ 32) a.size) (λ e. Keeps-self v (ground arith))
        λ _.
          Keeps-if a.small (λ _. upgraded_lem n sum double (upgrade_size v) (upgrade_lem v))
            λ _. grow_lem v n sum double
