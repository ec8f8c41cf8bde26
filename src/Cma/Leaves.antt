-- ===== src/Cma/Leaves.antt =====
-- The match functions that look at the input keep their contract.
use blueberry.Prelude.{
  ℕ, zero, suc, ◌+◌, ◌-◌, ◌≤◌, ◌≡◌, refl, sym, Bool, false, not, ◌&&◌, [], append-nil, ltb, leb,
  if◌then◌else◌, if_elim, length, get_or, arith,
}
use blueberry.Cma.{
  Bytes, State, push, backtrack, ret_end_reached, same, match_str, match_set, match_endl, scan,
  match_rep_set,
}
use blueberry.Cma.Keeps.{
  IsReady, Advances, Restores, Extends, Kept, Restores-Extends, Advances-self, ret_missed-Restores,
  backtrack-Restores, commit-Advances,
}

here-Restores : (s : State) → IsReady s → Restores s s
here-Restores s r = record {
  input = refl;
  flag = refl;
  saves = refl;
  pos = refl;
  caps = refl;
  far = omega arith;
  reached = r.reached;
}

pub miss :
    (s : State)
    → IsReady s
    → Restores s (record s { farthest = if ltb s.farthest s.pos then s.pos else s.farthest })
miss s r = ret_missed-Restores s s r (here-Restores s r)

-- backtrack and miss
pub back :
    (s t : State)
    → IsReady s
    → Extends (push s) t
    → (let u = backtrack (length s.saves) t in
        Restores s (record u { farthest = if ltb u.farthest u.pos then u.pos else u.farthest }))
back s t r x = ret_missed-Restores s (backtrack (length s.saves) t) r (backtrack-Restores s t r x)

-- a match that only moves
move :
    (s : State) (n : ℕ)
    → IsReady s
    → s.pos + n ≤ length s.input
    → Advances n s (record s { pos = s.pos + n })
move s n r h = record {
  input = refl;
  flag = refl;
  saves = refl;
  moved = omega arith;
  inside = h;
  far = omega arith;
  reached = r.reached;
  new = [];
  caps = sym (append-nil s.caps);
  captures = tt;
  order = tt;
}

module _ (E : Type 0) where
  end_reached-Kept : (l : ℕ) (s : State) → IsReady s → Kept E l s (ret_end_reached s)
  end_reached-Kept l s r = if_elim (Kept E l s) s.end_is_miss (λ _. here-Restores s r) (λ e. e)

  pub match_str-Kept :
      (buf : Bytes) (i : Bool) (s : State) → IsReady s → Kept E (length buf) s (match_str buf i s)
  unfolding match_str
  match_str-Kept buf i s r =
      let n = length buf in
      if_elim (Kept E n s) (ltb (length s.input) (s.pos + n))
        (λ _.
          if_elim (Kept E n s) (same i (length s.input - s.pos) buf s) (λ _. end_reached-Kept n s r)
            (λ _. miss s r))
        (λ le.
          if_elim (Kept E n s) (not i && (leb 4 n && not (same false 4 buf s))) (λ _. miss s r)
            (λ _.
              if_elim (Kept E n s) (same i n buf s) (λ _. move s n r (ground (arith, le)))
                (λ _. miss s r)))

  pub match_set-Kept : (bits : ℕ → Bool) (s : State) → IsReady s → Kept E 1 s (match_set bits s)
  unfolding match_set
  match_set-Kept bits s r =
      if_elim (Kept E 1 s) (leb (length s.input) s.pos) (λ _. end_reached-Kept 1 s r)
        (λ le.
          if_elim (Kept E 1 s) (bits (get_or s.input s.pos 0))
            (λ _. move s 1 r (ground (arith, le))) (λ _. miss s r))

  pub match_endl-Kept : (s : State) → IsReady s → Kept E 0 s (match_endl s)
  unfolding match_endl
  match_endl-Kept s r =
      if_elim (Kept E 0 s) (leb (length s.input) s.pos) (λ _. Advances-self s r) (λ _. miss s r)

  scan_bounds :
      (bits : ℕ → Bool) (input : Bytes) (max fuel pos count : ℕ)
      → pos ≤ length input
      → (let (p, c) = scan bits input max fuel pos count in
          (p ≤ length input) × (p + count ≡ pos + c) × (pos ≤ p))
  unfolding scan
  scan_bounds bits input max zero pos count h = (h, omega arith, omega arith)
  scan_bounds bits input max (suc fuel) pos count h =
      if_elim {A = ℕ × ℕ} (λ z. (z.0 ≤ length input) × (z.0 + count ≡ pos + z.1) × (pos ≤ z.0))
        (ltb count max && ltb pos (length input) && bits (get_or input pos 0))
        (λ t.
          let (p, q, k) =
            scan_bounds bits input max fuel (pos + 1) (count + 1) (ground (arith, t)) in
          (p, omega (arith, q), omega (arith, k)))
        (λ _. (h, omega arith, omega arith))

  pub match_rep_set-Kept :
      (least most : ℕ) (bits : ℕ → Bool) (s : State)
      → IsReady s
      → Kept E least s (match_rep_set least most bits s)
  unfolding match_rep_set
  match_rep_set-Kept least most bits s r =
      let z = scan bits s.input most (length s.input + 1) s.pos 0 in
      let (p, q, k) = scan_bounds bits s.input most (length s.input + 1) s.pos 0 r.inside in
      if_elim (Kept E least s) (leb (length s.input) z.0 && ltb z.1 most && not s.end_is_miss)
        (λ t. ground (arith, t))
        (λ _.
          if_elim (Kept E least s) (ltb z.1 least)
            (λ _. back s (push s) r (
              Restores-Extends (push s) (push s)
                (here-Restores (push s) (record { inside = r.inside; reached = r.reached }))))
            (λ ge.
              commit-Advances least s (record (push s) { pos = z.0 })
                (record {
                  input = refl;
                  flag = refl;
                  saves = refl;
                  moved = ground (arith, ge, q);
                  inside = p;
                  far = omega arith;
                  reached = r.reached;
                  new = [];
                  caps = sym (append-nil s.caps);
                  captures = tt;
                  order = tt;
                })))
