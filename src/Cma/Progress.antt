-- ===== src/Cma/Progress.antt =====
-- A repeated choice whose last alternative takes any byte goes on to the end of the input.
pub mod Whole
use blueberry.Prelude.{
  ℕ, zero, suc, ◌+◌, ◌-◌, ◌≤◌, ◌<◌, ◌≡◌, refl, sym, ap, ◌∙◌, Bool, true, false, not, ◌&&◌, ◌||◌,
  List, [], ◌∷◌, leb, ltb, ◌==◌, Bool-cases, if_elim, if◌then◌else◌, length, get_or, All, arith,
  inl, inr, subst,
}
use blueberry.Cma.{
  Bytes, Op, Ops, no_ops, op, set_op, rep_op, or_op, and_op, endl_op, rep_set_op, cap_op, numbered,
  State, Outcome, matched, missed, jumped, no_fuel, Hooks, on_result, push, backtrack, commit,
  ret_missed, match_set, match_rep_set, match_endl, scan, and_loop, or_loop, rep_loop, rep_end,
  call, captured, opened,
}
use blueberry.Cma.Keeps.{
  IsReady, Advances, Restores, Kept, Advances-IsReady, Restores-IsReady, Advances-self,
  Advances-trans, Advances-weaken, Advances-Restores,
}
use blueberry.Cma.Captures.{Inside}
use blueberry.Cma.Calls

-- the set has every byte of the input
abbrev pub HasAll : (ℕ → Bool) → Bytes → Type 0
HasAll bits input = All (λ b. bits b ≡ true) input

get-HasAll :
    (bits : ℕ → Bool) (xs : Bytes) (i : ℕ)
    → i < length xs
    → HasAll bits xs
    → bits (get_or xs i 0) ≡ true
get-HasAll bits [] i lt h = absurd (omega arith)
get-HasAll bits (x ∷ xs) zero lt (h, k) = h
get-HasAll bits (x ∷ xs) (suc i) lt (h, k) = get-HasAll bits xs i (omega arith) k

scan_full :
    (bits : ℕ → Bool) (input : Bytes) (fuel pos : ℕ) → scan bits input 1 fuel pos 1 ≡ (pos, 1)
unfolding scan
scan_full bits input zero pos = refl
scan_full bits input (suc fuel) pos = refl

scan_one :
    (bits : ℕ → Bool) (input : Bytes) (fuel pos : ℕ)
    → pos < length input
    → bits (get_or input pos 0) ≡ true
    → scan bits input 1 (suc fuel) pos 0 ≡ (pos + 1, 1)
unfolding scan
scan_one bits input fuel pos lt h = ground (arith, lt, h, scan_full bits input fuel (pos + 1))

-- `ANY(1)` matches before the end.
pub rep_one :
    (bits : ℕ → Bool) (s : State)
    → s.pos < length s.input
    → HasAll bits s.input
    → (t : State) × (match_rep_set 1 1 bits s ≡ matched t)
unfolding match_rep_set
rep_one bits s lt h =
    let e = scan_one bits s.input (length s.input) s.pos lt (get-HasAll bits s.input s.pos lt h) in
    (commit (length s.saves) (record (push s) { pos = s.pos + 1 }), ground (arith, e))

module _ (go : State → Op → Outcome) where
  -- the opcode matches everywhere before the end of an input whose bytes the set has
  abbrev pub Hits : (Bytes → Type 0) → Op → Type 0
  Hits P o =
      (u : State)
      → IsReady u
      → u.end_is_miss ≡ true
      → u.pos < length u.input
      → P u.input
      → (t : State) × (go u o ≡ matched t)

  abbrev pub LastHits : (Bytes → Type 0) → Ops → Type 0
  LastHits P no_ops = ⊥
  LastHits P (op o no_ops) = Hits P o
  LastHits P (op o (op p os)) = LastHits P (op p os)

  -- behind any outcome that keeps the contract
  next_hits :
      (l : ℕ) (s : State) (out : Outcome) (g : State → Outcome)
      → s.end_is_miss ≡ true
      → Kept ⊥ l s out
      → ((u : State) → Restores s u → (t : State) × (g u ≡ matched t))
      → (t : State) × (on_result out matched g ≡ matched t)
  next_hits l s (matched u) g e k h = (u, refl)
  next_hits l s (missed u) g e k h = h u k
  next_hits l s (jumped u) g e k h = absurd (ground (arith, e, k))
  next_hits l s no_fuel g e k h = absurd k

  pub or_loop-Hits :
      (P : Bytes → Type 0) (os : Ops) (s : State)
      → IsReady s
      → s.end_is_miss ≡ true
      → s.pos < length s.input
      → P s.input
      → Calls.AllOps (Calls.Fits ⊥ go) os
      → LastHits P os
      → (t : State) × (or_loop go os s ≡ matched t)
  unfolding or_loop
  or_loop-Hits P no_ops s r e lt p fits hits = absurd hits
  or_loop-Hits P (op o no_ops) s r e lt p (fit, fits) hits =
      let (t, x) = hits s r e lt p in (t, ap (λ out. on_result out matched (or_loop go no_ops)) x)
  or_loop-Hits P (op o (op q os)) s r e lt p (fit, fits) hits =
      next_hits (Calls.min_len o) s (go s o) (or_loop go (op q os)) e (fit s r) (λ u x.
        or_loop-Hits P (op q os) u (Restores-IsReady s u r x) (x.flag ∙ e)
          (omega (arith, lt, x.pos, ap length x.input)) (subst P (sym x.input) p) fits hits)

  -- the last round, at the end of the input
  last_round :
      (l count sp : ℕ) (t : State) (out : Outcome) (f : State → Outcome)
      → 1 ≤ l
      → t.end_is_miss ≡ true
      → t.pos ≡ length t.input
      → Kept ⊥ l t out
      → (u : State) × (on_result out f (rep_end 0 sp count) ≡ matched u) × (u.pos ≡ length t.input)
  last_round l count sp t (matched u) f le e at k = absurd (omega (arith, k.moved, k.inside))
  last_round l count sp t (missed u) f le e at k = (commit sp u, ground arith, k.pos ∙ at)
  last_round l count sp t (jumped u) f le e at k = absurd (ground (arith, e, k))
  last_round l count sp t no_fuel f le e at k = absurd k

  -- A repetition of what takes any byte goes on to the end.
  pub rep_loop_whole :
      (P : Bytes → Type 0) (most : ℕ) (o : Op) (rounds count : ℕ) (s t : State)
      → IsReady s
      → s.end_is_miss ≡ true
      → P s.input
      → 1 ≤ Calls.min_len o
      → Advances 0 (push s) t
      → length s.input < rounds + t.pos
      → count + (length s.input - t.pos) ≤ most
      → Calls.Fits ⊥ go o
      → Hits P o
      → (u : State) × (rep_loop go 0 most o (length s.saves) rounds count t ≡ matched u)
        × (u.pos ≡ length s.input)
  unfolding rep_loop
  rep_loop_whole P most o zero count s t r e p one x lt full fit hits =
      absurd (omega (arith, x.inside))
  rep_loop_whole P most o (suc rounds) count s t r e p one x lt full fit hits =
      let sp = length s.saves in
      let round : Outcome → Outcome = λ out.
        on_result out
          (λ u.
            if u.pos == t.pos
            then rep_end 0 sp count u
            else rep_loop go 0 most o sp rounds (count + 1) u)
          (rep_end 0 sp count) in
      let ready = Advances-IsReady 0 (push s) t x in
      let len = ap length x.input in
      elim (Bool-cases (ltb count most)) [
        | inr full' ↦ (commit sp t, ground (arith, full'), ground (arith, full', full, x.inside))
        | inl go_on ↦ elim (Bool-cases (ltb t.pos (length s.input))) [
          | inr at_end ↦
              let (u, y, at) =
                last_round (Calls.min_len o) count sp t (go t o)
                  (λ u.
                    if u.pos == t.pos
                    then rep_end 0 sp count u
                    else rep_loop go 0 most o sp rounds (count + 1) u)
                  one (x.flag ∙ e) (ground (arith, at_end, len, x.inside)) (fit t ready) in
              (u, ground (arith, go_on, y), omega (arith, at, len))
          | inl before ↦
              let (u, y) =
                hits t ready (x.flag ∙ e) (ground (arith, before, len)) (subst P (sym x.input) p) in
              let k : Advances (Calls.min_len o) t u =
                subst (Kept ⊥ (Calls.min_len o) t) y (fit t ready) in
              let k0 : Advances 0 (push s) u =
                Advances-weaken (0 + Calls.min_len o) 0 (push s) u (omega arith)
                  (Advances-trans 0 (Calls.min_len o) (push s) t u x k) in
              let (v, z, at) =
                rep_loop_whole P most o rounds (count + 1) s u r e p one k0
                  (omega (arith, k.moved, one, lt)) (ground (arith, before, k.moved, one, full)) fit
                  hits in
              let moved : (u.pos == t.pos) ≡ false = ground (arith, k.moved, one) in
              let rest : round (matched u) ≡ matched v = ground (arith, moved, z) in
              (v, ground (arith, go_on, ap round y, rest), at)
        ]
      ]
