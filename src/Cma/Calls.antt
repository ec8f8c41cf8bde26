-- ===== src/Cma/Calls.antt =====
-- The match functions that call others keep their contract, whatever the opcodes inside are.
use Prim.Native.Nat.{min}
use blueberry.Prelude.{
  ℕ, zero, suc, ◌+◌, ◌<◌, ◌≡◌, refl, sym, ◌∙◌, ltb, ◌==◌, if◌then◌else◌, if_elim, length, arith,
  subst,
}
use blueberry.Cma.{
  Op, Ops, no_ops, op, str_op, set_op, and_op, or_op, rep_set_op, cap_op, State, Outcome, matched,
  missed, jumped, no_fuel, on_result, push, backtrack, commit, ret_missed, and_loop, or_loop,
  rep_end, rep_loop,
}
use blueberry.Cma.Keeps.{
  IsReady, Advances, Restores, Kept, Advances-Extends, Advances-IsReady, Restores-IsReady,
  Advances-trans, Advances-Restores, Restores-trans, Restores-Advances, Advances-weaken,
  commit-Advances,
}
use blueberry.Cma.Leaves.{miss, back}

abbrev pub AllOps : (Op → Type 0) → Ops → Type 0
AllOps P no_ops = Unit {0}
AllOps P (op o os) = P o × AllOps P os

pub AllOps-map : (P Q : Op → Type 0) (os : Ops) → ((o : Op) → P o → Q o) → AllOps P os → AllOps Q os
AllOps-map P Q no_ops f x = tt
AllOps-map P Q (op o os) f (p, x) = (f o p, AllOps-map P Q os f x)

-- the bytes that a match takes at the least
unfoldable mutual
  pub min_len : Op → ℕ
  min_len (str_op buf insensitive) = length buf
  min_len (set_op bits) = 1
  min_len (and_op os) = sum_len os
  min_len (or_op os) = least_len os
  min_len (rep_set_op min max bits) = min
  min_len (cap_op tag p) = min_len p
  min_len o = 0

  pub sum_len : Ops → ℕ
  sum_len no_ops = 0
  sum_len (op o os) = min_len o + sum_len os

  pub least_len : Ops → ℕ
  least_len no_ops = 0
  least_len (op o no_ops) = min_len o
  least_len (op o (op p os)) = min (min_len o) (least_len (op p os))

module _ (E : Type 0) where
  -- what is known of the calls for an opcode inside another
  abbrev pub Fits : (State → Op → Outcome) → Op → Type 0
  Fits go o = (u : State) → IsReady u → Kept E (min_len o) u (go u o)

  pub push-IsReady : (s : State) → IsReady s → IsReady (push s)
  push-IsReady s r = record { inside = r.inside; reached = r.reached }

  pub on_result-Kept :
      (k l : ℕ) (s t : State) (out : Outcome) (f g : State → Outcome)
      → t.end_is_miss ≡ s.end_is_miss
      → Kept E k t out
      → ((u : State) → Advances k t u → Kept E l s (f u))
      → ((u : State) → Restores t u → Kept E l s (g u))
      → Kept E l s (on_result out f g)
  on_result-Kept k l s t (matched u) f g e x hf hg = hf u x
  on_result-Kept k l s t (missed u) f g e x hf hg = hg u x
  on_result-Kept k l s t (jumped u) f g e x hf hg = sym e ∙ x
  on_result-Kept k l s t no_fuel f g e x hf hg = x

  pub and_loop-Kept :
      (go : State → Op → Outcome) (os : Ops) (l : ℕ) (s t : State)
      → IsReady s
      → Advances l (push s) t
      → AllOps (Fits go) os
      → Kept E (l + sum_len os) s (and_loop go os (length s.saves) t)
  unfolding and_loop sum_len
  and_loop-Kept go no_ops l s t r x fits =
      Advances-weaken l (l + 0) s (commit (length s.saves) t) (omega arith)
        (commit-Advances l s t x)
  and_loop-Kept go (op o os) l s t r x (fit, fits) =
      let k = min_len o in
      let n = l + (k + sum_len os) in
      on_result-Kept k n s t (go t o) (and_loop go os (length s.saves))
        (λ u. ret_missed (backtrack (length s.saves) u)) x.flag
        (fit t (Advances-IsReady l (push s) t x))
        (λ u y.
          subst (λ m. Kept E m s (and_loop go os (length s.saves) u)) {x = l + k + sum_len os}
            {y = n} (omega arith)
            (and_loop-Kept go os (l + k) s u r (Advances-trans l k (push s) t u x y) fits))
        (λ u y. back s u r (Advances-Extends l (push s) u (Advances-Restores l (push s) t u x y)))

  -- a second attempt behind a miss
  Restores-Kept :
      (l : ℕ) (s t : State) (out : Outcome) → Restores s t → Kept E l t out → Kept E l s out
  Restores-Kept l s t (matched u) x y = Restores-Advances l s t u x y
  Restores-Kept l s t (missed u) x y = Restores-trans s t u x y
  Restores-Kept l s t (jumped u) x y = sym x.flag ∙ y
  Restores-Kept l s t no_fuel x y = y

  pub or_loop-Kept :
      (go : State → Op → Outcome) (os : Ops) (l : ℕ) (s : State)
      → IsReady s
      → AllOps (λ o. (u : State) → IsReady u → Kept E l u (go u o)) os
      → Kept E l s (or_loop go os s)
  unfolding or_loop
  or_loop-Kept go no_ops l s r fits = miss s r
  or_loop-Kept go (op o os) l s r (fit, fits) =
      on_result-Kept l l s s (go s o) matched (or_loop go os) refl (fit s r) (λ u y. y)
        (λ u y.
          Restores-Kept l s u (or_loop go os u) y
            (or_loop-Kept go os l u (Restores-IsReady s u r y) fits))

  rep_end-Kept :
      (least count : ℕ) (s t : State)
      → IsReady s
      → Advances 0 (push s) t
      → Kept E 0 s (rep_end least (length s.saves) count t)
  rep_end-Kept least count s t r x =
      if_elim (Kept E 0 s) (ltb count least) (λ _. back s t r (Advances-Extends 0 (push s) t x))
        (λ _. commit-Advances 0 s t x)

  pub rep_loop-Kept :
      (go : State → Op → Outcome) (least most : ℕ) (o : Op) (rounds count : ℕ) (s t : State)
      → IsReady s
      → Advances 0 (push s) t
      → length s.input < rounds + t.pos
      → Fits go o
      → Kept E 0 s (rep_loop go least most o (length s.saves) rounds count t)
  unfolding rep_loop
  rep_loop-Kept go least most o zero count s t r x lt fit = absurd (omega (arith, lt, x.inside))
  rep_loop-Kept go least most o (suc rounds) count s t r x lt fit =
      let sp = length s.saves in
      let k = min_len o in
      let longer : (u : State) → Advances k t u → Advances 0 (push s) u = λ u y.
        Advances-weaken (0 + k) 0 (push s) u (omega arith) (Advances-trans 0 k (push s) t u x y) in
      if_elim (Kept E 0 s) (ltb count most)
        (λ _.
          on_result-Kept k 0 s t (go t o)
            (λ u.
              if u.pos == t.pos
              then rep_end least sp count u
              else rep_loop go least most o sp rounds (count + 1) u)
            (rep_end least sp count) x.flag (fit t (Advances-IsReady 0 (push s) t x))
            (λ u y.
              if_elim (Kept E 0 s) (u.pos == t.pos)
                (λ _. rep_end-Kept least count s u r (longer u y))
                (λ ne.
                  rep_loop-Kept go least most o rounds (count + 1) s u r (longer u y)
                    (ground (arith, ne, lt, y.moved)) fit))
            (λ u y. rep_end-Kept least count s u r (Advances-Restores 0 (push s) t u x y)))
        (λ _. rep_end-Kept least count s t r x)
