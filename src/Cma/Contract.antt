-- ===== src/Cma/Contract.antt =====
-- The contract of the match functions, for any pattern: a miss leaves the position and the captures
-- where they were, and a match stays within the input.
use blueberry.Prelude.{
  ℕ, zero, suc, ◌+◌, ◌-◌, ◌≤◌, ◌≡◌, refl, ap, ◌∙◌, List, [], ◌∷◌, ◌++◌, if_elim, length, set, arith,
}
use blueberry.Cma.{
  Tag, Op, Ops, no_ops, op, str_op, set_op, and_op, or_op, not_op, ahead_op, rep_op, rep_set_op,
  cap_op, ref_op, exec_op, endl_op, noop_op, Capture, State, Outcome, matched, missed, jumped,
  no_fuel, Hooks, push, backtrack, ret_missed, and_loop, accepted, captured, no_capture, opened,
  call,
}
use blueberry.Cma.Keeps.{
  IsReady, Advances, Extends, Kept, Advances-Extends, Restores-Extends, Advances-self,
  Advances-weaken, commit-Advances, backtrack-Restores, Advances-Restores,
}
use blueberry.Cma.Captures.{All-Inside_start}
use blueberry.Cma.Calls
use blueberry.Cma.Leaves

set_middle :
    (xs ys : List Capture) (x v : Capture) → set ((xs ++ x ∷ []) ++ ys) (length xs) v ≡ xs ++ v ∷ ys
set_middle [] ys x v = refl
set_middle (z ∷ xs) ys x v = ap (◌∷◌ z) (set_middle xs ys x v)

module _ (E : Type 0) (hooks : Hooks) where
  -- what the calls that a match makes need: enough fuel where `E` is false, and nothing where it is true
  abbrev pub Runs : ℕ → Op → Type 0
  Runs zero o = E
  Runs (suc fuel) (and_op os) = Calls.AllOps (Runs fuel) os
  Runs (suc fuel) (or_op os) = Calls.AllOps (Runs fuel) os
  Runs (suc fuel) (not_op p) = Runs fuel p
  Runs (suc fuel) (ahead_op p) = Runs fuel p
  Runs (suc fuel) (rep_op least most p) = Runs fuel p
  Runs (suc fuel) (cap_op tag p) = Runs fuel p
  Runs (suc fuel) (ref_op r) = Runs fuel (hooks.resolve r)
  Runs (suc fuel) (exec_op e) = (s : State) → IsReady s → Kept E 0 s (hooks.exec e s)
  Runs (suc fuel) o = Unit {0}

  captured-Kept :
      (tag : Tag) (l : ℕ) (s t : State)
      → IsReady s
      → Advances l (opened hooks s) t
      → Kept E l s (captured hooks tag s t)
  unfolding captured
  captured-Kept tag l s t r x =
      let cap : Capture = record {
        tag = tag;
        start = s.pos;
        stop = t.pos;
        nested = length t.caps - (length s.caps + 1);
      } in
      let kept : State = record t { caps = set t.caps (length s.caps) cap } in
      let y : Advances l (push s) kept = record {
        input = x.input;
        flag = x.flag;
        saves = x.saves;
        moved = x.moved;
        inside = x.inside;
        far = x.far;
        reached = x.reached;
        new = cap ∷ x.new;
        caps =
            ap (λ cs. set cs (length s.caps) cap) x.caps
            ∙ set_middle s.caps x.new (no_capture hooks) cap;
        captures = ((omega arith, omega (arith, x.moved), omega arith), x.captures);
        order = (All-Inside_start s.pos t.pos x.new x.captures, x.order);
      } in
      if_elim (Kept E l s) (accepted hooks tag kept) (λ _. commit-Advances l s kept y)
        (λ _. Leaves.back s kept r (Advances-Extends l (push s) kept y))

  back_matched :
      (s t : State) → IsReady s → Extends (push s) t → Advances 0 s (backtrack (length s.saves) t)
  back_matched s t r x =
      let y = backtrack-Restores s t r x in
      Advances-Restores 0 s s (backtrack (length s.saves) t) (Advances-self s r) y

  Kept-weaken : (l m : ℕ) (s : State) (out : Outcome) → m ≤ l → Kept E l s out → Kept E m s out
  Kept-weaken l m s (matched t) le x = Advances-weaken l m s t le x
  Kept-weaken l m s (missed t) le x = x
  Kept-weaken l m s (jumped t) le x = x
  Kept-weaken l m s no_fuel le x = x

  least_len-Fits :
      (go : State → Op → Outcome) (os : Ops)
      → Calls.AllOps (Calls.Fits E go) os
      → (k : ℕ) → k ≤ Calls.least_len os
      → Calls.AllOps (λ o. (u : State) → IsReady u → Kept E k u (go u o)) os
  unfolding Calls.least_len
  least_len-Fits go no_ops fits k le = tt
  least_len-Fits go (op o no_ops) (fit, fits) k le =
      ((λ u r. Kept-weaken (Calls.min_len o) k u (go u o) le (fit u r)), tt)
  least_len-Fits go (op o (op p os)) (fit, fits) k le = (
    (λ u r. Kept-weaken (Calls.min_len o) k u (go u o) (omega (arith, le)) (fit u r)),
    least_len-Fits go (op p os) fits k (omega (arith, le)),
  )

  pub call-Kept :
      (fuel : ℕ) (o : Op) (s : State)
      → IsReady s
      → Runs fuel o
      → Kept E (Calls.min_len o) s (call hooks fuel s o)
  unfolding call Calls.min_len
  call-Kept zero o s r runs = runs
  call-Kept (suc fuel) (str_op buf i) s r runs = Leaves.match_str-Kept E buf i s r
  call-Kept (suc fuel) (set_op bits) s r runs = Leaves.match_set-Kept E bits s r
  call-Kept (suc fuel) endl_op s r runs = Leaves.match_endl-Kept E s r
  call-Kept (suc fuel) noop_op s r runs = Advances-self s r
  call-Kept (suc fuel) (exec_op e) s r runs = runs s r
  call-Kept (suc fuel) (rep_set_op least most bits) s r runs =
      Leaves.match_rep_set-Kept E least most bits s r
  call-Kept (suc fuel) (and_op os) s r runs =
      let ready = Calls.push-IsReady E s r in
      Kept-weaken (0 + Calls.sum_len os) (Calls.sum_len os) s
        (and_loop (call hooks fuel) os (length s.saves) (push s)) (omega arith)
        (Calls.and_loop-Kept E (call hooks fuel) os 0 s (push s) r (Advances-self (push s) ready) (
          Calls.AllOps-map (Runs fuel) (Calls.Fits E (call hooks fuel)) os
            (λ o y u ru. call-Kept fuel o u ru y) runs))
  call-Kept (suc fuel) (or_op os) s r runs =
      Calls.or_loop-Kept E (call hooks fuel) os (Calls.least_len os) s r (
        least_len-Fits (call hooks fuel) os
          (Calls.AllOps-map (Runs fuel) (Calls.Fits E (call hooks fuel)) os
            (λ o y u ru. call-Kept fuel o u ru y) runs)
          (Calls.least_len os) (omega arith))
  call-Kept (suc fuel) (not_op p) s r runs =
      Calls.on_result-Kept E (Calls.min_len p) 0 s (push s) (call hooks fuel (push s) p)
        (λ t. ret_missed (backtrack (length s.saves) t))
        (λ t. matched (backtrack (length s.saves) t)) refl
        (call-Kept fuel p (push s) (Calls.push-IsReady E s r) runs)
        (λ u y. Leaves.back s u r (Advances-Extends (Calls.min_len p) (push s) u y))
        (λ u y. back_matched s u r (Restores-Extends (push s) u y))
  call-Kept (suc fuel) (ahead_op p) s r runs =
      Calls.on_result-Kept E (Calls.min_len p) 0 s (push s) (call hooks fuel (push s) p)
        (λ t. matched (backtrack (length s.saves) t))
        (λ t. ret_missed (backtrack (length s.saves) t)) refl
        (call-Kept fuel p (push s) (Calls.push-IsReady E s r) runs)
        (λ u y. back_matched s u r (Advances-Extends (Calls.min_len p) (push s) u y))
        (λ u y. Leaves.back s u r (Restores-Extends (push s) u y))
  call-Kept (suc fuel) (rep_op least most p) s r runs =
      Calls.rep_loop-Kept E (call hooks fuel) least most p (length s.input + 2) 0 s (push s) r
        (Advances-self (push s) (Calls.push-IsReady E s r)) (omega arith)
        (λ u ru. call-Kept fuel p u ru runs)
  call-Kept (suc fuel) (cap_op tag p) s r runs =
      Calls.on_result-Kept E (Calls.min_len p) (Calls.min_len p) s (opened hooks s)
        (call hooks fuel (opened hooks s) p) (captured hooks tag s)
        (λ t. ret_missed (backtrack (length s.saves) t)) refl
        (call-Kept fuel p (opened hooks s) (record { inside = r.inside; reached = r.reached }) runs)
        (λ u y. captured-Kept tag (Calls.min_len p) s u r y)
        (λ u y. Leaves.back s u r (record {
          input = y.input;
          flag = y.flag;
          saves = y.saves;
          far = y.far;
          reached = y.reached;
          new = no_capture hooks ∷ [];
          caps = y.caps;
        }))
  call-Kept (suc fuel) (ref_op k) s r runs =
      Kept-weaken (Calls.min_len (hooks.resolve k)) 0 s (call hooks fuel s (hooks.resolve k))
        (omega arith) (call-Kept fuel (hooks.resolve k) s r runs)

AllOps-any : (P : Op → Type 0) (os : Ops) → ((o : Op) → P o) → Calls.AllOps P os
AllOps-any P no_ops f = tt
AllOps-any P (op o os) f = (f o, AllOps-any P os f)

-- the user's match functions keep the contract themselves
abbrev pub KeepsExec : Hooks → Type 0
KeepsExec hooks = (e : ℕ) (s : State) → IsReady s → Kept (Unit {0}) 0 s (hooks.exec e s)

Runs-Unit : (hooks : Hooks) → KeepsExec hooks → (fuel : ℕ) (o : Op) → Runs (Unit {0}) hooks fuel o
Runs-Unit hooks x zero o = tt
Runs-Unit hooks x (suc fuel) (and_op os) =
    AllOps-any (Runs (Unit {0}) hooks fuel) os (Runs-Unit hooks x fuel)
Runs-Unit hooks x (suc fuel) (or_op os) =
    AllOps-any (Runs (Unit {0}) hooks fuel) os (Runs-Unit hooks x fuel)
Runs-Unit hooks x (suc fuel) (not_op p) = Runs-Unit hooks x fuel p
Runs-Unit hooks x (suc fuel) (ahead_op p) = Runs-Unit hooks x fuel p
Runs-Unit hooks x (suc fuel) (rep_op least most p) = Runs-Unit hooks x fuel p
Runs-Unit hooks x (suc fuel) (cap_op tag p) = Runs-Unit hooks x fuel p
Runs-Unit hooks x (suc fuel) (ref_op r) = Runs-Unit hooks x fuel (hooks.resolve r)
Runs-Unit hooks x (suc fuel) (str_op b i) = tt
Runs-Unit hooks x (suc fuel) (set_op b) = tt
Runs-Unit hooks x (suc fuel) (rep_set_op n m b) = tt
Runs-Unit hooks x (suc fuel) (exec_op e) = x e
Runs-Unit hooks x (suc fuel) endl_op = tt
Runs-Unit hooks x (suc fuel) noop_op = tt

-- The contract of the match functions, for any pattern, references included, from any position within
-- the input, where the user's match functions keep it too: a miss leaves the position, the captures
-- and the stack as they were; a match ends within the input, leaves the stack, and puts captures that
-- lie within what it matched, in the order of their starts, behind the old ones; and only with
-- CMA_END_IS_MISS off is there a jump.
pub call-Contract :
    (hooks : Hooks)
    → KeepsExec hooks
    → (fuel : ℕ) (o : Op) (s : State) → IsReady s
    → Kept (Unit {0}) (Calls.min_len o) s (call hooks fuel s o)
call-Contract hooks x fuel o s r = call-Kept (Unit {0}) hooks fuel o s r (Runs-Unit hooks x fuel o)
