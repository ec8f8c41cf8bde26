-- ===== src/Cma/Peg/Loops.antt =====
-- The loops of cma/cma.c over opcodes do what the grammar's semantics says, if the calls inside do.
use blueberry.Prelude.{
  ℕ, zero, suc, ◌+◌, ◌≡◌, refl, ◌∙◌, true, Option, none, some, ltb, ◌==◌, if◌then◌else◌, if_elim,
  arith, subst,
}
use blueberry.Cma.{
  Bytes, Op, Ops, no_ops, op, State, Outcome, matched, missed, jumped, no_fuel, on_result,
  ret_missed, backtrack, and_loop, or_loop, rep_loop, rep_end,
}
use blueberry.Cma.Keeps.{IsReady, Advances, Restores, Kept, Advances-IsReady, Restores-IsReady}
use blueberry.Cma.Calls
use blueberry.Cma.Peg.{
  Goal, pat, each, one_of, rounds, Takes, each_done, each_step, each_miss, none_left, first, later,
  round_full, round_miss, round_empty, round_step, stops,
}
use blueberry.Cma.Peg.Leaves.{MeansAt, Means}

-- the same outcome for another goal at another position
pub MeansAt-map :
    (input : Bytes) (g h : Goal) (p q : ℕ) (out : Outcome)
    → ((r : Option ℕ) → Takes input g p r → Takes input h q r)
    → MeansAt input g p out
    → MeansAt input h q out
MeansAt-map input g h p q (matched t) f x = f (some t.pos) x
MeansAt-map input g h p q (missed t) f x = f none x
MeansAt-map input g h p q (jumped t) f x = tt
MeansAt-map input g h p q no_fuel f x = tt

pub MeansAt-on_result :
    (l : ℕ) (input : Bytes) (g : Goal) (p : ℕ) (o : Op) (t : State) (out : Outcome)
    (f h : State → Outcome)
    → Kept ⊥ l t out
    → Means t (pat o) out
    → ((u : State)
        → Advances l t u
        → Takes t.input (pat o) t.pos (some u.pos)
        → MeansAt input g p (f u))
    → ((u : State) → Restores t u → Takes t.input (pat o) t.pos none → MeansAt input g p (h u))
    → MeansAt input g p (on_result out f h)
MeansAt-on_result l input g p o t (matched u) f h k m hf hh = hf u k m
MeansAt-on_result l input g p o t (missed u) f h k m hf hh = hh u k m
MeansAt-on_result l input g p o t (jumped u) f h k m hf hh = tt
MeansAt-on_result l input g p o t no_fuel f h k m hf hh = tt

rep_end-Means :
    (input : Bytes) (g : Goal) (p least sp count : ℕ) (u : State)
    → u.pos ≡ p
    → Takes input g p (stops least count p)
    → MeansAt input g p (rep_end least sp count u)
rep_end-Means input g p least sp count u e x =
    if_elim (MeansAt input g p) (ltb count least)
      (λ f. subst (Takes input g p) (ground (arith, f)) x)
      (λ f. subst (Takes input g p) (ground (arith, f, e)) x)

module _ (go : State → Op → Outcome) where
  -- the call for an opcode keeps the contract and the semantics
  abbrev pub Follows : Op → Type 0
  Follows o =
      Calls.Fits ⊥ go o
      × ((u : State) → IsReady u → u.end_is_miss ≡ true → Means u (pat o) (go u o))

  pub and_loop-Means :
      (os : Ops) (sp : ℕ) (t : State)
      → IsReady t
      → t.end_is_miss ≡ true
      → Calls.AllOps Follows os
      → Means t (each os) (and_loop go os sp t)
  unfolding and_loop
  and_loop-Means no_ops sp t r e all = each_done
  and_loop-Means (op o os) sp t r e ((fit, means), all) =
      let l = Calls.min_len o in
      MeansAt-on_result l t.input (each (op o os)) t.pos o t (go t o) (and_loop go os sp)
        (λ u. ret_missed (backtrack sp u)) (fit t r) (means t r e)
        (λ u k x.
          MeansAt-map t.input (each os) (each (op o os)) u.pos t.pos (and_loop go os sp u)
            (λ z y. each_step x y)
            (subst (λ i. MeansAt i (each os) u.pos (and_loop go os sp u)) k.input
              (and_loop-Means os sp u (Advances-IsReady l t u k) (k.flag ∙ e) all)))
        (λ u k x. each_miss x)

  pub or_loop-Means :
      (os : Ops) (t : State)
      → IsReady t
      → t.end_is_miss ≡ true
      → Calls.AllOps Follows os
      → Means t (one_of os) (or_loop go os t)
  unfolding or_loop
  or_loop-Means no_ops t r e all = none_left
  or_loop-Means (op o os) t r e ((fit, means), all) =
      MeansAt-on_result (Calls.min_len o) t.input (one_of (op o os)) t.pos o t (go t o) matched
        (or_loop go os) (fit t r) (means t r e) (λ u k x. first x)
        (λ u k x.
          MeansAt-map t.input (one_of os) (one_of (op o os)) t.pos t.pos (or_loop go os u)
            (λ z y. later x y)
            (subst (λ i. MeansAt i (one_of os) t.pos (or_loop go os u)) k.input
              (subst (λ p. MeansAt u.input (one_of os) p (or_loop go os u)) k.pos
                (or_loop-Means os u (Restores-IsReady t u r k) (k.flag ∙ e) all))))

  pub rep_loop-Means :
      (least most : ℕ) (o : Op) (sp fuel count : ℕ) (t : State)
      → IsReady t
      → t.end_is_miss ≡ true
      → Follows o
      → Means t (rounds least most o count) (rep_loop go least most o sp fuel count t)
  unfolding rep_loop
  rep_loop-Means least most o sp zero count t r e all = tt
  rep_loop-Means least most o sp (suc fuel) count t r e (fit, means) =
      let l = Calls.min_len o in
      let g = rounds least most o count in
      let next = λ (u : State). rep_loop go least most o sp fuel (count + 1) u in
      if_elim (Means t g) (ltb count most)
        (λ lt.
          MeansAt-on_result l t.input g t.pos o t (go t o)
            (λ u. if u.pos == t.pos then rep_end least sp count u else next u)
            (rep_end least sp count) (fit t r) (means t r e)
            (λ u k x.
              if_elim (Means t g) (u.pos == t.pos)
                (λ same.
                  let at : u.pos ≡ t.pos = ground (arith, same) in
                  rep_end-Means t.input g t.pos least sp count u at (
                    round_empty (ground (arith, lt))
                      (subst (λ q. Takes t.input (pat o) t.pos (some q)) at x) refl))
                (λ moved.
                  MeansAt-map t.input (rounds least most o (count + 1)) g u.pos t.pos (next u)
                    (λ z y. round_step (ground (arith, lt)) x (ground (arith, moved)) y)
                    (subst (λ i. MeansAt i (rounds least most o (count + 1)) u.pos (next u)) k.input
                      (rep_loop-Means least most o sp fuel (count + 1) u (Advances-IsReady l t u k)
                        (k.flag ∙ e) (fit, means)))))
            (λ u k x.
              rep_end-Means t.input g t.pos least sp count u k.pos
                (round_miss (ground (arith, lt)) x refl)))
        (λ full.
          rep_end-Means t.input g t.pos least sp count t refl
            (round_full (ground (arith, full)) refl))
