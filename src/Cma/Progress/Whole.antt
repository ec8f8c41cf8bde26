-- ===== src/Cma/Progress/Whole.antt =====
-- A grammar of the form `A(MIN(0, token), ENDL())` matches the whole input when the last alternative
-- of the token takes any byte.
use blueberry.Prelude.{
  set, ℕ, suc, ◌+◌, ◌-◌, ◌≤◌, ◌≡◌, sym, ap, ◌∙◌, Bool, true, length, arith, subst,
}
use blueberry.Cma.{
  Ops, no_ops, op, rep_op, or_op, and_op, endl_op, rep_set_op, cap_op, numbered, State, Outcome,
  matched, Hooks, on_result, push, backtrack, commit, ret_missed, match_endl, and_loop, call,
  captured, opened,
}
use blueberry.Cma.Keeps.{IsReady, Advances, Kept, Advances-self}
use blueberry.Cma.Calls
use blueberry.Cma.Contract.{Runs, call-Kept}
use blueberry.Cma.Ends.{ArePlain, depth_all, Runs-depth_all}
use blueberry.Cma.Progress.{HasAll, Hits, LastHits, rep_one, or_loop-Hits, rep_loop_whole}

-- the last alternative captures one byte of the set
abbrev pub LastAny : (ℕ → Bool) → Ops → Type 0
LastAny bits no_ops = ⊥
LastAny bits (op o no_ops) = (id : ℕ) × (o ≡ cap_op (numbered id) (rep_set_op 1 1 bits))
LastAny bits (op o (op p os)) = LastAny bits (op p os)

endl_matched : (t : State) → t.pos ≡ length t.input → match_endl t ≡ matched t
unfolding match_endl
endl_matched t h = ground (arith, h)

module _ (hooks : Hooks) (bits : ℕ → Bool) where
  any-Hits :
      (fuel id : ℕ)
      → Hits
          (call hooks (suc (suc fuel)))
          (HasAll bits)
          (cap_op (numbered id) (rep_set_op 1 1 bits))
  unfolding call captured
  any-Hits fuel id u r e lt h =
      let (t, x) = rep_one bits (opened hooks u) lt h in
      (
        commit (length u.saves) (record t {
          caps = set t.caps (length u.caps) (record {
            tag = numbered id;
            start = u.pos;
            stop = t.pos;
            nested = length t.caps - (length u.caps + 1);
          });
        }),
        ap
            (λ out.
              on_result out (captured hooks (numbered id) u)
                (λ t. ret_missed (backtrack (length u.saves) t)))
            x,
      )

  LastAny-LastHits :
      (fuel : ℕ) (os : Ops)
      → LastAny bits os
      → LastHits (call hooks (suc (suc fuel))) (HasAll bits) os
  LastAny-LastHits fuel no_ops h = h
  LastAny-LastHits fuel (op o no_ops) (id, e) =
      subst (Hits (call hooks (suc (suc fuel))) (HasAll bits)) (sym e) (any-Hits fuel id)
  LastAny-LastHits fuel (op o (op p os)) h = LastAny-LastHits fuel (op p os) h

  pub call_whole :
      (os : Ops) (most fuel : ℕ) (s : State)
      → IsReady s
      → s.end_is_miss ≡ true
      → s.pos ≡ 0
      → HasAll bits s.input
      → length s.input ≤ most
      → 1 ≤ Calls.min_len (or_op os)
      → ArePlain os
      → depth_all os ≤ suc (suc fuel)
      → LastAny bits os
      → (t : State) × (call hooks
            (suc (suc (suc (suc (suc fuel)))))
            s
            (and_op (op (rep_op 0 most (or_op os)) (op endl_op no_ops)))
          ≡ matched t)
        × (t.pos ≡ length s.input)
  unfolding call and_loop match_endl
  call_whole os most fuel s r e start all fit one plain deep last =
      let f : ℕ = suc (suc fuel) in
      let runs = Runs-depth_all hooks os f deep plain in
      let o = or_op os in
      let fits =
        Calls.AllOps-map (Runs ⊥ hooks f) (Calls.Fits ⊥ (call hooks f)) os
          (λ p y u ru. call-Kept ⊥ hooks f p u ru y) runs in
      let hits = LastAny-LastHits fuel os last in
      let ready = Calls.push-IsReady ⊥ s r in
      let (u, x, at) =
        rep_loop_whole (call hooks (suc f)) (HasAll bits) most o (length s.input + 2) 0 (push s)
          (push (push s)) ready e all one
          (Advances-self (push (push s)) (Calls.push-IsReady ⊥ (push s) ready)) (omega arith)
          (omega (arith, fit)) (λ u ru. call-Kept ⊥ hooks (suc f) o u ru runs)
          (λ u ru eu lt p. or_loop-Hits (call hooks f) (HasAll bits) os u ru eu lt p fits hits) in
      let k : Advances (Calls.min_len (rep_op 0 most o)) (push s) u =
        subst (Kept ⊥ (Calls.min_len (rep_op 0 most o)) (push s)) x
          (call-Kept ⊥ hooks (suc (suc f)) (rep_op 0 most o) (push s) ready runs) in
      let behind = λ (out : Outcome).
        on_result out (and_loop (call hooks (suc (suc f))) no_ops (length s.saves))
          (λ t. ret_missed (backtrack (length s.saves) t)) in
      let rest = λ (out : Outcome).
        on_result out (and_loop (call hooks (suc (suc f))) (op endl_op no_ops) (length s.saves))
          (λ t. ret_missed (backtrack (length s.saves) t)) in
      (
        commit (length s.saves) u,
        ap rest x ∙ ap behind (endl_matched u (at ∙ sym (ap length k.input))),
        at,
      )
