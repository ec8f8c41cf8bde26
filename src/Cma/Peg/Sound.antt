-- ===== src/Cma/Peg/Sound.antt =====
-- The matcher refines the grammar's semantics.
use blueberry.Prelude.{
  ℕ, zero, suc, ◌+◌, ◌≤◌, ◌≡◌, refl, sym, ap, Bool, true, none, some, length, set, ◌-◌, if_elim,
  arith, subst,
}
use blueberry.Cma.{
  Bytes, Tag, untagged, named, numbered, callback, Op, Ops, no_ops, op, str_op, set_op, and_op,
  or_op, not_op, ahead_op, rep_op, rep_set_op, cap_op, ref_op, exec_op, endl_op, noop_op, Capture,
  State, Outcome, matched, missed, jumped, no_fuel, Hooks, push, backtrack, ret_missed,
  match_rep_set, accepted, captured, opened, call,
}
use blueberry.Cma.Keeps.{IsReady, Kept, Restores-Extends, Advances-Extends, backtrack-Restores}
use blueberry.Cma.Calls
use blueberry.Cma.Leaves
use blueberry.Cma.Contract.{Runs, call-Kept}
use blueberry.Cma.Ends.{IsPlain, ArePlain, depth, Runs-depth}
use blueberry.Cma.Build.Fast.{Alike, init_rep-Alike}
use blueberry.Cma.Peg.{
  Goal, pat, each, one_of, rounds, Takes, noop, in_turn, choice, not_hit, not_miss, ahead_hit,
  ahead_miss, repeated, repeated_set,
}
use blueberry.Cma.Peg
use blueberry.Cma.Peg.Leaves.{MeansAt, Means, match_str-Means, match_set-Means, match_endl-Means}
use blueberry.Cma.Peg.Loops.{
  MeansAt-map, MeansAt-on_result, Follows, and_loop-Means, or_loop-Means, rep_loop-Means,
}

Alike-MeansAt :
    (input : Bytes) (g : Goal) (p : ℕ) (out out' : Outcome)
    → Alike out out'
    → MeansAt input g p out
    → MeansAt input g p out'
Alike-MeansAt input g p (matched t) (matched u) e x =
    subst (λ q. Takes input g p (some q)) (ap (λ s. s.pos) e) x
Alike-MeansAt input g p (missed t) (missed u) e x = x
Alike-MeansAt input g p (jumped t) (jumped u) e x = tt
Alike-MeansAt input g p (matched t) (missed u) e x = absurd e
Alike-MeansAt input g p (matched t) (jumped u) e x = absurd e
Alike-MeansAt input g p (matched t) no_fuel e x = absurd e
Alike-MeansAt input g p (missed t) (matched u) e x = absurd e
Alike-MeansAt input g p (missed t) (jumped u) e x = absurd e
Alike-MeansAt input g p (missed t) no_fuel e x = absurd e
Alike-MeansAt input g p (jumped t) (matched u) e x = absurd e
Alike-MeansAt input g p (jumped t) (missed u) e x = absurd e
Alike-MeansAt input g p (jumped t) no_fuel e x = absurd e
Alike-MeansAt input g p no_fuel out' e x = absurd e

-- no callback rejects a capture
abbrev pub Accepts : Hooks → Type 0
Accepts hooks = (c : ℕ) (s : State) → hooks.accept c s ≡ true

module _ (hooks : Hooks) (accepts : Accepts hooks) where
  all_accepted : (tag : Tag) (s : State) → accepted hooks tag s ≡ true
  all_accepted untagged s = refl
  all_accepted (named n) s = refl
  all_accepted (numbered n) s = refl
  all_accepted (callback c) s = accepts c s

  captured-Means :
      (tag : Tag) (g : Goal) (s t : State)
      → Takes s.input g s.pos (some t.pos)
      → Means s g (captured hooks tag s t)
  unfolding captured
  captured-Means tag g s t x =
      let cap : Capture = record {
        tag = tag;
        start = s.pos;
        stop = t.pos;
        nested = length t.caps - (length s.caps + 1);
      } in
      let kept : State = record t { caps = set t.caps (length s.caps) cap } in
      if_elim (Means s g) (accepted hooks tag kept) (λ _. x)
        (λ e. absurd (ground (arith, e, all_accepted tag kept)))

  set-Follows : (bits : ℕ → Bool) → Follows (call hooks 1) (set_op bits)
  unfolding call Calls.min_len
  set-Follows bits = ((λ u r. Leaves.match_set-Kept ⊥ bits u r), (λ u r e. match_set-Means bits u))

  rep_set-Means :
      (least most : ℕ) (bits : ℕ → Bool) (s : State)
      → IsReady s
      → s.end_is_miss ≡ true
      → Means s (pat (rep_set_op least most bits)) (match_rep_set least most bits s)
  unfolding call
  rep_set-Means least most bits s r e =
      let slow = call hooks 2 s (rep_op least most (set_op bits)) in
      MeansAt-map s.input (rounds least most (set_op bits) 0) (pat (rep_set_op least most bits))
        s.pos s.pos (match_rep_set least most bits s) (λ z x. repeated_set x)
        (Alike-MeansAt s.input (rounds least most (set_op bits) 0) s.pos slow
          (match_rep_set least most bits s) (init_rep-Alike hooks 0 least most bits s r)
          (rep_loop-Means (call hooks 1) least most (set_op bits) (length s.saves)
            (length s.input + 2) 0 (push s) (Calls.push-IsReady ⊥ s r) e (set-Follows bits)))

  all_follow :
      (fuel : ℕ) (os : Ops)
      → ((o : Op) → Runs ⊥ hooks fuel o → IsPlain o → Follows (call hooks fuel) o)
      → Calls.AllOps (Runs ⊥ hooks fuel) os
      → ArePlain os
      → Calls.AllOps (Follows (call hooks fuel)) os
  all_follow fuel no_ops f x y = tt
  all_follow fuel (op o os) f (x, xs) (y, ys) = (f o x y, all_follow fuel os f xs ys)

  call-Means :
      (fuel : ℕ) (o : Op) (s : State)
      → IsReady s
      → s.end_is_miss ≡ true
      → Runs ⊥ hooks fuel o
      → IsPlain o
      → Means s (pat o) (call hooks fuel s o)
  unfolding call
  call-Means zero o s r e runs plain = tt
  call-Means (suc fuel) (str_op buf i) s r e runs plain = match_str-Means buf i s r
  call-Means (suc fuel) (set_op bits) s r e runs plain = match_set-Means bits s
  call-Means (suc fuel) endl_op s r e runs plain = match_endl-Means s
  call-Means (suc fuel) noop_op s r e runs plain = noop
  call-Means (suc fuel) (rep_set_op least most bits) s r e runs plain =
      rep_set-Means least most bits s r e
  call-Means (suc fuel) (ref_op k) s r e runs plain = absurd plain
  call-Means (suc fuel) (exec_op k) s r e runs plain = absurd plain
  call-Means (suc fuel) (and_op os) s r e runs plain =
      let follow : (o : Op) → Runs ⊥ hooks fuel o → IsPlain o → Follows (call hooks fuel) o =
        λ o x y.
          ((λ u ru. call-Kept ⊥ hooks fuel o u ru x), (λ u ru eu. call-Means fuel o u ru eu x y)) in
      MeansAt-map s.input (each os) (pat (and_op os)) s.pos s.pos
        (call hooks (suc fuel) s (and_op os)) (λ z x. in_turn x)
        (and_loop-Means (call hooks fuel) os (length s.saves) (push s) (Calls.push-IsReady ⊥ s r) e
          (all_follow fuel os follow runs plain))
  call-Means (suc fuel) (or_op os) s r e runs plain =
      let follow : (o : Op) → Runs ⊥ hooks fuel o → IsPlain o → Follows (call hooks fuel) o =
        λ o x y.
          ((λ u ru. call-Kept ⊥ hooks fuel o u ru x), (λ u ru eu. call-Means fuel o u ru eu x y)) in
      MeansAt-map s.input (one_of os) (pat (or_op os)) s.pos s.pos
        (call hooks (suc fuel) s (or_op os)) (λ z x. choice x)
        (or_loop-Means (call hooks fuel) os s r e (all_follow fuel os follow runs plain))
  call-Means (suc fuel) (not_op p) s r e runs plain =
      let ready = Calls.push-IsReady ⊥ s r in
      MeansAt-on_result (Calls.min_len p) s.input (pat (not_op p)) s.pos p (push s)
        (call hooks fuel (push s) p) (λ t. ret_missed (backtrack (length s.saves) t))
        (λ t. matched (backtrack (length s.saves) t)) (call-Kept ⊥ hooks fuel p (push s) ready runs)
        (call-Means fuel p (push s) ready e runs plain) (λ u k x. not_hit x)
        (λ u k x.
          subst (λ q. Takes s.input (pat (not_op p)) s.pos (some q))
            (sym (backtrack-Restores s u r (Restores-Extends (push s) u k)).pos) (not_miss x))
  call-Means (suc fuel) (ahead_op p) s r e runs plain =
      let ready = Calls.push-IsReady ⊥ s r in
      MeansAt-on_result (Calls.min_len p) s.input (pat (ahead_op p)) s.pos p (push s)
        (call hooks fuel (push s) p) (λ t. matched (backtrack (length s.saves) t))
        (λ t. ret_missed (backtrack (length s.saves) t))
        (call-Kept ⊥ hooks fuel p (push s) ready runs)
        (call-Means fuel p (push s) ready e runs plain)
        (λ u k x.
          subst (λ q. Takes s.input (pat (ahead_op p)) s.pos (some q))
            (sym (backtrack-Restores s u r (Advances-Extends (Calls.min_len p) (push s) u k)).pos)
            (ahead_hit x))
        (λ u k x. ahead_miss x)
  call-Means (suc fuel) (rep_op least most p) s r e runs plain =
      MeansAt-map s.input (rounds least most p 0) (pat (rep_op least most p)) s.pos s.pos
        (call hooks (suc fuel) s (rep_op least most p)) (λ z x. repeated x)
        (rep_loop-Means (call hooks fuel) least most p (length s.saves) (length s.input + 2) 0
          (push s) (Calls.push-IsReady ⊥ s r) e
          (
            (λ u ru. call-Kept ⊥ hooks fuel p u ru runs),
            (λ u ru eu. call-Means fuel p u ru eu runs plain),
          ))
  call-Means (suc fuel) (cap_op tag p) s r e runs plain =
      let ready : IsReady (opened hooks s) = record { inside = r.inside; reached = r.reached } in
      MeansAt-on_result (Calls.min_len p) s.input (pat (cap_op tag p)) s.pos p (opened hooks s)
        (call hooks fuel (opened hooks s) p) (captured hooks tag s)
        (λ t. ret_missed (backtrack (length s.saves) t))
        (call-Kept ⊥ hooks fuel p (opened hooks s) ready runs)
        (call-Means fuel p (opened hooks s) ready e runs plain)
        (λ u k x. captured-Means tag (pat (cap_op tag p)) s u (Peg.captured x))
        (λ u k x. Peg.captured x)

-- the outcome is a match or a miss, and the semantics has it
abbrev pub Agrees : State → Op → Outcome → Type 0
Agrees s o (matched t) = Takes s.input (pat o) s.pos (some t.pos)
Agrees s o (missed t) = Takes s.input (pat o) s.pos none
Agrees s o (jumped t) = ⊥
Agrees s o no_fuel = ⊥

Kept-Agrees :
    (l : ℕ) (s : State) (o : Op) (out : Outcome)
    → s.end_is_miss ≡ true
    → Kept ⊥ l s out
    → Means s (pat o) out
    → Agrees s o out
Kept-Agrees l s o (matched t) e k x = x
Kept-Agrees l s o (missed t) e k x = x
Kept-Agrees l s o (jumped t) e k x = ground (arith, e, k)
Kept-Agrees l s o no_fuel e k x = k

-- The matcher refines the semantics of parsing expression grammars, for a pattern without references and
-- functions of the user, whose callbacks reject nothing, when the calls may nest as deep as the pattern
-- and CMA_END_IS_MISS is on: from any position within any input there is a match that ends where the
-- semantics says, or a miss where it says that the pattern does not match.
pub call-Agrees :
    (hooks : Hooks)
    → Accepts hooks
    → (o : Op) (fuel : ℕ) → depth o ≤ fuel
    → IsPlain o
    → (s : State) → IsReady s
    → s.end_is_miss ≡ true
    → Agrees s o (call hooks fuel s o)
call-Agrees hooks accepts o fuel le plain s r e =
    let runs = Runs-depth hooks o fuel le plain in
    Kept-Agrees (Calls.min_len o) s o (call hooks fuel s o) e (call-Kept ⊥ hooks fuel o s r runs)
      (call-Means hooks accepts fuel o s r e runs plain)
