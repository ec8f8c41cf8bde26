-- ===== src/Cma/Tests.antt =====
-- Concrete patterns and texts, and the theorems at them.
use blueberry.Prelude.{◌≡◌, ◌||◌, refl, true, false, List, [], ◌∷◌, arith}
use blueberry.Cma.{
  Op, no_ops, op, str_op, set_op, and_op, or_op, not_op, rep_op, rep_set_op, cap_op, ref_op,
  numbered, State, missed, Hooks, call,
}
use blueberry.Cma.Keeps.{IsReady, Kept}
use blueberry.Cma.Calls.{min_len}
use blueberry.Cma.Contract.{call-Contract, KeepsExec}
use blueberry.Cma.Ends.{depth, call_ends}
use blueberry.Cma.Build.{start, run, no_bits, fill_str}
use blueberry.Cma.Build.Fast.{Alike, init_rep-Alike}
use blueberry.Cma.Build.Sets.{Item, one, span, covered, fill_str-written}
use blueberry.Cma.Build

-- `(`, `)` and `x`: an x in as many parentheses as there are
abbrev nested : Op
nested = or_op (
    op (and_op (op (str_op (40 ∷ []) false) (op (ref_op 0) (op (str_op (41 ∷ []) false) no_ops))))
      (op (cap_op (numbered 7) (str_op (120 ∷ []) false)) no_ops))

abbrev hooks : Hooks
hooks = record { resolve = λ r. nested; accept = λ c s. true; exec = λ e s. missed s }

abbrev in_parentheses : State
in_parentheses = record {
  input = 40 ∷ 40 ∷ 120 ∷ 41 ∷ 41 ∷ [];
  pos = 0;
  saves = [];
  caps = [];
  farthest = 0;
  end_is_miss = true;
}

keeps_exec : KeepsExec hooks
keeps_exec e s r = record {
  input = refl;
  flag = refl;
  saves = refl;
  pos = refl;
  caps = refl;
  far = omega arith;
  reached = r.reached;
}

in_parentheses-IsReady : IsReady in_parentheses
in_parentheses-IsReady = record { inside = omega arith; reached = omega arith }

call-Contract_example :
    Kept (Unit {0}) (min_len nested) in_parentheses (call hooks 12 in_parentheses nested)
call-Contract_example =
    call-Contract hooks keeps_exec 12 nested in_parentheses in_parentheses-IsReady

-- one lower-case letter or more that is not `b`, and `ab`
abbrev letters : Op
letters = and_op (
    op
      (rep_op 1 5 (
        and_op (
          op (not_op (str_op (98 ∷ []) false))
            (op (set_op (Build.fill_range 97 122 no_bits)) no_ops))))
      (op (str_op (65 ∷ 66 ∷ []) true) no_ops))

abbrev ccab : State
ccab = record {
  input = 99 ∷ 99 ∷ 97 ∷ 98 ∷ [];
  pos = 1;
  saves = [];
  caps = [];
  farthest = 0;
  end_is_miss = true;
}

ccab-IsReady : IsReady ccab
ccab-IsReady = record { inside = omega arith; reached = omega arith }

call_ends_example : Kept ⊥ (min_len letters) ccab (call hooks 5 ccab letters)
unfolding depth
call_ends_example =
    call_ends hooks letters 5 (omega arith) ((tt, (tt, tt)), (tt, tt)) ccab ccab-IsReady

init_rep-Alike_example :
    Alike
      (call hooks 2 ccab (rep_op 2 8 (set_op (Build.fill_range 97 99 no_bits))))
      (call hooks 2 ccab (rep_set_op 2 8 (Build.fill_range 97 99 no_bits)))
init_rep-Alike_example =
    init_rep-Alike hooks 0 2 8 (Build.fill_range 97 99 no_bits) ccab ccab-IsReady

-- R("a-z_9-0")
abbrev items : List Item
items = span 97 122 ∷ one 95 ∷ span 57 48 ∷ []

fill_str-written_example :
    fill_str (97 ∷ 45 ∷ 122 ∷ 95 ∷ 57 ∷ 45 ∷ 48 ∷ []) no_bits 53 ≡ (no_bits 53 || covered items 53)
fill_str-written_example =
    fill_str-written items no_bits ((λ e. cc), ((λ e. cc), ((λ e. cc), tt))) 53
