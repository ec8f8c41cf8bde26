-- ===== src/Tree/Tests.antt =====
-- The theorems on the tree, applied to small trees whose keys are ordered as numbers.
use Prim.Native.Nat.{compare}
use blueberry.Prelude.{ℕ, ◌+◌, ◌≡◌, refl, ◌∷◌, [], List, true, none, some, arith}
use blueberry.Tree.Order.{Kv, IsOrder, IsSorted, lookup}
use blueberry.Tree.Node.{leaf}
use blueberry.Tree.State.{Tree, IsTree, pairs, levels}
use blueberry.Tree.Find.{find_kv-IsFound, get-IsGot, IsFound, IsGot, find_kv, get, value}
use blueberry.Tree.Search.{bsearch, bsearch_hint, noted, hint_loop}
use blueberry.Tree.Search.Places.{IsPlace, bsearch_hint-IsPlace, bsearch_hint-bsearch}
use blueberry.Tree.Node.Contents.{contents}
use mathlib.Core.List.{reverse}
use blueberry.Prelude.{take}
use blueberry.Tree.Iter.{iter_new, forward, backward}
use blueberry.Tree.Iter.Depth.{IsShallow, step-bounded}
use blueberry.Tree.Iter.Calls.{calls, calls-forward, calls-backward}
use blueberry.Tree.Reads.{get-set, get-delete}
use blueberry.Tree.Set.{set, set_at, set_loop, set_root, node_set, set_in}
use blueberry.Tree.Set.Stores.{set-IsStored, IsStored}
use blueberry.Tree.Delete.{
  delete, delete_at, delete_root, node_delete, delete_in, pick, lower, noted_hint,
}
use blueberry.Tree.Delete.Erases.{delete-IsErased, IsErased}

compare-IsOrder : IsOrder compare
compare-IsOrder = record {
  cmp-flip = λ a b. ground arith;
  cmp-trans = λ a b c h k. ground (arith, h, k);
  cmp-congr = λ a b c h. ground (arith, h);
}

abbrev pair : ℕ → Kv
pair k = record { key = k; val = k + 100 }

abbrev two : Tree
two = record { root = some (leaf (pair 3 ∷ pair 7 ∷ [])); count = 2; height = 1; hint = 0 ∷ [] }

two-IsTree : IsTree compare two
unfolding contents
two-IsTree = record {
  shape = (0, tt, omega arith, omega arith, ((refl, tt), (tt, tt)), refl);
  counted = refl;
}

abbrev items_two : List Kv
items_two = pair 3 ∷ pair 7 ∷ []

items_two-IsSorted : IsSorted compare items_two
items_two-IsSorted = ((refl, tt), (tt, tt))

bsearch_hint-IsPlace_example :
    IsPlace compare items_two 7 (bsearch_hint compare (1 ∷ []) items_two 7 0).0
bsearch_hint-IsPlace_example =
    bsearch_hint-IsPlace compare compare-IsOrder items_two items_two-IsSorted 7 (1 ∷ []) 0

bsearch_hint-bsearch_example :
    (bsearch_hint compare (1 ∷ []) items_two 5 0).0 ≡ bsearch compare items_two 5
bsearch_hint-bsearch_example =
    bsearch_hint-bsearch compare compare-IsOrder items_two items_two-IsSorted 5 (1 ∷ []) 0

find_kv-IsFound_example : IsFound compare (lookup compare 7 (pairs two)) (find_kv compare two 7)
find_kv-IsFound_example = find_kv-IsFound compare compare-IsOrder two 7 two-IsTree

get-IsGot_example :
    IsGot compare (value compare (lookup compare 3 (pairs two))) two (get compare two 3)
get-IsGot_example = get-IsGot compare compare-IsOrder two 3 two-IsTree

set-IsStored_example :
    IsStored compare (λ _. true) (pairs two) (pair 5) (set (λ _. true) compare 0 two (pair 5))
set-IsStored_example = set-IsStored compare (λ _. true) compare-IsOrder 0 two (pair 5) two-IsTree

delete-IsErased_example : IsErased compare (pairs two) 3 (delete compare two 3)
delete-IsErased_example = delete-IsErased compare compare-IsOrder two 3 two-IsTree

abbrev three : Tree
three = record {
  root = some (leaf (pair 3 ∷ pair 5 ∷ pair 7 ∷ []));
  count = 3;
  height = 1;
  hint = 1 ∷ [];
}

run_of_set : set (λ _. true) compare 0 two (pair 5) ≡ some (true, three, 0)
unfolding set_at set_loop set_root node_set set_in levels bsearch_hint noted hint_loop contents
run_of_set = refl

get-set_example : IsGot compare (some 105) three (get compare three 5)
get-set_example =
    get-set compare compare-IsOrder (λ _. true) 0 0 two three (pair 5) two-IsTree run_of_set

abbrev one : Tree
one = record { root = some (leaf (pair 7 ∷ [])); count = 1; height = 1; hint = 0 ∷ [] }

run_of_delete : delete compare two 3 ≡ some (true, one)
unfolding delete_at delete_root node_delete delete_in pick lower noted_hint levels bsearch_hint
    noted hint_loop contents
run_of_delete = refl

get-delete_example : IsGot compare none one (get compare one 3)
get-delete_example = get-delete compare compare-IsOrder two one 3 true two-IsTree run_of_delete

calls-forward_example : calls forward 3 (iter_new two.root) ≡ take 3 (pairs two)
calls-forward_example = calls-forward two 3

calls-backward_example : calls backward 1 (iter_new two.root) ≡ take 1 (reverse (pairs two))
calls-backward_example = calls-backward two 1

step-bounded_example :
    IsShallow 0 (forward (iter_new two.root)).1 × IsShallow 0 (backward (iter_new two.root)).1
step-bounded_example =
    step-bounded 0 (iter_new two.root)
      (record { rooted = tt; chain = tt; fresh = λ _. refl; bounded = omega arith })
