-- ===== src/Tree/Reads.antt =====
-- What ci_tree_get reads back behind ci_tree_set and ci_tree_delete.
use Prim.Native.Nat.{Ordering}
use blueberry.Prelude.{
  ℕ, ◌≡◌, refl, ap, ◌∙◌, subst, inl, inr, Bool, true, false, Option, none, some, List, [], ◌∷◌,
  arith,
}
use blueberry.Tree.Order.{
  Kv, IsOrder, IsSorted, lookup, remove, Below, lookup-insert_self, Ordering-cases, All-map,
  lookup-stop,
}
use blueberry.Tree.Node.{Node}
use blueberry.Tree.State.{Tree, IsTree, IsRoot, pairs, pairs_of}
use blueberry.Tree.Find.{get, IsGot, value, get-IsGot}
use blueberry.Tree.Set.{set}
use blueberry.Tree.Set.Stores.{IsStored, set-IsStored}
use blueberry.Tree.Delete.{delete}
use blueberry.Tree.Delete.Erases.{IsErased, delete-IsErased}

module _ (cmp : ℕ → ℕ → Ordering) where
  pairs_of-IsSorted :
      (r : Option Node) (height : ℕ) → IsRoot cmp r height → IsSorted cmp (pairs_of r)
  pairs_of-IsSorted none height e = tt
  pairs_of-IsSorted (some n) height (h, b, l, u, s, e) = s

  lookup-remove_self :
      (o : IsOrder cmp) (k : ℕ) (xs : List Kv)
      → IsSorted cmp xs
      → lookup cmp k (remove cmp k xs) ≡ none
  unfolding lookup remove
  lookup-remove_self o k [] s = refl
  lookup-remove_self o k (x ∷ xs) (b, s) = elim (Ordering-cases (cmp k x.key)) [
    | inl lt ↦ ground (arith, lt)
    | inr (inl eq) ↦
        let low =
          All-map cmp (Below cmp x.key) (Below cmp k) xs (λ y h. o.cmp-congr k x.key y.key eq ∙ h)
            b in
        let gone = lookup-stop cmp k [] xs low in ground (arith, eq, gone)
    | inr (inr gt) ↦ let ih = lookup-remove_self o k xs s in ground (arith, gt, ih)
  ]

  -- For a total order of the keys, when ci_tree_set on a well-formed tree returned 1, ci_tree_get
  -- gives the value that was set for the key.
  pub get-set :
      (o : IsOrder cmp) (alloc : ℕ → Bool) (used used' : ℕ) (t t' : Tree) (item : Kv)
      → IsTree cmp t
      → set alloc cmp used t item ≡ some (true, t', used')
      → IsGot cmp (some item.val) t' (get cmp t' item.key)
  get-set o alloc used used' t t' item x e =
      let (x', same) =
        subst (IsStored cmp alloc (pairs t) item) e (set-IsStored cmp alloc o used t item x) in
      subst (λ v. IsGot cmp v t' (get cmp t' item.key))
        (ap (λ xs. value cmp (lookup cmp item.key xs)) same
          ∙ ap (value cmp) (lookup-insert_self cmp o item (pairs t)))
        (get-IsGot cmp o t' item.key x')

  -- For a total order of the keys, once ci_tree_delete was called on a well-formed tree for a key,
  -- ci_tree_get gives NULL for it, whatever was returned.
  pub get-delete :
      (o : IsOrder cmp) (t t' : Tree) (key : ℕ) (ok : Bool)
      → IsTree cmp t
      → delete cmp t key ≡ some (ok, t')
      → IsGot cmp none t' (get cmp t' key)
  get-delete o t t' key ok x e =
      by_return ok (subst (IsErased cmp (pairs t) key) e (delete-IsErased cmp o t key x))
    where
      read : IsTree cmp t' → lookup cmp key (pairs t') ≡ none → IsGot cmp none t' (get cmp t' key)
      read x' f =
          subst (λ v. IsGot cmp v t' (get cmp t' key)) (ap (value cmp) f)
            (get-IsGot cmp o t' key x')

      by_return :
          (b : Bool)
          → IsErased cmp (pairs t) key (some (b, t'))
          → IsGot cmp none t' (get cmp t' key)
      by_return true (x', same, here) = read x' (
          ap (lookup cmp key) same
          ∙ lookup-remove_self o key (pairs t) (pairs_of-IsSorted t.root t.height x.shape))
      by_return false (x', same, gone) = read x' (ap (lookup cmp key) same ∙ gone)
