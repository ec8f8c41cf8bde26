-- ===== src/Bytecode/Unit/Table.antt =====
-- The string table of encoder.c: what interning a string does to the table.
use blueberry.Prelude.{
  ℕ, zero, suc, ◌+◌, ◌-◌, ◌^◌, ◌≤◌, ◌<◌, ◌≡◌, refl, sym, ap, ◌⊎◌, inl, inr, ◌∙◌, false, List, [],
  ◌∷◌, ◌++◌, Option, none, some, if_elim, length, get_elem?, All, arith, length-append, eq_list,
  eq_list_sound, eq_list_self,
}
use blueberry.Bytecode.Unit.{intern_find, interned, intern, intern_all}

-- The string stands in the table.
abbrev pub In : List ℕ → List (List ℕ) → Type 0
In s ts = (k : ℕ) × (get_elem? ts k ≡ some s)

get_elem?-lt : (ts : List (List ℕ)) (k : ℕ) {s : List ℕ} → get_elem? ts k ≡ some s → k < length ts
get_elem?-lt [] k h = cc
get_elem?-lt (t ∷ ts) zero h = omega arith
get_elem?-lt (t ∷ ts) (suc k) h = omega (arith, get_elem?-lt ts k h)

get_elem?-left :
    (ts us : List (List ℕ)) (k : ℕ) {s : List ℕ}
    → get_elem? ts k ≡ some s
    → get_elem? (ts ++ us) k ≡ some s
get_elem?-left [] us k h = cc
get_elem?-left (t ∷ ts) us zero h = h
get_elem?-left (t ∷ ts) us (suc k) h = get_elem?-left ts us k h

get_elem?-last : (ts : List (List ℕ)) (s : List ℕ) → get_elem? (ts ++ s ∷ []) (length ts) ≡ some s
get_elem?-last [] s = refl
get_elem?-last (t ∷ ts) s = get_elem?-last ts s

appended_cases :
    (ts : List (List ℕ)) (s : List ℕ) (k : ℕ) {t : List ℕ}
    → get_elem? (ts ++ s ∷ []) k ≡ some t
    → (get_elem? ts k ≡ some t) ⊎ ((k ≡ length ts) × (t ≡ s))
appended_cases [] s zero h = inr (refl, cc)
appended_cases [] s (suc k) h = cc
appended_cases (u ∷ ts) s zero h = inl h
appended_cases (u ∷ ts) s (suc k) h = elim (appended_cases ts s k h) [
  | inl e ↦ inl e
  | inr (e, q) ↦ inr (ap suc e, q)
]

-- What the search from index `i` on finds.
abbrev Found : List (List ℕ) → List ℕ → ℕ → Option ℕ → Type 0
Found ts s i none = (k : ℕ) → get_elem? ts k ≡ some s → ⊥
Found ts s i (some j) = (i ≤ j) × (get_elem? ts (j - i) ≡ some s)

absent :
    (t : List ℕ) (ts : List (List ℕ)) (s : List ℕ)
    → eq_list t s ≡ false
    → ((k : ℕ) → get_elem? ts k ≡ some s → ⊥)
    → (k : ℕ) → get_elem? (t ∷ ts) k ≡ some s
    → ⊥
absent t ts s differs h zero e = absurd (cc (e, differs, eq_list_self s))
absent t ts s differs h (suc k) e = h k e

Found-later :
    (t : List ℕ) (ts : List (List ℕ)) (s : List ℕ) (i : ℕ) (r : Option ℕ)
    → eq_list t s ≡ false
    → Found ts s (i + 1) r
    → Found (t ∷ ts) s i r
Found-later t ts s i none differs h = λ k. absent t ts s differs h k
Found-later t ts s i (some j) differs (le, e) =
    (omega arith, ap (get_elem? (t ∷ ts)) {y = suc (j - (i + 1))} (omega arith) ∙ e)

intern_find-Found : (ts : List (List ℕ)) (s : List ℕ) (i : ℕ) → Found ts s i (intern_find ts s i)
unfolding intern_find
intern_find-Found [] s i = λ k e. cc
intern_find-Found (t ∷ ts) s i =
    if_elim (Found (t ∷ ts) s i) (eq_list t s)
      (λ e. (
        omega arith,
        ap (get_elem? (t ∷ ts)) {y = 0} (omega arith) ∙ ap (λ u. some u) (eq_list_sound t s e),
      ))
      λ e. Found-later t ts s i (intern_find ts s (i + 1)) e (intern_find-Found ts s (i + 1))

interned-le :
    (ts : List (List ℕ)) (s : List ℕ) (r : Option ℕ) → length ts ≤ length (interned ts s r).1
interned-le ts s none = omega (arith, length-append ts (s ∷ []))
interned-le ts s (some i) = omega arith

-- Every string of the table stands there once.
abbrev pub IsUnique : List (List ℕ) → Type 0
IsUnique ts = (i j : ℕ) (s : List ℕ) → get_elem? ts i ≡ some s → get_elem? ts j ≡ some s → i ≡ j

-- What interning `s` in `ts` gives: the string at its index, and a table that keeps its strings at
-- their indices, which grows only where the string is new.
pub record Interns (ts : List (List ℕ)) (s : List ℕ) (r : ℕ × List (List ℕ)) : Type 0 where
  pub found : length r.1 ≤ 2 ^ 16 → get_elem? r.1 r.0 ≡ some s
  pub kept : (k : ℕ) (u : List ℕ) → get_elem? ts k ≡ some u → get_elem? r.1 k ≡ some u
  pub same : In s ts → r.1 ≡ ts
  pub unique : IsUnique ts → IsUnique r.1

module _ (ts : List (List ℕ)) (s : List ℕ) where
  grown-IsUnique : ((k : ℕ) → get_elem? ts k ≡ some s → ⊥) → IsUnique ts → IsUnique (ts ++ s ∷ [])
  grown-IsUnique new unique i j t p q = elim (appended_cases ts s i p) [
    | inl a ↦ elim (appended_cases ts s j q) [
      | inl b ↦ unique i j t a b
      | inr (_, e) ↦ absurd (new i (a ∙ ap (λ u. some u) e))
    ]
    | inr (a, e) ↦ elim (appended_cases ts s j q) [
      | inl b ↦ absurd (new j (b ∙ ap (λ u. some u) e))
      | inr (b, _) ↦ a ∙ sym b
    ]
  ]

  interned-Interns : (r : Option ℕ) → Found ts s 0 r → Interns ts s (interned ts s r)
  interned-Interns none new = record {
    found = λ small.
        ap (get_elem? (ts ++ s ∷ [])) {y = length ts}
          (omega (arith, small, length-append ts (s ∷ [])))
        ∙ get_elem?-last ts s;
    kept = λ k u. get_elem?-left ts (s ∷ []) k;
    same = λ (k, e). absurd (new k e);
    unique = grown-IsUnique new;
  }
  interned-Interns (some j) (le, e) = record {
    found = λ small.
        ap (get_elem? ts) {y = j - 0} (omega (arith, small, get_elem?-lt ts (j - 0) e)) ∙ e;
    kept = λ k u h. h;
    same = λ _. refl;
    unique = λ u. u;
  }

  -- bc_strtab_intern gives an index where the string stands in the new table, of at most 2 ^ 16
  -- strings. It keeps the strings at their indices, adds none that is there, and none twice.
  pub intern-Interns : Interns ts s (intern ts s)
  unfolding intern
  intern-Interns = interned-Interns (intern_find ts s 0) (intern_find-Found ts s 0)

pub intern_all-kept :
    (ts ss : List (List ℕ)) (k : ℕ) (u : List ℕ)
    → get_elem? ts k ≡ some u
    → get_elem? (intern_all ts ss) k ≡ some u
unfolding intern_all
intern_all-kept ts [] k u h = h
intern_all-kept ts (s ∷ ss) k u h =
    intern_all-kept (intern ts s).1 ss k u ((intern-Interns ts s).kept k u h)

-- Interning strings one after the other keeps every string of the table there once.
pub intern_all-IsUnique : (ts ss : List (List ℕ)) → IsUnique ts → IsUnique (intern_all ts ss)
unfolding intern_all
intern_all-IsUnique ts [] h = h
intern_all-IsUnique ts (s ∷ ss) h =
    intern_all-IsUnique (intern ts s).1 ss ((intern-Interns ts s).unique h)

intern_all-le : (ts ss : List (List ℕ)) → length ts ≤ length (intern_all ts ss)
unfolding intern_all intern
intern_all-le ts [] = omega arith
intern_all-le ts (s ∷ ss) =
    omega (arith, intern_all-le (intern ts s).1 ss, interned-le ts s (intern_find ts s 0))

pub intern_all-In :
    (ts ss : List (List ℕ))
    → length (intern_all ts ss) ≤ 2 ^ 16
    → All (λ s. In s (intern_all ts ss)) ss
unfolding intern_all
intern_all-In ts [] small = tt
intern_all-In ts (s ∷ ss) small =
    let r = intern ts s in
    (
      (
        r.0,
        intern_all-kept r.1 ss r.0 s
            ((intern-Interns ts s).found (omega (arith, small, intern_all-le r.1 ss))),
      ),
      intern_all-In r.1 ss small,
    )
