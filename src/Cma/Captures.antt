-- ===== src/Cma/Captures.antt =====
-- Captures that lie within a part of the input, in the order of their starts.
use blueberry.Prelude.{ℕ, ◌≤◌, List, [], ◌∷◌, ◌++◌, All, arith}
use blueberry.Cma.{Capture}

abbrev pub Inside : ℕ → ℕ → Capture → Type 0
Inside from upto c = (from ≤ c.start) × (c.start ≤ c.stop) × (c.stop ≤ upto)

-- the captures are in the order of their starts
abbrev pub IsInOrder : List Capture → Type 0
IsInOrder [] = Unit {0}
IsInOrder (c ∷ cs) = All (λ d. c.start ≤ d.start) cs × IsInOrder cs

pub All-Inside :
    (a b c d : ℕ) (xs : List Capture) → c ≤ a → b ≤ d → All (Inside a b) xs → All (Inside c d) xs
All-Inside a b c d [] h k x = tt
All-Inside a b c d (x ∷ xs) h k ((p, q, r), y) =
    ((omega arith, q, omega arith), All-Inside a b c d xs h k y)

pub All-Inside_append :
    (a b : ℕ) (xs ys : List Capture)
    → All (Inside a b) xs
    → All (Inside a b) ys
    → All (Inside a b) (xs ++ ys)
All-Inside_append a b [] ys h k = k
All-Inside_append a b (x ∷ xs) ys (p, h) k = (p, All-Inside_append a b xs ys h k)

-- Captures behind others start behind them.
All-start :
    (t u : ℕ) (c : Capture) (xs ys : List Capture)
    → c.start ≤ t
    → All (λ d. c.start ≤ d.start) xs
    → All (Inside t u) ys
    → All (λ d. c.start ≤ d.start) (xs ++ ys)
All-start t u c [] [] le h k = tt
All-start t u c [] (y ∷ ys) le h ((a, b, d), k) = (omega arith, All-start t u c [] ys le tt k)
All-start t u c (x ∷ xs) ys le (h, hs) k = (h, All-start t u c xs ys le hs k)

pub All-Inside_start :
    (a b : ℕ) (xs : List Capture) → All (Inside a b) xs → All (λ d. a ≤ d.start) xs
All-Inside_start a b [] h = tt
All-Inside_start a b (x ∷ xs) ((p, q, r), h) = (p, All-Inside_start a b xs h)

pub IsInOrder-append :
    (from t u : ℕ) (xs ys : List Capture)
    → All (Inside from t) xs
    → All (Inside t u) ys
    → IsInOrder xs
    → IsInOrder ys
    → IsInOrder (xs ++ ys)
IsInOrder-append from t u [] ys a b h k = k
IsInOrder-append from t u (x ∷ xs) ys ((a, b, c), in_xs) in_ys (h, hs) k =
    (All-start t u x xs ys (omega arith) h in_ys, IsInOrder-append from t u xs ys in_xs in_ys hs k)
