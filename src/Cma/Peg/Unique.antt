-- ===== src/Cma/Peg/Unique.antt =====
-- The semantics gives a pattern one result.
use blueberry.Prelude.{ℕ, ◌+◌, ◌≡◌, refl, sym, ◌∙◌, Option, none, some, arith, subst}
use blueberry.Cma.{Bytes}
use blueberry.Cma.Peg.{Goal, Takes}
use blueberry.Cma.Peg

some_injective : {p q : ℕ} → some p ≡ some q → p ≡ q
some_injective e = cc

some≢none : {p : ℕ} → some p ≡ none → ⊥
some≢none e = cc

pub Takes_unique :
    (input : Bytes) {g : Goal} {p : ℕ} {r : Option ℕ}
    → Takes input g p r
    → {q : Option ℕ} → Takes input g p q
    → r ≡ q
Takes_unique input (Peg.text e) (Peg.text f) = e ∙ sym f
Takes_unique input (Peg.char e) (Peg.char f) = e ∙ sym f
Takes_unique input (Peg.endl e) (Peg.endl f) = e ∙ sym f
Takes_unique input Peg.noop Peg.noop = refl
Takes_unique input (Peg.in_turn x) (Peg.in_turn y) = Takes_unique input x y
Takes_unique input Peg.each_done Peg.each_done = refl
Takes_unique input (Peg.each_step {os = os} x xs) (Peg.each_step {r = r'} y ys) =
    Takes_unique input xs (
      subst (λ k. Takes input (Peg.each os) k r') (sym (some_injective (Takes_unique input x y)))
        ys)
Takes_unique input (Peg.each_step x xs) (Peg.each_miss y) =
    absurd (some≢none (Takes_unique input x y))
Takes_unique input (Peg.each_miss x) (Peg.each_step y ys) =
    absurd (some≢none (sym (Takes_unique input x y)))
Takes_unique input (Peg.each_miss x) (Peg.each_miss y) = refl
Takes_unique input (Peg.choice x) (Peg.choice y) = Takes_unique input x y
Takes_unique input Peg.none_left Peg.none_left = refl
Takes_unique input (Peg.first x) (Peg.first y) = Takes_unique input x y
Takes_unique input (Peg.first x) (Peg.later y z) = absurd (some≢none (Takes_unique input x y))
Takes_unique input (Peg.later x z) (Peg.first y) = absurd (some≢none (sym (Takes_unique input x y)))
Takes_unique input (Peg.later x z) (Peg.later y w) = Takes_unique input z w
Takes_unique input (Peg.not_hit x) (Peg.not_hit y) = refl
Takes_unique input (Peg.not_hit x) (Peg.not_miss y) = absurd (some≢none (Takes_unique input x y))
Takes_unique input (Peg.not_miss x) (Peg.not_hit y) =
    absurd (some≢none (sym (Takes_unique input x y)))
Takes_unique input (Peg.not_miss x) (Peg.not_miss y) = refl
Takes_unique input (Peg.ahead_hit x) (Peg.ahead_hit y) = refl
Takes_unique input (Peg.ahead_hit x) (Peg.ahead_miss y) =
    absurd (some≢none (Takes_unique input x y))
Takes_unique input (Peg.ahead_miss x) (Peg.ahead_hit y) =
    absurd (some≢none (sym (Takes_unique input x y)))
Takes_unique input (Peg.ahead_miss x) (Peg.ahead_miss y) = refl
Takes_unique input (Peg.repeated x) (Peg.repeated y) = Takes_unique input x y
Takes_unique input (Peg.repeated_set x) (Peg.repeated_set y) = Takes_unique input x y
Takes_unique input (Peg.captured x) (Peg.captured y) = Takes_unique input x y
Takes_unique input (Peg.round_full l e) (Peg.round_full m f) = e ∙ sym f
Takes_unique input (Peg.round_full l e) (Peg.round_miss m y f) = e ∙ sym f
Takes_unique input (Peg.round_full l e) (Peg.round_empty m y f) = e ∙ sym f
Takes_unique input (Peg.round_full l e) (Peg.round_step m y ne ys) = absurd (omega arith)
Takes_unique input (Peg.round_miss l x e) (Peg.round_full m f) = e ∙ sym f
Takes_unique input (Peg.round_miss l x e) (Peg.round_miss m y f) = e ∙ sym f
Takes_unique input (Peg.round_miss l x e) (Peg.round_empty m y f) = e ∙ sym f
Takes_unique input (Peg.round_miss l x e) (Peg.round_step m y ne ys) =
    absurd (some≢none (sym (Takes_unique input x y)))
Takes_unique input (Peg.round_empty l x e) (Peg.round_full m f) = e ∙ sym f
Takes_unique input (Peg.round_empty l x e) (Peg.round_miss m y f) = e ∙ sym f
Takes_unique input (Peg.round_empty l x e) (Peg.round_empty m y f) = e ∙ sym f
Takes_unique input (Peg.round_empty l x e) (Peg.round_step m y ne ys) =
    absurd (ne (sym (some_injective (Takes_unique input x y))))
Takes_unique input (Peg.round_step l x n xs) (Peg.round_full m f) = absurd (omega arith)
Takes_unique input (Peg.round_step l x n xs) (Peg.round_miss m y f) =
    absurd (some≢none (Takes_unique input x y))
Takes_unique input (Peg.round_step l x n xs) (Peg.round_empty m y f) =
    absurd (n (some_injective (Takes_unique input x y)))
Takes_unique input (Peg.round_step {least = a} {most = b} {o = o} {count = c} l x n xs)
      (Peg.round_step {r = r'} m y ne ys) =
    Takes_unique input xs (
      subst (λ k. Takes input (Peg.rounds a b o (c + 1)) k r')
        (sym (some_injective (Takes_unique input x y))) ys)
