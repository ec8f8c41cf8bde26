-- ===== src/Cma/Peg/Refines.antt =====
-- The matcher and the semantics have the same results.
use blueberry.Prelude.{ℕ, ◌≡◌, ◌↔◌, Option, none, some}
use blueberry.Cma.{Op, State, Outcome, matched, missed, jumped, no_fuel}
use blueberry.Cma.Peg.{pat, Takes}

-- a match or a miss
abbrev pub Returns : Outcome → Type 0
Returns (matched t) = Unit {0}
Returns (missed t) = Unit {0}
Returns (jumped t) = ⊥
Returns no_fuel = ⊥

abbrev pub end_of : Outcome → Option ℕ
end_of (matched t) = some t.pos
end_of out = none

abbrev Refines : State → Op → Outcome → Type 0
Refines s o out = Returns out × ((r : Option ℕ) → Takes s.input (pat o) s.pos r ↔ (r ≡ end_of out))
