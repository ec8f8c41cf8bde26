-- ===== src/Cma/Build/Fast.antt =====
-- cma/cma.c: cma_init_rep takes the tight loop for a repeated set of characters. It does what the
-- general loop does.
use blueberry.Prelude.{
  ℕ, zero, suc, ◌+◌, ◌≤◌, ◌<◌, ◌≡◌, not, ◌&&◌, leb, ltb, Bool-cases, if◌then◌else◌, length, arith,
  inl, inr,
}
use blueberry.Cma.{
  set_op, rep_op, State, Outcome, matched, missed, jumped, Hooks, push, backtrack, commit,
  ret_missed, match_set, match_rep_set, scan, rep_loop, call,
}
use blueberry.Cma.Keeps.{IsReady}
use blueberry.Cma.Build.{Bits, init_rep}

-- without the high-water mark of the misses
abbrev pub unmarked : State → State
unmarked s = record s { farthest = 0 }

-- both match, both miss, with the same state but for the mark, or both jump out
abbrev pub Alike : Outcome → Outcome → Type 0
Alike (matched s) (matched t) = unmarked s ≡ unmarked t
Alike (missed s) (missed t) = unmarked s ≡ unmarked t
Alike (jumped s) (jumped t) = Unit {0}
Alike out out' = ⊥

-- what the tight loop does behind its scan
ends : ℕ → ℕ → State → ℕ × ℕ → Outcome
ends least most s (pos, count) =
    if leb (length s.input) pos && ltb count most && not s.end_is_miss
    then jumped (push s)
    else if ltb count least
    then ret_missed (backtrack (length s.saves) (push s))
    else matched (commit (length s.saves) (record (push s) { pos = pos }))

go_lem :
    (hooks : Hooks) (f least most : ℕ) (bits : Bits) (s : State) (rounds fuel p count : ℕ)
    → p ≤ length s.input
    → length s.input < rounds + p
    → length s.input < fuel + p
    → Alike
        (rep_loop
          (call hooks (suc f))
          least
          most
          (set_op bits)
          (length s.saves)
          rounds
          count
          (record (push s) { pos = p }))
        (ends least most s (scan bits s.input most fuel p count))
unfolding rep_loop scan call match_set ends
go_lem hooks f least most bits s zero fuel p count le lt lu = absurd (omega arith)
go_lem hooks f least most bits s (suc rounds) zero p count le lt lu = absurd (omega arith)
go_lem hooks f least most bits s (suc rounds) (suc fuel) p count le lt lu =
    elim (Bool-cases (ltb p (length s.input))) [
      | inl e ↦
          let ih =
            go_lem hooks f least most bits s rounds fuel (p + 1) (count + 1) (ground (arith, e))
              (omega arith) (omega arith) in
          ground (arith, e, ih)
      | inr e ↦ ground (arith, e)
    ]

-- The loop that cma_init_rep takes for a repeated set does what the general one does, from any
-- position within the input: both match, both miss or both jump out, and where they return they leave
-- the same state but for the high-water mark of the misses.
pub init_rep-Alike :
    (hooks : Hooks) (fuel least most : ℕ) (bits : Bits) (s : State)
    → IsReady s
    → Alike
        (call hooks (suc (suc fuel)) s (rep_op least most (set_op bits)))
        (call hooks (suc (suc fuel)) s (init_rep least most (set_op bits)))
unfolding call match_rep_set ends
init_rep-Alike hooks fuel least most bits s r =
    go_lem hooks fuel least most bits s (length s.input + 2) (length s.input + 1) s.pos 0 r.inside
      (omega arith) (omega arith)
