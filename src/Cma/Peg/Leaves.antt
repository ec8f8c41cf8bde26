-- ===== src/Cma/Peg/Leaves.antt =====
-- The opcodes that look at the input do what the grammar's semantics says.
use blueberry.Prelude.{
  ℕ, zero, suc, ◌+◌, ◌-◌, ◌≤◌, ◌≡◌, refl, sym, ap, ◌∙◌, Bool, true, false, not, ◌&&◌, none, some,
  [], ◌∷◌, length, get_or, take, drop, ltb, leb, eq_list, eq_list_sound, eq_list_self,
  if◌then◌else◌, if_elim, Bool-cases, inl, inr, arith, length-take, length-drop,
}
use blueberry.Cma.{
  Bytes, str_op, set_op, endl_op, State, Outcome, matched, missed, jumped, no_fuel, ret_end_reached,
  lower_all, same, match_str, match_set, match_endl,
}
use blueberry.Cma.Keeps.{IsReady}
use blueberry.Cma.Peg.{Goal, pat, Takes, text, char, endl, stands}

-- What the outcome for a goal at a position says, where there is one.
abbrev pub MeansAt : Bytes → Goal → ℕ → Outcome → Type 0
MeansAt input g p (matched t) = Takes input g p (some t.pos)
MeansAt input g p (missed t) = Takes input g p none
MeansAt input g p (jumped t) = Unit {0}
MeansAt input g p no_fuel = Unit {0}

abbrev pub Means : State → Goal → Outcome → Type 0
Means s g out = MeansAt s.input g s.pos out

end_reached-Means :
    (s : State) (g : Goal) → Takes s.input g s.pos none → Means s g (ret_end_reached s)
end_reached-Means s g h = if_elim (Means s g) s.end_is_miss (λ _. h) (λ _. tt)

take_all : (xs : Bytes) → take (length xs) xs ≡ xs
take_all [] = refl
take_all (x ∷ xs) = ap (◌∷◌ x) (take_all xs)

take-take : (m n : ℕ) (xs : Bytes) → m ≤ n → take m (take n xs) ≡ take m xs
take-take zero n xs h = refl
take-take (suc m) zero xs h = absurd (omega arith)
take-take (suc m) (suc n) [] h = refl
take-take (suc m) (suc n) (x ∷ xs) h = ap (◌∷◌ x) (take-take m n xs (omega arith))

length-lower_all : (xs : Bytes) → length (lower_all xs) ≡ length xs
length-lower_all [] = refl
length-lower_all (x ∷ xs) = ap suc (length-lower_all xs)

-- A text stands only where there is enough input.
stands_inside :
    (input : Bytes) (i : Bool) (buf : Bytes) (p : ℕ)
    → p ≤ length input
    → stands input i buf p ≡ true
    → p + length buf ≤ length input
stands_inside input true buf p le h =
    let e =
      ap length (eq_list_sound (lower_all (take (length buf) (drop p input))) (lower_all buf) h) in
    omega (
      arith,
      le,
      e,
      length-lower_all buf,
      length-lower_all (take (length buf) (drop p input)),
      length-take (length buf) (drop p input),
      length-drop p input,
    )
stands_inside input false buf p le h =
    let e = ap length (eq_list_sound (take (length buf) (drop p input)) buf h) in
    omega (arith, le, e, length-take (length buf) (drop p input), length-drop p input)

-- the comparison of the whole text
same-stands :
    (i : Bool) (buf : Bytes) (s : State) → same i (length buf) buf s ≡ stands s.input i buf s.pos
unfolding same
same-stands true buf s =
    ap (λ b. eq_list (lower_all (take (length buf) (drop s.pos s.input))) (lower_all b))
      (take_all buf)
same-stands false buf s =
    ap (λ b. eq_list (take (length buf) (drop s.pos s.input)) b) (take_all buf)

-- the fast rejection on the first four bytes
stands-same :
    (buf : Bytes) (s : State)
    → 4 ≤ length buf
    → stands s.input false buf s.pos ≡ true
    → same false 4 buf s ≡ true
unfolding same
stands-same buf s le h =
    let e : take (length buf) (drop s.pos s.input) ≡ buf =
      eq_list_sound (take (length buf) (drop s.pos s.input)) buf h in
    let f : take 4 (drop s.pos s.input) ≡ take 4 buf =
      sym (take-take 4 (length buf) (drop s.pos s.input) le) ∙ ap (take 4) e in
    ap (λ xs. eq_list xs (take 4 buf)) f ∙ eq_list_self (take 4 buf)

quick_miss :
    (i : Bool) (buf : Bytes) (s : State)
    → (not i && (leb 4 (length buf) && not (same false 4 buf s))) ≡ true
    → stands s.input i buf s.pos ≡ true
    → ⊥
quick_miss true buf s h e = ground (arith, h)
quick_miss false buf s h e =
    let le : 4 ≤ length buf = ground (arith, h) in ground (arith, h, stands-same buf s le e)

module _ (buf : Bytes) (i : Bool) (s : State) where
  stands_not :
      (stands s.input i buf s.pos ≡ true → ⊥) → Takes s.input (pat (str_op buf i)) s.pos none
  stands_not h = elim (Bool-cases (stands s.input i buf s.pos)) [
    | inl e ↦ absurd (h e)
    | inr e ↦ text (ap (λ b. if b then some (s.pos + length buf) else none) (sym e))
  ]

  pub match_str-Means : IsReady s → Means s (pat (str_op buf i)) (match_str buf i s)
  unfolding match_str
  match_str-Means r =
      let n = length buf in
      let g = pat (str_op buf i) in
      if_elim (Means s g) (ltb (length s.input) (s.pos + n))
        (λ short.
          let no =
            stands_not (λ e. ground (arith, short, stands_inside s.input i buf s.pos r.inside e)) in
          if_elim (Means s g) (same i (length s.input - s.pos) buf s)
            (λ _. end_reached-Means s g no) (λ _. no))
        (λ _.
          if_elim (Means s g) (not i && (leb 4 n && not (same false 4 buf s)))
            (λ quick. stands_not (quick_miss i buf s quick))
            (λ _.
              if_elim (Means s g) (same i n buf s)
                (λ e.
                  text
                    (ap (λ b. if b then some (s.pos + n) else none) (sym e ∙ same-stands i buf s)))
                (λ e.
                  text (
                    ap (λ b. if b then some (s.pos + n) else none) (sym e ∙ same-stands i buf s)))))

pub match_set-Means : (bits : ℕ → Bool) (s : State) → Means s (pat (set_op bits)) (match_set bits s)
unfolding match_set
match_set-Means bits s =
    let g = pat (set_op bits) in
    if_elim (Means s g) (leb (length s.input) s.pos)
      (λ e. end_reached-Means s g (char (ground (arith, e))))
      (λ e.
        if_elim (Means s g) (bits (get_or s.input s.pos 0)) (λ f. char (ground (arith, e, f)))
          (λ f. char (ground (arith, e, f))))

pub match_endl-Means : (s : State) → Means s (pat endl_op) (match_endl s)
unfolding match_endl
match_endl-Means s =
    if_elim (Means s (pat endl_op)) (leb (length s.input) s.pos) (λ e. endl (ground (arith, e)))
      (λ e. endl (ground (arith, e)))
