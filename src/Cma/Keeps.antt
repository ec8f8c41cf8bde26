-- ===== src/Cma/Keeps.antt =====
-- What every match function keeps: on a miss the position, the captures and the stack are as before,
-- and on a match the position is further on, new captures stand behind the old ones, and the stack is
-- as before.
use blueberry.Prelude.{
  ℕ, ◌+◌, ◌≤◌, ◌≡◌, refl, sym, ap, ◌∙◌, false, List, [], ◌∷◌, ◌++◌, append_assoc, append-nil, ltb,
  if◌then◌else◌, length, get_or, take, All, take-append, arith,
}
use blueberry.Cma.{
  Capture, State, Outcome, matched, missed, jumped, no_fuel, push, backtrack, commit,
}
use blueberry.Cma.Captures.{Inside, IsInOrder, All-Inside, All-Inside_append, IsInOrder-append}

-- A state in which a match can begin.
pub record IsReady (s : State) : Type 0 where
  pub inside : s.pos ≤ length s.input
  pub reached : s.farthest ≤ length s.input

-- a match that has moved on by `least` bytes or more
pub record Advances (least : ℕ) (s t : State) : Type 0 where
  pub input : t.input ≡ s.input
  pub flag : t.end_is_miss ≡ s.end_is_miss
  pub saves : t.saves ≡ s.saves
  pub moved : s.pos + least ≤ t.pos
  pub inside : t.pos ≤ length s.input
  pub far : s.farthest ≤ t.farthest
  pub reached : t.farthest ≤ length s.input
  pub new : List Capture
  pub caps : t.caps ≡ s.caps ++ new
  pub captures : All (Inside s.pos t.pos) new
  pub order : IsInOrder new

-- a miss
pub record Restores (s t : State) : Type 0 where
  pub input : t.input ≡ s.input
  pub flag : t.end_is_miss ≡ s.end_is_miss
  pub saves : t.saves ≡ s.saves
  pub pos : t.pos ≡ s.pos
  pub caps : t.caps ≡ s.caps
  pub far : s.farthest ≤ t.farthest
  pub reached : t.farthest ≤ length s.input

-- what a state has in common with the one that it can be set back to
pub record Extends (s t : State) : Type 0 where
  pub input : t.input ≡ s.input
  pub flag : t.end_is_miss ≡ s.end_is_miss
  pub saves : t.saves ≡ s.saves
  pub far : s.farthest ≤ t.farthest
  pub reached : t.farthest ≤ length s.input
  pub new : List Capture
  pub caps : t.caps ≡ s.caps ++ new

abbrev pub Kept : Type 0 → ℕ → State → Outcome → Type 0
Kept Ends least s (matched t) = Advances least s t
Kept Ends least s (missed t) = Restores s t
Kept Ends least s (jumped t) = s.end_is_miss ≡ false
Kept Ends least s no_fuel = Ends

pub Advances-Extends : (l : ℕ) (s t : State) → Advances l s t → Extends s t
Advances-Extends l s t x = record {
  input = x.input;
  flag = x.flag;
  saves = x.saves;
  far = x.far;
  reached = x.reached;
  new = x.new;
  caps = x.caps;
}

pub Restores-Extends : (s t : State) → Restores s t → Extends s t
Restores-Extends s t x = record {
  input = x.input;
  flag = x.flag;
  saves = x.saves;
  far = x.far;
  reached = x.reached;
  new = [];
  caps = x.caps ∙ sym (append-nil s.caps);
}

pub Advances-IsReady : (l : ℕ) (s t : State) → Advances l s t → IsReady t
Advances-IsReady l s t x = record {
  inside = omega (arith, x.inside, ap length x.input);
  reached = omega (arith, x.reached, ap length x.input);
}

pub Restores-IsReady : (s t : State) → IsReady s → Restores s t → IsReady t
Restores-IsReady s t r x = record {
  inside = omega (arith, r.inside, x.pos, ap length x.input);
  reached = omega (arith, x.reached, ap length x.input);
}

-- Nothing moved.
pub Advances-self : (s : State) → IsReady s → Advances 0 s s
Advances-self s r = record {
  input = refl;
  flag = refl;
  saves = refl;
  moved = omega arith;
  inside = r.inside;
  far = omega arith;
  reached = r.reached;
  new = [];
  caps = sym (append-nil s.caps);
  captures = tt;
  order = tt;
}

pub Advances-trans :
    (l m : ℕ) (s t u : State) → Advances l s t → Advances m t u → Advances (l + m) s u
Advances-trans l m s t u x y = record {
  input = y.input ∙ x.input;
  flag = y.flag ∙ x.flag;
  saves = y.saves ∙ x.saves;
  moved = omega (arith, x.moved, y.moved);
  inside = omega (arith, y.inside, ap length x.input);
  far = omega (arith, x.far, y.far);
  reached = omega (arith, y.reached, ap length x.input);
  new = x.new ++ y.new;
  caps = y.caps ∙ ap (λ zs. zs ++ y.new) x.caps ∙ append_assoc s.caps x.new y.new;
  captures =
      All-Inside_append s.pos u.pos x.new y.new
        (All-Inside s.pos t.pos s.pos u.pos x.new (omega arith) (omega (arith, y.moved)) x.captures)
        (All-Inside t.pos u.pos s.pos u.pos y.new (omega (arith, x.moved)) (omega arith)
          y.captures);
  order = IsInOrder-append s.pos t.pos u.pos x.new y.new x.captures y.captures x.order y.order;
}

-- a miss behind a match
pub Advances-Restores : (l : ℕ) (s t u : State) → Advances l s t → Restores t u → Advances l s u
Advances-Restores l s t u x y = record {
  input = y.input ∙ x.input;
  flag = y.flag ∙ x.flag;
  saves = y.saves ∙ x.saves;
  moved = omega (arith, x.moved, y.pos);
  inside = omega (arith, x.inside, y.pos);
  far = omega (arith, x.far, y.far);
  reached = omega (arith, y.reached, ap length x.input);
  new = x.new;
  caps = y.caps ∙ x.caps;
  captures =
      All-Inside s.pos t.pos s.pos u.pos x.new (omega arith) (omega (arith, y.pos)) x.captures;
  order = x.order;
}

pub Restores-trans : (s t u : State) → Restores s t → Restores t u → Restores s u
Restores-trans s t u x y = record {
  input = y.input ∙ x.input;
  flag = y.flag ∙ x.flag;
  saves = y.saves ∙ x.saves;
  pos = y.pos ∙ x.pos;
  caps = y.caps ∙ x.caps;
  far = omega (arith, x.far, y.far);
  reached = omega (arith, y.reached, ap length x.input);
}

pub Advances-weaken : (l m : ℕ) (s t : State) → m ≤ l → Advances l s t → Advances m s t
Advances-weaken l m s t h x = record {
  input = x.input;
  flag = x.flag;
  saves = x.saves;
  moved = omega (arith, x.moved, h);
  inside = x.inside;
  far = x.far;
  reached = x.reached;
  new = x.new;
  caps = x.caps;
  captures = x.captures;
  order = x.order;
}

last_saved : (xs : List (ℕ × ℕ)) (x d : ℕ × ℕ) → get_or (xs ++ x ∷ []) (length xs) d ≡ x
last_saved [] x d = refl
last_saved (y ∷ xs) x d = last_saved xs x d

-- A miss is returned where a match began.
pub ret_missed-Restores :
    (s t : State)
    → IsReady s
    → Restores s t
    → Restores s (record t { farthest = if ltb t.farthest t.pos then t.pos else t.farthest })
ret_missed-Restores s t r x = record {
  input = x.input;
  flag = x.flag;
  saves = x.saves;
  pos = x.pos;
  caps = x.caps;
  far = ground (arith, x.far);
  reached = ground (arith, x.reached, r.inside, x.pos);
}

pub backtrack-Restores :
    (s t : State) → IsReady s → Extends (push s) t → Restores s (backtrack (length s.saves) t)
backtrack-Restores s t r x =
    let saved : get_or t.saves (length s.saves) (0, 0) ≡ (s.pos, length s.caps) =
      ap (λ xs. get_or xs (length s.saves) (0, 0)) x.saves
      ∙ last_saved s.saves (s.pos, length s.caps) (0, 0) in
    record {
      input = x.input;
      flag = x.flag;
      saves =
          ap (take (length s.saves)) x.saves ∙ take-append s.saves ((s.pos, length s.caps) ∷ []);
      pos = ap (λ p. p.0) saved;
      caps =
          ap (λ p. take p.1 t.caps) saved
          ∙ ap (take (length s.caps)) x.caps
          ∙ take-append s.caps x.new;
      far = x.far;
      reached = x.reached;
    }

pub commit-Advances :
    (l : ℕ) (s t : State) → Advances l (push s) t → Advances l s (commit (length s.saves) t)
commit-Advances l s t x = record {
  input = x.input;
  flag = x.flag;
  saves = ap (take (length s.saves)) x.saves ∙ take-append s.saves ((s.pos, length s.caps) ∷ []);
  moved = x.moved;
  inside = x.inside;
  far = x.far;
  reached = x.reached;
  new = x.new;
  caps = x.caps;
  captures = x.captures;
  order = x.order;
}

-- a match behind a miss
pub Restores-Advances : (l : ℕ) (s t u : State) → Restores s t → Advances l t u → Advances l s u
Restores-Advances l s t u x y = record {
  input = y.input ∙ x.input;
  flag = y.flag ∙ x.flag;
  saves = y.saves ∙ x.saves;
  moved = omega (arith, x.pos, y.moved);
  inside = omega (arith, y.inside, ap length x.input);
  far = omega (arith, x.far, y.far);
  reached = omega (arith, y.reached, ap length x.input);
  new = y.new;
  caps = y.caps ∙ ap (λ zs. zs ++ y.new) x.caps;
  captures =
      All-Inside t.pos u.pos s.pos u.pos y.new (omega (arith, x.pos)) (omega arith) y.captures;
  order = y.order;
}
