-- ===== src/Lexer/Reads.antt =====
-- lexer.c: what the parser reads is the tokens in their order, without the line ends.
use blueberry.Prelude.{
  ℕ, zero, suc, ◌+◌, ◌-◌, ◌≤◌, ◌<◌, ◌≡◌, refl, sym, ap, ◌∙◌, Bool, true, false, not, length, drop,
  List, [], ◌∷◌, arith, subst, ltb, ◌==◌, if◌then◌else◌, if_elim, Bool-cases, inl, inr,
}
use blueberry.Cma.{Capture}
use blueberry.Lexer.{
  Parser, Tok, tok, tok_eof, cap_id, cap_get, peek, peek_loop, next, next_loop, try_next,
  try_next_loop,
}
use blueberry.Lexer.Token.{l_newline}

-- the tokens of captures, the line ends left out
abbrev pub tokens_of : List Capture → List Tok
tokens_of [] = []
tokens_of (c ∷ cs) = let rest = tokens_of cs in if cap_id c == l_newline then rest else tok c ∷ rest

-- the tokens that a parser has still to read
abbrev pub pending : Parser → List Tok
pending p = tokens_of (drop p.pos p.cma.caps)

abbrev pub first : List Tok → Tok
first [] = tok_eof
first (t ∷ ts) = t

abbrev pub rest : List Tok → List Tok
rest [] = []
rest (t ∷ ts) = ts

tokens_here :
    (cs : List Capture) (i : ℕ)
    → i < length cs
    → tokens_of (drop i cs) ≡ (
        if cap_id (cap_get cs i) == l_newline
        then tokens_of (drop (i + 1) cs)
        else tok (cap_get cs i) ∷ tokens_of (drop (i + 1) cs))
tokens_here [] i h = absurd (omega arith)
tokens_here (c ∷ cs) zero h = refl
tokens_here (c ∷ cs) (suc i) h =
    subst
      (λ j. tokens_of (drop i cs) ≡ (
        if cap_id (cap_get cs i) == l_newline
        then tokens_of (drop j (c ∷ cs))
        else tok (cap_get cs i) ∷ tokens_of (drop j (c ∷ cs))))
      {x = suc (i + 1)} {y = suc i + 1} (omega arith) (tokens_here cs i (omega arith))

tokens_past : (cs : List Capture) (i : ℕ) → length cs ≤ i → tokens_of (drop i cs) ≡ []
tokens_past [] zero h = refl
tokens_past [] (suc i) h = refl
tokens_past (c ∷ cs) zero h = absurd (omega arith)
tokens_past (c ∷ cs) (suc i) h = tokens_past cs i (omega arith)

-- what a loop has found, for the captures from the index on
abbrev Found : List Capture → ℕ → Tok × ℕ → Type 0
Found cs i z =
    (z.0 ≡ first (tokens_of (drop i cs))) × (tokens_of (drop z.1 cs) ≡ rest (tokens_of (drop i cs)))

past-Found : (cs : List Capture) (i : ℕ) → length cs ≤ i → Found cs i (tok_eof, i)
past-Found cs i h = (ap first (sym e), e ∙ ap rest (sym e))
  where
    e : tokens_of (drop i cs) ≡ []
    e = tokens_past cs i h

next_loop-Found :
    (cs : List Capture) (rounds i : ℕ) → length cs ≤ rounds + i → Found cs i (next_loop cs rounds i)
unfolding next_loop
next_loop-Found cs zero i h = past-Found cs i (omega (arith, h))
next_loop-Found cs (suc rounds) i h =
    if_elim {A = Tok × ℕ} (Found cs i) (ltb i (length cs))
      (λ t.
        let here = tokens_here cs i (ground (arith, t)) in
        let later = next_loop-Found cs rounds (i + 1) (omega (arith, h)) in
        if_elim {A = Tok × ℕ} (Found cs i) (not (cap_id (cap_get cs i) == l_newline))
          (λ e.
            let now : tokens_of (drop i cs) ≡ tok (cap_get cs i) ∷ tokens_of (drop (i + 1) cs) =
              ground (arith, here, e) in
            (ap first (sym now), ap rest (sym now)))
          (λ e.
            let now : tokens_of (drop i cs) ≡ tokens_of (drop (i + 1) cs) =
              ground (arith, here, e) in
            (later.0 ∙ ap first (sym now), later.1 ∙ ap rest (sym now))))
      (λ f. past-Found cs i (ground (arith, f)))

peek_loop_lem :
    (cs : List Capture) (rounds i : ℕ) → peek_loop cs rounds i ≡ (next_loop cs rounds i).0
unfolding next_loop peek_loop
peek_loop_lem cs zero i = refl
peek_loop_lem cs (suc rounds) i = ground (arith, peek_loop_lem cs rounds (i + 1))

-- what was found, if the next token is the one asked for, and the end otherwise
abbrev pub asked {ℓ} : {A : Type ℓ} → ℕ → List Tok → A → A → A
asked id [] found none_found = none_found
asked id (t ∷ ts) found none_found = if t.t == id then found else none_found

try_next_loop_lem :
    (cs : List Capture) (id pos rounds i : ℕ)
    → length cs ≤ rounds + i
    → try_next_loop cs id pos rounds i
      ≡ asked id (tokens_of (drop i cs)) (next_loop cs rounds i) (tok_eof, pos)
unfolding next_loop try_next_loop
try_next_loop_lem cs id pos zero i h =
    ap (λ ts. asked id ts (next_loop cs zero i) (tok_eof, pos))
      (sym (tokens_past cs i (omega (arith, h))))
try_next_loop_lem cs id pos (suc rounds) i h =
    let all = next_loop cs (suc rounds) i in
    let with_tokens : (ts : List Tok)
        → tokens_of (drop i cs) ≡ ts
        → asked id ts all (tok_eof, pos) ≡ asked id (tokens_of (drop i cs)) all (tok_eof, pos) =
      λ ts e. ap (λ us. asked id us all (tok_eof, pos)) (sym e) in
    elim (Bool-cases (ltb i (length cs))) [
      | inl t ↦
          let here = tokens_here cs i (ground (arith, t)) in
          elim (Bool-cases (cap_id (cap_get cs i) == l_newline)) [
            | inl e ↦
                let later = try_next_loop_lem cs id pos rounds (i + 1) (omega (arith, h)) in
                let same : all ≡ next_loop cs rounds (i + 1) = ground (arith, t, e) in
                let lhs : try_next_loop cs id pos (suc rounds) i
                    ≡ try_next_loop cs id pos rounds (i + 1) =
                  ground (arith, t, e) in
                lhs
                ∙ later
                ∙ ap (λ z. asked id (tokens_of (drop (i + 1) cs)) z (tok_eof, pos)) (sym same)
                ∙ with_tokens (tokens_of (drop (i + 1) cs)) (ground (arith, here, e))
            | inr e ↦
                let lhs : try_next_loop cs id pos (suc rounds) i
                    ≡ (if cap_id (cap_get cs i) == id then all else (tok_eof, pos)) =
                  ground (arith, t, e) in
                lhs
                ∙ with_tokens (tok (cap_get cs i) ∷ tokens_of (drop (i + 1) cs))
                    (ground (arith, here, e))
          ]
      | inr f ↦
          let lhs : try_next_loop cs id pos (suc rounds) i ≡ (tok_eof, pos) = ground (arith, f) in
          lhs ∙ with_tokens [] (tokens_past cs i (ground (arith, f)))
    ]

through_if {ℓ κ} :
    {A : Type ℓ} {B : Type κ} (f : A → B) (t : Bool) (a b : A)
    → f (if t then a else b) ≡ (if t then f a else f b)
through_if f true a b = refl
through_if f false a b = refl

asked_through {ℓ κ} :
    {A : Type ℓ} {B : Type κ} (f : A → B) (id : ℕ) (ts : List Tok) (a b : A)
    → f (asked id ts a b) ≡ asked id ts (f a) (f b)
asked_through f id [] a b = refl
asked_through f id (t ∷ ts) a b = through_if f (t.t == id) a b

-- What a parser reads is the list of its tokens, the line ends left out: next gives the first token and
-- leaves the others, peek gives the same token, and try_next does what next does if the first token has
-- the number asked for, and otherwise gives the end token and leaves the position where it is.
pub reads_in_order :
    (p : Parser) (id : ℕ)
    → ((next p).0 ≡ first (pending p))
      × (pending (next p).1 ≡ rest (pending p))
      × (peek p ≡ (next p).0)
      × (try_next p id ≡ asked id (pending p) (next p) (tok_eof, p))
unfolding next peek try_next
reads_in_order p id =
    let cs = p.cma.caps in
    let n = length cs - p.pos in
    let back : Tok × ℕ → Tok × Parser = λ z. (z.0, record p { pos = z.1 }) in
    let (a, b) = next_loop-Found cs n p.pos (omega arith) in
    (
      a,
      b,
      peek_loop_lem cs n p.pos,
      ap back (try_next_loop_lem cs id p.pos n p.pos (omega arith))
          ∙ asked_through back id (pending p) (next_loop cs n p.pos) (tok_eof, p.pos),
    )
