-- ===== src/Lexer.antt =====
-- lexer.c: the lexer, a grammar for the pattern matcher whose captures are the tokens, and what the
-- parser calls to read them. A pointer into the buffer is an index.
pub mod Token
pub mod Grammar
pub mod Whole
pub mod Reads
pub mod Line
pub mod Tests
use blueberry.Prelude.{
  ℕ, zero, suc, ◌+◌, ◌-◌, Bool, true, false, not, Option, none, some, List, [], ◌∷◌, ltb, leb, ◌==◌,
  if◌then◌else◌, length, get_or, map,
}
use blueberry.Cma.{Bytes, Tag, untagged, numbered, Capture, State, Hooks, missed, noop_op}
use blueberry.Cma.Ends.{depth}
use blueberry.Cma.Build.{run}
use blueberry.Lexer.Token.{l_newline, l_err_unknown}
use blueberry.Lexer.Grammar.{grammar}

-- `b_parser`
pub record Parser : Type 0 where
  pub cma : State
  pub buf : Bytes
  pub pos : ℕ

-- `b_tok`; where a token starts is none for NULL
pub record Tok : Type 0 where
  pub data_at : Option ℕ
  pub len : ℕ
  pub t : ℕ

abbrev pub tok_eof : Tok
tok_eof = record { data_at = none; len = 0; t = l_err_unknown }

-- cma_cap_id
abbrev pub cap_id : Capture → ℕ
cap_id c = elim c.tag [ numbered n ↦ n | _ ↦ 0 ]

-- the token of a capture
abbrev pub tok : Capture → Tok
tok c = record { data_at = some c.start; len = c.stop - c.start; t = cap_id c }

-- The grammar has no references, no callbacks and no functions.
abbrev pub no_hooks : Hooks
no_hooks = record { resolve = λ r. noop_op; accept = λ c s. true; exec = λ e s. missed s }

abbrev pub loaded : Bytes → Option (Option ℕ × State) → Option (Bool × Parser)
loaded buf none = none
loaded buf (some (none, s)) = some (false, record { cma = s; buf = buf; pos = 0 })
loaded buf (some (some p, s)) = some (true, record { cma = s; buf = buf; pos = 0 })

-- b_parser_load_buf, whether the grammar matched and the parser; the calls nest as deep as the grammar
pub load_buf : Bytes → Option (Bool × Parser)
load_buf buf = loaded buf (run no_hooks (depth grammar) grammar buf)

-- the capture at an index below their number
abbrev pub cap_get : List Capture → ℕ → Capture
cap_get caps i = get_or caps i (record { tag = untagged; start = 0; stop = 0; nested = 0 })

-- The loops below run once for each capture from the index on, at most.
pub peek_loop : List Capture → ℕ → ℕ → Tok
peek_loop caps zero i = tok_eof
peek_loop caps (suc rounds) i =
    let rest = peek_loop caps rounds (i + 1) in
    if ltb i (length caps)
    then if not (cap_id (cap_get caps i) == l_newline) then tok (cap_get caps i) else rest
    else tok_eof

pub peek : Parser → Tok
peek p = peek_loop p.cma.caps (length p.cma.caps - p.pos) p.pos

-- the token, and the position behind it
pub next_loop : List Capture → ℕ → ℕ → Tok × ℕ
next_loop caps zero i = (tok_eof, i)
next_loop caps (suc rounds) i =
    let rest = next_loop caps rounds (i + 1) in
    if ltb i (length caps)
    then if not (cap_id (cap_get caps i) == l_newline) then (tok (cap_get caps i), i + 1) else rest
    else (tok_eof, i)

pub next : Parser → Tok × Parser
next p =
    let (found, i) = next_loop p.cma.caps (length p.cma.caps - p.pos) p.pos in
    (found, record p { pos = i })

-- the token, and the position behind it or the one at the start
pub try_next_loop : List Capture → ℕ → ℕ → ℕ → ℕ → Tok × ℕ
try_next_loop caps id pos zero i = (tok_eof, pos)
try_next_loop caps id pos (suc rounds) i =
    let rest = try_next_loop caps id pos rounds (i + 1) in
    if ltb i (length caps)
    then if not (cap_id (cap_get caps i) == l_newline)
      then if not (cap_id (cap_get caps i) == id)
        then (tok_eof, pos)
        else (tok (cap_get caps i), i + 1)
      else rest
    else (tok_eof, pos)

pub try_next : Parser → ℕ → Tok × Parser
try_next p id =
    let (found, i) = try_next_loop p.cma.caps id p.pos (length p.cma.caps - p.pos) p.pos in
    (found, record p { pos = i })

pub line_loop : ℕ → List Capture → ℕ → ℕ
line_loop char_pos [] line = line
line_loop char_pos (c ∷ caps) line = elim (cap_id c == l_newline) [
  | false ↦ line_loop char_pos caps line
  | true ↦ elim (leb char_pos c.start) [ true ↦ line | false ↦ line_loop char_pos caps (line + 1) ]
]

pub line_of : Parser → ℕ → ℕ
line_of p char_pos = line_loop char_pos p.cma.caps 1
