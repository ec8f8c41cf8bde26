-- ===== src/Lexer/Line.antt =====
-- lexer.c: b_parser_line_of.
use blueberry.Prelude.{ℕ, suc, ◌&&◌, List, [], ◌∷◌, ltb, ◌==◌, if◌then◌else◌}
use blueberry.Cma.{Capture}
use blueberry.Lexer.{cap_id}
use blueberry.Lexer.Token.{l_newline}

-- the line ends that start before a position
abbrev pub newlines_before : ℕ → List Capture → ℕ
newlines_before char_pos [] = 0
newlines_before char_pos (c ∷ cs) =
    let rest = newlines_before char_pos cs in
    if cap_id c == l_newline && ltb c.start char_pos then suc rest else rest
