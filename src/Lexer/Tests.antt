-- ===== src/Lexer/Tests.antt =====
-- Concrete texts, and the theorems at them.
use blueberry.Prelude.{ℕ, ◌≡◌, true, List, [], ◌∷◌}
use blueberry.Cma.{numbered, Capture}
use blueberry.Lexer.{tok_eof, Parser, next, peek, try_next}
use blueberry.Lexer.Grammar.{codes}
use blueberry.Lexer.Token.{l_if, l_identifier, l_newline}
use blueberry.Lexer.Reads.{first, rest, pending, asked, reads_in_order}

-- a keyword, a byte that no token has, and a string that does not end
abbrev program : List ℕ
program = codes "if @ \"b"

-- a parser with a name, a line end and a keyword
abbrev cap : ℕ → ℕ → ℕ → Capture
cap id from upto = record { tag = numbered id; start = from; stop = upto; nested = 0 }

abbrev three : Parser
three = record {
  cma = record {
    input = codes "x\nif";
    pos = 4;
    saves = [];
    farthest = 4;
    end_is_miss = true;
    caps = cap l_identifier 0 1 ∷ cap l_newline 1 2 ∷ cap l_if 2 4 ∷ [];
  };
  buf = codes "x\nif";
  pos = 1;
}

reads_in_order_example :
    ((next three).0 ≡ first (pending three))
    × (pending (next three).1 ≡ rest (pending three))
    × (peek three ≡ (next three).0)
    × (try_next three l_if ≡ asked l_if (pending three) (next three) (tok_eof, three))
reads_in_order_example = reads_in_order three l_if
