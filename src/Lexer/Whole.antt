-- ===== src/Lexer/Whole.antt =====
-- lexer.c: the lexer goes through every text.
use blueberry.Prelude.{◌≡◌, length, All}
use blueberry.Cma.{Bytes}
use blueberry.Cma.Captures.{IsInOrder, Inside}
use blueberry.Lexer.{Parser}

-- a text that the lexer went through: it is loaded, and the tokens lie within it
pub record Lexed (buf : Bytes) (p : Parser) : Type 0 where
  pub text : p.buf ≡ buf
  pub input : p.cma.input ≡ buf
  pub first : p.pos ≡ 0
  pub whole : p.cma.pos ≡ length buf
  pub inside : All (Inside 0 (length buf)) p.cma.caps
  pub order : IsInOrder p.cma.caps
