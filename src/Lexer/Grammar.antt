-- ===== src/Lexer/Grammar.antt =====
-- lexer.c: the grammar of the lexer. The macros of cma/cma.h that it is written in go by other names
-- here: S is `text`, Si `any_case`, R `class`, notCHRS `none_of`, MIN `at_least`, A `seq`, O `choice`,
-- CAPi `tagged`, KW `kw` and OP `fixed`.
use Prim.Native.Char.{code}
use Prim.Native.String.{String}
use blueberry.Prelude.{ℕ, true, false, List, [], ◌∷◌}
use blueberry.Cma.{Bytes, Op, Ops, no_ops, op, set_op, not_op, cap_op, numbered, endl_op}
use blueberry.Cma.Build.{
  no_bits, fill_str, fill_chrs, fill_range, invert, init_str, init_and, init_or, init_rep,
}
use blueberry.Lexer.Token.{
  l_add, l_add_assign, l_and, l_and_assign, l_assignment, l_bin, l_bin_and, l_bin_and_assign,
  l_bin_inv, l_bin_lshift, l_bin_or, l_bin_or_assign, l_bin_rshift, l_bin_xor, l_bin_xor_assign,
  l_bracket_close, l_bracket_open, l_break, l_colon, l_comma, l_curly_close, l_curly_open, l_decr,
  l_div, l_div_assign, l_do, l_double, l_else, l_eq, l_err_unknown, l_false, l_for, l_function,
  l_goto, l_gt, l_gt_eq, l_hash_access, l_hashcomma, l_hex, l_identifier, l_if, l_in, l_incr, l_int,
  l_label, l_lshift_assign, l_lt, l_lt_eq, l_map_access, l_method_reference, l_mod, l_mod_assign,
  l_mul, l_mul_assign, l_neq, l_newline, l_next, l_not, l_notnull, l_notnull_assign, l_null, l_or,
  l_or_assign, l_paren_close, l_paren_open, l_pow, l_pow_assign, l_return, l_rshift_assign,
  l_semicolon, l_string, l_sub, l_sub_assign, l_true, l_undef, l_var, l_while,
}

abbrev pub codes : String → Bytes
codes String.[] = []
codes (String.◌∷◌ c s) = code c ∷ codes s

abbrev pub ops : List Op → Ops
ops [] = no_ops
ops (o ∷ os) = op o (ops os)

abbrev pub text : String → Op
text str = init_str (codes str) false

abbrev pub any_case : String → Op
any_case str = init_str (codes str) true

abbrev pub class : String → Op
class spec = set_op (fill_str (codes spec) no_bits)

abbrev pub none_of : Bytes → Op
none_of chars = set_op (invert (fill_chrs chars no_bits))

abbrev pub seq : List Op → Op
seq os = init_and false (ops os)

abbrev pub choice : List Op → Op
choice os = init_or false (ops os)

-- CMA_INF
abbrev pub inf : ℕ
inf = 4294967295

abbrev pub at_least : ℕ → Op → Op
at_least n pat = init_rep n inf pat

-- ANY(n)
abbrev pub any_bytes : ℕ → Op
any_bytes n = init_rep n n (set_op (fill_range 0 255 no_bits))

abbrev pub tagged : Op → ℕ → Op
tagged pat id = cap_op (numbered id) pat

abbrev pub kw : String → ℕ → Op
kw str id =
    tagged
      (seq (
        not_op (seq (seq (class "A-Za-z_0-9" ∷ any_case str ∷ []) ∷ []))
        ∷ any_case str
        ∷ not_op (seq (class "A-Za-z_0-9" ∷ []))
        ∷ []))
      id

abbrev pub fixed : String → ℕ → Op
fixed str id = tagged (text str) id

abbrev pub line_comment : Op
line_comment = seq (text "//" ∷ at_least 0 (none_of (10 ∷ [])) ∷ [])

abbrev pub hash_comment : Op
hash_comment = seq (text "#" ∷ at_least 0 (none_of (10 ∷ [])) ∷ [])

-- spaces, tabs and carriage returns
abbrev pub ws_flat : Op
ws_flat = at_least 1 (set_op (fill_str (32 ∷ 9 ∷ 13 ∷ []) no_bits))

abbrev pub newline : Op
newline = tagged (init_str (10 ∷ []) false) l_newline

abbrev pub skip : Op
skip = choice (ws_flat ∷ newline ∷ line_comment ∷ hash_comment ∷ [])

-- 34, 39 and 92 are the two quotes and the backslash
abbrev pub dq_char : Op
dq_char =
    choice (seq (init_str (92 ∷ []) false ∷ any_bytes 1 ∷ []) ∷ none_of (34 ∷ 92 ∷ 10 ∷ []) ∷ [])

abbrev pub sq_char : Op
sq_char =
    choice (seq (init_str (92 ∷ []) false ∷ any_bytes 1 ∷ []) ∷ none_of (39 ∷ 92 ∷ 10 ∷ []) ∷ [])

abbrev pub dq_string : Op
dq_string = seq (
    init_str (34 ∷ []) false ∷ tagged (at_least 0 dq_char) l_string ∷ init_str (34 ∷ []) false ∷ [])

abbrev pub sq_string : Op
sq_string = seq (
    init_str (39 ∷ []) false ∷ tagged (at_least 0 sq_char) l_string ∷ init_str (39 ∷ []) false ∷ [])

abbrev pub hex_num : Op
hex_num = tagged (seq (text "0x" ∷ at_least 1 (class "0-9A-Fa-f") ∷ [])) l_hex

abbrev pub bin_num : Op
bin_num = tagged (seq (text "0b" ∷ at_least 1 (class "01") ∷ [])) l_bin

abbrev pub dbl_num : Op
dbl_num =
    tagged (seq (at_least 1 (class "0-9") ∷ text "." ∷ at_least 1 (class "0-9") ∷ [])) l_double

abbrev pub int_num : Op
int_num = tagged (at_least 1 (class "0-9")) l_int

abbrev pub ident : Op
ident = tagged (seq (class "A-Za-z_" ∷ at_least 0 (class "A-Za-z_0-9") ∷ [])) l_identifier

abbrev pub label : Op
label = seq (text ":" ∷ tagged ident l_label ∷ text ":" ∷ [])

abbrev pub error : Op
error = tagged (any_bytes 1) l_err_unknown

-- the alternatives of a token, in the order in which they are tried
abbrev pub tokens : List Op
tokens =
    dq_string
    ∷ sq_string
    ∷ kw "function" l_function
    ∷ kw "fun" l_function
    ∷ kw "fn" l_function
    ∷ kw "var" l_var
    ∷ kw "if" l_if
    ∷ kw "else" l_else
    ∷ kw "while" l_while
    ∷ kw "for" l_for
    ∷ kw "do" l_do
    ∷ kw "true" l_true
    ∷ kw "false" l_false
    ∷ kw "undef" l_undef
    ∷ kw "null" l_null
    ∷ kw "return" l_return
    ∷ kw "break" l_break
    ∷ kw "next" l_next
    ∷ kw "continue" l_next
    ∷ kw "goto" l_goto
    ∷ kw "in" l_in
    ∷ skip
    ∷ hex_num
    ∷ bin_num
    ∷ dbl_num
    ∷ int_num
    ∷ fixed "**=" l_pow_assign
    ∷ fixed "<<=" l_lshift_assign
    ∷ fixed ">>=" l_rshift_assign
    ∷ fixed "||=" l_or_assign
    ∷ fixed "&&=" l_and_assign
    ∷ fixed "??=" l_notnull_assign
    ∷ fixed "->" l_map_access
    ∷ fixed "<-" l_method_reference
    ∷ fixed "=>" l_hashcomma
    ∷ fixed "==" l_eq
    ∷ fixed "!=" l_neq
    ∷ fixed ">=" l_gt_eq
    ∷ fixed "<=" l_lt_eq
    ∷ fixed "<<" l_bin_lshift
    ∷ fixed ">>" l_bin_rshift
    ∷ fixed "++" l_incr
    ∷ fixed "--" l_decr
    ∷ fixed "**" l_pow
    ∷ fixed "??" l_notnull
    ∷ fixed "?=" l_notnull_assign
    ∷ fixed "||" l_or
    ∷ fixed "&&" l_and
    ∷ fixed "+=" l_add_assign
    ∷ fixed "-=" l_sub_assign
    ∷ fixed "*=" l_mul_assign
    ∷ fixed "/=" l_div_assign
    ∷ fixed "%=" l_mod_assign
    ∷ fixed "|=" l_bin_or_assign
    ∷ fixed "&=" l_bin_and_assign
    ∷ fixed "^=" l_bin_xor_assign
    ∷ label
    ∷ fixed ";" l_semicolon
    ∷ fixed "," l_comma
    ∷ fixed ":" l_colon
    ∷ fixed "{" l_curly_open
    ∷ fixed "}" l_curly_close
    ∷ fixed "(" l_paren_open
    ∷ fixed ")" l_paren_close
    ∷ fixed "[" l_bracket_open
    ∷ fixed "]" l_bracket_close
    ∷ fixed "." l_hash_access
    ∷ fixed "=" l_assignment
    ∷ fixed "+" l_add
    ∷ fixed "-" l_sub
    ∷ fixed "*" l_mul
    ∷ fixed "/" l_div
    ∷ fixed "%" l_mod
    ∷ fixed "!" l_not
    ∷ fixed ">" l_gt
    ∷ fixed "<" l_lt
    ∷ fixed "|" l_bin_or
    ∷ fixed "&" l_bin_and
    ∷ fixed "~" l_bin_inv
    ∷ fixed "^" l_bin_xor
    ∷ ident
    ∷ error
    ∷ []

unfoldable pub token : Op
token = choice tokens

-- any number of tokens, and the end
unfoldable pub grammar : Op
grammar = seq (at_least 0 token ∷ endl_op ∷ [])
