-- ===== src/Lexer/Token.antt =====
-- lexer.c: the numbers of the tokens.
use blueberry.Prelude.{ℕ}

abbrev pub l_function : ℕ
l_function = 0

abbrev pub l_var : ℕ
l_var = 1

abbrev pub l_if : ℕ
l_if = 2

abbrev pub l_else : ℕ
l_else = 3

abbrev pub l_while : ℕ
l_while = 4

abbrev pub l_for : ℕ
l_for = 5

abbrev pub l_do : ℕ
l_do = 6

abbrev pub l_true : ℕ
l_true = 7

abbrev pub l_false : ℕ
l_false = 8

abbrev pub l_undef : ℕ
l_undef = 9

abbrev pub l_null : ℕ
l_null = 10

abbrev pub l_return : ℕ
l_return = 11

abbrev pub l_break : ℕ
l_break = 12

abbrev pub l_next : ℕ
l_next = 13

abbrev pub l_continue : ℕ
l_continue = 14

abbrev pub l_goto : ℕ
l_goto = 15

abbrev pub l_require : ℕ
l_require = 16

abbrev pub l_in : ℕ
l_in = 17

abbrev pub l_int : ℕ
l_int = 18

abbrev pub l_hex : ℕ
l_hex = 19

abbrev pub l_bin : ℕ
l_bin = 20

abbrev pub l_double : ℕ
l_double = 21

abbrev pub l_string : ℕ
l_string = 22

abbrev pub l_identifier : ℕ
l_identifier = 23

abbrev pub l_label : ℕ
l_label = 24

abbrev pub l_semicolon : ℕ
l_semicolon = 25

abbrev pub l_comma : ℕ
l_comma = 26

abbrev pub l_colon : ℕ
l_colon = 27

abbrev pub l_curly_open : ℕ
l_curly_open = 28

abbrev pub l_curly_close : ℕ
l_curly_close = 29

abbrev pub l_paren_open : ℕ
l_paren_open = 30

abbrev pub l_paren_close : ℕ
l_paren_close = 31

abbrev pub l_bracket_open : ℕ
l_bracket_open = 32

abbrev pub l_bracket_close : ℕ
l_bracket_close = 33

abbrev pub l_hash_access : ℕ
l_hash_access = 34

abbrev pub l_map_access : ℕ
l_map_access = 35

abbrev pub l_method_reference : ℕ
l_method_reference = 36

abbrev pub l_pow_assign : ℕ
l_pow_assign = 37

abbrev pub l_lshift_assign : ℕ
l_lshift_assign = 38

abbrev pub l_rshift_assign : ℕ
l_rshift_assign = 39

abbrev pub l_or_assign : ℕ
l_or_assign = 40

abbrev pub l_and_assign : ℕ
l_and_assign = 41

abbrev pub l_notnull_assign : ℕ
l_notnull_assign = 42

abbrev pub l_hashcomma : ℕ
l_hashcomma = 43

abbrev pub l_eq : ℕ
l_eq = 44

abbrev pub l_neq : ℕ
l_neq = 45

abbrev pub l_gt_eq : ℕ
l_gt_eq = 46

abbrev pub l_lt_eq : ℕ
l_lt_eq = 47

abbrev pub l_bin_lshift : ℕ
l_bin_lshift = 48

abbrev pub l_bin_rshift : ℕ
l_bin_rshift = 49

abbrev pub l_incr : ℕ
l_incr = 50

abbrev pub l_decr : ℕ
l_decr = 51

abbrev pub l_pow : ℕ
l_pow = 52

abbrev pub l_or : ℕ
l_or = 53

abbrev pub l_and : ℕ
l_and = 54

abbrev pub l_notnull : ℕ
l_notnull = 55

abbrev pub l_add_assign : ℕ
l_add_assign = 56

abbrev pub l_sub_assign : ℕ
l_sub_assign = 57

abbrev pub l_mul_assign : ℕ
l_mul_assign = 58

abbrev pub l_div_assign : ℕ
l_div_assign = 59

abbrev pub l_mod_assign : ℕ
l_mod_assign = 60

abbrev pub l_bin_or_assign : ℕ
l_bin_or_assign = 61

abbrev pub l_bin_and_assign : ℕ
l_bin_and_assign = 62

abbrev pub l_bin_xor_assign : ℕ
l_bin_xor_assign = 63

abbrev pub l_assignment : ℕ
l_assignment = 64

abbrev pub l_add : ℕ
l_add = 65

abbrev pub l_sub : ℕ
l_sub = 66

abbrev pub l_mul : ℕ
l_mul = 67

abbrev pub l_div : ℕ
l_div = 68

abbrev pub l_mod : ℕ
l_mod = 69

abbrev pub l_not : ℕ
l_not = 70

abbrev pub l_gt : ℕ
l_gt = 71

abbrev pub l_lt : ℕ
l_lt = 72

abbrev pub l_bin_or : ℕ
l_bin_or = 73

abbrev pub l_bin_and : ℕ
l_bin_and = 74

abbrev pub l_bin_inv : ℕ
l_bin_inv = 75

abbrev pub l_bin_xor : ℕ
l_bin_xor = 76

abbrev pub l_newline : ℕ
l_newline = 77

abbrev pub l_err_unknown : ℕ
l_err_unknown = 78

abbrev pub l_count : ℕ
l_count = 79
