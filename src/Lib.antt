-- ===== src/Lib.antt =====
-- Verification of Blueberry, a scripting language in C: its data structures, and the way of a
-- compiled program from the code generator to the virtual machine.
--
-- The compiler (lexer.c, parser.c, bytecode.c) makes opcodes from a source text. encoder.c writes
-- them as a file, blueberry_vm/bytecode_load.c reads the file back, and bb_build_cached of
-- blueberry.c turns its code into the table that the interpreter runs. The values of a running
-- program are the containers of ci_array.c, ci_tree.c and ci_map.c, whose memory tgmemlib gives.
--
-- - Prelude: Boolean tests, lists and signed integers over the native numbers, machine words with
--   their wrap-around, blocks copied over buffers, results with errors as values.
-- - Array: ci_array.c, the circular buffer behind arrays. The record `Array` is `ci_array`, with a
--   function for each ci_arr_ function. A pointer is a number, NULL is 0, and what malloc and the
--   slot allocator give is the parameter `Memory`. The abstract view is the list of elements.
-- - Bytecode: encoder.c (Buffer, Opcode, Function, Encode, Unit), blueberry_vm/bytecode_load.c
--   (Load) and bb_build_cached of blueberry.c (Cache). Format and Instruction describe the wire
--   format on their own, as the comments of the source do, and the theorems tie writer and
--   readers to it. A call of b_error or bb_error, which end the program, is an error value.
-- - Tree: ci_tree.c, the ordered map, a B-tree. Node and Search are the functions on one node,
--   State the tree and when it is well-formed, and Find, Set, Delete and Iter the operations. A node
--   is a value, with its children inside it, since no node has two parents. The order of the keys is
--   a parameter with the laws of a total order, and so is what each malloc gives. Order is the
--   abstract view, a sorted list of pairs with lookup, insert and remove. Copy-on-write, which the
--   build does not turn on, ci_tree_default_cmp and the freeing of memory are left out.
-- - Cma: cma/cma.c and cma/cma.h, the matcher of parsing expression grammars behind the lexer. `Op`
--   is cma_op with the data of each kind, `State` cma_state, and `call` runs the match function of an
--   opcode. A longjmp is the outcome `jumped`. Calls is what each match function keeps, Contract and
--   Ends put them together, Build is how opcodes are set up, Peg the semantics of the grammars, and
--   Progress is on grammars that take any byte. The functions of the user are the parameter `Hooks`.
-- - Lexer: lexer.c, the grammar of the tokens (Token, Grammar), and what the parser calls to load a
--   text and to read its tokens.
-- - Map: ci_map.c, the hash map. `Map` is ci_map with its buffer as two lists; Map is the insertion
--   with displaced keys and the growth, Lookup ci_map_get, and Change ci_map_put and the deletions.
--   The function ci_map.hashcmp and whether calloc has memory are parameters.
--
-- Loops recur on what they walk over, or on the rounds left. A loop that runs until a test fails
-- has fuel: `reverse_loop` the length, since its two indices meet, and `build_loop` the length of
-- the code, since every round moves on by eight bytes or more. The operations on the tree have the
-- levels of the tree as fuel; `node_set`, which calls itself again behind each split, has 66 rounds
-- for each level, since a node takes in at most 64 medians, and `set_loop` has one for each pair.
-- The matcher's `call` has as fuel how deep the calls are nested, which for a grammar without
-- references is the depth of its opcodes, as in `load_buf`; `rep_loop` and `scan` have a round for
-- each byte of the input, since each moves on or stops.
-- The loops of Map have one round for each bucket.
--
-- Not modelled: the SSSE3 loop of the matcher, which a build flag turns on, and its dumps, the
-- compiler's passes between the lexer and the encoder, the interpreter's handlers and library
-- functions, text and number formatting, and the debugging aids of the allocator.
pub mod Array
pub mod Bytecode
pub mod Prelude
pub mod Tree
pub mod Cma
pub mod Lexer
pub mod Map
