-- ===== src/Cma.antt =====
-- cma/cma.c and cma/cma.h: the pattern matcher. A pattern is a tree of opcodes; a run moves `pos`
-- over the input and records captures. A pointer into the input is its index, a set of characters
-- the function that tests a bit, and the arrays of saved positions and of captures are the lists of
-- their entries in use. The table of 16-byte blocks that SSSE3 code looks characters up in is left
-- out: the build that does not have it calls the scalar loop.
pub mod Captures
pub mod Keeps
pub mod Leaves
pub mod Calls
pub mod Contract
pub mod Ends
pub mod Build
pub mod Peg
pub mod Tests
pub mod Progress
use blueberry.Prelude.{
  ℕ, zero, suc, ◌+◌, ◌-◌, Bool, true, false, not, ◌&&◌, ◌||◌, List, [], ◌∷◌, ◌++◌, ltb, leb, ◌==◌,
  eq_list, if◌then◌else◌, length, get_or, set, take, drop,
}

abbrev pub Bytes : Type 0
Bytes = List ℕ

-- what a capture is tagged with: nothing, a name, a number, or the callback that may reject it
pub data Tag : Type 0 where
  untagged : Tag
  named : Bytes → Tag
  numbered : ℕ → Tag
  callback : ℕ → Tag

-- The opcodes. `rep_set_op` is the repetition of a set, for which cma_init_rep chooses another
-- function. A reference, or a function of the user, is a number that `Hooks` gives a meaning to.
mutual
  pub data Op : Type 0 where
    str_op : Bytes → Bool → Op
    set_op : (ℕ → Bool) → Op
    and_op : Ops → Op
    or_op : Ops → Op
    not_op : Op → Op
    ahead_op : Op → Op
    rep_op : ℕ → ℕ → Op → Op
    rep_set_op : ℕ → ℕ → (ℕ → Bool) → Op
    cap_op : Tag → Op → Op
    ref_op : ℕ → Op
    exec_op : ℕ → Op
    endl_op : Op
    noop_op : Op

  pub data Ops : Type 0 where
    no_ops : Ops
    op : Op → Ops → Ops

pub record Capture : Type 0 where
  pub tag : Tag
  pub start : ℕ
  pub stop : ℕ
  pub nested : ℕ

-- `cma_state`; a save is a position and a number of captures
pub record State : Type 0 where
  pub input : Bytes
  pub pos : ℕ
  pub saves : List (ℕ × ℕ)
  pub caps : List Capture
  pub farthest : ℕ
  pub end_is_miss : Bool

-- What a match function does: it returns 1 or 0, or jumps out to cma_match. `no_fuel` is none of
-- these: the model's calls were nested too deep.
pub data Outcome : Type 0 where
  matched : State → Outcome
  missed : State → Outcome
  jumped : State → Outcome
  no_fuel : Outcome

-- The user's part of a grammar: the target of a reference, whether a callback accepts a capture, and
-- a match function.
pub record Hooks : Type 0 where
  pub resolve : ℕ → Op
  pub accept : ℕ → State → Bool
  pub exec : ℕ → State → Outcome

-- what is done behind a match and behind a miss
abbrev pub on_result : Outcome → (State → Outcome) → (State → Outcome) → Outcome
on_result (matched s) f g = f s
on_result (missed s) f g = g s
on_result (jumped s) f g = jumped s
on_result no_fuel f g = no_fuel

abbrev pub ret_missed : State → Outcome
ret_missed s = missed (record s { farthest = if ltb s.farthest s.pos then s.pos else s.farthest })

abbrev pub ret_end_reached : State → Outcome
ret_end_reached s = if s.end_is_miss then missed s else jumped s

-- cma_push; the index that it returns is the length of the stack before
abbrev pub push : State → State
push s = record s { saves = s.saves ++ (s.pos, length s.caps) ∷ [] }

abbrev pub backtrack : ℕ → State → State
backtrack sp s =
    let saved = get_or s.saves sp (0, 0) in
    record s { pos = saved.0; caps = take saved.1 s.caps; saves = take sp s.saves }

abbrev pub commit : ℕ → State → State
commit sp s = record s { saves = take sp s.saves }

-- `tolower` of the C locale
abbrev pub lower_case : ℕ → ℕ
lower_case c = if leb 65 c && leb c 90 then c + 32 else c

abbrev pub lower_all : Bytes → Bytes
lower_all [] = []
lower_all (c ∷ cs) = lower_case c ∷ lower_all cs

-- the first `n` bytes at the position are those of the text
pub same : Bool → ℕ → Bytes → State → Bool
same insensitive n buf s =
    let here = take n (drop s.pos s.input) in
    if insensitive
    then eq_list (lower_all here) (lower_all (take n buf))
    else eq_list here (take n buf)

pub match_str : Bytes → Bool → State → Outcome
match_str buf insensitive s =
    if ltb (length s.input) (s.pos + length buf)
    then if same insensitive (length s.input - s.pos) buf s then ret_end_reached s else ret_missed s
    else if not insensitive && (leb 4 (length buf) && not (same false 4 buf s))
    then ret_missed s
    else if same insensitive (length buf) buf s
    then matched (record s { pos = s.pos + length buf })
    else ret_missed s

pub match_set : (ℕ → Bool) → State → Outcome
match_set bits s =
    if leb (length s.input) s.pos
    then ret_end_reached s
    else if bits (get_or s.input s.pos 0)
    then matched (record s { pos = s.pos + 1 })
    else ret_missed s

pub match_endl : State → Outcome
match_endl s = if leb (length s.input) s.pos then matched s else ret_missed s

-- the `while` of cma_match_rep_set_nosimd: the position and the count
pub scan : (ℕ → Bool) → Bytes → ℕ → ℕ → ℕ → ℕ → ℕ × ℕ
scan bits input max zero pos count = (pos, count)
scan bits input max (suc fuel) pos count =
    let rest = scan bits input max fuel (pos + 1) (count + 1) in
    if ltb count max && ltb pos (length input) && bits (get_or input pos 0)
    then rest
    else (pos, count)

pub match_rep_set : ℕ → ℕ → (ℕ → Bool) → State → Outcome
match_rep_set min max bits s =
    let sp = length s.saves in
    let (pos, count) = scan bits s.input max (length s.input + 1) s.pos 0 in
    if leb (length s.input) pos && ltb count max && not s.end_is_miss
    then jumped (push s)
    else if ltb count min
    then ret_missed (backtrack sp (push s))
    else matched (commit sp (record (push s) { pos = pos }))

-- The functions below call `call` for the opcodes inside theirs.
pub and_loop : (State → Op → Outcome) → Ops → ℕ → State → Outcome
and_loop call no_ops sp s = matched (commit sp s)
and_loop call (op o os) sp s =
    on_result (call s o) (and_loop call os sp) (λ t. ret_missed (backtrack sp t))

pub or_loop : (State → Op → Outcome) → Ops → State → Outcome
or_loop call no_ops s = ret_missed s
or_loop call (op o os) s = on_result (call s o) matched (or_loop call os)

abbrev pub rep_end : ℕ → ℕ → ℕ → State → Outcome
rep_end min sp count s =
    if ltb count min then ret_missed (backtrack sp s) else matched (commit sp s)

pub rep_loop : (State → Op → Outcome) → ℕ → ℕ → Op → ℕ → ℕ → ℕ → State → Outcome
rep_loop call min max p sp zero count s = no_fuel
rep_loop call min max p sp (suc rounds) count s =
    let round =
      on_result (call s p)
        (λ t.
          if t.pos == s.pos
          then rep_end min sp count t
          else rep_loop call min max p sp rounds (count + 1) t)
        (rep_end min sp count) in
    if ltb count max then round else rep_end min sp count s

module _ (hooks : Hooks) where
  -- whether a capture with the tag is kept
  abbrev pub accepted : Tag → State → Bool
  accepted (callback c) s = hooks.accept c s
  accepted tag s = true

  -- what is done behind a match inside a capture
  pub captured : Tag → State → State → Outcome
  captured tag s t =
      let at = length s.caps in
      let cap : Capture = record {
        tag = tag;
        start = s.pos;
        stop = t.pos;
        nested = length t.caps - (at + 1);
      } in
      let kept = record t { caps = set t.caps at cap } in
      if accepted tag kept
      then matched (commit (length s.saves) kept)
      else ret_missed (backtrack (length s.saves) kept)

  abbrev pub no_capture : Capture
  no_capture = record { tag = untagged; start = 0; stop = 0; nested = 0 }

  -- cma_push and cma_cap_push
  abbrev pub opened : State → State
  opened s = record (push s) { caps = s.caps ++ no_capture ∷ [] }

  -- The call of the opcode's function, which calls those inside it at one less.
  pub call : ℕ → State → Op → Outcome
  call zero s o = no_fuel
  call (suc fuel) s (str_op buf insensitive) = match_str buf insensitive s
  call (suc fuel) s (set_op bits) = match_set bits s
  call (suc fuel) s (and_op os) = and_loop (call fuel) os (length s.saves) (push s)
  call (suc fuel) s (or_op os) = or_loop (call fuel) os s
  call (suc fuel) s (not_op p) =
      let sp = length s.saves in
      on_result (call fuel (push s) p) (λ t. ret_missed (backtrack sp t))
        (λ t. matched (backtrack sp t))
  call (suc fuel) s (ahead_op p) =
      let sp = length s.saves in
      on_result (call fuel (push s) p) (λ t. matched (backtrack sp t))
        (λ t. ret_missed (backtrack sp t))
  call (suc fuel) s (rep_op min max p) =
      rep_loop (call fuel) min max p (length s.saves) (length s.input + 2) 0 (push s)
  call (suc fuel) s (rep_set_op min max bits) = match_rep_set min max bits s
  call (suc fuel) s (cap_op tag p) =
      on_result (call fuel (opened s) p) (captured tag s)
        (λ t. ret_missed (backtrack (length s.saves) t))
  call (suc fuel) s (ref_op r) = call fuel s (hooks.resolve r)
  call (suc fuel) s (exec_op e) = hooks.exec e s
  call (suc fuel) s endl_op = match_endl s
  call (suc fuel) s noop_op = matched s
