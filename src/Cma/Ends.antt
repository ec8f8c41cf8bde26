-- ===== src/Cma/Ends.antt =====
-- The matcher ends: how deep the calls for a pattern are nested.
use Prim.Native.Nat.{max}
use blueberry.Prelude.{◌≡◌, Bool, true, false, ◌&&◌, ℕ, zero, suc, ◌≤◌, arith}
use blueberry.Cma.{
  Op, Ops, no_ops, op, str_op, set_op, and_op, or_op, not_op, ahead_op, rep_op, rep_set_op, cap_op,
  ref_op, exec_op, endl_op, noop_op, State, Hooks, call,
}
use blueberry.Cma.Keeps.{IsReady, Kept}
use blueberry.Cma.Calls
use blueberry.Cma.Contract.{Runs, call-Kept}

-- no references and no functions of the user
abbrev mutual
  pub IsPlain : Op → Type 0
  IsPlain (and_op os) = ArePlain os
  IsPlain (or_op os) = ArePlain os
  IsPlain (not_op p) = IsPlain p
  IsPlain (ahead_op p) = IsPlain p
  IsPlain (rep_op least most p) = IsPlain p
  IsPlain (cap_op tag p) = IsPlain p
  IsPlain (ref_op r) = ⊥
  IsPlain (exec_op e) = ⊥
  IsPlain o = Unit {0}

  pub ArePlain : Ops → Type 0
  ArePlain no_ops = Unit {0}
  ArePlain (op o os) = IsPlain o × ArePlain os

-- how deep calls are nested
unfoldable mutual
  pub depth : Op → ℕ
  depth (and_op os) = suc (depth_all os)
  depth (or_op os) = suc (depth_all os)
  depth (not_op p) = suc (depth p)
  depth (ahead_op p) = suc (depth p)
  depth (rep_op least most p) = suc (depth p)
  depth (cap_op tag p) = suc (depth p)
  depth o = 1

  pub depth_all : Ops → ℕ
  depth_all no_ops = 0
  depth_all (op o os) = max (depth o) (depth_all os)

mutual
  unfolding depth

  pub Runs-depth :
      (hooks : Hooks) (o : Op) (fuel : ℕ) → depth o ≤ fuel → IsPlain o → Runs ⊥ hooks fuel o
  Runs-depth hooks (and_op os) zero le p = absurd (omega arith)
  Runs-depth hooks (and_op os) (suc fuel) le p = Runs-depth_all hooks os fuel (omega arith) p
  Runs-depth hooks (or_op os) zero le p = absurd (omega arith)
  Runs-depth hooks (or_op os) (suc fuel) le p = Runs-depth_all hooks os fuel (omega arith) p
  Runs-depth hooks (not_op q) zero le p = absurd (omega arith)
  Runs-depth hooks (not_op q) (suc fuel) le p = Runs-depth hooks q fuel (omega arith) p
  Runs-depth hooks (ahead_op q) zero le p = absurd (omega arith)
  Runs-depth hooks (ahead_op q) (suc fuel) le p = Runs-depth hooks q fuel (omega arith) p
  Runs-depth hooks (rep_op n m q) zero le p = absurd (omega arith)
  Runs-depth hooks (rep_op n m q) (suc fuel) le p = Runs-depth hooks q fuel (omega arith) p
  Runs-depth hooks (cap_op t q) zero le p = absurd (omega arith)
  Runs-depth hooks (cap_op t q) (suc fuel) le p = Runs-depth hooks q fuel (omega arith) p
  Runs-depth hooks (ref_op r) fuel le p = absurd p
  Runs-depth hooks (exec_op e) fuel le p = absurd p
  Runs-depth hooks (str_op b i) zero le p = absurd (omega arith)
  Runs-depth hooks (str_op b i) (suc fuel) le p = tt
  Runs-depth hooks (set_op b) zero le p = absurd (omega arith)
  Runs-depth hooks (set_op b) (suc fuel) le p = tt
  Runs-depth hooks (rep_set_op n m b) zero le p = absurd (omega arith)
  Runs-depth hooks (rep_set_op n m b) (suc fuel) le p = tt
  Runs-depth hooks endl_op zero le p = absurd (omega arith)
  Runs-depth hooks endl_op (suc fuel) le p = tt
  Runs-depth hooks noop_op zero le p = absurd (omega arith)
  Runs-depth hooks noop_op (suc fuel) le p = tt

  pub Runs-depth_all :
      (hooks : Hooks) (os : Ops) (fuel : ℕ)
      → depth_all os ≤ fuel
      → ArePlain os
      → Calls.AllOps (Runs ⊥ hooks fuel) os
  Runs-depth_all hooks no_ops fuel le p = tt
  Runs-depth_all hooks (op o os) fuel le (p, q) =
      (Runs-depth hooks o fuel (omega arith) p, Runs-depth_all hooks os fuel (omega arith) q)

-- the same by evaluation
abbrev mutual
  pub plain : Op → Bool
  plain (and_op os) = plain_all os
  plain (or_op os) = plain_all os
  plain (not_op p) = plain p
  plain (ahead_op p) = plain p
  plain (rep_op least most p) = plain p
  plain (cap_op tag p) = plain p
  plain (ref_op r) = false
  plain (exec_op e) = false
  plain o = true

  pub plain_all : Ops → Bool
  plain_all no_ops = true
  plain_all (op o os) = plain o && plain_all os

mutual
  pub plain-IsPlain : (o : Op) → plain o ≡ true → IsPlain o
  plain-IsPlain (and_op os) h = plain_all-ArePlain os h
  plain-IsPlain (or_op os) h = plain_all-ArePlain os h
  plain-IsPlain (not_op p) h = plain-IsPlain p h
  plain-IsPlain (ahead_op p) h = plain-IsPlain p h
  plain-IsPlain (rep_op least most p) h = plain-IsPlain p h
  plain-IsPlain (cap_op tag p) h = plain-IsPlain p h
  plain-IsPlain (ref_op r) h = absurd (ground (arith, h))
  plain-IsPlain (exec_op e) h = absurd (ground (arith, h))
  plain-IsPlain (str_op b i) h = tt
  plain-IsPlain (set_op b) h = tt
  plain-IsPlain (rep_set_op n m b) h = tt
  plain-IsPlain endl_op h = tt
  plain-IsPlain noop_op h = tt

  pub plain_all-ArePlain : (os : Ops) → plain_all os ≡ true → ArePlain os
  plain_all-ArePlain no_ops h = tt
  plain_all-ArePlain (op o os) h =
      (plain-IsPlain o (ground (arith, h)), plain_all-ArePlain os (ground (arith, h)))

-- A pattern without references and functions of the user comes to its end, on any input and from any
-- position within it, when the calls may be nested as deep as the pattern: there is a match, a miss
-- or, with CMA_END_IS_MISS off, a jump, and the contract is kept.
pub call_ends :
    (hooks : Hooks) (o : Op) (fuel : ℕ)
    → depth o ≤ fuel
    → IsPlain o
    → (s : State) → IsReady s
    → Kept ⊥ (Calls.min_len o) s (call hooks fuel s o)
call_ends hooks o fuel le p s r = call-Kept ⊥ hooks fuel o s r (Runs-depth hooks o fuel le p)
