-- ===== src/Script/Eval.antt =====
-- src/script.cpp: `EvalScript` and `VerifyScript`. The switch is in Script/Switch.antt.
pub mod Steps
pub mod Forbidden
pub mod Bounded
pub mod Kept
pub mod Limits
pub mod Runs
use ixcoin.Common.{
  ℕ, zero, suc, ◌+◌, ◌-◌, ◌≤◌, List, [], ◌∷◌, Bool, true, false, ◌&&◌, ◌||◌, not, ltb, leb, ◌==◌,
  if◌then◌else◌, length, Option, none, some,
}
use ixcoin.Common.Int.{ℤ, pos, negsuc}
use ixcoin.Serialize.{Bytes}
use ixcoin.Bignum.{get_vch, of_int}
use ixcoin.Script.Opcode.{Opcode, value}
use ixcoin.Script.Parse.{get_op}
use ixcoin.Script.Switch.{switch}
use ixcoin.Script.Machine.{Context, Machine, cast_to_bool, max_element_size}
use ixcoin.Common.{◌>>=◌}
use ixcoin.Script.Ops.Stack.{
  Stack, to_alt_stack, from_alt_stack, two_drop, two_dup, three_dup, two_over, two_rot, two_swap,
  if_dup, depth, drop_top, dup, nip, over, pick, rot, swap, tuck,
}
use ixcoin.Script.Ops.Splice.{cat, substr, left_right, size, invert, bitwise, equal}
use ixcoin.Script.Ops.Numeric.{Unary, Binary, unary, binary, within}
use ixcoin.Script.Ops.Crypto.{Digest, hash_top, check_sig_op, check_multisig_op}
use Prim.Native.Nat.{bit_and, bit_or, bit_xor}

-- `!count(vfExec.begin(), vfExec.end(), false)`
unfoldable pub all_true : List Bool → Bool
all_true [] = true
all_true (b ∷ bs) = b && all_true bs

-- The operations that no script may hold, run or not.
unfoldable pub is_disabled : Opcode → Bool
is_disabled Opcode.op_cat = true
is_disabled Opcode.op_substr = true
is_disabled Opcode.op_left = true
is_disabled Opcode.op_right = true
is_disabled Opcode.op_invert = true
is_disabled Opcode.op_and = true
is_disabled Opcode.op_or = true
is_disabled Opcode.op_xor = true
is_disabled Opcode.op_2mul = true
is_disabled Opcode.op_2div = true
is_disabled Opcode.op_mul = true
is_disabled Opcode.op_div = true
is_disabled Opcode.op_mod = true
is_disabled Opcode.op_lshift = true
is_disabled Opcode.op_rshift = true
is_disabled _ = false

-- `OP_IF <= opcode && opcode <= OP_ENDIF`
unfoldable pub is_branching : Opcode → Bool
is_branching op = leb 99 (value op) && leb (value op) 104

-- One operation: data is pushed, a branch that is not taken runs the branching operations alone.
unfoldable pub run_op : Context → Opcode → Bytes → Bytes → Machine → Option Machine
unfolding is_branching
run_op c op v rest m =
    let executing = all_true m.exec in
    if executing && leb (value op) 78
    then some (record m { stack = v ∷ m.stack })
    else if executing || is_branching op
    then switch c op executing rest m
    else some m

-- The operations above OP_16 are counted, to 201 at most; `none` above that.
unfoldable pub count_op : Opcode → ℕ → Option ℕ
count_op op n =
    if ltb 96 (value op) then (if ltb 201 (n + 1) then none else some (n + 1)) else some n

unfoldable pub guard : Bool → Option (Unit {0})
guard true = some tt
guard false = none

-- The tests in front of an operation, and the limit on the stacks behind it.
unfoldable pub admit_op : Opcode → Bytes → ℕ → Option ℕ
unfolding guard
admit_op op v n = do
  _ ← guard (not (ltb max_element_size (length v)))
  ops ← count_op op n
  _ ← guard (not (is_disabled op))
  some ops

unfoldable pub stacks_fit : Machine → Bool
stacks_fit m = not (ltb 1000 (length m.stack + length m.altstack))

-- One round of the loop of `EvalScript`, and the script that it leaves.
unfoldable pub step : Context → Bytes → Machine → Option (Machine × Bytes)
unfolding guard
step c s m = do
  ((op, v), rest) ← get_op s
  ops ← admit_op op v m.op_count
  m' ← run_op c op v rest (record m { op_count = ops })
  _ ← guard (stacks_fit m')
  some (m', rest)

-- `stuck` is no result of the source: the fuel of the loop ran out.
pub data Outcome {ℓ} (A : Type ℓ) : Type ℓ where
  returns : A → Outcome A
  fails : Outcome A
  stuck : Outcome A

unfoldable pub loop : ℕ → Context → Bytes → Machine → Outcome Machine
loop f c [] m = returns m
loop zero c (b ∷ s) m = stuck
loop (suc f) c (b ∷ s) m = elim (step c (b ∷ s) m) [
  | none ↦ fails
  | some (m', rest) ↦ loop f c rest m'
]

abbrev pub start : Stack → Bytes → Machine
start st script = record { stack = st; altstack = []; exec = []; op_count = 0; code_hash = script }

-- Behind the loop no conditional may be open.
unfoldable pub finished : Outcome Machine → Outcome Stack
finished (returns m) = elim m.exec [ [] ↦ returns m.stack | _ ∷ _ ↦ fails ]
finished fails = fails
finished stuck = stuck

-- `EvalScript`: the stack that it leaves if it returns true. An operation takes a byte at least, so
-- the length of the script is fuel enough.
unfoldable pub eval_script : Context → Stack → Bytes → Outcome Stack
unfolding finished
eval_script c st script =
    if ltb 10000 (length script)
    then fails
    else finished (loop (length script) c script (start st script))

unfoldable pub top_is_true : Stack → Outcome Bool
top_is_true [] = returns false
top_is_true (v ∷ _) = returns (cast_to_bool v)

unfoldable pub second_script : Context → Bytes → Outcome Stack → Outcome Bool
unfolding top_is_true
second_script c script (returns st) = elim (eval_script c st script) [
  | returns st' ↦ top_is_true st'
  | fails ↦ returns false
  | stuck ↦ stuck
]
second_script c script fails = returns false
second_script c script stuck = stuck

-- `VerifyScript`: both scripts run one after the other on one stack, which then has a true value on
-- its top.
unfoldable pub verify_script : Context → Bytes → Bytes → Outcome Bool
unfolding second_script
verify_script c script_sig script_pub_key =
    second_script c script_pub_key (eval_script c [] script_sig)
