-- ===== src/Script/Switch.antt =====
-- src/script.cpp: the switch of `EvalScript`, with the cases that change its control.
use ixcoin.Common.{ℕ, List, [], ◌∷◌, Bool, true, false, not, if◌then◌else◌, Option, none, some}
use ixcoin.Common.Int.{ℤ, pos, negsuc}
use ixcoin.Serialize.{Bytes}
use ixcoin.Bignum.{get_vch, of_int}
use ixcoin.Script.Opcode.{Opcode}
use ixcoin.Script.Machine.{Context, Machine, cast_to_bool}
use ixcoin.Common.{◌>>=◌}
use ixcoin.Script.Ops.Stack.{
  Stack, to_alt_stack, from_alt_stack, two_drop, two_dup, three_dup, two_over, two_rot, two_swap,
  if_dup, depth, drop_top, dup, nip, over, pick, rot, swap, tuck,
}
use ixcoin.Script.Ops.Splice.{cat, substr, left_right, size, invert, bitwise, equal}
use ixcoin.Script.Ops.Numeric.{Unary, Binary, unary, binary, within}
use ixcoin.Script.Ops.Crypto.{Digest, hash_top, check_sig_op, check_multisig_op}
use Prim.Native.Nat.{bit_and, bit_or, bit_xor}

unfoldable pub pop : Stack → Option (Bytes × Stack)
pop [] = none
pop (v ∷ s) = some (v, s)

-- OP_IF and OP_NOTIF
unfoldable pub branch : Bool → Bool → Machine → Option Machine
unfolding pop
branch negated false m = some (record m { exec = false ∷ m.exec })
branch negated true m = do
  (v, s) ← pop m.stack
  let value = cast_to_bool v
  some (record m { stack = s; exec = (if negated then not value else value) ∷ m.exec })

-- OP_ELSE and OP_ENDIF on `vfExec`
unfoldable pub else_branch : List Bool → Option (List Bool)
else_branch [] = none
else_branch (b ∷ bs) = some (not b ∷ bs)

unfoldable pub end_branch : List Bool → Option (List Bool)
end_branch [] = none
end_branch (b ∷ bs) = some bs

unfoldable pub verify : Stack → Option Stack
verify [] = none
verify (v ∷ s) = if cast_to_bool v then some s else none

unfoldable pub on_stack : Machine → Option Stack → Option Machine
on_stack m r = do s ← r; some (record m { stack = s })

unfoldable pub on_both : Machine → Option (Stack × Stack) → Option Machine
on_both m r = do (s, a) ← r; some (record m { stack = s; altstack = a })

unfoldable pub on_exec : Machine → Option (List Bool) → Option Machine
on_exec m r = do e ← r; some (record m { exec = e })

unfoldable pub on_count : Machine → Option (Stack × ℕ) → Option Machine
on_count m r = do (s, n) ← r; some (record m { stack = s; op_count = n })

-- OP_1NEGATE and OP_1 to OP_16
unfoldable pub push_number : Context → ℤ → Machine → Option Machine
push_number c n m = some (record m { stack = get_vch c.bn (of_int c.bn n) ∷ m.stack })

-- The switch; `executing` is `fExec` and `rest` the script behind the operation.
unfoldable pub switch : Context → Opcode → Bool → Bytes → Machine → Option Machine
unfolding on_stack on_both on_exec on_count
switch c Opcode.op_1negate executing rest m = push_number c (negsuc 0) m
switch c Opcode.op_1 executing rest m = push_number c (pos 1) m
switch c Opcode.op_2 executing rest m = push_number c (pos 2) m
switch c Opcode.op_3 executing rest m = push_number c (pos 3) m
switch c Opcode.op_4 executing rest m = push_number c (pos 4) m
switch c Opcode.op_5 executing rest m = push_number c (pos 5) m
switch c Opcode.op_6 executing rest m = push_number c (pos 6) m
switch c Opcode.op_7 executing rest m = push_number c (pos 7) m
switch c Opcode.op_8 executing rest m = push_number c (pos 8) m
switch c Opcode.op_9 executing rest m = push_number c (pos 9) m
switch c Opcode.op_10 executing rest m = push_number c (pos 10) m
switch c Opcode.op_11 executing rest m = push_number c (pos 11) m
switch c Opcode.op_12 executing rest m = push_number c (pos 12) m
switch c Opcode.op_13 executing rest m = push_number c (pos 13) m
switch c Opcode.op_14 executing rest m = push_number c (pos 14) m
switch c Opcode.op_15 executing rest m = push_number c (pos 15) m
switch c Opcode.op_16 executing rest m = push_number c (pos 16) m
switch c Opcode.op_nop executing rest m = some m
switch c Opcode.op_nop1 executing rest m = some m
switch c Opcode.op_nop2 executing rest m = some m
switch c Opcode.op_nop3 executing rest m = some m
switch c Opcode.op_nop4 executing rest m = some m
switch c Opcode.op_nop5 executing rest m = some m
switch c Opcode.op_nop6 executing rest m = some m
switch c Opcode.op_nop7 executing rest m = some m
switch c Opcode.op_nop8 executing rest m = some m
switch c Opcode.op_nop9 executing rest m = some m
switch c Opcode.op_nop10 executing rest m = some m
switch c Opcode.op_if executing rest m = branch false executing m
switch c Opcode.op_notif executing rest m = branch true executing m
switch c Opcode.op_else executing rest m = on_exec m (else_branch m.exec)
switch c Opcode.op_endif executing rest m = on_exec m (end_branch m.exec)
switch c Opcode.op_verify executing rest m = on_stack m (verify m.stack)
switch c Opcode.op_return executing rest m = none
switch c Opcode.op_toaltstack executing rest m = on_both m (to_alt_stack m.stack m.altstack)
switch c Opcode.op_fromaltstack executing rest m = on_both m (from_alt_stack m.stack m.altstack)
switch c Opcode.op_2drop executing rest m = on_stack m (two_drop m.stack)
switch c Opcode.op_2dup executing rest m = on_stack m (two_dup m.stack)
switch c Opcode.op_3dup executing rest m = on_stack m (three_dup m.stack)
switch c Opcode.op_2over executing rest m = on_stack m (two_over m.stack)
switch c Opcode.op_2rot executing rest m = on_stack m (two_rot m.stack)
switch c Opcode.op_2swap executing rest m = on_stack m (two_swap m.stack)
switch c Opcode.op_ifdup executing rest m = on_stack m (if_dup m.stack)
switch c Opcode.op_depth executing rest m = on_stack m (depth c.bn m.stack)
switch c Opcode.op_drop executing rest m = on_stack m (drop_top m.stack)
switch c Opcode.op_dup executing rest m = on_stack m (dup m.stack)
switch c Opcode.op_nip executing rest m = on_stack m (nip m.stack)
switch c Opcode.op_over executing rest m = on_stack m (over m.stack)
switch c Opcode.op_pick executing rest m = on_stack m (pick c.bn false m.stack)
switch c Opcode.op_roll executing rest m = on_stack m (pick c.bn true m.stack)
switch c Opcode.op_rot executing rest m = on_stack m (rot m.stack)
switch c Opcode.op_swap executing rest m = on_stack m (swap m.stack)
switch c Opcode.op_tuck executing rest m = on_stack m (tuck m.stack)
switch c Opcode.op_cat executing rest m = on_stack m (cat m.stack)
switch c Opcode.op_substr executing rest m = on_stack m (substr c.bn m.stack)
switch c Opcode.op_left executing rest m = on_stack m (left_right c.bn true m.stack)
switch c Opcode.op_right executing rest m = on_stack m (left_right c.bn false m.stack)
switch c Opcode.op_size executing rest m = on_stack m (size c.bn m.stack)
switch c Opcode.op_invert executing rest m = on_stack m (invert m.stack)
switch c Opcode.op_and executing rest m = on_stack m (bitwise bit_and m.stack)
switch c Opcode.op_or executing rest m = on_stack m (bitwise bit_or m.stack)
switch c Opcode.op_xor executing rest m = on_stack m (bitwise bit_xor m.stack)
switch c Opcode.op_equal executing rest m = on_stack m (equal false m.stack)
switch c Opcode.op_equalverify executing rest m = on_stack m (equal true m.stack)
switch c Opcode.op_1add executing rest m = on_stack m (unary c.bn Unary.add1 m.stack)
switch c Opcode.op_1sub executing rest m = on_stack m (unary c.bn Unary.sub1 m.stack)
switch c Opcode.op_2mul executing rest m = on_stack m (unary c.bn Unary.mul2 m.stack)
switch c Opcode.op_2div executing rest m = on_stack m (unary c.bn Unary.div2 m.stack)
switch c Opcode.op_negate executing rest m = on_stack m (unary c.bn Unary.negate m.stack)
switch c Opcode.op_abs executing rest m = on_stack m (unary c.bn Unary.abs m.stack)
switch c Opcode.op_not executing rest m = on_stack m (unary c.bn Unary.not m.stack)
switch c Opcode.op_0notequal executing rest m = on_stack m (unary c.bn Unary.zero_not_equal m.stack)
switch c Opcode.op_add executing rest m = on_stack m (binary c.bn Binary.add m.stack)
switch c Opcode.op_sub executing rest m = on_stack m (binary c.bn Binary.sub m.stack)
switch c Opcode.op_mul executing rest m = on_stack m (binary c.bn Binary.mul m.stack)
switch c Opcode.op_div executing rest m = on_stack m (binary c.bn Binary.div m.stack)
switch c Opcode.op_mod executing rest m = on_stack m (binary c.bn Binary.rem m.stack)
switch c Opcode.op_lshift executing rest m = on_stack m (binary c.bn Binary.lshift m.stack)
switch c Opcode.op_rshift executing rest m = on_stack m (binary c.bn Binary.rshift m.stack)
switch c Opcode.op_booland executing rest m = on_stack m (binary c.bn Binary.bool_and m.stack)
switch c Opcode.op_boolor executing rest m = on_stack m (binary c.bn Binary.bool_or m.stack)
switch c Opcode.op_numequal executing rest m = on_stack m (binary c.bn Binary.num_equal m.stack)
switch c Opcode.op_numequalverify executing rest m =
    on_stack m (binary c.bn Binary.num_equal_verify m.stack)
switch c Opcode.op_numnotequal executing rest m =
    on_stack m (binary c.bn Binary.num_not_equal m.stack)
switch c Opcode.op_lessthan executing rest m = on_stack m (binary c.bn Binary.less_than m.stack)
switch c Opcode.op_greaterthan executing rest m =
    on_stack m (binary c.bn Binary.greater_than m.stack)
switch c Opcode.op_lessthanorequal executing rest m =
    on_stack m (binary c.bn Binary.less_than_or_equal m.stack)
switch c Opcode.op_greaterthanorequal executing rest m =
    on_stack m (binary c.bn Binary.greater_than_or_equal m.stack)
switch c Opcode.op_min executing rest m = on_stack m (binary c.bn Binary.min m.stack)
switch c Opcode.op_max executing rest m = on_stack m (binary c.bn Binary.max m.stack)
switch c Opcode.op_within executing rest m = on_stack m (within c.bn m.stack)
switch c Opcode.op_ripemd160 executing rest m =
    on_stack m (hash_top c.hashes Digest.ripemd160 m.stack)
switch c Opcode.op_sha1 executing rest m = on_stack m (hash_top c.hashes Digest.sha1 m.stack)
switch c Opcode.op_sha256 executing rest m = on_stack m (hash_top c.hashes Digest.sha256 m.stack)
switch c Opcode.op_hash160 executing rest m = on_stack m (hash_top c.hashes Digest.hash160 m.stack)
switch c Opcode.op_hash256 executing rest m = on_stack m (hash_top c.hashes Digest.hash256 m.stack)
switch c Opcode.op_codeseparator executing rest m = some (record m { code_hash = rest })
switch c Opcode.op_checksig executing rest m = on_stack m (check_sig_op c false m.code_hash m.stack)
switch c Opcode.op_checksigverify executing rest m =
    on_stack m (check_sig_op c true m.code_hash m.stack)
switch c Opcode.op_checkmultisig executing rest m =
    on_count m (check_multisig_op c false m.code_hash m.op_count m.stack)
switch c Opcode.op_checkmultisigverify executing rest m =
    on_count m (check_multisig_op c true m.code_hash m.op_count m.stack)
switch c _ executing rest m = none
