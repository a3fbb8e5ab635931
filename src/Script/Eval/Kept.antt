-- ===== src/Script/Eval/Kept.antt =====
-- Every operation keeps the limits on a machine.
use ixcoin.Common.{ℕ, ◌+◌, ◌^◌, ◌≤◌, ◌<◌, ◌≡◌, [], ◌∷◌, Bool, true, false, length, arith}
use ixcoin.Common.Int.{ℤ, pos, negsuc, pos_part, neg_part}
use ixcoin.Serialize.{Bytes}
use ixcoin.Bignum.{of_int, set_int64, get_vch}
use ixcoin.Script.Opcode.{Opcode}
use ixcoin.Script.Machine.{Context, Machine, IsItem}
use ixcoin.Script.Ops.Numeric.{Unary, Binary}
use ixcoin.Script.Ops.Crypto.{Digest}
use ixcoin.Script.Ops.Keep.{
  Every, to_alt_stack-keeps, from_alt_stack-keeps, two_drop-keeps, two_dup-keeps, three_dup-keeps,
  two_over-keeps, two_rot-keeps, two_swap-keeps, if_dup-keeps, drop_top-keeps, dup-keeps, nip-keeps,
  over-keeps, rot-keeps, swap-keeps, tuck-keeps, pick-keeps,
}
use ixcoin.Script.Ops.Items.{
  word-IsItem, get_vch-IsItem, equal-keeps, depth-keeps, size-keeps, unary-keeps, binary-keeps,
  within-keeps, hash_top-keeps, check_sig_op-keeps, check_multisig_op-keeps,
}
use ixcoin.Script.Eval.{is_disabled}
use ixcoin.Script.Switch.{else_branch, end_branch, push_number, switch}
use ixcoin.Script.Eval.Bounded.{
  ContextLaws, IsBounded, on_stack-keeps, on_both-keeps, on_exec-keeps, on_count-keeps,
  branch-keeps, verify-keeps,
}

module _ (c : Context) (laws : ContextLaws c) where
  of_int-pos : (n : ℕ) → of_int c.bn (pos n) ≡ c.bn.set_word n
  unfolding of_int
  of_int-pos n = ground arith

  of_int_minus_one : pos_part (of_int c.bn (negsuc 0)) + neg_part (of_int c.bn (negsuc 0)) < 2 ^ 31
  unfolding of_int set_int64
  of_int_minus_one = laws.bn_laws.mpi2bn_lt (129 ∷ []) (omega arith) (omega arith, tt)

  push_keeps :
      (z : ℤ) (m : Machine)
      → IsItem (get_vch c.bn (of_int c.bn z))
      → IsBounded m
      → Every IsBounded (push_number c z m)
  unfolding push_number
  push_keeps z m h b = record {
    stack_items = (h, b.stack_items);
    alt_items = b.alt_items;
    counted = b.counted;
  }

  push_number-keeps :
      (n : ℕ) (m : Machine) → n ≤ 16 → IsBounded m → Every IsBounded (push_number c (pos n) m)
  push_number-keeps n m h b =
      push_keeps (pos n) m (rw (of_int-pos n) (word-IsItem c.bn laws.bn_laws n (omega arith))) b

  push_minus_one-keeps : (m : Machine) → IsBounded m → Every IsBounded (push_number c (negsuc 0) m)
  push_minus_one-keeps m b =
      push_keeps (negsuc 0) m
        (get_vch-IsItem c.bn laws.bn_laws _ (let h = of_int_minus_one in omega arith)) b

  pub switch-keeps :
      (op : Opcode) (executing : Bool) (rest : Bytes) (m : Machine)
      → is_disabled op ≡ false
      → length m.stack < 2 ^ 32
      → IsBounded m
      → Every IsBounded (switch c op executing rest m)
  unfolding switch is_disabled
  switch-keeps Opcode.op_1negate x rest m d l b = push_minus_one-keeps m b
  switch-keeps Opcode.op_1 x rest m d l b = push_number-keeps 1 m (omega arith) b
  switch-keeps Opcode.op_2 x rest m d l b = push_number-keeps 2 m (omega arith) b
  switch-keeps Opcode.op_3 x rest m d l b = push_number-keeps 3 m (omega arith) b
  switch-keeps Opcode.op_4 x rest m d l b = push_number-keeps 4 m (omega arith) b
  switch-keeps Opcode.op_5 x rest m d l b = push_number-keeps 5 m (omega arith) b
  switch-keeps Opcode.op_6 x rest m d l b = push_number-keeps 6 m (omega arith) b
  switch-keeps Opcode.op_7 x rest m d l b = push_number-keeps 7 m (omega arith) b
  switch-keeps Opcode.op_8 x rest m d l b = push_number-keeps 8 m (omega arith) b
  switch-keeps Opcode.op_9 x rest m d l b = push_number-keeps 9 m (omega arith) b
  switch-keeps Opcode.op_10 x rest m d l b = push_number-keeps 10 m (omega arith) b
  switch-keeps Opcode.op_11 x rest m d l b = push_number-keeps 11 m (omega arith) b
  switch-keeps Opcode.op_12 x rest m d l b = push_number-keeps 12 m (omega arith) b
  switch-keeps Opcode.op_13 x rest m d l b = push_number-keeps 13 m (omega arith) b
  switch-keeps Opcode.op_14 x rest m d l b = push_number-keeps 14 m (omega arith) b
  switch-keeps Opcode.op_15 x rest m d l b = push_number-keeps 15 m (omega arith) b
  switch-keeps Opcode.op_16 x rest m d l b = push_number-keeps 16 m (omega arith) b
  switch-keeps Opcode.op_nop x rest m d l b = b
  switch-keeps Opcode.op_nop1 x rest m d l b = b
  switch-keeps Opcode.op_nop2 x rest m d l b = b
  switch-keeps Opcode.op_nop3 x rest m d l b = b
  switch-keeps Opcode.op_nop4 x rest m d l b = b
  switch-keeps Opcode.op_nop5 x rest m d l b = b
  switch-keeps Opcode.op_nop6 x rest m d l b = b
  switch-keeps Opcode.op_nop7 x rest m d l b = b
  switch-keeps Opcode.op_nop8 x rest m d l b = b
  switch-keeps Opcode.op_nop9 x rest m d l b = b
  switch-keeps Opcode.op_nop10 x rest m d l b = b
  switch-keeps Opcode.op_if x rest m d l b = branch-keeps m b false x
  switch-keeps Opcode.op_notif x rest m d l b = branch-keeps m b true x
  switch-keeps Opcode.op_else x rest m d l b = on_exec-keeps m b (else_branch m.exec)
  switch-keeps Opcode.op_endif x rest m d l b = on_exec-keeps m b (end_branch m.exec)
  switch-keeps Opcode.op_verify x rest m d l b =
      on_stack-keeps m b _ (verify-keeps m.stack b.stack_items)
  switch-keeps Opcode.op_return x rest m d l b = tt
  switch-keeps Opcode.op_toaltstack x rest m d l b =
      on_both-keeps m b _ (to_alt_stack-keeps IsItem m.stack m.altstack b.stack_items b.alt_items)
  switch-keeps Opcode.op_fromaltstack x rest m d l b =
      on_both-keeps m b _ (from_alt_stack-keeps IsItem m.stack m.altstack b.stack_items b.alt_items)
  switch-keeps Opcode.op_2drop x rest m d l b =
      on_stack-keeps m b _ (two_drop-keeps IsItem m.stack b.stack_items)
  switch-keeps Opcode.op_2dup x rest m d l b =
      on_stack-keeps m b _ (two_dup-keeps IsItem m.stack b.stack_items)
  switch-keeps Opcode.op_3dup x rest m d l b =
      on_stack-keeps m b _ (three_dup-keeps IsItem m.stack b.stack_items)
  switch-keeps Opcode.op_2over x rest m d l b =
      on_stack-keeps m b _ (two_over-keeps IsItem m.stack b.stack_items)
  switch-keeps Opcode.op_2rot x rest m d l b =
      on_stack-keeps m b _ (two_rot-keeps IsItem m.stack b.stack_items)
  switch-keeps Opcode.op_2swap x rest m d l b =
      on_stack-keeps m b _ (two_swap-keeps IsItem m.stack b.stack_items)
  switch-keeps Opcode.op_ifdup x rest m d l b =
      on_stack-keeps m b _ (if_dup-keeps IsItem m.stack b.stack_items)
  switch-keeps Opcode.op_drop x rest m d l b =
      on_stack-keeps m b _ (drop_top-keeps IsItem m.stack b.stack_items)
  switch-keeps Opcode.op_dup x rest m d l b =
      on_stack-keeps m b _ (dup-keeps IsItem m.stack b.stack_items)
  switch-keeps Opcode.op_nip x rest m d l b =
      on_stack-keeps m b _ (nip-keeps IsItem m.stack b.stack_items)
  switch-keeps Opcode.op_over x rest m d l b =
      on_stack-keeps m b _ (over-keeps IsItem m.stack b.stack_items)
  switch-keeps Opcode.op_rot x rest m d l b =
      on_stack-keeps m b _ (rot-keeps IsItem m.stack b.stack_items)
  switch-keeps Opcode.op_swap x rest m d l b =
      on_stack-keeps m b _ (swap-keeps IsItem m.stack b.stack_items)
  switch-keeps Opcode.op_tuck x rest m d l b =
      on_stack-keeps m b _ (tuck-keeps IsItem m.stack b.stack_items)
  switch-keeps Opcode.op_depth x rest m d l b =
      on_stack-keeps m b _ (depth-keeps c.bn laws.bn_laws m.stack l b.stack_items)
  switch-keeps Opcode.op_pick x rest m d l b =
      on_stack-keeps m b _ (pick-keeps IsItem c.bn false m.stack b.stack_items)
  switch-keeps Opcode.op_roll x rest m d l b =
      on_stack-keeps m b _ (pick-keeps IsItem c.bn true m.stack b.stack_items)
  switch-keeps Opcode.op_size x rest m d l b =
      on_stack-keeps m b _ (size-keeps c.bn laws.bn_laws m.stack b.stack_items)
  switch-keeps Opcode.op_equal x rest m d l b =
      on_stack-keeps m b _ (equal-keeps false m.stack b.stack_items)
  switch-keeps Opcode.op_equalverify x rest m d l b =
      on_stack-keeps m b _ (equal-keeps true m.stack b.stack_items)
  switch-keeps Opcode.op_1add x rest m d l b =
      on_stack-keeps m b _ (unary-keeps c.bn laws.bn_laws Unary.add1 m.stack tt b.stack_items)
  switch-keeps Opcode.op_1sub x rest m d l b =
      on_stack-keeps m b _ (unary-keeps c.bn laws.bn_laws Unary.sub1 m.stack tt b.stack_items)
  switch-keeps Opcode.op_negate x rest m d l b =
      on_stack-keeps m b _ (unary-keeps c.bn laws.bn_laws Unary.negate m.stack tt b.stack_items)
  switch-keeps Opcode.op_abs x rest m d l b =
      on_stack-keeps m b _ (unary-keeps c.bn laws.bn_laws Unary.abs m.stack tt b.stack_items)
  switch-keeps Opcode.op_not x rest m d l b =
      on_stack-keeps m b _ (unary-keeps c.bn laws.bn_laws Unary.not m.stack tt b.stack_items)
  switch-keeps Opcode.op_0notequal x rest m d l b =
      on_stack-keeps m b _
        (unary-keeps c.bn laws.bn_laws Unary.zero_not_equal m.stack tt b.stack_items)
  switch-keeps Opcode.op_add x rest m d l b =
      on_stack-keeps m b _ (binary-keeps c.bn laws.bn_laws Binary.add m.stack tt b.stack_items)
  switch-keeps Opcode.op_sub x rest m d l b =
      on_stack-keeps m b _ (binary-keeps c.bn laws.bn_laws Binary.sub m.stack tt b.stack_items)
  switch-keeps Opcode.op_booland x rest m d l b =
      on_stack-keeps m b _ (binary-keeps c.bn laws.bn_laws Binary.bool_and m.stack tt b.stack_items)
  switch-keeps Opcode.op_boolor x rest m d l b =
      on_stack-keeps m b _ (binary-keeps c.bn laws.bn_laws Binary.bool_or m.stack tt b.stack_items)
  switch-keeps Opcode.op_numequal x rest m d l b =
      on_stack-keeps m b _
        (binary-keeps c.bn laws.bn_laws Binary.num_equal m.stack tt b.stack_items)
  switch-keeps Opcode.op_numequalverify x rest m d l b =
      on_stack-keeps m b _
        (binary-keeps c.bn laws.bn_laws Binary.num_equal_verify m.stack tt b.stack_items)
  switch-keeps Opcode.op_numnotequal x rest m d l b =
      on_stack-keeps m b _
        (binary-keeps c.bn laws.bn_laws Binary.num_not_equal m.stack tt b.stack_items)
  switch-keeps Opcode.op_lessthan x rest m d l b =
      on_stack-keeps m b _
        (binary-keeps c.bn laws.bn_laws Binary.less_than m.stack tt b.stack_items)
  switch-keeps Opcode.op_greaterthan x rest m d l b =
      on_stack-keeps m b _
        (binary-keeps c.bn laws.bn_laws Binary.greater_than m.stack tt b.stack_items)
  switch-keeps Opcode.op_lessthanorequal x rest m d l b =
      on_stack-keeps m b _
        (binary-keeps c.bn laws.bn_laws Binary.less_than_or_equal m.stack tt b.stack_items)
  switch-keeps Opcode.op_greaterthanorequal x rest m d l b =
      on_stack-keeps m b _
        (binary-keeps c.bn laws.bn_laws Binary.greater_than_or_equal m.stack tt b.stack_items)
  switch-keeps Opcode.op_min x rest m d l b =
      on_stack-keeps m b _ (binary-keeps c.bn laws.bn_laws Binary.min m.stack tt b.stack_items)
  switch-keeps Opcode.op_max x rest m d l b =
      on_stack-keeps m b _ (binary-keeps c.bn laws.bn_laws Binary.max m.stack tt b.stack_items)
  switch-keeps Opcode.op_within x rest m d l b =
      on_stack-keeps m b _ (within-keeps c.bn laws.bn_laws m.stack b.stack_items)
  switch-keeps Opcode.op_ripemd160 x rest m d l b =
      on_stack-keeps m b _
        (hash_top-keeps c.hashes laws.hash_laws Digest.ripemd160 m.stack b.stack_items)
  switch-keeps Opcode.op_sha1 x rest m d l b =
      on_stack-keeps m b _
        (hash_top-keeps c.hashes laws.hash_laws Digest.sha1 m.stack b.stack_items)
  switch-keeps Opcode.op_sha256 x rest m d l b =
      on_stack-keeps m b _
        (hash_top-keeps c.hashes laws.hash_laws Digest.sha256 m.stack b.stack_items)
  switch-keeps Opcode.op_hash160 x rest m d l b =
      on_stack-keeps m b _
        (hash_top-keeps c.hashes laws.hash_laws Digest.hash160 m.stack b.stack_items)
  switch-keeps Opcode.op_hash256 x rest m d l b =
      on_stack-keeps m b _
        (hash_top-keeps c.hashes laws.hash_laws Digest.hash256 m.stack b.stack_items)
  switch-keeps Opcode.op_codeseparator x rest m d l b = record {
    stack_items = b.stack_items;
    alt_items = b.alt_items;
    counted = b.counted;
  }
  switch-keeps Opcode.op_checksig x rest m d l b =
      on_stack-keeps m b _ (check_sig_op-keeps c false m.code_hash m.stack b.stack_items)
  switch-keeps Opcode.op_checksigverify x rest m d l b =
      on_stack-keeps m b _ (check_sig_op-keeps c true m.code_hash m.stack b.stack_items)
  switch-keeps Opcode.op_checkmultisig x rest m d l b =
      on_count-keeps m b _
        (check_multisig_op-keeps c false m.code_hash m.op_count m.stack b.stack_items)
  switch-keeps Opcode.op_checkmultisigverify x rest m d l b =
      on_count-keeps m b _
        (check_multisig_op-keeps c true m.code_hash m.op_count m.stack b.stack_items)
  switch-keeps Opcode.op_cat x rest m d l b = cc
  switch-keeps Opcode.op_substr x rest m d l b = cc
  switch-keeps Opcode.op_left x rest m d l b = cc
  switch-keeps Opcode.op_right x rest m d l b = cc
  switch-keeps Opcode.op_invert x rest m d l b = cc
  switch-keeps Opcode.op_and x rest m d l b = cc
  switch-keeps Opcode.op_or x rest m d l b = cc
  switch-keeps Opcode.op_xor x rest m d l b = cc
  switch-keeps Opcode.op_2mul x rest m d l b = cc
  switch-keeps Opcode.op_2div x rest m d l b = cc
  switch-keeps Opcode.op_mul x rest m d l b = cc
  switch-keeps Opcode.op_div x rest m d l b = cc
  switch-keeps Opcode.op_mod x rest m d l b = cc
  switch-keeps Opcode.op_lshift x rest m d l b = cc
  switch-keeps Opcode.op_rshift x rest m d l b = cc
  switch-keeps op x rest m d l b = tt
