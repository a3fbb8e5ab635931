-- ===== src/Script/Tests.antt =====
-- Scripts of src/script.cpp run on concrete values.
use ixcoin.Script.Ops.Stack.{dup}
use ixcoin.Script.Switch.{switch}
use ixcoin.Common.{
  ◌≤◌, ◌≡◌, ◌↔◌, refl, [], ◌∷◌, ◌++◌, Bool, true, ◌&&◌, ◌==◌, length, replicate, All, some, arith,
}
use mathlib.Core.Logic.{◌≢◌}
use ixcoin.Common.Int.{pos}
use ixcoin.Serialize.{Bytes, read_bytes}
use ixcoin.Hash.{hash160}
use ixcoin.Hash.Instance.{digests, digests-laws}
use ixcoin.Bignum.Instance.{simple, simple-laws}
use ixcoin.Tx.{TxIn, Transaction}
use ixcoin.Script.Opcode.{Opcode, of_byte, value}
use ixcoin.Script.Parse.{get_op, push_data, operand, operand_size, find_and_delete, push_op}
use ixcoin.Script.Parse.RoundTrip.{get_op-push_data, push_opcode}
use ixcoin.Script.Machine.{Context, IsItem}
use ixcoin.Script.Sighash.{check_sig}
use ixcoin.Script.Ops.Splice.{bytes_eq}
use ixcoin.Script.Ops.Crypto.{multisig_loop, hash_top, digest}
use ixcoin.Script.Ops.Multisig.{Matching, multisig_loop_iff}
use ixcoin.Script.Eval.{
  eval_script, verify_script, returns, fails, stuck, is_disabled, loop, step, admit_op, count_op,
  run_op, all_true, stacks_fit,
}
use ixcoin.Script.Eval.Steps.{eval_script-ne-stuck}
use ixcoin.Script.Eval.Forbidden.{OpIn, here, later, is_forbidden, eval_script-forbidden}
use ixcoin.Script.Eval.Bounded.{ContextLaws}
use ixcoin.Script.Eval.Limits.{eval_script-items}
use ixcoin.Common.{map}
use ixcoin.Script.Sighash.{sighash_tx}
use ixcoin.Script.Sighash.Inputs.{strip, sighash_tx-strip}
use ixcoin.Script.Standard.{set_bitcoin_address}
use ixcoin.Script.Solver.{
  solver, match_template, match_loop, key_template, match_op, match_plain, key_hash_template,
}
use ixcoin.Script.Solver.Forms.{IsForm}
use ixcoin.Script.Solver.Solved.{solver_iff}
use ixcoin.Script.Standard.PayToPubKeyHash.{verify_script-set_bitcoin_address}

abbrev spending : Transaction
spending = record { version = pos 1; vin = []; vout = []; lock_time = 0 }

abbrev context : Context
context = record {
  bn = simple;
  hashes = digests;
  keys = record { set_pub_key = λ k. length k == 33; ecdsa_verify = λ key h sig. length sig == 2 };
  tx = spending;
  n_in = 0;
  hash_type = 0;
}

context-laws : ContextLaws context
context-laws = record { bn_laws = simple-laws; hash_laws = digests-laws }

-- 0 OP_IF OP_CAT OP_ENDIF: the branch with OP_CAT is not taken.
abbrev hidden_cat : Bytes
hidden_cat = 0 ∷ 99 ∷ 126 ∷ 104 ∷ []

cat_in_hidden_cat : OpIn Opcode.op_cat hidden_cat
unfolding get_op operand operand_size of_byte read_bytes
cat_in_hidden_cat = later hidden_cat (Opcode.push_size 0) [] (99 ∷ 126 ∷ 104 ∷ []) refl (
    later (99 ∷ 126 ∷ 104 ∷ []) Opcode.op_if [] (126 ∷ 104 ∷ []) refl
      (here (126 ∷ 104 ∷ []) [] (104 ∷ []) refl))

eval_script-forbidden_example : eval_script context [] hidden_cat ≡ fails
unfolding is_forbidden
eval_script-forbidden_example =
    eval_script-forbidden context [] hidden_cat Opcode.op_cat refl cat_in_hidden_cat

eval_script-ne-stuck_example : eval_script context [] hidden_cat ≢ stuck
eval_script-ne-stuck_example = eval_script-ne-stuck context [] hidden_cat

-- OP_DUP OP_HASH160
abbrev dup_hash : Bytes
dup_hash = 118 ∷ 169 ∷ []

abbrev hash_of_one : Bytes
hash_of_one = 32 ∷ replicate 19 2

dup_hash-returns :
    eval_script context ((5 ∷ []) ∷ []) dup_hash ≡ returns (hash_of_one ∷ (5 ∷ []) ∷ [])
unfolding eval_script loop step get_op admit_op count_op value of_byte is_disabled run_op all_true
    switch dup stacks_fit hash_top digest hash160
dup_hash-returns = refl

eval_script-items_example : All IsItem (hash_of_one ∷ (5 ∷ []) ∷ []) × (2 ≤ 1000)
eval_script-items_example =
    eval_script-items context context-laws ((5 ∷ []) ∷ []) (hash_of_one ∷ (5 ∷ []) ∷ []) dup_hash
      (omega arith, (omega arith, tt))
      (record { size_fits = omega arith; bytes = (omega arith, tt) }, tt) (omega arith)
      dup_hash-returns

get_op-push_data_example :
    get_op (push_data (7 ∷ 8 ∷ []) ++ 172 ∷ [])
    ≡ some ((of_byte (push_opcode 2), 7 ∷ 8 ∷ []), 172 ∷ [])
get_op-push_data_example = get_op-push_data (7 ∷ 8 ∷ []) (172 ∷ []) (omega arith)

abbrev same_length : Bytes → Bytes → Bool
same_length sig key = length sig == length key

multisig_loop_iff_example :
    (multisig_loop same_length ((1 ∷ []) ∷ []) ([] ∷ (2 ∷ []) ∷ []) ≡ true)
    ↔ Matching same_length ((1 ∷ []) ∷ []) ([] ∷ (2 ∷ []) ∷ [])
multisig_loop_iff_example = multisig_loop_iff same_length ((1 ∷ []) ∷ []) ([] ∷ (2 ∷ []) ∷ [])

-- A signature whose last byte is SIGHASH_ALL, a key, and the hash of that key.
abbrev signature : Bytes
signature = 48 ∷ 49 ∷ 1 ∷ []

abbrev public_key : Bytes
public_key = replicate 33 4

verify_script-set_bitcoin_address_example :
    verify_script context
      (push_data signature ++ push_data public_key)
      (set_bitcoin_address hash_of_one)
    ≡ returns (
        bytes_eq (hash160 digests public_key) hash_of_one
        && check_sig context signature public_key
            (find_and_delete (push_data signature) (set_bitcoin_address hash_of_one)))
verify_script-set_bitcoin_address_example =
    verify_script-set_bitcoin_address context signature public_key hash_of_one (omega arith)
      (omega arith) refl

abbrev pays_to_key : Bytes
pays_to_key = push_data public_key ++ (172 ∷ [])

solver_iff_example :
    (solver pays_to_key ≡ some ((Opcode.op_pubkey, public_key) ∷ []))
    ↔ IsForm pays_to_key ((Opcode.op_pubkey, public_key) ∷ [])
solver_iff_example = solver_iff pays_to_key ((Opcode.op_pubkey, public_key) ∷ [])

solver-pays_to_key : solver pays_to_key ≡ some ((Opcode.op_pubkey, public_key) ∷ [])
unfolding solver match_template match_loop push_data get_op operand operand_size read_bytes
    key_template push_op value match_op of_byte match_plain bytes_eq
solver-pays_to_key = refl

solver-set_bitcoin_address :
    solver (set_bitcoin_address hash_of_one) ≡ some ((Opcode.op_pubkeyhash, hash_of_one) ∷ [])
unfolding solver match_template match_loop set_bitcoin_address push_op get_op value key_template
    match_op of_byte key_hash_template match_plain bytes_eq operand operand_size read_bytes
solver-set_bitcoin_address = refl

abbrev signed_input : TxIn
signed_input = record {
  prevout = record { hash = 7; n = 0 };
  script_sig = 1 ∷ 2 ∷ [];
  sequence = 9;
}

sighash_tx-strip_example :
    sighash_tx pays_to_key
      (record { version = pos 1; vin = map strip (signed_input ∷ []); vout = []; lock_time = 0 })
      0
      1
    ≡ sighash_tx pays_to_key
        (record { version = pos 1; vin = signed_input ∷ []; vout = []; lock_time = 0 })
        0
        1
sighash_tx-strip_example =
    sighash_tx-strip pays_to_key
      (record { version = pos 1; vin = signed_input ∷ []; vout = []; lock_time = 0 }) 0 1
