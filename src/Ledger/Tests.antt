-- ===== src/Ledger/Tests.antt =====
-- A coinbase and a transaction that spends an output, connected and disconnected.
use ixcoin.Chain.Merkle.{build_merkle_tree, back, merkle_tree, levels, pair_up}
use ixcoin.Chain.Header.{header_hash, write_header}
use ixcoin.Chain.Work.{check_proof_of_work, proof_of_work_limit}
use ixcoin.Tx.Check.{
  get_value_out, value_out_loop, check_outputs, no_null_prevout, coinbase_script_fits,
}
use ixcoin.Bignum.{get_vch, of_int, set_compact, set_uint256, get_uint256}
use ixcoin.Script.Switch.{switch, push_number}
use ixcoin.Script.Opcode.{value, of_byte}
use ixcoin.Script.Parse.{get_op, get_sig_op_count, sig_op_loop, operand, operand_size, sig_ops_of}
use ixcoin.Tx.Serial.{write_tx, write_tx_in, write_out_point, write_tx_out}
use ixcoin.Common.{
  ◌>>=◌, true, false, ◌≤◌, inr, ℕ, ◌+◌, [], ◌∷◌, none, some, ◌==◌, if◌then◌else◌, put, refl, ◌≡◌,
  arith,
}
use ixcoin.Common.Int.{pos, ◌+ℤ◌, ◌-ℤ◌}
use ixcoin.Serialize.{
  of_le_bytes, write_int, le_bytes, write_objects, write_compact_size, write_each, write_vector,
  write_int64, read_bytes, get_size_of_compact_size,
}
use ixcoin.Hash.Instance.{sums}
use ixcoin.Hash.{hash, hash_bytes, hash_pair}
use ixcoin.Tx.{TxIn, TxOut, Transaction, null_out_point, max_money, is_coin_base}
use ixcoin.Bignum.Instance.{simple, payload, unseal}
use ixcoin.Ledger.{
  Index, new_index, Node, IndexedBlock, verify_signature, update_tx_index, add_tx_index,
}
use ixcoin.Script.Eval.{
  returns, verify_script, eval_script, loop, step, admit_op, count_op, is_disabled, run_op,
  all_true, stacks_fit,
}
use ixcoin.Script.Machine.{Context, cast_to_bool}
use ixcoin.Ledger.Connect.{
  Store, block_call, connect_inputs, disconnect_inputs, take_inputs, connect_loop, connect_input,
  previous, find_index, spend, spend_out, write_back, tally_fee, add_fee, add_outputs,
}
use ixcoin.Ledger.Blocks.{
  place, Setting, ChainDb, next_tx_pos, coinbase_fits, connect_txs, take_store, write_next,
  connect_block, disconnect_block, first_tx_pos,
}
use ixcoin.Ledger.Marks.{IsCanonical, put-IsCanonical}
use ixcoin.Ledger.Undo.{disconnect_inputs-connect_inputs}
use ixcoin.Ledger.UndoBlock.{AreNew, disconnect_block-connect_block}
use ixcoin.Ledger.Coins.{apply_tx, apply_txs, coins_of}
use ixcoin.Ledger.Refine.{connect_inputs-apply_tx}
use ixcoin.Ledger.RefineBlock.{HoldsTxs, connect_block-apply_txs, coinbase_value}
use ixcoin.Ledger.Refusal.{HasDouble, connect_inputs_refused}
use ixcoin.Tx.Check.{check_transaction}
use ixcoin.Chain.Block.{
  Block, check_block, check_block_work, aux_pow_start_block, plain_work, check_contents,
  coin_base_first, no_coin_base, all_checked, block_sig_ops, tx_sig_ops, input_sig_ops,
  output_sig_ops,
}
use ixcoin.Chain.Subsidy.{subsidy, get_block_value}
use ixcoin.Chain.Block.{tx_hash}

-- An output that anyone can spend.
abbrev open_out : ℕ → TxOut
open_out n = record { value = pos n; script_pub_key = 81 ∷ [] }

abbrev earlier_tx : Transaction
earlier_tx = record {
  version = pos 1;
  vin = record { prevout = record { hash = 9; n = 0 }; script_sig = []; sequence = 0 } ∷ [];
  vout = open_out 50 ∷ [];
  lock_time = 0;
}

abbrev spending : TxIn
spending = record { prevout = record { hash = 144; n = 0 }; script_sig = []; sequence = 0 }

abbrev payment : Transaction
payment = record { version = pos 1; vin = spending ∷ []; vout = open_out 40 ∷ []; lock_time = 0 }

abbrev reward : Transaction
reward = record {
  version = pos 1;
  vin = record { prevout = null_out_point; script_sig = 1 ∷ 2 ∷ []; sequence = 0 } ∷ [];
  vout = open_out 10 ∷ [];
  lock_time = 0;
}

abbrev here : IndexedBlock
here = record { hash = 5; file = 1; block_pos = 500; height = 7 }

abbrev node : Node
node = record {
  bn = simple;
  hashes = sums;
  keys = record { set_pub_key = λ _. true; ecdsa_verify = λ _ _ _. true };
  disk = λ p.
      if p.block_pos == 300
      then some earlier_tx
      else if p.tx_pos == 581
      then some reward
      else if p.tx_pos == 644
      then some payment
      else none;
  memory = λ _. none;
  accepts = λ _ _. true;
  takes_block = λ _. true;
  commits = true;
}

abbrev index : Index
index = put 144 (new_index (record { file = 1; block_pos = 300; tx_pos = 9 }) 1) (λ _. none)

abbrev store : Store
store = record { index = index; pool = λ _. none; fees = pos 0 }

-- What connecting the payment leaves.
abbrev paid : Store
paid = record {
  index = put 13 (new_index (place here 644) 1) (
      put 144
        (record {
          pos = record { file = 1; block_pos = 300; tx_pos = 9 };
          spent = place here 644 ∷ [];
        })
        index);
  pool = λ _. none;
  fees = pos 10;
}

hash_of_earlier : tx_hash sums earlier_tx ≡ 144
unfolding tx_hash hash of_le_bytes hash_bytes write_tx write_int le_bytes write_objects
    write_compact_size write_each write_tx_in write_out_point write_vector write_tx_out write_int64
hash_of_earlier = refl

hash_of_payment : tx_hash sums payment ≡ 13
unfolding tx_hash hash of_le_bytes hash_bytes write_tx write_int le_bytes write_objects
    write_compact_size write_each write_tx_in write_out_point write_vector write_tx_out write_int64
hash_of_payment = refl

abbrev context : Context
context = record {
  bn = simple;
  hashes = sums;
  keys = node.keys;
  tx = payment;
  n_in = 0;
  hash_type = 0;
}

verify_script-payment : verify_script context [] (81 ∷ []) ≡ returns true
unfolding verify_script eval_script loop step get_op admit_op count_op value of_byte is_disabled
    run_op all_true switch push_number stacks_fit cast_to_bool get_vch payload of_int
verify_script-payment = refl

verify_signature-payment : verify_signature node earlier_tx payment 0 ≡ returns true
unfolding verify_signature
verify_signature-payment = rw hash_of_earlier verify_script-payment

connect_inputs-payment :
    connect_inputs node (block_call (place here 644) (here ∷ [])) payment store ≡ some paid
unfolding connect_inputs take_inputs is_coin_base connect_loop connect_input previous find_index
    spend spend_out ◌+ℤ◌ write_back update_tx_index tally_fee get_value_out value_out_loop add_fee
    ◌-ℤ◌ add_outputs add_tx_index
connect_inputs-payment = rw (verify_signature-payment, hash_of_payment) refl

index-IsCanonical : IsCanonical index
index-IsCanonical =
    put-IsCanonical 144 (record { file = 1; block_pos = 300; tx_pos = 9 }) 1 (λ _. none)
      (λ k n ix p f g z. cc)

payment_absent : index (tx_hash sums payment) ≡ none
payment_absent = rw hash_of_payment

disconnect_inputs-connect_inputs_example : disconnect_inputs node payment paid.index ≡ some index
disconnect_inputs-connect_inputs_example =
    disconnect_inputs-connect_inputs node (place here 644) (here ∷ []) payment store paid
      (λ _ _. refl) refl index-IsCanonical payment_absent connect_inputs-payment

payment_checked : check_transaction payment ≡ true
unfolding check_transaction write_tx write_int le_bytes write_objects write_compact_size write_each
    write_tx_in write_out_point write_vector write_tx_out write_int64 check_outputs ◌+ℤ◌
    is_coin_base no_null_prevout
payment_checked = refl

connect_inputs-apply_tx_example :
    (fee : ℕ) × (apply_tx sums payment (coins_of node index) ≡ some (fee, coins_of node paid.index))
    × (pos 10 ≡ pos (0 + fee))
    × (0 + fee ≤ max_money)
connect_inputs-apply_tx_example =
    connect_inputs-apply_tx node (place here 644) (here ∷ []) payment 0 store paid refl refl
      payment_checked (omega arith) refl connect_inputs-payment

-- The payment again, with the same input twice.
abbrev greedy : Transaction
greedy = record payment { vin = spending ∷ spending ∷ [] }

greedy_double : HasDouble greedy.vin
greedy_double = record {
  m = 0;
  n = 1;
  first = spending;
  second = spending;
  before = omega arith;
  first_there = refl;
  second_there = refl;
  same = refl;
}

greedy_plain : is_coin_base greedy ≡ false
unfolding is_coin_base
greedy_plain = refl

connect_inputs_refused_example :
    connect_inputs node (block_call (place here 644) (here ∷ [])) greedy store ≡ none
connect_inputs_refused_example =
    connect_inputs_refused node (place here 644) (here ∷ []) greedy store refl greedy_plain
      (inr greedy_double)

abbrev block : Block
block = record {
  header = record {
    version = pos 1;
    hash_prev_block = 0;
    hash_merkle_root = 109;
    time = 1_000;
    bits = 0x1d00ffff;
    nonce = 0;
  };
  aux_pow = none;
  vtx = reward ∷ payment ∷ [];
}

abbrev setting : Setting
setting = record { test_net = false; now = pos 0; size = λ _. 206; header_size = λ _. 80 }

abbrev before : ChainDb
before = record { index = index; next = λ _. none; best = 0 }

check_block-block : check_block sums simple false (pos 0) 206 block 7 ≡ some true
unfolding check_block check_block_work aux_pow_start_block plain_work check_proof_of_work of_int
    set_compact unseal proof_of_work_limit set_uint256 le_bytes get_uint256 of_le_bytes payload
    header_hash hash hash_bytes write_header write_int check_contents ◌+ℤ◌ coin_base_first
    is_coin_base no_coin_base all_checked check_transaction write_tx write_objects
    write_compact_size write_each write_tx_in write_out_point write_vector write_tx_out write_int64
    check_outputs coinbase_script_fits no_null_prevout block_sig_ops tx_sig_ops input_sig_ops
    get_sig_op_count sig_op_loop get_op operand operand_size read_bytes sig_ops_of of_byte
    output_sig_ops build_merkle_tree back merkle_tree levels pair_up hash_pair tx_hash
check_block-block = refl

hash_of_reward : tx_hash sums reward ≡ 96
unfolding tx_hash hash of_le_bytes hash_bytes write_tx write_int le_bytes write_objects
    write_compact_size write_each write_tx_in write_out_point write_vector write_tx_out write_int64
hash_of_reward = refl

abbrev rewarded : Store
rewarded = record store { index = put 96 (new_index (place here 581) 1) index }

connect_inputs-reward :
    connect_inputs node (block_call (place here 581) (here ∷ [])) reward store ≡ some rewarded
unfolding connect_inputs take_inputs is_coin_base add_outputs add_tx_index update_tx_index
connect_inputs-reward = rw hash_of_reward refl

abbrev both : Store
both = record {
  index = put 13 (new_index (place here 644) 1) (
      put 144
        (record {
          pos = record { file = 1; block_pos = 300; tx_pos = 9 };
          spent = place here 644 ∷ [];
        })
        rewarded.index);
  pool = λ _. none;
  fees = pos 10;
}

connect_inputs-both :
    connect_inputs node (block_call (place here 644) (here ∷ [])) payment rewarded ≡ some both
unfolding connect_inputs take_inputs is_coin_base connect_loop connect_input previous find_index
    spend spend_out ◌+ℤ◌ write_back update_tx_index tally_fee get_value_out value_out_loop add_fee
    ◌-ℤ◌ add_outputs add_tx_index
connect_inputs-both = rw (verify_signature-payment, hash_of_payment) refl

first_place : first_tx_pos setting here block ≡ 581
unfolding first_tx_pos get_size_of_compact_size
first_place = refl

second_place : next_tx_pos 581 reward ≡ 644
unfolding write_tx write_int le_bytes write_objects write_compact_size write_each write_tx_in
    write_out_point write_vector write_tx_out write_int64
second_place = refl

coinbase_fits-block : coinbase_fits 7 (pos 10) block.vtx ≡ true
unfolding coinbase_fits get_value_out value_out_loop ◌+ℤ◌ get_block_value subsidy
coinbase_fits-block = refl

connect_block-block :
    connect_block node setting here [] block before
    ≡ some (record { index = both.index; next = λ _. none; best = 0 })
unfolding connect_block connect_txs take_store write_next
connect_block-block = rw (
  check_block-block, ◌>>=◌, first_place, connect_inputs-reward, ◌>>=◌, second_place,
  connect_inputs-both, ◌>>=◌, coinbase_fits-block,
)

block_new : AreNew sums block.vtx index
block_new = (
  rw hash_of_reward,
  (rw (hash_of_reward, hash_of_payment) (λ e. omega arith), tt),
  (rw hash_of_payment, tt, tt),
)

disconnect_block-connect_block_example :
    (db : ChainDb) × (disconnect_block node [] block
        (record { index = both.index; next = λ _. none; best = 0 })
      ≡ some db)
    × (db.index ≡ index)
disconnect_block-connect_block_example =
    disconnect_block-connect_block node setting here [] block before _ (λ _ _. refl) (λ _. refl)
      (λ e. omega arith) index-IsCanonical block_new connect_block-block

block_held : HoldsTxs node here (first_tx_pos setting here block) block.vtx
block_held = rw (first_place, second_place) (refl, (refl, tt))

connect_block-apply_txs_example :
    (fees : ℕ) × (apply_txs sums block.vtx (coins_of node index)
      ≡ some (fees, coins_of node both.index))
    × (coinbase_value block.vtx ≤ subsidy 7 + fees)
connect_block-apply_txs_example =
    connect_block-apply_txs node setting here [] block before
      (record { index = both.index; next = λ _. none; best = 0 }) (λ e. omega arith)
      (λ e. omega arith) block_held connect_block-block
