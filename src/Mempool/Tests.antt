-- ===== src/Mempool/Tests.antt =====
-- A transaction that enters the pool and leaves it.
use ixcoin.Script.Opcode.{of_byte}
use ixcoin.Script.Parse.{get_sig_op_count, sig_op_loop, get_op, operand, operand_size, sig_ops_of}
use ixcoin.Tx.Serial.{write_tx, write_tx_in, write_out_point, write_tx_out}
use ixcoin.Tx.Check.{check_transaction, check_outputs, no_null_prevout}
use ixcoin.Common.{◌≡◌, refl, [], ◌∷◌, true, false, replicate, none}
use ixcoin.Common.Int.{pos, ◌+ℤ◌}
use ixcoin.Serialize.{
  write_int, le_bytes, write_objects, write_compact_size, write_each, write_vector, write_int64,
  read_bytes,
}
use ixcoin.Bignum.Instance.{simple}
use ixcoin.Hash.Instance.{sums}
use ixcoin.Tx.{Transaction, is_coin_base}
use ixcoin.Chain.Block.{tx_sig_ops, input_sig_ops, output_sig_ops}
use ixcoin.Ledger.{Node}
use ixcoin.Mempool.{
  Pool, accepted, Around, is_welcome, accept_to_memory_pool, remove_from_pool, add_unchecked,
  has_conflict,
}
use ixcoin.Mempool.Member.{IsConsistent}
use ixcoin.Mempool.Accepted.{
  accept_to_memory_pool-IsConsistent, remove_from_pool-accept_to_memory_pool,
}

abbrev payment : Transaction
payment = record {
  version = pos 1;
  vin =
      record {
        prevout = record { hash = 144; n = 0 };
        script_sig = 45 ∷ replicate 45 0;
        sequence = 0;
      }
      ∷ [];
  vout = record { value = pos 1_000_000; script_pub_key = 81 ∷ [] } ∷ [];
  lock_time = 0;
}

abbrev node : Node
node = record {
  bn = simple;
  hashes = sums;
  keys = record { set_pub_key = λ _. true; ecdsa_verify = λ _ _ _. true };
  disk = λ _. none;
  memory = λ _. none;
  accepts = λ _ _. true;
  takes_block = λ _. true;
  commits = true;
}

abbrev around : Around
around = record { test_net = true; index = λ _. none; best = []; too_many_free = false }

abbrev no_txs : Pool
no_txs = record { txs = λ _. none; next = λ _. none; updated = 0 }

payment_welcome : is_welcome true payment ≡ true
unfolding is_welcome check_transaction write_tx write_int le_bytes write_objects write_compact_size
    write_each write_tx_in write_out_point write_vector write_tx_out write_int64 check_outputs ◌+ℤ◌
    is_coin_base no_null_prevout tx_sig_ops input_sig_ops get_sig_op_count sig_op_loop get_op
    operand operand_size read_bytes sig_ops_of of_byte output_sig_ops
payment_welcome = refl

accept_to_memory_pool-payment :
    accept_to_memory_pool node around payment false no_txs
    ≡ accepted (add_unchecked sums payment no_txs)
unfolding accept_to_memory_pool has_conflict
accept_to_memory_pool-payment = rw payment_welcome refl

no_txs-IsConsistent : IsConsistent sums no_txs
no_txs-IsConsistent = record {
  keyed = λ k tx e. cc;
  linked = λ k tx o e n. cc;
  backed = λ o q e. cc;
}

accept_to_memory_pool-IsConsistent_example : IsConsistent sums (add_unchecked sums payment no_txs)
accept_to_memory_pool-IsConsistent_example =
    accept_to_memory_pool-IsConsistent node around payment false no_txs
      (add_unchecked sums payment no_txs) no_txs-IsConsistent accept_to_memory_pool-payment

remove_from_pool-accept_to_memory_pool_example :
    ((remove_from_pool sums payment (add_unchecked sums payment no_txs)).txs ≡ no_txs.txs)
    × ((remove_from_pool sums payment (add_unchecked sums payment no_txs)).next ≡ no_txs.next)
remove_from_pool-accept_to_memory_pool_example =
    remove_from_pool-accept_to_memory_pool node around payment false no_txs
      (add_unchecked sums payment no_txs) accept_to_memory_pool-payment
