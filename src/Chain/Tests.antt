-- ===== src/Chain/Tests.antt =====
-- The rules of a chain on concrete blocks.
use ixcoin.Script.Parse.{
  starts_with, get_op, get_sig_op_count, operand, operand_size, sig_op_loop, sig_ops_of,
}
use ixcoin.Common.{
  ℕ, ◌-◌, ◌*◌, ◌^◌, ◌≤◌, ◌≡◌, ◌⊎◌, refl, List, [], ◌∷◌, ◌++◌, true, false, some, arith, ◌+◌, none,
  map,
}
use mathlib.Core.List.{reverse}
use ixcoin.Common.Int.{ℤ, pos, ◌+ℤ◌}
use ixcoin.Serialize.{
  Bytes, le_bytes, of_le_bytes, write_int, write_objects, write_compact_size, write_each,
  write_vector, write_int64, read_bytes, read_le,
}
use ixcoin.Hash.{hash, hash_bytes, hash_pair}
use ixcoin.Hash.Instance.{digests, digests-laws, sums}
use ixcoin.Bignum.{set_compact, of_int, set_uint256, get_uint256}
use ixcoin.Bignum.Instance.{simple, unseal, payload}
use ixcoin.Tx.{Transaction, coin, max_money, is_coin_base}
use ixcoin.Tx.Serial.{write_tx, write_tx_in, write_out_point, write_tx_out}
use ixcoin.Chain.Subsidy.{issued, issued_bounds}
use ixcoin.Chain.Merkle.{
  get_merkle_branch, build_merkle_tree, check_merkle_branch, check_loop, back, levels, merkle_tree,
  pair_up,
}
use ixcoin.Chain.Merkle.Branch.{check_merkle_branch-get_merkle_branch}
use ixcoin.Chain.Merkle.Binding.{PathCollision, here, above, check_merkle_branch_binds}
use ixcoin.Chain.Header.{get_chain_id, header_hash}
use ixcoin.Chain.AuxPow.{
  AuxPow, merged_mining_header, search, check_aux_pow, first_script, check_script, chain_root,
  is_placed, check_slot, slot,
}
use ixcoin.Chain.AuxPow.Binding.{check_aux_pow_binds}
use ixcoin.Chain.Work.{BlockIndex, check_proof_of_work, proof_of_work_limit}
use ixcoin.Script.Opcode.{of_byte}
use ixcoin.Tx.Check.{
  max_block_size, check_transaction, check_outputs, coinbase_script_fits, no_null_prevout,
}
use ixcoin.Chain.Block.{
  Block, tx_hash, check_contents, check_block, check_block_work, aux_pow_start_block, plain_work,
  coin_base_first, no_coin_base, all_checked, block_sig_ops, input_sig_ops, output_sig_ops,
  tx_sig_ops,
}
use ixcoin.Chain.Block.Checked.{IsBlock, check_block-IsBlock, check_merkle_branch-check_block}

issued_bounds_example :
    (issued 300_000 ≤ max_money) × (issued (227_499 + 300_000) ≡ 20_999_952 * coin)
issued_bounds_example = issued_bounds 300_000

abbrev leaves : List ℕ
leaves = 11 ∷ 22 ∷ 33 ∷ []

check_merkle_branch-get_merkle_branch_example :
    check_merkle_branch digests 33 (get_merkle_branch digests leaves 2) (pos 2)
    ≡ build_merkle_tree digests leaves
check_merkle_branch-get_merkle_branch_example =
    check_merkle_branch-get_merkle_branch digests leaves 2 (omega arith)

check_merkle_branch_binds_example :
    ◌≡◌ {A = ℕ} 11 11 ⊎ PathCollision digests (pos 0) 11 (22 ∷ []) 11 (22 ∷ [])
check_merkle_branch_binds_example =
    check_merkle_branch_binds digests digests-laws (22 ∷ []) (22 ∷ []) 11 11 (pos 0) (omega arith)
      (omega arith) refl refl refl

nothing_above : {i : ℤ} {a b : ℕ} → PathCollision sums i a [] b [] → ⊥
nothing_above c = elim c [ ]

-- Two leaves whose branches lead to different roots, with no collision on the way.
not-PathCollision : ¬ PathCollision sums (pos 0) 11 (22 ∷ []) 12 (22 ∷ [])
unfolding hash hash_bytes le_bytes of_le_bytes
not-PathCollision (here d e) = omega (arith, e)
not-PathCollision (above c) = nothing_above c

-- The script of a coinbase with the root 5 of a tree of one chain.
abbrev aux_script : Bytes
aux_script =
    merged_mining_header ++ reverse (le_bytes 32 5) ++ (1 ∷ 0 ∷ 0 ∷ 0 ∷ []) ++ (9 ∷ 0 ∷ 0 ∷ 0 ∷ [])

abbrev parent_coinbase : Transaction
parent_coinbase = record {
  version = pos 1;
  vin =
      record {
        prevout = record { hash = 0; n = 2 ^ 32 - 1 };
        script_sig = aux_script;
        sequence = 0;
      }
      ∷ [];
  vout = [];
  lock_time = 0;
}

abbrev work : AuxPow
work = record {
  tx = parent_coinbase;
  merkle_branch = [];
  index = pos 0;
  chain_merkle_branch = [];
  chain_index = pos 0;
  parent_block = record {
    version = pos 1;
    hash_prev_block = 0;
    hash_merkle_root = hash digests (write_tx parent_coinbase);
    time = 0;
    bits = 0;
    nonce = 0;
  };
}

first_script-work : first_script work.tx.vin ≡ some aux_script
unfolding first_script
first_script-work = refl

search-aux_script : search merged_mining_header aux_script ≡ some (0, aux_script)
unfolding search starts_with
search-aux_script = refl

check_aux_pow-work : check_aux_pow digests false work 5 (pos 3) ≡ some true
unfolding check_aux_pow get_chain_id check_merkle_branch check_loop hash of_le_bytes hash_bytes
    first_script check_script search starts_with le_bytes chain_root is_placed check_slot slot
check_aux_pow-work = refl

check_aux_pow_binds_example : ◌≡◌ {A = ℕ} 5 5 ⊎ PathCollision digests (pos 0) 5 [] 5 []
check_aux_pow_binds_example =
    check_aux_pow_binds digests digests-laws false work work 5 5 (pos 3) aux_script 0 aux_script
      first_script-work first_script-work search-aux_script (omega arith) (omega arith)
      (omega arith) (omega arith) check_aux_pow-work check_aux_pow-work

-- The bits of the first block of Bitcoin.
abbrev easy_bits : ℕ
easy_bits = 0x1d00ffff

abbrev tip : BlockIndex
tip = record { time = 1_300_000_000; bits = 0x0300ffff }

-- A block with the coinbase above as its one transaction, on the test network.
abbrev first_coinbase : Transaction
first_coinbase = record {
  version = pos 1;
  vin =
      record {
        prevout = record { hash = 0; n = 2 ^ 32 - 1 };
        script_sig = 1 ∷ 2 ∷ [];
        sequence = 0;
      }
      ∷ [];
  vout = record { value = pos 5; script_pub_key = 172 ∷ [] } ∷ [];
  lock_time = 0;
}

abbrev small_block : Block
small_block = record {
  header = record {
    version = pos 1;
    hash_prev_block = 0;
    hash_merkle_root = tx_hash digests first_coinbase;
    time = 1_000;
    bits = 0x1d00ffff;
    nonce = 0;
  };
  aux_pow = none;
  vtx = first_coinbase ∷ [];
}

check_contents-small_block : check_contents digests (pos 0) small_block ≡ true
unfolding check_contents ◌+ℤ◌ coin_base_first is_coin_base no_coin_base all_checked
    check_transaction write_tx write_int le_bytes write_objects write_compact_size write_each
    write_tx_in write_out_point write_vector write_tx_out write_int64 block_sig_ops input_sig_ops
    output_sig_ops tx_hash tx_sig_ops back build_merkle_tree levels merkle_tree pair_up hash
    hash_bytes hash_pair of_byte get_op get_sig_op_count operand operand_size sig_op_loop sig_ops_of
    of_le_bytes read_bytes read_le check_outputs coinbase_script_fits no_null_prevout
check_contents-small_block = refl

check_block_work-small_block : check_block_work digests simple false small_block 7 ≡ some true
unfolding check_block_work aux_pow_start_block plain_work check_proof_of_work of_int set_compact
    unseal proof_of_work_limit set_uint256 le_bytes get_uint256 of_le_bytes payload header_hash hash
    hash_bytes
check_block_work-small_block = refl

check_block-small_block : check_block digests simple false (pos 0) 200 small_block 7 ≡ some true
unfolding check_block
check_block-small_block = rw (check_block_work-small_block, check_contents-small_block)

check_block-IsBlock_example :
    (200 ≤ max_block_size)
    × (check_block_work digests simple false small_block 7 ≡ some true)
    × IsBlock digests (pos 0) small_block
check_block-IsBlock_example =
    check_block-IsBlock digests simple false (pos 0) 200 small_block 7 check_block-small_block

check_merkle_branch-check_block_example :
    check_merkle_branch digests
      (tx_hash digests first_coinbase)
      (get_merkle_branch digests (map (tx_hash digests) small_block.vtx) 0)
      (pos 0)
    ≡ small_block.header.hash_merkle_root
check_merkle_branch-check_block_example =
    check_merkle_branch-check_block digests simple false (pos 0) 200 small_block 7 first_coinbase 0
      check_block-small_block (omega arith)
