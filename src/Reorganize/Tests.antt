-- ===== src/Reorganize/Tests.antt =====
-- A chain of one block above a common one, left for another such chain.
use ixcoin.Chain.Subsidy.{get_block_value, subsidy}
use ixcoin.Chain.Merkle.{build_merkle_tree, back, merkle_tree, levels}
use ixcoin.Script.Opcode.{of_byte}
use ixcoin.Script.Parse.{get_sig_op_count, sig_op_loop, get_op, operand, operand_size, sig_ops_of}
use ixcoin.Tx.Serial.{write_tx, write_tx_in, write_out_point, write_tx_out}
use ixcoin.Tx.Check.{
  check_transaction, check_outputs, coinbase_script_fits, get_value_out, value_out_loop,
}
use ixcoin.Hash.{hash, hash_bytes}
use ixcoin.Serialize.{
  le_bytes, of_le_bytes, write_int, write_objects, write_compact_size, write_each, write_vector,
  write_int64, read_bytes, get_size_of_compact_size,
}
use ixcoin.Bignum.{of_int, set_compact, set_uint256, get_uint256}
use ixcoin.Chain.Work.{check_proof_of_work, proof_of_work_limit}
use ixcoin.Common.{
  ℕ, ◌≡◌, refl, sym, ap, ◌∙◌, [], ◌∷◌, true, false, ◌==◌, if◌then◌else◌, Option, none, some, put,
  ◌>>=◌, arith, inl, inr,
}
use mathlib.Core.List.{reverse}
use ixcoin.Common.Int.{pos, ◌+ℤ◌}
use ixcoin.Bignum.Instance.{simple, unseal, payload}
use ixcoin.Hash.Instance.{sums}
use ixcoin.Tx.{Transaction, null_out_point, is_coin_base}
use ixcoin.Chain.Header.{header_hash, write_header}
use ixcoin.Chain.Block.{
  Block, tx_hash, check_block, check_block_work, aux_pow_start_block, plain_work, check_contents,
  coin_base_first, no_coin_base, all_checked, block_sig_ops, tx_sig_ops, input_sig_ops,
  output_sig_ops,
}
use ixcoin.Ledger.{new_index, Node, IndexedBlock, add_tx_index, update_tx_index}
use ixcoin.Ledger.Connect.{Store, block_call, connect_inputs, take_inputs, add_outputs}
use ixcoin.Ledger.Blocks.{
  Setting, ChainDb, place, first_tx_pos, coinbase_fits, connect_txs, take_store, write_next,
  connect_block,
}
use ixcoin.Mempool.{Around}
use ixcoin.Reorganize.{
  Blocks, same_block, find_fork, above, lower_to, connect_branch, World, reorganize,
}
use ixcoin.Reorganize.Fork.{Agree, IsFork, find_fork-IsFork}
use ixcoin.Reorganize.Branches.{Branch, here, next, reorganize-Branch}

abbrev reward : ℕ → Transaction
reward tag = record {
  version = pos 1;
  vin = record { prevout = null_out_point; script_sig = 1 ∷ tag ∷ []; sequence = 0 } ∷ [];
  vout = record { value = pos 10; script_pub_key = 81 ∷ [] } ∷ [];
  lock_time = 0;
}

abbrev block : ℕ → ℕ → Block
block tag root = record {
  header = record {
    version = pos 1;
    hash_prev_block = 4;
    hash_merkle_root = root;
    time = 1_000;
    bits = 0x1d00ffff;
    nonce = 0;
  };
  aux_pow = none;
  vtx = reward tag ∷ [];
}

abbrev indexed : ℕ → ℕ → IndexedBlock
indexed hash height = record { hash = hash; file = 1; block_pos = 500; height = height }

abbrev common : Blocks
common = indexed 4 0 ∷ []

abbrev node : Node
node = record {
  bn = simple;
  hashes = sums;
  keys = record { set_pub_key = λ _. true; ecdsa_verify = λ _ _ _. true };
  disk = λ _. none;
  memory = λ _. none;
  accepts = λ _ _. true;
  takes_block = λ _. true;
  commits = true;
}

abbrev setting : Setting
setting = record { test_net = false; now = pos 0; size = λ _. 144; header_size = λ _. 80 }

abbrev read : IndexedBlock → Option Block
read b = if b.hash == 5 then some (block 2 96) else if b.hash == 6 then some (block 3 97) else none

abbrev empty : ChainDb
empty = record { index = λ _. none; next = λ _. none; best = 4 }

abbrev with_block : ℕ → ℕ → ChainDb
with_block hash tx = record {
  index = put tx (new_index (place (indexed hash 1) 581) 1) (λ _. none);
  next = put 4 hash (λ _. none);
  best = 4;
}

check_old : check_block sums simple false (pos 0) 144 (block 2 96) 1 ≡ some true
unfolding check_block check_block_work aux_pow_start_block plain_work check_proof_of_work of_int
    set_compact unseal proof_of_work_limit set_uint256 le_bytes get_uint256 of_le_bytes payload
    header_hash hash hash_bytes write_header write_int check_contents ◌+ℤ◌ coin_base_first
    is_coin_base no_coin_base all_checked check_transaction write_tx write_objects
    write_compact_size write_each write_tx_in write_out_point write_vector write_tx_out write_int64
    check_outputs coinbase_script_fits block_sig_ops tx_sig_ops input_sig_ops get_sig_op_count
    sig_op_loop get_op operand operand_size read_bytes sig_ops_of of_byte output_sig_ops
    build_merkle_tree back merkle_tree levels tx_hash
check_old = refl

check_new : check_block sums simple false (pos 0) 144 (block 3 97) 1 ≡ some true
unfolding check_block check_block_work aux_pow_start_block plain_work check_proof_of_work of_int
    set_compact unseal proof_of_work_limit set_uint256 le_bytes get_uint256 of_le_bytes payload
    header_hash hash hash_bytes write_header write_int check_contents ◌+ℤ◌ coin_base_first
    is_coin_base no_coin_base all_checked check_transaction write_tx write_objects
    write_compact_size write_each write_tx_in write_out_point write_vector write_tx_out write_int64
    check_outputs coinbase_script_fits block_sig_ops tx_sig_ops input_sig_ops get_sig_op_count
    sig_op_loop get_op operand operand_size read_bytes sig_ops_of of_byte output_sig_ops
    build_merkle_tree back merkle_tree levels tx_hash
check_new = refl

hash_old : tx_hash sums (reward 2) ≡ 96
unfolding tx_hash hash of_le_bytes hash_bytes write_tx write_int le_bytes write_objects
    write_compact_size write_each write_tx_in write_out_point write_vector write_tx_out write_int64
hash_old = refl

hash_new : tx_hash sums (reward 3) ≡ 97
unfolding tx_hash hash of_le_bytes hash_bytes write_tx write_int le_bytes write_objects
    write_compact_size write_each write_tx_in write_out_point write_vector write_tx_out write_int64
hash_new = refl

place_old : first_tx_pos setting (indexed 5 1) (block 2 96) ≡ 581
unfolding first_tx_pos get_size_of_compact_size
place_old = refl

place_new : first_tx_pos setting (indexed 6 1) (block 3 97) ≡ 581
unfolding first_tx_pos get_size_of_compact_size
place_new = refl

abbrev start : Store
start = record { index = λ _. none; pool = λ _. none; fees = pos 0 }

reward_old :
    connect_inputs node
      (block_call (place (indexed 5 1) 581) (indexed 5 1 ∷ common))
      (reward 2)
      start
    ≡ some (record start { index = (with_block 5 96).index })
unfolding connect_inputs take_inputs is_coin_base add_outputs add_tx_index update_tx_index
reward_old = rw hash_old refl

reward_new :
    connect_inputs node
      (block_call (place (indexed 6 1) 581) (indexed 6 1 ∷ common))
      (reward 3)
      start
    ≡ some (record start { index = (with_block 6 97).index })
unfolding connect_inputs take_inputs is_coin_base add_outputs add_tx_index update_tx_index
reward_new = rw hash_new refl

fits_old : coinbase_fits 1 (pos 0) (block 2 96).vtx ≡ true
unfolding coinbase_fits get_value_out value_out_loop ◌+ℤ◌ get_block_value subsidy
fits_old = refl

fits_new : coinbase_fits 1 (pos 0) (block 3 97).vtx ≡ true
unfolding coinbase_fits get_value_out value_out_loop ◌+ℤ◌ get_block_value subsidy
fits_new = refl

connect_old :
    connect_block node setting (indexed 5 1) common (block 2 96) empty ≡ some (with_block 5 96)
unfolding connect_block connect_txs take_store write_next
connect_old = rw (check_old, ◌>>=◌, place_old, reward_old, ◌>>=◌, fits_old)

connect_new :
    connect_block node setting (indexed 6 1) common (block 3 97) empty ≡ some (with_block 6 97)
unfolding connect_block connect_txs take_store write_next
connect_new = rw (check_new, ◌>>=◌, place_new, reward_new, ◌>>=◌, fits_new)

connect_branch-new :
    connect_branch node setting read ((indexed 6 1 ∷ common) ∷ []) empty
    ≡ some (reward 3 ∷ [], with_block 6 97)
unfolding connect_branch
connect_branch-new = rw (connect_new, ◌>>=◌)

history : Branch node setting read ((indexed 5 1 ∷ common) ∷ []) empty (with_block 5 96)
history = next (block 2 96) refl (λ e. omega arith) (refl, tt, tt) connect_old here

find_fork-common : find_fork (indexed 5 1 ∷ common) (indexed 6 1 ∷ common) ≡ some common
unfolding find_fork same_block lower_to
find_fork-common = refl

above_old : above common (indexed 5 1 ∷ common) ≡ (indexed 5 1 ∷ common) ∷ []
unfolding above same_block
above_old = refl

above_new : above common (indexed 6 1 ∷ common) ≡ (indexed 6 1 ∷ common) ∷ []
unfolding above same_block
above_new = refl

abbrev around : Around
around = record { test_net = true; index = λ _. none; best = []; too_many_free = false }

abbrev world : World
world = record {
  db = with_block 5 96;
  links = λ _. none;
  pool = record { txs = λ _. none; next = λ _. none; updated = 0 };
}

reorganize-Branch_example :
    (w : World) × (reorganize node setting read around
        (indexed 5 1 ∷ common)
        (indexed 6 1 ∷ common)
        world
      ≡ some w)
    × (w.db.index ≡ (with_block 6 97).index)
    × (◌≡◌ {A = ℕ} w.db.best 6)
reorganize-Branch_example =
    reorganize-Branch node setting read around (indexed 5 1 ∷ common) common common (indexed 6 1)
      ((indexed 5 1 ∷ common) ∷ []) world empty (with_block 6 97) (reward 3 ∷ []) (λ _ _. refl)
      (λ _. refl) refl find_fork-common above_old history (λ k n ix p f g z. cc)
      (ap (λ l. connect_branch node setting read (reverse l) empty) above_new ∙ connect_branch-new)

abbrev head_hash : Blocks → ℕ
head_hash [] = 0
head_hash (b ∷ _) = b.hash

common-Agree : Agree (indexed 5 1 ∷ common) (indexed 6 1 ∷ common)
common-Agree x y xs ys (inl a) (inl b) e =
    let p : x.hash ≡ 5 = ap head_hash a in
    let q : y.hash ≡ 6 = ap head_hash b in absurd (omega arith)
common-Agree x y xs ys (inl a) (inr (inl b)) e =
    let p : x.hash ≡ 5 = ap head_hash a in
    let q : y.hash ≡ 4 = ap head_hash b in absurd (omega arith)
common-Agree x y xs ys (inr (inl a)) (inl b) e =
    let p : x.hash ≡ 4 = ap head_hash a in
    let q : y.hash ≡ 6 = ap head_hash b in absurd (omega arith)
common-Agree x y xs ys (inr (inl a)) (inr (inl b)) e = a ∙ sym b
common-Agree x y xs ys (inr (inr a)) k e = cc a
common-Agree x y xs ys h (inr (inr b)) e = cc b

find_fork-IsFork_example :
    (f : Blocks) × (find_fork (indexed 5 1 ∷ common) (indexed 6 1 ∷ common) ≡ some f)
    × IsFork (indexed 5 1 ∷ common) (indexed 6 1 ∷ common) f
find_fork-IsFork_example =
    find_fork-IsFork (indexed 5 1 ∷ common) (indexed 6 1 ∷ common) (indexed 4 0) []
      (refl, (refl, tt)) (refl, (refl, tt)) common-Agree (inr (inl refl)) (inr (inl refl))
