-- ===== src/Accept/Tests.antt =====
-- The first block, and one behind it.
use ixcoin.Bignum.{of_int, set_compact}
use ixcoin.Chain.Work.{get_next_work_required, interval, target_timespan, is_revised}
use ixcoin.Serialize.{of_le_bytes, write_int, le_bytes}
use ixcoin.Hash.{hash, hash_bytes}
use ixcoin.Common.{ℕ, ◌^◌, ◌≡◌, refl, ap, [], ◌∷◌, true, false, none, some, put}
use ixcoin.Common.Int.{pos, ltb_ℤ, ◌+ℤ◌, ◌*ℤ◌}
use ixcoin.Bignum.Instance.{simple, simple-laws, unseal}
use ixcoin.Hash.Instance.{sums}
use ixcoin.Chain.Header.{header_hash, write_header}
use ixcoin.Chain.Block.{Block}
use ixcoin.Ledger.{Node}
use ixcoin.Reorganize.{World, commit}
use ixcoin.Accept.{
  Entry, Globals, Host, enter_block, accept_block, set_best_chain, apply_advance, next_world,
  commit_best, accept_at, fits_bits, median_time_past, sort_times, insert_time, all_final,
  breaks_checkpoint, store_block, add_to_block_index, new_entry, get_block_work,
}
use ixcoin.Accept.Heaviest.{IsWeighed, enter_block-heaviest}
use ixcoin.Accept.Median.{IsFitting, accept_block-IsFitting}

abbrev node : Node
node = record {
  bn = simple;
  hashes = sums;
  keys = record { set_pub_key = λ _. true; ecdsa_verify = λ _ _ _. true };
  disk = λ _. none;
  memory = λ _. none;
  accepts = λ _ _. true;
  takes_block = λ _. true;
  commits = true;
}

abbrev pub host : Host
host = record {
  node = node;
  setting = record { test_net = false; now = pos 0; size = λ _. 81; header_size = λ _. 80 };
  read = λ _. none;
  genesis = 4;
  writes_best = true;
  around = record { test_net = false; index = λ _. none; best = []; too_many_free = false };
}

abbrev pub world : World
world = record {
  db = record { index = λ _. none; next = λ _. none; best = 0 };
  links = λ _. none;
  pool = record { txs = λ _. none; next = λ _. none; updated = 0 };
}

abbrev first : Entry
first = record {
  block = record { hash = 4; file = 1; block_pos = 8; height = 0 };
  time = 1_000;
  bits = 0x1d00ffff;
  chain_work = pos 4_295_032_833;
}

abbrev pub block : ℕ → ℕ → Block
block prev time = record {
  header = record {
    version = pos 1;
    hash_prev_block = prev;
    hash_merkle_root = 0;
    time = time;
    bits = 0x1d00ffff;
    nonce = 0;
  };
  aux_pow = none;
  vtx = [];
}

abbrev nothing : Globals
nothing = record {
  index = λ _. none;
  has_genesis = false;
  best = [];
  best_work = pos 0;
  best_invalid_work = pos 0;
  world = world;
}

enter_first : (enter_block host (block 0 1_000) first [] nothing).0 ≡ true
unfolding enter_block set_best_chain apply_advance next_world commit_best commit
enter_first = refl

enter_block-heaviest_example :
    IsWeighed (enter_block host (block 0 1_000) first [] nothing).1
    × (ltb_ℤ (enter_block host (block 0 1_000) first [] nothing).1.best_work (pos 0) ≡ false)
    × (ltb_ℤ (enter_block host (block 0 1_000) first [] nothing).1.best_work (pos 4_295_032_833)
        ≡ false)
enter_block-heaviest_example =
    enter_block-heaviest host (block 0 1_000) first [] nothing
      (enter_block host (block 0 1_000) first [] nothing).1 simple-laws refl
      (ap (λ z. (z, (enter_block host (block 0 1_000) first [] nothing).1)) enter_first)

abbrev one_block : Globals
one_block = record {
  index = put 4 (first ∷ []) (λ _. none);
  has_genesis = true;
  best = first ∷ [];
  best_work = pos (2 ^ 200);
  best_invalid_work = pos 0;
  world = world;
}

accept_second : (accept_block host (pos 0) (some (1, 300)) (block 4 1_001) one_block).0 ≡ true
unfolding accept_block accept_at header_hash hash of_le_bytes hash_bytes write_header write_int
    le_bytes fits_bits get_next_work_required interval target_timespan is_revised median_time_past
    sort_times insert_time all_final breaks_checkpoint store_block add_to_block_index new_entry
    get_block_work of_int set_compact unseal ◌+ℤ◌ enter_block ◌*ℤ◌
accept_second = refl

accept_block-IsFitting_example :
    IsFitting host (pos 0) (block 4 1_001) (first ∷ [])
    × (one_block.index (header_hash sums (block 4 1_001).header) ≡ none)
accept_block-IsFitting_example =
    accept_block-IsFitting host (pos 0) (some (1, 300)) (block 4 1_001) first [] one_block
      (accept_block host (pos 0) (some (1, 300)) (block 4 1_001) one_block).1 refl
      (ap (λ z. (z, (accept_block host (pos 0) (some (1, 300)) (block 4 1_001) one_block).1))
        accept_second)
