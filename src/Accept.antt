-- ===== src/Accept.antt =====
-- src/main.cpp and src/main.h: `AcceptBlock`, `AddToBlockIndex` and `SetBestChain`. A pointer to a
-- `CBlockIndex` is the list of the blocks from it back to the first, and `mapBlockIndex` goes from the
-- hash of a block to that list.
pub mod Heaviest
pub mod Median
pub mod Tests
use ixcoin.Common.{
  ℕ, suc, ◌+◌, ◌/◌, ◌%◌, ◌^◌, List, [], ◌∷◌, Bool, true, false, ◌&&◌, ◌||◌, not, ltb, leb, ◌==◌,
  if◌then◌else◌, length, map, take, get_or, Option, none, some, put, ◌>>=◌,
}
use ixcoin.Common.Int.{ℤ, pos}
use ixcoin.Bignum.{set_compact, of_int}
use ixcoin.Bignum.OpenSsl.{BnLib}
use ixcoin.Tx.{Transaction, is_final}
use ixcoin.Chain.Header.{Header, header_hash}
use ixcoin.Chain.Work.{BlockIndex, get_next_work_required}
use ixcoin.Chain.Block.{Block}
use ixcoin.Ledger.{Node, IndexedBlock}
use ixcoin.Ledger.Blocks.{Setting, ChainDb, connect_block}
use ixcoin.Mempool.{Around}
use ixcoin.Reorganize.{Blocks, World, reorganize, commit, delete_all}

-- The fields of `CBlockIndex` that these functions read.
pub record Entry : Type 0 where
  pub block : IndexedBlock
  pub time : ℕ
  pub bits : ℕ
  pub chain_work : ℤ

abbrev pub Chain : Type 0
Chain = List Entry

abbrev pub blocks_of : Chain → Blocks
blocks_of = map (λ e. e.block)

-- `std::sort`
unfoldable pub insert_time : ℕ → List ℕ → List ℕ
insert_time t [] = t ∷ []
insert_time t (u ∷ us) = let rest = insert_time t us in if leb t u then t ∷ u ∷ us else u ∷ rest

unfoldable pub sort_times : List ℕ → List ℕ
sort_times [] = []
sort_times (t ∷ ts) = insert_time t (sort_times ts)

abbrev pub median_time_span : ℕ
median_time_span = 11

-- `GetMedianTimePast`
unfoldable pub median_time_past : Chain → ℕ
median_time_past c =
    let times = sort_times (map (λ e. e.time) (take median_time_span c)) in
    get_or times (length times / 2) 0

unfoldable pub all_final : ℤ → ℤ → ℕ → ℕ → List Transaction → Bool
all_final best_height now height time [] = true
all_final best_height now height time (tx ∷ txs) =
    let rest = all_final best_height now height time txs in
    if not (is_final best_height now tx (pos height) (pos time)) then false else rest

-- The block chain is the known one up to a checkpoint.
unfoldable pub breaks_checkpoint : ℕ → ℕ → Bool
breaks_checkpoint height hash =
    (height == 1_000
      && not (hash == 0x0000000be0e638f75c46f83e431d50847c00330e17adbca7836e994eaf5c32d))
    || (height == 2_000
        && not (hash == 0x0000000d5cd8ca83acc83d035879288a002b322be818c41714fd701836c7ca1))
    || (height == 3_000
        && not (hash == 0x00000009e8d886b684685598ba4fd113fe3492dec68293030a167625879d339))
    || (height == 6_050
        && not (hash == 0x000000000022c879b1371c86e0486de29cce188d620b7380fcbafc4d831928ed))
    || (height == 19_947
        && not (hash == 0x0000000000019b4caf53edf06c2e4359e05c0de52616b984179785188d5a0a3c))
    || (height == 36_500
        && not (hash == 0x00000000001de37cb05a71b63b6c48685694726169c9a5e6f1e85ef52eaf30cc))

-- `GetBlockWork`; `none` is the exception of a division by zero.
unfoldable pub get_block_work : BnLib → ℕ → Option ℤ
get_block_work bn bits =
    let target = set_compact bn bits in
    if not (bn.below (of_int bn (pos 0)) target)
    then some (of_int bn (pos 0))
    else bn.div (bn.lshift (of_int bn (pos 1)) 256) (bn.add target (of_int bn (pos 1)))

-- The globals: `mapBlockIndex`, whether `pindexGenesisBlock` is set, `pindexBest`, `bnBestChainWork`,
-- `bnBestInvalidWork`, and the database with the links and the pool.
pub record Globals : Type 0 where
  pub index : ℕ → Option Chain
  pub has_genesis : Bool
  pub best : Chain
  pub best_work : ℤ
  pub best_invalid_work : ℤ
  pub world : World

-- What the functions read: the libraries and databases, the settings of the checks, the blocks in the
-- files, the hash of the first block, the state around the pool, and whether the database takes the
-- hash of a best chain that grows, before the commit.
pub record Host : Type 0 where
  pub node : Node
  pub setting : Setting
  pub read : IndexedBlock → Option Block
  pub genesis : ℕ
  pub writes_best : Bool
  pub around : Around

abbrev pub best_hash : Chain → ℕ
best_hash [] = 0
best_hash (e ∷ _) = e.block.hash

abbrev pub best_height : Chain → ℕ
best_height [] = 0
best_height (e ∷ _) = e.block.height

-- `InvalidChainFound`
unfoldable pub invalid_chain_found : Host → Entry → Globals → Globals
invalid_chain_found host e g =
    if host.node.bn.below g.best_invalid_work e.chain_work
    then record g { best_invalid_work = e.chain_work }
    else g

-- The end of `SetBestChain`: the new block is the best one.
abbrev pub take_best : Entry → Chain → World → Globals → Globals
take_best e earlier w g = record g {
  best = e ∷ earlier;
  best_work = e.chain_work;
  world = record w { pool = record w.pool { updated = (w.pool.updated + 1) % 2 ^ 32 } };
}

abbrev pub with_link : Entry → Chain → World → World
with_link e [] w = w
with_link e (p ∷ _) w = record w { links = put p.block.hash e.block.hash w.links }

-- What the three branches of `SetBestChain` come to: a new world, a block that is no good, or a commit
-- that failed.
pub data Advance : Type 0 where
  advanced : World → Advance
  rejected : Advance
  lost : Advance

unfoldable pub commit_best : Node → Blocks → ChainDb → (ChainDb → World) → Advance
commit_best nd c db f = elim (commit nd c db) [ none ↦ lost | some db' ↦ advanced (f db') ]

-- The branch that adds to the best chain: a block that does not connect, or whose hash cannot be
-- written, is no good; only a commit that fails leaves it at that.
unfoldable pub extend_best : Host → Block → Entry → Chain → World → Advance
extend_best host b e earlier w =
    elim (connect_block host.node host.setting e.block (blocks_of earlier) b w.db) [
      | none ↦ rejected
      | some db ↦
          if not host.writes_best
          then rejected
          else commit_best host.node (e.block ∷ blocks_of earlier) db (λ db'.
            with_link e earlier (record w { db = db'; pool = delete_all host.node b.vtx w.pool }))
    ]

unfoldable pub leave_best : Host → Entry → Chain → Globals → Advance
leave_best host e earlier g =
    elim (reorganize host.node host.setting host.read host.around (blocks_of g.best)
      (e.block ∷ blocks_of earlier) g.world) [ none ↦ rejected | some w ↦ advanced w ]

-- The write of the hash of the first block, whose answer the source drops, is taken to succeed.
unfoldable pub next_world : Host → Block → Entry → Chain → Globals → Advance
next_world host b e earlier g =
    if not g.has_genesis && e.block.hash == host.genesis
    then commit_best host.node (e.block ∷ []) g.world.db (λ db. record g.world { db = db })
    else if b.header.hash_prev_block == best_hash g.best
    then extend_best host b e earlier g.world
    else leave_best host e earlier g

unfoldable pub apply_advance : Host → Entry → Chain → Globals → Advance → Bool × Globals
apply_advance host e earlier g rejected = (false, invalid_chain_found host e g)
apply_advance host e earlier g lost = (false, g)
apply_advance host e earlier g (advanced w) = (
  true,
  take_best e earlier w (record g { has_genesis = g.has_genesis || e.block.hash == host.genesis }),
)

-- `SetBestChain`: whether it returns true, and the globals. The wallets' note of the best block is
-- left out.
unfoldable pub set_best_chain : Host → Block → Entry → Chain → Globals → Bool × Globals
set_best_chain host b e earlier g = apply_advance host e earlier g (next_world host b e earlier g)

-- The entry of a new block; a work that is computed is never divided by zero, since the divisor is
-- positive.
unfoldable pub new_entry : Host → ℕ → ℕ → Block → Chain → Option Entry
new_entry host file block_pos b earlier = do
  work ← get_block_work host.node.bn b.header.bits
  some (record {
    block = record {
      hash = header_hash host.node.hashes b.header;
      file = file;
      block_pos = block_pos;
      height = elim earlier [ [] ↦ 0 | p ∷ _ ↦ p.block.height + 1 ];
    };
    time = b.header.time;
    bits = b.header.bits;
    chain_work =
        host.node.bn.add (elim earlier [ [] ↦ of_int host.node.bn (pos 0) | p ∷ _ ↦ p.chain_work ])
          work;
  })

abbrev pub earlier_of : Option Chain → Chain
earlier_of none = []
earlier_of (some c) = c

-- The record of the block in the database, which no block follows.
abbrev pub with_record : Entry → World → World
with_record e w = record w { db = record w.db { next = put e.block.hash 0 w.db.next } }

-- The entry is in the index; the database takes it, and a chain with more work than the best one is
-- made the best one.
unfoldable pub enter_block : Host → Block → Entry → Chain → Globals → Bool × Globals
enter_block host b e earlier g =
    let g' = record g { index = put e.block.hash (e ∷ earlier) g.index } in
    let g'' = record g' { world = with_record e g.world } in
    if not host.node.commits
    then (false, g')
    else if host.node.bn.below g.best_work e.chain_work
    then set_best_chain host b e earlier g''
    else (true, g'')

-- `AddToBlockIndex`
unfoldable pub add_to_block_index : Host → ℕ → ℕ → Block → Globals → Bool × Globals
add_to_block_index host file block_pos b g =
    elim (g.index (header_hash host.node.hashes b.header)) [
      | some _ ↦ (false, g)
      | none ↦
          let earlier = earlier_of (g.index b.header.hash_prev_block) in
          elim (new_entry host file block_pos b earlier) [
            | none ↦ (false, g)
            | some e ↦ enter_block host b e earlier g
          ]
    ]

-- The tests of `AcceptBlock` behind those on the index, by the work that is required; an exception
-- there counts as false.
unfoldable pub fits_bits : Host → ℤ → Block → Chain → ℕ → Option ℕ → Bool
fits_bits host now b earlier hash none = false
fits_bits host now b earlier hash (some bits) =
    let height = best_height earlier + 1 in
    if not (b.header.bits == bits)
    then false
    else if leb b.header.time (median_time_past earlier)
    then false
    else if not (all_final (pos 0) now height b.header.time b.vtx)
    then false
    else host.setting.test_net || not (breaks_checkpoint height hash)

abbrev pub required_bits : Host → Chain → Option ℕ
required_bits host c =
    get_next_work_required host.node.bn (map (λ e. record { time = e.time; bits = e.bits }) c)

-- The end of `AcceptBlock`, by the place of `WriteToDisk` in the block file, which is none where the
-- disk is full or the write fails.
unfoldable pub store_block : Host → Block → Globals → Option (ℕ × ℕ) → Bool × Globals
store_block host b g none = (false, g)
store_block host b g (some (file, block_pos)) = add_to_block_index host file block_pos b g

-- By what the index has under the hash of the block and under that of the block before.
unfoldable pub accept_at :
    Host → ℤ → Option (ℕ × ℕ) → Block → Globals → Option Chain → Option Chain → Bool × Globals
accept_at host now written b g (some _) _ = (false, g)
accept_at host now written b g none none = (false, g)
accept_at host now written b g none (some earlier) =
    if not (
      fits_bits host now b earlier (header_hash host.node.hashes b.header)
        (required_bits host earlier))
    then (false, g)
    else store_block host b g written

-- `AcceptBlock`. The block is not relayed here.
unfoldable pub accept_block : Host → ℤ → Option (ℕ × ℕ) → Block → Globals → Bool × Globals
accept_block host now written b g =
    accept_at host now written b g (g.index (header_hash host.node.hashes b.header))
      (g.index b.header.hash_prev_block)
