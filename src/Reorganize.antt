-- ===== src/Reorganize.antt =====
-- src/main.cpp: `Reorganize`, which leaves the best chain for a longer one. A chain is the list of
-- its blocks from the last one back to the first, so that a pointer to a `CBlockIndex` is such a list;
-- two pointers are equal where the hashes of the blocks are.
pub mod Fork
pub mod Branches
mod Tests
use ixcoin.Common.{
  ℕ, List, [], ◌∷◌, ◌++◌, Bool, true, false, not, ltb, leb, ◌==◌, if◌then◌else◌, Option, none, some,
  put, erase, ◌>>=◌,
}
use mathlib.Core.List.{reverse}
use ixcoin.Tx.{Transaction, is_coin_base}
use ixcoin.Tx.Check.{is_empty}
use ixcoin.Chain.Block.{Block}
use ixcoin.Ledger.{Node, IndexedBlock}
use ixcoin.Ledger.Blocks.{Setting, ChainDb, connect_block, disconnect_block}
use ixcoin.Mempool.{
  Pool, Around, Answer, accepted, refused, accept_to_memory_pool, remove_from_pool,
}

abbrev pub Blocks : Type 0
Blocks = List IndexedBlock

-- `pfork == plonger`
unfoldable pub same_block : Blocks → Blocks → Bool
same_block [] [] = true
same_block (a ∷ _) (b ∷ _) = a.hash == b.hash
same_block _ _ = false

-- `while (plonger->nHeight > pfork->nHeight)`
unfoldable pub lower_to : ℕ → Blocks → Blocks
lower_to h [] = []
lower_to h (b ∷ bs) = if ltb h b.height then lower_to h bs else b ∷ bs

-- The search for the fork; `none` where a pointer is null.
unfoldable pub find_fork : Blocks → Blocks → Option Blocks
find_fork [] longer = none
find_fork (f ∷ fs) longer =
    let lower = lower_to f.height longer in
    let rest = find_fork fs lower in
    if same_block (f ∷ fs) longer
    then some (f ∷ fs)
    else if is_empty lower
    then none
    else if same_block (f ∷ fs) lower
    then some (f ∷ fs)
    else rest

-- `vDisconnect`, and `vConnect` before it is reversed.
unfoldable pub above : Blocks → Blocks → List Blocks
above fork [] = []
above fork (b ∷ bs) =
    let rest = above fork bs in if same_block (b ∷ bs) fork then [] else (b ∷ bs) ∷ rest

-- `vResurrect`
unfoldable pub loose_txs : List Transaction → List Transaction
loose_txs [] = []
loose_txs (tx ∷ txs) = let rest = loose_txs txs in if not (is_coin_base tx) then tx ∷ rest else rest

module _ (nd : Node) (st : Setting) (read : IndexedBlock → Option Block) where
  unfoldable pub disconnect_branch : List Blocks → ChainDb → Option (List Transaction × ChainDb)
  disconnect_branch [] db = some ([], db)
  disconnect_branch ([] ∷ _) db = none
  disconnect_branch ((b ∷ bs) ∷ cs) db = do
    block ← read b
    db' ← disconnect_block nd bs block db
    (txs, db'') ← disconnect_branch cs db'
    some (loose_txs block.vtx ++ txs, db'')

  unfoldable pub connect_branch : List Blocks → ChainDb → Option (List Transaction × ChainDb)
  connect_branch [] db = some ([], db)
  connect_branch ([] ∷ _) db = none
  connect_branch ((b ∷ bs) ∷ cs) db = do
    block ← read b
    db' ← connect_block nd st b bs block db
    (txs, db'') ← connect_branch cs db'
    some (block.vtx ++ txs, db'')

-- `pnext` of the blocks, by their hashes.
abbrev pub Links : Type 0
Links = ℕ → Option ℕ

unfoldable pub unlink_branch : List Blocks → Links → Links
unlink_branch [] m = m
unlink_branch ((b ∷ p ∷ _) ∷ cs) m = unlink_branch cs (erase p.hash m)
unlink_branch (_ ∷ cs) m = unlink_branch cs m

unfoldable pub link_branch : List Blocks → Links → Links
link_branch [] m = m
link_branch ((b ∷ p ∷ _) ∷ cs) m = link_branch cs (put p.hash b.hash m)
link_branch (_ ∷ cs) m = link_branch cs m

-- The transactions of the blocks left behind enter the pool again, without a look at their inputs.
unfoldable pub resurrect : Node → Around → List Transaction → Pool → Pool
resurrect nd a [] p = p
resurrect nd a (tx ∷ txs) p = elim (accept_to_memory_pool nd a tx false p) [
  | accepted p' ↦ resurrect nd a txs p'
  | refused _ ↦ resurrect nd a txs p
]

unfoldable pub delete_all : Node → List Transaction → Pool → Pool
delete_all nd [] p = p
delete_all nd (tx ∷ txs) p = delete_all nd txs (remove_from_pool nd.hashes tx p)

pub record World : Type 0 where
  pub db : ChainDb
  pub links : Links
  pub pool : Pool

-- `WriteHashBestChain` and `TxnCommit`
unfoldable pub commit : Node → Blocks → ChainDb → Option ChainDb
commit nd [] db = none
commit nd (b ∷ _) db = if not nd.commits then none else some (record db { best = b.hash })

-- `Reorganize`, from the chain `pindexBest` to the chain `pindexNew`. Where it returns false nothing
-- is committed, and the memory is as before.
unfoldable pub reorganize :
    Node → Setting → (IndexedBlock → Option Block) → Around → Blocks → Blocks → World → Option World
reorganize nd st read a best new w = do
  fork ← find_fork best new
  (back, db) ← disconnect_branch nd st read (above fork best) w.db
  (gone, db') ← connect_branch nd st read (reverse (above fork new)) db
  db'' ← commit nd new db'
  some (record {
    db = db'';
    links = link_branch (reverse (above fork new)) (unlink_branch (above fork best) w.links);
    pool = delete_all nd gone (resurrect nd (record a { index = db''.index }) back w.pool);
  })
