-- ===== src/Orphans.antt =====
-- src/main.cpp: `ProcessBlock` and the blocks that wait for the block before them. The question to the
-- peer for the blocks that are missing is left out.
pub mod Listed
pub mod Queue
mod Tests
use ixcoin.Common.{
  ℕ, zero, suc, ◌+◌, List, [], ◌∷◌, ◌++◌, Bool, true, false, not, ◌==◌, if◌then◌else◌, length,
  Option, none, some, put, erase, ◌>>=◌, ◌||◌,
}
use ixcoin.Common.Int.{ℤ}
use ixcoin.Chain.Header.{header_hash}
use ixcoin.Chain.Block.{Block, check_block, int_max}
use ixcoin.Mempool.{is_there}
use ixcoin.Accept.{Globals, Host, accept_block}

-- `mapOrphanBlocks` and `mapOrphanBlocksByPrev`. The blocks of one key of the second stand in the order
-- in which they were put in.
pub record Orphans : Type 0 where
  pub blocks : ℕ → Option Block
  pub by_prev : List Block

-- The entries of `mapOrphanBlocksByPrev` under a key, and the others.
unfoldable pub followers : ℕ → List Block → List Block
followers h [] = []
followers h (b ∷ bs) =
    let rest = followers h bs in if b.header.hash_prev_block == h then b ∷ rest else rest

unfoldable pub others : ℕ → List Block → List Block
others h [] = []
others h (b ∷ bs) =
    let rest = others h bs in if b.header.hash_prev_block == h then rest else b ∷ rest

module _ (host : Host) (now : ℤ) (written : Block → Option (ℕ × ℕ)) where
  abbrev pub get_hash : Block → ℕ
  get_hash b = header_hash host.node.hashes b.header

  unfoldable pub erase_each : List Block → (ℕ → Option Block) → ℕ → Option Block
  erase_each [] m = m
  erase_each (b ∷ bs) m = erase_each bs (erase (get_hash b) m)

  -- The hashes of those that are accepted, one after the other.
  unfoldable pub accept_each : List Block → Globals → List ℕ × Globals
  accept_each [] g = ([], g)
  accept_each (b ∷ bs) g =
      let (accepted, g') = accept_block host now (written b) b g in
      let (hs, g'') = accept_each bs g' in (if accepted then get_hash b ∷ hs else hs, g'')

  abbrev pub release : ℕ → Orphans → Orphans
  release h o = record {
    blocks = erase_each (followers h o.by_prev) o.blocks;
    by_prev = others h o.by_prev;
  }

  -- The loop over `vWorkQueue`; `none` is the end of the fuel.
  unfoldable pub queue_loop : ℕ → List ℕ → Globals → Orphans → Option (Globals × Orphans)
  queue_loop f [] g o = some (g, o)
  queue_loop zero (h ∷ hs) g o = none
  queue_loop (suc f) (h ∷ hs) g o =
      let (accepted, g') = accept_each (followers h o.by_prev) g in
      queue_loop f (hs ++ accepted) g' (release h o)

  abbrev pub hold : Block → Orphans → Orphans
  hold b o = record { blocks = put (get_hash b) b o.blocks; by_prev = o.by_prev ++ b ∷ [] }

  unfoldable pub passes : Block → Bool
  passes b =
      elim (check_block host.node.hashes host.node.bn host.setting.test_net host.setting.now
        (host.setting.size b) b int_max) [ some true ↦ true | _ ↦ false ]

  -- Behind `AcceptBlock`.
  unfoldable pub process_queue :
      Block → Orphans → Bool × Globals → Option (Bool × Globals × Orphans)
  process_queue b o (false, g) = some (false, g, o)
  process_queue b o (true, g) = do
    (g', o') ← queue_loop (suc (length o.by_prev)) (get_hash b ∷ []) g o
    some (true, g', o')

  -- A block that is new and passes, by what the index has under the hash of the block before it.
  unfoldable pub process_new : Block → Globals → Orphans → Bool → Option (Bool × Globals × Orphans)
  process_new b g o false = some (true, g, hold b o)
  process_new b g o true = process_queue b o (accept_block host now (written b) b g)

  -- `ProcessBlock`
  unfoldable pub process_block : Block → Globals → Orphans → Option (Bool × Globals × Orphans)
  process_block b g o =
      if is_there (g.index (get_hash b)) || is_there (o.blocks (get_hash b))
      then some (false, g, o)
      else if not (passes b)
      then some (false, g, o)
      else process_new b g o (is_there (g.index b.header.hash_prev_block))
