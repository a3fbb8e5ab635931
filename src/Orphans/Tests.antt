-- ===== src/Orphans/Tests.antt =====
-- An orphan that is put aside, and the theorem at it.
use ixcoin.Common.{◌≡◌, [], Bool, true, none, some}
use ixcoin.Common.Int.{pos}
use ixcoin.Accept.{Globals}
use ixcoin.Accept.Tests.{host, world, block}
use ixcoin.Orphans.{Orphans, process_block}
use ixcoin.Orphans.Listed.{IsListed}
use ixcoin.Orphans.Queue.{process_block-IsListed}

abbrev globals : Globals
globals = record {
  index = λ _. none;
  has_genesis = true;
  best = [];
  best_work = pos 0;
  best_invalid_work = pos 0;
  world = world;
}

abbrev no_orphans : Orphans
no_orphans = record { blocks = λ _. none; by_prev = [] }

process_block-IsListed_example :
    (ok : Bool) × (g' : Globals) × (o' : Orphans) × (process_block host
        (pos 0)
        (λ _. none)
        (block 7 1_200)
        globals
        no_orphans
      ≡ some (ok, g', o'))
    × IsListed host (pos 0) (λ _. none) o'
process_block-IsListed_example =
    process_block-IsListed host (pos 0) (λ _. none) (block 7 1_200) globals no_orphans
      (λ b i. elim i [ ], λ k b e. cc)
