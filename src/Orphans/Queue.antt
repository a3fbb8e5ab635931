-- ===== src/Orphans/Queue.antt =====
-- The work queue of `ProcessBlock` in src/main.cpp.
use ixcoin.Common.{
  ℕ, zero, suc, ◌+◌, ◌≤◌, ◌≡◌, refl, ap, List, [], ◌∷◌, ◌++◌, Bool, true, false, not, ◌||◌,
  if◌then◌else◌, length, length-append, Option, none, some, arith, ◌>>=◌,
}
use ixcoin.Common.Int.{ℤ}
use ixcoin.Chain.Block.{Block}
use ixcoin.Mempool.{is_there}
use ixcoin.Accept.{Globals, Host, accept_block}
use ixcoin.Orphans.{
  Orphans, followers, get_hash, accept_each, release, queue_loop, passes, process_queue,
  process_new, process_block,
}
use ixcoin.Orphans.Listed.{IsListed, release-IsListed, hold-IsListed, length-others}

module _ (host : Host) (now : ℤ) (written : Block → Option (ℕ × ℕ)) where
  length-accept_each :
      (bs : List Block) (g : Globals) → length ((accept_each host now written bs g).0) ≤ length bs
  unfolding accept_each
  length-accept_each [] g = omega arith
  length-accept_each (b ∷ bs) g =
      let r = accept_block host now (written b) b g in
      pick (r.0) (get_hash host now written b) ((accept_each host now written bs (r.1)).0)
        (length bs) (length-accept_each bs (r.1))
    where
      pick :
          (x : Bool) (h : ℕ) (hs : List ℕ) (n : ℕ)
          → length hs ≤ n
          → length (if x then h ∷ hs else hs) ≤ suc n
      pick true h hs n l = omega arith
      pick false h hs n l = omega arith

  -- The loop takes a hash off the queue, and an orphan for each that it puts on.
  queue_loop-IsListed :
      (f : ℕ) (hs : List ℕ) (g : Globals) (o : Orphans)
      → length hs + length o.by_prev ≤ f
      → IsListed host now written o
      → (g' : Globals) × (o' : Orphans) × (queue_loop host now written f hs g o ≡ some (g', o'))
        × IsListed host now written o'
  unfolding queue_loop
  queue_loop-IsListed zero [] g o l k = (g, o, refl, k)
  queue_loop-IsListed (suc f) [] g o l k = (g, o, refl, k)
  queue_loop-IsListed zero (h ∷ hs) g o l k = let z : 1 ≤ 0 = omega arith in elim (no_room z) [ ]
    where
      no_room : 1 ≤ 0 → ⊥
      no_room z = omega arith
  queue_loop-IsListed (suc f) (h ∷ hs) g o l k =
      let r = accept_each host now written (followers h o.by_prev) g in
      queue_loop-IsListed f (hs ++ r.0) (r.1) (release host now written h o)
        (omega (
          arith,
          length-append hs (r.0),
          length-accept_each (followers h o.by_prev) g,
          length-others h o.by_prev,
        ))
        (release-IsListed host now written h o k)

  -- What `ProcessBlock` comes to.
  abbrev pub IsProcessed : Option (Bool × Globals × Orphans) → Type 0
  IsProcessed r =
      (ok : Bool) × (g : Globals) × (o : Orphans) × (r ≡ some (ok, g, o))
      × IsListed host now written o

  process_queue-IsProcessed :
      (b : Block) (o : Orphans) (r : Bool × Globals)
      → IsListed host now written o
      → IsProcessed (process_queue host now written b o r)
  unfolding process_queue
  process_queue-IsProcessed b o (false, g) k = (false, g, o, refl, k)
  process_queue-IsProcessed b o (true, g) k =
      let (g', o', e, k') =
        queue_loop-IsListed (suc (length o.by_prev)) (get_hash host now written b ∷ []) g o
          (omega arith) k in
      (true, g', o', ap (λ t. t >>= (λ s. some (true, s.0, s.1))) e, k')

  process_new-IsProcessed :
      (b : Block) (g : Globals) (o : Orphans) (x : Bool)
      → o.blocks (get_hash host now written b) ≡ none
      → IsListed host now written o
      → IsProcessed (process_new host now written b g o x)
  unfolding process_new
  process_new-IsProcessed b g o false n k =
      (true, g, _, refl, hold-IsListed host now written b o n k)
  process_new-IsProcessed b g o true n k =
      process_queue-IsProcessed b o (accept_block host now (written b) b g) k

  -- `ProcessBlock` comes to an end, also where each orphan that is accepted sets others free, and
  -- leaves both maps of the orphans with the same blocks, the first with each under its hash, if they
  -- were so before.
  pub process_block-IsListed :
      (b : Block) (g : Globals) (o : Orphans)
      → IsListed host now written o
      → (ok : Bool) × (g' : Globals) × (o' : Orphans) × (process_block host now written b g o
          ≡ some (ok, g', o'))
        × IsListed host now written o'
  unfolding process_block
  process_block-IsListed b g o k =
      by_cases (is_there (g.index (get_hash host now written b)))
        (o.blocks (get_hash host now written b)) (passes host now written b)
        (λ n. process_new-IsProcessed b g o (is_there (g.index b.header.hash_prev_block)) n k)
    where
      by_cases :
          (x : Bool) (y : Option Block) (z : Bool)
          → (y ≡ none
              → IsProcessed (
                  process_new host now written b g o (is_there (g.index b.header.hash_prev_block))))
          → IsProcessed (
              if x || is_there y
              then some (false, g, o)
              else if not z
              then some (false, g, o)
              else process_new host now written b g o (is_there (g.index b.header.hash_prev_block)))
      by_cases true y z f = (false, g, o, refl, k)
      by_cases false (some c) z f = (false, g, o, refl, k)
      by_cases false none true f = f refl
      by_cases false none false f = (false, g, o, refl, k)
