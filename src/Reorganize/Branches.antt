-- ===== src/Reorganize/Branches.antt =====
-- Leaving a branch and taking another one: the index is the one that the new branch has at the fork.
use ixcoin.Common.{
  ℕ, ◌≡◌, ◌≢◌, refl, ap, ◌∙◌, List, [], ◌∷◌, ◌++◌, true, Option, some, ◌>>=◌, >>=-some,
}
use mathlib.Core.List.{reverse, reverse-append}
use mathlib.Core.Option.{some-injective}
use ixcoin.Tx.{Transaction, uint_max}
use ixcoin.Chain.Block.{Block}
use ixcoin.Ledger.{Node, IndexedBlock}
use ixcoin.Ledger.Blocks.{Setting, ChainDb, connect_block, disconnect_txs, disconnect_block}
use ixcoin.Ledger.Marks.{IsCanonical}
use ixcoin.Ledger.Undo.{IsReliable}
use ixcoin.Ledger.UndoBlock.{
  AreNew, connect_block-undone, disconnect_block-index, connect_block-index,
}
use ixcoin.Mempool.{Around}
use ixcoin.Reorganize.{
  Blocks, find_fork, above, loose_txs, disconnect_branch, connect_branch, unlink_branch,
  link_branch, resurrect, delete_all, commit, World, reorganize,
}

module _ (nd : Node) (st : Setting) (read : IndexedBlock → Option Block) where
  -- A branch that was connected block by block, each with transactions that were new.
  pub data Branch : List Blocks → ChainDb → ChainDb → Type 0 where
    here : {db : ChainDb} → Branch [] db db
    next :
        {db db1 db2 : ChainDb} {b : IndexedBlock} {bs : Blocks} {cs : List Blocks} (block : Block)
        → read b ≡ some block
        → b.file ≢ uint_max
        → AreNew nd.hashes block.vtx db.index
        → connect_block nd st b bs block db ≡ some db1
        → Branch cs db1 db2
        → Branch ((b ∷ bs) ∷ cs) db db2

  disconnect_cons :
      (b : IndexedBlock) (bs : Blocks) (cs : List Blocks) (block : Block) (x x1 x2 : ChainDb)
      (txs : List Transaction)
      → read b ≡ some block
      → disconnect_block nd bs block x ≡ some x1
      → disconnect_branch nd st read cs x1 ≡ some (txs, x2)
      → disconnect_branch nd st read ((b ∷ bs) ∷ cs) x ≡ some (loose_txs block.vtx ++ txs, x2)
  unfolding disconnect_branch
  disconnect_cons b bs cs block x x1 x2 txs r d k = rw (r, ◌>>=◌, d, ◌>>=◌, k)

  connect_cons :
      (b : IndexedBlock) (bs : Blocks) (cs : List Blocks) (block : Block) (x x1 x2 : ChainDb)
      (txs : List Transaction)
      → read b ≡ some block
      → connect_block nd st b bs block x ≡ some x1
      → connect_branch nd st read cs x1 ≡ some (txs, x2)
      → connect_branch nd st read ((b ∷ bs) ∷ cs) x ≡ some (block.vtx ++ txs, x2)
  unfolding connect_branch
  connect_cons b bs cs block x x1 x2 txs r d k = rw (r, ◌>>=◌, d, ◌>>=◌, k)

  disconnect_branch-append :
      (cs ds : List Blocks) (x y z : ChainDb) (t u : List Transaction)
      → disconnect_branch nd st read cs x ≡ some (t, y)
      → disconnect_branch nd st read ds y ≡ some (u, z)
      → (v : List Transaction) × (disconnect_branch nd st read (cs ++ ds) x ≡ some (v, z))
  unfolding disconnect_branch
  disconnect_branch-append [] ds x y z t u h k =
      let q : x ≡ y = ap (λ w. w.1) (some-injective _ _ h) in
      (u, ap (disconnect_branch nd st read ds) q ∙ k)
  disconnect_branch-append ([] ∷ cs) ds x y z t u h k = cc
  disconnect_branch-append ((b ∷ bs) ∷ cs) ds x y z t u h k =
      let (block, r, h1) = >>=-some (read b) _ _ h in
      let (x1, d, h2) = >>=-some (disconnect_block nd bs block x) _ _ h1 in
      let ((txs, x2), e, h3) = >>=-some (disconnect_branch nd st read cs x1) _ _ h2 in
      let q : x2 ≡ y = ap (λ w. w.1) (some-injective _ _ h3) in
      let (v, f) = disconnect_branch-append cs ds x1 y z txs u (e ∙ ap (λ w. some (txs, w)) q) k in
      (loose_txs block.vtx ++ v, disconnect_cons b bs (cs ++ ds) block x x1 z v r d f)

  -- One block of a branch.
  disconnect_one :
      (b : IndexedBlock) (bs : Blocks) (block : Block) (x y : ChainDb)
      → read b ≡ some block
      → disconnect_block nd bs block x ≡ some y
      → (t : List Transaction) × (disconnect_branch nd st read ((b ∷ bs) ∷ []) x ≡ some (t, y))
  unfolding disconnect_branch
  disconnect_one b bs block x y r d = (loose_txs block.vtx ++ [], rw (r, ◌>>=◌, d, ◌>>=◌))

  -- Taking a branch back, from a database with the index that it left.
  disconnect_branch-Branch :
      {cs : List Blocks} {db db' : ChainDb}
      → Branch cs db db'
      → (x : ChainDb) → IsReliable nd
      → ((j : ℕ) → nd.takes_block j ≡ true)
      → IsCanonical db.index
      → x.index ≡ db'.index
      → (t : List Transaction) × (y : ChainDb) × (disconnect_branch nd st read (reverse cs) x
          ≡ some (t, y))
        × (y.index ≡ db.index)
  disconnect_branch-Branch here x r t c e = ([], x, unfold disconnect_branch in refl, e)
  disconnect_branch-Branch (next {db} {db1} {db2} {b} {bs} {cs} block found file new connected rest)
        x r t c e =
      let (d, c1) = connect_block-undone nd st b bs block db db1 r file c new connected in
      let (u, y, back, same) = disconnect_branch-Branch rest x r t c1 e in
      let (z, step, last) =
        disconnect_block-index nd bs block y db.index t
          (ap (disconnect_txs nd block.vtx) same ∙ d) in
      let (w, one) = disconnect_one b bs block y z found step in
      let (v, all) = disconnect_branch-append (reverse cs) ((b ∷ bs) ∷ []) x y z u w back one in
      (
        v,
        z,
        ap (λ l. disconnect_branch nd st read l x) (reverse-append ((b ∷ bs) ∷ []) cs) ∙ all,
        last,
      )

  -- Connecting a branch looks at the index only.
  connect_branch-index :
      (cs : List Blocks) (x x' y : ChainDb) (t : List Transaction)
      → ((j : ℕ) → nd.takes_block j ≡ true)
      → y.index ≡ x.index
      → connect_branch nd st read cs x ≡ some (t, x')
      → (y' : ChainDb) × (connect_branch nd st read cs y ≡ some (t, y')) × (y'.index ≡ x'.index)
  unfolding connect_branch
  connect_branch-index [] x x' y t k e h =
      let q = some-injective _ _ h in (y, ap (λ w. some (w.0, y)) q, e ∙ ap (λ w. w.1.index) q)
  connect_branch-index ([] ∷ cs) x x' y t k e h = cc
  connect_branch-index ((b ∷ bs) ∷ cs) x x' y t k e h =
      let (block, r, h1) = >>=-some (read b) _ _ h in
      let (x1, d, h2) = >>=-some (connect_block nd st b bs block x) _ _ h1 in
      let ((txs, x2), f, h3) = >>=-some (connect_branch nd st read cs x1) _ _ h2 in
      let q = some-injective _ _ h3 in
      let (y1, d', e1) = connect_block-index nd st b bs block x x1 y k e d in
      let (y2, f', e2) = connect_branch-index cs x1 x2 y1 txs k e1 f in
      (
        y2,
        connect_cons b bs cs block y y1 y2 txs r d' f' ∙ ap (λ w. some (w.0, y2)) q,
        e2 ∙ ap (λ w. w.1.index) q,
      )

  -- The steps of `Reorganize` where none of them fails.
  reorganize_steps :
      (a : Around) (best ns fork : Blocks) (n : IndexedBlock) (w : World) (x y : ChainDb)
      (back t : List Transaction)
      → nd.commits ≡ true
      → find_fork best (n ∷ ns) ≡ some fork
      → disconnect_branch nd st read (above fork best) w.db ≡ some (back, x)
      → connect_branch nd st read (reverse (above fork (n ∷ ns))) x ≡ some (t, y)
      → (w' : World) × (reorganize nd st read a best (n ∷ ns) w ≡ some w')
        × (w'.db ≡ record y { best = n.hash })
  unfolding reorganize commit
  reorganize_steps a best ns fork n w x y back t commits found left joined = (
    record {
      db = record y { best = n.hash };
      links = link_branch (reverse (above fork (n ∷ ns))) (unlink_branch (above fork best) w.links);
      pool = delete_all nd t (resurrect nd (record a { index = y.index }) back w.pool);
    },
    rw (found, ◌>>=◌, left, ◌>>=◌, joined, ◌>>=◌, commits),
    refl,
  )

  -- Where the branch above the fork was connected block by block, and the new branch can be connected
  -- at the fork, `Reorganize` returns true, and leaves the index that the new branch has there and the
  -- hash of its last block. The database takes every change and commits, the transactions of each
  -- block that is left were new, and each mark of an unspent output at the fork is the null one.
  pub reorganize-Branch :
      (a : Around) (best ns fork : Blocks) (n : IndexedBlock) (old : List Blocks) (w : World)
      (db db' : ChainDb) (t : List Transaction)
      → IsReliable nd
      → ((j : ℕ) → nd.takes_block j ≡ true)
      → nd.commits ≡ true
      → find_fork best (n ∷ ns) ≡ some fork
      → above fork best ≡ reverse old
      → Branch old db w.db
      → IsCanonical db.index
      → connect_branch nd st read (reverse (above fork (n ∷ ns))) db ≡ some (t, db')
      → (w' : World) × (reorganize nd st read a best (n ∷ ns) w ≡ some w')
        × (w'.db.index ≡ db'.index)
        × (w'.db.best ≡ n.hash)
  reorganize-Branch a best ns fork n old w db db' t r k commits found branch history c taken =
      let (back, x, left, same) = disconnect_branch-Branch history w.db r k c refl in
      let (y, joined, index) =
        connect_branch-index (reverse (above fork (n ∷ ns))) db db' x t k same taken in
      let (w', done, after) =
        reorganize_steps a best ns fork n w x y back t commits found
          (ap (λ l. disconnect_branch nd st read l w.db) branch ∙ left) joined in
      (w', done, ap (λ z. z.index) after ∙ index, ap (λ z. z.best) after)
