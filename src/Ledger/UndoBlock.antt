-- ===== src/Ledger/UndoBlock.antt =====
-- `DisconnectBlock` undoes what `ConnectBlock` does to the index.
use ixcoin.Common.{
  ℕ, ◌≡◌, ◌≢◌, refl, sym, ap, ◌∙◌, List, [], ◌∷◌, true, false, ◌==◌, none, some, put, All, arith,
  ◌>>=◌, >>=-some, Bool-cases, not, if◌then◌else◌, inl, inr,
}
use mathlib.Core.Path.{subst}
use mathlib.Core.Option.{some-injective}
use ixcoin.Common.Int.{pos}
use ixcoin.Hash.{HashLib}
use ixcoin.Tx.{Transaction, uint_max}
use ixcoin.Chain.Block.{Block, tx_hash, check_block}
use ixcoin.Ledger.{Index, Node, IndexedBlock}
use ixcoin.Ledger.Connect.{Store, block_call, connect_inputs}
use ixcoin.Ledger.Step.{if-none, not_false}
use ixcoin.Ledger.Marks.{IsCanonical}
use ixcoin.Ledger.Undo.{
  IsReliable, connect_inputs-IsCanonical, connect_inputs-none, disconnect_inputs-connect_inputs,
}
use ixcoin.Ledger.Blocks.{
  Setting, ChainDb, place, connect_txs, coinbase_fits, write_next, first_tx_pos, take_store,
  connect_block, disconnect_txs, disconnect_block,
}

-- The hashes of the transactions are not in the index, and differ.
abbrev pub AreNew : HashLib → List Transaction → Index → Type 0
AreNew h [] i = Unit
AreNew h (tx ∷ txs) i =
    (i (tx_hash h tx) ≡ none) × All (λ t. tx_hash h t ≢ tx_hash h tx) txs × AreNew h txs i

AreNew-change :
    (h : HashLib) (txs : List Transaction) (a : ℕ) (i j : Index)
    → ((k : ℕ) → k ≢ a → i k ≡ none → j k ≡ none)
    → All (λ t. tx_hash h t ≢ a) txs
    → AreNew h txs i
    → AreNew h txs j
AreNew-change h [] a i j keep d n = tt
AreNew-change h (tx ∷ txs) a i j keep (d, ds) (n, o, ns) =
    (keep (tx_hash h tx) d n, o, AreNew-change h txs a i j keep ds ns)

module _ (nd : Node) (here : IndexedBlock) (earlier : List IndexedBlock) where
  disconnect_txs-connect_txs :
      (txs : List Transaction) (p : ℕ) (s s' : Store)
      → IsReliable nd
      → here.file ≢ uint_max
      → IsCanonical s.index
      → AreNew nd.hashes txs s.index
      → connect_txs nd here earlier p txs s ≡ some s'
      → disconnect_txs nd txs s'.index ≡ some s.index
  unfolding connect_txs disconnect_txs
  disconnect_txs-connect_txs [] p s s' r f c n h =
      ap (λ z. some z.index) (sym (some-injective _ _ h))
  disconnect_txs-connect_txs (tx ∷ txs) p s s' r f c (fresh, other, rest) h =
      let e = place here p in
      let chain = here ∷ earlier in
      let ne : (here.file == uint_max) ≡ false = ground arith in
      let (s1, g, h1) = >>=-some (connect_inputs nd (block_call e chain) tx s) _ _ h in
      let c1 = connect_inputs-IsCanonical nd e chain tx s s1 ne c fresh g in
      let n1 =
        AreNew-change nd.hashes txs (tx_hash nd.hashes tx) s.index s1.index
          (λ k. connect_inputs-none nd e chain tx s s1 k ne c fresh g) other rest in
      rw (disconnect_txs-connect_txs txs _ s1 s' r f c1 n1 h1, ◌>>=◌)
        (disconnect_inputs-connect_inputs nd e chain tx s s1 r ne c fresh g)

  connect_txs-IsCanonical :
      (txs : List Transaction) (p : ℕ) (s s' : Store)
      → here.file ≢ uint_max
      → IsCanonical s.index
      → AreNew nd.hashes txs s.index
      → connect_txs nd here earlier p txs s ≡ some s'
      → IsCanonical s'.index
  unfolding connect_txs
  connect_txs-IsCanonical [] p s s' f c n h =
      subst (λ z. IsCanonical z.index) (some-injective _ _ h) c
  connect_txs-IsCanonical (tx ∷ txs) p s s' f c (fresh, other, rest) h =
      let e = place here p in
      let chain = here ∷ earlier in
      let ne : (here.file == uint_max) ≡ false = ground arith in
      let (s1, g, h1) = >>=-some (connect_inputs nd (block_call e chain) tx s) _ _ h in
      let c1 = connect_inputs-IsCanonical nd e chain tx s s1 ne c fresh g in
      let n1 =
        AreNew-change nd.hashes txs (tx_hash nd.hashes tx) s.index s1.index
          (λ k. connect_inputs-none nd e chain tx s s1 k ne c fresh g) other rest in
      connect_txs-IsCanonical txs _ s1 s' f c1 n1 h1

-- What a block has passed that `ConnectBlock` takes.
pub record IsTakenBlock (nd : Node) (st : Setting) (here : IndexedBlock)
    (earlier : List IndexedBlock) (b : Block) (db : ChainDb) (db' : ChainDb) : Type 0 where
  pub store : Store
  pub checked : check_block nd.hashes nd.bn st.test_net st.now (st.size b) b here.height ≡ some true
  pub connected :
      connect_txs nd here earlier
        (first_tx_pos st here b)
        b.vtx
        (record { index = db.index; pool = λ _. none; fees = pos 0 })
      ≡ some store
  pub coinbase : coinbase_fits here.height store.fees b.vtx ≡ true
  pub index : db'.index ≡ store.index

write_next-index :
    (nd : Node) (earlier : List IndexedBlock) (k : ℕ) (db db' : ChainDb)
    → write_next nd earlier k db ≡ some db'
    → db'.index ≡ db.index
unfolding write_next
write_next-index nd [] k db db' h = ap (λ z. z.index) (sym (some-injective _ _ h))
write_next-index nd (b ∷ bs) k db db' h = elim (Bool-cases (nd.takes_block b.hash)) [
  | inl f ↦ ap (λ z. z.index) (sym (some-injective _ _ (rw f at h)))
  | inr f ↦ cc (rw f at h)
]

write_next-some :
    (nd : Node) (earlier : List IndexedBlock) (k : ℕ) (db : ChainDb)
    → ((j : ℕ) → nd.takes_block j ≡ true)
    → (db' : ChainDb) × (write_next nd earlier k db ≡ some db')
unfolding write_next
write_next-some nd [] k db t = (db, refl)
write_next-some nd (b ∷ bs) k db t = (record db { next = put b.hash k db.next }, rw (t b.hash))

pub connect_block-IsTakenBlock :
    (nd : Node) (st : Setting) (here : IndexedBlock) (earlier : List IndexedBlock) (b : Block)
    (db db' : ChainDb)
    → connect_block nd st here earlier b db ≡ some db'
    → IsTakenBlock nd st here earlier b db db'
unfolding connect_block take_store
connect_block-IsTakenBlock nd st here earlier b db db' h =
    let (ok, e, h1) =
      >>=-some (check_block nd.hashes nd.bn st.test_net st.now (st.size b) b here.height) _ _ h in
    let (s, g, h2) =
      >>=-some
        (if not ok
          then none
          else connect_txs nd here earlier (first_tx_pos st here b) b.vtx
              (record { index = db.index; pool = λ _. none; fees = pos 0 }))
        _ _ h1 in
    let (passed, g1) = if-none (not ok) _ _ g in
    let (fits, h3) = if-none (not (coinbase_fits here.height s.fees b.vtx)) _ _ h2 in
    record {
      store = s;
      checked = rw (sym (not_false ok passed)) e;
      connected = g1;
      coinbase = not_false _ fits;
      index = write_next-index nd earlier here.hash _ db' h3;
    }

-- What `ConnectBlock` leaves is in form, and its transactions can be taken back.
pub connect_block-undone :
    (nd : Node) (st : Setting) (here : IndexedBlock) (earlier : List IndexedBlock) (b : Block)
    (db db' : ChainDb)
    → IsReliable nd
    → here.file ≢ uint_max
    → IsCanonical db.index
    → AreNew nd.hashes b.vtx db.index
    → connect_block nd st here earlier b db ≡ some db'
    → (disconnect_txs nd b.vtx db'.index ≡ some db.index) × IsCanonical db'.index
connect_block-undone nd st here earlier b db db' r f c n h =
    let k = connect_block-IsTakenBlock nd st here earlier b db db' h in
    (
      ap (disconnect_txs nd b.vtx) k.index
          ∙ disconnect_txs-connect_txs nd here earlier b.vtx _ _ k.store r f c n k.connected,
      subst IsCanonical (sym k.index)
          (connect_txs-IsCanonical nd here earlier b.vtx _ _ k.store f c n k.connected),
    )

pub disconnect_block-index :
    (nd : Node) (earlier : List IndexedBlock) (b : Block) (db : ChainDb) (i : Index)
    → ((j : ℕ) → nd.takes_block j ≡ true)
    → disconnect_txs nd b.vtx db.index ≡ some i
    → (db' : ChainDb) × (disconnect_block nd earlier b db ≡ some db') × (db'.index ≡ i)
unfolding disconnect_block
disconnect_block-index nd earlier b db i t d =
    let (db', w) = write_next-some nd earlier 0 (record db { index = i }) t in
    (db', rw (d, ◌>>=◌) w, write_next-index nd earlier 0 _ db' w)

-- `ConnectBlock` looks at the index of the database only.
pub connect_block-index :
    (nd : Node) (st : Setting) (here : IndexedBlock) (earlier : List IndexedBlock) (b : Block)
    (x x' y : ChainDb)
    → ((j : ℕ) → nd.takes_block j ≡ true)
    → y.index ≡ x.index
    → connect_block nd st here earlier b x ≡ some x'
    → (y' : ChainDb) × (connect_block nd st here earlier b y ≡ some y') × (y'.index ≡ x'.index)
unfolding connect_block take_store
connect_block-index nd st here earlier b x x' y t same h =
    let k = connect_block-IsTakenBlock nd st here earlier b x x' h in
    let (y', w) = write_next-some nd earlier here.hash (record y { index = k.store.index }) t in
    (
      y',
      rw (k.checked, ◌>>=◌, same, k.connected, ◌>>=◌, k.coinbase) w,
      write_next-index nd earlier here.hash _ y' w ∙ sym k.index,
    )

-- A block that `ConnectBlock` has taken, and the hashes of whose transactions are new and differ, is
-- taken back by `DisconnectBlock`, and the index of transactions is as it was. The block file is not
-- the one with the number -1, each mark of an unspent output is the null one, and the database takes
-- every change.
pub disconnect_block-connect_block :
    (nd : Node) (st : Setting) (here : IndexedBlock) (earlier : List IndexedBlock) (b : Block)
    (db db' : ChainDb)
    → IsReliable nd
    → ((j : ℕ) → nd.takes_block j ≡ true)
    → here.file ≢ uint_max
    → IsCanonical db.index
    → AreNew nd.hashes b.vtx db.index
    → connect_block nd st here earlier b db ≡ some db'
    → (db'' : ChainDb) × (disconnect_block nd earlier b db' ≡ some db'') × (db''.index ≡ db.index)
disconnect_block-connect_block nd st here earlier b db db' r t f c n h =
    let (d, _) = connect_block-undone nd st here earlier b db db' r f c n h in
    disconnect_block-index nd earlier b db' db.index t d
