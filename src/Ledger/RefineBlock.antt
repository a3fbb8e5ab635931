-- ===== src/Ledger/RefineBlock.antt =====
-- `ConnectBlock` changes the unspent outputs as the specification says, and makes no more coins than
-- the subsidy.
use ixcoin.Common.{
  ℕ, ◌+◌, ◌≤◌, ◌≡◌, ◌≢◌, refl, sym, ap, ◌∙◌, List, [], ◌∷◌, true, false, ◌==◌, if◌then◌else◌,
  length, Option, some, ◌>>=◌, >>=-some, All, arith,
}
use mathlib.Core.Path.{subst, ap₂}
use mathlib.Core.Option.{some-injective}
use ixcoin.Common.Int.{pos, ltb_ℤ}
use ixcoin.Tx.{Transaction, OutPoint, TxOut, uint_max, max_money}
use ixcoin.Tx.Check.{check_transaction}
use ixcoin.Tx.CheckLaws.{total_out, add_money, get_value_out-check_transaction}
use ixcoin.Chain.Subsidy.{subsidy, subsidy_le, get_block_value}
use ixcoin.Chain.Block.{Block, tx_hash}
use ixcoin.Chain.Block.Checked.{check_block-IsBlock}
use ixcoin.Ledger.{TxPos_eq, memory_pos, new_index, Node, IndexedBlock}
use ixcoin.Ledger.Connect.{Store, block_call, connect_inputs}
use ixcoin.Ledger.Step.{read_tx_of}
use ixcoin.Ledger.Blocks.{
  Setting, ChainDb, place, next_tx_pos, connect_txs, out_fits, coinbase_fits, first_tx_pos,
  connect_block,
}
use ixcoin.Ledger.UndoBlock.{connect_block-IsTakenBlock}
use ixcoin.Ledger.Coins.{apply_tx, apply_txs, coins_of}
use ixcoin.Ledger.Refine.{connect_inputs-apply_tx}

-- The block file has the transactions at their places.
abbrev pub HoldsTxs : Node → IndexedBlock → ℕ → List Transaction → Type 0
HoldsTxs nd here p [] = Unit
HoldsTxs nd here p (tx ∷ txs) =
    (nd.disk (place here p) ≡ some tx) × HoldsTxs nd here (next_tx_pos p tx) txs

read_place :
    (nd : Node) (here : IndexedBlock) (p k n : ℕ)
    → here.block_pos ≢ 1
    → read_tx_of nd k (new_index (place here p) n) ≡ nd.disk (place here p)
read_place nd here p k n h =
    let e : TxPos_eq (place here p) memory_pos ≡ false = ground arith in rw e

apply_txs-cons :
    (nd : Node) (tx : Transaction) (txs : List Transaction) (c c1 c2 : OutPoint → Option TxOut)
    (f g : ℕ)
    → apply_tx nd.hashes tx c ≡ some (f, c1)
    → apply_txs nd.hashes txs c1 ≡ some (g, c2)
    → apply_txs nd.hashes (tx ∷ txs) c ≡ some (f + g, c2)
unfolding apply_txs
apply_txs-cons nd tx txs c c1 c2 f g h k = rw (h, ◌>>=◌, k)

module _ (nd : Node) (here : IndexedBlock) (earlier : List IndexedBlock) where
  connect_txs-apply_txs :
      (txs : List Transaction) (p f : ℕ) (s s' : Store)
      → here.file ≢ uint_max
      → here.block_pos ≢ 1
      → HoldsTxs nd here p txs
      → All (λ tx. check_transaction tx ≡ true) txs
      → f ≤ max_money
      → s.fees ≡ pos f
      → connect_txs nd here earlier p txs s ≡ some s'
      → (g : ℕ) × (apply_txs nd.hashes txs (coins_of nd s.index) ≡ some (g, coins_of nd s'.index))
        × (s'.fees ≡ pos (f + g))
        × (f + g ≤ max_money)
  unfolding connect_txs
  connect_txs-apply_txs [] p f s s' nf nb d ok l fs h =
      let q = some-injective _ _ h in
      (
        0,
        unfold apply_txs in ap (λ z. some (0, coins_of nd z.index)) q,
        ap (λ z. z.fees) (sym q) ∙ fs ∙ ap pos (omega arith),
        omega arith,
      )
  connect_txs-apply_txs (tx ∷ txs) p f s s' nf nb (d, ds) (ok, oks) l fs h =
      let ne : (here.file == uint_max) ≡ false = ground arith in
      let (s1, q, h1) =
        >>=-some (connect_inputs nd (block_call (place here p) (here ∷ earlier)) tx s) _ _ h in
      let r = read_place nd here p (tx_hash nd.hashes tx) (length tx.vout) nb ∙ d in
      let (fee, step, sum, small) =
        connect_inputs-apply_tx nd (place here p) (here ∷ earlier) tx f s s1 ne r ok l fs q in
      let (g, run, total, bound) =
        connect_txs-apply_txs txs (next_tx_pos p tx) (f + fee) s1 s' nf nb ds oks small sum h1 in
      (
        fee + g,
        apply_txs-cons nd tx txs _ _ _ fee g step run,
        total ∙ ap pos (sym (assoc f fee g)),
        subst (λ z. z ≤ max_money) (sym (assoc f fee g)) bound,
      )
    where
      assoc : (a b c : ℕ) → a + (b + c) ≡ a + b + c
      assoc a b c = omega arith

-- What the first transaction pays out.
abbrev pub coinbase_value : List Transaction → ℕ
coinbase_value [] = 0
coinbase_value (tx ∷ _) = total_out tx.vout

coinbase_fits-bound :
    (height fees : ℕ) (txs : List Transaction)
    → fees ≤ max_money
    → All (λ tx. check_transaction tx ≡ true) txs
    → coinbase_fits height (pos fees) txs ≡ true
    → coinbase_value txs ≤ subsidy height + fees
unfolding coinbase_fits get_block_value
coinbase_fits-bound height fees [] l ok h = omega arith
coinbase_fits-bound height fees (tx ∷ txs) l (ok, oks) h =
    let a = add_money (subsidy height) fees (omega (arith, subsidy_le height)) l in
    let t : (if ltb_ℤ (pos (subsidy height + fees)) (pos (total_out tx.vout)) then false else true)
        ≡ true =
      ap₂ out_fits (sym a) (sym (get_value_out-check_transaction tx ok)) ∙ h in
    ground arith

-- Where `ConnectBlock` takes a block whose transactions can be read from the block file, the
-- specification takes all of them in order: each input spends an unspent output, and no output is
-- spent twice. The unspent outputs of the index are then those of the specification, and the coinbase
-- pays no more than the subsidy of the height and the fees. The block file is not the one with the
-- number -1, and the block does not stand at its place 1.
pub connect_block-apply_txs :
    (nd : Node) (st : Setting) (here : IndexedBlock) (earlier : List IndexedBlock) (b : Block)
    (db db' : ChainDb)
    → here.file ≢ uint_max
    → here.block_pos ≢ 1
    → HoldsTxs nd here (first_tx_pos st here b) b.vtx
    → connect_block nd st here earlier b db ≡ some db'
    → (fees : ℕ) × (apply_txs nd.hashes b.vtx (coins_of nd db.index)
        ≡ some (fees, coins_of nd db'.index))
      × (coinbase_value b.vtx ≤ subsidy here.height + fees)
connect_block-apply_txs nd st here earlier b db db' nf nb d h =
    let k = connect_block-IsTakenBlock nd st here earlier b db db' h in
    let (_, _, is_block) =
      check_block-IsBlock nd.hashes nd.bn st.test_net st.now (st.size b) b here.height k.checked in
    let (g, run, total, bound) =
      connect_txs-apply_txs nd here earlier b.vtx (first_tx_pos st here b) 0 _ k.store nf nb d
        is_block.checked (omega arith) refl k.connected in
    (
      g,
      run ∙ ap (λ i. some (g, coins_of nd i)) (sym k.index),
      coinbase_fits-bound here.height g b.vtx (subst (λ z. z ≤ max_money) (zero_plus g) bound)
          is_block.checked
          (ap (λ z. coinbase_fits here.height z b.vtx) (sym (total ∙ ap pos (zero_plus g)))
            ∙ k.coinbase),
    )
  where
    zero_plus : (n : ℕ) → 0 + n ≡ n
    zero_plus n = omega arith
