-- ===== src/Ledger/Blocks.antt =====
-- src/main.cpp: `ConnectBlock` and `DisconnectBlock`. As in Ledger/Connect, `none` is an answer of
-- false or an exception, and the caller gives the changes up.
use ixcoin.Common.{
  ℕ, ◌+◌, ◌%◌, ◌^◌, List, [], ◌∷◌, Bool, true, false, not, if◌then◌else◌, length, Option, none,
  some, put, ◌>>=◌,
}
use ixcoin.Common.Int.{ℤ, pos, ltb_ℤ}
use ixcoin.Serialize.{get_size_of_compact_size}
use ixcoin.Tx.{Transaction}
use ixcoin.Tx.Serial.{write_tx}
use ixcoin.Tx.Check.{get_value_out}
use ixcoin.Chain.Subsidy.{get_block_value}
use ixcoin.Chain.Block.{Block, check_block}
use ixcoin.Ledger.{TxPos, Index, Node, IndexedBlock}
use ixcoin.Ledger.Connect.{Store, block_call, connect_inputs, disconnect_inputs}

-- What the checks of a block are run with: the network, the time, and the sizes of a block and of
-- its header in bytes.
pub record Setting : Type 0 where
  pub test_net : Bool
  pub now : ℤ
  pub size : Block → ℕ
  pub header_size : Block → ℕ

-- The database: the index of transactions, `hashNext` of the record of each block, and the hash of
-- the best one.
pub record ChainDb : Type 0 where
  pub index : Index
  pub next : ℕ → Option ℕ
  pub best : ℕ

-- `posThisTx`
abbrev pub place : IndexedBlock → ℕ → TxPos
place here p = record { file = here.file; block_pos = here.block_pos; tx_pos = p }

abbrev pub next_tx_pos : ℕ → Transaction → ℕ
next_tx_pos p tx = (p + length (write_tx tx)) % 2 ^ 32

-- The transactions from the place `p` of the block file on.
unfoldable pub connect_txs :
    Node → IndexedBlock → List IndexedBlock → ℕ → List Transaction → Store → Option Store
connect_txs nd here earlier p [] s = some s
connect_txs nd here earlier p (tx ∷ txs) s = do
  s' ← connect_inputs nd (block_call (place here p) (here ∷ earlier)) tx s
  connect_txs nd here earlier (next_tx_pos p tx) txs s'

-- Whether the value of the outputs, if there is one, is within a limit.
abbrev pub out_fits : ℤ → Option ℤ → Bool
out_fits limit none = false
out_fits limit (some out) = if ltb_ℤ limit out then false else true

-- The coinbase takes no more than the subsidy and the fees.
unfoldable pub coinbase_fits : ℕ → ℤ → List Transaction → Bool
coinbase_fits height fees [] = false
coinbase_fits height fees (tx ∷ _) = out_fits (get_block_value height fees) (get_value_out tx)

-- `WriteBlockIndex` of the block before, with a new `hashNext`.
unfoldable pub write_next : Node → List IndexedBlock → ℕ → ChainDb → Option ChainDb
write_next nd [] next db = some db
write_next nd (b ∷ _) next db =
    if nd.takes_block b.hash then some (record db { next = put b.hash next db.next }) else none

unfoldable pub first_tx_pos : Setting → IndexedBlock → Block → ℕ
first_tx_pos st here b =
    (here.block_pos + st.header_size b + get_size_of_compact_size (length b.vtx)) % 2 ^ 32

-- The end of `ConnectBlock`: the coinbase, and the record of the block before.
unfoldable pub take_store :
    Node → IndexedBlock → List IndexedBlock → Block → Store → ChainDb → Option ChainDb
take_store nd here earlier b s db =
    if not (coinbase_fits here.height s.fees b.vtx)
    then none
    else write_next nd earlier here.hash (record db { index = s.index })

unfoldable pub connect_block :
    Node → Setting → IndexedBlock → List IndexedBlock → Block → ChainDb → Option ChainDb
connect_block nd st here earlier b db = do
  ok ← check_block nd.hashes nd.bn st.test_net st.now (st.size b) b here.height
  s ←
      if not ok
      then none
      else connect_txs nd here earlier (first_tx_pos st here b) b.vtx
          (record { index = db.index; pool = λ _. none; fees = pos 0 })
  take_store nd here earlier b s db

-- The last transaction first.
unfoldable pub disconnect_txs : Node → List Transaction → Index → Option Index
disconnect_txs nd [] i = some i
disconnect_txs nd (tx ∷ txs) i = do i' ← disconnect_txs nd txs i; disconnect_inputs nd tx i'

unfoldable pub disconnect_block : Node → List IndexedBlock → Block → ChainDb → Option ChainDb
disconnect_block nd earlier b db = do
  i ← disconnect_txs nd b.vtx db.index
  write_next nd earlier 0 (record db { index = i })
