-- ===== src/Ledger.antt =====
-- src/main.h, src/main.cpp, src/db.cpp: the index of the transactions in the chain, which tells of
-- each output whether it is spent, and what reads and changes it.
pub mod Connect
pub mod Cells
pub mod Step
pub mod Marks
pub mod Undo
pub mod Blocks
pub mod UndoBlock
pub mod Coins
pub mod Refine
pub mod RefineBlock
pub mod Refusal
mod Tests
use ixcoin.Common.{
  ℕ, ◌+◌, ◌-◌, ◌*◌, ◌^◌, List, [], ◌∷◌, Bool, true, false, ◌&&◌, not, leb, ◌==◌, if◌then◌else◌,
  length, replicate, get_elem?, Option, none, some, put, erase,
}
use ixcoin.Common.Int.{ℤ}
use ixcoin.Hash.{HashLib}
use ixcoin.Bignum.OpenSsl.{BnLib}
use ixcoin.Tx.{Transaction, uint_max}
use ixcoin.Script.Machine.{KeyLib}
use ixcoin.Script.Eval.{Outcome, returns, fails, verify_script}
use ixcoin.Chain.Block.{tx_hash}

-- `CDiskTxPos`
pub record TxPos : Type 0 where
  pub file : ℕ
  pub block_pos : ℕ
  pub tx_pos : ℕ

abbrev pub null_pos : TxPos
null_pos = record { file = uint_max; block_pos = 0; tx_pos = 0 }

-- `nFile == -1`
abbrev pub is_null : TxPos → Bool
is_null p = p.file == uint_max

abbrev pub TxPos_eq : TxPos → TxPos → Bool
TxPos_eq a b = a.file == b.file && a.block_pos == b.block_pos && a.tx_pos == b.tx_pos

-- The place of a transaction that is in memory only.
abbrev pub memory_pos : TxPos
memory_pos = record { file = 1; block_pos = 1; tx_pos = 1 }

-- `CTxIndex`
pub record TxIndex : Type 0 where
  pub pos : TxPos
  pub spent : List TxPos

abbrev pub new_index : TxPos → ℕ → TxIndex
new_index p outputs = record { pos = p; spent = replicate outputs null_pos }

-- The records of the database by the hash of their transaction.
abbrev pub Index : Type 0
Index = ℕ → Option TxIndex

-- What a node has at hand: the libraries, what stands in the block files at a place
-- (`ReadFromDisk`), `mapTransactions`, and whether the database takes a change of the record of a
-- transaction and of a block, and whether it commits.
pub record Node : Type 0 where
  pub bn : BnLib
  pub hashes : HashLib
  pub keys : KeyLib
  pub disk : TxPos → Option Transaction
  pub memory : ℕ → Option Transaction
  pub accepts : Index → ℕ → Bool
  pub takes_block : ℕ → Bool
  pub commits : Bool

-- `CBlockIndex`, as far as the index of transactions reads it.
pub record IndexedBlock : Type 0 where
  pub hash : ℕ
  pub file : ℕ
  pub block_pos : ℕ
  pub height : ℕ

-- `CTxDB`: `none` is an answer of false.
unfoldable pub update_tx_index : Node → ℕ → TxIndex → Index → Option Index
update_tx_index nd k ix i = if nd.accepts i k then some (put k ix i) else none

unfoldable pub add_tx_index : Node → Transaction → TxPos → Index → Option Index
add_tx_index nd tx p i = update_tx_index nd (tx_hash nd.hashes tx) (new_index p (length tx.vout)) i

unfoldable pub erase_tx_index : Node → Transaction → Index → Option Index
erase_tx_index nd tx i =
    let k = tx_hash nd.hashes tx in if nd.accepts i k then some (erase k i) else none

-- `VerifySignature`, with the hash type 0; `fails` where the assertion on `nIn` fails.
unfoldable pub verify_signature : Node → Transaction → Transaction → ℕ → Outcome Bool
verify_signature nd tx_from tx_to n_in = elim (get_elem? tx_to.vin n_in) [
  | none ↦ fails
  | some i ↦ elim (get_elem? tx_from.vout i.prevout.n) [
    | none ↦ returns false
    | some o ↦
        if not (i.prevout.hash == tx_hash nd.hashes tx_from)
        then returns false
        else verify_script
            (record {
              bn = nd.bn;
              hashes = nd.hashes;
              keys = nd.keys;
              tx = tx_to;
              n_in = n_in;
              hash_type = 0;
            })
            i.script_sig o.script_pub_key
  ]
]
