-- ===== src/Mempool.antt =====
-- src/main.cpp: the transactions that are in no block yet (`mapTransactions`), and which of their
-- inputs names which outpoint (`mapNextTx`).
pub mod Member
pub mod Kept
pub mod Accepted
mod Tests
use ixcoin.Common.{
  ℕ, suc, ◌+◌, ◌/◌, ◌%◌, ◌^◌, List, [], ◌∷◌, Bool, true, false, ◌&&◌, ◌||◌, not, ltb, leb,
  if◌then◌else◌, length, Option, none, some, put, erase,
}
use ixcoin.Common.Int.{ℤ, pos, ltb_ℤ}
use ixcoin.Hash.{HashLib}
use ixcoin.Tx.{OutPoint, OutPoint_eq, TxIn, TxOut, Transaction, is_coin_base}
use ixcoin.Tx.Serial.{write_tx}
use ixcoin.Tx.Check.{check_transaction, get_min_fee, min_relay_tx_fee}
use ixcoin.Script.Parse.{is_push_only}
use ixcoin.Script.Solver.{is_standard}
use ixcoin.Chain.Block.{int_max, tx_hash, tx_sig_ops}
use ixcoin.Ledger.{memory_pos, Index, Node, IndexedBlock}
use ixcoin.Ledger.Connect.{Call, Store, connect_inputs}

-- `CInPoint`; the pointer to a transaction of `mapTransactions` is its key.
pub record InPoint : Type 0 where
  pub tx : ℕ
  pub n : ℕ

pub record Pool : Type 0 where
  pub txs : ℕ → Option Transaction
  pub next : OutPoint → Option InPoint
  -- `nTransactionsUpdated`
  pub updated : ℕ

abbrev pub put_point : OutPoint → InPoint → (OutPoint → Option InPoint) → OutPoint → Option InPoint
put_point o v m q = if OutPoint_eq q o then some v else m q

abbrev pub erase_point : OutPoint → (OutPoint → Option InPoint) → OutPoint → Option InPoint
erase_point o m q = if OutPoint_eq q o then none else m q

unfoldable pub link_inputs :
    ℕ → ℕ → List TxIn → (OutPoint → Option InPoint) → OutPoint → Option InPoint
link_inputs k i [] m = m
link_inputs k i (t ∷ ts) m =
    link_inputs k (suc i) ts (put_point t.prevout (record { tx = k; n = i }) m)

unfoldable pub unlink_inputs : List TxIn → (OutPoint → Option InPoint) → OutPoint → Option InPoint
unlink_inputs [] m = m
unlink_inputs (t ∷ ts) m = unlink_inputs ts (erase_point t.prevout m)

-- `AddToMemoryPoolUnchecked`
unfoldable pub add_unchecked : HashLib → Transaction → Pool → Pool
add_unchecked h tx p = record {
  txs = put (tx_hash h tx) tx p.txs;
  next = link_inputs (tx_hash h tx) 0 tx.vin p.next;
  updated = (p.updated + 1) % 2 ^ 32;
}

-- `RemoveFromMemoryPool`
unfoldable pub remove_from_pool : HashLib → Transaction → Pool → Pool
remove_from_pool h tx p = record {
  txs = erase (tx_hash h tx) p.txs;
  next = unlink_inputs tx.vin p.next;
  updated = (p.updated + 1) % 2 ^ 32;
}

-- `IsStandard` of a transaction
unfoldable pub inputs_standard : List TxIn → Bool
inputs_standard [] = true
inputs_standard (t ∷ ts) = if not (is_push_only t.script_sig) then false else inputs_standard ts

unfoldable pub outputs_standard : List TxOut → Bool
outputs_standard [] = true
outputs_standard (o ∷ os) =
    if not (is_standard o.script_pub_key) then false else outputs_standard os

unfoldable pub is_standard_tx : Transaction → Bool
is_standard_tx tx = if not (inputs_standard tx.vin) then false else outputs_standard tx.vout

abbrev pub is_there {ℓ} : {A : Type ℓ} → Option A → Bool
is_there none = false
is_there (some _) = true

-- Whether some input names an outpoint that a transaction of the pool names. The code behind this
-- test, which would replace that transaction, is not reached.
unfoldable pub has_conflict : List TxIn → (OutPoint → Option InPoint) → Bool
has_conflict [] m = false
has_conflict (t ∷ ts) m = if is_there (m t.prevout) then true else has_conflict ts m

-- What the pool asks of a transaction before it looks at any other.
unfoldable pub is_welcome : Bool → Transaction → Bool
is_welcome test_net tx =
    if not (check_transaction tx)
    then false
    else if is_coin_base tx
    then false
    else if ltb int_max tx.lock_time
    then false
    else if ltb (length (write_tx tx) / 34) (tx_sig_ops tx) || ltb (length (write_tx tx)) 100
    then false
    else test_net || is_standard_tx tx

-- The answer of `AcceptToMemoryPool`, with `*pfMissingInputs` where it is false.
pub data Answer : Type 0 where
  accepted : Pool → Answer
  refused : Bool → Answer

-- The state around the pool: the network, the database, and the chain up to `pindexBest`. The limit
-- on free transactions is a sum of doubles over time and an option, so its verdict on the transaction
-- is given here.
pub record Around : Type 0 where
  pub test_net : Bool
  pub index : Index
  pub best : List IndexedBlock
  pub too_many_free : Bool

abbrev pub loose_call : List IndexedBlock → Call
loose_call best = record {
  entry = memory_pos;
  chain = best;
  in_block = false;
  in_miner = false;
  min_fee = pos 0;
}

unfoldable pub check_fees : Node → Around → Transaction → Pool → Option Store → Answer
check_fees nd a tx p none = refused true
check_fees nd a tx p (some s) =
    if ltb_ℤ s.fees (pos (get_min_fee tx 1_000 true true))
    then refused false
    else if ltb_ℤ s.fees (pos min_relay_tx_fee) && a.too_many_free
    then refused false
    else accepted (add_unchecked nd.hashes tx p)

-- `AcceptToMemoryPool`
unfoldable pub accept_to_memory_pool : Node → Around → Transaction → Bool → Pool → Answer
accept_to_memory_pool nd a tx check_inputs p =
    if not (is_welcome a.test_net tx)
    then refused false
    else if is_there (p.txs (tx_hash nd.hashes tx))
    then refused false
    else if check_inputs && is_there (a.index (tx_hash nd.hashes tx))
    then refused false
    else if has_conflict tx.vin p.next
    then refused false
    else if check_inputs
    then check_fees nd a tx p (
        connect_inputs (record nd { memory = p.txs }) (loose_call a.best) tx
          (record { index = a.index; pool = λ _. none; fees = pos 0 }))
    else accepted (add_unchecked nd.hashes tx p)
