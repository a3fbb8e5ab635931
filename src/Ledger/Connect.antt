-- ===== src/Ledger/Connect.antt =====
-- src/main.cpp: `ConnectInputs` and `DisconnectInputs`. Where the source returns false or throws, the
-- result is `none`: the callers then abandon the database transaction and the counts.
use ixcoin.Common.{
  ℕ, suc, List, [], ◌∷◌, Bool, true, false, ◌&&◌, ◌||◌, not, ◌==◌, if◌then◌else◌, length, get_elem?,
  Option, none, some, put, set, ◌>>=◌,
}
use ixcoin.Common.Int.{ℤ, pos, ◌+ℤ◌, ◌-ℤ◌, ltb_ℤ}
use ixcoin.Common.Words.{wrap_int64}
use ixcoin.Tx.{OutPoint, TxIn, TxOut, Transaction, is_coin_base, money_range}
use ixcoin.Tx.Check.{get_value_out}
use ixcoin.Script.Eval.{Outcome, returns, fails, stuck}
use ixcoin.Chain.Block.{tx_hash}
use ixcoin.Ledger.{
  TxPos, null_pos, is_null, TxPos_eq, memory_pos, TxIndex, new_index, Index, Node, IndexedBlock,
  update_tx_index, add_tx_index, erase_tx_index, verify_signature,
}

-- The arguments of `ConnectInputs` that it does not change. The chain is the list from `pindexBlock`
-- back to the first block.
pub record Call : Type 0 where
  pub entry : TxPos
  pub chain : List IndexedBlock
  pub in_block : Bool
  pub in_miner : Bool
  pub min_fee : ℤ

-- The call of `ConnectBlock`.
abbrev pub block_call : TxPos → List IndexedBlock → Call
block_call e chain = record {
  entry = e;
  chain = chain;
  in_block = true;
  in_miner = false;
  min_fee = pos 0;
}

-- What it changes: the database, `mapTestPool` and `nFees`.
pub record Store : Type 0 where
  pub index : Index
  pub pool : Index
  pub fees : ℤ

abbrev pub coinbase_maturity : ℕ
coinbase_maturity = 100

-- Whether one of the last blocks, whose depth below the top is less than 100, has the place.
unfoldable pub is_immature : ℕ → List IndexedBlock → TxPos → Bool
is_immature top [] p = false
is_immature top (b ∷ bs) p =
    let rest = is_immature top bs p in
    if ltb_ℤ (pos top -ℤ pos b.height) (pos coinbase_maturity)
    then if b.block_pos == p.block_pos && b.file == p.file then true else rest
    else false

unfoldable pub too_young : List IndexedBlock → TxPos → Bool
too_young [] p = false
too_young (b ∷ bs) p = is_immature b.height (b ∷ bs) p

unfoldable pub find_index : Call → Store → ℕ → Option TxIndex
find_index call s k =
    if call.in_miner then elim (s.pool k) [ none ↦ s.index k | some ix ↦ some ix ] else s.index k

-- The record of the transaction before, and that transaction.
unfoldable pub previous : Node → Call → Store → ℕ → Option (TxIndex × Transaction)
previous nd call s k = elim (find_index call s k) [
  | none ↦
      if call.in_block || call.in_miner
      then none
      else (nd.memory k >>= λ prev. some (new_index null_pos (length prev.vout), prev))
  | some ix ↦ (if TxPos_eq ix.pos memory_pos then nd.memory k else nd.disk ix.pos) >>= λ prev.
      some (ix, prev)
]

-- The script of an input runs to an end, so that what is not `returns true` is false.
abbrev pub passes : Outcome Bool → Bool
passes (returns b) = b
passes fails = false
passes stuck = false

-- The tests on one input, the output that it names, and the mark of that output.
unfoldable pub spend_out :
    Node
    → Call
    → Transaction
    → ℕ
    → ℕ
    → TxIndex
    → Transaction
    → TxOut
    → TxPos
    → ℤ
    → Option (ℤ × TxIndex)
spend_out nd call tx i n ix prev out by value_in =
    let value = wrap_int64 (value_in +ℤ out.value) in
    if is_coin_base prev && too_young call.chain ix.pos
    then none
    else if not (passes (verify_signature nd prev tx i))
    then none
    else if not (is_null by)
    then none
    else if not (money_range out.value) || not (money_range value)
    then none
    else some (value, record ix { spent = set ix.spent n call.entry })

unfoldable pub spend :
    Node → Call → Transaction → ℕ → ℕ → TxIndex → Transaction → ℤ → Option (ℤ × TxIndex)
spend nd call tx i n ix prev value_in = do
  out ← get_elem? prev.vout n
  by ← get_elem? ix.spent n
  spend_out nd call tx i n ix prev out by value_in

unfoldable pub write_back : Node → Call → ℕ → TxIndex → Store → Option Store
write_back nd call k ix s =
    if call.in_block
    then (update_tx_index nd k ix s.index >>= λ i. some (record s { index = i }))
    else if call.in_miner
    then some (record s { pool = put k ix s.pool })
    else some s

unfoldable pub connect_input :
    Node → Call → Transaction → ℕ → OutPoint → ℤ → Store → Option (ℤ × Store)
connect_input nd call tx i o value_in s = do
  (ix, prev) ← previous nd call s o.hash
  (value, ix') ← spend nd call tx i o.n ix prev value_in
  s' ← write_back nd call o.hash ix' s
  some (value, s')

-- The loop, from the input with the number `i` on.
unfoldable pub connect_loop :
    Node → Call → Transaction → ℕ → List TxIn → ℤ → Store → Option (ℤ × Store)
connect_loop nd call tx i [] value_in s = some (value_in, s)
connect_loop nd call tx i (t ∷ ts) value_in s = do
  (value, s') ← connect_input nd call tx i t.prevout value_in s
  connect_loop nd call tx (suc i) ts value s'

unfoldable pub add_fee : Call → ℤ → ℤ → Store → Option Store
add_fee call value_in value_out s =
    let fee = wrap_int64 (value_in -ℤ value_out) in
    let fees = wrap_int64 (s.fees +ℤ fee) in
    if ltb_ℤ value_in value_out
    then none
    else if ltb_ℤ fee (pos 0)
    then none
    else if ltb_ℤ fee call.min_fee
    then none
    else if not (money_range fees)
    then none
    else some (record s { fees = fees })

-- The fee of the transaction, on top of those before.
unfoldable pub tally_fee : Call → Transaction → ℤ → Store → Option Store
tally_fee call tx value_in s = get_value_out tx >>= λ value_out. add_fee call value_in value_out s

unfoldable pub add_outputs : Node → Call → Transaction → Store → Option Store
add_outputs nd call tx s =
    if call.in_block
    then (add_tx_index nd tx call.entry s.index >>= λ i. some (record s { index = i }))
    else if call.in_miner
    then some (record s {
      pool = put (tx_hash nd.hashes tx) (new_index memory_pos (length tx.vout)) s.pool;
    })
    else some s

unfoldable pub take_inputs : Node → Call → Transaction → Store → Option Store
take_inputs nd call tx s =
    if is_coin_base tx
    then some s
    else (connect_loop nd call tx 0 tx.vin (pos 0) s >>= λ p. tally_fee call tx p.0 p.1)

unfoldable pub connect_inputs : Node → Call → Transaction → Store → Option Store
connect_inputs nd call tx s = take_inputs nd call tx s >>= λ s'. add_outputs nd call tx s'

-- `DisconnectInputs`
unfoldable pub disconnect_input : Node → OutPoint → Index → Option Index
disconnect_input nd o i = do
  ix ← i o.hash
  _ ← get_elem? ix.spent o.n
  update_tx_index nd o.hash (record ix { spent = set ix.spent o.n null_pos }) i

unfoldable pub disconnect_loop : Node → List TxIn → Index → Option Index
disconnect_loop nd [] i = some i
disconnect_loop nd (t ∷ ts) i = do i' ← disconnect_input nd t.prevout i; disconnect_loop nd ts i'

unfoldable pub disconnect_inputs : Node → Transaction → Index → Option Index
disconnect_inputs nd tx i = do
  i' ← if is_coin_base tx then some i else disconnect_loop nd tx.vin i
  erase_tx_index nd tx i'
