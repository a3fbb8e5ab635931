-- ===== src/Tx/Check.antt =====
-- src/main.h and src/main.cpp: `GetValueOut`, `CheckTransaction` and `GetMinFee`.
use ixcoin.Common.{
  ℕ, ◌+◌, ◌-◌, ◌*◌, ◌/◌, ◌%◌, ◌^◌, List, [], ◌∷◌, Bool, true, false, ◌&&◌, ◌||◌, not, ltb, leb,
  ◌==◌, if◌then◌else◌, length, Option, none, some,
}
use ixcoin.Common.Int.{ℤ, pos, ◌+ℤ◌, ltb_ℤ}
use ixcoin.Common.Words.{wrap_int64}
use ixcoin.Tx.{
  TxIn, TxOut, Transaction, OutPoint_is_null, is_coin_base, money_range, max_money, cent,
}
use ixcoin.Tx.Serial.{write_tx}

abbrev pub max_block_size : ℕ
max_block_size = 1_000_000

abbrev pub max_block_size_gen : ℕ
max_block_size_gen = max_block_size / 2

abbrev pub min_tx_fee : ℕ
min_tx_fee = 50_000

abbrev pub min_relay_tx_fee : ℕ
min_relay_tx_fee = 10_000

-- The loop of `GetValueOut`; `none` is its exception.
unfoldable pub value_out_loop : ℤ → List TxOut → Option ℤ
value_out_loop acc [] = some acc
value_out_loop acc (o ∷ os) =
    let acc' = wrap_int64 (acc +ℤ o.value) in
    if not (money_range o.value) || not (money_range acc') then none else value_out_loop acc' os

unfoldable pub get_value_out : Transaction → Option ℤ
get_value_out tx = value_out_loop (pos 0) tx.vout

-- The loop of `CheckTransaction` over the outputs.
unfoldable pub check_outputs : ℤ → List TxOut → Bool
check_outputs acc [] = true
check_outputs acc (o ∷ os) =
    let acc' = wrap_int64 (acc +ℤ o.value) in
    if ltb_ℤ o.value (pos 0)
    then false
    else if ltb_ℤ (pos max_money) o.value
    then false
    else if not (money_range acc')
    then false
    else check_outputs acc' os

unfoldable pub no_null_prevout : List TxIn → Bool
no_null_prevout [] = true
no_null_prevout (i ∷ is) = if OutPoint_is_null i.prevout then false else no_null_prevout is

-- `vin[0].scriptSig.size()` in the range that a coinbase may have.
unfoldable pub coinbase_script_fits : List TxIn → Bool
coinbase_script_fits [] = false
coinbase_script_fits (i ∷ _) = not (ltb (length i.script_sig) 2 || ltb 100 (length i.script_sig))

abbrev pub is_empty {ℓ} : {A : Type ℓ} → List A → Bool
is_empty [] = true
is_empty (_ ∷ _) = false

unfoldable pub check_transaction : Transaction → Bool
check_transaction tx =
    if is_empty tx.vin || is_empty tx.vout
    then false
    else if ltb max_block_size (length (write_tx tx))
    then false
    else if not (check_outputs (pos 0) tx.vout)
    then false
    else if is_coin_base tx
    then coinbase_script_fits tx.vin
    else no_null_prevout tx.vin

unfoldable pub has_dust : List TxOut → Bool
has_dust [] = false
has_dust (o ∷ os) = ltb_ℤ o.value (pos cent) || has_dust os

-- The area of a block in which a transaction may be free.
unfoldable pub free_area : ℕ → ℕ → ℕ → Bool
free_area block_size bytes new_block_size =
    if block_size == 1 then ltb bytes 10_000 else ltb new_block_size 27_000

-- The fee before the last test, by the size of the transaction and its block. No step leaves the
-- range of an `int64` while the sizes are below 2 ^ 32.
unfoldable pub fee_before_dust : ℕ → ℕ → Bool → ℕ → ℕ
fee_before_dust bytes block_size allow_free base =
    if allow_free && free_area block_size bytes ((block_size + bytes) % 2 ^ 32)
    then 0
    else (1 + bytes / 1000) * base

-- To limit dust spam: the base fee at least, if some output is less than a cent.
unfoldable pub fee_after_dust : List TxOut → ℕ → ℕ → ℕ
fee_after_dust outs base fee = if ltb fee base && has_dust outs then base else fee

-- The price rises as the block approaches full.
unfoldable pub raise_fee : ℕ → ℕ → ℕ → ℕ
raise_fee block_size new_block_size fee =
    let raised = fee * (max_block_size_gen / (max_block_size_gen - new_block_size)) in
    if not (block_size == 1) && leb (max_block_size_gen / 2) new_block_size
    then if leb max_block_size_gen new_block_size
      then max_money
      else if ltb max_money raised
      then max_money
      else raised
    else if ltb max_money fee
    then max_money
    else fee

-- `GetMinFee`, by the size of the transaction.
unfoldable pub min_fee_of_size : ℕ → List TxOut → ℕ → Bool → Bool → ℕ
min_fee_of_size bytes outs block_size allow_free for_relay =
    let base = if for_relay then min_relay_tx_fee else min_tx_fee in
    raise_fee block_size ((block_size + bytes) % 2 ^ 32)
      (fee_after_dust outs base (fee_before_dust bytes block_size allow_free base))

unfoldable pub get_min_fee : Transaction → ℕ → Bool → Bool → ℕ
get_min_fee tx block_size allow_free for_relay =
    min_fee_of_size (length (write_tx tx)) tx.vout block_size allow_free for_relay
