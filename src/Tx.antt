-- ===== src/Tx.antt =====
-- src/main.h: outpoints, inputs, outputs and transactions, with the tests on them that need no
-- context. A `uint256` is a number below 2 ^ 256, an `int64` an integer, an `unsigned int` a number.
pub mod Serial
pub mod Check
pub mod CheckLaws
pub mod FeeLaws
mod Tests
use ixcoin.Common.{
  ℕ, ◌+◌, ◌-◌, ◌*◌, ◌^◌, List, [], ◌∷◌, Bool, true, false, ◌&&◌, ◌||◌, not, ltb, leb, ◌==◌,
  if◌then◌else◌, length,
}
use ixcoin.Common.Int.{ℤ, pos, negsuc, ltb_ℤ, eqb_ℤ}
use ixcoin.Serialize.{Bytes}

abbrev pub uint_max : ℕ
uint_max = 2 ^ 32 - 1

abbrev pub coin : ℕ
coin = 100_000_000

abbrev pub cent : ℕ
cent = 1_000_000

abbrev pub max_money : ℕ
max_money = 21_000_000 * coin

-- `MoneyRange`
abbrev pub money_range : ℤ → Bool
money_range v = not (ltb_ℤ v (pos 0)) && not (ltb_ℤ (pos max_money) v)

pub record OutPoint : Type 0 where
  pub hash : ℕ
  pub n : ℕ

abbrev pub null_out_point : OutPoint
null_out_point = record { hash = 0; n = uint_max }

abbrev pub OutPoint_is_null : OutPoint → Bool
OutPoint_is_null o = o.hash == 0 && o.n == uint_max

abbrev pub OutPoint_eq : OutPoint → OutPoint → Bool
OutPoint_eq a b = a.hash == b.hash && a.n == b.n

pub record TxIn : Type 0 where
  pub prevout : OutPoint
  pub script_sig : Bytes
  pub sequence : ℕ

pub record TxOut : Type 0 where
  pub value : ℤ
  pub script_pub_key : Bytes

-- `CTxOut::SetNull`: the value is -1.
abbrev pub null_tx_out : TxOut
null_tx_out = record { value = negsuc 0; script_pub_key = [] }

pub record Transaction : Type 0 where
  pub version : ℤ
  pub vin : List TxIn
  pub vout : List TxOut
  pub lock_time : ℕ

coinbase_inputs : List TxIn → Bool
coinbase_inputs [] = false
coinbase_inputs (i ∷ []) = OutPoint_is_null i.prevout
coinbase_inputs (i ∷ j ∷ _) = false

unfoldable pub is_coin_base : Transaction → Bool
unfolding coinbase_inputs
is_coin_base tx = coinbase_inputs tx.vin

-- `CTxIn::IsFinal`
abbrev pub is_final_input : TxIn → Bool
is_final_input i = i.sequence == uint_max

unfoldable pub all_inputs_final : List TxIn → Bool
all_inputs_final [] = true
all_inputs_final (i ∷ is) = is_final_input i && all_inputs_final is

abbrev pub locktime_threshold : ℕ
locktime_threshold = 500_000_000

-- `CTransaction::IsFinal`. The globals `nBestHeight` and `GetAdjustedTime()`, which stand in for an
-- argument that is 0, are the first two arguments.
unfoldable pub is_final : ℤ → ℤ → Transaction → ℤ → ℤ → Bool
is_final best_height adjusted_time tx block_height block_time =
    let height = if eqb_ℤ block_height (pos 0) then best_height else block_height in
    let time = if eqb_ℤ block_time (pos 0) then adjusted_time else block_time in
    if tx.lock_time == 0
    then true
    else if ltb_ℤ (pos tx.lock_time) (if ltb tx.lock_time locktime_threshold then height else time)
    then true
    else all_inputs_final tx.vin

same_prevouts : List TxIn → List TxIn → Bool
same_prevouts [] [] = true
same_prevouts (i ∷ is) (j ∷ js) = OutPoint_eq i.prevout j.prevout && same_prevouts is js
same_prevouts _ _ = false

-- One round of the loop of `IsNewerThan`: the verdict and the lowest sequence number so far.
newer_round : ℕ → ℕ → Bool × ℕ → Bool × ℕ
newer_round mine old (newer, lowest) =
    if mine == old
    then (newer, lowest)
    else let (newer', lowest') : Bool × ℕ =
        if leb mine lowest then (false, mine) else (newer, lowest) in
      if ltb old lowest' then (true, old) else (newer', lowest')

newer_loop : List TxIn → List TxIn → Bool × ℕ → Bool
newer_loop (i ∷ is) (j ∷ js) st = newer_loop is js (newer_round i.sequence j.sequence st)
newer_loop [] _ (newer, _) = newer
newer_loop _ [] (newer, _) = newer

unfoldable pub is_newer_than : Transaction → Transaction → Bool
unfolding same_prevouts newer_round newer_loop
is_newer_than tx old =
    if not (length tx.vin == length old.vin)
    then false
    else if not (same_prevouts tx.vin old.vin)
    then false
    else newer_loop tx.vin old.vin (false, uint_max)
