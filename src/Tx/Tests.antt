-- ===== src/Tx/Tests.antt =====
-- A transaction of src/main.h, checked, written and read.
use ixcoin.Serialize.{
  write_int, le_bytes, write_objects, write_compact_size, write_each, write_vector, write_int64,
}
use ixcoin.Common.{◌≤◌, ◌≡◌, ◌↔◌, refl, [], ◌∷◌, true, if◌then◌else◌, some, arith}
use ixcoin.Common.Int.{pos, ◌+ℤ◌}
use ixcoin.Tx.{Transaction, max_money, is_coin_base}
use ixcoin.Tx.Serial.{
  write_tx, read_tx, IsTransaction, read_tx-write_tx, write_tx_in, write_out_point, write_tx_out,
}
use ixcoin.Tx.Check.{
  check_transaction, get_value_out, min_fee_of_size, has_dust, min_relay_tx_fee, min_tx_fee,
  check_outputs, no_null_prevout,
}
use ixcoin.Tx.CheckLaws.{
  IsChecked, check_transaction_iff, get_value_out-check_transaction, total_out,
}
use ixcoin.Tx.FeeLaws.{min_fee_of_size_bounds}
use ixcoin.Serialize.RoundTrip.{Reads}

abbrev payment : Transaction
payment = record {
  version = pos 1;
  vin =
      record { prevout = record { hash = 77; n = 1 }; script_sig = 1 ∷ 5 ∷ []; sequence = 9 } ∷ [];
  vout =
      record { value = pos 5_000; script_pub_key = 172 ∷ [] }
      ∷ record { value = pos 70_000_000; script_pub_key = [] }
      ∷ [];
  lock_time = 0;
}

payment-IsTransaction : IsTransaction payment
payment-IsTransaction = record {
  version_fits = omega arith;
  vin_fits = omega arith;
  inputs_fit = (
    record {
      prevout_fits = record { hash_fits = omega arith; n_fits = omega arith };
      script_fits = omega arith;
      sequence_fits = omega arith;
    },
    tt,
  );
  vout_fits = omega arith;
  outputs_fit = (
    record { value_fits = omega arith; script_fits = omega arith },
    (record { value_fits = omega arith; script_fits = omega arith }, tt),
  );
  lock_time_fits = omega arith;
}

read_tx-write_tx_example : Reads read_tx (write_tx payment) payment
read_tx-write_tx_example = read_tx-write_tx payment payment-IsTransaction

check_transaction_iff_example : (check_transaction payment ≡ true) ↔ IsChecked payment
check_transaction_iff_example = check_transaction_iff payment

payment-passes : check_transaction payment ≡ true
unfolding check_transaction write_tx write_int le_bytes write_objects write_compact_size write_each
    write_tx_in write_out_point write_vector write_tx_out write_int64 check_outputs ◌+ℤ◌
    is_coin_base no_null_prevout
payment-passes = refl

get_value_out-check_transaction_example :
    get_value_out payment ≡ some (pos (total_out payment.vout))
get_value_out-check_transaction_example = get_value_out-check_transaction payment payment-passes

-- The first output of the payment is less than a cent.
payment-has_dust : has_dust payment.vout ≡ true
unfolding has_dust
payment-has_dust = refl

min_fee_of_size_bounds_example :
    ((if true then min_relay_tx_fee else min_tx_fee) ≤ min_fee_of_size 250 payment.vout 1 true true)
    × (min_fee_of_size 250 payment.vout 1 true true ≤ max_money)
min_fee_of_size_bounds_example =
    min_fee_of_size_bounds 250 payment.vout 1 true true payment-has_dust
