-- ===== src/Tx/CheckLaws.antt =====
-- What `CheckTransaction` and `GetValueOut` decide: no sum that they make wraps.
use ixcoin.Common.{
  ℕ, ◌+◌, ◌≤◌, ◌≡◌, ◌≢◌, ◌↔◌, ◌⊎◌, ◌∙◌, ap, refl, List, [], ◌∷◌, true, false, ltb, if◌then◌else◌,
  length, some, All, arith, not-ltb_of_le, Bool-cases, inl, inr,
}
use ixcoin.Common.Int.{ℤ, pos, negsuc, ◌+ℤ◌, pos_part}
use ixcoin.Common.Words.{wrap_int64}
use ixcoin.Serialize.{Bytes}
use ixcoin.Tx.{TxIn, TxOut, Transaction, OutPoint_is_null, is_coin_base, max_money}
use ixcoin.Tx.Serial.{write_tx}
use ixcoin.Tx.Check.{
  value_out_loop, get_value_out, check_outputs, no_null_prevout, coinbase_script_fits, is_empty,
  check_transaction, max_block_size,
}

-- The values of the outputs, where none is negative, added up as integers.
abbrev pub total_out : List TxOut → ℕ
total_out [] = 0
total_out (o ∷ os) = pos_part o.value + total_out os

abbrev pub IsMoney : ℤ → Type 0
IsMoney (pos n) = n ≤ max_money
IsMoney (negsuc n) = ⊥

-- One addition of the loops, where the sum so far is in range.
pub add_money :
    (acc v : ℕ) → acc ≤ max_money → v ≤ max_money → wrap_int64 (pos acc +ℤ pos v) ≡ pos (acc + v)
unfolding ◌+ℤ◌
add_money acc v h k = ground arith

-- The amount of an output that `CheckTransaction` lets through, and the sum that it then has.
check_outputs_step :
    (acc : ℕ) (v : ℤ) (b : Bytes) (os : List TxOut)
    → acc ≤ max_money
    → check_outputs (pos acc) (record { value = v; script_pub_key = b } ∷ os) ≡ true
    → IsMoney v
      × (acc + pos_part v ≤ max_money)
      × (check_outputs (pos (acc + pos_part v)) os ≡ true)
unfolding check_outputs
check_outputs_step acc (negsuc n) b os h e = ground arith
check_outputs_step acc (pos n) b os h e = elim (Bool-cases (ltb max_money n)) [
  | inl big ↦ ground arith
  | inr small ↦ ground (arith, add_money acc n h (ground arith))
]

check_outputs_sound :
    (acc : ℕ) (os : List TxOut)
    → acc ≤ max_money
    → check_outputs (pos acc) os ≡ true
    → All (λ o. IsMoney o.value) os × (acc + total_out os ≤ max_money)
check_outputs_sound acc [] h e = (tt, omega arith)
check_outputs_sound acc (o ∷ os) h e =
    let (m, b, e') = check_outputs_step acc o.value o.script_pub_key os h e in
    let (ms, t) = check_outputs_sound (acc + pos_part o.value) os b e' in ((m, ms), omega arith)

check_outputs_enter :
    (acc : ℕ) (v : ℤ) (b : Bytes) (os : List TxOut)
    → acc ≤ max_money
    → IsMoney v
    → acc + pos_part v ≤ max_money
    → check_outputs (pos acc) (record { value = v; script_pub_key = b } ∷ os)
      ≡ check_outputs (pos (acc + pos_part v)) os
unfolding check_outputs
check_outputs_enter acc (negsuc n) b os h m t = absurd m
check_outputs_enter acc (pos n) b os h m t = ground (arith, add_money acc n h m)

check_outputs_complete :
    (acc : ℕ) (os : List TxOut)
    → acc ≤ max_money
    → All (λ o. IsMoney o.value) os
    → acc + total_out os ≤ max_money
    → check_outputs (pos acc) os ≡ true
check_outputs_complete acc [] h m t = unfold check_outputs in refl
check_outputs_complete acc (o ∷ os) h (m, ms) t =
    rw (check_outputs_enter acc o.value o.script_pub_key os h m (omega arith))
      (check_outputs_complete (acc + pos_part o.value) os (omega arith) ms (omega arith))

-- The loop over the outputs passes exactly where every amount is a number of coins in range and so
-- is their sum.
pub check_outputs_iff :
    (acc : ℕ) (os : List TxOut)
    → acc ≤ max_money
    → (check_outputs (pos acc) os ≡ true)
      ↔ (All (λ o. IsMoney o.value) os × (acc + total_out os ≤ max_money))
check_outputs_iff acc os h =
    (check_outputs_sound acc os h, λ p. check_outputs_complete acc os h p.0 p.1)

value_out_loop_enter :
    (acc : ℕ) (v : ℤ) (b : Bytes) (os : List TxOut)
    → acc ≤ max_money
    → IsMoney v
    → acc + pos_part v ≤ max_money
    → value_out_loop (pos acc) (record { value = v; script_pub_key = b } ∷ os)
      ≡ value_out_loop (pos (acc + pos_part v)) os
unfolding value_out_loop
value_out_loop_enter acc (negsuc n) b os h m t = absurd m
value_out_loop_enter acc (pos n) b os h m t = ground (arith, add_money acc n h m)

value_out_loop_total :
    (acc : ℕ) (os : List TxOut)
    → acc ≤ max_money
    → All (λ o. IsMoney o.value) os
    → acc + total_out os ≤ max_money
    → value_out_loop (pos acc) os ≡ some (pos (acc + total_out os))
value_out_loop_total acc [] h m t =
    unfold value_out_loop in ap (λ (n : ℕ). some (pos n)) (omega arith)
value_out_loop_total acc (o ∷ os) h (m, ms) t =
    rw (value_out_loop_enter acc o.value o.script_pub_key os h m (omega arith)) (
      value_out_loop_total (acc + pos_part o.value) os (omega arith) ms (omega arith)
      ∙ ap (λ (n : ℕ). some (pos n)) (omega arith))

-- What `CheckTransaction` promises of a transaction, in plain terms.
abbrev pub CoinbaseScript : List TxIn → Type 0
CoinbaseScript [] = ⊥
CoinbaseScript (i ∷ _) = (2 ≤ length i.script_sig) × (length i.script_sig ≤ 100)

abbrev pub InputsAllowed : Transaction → Type 0
InputsAllowed tx =
    ((is_coin_base tx ≡ true) × CoinbaseScript tx.vin)
    ⊎ ((is_coin_base tx ≡ false) × All (λ i. OutPoint_is_null i.prevout ≡ false) tx.vin)

pub record IsChecked (tx : Transaction) : Type 0 where
  pub has_inputs : tx.vin ≢ []
  pub has_outputs : tx.vout ≢ []
  pub size_fits : length (write_tx tx) ≤ max_block_size
  pub amounts_fit : All (λ o. IsMoney o.value) tx.vout
  pub total_fits : total_out tx.vout ≤ max_money
  pub inputs_allowed : InputsAllowed tx

no_null_prevout_sound :
    (is : List TxIn) → no_null_prevout is ≡ true → All (λ i. OutPoint_is_null i.prevout ≡ false) is
unfolding no_null_prevout
no_null_prevout_sound [] e = tt
no_null_prevout_sound (i ∷ is) e = elim (Bool-cases (OutPoint_is_null i.prevout)) [
  | inl n ↦ cc (rw n at e)
  | inr n ↦ (n, no_null_prevout_sound is (rw n at e))
]

no_null_prevout_complete :
    (is : List TxIn) → All (λ i. OutPoint_is_null i.prevout ≡ false) is → no_null_prevout is ≡ true
unfolding no_null_prevout
no_null_prevout_complete [] h = refl
no_null_prevout_complete (i ∷ is) (h, hs) = rw h (no_null_prevout_complete is hs)

coinbase_script_fits_sound : (is : List TxIn) → coinbase_script_fits is ≡ true → CoinbaseScript is
unfolding coinbase_script_fits
coinbase_script_fits_sound [] e = cc
coinbase_script_fits_sound (i ∷ _) e = ground arith

coinbase_script_fits_complete :
    (is : List TxIn) → CoinbaseScript is → coinbase_script_fits is ≡ true
unfolding coinbase_script_fits
coinbase_script_fits_complete [] h = absurd h
coinbase_script_fits_complete (i ∷ _) h = ground arith

-- The tests of `CheckTransaction` one after the other.
check_transaction_guards :
    (tx : Transaction)
    → check_transaction tx ≡ true
    → (is_empty tx.vin ≡ false)
      × (is_empty tx.vout ≡ false)
      × (length (write_tx tx) ≤ max_block_size)
      × (check_outputs (pos 0) tx.vout ≡ true)
      × ((if is_coin_base tx then coinbase_script_fits tx.vin else no_null_prevout tx.vin) ≡ true)
unfolding check_transaction
check_transaction_guards tx e = ground arith

not_empty {ℓ} : {A : Type ℓ} (xs : List A) → is_empty xs ≡ false → xs ≢ []
not_empty [] e = cc
not_empty (x ∷ xs) e = λ p. cc

is_empty_of {ℓ} : {A : Type ℓ} (xs : List A) → xs ≢ [] → is_empty xs ≡ false
is_empty_of [] h = absurd (h refl)
is_empty_of (x ∷ xs) h = refl

check_transaction_sound : (tx : Transaction) → check_transaction tx ≡ true → IsChecked tx
check_transaction_sound tx e =
    let (hi, ho, hs, hc, hr) = check_transaction_guards tx e in
    let (am, tot) = check_outputs_sound 0 tx.vout (omega arith) hc in
    record {
      has_inputs = not_empty tx.vin hi;
      has_outputs = not_empty tx.vout ho;
      size_fits = hs;
      amounts_fit = am;
      total_fits = omega arith;
      inputs_allowed = elim (Bool-cases (is_coin_base tx)) [
        | inl c ↦ inl (c, coinbase_script_fits_sound tx.vin (rw c at hr))
        | inr c ↦ inr (c, no_null_prevout_sound tx.vin (rw c at hr))
      ];
    }

check_transaction_complete : (tx : Transaction) → IsChecked tx → check_transaction tx ≡ true
unfolding check_transaction
check_transaction_complete tx h =
    rw
      (
        is_empty_of tx.vin h.has_inputs,
        is_empty_of tx.vout h.has_outputs,
        not-ltb_of_le max_block_size (length (write_tx tx)) h.size_fits,
        check_outputs_complete 0 tx.vout (omega arith) h.amounts_fit
            (let t = h.total_fits in omega arith),
      )
      (elim h.inputs_allowed [
        | inl (c, k) ↦ rw c (coinbase_script_fits_complete tx.vin k)
        | inr (c, k) ↦ rw c (no_null_prevout_complete tx.vin k)
      ])

-- `CheckTransaction` accepts exactly the transactions that meet `IsChecked`: inputs and outputs are
-- there, the serialized size is within the block size, each amount is in range and so is the sum
-- of all, added up without wrapping, and the inputs are a coinbase with a script of 2 to 100 bytes
-- or name no null outpoint.
pub check_transaction_iff : (tx : Transaction) → (check_transaction tx ≡ true) ↔ IsChecked tx
check_transaction_iff tx = (check_transaction_sound tx, check_transaction_complete tx)

-- On a transaction that `CheckTransaction` accepts `GetValueOut` throws no exception, and returns the
-- sum of the amounts as integers.
pub get_value_out-check_transaction :
    (tx : Transaction)
    → check_transaction tx ≡ true
    → get_value_out tx ≡ some (pos (total_out tx.vout))
unfolding get_value_out
get_value_out-check_transaction tx e =
    let h = check_transaction_sound tx e in
    let t = h.total_fits in
    value_out_loop_total 0 tx.vout (omega arith) h.amounts_fit (omega arith)
    ∙ ap (λ (n : ℕ). some (pos n)) (omega arith)
