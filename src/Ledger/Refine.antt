-- ===== src/Ledger/Refine.antt =====
-- `ConnectInputs` spends coins that are there, and makes new ones, as the specification says.
use ixcoin.Common.{
  ℕ, suc, ◌+◌, ◌-◌, ◌≤◌, ◌≡◌, refl, sym, ap, ◌∙◌, List, [], ◌∷◌, true, false, length, Option, some,
  >>=-some, arith, Bool-cases, inl, inr,
}
use mathlib.Core.Path.{subst}
use mathlib.Core.Option.{some-injective}
use ixcoin.Common.Int.{ℤ, pos, negsuc, pos_part, ◌+ℤ◌, ◌-ℤ◌, ltb_ℤ}
use ixcoin.Common.Words.{wrap_int64}
use ixcoin.Tx.{OutPoint, TxIn, TxOut, Transaction, is_coin_base, max_money, money_range}
use ixcoin.Tx.Check.{get_value_out, check_transaction}
use ixcoin.Tx.CheckLaws.{total_out, add_money, get_value_out-check_transaction}
use ixcoin.Chain.Block.{tx_hash}
use ixcoin.Ledger.{TxPos, is_null, new_index, Node, IndexedBlock, add_tx_index}
use ixcoin.Ledger.Connect.{
  Store, block_call, connect_input, connect_loop, tally_fee, take_inputs, add_outputs,
  connect_inputs,
}
use ixcoin.Ledger.Step.{connect_input-IsSpend, read_tx_of, add_fee-some}
use ixcoin.Ledger.Undo.{add_outputs-some}
use ixcoin.Ledger.Coins.{
  take_coins, take_coins-cons, pay, pay_lem, apply_tx, apply_tx-coin_base, apply_tx-pay, remove,
  make_coins, coins_of, coins_of-found, coins_of-set_cell, coins_of-put,
}

pub money_range-pos : (v : ℤ) → money_range v ≡ true → (n : ℕ) × (v ≡ pos n) × (n ≤ max_money)
money_range-pos (pos n) h = (n, refl, ground arith)
money_range-pos (negsuc n) h = absurd (ground arith)

-- What is left of an amount that is no less than another.
sub_money :
    (v w : ℕ)
    → v ≤ max_money
    → ltb_ℤ (pos v) (pos w) ≡ false
    → (w ≤ v) × (wrap_int64 (pos v -ℤ pos w) ≡ pos (v - w))
unfolding ◌-ℤ◌
sub_money v w h k = ground arith

module _ (nd : Node) (e : TxPos) (chain : List IndexedBlock) (tx : Transaction) where
  connect_loop-take_coins :
      (ts : List TxIn) (n a : ℕ) (v' : ℤ) (s s' : Store)
      → is_null e ≡ false
      → a ≤ max_money
      → connect_loop nd (block_call e chain) tx n ts (pos a) s ≡ some (v', s')
      → (w : ℕ) × (take_coins ts (coins_of nd s.index) ≡ some (w, coins_of nd s'.index))
        × (v' ≡ pos (a + w))
        × (a + w ≤ max_money)
        × (s'.fees ≡ s.fees)
  unfolding connect_loop take_coins
  connect_loop-take_coins [] n a v' s s' ne l h =
      let q = some-injective _ _ h in
      (
        0,
        ap (λ z. some (0, coins_of nd z.1.index)) q,
        sym (ap (λ z. z.0) q) ∙ ap pos (omega arith),
        omega arith,
        ap (λ z. z.1.fees) (sym q),
      )
  connect_loop-take_coins (t ∷ ts) n a v' s s' ne l h =
      let ((v, s1), p, h1) =
        >>=-some (connect_input nd (block_call e chain) tx n t.prevout (pos a) s) _ _ h in
      let sp = connect_input-IsSpend nd e chain tx n t.prevout (pos a) v s s1 p in
      let (b, out_eq, b_le) = money_range-pos sp.out.value sp.value_fits in
      let (c, sum_eq, c_le) = money_range-pos v sp.sum_fits in
      let sum : v ≡ pos (a + b) =
        sp.value ∙ ap (λ z. wrap_int64 (pos a +ℤ z)) out_eq ∙ add_money a b l b_le in
      let same : a + b ≡ c = ap pos_part (sym sum ∙ sum_eq) in
      let fits : a + b ≤ max_money = omega arith in
      let (w, taken, total, bound, fees) =
        connect_loop-take_coins ts (suc n) (a + b) v' s1 s' ne fits (rw sum at h1) in
      let coin : coins_of nd s.index t.prevout ≡ some sp.out =
        coins_of-found nd s.index t.prevout sp.ix sp.by sp.prev sp.found sp.has_mark sp.was_free
          sp.read
        ∙ sp.has_out in
      let left : coins_of nd s1.index ≡ remove t.prevout (coins_of nd s.index) =
        ap (λ z. coins_of nd z.index) sp.after ∙ coins_of-set_cell nd t.prevout e s.index ne in
      (
        b + w,
        take_coins-cons t ts (coins_of nd s.index) (coins_of nd s'.index) sp.out b w coin
            (ap pos_part out_eq) (sym (ap (take_coins ts) left) ∙ taken),
        total ∙ ap pos (omega arith),
        omega arith,
        fees ∙ ap (λ z. z.fees) sp.after,
      )

  pub all_inputs-take_coins :
      (v : ℤ) (s s' : Store)
      → is_null e ≡ false
      → connect_loop nd (block_call e chain) tx 0 tx.vin (pos 0) s ≡ some (v, s')
      → (w : ℕ) × (take_coins tx.vin (coins_of nd s.index) ≡ some (w, coins_of nd s'.index))
        × (v ≡ pos w)
        × (w ≤ max_money)
        × (s'.fees ≡ s.fees)
  all_inputs-take_coins v s s' ne h =
      let (w, taken, total, bound, fees) =
        connect_loop-take_coins tx.vin 0 0 v s s' ne (omega arith) h in
      (w, taken, total ∙ ap pos (zero_plus w), subst (λ z. z ≤ max_money) (zero_plus w) bound, fees)
    where
      zero_plus : (n : ℕ) → 0 + n ≡ n
      zero_plus n = omega arith

  tally_fee-pay :
      (v k f : ℕ) (s s' : Store) (c : OutPoint → Option TxOut)
      → v ≤ max_money
      → f ≤ max_money
      → s.fees ≡ pos f
      → check_transaction tx ≡ true
      → tally_fee (block_call e chain) tx (pos v) s ≡ some s'
      → (fee : ℕ) × (pay tx k (v, c) ≡ some (fee, make_coins k tx.vout c))
        × (s'.fees ≡ pos (f + fee))
        × (f + fee ≤ max_money)
        × (s'.index ≡ s.index)
  unfolding tally_fee
  tally_fee-pay v k f s s' c l m fs ok h =
      let total = total_out tx.vout in
      let (w, p, h1) = >>=-some (get_value_out tx) _ _ h in
      let w_eq : w ≡ pos total =
        some-injective _ _ (sym p ∙ get_value_out-check_transaction tx ok) in
      let (enough, fits, after) = add_fee-some (block_call e chain) (pos v) w s s' h1 in
      let (le, sub) = sub_money v total l (sym (ap (ltb_ℤ (pos v)) w_eq) ∙ enough) in
      let fees : s'.fees ≡ pos (f + (v - total)) =
        ap (λ z. z.fees) after
        ∙ ap (λ z. wrap_int64 (s.fees +ℤ wrap_int64 (pos v -ℤ z))) w_eq
        ∙ ap (λ z. wrap_int64 (s.fees +ℤ z)) sub
        ∙ ap (λ z. wrap_int64 (z +ℤ pos (v - total))) fs
        ∙ add_money f (v - total) m (omega arith) in
      let (g, g_eq, g_le) = money_range-pos s'.fees fits in
      let same : f + (v - total) ≡ g = ap pos_part (sym fees ∙ g_eq) in
      (v - total, pay_lem tx k v c le, fees, omega arith, ap (λ z. z.index) after)

  add_outputs-fees :
      (s s' : Store) → add_outputs nd (block_call e chain) tx s ≡ some s' → s'.fees ≡ s.fees
  unfolding add_outputs
  add_outputs-fees s s' h =
      let (i, _, h1) = >>=-some (add_tx_index nd tx e s.index) _ _ h in
      ap (λ z. z.fees) (sym (some-injective _ _ h1))

  -- The coins that a transaction makes.
  add_outputs-make_coins :
      (s s' : Store)
      → read_tx_of nd (tx_hash nd.hashes tx) (new_index e (length tx.vout)) ≡ some tx
      → add_outputs nd (block_call e chain) tx s ≡ some s'
      → coins_of nd s'.index ≡ make_coins (tx_hash nd.hashes tx) tx.vout (coins_of nd s.index)
  add_outputs-make_coins s s' r h =
      ap (coins_of nd) (add_outputs-some nd e chain tx s s' h)
      ∙ coins_of-put nd e tx (tx_hash nd.hashes tx) s.index r

  -- The inputs, for a transaction that is no coinbase.
  take_inputs-pay :
      (k f : ℕ) (s s' : Store)
      → is_null e ≡ false
      → check_transaction tx ≡ true
      → f ≤ max_money
      → s.fees ≡ pos f
      → is_coin_base tx ≡ false
      → take_inputs nd (block_call e chain) tx s ≡ some s'
      → (v : ℕ) × (c : OutPoint → Option TxOut) × (fee : ℕ) × (take_coins tx.vin
            (coins_of nd s.index)
          ≡ some (v, c))
        × (pay tx k (v, c) ≡ some (fee, make_coins k tx.vout (coins_of nd s'.index)))
        × (s'.fees ≡ pos (f + fee))
        × (f + fee ≤ max_money)
  unfolding take_inputs
  take_inputs-pay k f s s' ne ok l fs cb h =
      let ((v, s1), q, h1) =
        >>=-some (connect_loop nd (block_call e chain) tx 0 tx.vin (pos 0) s) _ _ (rw cb at h) in
      let (w, taken, total, bound, kept) = all_inputs-take_coins v s s1 ne q in
      let (fee, paid, sum, small, same) =
        tally_fee-pay w k f s1 s' (coins_of nd s1.index) bound l (kept ∙ fs) ok
          (sym (ap (λ z. tally_fee (block_call e chain) tx z s1) total) ∙ h1) in
      (
        w,
        coins_of nd s1.index,
        fee,
        taken,
        paid ∙ ap (λ z. some (fee, make_coins k tx.vout (coins_of nd z))) (sym same),
        sum,
        small,
      )

  take_inputs-coin_base :
      (s s' : Store)
      → is_coin_base tx ≡ true
      → take_inputs nd (block_call e chain) tx s ≡ some s'
      → s' ≡ s
  unfolding take_inputs
  take_inputs-coin_base s s' cb h = sym (some-injective _ _ (rw cb at h))

  -- Where `ConnectInputs` takes a transaction of a block, that `CheckTransaction` has passed and that
  -- can be read at its place, the specification takes it too: each input was an unspent output, all
  -- of them differ, and their value is the value of the outputs and a fee. The unspent outputs of the
  -- index are then those of the specification, and the fee is added to the fees so far.
  pub connect_inputs-apply_tx :
      (f : ℕ) (s s' : Store)
      → is_null e ≡ false
      → read_tx_of nd (tx_hash nd.hashes tx) (new_index e (length tx.vout)) ≡ some tx
      → check_transaction tx ≡ true
      → f ≤ max_money
      → s.fees ≡ pos f
      → connect_inputs nd (block_call e chain) tx s ≡ some s'
      → (fee : ℕ) × (apply_tx nd.hashes tx (coins_of nd s.index) ≡ some (fee, coins_of nd s'.index))
        × (s'.fees ≡ pos (f + fee))
        × (f + fee ≤ max_money)
  unfolding connect_inputs
  connect_inputs-apply_tx f s s' ne r ok l fs h =
      let (s2, p, h2) = >>=-some (take_inputs nd (block_call e chain) tx s) _ _ h in
      let made = add_outputs-make_coins s2 s' r h2 in
      let fees = add_outputs-fees s2 s' h2 in
      elim (Bool-cases (is_coin_base tx)) [
        | inl cb ↦
            let q = take_inputs-coin_base s s2 cb p in
            (
              0,
              apply_tx-coin_base nd.hashes tx (coins_of nd s.index) (coins_of nd s'.index) cb (
                  made
                  ∙ ap (λ z. make_coins (tx_hash nd.hashes tx) tx.vout (coins_of nd z.index)) q),
              fees ∙ ap (λ z. z.fees) q ∙ fs ∙ ap pos (plus_zero f),
              subst (λ z. z ≤ max_money) (plus_zero f) l,
            )
        | inr cb ↦
            let (v, c, fee, taken, paid, sum, small) =
              take_inputs-pay (tx_hash nd.hashes tx) f s s2 ne ok l fs cb p in
            (
              fee,
              apply_tx-pay nd.hashes tx (coins_of nd s.index) c (coins_of nd s'.index) v fee cb
                  taken (paid ∙ ap (λ z. some (fee, z)) (sym made)),
              fees ∙ sum,
              small,
            )
      ]
    where
      plus_zero : (n : ℕ) → n ≡ n + 0
      plus_zero n = omega arith
