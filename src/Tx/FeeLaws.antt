-- ===== src/Tx/FeeLaws.antt =====
-- src/main.h: what fee `GetMinFee` asks for.
use ixcoin.Common.{
  ℕ, ◌+◌, ◌-◌, ◌*◌, ◌/◌, ◌^◌, ◌≤◌, ◌<◌, ◌≡◌, ◌≢◌, List, Bool, true, leb, if◌then◌else◌, arith,
  Bool-cases, inl, inr,
}
use ixcoin.Tx.{TxOut, max_money}
use ixcoin.Tx.Check.{
  max_block_size_gen, min_tx_fee, min_relay_tx_fee, has_dust, raise_fee, fee_after_dust,
  min_fee_of_size,
}

-- The factor by which a fee is raised is 1 at least.
raise_factor :
    (fee n : ℕ)
    → n < max_block_size_gen
    → fee ≤ fee * (max_block_size_gen / (max_block_size_gen - n))
raise_factor fee n h = grind (arith, factor)
  where
    factor : 1 ≤ max_block_size_gen / (max_block_size_gen - n)
    factor = grind arith

raise_fee_le : (block_size n fee : ℕ) → raise_fee block_size n fee ≤ max_money
unfolding raise_fee
raise_fee_le block_size n fee = ground arith

raise_fee_full :
    (block_size n fee : ℕ)
    → block_size ≢ 1
    → max_block_size_gen ≤ n
    → raise_fee block_size n fee ≡ max_money
unfolding raise_fee
raise_fee_full block_size n fee h k = ground arith

raise_fee_ge :
    (block_size n fee base : ℕ) → base ≤ fee → base ≤ max_money → base ≤ raise_fee block_size n fee
unfolding raise_fee
raise_fee_ge block_size n fee base h k = elim (Bool-cases (leb max_block_size_gen n)) [
  | inl e ↦ ground arith
  | inr e ↦ ground (arith, raise_factor fee n (ground arith))
]

fee_after_dust_ge :
    (outs : List TxOut) (base fee : ℕ) → has_dust outs ≡ true → base ≤ fee_after_dust outs base fee
unfolding fee_after_dust
fee_after_dust_ge outs base fee h = ground arith

-- Where a block that has a transaction already would be filled, `GetMinFee` asks for all the money
-- there is.
pub min_fee_of_size_full :
    (bytes : ℕ) (outs : List TxOut) (block_size : ℕ) (allow_free for_relay : Bool)
    → bytes + block_size < 2 ^ 32
    → block_size ≢ 1
    → max_block_size_gen ≤ block_size + bytes
    → min_fee_of_size bytes outs block_size allow_free for_relay ≡ max_money
unfolding min_fee_of_size
min_fee_of_size_full bytes outs block_size allow_free for_relay h n full =
    raise_fee_full block_size _ _ n (omega arith)

-- The fee of a transaction with an output of less than a cent is the base fee at least, also where
-- it could be free, and is not over `MAX_MONEY`.
pub min_fee_of_size_bounds :
    (bytes : ℕ) (outs : List TxOut) (block_size : ℕ) (allow_free for_relay : Bool)
    → has_dust outs ≡ true
    → ((if for_relay then min_relay_tx_fee else min_tx_fee)
        ≤ min_fee_of_size bytes outs block_size allow_free for_relay)
      × (min_fee_of_size bytes outs block_size allow_free for_relay ≤ max_money)
unfolding min_fee_of_size
min_fee_of_size_bounds bytes outs block_size allow_free for_relay d = (
  raise_fee_ge block_size _ _ _ (fee_after_dust_ge outs _ _ d) (ground arith),
  raise_fee_le block_size _ _,
)
