-- ===== src/Chain/Subsidy.antt =====
-- src/main.cpp: `GetBlockValue`, and how many coins all blocks make.
use ixcoin.Common.{
  ℕ, zero, suc, ◌+◌, ◌-◌, ◌*◌, ◌/◌, ◌^◌, ◌≤◌, ◌≡◌, refl, true, ltb, leb, if◌then◌else◌, arith,
  Bool-cases, inl, inr,
}
use ixcoin.Common.Int.{ℤ, pos, ◌+ℤ◌, pos_part}
use ixcoin.Common.Words.{wrap_int64, wrap_int64_lem}
use ixcoin.Tx.{coin, max_money}

-- The subsidy, with no blocks from 227499 on.
unfoldable pub subsidy : ℕ → ℕ
subsidy height =
    let halved = 96 * coin / 2 ^ (height / 210_000) in if leb 227_499 height then 0 else halved

unfoldable pub get_block_value : ℕ → ℤ → ℤ
get_block_value height fees = wrap_int64 (pos (subsidy height) +ℤ fees)

-- What the blocks below a height make where nobody pays a fee.
unfoldable pub issued : ℕ → ℕ
issued zero = 0
issued (suc n) = issued n + pos_part (get_block_value n (pos 0))

subsidy_lem :
    (h : ℕ)
    → subsidy h ≡ (if ltb h 210_000 then 96 * coin else if ltb h 227_499 then 48 * coin else 0)
unfolding subsidy
subsidy_lem h = elim (Bool-cases (leb 227_499 h)) [
  | inl e ↦ rw e (ground arith)
  | inr e ↦ elim (Bool-cases (ltb h 210_000)) [
    | inl f ↦ let q : h / 210_000 ≡ 0 = ground arith in rw (e, f, q)
    | inr f ↦
        let q : h / 210_000 ≡ 1 = ground arith in
        let g : ltb h 227_499 ≡ true = ground arith in rw (e, f, g, q)
  ]
]

pub subsidy_le : (h : ℕ) → subsidy h ≤ 96 * coin
subsidy_le h = ground (arith, subsidy_lem h)

get_block_value_lem : (h : ℕ) → pos_part (get_block_value h (pos 0)) ≡ subsidy h
unfolding get_block_value ◌+ℤ◌
get_block_value_lem h =
    let e : pos (subsidy h) +ℤ pos 0 ≡ pos (subsidy h) = ground arith in
    rw (e, wrap_int64_lem (pos (subsidy h)) (omega (arith, subsidy_le h)))

-- The coins that the first blocks make.
abbrev made : ℕ → ℕ
made n =
    if leb n 210_000
    then n * (96 * coin)
    else if leb n 227_499
    then 210_000 * (96 * coin) + (n - 210_000) * (48 * coin)
    else 210_000 * (96 * coin) + 17_499 * (48 * coin)

issued_lem : (n : ℕ) → issued n ≡ made n
unfolding issued
issued_lem zero = refl
issued_lem (suc n) = ground (arith, issued_lem n, get_block_value_lem n, subsidy_lem n)

-- The subsidies of any number of blocks add up to no more than `MAX_MONEY`, and to 20,999,952 coins
-- once the limit in `GetBlockValue` is reached.
pub issued_bounds : (n : ℕ) → (issued n ≤ max_money) × (issued (227_499 + n) ≡ 20_999_952 * coin)
issued_bounds n = (ground (arith, issued_lem n), ground (arith, issued_lem (227_499 + n)))
