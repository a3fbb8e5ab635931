-- ===== src/Chain/Block/Checked.antt =====
-- src/main.cpp: what a block meets that `CheckBlock` accepts.
use ixcoin.Common.{
  ℕ, zero, suc, ◌≤◌, ◌<◌, ◌≡◌, refl, sym, ap, ◌∙◌, List, [], ◌∷◌, Bool, true, false, ◌||◌, ltb,
  length, length-map, get_or, map, All, some, arith, Bool-cases, Option-cases, inl, inr,
}
use mathlib.Core.Option.{some-injective}
use ixcoin.Common.Int.{ℤ, pos, ◌+ℤ◌, ltb_ℤ, ◌≤ℤ◌}
use ixcoin.Hash.{HashLib}
use ixcoin.Bignum.OpenSsl.{BnLib}
use ixcoin.Tx.{Transaction, is_coin_base}
use ixcoin.Tx.Check.{check_transaction, is_empty, max_block_size}
use ixcoin.Chain.Merkle.{build_merkle_tree, get_merkle_branch, check_merkle_branch}
use ixcoin.Chain.Merkle.Branch.{check_merkle_branch-get_merkle_branch}
use ixcoin.Chain.Block.{
  Block, max_block_sigops, block_sig_ops, no_coin_base, coin_base_first, all_checked, tx_hash,
  check_contents, check_block_work, check_block,
}

-- One coinbase, in front.
abbrev pub CoinBaseFirst : List Transaction → Type 0
CoinBaseFirst [] = ⊥
CoinBaseFirst (tx ∷ txs) = (is_coin_base tx ≡ true) × All (λ t. is_coin_base t ≡ false) txs

-- What `CheckBlock` promises of a block.
pub record IsBlock (h : HashLib) (now : ℤ) (b : Block) : Type 0 where
  pub timely : pos b.header.time ≤ℤ now +ℤ pos 7_200
  pub coin_base : CoinBaseFirst b.vtx
  pub checked : All (λ tx. check_transaction tx ≡ true) b.vtx
  pub sig_ops_fit : block_sig_ops b.vtx ≤ max_block_sigops
  pub root_fits : b.header.hash_merkle_root ≡ build_merkle_tree h (map (tx_hash h) b.vtx)

no_coin_base_lem :
    (txs : List Transaction) → no_coin_base txs ≡ true → All (λ t. is_coin_base t ≡ false) txs
unfolding no_coin_base
no_coin_base_lem [] e = tt
no_coin_base_lem (tx ∷ txs) e = elim (Bool-cases (is_coin_base tx)) [
  | inl f ↦ cc (rw f at e)
  | inr f ↦ (f, no_coin_base_lem txs (rw f at e))
]

coin_base_first_lem : (txs : List Transaction) → coin_base_first txs ≡ true → CoinBaseFirst txs
unfolding coin_base_first
coin_base_first_lem [] e = cc
coin_base_first_lem (tx ∷ txs) e = elim (Bool-cases (is_coin_base tx)) [
  | inl f ↦ (f, no_coin_base_lem txs (rw f at e))
  | inr f ↦ cc (rw f at e)
]

all_checked_lem :
    (txs : List Transaction) → all_checked txs ≡ true → All (λ tx. check_transaction tx ≡ true) txs
unfolding all_checked
all_checked_lem [] e = tt
all_checked_lem (tx ∷ txs) e = elim (Bool-cases (check_transaction tx)) [
  | inl f ↦ (f, all_checked_lem txs (rw f at e))
  | inr f ↦ cc (rw f at e)
]

module _ (h : HashLib) where
  check_contents-IsBlock : (now : ℤ) (b : Block) → check_contents h now b ≡ true → IsBlock h now b
  unfolding check_contents
  check_contents-IsBlock now b e =
      elim (Bool-cases (ltb_ℤ (now +ℤ pos 7_200) (pos b.header.time))) [
        | inl f ↦ cc (rw (f, check_contents) at e)
        | inr f ↦ elim (Bool-cases (coin_base_first b.vtx)) [
          | inr g ↦ cc (rw (f, g, check_contents) at e)
          | inl g ↦ elim (Bool-cases (all_checked b.vtx)) [
            | inr k ↦ cc (rw (f, g, k, check_contents) at e)
            | inl k ↦ elim (Bool-cases (ltb max_block_sigops (block_sig_ops b.vtx))) [
              | inl l ↦ cc (rw (f, g, k, l, check_contents) at e)
              | inr l ↦ record {
                timely = ground (arith, f);
                coin_base = coin_base_first_lem b.vtx g;
                checked = all_checked_lem b.vtx k;
                sig_ops_fit = ground (arith, l);
                root_fits = ground (arith, (rw (f, g, k, l, check_contents) at e));
              }
            ]
          ]
        ]
      ]

  get_or-map :
      (txs : List Transaction) (tx : Transaction) (i : ℕ)
      → i < length txs
      → get_or (map (tx_hash h) txs) i 0 ≡ tx_hash h (get_or txs i tx)
  get_or-map [] tx i k = absurd (omega (arith, k))
  get_or-map (t ∷ txs) tx zero k = refl
  get_or-map (t ∷ txs) tx (suc i) k = get_or-map txs tx i (omega arith)

  module _ (bn : BnLib) where
    check_block-contents :
        (test_net : Bool) (now : ℤ) (size : ℕ) (b : Block) (height : ℕ)
        → check_block h bn test_net now size b height ≡ some true
        → (size ≤ max_block_size)
          × (check_block_work h bn test_net b height ≡ some true)
          × (check_contents h now b ≡ true)
    unfolding check_block
    check_block-contents test_net now size b height e =
        elim (Bool-cases
          (is_empty b.vtx || ltb max_block_size (length b.vtx) || ltb max_block_size size)) [
            | inl f ↦ cc (rw (f, check_block) at e)
            | inr f ↦ elim (Option-cases (check_block_work h bn test_net b height)) [
              | inl g ↦ cc (rw (f, g, check_block) at e)
              | inr (false, g) ↦ cc (rw (f, g, check_block) at e)
              | inr (true, g) ↦
                  (ground (arith, f), g, some-injective _ _ (rw (f, g, check_block) at e))
            ]
          ]

    -- A block that `CheckBlock` accepts is within its size, shows its work and meets `IsBlock`: it is not
    -- more than two hours ahead, starts with its one coinbase, holds transactions that
    -- `CheckTransaction` accepts and no more than 20,000 signature checks, and its header has the root of
    -- their hashes.
    pub check_block-IsBlock :
        (test_net : Bool) (now : ℤ) (size : ℕ) (b : Block) (height : ℕ)
        → check_block h bn test_net now size b height ≡ some true
        → (size ≤ max_block_size)
          × (check_block_work h bn test_net b height ≡ some true)
          × IsBlock h now b
    check_block-IsBlock test_net now size b height e =
        let (s, w, c) = check_block-contents test_net now size b height e in
        (s, w, check_contents-IsBlock now b c)

    -- The header of a block that `CheckBlock` accepts commits to each of its transactions: the branch of the
    -- one at a position leads from its hash to the root in the header.
    pub check_merkle_branch-check_block :
        (test_net : Bool) (now : ℤ) (size : ℕ) (b : Block) (height : ℕ) (tx : Transaction) (i : ℕ)
        → check_block h bn test_net now size b height ≡ some true
        → i < length b.vtx
        → check_merkle_branch h
            (tx_hash h (get_or b.vtx i tx))
            (get_merkle_branch h (map (tx_hash h) b.vtx) i)
            (pos i)
          ≡ b.header.hash_merkle_root
    check_merkle_branch-check_block test_net now size b height tx i e l =
        let (_, _, c) = check_block-contents test_net now size b height e in
        let k = check_contents-IsBlock now b c in
        let hashes = map (tx_hash h) b.vtx in
        ap (λ (n : ℕ). check_merkle_branch h n (get_merkle_branch h hashes i) (pos i))
          (sym (get_or-map b.vtx tx i l))
        ∙ check_merkle_branch-get_merkle_branch h hashes i
            (omega (arith, l, length-map b.vtx (tx_hash h)))
        ∙ sym k.root_fits
