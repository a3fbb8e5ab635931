-- ===== src/Chain/Block.antt =====
-- src/main.cpp: the checks of a block that need no other block.
pub mod Checked
use ixcoin.Common.{
  ℕ, zero, suc, ◌+◌, ◌-◌, ◌*◌, ◌^◌, List, [], ◌∷◌, Bool, true, false, ◌&&◌, ◌||◌, not, ltb, leb,
  ◌==◌, if◌then◌else◌, length, map, Option, none, some,
}
use ixcoin.Common.Int.{ℤ, pos, ◌+ℤ◌, ltb_ℤ, eqb_ℤ}
use ixcoin.Hash.{HashLib, hash}
use ixcoin.Bignum.OpenSsl.{BnLib}
use ixcoin.Tx.{TxIn, TxOut, Transaction, is_coin_base}
use ixcoin.Tx.Serial.{write_tx}
use ixcoin.Tx.Check.{check_transaction, is_empty, max_block_size}
use ixcoin.Script.Parse.{get_sig_op_count}
use ixcoin.Chain.Merkle.{build_merkle_tree}
use ixcoin.Chain.Header.{Header, header_hash, get_chain_id}
use ixcoin.Chain.AuxPow.{AuxPow, check_aux_pow}
use ixcoin.Chain.Work.{check_proof_of_work}

pub record Block : Type 0 where
  pub header : Header
  pub aux_pow : Option AuxPow
  pub vtx : List Transaction

abbrev pub max_block_sigops : ℕ
max_block_sigops = 20_000

abbrev pub int_max : ℕ
int_max = 2 ^ 31 - 1

-- `GetSigOpCount` of a transaction and of a block. In a block of at most a million bytes the sums stay
-- in the range of an `int`.
unfoldable pub input_sig_ops : List TxIn → ℕ
input_sig_ops [] = 0
input_sig_ops (i ∷ is) = get_sig_op_count i.script_sig + input_sig_ops is

unfoldable pub output_sig_ops : List TxOut → ℕ
output_sig_ops [] = 0
output_sig_ops (o ∷ os) = get_sig_op_count o.script_pub_key + output_sig_ops os

unfoldable pub tx_sig_ops : Transaction → ℕ
tx_sig_ops tx = input_sig_ops tx.vin + output_sig_ops tx.vout

unfoldable pub block_sig_ops : List Transaction → ℕ
block_sig_ops [] = 0
block_sig_ops (tx ∷ txs) = tx_sig_ops tx + block_sig_ops txs

unfoldable pub no_coin_base : List Transaction → Bool
no_coin_base [] = true
no_coin_base (tx ∷ txs) = if is_coin_base tx then false else no_coin_base txs

-- The first transaction is a coinbase, and no other is.
unfoldable pub coin_base_first : List Transaction → Bool
coin_base_first [] = false
coin_base_first (tx ∷ txs) = if not (is_coin_base tx) then false else no_coin_base txs

unfoldable pub all_checked : List Transaction → Bool
all_checked [] = true
all_checked (tx ∷ txs) = if not (check_transaction tx) then false else all_checked txs

unfoldable pub aux_pow_start_block : Bool → ℕ
aux_pow_start_block test_net = if test_net then 0 else 45_000

abbrev pub our_chain_id : ℤ
our_chain_id = pos 3

module _ (h : HashLib) where
  unfoldable pub tx_hash : Transaction → ℕ
  tx_hash tx = hash h (write_tx tx)

  -- The checks of `CheckBlock` behind the proof of work; `now` is `GetAdjustedTime()`.
  unfoldable pub check_contents : ℤ → Block → Bool
  check_contents now b =
      if ltb_ℤ (now +ℤ pos (2 * 60 * 60)) (pos b.header.time)
      then false
      else if not (coin_base_first b.vtx)
      then false
      else if not (all_checked b.vtx)
      then false
      else if ltb max_block_sigops (block_sig_ops b.vtx)
      then false
      else b.header.hash_merkle_root == build_merkle_tree h (map tx_hash b.vtx)

  module _ (bn : BnLib) where
    -- The work of the block itself, or of the parent that carries it.
    unfoldable pub own_work : Bool → Block → Option Bool
    own_work test_net b = elim b.aux_pow [
      | none ↦ some (check_proof_of_work bn (header_hash h b.header) b.header.bits)
      | some a ↦
          elim (check_aux_pow h test_net a (header_hash h b.header) (get_chain_id b.header)) [
            | none ↦ none
            | some ok ↦
                some (ok && check_proof_of_work bn (header_hash h a.parent_block) b.header.bits)
          ]
    ]

    -- The work of a block below the start of merged mining.
    unfoldable pub plain_work : Block → Bool
    plain_work b = elim b.aux_pow [
      | none ↦ check_proof_of_work bn (header_hash h b.header) b.header.bits
      | some _ ↦ false
    ]

    -- `CBlock::CheckProofOfWork`
    unfoldable pub check_block_work : Bool → Block → ℕ → Option Bool
    check_block_work test_net b height =
        if leb (aux_pow_start_block test_net) height
        then if not test_net
            && not (height == int_max)
            && not (eqb_ℤ (get_chain_id b.header) our_chain_id)
          then some false
          else own_work test_net b
        else some (plain_work b)

    -- `CheckBlock`, by the size of the block in bytes.
    unfoldable pub check_block : Bool → ℤ → ℕ → Block → ℕ → Option Bool
    check_block test_net now size b height =
        if is_empty b.vtx || ltb max_block_size (length b.vtx) || ltb max_block_size size
        then some false
        else elim (check_block_work test_net b height) [
          | none ↦ none
          | some false ↦ some false
          | some true ↦ some (check_contents now b)
        ]
