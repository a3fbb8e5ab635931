-- ===== src/Chain/AuxPow.antt =====
-- src/auxpow.cpp: a proof of work that was done for the block of another chain.
pub mod Search
pub mod Binding
use ixcoin.Common.{
  ℕ, zero, suc, ◌+◌, ◌*◌, ◌%◌, ◌^◌, List, [], ◌∷◌, Bool, true, false, ◌&&◌, not, ltb, ◌==◌,
  if◌then◌else◌, length, take, drop, Option, none, some,
}
use mathlib.Core.List.{reverse}
use ixcoin.Common.Int.{ℤ, pos, eqb_ℤ}
use ixcoin.Common.Words.{to_word, of_word}
use ixcoin.Serialize.{Bytes, le_bytes, of_le_bytes}
use ixcoin.Hash.{HashLib, hash}
use ixcoin.Tx.{TxIn, Transaction}
use ixcoin.Tx.Serial.{write_tx}
use ixcoin.Script.Parse.{starts_with}
use ixcoin.Chain.Merkle.{check_merkle_branch}
use ixcoin.Chain.Header.{Header, get_chain_id}

-- `CAuxPow`, with what it inherits from `CMerkleTx`.
pub record AuxPow : Type 0 where
  pub tx : Transaction
  pub merkle_branch : List ℕ
  pub index : ℤ
  pub chain_merkle_branch : List ℕ
  pub chain_index : ℤ
  pub parent_block : Header

abbrev pub merged_mining_header : Bytes
merged_mining_header = 0xfa ∷ 0xbe ∷ 109 ∷ 109 ∷ []

-- `std::search` for bytes that are not empty: how far in they stand, and the text from there on.
unfoldable pub search : Bytes → Bytes → Option (ℕ × Bytes)
search p [] = none
search p (b ∷ s) =
    let later = search p s in
    if starts_with p (b ∷ s)
    then some (0, b ∷ s)
    else elim later [ none ↦ none | some (n, t) ↦ some (suc n, t) ]

-- There is one header, just before the root at `pc`; or none, and the root starts early.
unfoldable pub is_placed : Bytes → ℕ → Bool
is_placed script pc = elim (search merged_mining_header script) [
  | none ↦ not (ltb 20 pc)
  | some (head, t) ↦ elim (search merged_mining_header (drop 1 t)) [
    | none ↦ head + 4 == pc
    | some _ ↦ false
  ]
]

-- The slot of a chain in a tree of `size` leaves.
unfoldable pub slot : ℕ → ℤ → ℕ → ℕ
slot nonce chain size =
    let rand = (nonce * 1103515245 + 12345) % 2 ^ 32 in
    let rand' = (rand + to_word (2 ^ 32) chain) % 2 ^ 32 in
    let rand'' = (rand' * 1103515245 + 12345) % 2 ^ 32 in
    elim size [ zero ↦ rand'' | suc n ↦ rand'' % suc n ]

-- The size and the nonce behind the root.
unfoldable pub check_slot : Bytes → ℕ → ℤ → ℤ → Bool
check_slot tail height chain_index chain =
    let size = of_le_bytes (take 4 tail) in
    let nonce = of_le_bytes (take 4 (drop 4 tail)) in
    if ltb (length tail) 8
    then false
    else if not (eqb_ℤ (of_word (2 ^ 32) size) (pos (2 ^ height)))
    then false
    else to_word (2 ^ 32) chain_index == slot nonce chain size

-- What `Check` asks of the script of the parent's coinbase.
unfoldable pub check_script : Bytes → Bytes → ℕ → ℤ → ℤ → Bool
check_script script root height chain_index chain = elim (search root script) [
  | none ↦ false
  | some (pc, t) ↦
      if not (is_placed script pc)
      then false
      else check_slot (drop (length root) t) height chain_index chain
]

-- `vin[0].scriptSig`; `none` where there is no input, which the source does not test.
unfoldable pub first_script : List TxIn → Option Bytes
first_script [] = none
first_script (i ∷ _) = some i.script_sig

-- The root of the tree of chains that the block of the hash `aux_block` is in.
unfoldable pub chain_root : HashLib → AuxPow → ℕ → ℕ
chain_root h a aux_block = check_merkle_branch h aux_block a.chain_merkle_branch a.chain_index

-- `CAuxPow::Check`; `none` where the source reads an input that is not there.
unfoldable pub check_aux_pow : HashLib → Bool → AuxPow → ℕ → ℤ → Option Bool
check_aux_pow h test_net a aux_block chain =
    if not (eqb_ℤ a.index (pos 0))
    then some false
    else if not test_net && eqb_ℤ (get_chain_id a.parent_block) chain
    then some false
    else if ltb 30 (length a.chain_merkle_branch)
    then some false
    else if not (
        check_merkle_branch h (hash h (write_tx a.tx)) a.merkle_branch a.index
        == a.parent_block.hash_merkle_root)
    then some false
    else elim (first_script a.tx.vin) [
      | none ↦ none
      | some script ↦ some (
          check_script script (reverse (le_bytes 32 (chain_root h a aux_block)))
            (length a.chain_merkle_branch) a.chain_index chain)
    ]
