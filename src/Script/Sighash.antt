-- ===== src/Script/Sighash.antt =====
-- src/script.cpp: `SignatureHash` and `CheckSig`.
pub mod Inputs
use ixcoin.Common.{
  ℕ, zero, suc, ◌/◌, ◌%◌, List, [], ◌∷◌, ◌++◌, Bool, false, ◌||◌, leb, ◌==◌, if◌then◌else◌, length,
  Option, none, some, map,
}
use ixcoin.Serialize.{Bytes, le_bytes}
use ixcoin.Hash.{hash}
use ixcoin.Tx.{TxIn, TxOut, Transaction, null_tx_out}
use ixcoin.Tx.Serial.{write_tx}
use ixcoin.Script.Opcode.{Opcode}
use ixcoin.Script.Parse.{push_op, find_and_delete}
use ixcoin.Script.Machine.{Context}

abbrev pub sighash_all : ℕ
sighash_all = 1

abbrev pub sighash_none : ℕ
sighash_none = 2

abbrev pub sighash_single : ℕ
sighash_single = 3

-- `nHashType & 0x1f` and `nHashType & SIGHASH_ANYONECANPAY`
abbrev pub base_type : ℕ → ℕ
base_type t = t % 32

abbrev pub anyone_can_pay : ℕ → Bool
anyone_can_pay t = t / 128 % 2 == 1

-- The inputs with the script of the one that is signed, and no script in the others; `free` sets the
-- sequence numbers of the others to 0.
blank_other : Bool → TxIn → TxIn
blank_other free i = record i { script_sig = []; sequence = if free then 0 else i.sequence }

unfoldable pub sign_inputs : Bool → ℕ → Bytes → List TxIn → List TxIn
unfolding blank_other
sign_inputs free n code [] = []
sign_inputs free zero code (i ∷ is) = record i { script_sig = code } ∷ map (blank_other free) is
sign_inputs free (suc n) code (i ∷ is) = blank_other free i ∷ sign_inputs free n code is

-- The outputs of SIGHASH_SINGLE: those before the signed one are null, those behind it are gone.
-- `none` where there is no output at the index.
unfoldable pub single_outputs : ℕ → List TxOut → Option (List TxOut)
single_outputs n [] = none
single_outputs zero (o ∷ os) = some (o ∷ [])
single_outputs (suc n) (o ∷ os) = elim (single_outputs n os) [
  | none ↦ none
  | some r ↦ some (null_tx_out ∷ r)
]

sighash_outputs : ℕ → ℕ → List TxOut → Option (List TxOut)
sighash_outputs t n os =
    if base_type t == sighash_none
    then some []
    else if base_type t == sighash_single
    then single_outputs n os
    else some os

-- The input at an index, if there is one, as the only one.
only_input : ℕ → List TxIn → List TxIn
only_input n [] = []
only_input zero (i ∷ is) = i ∷ []
only_input (suc n) (i ∷ is) = only_input n is

-- The transaction that is hashed; `none` where the source returns 1 instead of a hash.
unfoldable pub sighash_tx : Bytes → Transaction → ℕ → ℕ → Option Transaction
unfolding sighash_outputs only_input
sighash_tx code tx n t =
    let free = base_type t == sighash_none || base_type t == sighash_single in
    let ins = sign_inputs free n (find_and_delete (push_op Opcode.op_codeseparator) code) tx.vin in
    let ins' = if anyone_can_pay t then only_input n ins else ins in
    if leb (length tx.vin) n then none else elim (sighash_outputs t n tx.vout) [
      | none ↦ none
      | some os ↦ some (record tx { vin = ins'; vout = os })
    ]

module _ (c : Context) where
  unfoldable pub signature_hash : Bytes → ℕ → ℕ
  signature_hash code t = elim (sighash_tx code c.tx c.n_in t) [
    | none ↦ 1
    | some tx ↦ hash c.hashes (write_tx tx ++ le_bytes 4 t)
  ]

  -- The hash type that a signature is checked for: the one asked for, which the last byte of the
  -- signature must then name, or that byte itself.
  agreed_type : ℕ → ℕ → Option ℕ
  agreed_type asked last =
      if asked == 0 then some last else if asked == last then some asked else none

  -- `CheckSig` behind the test of the key: `front` and `last` make up the signature.
  check_split : Bytes → Bytes → Bytes → ℕ → Bool
  unfolding agreed_type
  check_split key code front last = elim (agreed_type c.hash_type last) [
    | none ↦ false
    | some t ↦ c.keys.ecdsa_verify key (le_bytes 32 (signature_hash code t)) front
  ]

  -- The last byte of a vector and those in front of it.
  split_last : Bytes → Option (Bytes × ℕ)
  split_last [] = none
  split_last (b ∷ bs) = elim (split_last bs) [
    | none ↦ some ([], b)
    | some (front, last) ↦ some (b ∷ front, last)
  ]

  unfoldable pub check_sig : Bytes → Bytes → Bytes → Bool
  unfolding split_last check_split
  check_sig sig key code =
      if c.keys.set_pub_key key
      then elim (split_last sig) [
        | none ↦ false
        | some (front, last) ↦ check_split key code front last
      ]
      else false
