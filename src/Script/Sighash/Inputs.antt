-- ===== src/Script/Sighash/Inputs.antt =====
-- src/script.cpp: what `SignatureHash` reads of the inputs.
use ixcoin.Common.{
  ℕ, zero, suc, ◌≡◌, refl, ap, List, [], ◌∷◌, Bool, ◌||◌, leb, ◌==◌, if◌then◌else◌, length-map, map,
  Option, none, some,
}
use mathlib.Core.Path.{ap₂}
use ixcoin.Serialize.{Bytes}
use ixcoin.Tx.{TxIn, Transaction}
use ixcoin.Script.Opcode.{Opcode}
use ixcoin.Script.Parse.{find_and_delete, push_op}
use ixcoin.Script.Sighash.{
  base_type, sighash_outputs, only_input, anyone_can_pay, sighash_none, sighash_single, sign_inputs,
  blank_other, sighash_tx,
}

-- An input without its script.
abbrev pub strip : TxIn → TxIn
strip i = record i { script_sig = [] }

map-strip :
    (free : Bool) (l : List TxIn) → map (blank_other free) (map strip l) ≡ map (blank_other free) l
unfolding blank_other
map-strip free [] = refl
map-strip free (i ∷ is) = ap (λ (r : List TxIn). blank_other free i ∷ r) (map-strip free is)

sign_inputs-strip :
    (free : Bool) (n : ℕ) (code : Bytes) (l : List TxIn)
    → sign_inputs free n code (map strip l) ≡ sign_inputs free n code l
unfolding sign_inputs blank_other
sign_inputs-strip free n code [] = refl
sign_inputs-strip free zero code (i ∷ is) =
    ap (λ (r : List TxIn). record i { script_sig = code } ∷ r) (map-strip free is)
sign_inputs-strip free (suc n) code (i ∷ is) =
    ap (λ (r : List TxIn). blank_other free i ∷ r) (sign_inputs-strip free n code is)

-- What is signed does not depend on the scripts of the inputs, for any hash type and index: without
-- them the transaction that `SignatureHash` hashes is the same.
pub sighash_tx-strip :
    (code : Bytes) (tx : Transaction) (n t : ℕ)
    → sighash_tx code (record tx { vin = map strip tx.vin }) n t ≡ sighash_tx code tx n t
unfolding sighash_tx
sighash_tx-strip code tx n t =
    let free = base_type t == sighash_none || base_type t == sighash_single in
    let code' = find_and_delete (push_op Opcode.op_codeseparator) code in
    ap₂ hashed (sign_inputs-strip free n code' tx.vin) (length-map tx.vin strip)
  where
    hashed : List TxIn → ℕ → Option Transaction
    hashed ins len = if leb len n then none else elim (sighash_outputs t n tx.vout) [
      | none ↦ none
      | some os ↦
          some (record tx { vin = if anyone_can_pay t then only_input n ins else ins; vout = os })
    ]
