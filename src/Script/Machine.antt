-- ===== src/Script/Machine.antt =====
-- src/script.cpp: the values of the script machine, its state, and what it is run with.
use ixcoin.Common.{
  ℕ, ◌≤◌, List, [], ◌∷◌, ◌++◌, Bool, true, false, not, ltb, ◌==◌, if◌then◌else◌, length, replicate,
  ◌-◌, Option, none, some, All,
}
use ixcoin.Common.Int.{ℤ}
use ixcoin.Serialize.{Bytes, IsByte}
use ixcoin.Bignum.{set_vch, get_vch}
use ixcoin.Bignum.OpenSsl.{BnLib}
use ixcoin.Hash.{HashLib}
use ixcoin.Tx.{Transaction}

-- `vchFalse` and `vchTrue`
abbrev pub of_bool : Bool → Bytes
of_bool true = 1 ∷ []
of_bool false = []

-- `CastToBool`: some byte is not 0, but for a negative zero.
unfoldable pub cast_to_bool : Bytes → Bool
cast_to_bool [] = false
cast_to_bool (b ∷ []) = if b == 0 then false else not (b == 0x80)
cast_to_bool (b ∷ c ∷ v) = if b == 0 then cast_to_bool (c ∷ v) else true

abbrev pub max_num_size : ℕ
max_num_size = 4

-- `CastToBigNum`; `none` is its exception.
unfoldable pub cast_to_big_num : BnLib → Bytes → Option ℤ
cast_to_big_num bn v =
    if ltb max_num_size (length v) then none else some (set_vch bn (get_vch bn (set_vch bn v)))

-- `MakeSameSize`: the shorter one is lengthened by zeros.
unfoldable pub make_same_size : Bytes → Bytes → Bytes × Bytes
make_same_size a b =
    (a ++ replicate (length b - length a) 0, b ++ replicate (length a - length b) 0)

-- The functions of OpenSSL behind `CKey`: whether a public key can be read, and whether a signature
-- of the 32 bytes of a hash is good under it (`ECDSA_verify` returns 1).
pub record KeyLib : Type 0 where
  pub set_pub_key : Bytes → Bool
  pub ecdsa_verify : Bytes → Bytes → Bytes → Bool

-- What `EvalScript` is run with: the libraries, and the transaction, the input and the hash type
-- that a signature is checked against.
pub record Context : Type 0 where
  pub bn : BnLib
  pub hashes : HashLib
  pub keys : KeyLib
  pub tx : Transaction
  pub n_in : ℕ
  pub hash_type : ℕ

-- The local variables of `EvalScript`. The last element of a vector comes first in its list.
pub record Machine : Type 0 where
  pub stack : List Bytes
  pub altstack : List Bytes
  -- `vfExec`
  pub exec : List Bool
  pub op_count : ℕ
  -- the script from `pbegincodehash` to its end
  pub code_hash : Bytes

abbrev pub max_element_size : ℕ
max_element_size = 520

-- A value that a script may have on its stack.
pub record IsItem (v : Bytes) : Type 0 where
  pub size_fits : length v ≤ max_element_size
  pub bytes : All IsByte v
