-- ===== src/Script/Standard.antt =====
-- src/script.h and src/script.cpp: the standard scripts, `Solver`, and what is read off them.
pub mod PayToPubKeyHash
use ixcoin.Common.{
  ℕ, zero, suc, ◌+◌, List, [], ◌∷◌, ◌++◌, Bool, true, false, ◌&&◌, ◌||◌, not, ltb, ◌==◌,
  if◌then◌else◌, length, replicate, Option, none, some,
}
use ixcoin.Serialize.{Bytes}
use ixcoin.Hash.{HashLib, hash160}
use ixcoin.Script.Opcode.{Opcode, value}
use ixcoin.Script.Parse.{get_op, push_op, push_data}
use ixcoin.Script.Ops.Splice.{bytes_eq}
use mathlib.Core.List.{reverse}

-- `operator<<` of a `uint160`
abbrev pub push_uint160 : Bytes → Bytes
push_uint160 h = 20 ∷ h

-- `SetBitcoinAddress` of a hash and of a public key
unfoldable pub set_bitcoin_address : Bytes → Bytes
set_bitcoin_address h =
    push_op Opcode.op_dup
    ++ (push_op Opcode.op_hash160
        ++ (push_uint160 h ++ (push_op Opcode.op_equalverify ++ push_op Opcode.op_checksig)))

unfoldable pub set_bitcoin_address_of_key : HashLib → Bytes → Bytes
set_bitcoin_address_of_key h key = set_bitcoin_address (hash160 h key)
