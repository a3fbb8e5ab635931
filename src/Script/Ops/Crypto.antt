-- ===== src/Script/Ops/Crypto.antt =====
-- src/script.cpp: the hashes and the signature checks.
use ixcoin.Common.{
  ℕ, suc, ◌+◌, List, [], ◌∷◌, Bool, true, false, ◌||◌, ltb, leb, if◌then◌else◌, length, take, drop,
  Option, none, some,
}
use ixcoin.Common.Int.{ℤ, pos, negsuc}
use ixcoin.Serialize.{Bytes}
use ixcoin.Bignum.{get_int}
use ixcoin.Hash.{HashLib, hash_bytes, hash160 as package_hash160}
use ixcoin.Script.Parse.{push_data, find_and_delete}
use ixcoin.Script.Machine.{Context, cast_to_big_num}
use ixcoin.Script.Sighash.{check_sig}
use ixcoin.Common.{◌>>=◌}
use ixcoin.Script.Ops.Stack.{Stack}
use ixcoin.Script.Ops.Splice.{verified}

pub data Digest : Type 0 where
  ripemd160 sha1 sha256 hash160 hash256 : Digest

unfoldable pub digest : HashLib → Digest → Bytes → Bytes
digest h Digest.ripemd160 v = h.ripemd160 v
digest h Digest.sha1 v = h.sha1 v
digest h Digest.sha256 v = h.sha256 v
digest h Digest.hash160 v = package_hash160 h v
digest h Digest.hash256 v = hash_bytes h v

unfoldable pub hash_top : HashLib → Digest → Stack → Option Stack
hash_top h d (v ∷ s) = some (digest h d v ∷ s)
hash_top h d [] = none

-- OP_CHECKSIG and OP_CHECKSIGVERIFY, with the script since the last separator
unfoldable pub check_sig_op : Context → Bool → Bytes → Stack → Option Stack
check_sig_op c verify code (key ∷ sig ∷ s) =
    verified verify (check_sig c sig key (find_and_delete (push_data sig) code)) s
check_sig_op c verify code _ = none

-- All signatures are taken out of the script before any is checked.
unfoldable pub drop_signatures : List Bytes → Bytes → Bytes
drop_signatures [] code = code
drop_signatures (sig ∷ sigs) code = drop_signatures sigs (find_and_delete (push_data sig) code)

-- The loop of OP_CHECKMULTISIG over the signatures and the keys that are left: a signature that is
-- good under the next key is done with, the key is used up in any case, and the loop gives up when
-- more signatures than keys are left.
unfoldable pub multisig_loop : (Bytes → Bytes → Bool) → List Bytes → List Bytes → Bool
multisig_loop good [] keys = true
multisig_loop good (sig ∷ sigs) [] = false
multisig_loop good (sig ∷ sigs) (key ∷ keys) =
    let left = if good sig key then sigs else sig ∷ sigs in
    let rest = multisig_loop good left keys in
    if ltb (length keys) (length left) then false else rest

-- A count on the stack: an integer from 0 to `limit`.
unfoldable pub count_up_to : ℕ → ℤ → Option ℕ
count_up_to limit (negsuc _) = none
count_up_to limit (pos n) = if ltb limit n then none else some n

-- Behind the keys: the count of the signatures, the signatures, and one value more, which is taken
-- off the stack though nothing reads it.
unfoldable pub multisig_tail : Context → Bool → Bytes → List Bytes → Stack → Option Stack
unfolding count_up_to
multisig_tail c verify code keys [] = none
multisig_tail c verify code keys (count ∷ s) = do
  z ← cast_to_big_num c.bn count
  n ← count_up_to (length keys) (get_int c.bn z)
  let sigs = take n s
  let code' = drop_signatures sigs code
  let ok = multisig_loop (λ sig key. check_sig c sig key code') sigs keys
  if leb (length s) n then none else verified verify ok (drop (suc n) s)

-- OP_CHECKMULTISIG and OP_CHECKMULTISIGVERIFY; the number of keys counts as so many operations.
unfoldable pub check_multisig_op : Context → Bool → Bytes → ℕ → Stack → Option (Stack × ℕ)
unfolding multisig_tail count_up_to
check_multisig_op c verify code ops [] = none
check_multisig_op c verify code ops (count ∷ s) = do
  z ← cast_to_big_num c.bn count
  n ← count_up_to 20 (get_int c.bn z)
  r ←
      (if ltb 201 (ops + n) || leb (length s) n
        then none
        else multisig_tail c verify code (take n s) (drop n s))
  some (r, ops + n)
