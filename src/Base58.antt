-- ===== src/Base58.antt =====
-- src/base58.h: numbers in base 58, with a check, and the addresses. A C string is the list of the codes
-- before its NUL.
pub mod Digits
pub mod Loops
pub mod Trim
pub mod RoundTrip
pub mod Address
mod Tests
use ixcoin.Common.{
  ℕ, zero, suc, ◌+◌, ◌-◌, ◌*◌, List, [], ◌∷◌, ◌++◌, Bool, true, false, not, ◌&&◌, ◌||◌, ltb, leb,
  ◌==◌, if◌then◌else◌, length, get_or, take, drop, replicate, Option, none, some, ◌>>=◌,
}
use ixcoin.Common.Int.{ℤ, pos}
use ixcoin.Serialize.{Bytes, le_bytes, of_le_bytes}
use ixcoin.Bignum.{set_vch, get_vch, of_int}
use ixcoin.Bignum.OpenSsl.{BnLib}
use ixcoin.Hash.{HashLib, hash_bytes, hash160}
use ixcoin.Script.Ops.Splice.{bytes_eq}
use mathlib.Core.List.{reverse}

abbrev pub Chars : Type 0
Chars = List ℕ

-- "123456789ABCDEFGHJKLMNPQRSTUVWXYZabcdefghijkmnopqrstuvwxyz"
abbrev pub psz_base58 : Chars
psz_base58 =
    49 ∷ 50 ∷ 51 ∷ 52 ∷ 53 ∷ 54 ∷ 55 ∷ 56 ∷ 57 ∷ 65 ∷ 66 ∷ 67 ∷ 68 ∷ 69 ∷ 70 ∷ 71 ∷ 72 ∷ 74 ∷ 75
    ∷ 76 ∷ 77 ∷ 78 ∷ 80 ∷ 81 ∷ 82 ∷ 83 ∷ 84 ∷ 85 ∷ 86 ∷ 87 ∷ 88 ∷ 89 ∷ 90 ∷ 97 ∷ 98 ∷ 99 ∷ 100 ∷ 101
    ∷ 102 ∷ 103 ∷ 104 ∷ 105 ∷ 106 ∷ 107 ∷ 109 ∷ 110 ∷ 111 ∷ 112 ∷ 113 ∷ 114 ∷ 115 ∷ 116 ∷ 117 ∷ 118
    ∷ 119 ∷ 120 ∷ 121 ∷ 122 ∷ []

-- `isspace`
abbrev pub is_space : ℕ → Bool
is_space c = c == 32 || (leb 9 c && leb c 13)

-- `strchr`, as the index of what it points to.
unfoldable pub index_of : ℕ → Chars → Option ℕ
index_of c [] = none
index_of c (x ∷ xs) =
    let rest = index_of c xs in if x == c then some 0 else rest >>= (λ i. some (suc i))

unfoldable pub skip_spaces : Chars → Chars
skip_spaces [] = []
skip_spaces (c ∷ p) = let rest = skip_spaces p in if is_space c then rest else c ∷ p

-- How often an element stands at the front.
unfoldable pub count_leading : ℕ → List ℕ → ℕ
count_leading a [] = 0
count_leading a (x ∷ xs) = let rest = count_leading a xs in if x == a then suc rest else 0

-- The end of a string, behind the last digit: only spaces may stand there.
unfoldable pub end_of : ℤ → Chars → Option ℤ
end_of z [] = some z
end_of z (_ ∷ _) = none

-- "Trim off sign byte if present": the bytes are lowest first.
unfoldable pub trim_sign : Bytes → Bytes
trim_sign [] = []
trim_sign (a ∷ []) = a ∷ []
trim_sign (a ∷ b ∷ []) = if b == 0 && leb 128 a then a ∷ [] else a ∷ b ∷ []
trim_sign (a ∷ b ∷ c ∷ v) = a ∷ trim_sign (b ∷ c ∷ v)

-- The version bytes, by `fTestNet`: `BITCOIN_ADDRESSVERSION` and `ADDRESSVERSION`.
unfoldable pub bitcoin_address_version : Bool → ℕ
bitcoin_address_version test_net = if test_net then 111 else 0

unfoldable pub address_version : Bool → ℕ
address_version test_net = if test_net then 111 else 138

module _ (bn : BnLib) where
  -- The digits of a number, lowest first. `none` is the exception of a division that fails, and the
  -- end of the fuel.
  unfoldable pub encode_loop : ℕ → ℤ → Option Chars
  encode_loop zero z = none
  encode_loop (suc f) z =
      if not (bn.below (of_int bn (pos 0)) z)
      then some []
      else (bn.div z (of_int bn (pos 58)) >>= (λ dv. bn.rem z (of_int bn (pos 58)) >>= (λ rem.
          encode_loop f dv >>= (λ str. some (get_or psz_base58 (bn.get_word rem) 0 ∷ str)))))

  -- `EncodeBase58`. A byte takes two digits at most.
  unfoldable pub encode_base58 : Bytes → Option Chars
  encode_base58 v = do
    str ← encode_loop (suc (2 * length v)) (set_vch bn (reverse v ++ 0 ∷ []))
    some (reverse (str ++ replicate (count_leading 0 v) (get_or psz_base58 0 0)))

  unfoldable pub decode_loop : ℤ → Chars → Option ℤ
  decode_loop z [] = some z
  decode_loop z (c ∷ p) = elim (index_of c psz_base58) [
    | none ↦ end_of z (skip_spaces (c ∷ p))
    | some i ↦ decode_loop (bn.add (bn.mul z (of_int bn (pos 58))) (bn.set_word i)) p
  ]

  -- `DecodeBase58`: the bytes, or none where it returns false.
  unfoldable pub decode_base58 : Chars → Option Bytes
  decode_base58 s = do
    n ← decode_loop (of_int bn (pos 0)) (skip_spaces s)
    some (
        replicate (count_leading (get_or psz_base58 0 0) (skip_spaces s)) 0
        ++ reverse (trim_sign (get_vch bn n)))

  module _ (h : HashLib) where
    -- `EncodeBase58Check`
    unfoldable pub encode_base58_check : Bytes → Option Chars
    encode_base58_check v = encode_base58 (v ++ take 4 (hash_bytes h v))

    -- The bytes before the last four, where those are the check.
    unfoldable pub checked : Bytes → Option Bytes
    checked v =
        let n = length v - 4 in
        if ltb (length v) 4
        then none
        else if not (bytes_eq (take 4 (hash_bytes h (take n v))) (drop n v))
        then none
        else some (take n v)

    -- `DecodeBase58Check`
    unfoldable pub decode_base58_check : Chars → Option Bytes
    decode_base58_check s = decode_base58 s >>= checked

    -- `Hash160ToAddress`
    unfoldable pub hash160_to_address : Bool → ℕ → Option Chars
    hash160_to_address test_net key_hash =
        encode_base58_check (address_version test_net ∷ le_bytes 20 key_hash)

    -- The answer of `AddressToHash160` by the bytes of the address, and what `hash160Ret` holds then.
    unfoldable pub versioned : Bool → ℕ → Option Bytes → Bool × ℕ
    versioned test_net ret none = (false, ret)
    versioned test_net ret (some []) = (false, ret)
    versioned test_net ret (some (version ∷ v)) = if not (length v == 20) then (false, ret) else (
      not (version == bitcoin_address_version test_net) && leb version (address_version test_net),
      of_le_bytes v,
    )

    -- `AddressToHash160`
    unfoldable pub address_to_hash160 : Bool → Chars → ℕ → Bool × ℕ
    address_to_hash160 test_net s ret = versioned test_net ret (decode_base58_check s)

    -- `IsValidBitcoinAddress`
    unfoldable pub is_valid_bitcoin_address : Bool → Chars → Bool
    is_valid_bitcoin_address test_net s = let (valid, _) = address_to_hash160 test_net s 0 in valid

    -- `PubKeyToAddress`
    unfoldable pub pub_key_to_address : Bool → Bytes → Option Chars
    pub_key_to_address test_net key = hash160_to_address test_net (of_le_bytes (hash160 h key))
