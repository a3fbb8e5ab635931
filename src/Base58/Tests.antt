-- ===== src/Base58/Tests.antt =====
-- Runs of src/base58.h, and the theorems at concrete inputs.
use ixcoin.Common.Int.{◌+ℤ◌, ◌*ℤ◌}
use ixcoin.Bignum.{of_int, set_vch, get_vch}
use ixcoin.Common.{◌≡◌, refl, [], ◌∷◌, true, not, none, some, arith, ◌>>=◌}
use ixcoin.Bignum.Instance.{simple, simple-laws, unseal, payload}
use ixcoin.Hash.Instance.{digests, digests-laws}
use ixcoin.Serialize.{Bytes}
use ixcoin.Base58.{
  encode_base58, decode_base58, hash160_to_address, address_to_hash160, encode_loop, count_leading,
  decode_loop, skip_spaces, index_of, end_of, trim_sign,
}
use ixcoin.Base58.RoundTrip.{decode_base58-encode_base58}
use ixcoin.Base58.Address.{address_to_hash160-hash160_to_address}

-- Two zeros and 0x0102 = 4 * 58 + 26.
abbrev zeros_first : Bytes
zeros_first = 0 ∷ 0 ∷ 1 ∷ 2 ∷ []

encoded : encode_base58 simple zeros_first ≡ some (49 ∷ 49 ∷ 53 ∷ 84 ∷ [])
unfolding encode_base58 encode_loop of_int set_vch unseal count_leading
encoded = refl

-- A space in front and behind is skipped; one between is not.
spaced : decode_base58 simple (32 ∷ 49 ∷ 49 ∷ 53 ∷ 84 ∷ 32 ∷ []) ≡ some zeros_first
unfolding decode_base58 decode_loop skip_spaces index_of end_of count_leading trim_sign get_vch
    payload ◌+ℤ◌ ◌*ℤ◌ of_int
spaced = refl

split_by_space : decode_base58 simple (49 ∷ 32 ∷ 53 ∷ []) ≡ none
unfolding decode_base58 decode_loop skip_spaces index_of end_of
split_by_space = refl

-- The letter l is not of the alphabet.
foreign : decode_base58 simple (49 ∷ 108 ∷ []) ≡ none
unfolding decode_base58 decode_loop skip_spaces index_of end_of
foreign = refl

decode_base58-encode_base58_example :
    (encode_base58 simple zeros_first >>= decode_base58 simple) ≡ some zeros_first
decode_base58-encode_base58_example =
    decode_base58-encode_base58 simple simple-laws zeros_first (omega arith)
      (omega arith, (omega arith, (omega arith, (omega arith, tt))))

address_to_hash160-hash160_to_address_example :
    (hash160_to_address simple digests true 77
      >>= (λ s. some (address_to_hash160 simple digests true s 0)))
    ≡ some (not true, 77)
address_to_hash160-hash160_to_address_example =
    address_to_hash160-hash160_to_address simple simple-laws digests digests-laws true 0 77
      (omega arith)
