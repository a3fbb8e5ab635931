-- ===== src/Base58/Address.antt =====
-- src/base58.h: the check behind the bytes, and the addresses.
use ixcoin.Common.{
  take-append, drop-append, ℕ, ◌-◌, ◌^◌, ◌<◌, ◌≡◌, refl, ap, ◌∙◌, [], ◌∷◌, ◌++◌, ◌==◌, Bool, true,
  false, not, ltb, length, take, All, All-append, All-take, some, arith, ◌>>=◌, >>=-some,
  length-append, length-take,
}
use ixcoin.Serialize.{Bytes, IsByte, le_bytes}
use ixcoin.Serialize.RoundTrip.{length-le_bytes, of_le_bytes-le_bytes}
use ixcoin.Bignum.OpenSsl.{BnLib, BnLaws}
use ixcoin.Bignum.Words.{le_bytes-IsByte}
use ixcoin.Hash.{HashLib, HashLaws, hash_bytes}
use ixcoin.Script.Ops.Splice.{bytes_eq}
use ixcoin.Base58.{
  encode_base58, decode_base58, encode_base58_check, checked, decode_base58_check, address_version,
  bitcoin_address_version, hash160_to_address, versioned, address_to_hash160,
}
use ixcoin.Base58.RoundTrip.{decode_base58-encode_base58}

bytes_eq_refl : (v : Bytes) → bytes_eq v v ≡ true
unfolding bytes_eq
bytes_eq_refl [] = refl
bytes_eq_refl (b ∷ v) = let e : (b == b) ≡ true = ground arith in rw e (bytes_eq_refl v)

module _ (bn : BnLib) (laws : BnLaws bn) (h : HashLib) (hash_laws : HashLaws h) where
  length-check : (v : Bytes) → length (take 4 (hash_bytes h v)) ≡ 4
  unfolding hash_bytes
  length-check v =
      omega (arith, length-take 4 (hash_bytes h v), hash_laws.length-sha256 (h.sha256 v))

  check-IsByte : (v : Bytes) → All IsByte (take 4 (hash_bytes h v))
  unfolding hash_bytes
  check-IsByte v = All-take IsByte 4 (hash_bytes h v) (hash_laws.sha256-IsByte (h.sha256 v))

  checked-append : (v : Bytes) → checked bn h (v ++ take 4 (hash_bytes h v)) ≡ some v
  unfolding checked
  checked-append v =
      let c = take 4 (hash_bytes h v) in
      let l = length-append v c in
      let k = length-check v in
      let e : length (v ++ c) - 4 ≡ length v = omega arith in
      let n : ltb (length (v ++ c)) 4 ≡ false = ground arith in
      rw (n, e, take-append v c, drop-append v c, bytes_eq_refl c) refl

  -- What `EncodeBase58Check` makes of a byte vector is read back by `DecodeBase58Check`.
  pub decode_base58_check-encode_base58_check :
      (v : Bytes)
      → length v < 2 ^ 30
      → All IsByte v
      → (encode_base58_check bn h v >>= decode_base58_check bn h) ≡ some v
  unfolding encode_base58_check decode_base58_check
  decode_base58_check-encode_base58_check v l p =
      let c = take 4 (hash_bytes h v) in
      let e =
        decode_base58-encode_base58 bn laws (v ++ c)
          (omega (arith, length-append v c, length-check v))
          (All-append IsByte v c p (check-IsByte v)) in
      let (s, es, ds) = >>=-some (encode_base58 bn (v ++ c)) (decode_base58 bn) (v ++ c) e in
      ap (λ t. t >>= (λ u. decode_base58 bn u >>= checked bn h)) es
      ∙ ap (λ t. t >>= checked bn h) ds
      ∙ checked-append v

  versioned_lem :
      (test_net : Bool) (ret key_hash : ℕ)
      → key_hash < 2 ^ 160
      → versioned bn h test_net ret (some (address_version test_net ∷ le_bytes 20 key_hash))
        ≡ (not test_net, key_hash)
  unfolding versioned address_version bitcoin_address_version
  versioned_lem true ret k l = rw (length-le_bytes 20 k, of_le_bytes-le_bytes 20 k l) refl
  versioned_lem false ret k l = rw (length-le_bytes 20 k, of_le_bytes-le_bytes 20 k l) refl

  -- On the main net `AddressToHash160` finds the hash in the address that `Hash160ToAddress` makes of
  -- it, and says that the address is valid. On the test net it finds the hash too, but says that the
  -- address is not valid.
  pub address_to_hash160-hash160_to_address :
      (test_net : Bool) (ret key_hash : ℕ)
      → key_hash < 2 ^ 160
      → (hash160_to_address bn h test_net key_hash
          >>= (λ s. some (address_to_hash160 bn h test_net s ret)))
        ≡ some (not test_net, key_hash)
  unfolding hash160_to_address address_to_hash160 address_version
  address_to_hash160-hash160_to_address test_net ret k l =
      let v = address_version test_net ∷ le_bytes 20 k in
      let e =
        decode_base58_check-encode_base58_check v (omega (arith, length-le_bytes 20 k))
          (version_lt test_net, le_bytes-IsByte 20 k) in
      let (s, es, ds) = >>=-some (encode_base58_check bn h v) (decode_base58_check bn h) v e in
      ap (λ t. t >>= (λ u. some (versioned bn h test_net ret (decode_base58_check bn h u)))) es
      ∙ ap (λ t. some (versioned bn h test_net ret t)) ds
      ∙ ap some (versioned_lem test_net ret k l)
    where
      version_lt : (t : Bool) → address_version t < 256
      version_lt true = omega arith
      version_lt false = omega arith
