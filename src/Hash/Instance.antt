-- ===== src/Hash/Instance.antt =====
-- Concrete digests, which show that what is relied on of OpenSSL can hold.
use ixcoin.Serialize.{Bytes}
use ixcoin.Common.{ℕ, ◌+◌, ◌%◌, refl, [], ◌∷◌, length, replicate, arith}
use ixcoin.Hash.{HashLib, HashLaws}

-- Digests of the right size, which say how long the input was.
abbrev pub digests : HashLib
digests = record {
  sha256 = λ v. (if_byte (length v)) ∷ replicate 31 0;
  ripemd160 = λ v. (if_byte (length v)) ∷ replicate 19 2;
  sha1 = λ v. (if_byte (length v)) ∷ replicate 19 3;
}
  where
    if_byte : ℕ → ℕ
    if_byte n = n % 256

pub digests-laws : HashLaws digests
digests-laws = record {
  length-sha256 = λ v. refl;
  sha256-IsByte = λ v. ground arith;
  length-ripemd160 = λ v. refl;
  ripemd160-IsByte = λ v. ground arith;
  length-sha1 = λ v. refl;
  sha1-IsByte = λ v. ground arith;
}

abbrev pub sum_of : Bytes → ℕ
sum_of [] = 0
sum_of (b ∷ bs) = b + sum_of bs

-- Digests by the sum of the bytes, which tell more inputs apart.
abbrev pub sums : HashLib
sums = record {
  sha256 = λ v. (sum_of v % 256) ∷ replicate 31 0;
  ripemd160 = λ v. (sum_of v % 256) ∷ replicate 19 0;
  sha1 = λ v. (sum_of v % 256) ∷ replicate 19 0;
}
