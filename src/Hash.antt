-- ===== src/Hash.antt =====
-- src/util.h: the hashes that the node uses. SHA-256, SHA-1 and RIPEMD-160 are OpenSSL's, a parameter.
pub mod Instance
use ixcoin.Common.{ℕ, ◌≡◌, ◌++◌, length, All}
use ixcoin.Serialize.{Bytes, IsByte, le_bytes, of_le_bytes}

pub record HashLib : Type 0 where
  pub sha256 : Bytes → Bytes
  pub ripemd160 : Bytes → Bytes
  pub sha1 : Bytes → Bytes

-- The digests are of 32 and 20 bytes.
pub record HashLaws (h : HashLib) : Type 0 where
  pub length-sha256 : (v : Bytes) → length (h.sha256 v) ≡ 32
  pub sha256-IsByte : (v : Bytes) → All IsByte (h.sha256 v)
  pub length-ripemd160 : (v : Bytes) → length (h.ripemd160 v) ≡ 20
  pub ripemd160-IsByte : (v : Bytes) → All IsByte (h.ripemd160 v)
  pub length-sha1 : (v : Bytes) → length (h.sha1 v) ≡ 20
  pub sha1-IsByte : (v : Bytes) → All IsByte (h.sha1 v)

module _ (h : HashLib) where
  -- `Hash`, as the bytes of the `uint256` and as its number.
  unfoldable pub hash_bytes : Bytes → Bytes
  hash_bytes v = h.sha256 (h.sha256 v)

  unfoldable pub hash : Bytes → ℕ
  hash v = of_le_bytes (hash_bytes v)

  -- `Hash` of two ranges, which are two `uint256` where the source calls it.
  unfoldable pub hash_pair : ℕ → ℕ → ℕ
  hash_pair a b = hash (le_bytes 32 a ++ le_bytes 32 b)

  unfoldable pub hash160 : Bytes → Bytes
  hash160 v = h.ripemd160 (h.sha256 v)
