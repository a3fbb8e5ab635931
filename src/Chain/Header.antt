-- ===== src/Chain/Header.antt =====
-- src/main.h: the header of a block.
use ixcoin.Common.{ℕ, suc, ◌/◌, ◌^◌, ◌++◌}
use ixcoin.Common.Int.{ℤ, pos, negsuc, ◌-ℤ◌}
use ixcoin.Serialize.{Bytes, le_bytes, write_int}
use ixcoin.Hash.{HashLib, hash}

pub record Header : Type 0 where
  pub version : ℤ
  pub hash_prev_block : ℕ
  pub hash_merkle_root : ℕ
  pub time : ℕ
  pub bits : ℕ
  pub nonce : ℕ

-- The bytes from `nVersion` to `nNonce`.
unfoldable pub write_header : Header → Bytes
write_header b =
    write_int b.version
    ++ le_bytes 32 b.hash_prev_block
    ++ le_bytes 32 b.hash_merkle_root
    ++ le_bytes 4 b.time
    ++ le_bytes 4 b.bits
    ++ le_bytes 4 b.nonce

unfoldable pub header_hash : HashLib → Header → ℕ
header_hash h b = hash h (write_header b)

abbrev pub block_version_chain_start : ℕ
block_version_chain_start = 2 ^ 16

-- `GetChainID`; the division of the source rounds to 0.
unfoldable pub get_chain_id : Header → ℤ
get_chain_id b = elim b.version [
  | pos n ↦ pos (n / block_version_chain_start)
  | negsuc n ↦ pos 0 -ℤ pos (suc n / block_version_chain_start)
]
