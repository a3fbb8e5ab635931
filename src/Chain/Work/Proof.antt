-- ===== src/Chain/Work/Proof.antt =====
-- src/main.cpp: which hashes `CheckProofOfWork` takes.
use ixcoin.Common.{ℕ, ◌≤◌, ◌<◌, ◌≡◌, arith}
use ixcoin.Common.Int.{pos}
use ixcoin.Bignum.{set_compact}
use ixcoin.Bignum.OpenSsl.{BnLib, BnLaws}
use ixcoin.Bignum.Words.{set_uint256_lem}
use ixcoin.Chain.Work.{max_target, proof_of_work_limit}

-- The compact number stands for a target in range, and the hash is not over it.
pub record IsWork (bn : BnLib) (hash bits : ℕ) : Type 0 where
  pub target : ℕ
  pub is_target : set_compact bn bits ≡ pos target
  pub positive : 0 < target
  pub in_range : target ≤ max_target
  pub reached : hash ≤ target

module _ (bn : BnLib) (laws : BnLaws bn) where
  pub limit_lem : proof_of_work_limit bn ≡ pos max_target
  unfolding proof_of_work_limit
  limit_lem = set_uint256_lem bn laws max_target (omega arith)
