-- ===== src/Bignum/Vch.antt =====
-- src/bignum.h: the byte vectors of numbers, from the laws of OpenSSL's format.
use ixcoin.Common.{
  ℕ, suc, ◌+◌, ◌^◌, ◌≤◌, ◌<◌, ◌≡◌, sym, ◌∙◌, ap, ◌++◌, length, drop, All, All-drop, All-reverse,
  length-drop, length-reverse, arith, not-ltb_of_le,
}
use ixcoin.Common.Int.{ℤ, pos_part, neg_part}
use ixcoin.Serialize.{Bytes, IsByte}
use ixcoin.Bignum.{set_vch, get_vch}
use ixcoin.Bignum.OpenSsl.{BnLib, BnLaws, be4}
use mathlib.Core.Path.{subst, ap₂}
use mathlib.Core.List.{reverse, reverse-reverse}
use native.Mathlib.Nat.{pow-suc}

module _ (bn : BnLib) (laws : BnLaws bn) where
  header_length : (z : ℤ) → 4 ≤ length (bn.bn2mpi z)
  header_length z = rw (laws.bn2mpi-header z) (omega arith)

  pub get_vch_lem : (z : ℤ) → get_vch bn z ≡ reverse (drop 4 (bn.bn2mpi z))
  unfolding get_vch
  get_vch_lem z = rw (not-ltb_of_le (length (bn.bn2mpi z)) 4 (header_length z))

  -- A number that was written as a byte vector is read back, of whatever size and sign.
  pub set_vch-get_vch : (z : ℤ) → set_vch bn (get_vch bn z) ≡ z
  unfolding set_vch
  set_vch-get_vch z =
      let m = drop 4 (bn.bn2mpi z) in
      ap (set_vch bn) (get_vch_lem z)
      ∙ ap₂ (λ n w. bn.mpi2bn (be4 n ++ w)) (length-reverse m) (reverse-reverse m)
      ∙ ap bn.mpi2bn (sym (laws.bn2mpi-header z))
      ∙ laws.mpi2bn-bn2mpi z

  -- A byte more than the number needs, for the sign.
  pub length-bn2mpi_le :
      (k : ℕ) (z : ℤ) → pos_part z + neg_part z < 256 ^ k → length (bn.bn2mpi z) ≤ 5 + k
  length-bn2mpi_le k z h =
      let p = pow-suc 256 k in omega (arith, laws.length-bn2mpi (suc k) z (omega arith))

  pub length-get_vch :
      (k : ℕ) (z : ℤ) → pos_part z + neg_part z < 256 ^ k → length (get_vch bn z) ≤ 1 + k
  length-get_vch k z h =
      rw (get_vch_lem z, length-reverse (drop 4 (bn.bn2mpi z)), length-drop 4 (bn.bn2mpi z))
        (omega (arith, length-bn2mpi_le k z h))

  pub get_vch-IsByte : (z : ℤ) → All IsByte (get_vch bn z)
  get_vch-IsByte z =
      rw (get_vch_lem z)
        (All-reverse IsByte (drop 4 (bn.bn2mpi z)) (All-drop IsByte 4 _ (laws.bn2mpi-IsByte z)))

  -- Four bytes hold a number of 31 bits and a sign.
  pub set_vch_lt :
      (v : Bytes)
      → length v ≤ 4
      → All IsByte v
      → pos_part (set_vch bn v) + neg_part (set_vch bn v) < 2 ^ 31
  unfolding set_vch
  set_vch_lt v h b =
      subst
        (λ n.
          pos_part (bn.mpi2bn (be4 n ++ reverse v)) + neg_part (bn.mpi2bn (be4 n ++ reverse v))
          < 2 ^ 31)
        (length-reverse v)
        (laws.mpi2bn_lt (reverse v) (rw (length-reverse v) h) (All-reverse IsByte v b))
