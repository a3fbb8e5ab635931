-- ===== src/Bignum/Words.antt =====
-- `setuint256` and `getuint256` of src/bignum.h.
use ixcoin.Common.{
  ℕ, zero, suc, ◌+◌, ◌*◌, ◌/◌, ◌^◌, ◌<◌, ◌≡◌, refl, sym, ap, ◌∙◌, [], ◌∷◌, ◌++◌, false, length,
  take, drop, All, All-drop, All-reverse, length-append, length-reverse, length-drop, arith,
}
use mathlib.Core.List.{reverse, reverse-append, reverse-reverse}
use ixcoin.Common.Int.{pos}
use ixcoin.Serialize.{Bytes, IsByte, le_bytes, of_le_bytes}
use ixcoin.Serialize.RoundTrip.{length-le_bytes, of_le_bytes-le_bytes}
use ixcoin.Bignum.OpenSsl.{BnLib, BnLaws, be4, be_value, signed}
use ixcoin.Bignum.{unsigned, skip_zeros, set_uint256, get_uint256}
use ixcoin.Bignum.Ints.{
  mpi2bn-sign_first, be_value-skip_zeros, skip_zeros-IsByte, length-skip_zeros,
}
use ixcoin.Bignum.Vch.{length-bn2mpi_le}
use native.Mathlib.Nat.{pow-suc}

be_value-append : (v : Bytes) (b : ℕ) → be_value (v ++ b ∷ []) ≡ be_value v * 256 + b
unfolding be_value
be_value-append [] b = omega arith
be_value-append (a ∷ v) b =
    let e = pow-suc 256 (length v) in
    let l = length-append v (b ∷ []) in
    let p : 256 ^ length (v ++ b ∷ []) ≡ 256 * 256 ^ length v = rw l (grind arith) in
    rw p (grind (arith, be_value-append v b))

pub be_value-reverse : (v : Bytes) → be_value (reverse v) ≡ of_le_bytes v
unfolding of_le_bytes be_value
be_value-reverse [] = refl
be_value-reverse (b ∷ v) =
    ap be_value (reverse-append (b ∷ []) v)
    ∙ omega (arith, be_value-append (reverse v) b, be_value-reverse v)

pub le_bytes-IsByte : (k n : ℕ) → All IsByte (le_bytes k n)
unfolding le_bytes
le_bytes-IsByte zero n = tt
le_bytes-IsByte (suc k) n = (omega arith, le_bytes-IsByte k (n / 256))

-- Where the bytes behind the first `k` are no part of the number, those are all of it.
of_le_bytes-take :
    (k : ℕ) (v : Bytes) → of_le_bytes v < 256 ^ k → of_le_bytes (take k v) ≡ of_le_bytes v
unfolding of_le_bytes
of_le_bytes-take zero v h = omega arith
of_le_bytes-take (suc k) [] h = refl
of_le_bytes-take (suc k) (b ∷ v) h =
    let e = pow-suc 256 k in omega (arith, of_le_bytes-take k v (omega (arith, e, h)))

module _ (bn : BnLib) (laws : BnLaws bn) where
  pub set_uint256_lem : (n : ℕ) → n < 2 ^ 256 → set_uint256 bn n ≡ pos n
  unfolding set_uint256 signed
  set_uint256_lem n h =
      let v = reverse (le_bytes 32 n) in
      mpi2bn-sign_first bn laws false (skip_zeros v)
        (skip_zeros-IsByte v (All-reverse IsByte (le_bytes 32 n) (le_bytes-IsByte 32 n)))
        (omega (arith, length-skip_zeros v, length-reverse (le_bytes 32 n), length-le_bytes 32 n))
      ∙ ap pos
          (be_value-skip_zeros v ∙ be_value-reverse (le_bytes 32 n) ∙ of_le_bytes-le_bytes 32 n h)

  -- The bytes of a number behind the size hold the number.
  unsigned_value :
      (v : Bytes) (n : ℕ)
      → length v < 2 ^ 32
      → All IsByte v
      → bn.mpi2bn (be4 (length v) ++ v) ≡ pos n
      → be_value (unsigned v) ≡ n
  unfolding be_value signed
  unsigned_value [] n l h e = let q : pos 0 ≡ pos n = sym laws.mpi2bn_empty ∙ e in ground arith
  unsigned_value (b ∷ v) n l h e = let q = sym (laws.mpi2bn_lem b v l h) ∙ e in ground (arith, q)

  -- A number below 2 ^ 256 is read whole.
  pub get_uint256_lem : (n : ℕ) → n < 2 ^ 256 → get_uint256 bn (pos n) ≡ n
  unfolding get_uint256
  get_uint256_lem n h =
      let m = bn.bn2mpi (pos n) in
      let v = drop 4 m in
      let l : length v < 2 ^ 32 =
        omega (arith, length-drop 4 m, length-bn2mpi_le bn laws 32 (pos n) (omega (arith, h))) in
      let e : bn.mpi2bn (be4 (length v) ++ v) ≡ pos n =
        ap bn.mpi2bn (sym (laws.bn2mpi-header (pos n))) ∙ laws.mpi2bn-bn2mpi (pos n) in
      let u = unsigned_value v n l (All-drop IsByte 4 m (laws.bn2mpi-IsByte (pos n))) e in
      let r : of_le_bytes (reverse (unsigned v)) ≡ n =
        sym (be_value-reverse (reverse (unsigned v)))
        ∙ ap be_value (reverse-reverse (unsigned v))
        ∙ u in
      of_le_bytes-take 32 (reverse (unsigned v)) (omega (arith, r, h)) ∙ r
