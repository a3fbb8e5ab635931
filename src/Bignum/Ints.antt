-- ===== src/Bignum/Ints.antt =====
-- What number `setint64` and the constructors from an integer make.
use ixcoin.Common.{
  ℕ, ◌+◌, ◌/◌, ◌%◌, ◌^◌, ◌≤◌, ◌<◌, ◌≡◌, refl, ap, ◌∙◌, [], ◌∷◌, ◌++◌, Bool, true, false, leb, ◌==◌,
  if◌then◌else◌, length, All, arith, Bool-cases, inl, inr,
}
use ixcoin.Common.Int.{ℤ, pos, negsuc, ltb_ℤ, pos_part, neg_part}
use ixcoin.Common.Words.{IsInt64}
use ixcoin.Serialize.{Bytes, IsByte}
use ixcoin.Bignum.OpenSsl.{BnLib, BnLaws, be4, be_value, signed}
use ixcoin.Bignum.{be8, skip_zeros, sign_first, set_int64}

pub be_value-skip_zeros : (v : Bytes) → be_value (skip_zeros v) ≡ be_value v
unfolding skip_zeros be_value
be_value-skip_zeros [] = refl
be_value-skip_zeros (b ∷ v) = elim (Bool-cases (b == 0)) [
  | inl e ↦ let z : b ≡ 0 = ground arith in rw (e, z) (omega (arith, be_value-skip_zeros v))
  | inr e ↦ rw e
]

pub skip_zeros-IsByte : (v : Bytes) → All IsByte v → All IsByte (skip_zeros v)
unfolding skip_zeros
skip_zeros-IsByte [] h = h
skip_zeros-IsByte (b ∷ v) (h, hs) = elim (Bool-cases (b == 0)) [
  | inl e ↦ rw e (skip_zeros-IsByte v hs)
  | inr e ↦ rw e (h, hs)
]

pub length-skip_zeros : (v : Bytes) → length (skip_zeros v) ≤ length v
unfolding skip_zeros
length-skip_zeros [] = omega arith
length-skip_zeros (b ∷ v) = ground (arith, length-skip_zeros v)

be_value-be8 : (n : ℕ) → n < 2 ^ 64 → be_value (be8 n) ≡ n
unfolding be8 be_value
be_value-be8 n h = omega arith

length-be8 : (n : ℕ) → length (be8 n) ≡ 8
unfolding be8
length-be8 n = refl

be8-IsByte : (n : ℕ) → All IsByte (be8 n)
unfolding be8
be8-IsByte n = (
  omega arith,
  (
    omega arith,
    (omega arith, (omega arith, (omega arith, (omega arith, (omega arith, (omega arith, tt)))))),
  ),
)

signed_lem : (z : ℤ) → signed (if ltb_ℤ z (pos 0) then 1 else 0) (pos_part z + neg_part z) ≡ z
unfolding signed
signed_lem (pos n) = ground arith
signed_lem (negsuc n) = ground arith

zero_first : (b : ℕ) (v : Bytes) → be_value (0 ∷ b ∷ v) ≡ be_value (b ∷ v)
unfolding be_value
zero_first b v = omega arith

module _ (bn : BnLib) (laws : BnLaws bn) where
  pub mpi2bn-sign_first :
      (negative : Bool) (v : Bytes)
      → All IsByte v
      → length v < 2 ^ 31
      → bn.mpi2bn (be4 (length (sign_first negative v)) ++ sign_first negative v)
        ≡ signed (if negative then 1 else 0) (be_value v)
  unfolding sign_first be_value signed
  mpi2bn-sign_first negative [] h l = laws.mpi2bn_empty ∙ ground arith
  mpi2bn-sign_first true (b ∷ v) (h, hs) l = elim (Bool-cases (leb 128 b)) [
    | inl e ↦ rw e (
        laws.mpi2bn_lem 128 (b ∷ v) (omega arith) (omega arith, (h, hs))
        ∙ ap (signed 1) (zero_first b v))
    | inr e ↦
        let q : (b + 128) / 128 ≡ 1 = ground arith in
        let r : (b + 128) % 128 ≡ b = ground arith in
        rw e (laws.mpi2bn_lem (b + 128) v (omega arith) (ground arith, hs) ∙ rw (q, r))
  ]
  mpi2bn-sign_first false (b ∷ v) (h, hs) l = elim (Bool-cases (leb 128 b)) [
    | inl e ↦ rw e (
        laws.mpi2bn_lem 0 (b ∷ v) (omega arith) (omega arith, (h, hs))
        ∙ ap (signed 0) (zero_first b v))
    | inr e ↦
        let q : b / 128 ≡ 0 = ground arith in
        let r : b % 128 ≡ b = ground arith in
        rw e (laws.mpi2bn_lem b v (omega arith) (h, hs) ∙ rw (q, r))
  ]

  -- `setint64` makes the number that it is given, also for the least `int64`.
  pub set_int64_lem : (z : ℤ) → IsInt64 z → set_int64 bn z ≡ z
  unfolding set_int64
  set_int64_lem z h =
      let n = pos_part z + neg_part z in
      let k : n < 2 ^ 64 = size z h in
      mpi2bn-sign_first (ltb_ℤ z (pos 0)) (skip_zeros (be8 n))
        (skip_zeros-IsByte (be8 n) (be8-IsByte n))
        (omega (arith, length-skip_zeros (be8 n), length-be8 n))
      ∙ ap (signed (if ltb_ℤ z (pos 0) then 1 else 0))
          (be_value-skip_zeros (be8 n) ∙ be_value-be8 n k)
      ∙ signed_lem z
    where
      size : (y : ℤ) → IsInt64 y → pos_part y + neg_part y < 2 ^ 64
      size (pos n) h = omega arith
      size (negsuc n) h = omega arith
