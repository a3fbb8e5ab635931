-- ===== src/Base58/Trim.antt =====
-- The bytes that `DecodeBase58` in src/base58.h makes of a number, without the byte for its sign.
use ixcoin.Common.{
  ℕ, suc, ◌+◌, ◌*◌, ◌/◌, ◌%◌, ◌^◌, ◌≤◌, ◌<◌, ◌≡◌, refl, sym, ap, ◌∙◌, [], ◌∷◌, ◌++◌, true, false,
  leb, ◌==◌, length, drop, All, All-drop, All-reverse, arith, dec_lt, Bool-cases, inl, inr,
  length-drop,
}
use ixcoin.Common.Int.{pos}
use ixcoin.Serialize.{Bytes, IsByte, of_le_bytes}
use ixcoin.Bignum.{get_vch, skip_zeros}
use ixcoin.Bignum.OpenSsl.{BnLib, BnLaws, be4, be_value, signed}
use ixcoin.Bignum.Vch.{get_vch_lem}
use ixcoin.Base58.{trim_sign}
use ixcoin.Bignum.Words.{be_value-reverse}
use ixcoin.Bignum.Instance.{be_value_lt, mul_le}
use mathlib.Core.Path.{subst}
use mathlib.Core.List.{reverse, reverse-append, reverse-reverse, append_assoc}
use native.Mathlib.Nat.{pow-suc}

-- The last byte, which is the highest, is not 0.
abbrev pub IsTight : Bytes → Type 0
IsTight [] = Unit
IsTight (b ∷ []) = 0 < b
IsTight (b ∷ c ∷ v) = IsTight (c ∷ v)

pub IsTight-last : (v : Bytes) (b : ℕ) → 0 < b → IsTight (v ++ b ∷ [])
IsTight-last [] b h = h
IsTight-last (a ∷ []) b h = h
IsTight-last (a ∷ c ∷ v) b h = IsTight-last (c ∷ v) b h

tight_pos : (b : ℕ) (v : Bytes) → IsTight (b ∷ v) → 0 < of_le_bytes (b ∷ v)
unfolding of_le_bytes
tight_pos b [] h = omega arith
tight_pos b (c ∷ v) h = omega (arith, tight_pos c v h)

IsTight-tail : (b : ℕ) (v : Bytes) → IsTight (b ∷ v) → IsTight v
IsTight-tail b [] h = tt
IsTight-tail b (c ∷ v) h = h

-- A number has one list of bytes with no zero on top.
pub tight_unique :
    (v w : Bytes)
    → All IsByte v
    → All IsByte w
    → IsTight v
    → IsTight w
    → of_le_bytes v ≡ of_le_bytes w
    → v ≡ w
unfolding of_le_bytes
tight_unique [] [] p q h k e = refl
tight_unique [] (c ∷ w) p q h k e = elim (n (tight_pos c w k)) [ ]
  where
    n : 0 < of_le_bytes (c ∷ w) → ⊥
    n t = omega arith
tight_unique (b ∷ v) [] p q h k e = elim (n (tight_pos b v h)) [ ]
  where
    n : 0 < of_le_bytes (b ∷ v) → ⊥
    n t = omega arith
tight_unique (b ∷ v) (c ∷ w) (p, ps) (q, qs) h k e =
    let head : b ≡ c = omega arith in
    let tail = tight_unique v w ps qs (IsTight-tail b v h) (IsTight-tail c w k) (omega arith) in cc

trim_sign-last : (v : Bytes) (b : ℕ) → 0 < b → trim_sign (v ++ b ∷ []) ≡ v ++ b ∷ []
unfolding trim_sign
trim_sign-last [] b h = refl
trim_sign-last (a ∷ []) b h = let e : (b == 0) ≡ false = ground arith in rw e refl
trim_sign-last (a ∷ c ∷ []) b h = ap (λ t. a ∷ t) (trim_sign-last (c ∷ []) b h)
trim_sign-last (a ∷ c ∷ d ∷ v) b h = ap (λ t. a ∷ t) (trim_sign-last (c ∷ d ∷ v) b h)

trim_sign-sign : (v : Bytes) (b : ℕ) → 128 ≤ b → trim_sign (v ++ b ∷ 0 ∷ []) ≡ v ++ b ∷ []
unfolding trim_sign
trim_sign-sign [] b h = let e : leb 128 b ≡ true = ground arith in rw e refl
trim_sign-sign (a ∷ []) b h = ap (λ t. a ∷ t) (trim_sign-sign [] b h)
trim_sign-sign (a ∷ c ∷ []) b h = ap (λ t. a ∷ t) (trim_sign-sign (c ∷ []) b h)
trim_sign-sign (a ∷ c ∷ d ∷ v) b h = ap (λ t. a ∷ t) (trim_sign-sign (c ∷ d ∷ v) b h)

reverse-cons : (b : ℕ) (v : Bytes) → reverse (b ∷ v) ≡ reverse v ++ b ∷ []
reverse-cons b v = reverse-append (b ∷ []) v

pub skip_zeros-IsTight : (v : Bytes) → IsTight (reverse (skip_zeros v))
unfolding skip_zeros
skip_zeros-IsTight [] = tt
skip_zeros-IsTight (b ∷ v) = elim (Bool-cases (b == 0)) [
  | inl e ↦ rw e (skip_zeros-IsTight v)
  | inr e ↦ rw (e, reverse-cons b v) (IsTight-last (reverse v) b (ground arith))
]

-- What is left of the bytes of a positive number when the byte for its sign is off.
abbrev pub IsTrimmed : ℕ → Bytes → Type 0
IsTrimmed n v = IsTight v × All IsByte v × (of_le_bytes v ≡ n)

pub of_le_bytes-reverse : (p : Bytes) → of_le_bytes (reverse p) ≡ be_value p
of_le_bytes-reverse p = sym (be_value-reverse (reverse p)) ∙ ap be_value (reverse-reverse p)

reversed :
    (n b : ℕ) (v : Bytes)
    → 0 < b
    → All IsByte (b ∷ v)
    → be_value (b ∷ v) ≡ n
    → IsTrimmed n (reverse (b ∷ v))
reversed n b v h p e = (
  subst IsTight (sym (reverse-cons b v)) (IsTight-last (reverse v) b h),
  All-reverse IsByte (b ∷ v) p,
  of_le_bytes-reverse (b ∷ v) ∙ e,
)

kept : (b : ℕ) (v : Bytes) → 0 < b → trim_sign (reverse (b ∷ v)) ≡ reverse (b ∷ v)
kept b v h =
    ap trim_sign (reverse-cons b v) ∙ trim_sign-last (reverse v) b h ∙ sym (reverse-cons b v)

cut : (c : ℕ) (u : Bytes) → 128 ≤ c → trim_sign (reverse (0 ∷ c ∷ u)) ≡ reverse (c ∷ u)
cut c u h =
    ap trim_sign (
      reverse-cons 0 (c ∷ u)
      ∙ ap (λ t. t ++ 0 ∷ []) (reverse-cons c u)
      ∙ append_assoc (reverse u) (c ∷ []) (0 ∷ []))
    ∙ trim_sign-sign (reverse u) c h
    ∙ sym (reverse-cons c u)

-- A byte for the sign is there only where the next byte takes its top bit.
signed_byte :
    (n c : ℕ) (u : Bytes)
    → All IsByte (c ∷ u)
    → be_value (c ∷ u) ≡ n
    → ((k : ℕ) → 2 * n < 256 ^ k → suc (suc (length u)) ≤ k)
    → 128 ≤ c
unfolding be_value
signed_byte n c u (h, hs) e s = elim (dec_lt c 128) [
  | yes t ↦
      let v = be_value_lt u hs in
      let p = pow-suc 256 (length u) in
      let m : c * 256 ^ length u ≤ 127 * 256 ^ length u =
        mul_le c 127 (256 ^ length u) (omega arith) in
      omega (arith, s (suc (length u)) (omega arith))
  | no t ↦ omega arith
]

-- The bytes of `BN_bn2mpi` behind the size, highest first.
trim_sign-IsTrimmed :
    (n : ℕ) (p : Bytes)
    → All IsByte p
    → (be_value p ≡ n)
    → ((k : ℕ) → 2 * n < 256 ^ k → length p ≤ k)
    → IsTrimmed n (trim_sign (reverse p))
unfolding be_value of_le_bytes trim_sign
trim_sign-IsTrimmed n [] h e s = (tt, tt, e)
trim_sign-IsTrimmed n (b ∷ []) (h, hs) e s = elim (dec_lt 0 b) [
  | yes t ↦ (t, (h, tt), omega arith)
  | no t ↦ elim (one (omega (arith, s 0))) [ ]
]
  where
    one : 1 ≤ 0 → ⊥
    one k = omega arith
trim_sign-IsTrimmed n (b ∷ c ∷ u) (h, hs) e s = elim (dec_lt 0 b) [
  | yes t ↦ subst (IsTrimmed n) (sym (kept b (c ∷ u) t)) (reversed n b (c ∷ u) t (h, hs) e)
  | no t ↦
      let z : b ≡ 0 = omega arith in
      let e' : be_value (c ∷ u) ≡ n = omega (arith, rw z at e) in
      let big : 128 ≤ c = signed_byte n c u hs e' s in
      subst (IsTrimmed n) (sym (ap (λ a. trim_sign (reverse (a ∷ c ∷ u))) z ∙ cut c u big))
        (reversed n c u (omega arith) hs e')
]

module _ (bn : BnLib) (laws : BnLaws bn) where
  payload_value :
      (n : ℕ) (p : Bytes)
      → length p < 2 ^ 32
      → All IsByte p
      → bn.mpi2bn (be4 (length p) ++ p) ≡ pos n
      → ((k : ℕ) → 2 * n < 256 ^ k → length p ≤ k)
      → be_value p ≡ n
  unfolding be_value signed
  payload_value n [] l h e s = let q : pos 0 ≡ pos n = sym laws.mpi2bn_empty ∙ e in ground arith
  payload_value n (b ∷ v) l h e s = elim (dec_lt b 128) [
    | yes t ↦
        let z : b / 128 ≡ 0 = omega arith in
        let r : b % 128 ≡ b = omega arith in
        let q = sym (laws.mpi2bn_lem b v l h) ∙ e in
        let q' : pos (b * 256 ^ length v + be_value v) ≡ pos n = rw (z, r) at q in ground arith
    | no t ↦
        let q = sym (laws.mpi2bn_lem b v l h) ∙ e in
        let z : n ≡ 0 = ground (arith, q) in
        let c : 1 ≤ 0 = omega (arith, s 0 (omega arith)) in elim (none_of c) [ ]
  ]
    where
      none_of : 1 ≤ 0 → ⊥
      none_of k = omega arith

  -- The bytes of a number that fits a byte vector, without the byte for the sign.
  pub trim_sign-get_vch :
      (j n : ℕ) → j < 2 ^ 31 → n < 256 ^ j → IsTrimmed n (trim_sign (get_vch bn (pos n)))
  trim_sign-get_vch j n hj h =
      let m = bn.bn2mpi (pos n) in
      let p = drop 4 m in
      let s : (k : ℕ) → 2 * n < 256 ^ k → length p ≤ k =
        λ k t. omega (arith, length-drop 4 m, laws.length-bn2mpi k (pos n) (omega arith)) in
      let b = All-drop IsByte 4 m (laws.bn2mpi-IsByte (pos n)) in
      let e : bn.mpi2bn (be4 (length p) ++ p) ≡ pos n =
        ap bn.mpi2bn (sym (laws.bn2mpi-header (pos n))) ∙ laws.mpi2bn-bn2mpi (pos n) in
      let l : length p < 2 ^ 32 = omega (arith, s (suc j) (let q = pow-suc 256 j in omega arith)) in
      subst (IsTrimmed n) (sym (ap trim_sign (get_vch_lem bn laws (pos n))))
        (trim_sign-IsTrimmed n p b (payload_value n p l b e s) s)
