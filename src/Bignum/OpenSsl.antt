-- ===== src/Bignum/OpenSsl.antt =====
-- OpenSSL's BIGNUM as src/bignum.h calls it: the functions, and what its manual says of them.
use ixcoin.Common.{
  ℕ, ◌+◌, ◌-◌, ◌*◌, ◌/◌, ◌%◌, ◌^◌, ◌≤◌, ◌<◌, ◌≡◌, ◌==◌, [], ◌∷◌, ◌++◌, Bool, length, drop, All,
  Option, some, if◌then◌else◌,
}
use ixcoin.Common.Int.{ℤ, pos, negsuc, ◌+ℤ◌, ◌-ℤ◌, ◌*ℤ◌, ltb_ℤ, eqb_ℤ, pos_part, neg_part}
use ixcoin.Serialize.{Bytes, IsByte}

-- The functions of OpenSSL that the source calls.
pub record BnLib : Type 0 where
  pub mpi2bn : Bytes → ℤ
  pub bn2mpi : ℤ → Bytes
  pub set_word : ℕ → ℤ
  pub get_word : ℤ → ℕ
  pub is_negative : ℤ → Bool
  pub negated : ℤ → ℤ
  pub add : ℤ → ℤ → ℤ
  pub sub : ℤ → ℤ → ℤ
  pub mul : ℤ → ℤ → ℤ
  -- `none` is the failure of a division by zero.
  pub div : ℤ → ℤ → Option ℤ
  pub rem : ℤ → ℤ → Option ℤ
  pub lshift : ℤ → ℕ → ℤ
  pub rshift : ℤ → ℕ → ℤ
  -- `BN_cmp(a, b) < 0` and `BN_cmp(a, b) == 0`
  pub below : ℤ → ℤ → Bool
  pub same : ℤ → ℤ → Bool

-- The four bytes of a length, highest first.
abbrev pub be4 : ℕ → Bytes
be4 n = (n / 2 ^ 24 % 256) ∷ (n / 2 ^ 16 % 256) ∷ (n / 2 ^ 8 % 256) ∷ (n % 256) ∷ []

-- The number of the bytes, highest first.
unfoldable pub be_value : Bytes → ℕ
be_value [] = 0
be_value (b ∷ bs) = b * 256 ^ length bs + be_value bs

-- The number `n` with a sign, where 0 has none.
unfoldable pub signed : ℕ → ℕ → ℤ
signed sign n = if sign == 0 then pos n else if n == 0 then pos 0 else negsuc (n - 1)

-- What the manual says of the functions: words and sums are those of the integers, the byte format
-- is read back, and takes as many bytes as the number needs with a bit for its sign.
pub record BnLaws (bn : BnLib) : Type 0 where
  pub set_word_lem : (n : ℕ) → n < 2 ^ 32 → bn.set_word n ≡ pos n
  pub get_word_lem : (n : ℕ) → n < 2 ^ 32 → bn.get_word (pos n) ≡ n
  pub is_negative_lem : (z : ℤ) → bn.is_negative z ≡ ltb_ℤ z (pos 0)
  pub negated_lem : (z : ℤ) → bn.negated z ≡ pos 0 -ℤ z
  pub add_lem : (a b : ℤ) → bn.add a b ≡ a +ℤ b
  pub sub_lem : (a b : ℤ) → bn.sub a b ≡ a -ℤ b
  pub mul_lem : (a b : ℤ) → bn.mul a b ≡ a *ℤ b
  pub div_lem : (a b : ℕ) → 0 < b → bn.div (pos a) (pos b) ≡ some (pos (a / b))
  pub rem_lem : (a b : ℕ) → 0 < b → bn.rem (pos a) (pos b) ≡ some (pos (a % b))
  pub below_lem : (a b : ℤ) → bn.below a b ≡ ltb_ℤ a b
  pub same_lem : (a b : ℤ) → bn.same a b ≡ eqb_ℤ a b
  pub mpi2bn-bn2mpi : (z : ℤ) → bn.mpi2bn (bn.bn2mpi z) ≡ z
  pub bn2mpi-header :
      (z : ℤ) → bn.bn2mpi z ≡ be4 (length (drop 4 (bn.bn2mpi z))) ++ drop 4 (bn.bn2mpi z)
  pub bn2mpi-IsByte : (z : ℤ) → All IsByte (bn.bn2mpi z)
  pub length-bn2mpi :
      (k : ℕ) (z : ℤ) → 2 * (pos_part z + neg_part z) < 256 ^ k → length (bn.bn2mpi z) ≤ 4 + k
  pub mpi2bn_lt :
      (v : Bytes)
      → length v ≤ 4
      → All IsByte v
      → pos_part (bn.mpi2bn (be4 (length v) ++ v)) + neg_part (bn.mpi2bn (be4 (length v) ++ v))
        < 2 ^ 31
  pub mpi2bn_empty : bn.mpi2bn (be4 0) ≡ pos 0
  -- The top bit of the first byte is the sign.
  pub mpi2bn_lem :
      (b : ℕ) (v : Bytes)
      → length (b ∷ v) < 2 ^ 32
      → All IsByte (b ∷ v)
      → bn.mpi2bn (be4 (length (b ∷ v)) ++ b ∷ v) ≡ signed (b / 128) (be_value ((b % 128) ∷ v))
