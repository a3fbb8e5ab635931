-- ===== src/Bignum.antt =====
-- src/bignum.h: `CBigNum`, a wrapper of OpenSSL's BIGNUM. A BIGNUM stands for an integer; the functions
-- of OpenSSL are a parameter, and what is relied on of them is `BnLaws`, from OpenSSL's manual.
-- A failed allocation, which the source turns into an exception, does not occur.
pub mod OpenSsl
pub mod Instance
pub mod Vch
pub mod Ints
pub mod Words
mod Tests
use ixcoin.Common.{
  ℕ, ◌+◌, ◌-◌, ◌*◌, ◌/◌, ◌%◌, ◌^◌, ◌≤◌, ◌<◌, ◌≡◌, List, [], ◌∷◌, ◌++◌, Bool, true, false, not, ltb,
  leb, ◌==◌, if◌then◌else◌, length, get_or, drop, take, replicate, All, Option, none, some,
}
use ixcoin.Common.Int.{ℤ, pos, negsuc, ◌+ℤ◌, ◌-ℤ◌, ltb_ℤ, eqb_ℤ, pos_part, neg_part}
use ixcoin.Serialize.{le_bytes, Bytes, IsByte, of_le_bytes}
use ixcoin.Bignum.OpenSsl.{BnLib, be4}
use mathlib.Core.List.{reverse}

-- `vch[4] &= 0x7f`
abbrev unsigned : Bytes → Bytes
unsigned [] = []
unsigned (b ∷ bs) = (b % 128) ∷ bs

be8 : ℕ → Bytes
be8 n = (n / 2 ^ 56 % 256) ∷ (n / 2 ^ 48 % 256) ∷ (n / 2 ^ 40 % 256) ∷ (n / 2 ^ 32 % 256) ∷ be4 n

unfoldable pub skip_zeros : Bytes → Bytes
skip_zeros [] = []
skip_zeros (b ∷ bs) = if b == 0 then skip_zeros bs else b ∷ bs

pub sign_first : Bool → Bytes → Bytes
sign_first negative [] = []
sign_first negative (b ∷ bs) =
    if leb 128 b
    then (if negative then 128 else 0) ∷ b ∷ bs
    else (if negative then b + 128 else b) ∷ bs

module _ (bn : BnLib) where
  -- `setvch`: the bytes are stored lowest first.
  unfoldable pub set_vch : Bytes → ℤ
  set_vch v = bn.mpi2bn (be4 (length v) ++ reverse v)

  unfoldable pub get_vch : ℤ → Bytes
  get_vch z = let m = bn.bn2mpi z in if ltb (length m) 4 then [] else reverse (drop 4 m)

  -- `getint`
  unfoldable pub get_int : ℤ → ℤ
  get_int z =
      let n = bn.get_word z in
      if not (bn.is_negative z)
      then (if ltb (2 ^ 31 - 1) n then pos (2 ^ 31 - 1) else pos n)
      else if ltb (2 ^ 31 - 1) n
      then negsuc (2 ^ 31 - 1)
      else pos 0 -ℤ pos n

  -- `setint64`: the eight bytes of the magnitude from the first that is not 0 on, with the sign in the
  -- top bit of the first, or in a byte of its own where that bit is taken. The magnitude of the least
  -- `int64` is that of the wrapped `-n`, read as unsigned.
  unfoldable pub set_int64 : ℤ → ℤ
  unfolding be8 skip_zeros sign_first
  set_int64 z =
      let p = sign_first (ltb_ℤ z (pos 0)) (skip_zeros (be8 (pos_part z + neg_part z))) in
      bn.mpi2bn (be4 (length p) ++ p)

  -- `setuint256`
  unfoldable pub set_uint256 : ℕ → ℤ
  unfolding skip_zeros sign_first
  set_uint256 n =
      let p = sign_first false (skip_zeros (reverse (le_bytes 32 n))) in
      bn.mpi2bn (be4 (length p) ++ p)

  -- `CBigNum(int n)`
  unfoldable pub of_int : ℤ → ℤ
  of_int z = if ltb_ℤ z (pos 0) then set_int64 z else bn.set_word (pos_part z)

  -- `operator>>=`, with its guard against a shift past the number.
  unfoldable pub shift_right : ℤ → ℕ → ℤ
  shift_right z s =
      if bn.below z (bn.lshift (bn.set_word 1) s) then bn.set_word 0 else bn.rshift z s

  -- `SetCompact`: the top byte is the length, and the three others come first.
  unfoldable pub set_compact : ℕ → ℤ
  set_compact c =
      let size = c / 2 ^ 24 in
      let first = (c / 2 ^ 16 % 256) ∷ (c / 2 ^ 8 % 256) ∷ (c % 256) ∷ [] in
      bn.mpi2bn (be4 size ++ take size (first ++ replicate size 0))

  -- `GetCompact`: the bytes that are joined by `|` do not overlap.
  unfoldable pub get_compact : ℤ → ℕ
  get_compact z =
      let m = bn.bn2mpi z in
      let size = length m - 4 in
      size * 2 ^ 24 % 2 ^ 32
      + (if leb 1 size then get_or m 4 0 * 2 ^ 16 else 0)
      + (if leb 2 size then get_or m 5 0 * 2 ^ 8 else 0)
      + (if leb 3 size then get_or m 6 0 else 0)

  -- `getuint256`: the lowest 32 bytes of the magnitude.
  unfoldable pub get_uint256 : ℤ → ℕ
  get_uint256 z = of_le_bytes (take 32 (reverse (unsigned (drop 4 (bn.bn2mpi z)))))
