-- ===== src/Script/Ops/Numeric.antt =====
-- src/script.cpp: the numeric operations. Operands of more than four bytes are an exception.
use ixcoin.Common.{ℕ, [], ◌∷◌, Bool, ◌&&◌, ◌||◌, not as Bool_not, if◌then◌else◌, Option, none, some}
use ixcoin.Common.Int.{ℤ}
use ixcoin.Serialize.{Bytes}
use ixcoin.Bignum.{get_vch, shift_right}
use ixcoin.Bignum.OpenSsl.{BnLib}
use ixcoin.Script.Machine.{of_bool, cast_to_bool, cast_to_big_num}
use ixcoin.Common.{◌>>=◌}
use ixcoin.Script.Ops.Stack.{Stack}

pub data Unary : Type 0 where
  add1 sub1 mul2 div2 negate abs not zero_not_equal : Unary

pub data Binary : Type 0 where
  add sub mul div rem lshift rshift bool_and bool_or num_equal num_equal_verify num_not_equal :
      Binary
  less_than greater_than less_than_or_equal greater_than_or_equal min max : Binary

module _ (bn : BnLib) where
  -- `bn = (…)` with a truth value on the right
  unfoldable pub truth : Bool → ℤ
  truth b = bn.set_word (if b then 1 else 0)

  unfoldable pub bn_zero : ℤ
  bn_zero = bn.set_word 0

  unfoldable pub is_zero : ℤ → Bool
  is_zero z = bn.same z (bn.set_word 0)

  unfoldable pub apply_unary : Unary → ℤ → ℤ
  unfolding truth bn_zero is_zero
  apply_unary Unary.add1 z = bn.add z (bn.set_word 1)
  apply_unary Unary.sub1 z = bn.sub z (bn.set_word 1)
  apply_unary Unary.mul2 z = bn.lshift z 1
  apply_unary Unary.div2 z = shift_right bn z 1
  apply_unary Unary.negate z = bn.negated z
  apply_unary Unary.abs z = if bn.below z bn_zero then bn.negated z else z
  apply_unary Unary.not z = truth (is_zero z)
  apply_unary Unary.zero_not_equal z = truth (Bool_not (is_zero z))

  -- The shifts are by 0 to 2048 places.
  unfoldable pub shift_by : (ℤ → ℕ → ℤ) → ℤ → ℤ → Option ℤ
  shift_by f a b =
      if bn.below b (bn.set_word 0) || bn.below (bn.set_word 2048) b
      then none
      else some (f a (bn.get_word b))

  unfoldable pub apply_binary : Binary → ℤ → ℤ → Option ℤ
  unfolding truth is_zero shift_by
  apply_binary Binary.add a b = some (bn.add a b)
  apply_binary Binary.sub a b = some (bn.sub a b)
  apply_binary Binary.mul a b = some (bn.mul a b)
  apply_binary Binary.div a b = bn.div a b
  apply_binary Binary.rem a b = bn.rem a b
  apply_binary Binary.lshift a b = shift_by bn.lshift a b
  apply_binary Binary.rshift a b = shift_by (shift_right bn) a b
  apply_binary Binary.bool_and a b = some (truth (Bool_not (is_zero a) && Bool_not (is_zero b)))
  apply_binary Binary.bool_or a b = some (truth (Bool_not (is_zero a) || Bool_not (is_zero b)))
  apply_binary Binary.num_equal a b = some (truth (bn.same a b))
  apply_binary Binary.num_equal_verify a b = some (truth (bn.same a b))
  apply_binary Binary.num_not_equal a b = some (truth (Bool_not (bn.same a b)))
  apply_binary Binary.less_than a b = some (truth (bn.below a b))
  apply_binary Binary.greater_than a b = some (truth (bn.below b a))
  apply_binary Binary.less_than_or_equal a b = some (truth (Bool_not (bn.below b a)))
  apply_binary Binary.greater_than_or_equal a b = some (truth (Bool_not (bn.below a b)))
  apply_binary Binary.min a b = some (if bn.below a b then a else b)
  apply_binary Binary.max a b = some (if bn.below b a then a else b)

  unfoldable pub unary : Unary → Stack → Option Stack
  unary op (a ∷ s) = do z ← cast_to_big_num bn a; some (get_vch bn (apply_unary op z) ∷ s)
  unary op [] = none

  -- Of the results only that of OP_NUMEQUALVERIFY is taken off again, or makes the script fail.
  unfoldable pub finish : Binary → Bytes → Stack → Option Stack
  finish Binary.num_equal_verify r s = if cast_to_bool r then some s else none
  finish _ r s = some (r ∷ s)

  unfoldable pub binary : Binary → Stack → Option Stack
  unfolding finish
  binary op (x2 ∷ x1 ∷ s) = do
    a ← cast_to_big_num bn x1
    b ← cast_to_big_num bn x2
    r ← apply_binary op a b
    finish op (get_vch bn r) s
  binary op _ = none

  unfoldable pub within : Stack → Option Stack
  within (hi ∷ lo ∷ x ∷ s) = do
    a ← cast_to_big_num bn x
    b ← cast_to_big_num bn lo
    c ← cast_to_big_num bn hi
    some (of_bool (Bool_not (bn.below a b) && bn.below a c) ∷ s)
  within _ = none
