-- ===== src/Script/Ops/Splice.antt =====
-- src/script.cpp: the splice operations and the bitwise logic. All but OP_SIZE, OP_EQUAL and
-- OP_EQUALVERIFY stand in the switch behind a test that turns every script with them down.
use ixcoin.Common.{
  ℕ, ◌-◌, [], ◌∷◌, ◌++◌, Bool, true, false, ◌&&◌, ltb, ◌==◌, if◌then◌else◌, length, take, drop,
  Option, none, some, map,
}
use ixcoin.Common.Int.{ℤ, pos, negsuc, ◌+ℤ◌}
use ixcoin.Common.Words.{wrap_int}
use ixcoin.Serialize.{Bytes}
use ixcoin.Bignum.{get_int, get_vch}
use ixcoin.Bignum.OpenSsl.{BnLib}
use ixcoin.Script.Machine.{of_bool, cast_to_big_num, make_same_size, max_element_size}
use ixcoin.Common.{◌>>=◌}
use ixcoin.Script.Ops.Stack.{Stack}
use Prim.Native.Nat.{min}

unfoldable pub cat : Stack → Option Stack
cat (x2 ∷ x1 ∷ s) = if ltb max_element_size (length (x1 ++ x2)) then none else some ((x1 ++ x2) ∷ s)
cat _ = none

-- The bytes from `nBegin` to `nEnd`, cut down to the size of the string.
sub_string : ℤ → ℤ → Bytes → Option Bytes
sub_string (negsuc _) e v = none
sub_string (pos b) (negsuc _) v = none
sub_string (pos b) (pos e) v =
    if ltb e b then none else some (drop (min b (length v)) (take (min e (length v)) v))

unfoldable pub substr : BnLib → Stack → Option Stack
unfolding sub_string
substr bn (size ∷ start ∷ v ∷ s) = do
  b ← cast_to_big_num bn start
  n ← cast_to_big_num bn size
  r ← sub_string (get_int bn b) (wrap_int (get_int bn b +ℤ get_int bn n)) v
  some (r ∷ s)
substr bn _ = none

side : Bool → ℤ → Bytes → Option Bytes
side left (negsuc _) v = none
side left (pos n) v =
    let k = min n (length v) in some (if left then take k v else drop (length v - k) v)

-- OP_LEFT and OP_RIGHT
unfoldable pub left_right : BnLib → Bool → Stack → Option Stack
unfolding side
left_right bn left (size ∷ v ∷ s) = do
  n ← cast_to_big_num bn size
  r ← side left (get_int bn n) v
  some (r ∷ s)
left_right bn left _ = none

unfoldable pub size : BnLib → Stack → Option Stack
size bn (v ∷ s) = some (get_vch bn (bn.set_word (length v)) ∷ v ∷ s)
size bn [] = none

-- `~vch[i]` of an unsigned char
unfoldable pub invert : Stack → Option Stack
invert (v ∷ s) = some (map (λ b. 255 - b) v ∷ s)
invert [] = none

-- OP_AND, OP_OR and OP_XOR by their operation on two bytes
zip_bytes : (ℕ → ℕ → ℕ) → Bytes → Bytes → Bytes
zip_bytes f (a ∷ v) (b ∷ w) = f a b ∷ zip_bytes f v w
zip_bytes f _ _ = []

unfoldable pub bitwise : (ℕ → ℕ → ℕ) → Stack → Option Stack
unfolding zip_bytes
bitwise f (x2 ∷ x1 ∷ s) = let (a, b) = make_same_size x1 x2 in some (zip_bytes f a b ∷ s)
bitwise f _ = none

unfoldable pub bytes_eq : Bytes → Bytes → Bool
bytes_eq [] [] = true
bytes_eq (a ∷ v) (b ∷ w) = a == b && bytes_eq v w
bytes_eq _ _ = false

-- A result that is left on the stack, or where the operation ends in VERIFY is taken off if it is
-- true and makes the script fail if not.
unfoldable pub verified : Bool → Bool → Stack → Option Stack
verified verify ok s = if verify then (if ok then some s else none) else some (of_bool ok ∷ s)

-- OP_EQUAL and OP_EQUALVERIFY
unfoldable pub equal : Bool → Stack → Option Stack
equal verify (x2 ∷ x1 ∷ s) = verified verify (bytes_eq x1 x2) s
equal verify _ = none
