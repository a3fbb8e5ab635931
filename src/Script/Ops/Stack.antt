-- ===== src/Script/Ops/Stack.antt =====
-- src/script.cpp: the stack operations, each on the stack with its top first.
use ixcoin.Common.{◌>>=◌}
use ixcoin.Common.{
  ℕ, suc, List, [], ◌∷◌, ◌++◌, Bool, leb, if◌then◌else◌, length, take, drop, get_elem?, Option,
  none, some,
}
use ixcoin.Common.Int.{ℤ, pos, negsuc}
use ixcoin.Serialize.{Bytes}
use ixcoin.Bignum.{get_int, get_vch}
use ixcoin.Bignum.OpenSsl.{BnLib}
use ixcoin.Script.Machine.{cast_to_bool, cast_to_big_num}

abbrev pub Stack : Type 0
Stack = List Bytes

unfoldable pub to_alt_stack : Stack → Stack → Option (Stack × Stack)
to_alt_stack (a ∷ s) alt = some (s, a ∷ alt)
to_alt_stack [] alt = none

unfoldable pub from_alt_stack : Stack → Stack → Option (Stack × Stack)
from_alt_stack s (a ∷ alt) = some (a ∷ s, alt)
from_alt_stack s [] = none

unfoldable pub two_drop : Stack → Option Stack
two_drop (_ ∷ _ ∷ s) = some s
two_drop _ = none

unfoldable pub two_dup : Stack → Option Stack
two_dup (x2 ∷ x1 ∷ s) = some (x2 ∷ x1 ∷ x2 ∷ x1 ∷ s)
two_dup _ = none

unfoldable pub three_dup : Stack → Option Stack
three_dup (x3 ∷ x2 ∷ x1 ∷ s) = some (x3 ∷ x2 ∷ x1 ∷ x3 ∷ x2 ∷ x1 ∷ s)
three_dup _ = none

unfoldable pub two_over : Stack → Option Stack
two_over (x4 ∷ x3 ∷ x2 ∷ x1 ∷ s) = some (x2 ∷ x1 ∷ x4 ∷ x3 ∷ x2 ∷ x1 ∷ s)
two_over _ = none

unfoldable pub two_rot : Stack → Option Stack
two_rot (x6 ∷ x5 ∷ x4 ∷ x3 ∷ x2 ∷ x1 ∷ s) = some (x2 ∷ x1 ∷ x6 ∷ x5 ∷ x4 ∷ x3 ∷ s)
two_rot _ = none

unfoldable pub two_swap : Stack → Option Stack
two_swap (x4 ∷ x3 ∷ x2 ∷ x1 ∷ s) = some (x2 ∷ x1 ∷ x4 ∷ x3 ∷ s)
two_swap _ = none

unfoldable pub if_dup : Stack → Option Stack
if_dup (x ∷ s) = if cast_to_bool x then some (x ∷ x ∷ s) else some (x ∷ s)
if_dup [] = none

-- `CBigNum bn(stack.size())`
unfoldable pub depth : BnLib → Stack → Option Stack
depth bn s = some (get_vch bn (bn.set_word (length s)) ∷ s)

unfoldable pub drop_top : Stack → Option Stack
drop_top (_ ∷ s) = some s
drop_top [] = none

unfoldable pub dup : Stack → Option Stack
dup (x ∷ s) = some (x ∷ x ∷ s)
dup [] = none

unfoldable pub nip : Stack → Option Stack
nip (x2 ∷ x1 ∷ s) = some (x2 ∷ s)
nip _ = none

unfoldable pub over : Stack → Option Stack
over (x2 ∷ x1 ∷ s) = some (x1 ∷ x2 ∷ x1 ∷ s)
over _ = none

-- OP_PICK and OP_ROLL behind their reading of `n`: the element `n` below the top is put on top, and
-- OP_ROLL takes it from its place.
unfoldable pub pick_at : Bool → ℕ → Stack → Option Stack
pick_at roll n s =
    if leb (length s) n
    then none
    else do v ← get_elem? s n; some (v ∷ (if roll then take n s ++ drop (suc n) s else s))

unfoldable pub pick_index : Bool → ℤ → Stack → Option Stack
pick_index roll (negsuc n) s = none
pick_index roll (pos n) s = pick_at roll n s

unfoldable pub pick : BnLib → Bool → Stack → Option Stack
unfolding pick_index
pick bn roll (a ∷ b ∷ s) = do n ← cast_to_big_num bn a; pick_index roll (get_int bn n) (b ∷ s)
pick bn roll _ = none

unfoldable pub rot : Stack → Option Stack
rot (x3 ∷ x2 ∷ x1 ∷ s) = some (x1 ∷ x3 ∷ x2 ∷ s)
rot _ = none

unfoldable pub swap : Stack → Option Stack
swap (x2 ∷ x1 ∷ s) = some (x1 ∷ x2 ∷ s)
swap _ = none

unfoldable pub tuck : Stack → Option Stack
tuck (x2 ∷ x1 ∷ s) = some (x2 ∷ x1 ∷ x2 ∷ s)
tuck _ = none
