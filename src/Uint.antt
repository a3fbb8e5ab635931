-- ===== src/Uint.antt =====
-- src/uint256.h: the numbers of a fixed count of 32-bit words, least word first.
pub mod Words
mod Tests
use Prim.Native.Nat.{bit_and, bit_or, bit_xor}
use ixcoin.Common.{
  ℕ, ◌+◌, ◌-◌, ◌/◌, ◌%◌, ◌^◌, List, [], ◌∷◌, Bool, true, false, not, ltb, ◌==◌, if◌then◌else◌,
  replicate, Option, none, some,
}

abbrev pub word : ℕ
word = 2 ^ 32

abbrev pub max_word : ℕ
max_word = word - 1

abbrev pub Limbs : Type 0
Limbs = List ℕ

-- `operator!`
unfoldable pub is_zero : Limbs → Bool
is_zero [] = true
is_zero (x ∷ xs) = if not (x == 0) then false else is_zero xs

-- `operator~`
unfoldable pub complement : Limbs → Limbs
complement [] = []
complement (x ∷ xs) = (max_word - x) ∷ complement xs

-- `operator++`, whose loop goes on while a word wraps to 0.
unfoldable pub increment : Limbs → Limbs
increment [] = []
increment (x ∷ xs) =
    let y = (x + 1) % word in let rest = increment xs in if y == 0 then y ∷ rest else y ∷ xs

-- `operator--`, whose loop goes on while a word wraps to -1.
unfoldable pub decrement : Limbs → Limbs
decrement [] = []
decrement (x ∷ xs) =
    let y = (x + max_word) % word in
    let rest = decrement xs in if y == max_word then y ∷ rest else y ∷ xs

-- `operator-`
unfoldable pub negate : Limbs → Limbs
negate a = increment (complement a)

-- `operator+=`; no sum of two words and a carry leaves a `uint64`.
unfoldable pub add_loop : ℕ → Limbs → Limbs → Limbs
add_loop carry (x ∷ xs) (y ∷ ys) = let n = carry + x + y in (n % word) ∷ add_loop (n / word) xs ys
add_loop carry _ _ = []

unfoldable pub add : Limbs → Limbs → Limbs
add a b = add_loop 0 a b

-- `operator-=`
unfoldable pub subtract : Limbs → Limbs → Limbs
subtract a b = add a (negate b)

-- `operator=` of a `uint64`, with a width of 2 words at least.
unfoldable pub of_uint64 : ℕ → ℕ → Limbs
of_uint64 width b = (b % word) ∷ ((b / word) % word) ∷ replicate (width - 2) 0

unfoldable pub zip_words : (ℕ → ℕ → ℕ) → Limbs → Limbs → Limbs
zip_words f (x ∷ xs) (y ∷ ys) = f x y ∷ zip_words f xs ys
zip_words f _ _ = []

-- `operator^=`, `operator&=`, `operator|=`
unfoldable pub xor_words : Limbs → Limbs → Limbs
xor_words = zip_words bit_xor

unfoldable pub and_words : Limbs → Limbs → Limbs
and_words = zip_words bit_and

unfoldable pub or_words : Limbs → Limbs → Limbs
or_words = zip_words bit_or

-- The loop of the comparisons, from the last word down: whether the first word that differs is less.
unfoldable pub first_less : Limbs → Limbs → Option Bool
first_less (x ∷ xs) (y ∷ ys) = elim (first_less xs ys) [
  | some r ↦ some r
  | none ↦ if ltb x y then some true else if ltb y x then some false else none
]
first_less _ _ = none

abbrev pub or_else : Bool → Option Bool → Bool
or_else d none = d
or_else d (some r) = r

-- `operator<`, `operator<=`, `operator>` and `operator>=`
unfoldable pub less : Limbs → Limbs → Bool
less a b = or_else false (first_less a b)

unfoldable pub less_eq : Limbs → Limbs → Bool
less_eq a b = or_else true (first_less a b)

unfoldable pub greater : Limbs → Limbs → Bool
greater a b = or_else false (first_less b a)

unfoldable pub greater_eq : Limbs → Limbs → Bool
greater_eq a b = or_else true (first_less b a)

-- `operator==`
unfoldable pub same_words : Limbs → Limbs → Bool
same_words (x ∷ xs) (y ∷ ys) = if not (x == y) then false else same_words xs ys
same_words _ _ = true

-- `operator==` with a `uint64`
unfoldable pub equals_uint64 : Limbs → ℕ → Bool
equals_uint64 (x ∷ y ∷ xs) b =
    if not (x == b % word)
    then false
    else if not (y == (b / word) % word)
    then false
    else is_zero xs
equals_uint64 _ b = false
