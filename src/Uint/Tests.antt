-- ===== src/Uint/Tests.antt =====
-- The words of two numbers of 64 bits.
use ixcoin.Common.{◌+◌, ◌-◌, ◌%◌, ◌≡◌, refl, [], ◌∷◌, ltb, leb, ◌==◌, arith}
use ixcoin.Uint.{
  max_word, Limbs, add, subtract, less, less_eq, greater, greater_eq, same_words, add_loop,
}
use ixcoin.Uint.Words.{number, modulus, add-number, less-number}

abbrev low : Limbs
low = max_word ∷ 0 ∷ []

abbrev high : Limbs
high = 1 ∷ max_word ∷ []

add-number_example :
    (number (add low high) ≡ (number low + number high) % modulus low)
    × (number (subtract low high) ≡ (number low + (modulus low - number high)) % modulus low)
add-number_example =
    add-number low high tt (omega arith, (omega arith, tt)) (omega arith, (omega arith, tt))

less-number_example :
    (less low high ≡ ltb (number low) (number high))
    × (less_eq low high ≡ leb (number low) (number high))
    × (greater low high ≡ ltb (number high) (number low))
    × (greater_eq low high ≡ leb (number high) (number low))
    × (same_words low high ≡ (number low == number high))
less-number_example =
    less-number low high tt (omega arith, (omega arith, tt)) (omega arith, (omega arith, tt))

add-low : add low high ≡ 0 ∷ 0 ∷ []
unfolding add add_loop
add-low = refl
