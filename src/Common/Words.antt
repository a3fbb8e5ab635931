-- ===== src/Common/Words.antt =====
-- Two's complement words: the conversions between a signed integer and its bit pattern.
use ixcoin.Common.{ℕ, ◌-◌, ◌/◌, ◌%◌, ◌^◌, ◌<◌, ◌≡◌, arith, ltb, if◌then◌else◌}
use ixcoin.Common.Int.{ℤ, pos, negsuc}

-- The bit pattern of an integer that is stored in a word of `m` values.
abbrev pub to_word : ℕ → ℤ → ℕ
to_word m (pos n) = n % m
to_word m (negsuc n) = m - 1 - n % m

-- The integer that a bit pattern stands for, where the word is signed.
abbrev pub of_word : ℕ → ℕ → ℤ
of_word m w = if ltb w (m / 2) then pos w else negsuc (m - 1 - w)

-- A C `int` and an `int64`: cut down to the word and read back.
abbrev pub wrap_int : ℤ → ℤ
wrap_int z = of_word (2 ^ 32) (to_word (2 ^ 32) z)

abbrev pub wrap_int64 : ℤ → ℤ
wrap_int64 z = of_word (2 ^ 64) (to_word (2 ^ 64) z)

abbrev pub IsInt : ℤ → Type 0
IsInt (pos n) = n < 2 ^ 31
IsInt (negsuc n) = n < 2 ^ 31

abbrev pub IsInt64 : ℤ → Type 0
IsInt64 (pos n) = n < 2 ^ 63
IsInt64 (negsuc n) = n < 2 ^ 63

pub wrap_int_lem : (z : ℤ) → IsInt z → wrap_int z ≡ z
wrap_int_lem (pos n) h = ground arith
wrap_int_lem (negsuc n) h = ground arith

pub wrap_int64_lem : (z : ℤ) → IsInt64 z → wrap_int64 z ≡ z
wrap_int64_lem (pos n) h = ground arith
wrap_int64_lem (negsuc n) h = ground arith

pub to_word_lt : (z : ℤ) → to_word (2 ^ 64) z < 2 ^ 64
to_word_lt (pos n) = omega arith
to_word_lt (negsuc n) = omega arith

pub to_word_lt_int : (z : ℤ) → to_word (2 ^ 32) z < 2 ^ 32
to_word_lt_int (pos n) = omega arith
to_word_lt_int (negsuc n) = omega arith
