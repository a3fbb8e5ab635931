-- ===== src/Serialize.antt =====
-- src/serialize.h: little-endian integers, compact sizes, vectors of bytes and of objects.
-- A stream is the list of the bytes not yet read; `none` is the exception of the source's readers.
pub mod RoundTrip
mod Tests
use ixcoin.Common.{
  ℕ, zero, suc, ◌+◌, ◌*◌, ◌/◌, ◌%◌, ◌^◌, ◌<◌, Option, none, some, List, [], ◌∷◌, ◌++◌, length, ltb,
  leb, ◌==◌, if◌then◌else◌, Bool,
}
use ixcoin.Common.Int.{ℤ}
use ixcoin.Common.Words.{to_word, of_word}

abbrev pub Bytes : Type 0
Bytes = List ℕ

abbrev pub IsByte : ℕ → Type 0
IsByte b = b < 256

abbrev pub Reader {ℓ} : Type ℓ → Type ℓ
Reader A = Bytes → Option (A × Bytes)

infixl 5 ◌>>=◌
abbrev pub ◌>>=◌ {ℓ κ} : {A : Type ℓ} {B : Type κ} → Reader A → (A → Reader B) → Reader B
◌>>=◌ m f s = elim (m s) [ none ↦ none | some (a, r) ↦ f a r ]

abbrev pub pure {ℓ} : {A : Type ℓ} → A → Reader A
pure a s = some (a, s)

abbrev pub failure {ℓ} : {A : Type ℓ} → Reader A
failure s = none

abbrev pub max_size : ℕ
max_size = 0x02000000

-- The bytes of an unsigned integer of `k` bytes, as `WRITEDATA` copies them on the little-endian
-- machines that the program is built for.
unfoldable pub le_bytes : ℕ → ℕ → Bytes
le_bytes zero v = []
le_bytes (suc k) v = (v % 256) ∷ le_bytes k (v / 256)

unfoldable pub of_le_bytes : Bytes → ℕ
of_le_bytes [] = 0
of_le_bytes (b ∷ bs) = b + 256 * of_le_bytes bs

-- `is.read(pch, n)`: an exception where fewer than `n` bytes are left.
unfoldable pub read_bytes : ℕ → Reader Bytes
read_bytes zero s = some ([], s)
read_bytes (suc n) [] = none
read_bytes (suc n) (b ∷ s) = elim (read_bytes n s) [ none ↦ none | some (bs, r) ↦ some (b ∷ bs, r) ]

unfoldable pub read_le : ℕ → Reader ℕ
read_le k = do bs ← read_bytes k; pure (of_le_bytes bs)

unfoldable pub get_size_of_compact_size : ℕ → ℕ
get_size_of_compact_size n =
    if ltb n 253 then 1 else if leb n 0xffff then 3 else if leb n 0xffff_ffff then 5 else 9

unfoldable pub write_compact_size : ℕ → Bytes
write_compact_size n =
    if ltb n 253
    then le_bytes 1 n
    else if leb n 0xffff
    then le_bytes 1 253 ++ le_bytes 2 n
    else if leb n 0xffff_ffff
    then le_bytes 1 254 ++ le_bytes 4 n
    else le_bytes 1 255 ++ le_bytes 8 n

-- The width of the number that follows the first byte.
pub read_size_after : ℕ → Reader ℕ
read_size_after ch =
    if ltb ch 253
    then pure ch
    else if ch == 253
    then read_le 2
    else if ch == 254
    then read_le 4
    else read_le 8

unfoldable pub read_compact_size : Reader ℕ
unfolding read_size_after
read_compact_size = do
  ch ← read_le 1
  n ← read_size_after ch
  if ltb max_size n then failure else pure n

-- A vector of unsigned char, a `CScript` among them: the size and the bytes.
unfoldable pub write_vector : Bytes → Bytes
write_vector v = write_compact_size (length v) ++ v

unfoldable pub read_vector : Reader Bytes
read_vector = do n ← read_compact_size; read_bytes n

-- Signed integers are stored as their bit patterns.
unfoldable pub write_int : ℤ → Bytes
write_int z = le_bytes 4 (to_word (2 ^ 32) z)

unfoldable pub read_int : Reader ℤ
read_int = do w ← read_le 4; pure (of_word (2 ^ 32) w)

unfoldable pub write_int64 : ℤ → Bytes
write_int64 z = le_bytes 8 (to_word (2 ^ 64) z)

unfoldable pub read_int64 : Reader ℤ
read_int64 = do w ← read_le 8; pure (of_word (2 ^ 64) w)

-- A vector of objects: the size and the objects one after the other.
module _ {ℓ} {A : Type ℓ} where
  unfoldable pub write_each : (A → Bytes) → List A → Bytes
  write_each w [] = []
  write_each w (x ∷ xs) = w x ++ write_each w xs

  unfoldable pub write_objects : (A → Bytes) → List A → Bytes
  write_objects w xs = write_compact_size (length xs) ++ write_each w xs

  unfoldable pub read_each : Reader A → ℕ → Reader (List A)
  read_each r zero = pure []
  read_each r (suc n) = do x ← r; xs ← read_each r n; pure (x ∷ xs)

  unfoldable pub read_objects : Reader A → Reader (List A)
  read_objects r = do n ← read_compact_size; read_each r n
