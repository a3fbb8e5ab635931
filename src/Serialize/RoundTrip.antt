-- ===== src/Serialize/RoundTrip.antt =====
-- What the readers of src/serialize.h make of what its writers wrote.
use ixcoin.Common.{
  ℕ, zero, suc, ◌/◌, ◌^◌, ◌≤◌, ◌<◌, ◌≡◌, refl, ap, some, List, [], ◌∷◌, ◌++◌, All, le→leb, length,
  arith, Bool-cases, ltb, leb, inl, inr,
}
use ixcoin.Common.Int.{ℤ}
use ixcoin.Common.Words.{
  of_word, IsInt, IsInt64, to_word_lt, to_word_lt_int, wrap_int_lem, wrap_int64_lem,
}
use mathlib.Core.Path.{subst}
use ixcoin.Serialize.{
  read_size_after, Bytes, Reader, ◌>>=◌, pure, max_size, le_bytes, of_le_bytes, read_bytes, read_le,
  get_size_of_compact_size, write_compact_size, read_compact_size, write_vector, read_vector,
  write_int, read_int, write_int64, read_int64, write_each, write_objects, read_each, read_objects,
}
use mathlib.Core.List.{append_assoc}
use native.Mathlib.Nat.{pow-suc}

-- `r` takes the bytes `w` from the front of any stream and gives `a`.
pub record Reads {ℓ} {A : Type ℓ} (r : Reader A) (w : Bytes) (a : A) : Type ℓ where
  pub from_front : (rest : Bytes) → r (w ++ rest) ≡ some (a, rest)

pub Reads-bind {ℓ κ} :
    {A : Type ℓ} {B : Type κ} {r : Reader A} (f : A → Reader B) {v w : Bytes} {a : A} {b : B}
    → Reads r v a
    → Reads (f a) w b
    → Reads (r >>= f) (v ++ w) b
Reads-bind f {w = w} h k = record {
  from_front = λ rest. rw (append_assoc, h.from_front (w ++ rest), ◌>>=◌) (k.from_front rest);
}

-- A reader that ends by putting together what it read.
pub Reads-pure {ℓ κ} :
    {A : Type ℓ} {B : Type κ} {r : Reader A} {w : Bytes} {a : A} (f : A → B)
    → Reads r w a
    → Reads (r >>= λ x. pure (f x)) w (f a)
Reads-pure f h = record { from_front = λ rest. rw (h.from_front rest, ◌>>=◌) }

front : (bs rest : Bytes) → read_bytes (length bs) (bs ++ rest) ≡ some (bs, rest)
unfolding read_bytes
front [] rest = refl
front (b ∷ bs) rest = rw (front bs rest)

pub read_bytes_lem : (bs : Bytes) → Reads (read_bytes (length bs)) bs bs
read_bytes_lem bs = record { from_front = front bs }

pub length-le_bytes : (k v : ℕ) → length (le_bytes k v) ≡ k
unfolding le_bytes
length-le_bytes zero v = refl
length-le_bytes (suc k) v = ap suc (length-le_bytes k (v / 256))

pub of_le_bytes-le_bytes : (k v : ℕ) → v < 256 ^ k → of_le_bytes (le_bytes k v) ≡ v
unfolding le_bytes of_le_bytes
of_le_bytes-le_bytes zero v h = omega arith
of_le_bytes-le_bytes (suc k) v h =
    omega (arith, of_le_bytes-le_bytes k (v / 256) (let e = pow-suc 256 k in omega arith))

pub read_le_lem : (k v : ℕ) → v < 256 ^ k → Reads (read_le k) (le_bytes k v) v
unfolding read_le
read_le_lem k v h =
    rw (length-le_bytes, of_le_bytes-le_bytes k v h) at
      (Reads-pure of_le_bytes (read_bytes_lem (le_bytes k v)))

-- A compact size takes as many bytes as `GetSizeOfCompactSize` says, whatever the number.
pub length-write_compact_size : (n : ℕ) → length (write_compact_size n) ≡ get_size_of_compact_size n
unfolding write_compact_size get_size_of_compact_size le_bytes
length-write_compact_size n = ground arith

-- The first byte and the number behind it, as the reader takes them.
read_compact_size_tagged :
    (ch n : ℕ) (w : Bytes)
    → ch < 256
    → n ≤ max_size
    → Reads (read_size_after ch) w n
    → Reads read_compact_size (le_bytes 1 ch ++ w) n
unfolding read_compact_size
read_compact_size_tagged ch n w hc hn h =
    Reads-bind _ (read_le_lem 1 ch hc)
      (record { from_front = λ rest. rw (h.from_front rest, ◌>>=◌) (ground arith) })

-- A size that the reader accepts is read back, and what follows it is left.
pub read_compact_size-write_compact_size :
    (n : ℕ) → n ≤ max_size → Reads read_compact_size (write_compact_size n) n
unfolding write_compact_size read_size_after
read_compact_size-write_compact_size n h = elim (Bool-cases (ltb n 253)) [
  | inl e ↦ rw e (
      unfold le_bytes in
      read_compact_size_tagged n n [] (ground arith) h (record { from_front = λ rest. rw e }))
  | inr e ↦ rw e (elim (Bool-cases (leb n 0xffff)) [
    | inl f ↦
        rw f (read_compact_size_tagged 253 n _ (omega arith) h (read_le_lem 2 n (ground arith)))
    | inr f ↦
        rw (f, le→leb n 0xffff_ffff (omega arith))
          (read_compact_size_tagged 254 n _ (omega arith) h (read_le_lem 4 n (omega arith)))
  ])
]

-- A vector of at most `max_size` bytes is read back.
pub read_vector-write_vector :
    (v : Bytes) → length v ≤ max_size → Reads read_vector (write_vector v) v
unfolding read_vector write_vector
read_vector-write_vector v h =
    Reads-bind _ (read_compact_size-write_compact_size (length v) h) (read_bytes_lem v)

pub read_int-write_int : (z : ℤ) → IsInt z → Reads read_int (write_int z) z
unfolding read_int write_int
read_int-write_int z h =
    subst (Reads _ _) (wrap_int_lem z h)
      (Reads-pure (of_word (2 ^ 32)) (read_le_lem 4 _ (to_word_lt_int z)))

pub read_int64-write_int64 : (z : ℤ) → IsInt64 z → Reads read_int64 (write_int64 z) z
unfolding read_int64 write_int64
read_int64-write_int64 z h =
    subst (Reads _ _) (wrap_int64_lem z h)
      (Reads-pure (of_word (2 ^ 64)) (read_le_lem 8 _ (to_word_lt z)))

module _ {ℓ} {A : Type ℓ} (r : Reader A) (w : A → Bytes) (P : A → Type 0)
    (h : (a : A) → P a → Reads r (w a) a) where
  read_each-write_each :
      (xs : List A) → All P xs → Reads (read_each r (length xs)) (write_each w xs) xs
  unfolding read_each write_each
  read_each-write_each [] p = record { from_front = λ rest. refl }
  read_each-write_each (x ∷ xs) (p, ps) =
      Reads-bind _ (h x p) (Reads-pure (λ ys. x ∷ ys) (read_each-write_each xs ps))

  -- Objects that are read back one by one are read back as a vector.
  pub read_objects-write_objects :
      (xs : List A)
      → length xs ≤ max_size
      → All P xs
      → Reads (read_objects r) (write_objects w xs) xs
  unfolding read_objects write_objects
  read_objects-write_objects xs hl ps =
      Reads-bind _ (read_compact_size-write_compact_size (length xs) hl)
        (read_each-write_each xs ps)
