-- ===== src/Base58/RoundTrip.antt =====
-- `EncodeBase58` and `DecodeBase58` of src/base58.h, one after the other.
use ixcoin.Common.{
  ℕ, zero, suc, ◌+◌, ◌*◌, ◌^◌, ◌≤◌, ◌<◌, ◌≡◌, refl, sym, ap, ◌∙◌, List, [], ◌∷◌, ◌++◌, ◌==◌, length,
  map, replicate, All, All-append, All-reverse, some, arith, dec_lt, Bool-cases, inl, inr, ◌>>=◌,
  length-append, length-reverse,
}
use ixcoin.Common.Int.{pos}
use ixcoin.Serialize.{Bytes, IsByte}
use ixcoin.Bignum.{set_vch, get_vch, skip_zeros}
use ixcoin.Bignum.OpenSsl.{BnLib, BnLaws, be4, be_value, signed}
use ixcoin.Bignum.Instance.{be_value_lt}
use ixcoin.Bignum.Ints.{be_value-skip_zeros, skip_zeros-IsByte}
use ixcoin.Base58.{count_leading, trim_sign, encode_loop, encode_base58, decode_base58}
use ixcoin.Base58.Digits.{
  char, le_digits, digits, horner, IsDigit, reverse-le_digits, horner-digits, digits-IsDigit,
  count_leading-digits,
}
use ixcoin.Base58.Loops.{
  skip_spaces-char, count_leading-char, word, encode_loop-le_digits, decode_loop-char,
}
use ixcoin.Base58.Trim.{tight_unique, skip_zeros-IsTight, of_le_bytes-reverse, trim_sign-get_vch}
use mathlib.Core.Path.{ap₂}
use mathlib.Core.List.{reverse, reverse-append, reverse-reverse, append-nil, map-append}
use native.Mathlib.Nat.{pow-suc}

-- The zeros in front, and the rest.
split_zeros : (v : Bytes) → replicate (count_leading 0 v) 0 ++ skip_zeros v ≡ v
unfolding count_leading skip_zeros
split_zeros [] = refl
split_zeros (b ∷ v) = elim (Bool-cases (b == 0)) [
  | inl e ↦ let z : 0 ≡ b = ground arith in rw e (ap₂ (λ a w. a ∷ w) z (split_zeros v))
  | inr e ↦ rw e refl
]

count_leading-replicate :
    (z : ℕ) (ds : List ℕ) → count_leading 0 (replicate z 0 ++ ds) ≡ z + count_leading 0 ds
unfolding count_leading
count_leading-replicate zero ds = omega arith
count_leading-replicate (suc z) ds = omega (arith, count_leading-replicate z ds)

horner-replicate : (z : ℕ) (ds : List ℕ) → horner 0 (replicate z 0 ++ ds) ≡ horner 0 ds
unfolding horner
horner-replicate zero ds = refl
horner-replicate (suc z) ds = horner-replicate z ds

replicate-IsDigit : (z : ℕ) → All IsDigit (replicate z 0)
replicate-IsDigit zero = tt
replicate-IsDigit (suc z) = (omega arith, replicate-IsDigit z)

map-replicate : (z a : ℕ) (f : ℕ → ℕ) → map f (replicate z a) ≡ replicate z (f a)
map-replicate zero a f = refl
map-replicate (suc z) a f = ap (λ t. f a ∷ t) (map-replicate z a f)

replicate-snoc : (z a : ℕ) → replicate z a ++ a ∷ [] ≡ a ∷ replicate z a
replicate-snoc zero a = refl
replicate-snoc (suc z) a = ap (λ t. a ∷ t) (replicate-snoc z a)

reverse-replicate : (z a : ℕ) → reverse (replicate z a) ≡ replicate z a
reverse-replicate zero a = refl
reverse-replicate (suc z) a =
    reverse-append (a ∷ []) (replicate z a)
    ∙ ap (λ t. t ++ a ∷ []) (reverse-replicate z a)
    ∙ replicate-snoc z a

reverse-map : (f : ℕ → ℕ) (xs : List ℕ) → reverse (map f xs) ≡ map f (reverse xs)
reverse-map f [] = refl
reverse-map f (x ∷ xs) =
    reverse-append (f x ∷ []) (map f xs)
    ∙ ap (λ t. t ++ f x ∷ []) (reverse-map f xs)
    ∙ sym (map-append f (reverse xs) (x ∷ []))
    ∙ ap (map f) (sym (reverse-append (x ∷ []) xs))

-- Two digits hold a byte.
pow_58 : (k : ℕ) → 256 ^ k ≤ 58 ^ (2 * k)
pow_58 zero = omega arith
pow_58 (suc k) =
    let p = pow-suc 256 k in
    let q = pow-suc 58 (2 * k) in
    let r = pow-suc 58 (suc (2 * k)) in
    let e : 58 ^ (2 * suc k) ≡ 58 ^ suc (suc (2 * k)) = ap (λ n. 58 ^ n) (omega arith) in
    omega (arith, pow_58 k)

-- The digits of a byte vector: a 0 for each zero in front, and those of its number.
abbrev digits_of : Bytes → List ℕ
digits_of v = replicate (count_leading 0 v) 0 ++ digits (2 * length v) (be_value v) []

digits_of-IsDigit : (v : Bytes) → All IsDigit (digits_of v)
digits_of-IsDigit v =
    All-append IsDigit (replicate (count_leading 0 v) 0) (digits (2 * length v) (be_value v) [])
      (replicate-IsDigit (count_leading 0 v)) (digits-IsDigit (2 * length v) (be_value v) [] tt)

fits_58 : (v : Bytes) → All IsByte v → be_value v < 58 ^ (2 * length v)
fits_58 v h = omega (arith, be_value_lt v h, pow_58 (length v))

count_leading-digits_of :
    (v : Bytes) → All IsByte v → count_leading 0 (digits_of v) ≡ count_leading 0 v
unfolding count_leading digits
count_leading-digits_of v h =
    count_leading-replicate (count_leading 0 v) (digits (2 * length v) (be_value v) [])
    ∙ omega (arith, none_more (2 * length v) (be_value v) (fits_58 v h))
  where
    none_more : (f n : ℕ) → n < 58 ^ f → count_leading 0 (digits f n []) ≡ 0
    none_more f n k = elim (dec_lt 0 n) [
      | yes t ↦ count_leading-digits f n [] t k
      | no t ↦ let z : n ≡ 0 = omega arith in rw z (empty f)
    ]
      where
        empty : (g : ℕ) → count_leading 0 (digits g 0 []) ≡ 0
        empty zero = refl
        empty (suc g) = refl

horner-digits_of : (v : Bytes) → All IsByte v → horner 0 (digits_of v) ≡ be_value v
unfolding horner
horner-digits_of v h =
    horner-replicate (count_leading 0 v) (digits (2 * length v) (be_value v) [])
    ∙ horner-digits (2 * length v) (be_value v) [] (fits_58 v h)

module _ (bn : BnLib) (laws : BnLaws bn) where
  -- The zero byte that is put on top keeps the number positive.
  set_vch-reverse :
      (v : Bytes)
      → length v < 2 ^ 31
      → All IsByte v
      → set_vch bn (reverse v ++ 0 ∷ []) ≡ pos (be_value v)
  unfolding set_vch be_value signed
  set_vch-reverse v h p =
      let r : reverse (reverse v ++ 0 ∷ []) ≡ 0 ∷ v =
        reverse-append (reverse v) (0 ∷ []) ∙ ap (λ t. 0 ∷ t) (reverse-reverse v) in
      let l : length (reverse v ++ 0 ∷ []) ≡ length (0 ∷ v) =
        length-append (reverse v) (0 ∷ []) ∙ omega (arith, length-reverse v) in
      ap₂ (λ n w. bn.mpi2bn (be4 n ++ w)) l r
      ∙ laws.mpi2bn_lem 0 v (omega arith) (omega arith, p)
      ∙ ap pos (omega arith)

  encode_base58-digits_of :
      (v : Bytes)
      → length v < 2 ^ 31
      → All IsByte v
      → encode_base58 bn v ≡ some (map char (digits_of v))
  unfolding encode_base58
  encode_base58-digits_of v h p =
      let f = 2 * length v in
      let n = be_value v in
      let z = count_leading 0 v in
      ap (λ t. encode_loop bn (suc f) t >>= (λ str. some (reverse (str ++ replicate z (char 0)))))
        (set_vch-reverse v h p)
      ∙ ap (λ t. t >>= (λ str. some (reverse (str ++ replicate z (char 0)))))
          (encode_loop-le_digits bn laws f n (fits_58 v p))
      ∙ ap some (
          turned z (le_digits f n)
          ∙ ap (λ t. map char (replicate z 0 ++ t))
              (sym (append-nil (reverse (le_digits f n))) ∙ reverse-le_digits f n []))
    where
      turned :
          (z : ℕ) (ds : List ℕ)
          → reverse (map char ds ++ replicate z (char 0)) ≡ map char (replicate z 0 ++ reverse ds)
      turned z ds =
          reverse-append (map char ds) (replicate z (char 0))
          ∙ ap₂ (λ a b. a ++ b) (reverse-replicate z (char 0) ∙ sym (map-replicate z 0 char))
              (reverse-map char ds)
          ∙ sym (map-append char (replicate z 0) (reverse ds))

  trim_sign-skip_zeros :
      (v : Bytes)
      → length v < 2 ^ 31
      → All IsByte v
      → reverse (trim_sign (get_vch bn (pos (be_value v)))) ≡ skip_zeros v
  trim_sign-skip_zeros v h p =
      let (t, b, e) = trim_sign-get_vch bn laws (length v) (be_value v) h (be_value_lt v p) in
      let w = skip_zeros v in
      ap reverse (
        tight_unique (trim_sign (get_vch bn (pos (be_value v)))) (reverse w) b
          (All-reverse IsByte w (skip_zeros-IsByte v p)) t (skip_zeros-IsTight v)
          (e ∙ sym (of_le_bytes-reverse w ∙ be_value-skip_zeros v)))
      ∙ reverse-reverse w

  decode_base58-char :
      (ds : List ℕ)
      → All IsDigit ds
      → decode_base58 bn (map char ds)
        ≡ some (
            replicate (count_leading 0 ds) 0
            ++ reverse (trim_sign (get_vch bn (pos (horner 0 ds)))))
  unfolding decode_base58
  decode_base58-char ds h =
      rw
        (
          skip_spaces-char ds h,
          word bn laws 0 (omega arith),
          decode_loop-char bn laws ds 0 h,
          count_leading-char ds h,
        )
        refl

  -- What `EncodeBase58` makes of a byte vector is read back by `DecodeBase58`, with the zeros in
  -- front, whatever the bytes: no division fails, and two digits for each byte are enough.
  pub decode_base58-encode_base58 :
      (v : Bytes)
      → length v < 2 ^ 31
      → All IsByte v
      → (encode_base58 bn v >>= decode_base58 bn) ≡ some v
  decode_base58-encode_base58 v h p =
      ap (λ t. t >>= decode_base58 bn) (encode_base58-digits_of v h p)
      ∙ decode_base58-char (digits_of v) (digits_of-IsDigit v)
      ∙ ap some (
          ap₂ (λ k n. replicate k 0 ++ reverse (trim_sign (get_vch bn (pos n))))
            (count_leading-digits_of v p) (horner-digits_of v p)
          ∙ ap (λ w. replicate (count_leading 0 v) 0 ++ w) (trim_sign-skip_zeros v h p)
          ∙ split_zeros v)
