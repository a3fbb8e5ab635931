-- ===== src/Base58/Loops.antt =====
-- The loops of `EncodeBase58` and `DecodeBase58` in src/base58.h, on the digits of a number.
use ixcoin.Common.{
  ℕ, zero, suc, ◌+◌, ◌*◌, ◌/◌, ◌%◌, ◌^◌, ◌<◌, ◌≡◌, refl, sym, ap, ◌∙◌, List, [], ◌∷◌, false, ltb,
  ◌==◌, if◌then◌else◌, map, All, some, arith, Bool-cases, inl, inr, ◌>>=◌, lt→ltb,
}
use ixcoin.Common.Int.{ℤ, pos, ltb_ℤ, ◌+ℤ◌, ◌*ℤ◌}
use ixcoin.Bignum.{of_int}
use ixcoin.Bignum.OpenSsl.{BnLib, BnLaws}
use ixcoin.Base58.{
  Chars, psz_base58, index_of, skip_spaces, count_leading, encode_loop, decode_loop,
}
use ixcoin.Base58.Digits.{char, char_facts, char-zero, le_digits, horner, IsDigit}
use native.Mathlib.Nat.{pow-suc}

pub skip_spaces-char : (ds : List ℕ) → All IsDigit ds → skip_spaces (map char ds) ≡ map char ds
unfolding skip_spaces
skip_spaces-char [] h = refl
skip_spaces-char (d ∷ ds) (h, hs) = let (_, s, _) = char_facts d h in rw s refl

pub count_leading-char :
    (ds : List ℕ) → All IsDigit ds → count_leading (char 0) (map char ds) ≡ count_leading 0 ds
unfolding count_leading
count_leading-char [] h = refl
count_leading-char (d ∷ ds) (h, hs) =
    rw (char-zero d h) (ap (λ n. if d == 0 then suc n else 0) (count_leading-char ds hs))

module _ (bn : BnLib) (laws : BnLaws bn) where
  pub word : (n : ℕ) → n < 2 ^ 31 → of_int bn (pos n) ≡ pos n
  unfolding of_int
  word n h =
      let e : ltb_ℤ (pos n) (pos 0) ≡ false = ground arith in
      rw e (laws.set_word_lem n (omega arith))

  below_lem : (n : ℕ) → bn.below (of_int bn (pos 0)) (pos n) ≡ ltb 0 n
  below_lem n =
      ap (λ z. bn.below z (pos n)) (word 0 (omega arith))
      ∙ laws.below_lem (pos 0) (pos n)
      ∙ ground arith

  encode_loop-stop : (f : ℕ) → encode_loop bn (suc f) (pos 0) ≡ some []
  unfolding encode_loop
  encode_loop-stop f = rw (below_lem 0) refl

  encode_loop-step :
      (f n : ℕ)
      → 0 < n
      → encode_loop bn (suc f) (pos n)
        ≡ (encode_loop bn f (pos (n / 58)) >>= (λ str. some (char (n % 58) ∷ str)))
  unfolding encode_loop
  encode_loop-step f n h =
      rw
        (
          below_lem n,
          lt→ltb 0 n h,
          word 58 (omega arith),
          laws.div_lem n 58 (omega arith),
          laws.rem_lem n 58 (omega arith),
          laws.get_word_lem (n % 58) (omega arith),
        )
        refl

  pub encode_loop-le_digits :
      (f n : ℕ) → n < 58 ^ f → encode_loop bn (suc f) (pos n) ≡ some (map char (le_digits f n))
  unfolding le_digits
  encode_loop-le_digits zero n h =
      let e : 0 ≡ n = omega arith in ap (λ m. encode_loop bn 1 (pos m)) (sym e) ∙ encode_loop-stop 0
  encode_loop-le_digits (suc f) n h = elim (Bool-cases (n == 0)) [
    | inl e ↦ let z : n ≡ 0 = ground arith in rw z (encode_loop-stop (suc f))
    | inr e ↦
        let p = pow-suc 58 f in
        encode_loop-step (suc f) n (ground arith)
        ∙ rw (e, encode_loop-le_digits f (n / 58) (omega arith)) refl
  ]

  shifted :
      (a d : ℕ)
      → d < 58
      → bn.add (bn.mul (pos a) (of_int bn (pos 58))) (bn.set_word d) ≡ pos (a * 58 + d)
  unfolding ◌+ℤ◌ ◌*ℤ◌
  shifted a d h =
      rw
        (
          word 58 (omega arith),
          laws.mul_lem (pos a) (pos 58),
          laws.set_word_lem d (omega arith),
          laws.add_lem (pos a *ℤ pos 58) (pos d),
        )
        (ground arith)

  decode_loop-digit :
      (z : ℤ) (c i : ℕ) (p : Chars)
      → index_of c psz_base58 ≡ some i
      → decode_loop bn z (c ∷ p)
        ≡ decode_loop bn (bn.add (bn.mul z (of_int bn (pos 58))) (bn.set_word i)) p
  unfolding decode_loop
  decode_loop-digit z c i p e = rw (decode_loop, e) refl

  pub decode_loop-char :
      (ds : List ℕ) (a : ℕ)
      → All IsDigit ds
      → decode_loop bn (pos a) (map char ds) ≡ some (pos (horner a ds))
  unfolding decode_loop horner
  decode_loop-char [] a h = refl
  decode_loop-char (d ∷ ds) a (h, hs) =
      let (e, _, _) = char_facts d h in
      decode_loop-digit (pos a) (char d) d (map char ds) e
      ∙ ap (λ z. decode_loop bn z (map char ds)) (shifted a d h)
      ∙ decode_loop-char ds (a * 58 + d) hs
