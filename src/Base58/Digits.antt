-- ===== src/Base58/Digits.antt =====
-- The loops of `EncodeBase58` and `DecodeBase58` in src/base58.h against the digits of a number.
use ixcoin.Common.{
  ℕ, zero, suc, ◌+◌, ◌*◌, ◌/◌, ◌%◌, ◌^◌, ◌<◌, ◌≡◌, refl, sym, ap, ◌∙◌, List, [], ◌∷◌, ◌++◌, Bool,
  true, false, not, ◌&&◌, ◌==◌, if◌then◌else◌, get_or, All, Option, none, some, arith, dec_lt,
  Bool-cases, inl, inr,
}
use ixcoin.Base58.{psz_base58, is_space, index_of, count_leading}
use mathlib.Core.List.{reverse, reverse-append, append_assoc}
use native.Mathlib.Nat.{pow-suc}

-- The character of a digit.
abbrev pub char : ℕ → ℕ
char d = get_or psz_base58 d 0

-- What is checked of the character of each digit.
abbrev fits : ℕ → Bool
unfolding index_of
fits d =
    elim (index_of (char d) psz_base58) [ none ↦ false | some i ↦ i == d ]
    && not (is_space (char d))
    && (if d == 0 then char d == char 0 else not (char d == char 0))

abbrev all_below : ℕ → (ℕ → Bool) → Bool
all_below zero p = true
all_below (suc n) p = if p n then all_below n p else false

all_below_lem : (n : ℕ) (p : ℕ → Bool) (d : ℕ) → all_below n p ≡ true → d < n → p d ≡ true
all_below_lem zero p d e h = ground arith
all_below_lem (suc n) p d e h = elim (Bool-cases (p n)) [
  | inl t ↦ elim (dec_lt d n) [
    | yes k ↦ all_below_lem n p d (rw t at e) k
    | no k ↦ let q : d ≡ n = omega arith in rw q t
  ]
  | inr f ↦ let e' : false ≡ true = rw f at e in cc
]

digits_fit : (d : ℕ) → d < 58 → fits d ≡ true
unfolding index_of
digits_fit d h = all_below_lem 58 fits d refl h

split_fits :
    (d : ℕ) (o : Option ℕ) (s r : Bool)
    → (elim o [ none ↦ false | some i ↦ i == d ] && not s && r) ≡ true
    → (o ≡ some d) × (s ≡ false) × (r ≡ true)
split_fits d none s r e = cc
split_fits d (some i) s r e = elim (Bool-cases (i == d)) [
  | inl t ↦ let q : i ≡ d = ground arith in let (u, v) = rest s r (rw t at e) in (ap some q, u, v)
  | inr f ↦ let e' : false ≡ true = rw f at e in cc
]
  where
    rest : (x y : Bool) → (not x && y) ≡ true → (x ≡ false) × (y ≡ true)
    rest true y h = cc
    rest false y h = (refl, h)

pub char_facts :
    (d : ℕ)
    → d < 58
    → (index_of (char d) psz_base58 ≡ some d)
      × (is_space (char d) ≡ false)
      × ((if d == 0 then char d == char 0 else not (char d == char 0)) ≡ true)
unfolding index_of
char_facts d h = split_fits d (index_of (char d) psz_base58) (is_space (char d)) _ (digits_fit d h)

pub char-zero : (d : ℕ) → d < 58 → (char d == char 0) ≡ (d == 0)
char-zero d h = let (_, _, e) = char_facts d h in go (d == 0) (char d == char 0) e
  where
    go : (x y : Bool) → (if x then y else not y) ≡ true → y ≡ x
    go true y e = e
    go false true e = sym e
    go false false e = refl

-- The digits of a number, highest first, before those of `acc`.
unfoldable pub digits : ℕ → ℕ → List ℕ → List ℕ
digits zero n acc = acc
digits (suc f) n acc = let rest = digits f (n / 58) ((n % 58) ∷ acc) in if n == 0 then acc else rest

unfoldable pub le_digits : ℕ → ℕ → List ℕ
le_digits zero n = []
le_digits (suc f) n = let rest = le_digits f (n / 58) in if n == 0 then [] else (n % 58) ∷ rest

-- The number of digits, highest first, behind those of `a`.
unfoldable pub horner : ℕ → List ℕ → ℕ
horner a [] = a
horner a (d ∷ ds) = horner (a * 58 + d) ds

abbrev pub IsDigit : ℕ → Type 0
IsDigit d = d < 58

pub reverse-le_digits : (f n : ℕ) (acc : List ℕ) → reverse (le_digits f n) ++ acc ≡ digits f n acc
unfolding digits le_digits
reverse-le_digits zero n acc = refl
reverse-le_digits (suc f) n acc = elim (Bool-cases (n == 0)) [
  | inl e ↦ rw e refl
  | inr e ↦ rw e (
      ap (λ t. t ++ acc) (reverse-append ((n % 58) ∷ []) (le_digits f (n / 58)))
      ∙ append_assoc (reverse (le_digits f (n / 58))) ((n % 58) ∷ []) acc
      ∙ reverse-le_digits f (n / 58) ((n % 58) ∷ acc))
]

pub horner-digits : (f n : ℕ) (acc : List ℕ) → n < 58 ^ f → horner 0 (digits f n acc) ≡ horner n acc
unfolding digits horner
horner-digits zero n acc h = let e : n ≡ 0 = omega arith in ap (λ t. horner t acc) (sym e)
horner-digits (suc f) n acc h = elim (Bool-cases (n == 0)) [
  | inl e ↦ rw e (let q : 0 ≡ n = ground arith in ap (λ t. horner t acc) q)
  | inr e ↦ rw e (
      let p = pow-suc 58 f in
      let q : n / 58 * 58 + n % 58 ≡ n = omega arith in
      horner-digits f (n / 58) ((n % 58) ∷ acc) (omega arith) ∙ ap (λ t. horner t acc) q)
]

pub digits-IsDigit : (f n : ℕ) (acc : List ℕ) → All IsDigit acc → All IsDigit (digits f n acc)
unfolding digits
digits-IsDigit zero n acc h = h
digits-IsDigit (suc f) n acc h = elim (Bool-cases (n == 0)) [
  | inl e ↦ rw e h
  | inr e ↦ rw e (digits-IsDigit f (n / 58) ((n % 58) ∷ acc) (omega arith, h))
]

-- A number that is not 0 does not start with the digit 0.
pub count_leading-digits :
    (f n : ℕ) (acc : List ℕ) → 0 < n → n < 58 ^ f → count_leading 0 (digits f n acc) ≡ 0
unfolding digits count_leading
count_leading-digits zero n acc k h = omega arith
count_leading-digits (suc f) n acc k h =
    let e : (n == 0) ≡ false = ground arith in
    let p = pow-suc 58 f in
    rw e (elim (dec_lt 0 (n / 58)) [
      | yes t ↦ count_leading-digits f (n / 58) ((n % 58) ∷ acc) t (omega arith)
      | no t ↦
          let z : n / 58 ≡ 0 = omega arith in
          let g : (n % 58 == 0) ≡ false = ground arith in
          rw z (rw (digits-zero f ((n % 58) ∷ acc), g) refl)
    ])
  where
    digits-zero : (g : ℕ) (ds : List ℕ) → digits g 0 ds ≡ ds
    digits-zero zero ds = refl
    digits-zero (suc g) ds = refl
