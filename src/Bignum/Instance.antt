-- ===== src/Bignum/Instance.antt =====
-- A concrete BIGNUM, which shows that what is relied on of OpenSSL can hold.
use ixcoin.Common.{
  ℕ, zero, suc, ◌+◌, ◌*◌, ◌/◌, ◌%◌, ◌^◌, ◌≤◌, ◌<◌, ◌≡◌, refl, ap, ◌∙◌, [], ◌∷◌, ◌++◌, ltb, ◌==◌,
  if◌then◌else◌, length, All, drop, none, some, arith, dec_lt, Bool-cases, inl, inr,
}
use ixcoin.Common.Int.{ℤ, pos, negsuc, ◌+ℤ◌, ◌-ℤ◌, ◌*ℤ◌, ltb_ℤ, eqb_ℤ, pos_part, neg_part}
use ixcoin.Serialize.{Bytes, IsByte}
use ixcoin.Bignum.OpenSsl.{be_value, signed, BnLib, BnLaws, be4}
use native.Mathlib.Nat.{pow-suc, div-add-mod}

-- The bytes of a number, highest first, with no zero in front.
unfoldable pub be_bytes : ℕ → ℕ → Bytes → Bytes
be_bytes zero n acc = acc
be_bytes (suc f) n acc =
    let more = be_bytes f (n / 256) ((n % 256) ∷ acc) in if n == 0 then acc else more

be_value-be_bytes :
    (f n : ℕ) (acc : Bytes)
    → n ≤ f
    → be_value (be_bytes f n acc) ≡ n * 256 ^ length acc + be_value acc
unfolding be_bytes be_value
be_value-be_bytes zero n acc h = let e : n ≡ 0 = omega arith in rw e (omega arith)
be_value-be_bytes (suc f) n acc h = elim (Bool-cases (n == 0)) [
  | inl e ↦ rw e (let z : n ≡ 0 = ground arith in rw z (omega arith))
  | inr e ↦ rw e (
      omega (
        arith,
        be_value-be_bytes f (n / 256) ((n % 256) ∷ acc) (ground arith),
        pow-suc 256 (length acc),
        ap (λ (t : ℕ). t * 256 ^ length acc) (div-add-mod n 256),
        ap (λ (t : ℕ). n / 256 * t) (pow-suc 256 (length acc)),
      ))
]

length-be_bytes :
    (k f n : ℕ) (acc : Bytes) → n < 256 ^ k → length (be_bytes f n acc) ≤ k + length acc
unfolding be_bytes
length-be_bytes k zero n acc h = omega arith
length-be_bytes zero (suc f) n acc h = ground arith
length-be_bytes (suc k) (suc f) n acc h = elim (Bool-cases (n == 0)) [
  | inl e ↦ rw e (omega arith)
  | inr e ↦ rw e (
      omega (
        arith,
        length-be_bytes k f (n / 256) ((n % 256) ∷ acc) (let p = pow-suc 256 k in omega arith),
      ))
]

be_bytes-IsByte : (f n : ℕ) (acc : Bytes) → All IsByte acc → All IsByte (be_bytes f n acc)
unfolding be_bytes
be_bytes-IsByte zero n acc h = h
be_bytes-IsByte (suc f) n acc h = elim (Bool-cases (n == 0)) [
  | inl e ↦ rw e h
  | inr e ↦ rw e (be_bytes-IsByte f (n / 256) ((n % 256) ∷ acc) (omega arith, h))
]

-- The sign in the top bit of the first byte, or in a byte of its own where that bit is taken.
unfoldable pub seal : ℕ → Bytes → Bytes
seal sign [] = []
seal sign (b ∷ bs) = if ltb b 128 then (b + 128 * sign) ∷ bs else (128 * sign) ∷ b ∷ bs

unfoldable pub unseal : Bytes → ℤ
unfolding signed be_value
unseal [] = pos 0
unseal (b ∷ bs) = signed (b / 128) (be_value ((b % 128) ∷ bs))

unseal-seal : (k : ℕ) (bs : Bytes) → k < 2 → unseal (seal k bs) ≡ signed k (be_value bs)
unfolding unseal seal
unseal-seal k [] h = ground arith
unseal-seal k (b ∷ bs) h = elim (Bool-cases (ltb b 128)) [
  | inl e ↦ rw e (
      let q : (b + 128 * k) / 128 ≡ k = ground arith in
      let r : (b + 128 * k) % 128 ≡ b = ground arith in rw (q, r))
  | inr e ↦ rw e (
      let q : 128 * k / 128 ≡ k = omega arith in
      let r : 128 * k % 128 ≡ 0 = omega arith in rw (q, r) (ground arith))
]

unfoldable pub payload : ℤ → Bytes
unfolding be_bytes seal
payload (pos n) = seal 0 (be_bytes n n [])
payload (negsuc n) = seal 1 (be_bytes (suc n) (suc n) [])

abbrev bn_word : ℤ → ℕ
bn_word z = pos_part z + neg_part z

abbrev pub simple : BnLib
simple = record {
  mpi2bn = λ m. unseal (drop 4 m);
  bn2mpi = λ z. be4 (length (payload z)) ++ payload z;
  set_word = pos;
  get_word = bn_word;
  is_negative = λ z. ltb_ℤ z (pos 0);
  negated = λ z. pos 0 -ℤ z;
  add = ◌+ℤ◌;
  sub = ◌-ℤ◌;
  mul = ◌*ℤ◌;
  div = λ a b. if eqb_ℤ b (pos 0) then none else some (quotient a b);
  rem = λ a b. if eqb_ℤ b (pos 0) then none else some (remainder a b);
  lshift = λ z k. z *ℤ pos (2 ^ k);
  rshift = λ z k. quotient z (pos (2 ^ k));
  below = ltb_ℤ;
  same = eqb_ℤ;
}
  where
    quotient : ℤ → ℤ → ℤ
    quotient a b = signed (if ltb_ℤ a (pos 0) then 1 else 0) (bn_word a / bn_word b)

    remainder : ℤ → ℤ → ℤ
    remainder a b = signed (if ltb_ℤ a (pos 0) then 1 else 0) (bn_word a % bn_word b)

unseal-payload : (z : ℤ) → unseal (payload z) ≡ z
unfolding payload signed be_value
unseal-payload (pos n) =
    unseal-seal 0 (be_bytes n n []) (omega arith)
    ∙ ground (arith, be_value-be_bytes n n [] (omega arith))
unseal-payload (negsuc n) =
    unseal-seal 1 (be_bytes (suc n) (suc n) []) (omega arith)
    ∙ ground (arith, be_value-be_bytes (suc n) (suc n) [] (omega arith))

seal-IsByte : (k : ℕ) (bs : Bytes) → k < 2 → All IsByte bs → All IsByte (seal k bs)
unfolding seal
seal-IsByte k [] h p = p
seal-IsByte k (b ∷ bs) h (p, ps) = elim (Bool-cases (ltb b 128)) [
  | inl e ↦ rw e (ground arith, ps)
  | inr e ↦ rw e (ground arith, (p, ps))
]

payload-IsByte : (z : ℤ) → All IsByte (payload z)
unfolding payload
payload-IsByte (pos n) = seal-IsByte 0 (be_bytes n n []) (omega arith) (be_bytes-IsByte n n [] tt)
payload-IsByte (negsuc n) =
    seal-IsByte 1 (be_bytes (suc n) (suc n) []) (omega arith)
      (be_bytes-IsByte (suc n) (suc n) [] tt)

pow_le : (j k : ℕ) → j ≤ k → 256 ^ j ≤ 256 ^ k
pow_le zero zero h = omega arith
pow_le zero (suc k) h = let p = pow-suc 256 k in omega (arith, pow_le zero k (omega arith))
pow_le (suc j) zero h = omega arith
pow_le (suc j) (suc k) h =
    let p = pow-suc 256 k in let q = pow-suc 256 j in omega (arith, pow_le j k (omega arith))

pub mul_le : (a b c : ℕ) → a ≤ b → a * c ≤ b * c
mul_le a b c h = grind arith

-- The number of the bytes leaves room for the sign where its double fits.
length-seal :
    (k s : ℕ) (bs : Bytes) → 2 * be_value bs < 256 ^ k → length bs ≤ k → length (seal s bs) ≤ k
unfolding seal be_value
length-seal k s [] h l = omega arith
length-seal k s (b ∷ bs) h l = elim (Bool-cases (ltb b 128)) [
  | inl e ↦ rw e (omega arith)
  | inr e ↦ rw e (elim (dec_lt (suc (length bs)) k) [
    | yes t ↦ omega arith
    | no t ↦
        let p = pow-suc 256 (length bs) in
        let m : 128 * 256 ^ length bs ≤ b * 256 ^ length bs =
          mul_le 128 b (256 ^ length bs) (ground arith) in
        let q = pow_le k (suc (length bs)) (omega arith) in omega arith
  ])
]

length-payload : (k : ℕ) (z : ℤ) → 2 * (pos_part z + neg_part z) < 256 ^ k → length (payload z) ≤ k
unfolding payload be_value
length-payload k (pos n) h =
    length-seal k 0 (be_bytes n n []) (rw (be_value-be_bytes n n [] (omega arith)) (omega arith))
      (omega (arith, length-be_bytes k n n [] (omega arith)))
length-payload k (negsuc n) h =
    length-seal k 1 (be_bytes (suc n) (suc n) [])
      (rw (be_value-be_bytes (suc n) (suc n) [] (omega arith)) (omega arith))
      (omega (arith, length-be_bytes k (suc n) (suc n) [] (omega arith)))

pub be_value_lt : (bs : Bytes) → All IsByte bs → be_value bs < 256 ^ length bs
unfolding be_value
be_value_lt [] h = omega arith
be_value_lt (b ∷ bs) (h, hs) =
    let ih = be_value_lt bs hs in
    let p = pow-suc 256 (length bs) in
    let m : b * 256 ^ length bs ≤ 255 * 256 ^ length bs = grind arith in omega arith

bn_word-signed : (s n : ℕ) → bn_word (signed s n) ≡ n
unfolding signed
bn_word-signed s n = ground arith

pow_le_3 : (k : ℕ) → k ≤ 3 → 256 ^ k ≤ 2 ^ 24
pow_le_3 zero h = omega arith
pow_le_3 (suc zero) h = omega arith
pow_le_3 (suc (suc zero)) h = omega arith
pow_le_3 (suc (suc (suc k))) h = let e : k ≡ 0 = omega arith in rw e (omega arith)

unseal_lt : (v : Bytes) → length v ≤ 4 → All IsByte v → bn_word (unseal v) < 2 ^ 31
unfolding unseal
unseal_lt [] h p = omega arith
unseal_lt (b ∷ bs) h (p, ps) =
    let q = pow_le_3 (length bs) (omega arith) in
    let v = be_value_lt bs ps in
    let m : b % 128 * 256 ^ length bs ≤ 127 * 256 ^ length bs = grind arith in
    omega (arith, bn_word-signed (b / 128) (b % 128 * 256 ^ length bs + be_value bs))

div_pos : (a b : ℕ) → 0 < b → simple.div (pos a) (pos b) ≡ some (pos (a / b))
unfolding signed
div_pos a b h = ground arith

rem_pos : (a b : ℕ) → 0 < b → simple.rem (pos a) (pos b) ≡ some (pos (a % b))
unfolding signed
rem_pos a b h = ground arith

pub simple-laws : BnLaws simple
unfolding signed unseal
simple-laws = record {
  set_word_lem = λ n h. refl;
  get_word_lem = λ n h. omega arith;
  is_negative_lem = λ z. refl;
  negated_lem = λ z. refl;
  add_lem = λ a b. refl;
  sub_lem = λ a b. refl;
  mul_lem = λ a b. refl;
  div_lem = div_pos;
  rem_lem = rem_pos;
  below_lem = λ a b. refl;
  same_lem = λ a b. refl;
  mpi2bn-bn2mpi = unseal-payload;
  bn2mpi-header = λ z. refl;
  bn2mpi-IsByte = λ z. (omega arith, (omega arith, (omega arith, (omega arith, payload-IsByte z))));
  length-bn2mpi = λ k z h. omega (arith, length-payload k z h);
  mpi2bn_lt = unseal_lt;
  mpi2bn_empty = refl;
  mpi2bn_lem = λ b v l h. refl;
}
