-- ===== src/Uint/Words.antt =====
-- The operations on words compute with the numbers that the words stand for.
use ixcoin.Common.{
  ℕ, zero, suc, ◌+◌, ◌-◌, ◌*◌, ◌/◌, ◌%◌, ◌≤◌, ◌<◌, ◌≡◌, ◌⊎◌, refl, sym, ap, ◌∙◌, [], ◌∷◌, Bool,
  true, false, ltb, leb, ◌==◌, if◌then◌else◌, Option, none, some, All, arith, Bool-cases, inl, inr,
}
use ixcoin.Uint.{
  word, Limbs, complement, increment, negate, add_loop, add, subtract, first_less, less, less_eq,
  greater, greater_eq, same_words,
}

-- The number that words stand for, and the numbers of a width.
abbrev pub number : Limbs → ℕ
number [] = 0
number (x ∷ xs) = x + word * number xs

abbrev pub modulus : Limbs → ℕ
modulus [] = 1
modulus (_ ∷ xs) = word * modulus xs

abbrev pub AreWords : Limbs → Type 0
AreWords = All (λ x. x < word)

-- Two numbers of the same width.
abbrev pub SameWidth : Limbs → Limbs → Type 0
SameWidth [] [] = Unit
SameWidth (x ∷ xs) (y ∷ ys) = SameWidth xs ys
SameWidth _ _ = ⊥

number_lt : (a : Limbs) → AreWords a → number a < modulus a
number_lt [] h = omega arith
number_lt (x ∷ xs) (h, hs) = omega (arith, number_lt xs hs)

mod_wrap : (s r m : ℕ) → r < m → s ≡ r + m → s % m ≡ r
mod_wrap s r m h e = grind arith

mod_keep : (s r m : ℕ) → r < m → s ≡ r → s % m ≡ r
mod_keep s r m h e = grind arith

add_loop_lem :
    (a b : Limbs) (c : ℕ)
    → SameWidth a b
    → AreWords a
    → AreWords b
    → c ≤ 1
    → AreWords (add_loop c a b)
      × (modulus (add_loop c a b) ≡ modulus a)
      × ((c + number a + number b ≡ number (add_loop c a b))
          ⊎ (c + number a + number b ≡ number (add_loop c a b) + modulus a))
unfolding add_loop
add_loop_lem [] [] zero w ha hb h = (tt, refl, inl (omega arith))
add_loop_lem [] [] (suc c) w ha hb h = (tt, refl, inr (omega arith))
add_loop_lem [] (y ∷ ys) c w ha hb h = absurd w
add_loop_lem (x ∷ xs) [] c w ha hb h = absurd w
add_loop_lem (x ∷ xs) (y ∷ ys) c w (hx, hxs) (hy, hys) h =
    let (ws, m, r) = add_loop_lem xs ys ((c + x + y) / word) w hxs hys (omega arith) in
    (
      (omega arith, ws),
      omega arith,
      elim r [ inl e ↦ inl (omega arith) | inr e ↦ inr (omega arith) ],
    )

complement_lem :
    (a : Limbs)
    → AreWords a
    → AreWords (complement a)
      × SameWidth a (complement a)
      × (modulus (complement a) ≡ modulus a)
      × (number (complement a) + number a + 1 ≡ modulus a)
unfolding complement
complement_lem [] h = (tt, tt, refl, omega arith)
complement_lem (x ∷ xs) (h, hs) =
    let (w, s, m, e) = complement_lem xs hs in ((omega arith, w), s, omega arith, omega arith)

SameWidth-refl : (a : Limbs) → SameWidth a a
SameWidth-refl [] = tt
SameWidth-refl (x ∷ xs) = SameWidth-refl xs

SameWidth-trans : (a b c : Limbs) → SameWidth a b → SameWidth b c → SameWidth a c
SameWidth-trans [] [] [] h k = tt
SameWidth-trans (x ∷ xs) (y ∷ ys) (z ∷ zs) h k = SameWidth-trans xs ys zs h k
SameWidth-trans [] [] (z ∷ zs) h k = k
SameWidth-trans [] (y ∷ ys) c h k = absurd h
SameWidth-trans (x ∷ xs) [] c h k = absurd h
SameWidth-trans (x ∷ xs) (y ∷ ys) [] h k = absurd k

SameWidth-sym : (a b : Limbs) → SameWidth a b → SameWidth b a
SameWidth-sym [] [] h = tt
SameWidth-sym (x ∷ xs) (y ∷ ys) h = SameWidth-sym xs ys h
SameWidth-sym [] (y ∷ ys) h = h
SameWidth-sym (x ∷ xs) [] h = h

modulus-SameWidth : (a b : Limbs) → SameWidth a b → modulus a ≡ modulus b
modulus-SameWidth [] [] h = refl
modulus-SameWidth (x ∷ xs) (y ∷ ys) h = omega (arith, modulus-SameWidth xs ys h)
modulus-SameWidth [] (y ∷ ys) h = absurd h
modulus-SameWidth (x ∷ xs) [] h = absurd h

increment_lem :
    (a : Limbs)
    → AreWords a
    → AreWords (increment a)
      × SameWidth a (increment a)
      × ((number a + 1 ≡ number (increment a)) ⊎ (number a + 1 ≡ number (increment a) + modulus a))
unfolding increment
increment_lem [] h = (tt, tt, inr (omega arith))
increment_lem (x ∷ xs) (h, hs) = elim (Bool-cases ((x + 1) % word == 0)) [
  | inl e ↦
      let (w, s, r) = increment_lem xs hs in
      let z : (x + 1) % word ≡ 0 = ground arith in
      rw e ((omega arith, w), s, elim r [ inl f ↦ inl (omega arith) | inr f ↦ inr (omega arith) ])
  | inr e ↦
      let z : 0 < (x + 1) % word = ground arith in
      rw e ((omega arith, hs), SameWidth-refl xs, inl (omega arith))
]

negate_lem :
    (a : Limbs)
    → AreWords a
    → AreWords (negate a)
      × SameWidth a (negate a)
      × ((number a + number (negate a) ≡ modulus a) ⊎ (number a + number (negate a) ≡ 0))
unfolding negate
negate_lem a h =
    let (w, s, m, e) = complement_lem a h in
    let (w', s', r) = increment_lem (complement a) w in
    (
      w',
      SameWidth-trans a (complement a) (increment (complement a)) s s',
      elim r [ inl f ↦ inl (omega arith) | inr f ↦ inr (omega arith) ],
    )

-- `operator+=` adds two numbers of the same width, and `operator-=` subtracts them, both modulo 2 to
-- the number of their bits.
pub add-number :
    (a b : Limbs)
    → SameWidth a b
    → AreWords a
    → AreWords b
    → (number (add a b) ≡ (number a + number b) % modulus a)
      × (number (subtract a b) ≡ (number a + (modulus a - number b)) % modulus a)
unfolding add subtract
add-number a b w ha hb = (sum, difference)
  where
    sum_of :
        (c : Limbs)
        → SameWidth a c
        → AreWords c
        → number (add_loop 0 a c) ≡ (number a + number c) % modulus a
    sum_of c w' hc =
        let (ws, m, r) = add_loop_lem a c 0 w' ha hc (omega arith) in
        let small = number_lt (add_loop 0 a c) ws in
        elim r [
          | inl e ↦ sym (mod_keep (number a + number c) _ (modulus a) (omega arith) (omega arith))
          | inr e ↦ sym (mod_wrap (number a + number c) _ (modulus a) (omega arith) (omega arith))
        ]

    sum : number (add_loop 0 a b) ≡ (number a + number b) % modulus a
    sum = sum_of b w hb

    difference : number (add_loop 0 a (negate b)) ≡ (number a + (modulus a - number b)) % modulus a
    difference =
        let (wn, sn, r) = negate_lem b hb in
        let m = modulus-SameWidth a b w in
        let e = sum_of (negate b) (SameWidth-trans a b (negate b) w sn) wn in
        elim r [
          | inl f ↦ e ∙ ap (λ z. (number a + z) % modulus a) (omega arith)
          | inr f ↦
              e
              ∙ zero_case (number a) (number b) (number (negate b)) (modulus a) f
                  (omega (arith, number_lt a ha))
        ]
      where
        zero_case : (x y n m : ℕ) → y + n ≡ 0 → x < m → (x + n) % m ≡ (x + (m - y)) % m
        zero_case x y n m f l =
            let p : (x + n) % m ≡ x = mod_keep (x + n) x m l (omega arith) in
            let q : (x + (m - y)) % m ≡ x = mod_wrap (x + (m - y)) x m l (omega arith) in p ∙ sym q

abbrev trichotomy : ℕ → ℕ → Option Bool
trichotomy a b = if ltb a b then some true else if ltb b a then some false else none

-- The higher words decide, and the lowest one where they are equal.
compare_words :
    (x y m n : ℕ)
    → x < word
    → y < word
    → (elim (trichotomy m n) [ some r ↦ some r | none ↦ trichotomy x y ])
      ≡ trichotomy (x + word * m) (y + word * n)
compare_words x y m n hx hy = elim (Bool-cases (ltb m n)) [
  | inl e ↦ let f : ltb (x + word * m) (y + word * n) ≡ true = ground arith in rw (e, f)
  | inr e ↦ elim (Bool-cases (ltb n m)) [
    | inl f ↦
        let g : ltb (x + word * m) (y + word * n) ≡ false = ground arith in
        let h : ltb (y + word * n) (x + word * m) ≡ true = ground arith in rw (e, f, g, h)
    | inr f ↦
        let q : m ≡ n = ground arith in
        let g : ltb (x + word * m) (y + word * n) ≡ ltb x y = ground arith in
        let h : ltb (y + word * n) (x + word * m) ≡ ltb y x = ground arith in rw (e, f, g, h)
  ]
]

first_less_lem :
    (a b : Limbs)
    → SameWidth a b
    → AreWords a
    → AreWords b
    → first_less a b ≡ trichotomy (number a) (number b)
unfolding first_less
first_less_lem [] [] w ha hb = refl
first_less_lem [] (y ∷ ys) w ha hb = absurd w
first_less_lem (x ∷ xs) [] w ha hb = absurd w
first_less_lem (x ∷ xs) (y ∷ ys) w (hx, hxs) (hy, hys) =
    rw (first_less_lem xs ys w hxs hys) (compare_words x y (number xs) (number ys) hx hy)

-- Two numbers of the same width are equal where their words are.
same_words_lem :
    (a b : Limbs)
    → SameWidth a b
    → AreWords a
    → AreWords b
    → same_words a b ≡ (number a == number b)
unfolding same_words
same_words_lem [] [] w ha hb = refl
same_words_lem [] (y ∷ ys) w ha hb = absurd w
same_words_lem (x ∷ xs) [] w ha hb = absurd w
same_words_lem (x ∷ xs) (y ∷ ys) w (hx, hxs) (hy, hys) = elim (Bool-cases (x == y)) [
  | inl e ↦ rw (e, same_words_lem xs ys w hxs hys) (ground arith)
  | inr e ↦ rw e (ground arith)
]

-- The comparisons `<`, `<=`, `>`, `>=` and `==` of two numbers of the same width are those of the
-- numbers that their words stand for.
pub less-number :
    (a b : Limbs)
    → SameWidth a b
    → AreWords a
    → AreWords b
    → (less a b ≡ ltb (number a) (number b))
      × (less_eq a b ≡ leb (number a) (number b))
      × (greater a b ≡ ltb (number b) (number a))
      × (greater_eq a b ≡ leb (number b) (number a))
      × (same_words a b ≡ (number a == number b))
unfolding less less_eq greater greater_eq
less-number a b w ha hb =
    let e = first_less_lem a b w ha hb in
    let f = first_less_lem b a (SameWidth-sym a b w) hb ha in
    (
      rw e (ground arith),
      rw e (ground arith),
      rw f (ground arith),
      rw f (ground arith),
      same_words_lem a b w ha hb,
    )
