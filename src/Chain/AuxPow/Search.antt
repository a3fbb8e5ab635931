-- ===== src/Chain/AuxPow/Search.antt =====
-- src/auxpow.cpp: what `std::search` finds.
use ixcoin.Common.{
  ℕ, suc, ◌≡◌, refl, sym, ap, [], ◌∷◌, true, ◌==◌, length, take, drop, some, arith, Bool-cases,
  Option-cases, inl, inr,
}
use mathlib.Core.Path.{subst}
use mathlib.Core.Option.{some-injective}
use ixcoin.Serialize.{Bytes}
use ixcoin.Script.Parse.{starts_with}
use ixcoin.Chain.AuxPow.{search}

pub take-starts_with : (p s : Bytes) → starts_with p s ≡ true → take (length p) s ≡ p
unfolding starts_with
take-starts_with [] s e = refl
take-starts_with (b ∷ p) [] e = cc
take-starts_with (b ∷ p) (c ∷ s) e = elim (Bool-cases (b == c)) [
  | inl f ↦
      let q : b ≡ c = ground arith in
      rw (sym q) (ap (λ (l : Bytes). b ∷ l) (take-starts_with p s (rw f at e)))
  | inr f ↦ cc (rw f at e)
]

-- What is found stands at its offset, and starts with what was searched.
pub record IsFound (p s : Bytes) (n : ℕ) (t : Bytes) : Type 0 where
  pub found_at : t ≡ drop n s
  pub starts : starts_with p t ≡ true

pub search-IsFound : (p s : Bytes) (n : ℕ) (t : Bytes) → search p s ≡ some (n, t) → IsFound p s n t
unfolding search
search-IsFound p [] n t e = cc
search-IsFound p (b ∷ s) n t e = elim (Bool-cases (starts_with p (b ∷ s))) [
  | inl f ↦
      let q : (0, b ∷ s) ≡ (n, t) = some-injective _ _ (rw f at e) in
      subst (λ (x : ℕ × Bytes). IsFound p (b ∷ s) x.0 x.1) q
        (record { found_at = refl; starts = f })
  | inr f ↦ elim (Option-cases (search p s)) [
    | inl g ↦ cc (rw (f, g) at e)
    | inr ((k, u), g) ↦
        let q : (suc k, u) ≡ (n, t) = some-injective _ _ (rw (f, g) at e) in
        let i = search-IsFound p s k u g in
        subst (λ (x : ℕ × Bytes). IsFound p (b ∷ s) x.0 x.1) q
          (record { found_at = i.found_at; starts = i.starts })
  ]
]
