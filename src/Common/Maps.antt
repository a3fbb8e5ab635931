-- ===== src/Common/Maps.antt =====
-- A map is a function from its keys, and a vector changes at one place.
use Prim.Native.Nat.{ℕ, zero, suc, ◌<◌}
use mathlib.Core.Path.{◌≡◌, refl, sym, ap, fun_ext}
use mathlib.Core.Logic.{◌≢◌, ◌⊎◌, inl, inr}
use mathlib.Core.List.{List, [], ◌∷◌}
use mathlib.Core.Option.{Option, none, some, some-injective}
use native.Mathlib.Omega.{arith}
use ixcoin.Common.Tests.{◌==◌, if◌then◌else◌}
use ixcoin.Common.Lists.{length, get_elem?, replicate}

module _ {ℓ} {A : Type ℓ} where
  -- `m[k] = v`
  abbrev pub put : ℕ → A → (ℕ → Option A) → ℕ → Option A
  put k v m j = if j == k then some v else m j

  -- `m.erase(k)`
  abbrev pub erase : ℕ → (ℕ → Option A) → ℕ → Option A
  erase k m j = if j == k then none else m j

  pub erase-put : (k : ℕ) (v : A) (m : ℕ → Option A) → m k ≡ none → erase k (put k v m) ≡ m
  erase-put k v m h = fun_ext λ j. ground arith

  -- `l[n] = a`, which is a fault past the end.
  abbrev pub set : List A → ℕ → A → List A
  set [] n a = []
  set (x ∷ xs) zero a = a ∷ xs
  set (x ∷ xs) (suc n) a = x ∷ set xs n a

  pub length-set : (l : List A) (n : ℕ) (a : A) → length (set l n a) ≡ length l
  length-set [] n a = refl
  length-set (x ∷ xs) zero a = refl
  length-set (x ∷ xs) (suc n) a = ap suc (length-set xs n a)

  pub set_comm : (l : List A) (m n : ℕ) (a : A) → set (set l m a) n a ≡ set (set l n a) m a
  set_comm [] m n a = refl
  set_comm (x ∷ xs) zero zero a = refl
  set_comm (x ∷ xs) zero (suc n) a = refl
  set_comm (x ∷ xs) (suc m) zero a = refl
  set_comm (x ∷ xs) (suc m) (suc n) a = ap (λ l. x ∷ l) (set_comm xs m n a)

  pub set-set : (l : List A) (n : ℕ) (a b : A) → get_elem? l n ≡ some b → set (set l n a) n b ≡ l
  set-set [] n a b h = cc
  set-set (x ∷ xs) zero a b h = ap (λ y. y ∷ xs) (sym (some-injective _ _ h))
  set-set (x ∷ xs) (suc n) a b h = ap (λ l. x ∷ l) (set-set xs n a b h)

  pub get_elem?-set :
      (l : List A) (n : ℕ) (a b : A) → get_elem? l n ≡ some b → get_elem? (set l n a) n ≡ some a
  get_elem?-set [] n a b h = cc
  get_elem?-set (x ∷ xs) zero a b h = refl
  get_elem?-set (x ∷ xs) (suc n) a b h = get_elem?-set xs n a b h

  -- An element after a change is the new one, or was there before.
  pub get_elem?-set-cases :
      (l : List A) (m n : ℕ) (a b : A)
      → get_elem? (set l n a) m ≡ some b
      → (b ≡ a) ⊎ (get_elem? l m ≡ some b)
  get_elem?-set-cases [] m n a b h = cc
  get_elem?-set-cases (x ∷ xs) zero zero a b h = inl (sym (some-injective _ _ h))
  get_elem?-set-cases (x ∷ xs) zero (suc n) a b h = inr h
  get_elem?-set-cases (x ∷ xs) (suc m) zero a b h = inr h
  get_elem?-set-cases (x ∷ xs) (suc m) (suc n) a b h = get_elem?-set-cases xs m n a b h

  pub get_elem?-set_ne :
      (l : List A) (m n : ℕ) (a : A) → m ≢ n → get_elem? (set l n a) m ≡ get_elem? l m
  get_elem?-set_ne [] m n a h = refl
  get_elem?-set_ne (x ∷ xs) zero zero a h = absurd (h refl)
  get_elem?-set_ne (x ∷ xs) zero (suc n) a h = refl
  get_elem?-set_ne (x ∷ xs) (suc m) zero a h = refl
  get_elem?-set_ne (x ∷ xs) (suc m) (suc n) a h = get_elem?-set_ne xs m n a (λ e. h (ap suc e))

  pub get_elem?-replicate : (n m : ℕ) (a b : A) → get_elem? (replicate n a) m ≡ some b → b ≡ a
  get_elem?-replicate zero m a b h = cc
  get_elem?-replicate (suc n) zero a b h = sym (some-injective _ _ h)
  get_elem?-replicate (suc n) (suc m) a b h = get_elem?-replicate n m a b h

  pub get_elem?-set-none :
      (l : List A) (n : ℕ) (a : A) → get_elem? l n ≡ none → get_elem? (set l n a) n ≡ none
  get_elem?-set-none [] n a h = refl
  get_elem?-set-none (x ∷ xs) zero a h = cc
  get_elem?-set-none (x ∷ xs) (suc n) a h = get_elem?-set-none xs n a h

  pub get_elem?_lt : (l : List A) (n : ℕ) (a : A) → get_elem? l n ≡ some a → n < length l
  get_elem?_lt [] n a h = cc
  get_elem?_lt (x ∷ xs) zero a h = omega arith
  get_elem?_lt (x ∷ xs) (suc n) a h = omega (arith, get_elem?_lt xs n a h)

  pub get_elem?_in : (l : List A) (n : ℕ) → n < length l → (a : A) × (get_elem? l n ≡ some a)
  get_elem?_in [] n h = absurd (omega arith)
  get_elem?_in (x ∷ xs) zero h = (x, refl)
  get_elem?_in (x ∷ xs) (suc n) h = get_elem?_in xs n (omega arith)

-- As many copies as a list has elements stand where it has any.
pub get_elem?-replicate-length {ℓ κ} :
    {A : Type ℓ} {B : Type κ} (l : List B) (a : A) (n : ℕ) (b : B)
    → get_elem? l n ≡ some b
    → get_elem? (replicate (length l) a) n ≡ some a
get_elem?-replicate-length [] a n b h = cc
get_elem?-replicate-length (x ∷ xs) a zero b h = refl
get_elem?-replicate-length (x ∷ xs) a (suc n) b h = get_elem?-replicate-length xs a n b h

pub get_elem?-replicate-length-none {ℓ κ} :
    {A : Type ℓ} {B : Type κ} (l : List B) (a : A) (n : ℕ)
    → get_elem? l n ≡ none
    → get_elem? (replicate (length l) a) n ≡ none
get_elem?-replicate-length-none [] a n h = refl
get_elem?-replicate-length-none (x ∷ xs) a zero h = cc
get_elem?-replicate-length-none (x ∷ xs) a (suc n) h = get_elem?-replicate-length-none xs a n h
