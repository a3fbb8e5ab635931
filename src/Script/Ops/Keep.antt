-- ===== src/Script/Ops/Keep.antt =====
-- The stack operations put nothing on a stack that is not a value they found there or an item of their
-- own making.
use ixcoin.Common.{
  ℕ, suc, ◌≡◌, refl, [], ◌∷◌, ◌++◌, Bool, true, false, leb, length, take, drop, get_elem?, Option,
  none, some, All, All-append, All-take, All-drop, All-get_elem?, if◌then◌else◌,
}
use mathlib.Core.Option.{some-injective}
use mathlib.Core.Path.{subst}
use ixcoin.Common.Int.{ℤ, pos, negsuc}
use ixcoin.Serialize.{Bytes}
use ixcoin.Bignum.{get_int}
use ixcoin.Bignum.OpenSsl.{BnLib}
use ixcoin.Script.Machine.{cast_to_bool, cast_to_big_num}
use ixcoin.Common.{◌>>=◌}
use ixcoin.Script.Ops.Stack.{
  Stack, to_alt_stack, from_alt_stack, two_drop, two_dup, three_dup, two_over, two_rot, two_swap,
  if_dup, drop_top, dup, nip, over, pick_at, pick_index, pick, rot, swap, tuck,
}

-- The predicate holds of the result, if there is one.
abbrev pub Every {ℓ κ} : {A : Type ℓ} → (A → Type κ) → Option A → Type κ
Every P none = Unit
Every P (some a) = P a

pub Every-bind {ℓ κ μ} :
    {A : Type ℓ} {B : Type κ} (P : B → Type μ) (o : Option A) (f : A → Option B)
    → ((a : A) → o ≡ some a → Every P (f a))
    → Every P (o >>= f)
Every-bind P none f h = tt
Every-bind P (some a) f h = h a refl

pub Every-at {ℓ μ} :
    {A : Type ℓ} (P : A → Type μ) (o : Option A) (a : A) → Every P o → o ≡ some a → P a
Every-at P none a h e = cc
Every-at P (some b) a h e = subst P (some-injective _ _ e) h

-- A test that did not turn the result down.
pub if_none {ℓ} :
    {A : Type ℓ} (b : Bool) (o : Option A) (a : A)
    → (if b then none else o) ≡ some a
    → (b ≡ false) × (o ≡ some a)
if_none true o a e = cc
if_none false o a e = (refl, e)

pub Every-if {ℓ μ} :
    {A : Type ℓ} (P : A → Type μ) (b : Bool) (x y : Option A)
    → Every P x
    → Every P y
    → Every P (if b then x else y)
Every-if P true x y h k = h
Every-if P false x y h k = k

module _ (P : Bytes → Type 0) where
  abbrev Both : Stack × Stack → Type 0
  Both p = All P p.0 × All P p.1

  pub to_alt_stack-keeps : (s alt : Stack) → All P s → All P alt → Every Both (to_alt_stack s alt)
  unfolding to_alt_stack
  to_alt_stack-keeps [] alt h k = tt
  to_alt_stack-keeps (a ∷ s) alt (h, hs) k = (hs, (h, k))

  pub from_alt_stack-keeps :
      (s alt : Stack) → All P s → All P alt → Every Both (from_alt_stack s alt)
  unfolding from_alt_stack
  from_alt_stack-keeps s [] h k = tt
  from_alt_stack-keeps s (a ∷ alt) h (k, ks) = ((k, h), ks)

  pub two_drop-keeps : (s : Stack) → All P s → Every (All P) (two_drop s)
  unfolding two_drop
  two_drop-keeps (b ∷ a ∷ s) (hb, (ha, hs)) = hs
  two_drop-keeps _ h = tt

  pub two_dup-keeps : (s : Stack) → All P s → Every (All P) (two_dup s)
  unfolding two_dup
  two_dup-keeps (b ∷ a ∷ s) (hb, (ha, hs)) = (hb, (ha, (hb, (ha, hs))))
  two_dup-keeps _ h = tt

  pub three_dup-keeps : (s : Stack) → All P s → Every (All P) (three_dup s)
  unfolding three_dup
  three_dup-keeps (c ∷ b ∷ a ∷ s) (hc, (hb, (ha, hs))) = (hc, (hb, (ha, (hc, (hb, (ha, hs))))))
  three_dup-keeps _ h = tt

  pub two_over-keeps : (s : Stack) → All P s → Every (All P) (two_over s)
  unfolding two_over
  two_over-keeps (d ∷ c ∷ b ∷ a ∷ s) (hd, (hc, (hb, (ha, hs)))) =
      (hb, (ha, (hd, (hc, (hb, (ha, hs))))))
  two_over-keeps _ h = tt

  pub two_rot-keeps : (s : Stack) → All P s → Every (All P) (two_rot s)
  unfolding two_rot
  two_rot-keeps (f ∷ e ∷ d ∷ c ∷ b ∷ a ∷ s) (hf, (he, (hd, (hc, (hb, (ha, hs)))))) =
      (hb, (ha, (hf, (he, (hd, (hc, hs))))))
  two_rot-keeps _ h = tt

  pub two_swap-keeps : (s : Stack) → All P s → Every (All P) (two_swap s)
  unfolding two_swap
  two_swap-keeps (d ∷ c ∷ b ∷ a ∷ s) (hd, (hc, (hb, (ha, hs)))) = (hb, (ha, (hd, (hc, hs))))
  two_swap-keeps _ h = tt

  pub if_dup-keeps : (s : Stack) → All P s → Every (All P) (if_dup s)
  unfolding if_dup
  if_dup-keeps [] h = tt
  if_dup-keeps (a ∷ s) (ha, hs) = Every-if (All P) (cast_to_bool a) _ _ (ha, (ha, hs)) (ha, hs)

  pub drop_top-keeps : (s : Stack) → All P s → Every (All P) (drop_top s)
  unfolding drop_top
  drop_top-keeps [] h = tt
  drop_top-keeps (a ∷ s) (ha, hs) = hs

  pub dup-keeps : (s : Stack) → All P s → Every (All P) (dup s)
  unfolding dup
  dup-keeps [] h = tt
  dup-keeps (a ∷ s) (ha, hs) = (ha, (ha, hs))

  pub nip-keeps : (s : Stack) → All P s → Every (All P) (nip s)
  unfolding nip
  nip-keeps (b ∷ a ∷ s) (hb, (ha, hs)) = (hb, hs)
  nip-keeps _ h = tt

  pub over-keeps : (s : Stack) → All P s → Every (All P) (over s)
  unfolding over
  over-keeps (b ∷ a ∷ s) (hb, (ha, hs)) = (ha, (hb, (ha, hs)))
  over-keeps _ h = tt

  pub rot-keeps : (s : Stack) → All P s → Every (All P) (rot s)
  unfolding rot
  rot-keeps (c ∷ b ∷ a ∷ s) (hc, (hb, (ha, hs))) = (ha, (hc, (hb, hs)))
  rot-keeps _ h = tt

  pub swap-keeps : (s : Stack) → All P s → Every (All P) (swap s)
  unfolding swap
  swap-keeps (b ∷ a ∷ s) (hb, (ha, hs)) = (ha, (hb, hs))
  swap-keeps _ h = tt

  pub tuck-keeps : (s : Stack) → All P s → Every (All P) (tuck s)
  unfolding tuck
  tuck-keeps (b ∷ a ∷ s) (hb, (ha, hs)) = (hb, (ha, (hb, hs)))
  tuck-keeps _ h = tt

  pick_at-keeps : (roll : Bool) (n : ℕ) (s : Stack) → All P s → Every (All P) (pick_at roll n s)
  unfolding pick_at
  pick_at-keeps roll n s h =
      Every-if (All P) (leb (length s) n) _ _ tt
        (Every-bind (All P) (get_elem? s n) _ λ v e. (All-get_elem? P s n v h e, rest roll))
    where
      rest : (roll : Bool) → All P (if roll then take n s ++ drop (suc n) s else s)
      rest true = All-append P (take n s) _ (All-take P n s h) (All-drop P (suc n) s h)
      rest false = h

  pub pick-keeps : (bn : BnLib) (roll : Bool) (s : Stack) → All P s → Every (All P) (pick bn roll s)
  unfolding pick pick_index
  pick-keeps bn roll (b ∷ a ∷ s) (hb, (ha, hs)) =
      Every-bind (All P) (cast_to_big_num bn b) _ λ z _. at (get_int bn z)
    where
      at : (i : ℤ) → Every (All P) (pick_index roll i (a ∷ s))
      at (negsuc n) = tt
      at (pos n) = pick_at-keeps roll n (a ∷ s) (ha, hs)
  pick-keeps bn roll _ h = tt
