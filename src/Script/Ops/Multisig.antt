-- ===== src/Script/Ops/Multisig.antt =====
-- src/script.cpp: what the loop of OP_CHECKMULTISIG decides.
use ixcoin.Common.{
  ℕ, suc, ◌≤◌, ◌≡◌, ◌↔◌, refl, sym, ◌∙◌, List, [], ◌∷◌, Bool, true, false, ltb, if◌then◌else◌,
  length, arith, Bool-cases, inl, inr, not-ltb_of_le,
}
use mathlib.Core.Path.{subst}
use ixcoin.Serialize.{Bytes}
use ixcoin.Script.Ops.Crypto.{multisig_loop}

-- Each signature is good under a key of its own, and the keys come in the order of the signatures.
pub data Matching (good : Bytes → Bytes → Bool) : List Bytes → List Bytes → Type 0 where
  done : (keys : List Bytes) → Matching good [] keys
  use_key :
      {sigs keys : List Bytes} (sig key : Bytes)
      → good sig key ≡ true
      → Matching good sigs keys
      → Matching good (sig ∷ sigs) (key ∷ keys)
  skip_key :
      {sigs keys : List Bytes} (key : Bytes)
      → Matching good sigs keys
      → Matching good sigs (key ∷ keys)

module _ (good : Bytes → Bytes → Bool) where
  Matching-length : {sigs keys : List Bytes} → Matching good sigs keys → length sigs ≤ length keys
  Matching-length (done keys) = omega arith
  Matching-length (use_key sig key g m) = omega (arith, Matching-length m)
  Matching-length (skip_key key m) = omega (arith, Matching-length m)

  -- A match of more signatures has one of fewer in it.
  drop_first :
      {all keys : List Bytes} (sig : Bytes) (sigs : List Bytes)
      → Matching good all keys
      → all ≡ sig ∷ sigs
      → Matching good sigs keys
  drop_first sig sigs (done keys) e = cc
  drop_first sig sigs (use_key {sigs = ss} {keys = ks} s key g m) e =
      skip_key key (subst (λ l. Matching good l ks) (tail_eq e) m)
    where
      tail_eq : s ∷ ss ≡ sig ∷ sigs → ss ≡ sigs
      tail_eq q = cc
  drop_first sig sigs (skip_key key m) e = skip_key key (drop_first sig sigs m e)

  -- Where the first signature is good under the first key, nothing is lost by using that key for it.
  use_first :
      {all left : List Bytes} (sig key : Bytes) (sigs keys : List Bytes)
      → Matching good all left
      → all ≡ sig ∷ sigs
      → left ≡ key ∷ keys
      → Matching good sigs keys
  use_first sig key sigs keys (done _) e f = cc
  use_first sig key sigs keys (use_key {sigs = ss} {keys = ks} s k g m) e f =
      subst (λ l. Matching good l keys) (let q : ss ≡ sigs = cc in q)
        (subst (λ l. Matching good ss l) (let q : ks ≡ keys = cc in q) m)
  use_first sig key sigs keys (skip_key {keys = ks} k m) e f =
      subst (λ l. Matching good sigs l) (let q : ks ≡ keys = cc in q) (drop_first sig sigs m e)

  skip_first :
      {all left : List Bytes} (sig key : Bytes) (sigs keys : List Bytes)
      → good sig key ≡ false
      → Matching good all left
      → all ≡ sig ∷ sigs
      → left ≡ key ∷ keys
      → Matching good (sig ∷ sigs) keys
  skip_first sig key sigs keys b (done _) e f = cc
  skip_first sig key sigs keys b (use_key s k g m) e f =
      let p : s ≡ sig = cc in let q : k ≡ key = cc in cc (sym (rw (p, q) at g) ∙ b)
  skip_first sig key sigs keys b (skip_key {sigs = ss} {keys = ks} k m) e f =
      subst (λ l. Matching good l keys) e
        (subst (λ l. Matching good ss l) (let q : ks ≡ keys = cc in q) m)

  multisig_loop_sound :
      (sigs keys : List Bytes) → multisig_loop good sigs keys ≡ true → Matching good sigs keys
  unfolding multisig_loop
  multisig_loop_sound [] keys e = done keys
  multisig_loop_sound (sig ∷ sigs) [] e = cc
  multisig_loop_sound (sig ∷ sigs) (key ∷ keys) e = elim (Bool-cases (good sig key)) [
    | inl g ↦
        use_key sig key g
          (multisig_loop_sound sigs keys (later (length keys) (length sigs) _ (rw g at e)))
    | inr g ↦ skip_key key (
        multisig_loop_sound (sig ∷ sigs) keys
          (later (length keys) (suc (length sigs)) _ (rw g at e)))
  ]
    where
      later : (m n : ℕ) (b : Bool) → (if ltb m n then false else b) ≡ true → b ≡ true
      later m n b q = ground arith

  multisig_loop_complete :
      (sigs keys : List Bytes) → Matching good sigs keys → multisig_loop good sigs keys ≡ true
  unfolding multisig_loop
  multisig_loop_complete [] keys m = refl
  multisig_loop_complete (sig ∷ sigs) [] m = absurd (omega (arith, Matching-length m))
  multisig_loop_complete (sig ∷ sigs) (key ∷ keys) m = elim (Bool-cases (good sig key)) [
    | inl g ↦
        let m' = use_first sig key sigs keys m refl refl in
        rw (g, not-ltb_of_le (length keys) (length sigs) (Matching-length m'))
          (multisig_loop_complete sigs keys m')
    | inr g ↦
        let m' = skip_first sig key sigs keys g m refl refl in
        rw (g, not-ltb_of_le (length keys) (suc (length sigs)) (Matching-length m'))
          (multisig_loop_complete (sig ∷ sigs) keys m')
  ]

  -- The loop of OP_CHECKMULTISIG, which tries each key once and gives up early, finds that the
  -- signatures are good exactly where they can be matched to keys in order, each to one of its own.
  pub multisig_loop_iff :
      (sigs keys : List Bytes) → (multisig_loop good sigs keys ≡ true) ↔ Matching good sigs keys
  multisig_loop_iff sigs keys = (multisig_loop_sound sigs keys, multisig_loop_complete sigs keys)
