-- ===== src/Chain/Merkle/Binding.antt =====
-- src/main.h: what a root says of the hash that `CheckMerkleBranch` started from.
use ixcoin.Common.{
  take-append, drop-append, ℕ, ◌^◌, ◌<◌, ◌≡◌, ◌≢◌, ◌⊎◌, refl, sym, ap, ◌∙◌, List, [], ◌∷◌, ◌++◌,
  false, if◌then◌else◌, length, take, drop, All, arith, ℕ_discrete, Bool-cases, inl, inr,
}
use ixcoin.Common.Int.{ℤ, negsuc, eqb_ℤ}
use ixcoin.Serialize.{Bytes, IsByte, le_bytes, of_le_bytes}
use ixcoin.Serialize.RoundTrip.{length-le_bytes, of_le_bytes-le_bytes}
use ixcoin.Hash.{HashLib, HashLaws, hash, hash_bytes, hash_pair}
use ixcoin.Chain.Merkle.{is_odd, half, join, check_loop, check_merkle_branch}
use mathlib.Core.Path.{subst}
use native.Mathlib.Nat.{pow-suc}

-- The 64 bytes over which a node is hashed, with what stands beside it: the node comes second where its
-- index is odd.
abbrev pub pair_bytes : ℤ → ℕ → ℕ → Bytes
pair_bytes i node other =
    if is_odd i
    then le_bytes 32 other ++ le_bytes 32 node
    else le_bytes 32 node ++ le_bytes 32 other

-- At one height of two branches that go up from the same index, different bytes are hashed to the same.
pub data PathCollision (h : HashLib) : ℤ → ℕ → List ℕ → ℕ → List ℕ → Type 0 where
  here :
      {i : ℤ} {a b o p : ℕ} {s t : List ℕ}
      → pair_bytes i a o ≢ pair_bytes i b p
      → hash h (pair_bytes i a o) ≡ hash h (pair_bytes i b p)
      → PathCollision h i a (o ∷ s) b (p ∷ t)
  above :
      {i : ℤ} {a b o p : ℕ} {s t : List ℕ}
      → PathCollision h (half i) (hash h (pair_bytes i a o)) s (hash h (pair_bytes i b p)) t
      → PathCollision h i a (o ∷ s) b (p ∷ t)

le_bytes_injective : (a b : ℕ) → a < 2 ^ 256 → b < 2 ^ 256 → le_bytes 32 a ≡ le_bytes 32 b → a ≡ b
le_bytes_injective a b h k e =
    sym (of_le_bytes-le_bytes 32 a h) ∙ ap of_le_bytes e ∙ of_le_bytes-le_bytes 32 b k

first_of : (a o : ℕ) → take 32 (le_bytes 32 a ++ le_bytes 32 o) ≡ le_bytes 32 a
first_of a o =
    ap (λ n. take n (le_bytes 32 a ++ le_bytes 32 o)) (sym (length-le_bytes 32 a))
    ∙ take-append (le_bytes 32 a) (le_bytes 32 o)

second_of : (o a : ℕ) → drop 32 (le_bytes 32 o ++ le_bytes 32 a) ≡ le_bytes 32 a
second_of o a =
    ap (λ n. drop n (le_bytes 32 o ++ le_bytes 32 a)) (sym (length-le_bytes 32 o))
    ∙ drop-append (le_bytes 32 o) (le_bytes 32 a)

-- The bytes determine the node.
pair_bytes_injective :
    (i : ℤ) (a b o p : ℕ) → a < 2 ^ 256 → b < 2 ^ 256 → pair_bytes i a o ≡ pair_bytes i b p → a ≡ b
pair_bytes_injective i a b o p h k e = elim (Bool-cases (is_odd i)) [
  | inl f ↦
      le_bytes_injective a b h k (sym (second_of o a) ∙ ap (drop 32) (rw f at e) ∙ second_of p b)
  | inr f ↦
      le_bytes_injective a b h k (sym (first_of a o) ∙ ap (take 32) (rw f at e) ∙ first_of b p)
]

module _ (h : HashLib) (laws : HashLaws h) where
  of_le_bytes_lt : (v : Bytes) → All IsByte v → of_le_bytes v < 256 ^ length v
  unfolding of_le_bytes
  of_le_bytes_lt [] k = omega arith
  of_le_bytes_lt (b ∷ v) (k, ks) =
      let e = pow-suc 256 (length v) in omega (arith, of_le_bytes_lt v ks, e)

  hash_lt : (v : Bytes) → hash h v < 2 ^ 256
  unfolding hash hash_bytes
  hash_lt v =
      let d = h.sha256 (h.sha256 v) in
      let e : length d ≡ 32 = laws.length-sha256 (h.sha256 v) in
      subst (λ n. of_le_bytes d < 256 ^ n) e (of_le_bytes_lt d (laws.sha256-IsByte (h.sha256 v)))

  join_lem : (o a : ℕ) (i : ℤ) → join h o a i ≡ hash h (pair_bytes i a o)
  unfolding hash_pair
  join_lem o a i = elim (Bool-cases (is_odd i)) [ inl e ↦ rw e refl | inr e ↦ rw e refl ]

  pub check_loop_lt : (s : List ℕ) (a : ℕ) (i : ℤ) → a < 2 ^ 256 → check_loop h a s i < 2 ^ 256
  unfolding check_loop
  check_loop_lt [] a i k = k
  check_loop_lt (o ∷ s) a i k =
      check_loop_lt s (join h o a i) (half i)
        (subst (λ n. n < 2 ^ 256) (sym (join_lem o a i)) (hash_lt (pair_bytes i a o)))

  -- One step up: the same hash comes from the same node, or from different bytes.
  step_binds :
      (i : ℤ) (a b o p : ℕ) (s t : List ℕ)
      → a < 2 ^ 256
      → b < 2 ^ 256
      → hash h (pair_bytes i a o) ≡ hash h (pair_bytes i b p)
      → (a ≡ b) ⊎ PathCollision h i a (o ∷ s) b (p ∷ t)
  step_binds i a b o p s t k l e = elim (ℕ_discrete a b) [
    | yes q ↦ inl q
    | no q ↦ inr (here (λ r. q (pair_bytes_injective i a b o p k l r)) e)
  ]

  check_loop_binds :
      (s t : List ℕ) (a b : ℕ) (i : ℤ)
      → a < 2 ^ 256
      → b < 2 ^ 256
      → length s ≡ length t
      → check_loop h a s i ≡ check_loop h b t i
      → (a ≡ b) ⊎ PathCollision h i a s b t
  unfolding check_loop
  check_loop_binds [] [] a b i k l n e = inl e
  check_loop_binds [] (p ∷ t) a b i k l n e = absurd (omega (arith, n))
  check_loop_binds (o ∷ s) [] a b i k l n e = absurd (omega (arith, n))
  check_loop_binds (o ∷ s) (p ∷ t) a b i k l n e =
      elim (check_loop_binds s t (hash h (pair_bytes i a o)) (hash h (pair_bytes i b p)) (half i)
        (hash_lt (pair_bytes i a o)) (hash_lt (pair_bytes i b p)) (omega arith)
        (ap (λ m. check_loop h m s (half i)) (sym (join_lem o a i))
          ∙ e
          ∙ ap (λ m. check_loop h m t (half i)) (join_lem p b i))) [
            | inl q ↦ step_binds i a b o p s t k l q
            | inr c ↦ inr (above c)
          ]

  -- A root is bound to one hash at each position: two branches of the same length that lead to the same
  -- root at the same index, other than -1, start from the same hash, unless at one height on the way up
  -- different bytes of the two branches have the same hash.
  pub check_merkle_branch_binds :
      (s t : List ℕ) (a b : ℕ) (i : ℤ)
      → a < 2 ^ 256
      → b < 2 ^ 256
      → length s ≡ length t
      → eqb_ℤ i (negsuc 0) ≡ false
      → check_merkle_branch h a s i ≡ check_merkle_branch h b t i
      → (a ≡ b) ⊎ PathCollision h i a s b t
  unfolding check_merkle_branch
  check_merkle_branch_binds s t a b i k l m n e = check_loop_binds s t a b i k l m (rw n at e)
