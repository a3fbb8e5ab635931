-- ===== src/Chain/Merkle/Branch.antt =====
-- src/main.h: the branch that `GetMerkleBranch` takes out of a tree leads to the root.
use ixcoin.Common.{
  drop-append, ℕ, zero, suc, ◌+◌, ◌-◌, ◌/◌, ◌%◌, ◌≤◌, ◌<◌, ◌≡◌, refl, List, [], ◌∷◌, ◌++◌, ltb,
  length, length-append, get_or, arith, Bool-cases, inl, inr,
}
use ixcoin.Common.Int.{pos}
use ixcoin.Hash.{HashLib}
use ixcoin.Chain.Merkle.{
  min, sibling, pair_up, levels, merkle_tree, back, build_merkle_tree, branch_loop,
  get_merkle_branch, join, check_loop, check_merkle_branch,
}

get_or-append : (l m : List ℕ) (j d : ℕ) → j < length l → get_or (l ++ m) j d ≡ get_or l j d
get_or-append [] m j d h = absurd (omega (arith, h))
get_or-append (a ∷ l) m zero d h = refl
get_or-append (a ∷ l) m (suc j) d h = get_or-append l m j d (omega arith)

sibling_step : (i : ℕ) → sibling (suc (suc i)) ≡ suc (suc (sibling i))
sibling_step i = ground arith

min_step : (a n : ℕ) → min (suc (suc a)) (suc n) ≡ suc (min (suc a) n)
min_step a n = ground arith

min-sibling_lt : (i n : ℕ) → i < n → min (sibling i) (n - 1) < n
min-sibling_lt i n h = ground arith

module _ (h : HashLib) where
  length-pair_up : (l : List ℕ) → length (pair_up h l) ≡ (length l + 1) / 2
  unfolding pair_up
  length-pair_up [] = refl
  length-pair_up (a ∷ []) = refl
  length-pair_up (a ∷ b ∷ l) = omega (arith, length-pair_up l)

  -- A hash and its neighbour give the hash above them.
  get_or-pair_up :
      (l : List ℕ) (i : ℕ)
      → i < length l
      → join h (get_or l (min (sibling i) (length l - 1)) 0) (get_or l i 0) (pos i)
        ≡ get_or (pair_up h l) (i / 2) 0
  unfolding pair_up
  get_or-pair_up [] i k = absurd (omega (arith, k))
  get_or-pair_up (a ∷ []) zero k = refl
  get_or-pair_up (a ∷ []) (suc i) k = absurd (omega (arith, k))
  get_or-pair_up (a ∷ b ∷ l) zero k =
      let m : min 1 (suc (suc (length l)) - 1) ≡ 1 = ground arith in rw m
  get_or-pair_up (a ∷ b ∷ l) (suc zero) k =
      let m : min 0 (suc (suc (length l)) - 1) ≡ 0 = ground arith in rw m
  get_or-pair_up (a ∷ b ∷ []) (suc (suc i)) k = absurd (omega (arith, k))
  get_or-pair_up (a ∷ b ∷ c ∷ l) (suc (suc i)) k =
      let s : min (sibling (suc (suc i))) (suc (suc (suc (length l))) - 1)
          ≡ suc (suc (min (sibling i) (suc (length l) - 1))) =
        ground arith in
      let q : suc (suc i) / 2 ≡ suc (i / 2) = omega arith in
      let p : suc (suc i) % 2 ≡ i % 2 = omega arith in
      rw (s, q, p) (get_or-pair_up (c ∷ l) i (omega arith))

  length-levels : (f : ℕ) (l : List ℕ) → length l ≤ length (levels h f l)
  unfolding levels
  length-levels zero l = omega arith
  length-levels (suc f) l = elim (Bool-cases (ltb 1 (length l))) [
    | inl e ↦ rw e (omega (arith, length-append l (levels h f (pair_up h l))))
    | inr e ↦ rw e (omega arith)
  ]

  back-append : (l m : List ℕ) → 0 < length m → back h (l ++ m) ≡ back h m
  unfolding back
  back-append [] m k = refl
  back-append (a ∷ []) [] k = absurd (omega (arith, k))
  back-append (a ∷ []) (b ∷ m) k = refl
  back-append (a ∷ b ∷ l) m k = back-append (b ∷ l) m k

  back_single : (l : List ℕ) (i : ℕ) → length l ≡ 1 → i < 1 → get_or l i 0 ≡ back h l
  unfolding back
  back_single [] i e k = absurd (omega (arith, e))
  back_single (a ∷ []) zero e k = refl
  back_single (a ∷ []) (suc i) e k = absurd (omega (arith, k))
  back_single (a ∷ b ∷ l) i e k = absurd (omega (arith, e))

  check_loop-branch_loop :
      (f : ℕ) (l : List ℕ) (i : ℕ)
      → length l ≤ f
      → i < length l
      → check_loop h (get_or l i 0) (branch_loop h f (levels h f l) (length l) i) (pos i)
        ≡ back h (levels h f l)
  unfolding check_loop branch_loop levels
  check_loop-branch_loop zero l i k g = absurd (omega (arith, k, g))
  check_loop-branch_loop (suc f) l i k g = elim (Bool-cases (ltb 1 (length l))) [
    | inl e ↦
        let above = levels h f (pair_up h l) in
        rw e (
          rw
            (
              drop-append l above,
              get_or-append l above (min (sibling i) (length l - 1)) 0
                  (min-sibling_lt i (length l) g),
              get_or-pair_up l i g,
              back-append l above (ground (arith, length-levels f (pair_up h l), length-pair_up l)),
            )
            (rw (length-pair_up l) at (
              check_loop-branch_loop f (pair_up h l) (i / 2) (ground (arith, length-pair_up l))
                (ground (arith, length-pair_up l)))))
    | inr e ↦ rw e (back_single l i (ground arith) (ground arith))
  ]

  -- The branch of any transaction of a block, checked at its position, leads from the hash of the
  -- transaction to the root that `BuildMerkleTree` returns.
  pub check_merkle_branch-get_merkle_branch :
      (l : List ℕ) (i : ℕ)
      → i < length l
      → check_merkle_branch h (get_or l i 0) (get_merkle_branch h l i) (pos i)
        ≡ build_merkle_tree h l
  unfolding check_merkle_branch get_merkle_branch build_merkle_tree merkle_tree
  check_merkle_branch-get_merkle_branch l i g =
      check_loop-branch_loop (length l) l i (omega arith) g
