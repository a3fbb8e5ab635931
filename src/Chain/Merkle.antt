-- ===== src/Chain/Merkle.antt =====
-- src/main.h: the hash tree over the transactions of a block, and the branch that leads from one of
-- them to the root.
pub mod Branch
pub mod Binding
use ixcoin.Common.{
  ℕ, zero, suc, ◌+◌, ◌-◌, ◌/◌, ◌%◌, List, [], ◌∷◌, ◌++◌, Bool, true, false, ltb, leb, ◌==◌,
  if◌then◌else◌, length, get_or, drop,
}
use ixcoin.Common.Int.{ℤ, pos, negsuc, eqb_ℤ}
use ixcoin.Hash.{HashLib, hash_pair}

abbrev pub min : ℕ → ℕ → ℕ
min a b = if ltb b a then b else a

-- `n ^ 1`
abbrev pub sibling : ℕ → ℕ
sibling n = if n % 2 == 0 then n + 1 else n - 1

-- `n & 1` and `n >> 1` of an `int`
abbrev pub is_odd : ℤ → Bool
is_odd (pos n) = n % 2 == 1
is_odd (negsuc n) = n % 2 == 0

abbrev pub half : ℤ → ℤ
half (pos n) = pos (n / 2)
half (negsuc n) = negsuc (n / 2)

module _ (h : HashLib) where
  -- The hashes of the pairs of one level; the last one is paired with itself where none is left.
  unfoldable pub pair_up : List ℕ → List ℕ
  pair_up [] = []
  pair_up (a ∷ []) = hash_pair h a a ∷ []
  pair_up (a ∷ b ∷ l) = hash_pair h a b ∷ pair_up l

  -- `vMerkleTree` from one level on: the level and those above it.
  unfoldable pub levels : ℕ → List ℕ → List ℕ
  levels zero l = l
  levels (suc f) l = let above = levels f (pair_up l) in if ltb 1 (length l) then l ++ above else l

  -- The tree that `BuildMerkleTree` leaves, over the hashes of the transactions. A level has about half
  -- as many hashes as the one below it, so their number is fuel enough.
  unfoldable pub merkle_tree : List ℕ → List ℕ
  merkle_tree l = levels (length l) l

  -- `vMerkleTree.back()`, or 0
  unfoldable pub back : List ℕ → ℕ
  back [] = 0
  back (a ∷ []) = a
  back (a ∷ b ∷ l) = back (b ∷ l)

  unfoldable pub build_merkle_tree : List ℕ → ℕ
  build_merkle_tree l = back (merkle_tree l)

  -- The loop of `GetMerkleBranch`, on the tree from the position `j` on.
  unfoldable pub branch_loop : ℕ → List ℕ → ℕ → ℕ → List ℕ
  branch_loop zero tree size index = []
  branch_loop (suc f) tree size index =
      let above = branch_loop f (drop size tree) ((size + 1) / 2) (index / 2) in
      if ltb 1 size then get_or tree (min (sibling index) (size - 1)) 0 ∷ above else []

  unfoldable pub get_merkle_branch : List ℕ → ℕ → List ℕ
  get_merkle_branch l index = branch_loop (length l) (merkle_tree l) (length l) index

  -- One hash of `CheckMerkleBranch`: the other side comes first where the index is odd.
  abbrev pub join : ℕ → ℕ → ℤ → ℕ
  join other hash index = if is_odd index then hash_pair h other hash else hash_pair h hash other

  unfoldable pub check_loop : ℕ → List ℕ → ℤ → ℕ
  check_loop hash [] index = hash
  check_loop hash (other ∷ branch) index = check_loop (join other hash index) branch (half index)

  unfoldable pub check_merkle_branch : ℕ → List ℕ → ℤ → ℕ
  check_merkle_branch hash branch index =
      if eqb_ℤ index (negsuc 0) then 0 else check_loop hash branch index
