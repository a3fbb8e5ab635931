-- ===== src/Ledger/Cells.antt =====
-- One output in the index of transactions, and what marks it.
use ixcoin.Common.{
  ℕ, ◌<◌, ◌≡◌, refl, ap, ◌==◌, if◌then◌else◌, length, get_elem?, Option, none, some, put, erase,
  set, set_comm, set-set, length-set, arith, Bool-cases, inl, inr,
}
use mathlib.Core.Path.{fun_ext}
use ixcoin.Tx.{OutPoint}
use ixcoin.Ledger.{TxPos, TxIndex, Index}

abbrev pub with_mark : ℕ → TxPos → TxIndex → TxIndex
with_mark n p ix = record ix { spent = set ix.spent n p }

abbrev pub mark_record : ℕ → TxPos → Option TxIndex → Option TxIndex
mark_record n p none = none
mark_record n p (some ix) = some (with_mark n p ix)

-- The index with one mark set, where there is such an output.
unfoldable pub set_cell : OutPoint → TxPos → Index → Index
set_cell o p i k = if k == o.hash then mark_record o.n p (i k) else i k

pub set_cell-put :
    (o : OutPoint) (p : TxPos) (i : Index) (ix : TxIndex)
    → i o.hash ≡ some ix
    → put o.hash (with_mark o.n p ix) i ≡ set_cell o p i
unfolding set_cell
set_cell-put o p i ix h = fun_ext λ k. elim (Bool-cases (k == o.hash)) [
  | inl e ↦ let q : k ≡ o.hash = ground arith in rw (e, q, h, mark_record)
  | inr e ↦ rw e
]

mark_record_comm :
    (m n : ℕ) (p : TxPos) (r : Option TxIndex)
    → mark_record m p (mark_record n p r) ≡ mark_record n p (mark_record m p r)
mark_record_comm m n p none = refl
mark_record_comm m n p (some ix) =
    ap (λ l. some (record { pos = ix.pos; spent = l })) (set_comm ix.spent n m p)

-- Two marks of the same value may be set in either order.
pub set_cell_comm :
    (a b : OutPoint) (p : TxPos) (i : Index)
    → set_cell a p (set_cell b p i) ≡ set_cell b p (set_cell a p i)
unfolding set_cell
set_cell_comm a b p i = fun_ext λ k. elim (Bool-cases (k == a.hash)) [
  | inl e ↦ elim (Bool-cases (k == b.hash)) [
    | inl f ↦ rw (e, f) (mark_record_comm a.n b.n p (i k))
    | inr f ↦ rw (e, f)
  ]
  | inr e ↦ elim (Bool-cases (k == b.hash)) [ inl f ↦ rw (e, f) | inr f ↦ rw (e, f) ]
]

-- A mark that is set back to what it was.
pub set_cell-set_cell :
    (o : OutPoint) (p q : TxPos) (i : Index) (ix : TxIndex)
    → i o.hash ≡ some ix
    → get_elem? ix.spent o.n ≡ some q
    → set_cell o q (set_cell o p i) ≡ i
unfolding set_cell
set_cell-set_cell o p q i ix h g = fun_ext λ k. elim (Bool-cases (k == o.hash)) [
  | inl e ↦
      let r : i k ≡ some ix = (let q : k ≡ o.hash = ground arith in rw q h) in
      rw (e, r, mark_record)
        (ap (λ l. some (record { pos = ix.pos; spent = l })) (set-set ix.spent o.n p q g))
  | inr e ↦ rw e
]

-- Marks do not meet the erasure of a record.
pub erase-set_cell :
    (k : ℕ) (o : OutPoint) (p : TxPos) (i : Index)
    → erase k (set_cell o p i) ≡ set_cell o p (erase k i)
unfolding set_cell
erase-set_cell k o p i = fun_ext λ j. elim (Bool-cases (j == k)) [
  | inl e ↦ elim (Bool-cases (j == o.hash)) [ inl f ↦ rw (e, f, mark_record) | inr f ↦ rw (e, f) ]
  | inr e ↦ rw e
]

-- The output has a place in the index.
pub record IsListed (i : Index) (o : OutPoint) : Type 0 where
  pub ix : TxIndex
  pub found : i o.hash ≡ some ix
  pub in_range : o.n < length ix.spent

pub IsListed-set_cell :
    (a o : OutPoint) (p : TxPos) (i : Index) → IsListed i a → IsListed (set_cell o p i) a
unfolding set_cell
IsListed-set_cell a o p i h = elim (Bool-cases (a.hash == o.hash)) [
  | inl e ↦ record {
    ix = with_mark o.n p h.ix;
    found = rw (e, h.found, mark_record);
    in_range = let r = h.in_range in omega (arith, length-set h.ix.spent o.n p);
  }
  | inr e ↦ record { ix = h.ix; found = rw (e, h.found); in_range = h.in_range }
]

pub IsListed-put :
    (a : OutPoint) (k : ℕ) (ix : TxIndex) (i : Index)
    → i k ≡ none
    → IsListed i a
    → IsListed (put k ix i) a
IsListed-put a k ix i e h = elim (Bool-cases (a.hash == k)) [
  | inl f ↦ let q : a.hash ≡ k = ground arith in cc (h.found, rw q at h.found)
  | inr f ↦ record { ix = h.ix; found = rw (f, h.found); in_range = h.in_range }
]
