-- ===== src/Ledger/Marks.antt =====
-- The marks that a transaction sets, all together, and the form of the marks that say "not spent".
use ixcoin.Common.{
  ℕ, ◌≡◌, refl, ap, ◌∙◌, List, [], ◌∷◌, true, false, ◌==◌, get_elem?, Option, none, some, put,
  erase, get_elem?-replicate, get_elem?-set-cases, All, Bool-cases, inl, inr,
}
use mathlib.Core.Option.{some-injective}
use ixcoin.Tx.{OutPoint, TxIn}
use ixcoin.Ledger.{TxPos, null_pos, is_null, TxIndex, new_index, Index}
use ixcoin.Ledger.Cells.{
  with_mark, mark_record, set_cell, set_cell_comm, erase-set_cell, IsListed, IsListed-set_cell,
  IsListed-put,
}

abbrev pub mark_all : TxPos → List TxIn → Index → Index
mark_all p [] i = i
mark_all p (t ∷ ts) i = mark_all p ts (set_cell t.prevout p i)

pub mark_all-set_cell :
    (p : TxPos) (ts : List TxIn) (o : OutPoint) (i : Index)
    → mark_all p ts (set_cell o p i) ≡ set_cell o p (mark_all p ts i)
mark_all-set_cell p [] o i = refl
mark_all-set_cell p (t ∷ ts) o i =
    ap (mark_all p ts) (set_cell_comm t.prevout o p i)
    ∙ mark_all-set_cell p ts o (set_cell t.prevout p i)

pub erase-mark_all :
    (k : ℕ) (p : TxPos) (ts : List TxIn) (i : Index)
    → erase k (mark_all p ts i) ≡ mark_all p ts (erase k i)
erase-mark_all k p [] i = refl
erase-mark_all k p (t ∷ ts) i =
    erase-mark_all k p ts (set_cell t.prevout p i)
    ∙ ap (mark_all p ts) (erase-set_cell k t.prevout p i)

pub IsListed-mark_all :
    (a : OutPoint) (p : TxPos) (ts : List TxIn) (i : Index)
    → IsListed i a
    → IsListed (mark_all p ts i) a
IsListed-mark_all a p [] i h = h
IsListed-mark_all a p (t ∷ ts) i h =
    IsListed-mark_all a p ts (set_cell t.prevout p i) (IsListed-set_cell a t.prevout p i h)

abbrev pub AllListed : Index → List TxIn → Type 0
AllListed i ts = All (λ t. IsListed i t.prevout) ts

pub AllListed-set_cell :
    (o : OutPoint) (p : TxPos) (ts : List TxIn) (i : Index)
    → AllListed i ts
    → AllListed (set_cell o p i) ts
AllListed-set_cell o p [] i h = tt
AllListed-set_cell o p (t ∷ ts) i (h, hs) =
    (IsListed-set_cell t.prevout o p i h, AllListed-set_cell o p ts i hs)

pub AllListed-put :
    (k : ℕ) (ix : TxIndex) (ts : List TxIn) (i : Index)
    → i k ≡ none
    → AllListed i ts
    → AllListed (put k ix i) ts
AllListed-put k ix [] i e h = tt
AllListed-put k ix (t ∷ ts) i e (h, hs) =
    (IsListed-put t.prevout k ix i e h, AllListed-put k ix ts i e hs)

-- A record that is not there gets no mark.
pub set_cell-none :
    (o : OutPoint) (p : TxPos) (i : Index) (k : ℕ) → i k ≡ none → set_cell o p i k ≡ none
unfolding set_cell
set_cell-none o p i k h = elim (Bool-cases (k == o.hash)) [
  | inl e ↦ rw (e, h, mark_record)
  | inr e ↦ rw (e, h)
]

pub mark_all-none :
    (p : TxPos) (ts : List TxIn) (i : Index) (k : ℕ) → i k ≡ none → mark_all p ts i k ≡ none
mark_all-none p [] i k h = h
mark_all-none p (t ∷ ts) i k h = mark_all-none p ts _ k (set_cell-none t.prevout p i k h)

-- Each mark that says "not spent" is the one of `SetNull`.
abbrev pub IsCanonical : Index → Type 0
IsCanonical i =
    (k n : ℕ) (ix : TxIndex) (p : TxPos)
    → i k ≡ some ix
    → get_elem? ix.spent n ≡ some p
    → is_null p ≡ true
    → p ≡ null_pos

pub set_cell-IsCanonical :
    (o : OutPoint) (e : TxPos) (i : Index)
    → is_null e ≡ false
    → IsCanonical i
    → IsCanonical (set_cell o e i)
unfolding set_cell
set_cell-IsCanonical o e i ne h k n ix p f g z = elim (Bool-cases (k == o.hash)) [
  | inr d ↦ h k n ix p (rw d at f) g z
  | inl d ↦ marked (i k) refl (rw d at f)
]
  where
    marked : (r : Option TxIndex) → i k ≡ r → mark_record o.n e r ≡ some ix → p ≡ null_pos
    marked none q m = cc
    marked (some old) q m =
        let w : with_mark o.n e old ≡ ix = some-injective _ _ m in
        elim (get_elem?-set-cases old.spent n o.n e p (rw (ap (λ x. x.spent) w) g)) [
          | inl same ↦ cc (ap is_null same, z, ne)
          | inr before ↦ h k n old p q before z
        ]

pub put-IsCanonical :
    (k : ℕ) (e : TxPos) (outputs : ℕ) (i : Index)
    → IsCanonical i
    → IsCanonical (put k (new_index e outputs) i)
put-IsCanonical k e outputs i h j n ix p f g z = elim (Bool-cases (j == k)) [
  | inr d ↦ h j n ix p (rw d at f) g z
  | inl d ↦
      let w : new_index e outputs ≡ ix = some-injective _ _ (rw d at f) in
      get_elem?-replicate outputs n null_pos p (rw (ap (λ x. x.spent) w) g)
]
