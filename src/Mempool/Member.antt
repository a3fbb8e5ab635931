-- ===== src/Mempool/Member.antt =====
-- The pool is consistent: its two maps tell the same, and no outpoint is named by two transactions.
use ixcoin.Common.{
  ℕ, zero, suc, ◌+◌, ◌≡◌, refl, sym, ap, ◌∙◌, List, [], ◌∷◌, true, false, get_elem?, Option, none,
  some, arith, Bool-cases, Option-cases, inl, inr, ◌⊎◌,
}
use mathlib.Core.Path.{ap₂}
use mathlib.Core.Option.{some-injective}
use ixcoin.Hash.{HashLib}
use ixcoin.Tx.{OutPoint, OutPoint_eq, TxIn, Transaction}
use ixcoin.Chain.Block.{tx_hash}
use ixcoin.Mempool.{InPoint, Pool, link_inputs, unlink_inputs, has_conflict}

-- Some input names the outpoint.
pub record Names (ts : List TxIn) (o : OutPoint) : Type 0 where
  pub n : ℕ
  pub input : TxIn
  pub there : get_elem? ts n ≡ some input
  pub same : OutPoint_eq o input.prevout ≡ true

pub record IsConsistent (h : HashLib) (p : Pool) : Type 0 where
  -- A transaction stands under its hash.
  pub keyed : (k : ℕ) (tx : Transaction) → p.txs k ≡ some tx → tx_hash h tx ≡ k
  -- An outpoint that a transaction names is linked to it.
  pub linked :
      (k : ℕ) (tx : Transaction) (o : OutPoint)
      → p.txs k ≡ some tx
      → Names tx.vin o
      → (n : ℕ) × (p.next o ≡ some (record { tx = k; n = n }))
  -- A link leads to an input that names the outpoint.
  pub backed :
      (o : OutPoint) (q : InPoint)
      → p.next o ≡ some q
      → (tx : Transaction) × (t : TxIn) × (p.txs q.tx ≡ some tx)
        × (get_elem? tx.vin q.n ≡ some t)
        × (OutPoint_eq o t.prevout ≡ true)

-- Two transactions of a consistent pool that name the same outpoint are the same.
pub Names-unique :
    (h : HashLib) (p : Pool) (k l : ℕ) (a b : Transaction) (o : OutPoint)
    → IsConsistent h p
    → p.txs k ≡ some a
    → p.txs l ≡ some b
    → Names a.vin o
    → Names b.vin o
    → k ≡ l
Names-unique h p k l a b o c ha hb na nb =
    let (m, e) = c.linked k a o ha na in
    let (n, f) = c.linked l b o hb nb in ap (λ z. z.tx) (some-injective _ _ (sym e ∙ f))

abbrev point : ℕ → ℕ → OutPoint
point x y = record { hash = x; n = y }

pub OutPoint_eq→eq : (a b : OutPoint) → OutPoint_eq a b ≡ true → a ≡ b
OutPoint_eq→eq a b h =
    let p : a.hash ≡ b.hash = ground arith in let q : a.n ≡ b.n = ground arith in ap₂ point p q

Names-later : (t : TxIn) (ts : List TxIn) (o : OutPoint) → Names ts o → Names (t ∷ ts) o
Names-later t ts o h = record { n = suc h.n; input = h.input; there = h.there; same = h.same }

Names-cases :
    (t : TxIn) (ts : List TxIn) (o : OutPoint)
    → Names (t ∷ ts) o
    → (OutPoint_eq o t.prevout ≡ true) ⊎ Names ts o
Names-cases t ts o h = split h.n h.there
  where
    split :
        (n : ℕ)
        → get_elem? (t ∷ ts) n ≡ some h.input
        → (OutPoint_eq o t.prevout ≡ true) ⊎ Names ts o
    split zero e = inl (ap (λ z. OutPoint_eq o z.prevout) (some-injective _ _ e) ∙ h.same)
    split (suc n) e = inr (record { n = n; input = h.input; there = e; same = h.same })

pub Names-dec : (ts : List TxIn) (o : OutPoint) → Names ts o ⊎ ¬ Names ts o
Names-dec [] o = inr (λ h. cc (h.there))
Names-dec (t ∷ ts) o = elim (Bool-cases (OutPoint_eq o t.prevout)) [
  | inl e ↦ inl (record { n = 0; input = t; there = refl; same = e })
  | inr e ↦ elim (Names-dec ts o) [
    | inl h ↦ inl (Names-later t ts o h)
    | inr free ↦ inr (λ h. elim (Names-cases t ts o h) [ inl f ↦ cc (e, f) | inr k ↦ free k ])
  ]
]

abbrev pub link : ℕ → ℕ → InPoint
link k n = record { tx = k; n = n }

not_here :
    (t : TxIn) (ts : List TxIn) (o : OutPoint)
    → ¬ Names (t ∷ ts) o
    → OutPoint_eq o t.prevout ≡ false
not_here t ts o free = elim (Bool-cases (OutPoint_eq o t.prevout)) [
  | inl e ↦ absurd (free (record { n = 0; input = t; there = refl; same = e }))
  | inr e ↦ e
]

pub link_inputs-other :
    (k i : ℕ) (ts : List TxIn) (m : OutPoint → Option InPoint) (o : OutPoint)
    → ¬ Names ts o
    → link_inputs k i ts m o ≡ m o
unfolding link_inputs
link_inputs-other k i [] m o free = refl
link_inputs-other k i (t ∷ ts) m o free =
    link_inputs-other k (suc i) ts _ o (λ h. free (Names-later t ts o h))
    ∙ rw (not_here t ts o free)

-- An outpoint after the inputs of a transaction are linked: one of the inputs names it and it is
-- linked to the transaction, or none does and its link is as before.
pub link_inputs-Names :
    (k i : ℕ) (ts : List TxIn) (m : OutPoint → Option InPoint) (o : OutPoint)
    → Names ts o
    → (n : ℕ) × (t : TxIn) × (get_elem? ts n ≡ some t)
      × (OutPoint_eq o t.prevout ≡ true)
      × (link_inputs k i ts m o ≡ some (link k (i + n)))
unfolding link_inputs
link_inputs-Names k i [] m o h = cc (h.there)
link_inputs-Names k i (t ∷ ts) m o h = elim (Names-dec ts o) [
  | inl later ↦
      let (n, u, g, s, e) = link_inputs-Names k (suc i) ts _ o later in
      (suc n, u, g, s, e ∙ ap (λ z. some (link k z)) (omega arith))
  | inr free ↦ elim (Names-cases t ts o h) [
    | inr later ↦ absurd (free later)
    | inl here ↦ (
      0,
      t,
      refl,
      here,
      link_inputs-other k (suc i) ts _ o free ∙ rw here (ap (λ z. some (link k z)) (omega arith)),
    )
  ]
]

pub unlink_inputs-other :
    (ts : List TxIn) (m : OutPoint → Option InPoint) (o : OutPoint)
    → ¬ Names ts o
    → unlink_inputs ts m o ≡ m o
unfolding unlink_inputs
unlink_inputs-other [] m o free = refl
unlink_inputs-other (t ∷ ts) m o free =
    unlink_inputs-other ts _ o (λ h. free (Names-later t ts o h)) ∙ rw (not_here t ts o free)

pub unlink_inputs-Names :
    (ts : List TxIn) (m : OutPoint → Option InPoint) (o : OutPoint)
    → Names ts o
    → unlink_inputs ts m o ≡ none
unfolding unlink_inputs
unlink_inputs-Names [] m o h = cc (h.there)
unlink_inputs-Names (t ∷ ts) m o h = elim (Names-dec ts o) [
  | inl later ↦ unlink_inputs-Names ts _ o later
  | inr free ↦ elim (Names-cases t ts o h) [
    | inl here ↦ unlink_inputs-other ts _ o free ∙ rw here
    | inr later ↦ absurd (free later)
  ]
]

-- Where no input conflicts, what an input names has no link.
pub has_conflict-Names :
    (ts : List TxIn) (m : OutPoint → Option InPoint) (o : OutPoint)
    → has_conflict ts m ≡ false
    → Names ts o
    → m o ≡ none
unfolding has_conflict
has_conflict-Names [] m o c h = cc (h.there)
has_conflict-Names (t ∷ ts) m o c h = elim (Option-cases (m t.prevout)) [
  | inr (q, e) ↦ cc (rw e at c)
  | inl e ↦ elim (Names-cases t ts o h) [
    | inl here ↦ ap m (OutPoint_eq→eq o t.prevout here) ∙ e
    | inr later ↦ has_conflict-Names ts m o (rw e at c) later
  ]
]
