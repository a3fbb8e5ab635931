-- ===== src/Mempool/Kept.antt =====
-- Entering and leaving the pool keep it consistent, and leaving undoes entering.
use ixcoin.Common.{
  ℕ, ◌+◌, ◌≡◌, ◌≢◌, sym, ap, ◌∙◌, true, false, ◌==◌, get_elem?, Option, none, some, put, erase,
  erase-put, arith, Bool-cases, inl, inr, ◌⊎◌,
}
use mathlib.Core.Path.{subst, fun_ext}
use mathlib.Core.Option.{some-injective}
use ixcoin.Hash.{HashLib}
use ixcoin.Tx.{OutPoint, OutPoint_eq, TxIn, Transaction}
use ixcoin.Chain.Block.{tx_hash}
use ixcoin.Mempool.{InPoint, Pool, add_unchecked, remove_from_pool, has_conflict}
use ixcoin.Mempool.Member.{
  Names, Names-dec, IsConsistent, Names-unique, link, link_inputs-other, link_inputs-Names,
  unlink_inputs-other, unlink_inputs-Names, has_conflict-Names,
}

put_here :
    (k j : ℕ) (tx a : Transaction) (m : ℕ → Option Transaction)
    → put k tx m j ≡ some a
    → ((j ≡ k) × (tx ≡ a)) ⊎ ((j ≢ k) × (m j ≡ some a))
put_here k j tx a m h = elim (Bool-cases (j == k)) [
  | inl e ↦ inl (ground arith, some-injective _ _ (rw e at h))
  | inr e ↦ inr (ground arith, rw e at h)
]

erase_here :
    (k j : ℕ) (a : Transaction) (m : ℕ → Option Transaction)
    → erase k m j ≡ some a
    → (j ≢ k) × (m j ≡ some a)
erase_here k j a m h = elim (Bool-cases (j == k)) [
  | inl e ↦ cc (rw e at h)
  | inr e ↦ (ground arith, rw e at h)
]

put_self : (k : ℕ) (tx : Transaction) (m : ℕ → Option Transaction) → put k tx m k ≡ some tx
put_self k tx m = ground arith

put-other : (k j : ℕ) (tx : Transaction) (m : ℕ → Option Transaction) → j ≢ k → put k tx m j ≡ m j
put-other k j tx m d = ground arith

erase-other : (k j : ℕ) (m : ℕ → Option Transaction) → j ≢ k → erase k m j ≡ m j
erase-other k j m d = ground arith

-- What a link leads to.
abbrev IsBacked : (ℕ → Option Transaction) → OutPoint → InPoint → Type 0
IsBacked txs o q =
    (tx : Transaction) × (t : TxIn) × (txs q.tx ≡ some tx)
    × (get_elem? tx.vin q.n ≡ some t)
    × (OutPoint_eq o t.prevout ≡ true)

plus_zero : (n : ℕ) → 0 + n ≡ n
plus_zero n = omega arith

module _ (h : HashLib) (tx : Transaction) (p : Pool) where
  -- A transaction that is new, and none of whose outpoints the pool names, keeps it consistent.
  pub add_unchecked-IsConsistent :
      IsConsistent h p
      → p.txs (tx_hash h tx) ≡ none
      → has_conflict tx.vin p.next ≡ false
      → IsConsistent h (add_unchecked h tx p)
  unfolding add_unchecked
  add_unchecked-IsConsistent c fresh apart = record {
    keyed = λ k a e. elim (put_here (tx_hash h tx) k tx a p.txs e) [
      | inl (same, q) ↦ ap (tx_hash h) (sym q) ∙ sym same
      | inr (_, old) ↦ c.keyed k a old
    ];
    linked = λ k a o e names. elim (put_here (tx_hash h tx) k tx a p.txs e) [
      | inl (same, q) ↦
          let (n, t, _, _, l) =
            link_inputs-Names (tx_hash h tx) 0 tx.vin p.next o
              (subst (λ z. Names z.vin o) (sym q) names) in
          (0 + n, l ∙ ap (λ z. some (link z (0 + n))) (sym same))
      | inr (_, old) ↦
          let (n, l) = c.linked k a o old names in
          elim (Names-dec tx.vin o) [
            | inl clash ↦ cc (sym l ∙ has_conflict-Names tx.vin p.next o apart clash)
            | inr free ↦ (n, link_inputs-other (tx_hash h tx) 0 tx.vin p.next o free ∙ l)
          ]
    ];
    backed = λ o q e. elim (Names-dec tx.vin o) [
      | inl names ↦
          let (n, t, g, s, l) = link_inputs-Names (tx_hash h tx) 0 tx.vin p.next o names in
          subst (IsBacked (put (tx_hash h tx) tx p.txs) o) (some-injective _ _ (sym l ∙ e))
            (tx, t, put_self (tx_hash h tx) tx p.txs, ap (get_elem? tx.vin) (plus_zero n) ∙ g, s)
      | inr free ↦
          let (a, t, f, g, s) =
            c.backed o q (sym (link_inputs-other (tx_hash h tx) 0 tx.vin p.next o free) ∙ e) in
          let old : q.tx ≢ tx_hash h tx = λ d. cc (sym f ∙ ap p.txs d ∙ fresh) in
          (a, t, put-other (tx_hash h tx) q.tx tx p.txs old ∙ f, g, s)
    ];
  }

  -- `RemoveFromMemoryPool` of a transaction of the pool keeps the pool consistent.
  pub remove_from_pool-IsConsistent :
      IsConsistent h p → p.txs (tx_hash h tx) ≡ some tx → IsConsistent h (remove_from_pool h tx p)
  unfolding remove_from_pool
  remove_from_pool-IsConsistent c there = record {
    keyed = λ k a e. c.keyed k a (erase_here (tx_hash h tx) k a p.txs e).1;
    linked = λ k a o e names.
        let (other, old) = erase_here (tx_hash h tx) k a p.txs e in
        let (n, l) = c.linked k a o old names in
        elim (Names-dec tx.vin o) [
          | inl clash ↦
              absurd (other (Names-unique h p k (tx_hash h tx) a tx o c old there names clash))
          | inr free ↦ (n, unlink_inputs-other tx.vin p.next o free ∙ l)
        ];
    backed = λ o q e. elim (Names-dec tx.vin o) [
      | inl names ↦ cc (sym e ∙ unlink_inputs-Names tx.vin p.next o names)
      | inr free ↦
          let (a, t, f, g, s) = c.backed o q (sym (unlink_inputs-other tx.vin p.next o free) ∙ e) in
          let old : q.tx ≢ tx_hash h tx = λ d.
            let same : a ≡ tx = some-injective _ _ (sym f ∙ ap p.txs d ∙ there) in
            free (record {
              n = q.n;
              input = t;
              there = ap (λ z. get_elem? z.vin q.n) (sym same) ∙ g;
              same = s;
            }) in
          (a, t, erase-other (tx_hash h tx) q.tx p.txs old ∙ f, g, s)
    ];
  }

  -- A transaction that enters and leaves a pool that did not have it, and none of whose outpoints
  -- the pool names, leaves both maps as they were.
  pub remove_from_pool-add_unchecked :
      p.txs (tx_hash h tx) ≡ none
      → has_conflict tx.vin p.next ≡ false
      → ((remove_from_pool h tx (add_unchecked h tx p)).txs ≡ p.txs)
        × ((remove_from_pool h tx (add_unchecked h tx p)).next ≡ p.next)
  unfolding remove_from_pool add_unchecked
  remove_from_pool-add_unchecked fresh apart = (
    erase-put (tx_hash h tx) tx p.txs fresh,
    fun_ext λ o. elim (Names-dec tx.vin o) [
      | inl names ↦
          unlink_inputs-Names tx.vin _ o names
          ∙ sym (has_conflict-Names tx.vin p.next o apart names)
      | inr free ↦
          unlink_inputs-other tx.vin _ o free
          ∙ link_inputs-other (tx_hash h tx) 0 tx.vin p.next o free
    ],
  )
