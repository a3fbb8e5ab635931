-- ===== src/Mempool/Accepted.antt =====
-- `AcceptToMemoryPool`: what it has tested where it takes a transaction, and what it leaves.
use ixcoin.Common.{
  ◌≡◌, refl, sym, ap, ◌∙◌, Bool, true, false, ◌&&◌, not, if◌then◌else◌, Option, none, some,
  Bool-cases, inl, inr,
}
use mathlib.Core.Path.{subst}
use ixcoin.Common.Int.{pos, ltb_ℤ}
use ixcoin.Tx.{Transaction}
use ixcoin.Tx.Check.{get_min_fee, min_relay_tx_fee}
use ixcoin.Chain.Block.{tx_hash}
use ixcoin.Ledger.{Node}
use ixcoin.Ledger.Step.{not_false}
use ixcoin.Ledger.Connect.{Store}
use ixcoin.Mempool.{
  Pool, add_unchecked, remove_from_pool, has_conflict, is_there, is_welcome, Answer, accepted,
  refused, Around, check_fees, accept_to_memory_pool,
}
use ixcoin.Mempool.Kept.{add_unchecked-IsConsistent, remove_from_pool-add_unchecked}
use ixcoin.Mempool.Member.{IsConsistent}

-- What an accepted transaction has passed.
pub record IsAccepted (nd : Node) (a : Around) (tx : Transaction) (p : Pool) (p' : Pool)
    : Type 0 where
  pub welcome : is_welcome a.test_net tx ≡ true
  pub absent : p.txs (tx_hash nd.hashes tx) ≡ none
  pub apart : has_conflict tx.vin p.next ≡ false
  pub added : p' ≡ add_unchecked nd.hashes tx p

not_there {ℓ} : {A : Type ℓ} (o : Option A) → is_there o ≡ false → o ≡ none
not_there none h = refl
not_there (some a) h = cc

accepted-injective : (p q : Pool) → accepted p ≡ accepted q → p ≡ q
accepted-injective p q h = ap (λ z. elim z [ accepted r ↦ r | refused _ ↦ p ]) h

if-refused :
    (b : Bool) (missing : Bool) (x : Answer) (p : Pool)
    → (if b then refused missing else x) ≡ accepted p
    → (b ≡ false) × (x ≡ accepted p)
if-refused true missing x p h = cc
if-refused false missing x p h = (refl, h)

check_fees-accepted :
    (nd : Node) (a : Around) (tx : Transaction) (p p' : Pool) (r : Option Store)
    → check_fees nd a tx p r ≡ accepted p'
    → p' ≡ add_unchecked nd.hashes tx p
unfolding check_fees
check_fees-accepted nd a tx p p' none h = cc
check_fees-accepted nd a tx p p' (some s) h =
    let (_, h1) = if-refused (ltb_ℤ s.fees (pos (get_min_fee tx 1_000 true true))) false _ p' h in
    let (_, h2) =
      if-refused (ltb_ℤ s.fees (pos min_relay_tx_fee) && a.too_many_free) false _ p' h1 in
    sym (accepted-injective _ _ h2)

pub accept_to_memory_pool-IsAccepted :
    (nd : Node) (a : Around) (tx : Transaction) (check : Bool) (p p' : Pool)
    → accept_to_memory_pool nd a tx check p ≡ accepted p'
    → IsAccepted nd a tx p p'
unfolding accept_to_memory_pool
accept_to_memory_pool-IsAccepted nd a tx check p p' h =
    let k = tx_hash nd.hashes tx in
    let (w, h1) = if-refused (not (is_welcome a.test_net tx)) false _ p' h in
    let (absent, h2) = if-refused (is_there (p.txs k)) false _ p' h1 in
    let (_, h3) = if-refused (check && is_there (a.index k)) false _ p' h2 in
    let (apart, h4) = if-refused (has_conflict tx.vin p.next) false _ p' h3 in
    record {
      welcome = not_false _ w;
      absent = not_there (p.txs k) absent;
      apart = apart;
      added = elim (Bool-cases check) [
        | inl e ↦ check_fees-accepted nd a tx p p' _ (rw e at h4)
        | inr e ↦ sym (accepted-injective _ _ (rw e at h4))
      ];
    }

-- `AcceptToMemoryPool` keeps the pool consistent: each transaction stands under its hash, each
-- outpoint that one of them names is linked to it, and each link leads to such an input.
pub accept_to_memory_pool-IsConsistent :
    (nd : Node) (a : Around) (tx : Transaction) (check : Bool) (p p' : Pool)
    → IsConsistent nd.hashes p
    → accept_to_memory_pool nd a tx check p ≡ accepted p'
    → IsConsistent nd.hashes p'
accept_to_memory_pool-IsConsistent nd a tx check p p' c h =
    let k = accept_to_memory_pool-IsAccepted nd a tx check p p' h in
    subst (IsConsistent nd.hashes) (sym k.added)
      (add_unchecked-IsConsistent nd.hashes tx p c k.absent k.apart)

-- A transaction that `AcceptToMemoryPool` took into the pool is taken out by `RemoveFromMemoryPool`,
-- and both maps are as before.
pub remove_from_pool-accept_to_memory_pool :
    (nd : Node) (a : Around) (tx : Transaction) (check : Bool) (p p' : Pool)
    → accept_to_memory_pool nd a tx check p ≡ accepted p'
    → ((remove_from_pool nd.hashes tx p').txs ≡ p.txs)
      × ((remove_from_pool nd.hashes tx p').next ≡ p.next)
remove_from_pool-accept_to_memory_pool nd a tx check p p' h =
    let k = accept_to_memory_pool-IsAccepted nd a tx check p p' h in
    let (t, n) = remove_from_pool-add_unchecked nd.hashes tx p k.absent k.apart in
    (
      ap (λ z. (remove_from_pool nd.hashes tx z).txs) k.added ∙ t,
      ap (λ z. (remove_from_pool nd.hashes tx z).next) k.added ∙ n,
    )
