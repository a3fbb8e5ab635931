-- ===== src/Accept/Heaviest.antt =====
-- A block that `AddToBlockIndex` takes is no heavier than the best chain is then.
use ixcoin.Common.{
  ◌≡◌, refl, sym, ap, ◌∙◌, [], ◌∷◌, Bool, true, false, not, if◌then◌else◌, arith, inl, inr, ◌⊎◌,
}
use ixcoin.Common.Int.{ℤ, pos, negsuc, ltb_ℤ}
use ixcoin.Bignum.OpenSsl.{BnLaws}
use ixcoin.Chain.Block.{Block}
use ixcoin.Accept.{
  Entry, Chain, Globals, Host, Advance, advanced, rejected, lost, apply_advance, set_best_chain,
  enter_block,
}

-- `bnBestChainWork` is the work of `pindexBest`.
abbrev pub weight : Chain → ℤ
weight [] = pos 0
weight (e ∷ _) = e.chain_work

abbrev pub IsWeighed : Globals → Type 0
IsWeighed g = g.best_work ≡ weight g.best

ltb_ℤ-irrefl : (a : ℤ) → ltb_ℤ a a ≡ false
ltb_ℤ-irrefl (pos n) = ground arith
ltb_ℤ-irrefl (negsuc n) = ground arith

ltb_ℤ-asym : (a b : ℤ) → ltb_ℤ a b ≡ true → ltb_ℤ b a ≡ false
ltb_ℤ-asym a b h = ground arith

apply_advance-true :
    (host : Host) (e : Entry) (earlier : Chain) (g g' : Globals) (a : Advance)
    → apply_advance host e earlier g a ≡ (true, g')
    → (g'.best ≡ e ∷ earlier) × (g'.best_work ≡ e.chain_work)
unfolding apply_advance
apply_advance-true host e earlier g g' rejected h = cc (ap (λ z. z.0) h)
apply_advance-true host e earlier g g' lost h = cc (ap (λ z. z.0) h)
apply_advance-true host e earlier g g' (advanced w) h =
    (ap (λ z. z.1.best) (sym h), ap (λ z. z.1.best_work) (sym h))

-- The three ways through two tests.
three_ways {ℓ} :
    {A : Type ℓ} (c d : Bool) (x y z r : A)
    → (if not c then x else if d then y else z) ≡ r
    → (x ≡ r) ⊎ (((d ≡ true) × (y ≡ r)) ⊎ ((d ≡ false) × (z ≡ r)))
three_ways false d x y z r h = inl h
three_ways true true x y z r h = inr (inl (refl, h))
three_ways true false x y z r h = inr (inr (refl, h))

-- Where `AddToBlockIndex` returns true for a new block, `bnBestChainWork` is the work of the best chain
-- if it was before, it is no less than before, and it is no less than the work of the chain of the
-- new block.
pub enter_block-heaviest :
    (host : Host) (b : Block) (e : Entry) (earlier : Chain) (g g' : Globals)
    → BnLaws host.node.bn
    → IsWeighed g
    → enter_block host b e earlier g ≡ (true, g')
    → IsWeighed g'
      × (ltb_ℤ g'.best_work g.best_work ≡ false)
      × (ltb_ℤ g'.best_work e.chain_work ≡ false)
unfolding enter_block set_best_chain
enter_block-heaviest host b e earlier g g' laws w h =
    elim (three_ways host.node.commits (host.node.bn.below g.best_work e.chain_work) _ _ _ _ h) [
      | inl failed ↦ cc (ap (λ z. z.0) failed)
      | inr (inl (heavier, taken)) ↦
          let (best, work) = apply_advance-true host e earlier _ g' _ taken in
          let less : ltb_ℤ g.best_work e.chain_work ≡ true =
            sym (laws.below_lem g.best_work e.chain_work) ∙ heavier in
          (
            work ∙ sym (ap weight best),
            ap (λ z. ltb_ℤ z g.best_work) work ∙ ltb_ℤ-asym g.best_work e.chain_work less,
            ap (λ z. ltb_ℤ z e.chain_work) work ∙ ltb_ℤ-irrefl e.chain_work,
          )
      | inr (inr (lighter, same)) ↦
          let q = ap (λ z. z.1) same in
          let work : g'.best_work ≡ g.best_work = ap (λ z. z.best_work) (sym q) in
          let not_less : ltb_ℤ g.best_work e.chain_work ≡ false =
            sym (laws.below_lem g.best_work e.chain_work) ∙ lighter in
          (
            work ∙ w ∙ ap (λ z. weight z.best) q,
            ap (λ z. ltb_ℤ z g.best_work) work ∙ ltb_ℤ-irrefl g.best_work,
            ap (λ z. ltb_ℤ z e.chain_work) work ∙ not_less,
          )
    ]
