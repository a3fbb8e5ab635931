-- ===== src/Ledger/Step.antt =====
-- What an input of a transaction in a block has passed where `ConnectInputs` takes it.
use ixcoin.Common.{
  ℕ, ◌≡◌, refl, sym, ap, ◌∙◌, List, Bool, true, false, ◌&&◌, ◌||◌, not, if◌then◌else◌, get_elem?,
  Option, none, some, put, >>=-some, arith, Bool-cases, Option-cases, inl, inr,
}
use mathlib.Core.Option.{some-injective}
use ixcoin.Common.Int.{ℤ, pos, ◌+ℤ◌, ◌-ℤ◌, ltb_ℤ}
use ixcoin.Common.Words.{wrap_int64}
use ixcoin.Tx.{OutPoint, TxOut, Transaction, is_coin_base, money_range}
use ixcoin.Tx.Check.{get_value_out}
use ixcoin.Ledger.{
  TxPos, is_null, TxPos_eq, memory_pos, TxIndex, Node, IndexedBlock, update_tx_index,
  verify_signature,
}
use ixcoin.Ledger.Cells.{with_mark, set_cell, set_cell-put}
use ixcoin.Ledger.Connect.{
  Call, block_call, Store, too_young, find_index, passes, previous, spend, spend_out, write_back,
  connect_input, add_fee, tally_fee,
}

-- The transaction that a record stands for.
abbrev pub read_tx_of : Node → ℕ → TxIndex → Option Transaction
read_tx_of nd k ix = if TxPos_eq ix.pos memory_pos then nd.memory k else nd.disk ix.pos

pub record IsSpend (nd : Node) (call : Call) (tx : Transaction) (i : ℕ) (o : OutPoint) (v : ℤ)
    (s : Store) (v' : ℤ) (s' : Store) : Type 0 where
  pub ix : TxIndex
  pub prev : Transaction
  pub out : TxOut
  pub by : TxPos
  pub found : s.index o.hash ≡ some ix
  pub read : read_tx_of nd o.hash ix ≡ some prev
  pub has_out : get_elem? prev.vout o.n ≡ some out
  pub has_mark : get_elem? ix.spent o.n ≡ some by
  pub was_free : is_null by ≡ true
  pub mature : (is_coin_base prev && too_young call.chain ix.pos) ≡ false
  pub signed : passes (verify_signature nd prev tx i) ≡ true
  pub value : v' ≡ wrap_int64 (v +ℤ out.value)
  pub value_fits : money_range out.value ≡ true
  pub sum_fits : money_range v' ≡ true
  pub after : s' ≡ record s { index = set_cell o call.entry s.index }

-- A test of a chain of tests that gave a result.
pub if-none {ℓ} :
    {A : Type ℓ} (b : Bool) (o : Option A) (a : A)
    → (if b then none else o) ≡ some a
    → (b ≡ false) × (o ≡ some a)
if-none true o a h = cc
if-none false o a h = (refl, h)

pub not_false : (b : Bool) → not b ≡ false → b ≡ true
not_false b h = ground arith

pub neither : (a b : Bool) → (not a || not b) ≡ false → (a ≡ true) × (b ≡ true)
neither a b h = ground arith

previous-some :
    (nd : Node) (e : TxPos) (chain : List IndexedBlock) (s : Store) (k : ℕ) (ix : TxIndex)
    (prev : Transaction)
    → previous nd (block_call e chain) s k ≡ some (ix, prev)
    → (s.index k ≡ some ix) × (read_tx_of nd k ix ≡ some prev)
unfolding previous find_index
previous-some nd e chain s k ix prev h = elim (Option-cases (s.index k)) [
  | inl f ↦ cc (rw f at h)
  | inr (ix', f) ↦
      let (p, r, q) =
        >>=-some (read_tx_of nd k ix') (λ prev. some (ix', prev)) (ix, prev) (rw f at h) in
      let w = some-injective _ _ q in
      let a : ix' ≡ ix = ap (λ z. z.0) w in
      let b : p ≡ prev = ap (λ z. z.1) w in (rw f (ap some a), rw (sym a, sym b) r)
]

record IsTaken (nd : Node) (call : Call) (tx : Transaction) (i : ℕ) (n : ℕ) (ix : TxIndex)
    (prev : Transaction) (v : ℤ) (v' : ℤ) (ix' : TxIndex) : Type 0 where
  out : TxOut
  by : TxPos
  has_out : get_elem? prev.vout n ≡ some out
  has_mark : get_elem? ix.spent n ≡ some by
  was_free : is_null by ≡ true
  mature : (is_coin_base prev && too_young call.chain ix.pos) ≡ false
  signed : passes (verify_signature nd prev tx i) ≡ true
  value : v' ≡ wrap_int64 (v +ℤ out.value)
  value_fits : money_range out.value ≡ true
  sum_fits : money_range v' ≡ true
  after : ix' ≡ with_mark n call.entry ix

spend-some :
    (nd : Node) (call : Call) (tx : Transaction) (i n : ℕ) (ix : TxIndex) (prev : Transaction)
    (v : ℤ) (v' : ℤ) (ix' : TxIndex)
    → spend nd call tx i n ix prev v ≡ some (v', ix')
    → IsTaken nd call tx i n ix prev v v' ix'
unfolding spend spend_out
spend-some nd call tx i n ix prev v v' ix' h =
    let (out, g, h1) = >>=-some (get_elem? prev.vout n) _ _ h in
    let (by, k, h2) = >>=-some (get_elem? ix.spent n) _ _ h1 in
    let (mature, h3) = if-none _ _ _ h2 in
    let (signed, h4) = if-none _ _ _ h3 in
    let (free, h5) = if-none _ _ _ h4 in
    let (fits, h6) = if-none _ _ _ h5 in
    let w = some-injective _ _ h6 in
    let value : v' ≡ wrap_int64 (v +ℤ out.value) = sym (ap (λ z. z.0) w) in
    let (in_range, sum_in_range) = neither _ _ fits in
    record {
      out = out;
      by = by;
      has_out = g;
      has_mark = k;
      was_free = not_false _ free;
      mature = mature;
      signed = not_false _ signed;
      value = value;
      value_fits = in_range;
      sum_fits = rw value sum_in_range;
      after = sym (ap (λ z. z.1) w);
    }

write_back-some :
    (nd : Node) (e : TxPos) (chain : List IndexedBlock) (k : ℕ) (ix : TxIndex) (s s' : Store)
    → write_back nd (block_call e chain) k ix s ≡ some s'
    → s' ≡ record s { index = put k ix s.index }
unfolding write_back update_tx_index
write_back-some nd e chain k ix s s' h = elim (Bool-cases (nd.accepts s.index k)) [
  | inl f ↦ sym (some-injective _ _ (rw f at h))
  | inr f ↦ cc (rw f at h)
]

pub connect_input-IsSpend :
    (nd : Node) (e : TxPos) (chain : List IndexedBlock) (tx : Transaction) (i : ℕ) (o : OutPoint)
    (v v' : ℤ) (s s' : Store)
    → connect_input nd (block_call e chain) tx i o v s ≡ some (v', s')
    → IsSpend nd (block_call e chain) tx i o v s v' s'
unfolding connect_input
connect_input-IsSpend nd e chain tx i o v v' s s' h =
    let ((ix, prev), p, h1) = >>=-some (previous nd (block_call e chain) s o.hash) _ _ h in
    let ((value, ix'), q, h2) =
      >>=-some (spend nd (block_call e chain) tx i o.n ix prev v) _ _ h1 in
    let (s1, r, h3) = >>=-some (write_back nd (block_call e chain) o.hash ix' s) _ _ h2 in
    let w = some-injective _ _ h3 in
    let (found, read) = previous-some nd e chain s o.hash ix prev p in
    let t = spend-some nd (block_call e chain) tx i o.n ix prev v value ix' q in
    let same : value ≡ v' = ap (λ z. z.0) w in
    record {
      ix = ix;
      prev = prev;
      out = t.out;
      by = t.by;
      found = found;
      read = read;
      has_out = t.has_out;
      has_mark = t.has_mark;
      was_free = t.was_free;
      mature = t.mature;
      signed = t.signed;
      value = sym same ∙ t.value;
      value_fits = t.value_fits;
      sum_fits = rw (sym same) t.sum_fits;
      after =
          sym (ap (λ z. z.1) w)
          ∙ write_back-some nd e chain o.hash ix' s s1 r
          ∙ ap (λ x. record s { index = put o.hash x s.index }) t.after
          ∙ ap (λ x. record s { index = x }) (set_cell-put o e s.index ix found);
    }

-- What the fee of a transaction has passed; it changes no record.
pub add_fee-some :
    (call : Call) (v w : ℤ) (s s' : Store)
    → add_fee call v w s ≡ some s'
    → (ltb_ℤ v w ≡ false)
      × (money_range s'.fees ≡ true)
      × (s' ≡ record s { fees = wrap_int64 (s.fees +ℤ wrap_int64 (v -ℤ w)) })
unfolding add_fee
add_fee-some call v w s s' h =
    let fee = wrap_int64 (v -ℤ w) in
    let fees = wrap_int64 (s.fees +ℤ fee) in
    let (enough, h1) = if-none (ltb_ℤ v w) _ _ h in
    let (_, h2) = if-none (ltb_ℤ fee (pos 0)) _ _ h1 in
    let (_, h3) = if-none (ltb_ℤ fee call.min_fee) _ _ h2 in
    let (fits, h4) = if-none (not (money_range fees)) _ _ h3 in
    let after = sym (some-injective _ _ h4) in
    (enough, rw (ap (λ z. z.fees) after) (not_false _ fits), after)

pub tally_fee-same :
    (call : Call) (tx : Transaction) (v : ℤ) (s s' : Store)
    → tally_fee call tx v s ≡ some s'
    → s'.index ≡ s.index
unfolding tally_fee
tally_fee-same call tx v s s' h =
    let (w, _, h1) = >>=-some (get_value_out tx) _ _ h in
    let (_, _, after) = add_fee-some call v w s s' h1 in ap (λ z. z.index) after
