-- ===== src/Ledger/Undo.antt =====
-- `DisconnectInputs` undoes what `ConnectInputs` does to the index.
use ixcoin.Common.{
  ℕ, suc, ◌≡◌, ◌≢◌, refl, sym, ap, ◌∙◌, List, [], ◌∷◌, true, false, length, get_elem?, none, some,
  put, erase, erase-put, get_elem?_in, get_elem?_lt, ◌>>=◌, >>=-some, Bool-cases, inl, inr, arith,
}
use mathlib.Core.Option.{some-injective}
use ixcoin.Common.Int.{ℤ, pos}
use ixcoin.Tx.{TxIn, Transaction, is_coin_base}
use ixcoin.Chain.Block.{tx_hash}
use ixcoin.Ledger.{
  TxPos, null_pos, is_null, new_index, Index, Node, IndexedBlock, update_tx_index, add_tx_index,
  erase_tx_index,
}
use ixcoin.Ledger.Cells.{set_cell, set_cell-put, set_cell-set_cell, IsListed, IsListed-set_cell}
use ixcoin.Ledger.Step.{connect_input-IsSpend, tally_fee-same}
use ixcoin.Ledger.Marks.{
  mark_all, mark_all-set_cell, erase-mark_all, IsListed-mark_all, AllListed, AllListed-set_cell,
  AllListed-put, mark_all-none, IsCanonical, set_cell-IsCanonical, put-IsCanonical,
}
use ixcoin.Ledger.Connect.{
  Store, block_call, connect_input, connect_loop, take_inputs, add_outputs, connect_inputs,
  disconnect_input, disconnect_loop, disconnect_inputs,
}

-- The database takes every change.
abbrev pub IsReliable : Node → Type 0
IsReliable nd = (i : Index) (k : ℕ) → nd.accepts i k ≡ true

-- What the loop over the inputs leaves, and that it can be undone.
record IsMarked (e : TxPos) (ts : List TxIn) (i : Index) (i' : Index) : Type 0 where
  marked : i' ≡ mark_all e ts i
  undone : mark_all null_pos ts i' ≡ i
  listed : AllListed i' ts
  canonical : IsCanonical i'

connect_loop-IsMarked :
    (nd : Node) (e : TxPos) (chain : List IndexedBlock) (tx : Transaction) (n : ℕ) (ts : List TxIn)
    (v v' : ℤ) (s s' : Store)
    → is_null e ≡ false
    → IsCanonical s.index
    → connect_loop nd (block_call e chain) tx n ts v s ≡ some (v', s')
    → IsMarked e ts s.index s'.index
unfolding connect_loop
connect_loop-IsMarked nd e chain tx n [] v v' s s' ne c h =
    let q : s ≡ s' = ap (λ z. z.1) (some-injective _ _ h) in
    let r : s.index ≡ s'.index = ap (λ z. z.index) q in
    record { marked = sym r; undone = sym r; listed = tt; canonical = rw (sym r) c }
connect_loop-IsMarked nd e chain tx n (t ∷ ts) v v' s s' ne c h =
    let ((w, s1), p, h1) =
      >>=-some (connect_input nd (block_call e chain) tx n t.prevout v s) _ _ h in
    let sp = connect_input-IsSpend nd e chain tx n t.prevout v w s s1 p in
    let a : s1.index ≡ set_cell t.prevout e s.index = ap (λ z. z.index) sp.after in
    let c1 : IsCanonical s1.index = rw a (set_cell-IsCanonical t.prevout e s.index ne c) in
    let m = connect_loop-IsMarked nd e chain tx (suc n) ts w v' s1 s' ne c1 h1 in
    let null : sp.by ≡ null_pos =
      c t.prevout.hash t.prevout.n sp.ix sp.by sp.found sp.has_mark sp.was_free in
    let free : get_elem? sp.ix.spent t.prevout.n ≡ some null_pos = rw (sym null) sp.has_mark in
    let here : IsListed s.index t.prevout = record {
      ix = sp.ix;
      found = sp.found;
      in_range = get_elem?_lt sp.ix.spent t.prevout.n sp.by sp.has_mark;
    } in
    record {
      marked = m.marked ∙ ap (mark_all e ts) a;
      undone =
          mark_all-set_cell null_pos ts t.prevout s'.index
          ∙ ap (set_cell t.prevout null_pos) (m.undone ∙ a)
          ∙ set_cell-set_cell t.prevout e null_pos s.index sp.ix sp.found free;
      listed = (
        rw (m.marked, a)
            (IsListed-mark_all t.prevout e ts _
              (IsListed-set_cell t.prevout t.prevout e s.index here)),
        m.listed,
      );
      canonical = m.canonical;
    }

disconnect_loop-listed :
    (nd : Node) (ts : List TxIn) (i : Index)
    → IsReliable nd
    → AllListed i ts
    → disconnect_loop nd ts i ≡ some (mark_all null_pos ts i)
unfolding disconnect_loop disconnect_input update_tx_index
disconnect_loop-listed nd [] i r l = refl
disconnect_loop-listed nd (t ∷ ts) i r (l, ls) =
    let (by, g) = get_elem?_in l.ix.spent t.prevout.n l.in_range in
    rw (l.found, ◌>>=◌, g, r i t.prevout.hash, set_cell-put t.prevout null_pos i l.ix l.found)
      (disconnect_loop-listed nd ts (set_cell t.prevout null_pos i) r
        (AllListed-set_cell t.prevout null_pos ts i ls))

-- What a transaction of a block that was connected leaves in the index, and that it can be undone.
pub record IsConnected (nd : Node) (e : TxPos) (tx : Transaction) (i : Index) (i' : Index)
    : Type 0 where
  pub inner : Index
  pub marked : inner ≡ mark_all e tx.vin i
  pub undone : mark_all null_pos tx.vin inner ≡ i
  pub absent : inner (tx_hash nd.hashes tx) ≡ none
  pub listed : AllListed inner tx.vin
  pub canonical : IsCanonical inner
  pub after : i' ≡ put (tx_hash nd.hashes tx) (new_index e (length tx.vout)) inner

pub add_outputs-some :
    (nd : Node) (e : TxPos) (chain : List IndexedBlock) (tx : Transaction) (s s' : Store)
    → add_outputs nd (block_call e chain) tx s ≡ some s'
    → s'.index ≡ put (tx_hash nd.hashes tx) (new_index e (length tx.vout)) s.index
unfolding add_outputs add_tx_index update_tx_index
add_outputs-some nd e chain tx s s' h =
    elim (Bool-cases (nd.accepts s.index (tx_hash nd.hashes tx))) [
      | inl f ↦ sym (ap (λ z. z.index) (some-injective _ _ (rw f at h)))
      | inr f ↦ cc (rw f at h)
    ]

erase_new :
    (nd : Node) (e : TxPos) (tx : Transaction) (i : Index)
    → IsReliable nd
    → i (tx_hash nd.hashes tx) ≡ none
    → erase_tx_index nd tx (put (tx_hash nd.hashes tx) (new_index e (length tx.vout)) i) ≡ some i
unfolding erase_tx_index
erase_new nd e tx i r h =
    let k = tx_hash nd.hashes tx in
    let ix = new_index e (length tx.vout) in rw (r (put k ix i) k) (ap some (erase-put k ix i h))

erase_inner :
    (nd : Node) (e : TxPos) (tx : Transaction) (i i' : Index)
    → IsReliable nd
    → IsConnected nd e tx i i'
    → erase_tx_index nd tx (mark_all null_pos tx.vin i') ≡ some i
unfolding erase_tx_index
erase_inner nd e tx i i' r c =
    let k = tx_hash nd.hashes tx in
    rw (r (mark_all null_pos tx.vin i') k) (
      ap some (
        ap (λ x. erase k (mark_all null_pos tx.vin x)) c.after
        ∙ erase-mark_all k null_pos tx.vin (put k (new_index e (length tx.vout)) c.inner)
        ∙ ap (mark_all null_pos tx.vin)
            (erase-put k (new_index e (length tx.vout)) c.inner c.absent)
        ∙ c.undone))

module _ (nd : Node) (e : TxPos) (chain : List IndexedBlock) (tx : Transaction) (s s' : Store) where
  -- What `ConnectInputs` leaves of a transaction whose hash is new, and that it can be undone.
  pub connect_inputs-IsConnected :
      is_coin_base tx ≡ false
      → is_null e ≡ false
      → IsCanonical s.index
      → s.index (tx_hash nd.hashes tx) ≡ none
      → connect_inputs nd (block_call e chain) tx s ≡ some s'
      → IsConnected nd e tx s.index s'.index
  unfolding connect_inputs take_inputs
  connect_inputs-IsConnected cb ne c fresh h =
      let (s2, p, h2) = >>=-some (take_inputs nd (block_call e chain) tx s) _ _ h in
      let ((v, s1), q, h1) =
        >>=-some (connect_loop nd (block_call e chain) tx 0 tx.vin (pos 0) s) _ _ (rw cb at p) in
      let m = connect_loop-IsMarked nd e chain tx 0 tx.vin (pos 0) v s s1 ne c q in
      let a = tally_fee-same (block_call e chain) tx v s1 s2 h1 in
      record {
        inner = s1.index;
        marked = m.marked;
        undone = m.undone;
        absent =
            ap (λ i. i (tx_hash nd.hashes tx)) m.marked
            ∙ mark_all-none e tx.vin s.index (tx_hash nd.hashes tx) fresh;
        listed = m.listed;
        canonical = m.canonical;
        after =
            add_outputs-some nd e chain tx s2 s' h2
            ∙ ap (put (tx_hash nd.hashes tx) (new_index e (length tx.vout))) a;
      }

  connect_coin_base :
      is_coin_base tx ≡ true
      → connect_inputs nd (block_call e chain) tx s ≡ some s'
      → s'.index ≡ put (tx_hash nd.hashes tx) (new_index e (length tx.vout)) s.index
  unfolding connect_inputs take_inputs
  connect_coin_base cb h = add_outputs-some nd e chain tx s s' (rw cb at h)

  -- The marks of a connected index are in form.
  pub connect_inputs-IsCanonical :
      is_null e ≡ false
      → IsCanonical s.index
      → s.index (tx_hash nd.hashes tx) ≡ none
      → connect_inputs nd (block_call e chain) tx s ≡ some s'
      → IsCanonical s'.index
  connect_inputs-IsCanonical ne c fresh h = elim (Bool-cases (is_coin_base tx)) [
    | inl cb ↦ rw (connect_coin_base cb h) (put-IsCanonical _ e (length tx.vout) s.index c)
    | inr cb ↦
        let k = connect_inputs-IsConnected cb ne c fresh h in
        rw k.after (put-IsCanonical _ e (length tx.vout) k.inner k.canonical)
  ]

  -- No other record is made.
  pub connect_inputs-none :
      (k : ℕ)
      → is_null e ≡ false
      → IsCanonical s.index
      → s.index (tx_hash nd.hashes tx) ≡ none
      → connect_inputs nd (block_call e chain) tx s ≡ some s'
      → k ≢ tx_hash nd.hashes tx
      → s.index k ≡ none
      → s'.index k ≡ none
  connect_inputs-none k ne c fresh h other absent = elim (Bool-cases (is_coin_base tx)) [
    | inl cb ↦ rw (connect_coin_base cb h) (put-none s.index absent)
    | inr cb ↦
        let m = connect_inputs-IsConnected cb ne c fresh h in
        rw m.after (put-none m.inner (rw m.marked (mark_all-none e tx.vin s.index k absent)))
  ]
    where
      put-none :
          (i : Index)
          → i k ≡ none
          → put (tx_hash nd.hashes tx) (new_index e (length tx.vout)) i k ≡ none
      put-none i q = ground arith

  -- A transaction of a block that `ConnectInputs` has taken, and whose hash the index did not have
  -- before, is taken back by `DisconnectInputs`, and the index is as it was: each input is an
  -- unspent output again, and the outputs are gone. The place of the transaction is not the null
  -- one, each mark of an unspent output is the null one, and the database takes every change.
  pub disconnect_inputs-connect_inputs :
      IsReliable nd
      → is_null e ≡ false
      → IsCanonical s.index
      → s.index (tx_hash nd.hashes tx) ≡ none
      → connect_inputs nd (block_call e chain) tx s ≡ some s'
      → disconnect_inputs nd tx s'.index ≡ some s.index
  unfolding disconnect_inputs
  disconnect_inputs-connect_inputs r ne c fresh h = elim (Bool-cases (is_coin_base tx)) [
    | inl cb ↦ rw (cb, connect_coin_base cb h, ◌>>=◌) (erase_new nd e tx s.index r fresh)
    | inr cb ↦
        let k = connect_inputs-IsConnected cb ne c fresh h in
        let l : AllListed s'.index tx.vin =
          rw k.after
            (AllListed-put _ (new_index e (length tx.vout)) tx.vin k.inner k.absent k.listed) in
        rw (cb, disconnect_loop-listed nd tx.vin s'.index r l, ◌>>=◌)
          (erase_inner nd e tx s.index s'.index r k)
  ]
