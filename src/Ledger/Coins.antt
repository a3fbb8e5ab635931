-- ===== src/Ledger/Coins.antt =====
-- What the index of transactions is about: the set of the unspent outputs, as a function from
-- outpoints to outputs, and the transactions that change it. This is the specification that
-- `ConnectInputs` and `ConnectBlock` are measured by.
use ixcoin.Common.{
  ℕ, ◌+◌, ◌-◌, ◌≤◌, ◌≡◌, ◌≢◌, refl, sym, ap, List, [], ◌∷◌, true, false, ◌==◌, ltb, if◌then◌else◌,
  length, get_elem?, Option, none, some, put, ◌>>=◌, arith, Bool-cases, Option-cases, inl, inr,
  get_elem?-set, get_elem?-set_ne, get_elem?-set-none, not-ltb_of_le, get_elem?-replicate-length,
  get_elem?-replicate-length-none,
}
use mathlib.Core.Path.{fun_ext}
use ixcoin.Common.Int.{pos_part}
use ixcoin.Hash.{HashLib}
use ixcoin.Tx.{OutPoint, OutPoint_eq, TxIn, TxOut, Transaction, is_coin_base}
use ixcoin.Tx.CheckLaws.{total_out}
use ixcoin.Chain.Block.{tx_hash}
use ixcoin.Ledger.{TxPos, null_pos, is_null, TxIndex, new_index, Index, Node}
use ixcoin.Ledger.Cells.{mark_record, set_cell}
use ixcoin.Ledger.Step.{read_tx_of}

abbrev pub Coins : Type 0
Coins = OutPoint → Option TxOut

abbrev pub remove : OutPoint → Coins → Coins
remove o c q = if OutPoint_eq q o then none else c q

-- The outputs of a new transaction.
abbrev pub make_coins : ℕ → List TxOut → Coins → Coins
make_coins k outs c q = if q.hash == k then get_elem? outs q.n else c q

-- Each input spends a coin that is there; the value of all.
unfoldable pub take_coins : List TxIn → Coins → Option (ℕ × Coins)
take_coins [] c = some (0, c)
take_coins (t ∷ ts) c = do
  out ← c t.prevout
  (v, c') ← take_coins ts (remove t.prevout c)
  some (pos_part out.value + v, c')

unfoldable pub pay : Transaction → ℕ → ℕ × Coins → Option (ℕ × Coins)
pay tx k (v, c) =
    if ltb v (total_out tx.vout) then none else some (v - total_out tx.vout, make_coins k tx.vout c)

-- A transaction: the fee that it leaves, and the coins behind it.
unfoldable pub apply_tx : HashLib → Transaction → Coins → Option (ℕ × Coins)
apply_tx h tx c =
    if is_coin_base tx
    then some (0, make_coins (tx_hash h tx) tx.vout c)
    else (take_coins tx.vin c >>= λ p. pay tx (tx_hash h tx) p)

pub take_coins-cons :
    (t : TxIn) (ts : List TxIn) (c c' : Coins) (out : TxOut) (a w : ℕ)
    → c t.prevout ≡ some out
    → pos_part out.value ≡ a
    → take_coins ts (remove t.prevout c) ≡ some (w, c')
    → take_coins (t ∷ ts) c ≡ some (a + w, c')
unfolding take_coins
take_coins-cons t ts c c' out a w h q k = rw (h, ◌>>=◌, k) (ap (λ z. some (z + w, c')) q)

pub pay_lem :
    (tx : Transaction) (k v : ℕ) (c : Coins)
    → total_out tx.vout ≤ v
    → pay tx k (v, c) ≡ some (v - total_out tx.vout, make_coins k tx.vout c)
unfolding pay
pay_lem tx k v c h = rw (not-ltb_of_le v (total_out tx.vout) h)

pub apply_tx-coin_base :
    (h : HashLib) (tx : Transaction) (c c' : Coins)
    → is_coin_base tx ≡ true
    → c' ≡ make_coins (tx_hash h tx) tx.vout c
    → apply_tx h tx c ≡ some (0, c')
unfolding apply_tx
apply_tx-coin_base h tx c c' cb q = rw cb (ap (λ z. some (0, z)) (sym q))

pub apply_tx-pay :
    (h : HashLib) (tx : Transaction) (c c1 c2 : Coins) (v fee : ℕ)
    → is_coin_base tx ≡ false
    → take_coins tx.vin c ≡ some (v, c1)
    → pay tx (tx_hash h tx) (v, c1) ≡ some (fee, c2)
    → apply_tx h tx c ≡ some (fee, c2)
unfolding apply_tx
apply_tx-pay h tx c c1 c2 v fee cb t p = rw (cb, t, ◌>>=◌) p

unfoldable pub apply_txs : HashLib → List Transaction → Coins → Option (ℕ × Coins)
apply_txs h [] c = some (0, c)
apply_txs h (tx ∷ txs) c = do
  (f, c1) ← apply_tx h tx c
  (g, c2) ← apply_txs h txs c1
  some (f + g, c2)

-- The coins that an index tells of.
abbrev pub coin_of : Node → OutPoint → Option TxIndex → Option TxOut
coin_of nd o none = none
coin_of nd o (some ix) = do
  by ← get_elem? ix.spent o.n
  prev ← if is_null by then read_tx_of nd o.hash ix else none
  get_elem? prev.vout o.n

unfoldable pub coins_of : Node → Index → Coins
coins_of nd i o = coin_of nd o (i o.hash)

pub coins_of-found :
    (nd : Node) (i : Index) (o : OutPoint) (ix : TxIndex) (by : TxPos) (prev : Transaction)
    → i o.hash ≡ some ix
    → get_elem? ix.spent o.n ≡ some by
    → is_null by ≡ true
    → read_tx_of nd o.hash ix ≡ some prev
    → coins_of nd i o ≡ get_elem? prev.vout o.n
unfolding coins_of
coins_of-found nd i o ix by prev f m z r = rw (f, m, ◌>>=◌, z, r)

-- A mark takes the coin away, and no other.
pub coins_of-set_cell :
    (nd : Node) (o : OutPoint) (e : TxPos) (i : Index)
    → is_null e ≡ false
    → coins_of nd (set_cell o e i) ≡ remove o (coins_of nd i)
unfolding coins_of set_cell
coins_of-set_cell nd o e i ne = fun_ext λ q. elim (Bool-cases (q.hash == o.hash)) [
  | inr f ↦ rw f
  | inl f ↦ elim (Bool-cases (q.n == o.n)) [
    | inl g ↦ rw (f, g) (marked q (i q.hash) (ground arith))
    | inr g ↦ rw (f, g) (kept q (i q.hash) (ground arith))
  ]
]
  where
    marked :
        (q : OutPoint) (r : Option TxIndex) → q.n ≡ o.n → coin_of nd q (mark_record o.n e r) ≡ none
    marked q none d = refl
    marked q (some ix) d = elim (Option-cases (get_elem? ix.spent o.n)) [
      | inl none_there ↦ rw (d, get_elem?-set-none ix.spent o.n e none_there)
      | inr (by, there) ↦ rw (d, get_elem?-set ix.spent o.n e by there, ◌>>=◌, ne)
    ]

    kept :
        (q : OutPoint) (r : Option TxIndex)
        → q.n ≢ o.n
        → coin_of nd q (mark_record o.n e r) ≡ coin_of nd q r
    kept q none d = refl
    kept q (some ix) d = rw (get_elem?-set_ne ix.spent q.n o.n e d)

-- The record of a new transaction, which can be read at its place, makes its outputs coins.
pub coins_of-put :
    (nd : Node) (e : TxPos) (tx : Transaction) (k : ℕ) (i : Index)
    → read_tx_of nd k (new_index e (length tx.vout)) ≡ some tx
    → coins_of nd (put k (new_index e (length tx.vout)) i) ≡ make_coins k tx.vout (coins_of nd i)
unfolding coins_of
coins_of-put nd e tx k i r = fun_ext λ q. elim (Bool-cases (q.hash == k)) [
  | inr f ↦ rw f
  | inl f ↦
      let d : q.hash ≡ k = ground arith in
      elim (Option-cases (get_elem? tx.vout q.n)) [
        | inl absent ↦ rw (f, absent, get_elem?-replicate-length-none tx.vout null_pos q.n absent)
        | inr (out, there) ↦
            rw (f, get_elem?-replicate-length tx.vout null_pos q.n out there, ◌>>=◌, d, r)
      ]
]
