-- ===== src/Ledger/Refusal.antt =====
-- What `ConnectInputs` refuses in a block: an input that is no unspent output, or that is there twice.
use ixcoin.Common.{
  ℕ, zero, suc, ◌<◌, ◌≡◌, ◌⊎◌, sym, ap, ◌∙◌, List, [], ◌∷◌, true, false, get_elem?, none, some,
  ◌>>=◌, arith, Bool-cases, Option-cases, inl, inr,
}
use mathlib.Core.Option.{some-injective}
use ixcoin.Common.Int.{pos}
use ixcoin.Tx.{OutPoint, OutPoint_eq, TxIn, Transaction, is_coin_base}
use ixcoin.Ledger.{TxPos, is_null, Node, IndexedBlock}
use ixcoin.Ledger.Connect.{Store, block_call, connect_loop, take_inputs, connect_inputs}
use ixcoin.Ledger.Coins.{Coins, remove, take_coins, coins_of}
use ixcoin.Ledger.Refine.{all_inputs-take_coins}

-- Some input names no coin.
pub record HasMissing (ts : List TxIn) (c : Coins) : Type 0 where
  pub n : ℕ
  pub input : TxIn
  pub there : get_elem? ts n ≡ some input
  pub missing : c input.prevout ≡ none

-- Two inputs name the same outpoint.
pub record HasDouble (ts : List TxIn) : Type 0 where
  pub m : ℕ
  pub n : ℕ
  pub first : TxIn
  pub second : TxIn
  pub before : m < n
  pub first_there : get_elem? ts m ≡ some first
  pub second_there : get_elem? ts n ≡ some second
  pub same : OutPoint_eq second.prevout first.prevout ≡ true

remove-none : (o : OutPoint) (c : Coins) (q : OutPoint) → c q ≡ none → remove o c q ≡ none
remove-none o c q h = elim (Bool-cases (OutPoint_eq q o)) [ inl e ↦ rw e | inr e ↦ rw (e, h) ]

take_coins-missing :
    (ts : List TxIn) (n : ℕ) (t : TxIn) (c : Coins)
    → get_elem? ts n ≡ some t
    → c t.prevout ≡ none
    → take_coins ts c ≡ none
unfolding take_coins
take_coins-missing [] n t c h m = cc
take_coins-missing (u ∷ ts) zero t c h m =
    let q : c u.prevout ≡ none = ap (λ z. c z.prevout) (some-injective _ _ h) ∙ m in rw (q, ◌>>=◌)
take_coins-missing (u ∷ ts) (suc n) t c h m = elim (Option-cases (c u.prevout)) [
  | inl e ↦ rw (e, ◌>>=◌)
  | inr (out, e) ↦
      let k =
        take_coins-missing ts n t (remove u.prevout c) h (remove-none u.prevout c t.prevout m) in
      rw (e, ◌>>=◌, k)
]

take_coins-double :
    (ts : List TxIn) (m n : ℕ) (t u : TxIn) (c : Coins)
    → m < n
    → get_elem? ts m ≡ some t
    → get_elem? ts n ≡ some u
    → OutPoint_eq u.prevout t.prevout ≡ true
    → take_coins ts c ≡ none
unfolding take_coins
take_coins-double [] m n t u c l h k e = cc
take_coins-double (x ∷ ts) m zero t u c l h k e = absurd (omega arith)
take_coins-double (x ∷ ts) zero (suc n) t u c l h k e = elim (Option-cases (c x.prevout)) [
  | inl q ↦ rw (q, ◌>>=◌)
  | inr (out, q) ↦
      let s : OutPoint_eq u.prevout x.prevout ≡ true =
        ap (λ z. OutPoint_eq u.prevout z.prevout) (some-injective _ _ h) ∙ e in
      let gone : remove x.prevout c u.prevout ≡ none = rw s in
      let r = take_coins-missing ts n u (remove x.prevout c) k gone in rw (q, ◌>>=◌, r)
]
take_coins-double (x ∷ ts) (suc m) (suc n) t u c l h k e = elim (Option-cases (c x.prevout)) [
  | inl q ↦ rw (q, ◌>>=◌)
  | inr (out, q) ↦
      let r = take_coins-double ts m n t u (remove x.prevout c) (omega arith) h k e in
      rw (q, ◌>>=◌, r)
]

take_coins-none :
    (ts : List TxIn) (c : Coins) → HasMissing ts c ⊎ HasDouble ts → take_coins ts c ≡ none
take_coins-none ts c (inl h) = take_coins-missing ts h.n h.input c h.there h.missing
take_coins-none ts c (inr h) =
    take_coins-double ts h.m h.n h.first h.second c h.before h.first_there h.second_there h.same

-- `ConnectInputs` refuses a transaction of a block, coinbases aside, where some input is no unspent
-- output of the index, or where two inputs name the same output.
pub connect_inputs_refused :
    (nd : Node) (e : TxPos) (chain : List IndexedBlock) (tx : Transaction) (s : Store)
    → is_null e ≡ false
    → is_coin_base tx ≡ false
    → HasMissing tx.vin (coins_of nd s.index) ⊎ HasDouble tx.vin
    → connect_inputs nd (block_call e chain) tx s ≡ none
unfolding connect_inputs take_inputs
connect_inputs_refused nd e chain tx s ne cb bad =
    elim (Option-cases (connect_loop nd (block_call e chain) tx 0 tx.vin (pos 0) s)) [
      | inl q ↦ rw (cb, q, ◌>>=◌)
      | inr ((v, s1), q) ↦
          let (w, taken, _, _, _) = all_inputs-take_coins nd e chain tx v s s1 ne q in
          let r = take_coins-none tx.vin (coins_of nd s.index) bad in cc (sym taken ∙ r)
    ]
