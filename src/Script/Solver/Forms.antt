-- ===== src/Script/Solver/Forms.antt =====
-- src/script.cpp: which scripts `Solver` takes apart, and into what.
use ixcoin.Common.{
  ℕ, suc, ◌≤◌, ◌≡◌, refl, sym, ap, ◌∙◌, List, [], ◌∷◌, true, false, ◌&&◌, ◌==◌, length, some, arith,
  Bool-cases, Option-cases, inl, inr,
}
use mathlib.Core.Path.{subst}
use mathlib.Core.Option.{some-injective}
use ixcoin.Serialize.{Bytes}
use ixcoin.Script.Opcode.{Opcode, value, of_byte}
use ixcoin.Script.Parse.{get_op}
use ixcoin.Script.Ops.Splice.{bytes_eq}
use ixcoin.Tx.Check.{is_empty}
use ixcoin.Script.Solver.{Solution, match_plain, match_op, match_loop}

-- The script `s` starts with the operations of these numbers, which have no data, and goes on with `t`.
pub data Starts : List ℕ → Bytes → Bytes → Type 0 where
  end : (s : Bytes) → Starts [] s s
  next :
      {ns : List ℕ} {r t : Bytes} (s : Bytes) (op : Opcode)
      → get_op s ≡ some ((op, []), r)
      → Starts ns r t
      → Starts (value op ∷ ns) s t

-- The two forms: data of 33 to 120 bytes and OP_CHECKSIG; or OP_DUP OP_HASH160, data of 20 bytes, and
-- OP_EQUALVERIFY OP_CHECKSIG.
pub data IsForm (s : Bytes) : Solution → Type 0 where
  pays_key :
      {r : Bytes} (op : Opcode) (key : Bytes)
      → get_op s ≡ some ((op, key), r)
      → 33 ≤ length key
      → length key ≤ 120
      → Starts (172 ∷ []) r []
      → IsForm s ((Opcode.op_pubkey, key) ∷ [])
  pays_key_hash :
      {m r : Bytes} (op : Opcode) (h : Bytes)
      → Starts (118 ∷ 169 ∷ []) s m
      → get_op m ≡ some ((op, h), r)
      → length h ≡ 20
      → Starts (136 ∷ 172 ∷ []) r []
      → IsForm s ((Opcode.op_pubkeyhash, h) ∷ [])

-- One round of the loop.
pub record Stepped (f : ℕ) (s : Bytes) (other : Opcode) (t' : Bytes) (found sol : Solution)
    : Type 0 where
  pub op : Opcode
  pub v : Bytes
  pub rest : Bytes
  pub found' : Solution
  pub read : get_op s ≡ some ((op, v), rest)
  pub matched : match_op op v other [] found ≡ some found'
  pub left : match_loop f rest t' found' ≡ some sol

pub match_loop-Stepped :
    (f b : ℕ) (s t t' : Bytes) (other : Opcode) (found sol : Solution)
    → get_op (b ∷ t) ≡ some ((other, []), t')
    → match_loop (suc f) s (b ∷ t) found ≡ some sol
    → Stepped f s other t' found sol
unfolding match_loop
match_loop-Stepped f b s t t' other found sol e k = elim (Option-cases (get_op s)) [
  | inl g ↦ cc (rw (empty, g, match_loop) at k)
  | inr (((op, v), rest), g) ↦ elim (Option-cases (match_op op v other [] found)) [
    | inl h ↦ cc (rw (empty, g, e, h, match_loop) at k)
    | inr (found', h) ↦ record {
      op = op;
      v = v;
      rest = rest;
      found' = found';
      read = g;
      matched = h;
      left = rw (empty, g, e, h, match_loop) at k;
    }
  ]
]
  where
    empty : is_empty s && is_empty (b ∷ t) ≡ false
    empty = ground arith

pub Stepped-match_loop :
    (f b : ℕ) (s t t' : Bytes) (other : Opcode) (found sol : Solution)
    → get_op (b ∷ t) ≡ some ((other, []), t')
    → Stepped f s other t' found sol
    → match_loop (suc f) s (b ∷ t) found ≡ some sol
unfolding match_loop
Stepped-match_loop f b s t t' other found sol e k =
    let empty : is_empty s && is_empty (b ∷ t) ≡ false = ground arith in
    rw (empty, k.read, e, k.matched, match_loop) k.left

-- Behind the template the script has to end too.
match_loop_end :
    (f : ℕ) (s : Bytes) (found sol : Solution)
    → match_loop (suc f) s [] found ≡ some sol
    → (s ≡ []) × (found ≡ sol)
unfolding match_loop get_op
match_loop_end f [] found sol e = (refl, some-injective _ _ e)
match_loop_end f (b ∷ s) found sol e = elim (Option-cases (get_op (b ∷ s))) [
  | inl g ↦ cc (rw (g, match_loop) at e)
  | inr (x, g) ↦ cc (rw (g, match_loop) at e)
]

bytes_eq_nil : (v : Bytes) → bytes_eq v [] ≡ true → v ≡ []
unfolding bytes_eq
bytes_eq_nil [] e = refl
bytes_eq_nil (b ∷ v) e = cc

match_plain_lem :
    (op other : Opcode) (v : Bytes) (found found' : Solution)
    → match_plain op v other [] found ≡ some found'
    → (value op ≡ value other) × (v ≡ []) × (found ≡ found')
unfolding match_plain
match_plain_lem op other v found found' e = elim (Bool-cases (value op == value other)) [
  | inr f ↦ cc (rw f at e)
  | inl f ↦ elim (Bool-cases (bytes_eq v [])) [
    | inr g ↦ cc (rw (f, g) at e)
    | inl g ↦ (ground arith, bytes_eq_nil v g, some-injective _ _ (rw (f, g) at e))
  ]
]

match_plain_same :
    (op other : Opcode) (found : Solution)
    → value op ≡ value other
    → match_plain op [] other [] found ≡ some found
unfolding match_plain bytes_eq
match_plain_same op other found e = let f : value op == value other ≡ true = ground arith in rw f

-- A round against an operation with no data.
pub plain_sound :
    (f b : ℕ) (s t t' : Bytes) (other : Opcode) (found sol : Solution)
    → get_op (b ∷ t) ≡ some ((other, []), t')
    → ((op : Opcode) (v : Bytes) → match_op op v other [] found ≡ match_plain op v other [] found)
    → match_loop (suc f) s (b ∷ t) found ≡ some sol
    → (op : Opcode) × (r : Bytes) × (get_op s ≡ some ((op, []), r))
      × (value op ≡ value other)
      × (match_loop f r t' found ≡ some sol)
plain_sound f b s t t' other found sol e p k =
    let q = match_loop-Stepped f b s t t' other found sol e k in
    let (n, v, w) = match_plain_lem q.op other q.v found q.found' (sym (p q.op q.v) ∙ q.matched) in
    (
      q.op,
      q.rest,
      q.read ∙ ap (λ (x : Bytes). some ((q.op, x), q.rest)) v,
      n,
      subst (λ x. match_loop f q.rest t' x ≡ some sol) (sym w) q.left,
    )

pub plain_complete :
    (f b : ℕ) (s t t' r : Bytes) (op other : Opcode) (found sol : Solution)
    → get_op (b ∷ t) ≡ some ((other, []), t')
    → match_op op [] other [] found ≡ match_plain op [] other [] found
    → get_op s ≡ some ((op, []), r)
    → value op ≡ value other
    → match_loop f r t' found ≡ some sol
    → match_loop (suc f) s (b ∷ t) found ≡ some sol
plain_complete f b s t t' r op other found sol e p g n k =
    Stepped-match_loop f b s t t' other found sol e (record {
      op = op;
      v = [];
      rest = r;
      found' = found;
      read = g;
      matched = p ∙ match_plain_same op other found n;
      left = k;
    })

-- OP_CHECKSIG at the end of both templates
pub check_sig_sound :
    (s : Bytes) (found sol : Solution)
    → match_loop 2 s (172 ∷ []) found ≡ some sol
    → Starts (172 ∷ []) s [] × (found ≡ sol)
unfolding get_op of_byte match_op value
check_sig_sound s found sol k =
    let (op, r, g, n, l) =
      plain_sound 1 172 s [] [] Opcode.op_checksig found sol refl (λ o v. refl) k in
    let (z, w) = match_loop_end 0 r found sol l in
    (
      subst (λ x. Starts (x ∷ []) s []) n
          (next s op g (subst (λ x. Starts [] x []) (sym z) (end []))),
      w,
    )
