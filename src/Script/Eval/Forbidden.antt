-- ===== src/Script/Eval/Forbidden.antt =====
-- The operations that make a script fail wherever they stand in it.
use ixcoin.Common.{
  ℕ, zero, suc, ◌≡◌, ◌≢◌, ◌⊎◌, refl, sym, ◌∙◌, ap, [], ◌∷◌, Bool, true, false, length, none, some,
  arith, Option-cases, inl, inr,
}
use mathlib.Core.Option.{some-injective}
use mathlib.Core.Path.{subst}
use ixcoin.Serialize.{Bytes}
use ixcoin.Script.Opcode.{Opcode, value}
use ixcoin.Script.Parse.{get_op}
use ixcoin.Script.Machine.{Context, Machine}
use ixcoin.Script.Ops.Stack.{Stack}
use ixcoin.Script.Switch.{switch}
use ixcoin.Script.Eval.{
  run_op, is_branching, is_disabled, step, Outcome, returns, fails, stuck, loop, start, eval_script,
}
use ixcoin.Script.Eval.Steps.{Round, step-Round, eval_script-ne-stuck, eval_script-returns}

-- `op` is one of the operations that a script is read as.
pub data OpIn (op : Opcode) : Bytes → Type 0 where
  here : (s v rest : Bytes) → get_op s ≡ some ((op, v), rest) → OpIn op s
  later :
      (s : Bytes) (other : Opcode) (v rest : Bytes)
      → get_op s ≡ some ((other, v), rest)
      → OpIn op rest
      → OpIn op s

-- The operations for splicing, bits and large numbers; and OP_VERIF and OP_VERNOTIF, which fall in the
-- range of the branching operations and have no case there.
unfoldable pub is_forbidden : Opcode → Bool
is_forbidden Opcode.op_cat = true
is_forbidden Opcode.op_substr = true
is_forbidden Opcode.op_left = true
is_forbidden Opcode.op_right = true
is_forbidden Opcode.op_invert = true
is_forbidden Opcode.op_and = true
is_forbidden Opcode.op_or = true
is_forbidden Opcode.op_xor = true
is_forbidden Opcode.op_2mul = true
is_forbidden Opcode.op_2div = true
is_forbidden Opcode.op_mul = true
is_forbidden Opcode.op_div = true
is_forbidden Opcode.op_mod = true
is_forbidden Opcode.op_lshift = true
is_forbidden Opcode.op_rshift = true
is_forbidden Opcode.op_verif = true
is_forbidden Opcode.op_vernotif = true
is_forbidden _ = false

forbidden_cases :
    (op : Opcode)
    → is_forbidden op ≡ true
    → (is_disabled op ≡ true) ⊎ (op ≡ Opcode.op_verif) ⊎ (op ≡ Opcode.op_vernotif)
unfolding is_forbidden is_disabled
forbidden_cases Opcode.op_verif h = inr (inl refl)
forbidden_cases Opcode.op_vernotif h = inr (inr refl)
forbidden_cases op h = inl h

verif_fails :
    (c : Context) (v rest : Bytes) (m : Machine) → run_op c Opcode.op_verif v rest m ≡ none
unfolding run_op switch is_branching value
verif_fails c v rest m = ground arith

vernotif_fails :
    (c : Context) (v rest : Bytes) (m : Machine) → run_op c Opcode.op_vernotif v rest m ≡ none
unfolding run_op switch is_branching value
vernotif_fails c v rest m = ground arith

forbidden_run :
    (c : Context) (op : Opcode) (v rest : Bytes) (m : Machine)
    → is_forbidden op ≡ true
    → is_disabled op ≡ false
    → run_op c op v rest m ≡ none
forbidden_run c op v rest m h d = elim (forbidden_cases op h) [
  | inl e ↦ cc
  | inr (inl e) ↦ rw e (verif_fails c v rest m)
  | inr (inr e) ↦ rw e (vernotif_fails c v rest m)
]

forbidden-Round :
    (c : Context) (s : Bytes) (m : Machine) (p : Machine × Bytes) (op : Opcode) (v rest : Bytes)
    → is_forbidden op ≡ true
    → get_op s ≡ some ((op, v), rest)
    → Round c s m p
    → ⊥
forbidden-Round c s m p op v rest h e r =
    let q : ((op, v), rest) ≡ ((r.op, r.v), p.1) = some-injective _ _ (sym e ∙ r.read) in
    let o : op ≡ r.op = ap (λ (x : (Opcode × Bytes) × Bytes). x.0.0) q in
    let f = subst (λ x. is_forbidden x ≡ true) o h in
    let n = forbidden_run c r.op r.v p.1 (record m { op_count = r.ops }) f r.enabled in
    cc (n, r.ran)

Round-forbidden :
    (c : Context) (s : Bytes) (m : Machine) (p : Machine × Bytes) (op : Opcode)
    → is_forbidden op ≡ true
    → OpIn op s
    → Round c s m p
    → OpIn op p.1
Round-forbidden c s m p op h (here _ v rest e) r = absurd (forbidden-Round c s m p op v rest h e r)
Round-forbidden c s m p op h (later _ o v rest e i) r =
    subst (OpIn op)
      (ap (λ (x : (Opcode × Bytes) × Bytes). x.1) (some-injective _ _ (sym e ∙ r.read))) i

not-OpIn-nil : (op : Opcode) (s : Bytes) → s ≡ [] → OpIn op s → ⊥
unfolding get_op
not-OpIn-nil op s n (here _ v rest e) = cc (rw n at e)
not-OpIn-nil op s n (later _ o v rest e i) = cc (rw n at e)

loop-forbidden :
    (f : ℕ) (c : Context) (s : Bytes) (m m' : Machine) (op : Opcode)
    → is_forbidden op ≡ true
    → OpIn op s
    → loop f c s m ≢ returns m'
unfolding loop
loop-forbidden f c [] m m' op h i q = not-OpIn-nil op [] refl i
loop-forbidden zero c (b ∷ s) m m' op h i q = cc
loop-forbidden (suc f) c (b ∷ s) m m' op h i q = elim (Option-cases (step c (b ∷ s) m)) [
  | inl g ↦ cc (rw (g, loop) at q)
  | inr ((m₁, r), g) ↦
      loop-forbidden f c r m₁ m' op h
        (Round-forbidden c (b ∷ s) m (m₁, r) op h i (step-Round c (b ∷ s) m (m₁, r) g))
        (rw (g, loop) at q)
]

-- A script with one of the 15 disabled operations, or with OP_VERIF or OP_VERNOTIF, fails on every
-- stack: also where the operation stands in a branch that is not taken, and whatever
-- stands around it.
pub eval_script-forbidden :
    (c : Context) (st : Stack) (s : Bytes) (op : Opcode)
    → is_forbidden op ≡ true
    → OpIn op s
    → eval_script c st s ≡ fails
eval_script-forbidden c st s op h i = by_cases (eval_script c st s) refl
  where
    by_cases : (o : Outcome Stack) → eval_script c st s ≡ o → o ≡ fails
    by_cases (returns st') e =
        let (m, q, _, _, _) = eval_script-returns c st s st' e in
        absurd (loop-forbidden (length s) c s (start st s) m op h i q)
    by_cases fails e = refl
    by_cases stuck e = absurd (eval_script-ne-stuck c st s e)
