-- ===== src/Script/Eval/Steps.antt =====
-- One round of the loop of `EvalScript` taken apart, and that the loop ends by itself.
use ixcoin.Common.{
  ℕ, zero, suc, ◌+◌, ◌≤◌, ◌<◌, ◌≡◌, ◌≢◌, refl, [], ◌∷◌, Bool, true, false, not, ltb, length, Option,
  none, some, arith, Bool-cases, Option-cases, inl, inr,
}
use mathlib.Core.Option.{some-injective}
use mathlib.Core.Path.{subst}
use ixcoin.Serialize.{Bytes}
use ixcoin.Script.Opcode.{Opcode}
use ixcoin.Script.Parse.{get_op}
use ixcoin.Script.Parse.RoundTrip.{get_op-length}
use ixcoin.Script.Machine.{Context, Machine, max_element_size}
use ixcoin.Common.{◌>>=◌}
use ixcoin.Script.Ops.Stack.{Stack}
use ixcoin.Script.Eval.{
  count_op, guard, admit_op, run_op, is_disabled, stacks_fit, step, Outcome, returns, fails, stuck,
  loop, start, finished, eval_script,
}

pub >>=-eq-some {ℓ κ} :
    {A : Type ℓ} {B : Type κ} (m : Option A) (f : A → Option B) {b : B}
    → (m >>= f) ≡ some b
    → (a : A) × (m ≡ some a) × (f a ≡ some b)
>>=-eq-some none f h = cc
>>=-eq-some (some a) f h = (a, refl, h)

pub guard-eq-some : (b : Bool) {u : Unit {0}} → guard b ≡ some u → b ≡ true
unfolding guard
guard-eq-some true h = refl
guard-eq-some false h = cc

-- What a round that succeeds went through; `p` is the machine and the script that it leaves.
pub record Round (c : Context) (s : Bytes) (m : Machine) (p : Machine × Bytes) : Type 0 where
  pub op : Opcode
  pub v : Bytes
  pub ops : ℕ
  pub read : get_op s ≡ some ((op, v), p.1)
  pub small : length v ≤ max_element_size
  pub counted : count_op op m.op_count ≡ some ops
  pub enabled : is_disabled op ≡ false
  pub ran : run_op c op v p.1 (record m { op_count = ops }) ≡ some p.0
  pub fits : length p.0.stack + length p.0.altstack ≤ 1000

admit_op-parts :
    (op : Opcode) (v : Bytes) (n ops : ℕ)
    → admit_op op v n ≡ some ops
    → (length v ≤ max_element_size) × (count_op op n ≡ some ops) × (is_disabled op ≡ false)
unfolding admit_op
admit_op-parts op v n ops e =
    let (_, g, e₁) = >>=-eq-some (guard (not (ltb max_element_size (length v)))) _ e in
    let (k, h, e₂) = >>=-eq-some (count_op op n) _ e₁ in
    let (_, d, e₃) = >>=-eq-some (guard (not (is_disabled op))) _ e₂ in
    let g' = guard-eq-some _ g in
    let d' = guard-eq-some _ d in (ground arith, ground (arith, h, e₃), ground arith)

pub step-Round :
    (c : Context) (s : Bytes) (m : Machine) (p : Machine × Bytes)
    → step c s m ≡ some p
    → Round c s m p
unfolding step stacks_fit
step-Round c s m p e =
    let (((op, v), r), g, e₁) = >>=-eq-some (get_op s) _ e in
    let (ops, a, e₂) = >>=-eq-some (admit_op op v m.op_count) _ e₁ in
    let (m₁, k, e₃) = >>=-eq-some (run_op c op v r (record m { op_count = ops })) _ e₂ in
    let (_, f, e₄) = >>=-eq-some (guard (stacks_fit m₁)) _ e₃ in
    let (h₁, h₂, h₃) = admit_op-parts op v m.op_count ops a in
    let f' = guard-eq-some _ f in
    subst (Round c s m) (some-injective _ _ e₄) (record {
      op = op;
      v = v;
      ops = ops;
      read = g;
      small = h₁;
      counted = h₂;
      enabled = h₃;
      ran = k;
      fits = ground arith;
    })

pub returns-injective {ℓ} : {A : Type ℓ} {a b : A} → returns a ≡ returns b → a ≡ b
returns-injective e = cc

pub step-length :
    (c : Context) (s : Bytes) (m : Machine) (p : Machine × Bytes)
    → step c s m ≡ some p
    → length p.1 < length s
step-length c s m p e =
    let r = step-Round c s m p e in omega (arith, get_op-length s r.op r.v p.1 r.read)

loop-ne-stuck :
    (f : ℕ) (c : Context) (s : Bytes) (m : Machine) → length s ≤ f → loop f c s m ≢ stuck
unfolding loop
loop-ne-stuck f c [] m h = λ e. cc
loop-ne-stuck zero c (b ∷ s) m h = absurd (omega arith)
loop-ne-stuck (suc f) c (b ∷ s) m h = elim (Option-cases (step c (b ∷ s) m)) [
  | inl e ↦ rw (e, loop) (λ q. cc)
  | inr ((m', rest), e) ↦
      rw (e, loop) (loop-ne-stuck f c rest m' (omega (arith, step-length c (b ∷ s) m (m', rest) e)))
]

-- What every round keeps holds of the machine that the loop leaves, with the script at its end.
pub loop-invariant {ℓ} :
    (P : Bytes → Machine → Type ℓ) (c : Context)
    → ((s : Bytes) (m : Machine) (p : Machine × Bytes) → Round c s m p → P s m → P p.1 p.0)
    → (f : ℕ) (s : Bytes) (m m' : Machine) → loop f c s m ≡ returns m'
    → P s m
    → P [] m'
unfolding loop
loop-invariant P c keep f [] m m' e h = subst (P []) (returns-injective e) h
loop-invariant P c keep zero (b ∷ s) m m' e h = cc
loop-invariant P c keep (suc f) (b ∷ s) m m' e h = elim (Option-cases (step c (b ∷ s) m)) [
  | inl g ↦ cc (rw (g, loop) at e)
  | inr ((m₁, rest), g) ↦
      loop-invariant P c keep f rest m₁ m' (rw (g, loop) at e)
        (keep (b ∷ s) m (m₁, rest) (step-Round c (b ∷ s) m (m₁, rest) g) h)
]

finished-ne-stuck : (o : Outcome Machine) → o ≢ stuck → finished o ≢ stuck
unfolding finished
finished-ne-stuck (returns m) h = ground arith
finished-ne-stuck fails h = λ e. cc
finished-ne-stuck stuck h = absurd (h refl)

-- `EvalScript` comes to an end on every script: the loop never runs out of fuel.
pub eval_script-ne-stuck : (c : Context) (st : Stack) (s : Bytes) → eval_script c st s ≢ stuck
unfolding eval_script
eval_script-ne-stuck c st s = elim (Bool-cases (ltb 10000 (length s))) [
  | inl e ↦ rw e (λ q. cc)
  | inr e ↦ rw e (
      finished-ne-stuck (loop (length s) c s (start st s))
        (loop-ne-stuck (length s) c s (start st s) (omega arith)))
]

finished-returns :
    (o : Outcome Machine) (st : Stack)
    → finished o ≡ returns st
    → (m : Machine) × (o ≡ returns m) × (m.exec ≡ []) × (m.stack ≡ st)
unfolding finished
finished-returns (returns m) st e = (m, refl, ground arith, ground arith)
finished-returns fails st e = cc
finished-returns stuck st e = cc

-- Where `EvalScript` returns true the loop went to the end of the script, with no branch left open.
pub eval_script-returns :
    (c : Context) (st : Stack) (s : Bytes) (st' : Stack)
    → eval_script c st s ≡ returns st'
    → (m : Machine) × (loop (length s) c s (start st s) ≡ returns m)
      × (m.exec ≡ [])
      × (m.stack ≡ st')
      × (length s ≤ 10000)
unfolding eval_script
eval_script-returns c st s st' e = elim (Bool-cases (ltb 10000 (length s))) [
  | inl g ↦ cc (rw g at e)
  | inr g ↦
      let (m, a, b, d) = finished-returns (loop (length s) c s (start st s)) st' (rw g at e) in
      (m, a, b, d, ground arith)
]
