-- ===== src/Script/Eval/Runs.antt =====
-- Running a script operation by operation: rules to step a run forward.
use ixcoin.Common.{
  ℕ, zero, suc, ◌+◌, ◌≤◌, ◌<◌, ◌≡◌, refl, sym, ◌∙◌, [], ◌∷◌, ◌++◌, true, false, ltb, leb, length,
  none, some, arith, Bool-cases, Option-cases, inl, inr, ◌⊎◌, not-ltb_of_le, le→leb,
}
use ixcoin.Serialize.{Bytes}
use ixcoin.Script.Opcode.{Opcode, value, of_byte, push_size, op_pushdata1, op_pushdata2}
use ixcoin.Script.Parse.{get_op, push_data}
use ixcoin.Script.Parse.RoundTrip.{push_opcode, get_op-push_data}
use ixcoin.Script.Machine.{Context, Machine, max_element_size}
use ixcoin.Script.Eval.{
  all_true, is_disabled, count_op, guard, admit_op, run_op, stacks_fit, step, Outcome, returns,
  fails, loop,
}
use ixcoin.Script.Eval.Steps.{Round, step-length}

-- Any two amounts of fuel that are enough give the same outcome.
loop-fuel :
    (f g : ℕ) (c : Context) (s : Bytes) (m : Machine)
    → length s ≤ f
    → length s ≤ g
    → loop f c s m ≡ loop g c s m
unfolding loop
loop-fuel f g c [] m h k = loop_end f c m ∙ sym (loop_end g c m)
  where
    loop_end : (f : ℕ) (c : Context) (m : Machine) → loop f c [] m ≡ returns m
    loop_end zero c m = refl
    loop_end (suc f) c m = refl
loop-fuel zero g c (b ∷ s) m h k = absurd (omega arith)
loop-fuel (suc f) zero c (b ∷ s) m h k = absurd (omega arith)
loop-fuel (suc f) (suc g) c (b ∷ s) m h k = elim (Option-cases (step c (b ∷ s) m)) [
  | inl e ↦ rw (e, loop)
  | inr ((m', rest), e) ↦
      let l = step-length c (b ∷ s) m (m', rest) e in
      rw (e, loop) (loop-fuel f g c rest m' (omega arith) (omega arith))
]

-- A run with enough fuel.
abbrev pub runs : Context → Bytes → Machine → Outcome Machine
runs c s m = loop (length s) c s m

pub runs-nil : (c : Context) (m : Machine) → runs c [] m ≡ returns m
unfolding loop
runs-nil c m = refl

pub runs-step :
    (c : Context) (s rest : Bytes) (m m' : Machine)
    → step c s m ≡ some (m', rest)
    → runs c s m ≡ runs c rest m'
runs-step c [] rest m m' e = unfold step get_op in cc e
runs-step c (b ∷ s) rest m m' e =
    let l = step-length c (b ∷ s) m (m', rest) e in
    unfold loop in
    rw (e, loop) (loop-fuel (length s) (length rest) c rest m' (omega arith) (omega arith))

pub runs-fail :
    (c : Context) (b : ℕ) (s : Bytes) (m : Machine)
    → step c (b ∷ s) m ≡ none
    → runs c (b ∷ s) m ≡ fails
runs-fail c b s m e = unfold loop in rw (e, loop)

-- The parts of a round, put together.
pub Round-step :
    (c : Context) (s : Bytes) (m : Machine) (p : Machine × Bytes)
    → Round c s m p
    → step c s m ≡ some p
unfolding step admit_op guard stacks_fit
Round-step c s m p r = rw (
  r.read,
  not-ltb_of_le max_element_size (length r.v) r.small,
  r.counted,
  r.enabled,
  r.ran,
  not-ltb_of_le 1000 (length p.0.stack + length p.0.altstack) r.fits,
)

-- The opcodes with which data of at most 520 bytes is put on a script.
push_opcode-cases :
    (n : ℕ)
    → n ≤ 520
    → ((n ≤ 75) × (of_byte (push_opcode n) ≡ push_size n))
      ⊎ (of_byte (push_opcode n) ≡ op_pushdata1)
      ⊎ (of_byte (push_opcode n) ≡ op_pushdata2)
push_opcode-cases n h = elim (Bool-cases (ltb n 76)) [
  | inl e ↦ inl (ground arith, rw e (small n (ground arith)))
  | inr e ↦ elim (Bool-cases (leb n 0xff)) [
    | inl f ↦ inr (inl (rw (e, f) (unfold of_byte in refl)))
    | inr f ↦
        inr (
          inr (let g : leb n 0xffff ≡ true = ground arith in rw (e, f, g) (unfold of_byte in refl)))
  ]
]
  where
    small : (n : ℕ) → n ≤ 75 → of_byte n ≡ push_size n
    small n k = unfold of_byte in ground arith

push_facts :
    (op : Opcode) (n k : ℕ)
    → ((k ≤ 75) × (op ≡ push_size k)) ⊎ (op ≡ op_pushdata1) ⊎ (op ≡ op_pushdata2)
    → (value op ≤ 78) × (is_disabled op ≡ false) × (count_op op n ≡ some n)
unfolding value is_disabled count_op
push_facts op n k (inl (h, e)) = rw e (omega arith, refl, ground arith)
push_facts op n k (inr (inl e)) = rw e (omega arith, refl, ground arith)
push_facts op n k (inr (inr e)) = rw e (omega arith, refl, ground arith)

run_op-push :
    (c : Context) (op : Opcode) (v rest : Bytes) (m : Machine)
    → value op ≤ 78
    → all_true m.exec ≡ true
    → run_op c op v rest m ≡ some (record m { stack = v ∷ m.stack })
unfolding run_op
run_op-push c op v rest m h x = rw (x, le→leb (value op) 78 h)

-- Data of at most 520 bytes that is put on a script is put on the stack, outside of a branch that is
-- not taken and below the limit on the stacks.
pub runs-push_data :
    (c : Context) (v rest : Bytes) (m : Machine)
    → length v ≤ 520
    → all_true m.exec ≡ true
    → length m.stack + length m.altstack < 1000
    → runs c (push_data v ++ rest) m ≡ runs c rest (record m { stack = v ∷ m.stack })
runs-push_data c v rest m h x f = runs-step c (push_data v ++ rest) rest m _ (
    Round-step c (push_data v ++ rest) m (record m { stack = v ∷ m.stack }, rest)
      (record {
        op = of_byte (push_opcode (length v));
        v = v;
        ops = m.op_count;
        read = get_op-push_data v rest (omega arith);
        small = h;
        counted = facts.2;
        enabled = facts.1;
        ran = run_op-push c (of_byte (push_opcode (length v))) v rest m facts.0 x;
        fits = omega arith;
      }))
  where
    facts :
        (value (of_byte (push_opcode (length v))) ≤ 78)
        × (is_disabled (of_byte (push_opcode (length v))) ≡ false)
        × (count_op (of_byte (push_opcode (length v))) m.op_count ≡ some m.op_count)
    facts = push_facts _ m.op_count (length v) (push_opcode-cases (length v) h)
