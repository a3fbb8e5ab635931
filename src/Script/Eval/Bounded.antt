-- ===== src/Script/Eval/Bounded.antt =====
-- The limits on a machine, and the parts of the switch that keep them.
use ixcoin.Common.{ℕ, ◌≤◌, List, [], ◌∷◌, Bool, true, false, Option, none, some, All}
use ixcoin.Serialize.{Bytes}
use ixcoin.Bignum.OpenSsl.{BnLaws}
use ixcoin.Hash.{HashLaws}
use ixcoin.Script.Machine.{Context, Machine, IsItem, cast_to_bool}
use ixcoin.Script.Ops.Stack.{Stack}
use ixcoin.Script.Ops.Keep.{Every, Every-bind, Every-if, Every-at}
use ixcoin.Script.Switch.{branch, pop, verify, on_stack, on_both, on_exec, on_count}

-- What the laws of the libraries say of those that a script is run with.
pub record ContextLaws (c : Context) : Type 0 where
  pub bn_laws : BnLaws c.bn
  pub hash_laws : HashLaws c.hashes

-- Both stacks hold items, and no more than 201 operations have been counted.
pub record IsBounded (m : Machine) : Type 0 where
  pub stack_items : All IsItem m.stack
  pub alt_items : All IsItem m.altstack
  pub counted : m.op_count ≤ 201

pop-keeps : (s : Stack) → All IsItem s → Every (λ (q : Bytes × Stack). All IsItem q.1) (pop s)
unfolding pop
pop-keeps [] h = tt
pop-keeps (v ∷ s) (_, hs) = hs

module _ (m : Machine) (b : IsBounded m) where
  pub on_stack-keeps : (r : Option Stack) → Every (All IsItem) r → Every IsBounded (on_stack m r)
  unfolding on_stack
  on_stack-keeps none h = tt
  on_stack-keeps (some s) h = record {
    stack_items = h;
    alt_items = b.alt_items;
    counted = b.counted;
  }

  pub on_both-keeps :
      (r : Option (Stack × Stack))
      → Every (λ (p : Stack × Stack). All IsItem p.0 × All IsItem p.1) r
      → Every IsBounded (on_both m r)
  unfolding on_both
  on_both-keeps none h = tt
  on_both-keeps (some (s, a)) (h, k) = record {
    stack_items = h;
    alt_items = k;
    counted = b.counted;
  }

  pub on_exec-keeps : (r : Option (List Bool)) → Every IsBounded (on_exec m r)
  unfolding on_exec
  on_exec-keeps none = tt
  on_exec-keeps (some e) = record {
    stack_items = b.stack_items;
    alt_items = b.alt_items;
    counted = b.counted;
  }

  pub on_count-keeps :
      (r : Option (Stack × ℕ))
      → Every (λ (p : Stack × ℕ). All IsItem p.0 × (p.1 ≤ 201)) r
      → Every IsBounded (on_count m r)
  unfolding on_count
  on_count-keeps none h = tt
  on_count-keeps (some (s, n)) (h, k) = record {
    stack_items = h;
    alt_items = b.alt_items;
    counted = k;
  }

  pub branch-keeps : (negated executing : Bool) → Every IsBounded (branch negated executing m)
  unfolding branch
  branch-keeps negated false = record {
    stack_items = b.stack_items;
    alt_items = b.alt_items;
    counted = b.counted;
  }
  branch-keeps negated true = Every-bind IsBounded (pop m.stack) _ λ p e. record {
    stack_items =
        Every-at (λ (q : Bytes × Stack). All IsItem q.1) (pop m.stack) p
          (pop-keeps m.stack b.stack_items) e;
    alt_items = b.alt_items;
    counted = b.counted;
  }

pub verify-keeps : (s : Stack) → All IsItem s → Every (All IsItem) (verify s)
unfolding verify
verify-keeps [] h = tt
verify-keeps (v ∷ s) (_, hs) = Every-if (All IsItem) (cast_to_bool v) _ _ hs tt
