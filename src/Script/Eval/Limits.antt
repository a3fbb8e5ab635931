-- ===== src/Script/Eval/Limits.antt =====
-- The limits that hold at every point of a run of a script.
use ixcoin.Common.{
  ℕ, ◌+◌, ◌^◌, ◌≤◌, ◌<◌, ◌≡◌, sym, false, ◌&&◌, ◌||◌, leb, length, some, All, arith,
}
use ixcoin.Serialize.{Bytes, IsByte}
use ixcoin.Script.Opcode.{Opcode, value}
use ixcoin.Script.Machine.{Context, Machine, IsItem}
use ixcoin.Script.Ops.Stack.{Stack}
use ixcoin.Script.Ops.Keep.{Every, Every-if, Every-at}
use ixcoin.Script.Eval.{
  all_true, is_disabled, is_branching, count_op, run_op, start, eval_script, returns,
}
use ixcoin.Script.Eval.Steps.{Round, loop-invariant, eval_script-returns}
use ixcoin.Script.Parse.RoundTrip.{get_op-All}
use mathlib.Core.Path.{subst}
use ixcoin.Script.Eval.Bounded.{ContextLaws, IsBounded}
use ixcoin.Script.Eval.Kept.{switch-keeps}

module _ (c : Context) (laws : ContextLaws c) where
  count_op_le : (op : Opcode) (n k : ℕ) → n ≤ 201 → count_op op n ≡ some k → k ≤ 201
  unfolding count_op
  count_op_le op n k h e = ground arith

  run_op-keeps :
      (op : Opcode) (v rest : Bytes) (m : Machine)
      → is_disabled op ≡ false
      → IsItem v
      → length m.stack < 2 ^ 32
      → IsBounded m
      → Every IsBounded (run_op c op v rest m)
  unfolding run_op
  run_op-keeps op v rest m d hv hl b =
      Every-if IsBounded (all_true m.exec && leb (value op) 78) _ _
        (record { stack_items = (hv, b.stack_items); alt_items = b.alt_items; counted = b.counted })
        (Every-if IsBounded (all_true m.exec || is_branching op) _ _
          (switch-keeps c laws op (all_true m.exec) rest m d hl b) b)

  -- What holds between two rounds.
  Between : Bytes → Machine → Type 0
  Between s m = IsBounded m × (length m.stack + length m.altstack ≤ 1000) × All IsByte s

  Round-keeps :
      (s : Bytes) (m : Machine) (p : Machine × Bytes)
      → Round c s m p
      → Between s m
      → Between p.1 p.0
  unfolding Between
  Round-keeps s m p r (b, f, hs) =
      let (hv, hr) = get_op-All IsByte s r.op r.v p.1 r.read hs in
      let b' : IsBounded (record m { op_count = r.ops }) = record {
        stack_items = b.stack_items;
        alt_items = b.alt_items;
        counted = count_op_le r.op m.op_count r.ops b.counted r.counted;
      } in
      (
        Every-at IsBounded _ p.0
            (run_op-keeps r.op r.v p.1 (record m { op_count = r.ops }) r.enabled
              (record { size_fits = r.small; bytes = hv }) (omega arith) b')
            r.ran,
        r.fits,
        hr,
      )

  -- A script of bytes that starts on a stack of at most 1000 items and succeeds leaves such a stack:
  -- no value on it is longer than 520 bytes.
  pub eval_script-items :
      (st st' : Stack) (s : Bytes)
      → All IsByte s
      → All IsItem st
      → length st ≤ 1000
      → eval_script c st s ≡ returns st'
      → All IsItem st' × (length st' ≤ 1000)
  unfolding Between
  eval_script-items st st' s hs hst hl e =
      let (m, q, _, g, _) = eval_script-returns c st s st' e in
      let b : IsBounded (start st s) = record {
        stack_items = hst;
        alt_items = tt;
        counted = omega arith;
      } in
      let (k, f, _) =
        loop-invariant Between c Round-keeps (length s) s (start st s) m q (b, omega arith, hs) in
      (subst (All IsItem) g k.stack_items, rw (sym g) (omega arith))
