-- ===== src/Script/Standard/PayToPubKeyHash.antt =====
-- What `VerifyScript` decides of a payment to the hash of a public key.
use ixcoin.Common.{
  ℕ, ◌+◌, ◌≤◌, ◌≡◌, refl, ap, ◌∙◌, [], ◌∷◌, ◌++◌, Bool, true, false, ◌&&◌, ltb, leb, length,
  length-append, none, some, arith, if◌then◌else◌, Bool-cases, inl, inr, not-ltb_of_le,
}
use mathlib.Core.List.{append-nil}
use ixcoin.Serialize.{Bytes, le_bytes}
use ixcoin.Hash.{hash160}
use ixcoin.Script.Opcode.{Opcode, value, of_byte}
use ixcoin.Script.Parse.{get_op, push_op, push_data, find_and_delete}
use ixcoin.Script.Machine.{Context, Machine, cast_to_bool, of_bool}
use ixcoin.Script.Sighash.{check_sig}
use ixcoin.Common.{◌>>=◌}
use ixcoin.Script.Ops.Stack.{Stack, dup}
use ixcoin.Script.Ops.Splice.{bytes_eq, equal, verified}
use ixcoin.Script.Ops.Crypto.{digest, hash_top, check_sig_op}
use ixcoin.Script.Switch.{switch, on_stack}
use ixcoin.Script.Eval.{
  all_true, run_op, is_branching, is_disabled, count_op, admit_op, guard, step, stacks_fit, returns,
  fails, loop, start, finished, eval_script, verify_script, second_script, top_is_true,
}
use ixcoin.Script.Eval.Runs.{runs, runs-nil, runs-step, runs-fail, runs-push_data}
use ixcoin.Script.Standard.{set_bitcoin_address}

-- The machine in the middle of the second script: no conditional is open.
abbrev at : Stack → ℕ → Bytes → Machine
at st n code = record { stack = st; altstack = []; exec = []; op_count = n; code_hash = code }

module _ (c : Context) (code : Bytes) where
  dup_step :
      (rest key sig : Bytes)
      → runs c (118 ∷ rest) (at (key ∷ sig ∷ []) 0 code)
        ≡ runs c rest (at (key ∷ key ∷ sig ∷ []) 1 code)
  dup_step rest key sig = runs-step c _ rest _ _ (
      unfold step get_op of_byte admit_op count_op guard is_disabled run_op all_true is_branching
        switch on_stack dup stacks_fit value in
      refl)

  hash160_step :
      (rest top key sig : Bytes)
      → runs c (169 ∷ rest) (at (top ∷ key ∷ sig ∷ []) 1 code)
        ≡ runs c rest (at (hash160 c.hashes top ∷ key ∷ sig ∷ []) 2 code)
  hash160_step rest top key sig = runs-step c _ rest _ _ (
      unfold step get_op of_byte admit_op count_op guard is_disabled run_op all_true is_branching
        switch on_stack hash_top digest stacks_fit value in
      refl)

  check_sig_step :
      (key sig : Bytes)
      → runs c (172 ∷ []) (at (key ∷ sig ∷ []) 3 code)
        ≡ returns
            (at (of_bool (check_sig c sig key (find_and_delete (push_data sig) code)) ∷ []) 4 code)
  check_sig_step key sig =
      runs-step c (172 ∷ []) [] (at (key ∷ sig ∷ []) 3 code)
        (at (of_bool (check_sig c sig key (find_and_delete (push_data sig) code)) ∷ []) 4 code)
        (unfold step get_op of_byte admit_op count_op guard is_disabled run_op all_true is_branching
            switch on_stack check_sig_op verified stacks_fit value in
          refl)
      ∙ (unfold loop in refl)

  equal_run :
      (x y key sig rest : Bytes)
      → run_op c Opcode.op_equalverify [] rest (at (y ∷ x ∷ key ∷ sig ∷ []) 3 code)
        ≡ on_stack
            (at (y ∷ x ∷ key ∷ sig ∷ []) 3 code)
            (if bytes_eq x y then some (key ∷ sig ∷ []) else none)
  unfolding run_op all_true is_branching switch equal verified value
  equal_run x y key sig rest = refl

  equal_step :
      (x y key sig rest : Bytes)
      → step c (136 ∷ rest) (at (y ∷ x ∷ key ∷ sig ∷ []) 2 code) ≡ (
          run_op c Opcode.op_equalverify [] rest (at (y ∷ x ∷ key ∷ sig ∷ []) 3 code) >>= λ m.
          guard (stacks_fit m) >>= λ _. some (m, rest))
  unfolding step get_op of_byte admit_op count_op guard is_disabled value
  equal_step x y key sig rest = refl

  equal_true :
      (x y key sig rest : Bytes)
      → bytes_eq x y ≡ true
      → runs c (136 ∷ rest) (at (y ∷ x ∷ key ∷ sig ∷ []) 2 code)
        ≡ runs c rest (at (key ∷ sig ∷ []) 3 code)
  equal_true x y key sig rest e = runs-step c (136 ∷ rest) rest _ (at (key ∷ sig ∷ []) 3 code) (
      equal_step x y key sig rest
      ∙ rw (equal_run x y key sig rest, e) (unfold on_stack guard stacks_fit in refl))

  equal_false :
      (x y key sig rest : Bytes)
      → bytes_eq x y ≡ false
      → runs c (136 ∷ rest) (at (y ∷ x ∷ key ∷ sig ∷ []) 2 code) ≡ fails
  equal_false x y key sig rest e =
      runs-fail c 136 rest _
        (equal_step x y key sig rest ∙ rw (equal_run x y key sig rest, e) (unfold on_stack in refl))

-- The script on a stack with a signature and, above it, a key.
second_runs :
    (c : Context) (code h key sig : Bytes)
    → length h ≡ 20
    → runs c (set_bitcoin_address h) (at (key ∷ sig ∷ []) 0 code) ≡ (
        if bytes_eq (hash160 c.hashes key) h
        then returns
            (at (of_bool (check_sig c sig key (find_and_delete (push_data sig) code)) ∷ []) 4 code)
        else fails)
unfolding set_bitcoin_address push_op value
second_runs c code h key sig l =
    dup_step c code _ key sig
    ∙ hash160_step c code _ key key sig
    ∙ pushed
    ∙ elim (Bool-cases (bytes_eq (hash160 c.hashes key) h)) [
      | inl e ↦ rw e (equal_true c code _ h key sig _ e ∙ check_sig_step c code key sig)
      | inr e ↦ rw e (equal_false c code _ h key sig _ e)
    ]
  where
    data_20 : push_data h ≡ 20 ∷ h
    data_20 = unfold push_data in rw l

    pushed :
        runs c (20 ∷ h ++ (136 ∷ 172 ∷ [])) (at (hash160 c.hashes key ∷ key ∷ sig ∷ []) 2 code)
        ≡ runs c (136 ∷ 172 ∷ []) (at (h ∷ hash160 c.hashes key ∷ key ∷ sig ∷ []) 2 code)
    pushed = rw data_20 at (
        runs-push_data c h (136 ∷ 172 ∷ []) (at (hash160 c.hashes key ∷ key ∷ sig ∷ []) 2 code)
          (omega arith) (unfold all_true in refl) (omega arith))

length-push_data : (v : Bytes) → length v ≤ 520 → length (push_data v) ≤ length v + 3
unfolding push_data le_bytes
length-push_data v h = elim (Bool-cases (ltb (length v) 76)) [
  | inl e ↦ rw e (omega arith)
  | inr e ↦ elim (Bool-cases (leb (length v) 0xff)) [
    | inl f ↦ rw (e, f) (omega arith)
    | inr f ↦ let g : leb (length v) 0xffff ≡ true = ground arith in rw (e, f, g) (omega arith)
  ]
]

finished_fails : finished fails ≡ fails
unfolding finished
finished_fails = refl

finished-at : (st : Stack) (n : ℕ) (code : Bytes) → finished (returns (at st n code)) ≡ returns st
unfolding finished
finished-at st n code = refl

-- A signature and a key, put on a script, are what is left on the stack.
first_script :
    (c : Context) (sig key : Bytes)
    → length sig ≤ 520
    → length key ≤ 520
    → eval_script c [] (push_data sig ++ push_data key) ≡ returns (key ∷ sig ∷ [])
unfolding eval_script
first_script c sig key hs hk =
    rw (not-ltb_of_le 10000 (length (push_data sig ++ push_data key)) short)
      (ap finished (sigs ∙ keys ∙ runs-nil c _) ∙ finished-at (key ∷ sig ∷ []) 0 script)
  where
    script : Bytes
    script = push_data sig ++ push_data key

    short : length (push_data sig ++ push_data key) ≤ 10000
    short = omega (
      arith,
      length-append (push_data sig) (push_data key),
      length-push_data sig hs,
      length-push_data key hk,
    )

    sigs : runs c script (start [] script) ≡ runs c (push_data key) (at (sig ∷ []) 0 script)
    sigs =
        runs-push_data c sig (push_data key) (start [] script) hs (unfold all_true in refl)
          (omega arith)

    keys :
        runs c (push_data key) (at (sig ∷ []) 0 script) ≡ runs c [] (at (key ∷ sig ∷ []) 0 script)
    keys = rw append-nil at (
        runs-push_data c key [] (at (sig ∷ []) 0 script) hk (unfold all_true in refl) (omega arith))

length-set_bitcoin_address : (h : Bytes) → length (set_bitcoin_address h) ≡ length h + 5
unfolding set_bitcoin_address push_op value
length-set_bitcoin_address h = omega (arith, length-append h (136 ∷ 172 ∷ []))

-- What the second script leaves on the stack.
second_script_lem :
    (c : Context) (sig key h : Bytes) (ok : Bool)
    → length h ≡ 20
    → check_sig c sig key (find_and_delete (push_data sig) (set_bitcoin_address h)) ≡ ok
    → eval_script c (key ∷ sig ∷ []) (set_bitcoin_address h)
      ≡ (if bytes_eq (hash160 c.hashes key) h then returns (of_bool ok ∷ []) else fails)
unfolding eval_script
second_script_lem c sig key h ok l e =
    let script = set_bitcoin_address h in
    rw (not-ltb_of_le 10000 (length script) (omega (arith, length-set_bitcoin_address h))) (
      ap finished (second_runs c script h key sig l)
      ∙ elim (Bool-cases (bytes_eq (hash160 c.hashes key) h)) [
        | inl f ↦ rw (f, e) (finished-at (of_bool ok ∷ []) 4 script)
        | inr f ↦ rw f finished_fails
      ])

verdict :
    (c : Context) (st : Stack) (script : Bytes) (b ok : Bool)
    → eval_script c st script ≡ (if b then returns (of_bool ok ∷ []) else fails)
    → second_script c script (returns st) ≡ returns (b && ok)
unfolding second_script top_is_true cast_to_bool
verdict c st script true true e = rw (e, second_script)
verdict c st script true false e = rw (e, second_script)
verdict c st script false ok e = rw (e, second_script)

-- A payment to a hash is spent exactly by a key with that hash and a signature that is good under it:
-- `VerifyScript` on a signature and a key of at most 520 bytes and the script of the 20 bytes `h`
-- returns whether the key hashes to `h` and `CheckSig` accepts.
pub verify_script-set_bitcoin_address :
    (c : Context) (sig key h : Bytes)
    → length sig ≤ 520
    → length key ≤ 520
    → length h ≡ 20
    → verify_script c (push_data sig ++ push_data key) (set_bitcoin_address h)
      ≡ returns (
          bytes_eq (hash160 c.hashes key) h
          && check_sig c sig key (find_and_delete (push_data sig) (set_bitcoin_address h)))
unfolding verify_script
verify_script-set_bitcoin_address c sig key h hs hk hl = rw (first_script c sig key hs hk) (
    verdict c (key ∷ sig ∷ []) (set_bitcoin_address h) _ _
      (second_script_lem c sig key h _ hl refl))
