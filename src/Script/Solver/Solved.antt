-- ===== src/Script/Solver/Solved.antt =====
-- src/script.cpp: `Solver` finds the two forms, and nothing else.
use ixcoin.Common.{
  ℕ, suc, ◌≤◌, ◌≡◌, ◌↔◌, refl, sym, ap, ◌∙◌, List, [], ◌∷◌, true, false, ◌||◌, not, ltb, ◌==◌,
  if◌then◌else◌, length, none, some, arith, Bool-cases, Option-cases, inl, inr,
}
use mathlib.Core.Path.{subst}
use mathlib.Core.Option.{some-injective}
use ixcoin.Serialize.{Bytes}
use ixcoin.Script.Opcode.{Opcode, value, of_byte}
use ixcoin.Script.Parse.{get_op, push_op}
use ixcoin.Script.Solver.{
  Solution, key_template, key_hash_template, match_op, match_loop, match_template, solver,
}
use ixcoin.Script.Solver.Forms.{
  Starts, end, next, IsForm, pays_key, pays_key_hash, match_loop-Stepped, Stepped-match_loop,
  plain_sound, plain_complete, check_sig_sound,
}

Starts-first :
    (n : ℕ) (ns l : List ℕ) (s t : Bytes)
    → Starts l s t
    → l ≡ n ∷ ns
    → (op : Opcode) × (r : Bytes) × (get_op s ≡ some ((op, []), r)) × (value op ≡ n) × Starts ns r t
Starts-first n ns l s t (end _) e = cc
Starts-first n ns l s t (next {ns = ms} {r = r} _ op g k) e = (
  op,
  r,
  g,
  let q : value op ≡ n = cc in q,
  subst (λ x. Starts x r t) (let q : ms ≡ ns = cc in q) k,
)

Starts-end : (l : List ℕ) (s t : Bytes) → Starts l s t → l ≡ [] → s ≡ t
Starts-end l s t (end _) e = refl
Starts-end l s t (next _ op g k) e = cc

match_loop_done : (f : ℕ) (found : Solution) → match_loop (suc f) [] [] found ≡ some found
unfolding match_loop
match_loop_done f found = refl

check_sig_complete :
    (s : Bytes) (found : Solution)
    → Starts (172 ∷ []) s []
    → match_loop 2 s (172 ∷ []) found ≡ some found
unfolding get_op of_byte match_op value
check_sig_complete s found k =
    let (op, r, g, n, l) = Starts-first 172 [] (172 ∷ []) s [] k refl in
    plain_complete 1 172 s [] [] r op Opcode.op_checksig found found refl refl g n
      (rw (Starts-end [] r [] l refl) (match_loop_done 0 found))

key_size :
    (v : Bytes) (a b : Solution)
    → (if ltb (length v) 33 || ltb 120 (length v) then none else some a) ≡ some b
    → (33 ≤ length v) × (length v ≤ 120) × (a ≡ b)
key_size v a b e = elim (Bool-cases (ltb (length v) 33 || ltb 120 (length v))) [
  | inl f ↦ cc (rw f at e)
  | inr f ↦ (ground (arith, f), ground (arith, f), some-injective _ _ (rw f at e))
]

hash_size :
    (v : Bytes) (a b : Solution)
    → (if not (length v == 20) then none else some a) ≡ some b
    → (length v ≡ 20) × (a ≡ b)
hash_size v a b e = elim (Bool-cases (length v == 20)) [
  | inr f ↦ cc (rw f at e)
  | inl f ↦ (ground (arith, f), some-injective _ _ (rw f at e))
]

key_sound : (s : Bytes) (sol : Solution) → match_template key_template s ≡ some sol → IsForm s sol
unfolding match_template key_template push_op value get_op of_byte match_op
key_sound s sol e =
    let q = match_loop-Stepped 2 254 s (172 ∷ []) (172 ∷ []) Opcode.op_pubkey [] sol refl e in
    let (a, b, f) = key_size q.v ((Opcode.op_pubkey, q.v) ∷ []) q.found' q.matched in
    let (k, g) = check_sig_sound q.rest q.found' sol q.left in
    subst (IsForm s) (f ∙ g) (pays_key q.op q.v q.read a b k)

key_hash_sound :
    (s : Bytes) (sol : Solution) → match_template key_hash_template s ≡ some sol → IsForm s sol
unfolding match_template key_hash_template push_op value get_op of_byte match_op
key_hash_sound s sol e =
    let (o₁, r₁, g₁, n₁, l₁) =
      plain_sound 5 118 s (169 ∷ 253 ∷ 136 ∷ 172 ∷ []) (169 ∷ 253 ∷ 136 ∷ 172 ∷ []) Opcode.op_dup []
        sol refl (λ o v. refl) e in
    let (o₂, r₂, g₂, n₂, l₂) =
      plain_sound 4 169 r₁ (253 ∷ 136 ∷ 172 ∷ []) (253 ∷ 136 ∷ 172 ∷ []) Opcode.op_hash160 [] sol
        refl (λ o v. refl) l₁ in
    let q =
      match_loop-Stepped 3 253 r₂ (136 ∷ 172 ∷ []) (136 ∷ 172 ∷ []) Opcode.op_pubkeyhash [] sol refl
        l₂ in
    let (a, f) = hash_size q.v ((Opcode.op_pubkeyhash, q.v) ∷ []) q.found' q.matched in
    let (o₄, r₄, g₄, n₄, l₄) =
      plain_sound 2 136 q.rest (172 ∷ []) (172 ∷ []) Opcode.op_equalverify q.found' sol refl
        (λ o v. refl) q.left in
    let (k, g) = check_sig_sound r₄ q.found' sol l₄ in
    let before =
      subst (λ x. Starts (x ∷ 169 ∷ []) s r₂) n₁
        (next s o₁ g₁ (subst (λ x. Starts (x ∷ []) r₁ r₂) n₂ (next r₁ o₂ g₂ (end r₂)))) in
    let behind = subst (λ x. Starts (x ∷ 172 ∷ []) q.rest []) n₄ (next q.rest o₄ g₄ k) in
    subst (IsForm s) (f ∙ g) (pays_key_hash q.op q.v before q.read a behind)

key_complete :
    (s r key : Bytes) (op : Opcode)
    → get_op s ≡ some ((op, key), r)
    → 33 ≤ length key
    → length key ≤ 120
    → Starts (172 ∷ []) r []
    → match_template key_template s ≡ some ((Opcode.op_pubkey, key) ∷ [])
unfolding match_template key_template push_op value get_op of_byte match_op
key_complete s r key op e a b k =
    Stepped-match_loop 2 254 s (172 ∷ []) (172 ∷ []) Opcode.op_pubkey [] _ refl (record {
      op = op;
      v = key;
      rest = r;
      found' = (Opcode.op_pubkey, key) ∷ [];
      read = e;
      matched = let f : ltb (length key) 33 || ltb 120 (length key) ≡ false = ground arith in rw f;
      left = check_sig_complete r ((Opcode.op_pubkey, key) ∷ []) k;
    })

-- A script that starts with an operation without data is not of the first form.
key_none :
    (s r : Bytes) (op : Opcode)
    → get_op s ≡ some ((op, []), r)
    → match_template key_template s ≡ none
unfolding match_template key_template push_op value get_op of_byte match_op
key_none s r op e = elim (Option-cases (match_loop 3 s (254 ∷ 172 ∷ []) [])) [
  | inl f ↦ f
  | inr (sol, f) ↦
      let q = match_loop-Stepped 2 254 s (172 ∷ []) (172 ∷ []) Opcode.op_pubkey [] sol refl f in
      let p : ◌≡◌ {A = (Opcode × Bytes) × Bytes} ((op, []), r) ((q.op, q.v), q.rest) =
        some-injective _ _ (sym e ∙ q.read) in
      let (a, _, _) = key_size q.v ((Opcode.op_pubkey, q.v) ∷ []) q.found' q.matched in
      let n : length q.v ≡ 0 = ap (λ (x : (Opcode × Bytes) × Bytes). length x.0.1) (sym p) in
      absurd (omega (arith, a, n))
]

key_hash_complete :
    (s m r h : Bytes) (op : Opcode)
    → Starts (118 ∷ 169 ∷ []) s m
    → get_op m ≡ some ((op, h), r)
    → length h ≡ 20
    → Starts (136 ∷ 172 ∷ []) r []
    → match_template key_hash_template s ≡ some ((Opcode.op_pubkeyhash, h) ∷ [])
unfolding match_template key_hash_template push_op value get_op of_byte match_op
key_hash_complete s m r h op before e l behind =
    let (o₁, r₁, g₁, n₁, l₁) = Starts-first 118 (169 ∷ []) (118 ∷ 169 ∷ []) s m before refl in
    let (o₂, r₂, g₂, n₂, l₂) = Starts-first 169 [] (169 ∷ []) r₁ m l₁ refl in
    let (o₄, r₄, g₄, n₄, l₄) = Starts-first 136 (172 ∷ []) (136 ∷ 172 ∷ []) r [] behind refl in
    let sol : Solution = (Opcode.op_pubkeyhash, h) ∷ [] in
    plain_complete 5 118 s (169 ∷ 253 ∷ 136 ∷ 172 ∷ []) (169 ∷ 253 ∷ 136 ∷ 172 ∷ []) r₁ o₁
      Opcode.op_dup [] sol refl refl g₁ n₁
      (plain_complete 4 169 r₁ (253 ∷ 136 ∷ 172 ∷ []) (253 ∷ 136 ∷ 172 ∷ []) r₂ o₂ Opcode.op_hash160
        [] sol refl refl g₂ n₂
        (Stepped-match_loop 3 253 r₂ (136 ∷ 172 ∷ []) (136 ∷ 172 ∷ []) Opcode.op_pubkeyhash [] sol
          refl
          (record {
            op = op;
            v = h;
            rest = r;
            found' = sol;
            read = ap get_op (Starts-end [] r₂ m l₂ refl) ∙ e;
            matched = let f : length h == 20 ≡ true = ground arith in rw f;
            left =
                plain_complete 2 136 r (172 ∷ []) (172 ∷ []) r₄ o₄ Opcode.op_equalverify sol sol
                  refl refl g₄ n₄ (check_sig_complete r₄ sol l₄);
          })))

solver_sound : (s : Bytes) (sol : Solution) → solver s ≡ some sol → IsForm s sol
unfolding solver
solver_sound s sol e = elim (Option-cases (match_template key_template s)) [
  | inl f ↦ key_hash_sound s sol (rw (f, solver) at e)
  | inr (x, f) ↦ key_sound s sol (f ∙ (rw (f, solver) at e))
]

solver_complete : (s : Bytes) (sol : Solution) → IsForm s sol → solver s ≡ some sol
unfolding solver
solver_complete s sol (pays_key {r = r} op key e a b k) =
    rw (key_complete s r key op e a b k, solver)
solver_complete s sol (pays_key_hash {m = m} {r = r} op h before e l behind) =
    let (o, t, g, _, _) = Starts-first 118 (169 ∷ []) (118 ∷ 169 ∷ []) s m before refl in
    rw (key_none s t o g, solver) (key_hash_complete s m r h op before e l behind)

-- `Solver` takes a script apart exactly where it is of one of the two forms of `IsForm`, and returns the
-- data of that form with its kind.
pub solver_iff : (s : Bytes) (sol : Solution) → (solver s ≡ some sol) ↔ IsForm s sol
solver_iff s sol = (solver_sound s sol, solver_complete s sol)
