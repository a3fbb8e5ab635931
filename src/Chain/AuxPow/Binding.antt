-- ===== src/Chain/AuxPow/Binding.antt =====
-- src/auxpow.cpp: work that was done once is not taken for two blocks.
use ixcoin.Common.{
  ℕ, zero, suc, ◌+◌, ◌^◌, ◌≤◌, ◌<◌, ◌≡◌, ◌⊎◌, sym, ap, ◌∙◌, Bool, true, false, not, ◌&&◌, ltb, ◌==◌,
  length, length-reverse, take, drop, some, arith, Bool-cases, Option-cases, inl, inr,
}
use mathlib.Core.Path.{subst}
use mathlib.Core.Option.{some-injective}
use mathlib.Core.List.{reverse, reverse-reverse}
use ixcoin.Common.Int.{ℤ, pos, negsuc, eqb_ℤ, eqb_ℤ→eq}
use ixcoin.Common.Words.{to_word, of_word, IsInt}
use ixcoin.Serialize.{Bytes, le_bytes, of_le_bytes}
use ixcoin.Serialize.RoundTrip.{of_le_bytes-le_bytes, length-le_bytes}
use ixcoin.Hash.{HashLib, HashLaws, hash}
use ixcoin.Tx.Serial.{write_tx}
use ixcoin.Chain.Header.{get_chain_id}
use ixcoin.Chain.Merkle.{check_merkle_branch}
use ixcoin.Chain.Merkle.Binding.{PathCollision, check_loop_lt, check_merkle_branch_binds}
use ixcoin.Chain.AuxPow.{
  AuxPow, merged_mining_header, search, is_placed, slot, check_slot, check_script, first_script,
  chain_root, check_aux_pow,
}
use ixcoin.Chain.AuxPow.Search.{search-IsFound, take-starts_with}
use native.Mathlib.Nat.{pow-suc, pow-le-pow_right, one-le-pow}

-- The root stands behind the one header, and the slot fits what is behind the root.
record IsSlotted (t root : Bytes) (height : ℕ) (index chain : ℤ) : Type 0 where
  root_first : take (length root) t ≡ root
  slot_fits : check_slot (drop (length root) t) height index chain ≡ true

is_placed_lem :
    (script : Bytes) (k pc : ℕ) (t : Bytes)
    → search merged_mining_header script ≡ some (k, t)
    → is_placed script pc ≡ true
    → k + 4 ≡ pc
unfolding is_placed
is_placed_lem script k pc t e p = elim (Option-cases (search merged_mining_header (drop 1 t))) [
  | inl f ↦ ground (arith, (rw (e, f, is_placed) at p))
  | inr (x, f) ↦ cc (rw (e, f, is_placed) at p)
]

-- A script with a header fixes the place of the root.
check_script-IsSlotted :
    (script root : Bytes) (k : ℕ) (u : Bytes) (height : ℕ) (index chain : ℤ)
    → search merged_mining_header script ≡ some (k, u)
    → check_script script root height index chain ≡ true
    → IsSlotted (drop (k + 4) script) root height index chain
unfolding check_script
check_script-IsSlotted script root k u height index chain e c =
    elim (Option-cases (search root script)) [
      | inl f ↦ cc (rw (f, check_script) at c)
      | inr ((pc, t), f) ↦ elim (Bool-cases (is_placed script pc)) [
        | inl g ↦
            let i = search-IsFound root script pc t f in
            let p = is_placed_lem script k pc u e g in
            let q : t ≡ drop (k + 4) script = i.found_at ∙ ap (λ (n : ℕ). drop n script) (sym p) in
            subst (λ x. IsSlotted x root height index chain) q
              (record {
                root_first = take-starts_with root t i.starts;
                slot_fits = rw (f, g, check_script) at c;
              })
        | inr g ↦ cc (rw (f, g, check_script) at c)
      ]
    ]

slot_lt : (nonce : ℕ) (chain : ℤ) (size : ℕ) → 0 < size → slot nonce chain size < size
unfolding slot
slot_lt nonce chain zero h = absurd (omega (arith, h))
slot_lt nonce chain (suc n) h = omega arith

-- The size that a tail names, and the slot.
abbrev size_of : Bytes → ℕ
size_of tail = of_le_bytes (take 4 tail)

abbrev nonce_of : Bytes → ℕ
nonce_of tail = of_le_bytes (take 4 (drop 4 tail))

check_slot_lem :
    (tail : Bytes) (height : ℕ) (index chain : ℤ)
    → check_slot tail height index chain ≡ true
    → (size_of tail ≡ 2 ^ height)
      × (to_word (2 ^ 32) index ≡ slot (nonce_of tail) chain (size_of tail))
unfolding check_slot
check_slot_lem tail height index chain e = elim (Bool-cases (ltb (length tail) 8)) [
  | inl f ↦ cc (rw f at e)
  | inr f ↦ elim (Bool-cases (eqb_ℤ (of_word (2 ^ 32) (size_of tail)) (pos (2 ^ height)))) [
    | inl g ↦
        let q = eqb_ℤ→eq (of_word (2 ^ 32) (size_of tail)) (pos (2 ^ height)) g in
        (word_pos (size_of tail) (2 ^ height) q, ground (arith, (rw (f, g) at e)))
    | inr g ↦ cc (rw (f, g) at e)
  ]
]
  where
    word_pos : (w n : ℕ) → of_word (2 ^ 32) w ≡ pos n → w ≡ n
    word_pos w n q = ground arith

index_lem : (i : ℤ) (s : ℕ) → IsInt i → to_word (2 ^ 32) i ≡ s → s < 2 ^ 31 → i ≡ pos s
index_lem (pos n) s h e k = ap pos (omega arith)
index_lem (negsuc n) s h e k = absurd (omega (arith, h, e, k))

pow_injective : (m n : ℕ) → 2 ^ m ≡ 2 ^ n → m ≡ n
pow_injective m n e = elim (Bool-cases (ltb m n)) [
  | inl f ↦ absurd (strict m n (ground arith) e)
  | inr f ↦ elim (Bool-cases (ltb n m)) [
    | inl g ↦ absurd (strict n m (ground arith) (sym e))
    | inr g ↦ ground arith
  ]
]
  where
    strict : (a b : ℕ) → a < b → 2 ^ a ≡ 2 ^ b → ⊥
    strict a b l q =
        let p : 2 ^ suc a ≤ 2 ^ b = pow-le-pow_right (omega arith) l in
        let s = pow-suc 2 a in
        let o : 1 ≤ 2 ^ a = one-le-pow a 2 (omega arith) in omega (arith, p, s, o, q)

pow_le : (n : ℕ) → n ≤ 30 → 2 ^ n ≤ 2 ^ 30
pow_le n l = pow-le-pow_right (omega arith) l

-- Two slots that fit one tail are one slot of one tree.
slots_bind :
    (tail : Bytes) (m n : ℕ) (i j chain : ℤ)
    → m ≤ 30
    → n ≤ 30
    → IsInt i
    → IsInt j
    → check_slot tail m i chain ≡ true
    → check_slot tail n j chain ≡ true
    → (m ≡ n) × (i ≡ j) × (eqb_ℤ i (negsuc 0) ≡ false)
slots_bind tail m n i j chain hm hn hi hj c d =
    let (s, e) = check_slot_lem tail m i chain c in
    let (t, f) = check_slot_lem tail n j chain d in
    let at = slot (nonce_of tail) chain (size_of tail) in
    let o = one-le-pow m 2 (omega arith) in
    let l : at < size_of tail =
      slot_lt (nonce_of tail) chain (size_of tail) (omega (arith, o, s)) in
    let k : at < 2 ^ 31 = omega (arith, l, s, pow_le m hm) in
    let p = index_lem i at hi e k in
    let q = index_lem j at hj f k in (pow_injective m n (sym s ∙ t), p ∙ sym q, rw p)

module _ (h : HashLib) (laws : HashLaws h) where
  chain_root_lt : (a : AuxPow) (x : ℕ) → x < 2 ^ 256 → chain_root h a x < 2 ^ 256
  unfolding chain_root check_merkle_branch
  chain_root_lt a x k = elim (Bool-cases (eqb_ℤ a.chain_index (negsuc 0))) [
    | inl e ↦ rw e (omega arith)
    | inr e ↦ rw e (check_loop_lt h laws a.chain_merkle_branch x a.chain_index k)
  ]

  -- The bytes of the root of the tree of chains, as they stand in the parent's coinbase.
  abbrev root_bytes : AuxPow → ℕ → Bytes
  root_bytes a x = reverse (le_bytes 32 (chain_root h a x))

  length-root_bytes : (a : AuxPow) (x : ℕ) → length (root_bytes a x) ≡ 32
  length-root_bytes a x =
      length-reverse (le_bytes 32 (chain_root h a x)) ∙ length-le_bytes 32 (chain_root h a x)

  root_bytes_injective :
      (a b : AuxPow) (x y : ℕ)
      → x < 2 ^ 256
      → y < 2 ^ 256
      → root_bytes a x ≡ root_bytes b y
      → chain_root h a x ≡ chain_root h b y
  root_bytes_injective a b x y k l e =
      let r = chain_root h a x in
      let s = chain_root h b y in
      let p : le_bytes 32 r ≡ le_bytes 32 s =
        sym (reverse-reverse (le_bytes 32 r)) ∙ ap reverse e ∙ reverse-reverse (le_bytes 32 s) in
      sym (of_le_bytes-le_bytes 32 r (chain_root_lt a x k))
      ∙ ap of_le_bytes p
      ∙ of_le_bytes-le_bytes 32 s (chain_root_lt b y l)

  check_aux_pow_lem :
      (test_net : Bool) (a : AuxPow) (x : ℕ) (chain : ℤ) (script : Bytes)
      → first_script a.tx.vin ≡ some script
      → check_aux_pow h test_net a x chain ≡ some true
      → (length a.chain_merkle_branch ≤ 30)
        × (check_script script (root_bytes a x) (length a.chain_merkle_branch) a.chain_index chain
            ≡ true)
  unfolding check_aux_pow
  check_aux_pow_lem test_net a x chain script f e =
      elim (Bool-cases (not (eqb_ℤ a.index (pos 0)))) [
        | inl p ↦ cc (rw p at e)
        | inr p ↦ elim (Bool-cases (not test_net && eqb_ℤ (get_chain_id a.parent_block) chain)) [
          | inl q ↦ cc (rw (p, q) at e)
          | inr q ↦ elim (Bool-cases (ltb 30 (length a.chain_merkle_branch))) [
            | inl r ↦ cc (rw (p, q, r) at e)
            | inr r ↦
                elim (Bool-cases (
                  not (
                    check_merkle_branch h (hash h (write_tx a.tx)) a.merkle_branch a.index
                    == a.parent_block.hash_merkle_root))) [
                      | inl s ↦ cc (rw (p, q, r, s) at e)
                      | inr s ↦ (ground arith, some-injective _ _ (rw (p, q, r, s, f) at e))
                    ]
          ]
        ]
      ]

  -- Work that was done once is not taken for two blocks of a chain: where `Check` accepts two proofs for
  -- the same chain, whose parent coinbases have the same script with a merged mining header in it,
  -- both are for the same block, unless at one height of the tree of chains
  -- their branches have different bytes with the same hash.
  pub check_aux_pow_binds :
      (test_net : Bool) (a b : AuxPow) (x y : ℕ) (chain : ℤ) (script : Bytes) (k : ℕ) (u : Bytes)
      → first_script a.tx.vin ≡ some script
      → first_script b.tx.vin ≡ some script
      → search merged_mining_header script ≡ some (k, u)
      → IsInt a.chain_index
      → IsInt b.chain_index
      → x < 2 ^ 256
      → y < 2 ^ 256
      → check_aux_pow h test_net a x chain ≡ some true
      → check_aux_pow h test_net b y chain ≡ some true
      → (x ≡ y) ⊎ PathCollision h a.chain_index x a.chain_merkle_branch y b.chain_merkle_branch
  unfolding chain_root check_merkle_branch
  check_aux_pow_binds test_net a b x y chain script k u fa fb f ia ib hx hy ca cb =
      let (la, ta) = check_aux_pow_lem test_net a x chain script fa ca in
      let (lb, tb) = check_aux_pow_lem test_net b y chain script fb cb in
      let pa = check_script-IsSlotted script (root_bytes a x) k u _ a.chain_index chain f ta in
      let pb = check_script-IsSlotted script (root_bytes b y) k u _ b.chain_index chain f tb in
      let e : root_bytes a x ≡ root_bytes b y =
        sym pa.root_first
        ∙ ap (λ (n : ℕ). take n (drop (k + 4) script))
            (length-root_bytes a x ∙ sym (length-root_bytes b y))
        ∙ pb.root_first in
      let sa = rw (length-root_bytes a x) at pa.slot_fits in
      let sb = rw (length-root_bytes b y) at pb.slot_fits in
      let (m, i, n) =
        slots_bind (drop 32 (drop (k + 4) script)) _ _ a.chain_index b.chain_index chain la lb ia ib
          sa sb in
      let r = root_bytes_injective a b x y hx hy e in
      check_merkle_branch_binds h laws a.chain_merkle_branch b.chain_merkle_branch x y a.chain_index
        hx hy m n (r ∙ ap (check_merkle_branch h y b.chain_merkle_branch) (sym i))
