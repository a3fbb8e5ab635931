-- ===== src/Script/Ops/Items.antt =====
-- The operations that make values of their own make items: byte strings of at most 520 bytes.
use ixcoin.Common.{
  ℕ, suc, ◌+◌, ◌^◌, ◌≤◌, ◌<◌, ◌≡◌, sym, List, [], ◌∷◌, Bool, true, false, ◌||◌, ltb, leb, length,
  take, drop, Option, none, some, All, All-drop, arith, if◌then◌else◌, Bool-cases, inl, inr,
}
use ixcoin.Common.Int.{ℤ, ◌+ℤ◌, ◌-ℤ◌, pos_part, neg_part}
use ixcoin.Serialize.{Bytes, IsByte}
use ixcoin.Bignum.{set_vch, get_vch, get_int}
use ixcoin.Bignum.OpenSsl.{BnLib, BnLaws}
use ixcoin.Bignum.Vch.{set_vch-get_vch, length-get_vch, get_vch-IsByte, set_vch_lt}
use ixcoin.Hash.{HashLib, HashLaws, hash_bytes, hash160}
use ixcoin.Script.Machine.{Context, IsItem, of_bool, cast_to_bool, cast_to_big_num}
use ixcoin.Script.Ops.Stack.{Stack, depth}
use ixcoin.Script.Ops.Splice.{size, verified, equal, bytes_eq}
use ixcoin.Script.Ops.Numeric.{
  Unary, Binary, apply_unary, apply_binary, unary, binary, within, finish, truth,
}
use ixcoin.Script.Ops.Crypto.{
  Digest, digest, hash_top, check_sig_op, multisig_tail, count_up_to, check_multisig_op,
}
use ixcoin.Script.Ops.Keep.{Every, Every-bind, Every-if, Every-at, if_none}

of_bool-IsItem : (b : Bool) → IsItem (of_bool b)
of_bool-IsItem true = record { size_fits = omega arith; bytes = (omega arith, tt) }
of_bool-IsItem false = record { size_fits = omega arith; bytes = tt }

verified-keeps :
    (verify ok : Bool) (s : Stack) → All IsItem s → Every (All IsItem) (verified verify ok s)
unfolding verified
verified-keeps true true s h = h
verified-keeps true false s h = tt
verified-keeps false ok s h = (of_bool-IsItem ok, h)

pub equal-keeps : (verify : Bool) (s : Stack) → All IsItem s → Every (All IsItem) (equal verify s)
unfolding equal
equal-keeps verify (b ∷ a ∷ s) (hb, (ha, hs)) = verified-keeps verify (bytes_eq a b) s hs
equal-keeps verify _ h = tt

-- A number of at most 32 bits of magnitude.
abbrev pub IsSmall : ℤ → Type 0
IsSmall z = pos_part z + neg_part z < 2 ^ 32

module _ (bn : BnLib) (laws : BnLaws bn) where
  pub get_vch-IsItem : (z : ℤ) → IsSmall z → IsItem (get_vch bn z)
  get_vch-IsItem z h = record {
    size_fits = omega (arith, length-get_vch bn laws 4 z h);
    bytes = get_vch-IsByte bn laws z;
  }

  pub word-IsItem : (n : ℕ) → n < 2 ^ 32 → IsItem (get_vch bn (bn.set_word n))
  word-IsItem n h = get_vch-IsItem (bn.set_word n) (rw (laws.set_word_lem n h) (omega arith))

  pub depth-keeps : (s : Stack) → length s < 2 ^ 32 → All IsItem s → Every (All IsItem) (depth bn s)
  unfolding depth
  depth-keeps s l h = (word-IsItem (length s) l, h)

  pub size-keeps : (s : Stack) → All IsItem s → Every (All IsItem) (size bn s)
  unfolding size
  size-keeps [] h = tt
  size-keeps (v ∷ s) (hv, hs) =
      (word-IsItem (length v) (let f = hv.size_fits in omega arith), (hv, hs))

  -- `CastToBigNum` gives numbers of 31 bits and a sign.
  cast_to_big_num_lt :
      (v : Bytes) (z : ℤ)
      → All IsByte v
      → cast_to_big_num bn v ≡ some z
      → pos_part z + neg_part z < 2 ^ 31
  unfolding cast_to_big_num
  cast_to_big_num_lt v z b e = elim (Bool-cases (ltb 4 (length v))) [
    | inl f ↦ cc (rw f at e)
    | inr f ↦
        let q : set_vch bn v ≡ z =
          ground (arith, rw (f, set_vch-get_vch bn laws (set_vch bn v)) at e) in
        rw (sym q) (set_vch_lt bn laws v (ground arith) b)
  ]

  truth-IsSmall : (b : Bool) → IsSmall (truth bn b)
  unfolding truth
  truth-IsSmall true = rw (laws.set_word_lem 1 (omega arith)) (omega arith)
  truth-IsSmall false = rw (laws.set_word_lem 0 (omega arith)) (omega arith)

  -- The two operations that shift stand behind the test that turns them down.
  abbrev pub LiveUnary : Unary → Type 0
  LiveUnary Unary.mul2 = ⊥
  LiveUnary Unary.div2 = ⊥
  LiveUnary _ = Unit

  abbrev pub LiveBinary : Binary → Type 0
  LiveBinary Binary.mul = ⊥
  LiveBinary Binary.div = ⊥
  LiveBinary Binary.rem = ⊥
  LiveBinary Binary.lshift = ⊥
  LiveBinary Binary.rshift = ⊥
  LiveBinary _ = Unit

  one_lt : pos_part (bn.set_word 1) + neg_part (bn.set_word 1) < 2 ^ 31
  one_lt = rw (laws.set_word_lem 1 (omega arith)) (omega arith)

  negated-IsSmall : (z : ℤ) → pos_part z + neg_part z < 2 ^ 31 → IsSmall (bn.negated z)
  unfolding ◌-ℤ◌
  negated-IsSmall z h = rw (laws.negated_lem z) (ground arith)

  add-IsSmall :
      (a b : ℤ)
      → pos_part a + neg_part a < 2 ^ 31
      → pos_part b + neg_part b < 2 ^ 31
      → IsSmall (bn.add a b)
  unfolding ◌+ℤ◌
  add-IsSmall a b h k = rw (laws.add_lem a b) (ground arith)

  sub-IsSmall :
      (a b : ℤ)
      → pos_part a + neg_part a < 2 ^ 31
      → pos_part b + neg_part b < 2 ^ 31
      → IsSmall (bn.sub a b)
  unfolding ◌-ℤ◌
  sub-IsSmall a b h k = rw (laws.sub_lem a b) (ground arith)

  if_IsSmall : (b : Bool) (x y : ℤ) → IsSmall x → IsSmall y → IsSmall (if b then x else y)
  if_IsSmall true x y h k = h
  if_IsSmall false x y h k = k

  apply_unary-IsSmall :
      (op : Unary) (z : ℤ)
      → LiveUnary op
      → pos_part z + neg_part z < 2 ^ 31
      → IsSmall (apply_unary bn op z)
  unfolding apply_unary
  apply_unary-IsSmall Unary.add1 z l h = add-IsSmall z (bn.set_word 1) h one_lt
  apply_unary-IsSmall Unary.sub1 z l h = sub-IsSmall z (bn.set_word 1) h one_lt
  apply_unary-IsSmall Unary.mul2 z l h = absurd l
  apply_unary-IsSmall Unary.div2 z l h = absurd l
  apply_unary-IsSmall Unary.negate z l h = negated-IsSmall z h
  apply_unary-IsSmall Unary.abs z l h =
      if_IsSmall _ (bn.negated z) z (negated-IsSmall z h) (omega arith)
  apply_unary-IsSmall Unary.not z l h = truth-IsSmall _
  apply_unary-IsSmall Unary.zero_not_equal z l h = truth-IsSmall _

  apply_binary-IsSmall :
      (op : Binary) (a b : ℤ)
      → LiveBinary op
      → pos_part a + neg_part a < 2 ^ 31
      → pos_part b + neg_part b < 2 ^ 31
      → Every IsSmall (apply_binary bn op a b)
  unfolding apply_binary
  apply_binary-IsSmall Binary.add a b l h k = add-IsSmall a b h k
  apply_binary-IsSmall Binary.sub a b l h k = sub-IsSmall a b h k
  apply_binary-IsSmall Binary.mul a b l h k = absurd l
  apply_binary-IsSmall Binary.div a b l h k = absurd l
  apply_binary-IsSmall Binary.rem a b l h k = absurd l
  apply_binary-IsSmall Binary.lshift a b l h k = absurd l
  apply_binary-IsSmall Binary.rshift a b l h k = absurd l
  apply_binary-IsSmall Binary.min a b l h k = if_IsSmall _ a b (omega arith) (omega arith)
  apply_binary-IsSmall Binary.max a b l h k = if_IsSmall _ a b (omega arith) (omega arith)
  apply_binary-IsSmall op a b l h k = truth-IsSmall _

  pub unary-keeps :
      (op : Unary) (s : Stack) → LiveUnary op → All IsItem s → Every (All IsItem) (unary bn op s)
  unfolding unary
  unary-keeps op [] l h = tt
  unary-keeps op (a ∷ s) l (ha, hs) =
      Every-bind (All IsItem) (cast_to_big_num bn a) _ λ z e.
        (get_vch-IsItem _ (apply_unary-IsSmall op z l (cast_to_big_num_lt a z ha.bytes e)), hs)

  finish-keeps :
      (op : Binary) (r : Bytes) (s : Stack)
      → IsItem r
      → All IsItem s
      → Every (All IsItem) (finish bn op r s)
  unfolding finish
  finish-keeps Binary.num_equal_verify r s h k = Every-if (All IsItem) (cast_to_bool r) _ _ k tt
  finish-keeps op r s h k = (h, k)

  pub binary-keeps :
      (op : Binary) (s : Stack) → LiveBinary op → All IsItem s → Every (All IsItem) (binary bn op s)
  unfolding binary
  binary-keeps op (b ∷ a ∷ s) l (hb, (ha, hs)) =
      Every-bind (All IsItem) (cast_to_big_num bn a) _ λ x e.
        Every-bind (All IsItem) (cast_to_big_num bn b) _ λ y f.
          Every-bind (All IsItem) (apply_binary bn op x y) _ λ z g.
            finish-keeps op _ s
              (get_vch-IsItem z (
                at op x y z
                  (apply_binary-IsSmall op x y l (cast_to_big_num_lt a x ha.bytes e)
                    (cast_to_big_num_lt b y hb.bytes f))
                  g))
              hs
    where
      at :
          (op : Binary) (x y z : ℤ)
          → Every IsSmall (apply_binary bn op x y)
          → apply_binary bn op x y ≡ some z
          → IsSmall z
      at op x y z h g = rw g at h
  binary-keeps op _ l h = tt

  pub within-keeps : (s : Stack) → All IsItem s → Every (All IsItem) (within bn s)
  unfolding within
  within-keeps (c ∷ b ∷ a ∷ s) (hc, (hb, (ha, hs))) =
      Every-bind (All IsItem) (cast_to_big_num bn a) _ λ x _.
        Every-bind (All IsItem) (cast_to_big_num bn b) _
          λ y _. Every-bind (All IsItem) (cast_to_big_num bn c) _ λ z _. (of_bool-IsItem _, hs)
  within-keeps _ h = tt

module _ (h : HashLib) (laws : HashLaws h) where
  digest-IsItem : (d : Digest) (v : Bytes) → IsItem (digest h d v)
  unfolding digest hash_bytes hash160
  digest-IsItem Digest.ripemd160 v = record {
    size_fits = omega (arith, laws.length-ripemd160 v);
    bytes = laws.ripemd160-IsByte v;
  }
  digest-IsItem Digest.sha1 v = record {
    size_fits = omega (arith, laws.length-sha1 v);
    bytes = laws.sha1-IsByte v;
  }
  digest-IsItem Digest.sha256 v = record {
    size_fits = omega (arith, laws.length-sha256 v);
    bytes = laws.sha256-IsByte v;
  }
  digest-IsItem Digest.hash160 v = record {
    size_fits = omega (arith, laws.length-ripemd160 (h.sha256 v));
    bytes = laws.ripemd160-IsByte (h.sha256 v);
  }
  digest-IsItem Digest.hash256 v = record {
    size_fits = omega (arith, laws.length-sha256 (h.sha256 v));
    bytes = laws.sha256-IsByte (h.sha256 v);
  }

  pub hash_top-keeps : (d : Digest) (s : Stack) → All IsItem s → Every (All IsItem) (hash_top h d s)
  unfolding hash_top
  hash_top-keeps d [] k = tt
  hash_top-keeps d (v ∷ s) (_, ks) = (digest-IsItem d v, ks)

module _ (c : Context) where
  pub check_sig_op-keeps :
      (verify : Bool) (code : Bytes) (s : Stack)
      → All IsItem s
      → Every (All IsItem) (check_sig_op c verify code s)
  unfolding check_sig_op
  check_sig_op-keeps verify code (b ∷ a ∷ s) (_, (_, hs)) = verified-keeps verify _ s hs
  check_sig_op-keeps verify code _ h = tt

  multisig_tail-keeps :
      (verify : Bool) (code : Bytes) (keys : List Bytes) (s : Stack)
      → All IsItem s
      → Every (All IsItem) (multisig_tail c verify code keys s)
  unfolding multisig_tail
  multisig_tail-keeps verify code keys [] h = tt
  multisig_tail-keeps verify code keys (b ∷ s) (_, hs) =
      Every-bind (All IsItem) (cast_to_big_num c.bn b) _ λ z _.
        Every-bind (All IsItem) (count_up_to (length keys) (get_int c.bn z)) _ λ n _.
          Every-if (All IsItem) (leb (length s) n) _ _ tt
            (verified-keeps verify _ (drop (suc n) s) (All-drop IsItem (suc n) s hs))

  -- The stack that is left holds items, and no more than 201 operations have been counted.
  pub check_multisig_op-keeps :
      (verify : Bool) (code : Bytes) (ops : ℕ) (s : Stack)
      → All IsItem s
      → Every
          (λ (p : Stack × ℕ). All IsItem p.0 × (p.1 ≤ 201))
          (check_multisig_op c verify code ops s)
  unfolding check_multisig_op
  check_multisig_op-keeps verify code ops [] h = tt
  check_multisig_op-keeps verify code ops (b ∷ s) (_, hs) =
      Every-bind Fits (cast_to_big_num c.bn b) _ λ z _.
        Every-bind Fits (count_up_to 20 (get_int c.bn z)) _ λ n _.
          Every-bind Fits (cut n) (λ r. some (r, ops + n))
            λ r e.
              let (t, k) = if_none (ltb 201 (ops + n) || leb (length s) n) _ r e in
              (
                Every-at (All IsItem) _ r
                    (multisig_tail-keeps verify code (take n s) (drop n s) (All-drop IsItem n s hs))
                    k,
                ground arith,
              )
    where
      cut : ℕ → Option Stack
      cut n =
          if ltb 201 (ops + n) || leb (length s) n
          then none
          else multisig_tail c verify code (take n s) (drop n s)

      Fits : Stack × ℕ → Type 0
      Fits p = All IsItem p.0 × (p.1 ≤ 201)
