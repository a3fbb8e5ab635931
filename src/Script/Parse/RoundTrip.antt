-- ===== src/Script/Parse/RoundTrip.antt =====
-- What `GetOp` makes of what `operator<<` put on a script, and that it always moves on.
use ixcoin.Common.{
  ℕ, zero, suc, ◌+◌, ◌%◌, ◌^◌, ◌≤◌, ◌<◌, ◌≡◌, sym, ap, All, [], ◌∷◌, ◌++◌, ltb, leb, ◌==◌,
  if◌then◌else◌, length, some, arith, Bool-cases, Option-cases, inl, inr, le→leb,
}
use mathlib.Core.Option.{some-injective}
use mathlib.Core.Path.{subst}
use ixcoin.Serialize.{Bytes, ◌>>=◌, read_bytes, read_le}
use ixcoin.Serialize.RoundTrip.{Reads, Reads-bind, Reads-pure, read_bytes_lem, read_le_lem}
use ixcoin.Script.Opcode.{Opcode, of_byte}
use ixcoin.Script.Parse.{operand_size, operand, get_op, push_data}

-- The opcode with which data of a size is put on a script.
abbrev pub push_opcode : ℕ → ℕ
push_opcode n = if ltb n 76 then n else if leb n 0xff then 76 else if leb n 0xffff then 77 else 78

operand-Reads :
    (b : ℕ) (w v : Bytes)
    → Reads (operand_size b) w (length v)
    → Reads (operand b) (w ++ v) (of_byte b, v)
unfolding operand
operand-Reads b w v h = Reads-bind _ h (Reads-pure (λ x. (of_byte b, x)) (read_bytes_lem v))

get_op-Reads :
    (b : ℕ) (w v rest : Bytes)
    → b ≤ 78
    → Reads (operand_size b) w (length v)
    → get_op ((b ∷ w ++ v) ++ rest) ≡ some ((of_byte b, v), rest)
unfolding get_op
get_op-Reads b w v rest hb h = rw (le→leb b 78 hb) ((operand-Reads b w v h).from_front rest)

-- Data that was put on a script is the next operation, whole, with the opcode that fits its size, and
-- the script behind it is left.
pub get_op-push_data :
    (v rest : Bytes)
    → length v < 2 ^ 32
    → get_op (push_data v ++ rest) ≡ some ((of_byte (push_opcode (length v)), v), rest)
unfolding push_data operand_size
get_op-push_data v rest h = elim (Bool-cases (ltb (length v) 76)) [
  | inl e ↦
      let m : length v % 256 ≡ length v = ground arith in
      rw (e, m)
        (get_op-Reads (length v) [] v rest (ground arith) (record { from_front = λ r. rw e }))
  | inr e ↦ rw e (elim (Bool-cases (leb (length v) 0xff)) [
    | inl f ↦
        rw f (get_op-Reads 76 _ v rest (omega arith) (read_le_lem 1 (length v) (ground arith)))
    | inr f ↦ rw f (elim (Bool-cases (leb (length v) 0xffff)) [
      | inl g ↦
          rw g (get_op-Reads 77 _ v rest (omega arith) (read_le_lem 2 (length v) (ground arith)))
      | inr g ↦ rw g (get_op-Reads 78 _ v rest (omega arith) (read_le_lem 4 (length v) h))
    ])
  ])
]

-- A reader that succeeds leaves no more than it found.
pub read_bytes-length :
    (n : ℕ) (s v rest : Bytes)
    → read_bytes n s ≡ some (v, rest)
    → (length v ≡ n) × (length rest + n ≡ length s)
unfolding read_bytes
read_bytes-length zero s v rest e = ground arith
read_bytes-length (suc n) [] v rest e = cc
read_bytes-length (suc n) (b ∷ s) v rest e = elim (Option-cases (read_bytes n s)) [
  | inl f ↦ cc (rw (f) at e)
  | inr ((w, r), f) ↦ ground (arith, f, e, read_bytes-length n s w r f)
]

read_le-length :
    (k : ℕ) (s : Bytes) (v : ℕ) (rest : Bytes)
    → read_le k s ≡ some (v, rest)
    → length rest ≤ length s
unfolding read_le
read_le-length k s v rest e = elim (Option-cases (read_bytes k s)) [
  | inl f ↦ cc (rw (f, ◌>>=◌) at e)
  | inr ((w, r), f) ↦ ground (arith, f, rw (f, ◌>>=◌) at e, read_bytes-length k s w r f)
]

operand_size-length :
    (b : ℕ) (s : Bytes) (v : ℕ) (rest : Bytes)
    → operand_size b s ≡ some (v, rest)
    → length rest ≤ length s
unfolding operand_size
operand_size-length b s v rest e =
    ground (arith, read_le-length 1 s v rest, read_le-length 2 s v rest, read_le-length 4 s v rest)

-- `GetOp` takes at least the byte of the opcode.
pub get_op-length :
    (s : Bytes) (op : Opcode) (v rest : Bytes)
    → get_op s ≡ some ((op, v), rest)
    → length rest + length v < length s
unfolding get_op operand
get_op-length [] op v rest e = cc
get_op-length (b ∷ s) op v rest e = elim (Bool-cases (leb b 78)) [
  | inr f ↦ ground (arith, f, rw f at e)
  | inl f ↦ elim (Option-cases (operand_size b s)) [
    | inl g ↦ cc (rw (f, g, ◌>>=◌) at e)
    | inr ((n, r), g) ↦ elim (Option-cases (read_bytes n r)) [
      | inl k ↦ cc (rw (f, g, k, ◌>>=◌) at e)
      | inr ((w, q), k) ↦ ground (
        arith,
        rw (f, g, k, ◌>>=◌) at e,
        operand_size-length b s n r g,
        read_bytes-length n r w q k,
      )
    ]
  ]
]

-- What a reader gives and what it leaves are made of what it found.
module _ {κ} (P : ℕ → Type κ) where
  read_bytes-All :
      (n : ℕ) (s v rest : Bytes) → read_bytes n s ≡ some (v, rest) → All P s → All P v × All P rest
  unfolding read_bytes
  read_bytes-All zero s v rest e h = (
    rw (sym (ap (λ (p : Bytes × Bytes). p.0) (some-injective _ _ e))) tt,
    subst (All P) (ap (λ (p : Bytes × Bytes). p.1) (some-injective _ _ e)) h,
  )
  read_bytes-All (suc n) [] v rest e h = cc
  read_bytes-All (suc n) (b ∷ s) v rest e (h, hs) = elim (Option-cases (read_bytes n s)) [
    | inl f ↦ cc (rw f at e)
    | inr ((w, r), f) ↦
        let (a, q) = read_bytes-All n s w r f hs in
        let g : (b ∷ w, r) ≡ (v, rest) = some-injective _ _ (rw f at e) in
        (
          subst (All P) (ap (λ (p : Bytes × Bytes). p.0) g) (h, a),
          subst (All P) (ap (λ (p : Bytes × Bytes). p.1) g) q,
        )
  ]

  read_le-All :
      (k : ℕ) (s : Bytes) (v : ℕ) (rest : Bytes)
      → read_le k s ≡ some (v, rest)
      → All P s
      → All P rest
  unfolding read_le
  read_le-All k s v rest e h = elim (Option-cases (read_bytes k s)) [
    | inl f ↦ cc (rw (f, ◌>>=◌) at e)
    | inr ((w, r), f) ↦
        subst (All P) (ap (λ (p : ℕ × Bytes). p.1) (some-injective _ _ (rw (f, ◌>>=◌) at e)))
          (read_bytes-All k s w r f h).1
  ]

  operand_size-All :
      (b : ℕ) (s : Bytes) (v : ℕ) (rest : Bytes)
      → operand_size b s ≡ some (v, rest)
      → All P s
      → All P rest
  unfolding operand_size
  operand_size-All b s v rest e h = elim (Bool-cases (ltb b 76)) [
    | inl f ↦ subst (All P) (ap (λ (p : ℕ × Bytes). p.1) (some-injective _ _ (rw f at e))) h
    | inr f ↦ elim (Bool-cases (b == 76)) [
      | inl g ↦ read_le-All 1 s v rest (rw (f, g) at e) h
      | inr g ↦ elim (Bool-cases (b == 77)) [
        | inl k ↦ read_le-All 2 s v rest (rw (f, g, k) at e) h
        | inr k ↦ read_le-All 4 s v rest (rw (f, g, k) at e) h
      ]
    ]
  ]

  pub get_op-All :
      (s : Bytes) (op : Opcode) (v rest : Bytes)
      → get_op s ≡ some ((op, v), rest)
      → All P s
      → All P v × All P rest
  unfolding get_op operand
  get_op-All [] op v rest e h = cc
  get_op-All (b ∷ s) op v rest e (h, hs) = elim (Bool-cases (leb b 78)) [
    | inr f ↦
        let g : ((of_byte b, []), s) ≡ ((op, v), rest) = some-injective _ _ (rw f at e) in
        (
          subst (All P) (ap (λ (p : (Opcode × Bytes) × Bytes). p.0.1) g) tt,
          subst (All P) (ap (λ (p : (Opcode × Bytes) × Bytes). p.1) g) hs,
        )
    | inl f ↦ elim (Option-cases (operand_size b s)) [
      | inl g ↦ cc (rw (f, g, ◌>>=◌) at e)
      | inr ((n, r), g) ↦ elim (Option-cases (read_bytes n r)) [
        | inl k ↦ cc (rw (f, g, k, ◌>>=◌) at e)
        | inr ((w, q), k) ↦
            let t : ((of_byte b, w), q) ≡ ((op, v), rest) =
              some-injective _ _ (rw (f, g, k, ◌>>=◌) at e) in
            let (a, z) = read_bytes-All n r w q k (operand_size-All b s n r g hs) in
            (
              subst (All P) (ap (λ (p : (Opcode × Bytes) × Bytes). p.0.1) t) a,
              subst (All P) (ap (λ (p : (Opcode × Bytes) × Bytes). p.1) t) z,
            )
      ]
    ]
  ]
