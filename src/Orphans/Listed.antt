-- ===== src/Orphans/Listed.antt =====
-- The two maps of the orphan blocks in src/main.cpp through `ProcessBlock`.
use ixcoin.Common.{
  ℕ, ◌+◌, ◌≡◌, ◌⊎◌, inl, inr, refl, sym, ap, ◌∙◌, List, [], ◌∷◌, ◌++◌, Bool, true, false, ◌==◌,
  if◌then◌else◌, length, Option, none, some, erase, arith, Bool-cases,
}
use ixcoin.Common.Int.{ℤ}
use ixcoin.Chain.Block.{Block}
use ixcoin.Accept.{Host}
use ixcoin.Orphans.{Orphans, followers, others, get_hash, erase_each, release, hold}
use mathlib.Core.Option.{some-injective}
use mathlib.Core.Path.{subst}

abbrev pub IsIn : Block → List Block → Type 0
IsIn b [] = ⊥
IsIn b (c ∷ bs) = (b ≡ c) ⊎ IsIn b bs

IsIn-append : (b : Block) (bs cs : List Block) → IsIn b (bs ++ cs) → IsIn b bs ⊎ IsIn b cs
IsIn-append b [] cs h = inr h
IsIn-append b (c ∷ bs) cs (inl e) = inl (inl e)
IsIn-append b (c ∷ bs) cs (inr h) = elim (IsIn-append b bs cs h) [
  | inl k ↦ inl (inr k)
  | inr k ↦ inr k
]

IsIn-left : (b : Block) (bs cs : List Block) → IsIn b bs → IsIn b (bs ++ cs)
IsIn-left b [] cs h = elim h [ ]
IsIn-left b (c ∷ bs) cs (inl e) = inl e
IsIn-left b (c ∷ bs) cs (inr h) = inr (IsIn-left b bs cs h)

IsIn-last : (b : Block) (bs : List Block) → IsIn b (bs ++ b ∷ [])
IsIn-last b [] = inl refl
IsIn-last b (c ∷ bs) = inr (IsIn-last b bs)

-- What is among the followers or the others of a key.
IsIn-followers :
    (h : ℕ) (b : Block) (bs : List Block)
    → IsIn b (followers h bs)
    → IsIn b bs × ((b.header.hash_prev_block == h) ≡ true)
unfolding followers
IsIn-followers h b [] k = elim k [ ]
IsIn-followers h b (c ∷ bs) k = elim (Bool-cases (c.header.hash_prev_block == h)) [
  | inl e ↦ elim (rw e at k) [
    | inl q ↦ (inl q, ap (λ d. d.header.hash_prev_block == h) q ∙ e)
    | inr i ↦ let (j, q) = IsIn-followers h b bs i in (inr j, q)
  ]
  | inr e ↦ let (i, q) = IsIn-followers h b bs (rw e at k) in (inr i, q)
]

IsIn-others :
    (h : ℕ) (b : Block) (bs : List Block)
    → IsIn b (others h bs)
    → IsIn b bs × ((b.header.hash_prev_block == h) ≡ false)
unfolding others
IsIn-others h b [] k = elim k [ ]
IsIn-others h b (c ∷ bs) k = elim (Bool-cases (c.header.hash_prev_block == h)) [
  | inl e ↦ let (i, q) = IsIn-others h b bs (rw e at k) in (inr i, q)
  | inr e ↦ elim (rw e at k) [
    | inl q ↦ (inl q, ap (λ d. d.header.hash_prev_block == h) q ∙ e)
    | inr i ↦ let (j, q) = IsIn-others h b bs i in (inr j, q)
  ]
]

-- Each block follows the key or does not.
IsIn-split :
    (h : ℕ) (b : Block) (bs : List Block)
    → IsIn b bs
    → IsIn b (followers h bs) ⊎ IsIn b (others h bs)
unfolding followers others
IsIn-split h b [] i = elim i [ ]
IsIn-split h b (c ∷ bs) (inl q) = elim (Bool-cases (c.header.hash_prev_block == h)) [
  | inl e ↦ inl (rw e (inl q))
  | inr e ↦ inr (rw e (inl q))
]
IsIn-split h b (c ∷ bs) (inr i) = elim (Bool-cases (c.header.hash_prev_block == h)) [
  | inl e ↦ rw e (elim (IsIn-split h b bs i) [ inl k ↦ inl (inr k) | inr k ↦ inr k ])
  | inr e ↦ rw e (elim (IsIn-split h b bs i) [ inl k ↦ inl k | inr k ↦ inr (inr k) ])
]

pub length-others :
    (h : ℕ) (bs : List Block) → length (followers h bs) + length (others h bs) ≡ length bs
unfolding followers others
length-others h [] = omega arith
length-others h (c ∷ bs) = elim (Bool-cases (c.header.hash_prev_block == h)) [
  | inl e ↦ rw e (omega (arith, length-others h bs))
  | inr e ↦ rw e (omega (arith, length-others h bs))
]

module _ (host : Host) (now : ℤ) (written : Block → Option (ℕ × ℕ)) where
  erase_each-kept :
      (bs : List Block) (m : ℕ → Option Block) (k : ℕ)
      → ((c : Block) → IsIn c bs → get_hash host now written c ≡ k → ⊥)
      → erase_each host now written bs m k ≡ m k
  unfolding erase_each
  erase_each-kept [] m k h = refl
  erase_each-kept (c ∷ bs) m k h =
      erase_each-kept bs (erase (get_hash host now written c) m) k (λ d i. h d (inr i))
      ∙ other (k == get_hash host now written c) (λ e. h c (inl refl) (ground arith))
    where
      other : (x : Bool) → (x ≡ true → ⊥) → (if x then none else m k) ≡ m k
      other true n = elim (n refl) [ ]
      other false n = refl

  erase_each-gone :
      (bs : List Block) (m : ℕ → Option Block) (k : ℕ) (b : Block)
      → erase_each host now written bs m k ≡ some b
      → (m k ≡ some b) × ((c : Block) → IsIn c bs → get_hash host now written c ≡ k → ⊥)
  unfolding erase_each
  erase_each-gone [] m k b e = (e, λ c i q. elim i [ ])
  erase_each-gone (c ∷ bs) m k b e =
      let (f, n) = erase_each-gone bs (erase (get_hash host now written c) m) k b e in
      elim (Bool-cases (k == get_hash host now written c)) [
        | inl t ↦ let z : none ≡ some b = rw t at f in cc
        | inr t ↦ (
          rw t at f,
          λ d i q. elim i [
            | inl s ↦
                let r : get_hash host now written c ≡ k =
                  ap (get_hash host now written) (sym s) ∙ q in
                let u : (k == get_hash host now written c) ≡ true = ground arith in
                differ (sym u ∙ t)
            | inr j ↦ n d j q
          ],
        )
      ]
    where
      differ : true ≡ false → ⊥
      differ z = cc

  -- Both maps hold the same blocks, the first under their hashes.
  abbrev pub IsListed : Orphans → Type 0
  IsListed o =
      ((b : Block) → IsIn b o.by_prev → o.blocks (get_hash host now written b) ≡ some b)
      × ((k : ℕ) (b : Block)
          → o.blocks k ≡ some b
          → IsIn b o.by_prev × (get_hash host now written b ≡ k))

  pub release-IsListed :
      (h : ℕ) (o : Orphans) → IsListed o → IsListed (release host now written h o)
  release-IsListed h o (into, from) = (
    λ b i.
        let (j, q) = IsIn-others h b o.by_prev i in
        erase_each-kept (followers h o.by_prev) o.blocks (get_hash host now written b) (λ c k e.
          let (l, r) = IsIn-followers h c o.by_prev k in
          let s : c ≡ b = some-injective _ _ (sym (into c l) ∙ ap o.blocks e ∙ into b j) in
          differ (sym r ∙ ap (λ d. d.header.hash_prev_block == h) s ∙ q))
        ∙ into b j,
    λ k b e.
        let (m, n) = erase_each-gone (followers h o.by_prev) o.blocks k b e in
        let (i, q) = from k b m in
        elim (IsIn-split h b o.by_prev i) [ inl f ↦ elim (n b f q) [ ] | inr j ↦ (j, q) ],
  )
    where
      differ : true ≡ false → ⊥
      differ z = cc

  pub hold-IsListed :
      (b : Block) (o : Orphans)
      → o.blocks (get_hash host now written b) ≡ none
      → IsListed o
      → IsListed (hold host now written b o)
  hold-IsListed b o new (into, from) = (
    λ c i. elim (IsIn-append c o.by_prev (b ∷ []) i) [
      | inl j ↦ elim (Bool-cases (get_hash host now written c == get_hash host now written b)) [
        | inl t ↦
            let e : get_hash host now written c ≡ get_hash host now written b = ground arith in
            let z : none ≡ some c = sym new ∙ ap o.blocks (sym e) ∙ into c j in cc
        | inr t ↦ rw t (into c j)
      ]
      | inr j ↦ elim j [
        | inl s ↦
            let t : (get_hash host now written c == get_hash host now written b) ≡ true =
              rw s (same (get_hash host now written b)) in
            rw t (ap some (sym s))
        | inr n ↦ elim n [ ]
      ]
    ],
    λ k c e. elim (Bool-cases (k == get_hash host now written b)) [
      | inl t ↦
          let s : b ≡ c = some-injective _ _ (rw t at e) in
          let q : get_hash host now written b ≡ k = ground arith in
          (
            subst (λ d. IsIn d (o.by_prev ++ b ∷ [])) s (IsIn-last b o.by_prev),
            ap (get_hash host now written) (sym s) ∙ q,
          )
      | inr t ↦ let (i, q) = from k c (rw t at e) in (IsIn-left c o.by_prev (b ∷ []) i, q)
    ],
  )
    where
      same : (n : ℕ) → (n == n) ≡ true
      same n = ground arith
