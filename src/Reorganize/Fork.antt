-- ===== src/Reorganize/Fork.antt =====
-- The search for the fork ends at the longest chain that both chains go back to.
use ixcoin.Common.{
  ℕ, suc, ◌≤◌, ◌≡◌, ◌≢◌, ◌⊎◌, refl, sym, ap, ◌∙◌, [], ◌∷◌, true, false, ltb, length, some, arith,
  Bool-cases, inl, inr,
}
use mathlib.Core.Path.{subst}
use ixcoin.Tx.Check.{is_empty}
use ixcoin.Ledger.{IndexedBlock}
use ixcoin.Reorganize.{Blocks, same_block, lower_to, find_fork}

-- A chain that another one goes back to.
abbrev pub IsSuffix : Blocks → Blocks → Type 0
IsSuffix s [] = s ≡ []
IsSuffix s (b ∷ bs) = (s ≡ b ∷ bs) ⊎ IsSuffix s bs

pub IsSuffix-refl : (l : Blocks) → IsSuffix l l
IsSuffix-refl [] = refl
IsSuffix-refl (b ∷ bs) = inl refl

pub IsSuffix-trans : (s t l : Blocks) → IsSuffix s t → IsSuffix t l → IsSuffix s l
IsSuffix-trans s t [] h k = subst (IsSuffix s) k h
IsSuffix-trans s t (b ∷ bs) h (inl k) = subst (IsSuffix s) k h
IsSuffix-trans s t (b ∷ bs) h (inr k) = inr (IsSuffix-trans s t bs h k)

length-IsSuffix : (s l : Blocks) → IsSuffix s l → length s ≤ length l
length-IsSuffix s [] h = rw h (omega arith)
length-IsSuffix s (b ∷ bs) (inl h) = rw h (omega arith)
length-IsSuffix s (b ∷ bs) (inr h) = omega (arith, length-IsSuffix s bs h)

IsSuffix-tail :
    (s : Blocks) (b : IndexedBlock) (bs : Blocks)
    → IsSuffix s (b ∷ bs)
    → length s ≤ length bs
    → IsSuffix s bs
IsSuffix-tail s b bs (inl h) l =
    absurd (let e : length s ≡ suc (length bs) = ap length h in omega arith)
IsSuffix-tail s b bs (inr h) l = h

IsSuffix-full : (s l : Blocks) → IsSuffix s l → length l ≤ length s → s ≡ l
IsSuffix-full s [] h l = h
IsSuffix-full s (b ∷ bs) (inl h) l = h
IsSuffix-full s (b ∷ bs) (inr h) l = absurd (omega (arith, length-IsSuffix s bs h))

-- The height of a block is the number of the blocks before it.
abbrev pub IsChain : Blocks → Type 0
IsChain [] = Unit
IsChain (b ∷ bs) = (b.height ≡ length bs) × IsChain bs

-- A block says what its chain is: where the hashes of two blocks are equal, the chains are.
abbrev pub Agree : Blocks → Blocks → Type 0
Agree a b =
    (x y : IndexedBlock) (xs ys : Blocks)
    → IsSuffix (x ∷ xs) a
    → IsSuffix (y ∷ ys) b
    → x.hash ≡ y.hash
    → x ∷ xs ≡ y ∷ ys

lower_to-step :
    (h : ℕ) (b : IndexedBlock) (bs : Blocks)
    → ltb h b.height ≡ true
    → lower_to h (b ∷ bs) ≡ lower_to h bs
unfolding lower_to
lower_to-step h b bs e = rw e

lower_to-stop :
    (h : ℕ) (b : IndexedBlock) (bs : Blocks) → ltb h b.height ≡ false → lower_to h (b ∷ bs) ≡ b ∷ bs
unfolding lower_to
lower_to-stop h b bs e = rw e

lower_to-IsSuffix : (h : ℕ) (l : Blocks) → IsSuffix (lower_to h l) l
unfolding lower_to
lower_to-IsSuffix h [] = refl
lower_to-IsSuffix h (b ∷ bs) = elim (Bool-cases (ltb h b.height)) [
  | inl e ↦ inr (subst (λ z. IsSuffix z bs) (sym (lower_to-step h b bs e)) (lower_to-IsSuffix h bs))
  | inr e ↦ inl (lower_to-stop h b bs e)
]

lower_to-IsChain : (h : ℕ) (l : Blocks) → IsChain l → IsChain (lower_to h l)
unfolding lower_to
lower_to-IsChain h [] c = tt
lower_to-IsChain h (b ∷ bs) (e, c) = elim (Bool-cases (ltb h b.height)) [
  | inl f ↦ rw f (lower_to-IsChain h bs c)
  | inr f ↦ rw f (e, c)
]

length-lower_to : (h : ℕ) (l : Blocks) → IsChain l → length (lower_to h l) ≤ suc h
unfolding lower_to
length-lower_to h [] c = omega arith
length-lower_to h (b ∷ bs) (e, c) = elim (Bool-cases (ltb h b.height)) [
  | inl f ↦ rw f (length-lower_to h bs c)
  | inr f ↦ rw f (ground arith)
]

-- No chain that is short enough is lost.
IsSuffix-lower_to :
    (h : ℕ) (l s : Blocks) → IsChain l → IsSuffix s l → length s ≤ suc h → IsSuffix s (lower_to h l)
unfolding lower_to
IsSuffix-lower_to h [] s c k l = k
IsSuffix-lower_to h (b ∷ bs) s (e, c) k l = elim (Bool-cases (ltb h b.height)) [
  | inl f ↦
      let short : length s ≤ length bs = ground arith in
      rw f (IsSuffix-lower_to h bs s c (IsSuffix-tail s b bs k short) l)
  | inr f ↦ rw f k
]

-- Both chains go back to `f`, and to no longer chain.
pub record IsFork (a : Blocks) (b : Blocks) (f : Blocks) : Type 0 where
  pub of_first : IsSuffix f a
  pub of_second : IsSuffix f b
  pub longest : (s : Blocks) → IsSuffix s a → IsSuffix s b → IsSuffix s f

same_block-eq :
    (x : IndexedBlock) (xs l : Blocks)
    → Agree (x ∷ xs) l
    → same_block (x ∷ xs) l ≡ true
    → x ∷ xs ≡ l
unfolding same_block
same_block-eq x xs [] agree h = cc
same_block-eq x xs (y ∷ ys) agree h = agree x y xs ys (inl refl) (inl refl) (ground arith)

same_block_refl : (x : IndexedBlock) (xs l : Blocks) → x ∷ xs ≡ l → same_block (x ∷ xs) l ≡ true
unfolding same_block
same_block_refl x xs l h = rw⁻¹ h (ground arith)

is_empty-eq : (l : Blocks) → is_empty l ≡ true → l ≡ []
is_empty-eq [] h = refl
is_empty-eq (b ∷ bs) h = cc

not_suffix_of_nil : (g : IndexedBlock) (gs l : Blocks) → IsSuffix (g ∷ gs) l → l ≢ []
not_suffix_of_nil g gs [] h e = cc h
not_suffix_of_nil g gs (b ∷ bs) h e = cc e

-- Where a chain is not the other, what both go back to lies below its last block.
not_whole :
    (f : IndexedBlock) (fs l s : Blocks)
    → same_block (f ∷ fs) l ≡ false
    → length l ≤ suc (length fs)
    → IsSuffix s (f ∷ fs)
    → IsSuffix s l
    → IsSuffix s fs
not_whole f fs l s no_match small (inr h) k = h
not_whole f fs l s no_match small (inl h) k =
    let size : length s ≡ suc (length fs) = ap length h in
    let whole : s ≡ l = IsSuffix-full s l k (omega arith) in
    cc (sym (same_block_refl f fs l (sym h ∙ whole)) ∙ no_match)

-- The three ways that a round of the search goes.
find_fork-same :
    (f : IndexedBlock) (fs b : Blocks)
    → same_block (f ∷ fs) b ≡ true
    → find_fork (f ∷ fs) b ≡ some (f ∷ fs)
unfolding find_fork
find_fork-same f fs b e = rw e

find_fork-lower :
    (f : IndexedBlock) (fs b : Blocks)
    → same_block (f ∷ fs) b ≡ false
    → is_empty (lower_to f.height b) ≡ false
    → same_block (f ∷ fs) (lower_to f.height b) ≡ true
    → find_fork (f ∷ fs) b ≡ some (f ∷ fs)
unfolding find_fork
find_fork-lower f fs b e n m = rw (e, n, m)

find_fork-next :
    (f : IndexedBlock) (fs b : Blocks)
    → same_block (f ∷ fs) b ≡ false
    → is_empty (lower_to f.height b) ≡ false
    → same_block (f ∷ fs) (lower_to f.height b) ≡ false
    → find_fork (f ∷ fs) b ≡ find_fork fs (lower_to f.height b)
unfolding find_fork
find_fork-next f fs b e n m = rw (e, n, m)

-- Where two chains go back to a common block, the search for the fork ends, and at the longest chain
-- that both go back to. The heights of the blocks count the blocks before them, and a hash says what
-- the chain of its block is.
pub find_fork-IsFork :
    (a b : Blocks) (g : IndexedBlock) (gs : Blocks)
    → IsChain a
    → IsChain b
    → Agree a b
    → IsSuffix (g ∷ gs) a
    → IsSuffix (g ∷ gs) b
    → (f : Blocks) × (find_fork a b ≡ some f) × IsFork a b f
find_fork-IsFork [] b g gs ca cb agree ga gb = absurd (not_suffix_of_nil g gs [] ga refl)
find_fork-IsFork (f ∷ fs) b g gs (height, ca) cb agree ga gb =
    elim (Bool-cases (same_block (f ∷ fs) b)) [
      | inl e ↦ (
        f ∷ fs,
        find_fork-same f fs b e,
        record {
          of_first = IsSuffix-refl (f ∷ fs);
          of_second =
              subst (IsSuffix (f ∷ fs)) (same_block-eq f fs b agree e) (IsSuffix-refl (f ∷ fs));
          longest = λ s h k. h;
        },
      )
      | inr e ↦ elim (Bool-cases (is_empty lower)) [
        | inl empty ↦
            absurd (not_suffix_of_nil g gs lower (kept (g ∷ gs) ga gb) (is_empty-eq lower empty))
        | inr full ↦ elim (Bool-cases (same_block (f ∷ fs) lower)) [
          | inl m ↦ (f ∷ fs, find_fork-lower f fs b e full m, here m)
          | inr m ↦
              let below = λ (s : Blocks). not_whole f fs lower s m low_enough in
              let (r, found, k) =
                find_fork-IsFork fs lower g gs ca (lower_to-IsChain f.height b cb)
                  (λ x y xs ys h k. agree x y xs ys (inr h) (IsSuffix-trans _ lower b k lower_in))
                  (below (g ∷ gs) ga (kept (g ∷ gs) ga gb)) (kept (g ∷ gs) ga gb) in
              (
                r,
                find_fork-next f fs b e full m ∙ found,
                record {
                  of_first = inr k.of_first;
                  of_second = IsSuffix-trans r lower b k.of_second lower_in;
                  longest = λ s h j. k.longest s (below s h (kept s h j)) (kept s h j);
                },
              )
        ]
      ]
    ]
  where
    lower : Blocks
    lower = lower_to f.height b

    lower_in : IsSuffix lower b
    lower_in = lower_to-IsSuffix f.height b

    low_enough : length lower ≤ suc (length fs)
    low_enough = omega (arith, length-lower_to f.height b cb)

    kept : (s : Blocks) → IsSuffix s (f ∷ fs) → IsSuffix s b → IsSuffix s lower
    kept s h k = IsSuffix-lower_to f.height b s cb k (omega (arith, length-IsSuffix s (f ∷ fs) h))

    here : same_block (f ∷ fs) lower ≡ true → IsFork (f ∷ fs) b (f ∷ fs)
    here m = record {
      of_first = IsSuffix-refl (f ∷ fs);
      of_second =
          let q : f ∷ fs ≡ lower =
            same_block-eq f fs lower
              (λ x y xs ys h k. agree x y xs ys h (IsSuffix-trans _ lower b k lower_in)) m in
          subst (λ z. IsSuffix z b) (sym q) lower_in;
      longest = λ s h k. h;
    }
