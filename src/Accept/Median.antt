-- ===== src/Accept/Median.antt =====
-- `AcceptBlock` takes a block only if its time is past that of most of the last blocks.
use ixcoin.Common.{
  ℕ, zero, suc, ◌+◌, ◌*◌, ◌/◌, ◌≤◌, ◌<◌, ◌≡◌, refl, sym, ap, ◌∙◌, List, [], ◌∷◌, Bool, true, false,
  ◌||◌, not, ltb, leb, ◌==◌, if◌then◌else◌, length, map, take, get_or, Option, none, some, All,
  arith, Bool-cases, inl, inr,
}
use ixcoin.Common.Int.{ℤ, pos}
use ixcoin.Tx.{Transaction, is_final}
use ixcoin.Chain.Header.{header_hash}
use ixcoin.Chain.Block.{Block}
use ixcoin.Ledger.Step.{not_false}
use ixcoin.Accept.{
  Entry, Chain, Globals, Host, insert_time, sort_times, median_time_span, median_time_past,
  all_final, breaks_checkpoint, best_height, fits_bits, required_bits, accept_at, accept_block,
}

-- How many of the times are before a time.
abbrev pub count_before : ℕ → List ℕ → ℕ
count_before t [] = 0
count_before t (u ∷ us) = (if ltb u t then 1 else 0) + count_before t us

abbrev IsSorted : List ℕ → Type 0
IsSorted [] = Unit
IsSorted (x ∷ xs) = All (λ y. x ≤ y) xs × IsSorted xs

All-weaken : (a b : ℕ) (xs : List ℕ) → a ≤ b → All (λ y. b ≤ y) xs → All (λ y. a ≤ y) xs
All-weaken a b [] l h = tt
All-weaken a b (x ∷ xs) l (h, hs) = (omega arith, All-weaken a b xs l hs)

insert_time-All :
    (a t : ℕ) (xs : List ℕ) → a ≤ t → All (λ y. a ≤ y) xs → All (λ y. a ≤ y) (insert_time t xs)
unfolding insert_time
insert_time-All a t [] l h = (l, tt)
insert_time-All a t (x ∷ xs) l (h, hs) = elim (Bool-cases (leb t x)) [
  | inl e ↦ rw e (l, (h, hs))
  | inr e ↦ rw e (h, insert_time-All a t xs l hs)
]

insert_time-IsSorted : (t : ℕ) (xs : List ℕ) → IsSorted xs → IsSorted (insert_time t xs)
unfolding insert_time
insert_time-IsSorted t [] s = (tt, tt)
insert_time-IsSorted t (x ∷ xs) (h, s) = elim (Bool-cases (leb t x)) [
  | inl e ↦ rw e ((ground arith, All-weaken t x xs (ground arith) h), (h, s))
  | inr e ↦ rw e (insert_time-All x t xs (ground arith) h, insert_time-IsSorted t xs s)
]

sort_times-IsSorted : (xs : List ℕ) → IsSorted (sort_times xs)
unfolding sort_times
sort_times-IsSorted [] = tt
sort_times-IsSorted (x ∷ xs) = insert_time-IsSorted x (sort_times xs) (sort_times-IsSorted xs)

insert_time-count :
    (t x : ℕ) (xs : List ℕ)
    → (count_before t (insert_time x xs) ≡ count_before t (x ∷ xs))
      × (length (insert_time x xs) ≡ suc (length xs))
unfolding insert_time
insert_time-count t x [] = (refl, refl)
insert_time-count t x (y ∷ ys) = elim (Bool-cases (leb x y)) [
  | inl e ↦ rw e (refl, refl)
  | inr e ↦ let (c, l) = insert_time-count t x ys in rw e (omega arith, omega arith)
]

sort_times-count :
    (t : ℕ) (xs : List ℕ)
    → (count_before t (sort_times xs) ≡ count_before t xs) × (length (sort_times xs) ≡ length xs)
unfolding sort_times
sort_times-count t [] = (refl, refl)
sort_times-count t (x ∷ xs) =
    let (c, l) = sort_times-count t xs in
    let (c', l') = insert_time-count t x (sort_times xs) in (omega arith, omega arith)

All-get_or : (a : ℕ) (xs : List ℕ) (k : ℕ) → k < length xs → All (λ y. a ≤ y) xs → a ≤ get_or xs k 0
All-get_or a [] k l h = absurd (omega arith)
All-get_or a (x ∷ xs) zero l (h, hs) = h
All-get_or a (x ∷ xs) (suc k) l (h, hs) = All-get_or a xs k (omega arith) hs

-- In a sorted list all up to an element that is before a time are.
sorted_count :
    (t : ℕ) (xs : List ℕ) (k : ℕ)
    → IsSorted xs
    → k < length xs
    → get_or xs k 0 < t
    → suc k ≤ count_before t xs
sorted_count t [] k s l h = absurd (omega arith)
sorted_count t (x ∷ xs) zero s l h = ground arith
sorted_count t (x ∷ xs) (suc k) (a, s) l h =
    let r = sorted_count t xs k s (omega arith) h in
    let b = All-get_or x xs k (omega arith) a in
    let e : ltb x t ≡ true = ground arith in rw e (omega arith)

abbrev pub recent_times : Chain → List ℕ
recent_times c = map (λ e. e.time) (take median_time_span c)

-- A time past the median is past more than half of the last times.
median_time_past_lem :
    (e : Entry) (c : Chain) (t : ℕ)
    → median_time_past (e ∷ c) < t
    → length (recent_times (e ∷ c)) < 2 * count_before t (recent_times (e ∷ c))
unfolding median_time_past
median_time_past_lem e c t h =
    let times = recent_times (e ∷ c) in
    let (n, l) = sort_times-count t times in
    let k = length (sort_times times) / 2 in
    let r = sorted_count t (sort_times times) k (sort_times-IsSorted times) (omega arith) h in
    omega arith

all_final-All :
    (best now : ℤ) (height time : ℕ) (txs : List Transaction)
    → all_final best now height time txs ≡ true
    → All (λ tx. is_final best now tx (pos height) (pos time) ≡ true) txs
unfolding all_final
all_final-All best now height time [] h = tt
all_final-All best now height time (tx ∷ txs) h =
    elim (Bool-cases (is_final best now tx (pos height) (pos time))) [
      | inl e ↦ (e, all_final-All best now height time txs (rw e at h))
      | inr e ↦ cc (rw e at h)
    ]

-- What a block has passed that `AcceptBlock` puts into the index behind a chain.
pub record IsFitting (host : Host) (now : ℤ) (b : Block) (c : Chain) : Type 0 where
  pub work_required : required_bits host c ≡ some b.header.bits
  pub after_most : length (recent_times c) < 2 * count_before b.header.time (recent_times c)
  pub final :
      All (λ tx. is_final (pos 0) now tx (pos (best_height c + 1)) (pos b.header.time) ≡ true) b.vtx
  pub at_checkpoint :
      (host.setting.test_net
        || not (breaks_checkpoint (best_height c + 1) (header_hash host.node.hashes b.header)))
      ≡ true

if-false : (b x : Bool) → (if b then false else x) ≡ true → (b ≡ false) × (x ≡ true)
if-false true x h = cc
if-false false x h = (refl, h)

fits_bits-IsFitting :
    (host : Host) (now : ℤ) (b : Block) (e : Entry) (c : Chain) (r : Option ℕ)
    → required_bits host (e ∷ c) ≡ r
    → fits_bits host now b (e ∷ c) (header_hash host.node.hashes b.header) r ≡ true
    → IsFitting host now b (e ∷ c)
unfolding fits_bits
fits_bits-IsFitting host now b e c none q h = cc h
fits_bits-IsFitting host now b e c (some bits) q h =
    let height = best_height (e ∷ c) + 1 in
    let (same, h1) = if-false (not (b.header.bits == bits)) _ h in
    let (late, h2) = if-false (leb b.header.time (median_time_past (e ∷ c))) _ h1 in
    let (final, h3) = if-false (not (all_final (pos 0) now height b.header.time b.vtx)) _ h2 in
    let equal : bits ≡ b.header.bits = ground arith in
    record {
      work_required = q ∙ ap some equal;
      after_most = median_time_past_lem e c b.header.time (ground arith);
      final = all_final-All (pos 0) now height b.header.time b.vtx (not_false _ final);
      at_checkpoint = h3;
    }

accept_at-IsFitting :
    (host : Host) (now : ℤ) (written : Option (ℕ × ℕ)) (b : Block) (e : Entry) (c : Chain)
    (g g' : Globals) (o : Option Chain)
    → accept_at host now written b g o (some (e ∷ c)) ≡ (true, g')
    → IsFitting host now b (e ∷ c) × (o ≡ none)
unfolding accept_at
accept_at-IsFitting host now written b e c g g' (some d) h = cc (ap (λ z. z.0) h)
accept_at-IsFitting host now written b e c g g' none h =
    elim (Bool-cases (
      fits_bits host now b (e ∷ c) (header_hash host.node.hashes b.header)
        (required_bits host (e ∷ c)))) [
          | inr f ↦ cc (ap (λ z. z.0) (rw f at h))
          | inl f ↦ (fits_bits-IsFitting host now b e c _ refl f, refl)
        ]

-- Where `AcceptBlock` returns true for a block whose predecessor is in the index, the block is new, it
-- has the bits that `GetNextWorkRequired` asks for, its time is past that of more than half of the last
-- 11 blocks, all its transactions are final, and it is the known block at a checkpoint.
pub accept_block-IsFitting :
    (host : Host) (now : ℤ) (written : Option (ℕ × ℕ)) (b : Block) (e : Entry) (c : Chain)
    (g g' : Globals)
    → g.index b.header.hash_prev_block ≡ some (e ∷ c)
    → accept_block host now written b g ≡ (true, g')
    → IsFitting host now b (e ∷ c) × (g.index (header_hash host.node.hashes b.header) ≡ none)
unfolding accept_block
accept_block-IsFitting host now written b e c g g' q h =
    let known = g.index (header_hash host.node.hashes b.header) in
    accept_at-IsFitting host now written b e c g g' known
      (ap (accept_at host now written b g known) (sym q) ∙ h)
