-- ===== src/Chain/Work.antt =====
-- src/main.cpp: the work that the next block has to show, and the test of a hash against it.
pub mod Retarget
pub mod Proof
use ixcoin.Common.{
  ℕ, zero, suc, ◌+◌, ◌-◌, ◌*◌, ◌/◌, ◌%◌, ◌^◌, List, [], ◌∷◌, Bool, true, false, ◌&&◌, not, ltb, leb,
  ◌==◌, if◌then◌else◌, length, Option, none, some,
}
use ixcoin.Common.Int.{ℤ, pos, ◌-ℤ◌, ltb_ℤ}
use ixcoin.Bignum.{set_compact, get_compact, set_int64, set_uint256, of_int, get_uint256}
use ixcoin.Bignum.OpenSsl.{BnLib}
use ixcoin.Common.{◌>>=◌}

-- What the rule reads of a `CBlockIndex`. A chain is the list from its last block back to the first,
-- so `nHeight` of the last one is the length less 1.
pub record BlockIndex : Type 0 where
  pub time : ℕ
  pub bits : ℕ

-- `~uint256(0) >> 32`
abbrev pub max_target : ℕ
max_target = 2 ^ 224 - 1

unfoldable pub proof_of_work_limit : BnLib → ℤ
proof_of_work_limit bn = set_uint256 bn max_target

-- `nTargetTimespan` and `nInterval`, for the height of the new block: two weeks, and a day after 20055.
unfoldable pub is_revised : ℕ → Bool
is_revised height = ltb 20_055 height

unfoldable pub target_timespan : ℕ → ℕ
target_timespan height = if is_revised height then 24 * 60 * 60 else 14 * 24 * 60 * 60

abbrev pub target_spacing : ℕ
target_spacing = 10 * 60

unfoldable pub interval : ℕ → ℕ
interval height = target_timespan height / target_spacing

-- `blockstogoback`
unfoldable pub steps_back : ℕ → ℕ
steps_back height =
    if leb 43_000 height && not (height == interval height)
    then interval height
    else interval height - 1

-- `none` where the assertion on `pindexFirst` fails.
unfoldable pub go_back : ℕ → List BlockIndex → Option BlockIndex
go_back n [] = none
go_back zero (b ∷ _) = some b
go_back (suc n) (_ ∷ c) = go_back n c

-- The limits on `nActualTimespan`.
unfoldable pub limit_normal : ℕ → ℤ → ℤ
limit_normal t actual =
    let low = if ltb_ℤ actual (pos (t / 4)) then pos (t / 4) else actual in
    if ltb_ℤ (pos (t * 4)) low then pos (t * 4) else low

unfoldable pub limit_revised : ℕ → ℤ → ℤ
limit_revised t actual =
    let two_percent = t / 50 in
    if ltb_ℤ actual (pos t)
    then if ltb_ℤ actual (pos (two_percent * 16))
      then pos (two_percent * 45)
      else if ltb_ℤ actual (pos (two_percent * 32))
      then pos (two_percent * 47)
      else pos (two_percent * 49)
    else if ltb_ℤ (pos (t * 4)) actual
    then pos (t * 4)
    else actual

unfoldable pub limit_timespan : ℕ → ℤ → ℤ
limit_timespan height actual =
    if is_revised height
    then limit_revised (target_timespan height) actual
    else limit_normal (target_timespan height) actual

module _ (bn : BnLib) where
  -- The new target; `none` is the exception of a division by zero.
  unfoldable pub retarget : ℕ → ℕ → ℤ → Option ℤ
  retarget bits t actual = do
    q ← bn.div (bn.mul (set_compact bn bits) (set_int64 bn actual)) (set_int64 bn (pos t))
    some (if bn.below (proof_of_work_limit bn) q then proof_of_work_limit bn else q)

  -- The branch of `GetNextWorkRequired` that changes the target, for the height of the new block.
  unfoldable pub next_target : ℕ → BlockIndex → List BlockIndex → Option ℕ
  next_target height last chain = do
    first ← go_back (steps_back height) (last ∷ chain)
    target ←
        retarget last.bits (target_timespan height)
          (limit_timespan height (pos last.time -ℤ pos first.time))
    some (get_compact bn target)

  -- `GetNextWorkRequired`; `none` on the empty chain too, where the source reads through a null pointer.
  unfoldable pub get_next_work_required : List BlockIndex → Option ℕ
  get_next_work_required [] = none
  get_next_work_required (last ∷ chain) =
      let height = suc (length chain) in
      if not (height % interval height == 0) then some last.bits else next_target height last chain

  -- `CheckProofOfWork` of a hash
  unfoldable pub check_proof_of_work : ℕ → ℕ → Bool
  check_proof_of_work hash bits =
      let target = set_compact bn bits in
      if not (bn.below (of_int bn (pos 0)) target)
      then false
      else if bn.below (proof_of_work_limit bn) target
      then false
      else if ltb (get_uint256 bn target) hash
      then false
      else true
