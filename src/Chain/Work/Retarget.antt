-- ===== src/Chain/Work/Retarget.antt =====
-- src/main.cpp: what `GetNextWorkRequired` returns.
use ixcoin.Common.{ℕ, ◌*◌, ◌/◌, ◌%◌, ◌^◌, ◌≤◌, ◌<◌, ◌≡◌, true, ltb, ◌==◌, if◌then◌else◌}
use ixcoin.Common.Int.{ℤ, pos, ◌≤ℤ◌}
use ixcoin.Chain.Work.{max_target, target_timespan, interval, steps_back}

-- The time between two changes of the target, in seconds, how many blocks the rule goes back at the height
-- of the new block, and the heights at which it applies: each 2016 blocks, and each 144 above 20055.
pub data IsPeriod (height back timespan : ℕ) : Type 0 where
  fortnight :
      height ≤ 20_055
      → height % 2_016 ≡ 0
      → back ≡ 2_015
      → timespan ≡ 1_209_600
      → IsPeriod height back timespan
  day :
      20_055 < height
      → height < 43_000
      → height % 144 ≡ 0
      → back ≡ 143
      → timespan ≡ 86_400
      → IsPeriod height back timespan
  whole_day :
      43_000 ≤ height
      → height % 144 ≡ 0
      → back ≡ 144
      → timespan ≡ 86_400
      → IsPeriod height back timespan

-- The seconds that the rule counts for the seconds that have passed: between a quarter of a fortnight and
-- four of them up to the height 20055; above it one of three numbers for less than a day, and at most
-- four days.
pub data IsSpan (height : ℕ) (passed : ℤ) (span : ℕ) : Type 0 where
  short : height ≤ 20_055 → passed ≤ℤ pos 302_399 → span ≡ 302_400 → IsSpan height passed span
  between :
      height ≤ 20_055
      → 302_400 ≤ span
      → span ≤ 4_838_400
      → passed ≡ pos span
      → IsSpan height passed span
  long : height ≤ 20_055 → pos 4_838_401 ≤ℤ passed → span ≡ 4_838_400 → IsSpan height passed span
  fastest : 20_055 < height → passed ≤ℤ pos 27_647 → span ≡ 77_760 → IsSpan height passed span
  faster :
      20_055 < height
      → pos 27_648 ≤ℤ passed
      → passed ≤ℤ pos 55_295
      → span ≡ 81_216
      → IsSpan height passed span
  fast :
      20_055 < height
      → pos 55_296 ≤ℤ passed
      → passed ≤ℤ pos 86_399
      → span ≡ 84_672
      → IsSpan height passed span
  slow :
      20_055 < height
      → 86_400 ≤ span
      → span ≤ 345_600
      → passed ≡ pos span
      → IsSpan height passed span
  slowest : 20_055 < height → pos 345_601 ≤ℤ passed → span ≡ 345_600 → IsSpan height passed span

-- The numbers of the rule at a height where it applies.
pub record IsDue (height back timespan : ℕ) : Type 0 where
  pub due : (height % interval height == 0) ≡ true
  pub goes_back : steps_back height ≡ back
  pub lasts : target_timespan height ≡ timespan
  pub reaches : back < height
  pub is_long : 0 < timespan
  pub is_short : timespan < 2 ^ 63

-- The target that the rule makes of a target and a time span.
abbrev pub scaled : ℕ → ℕ → ℕ → ℕ
scaled target span timespan =
    if ltb max_target (target * span / timespan) then max_target else target * span / timespan
