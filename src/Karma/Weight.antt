-- ===== src/Karma/Weight.antt =====
-- The weight of a chain, and the stake baseline: src/libranet/karma/weight.py.
pub mod Laws
use libranet.Base.{
  ℕ, ◌+◌, ◌-◌, ◌*◌, ◌/◌, ◌^◌, min, max, ltb, leb, ◌==◌, if◌then◌else◌, nat_eq, ceil_div, ◌>>=◌,
  ◌>>◌, value_error, Result, ok, err,
}
use libranet.Decimal.{Text, str}
use libranet.Json.{decimal_count, Json}
use libranet.Cas.Prefix.{matching_bits}

-- `COUNTED_BITS`, and `TARGET_BITS`, the bits of a hash
abbrev pub counted_bits : ℕ
counted_bits = 27

abbrev pub target_bits : ℕ
target_bits = 256

-- `ChainWeight`; a work that is not negative always makes one.
pub record ChainWeight : Type 0 where
  pub work : ℕ

-- `ChainWeight.of_bits`
unfoldable pub of_bits : ℕ → Result ChainWeight
of_bits bits =
    if leb bits target_bits
    then ok (record { work = 2 ^ min bits counted_bits })
    else err value_error

-- `ChainWeight.of_drop`, of the target's hash and the drop's
unfoldable pub of_drop : Text → Text → Result ChainWeight
of_drop target hash = of_bits (matching_bits target hash)

-- `ChainWeight.of_staked`, of a stake that is not negative
unfoldable pub of_staked : ℕ → ℕ → Result ChainWeight
of_staked bits stake = do weight ← of_bits bits; ok (record { work = weight.work * max stake 1 })

-- `ChainWeight.of_validation`
unfoldable pub of_validation : Text → Text → ℕ → Result ChainWeight
of_validation target hash stake = of_staked (matching_bits target hash) stake

-- `ChainWeight.from_value` and `ChainWeight.value`
unfoldable pub weight_from_value : Json → Result ChainWeight
weight_from_value json = do work ← decimal_count json; ok (record { work = work })

unfoldable pub weight_value : ChainWeight → Result Text
weight_value weight = str weight.work

-- `ChainWeight.__add__` and `ChainWeight.__sub__`
unfoldable pub add_weight : ChainWeight → ChainWeight → ChainWeight
add_weight a b = record { work = a.work + b.work }

unfoldable pub sub_weight : ChainWeight → ChainWeight → Result ChainWeight
sub_weight a b =
    if ltb a.work b.work then err value_error else ok (record { work = a.work - b.work })

-- `STAKE_BASELINE_MULTIPLE`, `STAKE_BASELINE_GENERATIONS`, `STAKE_BASELINE_FALL_GENERATIONS`,
-- `_WINDOW_DIVISOR`
abbrev pub stake_baseline_multiple : ℕ
stake_baseline_multiple = 2

abbrev pub stake_baseline_generations : ℕ
stake_baseline_generations = 1000

abbrev pub stake_baseline_fall_generations : ℕ
stake_baseline_fall_generations = 4

abbrev pub window_divisor : ℕ
window_divisor = 4

-- `StakeBaseline`
pub record StakeBaseline : Type 0 where
  pub stake : ℕ

-- `StakeBaseline.from_value` and `StakeBaseline.value`
unfoldable pub baseline_from_value : Json → Result StakeBaseline
baseline_from_value json = do stake ← decimal_count json; ok (record { stake = stake })

unfoldable pub baseline_value : StakeBaseline → Result Text
baseline_value baseline = str baseline.stake

-- `StakeBaseline.counted`
unfoldable pub counted : StakeBaseline → ℕ → ℕ
counted baseline total =
    if baseline.stake == 0 then total else min total (stake_baseline_multiple * baseline.stake)

-- The window of `StakeBaseline.after`, which is longer where what was counted is below the baseline.
unfoldable pub window : StakeBaseline → ℕ → ℕ → ℕ
window baseline total generation =
    let span = min stake_baseline_generations (generation / window_divisor + 1) in
    if ltb total baseline.stake then max span stake_baseline_fall_generations else span

-- `self.stake + (counted - self.stake) // window`: Python rounds a negative quotient down.
unfoldable pub moved_toward : ℕ → ℕ → ℕ → ℕ
moved_toward stake total span =
    if ltb total stake
    then stake - ceil_div (stake - total) span
    else stake + (total - stake) / span

-- `StakeBaseline.after`
unfoldable pub after : StakeBaseline → ℕ → ℕ → StakeBaseline
after baseline total generation =
    let count = counted baseline total in
    if baseline.stake == 0
    then record { stake = count }
    else record { stake = moved_toward baseline.stake count (window baseline count generation) }
