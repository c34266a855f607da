-- ===== src/Karma/Ledger/Age.antt =====
-- How long a staker's stakes count for: `StakeAge` of src/libranet/karma/ledger.py.
use libranet.Base.{
  ℕ, ◌+◌, ◌-◌, ◌*◌, ◌/◌, min, max, Option, none, some, List, [], ◌∷◌, ltb, if◌then◌else◌, nat_eq,
  ◌>>=◌, value_error, Result, ok, err,
}
use libranet.Base.Dict.{Dict, add_count}
use libranet.Karma.Balances.{generation_parts, balance, LastWon, Balance}
use libranet.Karma.Blocks.{SignedStake, ValidationBlock}

-- `AGE_LIMIT_FLOOR`, `AGE_LIMIT_FACTOR`, `STAKES_PER_BLOCK`
abbrev pub age_limit_floor : ℕ
age_limit_floor = 10

abbrev pub age_limit_factor : ℕ
age_limit_factor = 100

abbrev pub stakes_per_block : ℕ
stakes_per_block = 5000

-- `StakeAge`
pub record StakeAge : Type 0 where
  pub thousandths : ℕ

-- `StakeAge.of`, of a balance that last won at `won`; `LastWon.since` is below a generation also
-- where it is below 0.
unfoldable pub age_since : LastWon → ℕ → ℕ → Result StakeAge
age_since won generation limit =
    if ltb (generation * generation_parts) (won.thousandths + generation_parts)
    then err value_error
    else ok (record {
      thousandths =
          min (generation * generation_parts - won.thousandths) (limit * generation_parts);
    })

unfoldable pub age_of_won : Option LastWon → ℕ → ℕ → Result StakeAge
unfolding age_since
age_of_won none generation limit = ok (record { thousandths = 0 })
age_of_won (some won) generation limit = age_since won generation limit

unfoldable pub age_of : Balance → ℕ → ℕ → Result StakeAge
unfolding age_of_won
age_of b generation limit = age_of_won b.last_won generation limit

-- `StakeAge.effective`
unfoldable pub effective : StakeAge → ℕ → ℕ
effective age kismet = kismet * age.thousandths / generation_parts

-- `StakeAge.limit`
unfoldable pub age_limit : ℕ → ℕ
age_limit holding = max age_limit_floor (age_limit_factor * holding / stakes_per_block)

-- The first loop of `StakeAge.effective_stakes`: what each staker stakes, in all.
unfoldable pub staked_by : List SignedStake → Dict ℕ ℕ → Dict ℕ ℕ
staked_by [] staked = staked
staked_by (s ∷ stakes) staked =
    staked_by stakes (add_count s.stake.staker s.stake.kismet.count staked)

-- Its second: each count at its staker's age.
unfoldable pub aged : ℕ → Dict ℕ Balance → ℕ → Dict ℕ ℕ → Result (Dict ℕ ℕ)
unfolding effective balance age_of
aged generation balances limit [] = ok []
aged generation balances limit ((staker, count) ∷ staked) = do
  age ← age_of (balance balances staker) generation limit
  rest ← aged generation balances limit staked
  ok ((staker, effective age count) ∷ rest)

-- `StakeAge.effective_stakes`
unfoldable pub effective_stakes : ValidationBlock → Dict ℕ Balance → ℕ → Result (Dict ℕ ℕ)
unfolding staked_by aged
effective_stakes validation balances limit =
    aged validation.generation balances limit (staked_by validation.stakes [])
