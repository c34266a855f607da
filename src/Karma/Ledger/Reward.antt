-- ===== src/Karma/Ledger/Reward.antt =====
-- The reward of a generation: `Reward` of src/libranet/karma/ledger.py.
pub mod Shares
use libranet.Base.{
  ℕ, ◌+◌, ◌-◌, ◌*◌, ◌/◌, Bool, true, false, not, Option, none, some, List, [], ◌∷◌, ltb, leb, ◌==◌,
  if◌then◌else◌, nat_eq, option_eq, length, ◌>>=◌, ◌>>◌, guard, value_error, Result, ok,
}
use libranet.Base.Dict.{Dict, get_or, insert, member, add_key, add_count, total}
use libranet.Karma.Amounts.{kismet_of, Kismet}
use libranet.Karma.Balances.{Balance}
use libranet.Karma.Blocks.{
  total_kismet, payout_of, signed, SignedTransaction, Payout, TransactionBlock, SignedStake,
  ValidationBlock,
}
use libranet.Karma.Generations.{new_kismet}
use libranet.Karma.Ledger.Age.{effective, age_limit, effective_stakes}

-- `Reward`
pub record Reward : Type 0 where
  pub validation : ValidationBlock
  pub builder : ℕ
  pub block : TransactionBlock
  pub balances : Dict ℕ Balance
  pub runner_up : Option ValidationBlock

abbrev pub is_none : {A : Type 0} → Option A → Bool
is_none none = true
is_none (some a) = false

abbrev pub same_bool : Bool → Bool → Bool
same_bool true b = b
same_bool false b = not b

unfoldable pub of_generation : ℕ → Option ValidationBlock → Bool
of_generation generation none = true
of_generation generation (some v) = v.generation == generation

-- `Reward.__post_init__`
unfoldable pub reward_of : Reward → Result Reward
unfolding of_generation
reward_of r = do
  guard (ltb 0 (length r.validation.stakes)) value_error
  guard (r.block.generation == r.validation.generation) value_error
  guard (of_generation r.validation.generation r.runner_up) value_error
  guard (same_bool (is_none r.runner_up) (is_none r.validation.runner_up)) value_error
  ok r

-- The loop of `pot` over the fees of the block.
unfoldable pub add_fees : List SignedTransaction → Dict (Option ℕ) ℕ → Dict (Option ℕ) ℕ
add_fees [] given = given
add_fees (s ∷ rest) given =
    add_fees rest (add_count (some s.transaction.sender) s.transaction.fee.count given)

-- `{stake.staker for stake in self.validation.stakes}`
abbrev pub stakers_of : List SignedStake → List ℕ
stakers_of [] = []
stakers_of (s ∷ stakes) = add_key s.stake.staker (stakers_of stakes)

-- The loop of `pot` over the runner-up's stakes.
unfoldable pub add_stakes : List ℕ → List SignedStake → Dict (Option ℕ) ℕ → Dict (Option ℕ) ℕ
add_stakes winning [] given = given
add_stakes winning (s ∷ stakes) given = add_stakes winning stakes (
    if member s.stake.staker winning
    then given
    else add_count (some s.stake.staker) s.stake.kismet.count given)

unfoldable pub add_runner_up :
    List SignedStake → Option ValidationBlock → Dict (Option ℕ) ℕ → Dict (Option ℕ) ℕ
unfolding add_stakes
add_runner_up stakes none given = given
add_runner_up stakes (some v) given = add_stakes (stakers_of stakes) v.stakes given

-- `{source: Kismet(count) for source, count in counts.items() if count > 0}`
unfoldable pub amounts_of : {K : Type 0} → Dict K ℕ → Result (Dict K Kismet)
amounts_of [] = ok []
amounts_of ((k, count) ∷ counts) = do
  rest ← amounts_of counts
  amount ← kismet_of count
  ok (if ltb 0 count then (k, amount) ∷ rest else rest)

-- `Reward.pot`
unfoldable pub pot : Reward → Result (Dict (Option ℕ) Kismet)
pot r = do
  new ← new_kismet r.validation.generation
  amounts_of (
      add_runner_up r.validation.stakes r.runner_up
        (add_fees (signed r.block) ((none, new.count) ∷ [])))

-- `dict.fromkeys(stakes, 1)`
unfoldable pub ones : Dict ℕ ℕ → Dict ℕ ℕ
ones [] = []
ones ((k, n) ∷ d) = (k, 1) ∷ ones d

-- `{staker: pot * stake // total for staker, stake in stakes.items()}`, where `total` is not 0
unfoldable pub divided : ℕ → ℕ → Dict ℕ ℕ → Dict ℕ ℕ
divided pot_count all [] = []
divided pot_count all ((k, stake) ∷ d) = (k, pot_count * stake / all) ∷ divided pot_count all d

-- `sorted(counts.items())`: the keys differ, so they alone order it.
unfoldable pub insert_sorted : ℕ × ℕ → Dict ℕ ℕ → Dict ℕ ℕ
insert_sorted e [] = e ∷ []
insert_sorted e (f ∷ d) =
    let rest = insert_sorted e d in if leb e.0 f.0 then e ∷ f ∷ d else f ∷ rest

unfoldable pub sorted : Dict ℕ ℕ → Dict ℕ ℕ
unfolding insert_sorted
sorted [] = []
sorted (e ∷ d) = insert_sorted e (sorted d)

-- The stakes that divide the pot: the effective ones, or one each where those are 0 in all.
unfoldable pub dividing : Dict ℕ ℕ → Dict ℕ ℕ
unfolding ones
dividing stakes = if total stakes == 0 then ones stakes else stakes

-- What is left of the pot goes to the builder; `divided_le` shows that nothing is below 0.
unfoldable pub with_rest : ℕ → ℕ → Dict ℕ ℕ → Dict ℕ ℕ
with_rest pot_count builder counts =
    insert builder (get_or builder 0 counts + pot_count - total counts) counts

-- `Reward.shares`
unfoldable pub shares : Reward → Result (Dict ℕ Kismet)
unfolding with_rest sorted divided dividing
shares r = do
  effective ← effective_stakes r.validation r.balances r.block.age_limit
  amounts ← pot r
  let stakes = dividing effective
  let pot_count = total_kismet amounts
  amounts_of (sorted (with_rest pot_count r.builder (divided pot_count (total stakes) stakes)))

-- `Reward.payout`
unfoldable pub payout_for : Reward → Result Payout
payout_for r = do from ← pot r; to ← shares r; payout_of from to (r.validation.generation + 1)
