-- ===== src/Tests/Ledger.antt =====
-- The ledger's theorems at a small block: src/libranet/karma/.
use libranet.Base.{
  ℕ, ◌+◌, ◌*◌, ◌≤◌, ◌<◌, ◌≡◌, refl, Option, none, some, List, [], ◌∷◌, arith, nat_eq, option_eq,
  ceil_div, ok,
}
use libranet.Base.Dict.{Dict}
use libranet.Karma.Amounts.{kismet_of, add, sub, Kismet}
use libranet.Karma.Balances.{
  last_won_of, rounded_up, moved, balance_of, sent, won_after, received, Balance,
}
use libranet.Karma.Blocks.{
  sum_kismet, total_kismet, sends, payout_of, signed_of, signed, payout_in, payout, add_keys,
  add_sources, named_signed, named_payout, named, SignedTransaction, Payout, TransactionBlock,
  SignedStake, signed_entry, payout_entry,
}
use libranet.Karma.Blocks.Bounds.Fullest.{Found, fullest_finds, Fits, fullest-Fits}
use libranet.Karma.Blocks.Bounds.{search, fullest, BlockBounds}
use libranet.Karma.Staking.{covering, taken, staked_of, taken_within, StakeCover}
use libranet.Karma.Generations.{new_kismet, issued}
use libranet.Karma.Ledger.Sheet.{
  held_before, held_at, take_sources, paid_to, pay_all, apply_payout, paid, sending_of,
  overspent_of, add_amount, receive_all, move_one, moved_from, leave, sheet_of, BalanceSheet,
}
use libranet.Karma.Ledger.Sheet.Transactions.{held_total, sheet_of_total}
use libranet.Karma.Ledger.Sheet.Payouts.{issued_by, IsPayout, sheet_of_issues}
use libranet.Karma.Ledger.Reward.{
  add_fees, add_runner_up, amounts_of, pot, shares, payout_for, Reward,
}
use libranet.Karma.Ledger.Reward.Shares.{
  shares_total, payout_for_total, fees_of, losing_in, pot_total,
}
use libranet.Karma.Ledger.Reach.Least.{reach_covers, reach_least}
use libranet.Karma.Ledger.Reach.{scan, reach_from, reach_of, latest}

abbrev kismet : ℕ → Kismet
kismet n = record { count = n }

abbrev holding : ℕ → ℕ → Balance
holding n won = record { kismet = kismet n; last_won = some (record { thousandths = won }) }

-- Identity 1 sends 10 to identity 2 and pays a fee of 3; identity 4 sends more than it holds.
abbrev sending_ten : SignedTransaction
sending_ten = record {
  transaction = record {
    sender = 1;
    to = (2, kismet 10) ∷ [];
    fee = kismet 3;
    generation = 1;
    created = 60;
    nonce = [];
  };
  hash = 11;
}

abbrev overspending : SignedTransaction
overspending = record {
  transaction = record {
    sender = 4;
    to = (1, kismet 90) ∷ [];
    fee = kismet 0;
    generation = 1;
    created = 61;
    nonce = [];
  };
  hash = 12;
}

abbrev first_payout : Payout
first_payout = record {
  sources = (none, kismet 50) ∷ (some 2, kismet 5) ∷ [];
  to = (3, kismet 55) ∷ [];
  generation = 1;
}

abbrev first_block : TransactionBlock
first_block = record {
  generation = 1;
  previous = some 7;
  weight = record { work = 0 };
  reach = 0;
  transactions =
      payout_entry first_payout ∷ signed_entry sending_ten ∷ signed_entry overspending ∷ [];
  balances = [];
  age_limit = 10;
  stake_baseline = record { stake = 0 };
}

abbrev held_first : Dict ℕ Balance
held_first = (1, holding 100 0) ∷ (2, holding 20 0) ∷ (4, holding 8 0) ∷ []

abbrev first_sheet : BalanceSheet
first_sheet = record {
  block = first_block;
  before = held_first;
  checked = (3, holding 55 0) ∷ (4, holding 8 0) ∷ (2, holding 15 0) ∷ (1, holding 100 0) ∷ [];
  after = (3, holding 55 0) ∷ (4, holding 8 0) ∷ (2, holding 25 0) ∷ (1, holding 90 0) ∷ [];
  overspent = 4 ∷ [];
}

first_sheet_of : sheet_of first_block held_first (3 ∷ []) ≡ ok first_sheet
unfolding sheet_of libranet.Karma.Ledger.Sheet.paid libranet.Karma.Ledger.Sheet.apply_payout payout
    libranet.Karma.Blocks.payout_in libranet.Karma.Ledger.Sheet.take_sources
    libranet.Karma.Ledger.Sheet.held_at held_before named libranet.Karma.Blocks.named_payout
    libranet.Karma.Blocks.add_keys libranet.Karma.Blocks.add_sources
    libranet.Karma.Blocks.named_signed libranet.Karma.Blocks.signed libranet.Karma.Blocks.signed_of
    libranet.Karma.Balances.sent libranet.Karma.Ledger.Sheet.pay_all libranet.Karma.Amounts.add
    libranet.Base.ceil_div libranet.Karma.Amounts.kismet_of libranet.Karma.Amounts.sub
    libranet.Karma.Balances.balance_of libranet.Karma.Balances.last_won_of
    libranet.Karma.Balances.moved libranet.Karma.Balances.received
    libranet.Karma.Balances.rounded_up libranet.Karma.Balances.won_after libranet.Karma.Blocks.sends
    libranet.Karma.Blocks.sum_kismet libranet.Karma.Ledger.Sheet.add_amount
    libranet.Karma.Ledger.Sheet.leave libranet.Karma.Ledger.Sheet.move_one
    libranet.Karma.Ledger.Sheet.moved_from libranet.Karma.Ledger.Sheet.overspent_of
    libranet.Karma.Ledger.Sheet.paid_to libranet.Karma.Ledger.Sheet.receive_all
    libranet.Karma.Ledger.Sheet.sending_of
first_sheet_of = refl

sheet_of_total_example : held_total first_sheet.after ≡ held_total first_sheet.checked
sheet_of_total_example = sheet_of_total first_block held_first (3 ∷ []) first_sheet first_sheet_of

first_payout_of : IsPayout (payout first_block)
unfolding payout_of payout libranet.Karma.Blocks.payout_in libranet.Karma.Amounts.add
first_payout_of = refl

sheet_of_issues_example :
    held_total first_sheet.after
    ≡ held_total (held_before held_first (named first_block)) + issued_by (payout first_block)
sheet_of_issues_example =
    sheet_of_issues first_block held_first (3 ∷ []) first_sheet first_payout_of first_sheet_of

-- A stake of identity 1's on the block, and one of identity 2's on its runner-up.
abbrev stake_of : ℕ → ℕ → ℕ → SignedStake
stake_of staker n hash = record {
  stake = record { staker = staker; transaction_block = 5; kismet = kismet n; created = 70 };
  hash = hash;
}

abbrev first_reward : Reward
first_reward = record {
  validation = record {
    generation = 1;
    runner_up = some 9;
    stakes = stake_of 1 40 21 ∷ stake_of 3 7 22 ∷ [];
    witnessed = [];
  };
  builder = 3;
  block = first_block;
  balances = (1, holding 90 0) ∷ (3, holding 55 0) ∷ (2, holding 25 0) ∷ [];
  runner_up =
      some (record {
        generation = 1;
        runner_up = none;
        stakes = stake_of 2 6 23 ∷ [];
        witnessed = [];
      });
}

abbrev first_pot : Dict (Option ℕ) Kismet
first_pot = (none, kismet 1999999999999800) ∷ (some 1, kismet 3) ∷ (some 2, kismet 6) ∷ []

abbrev first_shares : Dict ℕ Kismet
first_shares = (1, kismet 1702127659574305) ∷ (3, kismet 297872340425504) ∷ []

first_pot_of : pot first_reward ≡ ok first_pot
unfolding pot libranet.Karma.Generations.new_kismet libranet.Karma.Ledger.Reward.amounts_of
    libranet.Karma.Ledger.Reward.add_runner_up libranet.Karma.Ledger.Reward.add_fees signed
    signed_of
first_pot_of = refl

first_shares_of : shares first_reward ≡ ok first_shares
unfolding shares libranet.Karma.Ledger.Age.effective_stakes pot
    libranet.Karma.Generations.new_kismet libranet.Karma.Ledger.Reward.amounts_of
    libranet.Karma.Ledger.Reward.add_runner_up libranet.Karma.Ledger.Reward.add_fees signed
    signed_of
first_shares_of = refl

shares_total_example : total_kismet first_shares ≡ total_kismet first_pot
shares_total_example = shares_total first_reward first_pot first_shares first_pot_of first_shares_of

payout_for_total_example :
    payout_for first_reward ≡ ok (record { sources = first_pot; to = first_shares; generation = 2 })
payout_for_total_example =
    payout_for_total first_reward first_pot first_shares first_pot_of first_shares_of (omega arith)

pot_total_case :
    total_kismet first_pot
    ≡ issued 1
      + fees_of (signed first_block)
      + losing_in first_reward.validation.stakes first_reward.runner_up
pot_total_case = pot_total first_reward first_pot first_pot_of

-- Identity 1's latest balance is two blocks back; identity 2's holds nothing.
abbrev stated : List (Dict ℕ Balance)
stated =
    ((2, record { kismet = kismet 0; last_won = none }) ∷ [])
    ∷ []
    ∷ ((1, holding 9 0) ∷ (2, holding 5 0) ∷ [])
    ∷ ((2, holding 7 0) ∷ [])
    ∷ []

stated-latest : latest 0 1 stated ≡ some (2, holding 9 0)
unfolding latest
stated-latest = refl

stated_reach : 0 < reach_of stated
unfolding reach_of reach_from scan
stated_reach = omega arith

reach_covers_example : 2 ≤ reach_of stated
reach_covers_example = reach_covers 1 2 stated (holding 9 0) stated-latest (omega arith)

reach_least_example :
    (i : ℕ) × (b : Balance) × (latest 0 i stated ≡ some (reach_of stated, b)) × (0 < b.kismet.count)
reach_least_example = reach_least stated stated_reach

-- A drop of `n` entries measures 100 bytes and 30 for each.
abbrev bounds : BlockBounds
bounds = record { most_bytes = 1000; room_bytes = 100; transaction_bits = 24; holder_bytes = 8 }

abbrev entries_bytes : ℕ → ℕ
entries_bytes n = 100 + 30 * n

fullest_thirty : fullest bounds entries_bytes 40 0 ≡ some (30, 1000)
unfolding fullest search
fullest_thirty = refl

fullest_finds_example : Found entries_bytes 1000 40 25 (fullest bounds entries_bytes 40 0)
fullest_finds_example =
    fullest_finds bounds entries_bytes 40 0 25 (λ a c l. omega arith) (omega arith) (omega arith)
      (omega arith)

fullest-Fits_case : Fits entries_bytes 1000 0 40 (30, 1000)
fullest-Fits_case = fullest-Fits bounds entries_bytes 40 0 (30, 1000) fullest_thirty

abbrev cover : StakeCover
cover = record { validated = first_block; balances = (1, holding 90 0) ∷ (3, holding 55 0) ∷ [] }

abbrev offered : List SignedStake
offered = stake_of 1 40 24 ∷ stake_of 1 50 21 ∷ stake_of 3 7 22 ∷ stake_of 1 30 23 ∷ []

taken_three : taken cover offered ≡ ok (stake_of 1 50 21 ∷ stake_of 3 7 22 ∷ stake_of 1 30 23 ∷ [])
unfolding taken held_at signed signed_of kismet_of
taken_three = refl

covering_one : covering cover 1 ≡ ok (kismet 87)
unfolding covering held_at signed signed_of kismet_of
covering_one = refl

taken_within_example : staked_of 1 (stake_of 1 50 21 ∷ stake_of 3 7 22 ∷ stake_of 1 30 23 ∷ []) ≤ 87
taken_within_example =
    taken_within cover offered (stake_of 1 50 21 ∷ stake_of 3 7 22 ∷ stake_of 1 30 23 ∷ []) 1
      (kismet 87) taken_three covering_one
