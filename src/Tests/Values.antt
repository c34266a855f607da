-- ===== src/Tests/Values.antt =====
-- The theorems on amounts, balances, weights, payments and hashes at small inputs.
use libranet.Base.{
  ℕ, ◌+◌, ◌*◌, ◌/◌, ◌^◌, ◌≤◌, ◌<◌, min, ◌≡◌, refl, ◌↔◌, true, false, none, some, [], ◌∷◌, arith,
  nat_eq, ceil_div, value_error, ok, err,
}
use libranet.Base.Dict.{get_or}
use libranet.Decimal.{Text, str, int, is_decimal}
use libranet.Json.{decimal_count, Json, string, members, done, member_of}
use libranet.Cas.Prefix.{matching_bits}
use libranet.Cas.Prefix.Bits.{hash_bits, shared, matching_bits-eq-shared}
use libranet.Karma.Amounts.{max_kismet, zero_kismet, from_value, value, IsAmount, Kismet}
use libranet.Karma.Amounts.Laws.{value-from_value}
use libranet.Karma.Balances.{
  generation_parts, rounded_up, moved, sent, won_after, received, LastWon, Balance, IsBalance,
  nonneg,
}
use libranet.Karma.Balances.Laws.{sent_keeps, sent_raises, received_keeps, IsMean, received_between}
use libranet.Karma.Balances.Written.{
  last_won_value, kismet_member, last_won_member, balance_from_value, written_last_won,
  balance_value,
}
use libranet.Karma.Balances.Written.RoundTrip.{balance-from_value-value}
use libranet.Karma.Blocks.{Transaction}
use libranet.Karma.Generations.{issued_below, issued_below_all}
use libranet.Karma.Weight.{
  stake_baseline_generations, window_divisor, counted, after, StakeBaseline,
}
use libranet.Karma.Weight.Laws.{after_fall, after_rise, after_fall_over}
use libranet.Karma.Payments.{due, due_at, next_created, made, PaymentQueue}
use libranet.Karma.Payments.Laws.{due_at-due, due_at-before, queued_for, made_pays}

abbrev kismet : ℕ → Kismet
kismet n = record { count = n }

abbrev thousandths_of : ℕ → LastWon
thousandths_of n = record { thousandths = n }

abbrev holding : ℕ → ℕ → Balance
holding n won = record { kismet = kismet n; last_won = some (thousandths_of won) }

holding_three : IsBalance (holding 3 1000)
holding_three = record { amount = omega arith; holds = (λ h. absurd (omega arith)) }

holding_seven : IsBalance (holding 7 3286)
holding_seven = record { amount = omega arith; holds = (λ h. absurd (omega arith)) }

received_mean : received (holding 3 1000) (kismet 4) (nonneg 5) ≡ ok (holding 7 3286)
unfolding received libranet.Karma.Balances.won_after libranet.Karma.Balances.moved
    libranet.Karma.Balances.rounded_up libranet.Base.ceil_div
received_mean = refl

received_between_case :
    (w : LastWon) × (some (thousandths_of 3286) ≡ some w)
    × IsMean 3 1000 4 (5 * generation_parts) w.thousandths
    × (1000 ≤ w.thousandths)
    × (w.thousandths ≤ 5 * generation_parts)
received_between_case =
    received_between (holding 3 1000) (holding 7 3286) (kismet 4) 5 {won = thousandths_of 1000}
      holding_three refl (omega arith) received_mean

received_keeps_case : IsBalance (holding 7 3286) × (7 ≡ 3 + 4)
received_keeps_case =
    received_keeps (holding 3 1000) (holding 7 3286) (kismet 4) (nonneg 5) holding_three
      received_mean

sent_two : sent (holding 3 1000) (kismet 2) ≡ ok (holding 1 1000)
unfolding sent
sent_two = refl

sent_keeps_case :
    IsBalance (holding 1 1000)
    × (1 + 2 ≡ 3)
    × (some (thousandths_of 1000) ≡ some (thousandths_of 1000))
sent_keeps_case = sent_keeps (holding 3 1000) (holding 1 1000) (kismet 2) holding_three sent_two

sent_raises_case : (sent (holding 3 1000) (kismet 4) ≡ err value_error) ↔ (3 < 4)
sent_raises_case = sent_raises (holding 3 1000) (kismet 4) holding_three

abbrev written_balance : Json
written_balance = members (
    member_of kismet_member (string (55 ∷ []))
      (member_of last_won_member (string (51 ∷ 46 ∷ 50 ∷ 56 ∷ 54 ∷ [])) done))

balance_written : balance_value (holding 7 3286) ≡ ok written_balance
unfolding balance_value from_value libranet.Json.decimal_count libranet.Decimal.is_decimal
    libranet.Decimal.int value libranet.Decimal.str libranet.Karma.Balances.Written.written_last_won
    libranet.Karma.Balances.Written.last_won_value libranet.Karma.Balances.Written.places_of
balance_written = refl

balance-from_value-value_example : balance_from_value written_balance ≡ ok (holding 7 3286)
balance-from_value-value_example =
    balance-from_value-value (holding 7 3286) written_balance holding_seven balance_written

amount_read : from_value (string (52 ∷ 50 ∷ [])) ≡ ok (kismet 42)
unfolding from_value decimal_count is_decimal int
amount_read = refl

value-from_value_example :
    IsAmount (kismet 42)
    × ((s : Text) × (string (52 ∷ 50 ∷ []) ≡ string s) × (value (kismet 42) ≡ ok s))
value-from_value_example = value-from_value (string (52 ∷ 50 ∷ [])) (kismet 42) amount_read

issued_below_all_example : issued_below (10 ^ 13) ≡ ok (max_kismet + 10 ^ 15)
issued_below_all_example = issued_below_all (10 ^ 13) (omega arith)

abbrev baseline : StakeBaseline
baseline = record { stake = 101 }

after_fall_case :
    (4 * 101 ≤ 4 * (after baseline 50 1).stake + 101 + 3)
    × (101 ≤ counted baseline 50 → 101 ≤ (after baseline 50 1).stake)
after_fall_case = after_fall baseline 50 1

after_rise_case :
    (after baseline 500 20).stake
    ≤ 101 + 101 / min stake_baseline_generations (20 / window_divisor + 1)
after_rise_case = after_rise baseline 500 20 (omega arith)

after_fall_over_example : 4 * (after baseline 0 3).stake < 3 * 101
after_fall_over_example = after_fall_over baseline 3 (omega arith) (omega arith)

-- "8f" and "9f" share 3 bits.
matching_bits-eq-shared_example :
    matching_bits (56 ∷ 102 ∷ []) (57 ∷ 102 ∷ [])
    ≡ shared (hash_bits (56 ∷ 102 ∷ [])) (hash_bits (57 ∷ 102 ∷ []))
matching_bits-eq-shared_example =
    matching_bits-eq-shared (56 ∷ 102 ∷ []) (57 ∷ 102 ∷ []) (refl, (refl, tt)) (refl, (refl, tt))

matching_bits_three : matching_bits (56 ∷ 102 ∷ []) (57 ∷ 102 ∷ []) ≡ 3
unfolding matching_bits
matching_bits_three = refl

abbrev queue : PaymentQueue
queue = record {
  payments =
      record { recipient = 2; amount = kismet 5 }
      ∷ record { recipient = 3; amount = kismet 1 }
      ∷ record { recipient = 2; amount = kismet 4 }
      ∷ [];
  last_created = some 1000;
  transaction = none;
}

abbrev made_transaction : Transaction
made_transaction = record {
  sender = 1;
  to = (2, kismet 9) ∷ (3, kismet 1) ∷ [];
  fee = kismet 0;
  generation = 6;
  created = 1001;
  nonce = [];
}

made_from_queue : made queue 1 6 1000 ≡ ok made_transaction
unfolding made libranet.Karma.Amounts.add
made_from_queue = refl

made_pays_case :
    (made_transaction.sender ≡ 1)
    × ((get_or 2 zero_kismet made_transaction.to).count ≡ queued_for 2 queue.payments)
    × (made_transaction.fee.count ≡ 0)
    × (made_transaction.created ≡ next_created (some 1000) 1000)
made_pays_case = made_pays queue 1 6 1000 2 made_transaction made_from_queue

queue_due_at : due_at queue 1010 10 60 ≡ some 1060
unfolding due_at
queue_due_at = refl

due_at-due_case : (due queue 1060 10 60 ≡ true) × (1010 ≤ 1060)
due_at-due_case = due_at-due queue 1010 10 60 1060 refl queue_due_at

due_at-before_case : due queue 1059 10 60 ≡ false
due_at-before_case =
    due_at-before queue 1010 10 60 1060 1059 refl queue_due_at (omega arith) (omega arith)
