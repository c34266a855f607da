-- ===== src/Karma/Balances.antt =====
-- Balances and the generation they last won: src/libranet/protocol/karma_balances.py.
pub mod Written
pub mod Laws
use libranet.Base.{
  ℕ, zero, suc, ◌+◌, ◌-◌, ◌*◌, ◌/◌, ◌≡◌, Option, none, some, [], ◌∷◌, leb, ◌==◌, if◌then◌else◌,
  nat_eq, ceil_div, ◌>>=◌, ◌>>◌, value_error, zero_division, Result, ok, err,
}
use libranet.Base.Dict.{Dict, get_or}
use libranet.Karma.Amounts.{zero_kismet, add, sub, is_zero, IsAmount, Kismet}

-- `GENERATION_PARTS`
abbrev pub generation_parts : ℕ
generation_parts = 1000

-- `LastWon`
pub record LastWon : Type 0 where
  pub thousandths : ℕ

-- A generation as it is counted back from another: Python's number, which may be below 0.
pub data Generation : Type 0 where
  nonneg : ℕ → Generation
  below : ℕ → Generation

-- `g - 1` of a generation that is not negative; `below n` is -(n + 1).
abbrev pub generation_before : ℕ → Generation
generation_before zero = below 0
generation_before (suc g) = nonneg g

-- `LastWon.of`
unfoldable pub last_won_of : Generation → Result LastWon
last_won_of (nonneg g) = ok (record { thousandths = g * generation_parts })
last_won_of (below n) = err value_error

-- `LastWon(-(-weighted // parts))`, where `weighted` is `owned` less `owed`: rounded up, and
-- raising below 0, as `__post_init__` does.
unfoldable pub rounded_up : ℕ → ℕ → ℕ → Result LastWon
rounded_up owned owed parts =
    if parts == 0
    then err zero_division
    else if leb owed owned
    then ok (record { thousandths = ceil_div (owned - owed) parts })
    else if (owed - owned) / parts == 0
    then ok (record { thousandths = 0 })
    else err value_error

-- `LastWon.moved`
unfoldable pub moved : LastWon → Kismet → Kismet → Generation → Result LastWon
moved won kept received (nonneg g) =
    rounded_up (kept.count * won.thousandths + received.count * g * generation_parts) 0
      (kept.count + received.count)
moved won kept received (below n) =
    rounded_up (kept.count * won.thousandths) (received.count * (n + 1) * generation_parts)
      (kept.count + received.count)

-- `Balance`, whose constructor `balance_of` checks as `__post_init__` does.
pub record Balance : Type 0 where
  pub kismet : Kismet
  pub last_won : Option LastWon

unfoldable pub balance_of : Kismet → Option LastWon → Result Balance
balance_of kismet none = ok (record { kismet = kismet; last_won = none })
balance_of kismet (some won) =
    if is_zero kismet then err value_error else ok (record { kismet = kismet; last_won = some won })

-- `NO_BALANCE`
abbrev pub no_balance : Balance
no_balance = record { kismet = zero_kismet; last_won = none }

-- `Balance.sent`
unfoldable pub sent : Balance → Kismet → Result Balance
unfolding sub balance_of
sent b amount =
    if is_zero amount
    then ok b
    else do left ← sub b.kismet amount; balance_of left (if is_zero left then none else b.last_won)

-- What `Balance.received` takes its `last_won` to be.
unfoldable pub won_after : Option LastWon → Kismet → Kismet → Generation → Result LastWon
won_after none kept amount generation = last_won_of generation
won_after (some won) kept amount generation = moved won kept amount generation

-- `Balance.received`
unfoldable pub received : Balance → Kismet → Generation → Result Balance
unfolding add balance_of
received b amount generation = if is_zero amount then ok b else do
  held ← add b.kismet amount
  won ← won_after b.last_won b.kismet amount generation
  balance_of held (some won)

-- `Balance`s that the constructors make: an amount that can be, and no `last_won` of nothing.
pub record IsBalance (b : Balance) : Type 0 where
  pub amount : IsAmount b.kismet
  pub holds : b.kismet.count ≡ 0 → b.last_won ≡ none

-- `KarmaBalances.balance`, of an identity; identities are numbers, since they are only compared.
unfoldable pub balance : Dict ℕ Balance → ℕ → Balance
balance balances identity = get_or identity no_balance balances

-- `KarmaBalances.holders`
unfoldable pub holders : Dict ℕ Balance → ℕ
holders [] = 0
holders ((identity, b) ∷ balances) = (if is_zero b.kismet then 0 else 1) + holders balances
