-- ===== src/Karma/Balances/Written.antt =====
-- A `last_won`, and a balance, as a block states them: `from_value` and `value` of `LastWon` and
-- `Balance`, src/libranet/protocol/karma_balances.py.
pub mod RoundTrip
use libranet.Base.{
  ℕ, ◌+◌, ◌*◌, ◌/◌, ◌%◌, Bool, false, not, ◌&&◌, Option, none, some, [], ◌∷◌, ◌++◌, leb, ◌==◌,
  if◌then◌else◌, length, ◌>>=◌, ◌>>◌, value_error, Result, ok, err,
}
use libranet.Decimal.{Text, str, int, all_digits, is_decimal}
use libranet.Json.{get_member, Json, null, string, members, done, member_of}
use libranet.Karma.Amounts.{from_value, value}
use libranet.Karma.Balances.{generation_parts, balance_of, LastWon, Balance}

-- `text.partition(".")`: what is before the first `.`, and what is after it, if there is one.
unfoldable pub partition : Text → Text × Option Text
partition [] = ([], none)
partition (c ∷ text) =
    let (head, tail) = partition text in if c == 46 then ([], some text) else (c ∷ head, tail)

abbrev pub last_digit : ℕ → Text → ℕ
last_digit c [] = c
last_digit c (d ∷ text) = last_digit d text

-- `[0-9]{0,2}[1-9]`, all of a text
unfoldable pub is_places : Text → Bool
is_places [] = false
is_places (c ∷ text) = leb (length text) 2 && all_digits (c ∷ text) && not (last_digit c text == 48)

-- `places.ljust(3, "0")`
unfoldable pub padded : Text → Text
padded [] = 48 ∷ 48 ∷ 48 ∷ []
padded (a ∷ []) = a ∷ 48 ∷ 48 ∷ []
padded (a ∷ b ∷ []) = a ∷ b ∷ 48 ∷ []
padded text = text

unfoldable pub last_won_from : Text → Option Text → Result LastWon
last_won_from whole none =
    if is_decimal whole
    then (do generation ← int whole; ok (record { thousandths = generation * generation_parts }))
    else err value_error
last_won_from whole (some places) =
    if is_decimal whole && is_places places
    then (do
      generation ← int whole
      part ← int (padded places)
      ok (record { thousandths = generation * generation_parts + part }))
    else err value_error

-- `LastWon.from_value`; the pattern `_LAST_WON_FORMAT` is of the two parts about the first `.`,
-- which no digit is.
unfoldable pub last_won_from_value : Json → Result LastWon
unfolding last_won_from partition
last_won_from_value (string s) = let (whole, places) = partition s in last_won_from whole places
last_won_from_value _ = err value_error

-- `f"{part:03d}".rstrip("0")`, of a part from 1 to 999
unfoldable pub places_of : ℕ → Text
places_of part =
    if part % 100 == 0
    then (48 + part / 100) ∷ []
    else if part % 10 == 0
    then (48 + part / 100) ∷ (48 + part / 10 % 10) ∷ []
    else (48 + part / 100) ∷ (48 + part / 10 % 10) ∷ (48 + part % 10) ∷ []

-- `LastWon.value`
unfoldable pub last_won_value : LastWon → Result Text
last_won_value won =
    let part = won.thousandths % generation_parts in
    do
      whole ← str (won.thousandths / generation_parts)
      if part == 0 then ok whole else ok (whole ++ 46 ∷ places_of part)

-- The members `_KISMET` and `_LAST_WON`, "kismet" and "last_won"
abbrev pub kismet_member : Text
kismet_member = 107 ∷ 105 ∷ 115 ∷ 109 ∷ 101 ∷ 116 ∷ []

abbrev pub last_won_member : Text
last_won_member = 108 ∷ 97 ∷ 115 ∷ 116 ∷ 95 ∷ 119 ∷ 111 ∷ 110 ∷ []

unfoldable pub optional_last_won : Json → Result (Option LastWon)
optional_last_won null = ok none
optional_last_won won = do read ← last_won_from_value won; ok (some read)

unfoldable pub or_null : Option Json → Json
or_null none = null
or_null (some json) = json

-- `Balance.from_value`
unfoldable pub balance_from_value : Json → Result Balance
unfolding or_null get_member
balance_from_value (members ms) = elim (get_member last_won_member ms) [
  | none ↦ err value_error
  | some won ↦ do
    last_won ← optional_last_won won
    kismet ← from_value (or_null (get_member kismet_member ms))
    balance_of kismet last_won
]
balance_from_value _ = err value_error

unfoldable pub written_last_won : Option LastWon → Result Json
written_last_won none = ok null
written_last_won (some won) = do s ← last_won_value won; ok (string s)

-- `Balance.value`
unfoldable pub balance_value : Balance → Result Json
balance_value b = do
  kismet ← value b.kismet
  last_won ← written_last_won b.last_won
  ok (members (member_of kismet_member (string kismet) (member_of last_won_member last_won done)))
