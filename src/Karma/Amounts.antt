-- ===== src/Karma/Amounts.antt =====
-- Amounts of Karma: src/libranet/protocol/karma_amounts.py.
pub mod Laws
use libranet.Base.{
  ℕ, ◌+◌, ◌-◌, ◌*◌, ◌/◌, ◌^◌, ◌≤◌, Bool, ltb, leb, ◌==◌, if◌then◌else◌, ◌>>=◌, ◌>>◌, guard,
  value_error, Result, ok, err,
}
use libranet.Decimal.{Text, str}
use libranet.Json.{decimal_count, Json}

-- `MAX_KISMET`
abbrev pub max_kismet : ℕ
max_kismet = 10 ^ 28

-- `Kismet`; `kismet_of` is its constructor with the checks of `__post_init__`.
pub record Kismet : Type 0 where
  pub count : ℕ

abbrev pub zero_kismet : Kismet
zero_kismet = record { count = 0 }

unfoldable pub kismet_of : ℕ → Result Kismet
kismet_of count = if leb count max_kismet then ok (record { count = count }) else err value_error

-- `Kismet.from_value`
unfoldable pub from_value : Json → Result Kismet
unfolding kismet_of
from_value json = do
  count ← decimal_count json
  guard (leb count max_kismet) value_error
  kismet_of count

-- `Kismet.value`
unfoldable pub value : Kismet → Result Text
value k = str k.count

-- `Kismet.__add__`
unfoldable pub add : Kismet → Kismet → Result Kismet
unfolding kismet_of
add a b = kismet_of (a.count + b.count)

-- `Kismet.__sub__`: below 0, the constructor raises.
unfoldable pub sub : Kismet → Kismet → Result Kismet
unfolding kismet_of
sub a b = if ltb a.count b.count then err value_error else kismet_of (a.count - b.count)

-- `amount == Kismet(0)`
abbrev pub is_zero : Kismet → Bool
is_zero k = k.count == 0

-- A percentage as the fraction `Fraction(str(percent))`, which is never negative here; its
-- denominator is positive.
pub record Percent : Type 0 where
  pub numerator : ℕ
  pub denominator : ℕ

-- `Kismet.percent`
unfoldable pub percent : Kismet → Percent → Result Kismet
unfolding kismet_of
percent k p = kismet_of (k.count * p.numerator / (p.denominator * 100))

-- An amount that can be.
abbrev pub IsAmount : Kismet → Type 0
IsAmount k = k.count ≤ max_kismet
