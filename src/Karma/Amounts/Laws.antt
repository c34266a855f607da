-- ===== src/Karma/Amounts/Laws.antt =====
-- Amounts are written in one way, and their arithmetic raises exactly where it leaves the range.
use libranet.Base.{◌+◌, ◌<◌, ◌≡◌, ◌↔◌, inl, inr, arith, Result-cases, value_error, ok, err}
use libranet.Decimal.{Text, digits, str, str_total}
use libranet.Json.{decimal_count, decimal_count-str, str-decimal_count, Json, string}
use libranet.Karma.Amounts.{from_value, value, add, sub, IsAmount, Kismet}

-- Every amount can be written, and what is written is read back as that amount.
pub from_value-value :
    (k : Kismet) → IsAmount k → (s : Text) × (value k ≡ ok s) × (from_value (string s) ≡ ok k)
unfolding value from_value
from_value-value k h =
    let written : str k.count ≡ ok (digits k.count) =
      str_total 29 k.count (omega arith) (omega arith) (omega arith) in
    (
      digits k.count,
      written,
      rw (decimal_count-str k.count (digits k.count) written) (ground arith),
    )

-- What is read as an amount is one that can be, and is the text that it is written as.
pub value-from_value :
    (json : Json) (k : Kismet)
    → from_value json ≡ ok k
    → IsAmount k × ((s : Text) × (json ≡ string s) × (value k ≡ ok s))
unfolding value from_value
value-from_value json k h = elim (Result-cases (decimal_count json)) [
  | inl (n, e) ↦ let (s, j, w) = str-decimal_count json n e in (ground arith, (s, j, ground arith))
  | inr (x, e) ↦ absurd (ground arith)
]

-- An amount taken from a sum is the other amount.
pub sub-add : (a b c : Kismet) → IsAmount a → add a b ≡ ok c → sub c b ≡ ok a
unfolding add sub
sub-add a b c h e = ground arith

-- Taking an amount raises exactly if it is more than there is.
pub sub_raises : (a b : Kismet) → IsAmount a → (sub a b ≡ err value_error) ↔ (a.count < b.count)
unfolding sub
sub_raises a b h = (λ e. ground arith, λ l. ground arith)

pub count-sub : (a b c : Kismet) → sub a b ≡ ok c → (c.count + b.count ≡ a.count) × IsAmount c
unfolding sub
count-sub a b c e = ground arith

pub count-add : (a b c : Kismet) → add a b ≡ ok c → (c.count ≡ a.count + b.count) × IsAmount c
unfolding add
count-add a b c e = ground arith
