-- ===== src/Decimal/Defs.antt =====
-- The digits of a number, and the number of a text of digits.
use libranet.Base.{
  ℕ, zero, suc, ◌+◌, ◌-◌, ◌*◌, ◌/◌, ◌%◌, Bool, true, false, ◌&&◌, List, [], ◌∷◌, length, ltb, leb,
  if◌then◌else◌, Result, ok, err, value_error,
}

abbrev pub Text : Type 0
Text = List ℕ

-- The most digits that Python's `str` and `int` convert (`sys.get_int_max_str_digits`).
abbrev pub max_digits : ℕ
max_digits = 4300

-- The digits of `n`, in front of `after`. The fuel is one more than `n`, and falls as `n` does.
unfoldable pub digits_from : ℕ → ℕ → Text → Text
digits_from zero n after = after
digits_from (suc fuel) n after =
    let longer = digits_from fuel (n / 10) ((48 + n % 10) ∷ after) in
    if ltb n 10 then (48 + n) ∷ after else longer

unfoldable pub digits : ℕ → Text
unfolding digits_from
digits n = digits_from (suc n) n []

-- `str(n)`
unfoldable pub str : ℕ → Result Text
unfolding digits
str n = let text = digits n in if ltb max_digits (length text) then err value_error else ok text

-- The number that digits read on from `n` write.
unfoldable pub number_from : ℕ → Text → ℕ
number_from n [] = n
number_from n (c ∷ text) = number_from (n * 10 + (c - 48)) text

-- `int(text)` of a text of digits
unfoldable pub int : Text → Result ℕ
unfolding number_from
int text = if ltb max_digits (length text) then err value_error else ok (number_from 0 text)

abbrev pub is_digit : ℕ → Bool
is_digit c = leb 48 c && leb c 57

unfoldable pub all_digits : Text → Bool
all_digits [] = true
all_digits (c ∷ text) = is_digit c && all_digits text

-- `_DIGITS.fullmatch`: `0|[1-9][0-9]*`
unfoldable pub is_decimal : Text → Bool
unfolding all_digits
is_decimal [] = false
is_decimal (c ∷ []) = is_digit c
is_decimal (c ∷ d ∷ text) = leb 49 c && leb c 57 && all_digits (d ∷ text)
