-- ===== src/Decimal/Laws.antt =====
-- Writing a number and reading it again, both ways.
use libranet.Base.{
  ℕ, zero, suc, ◌+◌, ◌-◌, ◌*◌, ◌/◌, ◌%◌, ◌^◌, ◌≤◌, ◌<◌, ◌≡◌, refl, ◌∙◌, true, false, ◌&&◌, [], ◌∷◌,
  ◌++◌, arith, ltb, leb, length, ok,
}
use libranet.Decimal.Defs.{
  Text, max_digits, digits_from, digits, str, number_from, int, is_digit, all_digits, is_decimal,
}
use mathlib.Core.List.{append-nil}
use native.Mathlib.Nat.{pow-suc}

-- Enough fuel gives the digits, whatever the fuel.
digits_from_fuel :
    (f g n : ℕ) (after : Text) → n < f → n < g → digits_from f n after ≡ digits_from g n after
unfolding digits_from
digits_from_fuel zero g n after p q = absurd (omega arith)
digits_from_fuel (suc f) zero n after p q = absurd (omega arith)
digits_from_fuel (suc f) (suc g) n after p q =
    ground (arith, digits_from_fuel f g (n / 10) ((48 + n % 10) ∷ after))

number_from-digits_from :
    (f n : ℕ) (after : Text) → n < f → number_from 0 (digits_from f n after) ≡ number_from n after
unfolding digits_from number_from
number_from-digits_from zero n after p = absurd (omega arith)
number_from-digits_from (suc f) n after p =
    ground (arith, number_from-digits_from f (n / 10) ((48 + n % 10) ∷ after))

-- The number of the digits of `n` is `n`.
pub number_from-digits : (n : ℕ) → number_from 0 (digits n) ≡ n
unfolding digits number_from
number_from-digits n = number_from-digits_from (suc n) n [] (omega arith)

-- Digits in front of digits are digits, and the first of a positive number is not 0.
is_decimal-digits_from :
    (f n : ℕ) (after : Text)
    → 0 < n
    → n < f
    → all_digits after ≡ true
    → is_decimal (digits_from f n after) ≡ true
unfolding digits_from is_decimal
is_decimal-digits_from zero n after h p a = absurd (omega arith)
is_decimal-digits_from (suc f) n [] h p a =
    ground (arith, is_decimal-digits_from f (n / 10) ((48 + n % 10) ∷ []))
is_decimal-digits_from (suc f) n (c ∷ after) h p a =
    ground (arith, is_decimal-digits_from f (n / 10) ((48 + n % 10) ∷ c ∷ after))

-- What is written is in decimal digits, with no leading zero unless it is 0.
pub is_decimal-digits : (n : ℕ) → is_decimal (digits n) ≡ true
unfolding digits
is_decimal-digits zero = unfold digits_from is_decimal in refl
is_decimal-digits (suc n) =
    is_decimal-digits_from (suc (suc n)) (suc n) [] (omega arith) (omega arith)
      (unfold all_digits in refl)

digits_from_step :
    (m n c : ℕ) (after : Text)
    → m ≡ n * 10 + (c - 48)
    → 0 < n
    → is_digit c ≡ true
    → digits_from (suc m) m after ≡ digits_from m n (c ∷ after)
unfolding digits_from
digits_from_step m n c after e h d =
    let q : m / 10 ≡ n = ground arith in
    let r : 48 + m % 10 ≡ c = ground arith in
    let t : ltb m 10 ≡ false = ground arith in rw (t, q, r) refl

one_digit :
    (n c : ℕ) (after : Text)
    → 0 < n
    → is_digit c ≡ true
    → digits_from (suc (n * 10 + (c - 48))) (n * 10 + (c - 48)) after
      ≡ digits_from (suc n) n (c ∷ after)
one_digit n c after h d =
    digits_from_step (n * 10 + (c - 48)) n c after refl h d
    ∙ digits_from_fuel (n * 10 + (c - 48)) (suc n) n (c ∷ after) (omega arith) (omega arith)

-- The digits of a positive number, and of what digits read after it make of it.
digits_from-number_from :
    (n : ℕ) (s after : Text)
    → 0 < n
    → all_digits s ≡ true
    → digits_from (suc (number_from n s)) (number_from n s) after
      ≡ digits_from (suc n) n (s ++ after)
unfolding number_from all_digits
digits_from-number_from n [] after h a = refl
digits_from-number_from n (c ∷ s) after h a =
    digits_from-number_from (n * 10 + (c - 48)) s after (omega arith) (ground arith)
    ∙ one_digit n c (s ++ after) h (ground arith)

-- A number below 10 ^ k has at most k digits.
length-digits_from :
    (k f n : ℕ) (after : Text)
    → n < 10 ^ k
    → 0 < k
    → length (digits_from f n after) ≤ k + length after
unfolding digits_from
length-digits_from zero f n after h p = absurd (omega arith)
length-digits_from (suc k) zero n after h p = omega arith
length-digits_from (suc zero) (suc f) n after h p = ground arith
length-digits_from (suc (suc k)) (suc f) n after h p =
    ground
      (arith, pow-suc 10 (suc k), length-digits_from (suc k) f (n / 10) ((48 + n % 10) ∷ after))

leading_digit :
    (n c : ℕ) (after : Text) → n < 10 → c ≡ 48 + n → digits_from (suc n) n after ≡ c ∷ after
unfolding digits_from
leading_digit n c after h e = ground arith

one_leading :
    (n c d : ℕ) (s : Text)
    → n ≡ c - 48
    → leb 49 c && leb c 57 ≡ true
    → all_digits (d ∷ s) ≡ true
    → digits_from (suc (number_from n (d ∷ s))) (number_from n (d ∷ s)) [] ≡ c ∷ d ∷ s
one_leading n c d s e h a =
    digits_from-number_from n (d ∷ s) [] (ground arith) a
    ∙ rw append-nil (leading_digit n c (d ∷ s) (ground arith) (ground arith))

-- A text in decimal digits is the digits of its number: a number is written in one way.
pub digits-number_from : (s : Text) → is_decimal s ≡ true → digits (number_from 0 s) ≡ s
unfolding digits is_decimal
digits-number_from [] h = cc
digits-number_from (c ∷ []) h =
    unfold number_from in leading_digit (0 * 10 + (c - 48)) c [] (ground arith) (ground arith)
digits-number_from (c ∷ d ∷ s) h =
    unfold number_from in
    one_leading (0 * 10 + (c - 48)) c d s (omega arith) (ground arith) (ground arith)

-- What `str` writes, `int` reads back.
pub int-str : (n : ℕ) (s : Text) → str n ≡ ok s → int s ≡ ok n
unfolding str int
int-str n s h = ground (arith, number_from-digits n)

-- What `int` reads of decimal digits, `str` writes back.
pub str-int : (n : ℕ) (s : Text) → is_decimal s ≡ true → int s ≡ ok n → str n ≡ ok s
unfolding str int
str-int n s d h = ground (arith, digits-number_from s d)

pub str-is_decimal : (n : ℕ) (s : Text) → str n ≡ ok s → is_decimal s ≡ true
unfolding str
str-is_decimal n s h = ground (arith, is_decimal-digits n)

-- A number below 10 ^ k, of no more digits than Python converts, is written.
pub str_total : (k n : ℕ) → n < 10 ^ k → 0 < k → k ≤ max_digits → str n ≡ ok (digits n)
unfolding str
str_total k n h p q = ground (arith, few)
  where
    few : length (digits n) ≤ k
    few = unfold digits in omega (arith, length-digits_from k (suc n) n [] h p)
