-- ===== src/Karma/Balances/Written/RoundTrip.antt =====
-- What a block states of a `last_won` is read back as it.
use libranet.Base.{
  ℕ, ◌+◌, ◌*◌, ◌/◌, ◌%◌, ◌<◌, ◌≡◌, refl, ◌∙◌, inl, inr, true, Option, none, some, [], ◌∷◌, ◌++◌,
  arith, ◌==◌, Bool-cases, Result-cases, ok,
}
use libranet.Decimal.{Text, str, number_from, int, all_digits, is_decimal, int-str, str-is_decimal}
use libranet.Json.{Json, string, members, done, member_of}
use libranet.Karma.Amounts.Laws.{from_value-value}
use libranet.Karma.Balances.{generation_parts, balance_of, LastWon, Balance, IsBalance}
use libranet.Karma.Balances.Written.{
  partition, is_places, padded, last_won_from_value, places_of, last_won_value, kismet_member,
  last_won_member, optional_last_won, balance_from_value, written_last_won, balance_value,
}

all_digits-is_decimal : (s : Text) → is_decimal s ≡ true → all_digits s ≡ true
unfolding is_decimal all_digits
all_digits-is_decimal [] h = cc
all_digits-is_decimal (c ∷ []) h = ground arith
all_digits-is_decimal (c ∷ d ∷ s) h = ground arith

partition_whole : (s : Text) → all_digits s ≡ true → partition s ≡ (s, none)
unfolding partition all_digits
partition_whole [] h = refl
partition_whole (c ∷ s) h = ground (arith, partition_whole s)

partition_dot : (s rest : Text) → all_digits s ≡ true → partition (s ++ 46 ∷ rest) ≡ (s, some rest)
unfolding partition all_digits
partition_dot [] rest h = refl
partition_dot (c ∷ s) rest h = ground (arith, partition_dot s rest)

is_places-places_of : (p : ℕ) → 0 < p → p < 1000 → is_places (places_of p) ≡ true
unfolding is_places places_of all_digits
is_places-places_of p h l = ground arith

int-padded : (p : ℕ) → 0 < p → p < 1000 → int (padded (places_of p)) ≡ ok p
unfolding int padded places_of number_from
int-padded p h l = ground arith

read_whole :
    (g : ℕ) (whole : Text)
    → str g ≡ ok whole
    → last_won_from_value (string whole) ≡ ok (record { thousandths = g * generation_parts })
unfolding last_won_from_value
read_whole g whole e =
    let d : is_decimal whole ≡ true = str-is_decimal g whole e in
    rw (partition_whole whole (all_digits-is_decimal whole d))
      (ground (arith, d, int-str g whole e))

read_places :
    (g p : ℕ) (whole : Text)
    → str g ≡ ok whole
    → 0 < p
    → p < 1000
    → last_won_from_value (string (whole ++ 46 ∷ places_of p))
      ≡ ok (record { thousandths = g * generation_parts + p })
unfolding last_won_from_value
read_places g p whole e h l =
    let d : is_decimal whole ≡ true = str-is_decimal g whole e in
    rw (partition_dot whole (places_of p) (all_digits-is_decimal whole d))
      (ground (arith, d, int-str g whole e, is_places-places_of p h l, int-padded p h l))

-- What `value` writes of a `last_won`, `from_value` reads back as it.
pub last_won-from_value-value :
    (won : LastWon) (s : Text) → last_won_value won ≡ ok s → last_won_from_value (string s) ≡ ok won
unfolding last_won_value
last_won-from_value-value won s h =
    let g : ℕ = won.thousandths / 1000 in
    let p : ℕ = won.thousandths % 1000 in
    elim (Result-cases (str g)) [
      | inl (whole, e) ↦ elim (Bool-cases (p == 0)) [
        | inl z ↦
            let same : whole ≡ s = ground arith in rw (← same) (read_whole g whole e ∙ ground arith)
        | inr z ↦
            let same : whole ++ 46 ∷ places_of p ≡ s = ground arith in
            rw (← same) (read_places g p whole e (ground arith) (omega arith) ∙ ground arith)
      ]
      | inr (x, e) ↦ absurd (ground arith)
    ]

optional_round_trip :
    (won : Option LastWon) (json : Json)
    → written_last_won won ≡ ok json
    → optional_last_won json ≡ ok won
unfolding written_last_won optional_last_won
optional_round_trip none json h = ground arith
optional_round_trip (some won) json h = elim (Result-cases (last_won_value won)) [
  | inl (s, e) ↦
      let j : string s ≡ json = ground arith in
      rw (← j) (rw (last_won-from_value-value won s e) refl)
  | inr (x, e) ↦ absurd (ground arith)
]

-- What `value` writes of a balance that can be, `from_value` reads back as it.
pub balance-from_value-value :
    (b : Balance) (json : Json)
    → IsBalance b
    → balance_value b ≡ ok json
    → balance_from_value json ≡ ok b
unfolding balance_value balance_from_value balance_of
balance-from_value-value b json v h = elim (Result-cases (written_last_won b.last_won)) [
  | inl (won, e) ↦
      let (s, k, r) = from_value-value b.kismet v.amount in
      let j : members (member_of kismet_member (string s) (member_of last_won_member won done))
          ≡ json =
        ground arith in
      rw (← j) (rw (optional_round_trip b.last_won won e, r) (ground (arith, v.holds)))
  | inr (x, e) ↦ absurd (ground (arith, from_value-value b.kismet v.amount))
]
