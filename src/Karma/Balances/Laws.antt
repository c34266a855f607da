-- ===== src/Karma/Balances/Laws.antt =====
-- What sending and receiving leave, and how far a receipt moves `last_won`.
use native.Mathlib.Decide.{dec_lt}
use native.Mathlib.Nat.{mul-le-mul_left, le_of_mul-le-mul_right, lt_of_mul-lt-mul_left}
use libranet.Base.{
  ℕ, ◌+◌, ◌-◌, ◌*◌, ◌≤◌, ◌<◌, ◌≡◌, ◌↔◌, inl, inr, none, some, arith, if◌then◌else◌, ceil_div_bounds,
  Result-cases, value_error, ok, err,
}
use libranet.Karma.Amounts.{is_zero, Kismet}
use libranet.Karma.Balances.{
  generation_parts, rounded_up, moved, sent, won_after, received, LastWon, Balance, IsBalance,
  Generation, nonneg,
}

-- Where sending from a balance that can be does not raise, the balance kept is one that can be: the
-- rest, with its `last_won`, or with none if nothing is left.
pub sent_keeps :
    (b c : Balance) (amount : Kismet)
    → IsBalance b
    → sent b amount ≡ ok c
    → IsBalance c
      × (c.kismet.count + amount.count ≡ b.kismet.count)
      × (c.last_won ≡ (if is_zero c.kismet then none else b.last_won))
unfolding sent
sent_keeps b c amount v h = ground arith

-- Sending from a balance that can be raises exactly if more is sent than is held.
pub sent_raises :
    (b : Balance) (amount : Kismet)
    → IsBalance b
    → ((sent b amount ≡ err value_error) ↔ (b.kismet.count < amount.count))
unfolding sent
sent_raises b amount v = (λ e. ground arith, λ l. ground arith)

-- A balance that can be, and receives an amount without raising, stays one, and holds the amount
-- more.
pub received_keeps :
    (b c : Balance) (amount : Kismet) (g : Generation)
    → IsBalance b
    → received b amount g ≡ ok c
    → IsBalance c × (c.kismet.count ≡ b.kismet.count + amount.count)
unfolding received
received_keeps b c amount g v h = ground arith

-- `w` is the mean of `x`, of weight `k`, and `y`, of weight `r`, rounded up.
abbrev pub IsMean : ℕ → ℕ → ℕ → ℕ → ℕ → Type 0
IsMean k x r y w = (k * x + r * y ≤ w * (k + r)) × (w * (k + r) < k * x + r * y + (k + r))

-- Such a mean lies between them.
mean_between : (k r x y w : ℕ) → x ≤ y → 0 < k + r → IsMean k x r y w → (x ≤ w) × (w ≤ y)
mean_between k r x y w l p (lo, hi) = (
  le_of_mul-le-mul_right {k = k + r} (omega (arith, lo, mul-le-mul_left r l)) p,
  omega (
    arith,
    lt_of_mul-lt-mul_left (k + r) {m = w} {n = y + 1} (omega (arith, hi, mul-le-mul_left k l)),
  ),
)

-- What `moved` gives, from a generation that is not negative: the mean, rounded up.
moved-IsMean :
    (won w : LastWon) (kept amount : Kismet) (g : ℕ)
    → moved won kept amount (nonneg g) ≡ ok w
    → 0 < kept.count + amount.count
    → IsMean kept.count won.thousandths amount.count (g * generation_parts) w.thousandths
unfolding moved rounded_up
moved-IsMean won w kept amount g h p = ground (
  arith,
  ceil_div_bounds (kept.count * won.thousandths + amount.count * g * generation_parts - 0)
      (kept.count + amount.count) p,
)

received-moved :
    (b c : Balance) (amount : Kismet) (g : Generation) {won : LastWon}
    → b.last_won ≡ some won
    → 0 < amount.count
    → received b amount g ≡ ok c
    → (w : LastWon) × (moved won b.kismet amount g ≡ ok w) × (c.last_won ≡ some w)
unfolding received won_after
received-moved b c amount g {won} e p h = elim (Result-cases (moved won b.kismet amount g)) [
  | inl (w, m) ↦ (w, m, ground arith)
  | inr (x, m) ↦ absurd (ground arith)
]

received_nothing :
    (b c : Balance) (amount : Kismet) (g : Generation)
    → amount.count ≡ 0
    → received b amount g ≡ ok c
    → c ≡ b
unfolding received
received_nothing b c amount g z h = ground arith

-- A balance that last won no later than generation `g`, and receives an amount as if won in `g`,
-- then last won at the mean of both, weighted by what it held and what it receives, rounded up
-- to a thousandth; so neither before it last won nor after `g`.
pub received_between :
    (b c : Balance) (amount : Kismet) (g : ℕ) {won : LastWon}
    → IsBalance b
    → b.last_won ≡ some won
    → won.thousandths ≤ g * generation_parts
    → received b amount (nonneg g) ≡ ok c
    → (w : LastWon) × (c.last_won ≡ some w)
      × IsMean b.kismet.count won.thousandths amount.count (g * generation_parts) w.thousandths
      × (won.thousandths ≤ w.thousandths)
      × (w.thousandths ≤ g * generation_parts)
received_between b c amount g {won} v e l h = elim (dec_lt 0 amount.count) [
  | yes p ↦
      let (w, m, f) = received-moved b c amount (nonneg g) e p h in
      let mean = moved-IsMean won w b.kismet amount g m (omega arith) in
      let between =
        mean_between b.kismet.count amount.count won.thousandths (g * generation_parts)
          w.thousandths l (omega arith) mean in
      (w, f, mean, between.0, between.1)
  | no n ↦
      let same : c ≡ b = received_nothing b c amount (nonneg g) (omega arith) h in
      let held : 0 < b.kismet.count = ground (arith, v.holds) in
      let z : amount.count ≡ 0 = omega arith in
      (won, rw same e, rw z (omega arith, omega arith), omega arith, l)
]
