-- ===== src/Karma/Weight/Laws.antt =====
-- What a drop weighs, and how far the stake baseline moves.
use libranet.Base.{
  ℕ, zero, suc, ◌+◌, ◌-◌, ◌*◌, ◌/◌, ◌%◌, ◌^◌, ◌≤◌, ◌<◌, min, max, ◌≡◌, arith, length, ceil_div,
  ceil_div_bounds, ceil_div-le_self, div-le-div, ok,
}
use libranet.Decimal.{Text}
use libranet.Cas.Prefix.{matching_bits}
use libranet.Cas.Prefix.Bits.{matching_bits-le}
use libranet.Karma.Weight.{
  counted_bits, of_bits, of_staked, of_validation, stake_baseline_generations, window_divisor,
  counted, window, moved_toward, after, ChainWeight, StakeBaseline,
}
use native.Mathlib.Nat.{mul-le-mul_left}

-- A validation drop of a 64-digit hash always weighs, and more stake never makes it weigh less.
pub of_validation_mono :
    (target hash : Text) (s t : ℕ)
    → length target ≡ 64
    → s ≤ t
    → (v w : ChainWeight) × (of_validation target hash s ≡ ok v)
      × (of_validation target hash t ≡ ok w)
      × (v.work ≤ w.work)
unfolding of_validation of_staked of_bits
of_validation_mono target hash s t h l =
    let b : matching_bits target hash ≤ 256 = omega (arith, matching_bits-le target hash) in
    let p : ℕ = 2 ^ min (matching_bits target hash) counted_bits in
    (
      record { work = p * max s 1 },
      record { work = p * max t 1 },
      ground arith,
      ground arith,
      grind arith,
    )

-- The window is at least one generation.
window_pos : (b : StakeBaseline) (count g : ℕ) → (1 ≤ window b count g)
unfolding window
window_pos b count g = ground arith

window_fall : (b : StakeBaseline) (count g : ℕ) → count < b.stake → 4 ≤ window b count g
unfolding window
window_fall b count g h = ground arith

window_rise :
    (b : StakeBaseline) (count g : ℕ)
    → b.stake ≤ count
    → window b count g ≡ min stake_baseline_generations (g / window_divisor + 1)
unfolding window
window_rise b count g h = ground arith

moved_falls : (s c w : ℕ) → c < s → moved_toward s c w ≤ s
unfolding moved_toward
moved_falls s c w h = ground arith

fall_part : (l w x : ℕ) → l * w < x + w → 4 ≤ w → 4 * l < x + 4
fall_part zero w x h k = omega arith
fall_part (suc l) w x h k = omega (arith, mul-le-mul_left l k)

moved_fall : (s c w : ℕ) → c < s → 4 ≤ w → 4 * s ≤ 4 * moved_toward s c w + s + 3
unfolding moved_toward
moved_fall s c w h k = ground (
  arith,
  fall_part (ceil_div (s - c) w) w (s - c) (ceil_div_bounds (s - c) w (omega arith)).1 k,
  ceil_div-le_self (s - c) w,
)

moved_rise :
    (s c w : ℕ)
    → s ≤ c
    → c ≤ 2 * s
    → 1 ≤ w
    → (s ≤ moved_toward s c w) × (moved_toward s c w ≤ s + s / w)
unfolding moved_toward
moved_rise s c w h k p = ground (arith, div-le-div (c - s) s w p (omega arith))

counted-le : (b : StakeBaseline) (total : ℕ) → 0 < b.stake → counted b total ≤ 2 * b.stake
unfolding counted
counted-le b total h = ground arith

-- As the baseline falls, it falls by no more than a quarter of it, rounded up; and it never
-- falls where a block counts at least as much as it.
pub after_fall :
    (b : StakeBaseline) (total g : ℕ)
    → (4 * b.stake ≤ 4 * (after b total g).stake + b.stake + 3)
      × (b.stake ≤ counted b total → b.stake ≤ (after b total g).stake)
unfolding after
after_fall b total g = ground (
  arith,
  window_fall b (counted b total) g,
  moved_fall b.stake (counted b total) (window b (counted b total) g),
  moved_rise b.stake (counted b total) (window b (counted b total) g),
  window_pos b (counted b total) g,
  counted-le b total,
)

-- The baseline, once it is set, rises by no more than one part in the window of it.
pub after_rise :
    (b : StakeBaseline) (total g : ℕ)
    → 0 < b.stake
    → (after b total g).stake
      ≤ b.stake + b.stake / min stake_baseline_generations (g / window_divisor + 1)
unfolding after
after_rise b total g h = ground (
  arith,
  moved_falls b.stake (counted b total) (window b (counted b total) g),
  moved_rise b.stake (counted b total) (window b (counted b total) g),
  window_rise b (counted b total) g,
  window_pos b (counted b total) g,
  counted-le b total,
)

-- Before generation 16, a baseline that is no whole number of quarters falls by more than
-- a quarter after a block that counts nothing.
pub after_fall_over :
    (b : StakeBaseline) (g : ℕ) → 0 < b.stake % 4 → g < 16 → 4 * (after b 0 g).stake < 3 * b.stake
unfolding after moved_toward window counted ceil_div
after_fall_over b g h l = ground arith
