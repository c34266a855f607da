-- ===== src/Karma/Blocks/Bounds/Fullest.antt =====
-- What the search for the fullest block finds: `BlockBounds.fullest` of src/libranet/karma/blocks.py.
use libranet.Base.{
  ℕ, zero, suc, ◌+◌, ◌-◌, ◌/◌, ◌≤◌, ◌<◌, ◌≡◌, refl, sym, ◌∙◌, ◌⊎◌, inl, inr, true, false, Option,
  none, some, arith, leb, leb→le, Bool-cases,
}
use libranet.Karma.Blocks.Bounds.{search, fullest, BlockBounds}

-- What a search has found where a drop of `n` fits: one that fits, of at least as many, and of no
-- more than the most.
abbrev pub Found : (ℕ → ℕ) → ℕ → ℕ → ℕ → Option (ℕ × ℕ) → Type 0
Found measured most_bytes most n o =
    (m : ℕ) × (o ≡ some (m, measured m)) × (n ≤ m) × (m ≤ most) × (measured m ≤ most_bytes)

middle_up : (a high : ℕ) → (high ≤ a + 1) ⊎ ((a + 1 ≤ (a + high) / 2) × ((a + high) / 2 < high))
middle_up a high = elim (Bool-cases (leb high (a + 1))) [
  | inl t ↦ inl (leb→le high (a + 1) t)
  | inr f ↦ let more : a + 1 < high = ground (arith, f) in inr (omega arith, omega arith)
]

middle_down : (low a : ℕ) → (a ≤ low) ⊎ ((low ≤ (low + a - 1) / 2) × ((low + a - 1) / 2 < a))
middle_down low a = elim (Bool-cases (leb a low)) [
  | inl t ↦ inl (leb→le a low t)
  | inr f ↦ let more : low < a = ground (arith, f) in inr (omega arith, omega arith)
]

search_over :
    (measured : ℕ → ℕ) (most_bytes fuel low high count : ℕ) (fitting : Option (ℕ × ℕ))
    → leb high low ≡ true
    → search measured most_bytes (suc fuel) low high count fitting ≡ fitting
unfolding search
search_over measured B fuel low high count fitting t = ground (arith, t)

search_larger :
    (measured : ℕ → ℕ) (most_bytes fuel low high count : ℕ) (fitting : Option (ℕ × ℕ))
    → leb high low ≡ false
    → leb (measured count) most_bytes ≡ true
    → search measured most_bytes (suc fuel) low high count fitting
      ≡ search measured most_bytes fuel
          (count + 1)
          high
          ((count + high) / 2)
          (some (count, measured count))
unfolding search
search_larger measured B fuel low high count fitting t u = ground (arith, t, u)

search_smaller :
    (measured : ℕ → ℕ) (most_bytes fuel low high count : ℕ) (fitting : Option (ℕ × ℕ))
    → leb high low ≡ false
    → leb (measured count) most_bytes ≡ false
    → search measured most_bytes (suc fuel) low high count fitting
      ≡ search measured most_bytes fuel low count ((low + count - 1) / 2) fitting
unfolding search
search_smaller measured B fuel low high count fitting t u = ground (arith, t, u)

within :
    (low high count : ℕ)
    → leb high low ≡ false
    → (high ≤ low) ⊎ ((low ≤ count) × (count < high))
    → (low ≤ count) × (count < high)
within low high count t (inl h) = absurd (ground (arith, t))
within low high count t (inr c) = c

n_below :
    (measured : ℕ → ℕ) (most_bytes count n : ℕ)
    → ((a b : ℕ) → a ≤ b → measured a ≤ measured b)
    → measured n ≤ most_bytes
    → leb (measured count) most_bytes ≡ false
    → n < count
n_below measured B count n mono f u = elim (Bool-cases (leb count n)) [
  | inl t ↦ absurd (ground (arith, mono count n (leb→le count n t), u))
  | inr t ↦ ground (arith, t)
]

count-Found :
    (measured : ℕ → ℕ) (most_bytes most count n : ℕ)
    → count ≤ most
    → measured count ≤ most_bytes
    → Found measured most_bytes most n (some (count, measured count)) ⊎ (count + 1 ≤ n)
count-Found measured B most count n k b = elim (Bool-cases (leb n count)) [
  | inl t ↦ inl (count, refl, leb→le n count t, k, b)
  | inr f ↦ inr (ground (arith, f))
]

search_finds :
    (measured : ℕ → ℕ) (most_bytes most fuel low high count n : ℕ) (fitting : Option (ℕ × ℕ))
    → ((a b : ℕ) → a ≤ b → measured a ≤ measured b)
    → measured n ≤ most_bytes
    → high ≤ low + fuel
    → n < high
    → high ≤ most + 1
    → (high ≤ low) ⊎ ((low ≤ count) × (count < high))
    → Found measured most_bytes most n fitting ⊎ (low ≤ n)
    → Found measured most_bytes most n (search measured most_bytes fuel low high count fitting)
unfolding search
search_finds measured B most zero low high count n fitting mono f g h k c (inl found) = found
search_finds measured B most zero low high count n fitting mono f g h k c (inr l) =
    absurd (omega arith)
search_finds measured B most (suc fuel) low high count n fitting mono f g h k c s =
    elim (Bool-cases (leb high low)) [
      | inl t ↦ elim s [
        | inl found ↦ rw (search_over measured B fuel low high count fitting t) found
        | inr l ↦ absurd (ground (arith, t))
      ]
      | inr t ↦
          let (at_least, below) = within low high count t c in
          elim (Bool-cases (leb (measured count) B)) [
            | inl u ↦ rw (search_larger measured B fuel low high count fitting t u) (
                search_finds measured B most fuel (count + 1) high ((count + high) / 2) n
                  (some (count, measured count)) mono f (omega arith) h k (middle_up count high)
                  (count-Found measured B most count n (omega arith) (leb→le (measured count) B u)))
            | inr u ↦ rw (search_smaller measured B fuel low high count fitting t u) (
                search_finds measured B most fuel low count ((low + count - 1) / 2) n fitting mono f
                  (omega arith) (n_below measured B count n mono f u) (omega arith)
                  (middle_down low count) s)
          ]
    ]

-- Where more entries never measure less, and a number of them from the fewest to the most fits, the
-- search finds a drop that fits, of at least that many.
pub fullest_finds :
    (b : BlockBounds) (measured : ℕ → ℕ) (most fewest n : ℕ)
    → ((a c : ℕ) → a ≤ c → measured a ≤ measured c)
    → fewest ≤ n
    → n ≤ most
    → measured n ≤ b.most_bytes
    → Found measured b.most_bytes most n (fullest b measured most fewest)
unfolding fullest
fullest_finds b measured most fewest n mono l u f =
    search_finds measured b.most_bytes most (most + 1) fewest (most + 1) most n none mono f
      (omega arith) (omega arith) (omega arith) (inr (omega arith, omega arith)) (inr l)

-- What a search gives fits, and is what was measured of a number of entries from `fewest` to `most`.
abbrev pub Fits : (ℕ → ℕ) → ℕ → ℕ → ℕ → ℕ × ℕ → Type 0
Fits measured most_bytes fewest most (m, size) =
    (size ≡ measured m) × (size ≤ most_bytes) × (fewest ≤ m) × (m ≤ most)

from_most : (most fewest : ℕ) → (most + 1 ≤ fewest) ⊎ ((fewest ≤ most) × (most < most + 1))
from_most most fewest = elim (Bool-cases (leb fewest most)) [
  | inl t ↦ inr (leb→le fewest most t, omega arith)
  | inr f ↦ inl (ground (arith, f))
]

count-Fits :
    (measured : ℕ → ℕ) (most_bytes fewest most count : ℕ) (p : ℕ × ℕ)
    → fewest ≤ count
    → count ≤ most
    → measured count ≤ most_bytes
    → some (count, measured count) ≡ some p
    → Fits measured most_bytes fewest most p
count-Fits measured B fewest most count (m, size) a b c e = ground arith

search-Fits :
    (measured : ℕ → ℕ) (most_bytes most fewest fuel low high count : ℕ) (fitting : Option (ℕ × ℕ))
    (r : ℕ × ℕ)
    → fewest ≤ low
    → high ≤ most + 1
    → (high ≤ low) ⊎ ((low ≤ count) × (count < high))
    → ((q : ℕ × ℕ) → fitting ≡ some q → Fits measured most_bytes fewest most q)
    → search measured most_bytes fuel low high count fitting ≡ some r
    → Fits measured most_bytes fewest most r
unfolding search
search-Fits measured B most fewest zero low high count fitting r l k c q e = q r e
search-Fits measured B most fewest (suc fuel) low high count fitting r l k c q e =
    elim (Bool-cases (leb high low)) [
      | inl t ↦ q r (sym (search_over measured B fuel low high count fitting t) ∙ e)
      | inr t ↦
          let (at_least, below) = within low high count t c in
          elim (Bool-cases (leb (measured count) B)) [
            | inl u ↦
                search-Fits measured B most fewest fuel (count + 1) high ((count + high) / 2)
                  (some (count, measured count)) r (omega arith) k (middle_up count high)
                  (λ p s.
                    count-Fits measured B fewest most count p (omega arith) (omega arith)
                      (leb→le (measured count) B u) s)
                  (sym (search_larger measured B fuel low high count fitting t u) ∙ e)
            | inr u ↦
                search-Fits measured B most fewest fuel low count ((low + count - 1) / 2) fitting r
                  l (omega arith) (middle_down low count) q
                  (sym (search_smaller measured B fuel low high count fitting t u) ∙ e)
          ]
    ]

-- Whatever the entries measure, a drop found fits, is measured, and holds from the fewest to the
-- most.
pub fullest-Fits :
    (b : BlockBounds) (measured : ℕ → ℕ) (most fewest : ℕ) (r : ℕ × ℕ)
    → fullest b measured most fewest ≡ some r
    → Fits measured b.most_bytes fewest most r
unfolding fullest
fullest-Fits b measured most fewest r e =
    search-Fits measured b.most_bytes most fewest (most + 1) fewest (most + 1) most none r
      (omega arith) (omega arith) (from_most most fewest) (λ q s. absurd (ground (arith, s))) e
