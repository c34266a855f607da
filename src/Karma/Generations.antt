-- ===== src/Karma/Generations.antt =====
-- The new Karma of a generation: src/libranet/karma/generations.py.
use libranet.Base.{
  ℕ, zero, suc, ◌+◌, ◌-◌, ◌*◌, ◌^◌, ◌≤◌, ◌<◌, ◌≡◌, refl, ap, ◌∙◌, inl, inr, arith, ◌>>=◌, ltb,
  if◌then◌else◌, Bool-cases, value_error, Result, ok, err,
}
use libranet.Karma.Amounts.{max_kismet, kismet_of, Kismet}

-- `FIRST_NEW_KISMET`, `NEW_KISMET_DECREASE`, `LAST_ISSUING_GENERATION`
abbrev pub first_new_kismet : ℕ
first_new_kismet = 2_000_000_000_000_000

abbrev pub new_kismet_decrease : ℕ
new_kismet_decrease = 200

abbrev pub last_issuing_generation : ℕ
last_issuing_generation = 9_999_999_999_999

-- `new_kismet`, of a generation that is not negative
unfoldable pub new_kismet : ℕ → Result Kismet
unfolding kismet_of
new_kismet generation =
    if ltb last_issuing_generation generation
    then kismet_of 0
    else if ltb first_new_kismet (new_kismet_decrease * generation)
    then err value_error
    else kismet_of (first_new_kismet - new_kismet_decrease * generation)

-- What `new_kismet` issues in a generation.
abbrev pub issued : ℕ → ℕ
issued generation =
    (if ltb last_issuing_generation generation
      then 0
      else first_new_kismet - new_kismet_decrease * generation)

-- Every generation issues an amount: it never raises, and what it issues can be.
pub new_kismet-issued :
    (g : ℕ) → (new_kismet g ≡ ok (record { count = issued g })) × (issued g ≤ max_kismet)
unfolding new_kismet
new_kismet-issued g = (ground arith, ground arith)

-- What the generations below `n` issue, in all, each as `new_kismet` gives it.
unfoldable pub issued_below : ℕ → Result ℕ
unfolding new_kismet
issued_below zero = ok 0
issued_below (suc n) = do total ← issued_below n; new ← new_kismet n; ok (total + new.count)

total : ℕ → ℕ
total zero = 0
total (suc n) = total n + issued n

issued_below-total : (n : ℕ) → issued_below n ≡ ok (total n)
unfolding issued_below total
issued_below-total zero = refl
issued_below-total (suc n) = rw (issued_below-total n, (new_kismet-issued n).0) refl

-- Twice what the first `n` issue, while they issue any.
total_closed :
    (n : ℕ)
    → n ≤ last_issuing_generation + 1
    → total n + 100 * n * n ≡ first_new_kismet * n + 100 * n
unfolding total
total_closed zero h = omega arith
total_closed (suc n) h = ground (arith, total_closed n)

total_later : (n : ℕ) → last_issuing_generation < n → total (suc n) ≡ total n
unfolding total
total_later n h = ground arith

total_all : (n : ℕ) → last_issuing_generation < n → total n ≡ max_kismet + 10 ^ 15
total_all zero h = absurd (omega arith)
total_all (suc n) h = elim (Bool-cases (ltb last_issuing_generation n)) [
  | inl later ↦ ground (arith, total_later n, total_all n)
  | inr last ↦ ground (arith, total_closed (suc n))
]

-- What `new_kismet` gives for the generations below any after `last_issuing_generation` comes to
-- 10 Karma more than `MAX_KISMET`, and `new_kismet` raises for none of them.
pub issued_below_all :
    (n : ℕ) → last_issuing_generation < n → issued_below n ≡ ok (max_kismet + 10 ^ 15)
issued_below_all n h = issued_below-total n ∙ ap ok (total_all n h)
