-- ===== src/Karma/Ledger/Reward/Shares.antt =====
-- The shares of a reward are the pot, to the Kismet.
use native.Mathlib.Nat.{
  div-mul-le_self, le_of_mul-le-mul_right, lt_of_mul-lt-mul_left, lt-div-mul-add, div-zero,
}
use native.Mathlib.Decide.{dec_lt}
use libranet.Base.{
  ℕ, ◌+◌, ◌-◌, ◌*◌, ◌≤◌, ◌<◌, ◌≡◌, refl, ◌∙◌, Option, none, some, List, [], ◌∷◌, arith,
  if◌then◌else◌, nat_eq, option_eq, length, sum_by, >>=-eq-ok, ok,
}
use libranet.Base.Dict.{Dict, get_or, member, add_count, total, total-insert, total-add_count}
use libranet.Karma.Amounts.{max_kismet, zero_kismet, kismet_of, add, Kismet}
use libranet.Karma.Blocks.{
  sum_kismet, total_kismet, payout_of, signed, SignedTransaction, SignedStake, ValidationBlock,
}
use libranet.Karma.Generations.{new_kismet, issued, new_kismet-issued}
use libranet.Karma.Ledger.Age.{effective_stakes}
use libranet.Karma.Ledger.Reward.{
  add_fees, stakers_of, add_stakes, add_runner_up, amounts_of, pot, divided, insert_sorted, sorted,
  dividing, with_rest, shares, payout_for, Reward,
}

-- The amounts total the counts, those of 0 left out.
amounts_of_total :
    {K : Type 0} (counts : Dict K ℕ) (amounts : Dict K Kismet)
    → amounts_of counts ≡ ok amounts
    → total_kismet amounts ≡ sum_by (λ (e : K × ℕ). e.1) counts
unfolding amounts_of kismet_of
amounts_of_total [] amounts h = ground arith
amounts_of_total ((k, n) ∷ counts) amounts h =
    let (rest, e, h1) = >>=-eq-ok (amounts_of counts) _ h in
    let (amount, f, h2) = >>=-eq-ok (kismet_of n) _ h1 in
    ground (arith, amounts_of_total counts rest e)

total-insert_sorted : (e : ℕ × ℕ) (d : Dict ℕ ℕ) → total (insert_sorted e d) ≡ e.1 + total d
unfolding insert_sorted
total-insert_sorted e [] = omega arith
total-insert_sorted e (f ∷ d) = ground (arith, total-insert_sorted e d)

total-sorted : (d : Dict ℕ ℕ) → total (sorted d) ≡ total d
unfolding sorted
total-sorted [] = refl
total-sorted (e ∷ d) = omega (arith, total-insert_sorted e (sorted d), total-sorted d)

-- Each share is rounded down, so together they are no more than the pot.
divided_le : (p all : ℕ) (d : Dict ℕ ℕ) → total (divided p all d) * all ≤ p * total d
unfolding divided
divided_le p all [] = omega arith
divided_le p all ((k, stake) ∷ d) =
    omega (arith, div-mul-le_self (p * stake) all, divided_le p all d)

-- And they are less than the pot by fewer Kismet than there are stakers.
divided_near :
    (p all : ℕ) (d : Dict ℕ ℕ)
    → 0 < all
    → p * total d + length d ≤ (total (divided p all d) + length d) * all
unfolding divided
divided_near p all [] h = omega arith
divided_near p all ((k, stake) ∷ d) h =
    omega (arith, lt-div-mul-add {a = p * stake} {b = all} h, divided_near p all d h)

divided_zero : (p : ℕ) (d : Dict ℕ ℕ) → total (divided p 0 d) ≡ 0
unfolding divided
divided_zero p [] = refl
divided_zero p ((k, stake) ∷ d) = omega (arith, div-zero (p * stake), divided_zero p d)

divided-le-pot : (p : ℕ) (d : Dict ℕ ℕ) → total (divided p (total d) d) ≤ p
divided-le-pot p d = elim (dec_lt 0 (total d)) [
  | yes h ↦ le_of_mul-le-mul_right {k = total d} (divided_le p (total d) d) h
  | no h ↦ let z : total d ≡ 0 = omega arith in rw z (omega (arith, divided_zero p d))
]

pub divided_rest :
    (p : ℕ) (d : Dict ℕ ℕ) → 0 < total d → p < total (divided p (total d) d) + length d
divided_rest p [] h = absurd (omega arith)
divided_rest p (e ∷ d) h =
    let all : Dict ℕ ℕ = e ∷ d in
    lt_of_mul-lt-mul_left (total all) {m = p} {n = total (divided p (total all) all) + length all}
      (omega (arith, divided_near p (total all) all h))

total-with_rest :
    (p builder : ℕ) (counts : Dict ℕ ℕ) → total counts ≤ p → total (with_rest p builder counts) ≡ p
unfolding with_rest
total-with_rest p builder counts h =
    omega (arith, total-insert builder (get_or builder 0 counts + p - total counts) counts)

-- Whatever the effective stakes, the shares of a reward total its pot.
pub shares_total :
    (r : Reward) (from : Dict (Option ℕ) Kismet) (to : Dict ℕ Kismet)
    → pot r ≡ ok from
    → shares r ≡ ok to
    → total_kismet to ≡ total_kismet from
unfolding shares
shares_total r from to h k =
    let (stakes, e1, h1) =
      >>=-eq-ok (effective_stakes r.validation r.balances r.block.age_limit) _ k in
    let (amounts, e2, h2) = >>=-eq-ok (pot r) _ h1 in
    let d : Dict ℕ ℕ = dividing stakes in
    let p : ℕ = total_kismet amounts in
    let counts : Dict ℕ ℕ = divided p (total d) d in
    let same : p ≡ total_kismet from = ground (arith, h, e2) in
    amounts_of_total (sorted (with_rest p r.builder counts)) to h2
    ∙ total-sorted (with_rest p r.builder counts)
    ∙ total-with_rest p r.builder counts (divided-le-pot p d)
    ∙ same

sum_kismet_total :
    {K : Type 0} (amounts : Dict K Kismet) (start : Kismet)
    → start.count + total_kismet amounts ≤ max_kismet
    → (s : Kismet) × (sum_kismet amounts start ≡ ok s)
      × (s.count ≡ start.count + total_kismet amounts)
unfolding sum_kismet add kismet_of
sum_kismet_total [] start h = (start, refl, omega arith)
sum_kismet_total ((k, a) ∷ amounts) start h =
    let next : Kismet = record { count = start.count + a.count } in
    let (s, e, c) = sum_kismet_total amounts next (omega arith) in (s, ground arith, omega arith)

-- A reward whose pot is an amount that can be is paid by a payout of the next generation, that
-- takes the pot and pays the shares.
pub payout_for_total :
    (r : Reward) (from : Dict (Option ℕ) Kismet) (to : Dict ℕ Kismet)
    → pot r ≡ ok from
    → shares r ≡ ok to
    → total_kismet from ≤ max_kismet
    → payout_for r
      ≡ ok (record { sources = from; to = to; generation = r.validation.generation + 1 })
unfolding payout_for payout_of
payout_for_total r from to h k l =
    let (a, e, c) = sum_kismet_total from zero_kismet (omega arith) in
    let (b, f, d) = sum_kismet_total to zero_kismet (omega (arith, shares_total r from to h k)) in
    ground (arith, shares_total r from to h k)

-- What the fees of a block total.
abbrev pub fees_of : List SignedTransaction → ℕ
fees_of [] = 0
fees_of (s ∷ rest) = s.transaction.fee.count + fees_of rest

-- What the stakes of those who do not win total.
abbrev pub losing : List ℕ → List SignedStake → ℕ
losing winning [] = 0
losing winning (s ∷ stakes) =
    (if member s.stake.staker winning then 0 else s.stake.kismet.count) + losing winning stakes

abbrev pub losing_in : List SignedStake → Option ValidationBlock → ℕ
losing_in stakes none = 0
losing_in stakes (some v) = losing (stakers_of stakes) v.stakes

total-add_fees :
    (ss : List SignedTransaction) (given : Dict (Option ℕ) ℕ)
    → total (add_fees ss given) ≡ total given + fees_of ss
unfolding add_fees
total-add_fees [] given = omega arith
total-add_fees (s ∷ ss) given =
    let k : Option ℕ = some s.transaction.sender in
    let n : ℕ = s.transaction.fee.count in
    omega (arith, total-add_fees ss (add_count k n given), total-add_count k n given)

total-add_stakes :
    (winning : List ℕ) (stakes : List SignedStake) (given : Dict (Option ℕ) ℕ)
    → total (add_stakes winning stakes given) ≡ total given + losing winning stakes
unfolding add_stakes
total-add_stakes winning [] given = omega arith
total-add_stakes winning (s ∷ stakes) given =
    let k : Option ℕ = some s.stake.staker in
    let n : ℕ = s.stake.kismet.count in
    ground (
      arith,
      total-add_stakes winning stakes
          (if member s.stake.staker winning then given else add_count k n given),
      total-add_count k n given,
    )

total-add_runner_up :
    (stakes : List SignedStake) (v : Option ValidationBlock) (given : Dict (Option ℕ) ℕ)
    → total (add_runner_up stakes v given) ≡ total given + losing_in stakes v
unfolding add_runner_up
total-add_runner_up stakes none given = omega arith
total-add_runner_up stakes (some v) given = total-add_stakes (stakers_of stakes) v.stakes given

-- The pot is the new Karma of the generation, the fees of its transaction block, and the stakes
-- of its runner-up's stakers who have no stake in the winning block.
pub pot_total :
    (r : Reward) (from : Dict (Option ℕ) Kismet)
    → pot r ≡ ok from
    → total_kismet from
      ≡ issued r.validation.generation
        + fees_of (signed r.block)
        + losing_in r.validation.stakes r.runner_up
unfolding pot
pot_total r from h =
    let (new, e, h1) = >>=-eq-ok (new_kismet r.validation.generation) _ h in
    let start : Dict (Option ℕ) ℕ = (none, new.count) ∷ [] in
    let given : Dict (Option ℕ) ℕ = add_fees (signed r.block) start in
    ground (
      arith,
      (new_kismet-issued r.validation.generation).0,
      amounts_of_total (add_runner_up r.validation.stakes r.runner_up given) from h1,
      total-add_runner_up r.validation.stakes r.runner_up given,
      total-add_fees (signed r.block) start,
    )
