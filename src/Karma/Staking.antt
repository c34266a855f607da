-- ===== src/Karma/Staking.antt =====
-- What covers the stakes on a block, and which stakes a validation block takes: `StakeCover` of
-- src/libranet/karma/staking.py.
use libranet.Base.{
  ℕ, ◌+◌, ◌-◌, ◌≤◌, ◌≡◌, refl, inl, inr, Bool, true, false, List, [], ◌∷◌, arith, ltb, leb, ◌==◌,
  if◌then◌else◌, ==_iff, Bool-cases, nat_eq, sum_by, ◌>>=◌, >>=-eq-ok, value_error, Result, ok, err,
}
use libranet.Base.Dict.{Dict, get_or, insert, get_or-insert}
use libranet.Karma.Amounts.{kismet_of, Kismet}
use libranet.Karma.Balances.{Balance}
use libranet.Karma.Blocks.{signed, SignedTransaction, TransactionBlock, SignedStake}
use libranet.Karma.Ledger.Sheet.{held_at}

-- `StakeCover`
pub record StakeCover : Type 0 where
  pub validated : TransactionBlock
  pub balances : Dict ℕ Balance

-- What a sender's transactions pay in fees.
unfoldable pub fees_paid_by : ℕ → List SignedTransaction → ℕ
fees_paid_by staker [] = 0
fees_paid_by staker (s ∷ rest) =
    (if s.transaction.sender == staker then s.transaction.fee.count else 0)
    + fees_paid_by staker rest

-- `covering`; less than nothing raises.
unfoldable pub covering : StakeCover → ℕ → Result Kismet
unfolding fees_paid_by
covering c staker = do
  b ← held_at staker c.balances
  (if ltb b.kismet.count (fees_paid_by staker (signed c.validated))
      then err value_error
      else kismet_of (b.kismet.count - fees_paid_by staker (signed c.validated)))

-- `{signed.hash: signed for signed in offered}`
abbrev pub by_hash : List SignedStake → Dict ℕ SignedStake → Dict ℕ SignedStake
by_hash [] once = once
by_hash (s ∷ offered) once = by_hash offered (insert s.hash s once)

abbrev pub values_of : Dict ℕ SignedStake → List SignedStake
values_of [] = []
values_of ((h, s) ∷ once) = s ∷ values_of once

-- `(-kismet.count, hash)` in order
abbrev pub larger_first : SignedStake → SignedStake → Bool
larger_first s t =
    if ltb t.stake.kismet.count s.stake.kismet.count
    then true
    else if s.stake.kismet.count == t.stake.kismet.count
    then leb s.hash t.hash
    else false

abbrev pub hash_first : SignedStake → SignedStake → Bool
hash_first s t = leb s.hash t.hash

unfoldable pub insert_by :
    (SignedStake → SignedStake → Bool) → SignedStake → List SignedStake → List SignedStake
insert_by before s [] = s ∷ []
insert_by before s (t ∷ ts) =
    let rest = insert_by before s ts in if before s t then s ∷ t ∷ ts else t ∷ rest

-- `sorted`
unfoldable pub sorted_by : (SignedStake → SignedStake → Bool) → List SignedStake → List SignedStake
unfolding insert_by
sorted_by before [] = []
sorted_by before (s ∷ ss) = insert_by before s (sorted_by before ss)

-- `staked.get(signed.staker, 0) + signed.stake.kismet.count`
abbrev pub count_with : SignedStake → Dict ℕ ℕ → ℕ
count_with s staked = get_or s.stake.staker 0 staked + s.stake.kismet.count

-- The loop of `taken`
unfoldable pub take_covered : StakeCover → List SignedStake → Dict ℕ ℕ → Result (List SignedStake)
unfolding covering
take_covered c [] staked = ok []
take_covered c (s ∷ ss) staked = do
  covered ← covering c s.stake.staker
  (if leb (count_with s staked) covered.count
      then take_covered c ss (insert s.stake.staker (count_with s staked) staked)
        >>= (λ rest. ok (s ∷ rest))
      else take_covered c ss staked)

-- `taken`
unfoldable pub taken : StakeCover → List SignedStake → Result (List SignedStake)
unfolding sorted_by take_covered
taken c offered = do
  stakes ← take_covered c (sorted_by larger_first (values_of (by_hash offered []))) []
  ok (sorted_by hash_first stakes)

-- What a staker's stakes come to.
abbrev pub staked_of : ℕ → List SignedStake → ℕ
staked_of staker stakes =
    sum_by (λ (s : SignedStake). if s.stake.staker == staker then s.stake.kismet.count else 0)
      stakes

insert_by-staked_of :
    (before : SignedStake → SignedStake → Bool) (s : SignedStake) (ts : List SignedStake) (i : ℕ)
    → staked_of i (insert_by before s ts) ≡ staked_of i (s ∷ ts)
unfolding insert_by
insert_by-staked_of before s [] i = refl
insert_by-staked_of before s (t ∷ ts) i = ground (arith, insert_by-staked_of before s ts i)

sorted_by-staked_of :
    (before : SignedStake → SignedStake → Bool) (ss : List SignedStake) (i : ℕ)
    → staked_of i (sorted_by before ss) ≡ staked_of i ss
unfolding sorted_by
sorted_by-staked_of before [] i = refl
sorted_by-staked_of before (s ∷ ss) i =
    ground
      (arith, insert_by-staked_of before s (sorted_by before ss) i, sorted_by-staked_of before ss i)

take_covered_within :
    (c : StakeCover) (ss : List SignedStake) (staked : Dict ℕ ℕ) (ts : List SignedStake) (i : ℕ)
    (k : Kismet)
    → take_covered c ss staked ≡ ok ts
    → covering c i ≡ ok k
    → get_or i 0 staked ≤ k.count
    → get_or i 0 staked + staked_of i ts ≤ k.count
unfolding take_covered
take_covered_within c [] staked ts i k e f h = ground arith
take_covered_within c (s ∷ ss) staked ts i k e f h =
    let (covered, v, rest) =
      >>=-eq-ok (covering c s.stake.staker)
        (λ covered.
          (if leb (count_with s staked) covered.count
            then take_covered c ss (insert s.stake.staker (count_with s staked) staked)
              >>= (λ rest. ok (s ∷ rest))
            else take_covered c ss staked))
        e in
    elim (Bool-cases (leb (count_with s staked) covered.count)) [
      | inl t ↦
          let (us, u, r) =
            >>=-eq-ok (take_covered c ss (insert s.stake.staker (count_with s staked) staked))
              (λ rest. ok (s ∷ rest)) {b = ts} (ground (arith, t, rest)) in
          ground (
            arith,
            t,
            r,
            v,
            f,
            ==_iff s.stake.staker i,
            get_or-insert s.stake.staker i (count_with s staked) 0 staked,
            take_covered_within c ss (insert s.stake.staker (count_with s staked) staked) us i k u
                f,
          )
      | inr t ↦ ground (arith, t, rest, take_covered_within c ss staked ts i k)
    ]

-- The stakes taken of each staker come to no more than what covers the staker: its Kismet, less its
-- fees in the block.
pub taken_within :
    (c : StakeCover) (offered taken_stakes : List SignedStake) (i : ℕ) (k : Kismet)
    → taken c offered ≡ ok taken_stakes
    → covering c i ≡ ok k
    → staked_of i taken_stakes ≤ k.count
unfolding taken
taken_within c offered ts i k e f =
    let (stakes, t, r) =
      >>=-eq-ok (take_covered c (sorted_by larger_first (values_of (by_hash offered []))) [])
        (λ stakes. ok (sorted_by hash_first stakes)) e in
    ground (
      arith,
      r,
      sorted_by-staked_of hash_first stakes i,
      take_covered_within c (sorted_by larger_first (values_of (by_hash offered []))) [] stakes i k
          t f (omega arith),
    )
