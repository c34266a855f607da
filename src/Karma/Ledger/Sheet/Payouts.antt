-- ===== src/Karma/Ledger/Sheet/Payouts.antt =====
-- The payout of a block adds the new Karma, and nothing else, to the balances it is checked
-- against.
use libranet.Base.{
  ℕ, ◌+◌, ◌≡◌, refl, ◌∙◌, Bool, true, false, Option, none, some, List, [], ◌∷◌, arith, leb, nat_eq,
  guard, >>=-eq-ok, value_error, ok,
}
use libranet.Base.Dict.{Dict, insert, member}
use libranet.Karma.Amounts.{zero_kismet, add, Kismet}
use libranet.Karma.Amounts.Laws.{count-add}
use libranet.Karma.Balances.{generation_before, last_won_of, balance_of, sent, Balance, Generation}
use libranet.Karma.Blocks.{
  sum_kismet, total_kismet, payout_of, signed, payout, named, Payout, TransactionBlock,
}
use libranet.Karma.Ledger.Sheet.{
  held_before, held_at, take_sources, paid_to, pay_all, apply_payout, paid, sending_of,
  overspent_of, moved_from, leave, sheet_of, BalanceSheet, Moves,
}
use libranet.Karma.Ledger.Sheet.Transactions.{
  held_total, sent_count, received_count, sum_kismet_count, sheet_of_total,
}

-- What identities give of a payout, and what comes from no one.
abbrev pub given_by : Dict (Option ℕ) Kismet → ℕ
given_by [] = 0
given_by ((none, a) ∷ sources) = given_by sources
given_by ((some k, a) ∷ sources) = a.count + given_by sources

abbrev pub new_karma : Dict (Option ℕ) Kismet → ℕ
new_karma [] = 0
new_karma ((none, a) ∷ sources) = a.count + new_karma sources
new_karma ((some k, a) ∷ sources) = new_karma sources

given_or_new :
    (sources : Dict (Option ℕ) Kismet) → total_kismet sources ≡ given_by sources + new_karma sources
given_or_new [] = refl
given_or_new ((none, a) ∷ sources) = omega (arith, given_or_new sources)
given_or_new ((some k, a) ∷ sources) = omega (arith, given_or_new sources)

held_total-insert :
    (k : ℕ) (b c : Balance) (held : Dict ℕ Balance)
    → held_at k held ≡ ok b
    → held_total (insert k c held) + b.kismet.count ≡ held_total held + c.kismet.count
unfolding held_at
held_total-insert k b c [] h = cc
held_total-insert k b c ((j, d) ∷ held) h = ground (arith, held_total-insert k b c held)

take_sources_total :
    (sources : Dict (Option ℕ) Kismet) (held taken : Dict ℕ Balance)
    → take_sources sources held ≡ ok taken
    → held_total taken + given_by sources ≡ held_total held
unfolding take_sources
take_sources_total [] held taken h = ground arith
take_sources_total ((none, a) ∷ sources) held taken h = take_sources_total sources held taken h
take_sources_total ((some k, a) ∷ sources) held taken h =
    let (b, e, h1) = >>=-eq-ok (held_at k held) _ h in
    let (u, g, h2) = >>=-eq-ok (guard (leb a.count b.kismet.count) value_error) _ h1 in
    let (left, s, h3) = >>=-eq-ok (sent b a) _ h2 in
    ground (
      arith,
      sent_count b left a s,
      held_total-insert k b left held e,
      take_sources_total sources (insert k left held) taken h3,
    )

paid_to_count :
    (staker : Bool) (b c : Balance) (a : Kismet) (won : Generation)
    → paid_to staker b a won ≡ ok c
    → c.kismet.count ≡ b.kismet.count + a.count
unfolding paid_to
paid_to_count true b c a won h =
    let (sum, e1, h1) = >>=-eq-ok (add b.kismet a) _ h in
    let (last, e2, h2) = >>=-eq-ok (last_won_of won) _ h1 in
    unfold balance_of in ground (arith, count-add b.kismet a sum e1, h2)
paid_to_count false b c a won h = received_count b c a won h

pay_all_total :
    (stakers : List ℕ) (won : Generation) (to : Dict ℕ Kismet) (held paid : Dict ℕ Balance)
    → pay_all stakers won to held ≡ ok paid
    → held_total paid ≡ held_total held + total_kismet to
unfolding pay_all
pay_all_total stakers won [] held paid h = ground arith
pay_all_total stakers won ((k, a) ∷ to) held paid h =
    let (b, e, h1) = >>=-eq-ok (held_at k held) _ h in
    let (c, s, h2) = >>=-eq-ok (paid_to (member k stakers) b a won) _ h1 in
    ground (
      arith,
      paid_to_count (member k stakers) b c a won s,
      held_total-insert k b c held e,
      pay_all_total stakers won to (insert k c held) paid h2,
    )

payout_of_total :
    (sources : Dict (Option ℕ) Kismet) (to : Dict ℕ Kismet) (g : ℕ) (p : Payout)
    → payout_of sources to g ≡ ok p
    → (total_kismet to ≡ total_kismet sources)
      × (p.sources ≡ sources)
      × (p.to ≡ to)
      × (p.generation ≡ g)
unfolding payout_of
payout_of_total sources to g p h =
    let (u, e0, h0) = >>=-eq-ok (guard (leb 1 g) value_error) _ h in
    let (given, e1, h1) = >>=-eq-ok (sum_kismet sources zero_kismet) _ h0 in
    let (paid, e2, h2) = >>=-eq-ok (sum_kismet to zero_kismet) _ h1 in
    ground (
      arith,
      sum_kismet_count sources zero_kismet given e1,
      sum_kismet_count to zero_kismet paid e2,
    )

-- What a block's payout adds to the balances of the identities it names: the new Karma, and
-- nothing in a block with none.
abbrev pub issued_by : Option Payout → ℕ
issued_by none = 0
issued_by (some p) = new_karma p.sources

-- A payout that the constructor makes.
abbrev pub IsPayout : Option Payout → Type 0
IsPayout none = Unit
IsPayout (some p) = payout_of p.sources p.to p.generation ≡ ok p

apply_payout_total :
    (p : Option Payout) (stakers : List ℕ) (won : Generation) (held checked : Dict ℕ Balance)
    → IsPayout p
    → apply_payout p stakers won held ≡ ok checked
    → held_total checked ≡ held_total held + issued_by p
unfolding apply_payout
apply_payout_total none stakers won held checked v h = ground arith
apply_payout_total (some p) stakers won held checked v h =
    let (taken, e, h1) = >>=-eq-ok (take_sources p.sources held) _ h in
    ground (
      arith,
      take_sources_total p.sources held taken e,
      pay_all_total stakers won p.to taken checked h1,
      payout_of_total p.sources p.to p.generation p v,
      given_or_new p.sources,
    )

sheet_of_checked :
    (block : TransactionBlock) (before : Dict ℕ Balance) (stakers : List ℕ) (sheet : BalanceSheet)
    → sheet_of block before stakers ≡ ok sheet
    → paid block before stakers ≡ ok sheet.checked
unfolding sheet_of
sheet_of_checked block before stakers sheet h =
    let start : Moves = record { sent_by = []; received_by = [] } in
    let (checked, e1, h1) = >>=-eq-ok (paid block before stakers) _ h in
    let (sending, e2, h2) = >>=-eq-ok (sending_of (signed block) []) _ h1 in
    let (overspent, e3, h3) = >>=-eq-ok (overspent_of sending checked) _ h2 in
    let (moves, e4, h4) = >>=-eq-ok (moved_from (signed block) overspent start) _ h3 in
    let (after, e5, h5) =
      >>=-eq-ok (leave moves (generation_before block.generation) checked) _ h4 in
    ground (arith, e1)

-- Over a whole block whose payout, if it holds one, is one that can be made, the identities it names
-- hold what they held before it, and the new Karma that the payout brings: neither the payout nor
-- the transactions make or lose any other.
pub sheet_of_issues :
    (block : TransactionBlock) (before : Dict ℕ Balance) (stakers : List ℕ) (sheet : BalanceSheet)
    → IsPayout (payout block)
    → sheet_of block before stakers ≡ ok sheet
    → held_total sheet.after
      ≡ held_total (held_before before (named block)) + issued_by (payout block)
sheet_of_issues block before stakers sheet v h =
    let e : paid block before stakers ≡ ok sheet.checked =
      sheet_of_checked block before stakers sheet h in
    sheet_of_total block before stakers sheet h
    ∙ apply_payout_total (payout block) stakers (generation_before block.generation)
        (held_before before (named block)) sheet.checked v (unfold paid in e)
