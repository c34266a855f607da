-- ===== src/Karma/Ledger/Sheet/Keys.antt =====
-- The balances a block is checked against are of the identities it names, each once.
use libranet.Base.{
  ℕ, ◌≡◌, refl, ap, ◌∙◌, Option, none, some, List, [], ◌∷◌, arith, leb, nat_eq, guard, >>=-eq-ok,
  value_error, ok,
}
use libranet.Base.Dict.{Dict, insert, keys, member}
use libranet.Karma.Amounts.{Kismet}
use libranet.Karma.Balances.{generation_before, sent, Balance, Generation}
use libranet.Karma.Blocks.{payout, named, Payout, TransactionBlock}
use libranet.Karma.Ledger.Sheet.{
  held_before, held_at, take_sources, paid_to, pay_all, apply_payout, paid,
}

-- Setting a key that is there leaves the keys.
keys-insert :
    (k : ℕ) (b c : Balance) (held : Dict ℕ Balance)
    → held_at k held ≡ ok b
    → keys (insert k c held) ≡ keys held
unfolding held_at
keys-insert k b c [] h = cc
keys-insert k b c ((j, d) ∷ held) h = ground (arith, keys-insert k b c held)

keys-held_before : (before : Dict ℕ Balance) (ids : List ℕ) → keys (held_before before ids) ≡ ids
unfolding held_before
keys-held_before before [] = refl
keys-held_before before (k ∷ ids) = ap (λ l. k ∷ l) (keys-held_before before ids)

keys-take_sources :
    (sources : Dict (Option ℕ) Kismet) (held taken : Dict ℕ Balance)
    → take_sources sources held ≡ ok taken
    → keys taken ≡ keys held
unfolding take_sources
keys-take_sources [] held taken h = ground arith
keys-take_sources ((none, amount) ∷ sources) held taken h = keys-take_sources sources held taken h
keys-take_sources ((some k, amount) ∷ sources) held taken h =
    let (b, e, h1) = >>=-eq-ok (held_at k held) _ h in
    let (u, g, h2) = >>=-eq-ok (guard (leb amount.count b.kismet.count) value_error) _ h1 in
    let (left, s, h3) = >>=-eq-ok (sent b amount) _ h2 in
    keys-take_sources sources (insert k left held) taken h3 ∙ keys-insert k b left held e

keys-pay_all :
    (stakers : List ℕ) (won : Generation) (to : Dict ℕ Kismet) (held paid : Dict ℕ Balance)
    → pay_all stakers won to held ≡ ok paid
    → keys paid ≡ keys held
unfolding pay_all
keys-pay_all stakers won [] held paid h = ground arith
keys-pay_all stakers won ((k, amount) ∷ to) held paid h =
    let (b, e, h1) = >>=-eq-ok (held_at k held) _ h in
    let (c, s, h2) = >>=-eq-ok (paid_to (member k stakers) b amount won) _ h1 in
    keys-pay_all stakers won to (insert k c held) paid h2 ∙ keys-insert k b c held e

keys-apply_payout :
    (p : Option Payout) (stakers : List ℕ) (won : Generation) (held checked : Dict ℕ Balance)
    → apply_payout p stakers won held ≡ ok checked
    → keys checked ≡ keys held
unfolding apply_payout
keys-apply_payout none stakers won held checked h = ground arith
keys-apply_payout (some p) stakers won held checked h =
    let (taken, e, h1) = >>=-eq-ok (take_sources p.sources held) _ h in
    keys-pay_all stakers won p.to taken checked h1 ∙ keys-take_sources p.sources held taken e

-- A block is checked against the balances of exactly the identities that it names.
pub keys-paid :
    (block : TransactionBlock) (before checked : Dict ℕ Balance) (stakers : List ℕ)
    → paid block before stakers ≡ ok checked
    → keys checked ≡ named block
unfolding paid
keys-paid block before checked stakers h =
    keys-apply_payout (payout block) stakers (generation_before block.generation)
      (held_before before (named block)) checked h
    ∙ keys-held_before before (named block)
