-- ===== src/Karma/Ledger/Sheet/Transactions.antt =====
-- The transactions of a block move Kismet among the identities it names, and make or lose none.
use libranet.Base.{
  ℕ, ◌+◌, ◌≡◌, refl, inl, inr, Bool, true, false, List, [], ◌∷◌, arith, if◌then◌else◌, Bool-cases,
  nat_eq, sum_by, All, >>=-eq-ok, ok,
}
use libranet.Base.Dict.{Dict, get_or, insert, keys, member, IsDistinct, get_or-insert}
use libranet.Karma.Amounts.{zero_kismet, kismet_of, add, sub, Kismet}
use libranet.Karma.Amounts.Laws.{count-sub, count-add}
use libranet.Karma.Balances.{generation_before, balance_of, sent, received, Balance, Generation}
use libranet.Karma.Blocks.{
  sum_kismet, total_kismet, sends, signed, named, Transaction, SignedTransaction, TransactionBlock,
}
use libranet.Karma.Blocks.Named.{IsNamed, named-IsDistinct, named-All}
use libranet.Karma.Ledger.Sheet.Keys.{keys-paid}
use libranet.Karma.Ledger.Sheet.{
  paid, sending_of, overspent_of, add_amount, receive_all, move_one, moved_from, leave, sheet_of,
  BalanceSheet, Moves,
}

-- All the Kismet that balances hold.
abbrev pub held_total : Dict ℕ Balance → ℕ
held_total held = sum_by (λ (entry : ℕ × Balance). entry.1.kismet.count) held

-- The sum of what `amounts` gives each of `ids`.
abbrev sum_amounts : List ℕ → Dict ℕ Kismet → ℕ
sum_amounts ids amounts = sum_by (λ k. (get_or k zero_kismet amounts).count) ids

pub sent_count :
    (b c : Balance) (a : Kismet) → sent b a ≡ ok c → c.kismet.count + a.count ≡ b.kismet.count
unfolding sent sub kismet_of balance_of
sent_count b c a h = ground arith

pub received_count :
    (b c : Balance) (a : Kismet) (g : Generation)
    → received b a g ≡ ok c
    → c.kismet.count ≡ b.kismet.count + a.count
unfolding received add kismet_of balance_of
received_count b c a g h = ground arith

leave_total :
    (moves : Moves) (won : Generation) (checked after : Dict ℕ Balance)
    → leave moves won checked ≡ ok after
    → held_total after + sum_amounts (keys checked) moves.sent_by
      ≡ held_total checked + sum_amounts (keys checked) moves.received_by
unfolding leave
leave_total moves won [] after h = ground arith
leave_total moves won ((k, b) ∷ checked) after h =
    let gone : Kismet = get_or k zero_kismet moves.sent_by in
    let come : Kismet = get_or k zero_kismet moves.received_by in
    let (left, s, h1) = >>=-eq-ok (sent b gone) _ h in
    let (held, r, h2) = >>=-eq-ok (received left come won) _ h1 in
    let (rest, l, h3) = >>=-eq-ok (leave moves won checked) _ h2 in
    ground (
      arith,
      sent_count b left gone s,
      received_count left held come won r,
      leave_total moves won checked rest l,
    )

sum_amounts-insert_out :
    (k : ℕ) (v : Kismet) (ids : List ℕ) (d : Dict ℕ Kismet)
    → member k ids ≡ false
    → sum_amounts ids (insert k v d) ≡ sum_amounts ids d
sum_amounts-insert_out k v [] d h = refl
sum_amounts-insert_out k v (j ∷ ids) d h =
    ground (arith, get_or-insert k j v zero_kismet d, sum_amounts-insert_out k v ids d)

sum_amounts-insert :
    (k : ℕ) (v : Kismet) (ids : List ℕ) (d : Dict ℕ Kismet)
    → IsDistinct ids
    → member k ids ≡ true
    → sum_amounts ids (insert k v d) + (get_or k zero_kismet d).count ≡ sum_amounts ids d + v.count
sum_amounts-insert k v [] d u h = cc
sum_amounts-insert k v (j ∷ ids) d u h = ground (
  arith,
  get_or-insert k j v zero_kismet d,
  sum_amounts-insert_out k v ids d,
  sum_amounts-insert k v ids d u.1,
)

add_amount_total :
    (k : ℕ) (a : Kismet) (ids : List ℕ) (d e : Dict ℕ Kismet)
    → IsDistinct ids
    → member k ids ≡ true
    → add_amount k a d ≡ ok e
    → sum_amounts ids e ≡ sum_amounts ids d + a.count
unfolding add_amount
add_amount_total k a ids d e u m h =
    let (sum, s, h1) = >>=-eq-ok (add (get_or k zero_kismet d) a) _ h in
    ground (arith, count-add (get_or k zero_kismet d) a sum s, sum_amounts-insert k sum ids d u m)

receive_all_total :
    (to : Dict ℕ Kismet) (ids : List ℕ) (d e : Dict ℕ Kismet)
    → IsDistinct ids
    → All (λ (entry : ℕ × Kismet). member entry.0 ids ≡ true) to
    → receive_all to d ≡ ok e
    → sum_amounts ids e ≡ sum_amounts ids d + total_kismet to
unfolding receive_all
receive_all_total [] ids d e u m h = ground arith
receive_all_total ((k, a) ∷ to) ids d e u m h =
    let (more, s, h1) = >>=-eq-ok (add_amount k a d) _ h in
    ground
      (arith, add_amount_total k a ids d more u m.0 s, receive_all_total to ids more e u m.1 h1)

pub sum_kismet_count :
    {K : Type 0} (amounts : Dict K Kismet) (start s : Kismet)
    → sum_kismet amounts start ≡ ok s
    → s.count ≡ start.count + total_kismet amounts
unfolding sum_kismet
sum_kismet_count [] start s h = ground arith
sum_kismet_count ((k, a) ∷ amounts) start s h =
    let (next, e, h1) = >>=-eq-ok (add start a) _ h in
    ground (arith, count-add start a next e, sum_kismet_count amounts next s h1)

-- What is sent and what is received are as much, over the identities of the block.
abbrev IsEven : List ℕ → Moves → Type 0
IsEven ids moves = sum_amounts ids moves.sent_by ≡ sum_amounts ids moves.received_by

move_one-IsEven :
    (s : SignedTransaction) (ids : List ℕ) (m n : Moves)
    → IsDistinct ids
    → IsNamed ids s
    → move_one s.transaction m ≡ ok n
    → IsEven ids m
    → IsEven ids n
unfolding move_one sends
move_one-IsEven s ids m n u named h even =
    let t : Transaction = s.transaction in
    let (all, e1, h1) = >>=-eq-ok (sum_kismet t.to t.fee) _ h in
    let (rest, e2, h2) = >>=-eq-ok (sub all t.fee) _ h1 in
    let (gone, e3, h3) = >>=-eq-ok (add_amount t.sender rest m.sent_by) _ h2 in
    let (come, e4, h4) = >>=-eq-ok (receive_all t.to m.received_by) _ h3 in
    ground (
      arith,
      sum_kismet_count t.to t.fee all e1,
      count-sub all t.fee rest e2,
      add_amount_total t.sender rest ids m.sent_by gone u named.0 e3,
      receive_all_total t.to ids m.received_by come u named.1 e4,
    )

moved_from-IsEven :
    (ss : List SignedTransaction) (overspent ids : List ℕ) (m n : Moves)
    → IsDistinct ids
    → All (IsNamed ids) ss
    → moved_from ss overspent m ≡ ok n
    → IsEven ids m
    → IsEven ids n
unfolding moved_from
moved_from-IsEven [] overspent ids m n u named h even = ground arith
moved_from-IsEven (s ∷ ss) overspent ids m n u named h even =
    let passed : Bool = member s.transaction.sender overspent in
    let (next, e, h1) =
      >>=-eq-ok (if passed then ok m else move_one s.transaction m) (moved_from ss overspent) h in
    moved_from-IsEven ss overspent ids next n u named.1 h1 (elim (Bool-cases passed) [
      | inl out ↦ let same : m ≡ next = ground arith in rw (← same) even
      | inr moving ↦ move_one-IsEven s ids m next u named.0 (ground arith) even
    ])

-- Whenever a block's balances are worked out, the transactions of the block, those of overspent
-- senders left out, have moved the Kismet of the balances it is checked against, and made or lost
-- none.
pub sheet_of_total :
    (block : TransactionBlock) (before : Dict ℕ Balance) (stakers : List ℕ) (sheet : BalanceSheet)
    → sheet_of block before stakers ≡ ok sheet
    → held_total sheet.after ≡ held_total sheet.checked
unfolding sheet_of
sheet_of_total block before stakers sheet h =
    let won : Generation = generation_before block.generation in
    let start : Moves = record { sent_by = []; received_by = [] } in
    let (checked, e1, h1) = >>=-eq-ok (paid block before stakers) _ h in
    let (sending, e2, h2) = >>=-eq-ok (sending_of (signed block) []) _ h1 in
    let (overspent, e3, h3) = >>=-eq-ok (overspent_of sending checked) _ h2 in
    let (moves, e4, h4) = >>=-eq-ok (moved_from (signed block) overspent start) _ h3 in
    let (after, e5, h5) = >>=-eq-ok (leave moves won checked) _ h4 in
    let ids : keys checked ≡ named block = keys-paid block before checked stakers e1 in
    let even : IsEven (named block) moves =
      moved_from-IsEven (signed block) overspent (named block) start moves (named-IsDistinct block)
        (named-All block) e4 refl in
    let even' : IsEven (keys checked) moves = rw ids even in
    ground (arith, leave_total moves won checked after e5, even')
