-- ===== src/Karma/Ledger/Sheet.antt =====
-- The balances a transaction block is checked against, and those it leaves: `BalanceSheet` of
-- src/libranet/karma/ledger.py.
pub mod Stated
pub mod Keys
pub mod Transactions
pub mod Payouts
use libranet.Base.{
  ℕ, Bool, true, false, Option, none, some, List, [], ◌∷◌, ltb, leb, if◌then◌else◌, nat_eq, ◌>>=◌,
  ◌>>◌, guard, value_error, key_error, Result, ok, err,
}
use libranet.Base.Dict.{Dict, lookup, get_or, insert, member, add_count}
use libranet.Karma.Amounts.{zero_kismet, add, sub, Kismet}
use libranet.Karma.Balances.{
  generation_before, last_won_of, balance_of, no_balance, sent, received, Balance, Generation,
}
use libranet.Karma.Blocks.{
  sends, signed, payout, named, Transaction, SignedTransaction, Payout, TransactionBlock,
}

-- `BalanceSheet`
pub record BalanceSheet : Type 0 where
  pub block : TransactionBlock
  pub before : Dict ℕ Balance
  pub checked : Dict ℕ Balance
  pub after : Dict ℕ Balance
  pub overspent : List ℕ

-- `{identity: before.get(identity, NO_BALANCE) for identity in block.named()}`
unfoldable pub held_before : Dict ℕ Balance → List ℕ → Dict ℕ Balance
held_before before [] = []
held_before before (identity ∷ identities) =
    (identity, get_or identity no_balance before) ∷ held_before before identities

-- `d[k]` of a dictionary that may lack `k`
unfoldable pub held_at : ℕ → Dict ℕ Balance → Result Balance
held_at identity held = elim (lookup identity held) [ none ↦ err key_error | some b ↦ ok b ]

-- The loop of `_paid` that takes what each source but the new Karma gives.
unfoldable pub take_sources : Dict (Option ℕ) Kismet → Dict ℕ Balance → Result (Dict ℕ Balance)
take_sources [] held = ok held
take_sources ((none, amount) ∷ sources) held = take_sources sources held
take_sources ((some source, amount) ∷ sources) held = do
  b ← held_at source held
  guard (leb amount.count b.kismet.count) value_error
  left ← sent b amount
  take_sources sources (insert source left held)

-- What one that a payout pays then holds: a staker has won the generation, and another receives.
unfoldable pub paid_to : Bool → Balance → Kismet → Generation → Result Balance
paid_to true b amount won = do
  sum ← add b.kismet amount
  last ← last_won_of won
  balance_of sum (some last)
paid_to false b amount won = received b amount won

-- The loop of `_paid` that pays each of `to`.
unfoldable pub pay_all :
    List ℕ → Generation → Dict ℕ Kismet → Dict ℕ Balance → Result (Dict ℕ Balance)
unfolding paid_to
pay_all stakers won [] held = ok held
pay_all stakers won ((identity, amount) ∷ to) held = do
  b ← held_at identity held
  paid ← paid_to (member identity stakers) b amount won
  pay_all stakers won to (insert identity paid held)

-- The rest of `_paid`, once the balances before the block are read.
unfoldable pub apply_payout :
    Option Payout → List ℕ → Generation → Dict ℕ Balance → Result (Dict ℕ Balance)
apply_payout none stakers won held = ok held
apply_payout (some p) stakers won held = do
  taken ← take_sources p.sources held
  pay_all stakers won p.to taken

-- `BalanceSheet._paid`
unfoldable pub paid : TransactionBlock → Dict ℕ Balance → List ℕ → Result (Dict ℕ Balance)
paid block before stakers =
    apply_payout (payout block) stakers (generation_before block.generation)
      (held_before before (named block))

-- The loop of `of` over what each sender sends in all, fees among it.
unfoldable pub sending_of : List SignedTransaction → Dict ℕ ℕ → Result (Dict ℕ ℕ)
sending_of [] sending = ok sending
sending_of (s ∷ rest) sending = do
  all ← sends s.transaction
  sending_of rest (add_count s.transaction.sender all.count sending)

-- The senders that send more than they hold.
unfoldable pub overspent_of : Dict ℕ ℕ → Dict ℕ Balance → Result (List ℕ)
overspent_of [] checked = ok []
overspent_of ((sender, count) ∷ sending) checked = do
  b ← held_at sender checked
  rest ← overspent_of sending checked
  ok (if ltb b.kismet.count count then sender ∷ rest else rest)

-- `d[k] = d.get(k, Kismet(0)) + amount`
unfoldable pub add_amount : ℕ → Kismet → Dict ℕ Kismet → Result (Dict ℕ Kismet)
add_amount identity amount amounts = do
  sum ← add (get_or identity zero_kismet amounts) amount
  ok (insert identity sum amounts)

-- The inner loop of `_moved`: what each recipient of a transaction is paid.
unfoldable pub receive_all : Dict ℕ Kismet → Dict ℕ Kismet → Result (Dict ℕ Kismet)
receive_all [] received = ok received
receive_all ((identity, amount) ∷ to) received = do
  more ← add_amount identity amount received
  receive_all to more

-- What is sent, fees aside, and what is received.
pub record Moves : Type 0 where
  pub sent_by : Dict ℕ Kismet
  pub received_by : Dict ℕ Kismet

unfoldable pub move_one : Transaction → Moves → Result Moves
unfolding receive_all add_amount
move_one t moves = do
  all ← sends t
  rest ← sub all t.fee
  now_sent ← add_amount t.sender rest moves.sent_by
  now_received ← receive_all t.to moves.received_by
  ok (record { sent_by = now_sent; received_by = now_received })

-- `BalanceSheet._moved`
unfoldable pub moved_from : List SignedTransaction → List ℕ → Moves → Result Moves
moved_from [] overspent moves = ok moves
moved_from (s ∷ rest) overspent moves = do
  next ← (if member s.transaction.sender overspent then ok moves else move_one s.transaction moves)
  moved_from rest overspent next

-- The comprehension of `of` that gives each balance after every transaction.
unfoldable pub leave : Moves → Generation → Dict ℕ Balance → Result (Dict ℕ Balance)
leave moves won [] = ok []
leave moves won ((identity, b) ∷ checked) = do
  left ← sent b (get_or identity zero_kismet moves.sent_by)
  held ← received left (get_or identity zero_kismet moves.received_by) won
  rest ← leave moves won checked
  ok ((identity, held) ∷ rest)

-- `BalanceSheet.of`
unfoldable pub sheet_of : TransactionBlock → Dict ℕ Balance → List ℕ → Result BalanceSheet
sheet_of block before stakers = do
  checked ← paid block before stakers
  sending ← sending_of (signed block) []
  overspent ← overspent_of sending checked
  moves ← moved_from (signed block) overspent (record { sent_by = []; received_by = [] })
  after ← leave moves (generation_before block.generation) checked
  ok (record {
    block = block;
    before = before;
    checked = checked;
    after = after;
    overspent = overspent;
  })
