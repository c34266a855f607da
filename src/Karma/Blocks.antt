-- ===== src/Karma/Blocks.antt =====
-- The transactions, payouts, stakes and blocks that the ledger's arithmetic reads:
-- src/libranet/protocol/karma_transactions.py, src/libranet/protocol/karma_stakes.py and
-- src/libranet/karma/blocks.py. Identities, hashes and moments are numbers, since they are only
-- compared here; a moment is counted in seconds.
pub mod Named
pub mod Bounds
use libranet.Base.{
  ℕ, ◌+◌, Option, none, some, List, [], ◌∷◌, leb, ◌==◌, if◌then◌else◌, nat_eq, sum_by, ◌>>=◌, ◌>>◌,
  guard, value_error, Result, ok, err,
}
use libranet.Base.Dict.{Dict, add_key}
use libranet.Karma.Amounts.{max_kismet, zero_kismet, add, Kismet}
use libranet.Karma.Balances.{Balance}
use libranet.Karma.Weight.{ChainWeight, StakeBaseline}
use libranet.Decimal.{Text}

-- `sum(amounts.values(), start)`
unfoldable pub sum_kismet : {K : Type 0} → Dict K Kismet → Kismet → Result Kismet
sum_kismet [] start = ok start
sum_kismet ((identity, amount) ∷ amounts) start = do
  so_far ← add start amount
  sum_kismet amounts so_far

-- The sum of the counts of a dictionary's amounts.
abbrev pub total_kismet : {K : Type 0} → Dict K Kismet → ℕ
total_kismet {K} amounts = sum_by (λ (entry : K × Kismet). entry.1.count) amounts

-- `Transaction`
pub record Transaction : Type 0 where
  pub sender : ℕ
  pub to : Dict ℕ Kismet
  pub fee : Kismet
  pub generation : ℕ
  pub created : ℕ
  pub nonce : Text

-- The check of `Transaction.__post_init__` on what it sends.
unfoldable pub transaction_of : Transaction → Result Transaction
transaction_of t =
    if leb (t.fee.count + total_kismet t.to) max_kismet then ok t else err value_error

-- `Transaction.sends`
unfoldable pub sends : Transaction → Result Kismet
unfolding sum_kismet
sends t = sum_kismet t.to t.fee

-- `SignedTransaction`, without its bundle
pub record SignedTransaction : Type 0 where
  pub transaction : Transaction
  pub hash : ℕ

-- `Payout`, without its text; `none` among its sources is the new Karma.
pub record Payout : Type 0 where
  pub sources : Dict (Option ℕ) Kismet
  pub to : Dict ℕ Kismet
  pub generation : ℕ

-- `Payout.of`, with the checks of `__post_init__`
unfoldable pub payout_of : Dict (Option ℕ) Kismet → Dict ℕ Kismet → ℕ → Result Payout
unfolding sum_kismet
payout_of sources to generation = do
  guard (leb 1 generation) value_error
  given ← sum_kismet sources zero_kismet
  paid ← sum_kismet to zero_kismet
  guard (paid.count == given.count) value_error
  ok (record { sources = sources; to = to; generation = generation })

-- An entry of a block's transactions.
pub data Entry : Type 0 where
  signed_entry : SignedTransaction → Entry
  payout_entry : Payout → Entry

-- `TransactionBlock`
pub record TransactionBlock : Type 0 where
  pub generation : ℕ
  pub previous : Option ℕ
  pub weight : ChainWeight
  pub reach : ℕ
  pub transactions : List Entry
  pub balances : Dict ℕ Balance
  pub age_limit : ℕ
  pub stake_baseline : StakeBaseline

unfoldable pub signed_of : List Entry → List SignedTransaction
signed_of [] = []
signed_of (signed_entry s ∷ entries) = s ∷ signed_of entries
signed_of (payout_entry p ∷ entries) = signed_of entries

-- `TransactionBlock.signed`
unfoldable pub signed : TransactionBlock → List SignedTransaction
signed block = signed_of block.transactions

unfoldable pub payout_in : List Entry → Option Payout
payout_in [] = none
payout_in (signed_entry s ∷ entries) = payout_in entries
payout_in (payout_entry p ∷ entries) = some p

-- `TransactionBlock.payout`
unfoldable pub payout : TransactionBlock → Option Payout
payout block = payout_in block.transactions

-- `identities.update(amounts)`
unfoldable pub add_keys : {V : Type 0} → Dict ℕ V → List ℕ → List ℕ
add_keys [] identities = identities
add_keys ((identity, amount) ∷ amounts) identities = add_keys amounts (add_key identity identities)

unfoldable pub add_sources : Dict (Option ℕ) Kismet → List ℕ → List ℕ
add_sources [] identities = identities
add_sources ((none, amount) ∷ sources) identities = add_sources sources identities
add_sources ((some source, amount) ∷ sources) identities =
    add_sources sources (add_key source identities)

unfoldable pub named_signed : List SignedTransaction → List ℕ → List ℕ
named_signed [] identities = identities
named_signed (s ∷ rest) identities =
    named_signed rest (add_keys s.transaction.to (add_key s.transaction.sender identities))

unfoldable pub named_payout : Option Payout → List ℕ → List ℕ
named_payout none identities = identities
named_payout (some p) identities = add_keys p.to (add_sources p.sources identities)

-- `TransactionBlock.named`; nothing depends on the order of the set.
unfoldable pub named : TransactionBlock → List ℕ
named block = named_payout (payout block) (named_signed (signed block) [])

-- `Stake`, and `SignedStake` without its bundle, whose signer is the staker
pub record Stake : Type 0 where
  pub staker : ℕ
  pub transaction_block : ℕ
  pub kismet : Kismet
  pub created : ℕ

pub record SignedStake : Type 0 where
  pub stake : Stake
  pub hash : ℕ

-- `ValidationBlock`
pub record ValidationBlock : Type 0 where
  pub generation : ℕ
  pub runner_up : Option ℕ
  pub stakes : List SignedStake
  pub witnessed : List ℕ
