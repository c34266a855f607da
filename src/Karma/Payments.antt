-- ===== src/Karma/Payments.antt =====
-- The node's payments, queued and made into one transaction: `Payment` and `PaymentQueue` of
-- src/libranet/protocol/karma_payments.py. Moments and intervals are counted in seconds.
pub mod Laws
use libranet.Base.{
  ℕ, ◌+◌, Bool, true, false, Option, none, some, List, [], ◌∷◌, ◌++◌, leb, if◌then◌else◌, nat_eq,
  length, ◌>>=◌, ◌>>◌, value_error, Result, ok, err,
}
use libranet.Base.Dict.{Dict, get_or, insert}
use libranet.Karma.Amounts.{zero_kismet, add, is_zero, percent, Kismet, Percent}
use libranet.Karma.Blocks.{transaction_of, Transaction}

-- `Payment`; `payment_of` is its constructor with the check of `__post_init__`.
pub record Payment : Type 0 where
  pub recipient : ℕ
  pub amount : Kismet

unfoldable pub payment_of : ℕ → Kismet → Result Payment
payment_of recipient amount =
    if is_zero amount
    then err value_error
    else ok (record { recipient = recipient; amount = amount })

-- `Payment.of`
unfoldable pub of_percent : ℕ → Kismet → Percent → Result (Option Payment)
unfolding payment_of
of_percent recipient balance p = do
  amount ← percent balance p
  if is_zero amount then ok none else payment_of recipient amount >>= (λ payment. ok (some payment))

-- `PaymentQueue`
pub record PaymentQueue : Type 0 where
  pub payments : List Payment
  pub last_created : Option ℕ
  pub transaction : Option Transaction

-- `queued`
unfoldable pub queued : PaymentQueue → Payment → PaymentQueue
queued q payment = record q { payments = q.payments ++ (payment ∷ []) }

abbrev pub passed : Option ℕ → ℕ → ℕ → Bool
passed none now interval = true
passed (some last) now interval = leb (last + interval) now

abbrev pub is_due : List Payment → Option Transaction → Option ℕ → ℕ → ℕ → ℕ → Bool
is_due payments (some t) last now batch interval = false
is_due [] none last now batch interval = false
is_due (p ∷ ps) none last now batch interval =
    if leb batch (length (p ∷ ps)) then true else passed last now interval

-- `due`
unfoldable pub due : PaymentQueue → ℕ → ℕ → ℕ → Bool
due q now batch interval = is_due q.payments q.transaction q.last_created now batch interval

abbrev pub at_interval : Option ℕ → ℕ → ℕ → ℕ
at_interval none now interval = now
at_interval (some last) now interval = last + interval

abbrev pub when_due : List Payment → Option ℕ → Bool → ℕ → ℕ → Option ℕ
when_due [] last is_now now interval = none
when_due (p ∷ ps) last true now interval = some now
when_due (p ∷ ps) last false now interval = some (at_interval last now interval)

-- `due_at`
unfoldable pub due_at : PaymentQueue → ℕ → ℕ → ℕ → Option ℕ
unfolding due
due_at q now batch interval =
    when_due q.payments q.last_created (due q now batch interval) now interval

-- `next_created`
unfoldable pub next_created : Option ℕ → ℕ → ℕ
next_created none now = now
next_created (some last) now = if leb now last then last + 1 else now

-- The loop of `made`: what each recipient is paid.
unfoldable pub paid_each : List Payment → Dict ℕ Kismet → Result (Dict ℕ Kismet)
paid_each [] to = ok to
paid_each (p ∷ ps) to = do
  amount ← add (get_or p.recipient zero_kismet to) p.amount
  paid_each ps (insert p.recipient amount to)

-- `made`
unfoldable pub made : PaymentQueue → ℕ → ℕ → ℕ → Result Transaction
unfolding paid_each transaction_of next_created
made q sender generation now = do
  to ← paid_each q.payments []
  transaction_of (record {
    sender = sender;
    to = to;
    fee = zero_kismet;
    generation = generation;
    created = next_created q.last_created now;
    nonce = [];
  })

-- `keeping`
unfoldable pub keeping : Transaction → PaymentQueue
keeping t = record { payments = []; last_created = some t.created; transaction = some t }
