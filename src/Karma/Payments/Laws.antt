-- ===== src/Karma/Payments/Laws.antt =====
-- When payments queued are due, and that the transaction made of them pays each in full:
-- src/libranet/protocol/karma_payments.py.
use libranet.Base.{
  ℕ, ◌+◌, ◌≤◌, ◌<◌, ◌≡◌, refl, true, false, Option, none, some, List, [], ◌∷◌, arith, ◌==◌,
  if◌then◌else◌, ==_iff, nat_eq, >>=-eq-ok, ok,
}
use libranet.Base.Dict.{Dict, get_or, insert, get_or-insert}
use libranet.Karma.Amounts.{zero_kismet, add, Kismet}
use libranet.Karma.Amounts.Laws.{count-add}
use libranet.Karma.Blocks.{transaction_of, Transaction}
use libranet.Karma.Payments.{
  is_due, due, when_due, due_at, next_created, paid_each, made, Payment, PaymentQueue,
}

-- The node's next transaction is created later than its last, and no earlier than now.
next_created-later :
    (last now : ℕ) → (last < next_created (some last) now) × (now ≤ next_created (some last) now)
unfolding next_created
next_created-later last now = ground arith

when_due-due :
    (ps : List Payment) (last : Option ℕ) (now batch interval t : ℕ)
    → when_due ps last (is_due ps none last now batch interval) now interval ≡ some t
    → (is_due ps none last t batch interval ≡ true) × (now ≤ t)
when_due-due [] last now batch interval t e = cc
when_due-due (p ∷ ps) none now batch interval t e = ground arith
when_due-due (p ∷ ps) (some last) now batch interval t e = ground arith

when_due-before :
    (ps : List Payment) (last : Option ℕ) (now batch interval t now' : ℕ)
    → when_due ps last (is_due ps none last now batch interval) now interval ≡ some t
    → now ≤ now'
    → now' < t
    → is_due ps none last now' batch interval ≡ false
when_due-before [] last now batch interval t now' e h k = refl
when_due-before (p ∷ ps) none now batch interval t now' e h k = ground arith
when_due-before (p ∷ ps) (some last) now batch interval t now' e h k = ground arith

-- With no transaction waiting to be put up, the moment that the payments queued are said to be due
-- at is no earlier than now, and they are due then.
pub due_at-due :
    (q : PaymentQueue) (now batch interval t : ℕ)
    → q.transaction ≡ none
    → due_at q now batch interval ≡ some t
    → (due q t batch interval ≡ true) × (now ≤ t)
unfolding due_at due
due_at-due q now batch interval t h e =
    ground (arith, h, when_due-due q.payments q.last_created now batch interval t)

-- With no transaction waiting to be put up, the payments queued are not due at any moment from now
-- until the one they are said to be due at.
pub due_at-before :
    (q : PaymentQueue) (now batch interval t now' : ℕ)
    → q.transaction ≡ none
    → due_at q now batch interval ≡ some t
    → now ≤ now'
    → now' < t
    → due q now' batch interval ≡ false
unfolding due_at due
due_at-before q now batch interval t now' h e l k =
    ground (arith, h, when_due-before q.payments q.last_created now batch interval t now')

-- What the payments queued pay an identity.
abbrev pub queued_for : ℕ → List Payment → ℕ
queued_for identity [] = 0
queued_for identity (p ∷ ps) =
    (if p.recipient == identity then p.amount.count else 0) + queued_for identity ps

paid_each_pays :
    (ps : List Payment) (to to' : Dict ℕ Kismet) (identity : ℕ)
    → paid_each ps to ≡ ok to'
    → (get_or identity zero_kismet to').count
      ≡ (get_or identity zero_kismet to).count + queued_for identity ps
unfolding paid_each
paid_each_pays [] to to' identity h = ground arith
paid_each_pays (p ∷ ps) to to' identity h =
    let (amount, added, rest) =
      >>=-eq-ok (add (get_or p.recipient zero_kismet to) p.amount)
        (λ amount. paid_each ps (insert p.recipient amount to)) h in
    ground (
      arith,
      count-add (get_or p.recipient zero_kismet to) p.amount amount added,
      paid_each_pays ps (insert p.recipient amount to) to' identity rest,
      get_or-insert p.recipient identity amount zero_kismet to,
      ==_iff p.recipient identity,
    )

-- The transaction made of the payments queued is the sender's, pays each identity what the payments
-- to it come to, and no fee, and is created when `next_created` says.
pub made_pays :
    (q : PaymentQueue) (sender generation now identity : ℕ) (t : Transaction)
    → made q sender generation now ≡ ok t
    → (t.sender ≡ sender)
      × ((get_or identity zero_kismet t.to).count ≡ queued_for identity q.payments)
      × (t.fee.count ≡ 0)
      × (t.created ≡ next_created q.last_created now)
unfolding made transaction_of
made_pays q sender generation now identity t h =
    let (to, e, rest) =
      >>=-eq-ok (paid_each q.payments [])
        (λ to. transaction_of (record {
          sender = sender;
          to = to;
          fee = zero_kismet;
          generation = generation;
          created = next_created q.last_created now;
          nonce = [];
        }))
        h in
    ground (arith, paid_each_pays q.payments [] to identity e, rest)
