-- ===== src/Messaging/Dispatcher.antt =====
-- The hub that every module's messages pass through: src/libranet/messaging/dispatcher.py, with the
-- envelope of src/libranet/messaging/envelope.py. An inbox's queue is first in, first out, and
-- takes `capacity` messages; what its module has read of it is kept beside it. What is kept for
-- the log alone is left out, but for the count of the messages held.
use libranet.Base.{
  ℕ, ◌+◌, Bool, true, false, not, Option, none, some, List, [], ◌∷◌, ◌++◌, ltb, ◌==◌, if◌then◌else◌,
  nat_eq, length, ◌>>=◌, value_error, Result, ok, err,
}
use libranet.Base.Dict.{member}

-- `EventType`; the events besides `shutdown` are told apart by a number.
pub data EventType : Type 0 where
  shutdown : EventType
  event : ℕ → EventType

-- A message with a valid envelope; what else it says is a number, as it is not read.
pub record Message : Type 0 where
  pub event_type : EventType
  pub source : ℕ
  pub payload : ℕ

-- What a module publishes: the fields of its envelope, `none` where one is missing or invalid.
pub record Raw : Type 0 where
  pub raw_event : Option EventType
  pub raw_source : Option ℕ
  pub raw_timestamp : Option ℕ
  pub raw_payload : ℕ

-- A field that must be there, and valid.
abbrev pub required {ℓ} : {A : Type ℓ} → Option A → Result A
required none = err value_error
required (some a) = ok a

-- `validate_message`; an `InvalidMessageError` is a `ValueError`.
unfoldable pub validate_message : Raw → Result Message
validate_message raw = do
  event_type ← required raw.raw_event
  source ← required raw.raw_source
  timestamp ← required raw.raw_timestamp
  ok (record { event_type = event_type; source = source; payload = raw.raw_payload })

-- `event in subscriptions`, of the events subscribed to besides `shutdown`
abbrev pub subscribes : EventType → Option (List ℕ) → Bool
subscribes shutdown subscriptions = true
subscribes (event n) none = true
subscribes (event n) (some events) = member n events

-- `delivered_to`
unfoldable pub delivered_to : Message → ℕ → Option (List ℕ) → Bool
delivered_to message module_name subscriptions =
    if message.source == module_name then false else subscribes message.event_type subscriptions

-- `_Inbox`
pub record Inbox : Type 0 where
  pub module_name : ℕ
  pub subscriptions : Option (List ℕ)
  pub capacity : ℕ
  pub read : List Message
  pub queue : List Message
  pub held : List Message
  pub held_count : ℕ

-- `wants`
unfoldable pub wants : Inbox → Message → Bool
unfolding delivered_to
wants b message = delivered_to message b.module_name b.subscriptions

-- `_hold`
unfoldable pub hold : Inbox → Message → Inbox
hold b message = record b { held = b.held ++ (message ∷ []); held_count = b.held_count + 1 }

abbrev pub is_empty : List Message → Bool
is_empty [] = true
is_empty (m ∷ ms) = false

-- `put`
unfoldable pub put : Inbox → Message → Inbox
unfolding hold
put b message =
    if not (is_empty b.held)
    then hold b message
    else if ltb (length b.queue) b.capacity
    then record b { queue = b.queue ++ (message ∷ []) }
    else hold b message

-- The loop of `flush`: the queue, and what is still held.
unfoldable pub flush_held : ℕ → List Message → List Message → List Message × List Message
flush_held capacity queue [] = (queue, [])
flush_held capacity queue (message ∷ held) =
    if ltb (length queue) capacity
    then flush_held capacity (queue ++ (message ∷ [])) held
    else (queue, message ∷ held)

-- `flush`
unfoldable pub flush : Inbox → Inbox
unfolding flush_held
flush b =
    let (queue, held) = flush_held b.capacity b.queue b.held in
    record b { queue = queue; held = held; held_count = if is_empty held then 0 else b.held_count }

-- The module reads the next message of its inbox, if there is one.
abbrev pub read_first : Inbox → List Message → Inbox
read_first b [] = b
read_first b (message ∷ queue) = record b { read = b.read ++ (message ∷ []); queue = queue }

unfoldable pub read_next : Inbox → Inbox
read_next b = read_first b b.queue

unfoldable pub put_wanted : Message → List Inbox → List Inbox
unfolding wants put
put_wanted message [] = []
put_wanted message (b ∷ bs) = (if wants b message then put b message else b) ∷ put_wanted message bs

-- `dispatch`
unfoldable pub dispatch : Raw → List Inbox → Option Message × List Inbox
unfolding validate_message put_wanted
dispatch raw bs = elim (validate_message raw) [
  | err e ↦ (none, bs)
  | ok message ↦ (some message, put_wanted message bs)
]

-- `_flush`
unfoldable pub flush_all : List Inbox → List Inbox
unfolding flush
flush_all [] = []
flush_all (b ∷ bs) = flush b ∷ flush_all bs
