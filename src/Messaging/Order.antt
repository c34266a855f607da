-- ===== src/Messaging/Order.antt =====
-- That each module reads what it subscribes to, in order, and no message is lost:
-- src/libranet/messaging/dispatcher.py.
use mathlib.Core.List.{append_assoc, append-nil}
use libranet.Base.{
  ℕ, ◌+◌, ◌≤◌, ◌≡◌, refl, sym, ap, ◌∙◌, inl, inr, true, Option, List, [], ◌∷◌, ◌++◌, map, arith,
  if◌then◌else◌, length, length-append, Result-cases, Error, ok, err,
}
use libranet.Messaging.Dispatcher.{
  validate_message, delivered_to, wants, hold, is_empty, put, flush_held, flush, read_first,
  read_next, put_wanted, dispatch, Message, Raw, Inbox,
}

-- What an inbox was given, in the order given: what its module read of it, what waits in it, and
-- what is held for it.
abbrev pub given : Inbox → List Message
given b = b.read ++ (b.queue ++ b.held)

-- What happens to one inbox, in the order it happens.
pub data Happening : Type 0 where
  publishing : Raw → Happening
  flushing reading : Happening

unfoldable pub happen : Happening → Inbox → Inbox
unfolding validate_message put wants flush read_next
happen (publishing raw) b = elim (validate_message raw) [
  | err e ↦ b
  | ok message ↦ if wants b message then put b message else b
]
happen flushing b = flush b
happen reading b = read_next b

unfoldable pub happen_all : List Happening → Inbox → Inbox
unfolding happen
happen_all [] b = b
happen_all (h ∷ hs) b = happen_all hs (happen h b)

-- The messages published that a module subscribing so is to read, in order.
unfoldable pub wanted : List Happening → ℕ → Option (List ℕ) → List Message
unfolding validate_message delivered_to
wanted [] module_name subscriptions = []
wanted (publishing raw ∷ hs) module_name subscriptions = elim (validate_message raw) [
  | err e ↦ wanted hs module_name subscriptions
  | ok message ↦
      let rest = wanted hs module_name subscriptions in
      if delivered_to message module_name subscriptions then message ∷ rest else rest
]
wanted (flushing ∷ hs) module_name subscriptions = wanted hs module_name subscriptions
wanted (reading ∷ hs) module_name subscriptions = wanted hs module_name subscriptions

is_empty-nil : (ms : List Message) → is_empty ms ≡ true → ms ≡ []
is_empty-nil [] h = refl
is_empty-nil (m ∷ ms) h = cc

at_end :
    (read queue held : List Message) (m : Message)
    → read ++ (queue ++ (held ++ (m ∷ []))) ≡ (read ++ (queue ++ held)) ++ (m ∷ [])
at_end read queue held m =
    ap (λ x. read ++ x) (sym (append_assoc queue held (m ∷ [])))
    ∙ sym (append_assoc read (queue ++ held) (m ∷ []))

put-given : (b : Inbox) (message : Message) → given (put b message) ≡ given b ++ (message ∷ [])
unfolding put hold
put-given b message = ground (
  arith,
  is_empty-nil b.held,
  at_end b.read b.queue b.held message,
  append-nil (b.queue ++ (message ∷ [])),
  append-nil b.queue,
  append_assoc b.read b.queue (message ∷ []),
)

flush_held-given :
    (capacity : ℕ) (queue held : List Message)
    → let (queue', held') = flush_held capacity queue held in queue' ++ held' ≡ queue ++ held
unfolding flush_held
flush_held-given capacity queue [] = refl
flush_held-given capacity queue (m ∷ held) =
    ground
      (arith, flush_held-given capacity (queue ++ (m ∷ [])) held, append_assoc queue (m ∷ []) held)

read_given :
    (b : Inbox) (queue : List Message) → b.queue ≡ queue → given (read_first b queue) ≡ given b
read_given b [] e = refl
read_given b (m ∷ queue) e =
    append_assoc b.read (m ∷ []) (queue ++ b.held) ∙ ap (λ q. b.read ++ (q ++ b.held)) (sym e)

read_next-given : (b : Inbox) → given (read_next b) ≡ given b
unfolding read_next
read_next-given b = read_given b b.queue refl

happen-given :
    (h : Happening) (b : Inbox)
    → given (happen h b) ≡ given b ++ wanted (h ∷ []) b.module_name b.subscriptions
unfolding happen wanted wants flush
happen-given (publishing raw) b = elim (Result-cases (validate_message raw)) [
  | inl (m, e) ↦ ground (arith, e, put-given b m, append-nil (given b))
  | inr (x, e) ↦ ground (arith, e, append-nil (given b))
]
happen-given flushing b =
    ap (λ x. b.read ++ x) (flush_held-given b.capacity b.queue b.held) ∙ sym (append-nil (given b))
happen-given reading b = read_next-given b ∙ sym (append-nil (given b))

read_same :
    (b : Inbox) (queue : List Message)
    → ((read_first b queue).module_name ≡ b.module_name)
      × ((read_first b queue).subscriptions ≡ b.subscriptions)
read_same b [] = (refl, refl)
read_same b (m ∷ queue) = (refl, refl)

happen_same :
    (h : Happening) (b : Inbox)
    → ((happen h b).module_name ≡ b.module_name) × ((happen h b).subscriptions ≡ b.subscriptions)
unfolding happen put hold flush read_next
happen_same (publishing raw) b = elim (Result-cases (validate_message raw)) [
  | inl (m, e) ↦ ground (arith, e)
  | inr (x, e) ↦ ground (arith, e)
]
happen_same flushing b = (refl, refl)
happen_same reading b = read_same b b.queue

wanted_cons :
    (h : Happening) (hs : List Happening) (name : ℕ) (subscriptions : Option (List ℕ))
    → wanted (h ∷ hs) name subscriptions
      ≡ wanted (h ∷ []) name subscriptions ++ wanted hs name subscriptions
unfolding wanted
wanted_cons (publishing raw) hs name subscriptions = elim (Result-cases (validate_message raw)) [
  | inl (m, e) ↦ ground (arith, e)
  | inr (x, e) ↦ ground (arith, e)
]
wanted_cons flushing hs name subscriptions = refl
wanted_cons reading hs name subscriptions = refl

-- However publishing, flushing and reading are ordered, what an inbox was given, read, waiting and
-- held together, is every valid message published that its module subscribes to, and did not
-- publish itself, once each and in the order published, after what it was given before.
pub happen_all_in_order :
    (hs : List Happening) (b : Inbox)
    → given (happen_all hs b) ≡ given b ++ wanted hs b.module_name b.subscriptions
unfolding happen_all wanted
happen_all_in_order [] b = sym (append-nil (given b))
happen_all_in_order (h ∷ hs) b =
    let (name, subscriptions) = happen_same h b in
    let later : given (happen_all hs (happen h b))
        ≡ given (happen h b) ++ wanted hs b.module_name b.subscriptions =
      happen_all_in_order hs (happen h b)
      ∙ ap (λ n. given (happen h b) ++ wanted hs n (happen h b).subscriptions) name
      ∙ ap (λ x. given (happen h b) ++ wanted hs b.module_name x) subscriptions in
    later
    ∙ ap (λ x. x ++ wanted hs b.module_name b.subscriptions) (happen-given h b)
    ∙ append_assoc (given b) (wanted (h ∷ []) b.module_name b.subscriptions)
        (wanted hs b.module_name b.subscriptions)
    ∙ ap (λ x. given b ++ x) (sym (wanted_cons h hs b.module_name b.subscriptions))

flush_held_room :
    (capacity : ℕ) (queue held : List Message)
    → length queue + length held ≤ capacity
    → flush_held capacity queue held ≡ (queue ++ held, [])
unfolding flush_held
flush_held_room capacity queue [] h = ground (arith, append-nil queue)
flush_held_room capacity queue (m ∷ held) h = ground (
  arith,
  length-append queue (m ∷ []),
  flush_held_room capacity (queue ++ (m ∷ [])) held,
  append_assoc queue (m ∷ []) held,
)

flush_held_within :
    (capacity : ℕ) (queue held : List Message)
    → length queue ≤ capacity
    → length (flush_held capacity queue held).0 ≤ capacity
unfolding flush_held
flush_held_within capacity queue [] h = h
flush_held_within capacity queue (m ∷ held) h =
    ground
      (arith, length-append queue (m ∷ []), flush_held_within capacity (queue ++ (m ∷ [])) held)

read_within :
    (b : Inbox) (queue : List Message)
    → length b.queue ≤ b.capacity
    → b.queue ≡ queue
    → length (read_first b queue).queue ≤ b.capacity
read_within b [] h e = h
read_within b (m ∷ queue) h e = ground (arith, ap length e)

-- A flush delivers all that is held once there is room for it, and forgets how much was held.
flush_delivers :
    (b : Inbox)
    → length b.queue + length b.held ≤ b.capacity
    → ((flush b).queue ≡ b.queue ++ b.held) × ((flush b).held ≡ []) × ((flush b).held_count ≡ 0)
unfolding flush
flush_delivers b h = ground (arith, flush_held_room b.capacity b.queue b.held h)

-- A flush, a put and a read keep an inbox's queue within its capacity, for a queue that is.
happen_within :
    (h : Happening) (b : Inbox)
    → length b.queue ≤ b.capacity
    → length (happen h b).queue ≤ b.capacity
unfolding happen put hold flush read_next
happen_within (publishing raw) b l = elim (Result-cases (validate_message raw)) [
  | inl (m, e) ↦ ground (arith, e, length-append b.queue (m ∷ []))
  | inr (x, e) ↦ ground (arith, e)
]
happen_within flushing b l = flush_held_within b.capacity b.queue b.held l
happen_within reading b l = read_within b b.queue l refl

put_wanted_each :
    (m : Message) (raw : Raw) (bs : List Inbox)
    → validate_message raw ≡ ok m
    → put_wanted m bs ≡ map (happen (publishing raw)) bs
unfolding put_wanted happen
put_wanted_each m raw [] e = refl
put_wanted_each m raw (b ∷ bs) e = ground (arith, e, put_wanted_each m raw bs e)

map-happen_invalid :
    (raw : Raw) (x : Error) (bs : List Inbox)
    → validate_message raw ≡ err x
    → map (happen (publishing raw)) bs ≡ bs
unfolding happen
map-happen_invalid raw x [] e = refl
map-happen_invalid raw x (b ∷ bs) e = ground (arith, e, map-happen_invalid raw x bs e)

-- A message dispatched reaches each inbox on its own: what becomes of one inbox does not depend on
-- the others, full or not.
dispatch_each :
    (raw : Raw) (bs : List Inbox) → (dispatch raw bs).1 ≡ map (happen (publishing raw)) bs
unfolding dispatch
dispatch_each raw bs = elim (Result-cases (validate_message raw)) [
  | inl (m, e) ↦ ground (arith, e, put_wanted_each m raw bs e)
  | inr (x, e) ↦ ground (arith, e, map-happen_invalid raw x bs e)
]
