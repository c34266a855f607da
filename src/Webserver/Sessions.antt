-- ===== src/Webserver/Sessions.antt =====
-- Who is signed in, in each browser: `Sessions` of src/libranet/webserver/sessions.py. Persons, tokens
-- and blocks are numbers, since they are only compared; a request is the tokens that its cookies
-- name, and the token drawn for a new session and the moment that the clock tells are arguments.
pub mod Told
pub mod Laws
use libranet.Base.{
  ℕ, ◌+◌, Bool, Option, none, some, List, [], ◌∷◌, ◌++◌, leb, ◌==◌, if◌then◌else◌, nat_eq,
  value_error, Result, ok, err,
}
use libranet.Base.Dict.{Dict, lookup, insert, member}
use libranet.Decimal.{Text}

-- `Session`, with what it reads of the person's key
pub record Session : Type 0 where
  pub username : Text
  pub person : ℕ
  pub fallback : Option ℕ
  pub block : ℕ

-- `_Held`
pub record Held : Type 0 where
  pub session : Session
  pub last_used : ℕ

-- What a `SessionListener` is told.
pub data Event : Type 0 where
  session_started last_session_ended : ℕ → Event

-- `Sessions`, with all that its listener was told so far.
pub record Sessions : Type 0 where
  pub idle_seconds : ℕ
  pub listening : Bool
  pub held : Dict ℕ Held
  pub told : List Event

-- `Sessions.__init__`
unfoldable pub new_sessions : ℕ → Bool → Result Sessions
new_sessions idle_seconds listening =
    if leb idle_seconds 0
    then err value_error
    else ok (record { idle_seconds = idle_seconds; listening = listening; held = []; told = [] })

-- `_is_idle`
unfoldable pub is_idle : ℕ → Held → ℕ → Bool
is_idle idle_seconds kept now = leb (kept.last_used + idle_seconds) now

-- `held.pop(token, None)`
unfoldable pub pop : ℕ → Dict ℕ Held → Option Held × Dict ℕ Held
pop token [] = (none, [])
pop token ((t, kept) ∷ held) =
    let (popped, rest) = pop token held in
    if t == token then (some kept, held) else (popped, (t, kept) ∷ rest)

abbrev pub person_of : Option Held → List ℕ → List ℕ
person_of none people = people
person_of (some kept) people = kept.session.person ∷ people

-- The first loop of `_forget`: the people whose sessions are popped, and the sessions left.
unfoldable pub pop_all : List ℕ → Dict ℕ Held → List ℕ × Dict ℕ Held
unfolding pop
pop_all [] held = ([], held)
pop_all (token ∷ tokens) held =
    let (popped, rest) = pop token held in
    let (people, left) = pop_all tokens rest in (person_of popped people, left)

-- The people who hold sessions.
unfoldable pub people_of : Dict ℕ Held → List ℕ
people_of [] = []
people_of ((t, kept) ∷ held) = kept.session.person ∷ people_of held

-- `dict.fromkeys`, read on from the keys `seen`
unfoldable pub from_keys : List ℕ → List ℕ → List ℕ
from_keys seen [] = seen
from_keys seen (k ∷ ks) = from_keys (if member k seen then seen else seen ++ (k ∷ [])) ks

-- The last loop of `_forget`
unfoldable pub tell_ended : List ℕ → List ℕ → List Event → List Event
tell_ended [] signed_in told = told
tell_ended (person ∷ people) signed_in told =
    tell_ended people signed_in
      (if member person signed_in then told else told ++ (last_session_ended person ∷ []))

-- `_forget`
unfoldable pub forget : List ℕ → Sessions → Sessions
unfolding pop_all tell_ended from_keys people_of
forget tokens s =
    let (people, left) = pop_all tokens s.held in
    record {
      idle_seconds = s.idle_seconds;
      listening = s.listening;
      held = left;
      told =
          if s.listening then tell_ended (from_keys [] people) (people_of left) s.told else s.told;
    }

-- The tokens of the sessions gone idle.
unfoldable pub idle_tokens : ℕ → ℕ → Dict ℕ Held → List ℕ
unfolding is_idle
idle_tokens idle_seconds now [] = []
idle_tokens idle_seconds now ((t, kept) ∷ held) =
    let rest = idle_tokens idle_seconds now held in
    if is_idle idle_seconds kept now then t ∷ rest else rest

-- `start`, with the token drawn
unfoldable pub start : ℕ → ℕ → Session → Sessions → Sessions
unfolding forget idle_tokens
start token now session s =
    let kept : Sessions = forget (idle_tokens s.idle_seconds now s.held) s in
    record {
      idle_seconds = kept.idle_seconds;
      listening = kept.listening;
      held = insert token (record { session = session; last_used = now }) kept.held;
      told =
          if kept.listening then kept.told ++ (session_started session.person ∷ []) else kept.told;
    }

-- `session`
unfoldable pub session_of : List ℕ → ℕ → Sessions → Option Session × Sessions
unfolding forget is_idle
session_of [] now s = (none, s)
session_of (token ∷ tokens) now s = elim (lookup token s.held) [
  | none ↦ session_of tokens now s
  | some kept ↦
      if is_idle s.idle_seconds kept now then session_of tokens now (forget (token ∷ []) s) else (
        some kept.session,
        record s {
          held = insert token (record { session = kept.session; last_used = now }) s.held;
        },
      )
]

-- `end`
unfoldable pub end_sessions : List ℕ → Sessions → Sessions
unfolding forget
end_sessions tokens s = forget tokens s
