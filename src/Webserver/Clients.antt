-- ===== src/Webserver/Clients.antt =====
-- The clients connected to the web server, and which of them are kept: `ClientKeeping` of
-- src/libranet/webserver/client_keeping.py. Times are whole seconds; what
-- this node seeks and the Kismet each identity holds are parameters.
pub mod Kept
pub mod Median
use libranet.Base.{
  ℕ, zero, suc, ◌+◌, ◌-◌, ◌*◌, ◌/◌, ◌%◌, Bool, true, false, not, ◌&&◌, none, some, List, [], ◌∷◌,
  ltb, leb, ◌==◌, if◌then◌else◌, min_of, nat_eq, length,
}
use libranet.Base.Dict.{Dict, lookup, insert, delete}
use libranet.Base.Floats.{float_of}

-- `_ClientUse`
pub record ClientUse : Type 0 where
  pub valued_at : ℕ
  pub requests : ℕ
  pub closing : Bool

abbrev pub Uses : Type 0
Uses = Dict ℕ ClientUse

-- The settings of a `ClientKeeping`.
pub record Keeping : Type 0 where
  pub grace_requests : ℕ
  pub value_seconds : ℕ
  pub keep_count : ℕ
  pub node_id : ℕ

-- `ClientKeeping.connected`
unfoldable pub connected : ℕ → ℕ → Uses → Uses
connected client clock uses =
    insert client (record { valued_at = clock; requests = 0; closing = false }) uses

-- `ClientKeeping.disconnected`
unfoldable pub disconnected : ℕ → Uses → Uses
disconnected client uses = delete client uses

-- `ClientKeeping.pushed`, of content that is sought or not
unfoldable pub pushed : ℕ → Bool → ℕ → Uses → Uses
pushed client sought clock uses = if not sought then uses else elim (lookup client uses) [
  | none ↦ uses
  | some use_of ↦ insert client (record use_of { valued_at = clock; closing = false }) uses
]

-- The clients connected that are not being closed.
unfoldable pub open_clients : Uses → List ℕ
open_clients [] = []
open_clients ((client, use_of) ∷ uses) =
    let rest = open_clients uses in if use_of.closing then rest else client ∷ rest

unfoldable pub insert_amount : ℕ → List ℕ → List ℕ
insert_amount a [] = a ∷ []
insert_amount a (b ∷ bs) = let rest = insert_amount a bs in if leb a b then a ∷ b ∷ bs else b ∷ rest

unfoldable pub sort_amounts : List ℕ → List ℕ
unfolding insert_amount
sort_amounts [] = []
sort_amounts (a ∷ as') = insert_amount a (sort_amounts as')

abbrev pub nth : ℕ → List ℕ → ℕ
nth n [] = 0
nth zero (a ∷ l) = a
nth (suc n) (a ∷ l) = nth n l

-- Twice `statistics.median`, which of an even number of amounts is the float that half the sum of
-- the middle two is rounded to.
unfoldable pub twice_median : List ℕ → ℕ
unfolding sort_amounts
twice_median amounts =
    let sorted : List ℕ = sort_amounts amounts in
    let n : ℕ = length amounts in
    if n % 2 == 1
    then 2 * nth (n / 2) sorted
    else float_of (nth (n / 2 - 1) sorted + nth (n / 2) sorted)

abbrev pub amounts_of : (ℕ → ℕ) → List ℕ → List ℕ
amounts_of kismet [] = []
amounts_of kismet (client ∷ clients) = kismet client ∷ amounts_of kismet clients

-- `ClientKeeping._closes`
unfoldable pub closes : Keeping → (ℕ → ℕ) → ℕ → Uses → Bool
unfolding open_clients twice_median
closes k kismet client uses =
    let clients : List ℕ = open_clients uses in
    let own : ℕ = 2 * kismet k.node_id in
    ltb k.keep_count (length clients)
    && ltb (2 * kismet client) (min_of (twice_median (amounts_of kismet clients)) own)

-- `ClientKeeping.served`: whether the client is kept, and what is known of each
unfoldable pub served : Keeping → (ℕ → ℕ) → ℕ → ℕ → Uses → Bool × Uses
unfolding closes
served k kismet client clock uses = elim (lookup client uses) [
  | none ↦ (true, uses)
  | some use_of ↦
      if use_of.closing
      then (false, uses)
      else (let now : ClientUse = record use_of { requests = use_of.requests + 1 } in
          let counted : Uses = insert client now uses in
          if leb now.requests k.grace_requests
          then (true, counted)
          else (if ltb clock (now.valued_at + k.value_seconds)
              then (true, counted)
              else (let closing : Bool = closes k kismet client counted in
                  (not closing, insert client (record now { closing = closing }) counted))))
]

-- What a client does, by the clock where that is read.
pub data ClientEvent : Type 0 where
  connects : ℕ → ℕ → ClientEvent
  disconnects : ℕ → ClientEvent
  pushes : ℕ → Bool → ℕ → ClientEvent
  asks : ℕ → ℕ → ClientEvent

unfoldable pub happen : Keeping → (ℕ → ℕ) → ClientEvent → Uses → Uses
unfolding connected disconnected pushed served
happen k kismet (connects client clock) uses = connected client clock uses
happen k kismet (disconnects client) uses = disconnected client uses
happen k kismet (pushes client sought clock) uses = pushed client sought clock uses
happen k kismet (asks client clock) uses = (served k kismet client clock uses).1

unfoldable pub happen_all : Keeping → (ℕ → ℕ) → List ClientEvent → Uses → Uses
unfolding happen
happen_all k kismet [] uses = uses
happen_all k kismet (e ∷ es) uses = happen_all k kismet es (happen k kismet e uses)
