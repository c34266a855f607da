-- ===== src/Webserver/Clients/Kept.antt =====
-- The clients that the web server keeps whatever they hold: src/libranet/webserver/client_keeping.py.
use libranet.Base.{
  ℕ, suc, ◌+◌, ◌≤◌, ◌<◌, ◌≡◌, refl, inl, inr, Bool, true, false, not, ◌&&◌, Option, none, some,
  List, [], ◌∷◌, arith, ◌==◌, if◌then◌else◌, min_of, Option-cases, nat_eq, length,
}
use libranet.Base.Dict.{lookup, insert, lookup-insert, lookup-delete}
use libranet.Webserver.Clients.{
  Uses, connected, disconnected, pushed, open_clients, closes, served, happen, happen_all,
  ClientUse, Keeping, ClientEvent, connects, disconnects, pushes, asks,
}

abbrev open_count : Option ClientUse → ℕ
open_count none = 0
open_count (some use_of) = if use_of.closing then 0 else 1

length-open_clients-insert :
    (client : ℕ) (use_of : ClientUse) (uses : Uses)
    → length (open_clients (insert client use_of uses)) + open_count (lookup client uses)
      ≡ length (open_clients uses) + open_count (some use_of)
unfolding open_clients
length-open_clients-insert client use_of [] = ground arith
length-open_clients-insert client use_of ((c, u) ∷ uses) =
    ground (arith, length-open_clients-insert client use_of uses)

-- Answering a request leaves as many clients not being closed as there were, or as many as are kept connected at least.
pub served-keep_count :
    (k : Keeping) (kismet : ℕ → ℕ) (client clock : ℕ) (uses : Uses)
    → min_of k.keep_count (length (open_clients uses))
      ≤ length (open_clients (served k kismet client clock uses).1)
unfolding served closes
served-keep_count k kismet client clock uses = elim (Option-cases (lookup client uses)) [
  | inl e ↦ ground (arith, e)
  | inr (u, e) ↦
      let now : ClientUse = record u { requests = u.requests + 1 } in
      let counted : Uses = insert client now uses in
      ground (
        arith,
        e,
        length-open_clients-insert client now uses,
        lookup-insert client client now uses,
        length-open_clients-insert client (record now { closing = closes k kismet client counted })
            counted,
      )
]

-- The requests of `client` among the events.
abbrev pub asked : ℕ → List ClientEvent → ℕ
asked client [] = 0
asked client (connects c clock ∷ es) = asked client es
asked client (disconnects c ∷ es) = asked client es
asked client (pushes c sought clock ∷ es) = asked client es
asked client (asks c clock ∷ es) = if c == client then suc (asked client es) else asked client es

-- The client neither connects nor disconnects.
abbrev pub stays : ℕ → List ClientEvent → Bool
stays client [] = true
stays client (connects c clock ∷ es) = not (c == client) && stays client es
stays client (disconnects c ∷ es) = not (c == client) && stays client es
stays client (pushes c sought clock ∷ es) = stays client es
stays client (asks c clock ∷ es) = stays client es

-- What is known of the client: that it is not being closed, and how many of its requests were answered.
abbrev pub is_asked : ℕ → ℕ → Uses → Bool
is_asked client n uses = elim (lookup client uses) [
  | none ↦ false
  | some use_of ↦ not use_of.closing && use_of.requests == n
]

is_asked-served :
    (k : Keeping) (kismet : ℕ → ℕ) (client n c clock : ℕ) (uses : Uses)
    → (n + (if c == client then 1 else 0)) ≤ k.grace_requests
    → is_asked client n uses ≡ true
    → is_asked client (n + (if c == client then 1 else 0)) (served k kismet c clock uses).1 ≡ true
unfolding served
is_asked-served k kismet client n c clock uses l h = elim (Option-cases (lookup c uses)) [
  | inl e ↦ ground (arith, e)
  | inr (u, e) ↦
      let now : ClientUse = record u { requests = u.requests + 1 } in
      let counted : Uses = insert c now uses in
      ground (
        arith,
        e,
        lookup-insert c client now uses,
        lookup-insert c client (record now { closing = closes k kismet c counted }) counted,
      )
]

is_asked-happen :
    (k : Keeping) (kismet : ℕ → ℕ) (client n m : ℕ) (e : ClientEvent) (uses : Uses)
    → stays client (e ∷ []) ≡ true
    → n + asked client (e ∷ []) ≡ m
    → m ≤ k.grace_requests
    → is_asked client n uses ≡ true
    → is_asked client m (happen k kismet e uses) ≡ true
unfolding happen connected disconnected pushed
is_asked-happen k kismet client n m (connects c clock) uses s q l h = ground (
  arith,
  lookup-insert c client (record { valued_at = clock; requests = 0; closing = false }) uses,
)
is_asked-happen k kismet client n m (disconnects c) uses s q l h =
    ground (arith, lookup-delete c client uses)
is_asked-happen k kismet client n m (pushes c sought clock) uses s q l h =
    elim (Option-cases (lookup c uses)) [
      | inl e ↦ ground (arith, e)
      | inr (u, e) ↦
          ground (
            arith,
            e,
            lookup-insert c client (record u { valued_at = clock; closing = false }) uses,
          )
    ]
is_asked-happen k kismet client n m (asks c clock) uses s q l h =
    ground (arith, is_asked-served k kismet client n c clock uses)

asked-cons :
    (client : ℕ) (e : ClientEvent) (es : List ClientEvent)
    → asked client (e ∷ es) ≡ asked client (e ∷ []) + asked client es
asked-cons client (connects c clock) es = omega arith
asked-cons client (disconnects c) es = omega arith
asked-cons client (pushes c sought clock) es = omega arith
asked-cons client (asks c clock) es = ground arith

stays-cons :
    (client : ℕ) (e : ClientEvent) (es : List ClientEvent)
    → stays client (e ∷ es) ≡ true
    → (stays client (e ∷ []) ≡ true) × (stays client es ≡ true)
stays-cons client (connects c clock) es s = (ground arith, ground arith)
stays-cons client (disconnects c) es s = (ground arith, ground arith)
stays-cons client (pushes c sought clock) es s = (refl, s)
stays-cons client (asks c clock) es s = (refl, s)

is_asked-happen_all :
    (k : Keeping) (kismet : ℕ → ℕ) (client n m : ℕ) (es : List ClientEvent) (uses : Uses)
    → stays client es ≡ true
    → n + asked client es ≡ m
    → m ≤ k.grace_requests
    → is_asked client n uses ≡ true
    → is_asked client m (happen_all k kismet es uses) ≡ true
unfolding happen_all
is_asked-happen_all k kismet client n m [] uses s q l h = ground arith
is_asked-happen_all k kismet client n m (e ∷ es) uses s q l h =
    let sum : n + asked client (e ∷ []) + asked client es ≡ m =
      omega (arith, asked-cons client e es) in
    is_asked-happen_all k kismet client (n + asked client (e ∷ [])) m es (happen k kismet e uses)
      (stays-cons client e es s).1 sum l
      (is_asked-happen k kismet client n (n + asked client (e ∷ [])) e uses
        (stays-cons client e es s).0 refl (omega (arith, asked-cons client e es)) h)

-- A client that stays connected is answered, and kept, as often as the grace allows, whatever the other clients do and
-- whatever each holds.
pub served-grace :
    (k : Keeping) (kismet : ℕ → ℕ) (client since clock : ℕ) (es : List ClientEvent) (uses : Uses)
    → stays client es ≡ true
    → asked client es < k.grace_requests
    → (served k kismet client clock (happen_all k kismet es (connected client since uses))).0 ≡ true
unfolding served connected
served-grace k kismet client since clock es uses s l = ground (
  arith,
  is_asked-happen_all k kismet client 0 (asked client es) es (connected client since uses),
  lookup-insert client client (record { valued_at = since; requests = 0; closing = false }) uses,
)
