-- ===== src/Webserver/Peers/Counts.antt =====
-- How the counts of peers follow their connections: src/libranet/webserver/inbound_peers.py.
use libranet.Base.{
  ℕ, suc, ◌+◌, ◌-◌, ◌≡◌, refl, ◌∙◌, inl, inr, Bool, true, false, Option, none, some, List, [], ◌∷◌,
  arith, ◌==◌, if◌then◌else◌, Option-cases, nat_eq,
}
use libranet.Base.Dict.{
  Dict, lookup, get_or, insert, delete, keys, member, IsDistinct, lookup-insert, lookup-delete,
  get_or-insert, get_or_lem, lookup-absent,
}
use libranet.Webserver.Clients.{
  Uses, connected, disconnected, pushed, closes, served, ClientUse, Keeping,
}
use libranet.Webserver.Peers.{publish, opened, closed, closed_each, served_each, InboundPeers}

-- How many of the connections a peer is verified on.
abbrev pub verified_on : ℕ → Dict ℕ (List ℕ) → ℕ
verified_on p [] = 0
verified_on p ((c, signers) ∷ d) =
    if member p signers then suc (verified_on p d) else verified_on p d

abbrev pub is_absent {ℓ} : {A : Type ℓ} → Option A → Bool
is_absent none = true
is_absent (some a) = false

abbrev pub once : Bool → ℕ
once true = 1
once false = 0

-- The peers are counted as `f` counts them, those counted 0 not at all, and the keeping knows those counted.
abbrev pub CountedAs : (ℕ → ℕ) → InboundPeers → Type 0
CountedAs f p =
    (q : ℕ)
    → (lookup q p.connections ≡ (if f q == 0 then none else some (f q)))
      × (is_absent (lookup q p.uses) ≡ (f q == 0))

pub CountedAs-opened :
    (node_id clock : ℕ) (f g : ℕ → ℕ) (p : InboundPeers)
    → CountedAs f p
    → ((q : ℕ) → g q ≡ f q + once (node_id == q))
    → CountedAs g (opened node_id clock p)
unfolding opened connected publish
CountedAs-opened node_id clock f g p h e q = (
  ground (
    arith,
    (h q).0,
    (h node_id).0,
    e q,
    e node_id,
    get_or_lem node_id 0 p.connections,
    get_or-insert node_id node_id (get_or node_id 0 p.connections + 1) 0 p.connections,
    lookup-insert node_id q (get_or node_id 0 p.connections + 1) p.connections,
  ),
  ground (
    arith,
    (h q).1,
    (h node_id).0,
    e q,
    get_or_lem node_id 0 p.connections,
    get_or-insert node_id node_id (get_or node_id 0 p.connections + 1) 0 p.connections,
    lookup-insert node_id q (record { valued_at = clock; requests = 0; closing = false }) p.uses,
  ),
)

pub CountedAs-closed :
    (node_id : ℕ) (f g : ℕ → ℕ) (p : InboundPeers)
    → CountedAs f p
    → ((q : ℕ) → g q + once (node_id == q) ≡ f q)
    → CountedAs g (closed node_id p)
unfolding closed disconnected publish
CountedAs-closed node_id f g p h e q = (
  ground (
    arith,
    (h q).0,
    (h node_id).0,
    e q,
    e node_id,
    get_or_lem node_id 0 p.connections,
    lookup-delete node_id q p.connections,
    lookup-insert node_id q (get_or node_id 0 p.connections - 1) p.connections,
  ),
  ground (
    arith,
    (h q).1,
    (h node_id).0,
    e q,
    e node_id,
    get_or_lem node_id 0 p.connections,
    lookup-delete node_id q p.uses,
  ),
)

pub CountedAs-closed_each :
    (ss : List ℕ) (f g : ℕ → ℕ) (p : InboundPeers)
    → IsDistinct ss
    → CountedAs f p
    → ((q : ℕ) → g q + once (member q ss) ≡ f q)
    → CountedAs g (closed_each ss p)
unfolding closed_each
CountedAs-closed_each [] f g p u h e = λ q. ground (arith, h q, e q)
CountedAs-closed_each (s ∷ ss) f g p u h e =
    CountedAs-closed_each ss (λ q. g q + once (member q ss)) g (closed s p) u.1
      (CountedAs-closed s f (λ q. g q + once (member q ss)) p h (λ q. ground (arith, e q, u.0)))
      (λ q. refl)

absent-served :
    (k : Keeping) (kismet : ℕ → ℕ) (client clock q : ℕ) (uses : Uses)
    → is_absent (lookup q (served k kismet client clock uses).1) ≡ is_absent (lookup q uses)
unfolding served
absent-served k kismet client clock q uses = elim (Option-cases (lookup client uses)) [
  | inl e ↦ ground (arith, e)
  | inr (u, e) ↦
      let now : ClientUse = record u { requests = u.requests + 1 } in
      let counted : Uses = insert client now uses in
      ground (
        arith,
        e,
        lookup-insert client q now uses,
        lookup-insert client q (record now { closing = closes k kismet client counted }) counted,
      )
]

pub absent-served_each :
    (k : Keeping) (kismet : ℕ → ℕ) (clock q : ℕ) (ss : List ℕ) (uses : Uses)
    → is_absent (lookup q (served_each k kismet clock ss uses).1) ≡ is_absent (lookup q uses)
unfolding served_each
absent-served_each k kismet clock q [] uses = refl
absent-served_each k kismet clock q (s ∷ ss) uses =
    absent-served_each k kismet clock q ss (served k kismet s clock uses).1
    ∙ absent-served k kismet s clock q uses

-- Pushing makes no one known to the keeping, and no one unknown.
pub absent-pushed :
    (client : ℕ) (sought : Bool) (clock q : ℕ) (uses : Uses)
    → is_absent (lookup q (pushed client sought clock uses)) ≡ is_absent (lookup q uses)
unfolding pushed
absent-pushed client sought clock q uses = elim (Option-cases (lookup client uses)) [
  | inl e ↦ ground (arith, e)
  | inr (u, e) ↦
      ground
        (arith, e, lookup-insert client q (record u { valued_at = clock; closing = false }) uses)
]

abbrev pub verified_in : ℕ → Option (List ℕ) → ℕ
verified_in q none = 0
verified_in q (some signers) = once (member q signers)

pub verified_on-insert :
    (q c : ℕ) (signers : List ℕ) (d : Dict ℕ (List ℕ))
    → verified_on q (insert c signers d) + verified_in q (lookup c d)
      ≡ verified_on q d + once (member q signers)
verified_on-insert q c signers [] = ground arith
verified_on-insert q c signers ((j, ss) ∷ d) = ground (arith, verified_on-insert q c signers d)

pub verified_on-delete :
    (q c : ℕ) (d : Dict ℕ (List ℕ))
    → IsDistinct (keys d)
    → verified_on q (delete c d) + verified_in q (lookup c d) ≡ verified_on q d
verified_on-delete q c [] u = refl
verified_on-delete q c ((j, ss) ∷ d) u =
    ground (arith, lookup-absent c d, u.0, verified_on-delete q c d u.1)
