-- ===== src/Webserver/Peers/Naming.antt =====
-- That the peers named last are those connected: src/libranet/webserver/inbound_peers.py.
use libranet.Base.{
  ℕ, ◌+◌, ◌-◌, ◌≡◌, refl, sym, ◌∙◌, ◌<◌, inl, inr, List, [], ◌∷◌, arith, leb, ◌==◌, Bool-cases,
  nat_eq,
}
use libranet.Base.Dict.{Dict, get_or, insert, keys, get_or-insert}
use libranet.Webserver.Peers.{publish, opened, closed, closed_each, InboundPeers}

-- The peers named last; before any were, there are none.
abbrev pub latest : List (List ℕ) → List ℕ
latest [] = []
latest (l ∷ ls) = l

-- The peers named last are those counted.
abbrev pub IsNamed : InboundPeers → Type 0
IsNamed p = latest p.published ≡ keys p.connections

-- Counting anew a peer that is counted changes no name.
keys-insert_counted : (k n : ℕ) (d : Dict ℕ ℕ) → 0 < get_or k 0 d → keys (insert k n d) ≡ keys d
keys-insert_counted k n [] h = absurd (omega arith)
keys-insert_counted k n ((j, m) ∷ d) h = ground (arith, keys-insert_counted k n d)

pub IsNamed-opened :
    (node_id clock : ℕ) (p : InboundPeers) → IsNamed p → IsNamed (opened node_id clock p)
unfolding opened publish
IsNamed-opened node_id clock p i =
    let n : ℕ = get_or node_id 0 p.connections + 1 in
    let counted : Dict ℕ ℕ = insert node_id n p.connections in
    elim (Bool-cases (get_or node_id 0 counted == 1)) [
      | inl t ↦ rw (t, opened) refl
      | inr f ↦
          rw (f, opened)
            (i
              ∙ sym (
                  keys-insert_counted node_id n p.connections
                    (ground (arith, f, get_or-insert node_id node_id n 0 p.connections))))
    ]

IsNamed-closed : (node_id : ℕ) (p : InboundPeers) → IsNamed p → IsNamed (closed node_id p)
unfolding closed publish
IsNamed-closed node_id p i =
    let n : ℕ = get_or node_id 0 p.connections in
    elim (Bool-cases (leb n 1)) [
      | inl t ↦ rw (t, closed) refl
      | inr f ↦
          rw (f, closed)
            (i ∙ sym (keys-insert_counted node_id (n - 1) p.connections (ground (arith, f))))
    ]

pub IsNamed-closed_each : (ss : List ℕ) (p : InboundPeers) → IsNamed p → IsNamed (closed_each ss p)
unfolding closed_each
IsNamed-closed_each [] p i = i
IsNamed-closed_each (s ∷ ss) p i = IsNamed-closed_each ss (closed s p) (IsNamed-closed s p i)
