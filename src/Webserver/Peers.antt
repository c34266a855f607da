-- ===== src/Webserver/Peers.antt =====
-- The connections of the peers to the web server: src/libranet/webserver/inbound_peers.py.
pub mod Counts
pub mod Naming
pub mod Counted
use libranet.Base.{
  ℕ, ◌+◌, ◌-◌, Bool, true, ◌&&◌, none, some, List, [], ◌∷◌, leb, ◌==◌, if◌then◌else◌, nat_eq,
}
use libranet.Base.Dict.{Dict, lookup, get_or, insert, delete, keys, member}
use libranet.Webserver.Clients.{Uses, connected, disconnected, pushed, served, Keeping}

-- `InboundPeers`: how many connections each peer has open, what the keeping knows of each, and each list of
-- the peers connected that was published, the last first.
pub record InboundPeers : Type 0 where
  pub connections : Dict ℕ ℕ
  pub uses : Uses
  pub published : List (List ℕ)

-- `_publish_connected`, and `publish`
unfoldable pub publish : InboundPeers → InboundPeers
publish p = record p { published = keys p.connections ∷ p.published }

-- `InboundPeers.opened`, with a keeping
unfoldable pub opened : ℕ → ℕ → InboundPeers → InboundPeers
unfolding publish connected
opened node_id clock p =
    let counted : InboundPeers = record p {
      connections = insert node_id (get_or node_id 0 p.connections + 1) p.connections;
    } in
    if get_or node_id 0 counted.connections == 1
    then publish (record counted { uses = connected node_id clock counted.uses })
    else counted

-- `InboundPeers.closed`, with a keeping: a count of 1 or less, less one, is deleted
unfoldable pub closed : ℕ → InboundPeers → InboundPeers
unfolding publish disconnected
closed node_id p =
    if leb (get_or node_id 0 p.connections) 1
    then publish (record p {
      connections = delete node_id p.connections;
      uses = disconnected node_id p.uses;
    })
    else (record p {
      connections = insert node_id (get_or node_id 0 p.connections - 1) p.connections;
    })

-- `InboundPeers.pushed`, with a keeping, of content that is sought or not
unfoldable pub noted_push : ℕ → Bool → ℕ → InboundPeers → InboundPeers
unfolding pushed
noted_push node_id sought clock p = record p { uses = pushed node_id sought clock p.uses }

-- The peers, and the signers of each connection that is open.
pub record Server : Type 0 where
  pub peers : InboundPeers
  pub signers : Dict ℕ (List ℕ)

-- `InboundConnection.verified`, on the connection `c`
unfoldable pub verified : ℕ → ℕ → ℕ → Server → Server
unfolding opened
verified c node_id clock s = elim (lookup c s.signers) [
  | none ↦ s
  | some signers ↦ if member node_id signers then s else (record {
    peers = opened node_id clock s.peers;
    signers = insert c (node_id ∷ signers) s.signers;
  })
]

unfoldable pub closed_each : List ℕ → InboundPeers → InboundPeers
unfolding closed
closed_each [] p = p
closed_each (node_id ∷ signers) p = closed_each signers (closed node_id p)

-- `InboundConnection.close`
unfoldable pub close : ℕ → Server → Server
unfolding closed_each
close c s = elim (lookup c s.signers) [
  | none ↦ s
  | some signers ↦ record { peers = closed_each signers s.peers; signers = delete c s.signers }
]

-- The answers of `InboundPeers.served` to each of the peers verified on a connection, all of them asked.
unfoldable pub served_each : Keeping → (ℕ → ℕ) → ℕ → List ℕ → Uses → Bool × Uses
unfolding served
served_each k kismet clock [] uses = (true, uses)
served_each k kismet clock (node_id ∷ signers) uses =
    let (kept, now) = served k kismet node_id clock uses in
    let (all, after) = served_each k kismet clock signers now in (kept && all, after)

-- `InboundConnection.served`: whether the connection is kept open
unfoldable pub served_on : Keeping → (ℕ → ℕ) → ℕ → ℕ → Server → Bool × Server
unfolding served_each
served_on k kismet clock c s = elim (lookup c s.signers) [
  | none ↦ (true, s)
  | some signers ↦
      let (kept, uses) = served_each k kismet clock signers s.peers.uses in
      (kept, record s { peers = record s.peers { uses = uses } })
]

-- `InboundConnection.pushed`, which asks neither who signed on the connection nor who is connected
unfoldable pub pushed_on : ℕ → Bool → ℕ → Server → Server
unfolding noted_push
pushed_on node_id sought clock s = record s { peers = noted_push node_id sought clock s.peers }

-- `InboundPeers.connection`
unfoldable pub new_connection : ℕ → Server → Server
new_connection c s = record s { signers = insert c [] s.signers }

-- What happens on the connections, and that the peers are named because they are asked for.
pub data Traffic : Type 0 where
  opens : ℕ → Traffic
  verifies : ℕ → ℕ → ℕ → Traffic
  serves : ℕ → ℕ → Traffic
  pushes_on : ℕ → Bool → ℕ → Traffic
  closes_on : ℕ → Traffic
  names : Traffic

unfoldable pub take_place : Keeping → (ℕ → ℕ) → Traffic → Server → Server
unfolding new_connection verified served_on pushed_on close publish
take_place k kismet (opens c) s = elim (lookup c s.signers) [
  | none ↦ new_connection c s
  | some signers ↦ s
]
take_place k kismet (verifies c node_id clock) s = verified c node_id clock s
take_place k kismet (serves c clock) s = (served_on k kismet clock c s).1
take_place k kismet (pushes_on node_id sought clock) s = pushed_on node_id sought clock s
take_place k kismet (closes_on c) s = close c s
take_place k kismet names s = record s { peers = publish s.peers }

unfoldable pub take_place_all : Keeping → (ℕ → ℕ) → List Traffic → Server → Server
unfolding take_place
take_place_all k kismet [] s = s
take_place_all k kismet (t ∷ ts) s = take_place_all k kismet ts (take_place k kismet t s)
