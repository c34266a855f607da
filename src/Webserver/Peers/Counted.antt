-- ===== src/Webserver/Peers/Counted.antt =====
-- That each peer counts as often as it has connections open, and is named while it does: src/libranet/webserver/inbound_peers.py.
use libranet.Base.{
  ℕ, Bool, ◌≡◌, refl, ◌∙◌, inl, inr, none, List, [], ◌∷◌, arith, Bool-cases, Option-cases, nat_eq,
}
use libranet.Base.Dict.{
  lookup, insert, delete, keys, member, IsDistinct, insert-IsDistinct, delete-IsDistinct, AllValues,
  lookup-AllValues, insert-AllValues, delete-AllValues,
}
use libranet.Webserver.Clients.{Keeping}
use libranet.Webserver.Peers.{
  publish, noted_push, pushed_on, verified, close, served_on, new_connection, take_place,
  take_place_all, Server, Traffic, opens, verifies, serves, pushes_on, closes_on, names,
}
use libranet.Webserver.Peers.Naming.{IsNamed, IsNamed-opened, IsNamed-closed_each}
use libranet.Webserver.Peers.Counts.{
  verified_on, CountedAs, CountedAs-opened, CountedAs-closed_each, absent-served_each,
  absent-pushed, verified_on-insert, verified_on-delete,
}

-- Each peer is counted on as many connections as it is verified on, and on none more than once, and
-- the peers named last are those counted.
pub record IsCounted (s : Server) : Type 0 where
  pub distinct : IsDistinct (keys s.signers)
  pub signers_distinct : AllValues IsDistinct s.signers
  pub peers_counted : CountedAs (λ q. verified_on q s.signers) s.peers
  pub peers_named : IsNamed s.peers

IsCounted-verified :
    (c node_id clock : ℕ) (s : Server) → IsCounted s → IsCounted (verified c node_id clock s)
unfolding verified
IsCounted-verified c node_id clock s i = elim (Option-cases (lookup c s.signers)) [
  | inl e ↦ rw (e, verified) i
  | inr (ss, e) ↦ elim (Bool-cases (member node_id ss)) [
    | inl t ↦ rw (e, verified) (rw t i)
    | inr f ↦
        rw (e, verified)
          (rw f (record {
            distinct = insert-IsDistinct c (node_id ∷ ss) s.signers i.distinct;
            signers_distinct =
                insert-AllValues IsDistinct c (node_id ∷ ss) s.signers i.signers_distinct
                  (f, lookup-AllValues IsDistinct c ss s.signers i.signers_distinct e);
            peers_counted =
                CountedAs-opened node_id clock (λ q. verified_on q s.signers)
                  (λ q. verified_on q (insert c (node_id ∷ ss) s.signers)) s.peers i.peers_counted
                  (λ q. ground (arith, e, f, verified_on-insert q c (node_id ∷ ss) s.signers));
            peers_named = IsNamed-opened node_id clock s.peers i.peers_named;
          }))
  ]
]

IsCounted-close : (c : ℕ) (s : Server) → IsCounted s → IsCounted (close c s)
unfolding close
IsCounted-close c s i = elim (Option-cases (lookup c s.signers)) [
  | inl e ↦ rw (e, close) i
  | inr (ss, e) ↦
      rw (e, close)
        (record {
          distinct = delete-IsDistinct c s.signers i.distinct;
          signers_distinct = delete-AllValues IsDistinct c s.signers i.signers_distinct;
          peers_counted =
              CountedAs-closed_each ss (λ q. verified_on q s.signers)
                (λ q. verified_on q (delete c s.signers)) s.peers
                (lookup-AllValues IsDistinct c ss s.signers i.signers_distinct e) i.peers_counted
                (λ q. ground (arith, e, verified_on-delete q c s.signers i.distinct));
          peers_named = IsNamed-closed_each ss s.peers i.peers_named;
        })
]

IsCounted-served_on :
    (k : Keeping) (kismet : ℕ → ℕ) (clock c : ℕ) (s : Server)
    → IsCounted s
    → IsCounted (served_on k kismet clock c s).1
unfolding served_on
IsCounted-served_on k kismet clock c s i = elim (Option-cases (lookup c s.signers)) [
  | inl e ↦ rw (e, served_on) i
  | inr (ss, e) ↦
      rw (e, served_on)
        (record {
          distinct = i.distinct;
          signers_distinct = i.signers_distinct;
          peers_counted = λ q. (
            (i.peers_counted q).0,
            absent-served_each k kismet clock q ss s.peers.uses ∙ (i.peers_counted q).1,
          );
          peers_named = i.peers_named;
        })
]

IsCounted-pushed_on :
    (node_id : ℕ) (sought : Bool) (clock : ℕ) (s : Server)
    → IsCounted s
    → IsCounted (pushed_on node_id sought clock s)
unfolding pushed_on noted_push
IsCounted-pushed_on node_id sought clock s i = record {
  distinct = i.distinct;
  signers_distinct = i.signers_distinct;
  peers_counted = λ q. (
    (i.peers_counted q).0,
    absent-pushed node_id sought clock q s.peers.uses ∙ (i.peers_counted q).1,
  );
  peers_named = i.peers_named;
}

IsCounted-new_connection :
    (c : ℕ) (s : Server) → lookup c s.signers ≡ none → IsCounted s → IsCounted (new_connection c s)
unfolding new_connection
IsCounted-new_connection c s e i = record {
  distinct = insert-IsDistinct c [] s.signers i.distinct;
  signers_distinct = insert-AllValues IsDistinct c [] s.signers i.signers_distinct tt;
  peers_counted = λ q. ground (arith, e, i.peers_counted q, verified_on-insert q c [] s.signers);
  peers_named = i.peers_named;
}

IsCounted-take_place :
    (k : Keeping) (kismet : ℕ → ℕ) (t : Traffic) (s : Server)
    → IsCounted s
    → IsCounted (take_place k kismet t s)
unfolding take_place publish
IsCounted-take_place k kismet (opens c) s i = elim (Option-cases (lookup c s.signers)) [
  | inl e ↦ rw (e, take_place) (IsCounted-new_connection c s e i)
  | inr (ss, e) ↦ rw (e, take_place) i
]
IsCounted-take_place k kismet (verifies c node_id clock) s i =
    IsCounted-verified c node_id clock s i
IsCounted-take_place k kismet (serves c clock) s i = IsCounted-served_on k kismet clock c s i
IsCounted-take_place k kismet (pushes_on node_id sought clock) s i =
    IsCounted-pushed_on node_id sought clock s i
IsCounted-take_place k kismet (closes_on c) s i = IsCounted-close c s i
IsCounted-take_place k kismet names s i = record {
  distinct = i.distinct;
  signers_distinct = i.signers_distinct;
  peers_counted = i.peers_counted;
  peers_named = refl;
}

-- Whatever happens on the connections, pushes and peers asked for included, it stays so that each
-- peer is counted on as many of those open as a request on it was verified by the peer's key, that
-- a peer is counted while there is one, that what it does is followed for as long, and that the
-- peers named last are those counted.
pub take_place_all-IsCounted :
    (k : Keeping) (kismet : ℕ → ℕ) (ts : List Traffic) (s : Server)
    → IsCounted s
    → IsCounted (take_place_all k kismet ts s)
unfolding take_place_all
take_place_all-IsCounted k kismet [] s i = i
take_place_all-IsCounted k kismet (t ∷ ts) s i =
    take_place_all-IsCounted k kismet ts (take_place k kismet t s)
      (IsCounted-take_place k kismet t s i)
