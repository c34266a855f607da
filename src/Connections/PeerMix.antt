-- ===== src/Connections/PeerMix.antt =====
-- Choosing which peers to connect to: src/libranet/connections/peer_mix.py. A set is the list of its
-- members, none of them twice; endpoints are numbers, since they are only compared here.
pub mod Laws
use libranet.Base.{
  ℕ, ◌+◌, ◌%◌, ◌^◌, Bool, true, false, ◌&&◌, ◌||◌, Option, none, some, List, [], ◌∷◌, ◌++◌, ltb,
  leb, ◌==◌, if◌then◌else◌, min_of, nat_eq, length,
}
use libranet.Base.Dict.{member, add_key}
use libranet.Cas.ContentId.{bucket, id_eq, content_id_eq, ContentId}
use libranet.Json.{text_eq}

-- `Candidate`
pub record Candidate : Type 0 where
  pub endpoints : List ℕ
  pub node_id : Option ContentId

-- What the mix reads of `PeerConfig`.
pub record PeerConfig : Type 0 where
  pub min_outgoing_connections : ℕ
  pub bucket_prefix_bits : ℕ
  pub min_neighborhood_connections : ℕ
  pub neighborhood_prefix_bits : ℕ

-- `PeerConfig.mix_size`
unfoldable pub mix_size : PeerConfig → ℕ
mix_size p = p.min_outgoing_connections + p.min_neighborhood_connections

-- `PeerMix`
pub record PeerMix : Type 0 where
  pub peers : PeerConfig
  pub node_id : ContentId

-- `_bucket`
unfoldable pub bucket_of : PeerMix → ContentId → ℕ
bucket_of m id = bucket id m.peers.bucket_prefix_bits

-- `_neighborhood_bucket`
unfoldable pub neighborhood_bucket : PeerMix → ContentId → Option ℕ
unfolding bucket_of
neighborhood_bucket m id =
    if bucket_of m id == bucket_of m m.node_id
    then some (
        bucket id (m.peers.bucket_prefix_bits + m.peers.neighborhood_prefix_bits)
        % 2 ^ m.peers.neighborhood_prefix_bits)
    else none

-- The ids known, as a set.
unfoldable pub known : List (Option ContentId) → List ContentId
known [] = []
known (none ∷ ids) = known ids
known (some id ∷ ids) = add_key id (known ids)

unfoldable pub neighbors : PeerMix → List ContentId → List ℕ
unfolding neighborhood_bucket
neighbors m [] = []
neighbors m (id ∷ ids) = elim (neighborhood_bucket m id) [
  | none ↦ neighbors m ids
  | some place ↦ place ∷ neighbors m ids
]

-- A list as a set of numbers.
abbrev pub set_of : List ℕ → List ℕ
set_of [] = []
set_of (n ∷ ns) = add_key n (set_of ns)

-- The buckets of peers, but for `own`.
unfoldable pub buckets_but : PeerMix → ℕ → List ContentId → List ℕ
unfolding bucket_of
buckets_but m own [] = []
buckets_but m own (id ∷ ids) =
    let rest = buckets_but m own ids in
    if bucket_of m id == own then rest else add_key (bucket_of m id) rest

-- `_covered`
unfoldable pub covered : PeerMix → List ContentId → List ℕ × List ℕ
unfolding neighbors buckets_but bucket_of
covered m connected =
    let own : ℕ = bucket_of m m.node_id in
    let neighborhood : List ℕ = set_of (neighbors m connected) in
    let covered_buckets : List ℕ = buckets_but m own connected in
    (
      if ltb (min_of (length neighborhood) m.peers.min_neighborhood_connections)
            (length (neighbors m connected))
          then add_key own covered_buckets
          else covered_buckets,
      neighborhood,
    )

-- What `_spread` has chosen, and the sets it adds to.
pub record Spread : Type 0 where
  pub chosen : List Candidate
  pub covered_buckets : List ℕ
  pub taken : List ContentId

-- The bucket that choosing a candidate covers, `none` if `_spread` passes it over.
unfoldable pub place_of :
    (ContentId → Option ℕ) → Option ContentId → List ℕ → List ContentId → Option (ContentId × ℕ)
place_of place none covered_buckets taken = none
place_of place (some id) covered_buckets taken =
    if member id taken then none else (elim (place id) [
      | none ↦ none
      | some n ↦ if member n covered_buckets then none else some (id, n)
    ])

-- `_spread`
unfoldable pub spread :
    List Candidate → (ContentId → Option ℕ) → List ℕ → ℕ → List ContentId → Spread
unfolding place_of
spread [] place covered_buckets wanted taken = record {
  chosen = [];
  covered_buckets = covered_buckets;
  taken = taken;
}
spread (candidate ∷ candidates) place covered_buckets wanted taken =
    if leb wanted (length covered_buckets)
    then record { chosen = []; covered_buckets = covered_buckets; taken = taken }
    else (elim (place_of place candidate.node_id covered_buckets taken) [
      | none ↦ spread candidates place covered_buckets wanted taken
      | some (id, n) ↦
          let rest : Spread = spread candidates place (n ∷ covered_buckets) wanted (id ∷ taken) in
          record rest { chosen = candidate ∷ rest.chosen }
    ])

abbrev pub same_id : Option ContentId → Option ContentId → Bool
same_id none none = true
same_id none (some b) = false
same_id (some a) none = false
same_id (some a) (some b) = id_eq a b

-- `candidate in chosen`
unfoldable pub among : Candidate → List Candidate → Bool
among candidate [] = false
among candidate (c ∷ cs) =
    (text_eq c.endpoints candidate.endpoints && same_id c.node_id candidate.node_id)
    || among candidate cs

abbrev pub is_taken : Option ContentId → List ContentId → Bool
is_taken none taken = false
is_taken (some id) taken = member id taken

abbrev pub take_id : Option ContentId → List ContentId → List ContentId
take_id none taken = taken
take_id (some id) taken = id ∷ taken

-- The last loop of `choose`: with `count` connections and `chosen` so far, up to `size`, what is
-- chosen besides.
unfoldable pub fill : List Candidate → ℕ → ℕ → List Candidate → List ContentId → List Candidate
unfolding among
fill [] size count chosen taken = chosen
fill (candidate ∷ candidates) size count chosen taken =
    let passed = fill candidates size count chosen taken in
    let added =
      fill candidates size count (chosen ++ (candidate ∷ [])) (take_id candidate.node_id taken) in
    if leb size (count + length chosen)
    then chosen
    else if among candidate chosen || is_taken candidate.node_id taken
    then passed
    else added

-- `choose`
unfoldable pub choose : PeerMix → List Candidate → List (Option ContentId) → List Candidate
unfolding known covered spread fill bucket_of neighborhood_bucket mix_size
choose m candidates connected =
    let taken : List ContentId = known connected in
    let sets = covered m taken in
    let first : Spread =
      spread candidates (λ id. some (bucket_of m id)) sets.0 m.peers.min_outgoing_connections
        taken in
    let second : Spread =
      spread candidates (neighborhood_bucket m) sets.1 m.peers.min_neighborhood_connections
        first.taken in
    fill candidates (mix_size m.peers) (length connected) (first.chosen ++ second.chosen)
      second.taken
