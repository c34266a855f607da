-- ===== src/Connections/PeerMix/Laws.antt =====
-- What `PeerMix.choose` of src/libranet/connections/peer_mix.py chooses.
use libranet.Base.{
  ℕ, ◌-◌, ◌≤◌, ◌≡◌, refl, sym, ap, ◌∙◌, inl, inr, false, ◌||◌, Option, none, some, List, [], ◌∷◌,
  ◌++◌, arith, Bool-cases, Option-cases, nat_eq, length, length-append,
}
use libranet.Base.Dict.{member}
use libranet.Cas.ContentId.{content_id_eq, ContentId}
use libranet.Connections.PeerMix.{
  mix_size, bucket_of, neighborhood_bucket, known, covered, place_of, spread, among, is_taken,
  take_id, fill, choose, Candidate, PeerMix, Spread,
}

-- None of the candidates is known by an id taken, or by the id of one before it.
abbrev pub New : List ContentId → List Candidate → Type 0
New taken [] = Unit
New taken (c ∷ cs) = (is_taken c.node_id taken ≡ false) × New (take_id c.node_id taken) cs

-- The ids taken once the candidates are.
abbrev pub taken_by : List ContentId → List Candidate → List ContentId
taken_by taken [] = taken
taken_by taken (c ∷ cs) = taken_by (take_id c.node_id taken) cs

taken_by-append :
    (taken : List ContentId) (xs ys : List Candidate)
    → taken_by taken (xs ++ ys) ≡ taken_by (taken_by taken xs) ys
taken_by-append taken [] ys = refl
taken_by-append taken (x ∷ xs) ys = taken_by-append (take_id x.node_id taken) xs ys

New-append :
    (taken : List ContentId) (xs ys : List Candidate)
    → New taken xs
    → New (taken_by taken xs) ys
    → New taken (xs ++ ys)
New-append taken [] ys n m = m
New-append taken (x ∷ xs) ys n m = (n.0, New-append (take_id x.node_id taken) xs ys n.1 m)

New-then :
    (taken after : List ContentId) (xs ys : List Candidate)
    → New taken xs
    → after ≡ taken_by taken xs
    → New after ys
    → New taken (xs ++ ys)
New-then taken after xs ys n e m = New-append taken xs ys n (rw e at m)

place_of-some :
    (place : ContentId → Option ℕ) (o : Option ContentId) (sets : List ℕ) (taken : List ContentId)
    (id : ContentId) (n : ℕ)
    → place_of place o sets taken ≡ some (id, n)
    → (o ≡ some id) × (member id taken ≡ false) × (member n sets ≡ false)
unfolding place_of
place_of-some place none sets taken id n h = cc
place_of-some place (some i) sets taken id n h = elim (Option-cases (place i)) [
  | inl e ↦ ground (arith, e, h)
  | inr (k, e) ↦ ground (arith, e, h)
]

spread-New :
    (cs : List Candidate) (place : ContentId → Option ℕ) (sets : List ℕ) (wanted : ℕ)
    (taken : List ContentId)
    → let s = spread cs place sets wanted taken in
      New taken s.chosen × (s.taken ≡ taken_by taken s.chosen)
unfolding spread
spread-New [] place sets wanted taken = (tt, refl)
spread-New (c ∷ cs) place sets wanted taken =
    elim (Option-cases (place_of place c.node_id sets taken)) [
      | inl e ↦ ground (arith, e, spread-New cs place sets wanted taken)
      | inr ((id, n), e) ↦
          let (o, t, s) = place_of-some place c.node_id sets taken id n e in
          ground (arith, e, o, t, spread-New cs place (n ∷ sets) wanted (id ∷ taken))
    ]

length-spread :
    (cs : List Candidate) (place : ContentId → Option ℕ) (sets : List ℕ) (wanted : ℕ)
    (taken : List ContentId)
    → length (spread cs place sets wanted taken).chosen ≤ wanted - length sets
unfolding spread
length-spread [] place sets wanted taken = omega arith
length-spread (c ∷ cs) place sets wanted taken =
    elim (Option-cases (place_of place c.node_id sets taken)) [
      | inl e ↦ ground (arith, e, length-spread cs place sets wanted taken)
      | inr ((id, n), e) ↦ ground (arith, e, length-spread cs place (n ∷ sets) wanted (id ∷ taken))
    ]

fill-New :
    (cs : List Candidate) (size count : ℕ) (chosen : List Candidate) (taken from : List ContentId)
    → New from chosen
    → taken ≡ taken_by from chosen
    → New from (fill cs size count chosen taken)
unfolding fill
fill-New [] size count chosen taken from n e = n
fill-New (c ∷ cs) size count chosen taken from n e =
    let rest : List Candidate = chosen ++ (c ∷ []) in
    elim (Bool-cases (among c chosen || is_taken c.node_id taken)) [
      | inl t ↦ ground (arith, t, fill-New cs size count chosen taken from n e)
      | inr f ↦
          let new : is_taken c.node_id (taken_by from chosen) ≡ false = ground (arith, e, f) in
          ground (
            arith,
            f,
            fill-New cs size count rest (take_id c.node_id taken) from
                (New-append from chosen (c ∷ []) n (new, tt))
                (ap (take_id c.node_id) e ∙ sym (taken_by-append from chosen (c ∷ []))),
          )
    ]

length-fill :
    (cs : List Candidate) (size count : ℕ) (chosen : List Candidate) (taken : List ContentId)
    → length chosen ≤ size
    → length (fill cs size count chosen taken) ≤ size
unfolding fill
length-fill [] size count chosen taken h = h
length-fill (c ∷ cs) size count chosen taken h = ground (
  arith,
  length-fill cs size count chosen taken,
  length-fill cs size count (chosen ++ (c ∷ [])) (take_id c.node_id taken),
  length-append chosen (c ∷ []),
)

-- No candidate chosen is known by the id of a peer connected, or by that of one chosen before it.
pub choose-New :
    (m : PeerMix) (candidates : List Candidate) (connected : List (Option ContentId))
    → New (known connected) (choose m candidates connected)
unfolding choose
choose-New m candidates connected =
    let taken : List ContentId = known connected in
    let sets = covered m taken in
    let first : Spread =
      spread candidates (λ id. some (bucket_of m id)) sets.0 m.peers.min_outgoing_connections
        taken in
    let second : Spread =
      spread candidates (neighborhood_bucket m) sets.1 m.peers.min_neighborhood_connections
        first.taken in
    let (new, by) =
      spread-New candidates (λ id. some (bucket_of m id)) sets.0 m.peers.min_outgoing_connections
        taken in
    let (new', by') =
      spread-New candidates (neighborhood_bucket m) sets.1 m.peers.min_neighborhood_connections
        first.taken in
    fill-New candidates (mix_size m.peers) (length connected) (first.chosen ++ second.chosen)
      second.taken taken (New-then taken first.taken first.chosen second.chosen new by new')
      (by'
        ∙ ap (λ t. taken_by t second.chosen) by
        ∙ sym (taken_by-append taken first.chosen second.chosen))

-- No more candidates are chosen at once than the mix is to have peers.
pub choose_bounded :
    (m : PeerMix) (candidates : List Candidate) (connected : List (Option ContentId))
    → length (choose m candidates connected) ≤ mix_size m.peers
unfolding choose mix_size
choose_bounded m candidates connected =
    let taken : List ContentId = known connected in
    let sets = covered m taken in
    let first : Spread =
      spread candidates (λ id. some (bucket_of m id)) sets.0 m.peers.min_outgoing_connections
        taken in
    let second : Spread =
      spread candidates (neighborhood_bucket m) sets.1 m.peers.min_neighborhood_connections
        first.taken in
    length-fill candidates (mix_size m.peers) (length connected) (first.chosen ++ second.chosen)
      second.taken
      (omega (
        arith,
        length-append first.chosen second.chosen,
        length-spread candidates (λ id. some (bucket_of m id)) sets.0
            m.peers.min_outgoing_connections taken,
        length-spread candidates (neighborhood_bucket m) sets.1 m.peers.min_neighborhood_connections
            first.taken,
      ))
