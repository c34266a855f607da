-- ===== src/Karma/Ledger/Reach/Least.antt =====
-- That the reach covers every balance that counts, and no more: `reach_of` of
-- src/libranet/karma/ledger.py.
use libranet.Base.{
  ℕ, ◌+◌, ◌≤◌, ◌<◌, ◌≡◌, refl, ◌∙◌, ◌⊎◌, inl, inr, false, not, ◌&&◌, none, some, List, [], ◌∷◌,
  arith, ltb, if◌then◌else◌, ==_iff, Bool-cases, Option-cases, nat_eq,
}
use libranet.Base.Dict.{Dict, lookup, member, add_key, member-add_key}
use libranet.Karma.Balances.{Balance}
use libranet.Karma.Ledger.Reach.{scan, reach_from, reach_of, latest}

scan_bounds :
    (back : ℕ) (d : Dict ℕ Balance) (seen : List ℕ) (r : ℕ)
    → r ≤ back
    → (r ≤ (scan back d seen r).1) × ((scan back d seen r).1 ≤ back)
unfolding scan
scan_bounds back [] seen r h = (omega arith, h)
scan_bounds back ((i, b) ∷ d) seen r h =
    let next : ℕ = (if not (member i seen) && ltb 0 b.kismet.count then back else r) in
    ground (arith, scan_bounds back d (add_key i seen) next)

scan_seen :
    (i back : ℕ) (d : Dict ℕ Balance) (seen : List ℕ) (r : ℕ)
    → lookup i d ≡ none
    → member i (scan back d seen r).0 ≡ member i seen
unfolding scan
scan_seen i back [] seen r h = refl
scan_seen i back ((j, b) ∷ d) seen r h =
    let next : ℕ = (if not (member j seen) && ltb 0 b.kismet.count then back else r) in
    ground (arith, scan_seen i back d (add_key j seen) next, member-add_key j i seen)

scan_finds :
    (i back : ℕ) (d : Dict ℕ Balance) (seen : List ℕ) (r : ℕ) (b : Balance)
    → r ≤ back
    → member i seen ≡ false
    → lookup i d ≡ some b
    → 0 < b.kismet.count
    → (scan back d seen r).1 ≡ back
unfolding scan
scan_finds i back [] seen r b h m l p = cc
scan_finds i back ((j, c) ∷ d) seen r b h m l p =
    let next : ℕ = (if not (member j seen) && ltb 0 c.kismet.count then back else r) in
    ground (
      arith,
      scan_finds i back d (add_key j seen) next b,
      scan_bounds back d (add_key j seen) next,
      member-add_key j i seen,
    )

reach_from_bounds :
    (back : ℕ) (ds : List (Dict ℕ Balance)) (seen : List ℕ) (r : ℕ)
    → r ≤ back
    → r ≤ reach_from back ds seen r
unfolding reach_from
reach_from_bounds back [] seen r h = omega arith
reach_from_bounds back (d ∷ ds) seen r h =
    let (seen', r') = scan back d seen r in
    ground (
      arith,
      scan_bounds back d seen r h,
      reach_from_bounds (back + 1) ds (scan back d seen r).0 (scan back d seen r).1,
    )

reach_from_covers :
    (i back : ℕ) (ds : List (Dict ℕ Balance)) (seen : List ℕ) (r n : ℕ) (b : Balance)
    → r ≤ back
    → member i seen ≡ false
    → latest back i ds ≡ some (n, b)
    → 0 < b.kismet.count
    → n ≤ reach_from back ds seen r
unfolding reach_from latest
reach_from_covers i back [] seen r n b h m l p = cc
reach_from_covers i back (d ∷ ds) seen r n b h m l p = elim (Option-cases (lookup i d)) [
  | inl e ↦ ground (
    arith,
    e,
    scan_seen i back d seen r e,
    scan_bounds back d seen r h,
    reach_from_covers i (back + 1) ds (scan back d seen r).0 (scan back d seen r).1 n b,
  )
  | inr (c, e) ↦ ground (
    arith,
    e,
    scan_finds i back d seen r c h m e,
    scan_bounds back d seen r h,
    reach_from_bounds (back + 1) ds (scan back d seen r).0 (scan back d seen r).1,
  )
]

-- Where an identity holds Kismet by its latest balance, the balances reach back to it: no balance
-- that counts is left behind.
pub reach_covers :
    (i n : ℕ) (stated : List (Dict ℕ Balance)) (b : Balance)
    → latest 0 i stated ≡ some (n, b)
    → 0 < b.kismet.count
    → n ≤ reach_of stated
unfolding reach_of
reach_covers i n stated b l p = reach_from_covers i 0 stated [] 0 n b (omega arith) refl l p

scan_marks :
    (i back : ℕ) (d : Dict ℕ Balance) (seen : List ℕ) (r : ℕ)
    → member i (scan back d seen r).0 ≡ false
    → (lookup i d ≡ none) × (member i seen ≡ false)
unfolding scan
scan_marks i back [] seen r h = (refl, h)
scan_marks i back ((j, b) ∷ d) seen r h =
    let next : ℕ = (if not (member j seen) && ltb 0 b.kismet.count then back else r) in
    ground (arith, scan_marks i back d (add_key j seen) next h, member-add_key j i seen, ==_iff j i)

-- The identity that makes an inner loop raise the reach.
abbrev Raised : ℕ → Dict ℕ Balance → List ℕ → ℕ → Type 0
Raised back d seen i =
    (b : Balance) × (member i seen ≡ false) × (lookup i d ≡ some b) × (0 < b.kismet.count)

scan-Raised :
    (back : ℕ) (d : Dict ℕ Balance) (seen : List ℕ) (r : ℕ)
    → ((scan back d seen r).1 ≡ r)
      ⊎ (((scan back d seen r).1 ≡ back) × ((i : ℕ) × Raised back d seen i))
unfolding scan
scan-Raised back [] seen r = inl refl
scan-Raised back ((j, b) ∷ d) seen r =
    let next : ℕ = (if not (member j seen) && ltb 0 b.kismet.count then back else r) in
    elim (scan-Raised back d (add_key j seen) next) [
      | inl e ↦ elim (Bool-cases (not (member j seen) && ltb 0 b.kismet.count)) [
        | inl t ↦ inr (
          ground (arith, e, t),
          (j, (b, ground (arith, t), ground (arith, ==_iff j j), ground (arith, t))),
        )
        | inr f ↦ inl (ground (arith, e, f))
      ]
      | inr (e, (i, (c, m, l, p))) ↦ inr (
        e,
        (
          i,
          (
            c,
            ground (arith, m, member-add_key j i seen),
            ground (arith, m, l, member-add_key j i seen),
            p,
          ),
        ),
      )
    ]

reach_from_least :
    (back : ℕ) (ds : List (Dict ℕ Balance)) (seen : List ℕ) (r : ℕ)
    → (reach_from back ds seen r ≡ r)
      ⊎ ((i : ℕ) × (b : Balance) × (member i seen ≡ false)
          × (latest back i ds ≡ some (reach_from back ds seen r, b))
          × (0 < b.kismet.count))
unfolding reach_from latest
reach_from_least back [] seen r = inl refl
reach_from_least back (d ∷ ds) seen r =
    elim (reach_from_least (back + 1) ds (scan back d seen r).0 (scan back d seen r).1) [
      | inl e ↦ elim (scan-Raised back d seen r) [
        | inl same ↦ inl (e ∙ same)
        | inr (up, (i, (b, m, l, p))) ↦ inr (i, b, m, ground (arith, e, up, l), p)
      ]
      | inr (i, b, m, l, p) ↦ inr (
        i,
        b,
        (scan_marks i back d seen r m).1,
        ground (arith, l, scan_marks i back d seen r m),
        p,
      )
    ]

-- A reach above 0 is needed in full: some identity's latest balance lies exactly as far back as the
-- reach, and holds Kismet.
pub reach_least :
    (stated : List (Dict ℕ Balance))
    → 0 < reach_of stated
    → (i : ℕ) × (b : Balance) × (latest 0 i stated ≡ some (reach_of stated, b))
      × (0 < b.kismet.count)
unfolding reach_of
reach_least stated h = elim (reach_from_least 0 stated [] 0) [
  | inl e ↦ ground (arith, e)
  | inr (i, b, m, l, p) ↦ (i, b, l, p)
]
