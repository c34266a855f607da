-- ===== src/Identity/Trust/Build.antt =====
-- What a build of scores keeps, step by step: src/libranet/identity/trust.py.
use libranet.Base.{
  ℕ, zero, suc, ◌+◌, ◌-◌, ◌≤◌, ◌<◌, ◌≡◌, refl, sym, ap, ◌≢◌, ◌⊎◌, inl, inr, Bool, none, some, List,
  [], ◌∷◌, arith, Option-cases, nat_eq, length, take, All, length-take_le,
}
use libranet.Base.Integers.{pos}
use libranet.Base.Dict.{Dict, lookup, get_or, get_or_lem}
use libranet.Identity.Trust.{
  TrustLists, net_with, count_lists, not_read, in_reading_order, trusted_of, build, TrustScore,
}
use libranet.Identity.Trust.Counts.{tally, AreDicts, after_step, lookup-after_step}

-- Whether there is nothing left, to split on.
List-cases : (l : List ℕ) → (l ≡ []) ⊎ ((x : ℕ) × (xs : List ℕ) × (l ≡ x ∷ xs))
List-cases [] = inl refl
List-cases (x ∷ xs) = inr (x, xs, refl)

not_read-unread :
    (lists : TrustLists) (owners : List ℕ)
    → All (λ (o : ℕ). lookup o lists ≡ none) (not_read lists owners)
unfolding not_read
not_read-unread lists [] = tt
not_read-unread lists (o ∷ owners) = elim (Option-cases (lookup o lists)) [
  | inl e ↦ rw (e, not_read) (e, not_read-unread lists owners)
  | inr (l, e) ↦ rw (e, not_read) (not_read-unread lists owners)
]

length-not_read :
    (lists : TrustLists) (owners : List ℕ) → length (not_read lists owners) ≤ length owners
unfolding not_read
length-not_read lists [] = omega arith
length-not_read lists (o ∷ owners) =
    ground (arith, Option-cases (lookup o lists), length-not_read lists owners)

pub suc_pred : (n : ℕ) → 1 ≤ n → suc (n - 1) ≡ n
suc_pred n h = omega arith

take_first : (n k p : ℕ) → n ≡ suc k → take n (p ∷ []) ≡ p ∷ []
take_first n zero p h = rw h refl
take_first n (suc k) p h = rw h refl

module _ (person : ℕ) (lists : TrustLists) (max_lists : ℕ) where
  -- The lists that a step reads.
  abbrev reading : ℕ → List ℕ → List ℕ
  reading lists_read owners = take (max_lists - lists_read) owners

  -- The owners of the lists that the step after reads.
  abbrev followed : List ℕ → Dict ℕ TrustScore → List ℕ
  followed owners scores = trusted_of (in_reading_order (count_lists person scores lists owners []))

  build-wait :
      (steps step : ℕ) (owners : List ℕ) (lists_read : ℕ) (scores : Dict ℕ TrustScore) (o : ℕ)
      (os : List ℕ)
      → not_read lists (reading lists_read owners) ≡ o ∷ os
      → build person lists max_lists (suc steps) step owners lists_read scores ≡ record {
        person = person;
        scores = after_step person lists step (reading lists_read owners) scores;
        needed = o ∷ os;
      }
  unfolding build
  build-wait steps step owners lists_read scores o os h = rw (h, build) refl

  build-go :
      (steps step : ℕ) (owners : List ℕ) (lists_read : ℕ) (scores : Dict ℕ TrustScore)
      → not_read lists (reading lists_read owners) ≡ []
      → build person lists max_lists (suc steps) step owners lists_read scores
        ≡ build person lists max_lists steps
            (step + 1)
            (followed (reading lists_read owners) scores)
            (lists_read + length (reading lists_read owners))
            (after_step person lists step (reading lists_read owners) scores)
  unfolding build
  build-go steps step owners lists_read scores h = rw (h, build) refl

  -- A build keeps each score there is.
  lookup-build :
      (i : ℕ) (s : TrustScore) (steps step : ℕ) (owners : List ℕ) (lists_read : ℕ)
      (scores : Dict ℕ TrustScore)
      → AreDicts lists
      → lookup i scores ≡ some s
      → lookup i (build person lists max_lists steps step owners lists_read scores).scores ≡ some s
  unfolding build
  lookup-build i s zero step owners lists_read scores u h = h
  lookup-build i s (suc steps) step owners lists_read scores u h =
      let kept : lookup i (after_step person lists step (reading lists_read owners) scores)
          ≡ some s =
        ground
          (arith, lookup-after_step person i step lists (reading lists_read owners) scores u) in
      elim (List-cases (not_read lists (reading lists_read owners))) [
        | inl e ↦ ground (
          arith,
          build-go steps step owners lists_read scores e,
          lookup-build i s steps (step + 1) (followed (reading lists_read owners) scores)
              (lists_read + length (reading lists_read owners))
              (after_step person lists step (reading lists_read owners) scores) u kept,
        )
        | inr (o, os, e) ↦
            ground (arith, kept, build-wait steps step owners lists_read scores o os e)
      ]

  -- A build of one step more has each score of the build.
  pub build-deeper :
      (i : ℕ) (s : TrustScore) (steps step : ℕ) (owners : List ℕ) (lists_read : ℕ)
      (scores : Dict ℕ TrustScore)
      → AreDicts lists
      → lookup i (build person lists max_lists steps step owners lists_read scores).scores ≡ some s
      → lookup i (build person lists max_lists (suc steps) step owners lists_read scores).scores
        ≡ some s
  build-deeper i s zero step owners lists_read scores u h =
      lookup-build i s 1 step owners lists_read scores u (unfold build in h)
  build-deeper i s (suc steps) step owners lists_read scores u h =
      elim (List-cases (not_read lists (reading lists_read owners))) [
        | inl e ↦ ground (
          arith,
          build-go steps step owners lists_read scores e,
          build-go (suc steps) step owners lists_read scores e,
          build-deeper i s steps (step + 1) (followed (reading lists_read owners) scores)
              (lists_read + length (reading lists_read owners))
              (after_step person lists step (reading lists_read owners) scores) u,
        )
        | inr (o, os, e) ↦ ground (
          arith,
          build-wait steps step owners lists_read scores o os e,
          build-wait (suc steps) step owners lists_read scores o os e,
        )
      ]

  after_step-new :
      (i : ℕ) (s : TrustScore) (steps step : ℕ) (owners : List ℕ) (scores : Dict ℕ TrustScore)
      → AreDicts lists
      → lookup i (after_step person lists step owners scores) ≡ some s
      → (lookup i scores ≡ some s) ⊎ ((i ≢ person) × (step ≤ s.step) × (s.step < step + suc steps))
  after_step-new i s steps step owners scores u h = elim (Option-cases (lookup i scores)) [
    | inr (s', e) ↦ inl (ground (arith, lookup-after_step person i step lists owners scores u))
    | inl e ↦ inr (
      ground (arith, lookup-after_step person i step lists owners scores u),
      ground (
        arith,
        lookup-after_step person i step lists owners scores u,
        Option-cases (tally i lists owners none),
      ),
      ground (
        arith,
        lookup-after_step person i step lists owners scores u,
        Option-cases (tally i lists owners none),
      ),
    )
  ]

  -- A score that a build adds is at one of its steps, and is not the person's.
  pub build-new :
      (i : ℕ) (s : TrustScore) (steps step : ℕ) (owners : List ℕ) (lists_read : ℕ)
      (scores : Dict ℕ TrustScore)
      → AreDicts lists
      → lookup i (build person lists max_lists steps step owners lists_read scores).scores ≡ some s
      → (lookup i scores ≡ some s) ⊎ ((i ≢ person) × (step ≤ s.step) × (s.step < step + steps))
  build-new i s zero step owners lists_read scores u h = inl (unfold build in h)
  build-new i s (suc steps) step owners lists_read scores u h =
      let scored : Dict ℕ TrustScore =
        after_step person lists step (reading lists_read owners) scores in
      let now : (lookup i scored ≡ some s)
          → (lookup i scores ≡ some s)
            ⊎ ((i ≢ person) × (step ≤ s.step) × (s.step < step + suc steps)) =
        after_step-new i s steps step (reading lists_read owners) scores u in
      elim (List-cases (not_read lists (reading lists_read owners))) [
        | inl e ↦
            elim (build-new i s steps (step + 1) (followed (reading lists_read owners) scores)
              (lists_read + length (reading lists_read owners)) scored u
              (rw (sym (build-go steps step owners lists_read scores e)) h)) [
                | inl k ↦ now k
                | inr (p, l, m) ↦ inr (p, omega arith, omega arith)
              ]
        | inr (o, os, e) ↦
            now (ground (arith, build-wait steps step owners lists_read scores o os e))
      ]

  -- What a build needs is not read, and not more than may be.
  pub build-needed :
      (steps step : ℕ) (owners : List ℕ) (lists_read : ℕ) (scores : Dict ℕ TrustScore)
      → All
          (λ (o : ℕ). lookup o lists ≡ none)
          (build person lists max_lists steps step owners lists_read scores).needed
        × (length (build person lists max_lists steps step owners lists_read scores).needed
            ≤ max_lists)
  build-needed zero step owners lists_read scores = unfold build in (tt, omega arith)
  build-needed (suc steps) step owners lists_read scores =
      elim (List-cases (not_read lists (reading lists_read owners))) [
        | inl e ↦ rw (build-go steps step owners lists_read scores e) (
            build-needed steps (step + 1) (followed (reading lists_read owners) scores)
              (lists_read + length (reading lists_read owners))
              (after_step person lists step (reading lists_read owners) scores))
        | inr (o, os, e) ↦ rw (build-wait steps step owners lists_read scores o os e) (
          rw e at (not_read-unread lists (reading lists_read owners)),
          omega (
            arith,
            ap (λ (l : List ℕ). length l) e,
            length-not_read lists (reading lists_read owners),
            length-take_le (max_lists - lists_read) owners,
          ),
        )
      ]

  first_step :
      (i : ℕ) (entries : Dict ℕ Bool) (trusted : Bool)
      → AreDicts lists
      → lookup person lists ≡ some entries
      → lookup i entries ≡ some trusted
      → i ≢ person
      → lookup i (after_step person lists 1 (person ∷ []) [])
        ≡ some (record { net_count = net_with trusted (pos 0); step = 1 })
  first_step i entries trusted u e t p =
      let theirs : get_or person [] lists ≡ entries = ground (arith, get_or_lem person [] lists) in
      let counted_once : tally i lists (person ∷ []) none ≡ some (net_with trusted (pos 0)) =
        rw theirs (rw t refl) in
      ground (arith, lookup-after_step person i 1 lists (person ∷ []) [] u)

  pub build-own :
      (i k m : ℕ) (entries : Dict ℕ Bool) (trusted : Bool)
      → AreDicts lists
      → max_lists - 0 ≡ suc m
      → lookup person lists ≡ some entries
      → lookup i entries ≡ some trusted
      → i ≢ person
      → lookup i (build person lists max_lists (suc k) 1 (person ∷ []) 0 []).scores
        ≡ some (record { net_count = net_with trusted (pos 0); step = 1 })
  unfolding not_read
  build-own i k m entries trusted u h e t p =
      let s : TrustScore = record { net_count = net_with trusted (pos 0); step = 1 } in
      let read : reading 0 (person ∷ []) ≡ person ∷ [] = take_first (max_lists - 0) m person h in
      let scored : lookup i (after_step person lists 1 (reading 0 (person ∷ [])) []) ≡ some s =
        rw read (first_step i entries trusted u e t p) in
      let none_left : not_read lists (reading 0 (person ∷ [])) ≡ [] = rw read (ground arith) in
      rw (build-go k 1 (person ∷ []) 0 [] none_left) (
        lookup-build i s k (1 + 1) (followed (reading 0 (person ∷ [])) [])
          (0 + length (reading 0 (person ∷ [])))
          (after_step person lists 1 (reading 0 (person ∷ [])) []) u scored)
