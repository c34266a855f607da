-- ===== src/Identity/Trust/Counts.antt =====
-- What a step of a build counts for each identity: src/libranet/identity/trust.py.
use libranet.Base.{
  ℕ, ◌≡◌, refl, inl, inr, Bool, Option, none, some, List, [], ◌∷◌, arith, ◌==◌, if◌then◌else◌,
  Bool-cases, Option-cases, nat_eq, All,
}
use libranet.Base.Integers.{ℤ, pos}
use libranet.Base.Dict.{
  Dict, lookup, get_or, insert, keys, IsDistinct, lookup-insert, get_or_lem, lookup-absent,
  insert-IsDistinct,
}
use libranet.Identity.Trust.{
  TrustLists, net_with, may_score, count_entries, count_lists, add_scores, TrustScore,
}

-- What a list that says `said` of an identity makes of its net count.
abbrev pub vote : Option Bool → Option ℤ → Option ℤ
vote none net = net
vote (some trusted) none = some (net_with trusted (pos 0))
vote (some trusted) (some net) = some (net_with trusted net)

-- What the lists of `owners` make of the net count of `identity`, one after another.
abbrev pub tally : ℕ → TrustLists → List ℕ → Option ℤ → Option ℤ
tally identity lists [] net = net
tally identity lists (owner ∷ owners) net =
    tally identity lists owners (vote (lookup identity (get_or owner [] lists)) net)

-- No list names an identity twice, as no `dict` does.
abbrev pub AreDicts : TrustLists → Type 0
AreDicts lists = All (λ (entry : ℕ × Dict ℕ Bool). IsDistinct (keys entry.1)) lists

pub get_or-IsDistinct :
    (owner : ℕ) (lists : TrustLists) → AreDicts lists → IsDistinct (keys (get_or owner [] lists))
get_or-IsDistinct owner [] u = tt
get_or-IsDistinct owner ((j, entries) ∷ lists) u = elim (Bool-cases (j == owner)) [
  | inl t ↦ rw t u.0
  | inr f ↦ rw f (get_or-IsDistinct owner lists u.1)
]

module _ (person : ℕ) (scores : Dict ℕ TrustScore) where
  pub lookup-count_entries :
      (i : ℕ) (entries : Dict ℕ Bool) (net_counts : Dict ℕ ℤ)
      → IsDistinct (keys entries)
      → lookup i (count_entries person scores entries net_counts) ≡ (
          if may_score person scores i
          then vote (lookup i entries) (lookup i net_counts)
          else lookup i net_counts)
  unfolding count_entries
  lookup-count_entries i [] net_counts u = ground arith
  lookup-count_entries i ((j, t) ∷ entries) net_counts u =
      let counts : Dict ℕ ℤ =
        if may_score person scores j
        then insert j (net_with t (get_or j (pos 0) net_counts)) net_counts
        else net_counts in
      ground (
        arith,
        lookup-absent j entries u.0,
        lookup-insert j i (net_with t (get_or j (pos 0) net_counts)) net_counts,
        get_or_lem j (pos 0) net_counts,
        Option-cases (lookup j net_counts),
        Option-cases (lookup i entries),
        Option-cases (lookup i net_counts),
        lookup-count_entries i entries counts u.1,
      )

  pub lookup-count_lists :
      (i : ℕ) (lists : TrustLists) (owners : List ℕ) (net_counts : Dict ℕ ℤ)
      → AreDicts lists
      → lookup i (count_lists person scores lists owners net_counts) ≡ (
          if may_score person scores i
          then tally i lists owners (lookup i net_counts)
          else lookup i net_counts)
  unfolding count_lists
  lookup-count_lists i lists [] net_counts u = ground arith
  lookup-count_lists i lists (owner ∷ owners) net_counts u = ground (
    arith,
    lookup-count_lists i lists owners
        (count_entries person scores (get_or owner [] lists) net_counts) u,
    lookup-count_entries i (get_or owner [] lists) net_counts (get_or-IsDistinct owner lists u),
  )

  pub count_entries-IsDistinct :
      (entries : Dict ℕ Bool) (net_counts : Dict ℕ ℤ)
      → IsDistinct (keys net_counts)
      → IsDistinct (keys (count_entries person scores entries net_counts))
  unfolding count_entries
  count_entries-IsDistinct [] net_counts u = u
  count_entries-IsDistinct ((j, t) ∷ entries) net_counts u =
      count_entries-IsDistinct entries _ (elim (Bool-cases (may_score person scores j)) [
        | inl y ↦ rw y (insert-IsDistinct j (net_with t (get_or j (pos 0) net_counts)) net_counts u)
        | inr n ↦ rw n u
      ])

  pub count_lists-IsDistinct :
      (lists : TrustLists) (owners : List ℕ) (net_counts : Dict ℕ ℤ)
      → IsDistinct (keys net_counts)
      → IsDistinct (keys (count_lists person scores lists owners net_counts))
  unfolding count_lists
  count_lists-IsDistinct lists [] net_counts u = u
  count_lists-IsDistinct lists (owner ∷ owners) net_counts u =
      count_lists-IsDistinct lists owners
        (count_entries person scores (get_or owner [] lists) net_counts)
        (count_entries-IsDistinct (get_or owner [] lists) net_counts u)

pub lookup-add_scores :
    (i step : ℕ) (net_counts : Dict ℕ ℤ) (scores : Dict ℕ TrustScore)
    → IsDistinct (keys net_counts)
    → lookup i (add_scores step net_counts scores) ≡ (elim (lookup i net_counts) [
      | none ↦ lookup i scores
      | some net ↦ some (record { net_count = net; step = step })
    ])
unfolding add_scores
lookup-add_scores i step [] scores u = refl
lookup-add_scores i step ((j, net) ∷ net_counts) scores u = ground (
  arith,
  lookup-absent j net_counts u.0,
  lookup-insert j i (record { net_count = net; step = step }) scores,
  Option-cases (lookup i net_counts),
  lookup-add_scores i step net_counts (insert j (record { net_count = net; step = step }) scores)
      u.1,
)

-- The scores after a step that reads the lists of `owners`.
abbrev pub after_step : ℕ → TrustLists → ℕ → List ℕ → Dict ℕ TrustScore → Dict ℕ TrustScore
after_step person lists step owners scores =
    add_scores step (count_lists person scores lists owners []) scores

-- Where no list names an identity twice, a step scores each identity other than the person that no step before it
-- scored and that a list it reads names, by what those lists say of it, one after another; it scores no other, and
-- changes no score there is.
pub lookup-after_step :
    (person i step : ℕ) (lists : TrustLists) (owners : List ℕ) (scores : Dict ℕ TrustScore)
    → AreDicts lists
    → lookup i (after_step person lists step owners scores) ≡ (elim (lookup i scores) [
      | some score ↦ some score
      | none ↦ if i == person then none else elim (tally i lists owners none) [
        | none ↦ none
        | some net ↦ some (record { net_count = net; step = step })
      ]
    ])
unfolding may_score
lookup-after_step person i step lists owners scores u =
    let counts : Dict ℕ ℤ = count_lists person scores lists owners [] in
    ground (
      arith,
      lookup-add_scores i step counts scores
          (count_lists-IsDistinct person scores lists owners [] tt),
      lookup-count_lists person scores i lists owners [] u,
      Option-cases (lookup i scores),
      Option-cases (tally i lists owners none),
    )
