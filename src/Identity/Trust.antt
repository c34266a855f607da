-- ===== src/Identity/Trust.antt =====
-- A person's scores, built in steps from the trust lists read: `TrustScores.from_lists` of
-- src/libranet/identity/trust.py. An id is a number, in the order in which the texts of ids sort.
pub mod Counts
pub mod Build
pub mod Steps
use libranet.Base.{
  ℕ, zero, suc, ◌+◌, ◌-◌, Bool, true, false, not, ◌&&◌, ◌||◌, none, some, List, [], ◌∷◌, leb, ◌==◌,
  if◌then◌else◌, nat_eq, length, take, guard, ◌>>=◌, ◌>>◌, value_error, Result, ok,
}
use libranet.Base.Integers.{increment, decrement, is_positive, gtℤ, ℤ, pos}
use libranet.Base.Dict.{Dict, lookup, get_or, insert}

-- `TrustLimits`
pub record TrustLimits : Type 0 where
  pub max_steps : ℕ
  pub max_lists : ℕ

-- `TrustLimits.__post_init__`
unfoldable pub limits : ℕ → ℕ → Result TrustLimits
limits max_steps max_lists = do
  guard (leb 1 max_steps) value_error
  guard (leb 1 max_lists) value_error
  ok (record { max_steps = max_steps; max_lists = max_lists })

-- `TrustScore`, without the quotient that it is shown as
pub record TrustScore : Type 0 where
  pub net_count : ℤ
  pub step : ℕ

-- `TrustScores`
pub record TrustScores : Type 0 where
  pub person : ℕ
  pub scores : Dict ℕ TrustScore
  pub needed : List ℕ

-- `TrustScores.complete`
unfoldable pub complete : TrustScores → Bool
complete t = elim t.needed [ [] ↦ true | owner ∷ owners ↦ false ]

abbrev pub TrustLists : Type 0
TrustLists = Dict ℕ (Dict ℕ Bool)

-- What one more list that says `trusted` makes of a net count.
abbrev pub net_with : Bool → ℤ → ℤ
net_with trusted net = if trusted then increment net else decrement net

module _ (person : ℕ) (scores : Dict ℕ TrustScore) where
  -- Whether the step under way may score `identity`.
  unfoldable pub may_score : ℕ → Bool
  may_score identity =
      not (identity == person)
      && (elim (lookup identity scores) [ none ↦ true | some score ↦ false ])

  -- The entries of one list, counted.
  unfoldable pub count_entries : Dict ℕ Bool → Dict ℕ ℤ → Dict ℕ ℤ
  unfolding may_score
  count_entries [] net_counts = net_counts
  count_entries ((identity, trusted) ∷ entries) net_counts = count_entries entries (
      if may_score identity
      then insert identity (net_with trusted (get_or identity (pos 0) net_counts)) net_counts
      else net_counts)

  -- The lists of `owners`, counted.
  unfoldable pub count_lists : TrustLists → List ℕ → Dict ℕ ℤ → Dict ℕ ℤ
  unfolding count_entries
  count_lists lists [] net_counts = net_counts
  count_lists lists (owner ∷ owners) net_counts =
      count_lists lists owners (count_entries (get_or owner [] lists) net_counts)

-- `scores.update`, of the step's net counts
unfoldable pub add_scores : ℕ → Dict ℕ ℤ → Dict ℕ TrustScore → Dict ℕ TrustScore
add_scores step [] scores = scores
add_scores step ((identity, net) ∷ net_counts) scores =
    add_scores step net_counts (insert identity (record { net_count = net; step = step }) scores)

-- The owners whose lists are not read.
unfoldable pub not_read : TrustLists → List ℕ → List ℕ
not_read lists [] = []
not_read lists (owner ∷ owners) =
    let rest = not_read lists owners in
    elim (lookup owner lists) [ none ↦ owner ∷ rest | some entries ↦ rest ]

-- Whether one goes before another in `_reading_order`.
unfoldable pub reads_before : ℕ × ℤ → ℕ × ℤ → Bool
reads_before (i, m) (j, n) = gtℤ m n || (not (gtℤ n m) && leb i j)

unfoldable pub insert_in_order : ℕ × ℤ → Dict ℕ ℤ → Dict ℕ ℤ
unfolding reads_before
insert_in_order e [] = e ∷ []
insert_in_order e (f ∷ d) =
    let rest = insert_in_order e d in if reads_before e f then e ∷ f ∷ d else f ∷ rest

-- `sorted(net_counts.items(), key=_reading_order)`
unfoldable pub in_reading_order : Dict ℕ ℤ → Dict ℕ ℤ
unfolding insert_in_order
in_reading_order [] = []
in_reading_order (e ∷ d) = insert_in_order e (in_reading_order d)

unfoldable pub trusted_of : Dict ℕ ℤ → List ℕ
trusted_of [] = []
trusted_of ((identity, net) ∷ d) =
    let rest = trusted_of d in if is_positive net then identity ∷ rest else rest

-- The steps left of a build, from `step` on.
unfoldable pub build : ℕ → TrustLists → ℕ → ℕ → ℕ → List ℕ → ℕ → Dict ℕ TrustScore → TrustScores
unfolding count_lists add_scores not_read in_reading_order trusted_of
build person lists max_lists zero step owners lists_read scores = record {
  person = person;
  scores = scores;
  needed = [];
}
build person lists max_lists (suc steps) step owners lists_read scores =
    let reading : List ℕ = take (max_lists - lists_read) owners in
    let net_counts : Dict ℕ ℤ = count_lists person scores lists reading [] in
    let scored : Dict ℕ TrustScore = add_scores step net_counts scores in
    elim (not_read lists reading) [
      | [] ↦
          build person lists max_lists steps (step + 1) (trusted_of (in_reading_order net_counts))
            (lists_read + length reading) scored
      | owner ∷ others ↦ record { person = person; scores = scored; needed = owner ∷ others }
    ]

-- `TrustScores.from_lists`
unfoldable pub from_lists : ℕ → TrustLists → TrustLimits → TrustScores
unfolding build
from_lists person lists limits =
    build person lists limits.max_lists limits.max_steps 1 (person ∷ []) 0 []
