-- ===== src/Tests/Records.antt =====
-- The theorems on the chain's history, trust and signed versions at small inputs.
use libranet.Base.{
  ℕ, ◌+◌, ◌≤◌, ◌<◌, ◌≡◌, refl, subst, ◌≢◌, ◌⊎◌, true, false, some, List, [], ◌∷◌, ◌++◌, arith, ◌==◌,
  if◌then◌else◌, nat_eq, length, take, ok,
}
use libranet.Base.Integers.{pos, negsuc}
use libranet.Base.Dict.{lookup}
use libranet.Karma.History.{
  key_eq, has_key, replace, open_history, TransactionKey, ChainGeneration, ChainHistory, Files,
  Write, write_generation, write_genealogy, write_head,
}
use libranet.Karma.History.Replaced.{replace-IsHistory, IsHistory}
use libranet.Karma.History.Stored.{opened, open_history-IsHistory, cut, IsKept}
use libranet.Karma.History.Cut.{opened-cut}
use libranet.Identity.Trust.{TrustLists, from_lists, TrustLimits}
use libranet.Identity.Trust.Counts.{AreDicts, after_step, lookup-after_step}
use libranet.Identity.Trust.Steps.{from_lists-bounded, from_lists-deeper, from_lists-own}
use libranet.Identity.Versions.{
  all_signed_by, newest, is_read, with_version, entries_of, next_version, TrustList, HeldTrustList,
}
use libranet.Identity.Versions.Newest.{with_version-next_version}

abbrev key_of : ℕ → TransactionKey
key_of n = record { sender = n; created = 1 }

abbrev generation_of : ℕ → ℕ → List TransactionKey → List ℕ → ChainGeneration
generation_of n id held seen = record {
  generation = n;
  validation = id;
  transaction = id + 1;
  weight = record { work = 5 };
  keys_held = held;
  witnesses = seen;
  stake_baseline = record { stake = 0 };
}

abbrev first_generation : ChainGeneration
first_generation = generation_of 0 100 (key_of 7 ∷ []) (50 ∷ [])

abbrev second_generation : ChainGeneration
second_generation = generation_of 1 200 (key_of 8 ∷ []) (51 ∷ [])

abbrev other_generation : ChainGeneration
other_generation = generation_of 1 300 (key_of 9 ∷ []) (50 ∷ [])

abbrev two_files : Files
two_files = record {
  stored = (0, first_generation) ∷ (1, second_generation) ∷ [];
  genealogy = some 100 ∷ some 200 ∷ [];
  head_file = some second_generation;
}

abbrev two_generations : ChainHistory
two_generations = record {
  generations = first_generation ∷ second_generation ∷ [];
  known_keys = (key_of 7, 0) ∷ (key_of 8, 1) ∷ [];
  known_witnesses = (50, 0) ∷ (51, 1) ∷ [];
}

abbrev other_generations : ChainHistory
other_generations = record {
  generations = first_generation ∷ other_generation ∷ [];
  known_keys = (key_of 7, 0) ∷ (key_of 9, 1) ∷ [];
  known_witnesses = (50, 0) ∷ [];
}

abbrev other_writes : List Write
other_writes =
    write_generation other_generation
    ∷ write_genealogy (100 ∷ 300 ∷ [])
    ∷ write_head (some other_generation)
    ∷ []

two_files_opened : (open_history two_files).0 ≡ two_generations
unfolding open_history
two_files_opened = refl

two_generations-IsHistory : IsHistory two_generations
two_generations-IsHistory = subst IsHistory two_files_opened (open_history-IsHistory two_files)

two_generations-IsKept : IsKept two_generations two_files
two_generations-IsKept = record { stored = (refl, (refl, tt)); listed = refl }

other_replaced : replace other_generation [] two_generations ≡ ok (other_generations, other_writes)
unfolding replace
other_replaced = refl

-- A key forgotten with the generation that held it is known no more.
other_key_forgotten : has_key (key_of 8) 0 1 other_generations ≡ false
unfolding has_key
other_key_forgotten = refl

replace-IsHistory_example :
    (other_generations.generations ≡ take 1 two_generations.generations ++ (other_generation ∷ []))
    × IsHistory other_generations
replace-IsHistory_example =
    replace-IsHistory other_generation [] two_generations other_generations other_writes
      two_generations-IsHistory other_replaced

opened-cut_example :
    ((1 ≤ length (other_generation ∷ []))
      × (take 1 (opened (cut 1 other_writes two_files)) ≡ take 1 two_generations.generations))
    ⊎ ((length (other_generation ∷ []) < 1)
        × (opened (cut 1 other_writes two_files) ≡ other_generations.generations))
opened-cut_example =
    opened-cut other_generation [] two_generations other_generations other_writes two_files 1
      two_generations-IsHistory two_generations-IsKept other_replaced

-- Person 1 trusts 2 and distrusts 3; 2 trusts 3 and 4, and 4 trusts no one.
abbrev three_lists : TrustLists
three_lists = (1, (2, true) ∷ (3, false) ∷ []) ∷ (2, (3, true) ∷ (4, true) ∷ (1, false) ∷ []) ∷ []

abbrev two_steps : TrustLimits
two_steps = record { max_steps = 2; max_lists = 5 }

three_lists_are : AreDicts three_lists
three_lists_are = ((refl, (refl, tt)), ((refl, (refl, (refl, tt))), tt))

scored_at_two : from_lists 1 three_lists two_steps ≡ record {
  person = 1;
  scores =
      (2, record { net_count = pos 1; step = 1 })
      ∷ (3, record { net_count = negsuc 0; step = 1 })
      ∷ (4, record { net_count = pos 1; step = 2 })
      ∷ [];
  needed = [];
}
unfolding from_lists
scored_at_two = refl

needed_at_three :
    (from_lists 1 three_lists (record { max_steps = 3; max_lists = 5 })).needed ≡ 4 ∷ []
unfolding from_lists
needed_at_three = refl

-- The score of 4.
fourth_scored :
    lookup 4 (from_lists 1 three_lists two_steps).scores
    ≡ some (record { net_count = pos 1; step = 2 })
unfolding from_lists
fourth_scored = refl

lookup-after_step_example :
    lookup 3 (after_step 1 three_lists 1 (1 ∷ []) [])
    ≡ some (record { net_count = negsuc 0; step = 1 })
lookup-after_step_example = lookup-after_step 1 3 1 three_lists (1 ∷ []) [] three_lists_are

from_lists-deeper_example :
    lookup 4 (from_lists 1 three_lists (record { max_steps = 3; max_lists = 5 })).scores
    ≡ some (record { net_count = pos 1; step = 2 })
from_lists-deeper_example =
    from_lists-deeper 1 three_lists two_steps 4 (record { net_count = pos 1; step = 2 })
      three_lists_are fourth_scored

from_lists-bounded_case : (◌≢◌ {A = ℕ} 4 1) × (1 ≤ 2) × (2 ≤ 2)
from_lists-bounded_case =
    from_lists-bounded 1 three_lists two_steps 4 (record { net_count = pos 1; step = 2 })
      three_lists_are fourth_scored

from_lists-own_case :
    lookup 3 (from_lists 1 three_lists two_steps).scores
    ≡ some (record { net_count = negsuc 0; step = 1 })
from_lists-own_case =
    from_lists-own 1 three_lists two_steps 3 ((2, true) ∷ (3, false) ∷ []) false three_lists_are
      (omega arith) (omega arith) refl refl (omega arith)

-- A list read in two versions, of which the second is the newest.
abbrev two_versions : HeldTrustList
two_versions = record {
  owner = 1;
  versions =
      record {
        content_id = 900;
        signer = 1;
        list = record { entries = (2, true) ∷ []; version = 1; versions = [] };
      }
      ∷ record {
        content_id = 901;
        signer = 1;
        list = record { entries = (2, true) ∷ (3, true) ∷ []; version = 2; versions = 900 ∷ [] };
      }
      ∷ [];
  missing = [];
}

abbrev third_version : TrustList
third_version = record { entries = (2, true) ∷ (3, false) ∷ []; version = 3; versions = 901 ∷ [] }

third_is_next : next_version 3 (some false) two_versions ≡ ok (some third_version)
unfolding next_version
third_is_next = refl

both_signed : all_signed_by 1 two_versions.versions ≡ true
unfolding all_signed_by
both_signed = refl

third_not_read : is_read 902 two_versions.versions ≡ false
unfolding is_read
third_not_read = refl

with_version-next_version_example :
    (after : HeldTrustList) × (with_version
        (record { content_id = 902; signer = 1; list = third_version })
        two_versions
      ≡ ok after)
    × (newest after ≡ some (record { content_id = 902; signer = 1; list = third_version }))
    × ((j : ℕ)
        → lookup j (entries_of after)
          ≡ (if 3 == j then some false else lookup j (entries_of two_versions)))
with_version-next_version_example =
    with_version-next_version two_versions 3 902 (some false) third_version both_signed
      third_not_read third_is_next
