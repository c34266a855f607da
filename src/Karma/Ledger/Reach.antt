-- ===== src/Karma/Ledger/Reach.antt =====
-- How far back every balance is stated: `reach_of` of src/libranet/karma/ledger.py.
pub mod Least
use libranet.Base.{ℕ, ◌+◌, not, ◌&&◌, Option, none, some, List, [], ◌∷◌, ltb, if◌then◌else◌, nat_eq}
use libranet.Base.Dict.{Dict, lookup, member, add_key}
use libranet.Karma.Balances.{Balance}

-- The inner loop of `reach_of`, over the balances stated `back` blocks back: what is seen, and the
-- reach so far.
unfoldable pub scan : ℕ → Dict ℕ Balance → List ℕ → ℕ → List ℕ × ℕ
scan back [] seen reach = (seen, reach)
scan back ((identity, b) ∷ balances) seen reach =
    scan back balances (add_key identity seen)
      (if not (member identity seen) && ltb 0 b.kismet.count then back else reach)

unfoldable pub reach_from : ℕ → List (Dict ℕ Balance) → List ℕ → ℕ → ℕ
unfolding scan
reach_from back [] seen reach = reach
reach_from back (balances ∷ stated) seen reach =
    let (seen', reach') = scan back balances seen reach in reach_from (back + 1) stated seen' reach'

-- `reach_of`
unfoldable pub reach_of : List (Dict ℕ Balance) → ℕ
reach_of stated = reach_from 0 stated [] 0

-- The latest balance stated of an identity, and how many blocks back it is.
unfoldable pub latest : ℕ → ℕ → List (Dict ℕ Balance) → Option (ℕ × Balance)
latest back identity [] = none
latest back identity (balances ∷ stated) = elim (lookup identity balances) [
  | none ↦ latest (back + 1) identity stated
  | some b ↦ some (back, b)
]
