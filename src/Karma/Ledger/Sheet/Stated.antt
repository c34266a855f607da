-- ===== src/Karma/Ledger/Sheet/Stated.antt =====
-- What a block states of the balances it leaves: `BalanceSheet` of src/libranet/karma/ledger.py.
use libranet.Base.{
  ℕ, suc, ◌+◌, ◌-◌, ◌≡◌, refl, sym, ap, ◌∙◌, inl, inr, Bool, true, false, not, ◌&&◌, Option, none,
  some, List, [], ◌∷◌, arith, leb, ◌==◌, if◌then◌else◌, Bool-cases, nat_eq,
}
use libranet.Base.Integers.{ℤ, pos, negsuc}
use libranet.Base.Dict.{Dict, lookup, get_or, keys, member}
use libranet.Base.Sorted.{sorted_set, sorted_set_empty}
use libranet.Karma.Balances.{no_balance, holders, LastWon, Balance}
use libranet.Karma.Ledger.Sheet.{BalanceSheet}

-- `a - b`, as Python's number
abbrev pub difference : ℕ → ℕ → ℤ
difference a b = if leb b a then pos (a - b) else negsuc (b - a - 1)

-- How many of the balances are not of nothing.
unfoldable pub holding_in : Dict ℕ Balance → ℕ
holding_in [] = 0
holding_in ((i, b) ∷ held) =
    let rest = holding_in held in if b.kismet.count == 0 then rest else suc rest

-- `BalanceSheet.holders_after`
unfoldable pub holders_after : ℕ → BalanceSheet → ℤ
unfolding holding_in
holders_after holders s = difference (holders + holding_in s.after) (holding_in s.checked)

-- `BalanceSheet.balance`
unfoldable pub balance_after : ℕ → BalanceSheet → Balance
balance_after identity s = elim (lookup identity s.after) [
  | some b ↦ b
  | none ↦ get_or identity no_balance s.before
]

unfoldable pub without : List ℕ → List ℕ → List ℕ
without excluded [] = []
without excluded (k ∷ ks) =
    let rest = without excluded ks in if member k excluded then rest else k ∷ rest

-- `BalanceSheet.unstated`
unfoldable pub unstated : BalanceSheet → List ℕ
unfolding without
unstated s = sorted_set (without (keys s.block.balances) (keys s.after))

abbrev pub same_won : Option LastWon → Option LastWon → Bool
same_won none none = true
same_won none (some b) = false
same_won (some a) none = false
same_won (some a) (some b) = a.thousandths == b.thousandths

abbrev pub same_balance : Balance → Balance → Bool
same_balance a b = a.kismet.count == b.kismet.count && same_won a.last_won b.last_won

unfoldable pub stated_wrongly : BalanceSheet → Dict ℕ Balance → List ℕ
unfolding balance_after
stated_wrongly s [] = []
stated_wrongly s ((identity, b) ∷ balances) =
    let rest = stated_wrongly s balances in
    if same_balance b (balance_after identity s) then rest else identity ∷ rest

-- `BalanceSheet.misstated`
unfoldable pub misstated : BalanceSheet → List ℕ
unfolding stated_wrongly
misstated s = sorted_set (stated_wrongly s s.block.balances)

member-without :
    (i : ℕ) (excluded ks : List ℕ)
    → member i (without excluded ks) ≡ (member i ks && not (member i excluded))
unfolding without
member-without i excluded [] = refl
member-without i excluded (k ∷ ks) = ground (arith, member-without i excluded ks)

same_won_eq : (a b : Option LastWon) → same_won a b ≡ true → a ≡ b
same_won_eq none none h = refl
same_won_eq none (some b) h = cc
same_won_eq (some a) none h = cc
same_won_eq (some a) (some b) h = ground arith

same_balance_eq : (a b : Balance) → same_balance a b ≡ true → a ≡ b
same_balance_eq a b h = ground (arith, same_won_eq a.last_won b.last_won)

stated_rightly :
    (i : ℕ) (b : Balance) (s : BalanceSheet) (balances : Dict ℕ Balance)
    → member i (stated_wrongly s balances) ≡ false
    → lookup i balances ≡ some b
    → same_balance b (balance_after i s) ≡ true
unfolding stated_wrongly
stated_rightly i b s [] h l = cc
stated_rightly i b s ((j, c) ∷ balances) h l = ground (arith, stated_rightly i b s balances)

lookup-member :
    (i : ℕ) (d : Dict ℕ Balance) → member i (keys d) ≡ true → (b : Balance) × (lookup i d ≡ some b)
lookup-member i [] h = absurd cc
lookup-member i ((j, b) ∷ d) h = elim (Bool-cases (j == i)) [
  | inl t ↦ (b, rw t refl)
  | inr f ↦ let (x, e) = lookup-member i d (ground (arith, f)) in (x, rw f e)
]

-- A block that leaves nothing unstated, and states nothing wrongly, states of each identity in its sheet the balance
-- that it leaves.
pub stated_lem :
    (s : BalanceSheet) (i : ℕ)
    → unstated s ≡ []
    → misstated s ≡ []
    → member i (keys s.after) ≡ true
    → lookup i s.block.balances ≡ lookup i s.after
unfolding unstated misstated balance_after
stated_lem s i u m h =
    let (a, left) = lookup-member i s.after h in
    let named_in : member i (keys s.block.balances) ≡ true = ground (
      arith,
      sorted_set_empty i (without (keys s.block.balances) (keys s.after)) u,
      member-without i (keys s.block.balances) (keys s.after),
    ) in
    let (b, stated) = lookup-member i s.block.balances named_in in
    let same : same_balance b (balance_after i s) ≡ true =
      stated_rightly i b s s.block.balances
        (sorted_set_empty i (stated_wrongly s s.block.balances) m) stated in
    let is_left : balance_after i s ≡ a = ground (arith, left) in
    stated ∙ ap some (same_balance_eq b (balance_after i s) same ∙ is_left) ∙ sym left
