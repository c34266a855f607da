-- ===== src/Identity/Reading.antt =====
-- A version of a trust list as it is read: `TrustList.from_value` of src/libranet/identity/trust.py, and what
-- src/libranet/identity/versions.py reads for it. A name is `none` where it is no id, and what an entry says is where it is
-- neither true nor false; reading ids from their texts is a parameter.
use libranet.Base.{
  ℕ, ◌+◌, ◌≡◌, refl, Bool, true, false, not, ◌&&◌, ◌||◌, Option, none, some, List, [], ◌∷◌, arith,
  ◌==◌, if◌then◌else◌, Option-cases, nat_eq, length, ◌>>=◌, value_error, Result, ok, err,
}
use libranet.Base.Dict.{
  Dict, lookup, get_or, set_default, member, add_key, lookup-set_default, get_or_lem,
  member-add_key,
}
use libranet.Identity.Versions.{trust_list, TrustList}

abbrev pub Entries : Type 0
Entries = List (Option ℕ × Option Bool)

-- What is said of each id, the ids both trusted and distrusted, and how many entries were passed over.
pub record Read : Type 0 where
  pub said : Dict ℕ Bool
  pub both : List ℕ
  pub passed_over : ℕ

abbrev pub same_bool : Bool → Bool → Bool
same_bool true b = b
same_bool false b = not b

-- The loop of `from_value`, of one entry
unfoldable pub read_entry : Option ℕ → Option Bool → Read → Read
read_entry none trusted r = record r { passed_over = r.passed_over + 1 }
read_entry (some identity) none r = record r { passed_over = r.passed_over + 1 }
read_entry (some identity) (some trusted) r =
    let said : Dict ℕ Bool = set_default identity trusted r.said in
    record r {
      said = said;
      both =
          if same_bool (get_or identity trusted said) trusted
          then r.both
          else add_key identity r.both;
    }

unfoldable pub read_entries : Entries → Read → Read
unfolding read_entry
read_entries [] r = r
read_entries ((name, trusted) ∷ entries) r = read_entries entries (read_entry name trusted r)

-- What was said of the ids that are not both trusted and distrusted.
unfoldable pub entries_but : List ℕ → Dict ℕ Bool → Dict ℕ Bool
entries_but both [] = []
entries_but both ((identity, trusted) ∷ said) =
    let rest = entries_but both said in
    if member identity both then rest else (identity, trusted) ∷ rest

-- `Numbered.replaced_in`, of `versions` where it is a list: the drops named, and how many names are passed over
unfoldable pub replaced_in : Option (List (Option ℕ)) → List ℕ × ℕ
replaced_in none = ([], 1)
replaced_in (some []) = ([], 0)
replaced_in (some (none ∷ names)) = let (ids, n) = replaced_in (some names) in (ids, n + 1)
replaced_in (some (some id ∷ names)) = let (ids, n) = replaced_in (some names) in (id ∷ ids, n)

-- `TrustList.from_value`, of a value with its `entries`, an object or not, and its `version`, a whole number or not: the
-- version, and how much of it is passed over
unfoldable pub read_list :
    Option Entries → Option ℕ → Option (List (Option ℕ)) → Result (TrustList × ℕ)
unfolding read_entries entries_but replaced_in trust_list
read_list none version versions = err value_error
read_list (some entries) none versions = err value_error
read_list (some entries) (some version) versions = do
  let read : Read = read_entries entries (record { said = []; both = []; passed_over = 0 })
  let named : List ℕ × ℕ = replaced_in versions
  list ← trust_list (entries_but read.both read.said) version named.0
  ok (list, read.passed_over + length read.both + named.1)

-- Whether an entry says so of the id.
abbrev pub says : ℕ → Bool → Entries → Bool
says i t [] = false
says i t ((none, said) ∷ entries) = says i t entries
says i t ((some j, none) ∷ entries) = says i t entries
says i t ((some j, some said) ∷ entries) = (j == i && same_bool said t) || says i t entries

-- What is read of an id agrees with whether it was said to be trusted, and to be distrusted.
abbrev pub agrees : Bool → Bool → Option Bool → Bool → Bool
agrees yes_said no_said none both = not yes_said && not no_said && not both
agrees yes_said no_said (some true) both = yes_said && same_bool both no_said
agrees yes_said no_said (some false) both = no_said && same_bool both yes_said

agrees-read_entry :
    (i j : ℕ) (said : Bool) (r : Read) (a b : Bool)
    → agrees a b (lookup i r.said) (member i r.both) ≡ true
    → agrees
        (a || (j == i && same_bool said true))
        (b || (j == i && same_bool said false))
        (lookup i (read_entry (some j) (some said) r).said)
        (member i (read_entry (some j) (some said) r).both)
      ≡ true
unfolding read_entry
agrees-read_entry i j said r a b h = ground (
  arith,
  h,
  Option-cases (lookup i r.said),
  lookup-set_default j i said r.said,
  get_or_lem j said (set_default j said r.said),
  member-add_key j i r.both,
)

agrees-read_entries :
    (i : ℕ) (entries : Entries) (r : Read) (a b : Bool)
    → agrees a b (lookup i r.said) (member i r.both) ≡ true
    → agrees
        (a || says i true entries)
        (b || says i false entries)
        (lookup i (read_entries entries r).said)
        (member i (read_entries entries r).both)
      ≡ true
unfolding read_entries
agrees-read_entries i [] r a b h = ground (arith, h)
agrees-read_entries i ((none, said) ∷ entries) r a b h =
    agrees-read_entries i entries (read_entry none said r) a b h
agrees-read_entries i ((some j, none) ∷ entries) r a b h =
    agrees-read_entries i entries (read_entry (some j) none r) a b h
agrees-read_entries i ((some j, some said) ∷ entries) r a b h = ground (
  arith,
  agrees-read_entries i entries (read_entry (some j) (some said) r)
      (a || (j == i && same_bool said true)) (b || (j == i && same_bool said false))
      (agrees-read_entry i j said r a b h),
)

lookup-entries_but :
    (i : ℕ) (both : List ℕ) (said : Dict ℕ Bool)
    → lookup i (entries_but both said) ≡ (if member i both then none else lookup i said)
unfolding entries_but
lookup-entries_but i both [] = ground arith
lookup-entries_but i both ((j, t) ∷ said) = ground (arith, lookup-entries_but i both said)

-- A version read names an id trusted where an entry says so and none says it is distrusted, distrusted where one says that
-- and none that it is trusted, and not at all otherwise, in whatever order and however often its entries name it.
pub read_list_lem :
    (i : ℕ) (entries : Entries) (version passed : ℕ) (versions : Option (List (Option ℕ)))
    (list : TrustList)
    → read_list (some entries) (some version) versions ≡ ok (list, passed)
    → lookup i list.entries ≡ (
        if says i true entries && says i false entries
        then none
        else if says i true entries
        then some true
        else if says i false entries
        then some false
        else none)
unfolding read_list trust_list
read_list_lem i entries version passed versions list h =
    let start : Read = record { said = []; both = []; passed_over = 0 } in
    ground (
      arith,
      agrees-read_entries i entries start false false refl,
      lookup-entries_but i (read_entries entries start).both (read_entries entries start).said,
      Option-cases (lookup i (read_entries entries start).said),
    )
