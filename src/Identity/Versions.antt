-- ===== src/Identity/Versions.antt =====
-- Documents kept in signed versions, and the next version of a trust list: src/libranet/identity/versions.py and
-- `HeldTrustList` of src/libranet/identity/trust.py. An id is a number, in the order in which the texts of ids sort.
pub mod Newest
use libranet.Base.{
  ℕ, ◌+◌, Bool, true, false, not, ◌&&◌, ◌||◌, Option, none, some, List, [], ◌∷◌, ◌++◌, ltb, leb,
  ◌==◌, if◌then◌else◌, nat_eq, guard, ◌>>=◌, ◌>>◌, value_error, Result, ok,
}
use libranet.Base.Dict.{Dict, lookup, insert, delete}

-- `TrustList`
pub record TrustList : Type 0 where
  pub entries : Dict ℕ Bool
  pub version : ℕ
  pub versions : List ℕ

-- `Numbered.__post_init__`
unfoldable pub trust_list : Dict ℕ Bool → ℕ → List ℕ → Result TrustList
trust_list entries version versions = do
  guard (leb 1 version) value_error
  ok (record { entries = entries; version = version; versions = versions })

-- `TrustVersion`
pub record TrustVersion : Type 0 where
  pub content_id : ℕ
  pub signer : ℕ
  pub list : TrustList

-- `HeldTrustList`
pub record HeldTrustList : Type 0 where
  pub owner : ℕ
  pub versions : List TrustVersion
  pub missing : List ℕ

unfoldable pub all_signed_by : ℕ → List TrustVersion → Bool
all_signed_by owner [] = true
all_signed_by owner (v ∷ vs) = v.signer == owner && all_signed_by owner vs

-- `HeldVersions.__post_init__`
unfoldable pub held_list : ℕ → List TrustVersion → List ℕ → Result HeldTrustList
unfolding all_signed_by
held_list owner versions missing = do
  guard (all_signed_by owner versions) value_error
  ok (record { owner = owner; versions = versions; missing = missing })

-- Whether the key of `a` sorts before that of `b` in `newest`.
unfoldable pub is_newer : TrustVersion → TrustVersion → Bool
is_newer a b =
    ltb b.list.version a.list.version
    || (a.list.version == b.list.version && ltb a.content_id b.content_id)

-- `min`, which keeps the first of those that sort alike
unfoldable pub newest_from : TrustVersion → List TrustVersion → TrustVersion
unfolding is_newer
newest_from best [] = best
newest_from best (v ∷ vs) = newest_from (if is_newer v best then v else best) vs

-- `HeldVersions.newest`
unfoldable pub newest : HeldTrustList → Option TrustVersion
unfolding newest_from
newest h = elim h.versions [ [] ↦ none | v ∷ vs ↦ some (newest_from v vs) ]

unfoldable pub drops_but : Option ℕ → List TrustVersion → List ℕ
drops_but kept [] = []
drops_but kept (v ∷ vs) =
    let rest = drops_but kept vs in
    elim kept [
      | none ↦ v.content_id ∷ rest
      | some id ↦ if v.content_id == id then rest else v.content_id ∷ rest
    ]

-- `HeldVersions.replaced`
unfoldable pub replaced : HeldTrustList → List ℕ
unfolding drops_but newest
replaced h = drops_but (elim (newest h) [ none ↦ none | some v ↦ some v.content_id ]) h.versions

unfoldable pub is_read : ℕ → List TrustVersion → Bool
is_read id [] = false
is_read id (v ∷ vs) = v.content_id == id || is_read id vs

-- `HeldVersions.with_version`
unfoldable pub with_version : TrustVersion → HeldTrustList → Result HeldTrustList
unfolding is_read held_list
with_version v h =
    if is_read v.content_id h.versions
    then ok h
    else held_list h.owner (h.versions ++ (v ∷ [])) h.missing

-- `HeldVersions._next_numbering`
unfoldable pub next_numbering : HeldTrustList → ℕ × List ℕ
unfolding newest
next_numbering h = elim (newest h) [
  | none ↦ (1, [])
  | some v ↦ (v.list.version + 1, v.content_id ∷ [])
]

-- `HeldTrustList.entries`
unfoldable pub entries_of : HeldTrustList → Dict ℕ Bool
unfolding newest
entries_of h = elim (newest h) [ none ↦ [] | some v ↦ v.list.entries ]

abbrev pub same_said : Option Bool → Option Bool → Bool
same_said none none = true
same_said none (some b) = false
same_said (some a) none = false
same_said (some true) (some b) = b
same_said (some false) (some b) = not b

-- `HeldTrustList.next_version`
unfoldable pub next_version : ℕ → Option Bool → HeldTrustList → Result (Option TrustList)
unfolding entries_of next_numbering trust_list
next_version identity trusted h = do
  guard (not (identity == h.owner)) value_error
  let kept : Dict ℕ Bool = delete identity (entries_of h)
  let entries : Dict ℕ Bool = elim trusted [ none ↦ kept | some said ↦ insert identity said kept ]
  if same_said (lookup identity (entries_of h)) trusted
      then ok none
      else do next ← trust_list entries (next_numbering h).0 (next_numbering h).1; ok (some next)
