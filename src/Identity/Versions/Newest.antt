-- ===== src/Identity/Versions/Newest.antt =====
-- That the newest version read is numbered highest, and that the next is newer than each:
-- src/libranet/identity/versions.py.
use libranet.Base.{
  ℕ, ◌+◌, ◌≡◌, refl, sym, ap, subst, inl, inr, Bool, true, false, Option, none, some, List, [], ◌∷◌,
  ◌++◌, arith, ◌==◌, if◌then◌else◌, Bool-cases, nat_eq, All, ok,
}
use libranet.Base.Dict.{lookup, delete, lookup-insert, lookup-delete}
use libranet.Identity.Versions.{
  trust_list, all_signed_by, held_list, is_newer, newest_from, newest, is_read, with_version,
  next_numbering, entries_of, next_version, TrustList, TrustVersion, HeldTrustList,
}

-- No version of the list sorts before `v`.
abbrev pub IsNewest : TrustVersion → List TrustVersion → Type 0
IsNewest v = All (λ (w : TrustVersion). is_newer w v ≡ false)

-- Of two versions neither of which is newer, each is numbered alike.
is_newer_trans :
    (a b c : TrustVersion) → is_newer a b ≡ false → is_newer b c ≡ false → is_newer a c ≡ false
unfolding is_newer
is_newer_trans a b c h k = ground arith

is_newer_asym : (a b : TrustVersion) → is_newer a b ≡ true → is_newer b a ≡ false
unfolding is_newer
is_newer_asym a b h = ground arith

is_newer_self : (a : TrustVersion) → is_newer a a ≡ false
unfolding is_newer
is_newer_self a = ground arith

IsNewest-trans :
    (a b : TrustVersion) (vs : List TrustVersion)
    → is_newer b a ≡ false
    → IsNewest b vs
    → IsNewest a vs
IsNewest-trans a b [] h k = tt
IsNewest-trans a b (v ∷ vs) h k = (is_newer_trans v b a k.0 h, IsNewest-trans a b vs h k.1)

newest_from-IsNewest :
    (best : TrustVersion) (vs : List TrustVersion) → IsNewest (newest_from best vs) (best ∷ vs)
unfolding newest_from
newest_from-IsNewest best [] = (is_newer_self best, tt)
newest_from-IsNewest best (v ∷ vs) = elim (Bool-cases (is_newer v best)) [
  | inl t ↦
      let after : IsNewest (newest_from v vs) (v ∷ vs) = newest_from-IsNewest v vs in
      subst (λ (c : TrustVersion). IsNewest (newest_from c vs) (best ∷ v ∷ vs))
        (sym (ap (λ (b : Bool). if b then v else best) t))
        (is_newer_trans best v (newest_from v vs) (is_newer_asym v best t) after.0, after)
  | inr f ↦
      let after : IsNewest (newest_from best vs) (best ∷ vs) = newest_from-IsNewest best vs in
      subst (λ (c : TrustVersion). IsNewest (newest_from c vs) (best ∷ v ∷ vs))
        (sym (ap (λ (b : Bool). if b then v else best) f))
        (after.0, (is_newer_trans v best (newest_from best vs) f after.0, after.1))
]

later : (v w : TrustVersion) → v.list.version ≡ w.list.version + 1 → is_newer v w ≡ true
unfolding is_newer
later v w h = ground arith

newest_from-append :
    (best v : TrustVersion) (vs : List TrustVersion)
    → newest_from best (vs ++ (v ∷ []))
      ≡ (if is_newer v (newest_from best vs) then v else newest_from best vs)
unfolding newest_from
newest_from-append best v [] = refl
newest_from-append best v (w ∷ vs) = newest_from-append (if is_newer w best then w else best) v vs

-- The newest of the versions read is one that no version read sorts before.
pub newest-IsNewest :
    (h : HeldTrustList) (v : TrustVersion) → newest h ≡ some v → IsNewest v h.versions
unfolding newest
newest-IsNewest h v e = newest_of h.versions v e
  where
    newest_of :
        (vs : List TrustVersion) (v : TrustVersion)
        → (elim vs [ [] ↦ none | w ∷ ws ↦ some (newest_from w ws) ]) ≡ some v
        → IsNewest v vs
    newest_of [] v e = tt
    newest_of (w ∷ ws) v e =
        let q : newest_from w ws ≡ v = ground (arith) in
        subst (λ (n : TrustVersion). IsNewest n (w ∷ ws)) q (newest_from-IsNewest w ws)

-- The newest of a document's versions with one more is that one, if it is numbered after the newest before.
newest-append :
    (h : HeldTrustList) (v : TrustVersion)
    → v.list.version ≡ (next_numbering h).0
    → newest (record h { versions = h.versions ++ (v ∷ []) }) ≡ some v
unfolding newest next_numbering
newest-append h v n = newest_of h.versions n
  where
    newest_of :
        (vs : List TrustVersion)
        → v.list.version ≡ (next_numbering (record h { versions = vs })).0
        → newest (record h { versions = vs ++ (v ∷ []) }) ≡ some v
    newest_of [] m = refl
    newest_of (w ∷ ws) m = ground (arith, newest_from-append w v ws, later v (newest_from w ws))

all_signed_by-append :
    (owner : ℕ) (vs : List TrustVersion) (v : TrustVersion)
    → all_signed_by owner vs ≡ true
    → v.signer ≡ owner
    → all_signed_by owner (vs ++ (v ∷ [])) ≡ true
unfolding all_signed_by
all_signed_by-append owner [] v h s = ground arith
all_signed_by-append owner (w ∷ vs) v h s = ground (arith, all_signed_by-append owner vs v)

with_version_lem :
    (h : HeldTrustList) (v : TrustVersion)
    → all_signed_by h.owner h.versions ≡ true
    → is_read v.content_id h.versions ≡ false
    → v.signer ≡ h.owner
    → with_version v h ≡ ok (record h { versions = h.versions ++ (v ∷ []) })
unfolding with_version held_list
with_version_lem h v a r s = ground (arith, all_signed_by-append h.owner h.versions v)

-- What a next version says of each identity, and its number.
next_version_lem :
    (h : HeldTrustList) (identity : ℕ) (trusted : Option Bool) (next : TrustList)
    → next_version identity trusted h ≡ ok (some next)
    → (next.version ≡ (next_numbering h).0)
      × ((j : ℕ)
          → lookup j next.entries ≡ (if identity == j then trusted else lookup j (entries_of h)))
unfolding next_version trust_list
next_version_lem h identity none next e =
    (ground arith, λ j. ground (arith, lookup-delete identity j (entries_of h)))
next_version_lem h identity (some t) next e = (
  ground arith,
  λ j. ground (
    arith,
    lookup-insert identity j t (delete identity (entries_of h)),
    lookup-delete identity j (entries_of h),
  ),
)

-- What a person's next version says is what the list then says: where the versions held are signed by the owner and its
-- drop is not read yet, reading it signed by the owner makes it the newest, and the entries are those before but for the
-- identity named, which is said as asked.
pub with_version-next_version :
    (h : HeldTrustList) (identity drop_id : ℕ) (trusted : Option Bool) (next : TrustList)
    → all_signed_by h.owner h.versions ≡ true
    → is_read drop_id h.versions ≡ false
    → next_version identity trusted h ≡ ok (some next)
    → (after : HeldTrustList) × (with_version
          (record { content_id = drop_id; signer = h.owner; list = next })
          h
        ≡ ok after)
      × (newest after ≡ some (record { content_id = drop_id; signer = h.owner; list = next }))
      × ((j : ℕ)
          → lookup j (entries_of after)
            ≡ (if identity == j then trusted else lookup j (entries_of h)))
unfolding entries_of
with_version-next_version h identity drop_id trusted next a r e =
    let v : TrustVersion = record { content_id = drop_id; signer = h.owner; list = next } in
    let after : HeldTrustList = record h { versions = h.versions ++ (v ∷ []) } in
    let (n, says) = next_version_lem h identity trusted next e in
    let top : newest after ≡ some v = newest-append h v n in
    (after, with_version_lem h v a r refl, top, λ j. ground (arith, top, says j))
