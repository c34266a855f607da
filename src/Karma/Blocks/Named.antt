-- ===== src/Karma/Blocks/Named.antt =====
-- The identities that a block names: each once, and among them every sender and recipient.
use libranet.Base.{ℕ, ◌≡◌, true, Option, none, some, List, [], ◌∷◌, arith, nat_eq, All}
use libranet.Base.Dict.{Dict, member, IsDistinct, add_key, add_key-IsDistinct, member-add_key}
use libranet.Karma.Amounts.{Kismet}
use libranet.Karma.Blocks.{
  signed, payout, add_keys, add_sources, named_signed, named_payout, named, SignedTransaction,
  Payout, TransactionBlock,
}

module _ {V : Type 0} where
  add_keys-IsDistinct : (a : Dict ℕ V) (ids : List ℕ) → IsDistinct ids → IsDistinct (add_keys a ids)
  unfolding add_keys
  add_keys-IsDistinct [] ids u = u
  add_keys-IsDistinct ((k, v) ∷ a) ids u =
      add_keys-IsDistinct a (add_key k ids) (add_key-IsDistinct k ids u)

  member-add_keys :
      (j : ℕ) (a : Dict ℕ V) (ids : List ℕ) → member j ids ≡ true → member j (add_keys a ids) ≡ true
  unfolding add_keys
  member-add_keys j [] ids h = h
  member-add_keys j ((k, v) ∷ a) ids h =
      member-add_keys j a (add_key k ids) (ground (arith, member-add_key k j ids, h))

  -- Every key of `a` is among them.
  add_keys-All :
      (a : Dict ℕ V) (ids : List ℕ) → All (λ (e : ℕ × V). member e.0 (add_keys a ids) ≡ true) a
  unfolding add_keys
  add_keys-All [] ids = tt
  add_keys-All ((k, v) ∷ a) ids = (
    member-add_keys k a (add_key k ids) (ground (arith, member-add_key k k ids)),
    add_keys-All a (add_key k ids),
  )

add_sources-IsDistinct :
    (a : Dict (Option ℕ) Kismet) (ids : List ℕ) → IsDistinct ids → IsDistinct (add_sources a ids)
unfolding add_sources
add_sources-IsDistinct [] ids u = u
add_sources-IsDistinct ((none, v) ∷ a) ids u = add_sources-IsDistinct a ids u
add_sources-IsDistinct ((some k, v) ∷ a) ids u =
    add_sources-IsDistinct a (add_key k ids) (add_key-IsDistinct k ids u)

member-add_sources :
    (j : ℕ) (a : Dict (Option ℕ) Kismet) (ids : List ℕ)
    → member j ids ≡ true
    → member j (add_sources a ids) ≡ true
unfolding add_sources
member-add_sources j [] ids h = h
member-add_sources j ((none, v) ∷ a) ids h = member-add_sources j a ids h
member-add_sources j ((some k, v) ∷ a) ids h =
    member-add_sources j a (add_key k ids) (ground (arith, member-add_key k j ids, h))

-- The sender and the recipients of a transaction are among `ids`.
abbrev pub IsNamed : List ℕ → SignedTransaction → Type 0
IsNamed ids s =
    (member s.transaction.sender ids ≡ true)
    × All (λ (e : ℕ × Kismet). member e.0 ids ≡ true) s.transaction.to

named_signed-IsDistinct :
    (ss : List SignedTransaction) (ids : List ℕ) → IsDistinct ids → IsDistinct (named_signed ss ids)
unfolding named_signed
named_signed-IsDistinct [] ids u = u
named_signed-IsDistinct (s ∷ ss) ids u =
    named_signed-IsDistinct ss (add_keys s.transaction.to (add_key s.transaction.sender ids)) (
      add_keys-IsDistinct s.transaction.to (add_key s.transaction.sender ids)
        (add_key-IsDistinct s.transaction.sender ids u))

member-named_signed :
    (j : ℕ) (ss : List SignedTransaction) (ids : List ℕ)
    → member j ids ≡ true
    → member j (named_signed ss ids) ≡ true
unfolding named_signed
member-named_signed j [] ids h = h
member-named_signed j (s ∷ ss) ids h =
    member-named_signed j ss (add_keys s.transaction.to (add_key s.transaction.sender ids)) (
      member-add_keys j s.transaction.to (add_key s.transaction.sender ids)
        (ground (arith, member-add_key s.transaction.sender j ids, h)))

-- What holds of every item, if it follows from what does.
pub All-map {ℓ κ} :
    {A : Type ℓ} {P Q : A → Type κ} (f : (a : A) → P a → Q a) (xs : List A) → All P xs → All Q xs
All-map f [] h = tt
All-map f (x ∷ xs) h = (f x h.0, All-map f xs h.1)

named_signed-All :
    (ss : List SignedTransaction) (ids : List ℕ) → All (IsNamed (named_signed ss ids)) ss
unfolding named_signed
named_signed-All [] ids = tt
named_signed-All (s ∷ ss) ids =
    let t = s.transaction in
    let with_sender : List ℕ = add_key t.sender ids in
    let with_all : List ℕ = add_keys t.to with_sender in
    (
      (
        member-named_signed t.sender ss with_all (
            member-add_keys t.sender t.to with_sender
              (ground (arith, member-add_key t.sender t.sender ids))),
        All-map (λ e h. member-named_signed e.0 ss with_all h) t.to (add_keys-All t.to with_sender),
      ),
      named_signed-All ss with_all,
    )

member-named_payout :
    (j : ℕ) (p : Option Payout) (ids : List ℕ)
    → member j ids ≡ true
    → member j (named_payout p ids) ≡ true
unfolding named_payout
member-named_payout j none ids h = h
member-named_payout j (some p) ids h =
    member-add_keys j p.to (add_sources p.sources ids) (member-add_sources j p.sources ids h)

named_payout-IsDistinct :
    (p : Option Payout) (ids : List ℕ) → IsDistinct ids → IsDistinct (named_payout p ids)
unfolding named_payout
named_payout-IsDistinct none ids u = u
named_payout-IsDistinct (some p) ids u =
    add_keys-IsDistinct p.to (add_sources p.sources ids) (add_sources-IsDistinct p.sources ids u)

-- A block names each identity once.
pub named-IsDistinct : (block : TransactionBlock) → IsDistinct (named block)
unfolding named
named-IsDistinct block =
    named_payout-IsDistinct (payout block) (named_signed (signed block) [])
      (named_signed-IsDistinct (signed block) [] tt)

-- A block names the sender and the recipients of each of its signed transactions.
pub named-All : (block : TransactionBlock) → All (IsNamed (named block)) (signed block)
unfolding named
named-All block =
    let ids : List ℕ = named_signed (signed block) [] in
    All-map
      (λ s h. (
        member-named_payout s.transaction.sender (payout block) ids h.0,
        All-map (λ e k. member-named_payout e.0 (payout block) ids k) s.transaction.to h.1,
      ))
      (signed block) (named_signed-All (signed block) [])
