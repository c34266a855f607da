-- ===== src/Stats/Ratings.antt =====
-- How the servers a node is a client of served it: src/libranet/stats/ratings.py, with the counts of
-- src/libranet/stats/records.py that it reads. Node ids are numbers, in the order of their text.
use libranet.Base.{
  ℕ, ◌+◌, ◌-◌, ◌≤◌, ◌≡◌, refl, ◌∙◌, true, false, ◌||◌, List, [], ◌∷◌, arith, leb, ◌==◌,
  if◌then◌else◌, ==_iff, nat_eq, sum_by,
}
use libranet.Base.Dict.{
  Dict, get_or, member, IsDistinct, add_key, add_key-IsDistinct, member-add_key,
}

-- `NodeStats`, as far as ratings read it, under its node id
pub record NodeStats : Type 0 where
  pub bytes_received : ℕ
  pub data_found : ℕ

abbrev pub no_stats : NodeStats
no_stats = record { bytes_received = 0; data_found = 0 }

-- `ServerRating`
pub record ServerRating : Type 0 where
  pub node_id : ℕ
  pub bytes_received : ℕ
  pub requests_fulfilled : ℕ

-- `RatingCounts`
pub record RatingCounts : Type 0 where
  pub as_of : Dict ℕ NodeStats
  pub outbound : List ℕ

-- `set.update`
abbrev pub add_all : List ℕ → List ℕ → List ℕ
add_all [] known = known
add_all (n ∷ ns) known = add_all ns (add_key n known)

-- `connected`
unfoldable pub connected : List ℕ → RatingCounts → RatingCounts
connected node_ids c = record c { outbound = add_all node_ids c.outbound }

unfoldable pub insert_sorted : ℕ → List ℕ → List ℕ
insert_sorted n [] = n ∷ []
insert_sorted n (m ∷ ms) = let rest = insert_sorted n ms in if leb n m then n ∷ m ∷ ms else m ∷ rest

-- `sorted(ids, key=str)`
unfoldable pub sorted : List ℕ → List ℕ
unfolding insert_sorted
sorted [] = []
sorted (n ∷ ns) = insert_sorted n (sorted ns)

-- `_rating`; the counts never fall.
unfoldable pub rating : RatingCounts → Dict ℕ NodeStats → ℕ → ServerRating
rating c now node_id =
    let stats : NodeStats = get_or node_id no_stats now in
    let before : NodeStats = get_or node_id no_stats c.as_of in
    record {
      node_id = node_id;
      bytes_received = stats.bytes_received - before.bytes_received;
      requests_fulfilled = stats.data_found - before.data_found;
    }

abbrev pub ratings_of : RatingCounts → Dict ℕ NodeStats → List ℕ → List ServerRating
ratings_of c now [] = []
ratings_of c now (n ∷ ns) = rating c now n ∷ ratings_of c now ns

-- `answer`
unfoldable pub answer : RatingCounts → Dict ℕ NodeStats → List ℕ → List ServerRating × RatingCounts
unfolding sorted rating
answer c now outbound =
    (ratings_of c now (sorted c.outbound), record { as_of = now; outbound = add_all outbound [] })

-- What the servers named `n` are rated by their bytes, in all.
abbrev pub rated_bytes : ℕ → List ServerRating → ℕ
rated_bytes n ratings =
    sum_by (λ (r : ServerRating). if r.node_id == n then r.bytes_received else 0) ratings

insert_sorted-member :
    (n m : ℕ) (ms : List ℕ) → member n (insert_sorted m ms) ≡ (m == n || member n ms)
unfolding insert_sorted
insert_sorted-member n m [] = refl
insert_sorted-member n m (k ∷ ms) = ground (arith, insert_sorted-member n m ms)

sorted-member : (n : ℕ) (ns : List ℕ) → member n (sorted ns) ≡ member n ns
unfolding sorted
sorted-member n [] = refl
sorted-member n (m ∷ ns) = ground (arith, sorted-member n ns, insert_sorted-member n m (sorted ns))

insert_sorted-IsDistinct :
    (m : ℕ) (ms : List ℕ) → IsDistinct ms → member m ms ≡ false → IsDistinct (insert_sorted m ms)
unfolding insert_sorted
insert_sorted-IsDistinct m [] u h = (refl, tt)
insert_sorted-IsDistinct m (k ∷ ms) u h =
    ground
      (arith, insert_sorted-IsDistinct m ms, insert_sorted-member k m ms, ==_iff k m, ==_iff m k)

sorted-IsDistinct : (ns : List ℕ) → IsDistinct ns → IsDistinct (sorted ns)
unfolding sorted
sorted-IsDistinct [] u = tt
sorted-IsDistinct (n ∷ ns) u =
    insert_sorted-IsDistinct n (sorted ns) (sorted-IsDistinct ns u.1) (sorted-member n ns ∙ u.0)

pub add_all-IsDistinct : (ns known : List ℕ) → IsDistinct known → IsDistinct (add_all ns known)
add_all-IsDistinct [] known u = u
add_all-IsDistinct (n ∷ ns) known u =
    add_all-IsDistinct ns (add_key n known) (add_key-IsDistinct n known u)

add_all-member :
    (n : ℕ) (ns known : List ℕ) → member n (add_all ns known) ≡ (member n ns || member n known)
add_all-member n [] known = refl
add_all-member n (m ∷ ns) known =
    ground (arith, add_all-member n ns (add_key m known), member-add_key m n known)

rated_of :
    (c : RatingCounts) (now : Dict ℕ NodeStats) (n : ℕ) (ns : List ℕ)
    → IsDistinct ns
    → rated_bytes n (ratings_of c now ns) ≡ (
        if member n ns
        then (get_or n no_stats now).bytes_received - (get_or n no_stats c.as_of).bytes_received
        else 0)
unfolding rating
rated_of c now n [] u = refl
rated_of c now n (m ∷ ns) u = ground (arith, ==_iff m n, rated_of c now n ns u.1)

-- What a node's ratings in two answers running come to is what it was counted to send between the
-- answer before the first and the second, where it was connected outbound before each and its
-- counts did not fall.
pub answers_add_up :
    (c : RatingCounts) (now later : Dict ℕ NodeStats) (outbound outbound' : List ℕ) (n : ℕ)
    → IsDistinct c.outbound
    → member n c.outbound ≡ true
    → member n outbound ≡ true
    → (get_or n no_stats c.as_of).bytes_received ≤ (get_or n no_stats now).bytes_received
    → (get_or n no_stats now).bytes_received ≤ (get_or n no_stats later).bytes_received
    → rated_bytes n (answer c now outbound).0
        + rated_bytes n (answer (answer c now outbound).1 later outbound').0
        + (get_or n no_stats c.as_of).bytes_received
      ≡ (get_or n no_stats later).bytes_received
unfolding answer
answers_add_up c now later outbound outbound' n u m m' h k =
    let next : RatingCounts = record { as_of = now; outbound = add_all outbound [] } in
    ground (
      arith,
      rated_of c now n (sorted c.outbound) (sorted-IsDistinct c.outbound u),
      rated_of next later n (sorted next.outbound)
          (sorted-IsDistinct next.outbound (add_all-IsDistinct outbound [] tt)),
      sorted-member n c.outbound,
      sorted-member n next.outbound,
      add_all-member n outbound [],
    )

-- A node that was not connected outbound since the last answer is not rated.
answer_out :
    (c : RatingCounts) (now : Dict ℕ NodeStats) (outbound : List ℕ) (n : ℕ)
    → IsDistinct c.outbound
    → member n c.outbound ≡ false
    → rated_bytes n (answer c now outbound).0 ≡ 0
unfolding answer
answer_out c now outbound n u m = ground (
  arith,
  rated_of c now n (sorted c.outbound) (sorted-IsDistinct c.outbound u),
  sorted-member n c.outbound,
)
