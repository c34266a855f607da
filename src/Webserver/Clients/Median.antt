-- ===== src/Webserver/Clients/Median.antt =====
-- That few of the clients hold less than their median: src/libranet/webserver/client_keeping.py.
use libranet.Base.{
  ℕ, zero, suc, ◌+◌, ◌-◌, ◌*◌, ◌/◌, ◌%◌, ◌^◌, ◌≤◌, ◌<◌, ◌≡◌, refl, ◌⊎◌, inl, inr, List, [], ◌∷◌,
  arith, ltb, leb, ◌==◌, if◌then◌else◌, Bool-cases, length, All,
}
use libranet.Base.Floats.{float_of, float_of-exact}
use libranet.Webserver.Clients.{
  Uses, open_clients, insert_amount, sort_amounts, nth, twice_median, amounts_of, closes, Keeping,
}

abbrev pub count_below : ℕ → List ℕ → ℕ
count_below x [] = 0
count_below x (a ∷ l) = if ltb a x then suc (count_below x l) else count_below x l

-- In order, none lower after one that is higher.
abbrev IsSorted : List ℕ → Type 0
IsSorted [] = Unit
IsSorted (a ∷ l) = All (λ (b : ℕ). a ≤ b) l × IsSorted l

All-le : (a b : ℕ) (l : List ℕ) → a ≤ b → All (λ (c : ℕ). b ≤ c) l → All (λ (c : ℕ). a ≤ c) l
All-le a b [] h k = tt
All-le a b (c ∷ l) h k = (omega (arith, k.0), All-le a b l h k.1)

All-insert_amount :
    (P : ℕ → Type 0) (a : ℕ) (l : List ℕ) → P a → All P l → All P (insert_amount a l)
unfolding insert_amount
All-insert_amount P a [] h k = (h, tt)
All-insert_amount P a (b ∷ l) h k = elim (Bool-cases (leb a b)) [
  | inl t ↦ rw (t, insert_amount) (h, k)
  | inr f ↦ rw (f, insert_amount) (k.0, All-insert_amount P a l h k.1)
]

All-sort_amounts : (P : ℕ → Type 0) (l : List ℕ) → All P l → All P (sort_amounts l)
unfolding sort_amounts
All-sort_amounts P [] h = tt
All-sort_amounts P (a ∷ l) h = All-insert_amount P a (sort_amounts l) h.0 (All-sort_amounts P l h.1)

insert_amount-IsSorted : (a : ℕ) (l : List ℕ) → IsSorted l → IsSorted (insert_amount a l)
unfolding insert_amount
insert_amount-IsSorted a [] h = (tt, tt)
insert_amount-IsSorted a (b ∷ l) h =
    ground (
      arith,
      insert_amount-IsSorted a l h.1,
      All-le a b l,
      All-insert_amount (λ (c : ℕ). b ≤ c) a l,
    )

sort_amounts-IsSorted : (l : List ℕ) → IsSorted (sort_amounts l)
unfolding sort_amounts
sort_amounts-IsSorted [] = tt
sort_amounts-IsSorted (a ∷ l) = insert_amount-IsSorted a (sort_amounts l) (sort_amounts-IsSorted l)

count_below-insert_amount :
    (x a : ℕ) (l : List ℕ) → count_below x (insert_amount a l) ≡ count_below x (a ∷ l)
unfolding insert_amount
count_below-insert_amount x a [] = refl
count_below-insert_amount x a (b ∷ l) = ground (arith, count_below-insert_amount x a l)

count_below-sort_amounts : (x : ℕ) (l : List ℕ) → count_below x (sort_amounts l) ≡ count_below x l
unfolding sort_amounts
count_below-sort_amounts x [] = refl
count_below-sort_amounts x (a ∷ l) =
    ground (arith, count_below-insert_amount x a (sort_amounts l), count_below-sort_amounts x l)

length-insert_amount : (a : ℕ) (l : List ℕ) → length (insert_amount a l) ≡ suc (length l)
unfolding insert_amount
length-insert_amount a [] = refl
length-insert_amount a (b ∷ l) = ground (arith, length-insert_amount a l)

length-sort_amounts : (l : List ℕ) → length (sort_amounts l) ≡ length l
unfolding sort_amounts
length-sort_amounts [] = refl
length-sort_amounts (a ∷ l) =
    omega (arith, length-insert_amount a (sort_amounts l), length-sort_amounts l)

count_below-least : (x : ℕ) (l : List ℕ) → All (λ (b : ℕ). x ≤ b) l → count_below x l ≡ 0
count_below-least x [] h = refl
count_below-least x (b ∷ l) h = ground (arith, h.0, count_below-least x l h.1)

count_below-nth : (i : ℕ) (l : List ℕ) → IsSorted l → count_below (nth i l) l ≤ i
count_below-nth i [] h = omega arith
count_below-nth zero (a ∷ l) h = ground (arith, count_below-least a l h.0)
count_below-nth (suc i) (a ∷ l) h = ground (arith, count_below-nth i l h.1)

nth-le-nth : (i : ℕ) (l : List ℕ) → IsSorted l → suc i < length l → nth i l ≤ nth (suc i) l
nth-le-nth i [] h k = absurd (omega arith)
nth-le-nth zero (a ∷ []) h k = absurd (omega arith)
nth-le-nth zero (a ∷ b ∷ l) h k = h.0.0
nth-le-nth (suc i) (a ∷ l) h k = nth-le-nth i l h.1 (omega arith)

nth-within : (m i : ℕ) (l : List ℕ) → All (λ (a : ℕ). a ≤ m) l → nth i l ≤ m
nth-within m i [] h = omega arith
nth-within m zero (a ∷ l) h = h.0
nth-within m (suc i) (a ∷ l) h = nth-within m i l h.1

-- The median is not rounded: it is one of the amounts, or no two of them come to more than 53 bits.
abbrev pub IsExact : List ℕ → Type 0
IsExact l = (length l % 2 ≡ 1) ⊎ All (λ (a : ℕ). a ≤ 2 ^ 52) l

-- How many of the amounts are below the half of `m`.
abbrev pub count_under_median : ℕ → List ℕ → ℕ
count_under_median m [] = 0
count_under_median m (a ∷ l) =
    if ltb (2 * a) m then suc (count_under_median m l) else count_under_median m l

count_under_median-le :
    (m x : ℕ) (l : List ℕ) → m ≤ 2 * x → count_under_median m l ≤ count_below x l
count_under_median-le m x [] h = omega arith
count_under_median-le m x (a ∷ l) h = ground (arith, count_under_median-le m x l h)

twice_median-odd :
    (l : List ℕ) → length l % 2 ≡ 1 → twice_median l ≡ 2 * nth (length l / 2) (sort_amounts l)
unfolding twice_median
twice_median-odd l h = ground arith

twice_median-even :
    (l : List ℕ)
    → length l % 2 ≡ 0
    → All (λ (a : ℕ). a ≤ 2 ^ 52) l
    → twice_median l ≡ nth (length l / 2 - 1) (sort_amounts l) + nth (length l / 2) (sort_amounts l)
unfolding twice_median
twice_median-even l h k =
    let sorted : List ℕ = sort_amounts l in
    let within : All (λ (a : ℕ). a ≤ 2 ^ 52) sorted =
      All-sort_amounts (λ (a : ℕ). a ≤ 2 ^ 52) l k in
    let sum : ℕ = nth (length l / 2 - 1) sorted + nth (length l / 2) sorted in
    let exact : float_of sum ≡ sum = float_of-exact sum (
      omega (
        arith,
        nth-within (2 ^ 52) (length l / 2 - 1) sorted within,
        nth-within (2 ^ 52) (length l / 2) sorted within,
      )) in
    rw (h, exact) refl

-- The lower of the middle two amounts is no higher than the other.
middle_le :
    (l : List ℕ) → nth (length l / 2 - 1) (sort_amounts l) ≤ nth (length l / 2) (sort_amounts l)
middle_le [] = omega arith
middle_le (a ∷ []) = omega arith
middle_le (a ∷ b ∷ l) =
    let n : ℕ = length (a ∷ b ∷ l) in
    let middle : suc (n / 2 - 1) ≡ n / 2 = omega arith in
    rw middle at (
      nth-le-nth (n / 2 - 1) (sort_amounts (a ∷ b ∷ l)) (sort_amounts-IsSorted (a ∷ b ∷ l))
        (omega (arith, length-sort_amounts (a ∷ b ∷ l))))

twice_median-le :
    (l : List ℕ) → IsExact l → twice_median l ≤ 2 * nth (length l / 2) (sort_amounts l)
twice_median-le l (inl odd) = omega (arith, twice_median-odd l odd)
twice_median-le l (inr small) = elim (Bool-cases (length l % 2 == 1)) [
  | inl t ↦ omega (arith, twice_median-odd l (ground arith))
  | inr f ↦ omega (arith, twice_median-even l (ground arith) small, middle_le l)
]

-- No more than half of the amounts are below their median, where that is not rounded.
pub count_under_median-twice_median :
    (l : List ℕ) → IsExact l → count_under_median (twice_median l) l ≤ length l / 2
count_under_median-twice_median l h =
    let middle : ℕ = nth (length l / 2) (sort_amounts l) in
    omega (
      arith,
      count_under_median-le (twice_median l) middle l (twice_median-le l h),
      count_below-nth (length l / 2) (sort_amounts l) (sort_amounts-IsSorted l),
      count_below-sort_amounts middle l,
    )

-- How many of `clients` would be closed, were each to ask next.
abbrev pub closed_of : Keeping → (ℕ → ℕ) → Uses → List ℕ → ℕ
closed_of k kismet uses [] = 0
closed_of k kismet uses (c ∷ cs) =
    if closes k kismet c uses then suc (closed_of k kismet uses cs) else closed_of k kismet uses cs

closed_of-le :
    (k : Keeping) (kismet : ℕ → ℕ) (uses : Uses) (cs : List ℕ)
    → closed_of k kismet uses cs
      ≤ count_under_median
          (twice_median (amounts_of kismet (open_clients uses)))
          (amounts_of kismet cs)
unfolding closes
closed_of-le k kismet uses [] = omega arith
closed_of-le k kismet uses (c ∷ cs) = ground (arith, closed_of-le k kismet uses cs)

length-amounts_of : (kismet : ℕ → ℕ) (cs : List ℕ) → length (amounts_of kismet cs) ≡ length cs
length-amounts_of kismet [] = refl
length-amounts_of kismet (c ∷ cs) = omega (arith, length-amounts_of kismet cs)

All-amounts_of :
    (kismet : ℕ → ℕ) (m : ℕ) (cs : List ℕ)
    → All (λ (c : ℕ). kismet c ≤ m) cs
    → All (λ (a : ℕ). a ≤ m) (amounts_of kismet cs)
All-amounts_of kismet m [] h = tt
All-amounts_of kismet m (c ∷ cs) h = (h.0, All-amounts_of kismet m cs h.1)

-- Where the clients connected and not being closed are odd in number, or each of them holds at most
-- 2 ^ 52 Kismet, no more than half of them are poor enough to be closed.
pub closes_at_most_half :
    (k : Keeping) (kismet : ℕ → ℕ) (uses : Uses)
    → (length (open_clients uses) % 2 ≡ 1) ⊎ All (λ (c : ℕ). kismet c ≤ 2 ^ 52) (open_clients uses)
    → 2 * closed_of k kismet uses (open_clients uses) ≤ length (open_clients uses)
closes_at_most_half k kismet uses h =
    let clients : List ℕ = open_clients uses in
    let amounts : List ℕ = amounts_of kismet clients in
    let exact : IsExact amounts = elim h [
      | inl odd ↦ inl (rw (length-amounts_of kismet clients) odd)
      | inr small ↦ inr (All-amounts_of kismet (2 ^ 52) clients small)
    ] in
    omega (
      arith,
      closed_of-le k kismet uses clients,
      count_under_median-twice_median amounts exact,
      length-amounts_of kismet clients,
    )
