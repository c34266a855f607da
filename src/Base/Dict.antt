-- ===== src/Base/Dict.antt =====
-- Python's `dict`, as the pairs of its keys and values in the order in which they were first set.
use Prim.Native.Nat.{ℕ, ◌+◌}
use mathlib.Core.Path.{◌≡◌, refl, subst}
use mathlib.Core.Logic.{inl, inr}
use mathlib.Core.Bool.{Bool, true, false, ◌||◌}
use mathlib.Core.Option.{Option, none, some}
use mathlib.Core.List.{List, [], ◌∷◌}
use native.Mathlib.Omega.{arith}
use libranet.Base.Tests.{if◌then◌else◌, Bool-cases, nat_eq, option_eq, Eq}
use libranet.Base.Lists.{sum_by}

abbrev pub Dict {ℓ κ} : Type ℓ → Type κ → Type (ℓ ⊔ κ)
Dict K V = List (K × V)

module _ {ℓ κ} {K : Type ℓ} ⦃e : Eq K⦄ {V : Type κ} where
  -- `d.get(k)`
  abbrev pub lookup : K → Dict K V → Option V
  lookup k [] = none
  lookup k ((j, v) ∷ d) = if e.beq j k then some v else lookup k d

  -- `d.get(k, v)`
  abbrev pub get_or : K → V → Dict K V → V
  get_or k v [] = v
  get_or k v ((j, w) ∷ d) = if e.beq j k then w else get_or k v d

  -- `d[k] = v`
  abbrev pub insert : K → V → Dict K V → Dict K V
  insert k v [] = (k, v) ∷ []
  insert k v ((j, w) ∷ d) = if e.beq j k then (j, v) ∷ d else (j, w) ∷ insert k v d

  -- `d.setdefault(k, v)`
  abbrev pub set_default : K → V → Dict K V → Dict K V
  set_default k v [] = (k, v) ∷ []
  set_default k v ((j, w) ∷ d) = if e.beq j k then (j, w) ∷ d else (j, w) ∷ set_default k v d

  -- `d.pop(k, None)`, but for what it gives
  abbrev pub delete : K → Dict K V → Dict K V
  delete k [] = []
  delete k ((j, w) ∷ d) = if e.beq j k then delete k d else (j, w) ∷ delete k d

abbrev pub keys {ℓ κ} : {K : Type ℓ} {V : Type κ} → Dict K V → List K
keys [] = []
keys ((k, v) ∷ d) = k ∷ keys d

module _ {ℓ} {K : Type ℓ} ⦃e : Eq K⦄ where
  -- Whether a list of keys holds `k`.
  abbrev pub member : K → List K → Bool
  member k [] = false
  member k (j ∷ ks) = e.beq j k || member k ks

  -- The keys `ks`, none of them twice.
  abbrev pub IsDistinct : List K → Type 0
  IsDistinct [] = Unit
  IsDistinct (k ∷ ks) = (member k ks ≡ false) × IsDistinct ks

  -- A set of keys with `k` added.
  abbrev pub add_key : K → List K → List K
  add_key k ks = if member k ks then ks else k ∷ ks

  pub beq_refl : (k : K) → e.beq k k ≡ true
  beq_refl k = (e.beq_iff k k).1 refl

module _ {ℓ κ} {K : Type ℓ} ⦃e : Eq K⦄ {V : Type κ} where
  pub lookup-insert :
      (k j : K) (v : V) (d : Dict K V)
      → lookup j (insert k v d) ≡ (if e.beq k j then some v else lookup j d)
  lookup-insert k j v [] = refl
  lookup-insert k j v ((i, w) ∷ d) =
      ground (arith, e.beq_iff k j, e.beq_iff i k, e.beq_iff i j, lookup-insert k j v d)

  pub lookup-set_default :
      (k j : K) (v : V) (d : Dict K V)
      → lookup j (set_default k v d)
        ≡ (elim (lookup j d) [ none ↦ if e.beq k j then some v else none | some w ↦ some w ])
  lookup-set_default k j v [] = refl
  lookup-set_default k j v ((i, w) ∷ d) =
      ground (arith, e.beq_iff k j, e.beq_iff i k, e.beq_iff i j, lookup-set_default k j v d)

  pub lookup-delete :
      (k j : K) (d : Dict K V) → lookup j (delete k d) ≡ (if e.beq k j then none else lookup j d)
  lookup-delete k j [] = ground arith
  lookup-delete k j ((i, w) ∷ d) =
      ground (arith, e.beq_iff k j, e.beq_iff i k, e.beq_iff i j, lookup-delete k j d)

  pub get_or-insert :
      (k j : K) (v w : V) (d : Dict K V)
      → get_or j w (insert k v d) ≡ (if e.beq k j then v else get_or j w d)
  get_or-insert k j v w [] = refl
  get_or-insert k j v w ((i, u) ∷ d) =
      ground (arith, e.beq_iff k j, e.beq_iff i k, e.beq_iff i j, get_or-insert k j v w d)

module _ {ℓ κ} {K : Type ℓ} ⦃e : Eq K⦄ {V : Type κ} where
  pub get_or_lem :
      (k : K) (v : V) (d : Dict K V) → get_or k v d ≡ (elim (lookup k d) [ none ↦ v | some w ↦ w ])
  get_or_lem k v [] = refl
  get_or_lem k v ((j, w) ∷ d) = ground (arith, get_or_lem k v d)

  pub lookup-absent : (k : K) (d : Dict K V) → member k (keys d) ≡ false → lookup k d ≡ none
  lookup-absent k [] h = refl
  lookup-absent k ((j, w) ∷ d) h = ground (arith, lookup-absent k d)

  pub member-keys-insert :
      (k j : K) (v : V) (d : Dict K V)
      → member j (keys (insert k v d)) ≡ (e.beq k j || member j (keys d))
  member-keys-insert k j v [] = ground arith
  member-keys-insert k j v ((i, w) ∷ d) =
      ground (arith, e.beq_iff k j, e.beq_iff i k, e.beq_iff i j, member-keys-insert k j v d)

  pub insert-IsDistinct :
      (k : K) (v : V) (d : Dict K V) → IsDistinct (keys d) → IsDistinct (keys (insert k v d))
  insert-IsDistinct k v [] u = (refl, tt)
  insert-IsDistinct k v ((i, w) ∷ d) u =
      ground
        (arith, e.beq_iff i k, e.beq_iff k i, member-keys-insert k i v d, insert-IsDistinct k v d)

module _ {ℓ κ} {K : Type ℓ} ⦃e : Eq K⦄ {V : Type κ} where
  pub member-keys-delete :
      (k j : K) (d : Dict K V)
      → member j (keys (delete k d)) ≡ (if e.beq k j then false else member j (keys d))
  member-keys-delete k j [] = ground arith
  member-keys-delete k j ((i, w) ∷ d) =
      ground (arith, e.beq_iff k j, e.beq_iff i k, e.beq_iff i j, member-keys-delete k j d)

  pub delete-IsDistinct :
      (k : K) (d : Dict K V) → IsDistinct (keys d) → IsDistinct (keys (delete k d))
  delete-IsDistinct k [] u = tt
  delete-IsDistinct k ((i, w) ∷ d) u =
      ground (arith, e.beq_iff i k, e.beq_iff k i, member-keys-delete k i d, delete-IsDistinct k d)

module _ {ℓ κ} {K : Type ℓ} ⦃e : Eq K⦄ {V : Type κ} (P : V → Type 0) where
  -- A predicate of each value.
  abbrev pub AllValues : Dict K V → Type 0
  AllValues [] = Unit
  AllValues ((k, v) ∷ d) = P v × AllValues d

  pub lookup-AllValues : (k : K) (v : V) (d : Dict K V) → AllValues d → lookup k d ≡ some v → P v
  lookup-AllValues k v [] a h = absurd cc
  lookup-AllValues k v ((j, w) ∷ d) a h = elim (Bool-cases (e.beq j k)) [
    | inl t ↦ let same : w ≡ v = ground (arith, t) in subst P same a.0
    | inr f ↦ lookup-AllValues k v d a.1 (ground (arith, f))
  ]

  pub insert-AllValues :
      (k : K) (v : V) (d : Dict K V) → AllValues d → P v → AllValues (insert k v d)
  insert-AllValues k v [] a h = (h, tt)
  insert-AllValues k v ((j, w) ∷ d) a h = elim (Bool-cases (e.beq j k)) [
    | inl t ↦ rw t (h, a.1)
    | inr f ↦ rw f (a.0, insert-AllValues k v d a.1 h)
  ]

  pub delete-AllValues : (k : K) (d : Dict K V) → AllValues d → AllValues (delete k d)
  delete-AllValues k [] a = tt
  delete-AllValues k ((j, w) ∷ d) a = elim (Bool-cases (e.beq j k)) [
    | inl t ↦ rw t (delete-AllValues k d a.1)
    | inr f ↦ rw f (a.0, delete-AllValues k d a.1)
  ]

module _ {ℓ} {K : Type ℓ} ⦃e : Eq K⦄ where
  -- `d[k] = d.get(k, 0) + n`
  abbrev pub add_count : K → ℕ → Dict K ℕ → Dict K ℕ
  add_count k n d = insert k (get_or k 0 d + n) d

  abbrev pub total : Dict K ℕ → ℕ
  total d = sum_by (λ (entry : K × ℕ). entry.1) d

  -- The sum of what `d` counts for each of `ks`.
  abbrev pub sum_at : List K → Dict K ℕ → ℕ
  sum_at ks d = sum_by (λ k. get_or k 0 d) ks

  pub total-insert :
      (k : K) (n : ℕ) (d : Dict K ℕ) → total (insert k n d) + get_or k 0 d ≡ total d + n
  total-insert k n [] = omega arith
  total-insert k n ((j, m) ∷ d) = ground (arith, total-insert k n d)

  pub total-add_count : (k : K) (n : ℕ) (d : Dict K ℕ) → total (add_count k n d) ≡ total d + n
  total-add_count k n d = omega (arith, total-insert k (get_or k 0 d + n) d)

  pub sum_at-add_count_out :
      (k : K) (n : ℕ) (ks : List K) (d : Dict K ℕ)
      → member k ks ≡ false
      → sum_at ks (add_count k n d) ≡ sum_at ks d
  sum_at-add_count_out k n [] d h = refl
  sum_at-add_count_out k n (j ∷ ks) d h = ground (
    arith,
    e.beq_iff k j,
    e.beq_iff j k,
    get_or-insert k j (get_or k 0 d + n) 0 d,
    sum_at-add_count_out k n ks d,
  )

  -- Counting `n` more under one of the distinct keys `ks` adds `n` to their sum.
  pub sum_at-add_count :
      (k : K) (n : ℕ) (ks : List K) (d : Dict K ℕ)
      → IsDistinct ks
      → member k ks ≡ true
      → sum_at ks (add_count k n d) ≡ sum_at ks d + n
  sum_at-add_count k n [] d u h = cc
  sum_at-add_count k n (j ∷ ks) d u h = ground (
    arith,
    e.beq_iff k j,
    e.beq_iff j k,
    get_or-insert k j (get_or k 0 d + n) 0 d,
    sum_at-add_count_out k n ks d,
    sum_at-add_count k n ks d u.1,
  )

  pub add_key-IsDistinct : (k : K) (ks : List K) → IsDistinct ks → IsDistinct (add_key k ks)
  add_key-IsDistinct k ks u = ground arith

  pub member-add_key :
      (k j : K) (ks : List K) → member j (add_key k ks) ≡ (e.beq k j || member j ks)
  member-add_key k j ks = ground (arith, e.beq_iff k j)
